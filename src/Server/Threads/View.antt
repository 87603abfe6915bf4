-- ===== src/Server/Threads/View.antt =====
-- The list of contexts that the pool shares, as the list of Server.antt, where a context has no number.
use streamio.Common.{
  ℕ, zero, suc, ◌<◌, ◌≡◌, refl, sym, ap, ap₂, ◌∙◌, ◌≢◌, inl, inr, false, none, some, List, [], ◌∷◌,
  arith, get_elem?, set, if◌then◌else◌, Option-cases,
}
use streamio.Server.{Slot, null, live, freed, Server, is_null, max_context_count}
use streamio.Server.Threads.{Shared}

-- The list of `f 0` to `f (n - 1)`.
abbrev pub tabulate {ℓ} : {A : Type ℓ} → ℕ → (ℕ → A) → List A
tabulate zero f = []
tabulate (suc n) f = f 0 ∷ tabulate n (λ j. f (suc j))

pub get_elem?-tabulate : (n i : ℕ) (f : ℕ → Slot) → i < n → get_elem? (tabulate n f) i ≡ some (f i)
get_elem?-tabulate zero i f lt = absurd (omega arith)
get_elem?-tabulate (suc n) zero f lt = refl
get_elem?-tabulate (suc n) (suc i) f lt = get_elem?-tabulate n i (λ j. f (suc j)) (omega arith)

tabulate-ext : (n : ℕ) (f g : ℕ → Slot) → ((j : ℕ) → f j ≡ g j) → tabulate n f ≡ tabulate n g
tabulate-ext zero f g h = refl
tabulate-ext (suc n) f g h =
    ap₂ ◌∷◌ (h 0) (tabulate-ext n (λ j. f (suc j)) (λ j. g (suc j)) (λ j. h (suc j)))

tabulate-set :
    (n i : ℕ) (f g : ℕ → Slot)
    → i < n
    → ((j : ℕ) → i ≢ j → g j ≡ f j)
    → tabulate n g ≡ set (tabulate n f) i (g i)
tabulate-set zero i f g lt h = absurd (omega arith)
tabulate-set (suc n) zero f g lt h =
    ap (◌∷◌ (g 0)) (tabulate-ext n (λ j. g (suc j)) (λ j. f (suc j)) (λ j. h (suc j) (omega arith)))
tabulate-set (suc n) (suc i) f g lt h = ap₂ ◌∷◌ (h 0 (omega arith)) (
    tabulate-set n i (λ j. f (suc j)) (λ j. g (suc j)) (omega arith)
      (λ j ne. h (suc j) (omega arith)))

-- The list of the server, without the numbers of the contexts.
abbrev pub slot : Shared → ℕ → Slot
slot m i = elim (m.opened_ctx_list i) [ none ↦ null | some c ↦ if m.is_open c then live else freed ]

abbrev pub view : Shared → Server
view m = record { opened_ctx_list = tabulate max_context_count (slot m); told = m.told }

pub slot-none : (i : ℕ) (m : Shared) → m.opened_ctx_list i ≡ none → slot m i ≡ null
slot-none i m e = rw (slot, e) refl

pub slot-some :
    (i : ℕ) (m : Shared) {c : ℕ}
    → m.opened_ctx_list i ≡ some c
    → slot m i ≡ (if m.is_open c then live else freed)
slot-some i m e = rw (slot, e) refl

pub is_null-slot :
    (i : ℕ) (m : Shared) {c : ℕ} → m.opened_ctx_list i ≡ some c → is_null (slot m i) ≡ false
unfolding is_null
is_null-slot i m {c} e = ground (arith, slot-some i m e)

-- A move that changes one entry changes one entry of the list.
pub view-eq :
    (m m' : Shared) (i : ℕ) (x : Slot)
    → i < max_context_count
    → slot m' i ≡ x
    → ((j : ℕ) → i ≢ j → slot m' j ≡ slot m j)
    → (view m').opened_ctx_list ≡ set (view m).opened_ctx_list i x
view-eq m m' i x lt e h =
    tabulate-set max_context_count i (slot m) (slot m') lt h
    ∙ ap (set (tabulate max_context_count (slot m)) i) e

-- A context that is not in entry `i` is as it was in `m'`.
pub slot-eq :
    (m m' : Shared) (j : ℕ)
    → m'.opened_ctx_list j ≡ m.opened_ctx_list j
    → ((c : ℕ) → m.opened_ctx_list j ≡ some c → m'.is_open c ≡ m.is_open c)
    → slot m' j ≡ slot m j
slot-eq m m' j e h = elim (Option-cases (m.opened_ctx_list j)) [
  | inl n ↦ slot-none j m' (e ∙ n) ∙ sym (slot-none j m n)
  | inr (c, q) ↦
      slot-some j m' (e ∙ q) ∙ ap (λ b. if b then live else freed) (h c q) ∙ sym (slot-some j m q)
]

-- ===== src/Dma/Tables.antt =====
-- The loops over the tables of a channel, and what the operations leave of their shape.
use mathlib.Core.Option
use streamio.Common.{
  ℕ, zero, suc, ◌+◌, ◌*◌, ◌≤◌, ◌<◌, ◌≡◌, refl, ap, ◌∙◌, ◌&&◌, some, List, [], ◌∷◌, map, length,
  get_elem?, set, arith, ltb, leb, if◌then◌else◌, get_elem?_of_lt, get_elem?-set_self,
  get_elem?-set_ne, length-set,
}
use streamio.Dma.{ChannelBuffer, Channel, no_error, sizeof_channel_buffer}
use streamio.Dma.Files.{clear_statuses}

-- A write of an entry that agrees in `f` with the one that it replaces does not show in `map f`.
pub map-set {ℓ κ} :
    {A : Type ℓ} {B : Type κ} (f : A → B) (xs : List A) (i : ℕ) (a a' : A)
    → get_elem? xs i ≡ some a
    → f a' ≡ f a
    → map f (set xs i a') ≡ map f xs
map-set f [] i a a' h e = refl
map-set f (x ∷ xs) zero a a' h e = ground (arith, e)
map-set f (x ∷ xs) (suc i) a a' h e = ap (◌∷◌ (f x)) (map-set f xs i a a' h e)

-- The physical addresses of `n` buffers from index `i` on.
abbrev pub handles_from : ℕ → ℕ → ℕ → List ℕ
handles_from zero i phys = []
handles_from (suc n) i phys = (phys + sizeof_channel_buffer * i) ∷ handles_from n (i + 1) phys

pub length-handles_from : (n i phys : ℕ) → length (handles_from n i phys) ≡ n
length-handles_from zero i phys = refl
length-handles_from (suc n) i phys = ap suc (length-handles_from n (i + 1) phys)

pub get_elem?-handles_from :
    (n i phys k : ℕ)
    → k < n
    → get_elem? (handles_from n i phys) k ≡ some (phys + sizeof_channel_buffer * (i + k))
get_elem?-handles_from zero i phys k h = elim h [ ]
get_elem?-handles_from (suc n) i phys zero h = ap some (omega arith)
get_elem?-handles_from (suc n) i phys (suc k) h =
    get_elem?-handles_from n (i + 1) phys k (omega arith) ∙ ap some (omega arith)

-- What no operation on a channel changes.
abbrev pub handles : Channel → List ℕ
handles c = map (λ d. d.dma_handle) c.bdtable

pub record SameShape (c c' : Channel) : Type 0 where
  pub buffers : length c'.buffer_table ≡ length c.buffer_table
  pub entries : handles c' ≡ handles c
  pub base : c'.buffer_phys_addr ≡ c.buffer_phys_addr

pub SameShape-refl : (c : Channel) → SameShape c c
SameShape-refl c = record { buffers = refl; entries = refl; base = refl }

pub SameShape-trans : {c c' c'' : Channel} → SameShape c c' → SameShape c' c'' → SameShape c c''
SameShape-trans p q = record {
  buffers = q.buffers ∙ p.buffers;
  entries = q.entries ∙ p.entries;
  base = q.base ∙ p.base;
}

abbrev pub clear : ChannelBuffer → ChannelBuffer
clear b = record b { status = no_error }

-- The loop resets `n` statuses from `i` on, and nothing else.
pub clear_statuses_lem :
    (n i : ℕ) (bs : List ChannelBuffer)
    → i + n ≤ length bs
    → (bs' : List ChannelBuffer) × (clear_statuses n i bs ≡ some bs')
      × (length bs' ≡ length bs)
      × ((j : ℕ)
          → get_elem? bs' j ≡ (
              if leb i j && ltb j (i + n)
              then Option.map clear (get_elem? bs j)
              else get_elem? bs j))
unfolding clear_statuses
clear_statuses_lem zero i bs h = (bs, refl, refl, λ j. ground arith)
clear_statuses_lem (suc n) i bs h =
    let (b, e) = get_elem?_of_lt bs i (omega arith) in
    let bs1 = set bs i (clear b) in
    let (bs', run, same, all) =
      clear_statuses_lem n (i + 1) bs1 (omega (arith, length-set bs i (clear b))) in
    (
      bs',
      rw (e, clear_statuses) run,
      same ∙ length-set bs i (clear b),
      λ j.
          ground
            (arith, all j, e, get_elem?-set_self bs i (clear b), get_elem?-set_ne bs i j (clear b)),
    )

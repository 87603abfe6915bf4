-- ===== src/Server/Threads/Race.antt =====
-- A schedule in which every client of a pool of `n` threads is told id 0.
use native.Mathlib.Decide.{dec_lt}
use mathlib.Core.Path.{subst, fun_ext}
use streamio.Common.{
  ℕ, zero, suc, ◌+◌, ◌<◌, ◌≤◌, ◌≡◌, refl, sym, ap, ap₂, ◌∙◌, Bool, true, false, Option, none, some,
  [], arith, replicate, replicate-add,
}
use streamio.Server.Threads.{
  update, Shared, Pc, returned, ready, looking, replying, storing, Move, accept, open_frame, create,
  reply, store, Pool, turn, started, Reach, start, later,
}

-- A move of thread `t`, to a state that is given.
turn_to :
    {n : ℕ} {m m' : Shared} {pc : ℕ → Pc} {p p' : Pc} (t : ℕ) (s : Pool)
    → Reach n (record { shared = m; pc = pc })
    → t < n
    → pc t ≡ p
    → Move m p m' p'
    → m' ≡ s.shared
    → ((j : ℕ) → update pc t p' j ≡ s.pc j)
    → Reach n s
turn_to {n} {m} {m'} {pc} {p} {p'} t s r lt e mv em h =
    subst (Reach n) (ap₂ (λ x f. record { shared = x; pc = f }) em (fun_ext h))
      (later r (turn t lt (subst (λ q. Move m q m' p') (sym e) mv)))

-- The contexts after `k` were created
abbrev pub opens : ℕ → ℕ → Bool
opens zero = λ c. false
opens (suc k) = update (opens k) k true

opens-eq : (k c : ℕ) → c < k → opens k c ≡ true
opens-eq zero c lt = absurd (omega arith)
opens-eq (suc k) c lt = ground (arith, opens-eq k c)

abbrev split : ℕ → Pc → Pc → ℕ → Pc
split k p q j = elim (dec_lt j k) [ yes lt ↦ p | no ge ↦ q ]

-- The first `k` threads found entry 0 null.
abbrev all_find : ℕ → Pool
all_find k = record {
  shared = record {
    opened_ctx_list = λ i. none;
    open_count = k;
    is_open = opens k;
    told = [];
    unsent = 0;
  };
  pc = λ j. split k (replying 0 j) returned j;
}

-- The first `k` of `n` threads sent id 0.
abbrev all_tell : ℕ → ℕ → Pool
all_tell n k = record {
  shared = record {
    opened_ctx_list = λ i. none;
    open_count = n;
    is_open = opens n;
    told = replicate k 0;
    unsent = 0;
  };
  pc = λ j. split k (storing 0 j) (split n (replying 0 j) returned j) j;
}

-- The first `k` of `n` threads stored their context in entry 0.
abbrev stored_by : ℕ → ℕ → Option ℕ
stored_by zero = λ i. none
stored_by (suc k) = update (λ i. none) 0 (some k)

abbrev all_store : ℕ → ℕ → Pool
all_store n k = record {
  shared = record {
    opened_ctx_list = stored_by k;
    open_count = n;
    is_open = opens n;
    told = replicate n 0;
    unsent = 0;
  };
  pc = λ j. split k ready (split n (storing 0 j) returned j) j;
}

stored_by-update : (k i : ℕ) → update (stored_by k) 0 (some k) i ≡ stored_by (suc k) i
stored_by-update zero i = refl
stored_by-update (suc k) i = ground arith

all_find-Reach : (n k : ℕ) → k ≤ n → Reach n (all_find k)
all_find-Reach n zero le =
    subst (λ f. Reach n (record { shared = started; pc = f })) (fun_ext (λ j. ground arith)) start
all_find-Reach n (suc k) le =
    let r = all_find-Reach n k (omega arith) in
    let s = (all_find k).shared in
    let s1 : Pool = record { shared = s; pc = update (all_find k).pc k ready } in
    let s2 : Pool = record { shared = s; pc = update s1.pc k (looking 0) } in
    let r1 = turn_to k s1 r (omega arith) (ground arith) accept refl (λ j. refl) in
    let r2 = turn_to k s2 r1 (omega arith) (ground arith) open_frame refl (λ j. refl) in
    let next : k + 1 ≡ suc k = omega arith in
    turn_to k (all_find (suc k)) r2 (omega arith) (ground arith) (create {i = 0} (omega arith) refl)
      (ap (λ c. record s { open_count = c; is_open = update (opens k) k true }) next)
      (λ j. ground arith)

all_tell-Reach : (n k : ℕ) → k ≤ n → Reach n (all_tell n k)
all_tell-Reach n zero le =
    subst (λ f. Reach n (record { shared = (all_find n).shared; pc = f }))
      (fun_ext (λ j. ground arith)) (all_find-Reach n n (omega arith))
all_tell-Reach n (suc k) le =
    let s = (all_tell n k).shared in
    let next : k + 1 ≡ suc k = omega arith in
    turn_to k (all_tell n (suc k)) (all_tell-Reach n k (omega arith)) (omega arith) (ground arith)
      (reply {c = k})
      (ap (λ ids. record s { told = ids })
        (sym (replicate-add k 1 0) ∙ ap (λ c. replicate c 0) next))
      (λ j. ground arith)

all_store-Reach : (n k : ℕ) → k ≤ n → Reach n (all_store n k)
all_store-Reach n zero le =
    subst (λ f. Reach n (record { shared = (all_tell n n).shared; pc = f }))
      (fun_ext (λ j. ground arith)) (all_tell-Reach n n (omega arith))
all_store-Reach n (suc k) le =
    turn_to k (all_store n (suc k)) (all_store-Reach n k (omega arith)) (omega arith) (ground arith)
      (store {c = k})
      (ap (λ l. record (all_store n k).shared { opened_ctx_list = l })
        (fun_ext (stored_by-update k)))
      (λ j. ground arith)

stored_by-last : (k i c : ℕ) → stored_by (suc k) i ≡ some c → c ≡ k
stored_by-last k i c e = ground arith

-- A pool of `n + 1` threads reaches a state in which every reply went out, `n + 1` clients were all
-- told id 0, all their contexts are open, and only the last of these is in the list.
pub told_race :
    (n : ℕ)
    → (s : Pool) × Reach (suc n) s
      × (s.shared.unsent ≡ 0)
      × (s.shared.told ≡ replicate (suc n) 0)
      × ((c : ℕ) → c < suc n → s.shared.is_open c ≡ true)
      × ((i c : ℕ) → s.shared.opened_ctx_list i ≡ some c → c ≡ n)
told_race n = (
  all_store (suc n) (suc n),
  all_store-Reach (suc n) (suc n) (omega arith),
  refl,
  refl,
  opens-eq (suc n),
  stored_by-last n,
)

-- ===== src/Server/Threads/Ids.antt =====
-- How many clients can be told the same id, however the tasks interleave.
use native.Mathlib.Decide.{dec_lt, ℕ_discrete}
use mathlib.Core.Logic.{ite}
use streamio.Common.{
  ℕ, zero, suc, ◌+◌, ◌<◌, ◌≤◌, ◌≡◌, refl, ◌≢◌, none, List, [], ◌∷◌, ◌++◌, ◌∙◌, arith,
}
use streamio.Server.Threads.Owners.{aim, Reach-Owned}
use streamio.Server.Threads.{
  update, Shared, Pc, returned, replying, storing, dropping, Move, accept, create, reply, discard,
  Pool, Step, turn, started, server_main, Reach,
}

-- How often an id was sent.
abbrev pub times : ℕ → List ℕ → ℕ
times i [] = 0
times i (j ∷ told) = ite (ℕ_discrete i j) 1 0 + times i told

times-append :
    (i j : ℕ) (told : List ℕ) → times i (told ++ (j ∷ [])) ≡ times i told + ite (ℕ_discrete i j) 1 0
times-append i j [] = omega arith
times-append i j (k ∷ told) = omega (arith, times-append i j told)

-- The sum of a weight over the first `n` threads.
abbrev pub weigh : (Pc → ℕ) → ℕ → (ℕ → Pc) → ℕ
weigh w zero pc = 0
weigh w (suc n) pc = w (pc n) + weigh w n pc

module _ (w : Pc → ℕ) (pc : ℕ → Pc) (t : ℕ) (p : Pc) where
  weigh-update_out : (n : ℕ) → n ≤ t → weigh w n (update pc t p) ≡ weigh w n pc
  weigh-update_out zero le = refl
  weigh-update_out (suc n) le = ground (arith, weigh-update_out n)

  weigh-update : (n : ℕ) → t < n → weigh w n (update pc t p) + w (pc t) ≡ weigh w n pc + w p
  weigh-update zero lt = absurd (omega arith)
  weigh-update (suc n) lt = elim (dec_lt t n) [
    | yes below ↦ ground (arith, weigh-update n)
    | no last ↦ ground (arith, weigh-update_out n)
  ]

-- An OPEN of entry `i` before and behind its reply.
abbrev asks : ℕ → Pc → ℕ
asks i (replying j c) = ite (ℕ_discrete i j) 1 0
asks i p = 0

abbrev sets : ℕ → Pc → ℕ
sets i (storing j c) = ite (ℕ_discrete i j) 1 0
sets i p = 0

-- An OPEN between its look at the entry and its store.
abbrev pub opening : Pc → ℕ
opening (replying i c) = 1
opening (storing i c) = 1
opening p = 0

weigh-opening :
    (i n : ℕ) (pc : ℕ → Pc) → weigh (asks i) n pc + weigh (sets i) n pc ≤ weigh opening n pc
weigh-opening i zero pc = omega arith
weigh-opening i (suc n) pc =
    let one : asks i (pc n) + sets i (pc n) ≤ opening (pc n) = ground arith in
    omega (arith, one, weigh-opening i n pc)

-- The states that `n` threads reach with `k` of them at most at a time in such an OPEN.
pub data Within (n k : ℕ) : Pool → Type 0 where
  start : Within n k server_main
  later : {s s' : Pool} → Within n k s → Step n s s' → weigh opening n s'.pc ≤ k → Within n k s'

-- While every reply went out: an id of a null entry was told only by tasks that are about to store,
-- and the tasks that will tell an id and those that told it are `k` at most.
record Limited (n k : ℕ) (m : Shared) (pc : ℕ → Pc) : Type 0 where
  fresh : (i : ℕ) → m.opened_ctx_list i ≡ none → times i m.told ≡ weigh (sets i) n pc
  limit : (i : ℕ) → times i m.told + weigh (asks i) n pc ≤ k
  all_sent : (t i c : ℕ) → pc t ≢ dropping i c

module _ {n k : ℕ} {m : Shared} {pc : ℕ → Pc} (inv : Limited n k m pc) (t : ℕ) (lt : t < n) where
  record Mover (i : ℕ) (p p' : Pc) : Type 0 where
    here : pc t ≡ p
    asking : weigh (asks i) n (update pc t p') + asks i p ≡ weigh (asks i) n pc + asks i p'
    setting : weigh (sets i) n (update pc t p') + sets i p ≡ weigh (sets i) n pc + sets i p'
    room : weigh (asks i) n (update pc t p') + weigh (sets i) n (update pc t p') ≤ k

  mover : (i : ℕ) (p' : Pc) → weigh opening n (update pc t p') ≤ k → Mover i (pc t) p'
  mover i p' few = record {
    here = refl;
    asking = weigh-update (asks i) pc t p' n lt;
    setting = weigh-update (sets i) pc t p' n lt;
    room = omega (arith, weigh-opening i n (update pc t p'), few);
  }

  Move-fresh :
      {m' : Shared} {p p' : Pc} (i : ℕ)
      → Move m p m' p'
      → Mover i p p'
      → m'.unsent ≡ 0
      → m'.opened_ctx_list i ≡ none
      → times i m'.told ≡ weigh (sets i) n (update pc t p')
  Move-fresh i accept f u e = ground (arith, inv.fresh i)
  Move-fresh i (reply {i = j}) f u e = ground (arith, inv.fresh i, times-append i j m.told)
  Move-fresh i (discard {i = j} {c}) f u e = absurd (inv.all_sent t j c f.here)
  Move-fresh i mv f u e = ground (arith, inv.fresh i)

  Move-limit :
      {m' : Shared} {p p' : Pc} (i : ℕ)
      → Move m p m' p'
      → Mover i p p'
      → m'.unsent ≡ 0
      → times i m'.told + weigh (asks i) n (update pc t p') ≤ k
  Move-limit i accept f u = ground (arith, inv.limit i)
  Move-limit i (reply {i = j}) f u = ground (arith, inv.limit i, times-append i j m.told)
  Move-limit i (create {i = j} l free) f u = ground (arith, inv.limit i, inv.fresh i)
  Move-limit i mv f u = ground (arith, inv.limit i, inv.fresh i)

  Move-all_sent :
      {m' : Shared} {p p' : Pc}
      → Move m p m' p'
      → m'.unsent ≡ 0
      → (u i c : ℕ) → update pc t p' u ≢ dropping i c
  Move-all_sent accept z u i c e = ground (arith, inv.all_sent u i c)
  Move-all_sent mv z u i c e = ground (arith, inv.all_sent u i c)

  Move-Limited :
      {m' : Shared} {p' : Pc}
      → Move m (pc t) m' p'
      → weigh opening n (update pc t p') ≤ k
      → m'.unsent ≡ 0
      → Limited n k m' (update pc t p')
  Move-Limited {p'} mv few z = record {
    fresh = λ i. Move-fresh i mv (mover i p' few) z;
    limit = λ i. Move-limit i mv (mover i p' few) z;
    all_sent = Move-all_sent mv z;
  }

weigh-eq-zero : (w : Pc → ℕ) (n : ℕ) (pc : ℕ → Pc) → ((t : ℕ) → w (pc t) ≡ 0) → weigh w n pc ≡ 0
weigh-eq-zero w zero pc h = refl
weigh-eq-zero w (suc n) pc h = omega (arith, h n, weigh-eq-zero w n pc h)

started-Limited : (n k : ℕ) → Limited n k started (λ t. returned)
started-Limited n k = record {
  fresh = λ i e. omega (arith, weigh-eq-zero (sets i) n (λ t. returned) (λ t. refl));
  limit = λ i. omega (arith, weigh-eq-zero (asks i) n (λ t. returned) (λ t. refl));
  all_sent = λ t i c e. cc;
}

Move-unsent : {m m' : Shared} {p p' : Pc} → Move m p m' p' → m'.unsent ≡ 0 → m.unsent ≡ 0
Move-unsent accept z = z
Move-unsent mv z = ground arith

Within-Limited :
    {n k : ℕ} {s : Pool} → Within n k s → s.shared.unsent ≡ 0 → Limited n k s.shared s.pc
Within-Limited {n} {k} start z = started-Limited n k
Within-Limited (later r (turn t lt mv) few) z =
    Move-Limited (Within-Limited r (Move-unsent mv z)) t lt mv few z

Within-Reach : {n k : ℕ} {s : Pool} → Within n k s → Reach n s
Within-Reach start = Reach.start
Within-Reach (later r st few) = Reach.later (Within-Reach r) st

sets-eq-zero : (i : ℕ) (p : Pc) → aim p < 4 → 4 ≤ i → sets i p ≡ 0
sets-eq-zero i (storing j c) lt le = ground arith
sets-eq-zero i p lt le = refl

-- While every reply goes out, no id is told to more clients than there are tasks at a time between
-- their look at an entry and their store, in whatever order the tasks run, and none from 4 on is told
-- at all. With one at a time, as under a lock, the ids that clients were told differ.
pub times-Within :
    {n k : ℕ} {s : Pool} (i : ℕ)
    → Within n k s
    → s.shared.unsent ≡ 0
    → (times i s.shared.told ≤ k) × (4 ≤ i → times i s.shared.told ≡ 0)
times-Within {n} {k} {s} i r z =
    let inv = Within-Limited r z in
    let own = Reach-Owned (Within-Reach r) in
    (
      omega (arith, inv.limit i),
      λ le.
          inv.fresh i (own.last_null i le)
          ∙ weigh-eq-zero (sets i) n s.pc (λ t. sets-eq-zero i (s.pc t) (own.aims t) le),
    )

weigh-opening_le : (n : ℕ) (pc : ℕ → Pc) → weigh opening n pc ≤ n
weigh-opening_le zero pc = omega arith
weigh-opening_le (suc n) pc =
    let one : opening (pc n) ≤ 1 = ground arith in omega (arith, one, weigh-opening_le n pc)

Reach-Within : {n : ℕ} {s : Pool} → Reach n s → Within n n s
Reach-Within Reach.start = start
Reach-Within {n} (Reach.later {s'} r st) = later (Reach-Within r) st (weigh-opening_le n s'.pc)

-- The pool's size is a limit for every schedule.
times-Reach :
    {n : ℕ} {s : Pool} (i : ℕ)
    → Reach n s
    → s.shared.unsent ≡ 0
    → (times i s.shared.told ≤ n) × (4 ≤ i → times i s.shared.told ≡ 0)
times-Reach i r z = times-Within i (Reach-Within r) z

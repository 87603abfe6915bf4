-- ===== src/Server/Threads/Refine.antt =====
-- `handle_context` of Server.antt against the pool: what a reachable pool does when the other tasks
-- pause while one of them handles its frame.
use mathlib.Core.Path.{subst}
use streamio.Common.{ℕ, ◌<◌, ◌≡◌, refl, sym, ◌∙◌, ◌≢◌, Bool, Option, none, some, List, arith}
use streamio.Remote.{Socket}
use streamio.Server.{Handled, handle_context}
use streamio.Server.Threads.{update, Shared, Pc, crashed, Move, Pool, turn, Reach, later}
use streamio.Server.Threads.Owners.{Reach-Owned}
use streamio.Server.Threads.View.{view}
use streamio.Server.Threads.Alone.{
  Alone, done, next, handler, resume, Follows, crashes, answers, handle_context-Follows,
}

-- Only thread `t` went on, and stands at `p`.
pub record Paused (n t : ℕ) (s : Pool) (m : Shared) (p : Pc) (s' : Pool) : Type 0 where
  pub reached : Reach n s'
  pub shared : s'.shared ≡ m
  pub place : s'.pc t ≡ p
  pub others : (u : ℕ) → t ≢ u → s'.pc u ≡ s.pc u

Alone-Paused :
    {n : ℕ} (t : ℕ) {m m' : Shared} {p p' : Pc} (pc : ℕ → Pc)
    → Alone m p m' p'
    → Reach n (record { shared = m; pc = pc })
    → t < n
    → pc t ≡ p
    → (s' : Pool) × Paused n t (record { shared = m; pc = pc }) m' p' s'
Alone-Paused t {m} pc done r lt e = (
  record { shared = m; pc = pc },
  record { reached = r; shared = refl; place = e; others = λ u ne. refl },
)
Alone-Paused {n} t {m} pc (next {m' = m1} {p' = p1} mv run) r lt e =
    let step = later r (turn t lt (subst (λ q. Move m q m1 p1) (sym e) mv)) in
    let (s', z) = Alone-Paused t (update pc t p1) run step lt (ground arith) in
    (
      s',
      record {
        reached = z.reached;
        shared = z.shared;
        place = z.place;
        others = λ u ne. z.others u ne ∙ (ground arith);
      },
    )

-- What the pool reaches where `handle_context` gives `r`.
pub data Serves (n t : ℕ) (s : Pool) : Option Handled → Type 0 where
  faults :
      (s' : Pool) {m : Shared} {r : Option Handled}
      → Paused n t s m crashed s'
      → r ≡ none
      → Serves n t s r
  returns :
      (s' : Pool) {m : Shared} (h : Handled) {r : Option Handled}
      → r ≡ some h
      → Paused n t s m (resume h.success) s'
      → view m ≡ h.server
      → Serves n t s r

pool-Follows :
    {n : ℕ} (t : ℕ) (m : Shared) (pc : ℕ → Pc) {p : Pc} {r : Option Handled}
    → Reach n (record { shared = m; pc = pc })
    → t < n
    → pc t ≡ p
    → Follows m p r
    → Serves n t (record { shared = m; pc = pc }) r
pool-Follows t m pc reach lt e (crashes run q) =
    let (s', z) = Alone-Paused t pc run reach lt e in faults s' z q
pool-Follows t m pc reach lt e (answers h q run same) =
    let (s', z) = Alone-Paused t pc run reach lt e in returns s' h q z same

-- In any state that the pool reaches, let a task stand where it handles a frame, and the others pause:
-- the pool reaches a state in which the list and the ids are those that `handle_context`
-- leaves, the task is at its next receive or has ended as `handle_context` says, and no other
-- task has moved; where `handle_context` faults, the task has crashed.
pub handle_context-Serves :
    {n : ℕ} (t : ℕ) (sent : Bool) (junk frame : List ℕ) (s : Pool) (socket : Socket)
    → Reach n s
    → t < n
    → s.pc t ≡ handler junk frame socket
    → Serves n t s (handle_context sent junk frame (view s.shared) socket)
handle_context-Serves t sent junk frame s socket r lt e =
    pool-Follows t s.shared s.pc r lt e
      (handle_context-Follows sent junk frame s.shared s.pc socket (Reach-Owned r))

-- ===== src/Server/Threads/Tests.antt =====
-- The pool of four threads at concrete states, userspace/io_backend/src/io_backend.c.
use native.Mathlib.Decide.{ℕ_discrete}
use streamio.Common.{
  ℕ, ◌<◌, ◌≤◌, ◌≡◌, refl, from_le, ◌≢◌, true, some, List, [], ◌∷◌, arith, replicate,
}
use streamio.Remote.{closed, arrives, recv}
use streamio.Server.{handle_context, io_backend}
use streamio.Server.Threads.{
  testing, close_frame, started, storing, crashed, Pool, accept, open_frame, create, reply, store,
  turn, pool_size, Reach, start, later,
}
use streamio.Server.Threads.Ids.{times, Within, times-Within}
use streamio.Server.Threads.View.{view}
use streamio.Server.Threads.Alone.{handler}
use streamio.Server.Threads.Refine.{Serves, handle_context-Serves}
use streamio.Server.Threads.Race.{told_race}

-- Threads 0 and 3 get a connection, and thread 3 opens a context.
unfoldable one_open : (s : Pool) × Reach pool_size s × (s.shared.unsent ≡ 0)
unfolding ℕ_discrete
one_open = (
  _,
  later
      (later
        (later
          (later (later (later start (turn 0 (omega arith) accept)) (turn 3 (omega arith) accept))
            (turn 3 (omega arith) open_frame))
          (turn 3 (omega arith) (create (omega arith) refl)))
        (turn 3 (omega arith) reply))
      (turn 3 (omega arith) store),
  refl,
)

-- The same moves: one task at a time opens a context.
one_open-Within : Within pool_size 1 one_open.0
unfolding one_open ℕ_discrete
one_open-Within =
    Within.later
      (Within.later
        (Within.later
          (Within.later
            (Within.later (Within.later Within.start (turn 0 (omega arith) accept) (omega arith))
              (turn 3 (omega arith) accept) (omega arith))
            (turn 3 (omega arith) open_frame) (omega arith))
          (turn 3 (omega arith) (create (omega arith) refl)) (omega arith))
        (turn 3 (omega arith) reply) (omega arith))
      (turn 3 (omega arith) store) (omega arith)

times-Within_example :
    (times 0 one_open.0.shared.told ≤ 1) × (4 ≤ 0 → times 0 one_open.0.shared.told ≡ 0)
times-Within_example = times-Within 0 one_open-Within one_open.2

-- A CLOSE of context 0
abbrev close_bytes : List ℕ
close_bytes = 20 ∷ 69 ∷ 17 ∷ 0 ∷ 1 ∷ 0 ∷ 0 ∷ 0 ∷ 0 ∷ 0 ∷ 0 ∷ 0 ∷ []

-- Thread 3 of the pool with an open context gets the CLOSE.
unfoldable closing_pool : (s : Pool) × Reach pool_size s × (s.pc 3 ≡ testing 0)
unfolding one_open ℕ_discrete
closing_pool = (_, later one_open.1 (turn 3 (omega arith) (close_frame {id = 0})), refl)

closing_pool-handler : closing_pool.0.pc 3 ≡ handler [] close_bytes (arrives close_bytes closed)
unfolding closing_pool one_open ℕ_discrete from_le recv
closing_pool-handler = refl

handle_context-Serves_example :
    Serves pool_size 3 closing_pool.0
      (handle_context true [] close_bytes (view closing_pool.0.shared) (arrives close_bytes closed))
handle_context-Serves_example =
    handle_context-Serves 3 true [] close_bytes closing_pool.0 (arrives close_bytes closed)
      closing_pool.1 (omega arith) closing_pool-handler

-- The four clients of the pool are told the same id.
told_race_example :
    (s : Pool) × Reach pool_size s
    × (s.shared.unsent ≡ 0)
    × (s.shared.told ≡ replicate pool_size 0)
    × ((c : ℕ) → c < pool_size → s.shared.is_open c ≡ true)
    × ((i c : ℕ) → s.shared.opened_ctx_list i ≡ some c → c ≡ 3)
told_race_example = told_race 3

storing-ne-crashed : storing 0 0 ≢ crashed
storing-ne-crashed e = cc

-- The pool starts with the list of the server.
started-view : view started ≡ io_backend
unfolding io_backend
started-view = refl

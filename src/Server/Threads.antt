-- ===== src/Server/Threads.antt =====
-- `start_task` on the threads of the pool, userspace/io_backend/src/io_backend.c: the tasks share
-- `opened_ctx_list` and take no lock. A move is one access of one task, and the pool may interleave
-- the moves of its tasks in any order. A context is the number of its
-- creation: where the allocator gives the address of a freed context again, which the list may still
-- hold, the two are told apart here. A task whose frame is a CLOSE has its second `recv`, of the id,
-- in the move that takes the frame.
pub mod Owners
pub mod Ids
pub mod View
pub mod Alone
pub mod Refine
pub mod Race
mod Tests
use native.Mathlib.Decide.{ℕ_discrete}
use mathlib.Core.Logic.{ite}
use streamio.Common.{
  ℕ, zero, suc, ◌+◌, ◌<◌, ◌≤◌, ◌≡◌, Bool, true, false, Option, none, some, List, [], ◌∷◌, ◌++◌,
}
use streamio.Server.{max_context_count}

abbrev pub update {ℓ} : {A : Type ℓ} → (ℕ → A) → ℕ → A → ℕ → A
update f i a = λ j. ite (ℕ_discrete i j) a (f j)

-- What the tasks share. `open_count` contexts were created, and `is_open` says which were not freed.
-- `told` are the ids that were sent, and `unsent` counts the replies that did not go out.
pub record Shared : Type 0 where
  pub opened_ctx_list : ℕ → Option ℕ
  pub open_count : ℕ
  pub is_open : ℕ → Bool
  pub told : List ℕ
  pub unsent : ℕ

-- Where a task stands, with the local variables `i`, `this_ctx` and `ctx_id` that are live there.
pub data Pc : Type 0 where
  returned : Pc  -- the thread has no task
  ready : Pc  -- at a `recv` of a frame
  looking : (i : ℕ) → Pc  -- head of the `for` of an OPEN
  replying : (i this_ctx : ℕ) → Pc  -- before the `send`
  storing : (i this_ctx : ℕ) → Pc  -- the reply went out
  dropping : (i this_ctx : ℕ) → Pc  -- the reply did not go out
  testing : (ctx_id : ℕ) → Pc  -- a CLOSE, before its tests
  taking : (ctx_id : ℕ) → Pc  -- the entry was not null
  closing : (this_ctx : ℕ) → Pc  -- before `io_close_context`
  crashed : Pc  -- used a null or a freed context

-- One move of one task. What a client sends is left open.
pub data Move (m : Shared) : Pc → Shared → Pc → Type 0 where
  accept : Move m returned m ready
  hang_up : Move m ready m returned
  open_frame : Move m ready m (looking 0)
  -- the `recv` of the id, in the handler, included
  close_frame : {id : ℕ} → Move m ready m (testing id)
  pass : {i c : ℕ} → i < 4 → m.opened_ctx_list i ≡ some c → Move m (looking i) m (looking (i + 1))
  give_up : {i : ℕ} → 4 ≤ i → Move m (looking i) m returned
  create :
      {i : ℕ}
      → i < 4
      → m.opened_ctx_list i ≡ none
      → Move m
          (looking i)
          (record m { open_count = m.open_count + 1; is_open = update m.is_open m.open_count true })
          (replying i m.open_count)
  reply : {i c : ℕ} → Move m (replying i c) (record m { told = m.told ++ (i ∷ []) }) (storing i c)
  reply_fails :
      {i c : ℕ} → Move m (replying i c) (record m { unsent = m.unsent + 1 }) (dropping i c)
  store :
      {i c : ℕ}
      → Move m
          (storing i c)
          (record m { opened_ctx_list = update m.opened_ctx_list i (some c) })
          ready
  discard :
      {i c : ℕ}
      → Move m
          (dropping i c)
          (record m {
            opened_ctx_list = update m.opened_ctx_list i none;
            is_open = update m.is_open c false;
          })
          returned
  out_of_range : {id : ℕ} → max_context_count ≤ id → Move m (testing id) m returned
  not_open :
      {id : ℕ}
      → id < max_context_count
      → m.opened_ctx_list id ≡ none
      → Move m (testing id) m returned
  entry_found :
      {id c : ℕ}
      → id < max_context_count
      → m.opened_ctx_list id ≡ some c
      → Move m (testing id) m (taking id)
  load : {id c : ℕ} → m.opened_ctx_list id ≡ some c → Move m (taking id) m (closing c)
  load_null : {id : ℕ} → m.opened_ctx_list id ≡ none → Move m (taking id) m crashed
  close :
      {c : ℕ}
      → m.is_open c ≡ true
      → Move m (closing c) (record m { is_open = update m.is_open c false }) ready
  close_freed : {c : ℕ} → m.is_open c ≡ false → Move m (closing c) m crashed

-- The server: what is shared, and where each thread of the pool stands.
pub record Pool : Type 0 where
  pub shared : Shared
  pub pc : ℕ → Pc

-- One of `n` threads moves.
pub data Step (n : ℕ) (s : Pool) : Pool → Type 0 where
  turn :
      (t : ℕ) {m : Shared} {p : Pc}
      → t < n
      → Move s.shared (s.pc t) m p
      → Step n s (record { shared = m; pc = update s.pc t p })

abbrev pub started : Shared
started = record {
  opened_ctx_list = λ i. none;
  open_count = 0;
  is_open = λ c. false;
  told = [];
  unsent = 0;
}

-- `server_main` starts a pool of `n` threads; the source starts 4.
abbrev pub pool_size : ℕ
pool_size = 4

abbrev pub server_main : Pool
server_main = record { shared = started; pc = λ t. Pc.returned }

pub data Reach (n : ℕ) : Pool → Type 0 where
  start : Reach n server_main
  later : {s s' : Pool} → Reach n s → Step n s s' → Reach n s'

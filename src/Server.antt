-- ===== src/Server.antt =====
-- userspace/io_backend/src/io_backend.c: the contexts of the server, and the task of a connection.
-- `none` is the use of a context that was freed.
pub mod Search
pub mod Slots
pub mod Task
pub mod Main
pub mod Threads
mod Tests
use streamio.Common.{
  ℕ, zero, suc, ◌+◌, ◌-◌, ◌/◌, ◌%◌, Bool, true, false, Option, none, some, List, [], ◌∷◌, ◌++◌,
  length, get_elem?, set, take, drop, replicate, to_le, from_le, ltb, ◌==◌, if◌then◌else◌, ◌>>=◌,
}
use streamio.Remote.{Socket, recv}

abbrev pub max_context_count : ℕ
max_context_count = 5

-- The nibbles of `op`; `hs` is not tested.
abbrev pub frame_op_open : ℕ
frame_op_open = 0

abbrev pub frame_op_clos : ℕ
frame_op_clos = 1

abbrev pub frame_dev_ctx : ℕ
frame_dev_ctx = 0

-- An entry of `opened_ctx_list`: null, an open context, or one that was closed and freed.
pub data Slot : Type 0 where
  null live freed : Slot

-- The list, and the ids of the contexts that clients were told.
pub record Server : Type 0 where
  pub opened_ctx_list : List Slot
  pub told : List ℕ

pub io_backend : Server
io_backend = record { opened_ctx_list = replicate max_context_count null; told = [] }

-- `frame->op` of the bytes of a `frame_top`, behind the word `hs`; its low nibble, and the high one.
abbrev pub op_of : List ℕ → ℕ
op_of frame = from_le (take 1 (drop 4 frame)) % 256

abbrev pub op_type : List ℕ → ℕ
op_type frame = op_of frame % 16

abbrev pub dev_type : List ℕ → ℕ
dev_type frame = op_of frame / 16

pub is_null : Slot → Bool
is_null null = true
is_null s = false

-- for (i = i; rounds left; i++) if (opened_ctx_list[i] == NULL): the index, if there is one.
pub find_null : ℕ → ℕ → List Slot → Option (Option ℕ)
find_null zero i slots = some none
find_null (suc n) i slots = do
  s ← get_elem? slots i
  let rest = find_null n (i + 1) slots
  if is_null s then some (some i) else rest

-- What `handle_context` leaves: the server, the socket, and whether it returns 0 or more.
pub record Handled : Type 0 where
  pub server : Server
  pub socket : Socket
  pub success : Bool

-- `sent` is whether the reply goes out.
pub open_context : Bool → Server → Socket → Option Handled
unfolding find_null is_null
open_context sent sv s = do
  found ← find_null 4 0 sv.opened_ctx_list
  some (elim found [
    | none ↦ record { server = sv; socket = s; success = false }
    | some i ↦ record {
      server =
          if sent
          then record {
            opened_ctx_list = set sv.opened_ctx_list i live;
            told = sv.told ++ (i ∷ []);
          }
          else record sv { opened_ctx_list = set sv.opened_ctx_list i null };
      socket = s;
      success = sent;
    }
  ])

-- `io_close_context` of an entry. The entry keeps its pointer.
pub close_slot : ℕ → Slot → Server → Socket → Option Handled
close_slot i null sv s = some (record { server = sv; socket = s; success = false })
close_slot i live sv s = some (record {
  server = record sv { opened_ctx_list = set sv.opened_ctx_list i freed };
  socket = s;
  success = true;
})
close_slot i freed sv s = none

-- The id stands behind the 8 bytes of the prefix; `junk` is the unset `client_frame`.
pub close_context : List ℕ → Server → Socket → Option Handled
unfolding close_slot
close_context junk sv s =
    let (bs, s') = recv 12 s in
    let client_frame = bs ++ drop (length bs) junk in
    let ctx_id = from_le (take 4 (drop 8 client_frame)) in
    let close = get_elem? sv.opened_ctx_list ctx_id >>= λ slot. close_slot ctx_id slot sv s' in
    if ltb ctx_id max_context_count
    then close
    else some (record { server = sv; socket = s'; success = false })

pub handle_context : Bool → List ℕ → List ℕ → Server → Socket → Option Handled
handle_context sent junk frame sv s =
    let opens = open_context sent sv s in
    let closes = close_context junk sv s in
    if op_type frame == frame_op_open
    then opens
    else if op_type frame == frame_op_clos
    then closes
    else some (record { server = sv; socket = s; success = false })

-- How a task ends.
pub data Ending : Type 0 where
  ended : Server → Ending
  faulted out_of_fuel : Ending

-- while (handle_context(...) >= 0), with a `recv` of the next frame in each round. `sent` is for each
-- round from the present one on whether a reply of it goes out.
pub context_loop : ℕ → (ℕ → Bool) → List ℕ → List ℕ → Server → Socket → Ending
context_loop zero sent junk frame sv s = out_of_fuel
context_loop (suc fuel) sent junk frame sv s = elim (handle_context (sent 0) junk frame sv s) [
  | none ↦ faulted
  | some h ↦
      let (bs, s') = recv 8 h.socket in
      let more =
        context_loop fuel (λ k. sent (suc k)) junk (bs ++ drop (length bs) frame) h.server s' in
      if h.success then (if length bs == 0 then ended h.server else more) else ended h.server
]

-- `start_task`: the first frame is only peeked at. `unset` is the unset `frame_top`.
pub start_task : ℕ → (ℕ → Bool) → List ℕ → List ℕ → Server → Socket → Ending
start_task fuel sent junk unset sv s =
    let (bs, s') = recv 8 s in
    let frame = bs ++ drop (length bs) unset in
    let loop = context_loop fuel sent junk frame sv s in
    if dev_type frame == frame_dev_ctx then loop else ended sv

-- ===== src/Remote/Deliver.antt =====
-- The server's end of a write stream, `client_cmd_write_stream_inf` of
-- userspace/io_backend/src/io_backend_call.c, over a local device: what is received goes into the
-- device's own buffer, and a full buffer to the DMA engine. `none` is undefined behaviour: a write
-- past a buffer's end, or the use of the `NULL` that stands for no buffer.
pub mod Calls
pub mod Refine
pub mod Stream
pub mod Samples
mod Tests
use streamio.Common.{
  ℕ, ◌+◌, ◌*◌, Option, none, some, List, [], ◌∷◌, ◌++◌, length, take, drop, get_elem?, set, ltb,
  leb, if◌then◌else◌, ◌>>=◌,
}
use streamio.Dma.{ChannelBuffer, Channel, buffer_size, sizeof_channel_buffer}
use streamio.Local.{LocalBuffer, Answers, io_stream_zc_buffer_local, io_write_stream_local}
use streamio.Remote.{Socket}
use streamio.Remote.Upload.{Locals, client_cmd_write_stream_inf}

-- `d`, `ch_buffer` and `buffer_ptr`. `handed` is what each transfer's memory held when it was handed
-- to the engine.
pub record Sink : Type 0 where
  pub device : LocalBuffer
  pub buffer_id : ℕ
  pub buffer_ptr : ℕ
  pub handed : List (List ℕ)

-- recv(sockfd, ((void *)ch_buffer->buffer) + buffer_ptr, ...) of these bytes
pub put_bytes : ℕ → ℕ → List ℕ → Channel → Option Channel
put_bytes id ptr bytes c = do
  b ← get_elem? c.buffer_table id
  let old = b.buffer
  let new = take ptr old ++ (bytes ++ drop (ptr + length bytes) old)
  if ltb buffer_size (ptr + length bytes)
      then none
      else some (record c { buffer_table = set c.buffer_table id (record b { buffer = new }) })

-- ch_buffer = io_stream_get_buffer(d), where it is used afterwards.
pub get_buffer : Answers → LocalBuffer → Option (LocalBuffer × ℕ)
get_buffer a l = do
  (l', r) ← io_stream_zc_buffer_local a l
  elim r [ none ↦ none | some id ↦ some (l', id) ]

-- The full buffer goes to the engine, and the next one is asked for.
pub deliver : Answers → Sink → Option Sink
deliver a k = do
  b ← get_elem? k.device.channel.buffer_table k.buffer_id
  (l, n) ← io_write_stream_local a (sizeof_channel_buffer * k.buffer_id) buffer_size k.device
  (l', id) ← get_buffer a l
  some (record {
    device = l';
    buffer_id = id;
    buffer_ptr = 0;
    handed = k.handed ++ (take buffer_size b.buffer ∷ []);
  })

-- What follows a receive of `bytes`: the answers are those that each full buffer meets.
pub store_local : (ℕ → Answers) → List ℕ → Sink → Option Sink
store_local answers bytes k = do
  c ← put_bytes k.buffer_id k.buffer_ptr bytes k.device.channel
  let ptr = k.buffer_ptr + length bytes
  let k1 : Sink = record k { device = record (k.device) { channel = c }; buffer_ptr = ptr }
  let next = deliver (answers (length k.handed)) k1
  if leb buffer_size ptr then next else some k1

-- `client_cmd_write_stream_inf` with its first buffer: `start_cmd` is what the local holds at first.
unfoldable pub write_stream_inf :
    Answers → (ℕ → Answers) → ℕ → ℕ → LocalBuffer → Socket → Option (Locals Sink × Socket)
write_stream_inf first answers start_cmd acks l s = do
  (l', id) ← get_buffer first l
  let k : Sink = record { device = l'; buffer_id = id; buffer_ptr = 0; handed = [] }
  client_cmd_write_stream_inf (store_local answers) acks
      (record { start_cmd = start_cmd; recv_size = 0; packing = k }) s

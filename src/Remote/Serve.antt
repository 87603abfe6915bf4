-- ===== src/Remote/Serve.antt =====
-- A stream device that the server serves: `client_cmd_read_stream_inf` and `client_stream_cmd_handle`
-- of userspace/io_backend/src/io_backend_call.c, `client_stream_channel` of io_backend.c, over a local
-- device. `none` is undefined behaviour.
pub mod Reads
pub mod Fetch
pub mod Session
mod Tests
use streamio.Common.{
  ℕ, ◌+◌, ◌*◌, Bool, Option, none, some, List, [], ◌∷◌, ◌++◌, replicate, get_elem?, to_le, ◌==◌,
  if◌then◌else◌, ◌>>=◌,
}
use streamio.Dma.{buffer_size, sizeof_channel_buffer}
use streamio.Context.{io_create_context, io_add_stream_device, io_close_context, Call}
use streamio.Local.{LocalBuffer, Answers, io_write_stream_local, io_finish_stream_local}
use streamio.Remote.{Socket, recv_word, call_write_stream, call_read_stream}
use streamio.Remote.Download.{read_stream_frame}
use streamio.Remote.Session.{client_device_option, handshake_ack}
use streamio.Remote.Deliver.{put_bytes, get_buffer, write_stream_inf}

-- A round of the read loop: what its calls of the driver meet, what the engine has stored by the end of
-- the sync into the memory of the buffer that was asked for, and whether `writev` goes through.
pub record ReadRound : Type 0 where
  pub ask : Answers
  pub sync : ℕ → Answers
  pub stored : List ℕ
  pub written : Bool
  pub start : Answers

-- memset(ch_buffer->buffer, -1, stream_size) and io_read_stream_device(d, ch_buffer, stream_size)
pub read_again : Answers → ℕ → LocalBuffer → Option LocalBuffer
read_again a id l = do
  c ← put_bytes id 0 (replicate buffer_size 255) l.channel
  (l', n) ←
      io_write_stream_local a (sizeof_channel_buffer * id) buffer_size (record l { channel = c })
  some l'

-- The loop of `client_cmd_read_stream_inf`: the device after it, and what each `writev`
-- that went through was for. It is left by one that does not; behind the last of the rounds nothing is
-- modelled.
unfoldable pub read_stream_inf : List ReadRound → LocalBuffer → Option (LocalBuffer × List (List ℕ))
read_stream_inf [] l = some (l, [])
read_stream_inf (r ∷ rounds) l = do
  (l1, id) ← get_buffer r.ask l
  l2 ← io_finish_stream_local r.sync l1
  c ← put_bytes id 0 r.stored l2.channel
  b ← get_elem? c.buffer_table id
  let l3 = record l2 { channel = c }
  let frame = read_stream_frame b.buffer
  let more = (do
    l4 ← read_again r.start id l3
    (l5, frames) ← read_stream_inf rounds l4
    some (l5, frame ∷ frames))
  if r.written then more else some (l3, [])

-- What a stream meets: the answers to its write loop and how often it acknowledges, the rounds of its
-- read loop, and the answers to the sync behind it.
pub record Stream : Type 0 where
  pub first : Answers
  pub answers : ℕ → Answers
  pub acks : ℕ
  pub rounds : List ReadRound
  pub sync : ℕ → Answers

-- The device, the buffers handed to the engine by the write loop, and the bytes sent.
pub record Streamed : Type 0 where
  pub device : LocalBuffer
  pub handed : List (List ℕ)
  pub sent : List (List ℕ)

-- One round of `client_stream_cmd_handle`: both loops return 0, which ends it. `junk` is the unset
-- `cmd`, and what `start_cmd` of the write loop holds.
pub client_stream_cmd_handle : Stream → ℕ → LocalBuffer → Socket → Option Streamed
client_stream_cmd_handle e junk l s = do
  let (n, cmd, s1) = recv_word 1 junk s
  let write = (do
    (m, s2) ← write_stream_inf e.first e.answers junk e.acks l s1
    some (record { device = m.packing.device; handed = m.packing.handed; sent = [] }))
  let read = (do
    (l', frames) ← read_stream_inf e.rounds l
    some (record { device = l'; handed = []; sent = frames }))
  let neither : Option Streamed = some (record { device = l; handed = []; sent = [] })
  let called =
      if cmd == call_write_stream then write else if cmd == call_read_stream then read else neither
  d ← if n == 0 then neither else called
  l' ← io_finish_stream_local e.sync d.device
  some (record d { device = l' })

-- What a stream channel leaves: the same, the bytes of its answers, and what the core did.
pub record StreamServed : Type 0 where
  pub streamed : Streamed
  pub answered : List ℕ
  pub log : List Call

-- `opened` is what the backend's open gives, `l` the device that it opens.
pub client_stream_channel :
    Stream → ℕ → ℕ → Option ℕ → ℕ → LocalBuffer → Socket → Option StreamServed
client_stream_channel e junk file_path opened fd l s = do
  (dev_path, size, s1) ← client_device_option junk s
  (ctx, device) ← io_add_stream_device file_path opened io_create_context
  let idle : Option (Streamed × List ℕ) = some (record { device = l; handed = []; sent = [] }, [])
  let serve = client_stream_cmd_handle e junk l s1 >>= λ d. some (d, to_le 4 fd)
  (d, out) ← elim device [ none ↦ idle | some x ↦ serve ]
  log ← io_close_context ctx
  some (record { streamed = d; answered = handshake_ack ++ out; log = log })

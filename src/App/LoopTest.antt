-- ===== src/App/LoopTest.antt =====
-- main_txrx_test of userspace/test_app/src/tc_test.c, with its devices open: in each round a packet is
-- sent and one asked for, and both devices are synced. `start` is the low half of the time.
pub mod Stale
pub mod Fill
pub mod Ask
pub mod Rounds
use streamio.Common.{
  ℕ, zero, suc, ◌+◌, ◌*◌, ◌%◌, ◌^◌, Option, none, some, List, [], ◌∷◌, ◌++◌, length, get_elem?,
  take, drop, replicate, from_le, ◌>>=◌,
}
use streamio.Dma.{buffer_size, sizeof_channel_buffer}
use streamio.Local.{LocalBuffer, Answers}
use streamio.Remote.Deliver.{put_bytes, get_buffer}
use streamio.Backend.{
  MappedDevice, io_write_stream_device, io_read_stream_device, io_sync_stream_device,
}
use streamio.Backend.Local.{stream_local}
use streamio.Backend.Writes.{Setting, write_all}
use streamio.App.{BufferHeader, header_bytes, word_bytes, buffer_in_bytes, Transmitter}
use streamio.App.TxTest.{tx_test_reset}

-- packet_size
abbrev pub loop_size : ℕ
loop_size = 16384

abbrev pub loop_setup : List Setting
loop_setup = (5, 3) ∷ (6, 16384) ∷ (7, 16) ∷ (5, 0) ∷ []

abbrev pub loop_header : ℕ → ℕ → BufferHeader
loop_header start j = record {
  decode_time_stamp = start;
  tx_time_stamp = j;
  packet_length = loop_size;
}

-- The last `n` rounds of the inner loop, from the index `i` on: start + i + j * packet_size
pub loop_words : ℕ → ℕ → ℕ → ℕ → List ℕ
loop_words zero i start j = []
loop_words (suc n) i start j = (start + i + j * loop_size) % 2 ^ 32 ∷ loop_words n (i + 1) start j

-- `header.packet_length` of the bytes of a buffer.
abbrev pub stale_length : List ℕ → ℕ
stale_length bytes = from_le (take 4 (drop 8 bytes))

-- `BUFFER_IN_BYTES` of the buffer as it was found, of which `memset` fills as many bytes.
abbrev pub stale_bytes : List ℕ → ℕ
stale_bytes bytes = (stale_length bytes * 4 + 12) % 2 ^ 64

-- What the calls of a round meet.
pub record LoopAnswers : Type 0 where
  pub tx : Answers
  pub rx : Answers
  pub tx_sync : ℕ → Answers
  pub rx_sync : ℕ → Answers

-- The sender, and the device that receives.
pub record LoopState : Type 0 where
  pub sender : Transmitter
  pub receiver : LocalBuffer

pub loop_round : LoopAnswers → ℕ → ℕ → LoopState → Option LoopState
loop_round a start j s = do
  (l, id) ← get_buffer a.tx s.sender.device
  b ← get_elem? l.channel.buffer_table id
  c1 ← put_bytes id 0 (replicate (stale_bytes b.buffer) 255) l.channel
  c2 ← put_bytes id 0 (header_bytes (loop_header start j)) c1
  (r, rid) ← get_buffer a.rx s.receiver
  d ← put_bytes rid 0 (replicate 8 255) r.channel
  c3 ← put_bytes id 12 (word_bytes (loop_words loop_size 0 start j)) c2
  b' ← get_elem? c3.buffer_table id
  let size = buffer_in_bytes (loop_header start j) % 2 ^ 32
  l1 ←
      io_write_stream_device (stream_local a.tx a.tx_sync) (sizeof_channel_buffer * id) size
        (record l { channel = c3 })
  r1 ←
      io_read_stream_device (stream_local a.rx a.rx_sync) (sizeof_channel_buffer * rid) buffer_size
        (record r { channel = d })
  l2 ← io_sync_stream_device (stream_local a.tx a.tx_sync) l1
  r2 ← io_sync_stream_device (stream_local a.rx a.rx_sync) r1
  some (record {
    sender = record { device = l2; handed = s.sender.handed ++ (take size b'.buffer ∷ []) };
    receiver = r2;
  })

-- The last `n` rounds, from round `j` on.
pub loop_rounds : (ℕ → LoopAnswers) → ℕ → ℕ → ℕ → LoopState → Option LoopState
loop_rounds answers start zero j s = some s
loop_rounds answers start (suc n) j s =
    loop_round (answers j) start j s >>= loop_rounds answers start n (j + 1)

-- The source makes 1000 rounds.
pub main_txrx_test :
    {S : Type 0}
    → MappedDevice S
    → (ℕ → LoopAnswers)
    → ℕ
    → ℕ
    → S
    → LoopState
    → Option (S × LoopState)
main_txrx_test map_dev answers start packet_loops s devices = do
  s1 ← write_all map_dev loop_setup s
  done ← loop_rounds answers start packet_loops 0 devices
  s2 ← write_all map_dev tx_test_reset s1
  some (s2, done)

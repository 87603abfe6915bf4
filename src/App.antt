-- ===== src/App.antt =====
-- userspace/test_app/src/txrx_test_thread.c: a thread that sends numbered words, and one that
-- receives them in packets of another size and compares. The buffers have a header, as test_app/makefile
-- builds the program. `none` is an access outside of a buffer.
pub mod Ramp
pub mod Transfers
pub mod Transmit
pub mod LoopTest
pub mod TxTest
pub mod Session
pub mod File
pub mod Validate
pub mod RxTest
mod Tests
use streamio.Common.{
  ℕ, zero, suc, ◌+◌, ◌*◌, ◌/◌, ◌%◌, ◌^◌, Bool, Option, none, some, List, [], ◌∷◌, ◌++◌, take,
  length, get_elem?, to_le, ◌==◌, if◌then◌else◌, ◌>>=◌,
}
use streamio.Dma.{ChannelBuffer, Channel, sizeof_channel_buffer}
use streamio.Local.{LocalBuffer, Answers, io_write_stream_local}
use streamio.Remote.Repack.{flatten}
use streamio.Remote.Deliver.{put_bytes, get_buffer}

-- start + i + j * packet_size + 1, of which `start` is 0
pub word : ℕ → ℕ → ℕ → ℕ
word i j packet_size = (0 + i + j * packet_size + 1) % 2 ^ 32

-- What the inner loop of `tx_thread` stores in its last `n` rounds, from the index `i` on.
unfoldable pub fill_words : ℕ → ℕ → ℕ → ℕ → List ℕ
fill_words zero i j packet_size = []
fill_words (suc n) i j packet_size = word i j packet_size ∷ fill_words n (i + 1) j packet_size

-- `struct buffer_header`
pub record BufferHeader : Type 0 where
  pub decode_time_stamp : ℕ
  pub tx_time_stamp : ℕ
  pub packet_length : ℕ

-- The header of round `j`.
abbrev pub tx_header : ℕ → ℕ → BufferHeader
tx_header j packet_size = record {
  decode_time_stamp = 321;
  tx_time_stamp = (j + 1) % 2 ^ 32;
  packet_length = packet_size % 2 ^ 32;
}

abbrev pub header_bytes : BufferHeader → List ℕ
header_bytes h = to_le 4 h.decode_time_stamp ++ (to_le 4 h.tx_time_stamp ++ to_le 4 h.packet_length)

abbrev pub word_bytes : List ℕ → List ℕ
word_bytes [] = []
word_bytes (w ∷ ws) = to_le 4 w ++ word_bytes ws

-- All that round `j` stores into its buffer, from the buffer's start on.
abbrev pub tx_packet : ℕ → ℕ → List ℕ
tx_packet packet_size j =
    header_bytes (tx_header j packet_size) ++ word_bytes (fill_words packet_size 0 j packet_size)

-- `BUFFER_IN_BYTES`
abbrev pub buffer_in_bytes : BufferHeader → ℕ
buffer_in_bytes h = (h.packet_length * 4 + 12) % 2 ^ 64

-- The device, and what each transfer's memory held when it was handed to the engine.
pub record Transmitter : Type 0 where
  pub device : LocalBuffer
  pub handed : List (List ℕ)

-- The buffer that is asked for gets `bytes` from its start on, and `size` of them go to the engine.
-- `a` is what the calls of the driver meet.
pub send_packet : Answers → List ℕ → ℕ → Transmitter → Option Transmitter
send_packet a bytes size t = do
  (l, id) ← get_buffer a t.device
  c ← put_bytes id 0 bytes l.channel
  b ← get_elem? c.buffer_table id
  let filled : LocalBuffer = record l { channel = c }
  (l', n) ← io_write_stream_local a (sizeof_channel_buffer * id) size filled
  some (record { device = l'; handed = t.handed ++ (take size b.buffer ∷ []) })

-- A round of `tx_thread`
pub tx_round : Answers → ℕ → ℕ → Transmitter → Option Transmitter
tx_round a packet_size j t =
    send_packet a (tx_packet packet_size j) (buffer_in_bytes (tx_header j packet_size) % 2 ^ 32) t

-- The last `n` rounds of the outer loop, from round `j` on. `stop` says in which round `stop_tx` is
-- found set.
pub tx_loop : (ℕ → Answers) → (ℕ → Bool) → ℕ → ℕ → ℕ → Transmitter → Option Transmitter
tx_loop answers stop packet_size zero j t = some t
tx_loop answers stop packet_size (suc n) j t =
    let go = tx_round (answers j) packet_size j t >>= tx_loop answers stop packet_size n (j + 1) in
    if stop j then some t else go

-- packet_loops = config->total_size / config->packet_size, where the size is not 0
pub tx_thread : (ℕ → Answers) → (ℕ → Bool) → ℕ → ℕ → LocalBuffer → Option Transmitter
tx_thread answers stop packet_size total_size l =
    tx_loop answers stop packet_size (total_size / packet_size) 0
      (record { device = l; handed = [] })

-- A packet that the receiver finds in its buffer.
pub record Packet : Type 0 where
  pub packet_length : ℕ
  pub buffer : List ℕ

-- The last `n` rounds of the comparison in `rx_thread`, from the index `k` on: the index at which it
-- breaks off, or `none`.
unfoldable pub compare_from : ℕ → ℕ → ℕ → List ℕ → Option (Option ℕ)
compare_from zero k i buffer = some none
compare_from (suc n) k i buffer = do
  w ← get_elem? buffer k
  let rest = compare_from n (k + 1) i buffer
  if (k + i + 1) % 2 ^ 32 == w then rest else some (some k)

-- What `rx_thread` does with the packets that it finds in its buffers, one for each round that is not
-- skipped: what each comparison found, if `verify` is set, which it never is. `i` counts the words.
unfoldable pub compare_packets : Bool → List Packet → ℕ → Option (List (Option ℕ))
compare_packets verify [] i = some []
compare_packets verify (p ∷ ps) i = do
  found ← if verify then compare_from p.packet_length 0 i p.buffer else some none
  more ← compare_packets verify ps ((i + p.packet_length) % 2 ^ 32)
  some (found ∷ more)

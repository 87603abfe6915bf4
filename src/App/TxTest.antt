-- ===== src/App/TxTest.antt =====
-- main_tx_test of userspace/test_app/src/tc_test.c: the registers are set up, a ramp is sent in
-- packets, and the reset is taken again. The table of sines, which nothing reads, is left out.
pub mod Packets
use streamio.Common.{
  ℕ, zero, suc, ◌+◌, ◌*◌, ◌%◌, ◌^◌, ◌<◌, ◌≤◌, ◌≡◌, refl, sym, ap, ap₂, ◌∙◌, Option, none, some,
  List, [], ◌∷◌, ◌++◌, length, length-append, length-to_le, to_le, ◌>>=◌, arith,
}
use streamio.Dma.{buffer_size, buffer_count}
use streamio.Local.{LocalBuffer, Answers}
use streamio.Local.Ring.{RingIsValid}
use streamio.Local.Drain.{IsBack, io_finish_stream_local-IsBack}
use streamio.Remote.Deliver.Calls.{Willing}
use streamio.Backend.{
  MappedChannel, MappedDevice, Registers, io_write_mapped_device, io_sync_stream_device,
}
use streamio.Backend.Local.{stream_local}
use streamio.Backend.Writes.{Setting, write_all, write_all-after, after, AllFit, device}
use streamio.App.{BufferHeader, header_bytes, word_bytes, buffer_in_bytes, Transmitter, send_packet}
use streamio.App.Transmit.{
  packet_bytes, Sends, send_packet-Sends, no_rounds, one_round, length-word_bytes,
}

-- packet_size
abbrev pub tx_test_size : ℕ
tx_test_size = 2048

-- The calls of io_write_mapped_device before the loop, and the one behind it.
abbrev pub tx_test_setup : List Setting
tx_test_setup = (5, 3) ∷ (4, 1) ∷ (6, 1024) ∷ (7, 0) ∷ (5, 0) ∷ []

abbrev pub tx_test_reset : List Setting
tx_test_reset = (5, 3) ∷ []

-- The last `n` rounds of the inner loop: the words that it stores, and `phase` behind it.
pub fill_phase : ℕ → ℕ → List ℕ × ℕ
fill_phase zero phase = ([], phase)
fill_phase (suc n) phase =
    let (ws, p) = fill_phase n ((phase + 2 ^ 8) % 2 ^ 32) in (phase % 2 ^ 16 ∷ ws, p)

abbrev pub tx_test_header : ℕ → BufferHeader
tx_test_header j = record {
  decode_time_stamp = j;
  tx_time_stamp = j + 1;
  packet_length = tx_test_size;
}

-- The last `n` rounds of the outer loop, from round `j` on.
pub tx_test_loop : (ℕ → Answers) → ℕ → ℕ → ℕ → Transmitter → Option Transmitter
tx_test_loop answers zero j phase t = some t
tx_test_loop answers (suc n) j phase t = do
  let filled = fill_phase tx_test_size phase
  let bytes = header_bytes (tx_test_header j) ++ word_bytes filled.0
  t' ← send_packet (answers j) bytes (buffer_in_bytes (tx_test_header j) % 2 ^ 32) t
  tx_test_loop answers n (j + 1) filled.1 t'

-- `main_tx_test` with its devices open. `answers` are what the calls of each round meet, `last` those
-- of the sync; the source makes 2000000 rounds.
pub main_tx_test :
    {S : Type 0}
    → MappedDevice S
    → (ℕ → Answers)
    → (ℕ → Answers)
    → ℕ
    → S
    → LocalBuffer
    → Option (S × Transmitter)
main_tx_test map_dev answers last packet_loops s l = do
  s1 ← write_all map_dev tx_test_setup s
  t ← tx_test_loop answers packet_loops 0 1 (record { device = l; handed = [] })
  l' ← io_sync_stream_device (stream_local (last 0) last) t.device
  s2 ← write_all map_dev tx_test_reset s1
  some (s2, record t { device = l' })

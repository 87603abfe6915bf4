-- ===== src/App/TxTest/Packets.antt =====
-- What `main_tx_test` sends, userspace/test_app/src/tc_test.c.
use streamio.Common.{
  ℕ, zero, suc, ◌+◌, ◌*◌, ◌%◌, ◌^◌, ◌<◌, ◌≤◌, ◌≡◌, refl, ap, ap₂, ◌∙◌, some, List, [], ◌∷◌, ◌++◌,
  length, length-append, arith,
}
use streamio.Dma.{buffer_count}
use streamio.Local.{LocalBuffer, Answers}
use streamio.Local.Ring.{RingIsValid}
use streamio.Local.Drain.{IsBack}
use streamio.Remote.Deliver.Calls.{Willing}
use streamio.Backend.{MappedChannel, Registers, io_sync_stream_device}
use streamio.Backend.Writes.{write_all-after, after, after-ext, AllFit-first_eight, device}
use streamio.App.{header_bytes, word_bytes, Transmitter}
use streamio.App.Transfers.{finish_stream-Transfers}
use streamio.App.Transmit.{
  packet_bytes, Sends, send_packet-Sends, no_rounds, one_round, length-word_bytes,
  length-header_bytes,
}
use streamio.App.TxTest.{
  tx_test_size, tx_test_setup, tx_test_reset, fill_phase, tx_test_header, tx_test_loop,
  main_tx_test,
}

-- The ramp: word `k` is 1 + 256 k in sixteen bits.
abbrev pub ramp : ℕ → ℕ → List ℕ
ramp zero k = []
ramp (suc n) k = (1 + 256 * k) % 2 ^ 16 ∷ ramp n (k + 1)

fill_phase-ramp :
    (n k phase : ℕ)
    → phase % 2 ^ 16 ≡ (1 + 256 * k) % 2 ^ 16
    → ((fill_phase n phase).0 ≡ ramp n k)
      × ((fill_phase n phase).1 % 2 ^ 16 ≡ (1 + 256 * (k + n)) % 2 ^ 16)
unfolding fill_phase
fill_phase-ramp zero k phase e = (refl, omega (arith, e))
fill_phase-ramp (suc n) k phase e =
    let (words, end) = fill_phase-ramp n (k + 1) ((phase + 2 ^ 8) % 2 ^ 32) (omega (arith, e)) in
    (ap₂ ◌∷◌ e words, omega (arith, end))

length-ramp : (n k : ℕ) → length (ramp n k) ≡ n
length-ramp zero k = refl
length-ramp (suc n) k = ap suc (length-ramp n (k + 1))

-- The packet of round `j`: every packet has the same words.
abbrev pub tx_test_packet : ℕ → List ℕ
tx_test_packet j = header_bytes (tx_test_header j) ++ word_bytes (ramp tx_test_size 0)

length-tx_test_packet : (j : ℕ) → length (tx_test_packet j) ≡ packet_bytes tx_test_size
length-tx_test_packet j = omega (
  arith,
  length-append (header_bytes (tx_test_header j)) (word_bytes (ramp tx_test_size 0)),
  length-header_bytes (tx_test_header j),
  length-word_bytes (ramp tx_test_size 0),
  length-ramp tx_test_size 0,
)

tx_test_loop-Sends :
    (answers : ℕ → Answers) (n j phase : ℕ) (t : Transmitter)
    → RingIsValid t.device
    → ((k : ℕ) → Willing (answers k))
    → phase % 2 ^ 16 ≡ 1
    → (t' : Transmitter) × (tx_test_loop answers n j phase t ≡ some t')
      × Sends (packet_bytes tx_test_size) tx_test_packet n j t t'
unfolding tx_test_loop
tx_test_loop-Sends answers zero j phase t v w one =
    (t, refl, no_rounds (packet_bytes tx_test_size) tx_test_packet j t v)
tx_test_loop-Sends answers (suc n) j phase t v w one =
    let (words, end) = fill_phase-ramp tx_test_size 0 phase (omega (arith, one)) in
    let (t1, e1, s1) =
      send_packet-Sends (packet_bytes tx_test_size) tx_test_packet (answers j) j t v (w j)
        (length-tx_test_packet j) (omega arith) in
    let (t2, e2, s2) =
      tx_test_loop-Sends answers n (j + 1) (fill_phase tx_test_size phase).1 t1 s1.transfers.valid w
        (omega (arith, end)) in
    (t2, rw (words, e1) e2, one_round (packet_bytes tx_test_size) tx_test_packet n j t t1 t2 s1 s2)

-- What the program leaves of its transmitter: all is sent, and no buffer is with the engine.
pub record Sent (n : ℕ) (l : LocalBuffer) (t : Transmitter) : Type 0 where
  pub sends :
      Sends (packet_bytes tx_test_size) tx_test_packet n 0 (record { device = l; handed = [] }) t
  pub back : (j : ℕ) → j < buffer_count → IsBack t.device.channel j

-- `main_tx_test` over any backend that keeps its promise of at least eight registers, and a valid ring
-- whose engine takes each transfer and completes in time: it runs to its end. The reset is taken
-- at the end and the other registers are set, the engine was given a packet for every round, in the
-- ring's order, each of just its header and the same words of the ramp, and has given all buffers back.
pub main_tx_test-Sent :
    {S : Type 0} (ch : MappedChannel S) (laws : Registers ch) (answers last : ℕ → Answers)
    (packet_loops : ℕ) (s : S) (l : LocalBuffer)
    → laws.Usable s
    → 8 ≤ laws.size s
    → RingIsValid l
    → ((k : ℕ) → Willing (answers k))
    → ((k : ℕ) → Willing (last k))
    → (s' : S) × (t : Transmitter) × (main_tx_test (device ch) answers last packet_loops s l
        ≡ some (s', t))
      × ((i : ℕ)
          → laws.contents s' i ≡ after tx_test_reset (after tx_test_setup (laws.contents s)) i)
      × Sent packet_loops l t
unfolding main_tx_test io_sync_stream_device
main_tx_test-Sent ch laws answers last n s l u size v w wl =
    let (s1, e1, u1, n1, regs1) =
      write_all-after ch laws tx_test_setup s u
        (AllFit-first_eight (laws.size s) tx_test_setup refl size) in
    let start : Transmitter = record { device = l; handed = [] } in
    let (t, e2, sends) = tx_test_loop-Sends answers n 0 1 start v w (omega arith) in
    let (l', e3, moved, back) =
      finish_stream-Transfers (packet_bytes tx_test_size) n last l t.device sends.transfers wl in
    let (s2, e4, u2, n2, regs2) =
      write_all-after ch laws tx_test_reset s1 u1
        (AllFit-first_eight (laws.size s1) tx_test_reset refl (omega (arith, n1, size))) in
    (
      s2,
      record t { device = l' },
      rw (e1, e2, e3) (rw e4 refl),
      λ i.
          regs2 i
          ∙ after-ext tx_test_reset (laws.contents s1) (after tx_test_setup (laws.contents s)) regs1
              i,
      record { sends = record { transfers = moved; given = sends.given }; back = back },
    )

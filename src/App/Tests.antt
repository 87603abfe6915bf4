-- ===== src/App/Tests.antt =====
-- Runs of the two threads, txrx_test_thread.c.
use streamio.Common.{
  ℕ, ◌+◌, ap, true, false, zero, suc, ◌≤◌, ◌<◌, some-subst, replicate, from_le, ◌≡◌, refl, Bool,
  ◌==◌, length, none, some, List, [], ◌∷◌, arith,
}
use streamio.Local.Samples.{device, device-RingIsValid, completes}
use streamio.Remote.Deliver.Samples.{completes-Willing}
use streamio.App.{Packet, tx_packet, compare_from, compare_packets, Transmitter}
use streamio.Local.Window.{Window}
use streamio.Backend.Local.{mapped_local, local_registers, register}
use streamio.Backend.Samples.{window, window-Mapped}
use streamio.Backend.Writes
use streamio.Backend.Writes.{after}
use streamio.App.TxTest.{tx_test_setup, tx_test_reset, main_tx_test}
use streamio.App.TxTest.Packets.{Sent, main_tx_test-Sent}
use streamio.Dma.{buffer_size}
use streamio.App.LoopTest.{stale_bytes, loop_setup, LoopAnswers, LoopState, main_txrx_test}
use streamio.App.LoopTest.Stale.{AllRoom}
use streamio.App.LoopTest.Rounds.{AllWilling, LoopReady, AllBack, Loops, main_txrx_test-Loops}
use streamio.App.{word_bytes}
use streamio.App.Transmit.{length-word_bytes}
use streamio.App.Validate.{pattern}
use streamio.App.Transfers.{Transfers}
use streamio.App.RxTest.{rx_setup, RxAnswers, RxState, RxEnd, main_rx}
use streamio.App.RxTest.Check.{RxWilling, packet}
use streamio.App.RxTest.Course.{Course, main_rx-Course}
use streamio.App.Session.{
  session_setup, session_size, session_rounds, txrx_test_thread, txrx_test_thread-Sends,
}
use streamio.App.Validate.{validate_data, validate_from, around, printed}
use streamio.App.Transmit.{Sends, rounds_until}

-- Eight words in packets of three, the last of which has a wrong word.
abbrev received : List Packet
received =
    record { packet_length = 3; buffer = 1 ∷ 2 ∷ 3 ∷ 0 ∷ [] }
    ∷ record { packet_length = 3; buffer = 4 ∷ 5 ∷ 6 ∷ [] }
    ∷ record { packet_length = 2; buffer = 7 ∷ 9 ∷ [] }
    ∷ []

compare_packets-received : compare_packets true received 0 ≡ some (none ∷ none ∷ some 1 ∷ [])
unfolding compare_packets compare_from
compare_packets-received = refl

-- Three rounds over the registers of the local backend.
main_tx_test-Sent_example :
    (s' : Window) × (t : Transmitter) × (main_tx_test
        (Writes.device mapped_local)
        (λ k. completes)
        (λ k. completes)
        3
        window
        device
      ≡ some (s', t))
    × ((i : ℕ) → register s' i ≡ after tx_test_reset (after tx_test_setup (register window)) i)
    × Sent 3 device t
main_tx_test-Sent_example =
    main_tx_test-Sent mapped_local local_registers (λ k. completes) (λ k. completes) 3 window device
      window-Mapped (omega arith) device-RingIsValid (λ k. completes-Willing)
      (λ k. completes-Willing)

-- Both rings are at the buffer that the engine has.
abbrev loop_start : LoopState
loop_start = record { sender = record { device = device; handed = [] }; receiver = device }

AllRoom-replicate : (n : ℕ) → AllRoom (replicate n [])
unfolding from_le
AllRoom-replicate zero j bs e = absurd (cc)
AllRoom-replicate (suc n) zero bs e = some-subst (λ x. stale_bytes x ≤ buffer_size) e (omega arith)
AllRoom-replicate (suc n) (suc j) bs e = AllRoom-replicate n j bs e

loop_start-LoopReady : LoopReady loop_start
loop_start-LoopReady = record {
  sender = device-RingIsValid;
  receiver = device-RingIsValid;
  room = AllRoom-replicate 32;
}

abbrev loop_answers : ℕ → LoopAnswers
loop_answers k = record {
  tx = completes;
  rx = completes;
  tx_sync = λ j. completes;
  rx_sync = λ j. completes;
}

loop_answers-AllWilling : (k : ℕ) → AllWilling (loop_answers k)
loop_answers-AllWilling k = record {
  tx = completes-Willing;
  rx = completes-Willing;
  tx_sync = λ j. completes-Willing;
  rx_sync = λ j. completes-Willing;
}

-- Forty rounds: both rings come round.
main_txrx_test-Loops_example :
    (s' : Window) × (ended : LoopState) × (main_txrx_test
        (Writes.device mapped_local)
        loop_answers
        7
        40
        window
        loop_start
      ≡ some (s', ended))
    × ((i : ℕ) → register s' i ≡ after tx_test_reset (after loop_setup (register window)) i)
    × Loops 7 40 0 loop_start ended
    × (0 < 40 → AllBack ended)
main_txrx_test-Loops_example =
    main_txrx_test-Loops mapped_local local_registers loop_answers 7 40 window loop_start
      window-Mapped (omega arith) loop_start-LoopReady loop_answers-AllWilling

-- The sender is stopped in round 2.
abbrev stops : ℕ → Bool
stops k = k == 2

txrx_test_thread-Sends_example :
    (s' : Window) × (t : Transmitter) × (txrx_test_thread
        (Writes.device mapped_local)
        (λ k. completes)
        stops
        window
        device
      ≡ some (s', t))
    × ((i : ℕ) → register s' i ≡ after tx_test_reset (after session_setup (register window)) i)
    × Sends 65548
        (tx_packet session_size)
        (rounds_until stops session_rounds 0)
        0
        (record { device = device; handed = [] })
        t
txrx_test_thread-Sends_example =
    txrx_test_thread-Sends mapped_local local_registers (λ k. completes) stops window device
      window-Mapped (omega arith) device-RingIsValid (λ k. completes-Willing)

-- The third word is wrong: all the words are printed.
validate_data-wrong : validate_data 4 (0 ∷ 2 ∷ 5 ∷ 6 ∷ []) ≡ some (some (0 ∷ 2 ∷ 5 ∷ 6 ∷ []))
unfolding validate_data validate_from around printed
validate_data-wrong = refl

length-pattern : (n i : ℕ) → length (pattern i n) ≡ n
length-pattern zero i = refl
length-pattern (suc n) i = ap suc (length-pattern n (i + 1))

-- The engine is in time in the first two rounds, and stores nothing in time in the third.
abbrev arrives_at : ℕ → List ℕ
arrives_at zero = word_bytes (pattern 0 2048)
arrives_at (suc zero) = word_bytes (pattern 0 2048)
arrives_at (suc (suc k)) = []

abbrev rx_answers : ℕ → RxAnswers
rx_answers k = record {
  stop = false;
  inner_stop = false;
  tx = completes;
  rx = completes;
  sync = λ j. completes;
  arrived = arrives_at k;
}

within : (k : ℕ) → length (arrives_at k) ≤ 8192
within zero = omega (arith, length-word_bytes (pattern 0 2048), length-pattern 2048 0)
within (suc zero) = omega (arith, length-word_bytes (pattern 0 2048), length-pattern 2048 0)
within (suc (suc k)) = omega arith

rx_answers-RxWilling : (k : ℕ) → RxWilling (rx_answers k)
rx_answers-RxWilling k = record {
  tx = completes-Willing;
  rx = completes-Willing;
  sync = λ j. completes-Willing;
  within = within k;
}

abbrev rx_start : RxState
rx_start = record { dma_rx = device; dma_tx = device }

main_rx-Course_example :
    (m' : Window) × (s' : RxState) × (end : RxEnd) × (k : ℕ) × (main_rx
        (Writes.device mapped_local)
        rx_answers
        5
        window
        rx_start
      ≡ some (m', s', end))
    × ((i : ℕ) → register m' i ≡ after rx_setup (register window) i)
    × Course rx_answers 5 0 k end
    × Transfers packet k device s'.dma_rx
main_rx-Course_example =
    main_rx-Course mapped_local local_registers rx_answers 5 window rx_start window-Mapped
      (omega arith) device-RingIsValid device-RingIsValid rx_answers-RxWilling

-- ===== src/App/LoopTest/Rounds.antt =====
-- What main_txrx_test of userspace/test_app/src/tc_test.c hands to the engines.
use streamio.Common.{
  ℕ, zero, suc, ◌+◌, ◌*◌, ◌%◌, ◌^◌, ◌<◌, ◌≤◌, ◌≡◌, refl, ◌∙◌, some, [], ◌∷◌, ◌++◌, arith,
}
use streamio.Dma.{buffer_size, buffer_count, sizeof_channel_buffer}
use streamio.Dma.Contents.{contents}
use streamio.Local.Contents.{io_write_stream_local-contents, io_finish_stream_local-contents}
use streamio.Local.Ring.{RingIsValid}
use streamio.Local.Drain.{IsBack}
use streamio.Remote.Deliver.Calls.{Willing}
use streamio.Backend.{
  MappedChannel, Registers, io_write_stream_device, io_read_stream_device, io_sync_stream_device,
}
use streamio.Backend.Writes.{write_all-after, after, after-ext, AllFit-first_eight, device}
use streamio.App.{buffer_in_bytes}
use streamio.App.Transfers.{
  Transfers, write_stream-Transfers, finish_stream-Transfers, no-Transfers, more-Transfers,
}
use streamio.App.Transmit.{packet_bytes, Sends, no_rounds, one_round}
use streamio.App.TxTest.{tx_test_reset}
use streamio.App.{Transmitter}
use streamio.App.LoopTest.{
  loop_size, loop_setup, loop_header, LoopAnswers, LoopState, loop_round, loop_rounds,
  main_txrx_test,
}
use streamio.App.LoopTest.Stale.{AllRoom}
use streamio.App.LoopTest.Ask.{ask_packet, ask_buffer}
use streamio.App.LoopTest.Fill.{loop_packet, fill_buffer, fill_buffer-memory, Filled-AllRoom}

-- The engines take each transfer and complete in time.
pub record AllWilling (a : LoopAnswers) : Type 0 where
  pub tx : Willing a.tx
  pub rx : Willing a.rx
  pub tx_sync : (k : ℕ) → Willing (a.tx_sync k)
  pub rx_sync : (k : ℕ) → Willing (a.rx_sync k)

-- The state that a round can start from.
pub record LoopReady (s : LoopState) : Type 0 where
  pub sender : RingIsValid s.sender.device
  pub receiver : RingIsValid s.receiver
  pub room : AllRoom (contents s.sender.device.channel)

-- No buffer is with the engine.
abbrev pub AllBack : LoopState → Type 0
AllBack s =
    (j : ℕ) → j < buffer_count → IsBack s.sender.device.channel j × IsBack s.receiver.channel j

-- What `n` rounds from round `j` on make of the devices.
pub record Loops (start n j : ℕ) (s s' : LoopState) : Type 0 where
  pub ready : LoopReady s'
  pub sent : Sends (packet_bytes loop_size) (loop_packet start) n j s.sender s'.sender
  pub asked : Transfers buffer_size n s.receiver s'.receiver

loop_round-Loops :
    (a : LoopAnswers) (start j : ℕ) (s : LoopState)
    → LoopReady s
    → AllWilling a
    → (s' : LoopState) × (loop_round a start j s ≡ some s') × Loops start 1 j s s' × AllBack s'
unfolding loop_round io_write_stream_device io_read_stream_device io_sync_stream_device
loop_round-Loops a start j s ok w =
    let size = packet_bytes loop_size in
    let i = s.sender.device.current_buffer_id in
    let t = ask_buffer a.tx s.sender.device ok.sender ok.room w.tx in
    let (c1, c2, c3, p1, p2, p3, f) =
      fill_buffer start j i t.device t.given.buffer t.given.valid ok.sender.current t.given.found
        t.fits in
    let (r, r1, d, e2, p4, e4, asked) = ask_packet a.rx s.receiver ok.receiver w.rx in
    let (l1, e3, sent) =
      write_stream-Transfers size a.tx s.sender.device t.device c3 ok.sender w.tx t.given f.valid
        f.issued f.base (omega arith) in
    let (l2, e5, sent2, back) =
      finish_stream-Transfers size 1 a.tx_sync s.sender.device l1 sent w.tx_sync in
    let (r2, e6, asked2, back2) =
      finish_stream-Transfers buffer_size 1 a.rx_sync s.receiver r1 asked w.rx_sync in
    let whole : buffer_in_bytes (loop_header start j) % 2 ^ 32 ≡ size = omega arith in
    let memory = fill_buffer-memory start j i t.device c3 f in
    let kept : contents l2.channel ≡ contents c3 =
      io_finish_stream_local-contents a.tx_sync l1 e5
      ∙ io_write_stream_local-contents a.tx (sizeof_channel_buffer * i) size
          (record (t.device) { channel = c3 }) e3 in
    let sender : Transmitter = record {
      device = l2;
      handed = s.sender.handed ++ (loop_packet start j ∷ []);
    } in
    (
      record { sender = sender; receiver = r2 },
      rw (t.run, t.given.found, p1, p2, e2, p4, p3, f.found, whole)
          (rw (memory, e3, e4, e5, e6) refl),
      record {
        ready = record {
          sender = sent2.valid;
          receiver = asked2.valid;
          room = rw kept (Filled-AllRoom start j i t.device c3 f t.room);
        };
        sent = record { transfers = sent2; given = refl };
        asked = asked2;
      },
      λ k lt. (back k lt, back2 k lt),
    )

-- `ended` tells whether a round was done before.
loop_rounds-Loops :
    (answers : ℕ → LoopAnswers) (start n j ended : ℕ) (s : LoopState)
    → LoopReady s
    → ((k : ℕ) → AllWilling (answers k))
    → (0 < ended → AllBack s)
    → (s' : LoopState) × (loop_rounds answers start n j s ≡ some s')
      × Loops start n j s s'
      × (0 < ended + n → AllBack s')
unfolding loop_rounds
loop_rounds-Loops answers start zero j ended s ok w back = (
  s,
  refl,
  record {
    ready = ok;
    sent = no_rounds (packet_bytes loop_size) (loop_packet start) j s.sender ok.sender;
    asked = no-Transfers buffer_size s.receiver ok.receiver;
  },
  λ pos. back (omega (arith, pos)),
)
loop_rounds-Loops answers start (suc n) j ended s ok w back =
    let (s1, e1, one, back1) = loop_round-Loops (answers j) start j s ok (w j) in
    let (s2, e2, more, back2) =
      loop_rounds-Loops answers start n (j + 1) 1 s1 one.ready w (λ pos. back1) in
    (
      s2,
      rw e1 e2,
      record {
        ready = more.ready;
        sent =
            one_round (packet_bytes loop_size) (loop_packet start) n j s.sender s1.sender s2.sender
              one.sent more.sent;
        asked =
            more-Transfers buffer_size n s.receiver s1.receiver s2.receiver one.asked more.asked;
      },
      λ pos. back2 (omega arith),
    )

-- `main_txrx_test` over any backend that keeps its promise of at least eight registers, and valid rings
-- whose engines take each transfer and complete in time, where the length that each buffer of the
-- sender holds at first is one with which the buffer can be filled: it runs to its end. The reset
-- is taken at the end and the other registers are set. The sender's engine was given a packet
-- for every round and the receiver's a whole buffer to fill, each in its ring's order from the current
-- buffer on, each packet of just its header and the words that go up through all packets; and if
-- there was a round, no buffer of either ring is left with an engine.
pub main_txrx_test-Loops :
    {S : Type 0} (ch : MappedChannel S) (laws : Registers ch) (answers : ℕ → LoopAnswers)
    (start packet_loops : ℕ) (s : S) (devices : LoopState)
    → laws.Usable s
    → 8 ≤ laws.size s
    → LoopReady devices
    → ((k : ℕ) → AllWilling (answers k))
    → (s' : S) × (ended : LoopState) × (main_txrx_test
          (device ch)
          answers
          start
          packet_loops
          s
          devices
        ≡ some (s', ended))
      × ((i : ℕ) → laws.contents s' i ≡ after tx_test_reset (after loop_setup (laws.contents s)) i)
      × Loops start packet_loops 0 devices ended
      × (0 < packet_loops → AllBack ended)
unfolding main_txrx_test
main_txrx_test-Loops ch laws answers start n s devices u size ok w =
    let (s1, e1, u1, n1, regs1) =
      write_all-after ch laws loop_setup s u
        (AllFit-first_eight (laws.size s) loop_setup refl size) in
    let (ended, e2, loops, back) =
      loop_rounds-Loops answers start n 0 0 devices ok w (λ pos. absurd (omega (arith, pos))) in
    let (s2, e3, u2, n2, regs2) =
      write_all-after ch laws tx_test_reset s1 u1
        (AllFit-first_eight (laws.size s1) tx_test_reset refl (omega (arith, n1, size))) in
    (
      s2,
      ended,
      rw (e1, e2) (rw e3 refl),
      λ i.
          regs2 i
          ∙ after-ext tx_test_reset (laws.contents s1) (after loop_setup (laws.contents s)) regs1 i,
      loops,
      λ pos. back (omega (arith, pos)),
    )

-- ===== src/App/Session.antt =====
-- txrx_test_thread of userspace/test_app/src/txrx_test_thread.c, with its devices open: it sets up the
-- registers, runs the thread that sends until it ends, and takes the reset. The thread that receives
-- has a device of its own and is left out; the program waits for its end too.
use streamio.Common.{
  ℕ, ◌*◌, ◌%◌, ◌^◌, ◌≤◌, ◌≡◌, refl, ◌∙◌, Bool, Option, some, List, [], ◌∷◌, ◌>>=◌, arith,
}
use streamio.Local.{LocalBuffer, Answers}
use streamio.Local.Ring.{RingIsValid}
use streamio.Remote.Deliver.Calls.{Willing}
use streamio.Backend.{MappedChannel, MappedDevice, Registers}
use streamio.Backend.Writes.{
  Setting, write_all, write_all-after, after, after-ext, AllFit-first_eight, device,
}
use streamio.App.{tx_packet, Transmitter, tx_thread}
use streamio.App.Transmit.{Sends, rounds_until, packet_bytes, tx_thread-Sends}
use streamio.App.TxTest.{tx_test_reset}

abbrev pub packet_loops : ℕ
packet_loops = 1000000

abbrev pub session_size : ℕ
session_size = 16384

-- packet_loops * packet_size, in 32 bits
abbrev pub total_size : ℕ
total_size = packet_loops * session_size % 2 ^ 32

abbrev pub session_setup : List Setting
session_setup = (5, 3) ∷ (6, 4096) ∷ (7, 16) ∷ (5, 0) ∷ []

-- What a session ends with: what its registers stand for, and the sender.
pub txrx_test_thread :
    {S : Type 0}
    → MappedDevice S
    → (ℕ → Answers)
    → (ℕ → Bool)
    → S
    → LocalBuffer
    → Option (S × Transmitter)
txrx_test_thread map_dev answers stop s l = do
  s1 ← write_all map_dev session_setup s
  t ← tx_thread answers stop session_size total_size l
  s2 ← write_all map_dev tx_test_reset s1
  some (s2, t)

-- How many rounds the sender makes when it is not stopped.
abbrev pub session_rounds : ℕ
session_rounds = 213568

-- The sender's side of `txrx_test_thread`, over any backend that keeps its promise of at least eight
-- registers and a valid ring whose engine takes each transfer and completes in time: it runs to its
-- end, and its registers are as the assignments leave them. The sender makes 213568 rounds, not the
-- 1000000 that are set, unless it is stopped before; the engine was given a packet for each, in the
-- ring's order, of just its header and its words.
pub txrx_test_thread-Sends :
    {S : Type 0} (ch : MappedChannel S) (laws : Registers ch) (answers : ℕ → Answers)
    (stop : ℕ → Bool) (s : S) (l : LocalBuffer)
    → laws.Usable s
    → 8 ≤ laws.size s
    → RingIsValid l
    → ((k : ℕ) → Willing (answers k))
    → (s' : S) × (t : Transmitter) × (txrx_test_thread (device ch) answers stop s l ≡ some (s', t))
      × ((i : ℕ)
          → laws.contents s' i ≡ after tx_test_reset (after session_setup (laws.contents s)) i)
      × Sends
          (packet_bytes session_size)
          (tx_packet session_size)
          (rounds_until stop session_rounds 0)
          0
          (record { device = l; handed = [] })
          t
unfolding txrx_test_thread
txrx_test_thread-Sends ch laws answers stop s l u size v w =
    let (s1, e1, u1, n1, regs1) =
      write_all-after ch laws session_setup s u
        (AllFit-first_eight (laws.size s) session_setup refl size) in
    let (t, e2, sends) =
      tx_thread-Sends answers stop session_size total_size l (omega arith) (omega arith) v w in
    let (s2, e4, u2, n2, regs2) =
      write_all-after ch laws tx_test_reset s1 u1
        (AllFit-first_eight (laws.size s1) tx_test_reset refl (omega (arith, n1, size))) in
    (
      s2,
      t,
      rw (e1, e2, e4) refl,
      λ i.
          regs2 i
          ∙ after-ext tx_test_reset (laws.contents s1) (after session_setup (laws.contents s)) regs1
              i,
      sends,
    )

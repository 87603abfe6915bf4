-- ===== src/App/RxTest/Course.antt =====
-- How main_rx of userspace/io_client/src/client_test.c goes, and what it asks the engine for.
use streamio.Common.{
  ℕ, zero, suc, ◌+◌, ◌<◌, ◌≤◌, ◌≡◌, refl, ap, ◌∙◌, inl, inr, true, false, Bool-cases, some, length,
  arith,
}
use streamio.Dma.{buffer_size}
use streamio.Local.{LocalBuffer, Answers}
use streamio.Local.Ring.{RingIsValid}
use streamio.Remote.Deliver.Calls.{Willing, get_buffer-Given}
use streamio.Backend.{MappedChannel, Registers, io_write_stream_device}
use streamio.Backend.Writes.{write_all-after, after, AllFit-first_eight, device}
use streamio.App.Transfers.{
  Transfers, write_stream-Transfers, no-Transfers, more-Transfers, resume-Transfers,
}
use streamio.App.RxTest.{
  rx_setup, RxAnswers, RxState, RxEnd, finished, no_buffer, force_exit, main_tx, rx_loop, main_rx,
}
use streamio.App.RxTest.Memory.{Shows, incomplete_lem}
use streamio.App.RxTest.Check.{RxWilling, packet, quiet, tested, ended, rx_round-Rounded}

-- The course of the rounds from round `i` on: how many packets are asked for, and how it ends.
pub data Course (answers : ℕ → RxAnswers) : ℕ → ℕ → ℕ → RxEnd → Type 0 where
  over : {i : ℕ} → Course answers zero i 0 finished
  stopped : {n i : ℕ} → (answers i).stop ≡ true → Course answers (suc n) i 0 finished
  skipped :
      {n i k : ℕ} {e : RxEnd}
      → (answers i).stop ≡ false
      → (answers i).inner_stop ≡ true
      → Course answers n (i + 1) k e
      → Course answers (suc n) i k e
  shown :
      {n i k : ℕ} {e : RxEnd}
      → (answers i).stop ≡ false
      → (answers i).inner_stop ≡ false
      → Shows (answers i)
      → Course answers n (i + 1) k e
      → Course answers (suc n) i (suc k) e
  wrong :
      {n i : ℕ}
      → (answers i).stop ≡ false
      → (answers i).inner_stop ≡ false
      → (Shows (answers i) → ⊥)
      → Course answers (suc n) i 1 force_exit

rx_loop-Course :
    (answers : ℕ → RxAnswers) (n i : ℕ) (s : RxState)
    → RingIsValid s.dma_rx
    → RingIsValid s.dma_tx
    → ((j : ℕ) → RxWilling (answers j))
    → (s' : RxState) × (end : RxEnd) × (k : ℕ) × (rx_loop answers n i s ≡ some (s', end))
      × Course answers n i k end
      × Transfers packet k s.dma_rx s'.dma_rx
unfolding rx_loop
rx_loop-Course answers zero i s vr vt w =
    (s, finished, 0, refl, over, no-Transfers packet s.dma_rx vr)
rx_loop-Course answers (suc n) i s vr vt w = elim (Bool-cases (answers i).stop) [
  | inl y ↦ (s, finished, 0, rw y refl, stopped y, no-Transfers packet s.dma_rx vr)
  | inr m ↦
      let (s1, r, e1, vt1, round) = rx_round-Rounded (answers i) s vr vt (w i) in
      elim round [
        | quiet q y moved ↦
            let (s2, end, k, e2, course, more) =
              rx_loop-Course answers n (i + 1) s1 moved.valid vt1 w in
            (
              s2,
              end,
              k,
              rw (e1, q, m) e2,
              skipped m y course,
              resume-Transfers packet k s.dma_rx s1.dma_rx s2.dma_rx vr moved more,
            )
        | tested q inside shows moved ↦
            let (s2, end, k, e2, course, more) =
              rx_loop-Course answers n (i + 1) s1 moved.valid vt1 w in
            (
              s2,
              end,
              suc k,
              rw (e1, q, m) e2,
              shown m inside shows course,
              more-Transfers packet k s.dma_rx s1.dma_rx s2.dma_rx moved more,
            )
        | ended q inside wrong_words moved ↦
            (s1, force_exit, 1, rw (e1, q, m) refl, wrong m inside wrong_words, moved)
      ]
]

-- `main_rx` over any backend that keeps its promise of at least eight registers, and valid rings whose
-- engines take each transfer, complete in time and store within its memory: it runs to an end, with
-- the registers set. The engine was asked for a packet in every round that was not stopped, in
-- the ring's order from the current buffer on; the program goes on as long as the words that are
-- there when `io_read_stream_device` has returned are those of the pattern, and gives up at the
-- first other packet.
pub main_rx-Course :
    {S : Type 0} (ch : MappedChannel S) (laws : Registers ch) (answers : ℕ → RxAnswers)
    (loop_times : ℕ) (m : S) (s : RxState)
    → laws.Usable m
    → 8 ≤ laws.size m
    → RingIsValid s.dma_rx
    → RingIsValid s.dma_tx
    → ((j : ℕ) → RxWilling (answers j))
    → (m' : S) × (s' : RxState) × (end : RxEnd) × (k : ℕ) × (main_rx
          (device ch)
          answers
          loop_times
          m
          s
        ≡ some (m', s', end))
      × ((i : ℕ) → laws.contents m' i ≡ after rx_setup (laws.contents m) i)
      × Course answers loop_times 0 k end
      × Transfers packet k s.dma_rx s'.dma_rx
unfolding main_rx
main_rx-Course ch laws answers n m s u size vr vt w =
    let (m1, e1, u1, n1, regs) =
      write_all-after ch laws rx_setup m u (AllFit-first_eight (laws.size m) rx_setup refl size) in
    let (s', end, k, e2, course, moved) = rx_loop-Course answers n 0 s vr vt w in
    (m1, s', end, k, rw (e1, e2) refl, regs, course, moved)

gives_up_first :
    (answers : ℕ → RxAnswers) (n k : ℕ) (end : RxEnd)
    → Course answers n 0 k end
    → (answers 0).stop ≡ false
    → (answers 0).inner_stop ≡ false
    → 0 < n
    → (Shows (answers 0) → ⊥)
    → end ≡ force_exit
gives_up_first answers zero zero finished over go inner pos late = absurd (omega (arith, pos))
gives_up_first answers zero zero no_buffer c go inner pos late = elim c [ ]
gives_up_first answers zero zero force_exit c go inner pos late = elim c [ ]
gives_up_first answers zero (suc k) end c go inner pos late = elim c [ ]
gives_up_first answers (suc n) zero finished (stopped y) go inner pos late = absurd (cc)
gives_up_first answers (suc n) k end (skipped m y c) go inner pos late = absurd (cc)
gives_up_first answers (suc n) (suc k) end (shown m inside shows c) go inner pos late =
    absurd (late shows)
gives_up_first answers (suc n) (suc zero) force_exit (wrong m inside bad) go inner pos late = refl

-- If in the first round the engine has not stored all bytes of the packet by the time that
-- `io_read_stream_device` has returned, the program gives up in that round.
main_rx_incomplete :
    {S : Type 0} (ch : MappedChannel S) (laws : Registers ch) (answers : ℕ → RxAnswers)
    (loop_times : ℕ) (m : S) (s : RxState)
    → laws.Usable m
    → 8 ≤ laws.size m
    → RingIsValid s.dma_rx
    → RingIsValid s.dma_tx
    → ((j : ℕ) → RxWilling (answers j))
    → (answers 0).stop ≡ false
    → (answers 0).inner_stop ≡ false
    → 0 < loop_times
    → length (answers 0).arrived < packet
    → (m' : S) × (s' : RxState) × (main_rx (device ch) answers loop_times m s
        ≡ some (m', s', force_exit))
main_rx_incomplete ch laws answers n m s u size vr vt w go inner pos late =
    let (m', s', end, k, e, regs, course, moved) =
      main_rx-Course ch laws answers n m s u size vr vt w in
    (
      m',
      s',
      e
          ∙ ap (λ x. some (m', s', x))
              (gives_up_first answers n k end course go inner pos
                (incomplete_lem (answers 0) late)),
    )

main_tx-Transfers :
    (answers : ℕ → Answers) (n j : ℕ) (l : LocalBuffer)
    → RingIsValid l
    → ((k : ℕ) → Willing (answers k))
    → (l' : LocalBuffer) × (main_tx answers n j l ≡ some l') × Transfers buffer_size n l l'
unfolding main_tx io_write_stream_device
main_tx-Transfers answers zero j l v w = (l, refl, no-Transfers buffer_size l v)
main_tx-Transfers answers (suc n) j l v w =
    let (l1, e1, g) = get_buffer-Given (answers j) l v (w j) in
    let (l2, e2, sent) =
      write_stream-Transfers buffer_size (answers j) l l1 l1.channel v (w j) g g.valid refl refl
        (omega arith) in
    let (l3, e3, rest) = main_tx-Transfers answers n (j + 1) l2 sent.valid w in
    (l3, rw (e1, e2) e3, more-Transfers buffer_size n l l2 l3 sent rest)

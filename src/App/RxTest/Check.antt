-- ===== src/App/RxTest/Check.antt =====
-- A round of main_rx of userspace/io_client/src/client_test.c: what it asks the engine for and compares.
use streamio.Common.{
  ℕ, ◌+◌, ◌*◌, ◌≤◌, ◌≡◌, refl, sym, ap, ◌∙◌, inl, inr, true, false, Bool-cases, Option, none, some,
  Option-cases, List, ◌++◌, length, length-replicate, replicate, get_elem?, get_elem?-map,
  get_elem?_of_map, take, take-length, drop, arith,
}
use streamio.Dma.{ChannelBuffer, sizeof_channel_buffer}
use streamio.Dma.Contents.{contents}
use streamio.Local.{LocalBuffer}
use streamio.Local.Contents.{io_write_stream_local-contents}
use streamio.Local.Ring.{RingIsValid}
use streamio.Remote.Deliver.Calls.{
  Willing, Given, get_buffer-Given, get_buffer-some, put, put_at, put_bytes-put,
}
use streamio.Backend.{io_read_stream_device, io_sync_stream_device}
use streamio.App.Transfers.{
  Transfers, write_stream-Transfers, finish_stream-Transfers, no-Transfers,
}
use streamio.App.Validate.{validate_data, validate_data-pattern}
use streamio.App.RxTest.{
  test_size, RxAnswers, RxState, RxEnd, force_exit, words_of, verdict, rx_check, rx_inner, rx_round,
}
use streamio.App.RxTest.Memory.{memory, Shows, words_of-memory, length-words_of}

-- The engines take each transfer and complete in time, and store within the transfer's memory.
pub record RxWilling (a : RxAnswers) : Type 0 where
  pub tx : Willing a.tx
  pub rx : Willing a.rx
  pub sync : (k : ℕ) → Willing (a.sync k)
  pub within : length a.arrived ≤ 4 * test_size

abbrev pub packet : ℕ
packet = 4 * test_size

-- What a compare makes of the device, and whether it lets the program go on.
data Checked (a : RxAnswers) : Option RxEnd → Type 0 where
  goes_on : {r : Option RxEnd} → r ≡ none → Shows a → Checked a r
  gives_up : {r : Option RxEnd} → r ≡ some force_exit → (Shows a → ⊥) → Checked a r

-- The memory behind the compare's buffer: what came in, over the fill, over what there was.
stored_words :
    (a : RxAnswers) (b b' : ChannelBuffer)
    → b'.buffer ≡ (put 0 (replicate packet 254) b).buffer
    → length a.arrived ≤ packet
    → words_of test_size (put 0 a.arrived b').buffer
      ≡ words_of test_size
          (a.arrived ++ drop (length a.arrived) (replicate packet 254 ++ drop packet b.buffer))
stored_words a b b' e le =
    let fill : List ℕ = replicate packet 254 in
    let long : 0 + length fill ≡ packet = omega (arith, length-replicate {A = ℕ} packet 254) in
    let none_before : 0 + length a.arrived ≡ length a.arrived = omega arith in
    ap (λ n. words_of test_size (a.arrived ++ drop n b'.buffer)) none_before
    ∙ ap (λ x. words_of test_size (a.arrived ++ drop (length a.arrived) x))
        (e ∙ ap (λ n. fill ++ drop n b.buffer) long)

check_words :
    (a : RxAnswers) (ws : List ℕ)
    → ws ≡ words_of test_size (memory a.arrived)
    → (r : Option (List ℕ)) × (validate_data test_size ws ≡ some r) × Checked a (verdict r)
check_words a ws e =
    let long : length ws ≡ test_size = ap length e ∙ length-words_of test_size (memory a.arrived) in
    let (r, run, iff) = validate_data-pattern test_size ws (omega (arith, long)) in
    let all : take test_size ws ≡ words_of test_size (memory a.arrived) =
      ap (λ n. take n ws) (sym long) ∙ take-length ws ∙ e in
    (
      r,
      run,
      elim (Option-cases r) [
        | inl n ↦ goes_on (ap verdict n) (sym all ∙ iff.0 n)
        | inr (out, n) ↦ gives_up (ap verdict n) (λ s. let q = iff.1 (all ∙ s) in cc)
      ],
    )

rx_check-Checked :
    (a : RxAnswers) (l0 l : LocalBuffer) (t : LocalBuffer)
    → RingIsValid l0
    → RxWilling a
    → Given l0 l
    → (l' : LocalBuffer) × (r : Option RxEnd) × (rx_check a l0.current_buffer_id
          (record { dma_rx = l; dma_tx = t })
        ≡ some (record { dma_rx = l'; dma_tx = t }, r))
      × Transfers packet 1 l0 l'
      × Checked a r
unfolding rx_check io_read_stream_device
rx_check-Checked a l0 l t v0 w g =
    let id = l0.current_buffer_id in
    let fill : List ℕ = replicate packet 254 in
    let (e1, v1, f1) =
      put_bytes-put id 0 fill g.buffer l g.valid v0.current g.found
        (omega (arith, length-replicate {A = ℕ} packet 254)) in
    let c = put_at id 0 fill g.buffer l.channel in
    let (l1, e2, moved) =
      write_stream-Transfers packet a.rx l0 l c v0 w.rx g v1 refl refl (omega arith) in
    let kept : contents l1.channel ≡ contents c =
      io_write_stream_local-contents a.rx (sizeof_channel_buffer * id) packet
        (record l { channel = c }) e2 in
    let there : get_elem? (contents l1.channel) id ≡ some (put 0 fill g.buffer).buffer =
      ap (λ x. get_elem? x id) kept
      ∙ get_elem?-map (λ (x : ChannelBuffer). x.buffer) c.buffer_table id f1 in
    let (b, f2, same) =
      get_elem?_of_map (λ (x : ChannelBuffer). x.buffer) l1.channel.buffer_table id there in
    let (e3, v3, f3) =
      put_bytes-put id 0 a.arrived b l1 moved.valid v0.current f2 (omega (arith, w.within)) in
    let words : words_of test_size (put 0 a.arrived b).buffer ≡ words_of test_size _ =
      stored_words a g.buffer b same w.within
      ∙ words_of-memory a.arrived (drop packet g.buffer.buffer) w.within in
    let (r, run, checked) = check_words a (words_of test_size (put 0 a.arrived b).buffer) words in
    (
      record l1 { channel = put_at id 0 a.arrived b l1.channel },
      verdict r,
      rw (e1, e2, e3, f3, run) refl,
      record { valid = v3; base = moved.base; next = moved.next; queue = moved.queue },
      checked,
    )

rx_inner-Checked :
    (a : RxAnswers) (s : RxState)
    → RingIsValid s.dma_rx
    → RingIsValid s.dma_tx
    → RxWilling a
    → (s' : RxState) × (r : Option RxEnd) × (rx_inner a s ≡ some (s', r))
      × RingIsValid s'.dma_tx
      × Transfers packet 1 s.dma_rx s'.dma_rx
      × Checked a r
unfolding rx_inner
rx_inner-Checked a s vr vt w =
    let (t, e1, gt) = get_buffer-Given a.tx s.dma_tx vt w.tx in
    let (l, e2, gr) = get_buffer-Given a.rx s.dma_rx vr w.rx in
    let (l', r, e3, moved, checked) = rx_check-Checked a s.dma_rx l t vr w gr in
    (
      record { dma_rx = l'; dma_tx = t },
      r,
      rw (get_buffer-some a.tx s.dma_tx e1, get_buffer-some a.rx s.dma_rx e2) e3,
      gt.valid,
      moved,
      checked,
    )

-- A round ends the program, or is followed by a sync.
pub data Rounded (a : RxAnswers) (s s' : RxState) : Option RxEnd → Type 0 where
  quiet :
      {r : Option RxEnd}
      → r ≡ none
      → a.inner_stop ≡ true
      → Transfers packet 0 s.dma_rx s'.dma_rx
      → Rounded a s s' r
  tested :
      {r : Option RxEnd}
      → r ≡ none
      → a.inner_stop ≡ false
      → Shows a
      → Transfers packet 1 s.dma_rx s'.dma_rx
      → Rounded a s s' r
  ended :
      {r : Option RxEnd}
      → r ≡ some force_exit
      → a.inner_stop ≡ false
      → (Shows a → ⊥)
      → Transfers packet 1 s.dma_rx s'.dma_rx
      → Rounded a s s' r

pub rx_round-Rounded :
    (a : RxAnswers) (s : RxState)
    → RingIsValid s.dma_rx
    → RingIsValid s.dma_tx
    → RxWilling a
    → (s' : RxState) × (r : Option RxEnd) × (rx_round a s ≡ some (s', r))
      × RingIsValid s'.dma_tx
      × Rounded a s s' r
unfolding rx_round io_sync_stream_device
rx_round-Rounded a s vr vt w = elim (Bool-cases a.inner_stop) [
  | inl y ↦
      let (l, e, moved, back) =
        finish_stream-Transfers packet 0 a.sync s.dma_rx s.dma_rx (no-Transfers packet s.dma_rx vr)
          w.sync in
      (record s { dma_rx = l }, none, rw (y, e) refl, vt, quiet refl y moved)
  | inr m ↦
      let (s1, r, e1, vt1, moved, checked) = rx_inner-Checked a s vr vt w in
      elim checked [
        | goes_on q shows ↦
            let (l, e2, moved2, back) =
              finish_stream-Transfers packet 1 a.sync s.dma_rx s1.dma_rx moved w.sync in
            (
              record s1 { dma_rx = l },
              none,
              rw (e1, q, m, e2) refl,
              vt1,
              tested refl m shows moved2,
            )
        | gives_up q wrong_words ↦
            (s1, some force_exit, rw (e1, q, m) refl, vt1, ended refl m wrong_words moved)
      ]
]

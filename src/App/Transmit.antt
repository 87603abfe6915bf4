-- ===== src/App/Transmit.antt =====
-- What `tx_thread` hands to the engine, userspace/test_app/src/txrx_test_thread.c.
use streamio.Common.{
  ℕ, zero, suc, ◌+◌, ◌*◌, ◌/◌, ◌%◌, ◌^◌, ◌<◌, ◌≤◌, ◌≡◌, refl, sym, ap, ◌∙◌, Bool, some, List, [],
  ◌∷◌, ◌++◌, append_assoc, append-nil, length, length-append, take, take-append, drop, to_le,
  length-to_le, arith, if◌then◌else◌, inl, inr, Bool-cases,
}
use streamio.Dma.{buffer_size}
use streamio.Local.{LocalBuffer, Answers}
use streamio.Local.Ring.{RingIsValid}
use streamio.Remote.Deliver.Calls.{Willing, get_buffer-Given, put, put_at, put_bytes-put}
use streamio.App.Transfers.{Transfers, write_stream-Transfers, no-Transfers, more-Transfers}
use streamio.App.{
  BufferHeader, fill_words, tx_header, header_bytes, word_bytes, tx_packet, buffer_in_bytes,
  Transmitter, send_packet, tx_round, tx_loop, tx_thread,
}

pub length-word_bytes : (ws : List ℕ) → length (word_bytes ws) ≡ 4 * length ws
length-word_bytes [] = refl
length-word_bytes (w ∷ ws) =
    omega (arith, length-append (to_le 4 w) (word_bytes ws), length-to_le 4 w, length-word_bytes ws)

length-fill_words : (n i j p : ℕ) → length (fill_words n i j p) ≡ n
unfolding fill_words
length-fill_words zero i j p = refl
length-fill_words (suc n) i j p = ap suc (length-fill_words n (i + 1) j p)

-- The bytes of a packet: those of its words, and twelve.
abbrev pub packet_bytes : ℕ → ℕ
packet_bytes packet_size = packet_size * 4 + 12

pub length-header_bytes : (h : BufferHeader) → length (header_bytes h) ≡ 12
length-header_bytes h = omega (
  arith,
  length-append (to_le 4 h.decode_time_stamp) (to_le 4 h.tx_time_stamp ++ to_le 4 h.packet_length),
  length-append (to_le 4 h.tx_time_stamp) (to_le 4 h.packet_length),
  length-to_le 4 h.decode_time_stamp,
  length-to_le 4 h.tx_time_stamp,
  length-to_le 4 h.packet_length,
)

length-tx_packet : (p j : ℕ) → length (tx_packet p j) ≡ packet_bytes p
length-tx_packet p j =
    let h = tx_header j p in
    let ws = fill_words p 0 j p in
    omega (
      arith,
      length-append (header_bytes h) (word_bytes ws),
      length-header_bytes h,
      length-word_bytes ws,
      length-fill_words p 0 j p,
    )

-- The packets of `n` rounds from round `j` on.
abbrev pub packets : (ℕ → List ℕ) → ℕ → ℕ → List (List ℕ)
packets packet zero j = []
packets packet (suc n) j = packet j ∷ packets packet n (j + 1)

-- How many of `n` rounds from round `j` on are done before `stop_tx` is found set.
abbrev pub rounds_until : (ℕ → Bool) → ℕ → ℕ → ℕ
rounds_until stop zero j = 0
rounds_until stop (suc n) j =
    let rest = rounds_until stop n (j + 1) in if stop j then 0 else suc rest

-- What `n` rounds from round `j` on make of the transmitter, which send packets of `size` bytes.
pub record Sends (size : ℕ) (packet : ℕ → List ℕ) (n j : ℕ) (t t' : Transmitter) : Type 0 where
  pub transfers : Transfers size n t.device t'.device
  pub given : t'.handed ≡ t.handed ++ packets packet n j

module _ (size : ℕ) (packet : ℕ → List ℕ) where
  pub send_packet-Sends :
      (a : Answers) (j : ℕ) (t : Transmitter)
      → RingIsValid t.device
      → Willing a
      → length (packet j) ≡ size
      → size ≤ buffer_size
      → (t' : Transmitter) × (send_packet a (packet j) size t ≡ some t')
        × Sends size packet 1 j t t'
  unfolding send_packet
  send_packet-Sends a j t v w len fit =
      let i = t.device.current_buffer_id in
      let bytes = packet j in
      let (l, e1, g) = get_buffer-Given a t.device v w in
      let (e2, v2, here) =
        put_bytes-put i 0 bytes g.buffer l g.valid v.current g.found (omega (arith, len)) in
      let c = put_at i 0 bytes g.buffer l.channel in
      let (l', e3, sent) =
        write_stream-Transfers size a t.device l c v w g v2 refl refl (omega arith) in
      let memory : take size (put 0 bytes g.buffer).buffer ≡ bytes =
        ap (λ n. take n (put 0 bytes g.buffer).buffer) (sym len)
        ∙ take-append bytes (drop (0 + length bytes) g.buffer.buffer) in
      (
        record { device = l'; handed = t.handed ++ (bytes ∷ []) },
        rw (e1, e2, here, e3, memory) refl,
        record { transfers = sent; given = refl },
      )

  pub no_rounds : (j : ℕ) (t : Transmitter) → RingIsValid t.device → Sends size packet 0 j t t
  no_rounds j t v = record {
    transfers = no-Transfers size t.device v;
    given = sym (append-nil t.handed);
  }

  pub one_round :
      (n j : ℕ) (t t1 t2 : Transmitter)
      → Sends size packet 1 j t t1
      → Sends size packet n (j + 1) t1 t2
      → Sends size packet (suc n) j t t2
  one_round n j t t1 t2 s r = record {
    transfers = more-Transfers size n t.device t1.device t2.device s.transfers r.transfers;
    given =
        r.given
        ∙ ap (λ h. h ++ packets packet n (j + 1)) s.given
        ∙ append_assoc t.handed (packet j ∷ []) (packets packet n (j + 1));
  }

tx_round-Sends :
    (a : Answers) (p j : ℕ) (t : Transmitter)
    → RingIsValid t.device
    → Willing a
    → packet_bytes p ≤ buffer_size
    → (t' : Transmitter) × (tx_round a p j t ≡ some t')
      × Sends (packet_bytes p) (tx_packet p) 1 j t t'
unfolding tx_round
tx_round-Sends a p j t v w fit =
    let size : buffer_in_bytes (tx_header j p) % 2 ^ 32 ≡ packet_bytes p = omega arith in
    rw size (send_packet-Sends (packet_bytes p) (tx_packet p) a j t v w (length-tx_packet p j) fit)

tx_loop-Sends :
    (answers : ℕ → Answers) (stop : ℕ → Bool) (p n j : ℕ) (t : Transmitter)
    → RingIsValid t.device
    → ((k : ℕ) → Willing (answers k))
    → packet_bytes p ≤ buffer_size
    → (t' : Transmitter) × (tx_loop answers stop p n j t ≡ some t')
      × Sends (packet_bytes p) (tx_packet p) (rounds_until stop n j) j t t'
unfolding tx_loop
tx_loop-Sends answers stop p zero j t v w fit =
    (t, refl, no_rounds (packet_bytes p) (tx_packet p) j t v)
tx_loop-Sends answers stop p (suc n) j t v w fit = elim (Bool-cases (stop j)) [
  | inl y ↦ (t, rw y refl, rw y (no_rounds (packet_bytes p) (tx_packet p) j t v))
  | inr m ↦
      let (t1, e1, s1) = tx_round-Sends (answers j) p j t v (w j) fit in
      let (t2, e2, s2) = tx_loop-Sends answers stop p n (j + 1) t1 s1.transfers.valid w fit in
      (
        t2,
        rw (m, e1) e2,
        rw m (
            one_round (packet_bytes p) (tx_packet p) (rounds_until stop n (j + 1)) j t t1 t2 s1 s2),
      )
]

-- `tx_thread` over a valid ring whose engine takes each transfer and completes in time, with packets
-- of which each fits with its header into a buffer: it runs to its end. Behind what the engine had it
-- is given a transfer for every round, as many as fit into the total unless it is stopped before, in
-- the ring's order from the current buffer on, each of just the bytes of the round's packet.
pub tx_thread-Sends :
    (answers : ℕ → Answers) (stop : ℕ → Bool) (packet_size total_size : ℕ) (l : LocalBuffer)
    → 0 < packet_size
    → packet_bytes packet_size ≤ buffer_size
    → RingIsValid l
    → ((k : ℕ) → Willing (answers k))
    → (t : Transmitter) × (tx_thread answers stop packet_size total_size l ≡ some t)
      × Sends
          (packet_bytes packet_size)
          (tx_packet packet_size)
          (rounds_until stop (total_size / packet_size) 0)
          0
          (record { device = l; handed = [] })
          t
unfolding tx_thread
tx_thread-Sends answers stop p total l pos fit v w =
    tx_loop-Sends answers stop p (total / p) 0 (record { device = l; handed = [] }) v w fit

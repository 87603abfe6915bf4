-- ===== src/Remote/Chunks/Pieces.antt =====
-- A client that reads a packet by calls of its own sizes, lib/bbio/src/bbio_backend_net.c.
use streamio.Common.{
  ℕ, ◌+◌, ◌-◌, ◌^◌, ◌<◌, ◌≤◌, ◌≡◌, refl, sym, ap, ap₂, ◌∙◌, true, false, Option, some, List, [],
  ◌∷◌, ◌++◌, length, length-append, take, drop, to_le, arith, ltb, ◌==◌, if◌then◌else◌, ◌>>=◌, inl,
  inr, Bool-cases, take-append, drop-append, take-add, drop-add, length-drop,
}
use streamio.Remote.{Socket, arrives, read_stream_start, recv_word_front, command_front}
use streamio.Remote.Repack.{content}
use streamio.Remote.Download.{NetState, shake_hands, announced}
use streamio.Remote.Chunks.{
  Chunk, packet_remains, io_read_stream_net, io_sync_stream_device_net, Taken, receive_packet-Taken,
}

shake_hands-handshaked : (st : NetState) → ((shake_hands st).0).handshaked ≡ true
shake_hands-handshaked st = elim (Bool-cases st.handshaked) [
  | inl y ↦ rw y refl
  | inr n ↦ rw n refl
]

-- With all the bytes in the stream the loop takes all of them.
all_received :
    (n : ℕ) (c : Chunk) (s : Socket) (left : ℕ) (c' : Chunk) (s' : Socket)
    → Taken n c s left c' s'
    → n ≤ length (content s)
    → (left ≡ 0) × (c'.bytes ≡ c.bytes ++ take n (content s)) × (content s' ≡ drop n (content s))
all_received n c s left c' s' t h =
    let len : length (content s) ≡ length t.got + length (content s') =
      ap length t.next ∙ length-append t.got (content s') in
    let none_left : left ≡ 0 = elim t.ends [
      | inl e ↦ e
      | inr e ↦ omega (arith, len, t.counted, ap (λ s. length (content s)) e)
    ] in
    let size : length t.got ≡ n = omega (arith, t.counted) in
    (
      none_left,
      t.kept
          ∙ ap (◌++◌ c.bytes) (sym (take-append t.got (content s')) ∙ ap₂ take size (sym t.next)),
      sym (drop-append t.got (content s')) ∙ ap₂ drop size (sym t.next),
    )

-- A call for no more than remains of the packet gets just that.
piece :
    (size r : ℕ) (st : NetState) (s s1 : Socket)
    → packet_remains size ((shake_hands st).0).remain_recv_size s ≡ (r, s1)
    → size ≤ r
    → r < 2 ^ 32
    → size ≤ length (content s1)
    → (s' : Socket) × (io_read_stream_net size st s
        ≡ some (
          record {
            state = record ((shake_hands st).0) { remain_recv_size = r - size };
            sent = (shake_hands st).1;
            missing = 0;
            bytes = take size (content s1);
          },
          s',
        ))
      × (content s' ≡ drop size (content s1))
unfolding io_read_stream_net
piece size r st s s1 e h w l =
    let c : Chunk = record { remain = r; bytes = [] } in
    let (left, c', s', run, t) = receive_packet-Taken size size c s1 (omega arith) h w in
    let (none_left, kept, rest) = all_received size c s1 left c' s' t l in
    let asked : ltb r size ≡ false = ground arith in
    let remains : c'.remain ≡ r - size = omega (arith, t.remain, t.counted, none_left) in
    (s', rw (e, asked, run, none_left, kept, remains) refl, rest)

-- Calls of these sizes, one after the other: what they get.
pub read_pieces : List ℕ → NetState → Socket → Option (NetState × List ℕ × Socket)
read_pieces [] st s = some (st, [], s)
read_pieces (size ∷ sizes) st s = do
  (r, s1) ← io_read_stream_net size st s
  (st', bytes, s2) ← read_pieces sizes r.state s1
  some (st', r.bytes ++ bytes, s2)

abbrev pub sum : List ℕ → ℕ
sum [] = 0
sum (n ∷ ns) = n + sum ns

abbrev pub AllPositive : List ℕ → Type 0
AllPositive [] = Unit {0}
AllPositive (n ∷ ns) = (0 < n) × AllPositive ns

-- Within a packet: what the calls get together is the next bytes of the stream.
read_pieces-within :
    (sizes : List ℕ) (st : NetState) (s : Socket)
    → st.handshaked ≡ true
    → AllPositive sizes
    → sum sizes ≤ st.remain_recv_size
    → st.remain_recv_size < 2 ^ 32
    → sum sizes ≤ length (content s)
    → (s' : Socket) × (read_pieces sizes st s
        ≡ some (
          record st { remain_recv_size = st.remain_recv_size - sum sizes },
          take (sum sizes) (content s),
          s',
        ))
      × (content s' ≡ drop (sum sizes) (content s))
unfolding read_pieces
read_pieces-within [] st s h p r w l =
    let e : st.remain_recv_size - 0 ≡ st.remain_recv_size = omega arith in (s, rw e refl, refl)
read_pieces-within (size ∷ sizes) st s h p r w l =
    let shaken : shake_hands st ≡ (st, []) = rw h refl in
    let more : (st.remain_recv_size == 0) ≡ false = ground (arith, p.0) in
    let goes_on : packet_remains size ((shake_hands st).0).remain_recv_size s
        ≡ (st.remain_recv_size, s) =
      unfold packet_remains in rw (shaken, more) refl in
    let (s1, e1, d1) =
      piece size st.remain_recv_size st s s goes_on (omega arith) w (omega arith) in
    let st1 : NetState = record st { remain_recv_size = st.remain_recv_size - size } in
    let (s2, e2, d2) =
      read_pieces-within sizes st1 s1 h p.1 (omega arith) (omega arith)
        (omega (arith, ap length d1, length-drop size (content s))) in
    let left : st.remain_recv_size - size - sum sizes ≡ st.remain_recv_size - (size + sum sizes) =
      omega arith in
    (
      s2,
      rw (e1, shaken, e2, d1, left, take-add size (sum sizes) (content s)) refl,
      d2 ∙ ap (drop (sum sizes)) d1 ∙ sym (drop-add size (sum sizes) (content s)),
    )

-- What a packet of `n` bytes counts as when the first call of a client is for `size`.
abbrev pub counts_as : ℕ → ℕ → ℕ
counts_as size n = if ltb size n then n else size

packet_remains-announced :
    (size n : ℕ) (first : List ℕ) (s : Socket)
    → n < 2 ^ 32
    → packet_remains size 0 (announced n first s) ≡ (counts_as size n, arrives first s)
unfolding packet_remains
packet_remains-announced size n first s h =
    rw
      (
        command_front read_stream_start 255 (to_le 4 n ++ first) s (omega arith),
        recv_word_front 4 n 0 first s (omega arith) h,
      )
      refl

-- A client between two packets, or before its first, whose calls are for one byte at least each and
-- together for no more than the packet, which counts as what the first call is for if that is more.
-- The packet's header of five bytes comes in one segment; no device of this program reads by
-- `io_read_stream_net`. If that many bytes come, however they are cut: the calls get together just the next bytes of the
-- stream in their order, nothing is written past the memory of any call, and what remains of the
-- packet is counted. A sync then keeps the handshake exactly if nothing remains.
pub read_pieces-announced :
    (n size : ℕ) (sizes : List ℕ) (st : NetState) (first : List ℕ) (s : Socket)
    → n < 2 ^ 32
    → ((shake_hands st).0).remain_recv_size ≡ 0
    → AllPositive (size ∷ sizes)
    → sum (size ∷ sizes) ≤ counts_as size n
    → size < 2 ^ 32
    → sum (size ∷ sizes) ≤ length (first ++ content s)
    → (st' : NetState) × (s' : Socket) × (read_pieces (size ∷ sizes) st (announced n first s)
        ≡ some (st', take (sum (size ∷ sizes)) (first ++ content s), s'))
      × (content s' ≡ drop (sum (size ∷ sizes)) (first ++ content s))
      × (st'.remain_recv_size ≡ counts_as size n - sum (size ∷ sizes))
      × ((io_sync_stream_device_net st').handshaked ≡ (counts_as size n - sum (size ∷ sizes) == 0))
unfolding read_pieces io_sync_stream_device_net
read_pieces-announced n size sizes st first s h z p le w l =
    let r = counts_as size n in
    let whole = first ++ content s in
    let small : r < 2 ^ 32 = ground arith in
    let head : packet_remains size ((shake_hands st).0).remain_recv_size (announced n first s)
        ≡ (r, arrives first s) =
      rw z (packet_remains-announced size n first s h) in
    let shaken = shake_hands-handshaked st in
    let (s1, e1, d1) =
      piece size r st (announced n first s) (arrives first s) head (omega arith) small
        (omega arith) in
    let st1 : NetState = record ((shake_hands st).0) { remain_recv_size = r - size } in
    let (s2, e2, d2) =
      read_pieces-within sizes st1 s1 shaken p.1 (omega arith) (omega arith)
        (omega (arith, ap length d1, length-drop size whole)) in
    let left : r - size - sum sizes ≡ r - (size + sum sizes) = omega arith in
    (
      record st1 { remain_recv_size = r - size - sum sizes },
      s2,
      rw (e1, e2, d1, take-add size (sum sizes) whole) refl,
      d2 ∙ ap (drop (sum sizes)) d1 ∙ sym (drop-add size (sum sizes) whole),
      left,
      elim (Bool-cases (r - size - sum sizes == 0)) [
        | inl y ↦ ground (arith, shaken, left)
        | inr m ↦ ground (arith, left)
      ],
    )

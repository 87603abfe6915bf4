-- ===== src/Remote/Chunks.antt =====
-- Reading a packet in pieces: `io_read_stream_net` and `io_sync_stream_deivce_net` of
-- lib/bbio/src/bbio_backend_net.c. `none` is a write past the end of the caller's memory.
pub mod Pieces
use streamio.Common.{
  ℕ, zero, suc, ◌+◌, ◌-◌, ◌%◌, ◌^◌, ◌<◌, ◌≤◌, ◌≡◌, ◌⊎◌, refl, sym, ap, ap₂, ◌∙◌, ◌≢◌, Bool, true,
  false, Option, none, some, List, [], ◌∷◌, ◌++◌, append_assoc, append-nil, length, length-append,
  take, drop, to_le, arith, ltb, ◌==◌, if◌then◌else◌, ◌>>=◌, inl, inr, Bool-cases, length-take,
  length-drop, nil_of_length, take-append-drop, ==→eq, ==→ne,
}
use streamio.Remote.{
  Socket, closed, arrives, recv_word, call_read_stream, read_stream_start, recv_word_front,
  command_front,
}
use streamio.Remote.Upload.{receive_packet}
use streamio.Remote.Repack.{content}
use streamio.Remote.Download.{NetState, shake_hands, announced}

-- `state->remain_recv_size` and the bytes at `data`.
pub record Chunk : Type 0 where
  pub remain : ℕ
  pub bytes : List ℕ

-- What follows a receive in the loop, with `room` bytes at `data`.
pub take_in : ℕ → List ℕ → Chunk → Option Chunk
take_in room bytes c =
    if ltb room (length c.bytes + length bytes)
    then none
    else some
        (record { remain = (c.remain + 2 ^ 32 - length bytes) % 2 ^ 32; bytes = c.bytes ++ bytes })

-- if (state->remain_recv_size == 0): the header of a packet. What remains is never less than `size`.
pub packet_remains : ℕ → ℕ → Socket → ℕ × Socket
packet_remains size remain s =
    let (n, start, s1) = recv_word 1 255 s in
    let (m, recv_size, s2) = recv_word 4 0 s1 in
    let most = if ltb size recv_size then recv_size else size in
    let next : ℕ × Socket = if start == read_stream_start then (most, s2) else (remain, s1) in
    if remain == 0 then next else (remain, s)

-- The state, the bytes sent, the result and what the caller's memory takes: `size` bytes are there.
pub record Read : Type 0 where
  pub state : NetState
  pub sent : List ℕ
  pub missing : ℕ
  pub bytes : List ℕ

pub io_read_stream_net : ℕ → NetState → Socket → Option (Read × Socket)
io_read_stream_net size st s = do
  let (st1, out) = shake_hands st
  let (remain, s1) = packet_remains size st1.remain_recv_size s
  let wanted = if ltb remain size then remain else size
  (left, c, s2) ← receive_packet (take_in size) wanted (record { remain = remain; bytes = [] }) s1
  some (
    record {
      state = record st1 { remain_recv_size = c.remain };
      sent = out;
      missing = left;
      bytes = c.bytes;
    },
    s2,
  )

-- A packet that is not read to its end is given up with the connection's handshake.
pub io_sync_stream_device_net : NetState → NetState
io_sync_stream_device_net st =
    if st.remain_recv_size == 0 then st else record st { handshaked = false }

-- What the loop takes: the next bytes, of which some are missing only at the end of the stream.
pub record Taken (n : ℕ) (c : Chunk) (s : Socket) (left : ℕ) (c' : Chunk) (s' : Socket)
    : Type 0 where
  pub got : List ℕ
  pub counted : length got + left ≡ n
  pub next : content s ≡ got ++ content s'
  pub kept : c'.bytes ≡ c.bytes ++ got
  pub remain : c'.remain + length got ≡ c.remain
  pub ends : (left ≡ 0) ⊎ (s' ≡ closed)

take_in_lem :
    (room : ℕ) (bytes : List ℕ) (c : Chunk)
    → length c.bytes + length bytes ≤ room
    → length bytes ≤ c.remain
    → c.remain < 2 ^ 32
    → take_in room bytes c
      ≡ some (record { remain = c.remain - length bytes; bytes = c.bytes ++ bytes })
unfolding take_in
take_in_lem room bytes c h r w =
    let wrap : (c.remain + 2 ^ 32 - length bytes) % 2 ^ 32 ≡ c.remain - length bytes =
      omega arith in
    ground (arith, wrap)

nothing-Taken : (n : ℕ) (c : Chunk) (s : Socket) → (n ≡ 0) ⊎ (s ≡ closed) → Taken n c s n c s
nothing-Taken n c s ends = record {
  got = [];
  counted = omega arith;
  next = refl;
  kept = sym (append-nil c.bytes);
  remain = omega arith;
  ends = ends;
}

pub receive_packet-Taken :
    (room n : ℕ) (c : Chunk) (s : Socket)
    → length c.bytes + n ≤ room
    → n ≤ c.remain
    → c.remain < 2 ^ 32
    → (left : ℕ) × (c' : Chunk) × (s' : Socket) × (receive_packet (take_in room) n c s
        ≡ some (left, c', s'))
      × Taken n c s left c' s'
unfolding receive_packet
receive_packet-Taken room zero c s h r w = (0, c, s, refl, nothing-Taken 0 c s (inl refl))
receive_packet-Taken room (suc n) c closed h r w =
    (suc n, c, closed, refl, nothing-Taken (suc n) c closed (inr refl))
receive_packet-Taken room (suc n) c (arrives [] s) h r w =
    let (left, c', s', run, t) = receive_packet-Taken room (suc n) c s h r w in
    (
      left,
      c',
      s',
      run,
      record {
        got = t.got;
        counted = t.counted;
        next = t.next;
        kept = t.kept;
        remain = t.remain;
        ends = t.ends;
      },
    )
receive_packet-Taken room (suc n) c (arrives (b ∷ bs) s) h r w =
    let got = take (suc n) (b ∷ bs) in
    let after = drop (suc n) (b ∷ bs) in
    let len = length-take (suc n) (b ∷ bs) in
    let c1 : Chunk = record { remain = c.remain - length got; bytes = c.bytes ++ got } in
    let e1 : take_in room got c ≡ some c1 =
      take_in_lem room got c (omega (arith, len)) (omega (arith, len)) w in
    elim (Bool-cases (suc n - length got == 0)) [
      | inl y ↦ (
        0,
        c1,
        arrives after s,
        rw (e1, y) refl,
        record {
          got = got;
          counted = omega (arith, len, ==→eq (suc n - length got) 0 y);
          next =
              ap (λ t. t ++ content s) (sym (take-append-drop (suc n) (b ∷ bs)))
              ∙ append_assoc got after (content s);
          kept = refl;
          remain = omega (arith, len);
          ends = inl refl;
        },
      )
      | inr m ↦
          let (left, c', s', run, t) =
            receive_packet-Taken room (suc n - length got) c1 s
              (omega (arith, len, length-append c.bytes got)) (omega (arith, len)) (omega arith) in
          let gone : after ≡ [] =
            nil_of_length after
              (omega (arith, len, length-drop (suc n) (b ∷ bs), ==→ne (suc n - length got) 0 m)) in
          let all : got ≡ b ∷ bs =
            sym (append-nil got) ∙ ap (◌++◌ got) (sym gone) ∙ take-append-drop (suc n) (b ∷ bs) in
          (
            left,
            c',
            s',
            rw (e1, m) run,
            record {
              got = got ++ t.got;
              counted = omega (arith, t.counted, length-append got t.got, len);
              next = ap₂ ◌++◌ (sym all) t.next ∙ sym (append_assoc got t.got (content s'));
              kept = t.kept ∙ append_assoc c.bytes got t.got;
              remain = omega (arith, t.remain, length-append got t.got, len);
              ends = t.ends;
            },
          )
    ]

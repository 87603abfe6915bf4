-- ===== src/Remote/Blocks.antt =====
-- client_cmd_write_stream of userspace/io_backend/src/io_backend_call.c, which nothing calls. It is
-- faulted by a write past a buffer or the use of the `NULL` that stands for no buffer.
use streamio.Common.{
  ℕ, zero, suc, true, false, lt→ltb, le→ltb, ◌+◌, ◌*◌, ◌%◌, ◌^◌, ◌<◌, ◌≤◌, ◌≡◌, refl, ap, ◌∙◌, none,
  some, List, [], ◌∷◌, length, take, drop, ap₂, to_le, get_elem?, ltb, ◌==◌, if◌then◌else◌, arith,
}
use streamio.Dma.{ChannelBuffer, Channel, buffer_count, buffer_size, sizeof_channel_buffer}
use streamio.Local.{LocalBuffer, Answers, io_write_stream_local}
use streamio.Remote.{Socket, arrives, recv, recv_word}
use streamio.Local.Ring.{RingIsValid}
use streamio.Remote.Deliver.{put_bytes, get_buffer}
use streamio.Remote.Deliver.Calls.{put, put_at, put_bytes-put}

-- A loop that takes fuel: what it gives, a fault, or a round that is still to come.
pub data Loop (A : Type 0) : Type 0 where
  ended : A → Loop A
  faulted out_of_fuel : Loop A

-- while (recv_size < stream_size) of `client_cmd_write_stream`: every receive is stored at the buffer's
-- start. What was received in all, the device and the socket.
pub receive_stream : ℕ → ℕ → ℕ → ℕ → LocalBuffer → Socket → Loop (ℕ × LocalBuffer × Socket)
receive_stream zero id stream_size recv_size l s = out_of_fuel
receive_stream (suc fuel) id stream_size recv_size l s =
    let (bs, s') = recv stream_size s in
    let next : Loop (ℕ × LocalBuffer × Socket) = elim (put_bytes id 0 bs l.channel) [
      | none ↦ faulted
      | some c ↦
          receive_stream fuel id stream_size ((recv_size + length bs) % 2 ^ 32)
            (record l { channel = c }) s'
    ] in
    if ltb recv_size stream_size
    then (if length bs == 0 then ended (recv_size, l, s') else next)
    else ended (recv_size, l, s)

-- The size holds its first value where the network cuts it. The device, the socket, and the reply.
pub client_cmd_write_stream :
    ℕ → Answers → LocalBuffer → Socket → Loop (LocalBuffer × Socket × List ℕ)
client_cmd_write_stream fuel a l s = elim (get_buffer a l) [
  | none ↦ faulted
  | some (l1, id) ↦
      let (n, stream_size, s1) = recv_word 4 (32768 * 4) s in
      elim (receive_stream fuel id stream_size 0 l1 s1) [
        | faulted ↦ faulted
        | out_of_fuel ↦ out_of_fuel
        | ended (recv_size, l2, s2) ↦
            elim (io_write_stream_local a (sizeof_channel_buffer * id) stream_size l2) [
              | none ↦ faulted
              | some (l3, k) ↦ ended (l3, s2, to_le 4 recv_size)
            ]
      ]
]

take_all : (n : ℕ) (xs : List ℕ) → length xs ≤ n → take n xs ≡ xs
take_all zero [] le = refl
take_all zero (x ∷ xs) le = absurd (omega (arith, le))
take_all (suc n) [] le = refl
take_all (suc n) (x ∷ xs) le = ap (◌∷◌ x) (take_all n xs (omega (arith, le)))

drop_all : (n : ℕ) (xs : List ℕ) → length xs ≤ n → drop n xs ≡ []
drop_all zero [] le = refl
drop_all zero (x ∷ xs) le = absurd (omega (arith, le))
drop_all (suc n) [] le = refl
drop_all (suc n) (x ∷ xs) le = drop_all n xs (omega (arith, le))

-- A segment of at most the bytes that are asked for is received whole.
recv_whole :
    (n : ℕ) (xs : List ℕ) (s : Socket)
    → 0 < length xs
    → length xs ≤ n
    → recv n (arrives xs s) ≡ (xs, arrives [] s)
unfolding recv
recv_whole n [] s pos le = absurd (omega (arith, pos))
recv_whole n (x ∷ xs) s pos le =
    ap₂ (λ a b. (a, arrives b s)) (take_all n (x ∷ xs) le) (drop_all n (x ∷ xs) le)

receive_stream_step :
    (fuel id size r : ℕ) (bs : List ℕ) (l : LocalBuffer) (c : Channel) (s s' : Socket)
    → recv size s ≡ (bs, s')
    → r < size
    → 0 < length bs
    → r + length bs < 2 ^ 32
    → put_bytes id 0 bs l.channel ≡ some c
    → receive_stream (suc fuel) id size r l s
      ≡ receive_stream fuel id size (r + length bs) (record l { channel = c }) s'
unfolding receive_stream
receive_stream_step fuel id size r bs l c s s' got more some_bytes small stored =
    let sum : (r + length bs) % 2 ^ 32 ≡ r + length bs = omega arith in
    let going : ltb r size ≡ true = lt→ltb r size more in
    let not_end : (length bs == 0) ≡ false = ground arith in
    rw (going, got, not_end, stored) (rw (got, sum) refl)

-- A stream that comes in two segments: all of it counts as received, and the second segment is stored
-- over the first.
receive_stream_twice :
    (fuel id : ℕ) (xs ys : List ℕ) (l : LocalBuffer) (b : ChannelBuffer) (s : Socket)
    → RingIsValid l
    → id < buffer_count
    → get_elem? l.channel.buffer_table id ≡ some b
    → 0 < length xs
    → 0 < length ys
    → length xs + length ys ≤ buffer_size
    → receive_stream
        (suc (suc (suc fuel)))
        id
        (length xs + length ys)
        0
        l
        (arrives xs (arrives ys s))
      ≡ ended (
        length xs + length ys,
        record l { channel = put_at id 0 ys (put 0 xs b) (put_at id 0 xs b l.channel) },
        arrives [] s,
      )
unfolding receive_stream recv
receive_stream_twice fuel id xs ys l b s v lt e px py room =
    let size = length xs + length ys in
    let (e1, v1, f1) = put_bytes-put id 0 xs b l v lt e (omega arith) in
    let c1 = put_at id 0 xs b l.channel in
    let l1 : LocalBuffer = record l { channel = c1 } in
    let (e2, v2, f2) = put_bytes-put id 0 ys (put 0 xs b) l1 v1 lt f1 (omega arith) in
    let c2 = put_at id 0 ys (put 0 xs b) c1 in
    let l2 : LocalBuffer = record l { channel = c2 } in
    let first =
      receive_stream_step (suc (suc fuel)) id size 0 xs l c1 (arrives xs (arrives ys s))
        (arrives [] (arrives ys s)) (recv_whole size xs (arrives ys s) px (omega arith))
        (omega arith) px (omega arith) e1 in
    let second =
      receive_stream_step (suc fuel) id size (0 + length xs) ys l1 c2 (arrives [] (arrives ys s))
        (arrives [] s) (recv_whole size ys s py (omega arith)) (omega arith) py (omega arith) e2 in
    let done : ltb size size ≡ false = le→ltb size size (omega arith) in
    let sum : 0 + length xs + length ys ≡ size = omega arith in first ∙ second ∙ rw (sum, done) refl

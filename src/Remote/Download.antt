-- ===== src/Remote/Download.antt =====
-- A read stream: `client_cmd_read_stream_inf` of the server against `io_read_stream_net_basic` and
-- `io_read_stream_net` of the client.
pub mod Whole
use mathlib.Core.Path.{subst}
use streamio.Common.{
  ℕ, zero, suc, ◌+◌, ◌-◌, ◌^◌, ◌<◌, ◌≤◌, ◌≡◌, refl, sym, ap, ◌∙◌, ◌≢◌, Bool, true, List, [], ◌∷◌,
  ◌++◌, append_assoc, append-nil, length, length-append, take, drop, to_le, arith, ltb, ◌==◌,
  if◌then◌else◌, length-take, take-append-drop, take-append_le, drop-append_le, take-append,
  drop-append,
}
use streamio.Remote.{
  Socket, closed, arrives, recv, recv_word, call_read_stream, read_stream_start, recv_word_front,
  command_front,
}
use streamio.Remote.Repack.{content}

-- `send_size`: 1024 * 2 * sizeof(iq_buffer)
abbrev pub send_size : ℕ
send_size = 8192

-- One `writev` of the server: the start byte, the size, and that much of the DMA buffer.
pub read_stream_frame : List ℕ → List ℕ
read_stream_frame buffer = read_stream_start ∷ (to_le 4 send_size ++ take send_size buffer)

-- The server's loop: a buffer of the device and whether the write went through, for each round.
unfoldable pub client_cmd_read_stream_inf : List (List ℕ × Bool) → List (List ℕ)
client_cmd_read_stream_inf [] = []
client_cmd_read_stream_inf ((buffer, written) ∷ rounds) =
    let rest = read_stream_frame buffer ∷ client_cmd_read_stream_inf rounds in
    if written then rest else []

-- How a call that stores into the caller's memory may end.
pub data Outcome {ℓ} (A : Type ℓ) : Type ℓ where
  finished : A → Outcome A
  overrun out_of_fuel : Outcome A

-- while (remain_size > 0) of `io_read_stream_net_basic`, with `room` bytes at `data`. A receive of no
-- bytes, at the end of the stream, changes nothing, and the loop goes on.
receive_all : ℕ → ℕ → ℕ → List ℕ → Socket → Outcome (List ℕ × Socket)
receive_all zero room remain got s = out_of_fuel
receive_all (suc fuel) room remain got s =
    let (bs, s') = recv remain s in
    let more = receive_all fuel (room - length bs) (remain - length bs) (got ++ bs) s' in
    let next = if ltb room (length bs) then overrun else more in
    if remain == 0 then finished (got, s) else next

-- `struct net_device_state`
pub record NetState : Type 0 where
  pub handshaked : Bool
  pub remain_recv_size : ℕ

abbrev pub shake_hands : NetState → NetState × List ℕ
shake_hands st =
    if st.handshaked
    then (st, [])
    else (record { handshaked = true; remain_recv_size = 0 }, call_read_stream ∷ [])

-- an `int` of the bits of `n`, where it is positive
abbrev positive_part : ℕ → ℕ
positive_part n = if ltb n (2 ^ 31) then n else 0

-- The header of a packet: its size, 0 if the start byte is another one.
packet_size : Socket → ℕ × Socket
packet_size s =
    let (n, start, s1) = recv_word 1 255 s in
    let (m, size, s2) = recv_word 4 0 s1 in
    if start == read_stream_start then (size, s2) else (0, s1)

-- The state, the bytes sent, and what the caller's memory takes. `room` is the room at `data`; the
-- argument `size` is not used by the code.
pub io_read_stream_net_basic :
    ℕ → ℕ → NetState → Socket → NetState × List ℕ × Outcome (List ℕ × Socket)
unfolding receive_all packet_size
io_read_stream_net_basic fuel room st s =
    let (st', out) = shake_hands st in
    let (size, s') = packet_size s in (st', out, receive_all fuel room (positive_part size) [] s')

-- The end of the stream aside, a receive gives some bytes, in order and no more than asked for.
pub record Receives (n : ℕ) (s : Socket) (bs : List ℕ) (s' : Socket) : Type 0 where
  pub taken : content s ≡ bs ++ content s'
  pub bounded : length bs ≤ n
  pub progress : 0 < n → content s ≢ [] → 0 < length bs

pub recv-Receives : (n : ℕ) (s : Socket) → Receives n s (recv n s).0 (recv n s).1
unfolding recv
recv-Receives n closed = record {
  taken = refl;
  bounded = omega arith;
  progress = λ p q. absurd (q refl);
}
recv-Receives n (arrives [] s) =
    let r = recv-Receives n s in
    record { taken = r.taken; bounded = r.bounded; progress = r.progress }
recv-Receives n (arrives (b ∷ bs) s) = record {
  taken =
      ap (λ t. t ++ content s) (sym (take-append-drop n (b ∷ bs)))
      ∙ append_assoc (take n (b ∷ bs)) (drop n (b ∷ bs)) (content s);
  bounded = omega (arith, length-take n (b ∷ bs));
  progress = λ p q. omega (arith, length-take n (b ∷ bs));
}

-- With the bytes of the packet in the stream, however they are cut, and room for them, the loop ends
-- within as many rounds and one more, and has stored exactly the packet.
receive_all-finished :
    (fuel room remain : ℕ) (got : List ℕ) (s : Socket)
    → remain < fuel
    → remain ≤ room
    → remain ≤ length (content s)
    → (s' : Socket) × (receive_all fuel room remain got s
        ≡ finished (got ++ take remain (content s), s'))
      × (content s' ≡ drop remain (content s))
unfolding receive_all
receive_all-finished zero room remain got s f r l = absurd (omega arith)
receive_all-finished (suc fuel) room zero got s f r l =
    (s, ap finished (ap (λ t. (t, s)) (sym (append-nil got))), refl)
receive_all-finished (suc fuel) room (suc n) got s f r l =
    let remain = suc n in
    let bs = (recv remain s).0 in
    let s1 = (recv remain s).1 in
    let v = recv-Receives remain s in
    let some_left : content s ≢ [] = λ e. omega (arith, ap length e) in
    let step = v.progress (omega arith) some_left in
    let len : length (content s) ≡ length bs + length (content s1) =
      ap length v.taken ∙ length-append bs (content s1) in
    let (s', run, rest) =
      receive_all-finished fuel (room - length bs) (remain - length bs) (got ++ bs) s1
        (omega (arith, step)) (omega arith) (omega (arith, len)) in
    let takes : (got ++ bs) ++ take (remain - length bs) (content s1)
        ≡ got ++ take remain (content s) =
      append_assoc got bs (take (remain - length bs) (content s1))
      ∙ ap (◌++◌ got) (
          sym (take-append_le remain bs (content s1) v.bounded) ∙ ap (take remain) (sym v.taken)) in
    (
      s',
      ground (arith, run, takes, v.bounded),
      rest ∙ sym (drop-append_le remain bs (content s1) v.bounded) ∙ ap (drop remain) (sym v.taken),
    )

-- With fewer bytes in the stream than the packet says, the loop never ends: at the end of the stream
-- `recv` returns 0 again and again, and the test asks only for what remains.
receive_all-out_of_fuel :
    (fuel room remain : ℕ) (got : List ℕ) (s : Socket)
    → remain ≤ room
    → length (content s) < remain
    → receive_all fuel room remain got s ≡ out_of_fuel
unfolding receive_all
receive_all-out_of_fuel zero room remain got s r l = refl
receive_all-out_of_fuel (suc fuel) room remain got s r l =
    let bs = (recv remain s).0 in
    let s1 = (recv remain s).1 in
    let v = recv-Receives remain s in
    let len : length (content s) ≡ length bs + length (content s1) =
      ap length v.taken ∙ length-append bs (content s1) in
    let rest =
      receive_all-out_of_fuel fuel (room - length bs) (remain - length bs) (got ++ bs) s1
        (omega arith) (omega (arith, len)) in
    ground (arith, rest, v.bounded)

-- A packet that a server announces with `size` bytes, whose first bytes come with the header.
abbrev pub announced : ℕ → List ℕ → Socket → Socket
announced size first s = arrives (read_stream_start ∷ (to_le 4 size ++ first)) s

packet_size-announced :
    (size : ℕ) (first : List ℕ) (s : Socket)
    → size < 2 ^ 31
    → packet_size (announced size first s) ≡ (size, arrives first s)
unfolding packet_size
packet_size-announced size first s h =
    rw
      (
        command_front read_stream_start 255 (to_le 4 size ++ first) s (omega arith),
        recv_word_front 4 size 0 first s (omega arith) (omega arith),
      )
      refl

-- A packet whose header of five bytes comes in one segment; however the network cuts the rest, a client with room for the packet reads exactly it, sends
-- one byte to shake hands if it has not, and leaves the rest of the stream for the next call. As
-- many rounds as the packet has bytes, and one more, are enough.
pub io_read_stream_net_basic-finished :
    (size fuel room : ℕ) (st : NetState) (first : List ℕ) (s : Socket)
    → size < 2 ^ 31
    → size < fuel
    → size ≤ room
    → size ≤ length (first ++ content s)
    → (s' : Socket) × (io_read_stream_net_basic fuel room st (announced size first s)
        ≡ ((shake_hands st).0, (shake_hands st).1, finished (take size (first ++ content s), s')))
      × (content s' ≡ drop size (first ++ content s))
unfolding io_read_stream_net_basic
io_read_stream_net_basic-finished size fuel room st first s h f r l =
    let (s', run, rest) = receive_all-finished fuel room size [] (arrives first s) f r l in
    let whole : positive_part size ≡ size = ground arith in
    (s', rw (packet_size-announced size first s h, whole, run) refl, rest)

-- If the connection ends within a packet whose header of five bytes came in one segment, the call does not return, however long it runs.
pub io_read_stream_net_basic-out_of_fuel :
    (size fuel room : ℕ) (st : NetState) (first : List ℕ) (s : Socket)
    → size < 2 ^ 31
    → size ≤ room
    → length (first ++ content s) < size
    → io_read_stream_net_basic fuel room st (announced size first s)
      ≡ ((shake_hands st).0, (shake_hands st).1, out_of_fuel)
unfolding io_read_stream_net_basic
io_read_stream_net_basic-out_of_fuel size fuel room st first s h r l =
    let run = receive_all-out_of_fuel fuel room size [] (arrives first s) r l in
    let whole : positive_part size ≡ size = ground arith in
    rw (packet_size-announced size first s h, whole, run) refl

-- A frame of the server's loop is such a packet: the client gets the first 8192 bytes of the buffer
-- that the server had, and the stream behind the frame is left for the next call.
io_read_stream_net_basic-frame :
    (buffer : List ℕ) (fuel room : ℕ) (st : NetState) (s : Socket)
    → send_size < fuel
    → send_size ≤ room
    → send_size ≤ length buffer
    → (s' : Socket) × (io_read_stream_net_basic fuel room st (arrives (read_stream_frame buffer) s)
        ≡ ((shake_hands st).0, (shake_hands st).1, finished (take send_size buffer, s')))
      × (content s' ≡ content s)
unfolding read_stream_frame
io_read_stream_net_basic-frame buffer fuel room st s f r l =
    let first = take send_size buffer in
    let len : length first ≡ send_size = omega (arith, length-take send_size buffer) in
    let (s', run, rest) =
      io_read_stream_net_basic-finished send_size fuel room st first s (omega arith) f r
        (omega (arith, len, length-append first (content s))) in
    let taken : take send_size (first ++ content s) ≡ first =
      subst (λ n. take n (first ++ content s) ≡ first) len (take-append first (content s)) in
    let left : drop send_size (first ++ content s) ≡ content s =
      subst (λ n. drop n (first ++ content s) ≡ content s) len (drop-append first (content s)) in
    (
      s',
      run ∙ ap (λ t. ((shake_hands st).0, (shake_hands st).1, finished (t, s'))) taken,
      rest ∙ left,
    )

-- ===== src/Remote/Download/Whole.antt =====
-- A client that reads frame after frame: lib/bbio/src/bbio_backend_net.c against the loop of
-- `client_cmd_read_stream_inf`, userspace/io_backend/src/io_backend_call.c.
use streamio.Common.{
  ℕ, zero, suc, ◌-◌, ◌<◌, ◌≤◌, ◌≡◌, refl, sym, ap, ◌∙◌, Bool, true, false, List, [], ◌∷◌, ◌++◌,
  to_le, map, length, take, append-nil, arith, ltb, ◌==◌, if◌then◌else◌, length-take, inl, inr,
  Bool-cases,
}
use streamio.Remote.{read_stream_start, Socket, closed, arrives, recv, recv_word, recv_front}
use streamio.Remote.Download.{
  send_size, read_stream_frame, client_cmd_read_stream_inf, Outcome, finished, overrun, out_of_fuel,
  receive_all, NetState, shake_hands, packet_size, io_read_stream_net_basic, packet_size-announced,
}

-- What a call gave, then what the calls behind it give, up to one that does not end well.
abbrev then_read :
    (NetState → Socket → Outcome (List (List ℕ) × Socket))
    → NetState × List ℕ × Outcome (List ℕ × Socket)
    → Outcome (List (List ℕ) × Socket)
then_read next (st, out, overrun) = overrun
then_read next (st, out, out_of_fuel) = out_of_fuel
then_read next (st, out, finished (bytes, s)) = elim (next st s) [
  | finished (more, s') ↦ finished (bytes ∷ more, s')
  | overrun ↦ overrun
  | out_of_fuel ↦ out_of_fuel
]

-- Calls of a client, one after the other: what they get.
pub read_packets : ℕ → ℕ → ℕ → NetState → Socket → Outcome (List (List ℕ) × Socket)
read_packets fuel room zero st s = finished ([], s)
read_packets fuel room (suc n) st s =
    then_read (read_packets fuel room n) (io_read_stream_net_basic fuel room st s)

-- Each of these in a segment of its own, then the end.
abbrev pub segments : List (List ℕ) → Socket
segments [] = closed
segments (f ∷ fs) = arrives f (segments fs)

-- The buffers whose `writev` goes through.
abbrev pub written_buffers : List (List ℕ × Bool) → List (List ℕ)
written_buffers [] = []
written_buffers ((buffer, written) ∷ rounds) =
    let rest = buffer ∷ written_buffers rounds in if written then rest else []

abbrev pub AllLong : List (List ℕ) → Type 0
AllLong [] = Unit {0}
AllLong (b ∷ bs) = (send_size ≤ length b) × AllLong bs

take-within : (k : ℕ) (xs ys : List ℕ) → k ≤ length xs → take k (xs ++ ys) ≡ take k xs
take-within zero xs ys h = refl
take-within (suc k) [] ys h = absurd (omega arith)
take-within (suc k) (x ∷ xs) ys h = ap (◌∷◌ x) (take-within k xs ys (omega arith))

-- What stands behind the bytes that are sent has no part in a frame.
pub read_stream_frame-append :
    (bytes rest : List ℕ)
    → send_size ≤ length bytes
    → read_stream_frame (bytes ++ rest) ≡ read_stream_frame bytes
unfolding read_stream_frame
read_stream_frame-append bytes rest h =
    ap (λ t. read_stream_start ∷ (to_le 4 send_size ++ t)) (take-within send_size bytes rest h)

frames-written :
    (rounds : List (List ℕ × Bool))
    → client_cmd_read_stream_inf rounds ≡ map read_stream_frame (written_buffers rounds)
unfolding client_cmd_read_stream_inf
frames-written [] = refl
frames-written ((buffer, written) ∷ rounds) = elim (Bool-cases written) [
  | inl y ↦ rw y (ap (◌∷◌ (read_stream_frame buffer)) (frames-written rounds))
  | inr n ↦ rw n refl
]

receive_all-segment :
    (fuel room : ℕ) (bytes : List ℕ) (s : Socket)
    → 1 < fuel
    → 0 < length bytes
    → length bytes ≤ room
    → receive_all fuel room (length bytes) [] (arrives bytes s) ≡ finished (bytes, arrives [] s)
unfolding receive_all
receive_all-segment zero room bytes s f p r = absurd (omega arith)
receive_all-segment (suc zero) room bytes s f p r = absurd (omega arith)
receive_all-segment (suc (suc fuel)) room bytes s f p r =
    let got : recv (length bytes) (arrives bytes s) ≡ (bytes, arrives [] s) =
      ap (λ t. recv (length bytes) (arrives t s)) (sym (append-nil bytes))
      ∙ recv_front bytes [] s p in
    let more : (length bytes == 0) ≡ false = ground arith in
    let fits : ltb room (length bytes) ≡ false = ground arith in
    let done : (length bytes - length bytes == 0) ≡ true = ground arith in
    rw (more, got, fits, done) refl

basic-segment :
    (buffer : List ℕ) (fuel room : ℕ) (st : NetState) (s : Socket)
    → 1 < fuel
    → send_size ≤ room
    → send_size ≤ length buffer
    → io_read_stream_net_basic fuel room st (arrives (read_stream_frame buffer) s)
      ≡ ((shake_hands st).0, (shake_hands st).1, finished (take send_size buffer, arrives [] s))
unfolding io_read_stream_net_basic read_stream_frame
basic-segment buffer fuel room st s f r l =
    let first = take send_size buffer in
    let len : length first ≡ send_size = omega (arith, length-take send_size buffer) in
    let run : receive_all fuel room send_size [] (arrives first s)
        ≡ finished (first, arrives [] s) =
      ap (λ n. receive_all fuel room n [] (arrives first s)) (sym len)
      ∙ receive_all-segment fuel room first s f (omega (arith, len)) (omega (arith, len)) in
    rw (packet_size-announced send_size first s (omega arith), run) refl

basic_skip :
    (fuel room : ℕ) (st : NetState) (s : Socket)
    → io_read_stream_net_basic fuel room st (arrives [] s) ≡ io_read_stream_net_basic fuel room st s
unfolding io_read_stream_net_basic packet_size recv_word recv
basic_skip fuel room st s = refl

read_packets_skip :
    (fuel room n : ℕ) (st : NetState) (s : Socket)
    → read_packets fuel room (suc n) st (arrives [] s) ≡ read_packets fuel room (suc n) st s
unfolding read_packets
read_packets_skip fuel room n st s =
    ap (then_read (read_packets fuel room n)) (basic_skip fuel room st s)

module _ (fuel room : ℕ) (enough : 1 < fuel) (fits : send_size ≤ room) where
  Fetches : List (List ℕ) → NetState → Socket → Type 0
  Fetches bs st s =
      (s' : Socket) × (read_packets fuel room (length bs) st s
        ≡ finished (map (take send_size) bs, s'))

  read_packets-frames :
      (bs : List (List ℕ)) (st : NetState)
      → AllLong bs
      → Fetches bs st (segments (map read_stream_frame bs))
        × Fetches bs st (arrives [] (segments (map read_stream_frame bs)))
  unfolding read_packets Fetches
  read_packets-frames [] st l = ((closed, refl), (arrives [] closed, refl))
  read_packets-frames (b ∷ bs) st l =
      let rest = segments (map read_stream_frame bs) in
      let e = basic-segment b fuel room st rest enough fits l.0 in
      let (first, (s', run)) = read_packets-frames bs (shake_hands st).0 l.1 in
      let here : read_packets fuel room (suc (length bs)) st (arrives (read_stream_frame b) rest)
          ≡ finished (take send_size b ∷ map (take send_size) bs, s') =
        ap (then_read (read_packets fuel room (length bs))) e ∙ rw (then_read, run) refl in
      (
        (s', here),
        (
          s',
          read_packets_skip fuel room (length bs) st (arrives (read_stream_frame b) rest) ∙ here,
        ),
      )

  -- A client, whether it has shaken hands or not, that calls as often as the server's writes go through,
  -- with room for a packet and each write in a segment of its own, gets the first 8192 bytes of the
  -- buffers that the server had, in their order. Two rounds for each call are enough.
  pub read_packets-client_cmd_read_stream_inf :
      (rounds : List (List ℕ × Bool)) (st : NetState)
      → AllLong (written_buffers rounds)
      → (s' : Socket) × (read_packets fuel room
            (length (written_buffers rounds))
            st
            (segments (client_cmd_read_stream_inf rounds))
          ≡ finished (map (take send_size) (written_buffers rounds), s'))
  unfolding Fetches
  read_packets-client_cmd_read_stream_inf rounds st l =
      rw (frames-written rounds) (read_packets-frames (written_buffers rounds) st l).0

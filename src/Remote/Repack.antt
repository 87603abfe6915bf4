-- ===== src/Remote/Repack.antt =====
-- A write stream: `io_write_stream_net` of the client against `client_cmd_write_stream_inf` of the
-- server, which packs the payload anew into buffers of `stream_size` bytes.
-- `none` is a write past the end of a buffer. The server's device is the list of buffers that it
-- was given to send; a buffer that cannot be had is not modelled.
pub mod Frames
use streamio.Common.{
  ℕ, zero, suc, ◌+◌, ◌-◌, ◌*◌, ◌%◌, ◌^◌, ◌<◌, ◌≤◌, ◌≡◌, refl, sym, ap, ap₂, ◌∙◌, ◌≢◌, ◌⊎◌, inl, inr,
  Bool, true, false, Option, none, some, Option-cases, List, [], ◌∷◌, ◌++◌, append_assoc,
  append-nil, length, length-append, take, drop, to_le, from_le, arith, ltb, leb, ◌==◌,
  if◌then◌else◌, ◌>>=◌, Bool-cases, nil_of_length, length-take, length-drop, take-length,
  drop-length, take-append-drop, >>=-eq-some, some-subst, ==→eq, ==→ne,
}
use streamio.Remote.Upload.{receive_packet}
use streamio.Remote.{
  Socket, closed, arrives, recv, recv_word, call_write_stream, recv_word_front, command_front,
}

-- `handshaked` after the call, and the bytes that it sends.
pub io_write_stream_net : Bool → List ℕ → Bool × List ℕ
io_write_stream_net handshaked bytes =
    let frame = call_write_stream ∷ (to_le 4 (length bytes) ++ bytes) in
    if handshaked then (true, frame) else (true, call_write_stream ∷ frame)

-- The server between two receives: the buffers sent to the device, and the bytes in the present
-- one, of which there are `buffer_ptr`.
pub record Packing : Type 0 where
  pub sent : List (List ℕ)
  pub filled : List ℕ

-- The payload bytes that a socket still holds, however they are cut.
abbrev pub content : Socket → List ℕ
content closed = []
content (arrives bs s) = bs ++ content s

abbrev pub flatten : List (List ℕ) → List ℕ
flatten [] = []
flatten (b ∷ bs) = b ++ flatten bs

flatten-append : (xs ys : List (List ℕ)) → flatten (xs ++ ys) ≡ flatten xs ++ flatten ys
flatten-append [] ys = refl
flatten-append (x ∷ xs) ys =
    ap (◌++◌ x) (flatten-append xs ys) ∙ sym (append_assoc x (flatten xs) (flatten ys))

-- All the payload that the server has taken, sent or not.
abbrev pub payload : Packing → List ℕ
payload p = flatten p.sent ++ p.filled

-- The parameter is `stream_size`, which is 131072 in the program, the size of a buffer too.
module _ (stream_size : ℕ) where
  -- What follows a receive of `bytes` into the buffer.
  unfoldable pub store : List ℕ → Packing → Option Packing
  store bytes p =
      let all = p.filled ++ bytes in
      if ltb stream_size (length all)
      then none
      else some (
          if leb stream_size (length all)
          then record { sent = p.sent ++ (all ∷ []); filled = [] }
          else record p { filled = all })

  abbrev pub AllFull : List (List ℕ) → Type 0
  AllFull [] = Unit {0}
  AllFull (b ∷ bs) = (length b ≡ stream_size) × AllFull bs

  AllFull-append : (xs ys : List (List ℕ)) → AllFull xs → AllFull ys → AllFull (xs ++ ys)
  AllFull-append [] ys h k = k
  AllFull-append (x ∷ xs) ys h k = (h.0, AllFull-append xs ys h.1 k)

  -- Every buffer that was sent is full, and the present one is not.
  pub record PackingIsValid (p : Packing) : Type 0 where
    pub full : AllFull p.sent
    pub room : length p.filled < stream_size

  store-PackingIsValid :
      (bytes : List ℕ) (p : Packing) {p' : Packing}
      → 0 < stream_size
      → PackingIsValid p
      → store bytes p ≡ some p'
      → PackingIsValid p' × (payload p' ≡ payload p ++ bytes)
  unfolding store
  store-PackingIsValid bytes p {p'} pos v e =
      let all = p.filled ++ bytes in
      let join : flatten (p.sent ++ (all ∷ [])) ≡ payload p ++ bytes =
        flatten-append p.sent (all ∷ [])
        ∙ ap (◌++◌ (flatten p.sent)) (append-nil all)
        ∙ sym (append_assoc (flatten p.sent) p.filled bytes) in
      let same = append_assoc (flatten p.sent) p.filled bytes in
      elim (Bool-cases (leb stream_size (length all))) [
        | inl y ↦
            let fits : length all ≡ stream_size = ground arith in
            let next : Packing = record { sent = p.sent ++ (all ∷ []); filled = [] } in
            let run : some next ≡ some p' = ground arith in
            some-subst Good run (
              record { full = AllFull-append p.sent (all ∷ []) v.full (fits, tt); room = pos },
              append-nil (flatten next.sent) ∙ join,
            )
        | inr n ↦
            let run : some (record p { filled = all }) ≡ some p' = ground arith in
            some-subst Good run (record { full = v.full; room = ground arith }, sym same)
      ]
    where
      Good : Packing → Type 0
      Good q = PackingIsValid q × (payload q ≡ payload p ++ bytes)

  -- What a packet's receive took from the socket.
  pub record Received (n : ℕ) (p : Packing) (s : Socket) (left : ℕ) (p' : Packing) (s' : Socket)
      : Type 0 where
    pub bytes : List ℕ
    pub counted : length bytes + left ≡ n
    pub taken : content s ≡ bytes ++ content s'
    pub stored : payload p' ≡ payload p ++ bytes
    pub valid : PackingIsValid p'

  -- The same, and that bytes are missing only at the end of the stream.
  abbrev Result : ℕ → Packing → Socket → ℕ × Packing × Socket → Type 0
  Result n p s r = Received n p s (r.0) (r.1) (r.2) × ((r.0 ≡ 0) ⊎ (r.2 ≡ closed))

  nothing-Received : (n : ℕ) (p : Packing) (s : Socket) → PackingIsValid p → Received n p s n p s
  nothing-Received n p s v = record {
    bytes = [];
    counted = omega arith;
    taken = refl;
    stored = sym (append-nil (payload p));
    valid = v;
  }

  -- A segment, then what follows it.
  after-segment :
      (n : ℕ) (p p1 : Packing) (b : ℕ) (bs : List ℕ) (s : Socket) (r : ℕ × Packing × Socket)
      → payload p1 ≡ payload p ++ take (suc n) (b ∷ bs)
      → drop (suc n) (b ∷ bs) ≡ []
      → Result (suc n - length (take (suc n) (b ∷ bs))) p1 s r
      → Result (suc n) p (arrives (b ∷ bs) s) r
  after-segment n p p1 b bs s (left, p', s') d none_left (f, end) =
      let got = take (suc n) (b ∷ bs) in
      let whole : got ≡ b ∷ bs =
        sym (append-nil got) ∙ ap (◌++◌ got) (sym none_left) ∙ take-append-drop (suc n) (b ∷ bs) in
      (
        record {
          bytes = got ++ f.bytes;
          counted =
              omega (arith, length-append got f.bytes, f.counted, length-take (suc n) (b ∷ bs));
          taken = ap₂ ◌++◌ (sym whole) f.taken ∙ sym (append_assoc got f.bytes (content s'));
          stored = f.stored ∙ ap (λ t. t ++ f.bytes) d ∙ append_assoc (payload p) got f.bytes;
          valid = f.valid;
        },
        end,
      )

  -- However the network cuts the payload, where the receive runs to its end, so that no byte runs over
  -- the present buffer: what a receive of `n` bytes adds to the stream is the next
  -- bytes of the socket in their order, no more than `n`; every buffer that goes to the device is
  -- full, and the present one has room. Bytes are missing only at the end of the stream.
  pub receive_packet-Received :
      (n : ℕ) (p : Packing) (s : Socket) {left : ℕ} {p' : Packing} {s' : Socket}
      → 0 < stream_size
      → PackingIsValid p
      → receive_packet store n p s ≡ some (left, p', s')
      → Received n p s left p' s' × ((left ≡ 0) ⊎ (s' ≡ closed))
  unfolding receive_packet
  receive_packet-Received zero p s {left} {p'} {s'} pos v e =
      some-subst (Result zero p s) e (nothing-Received zero p s v, inl refl)
  receive_packet-Received (suc n) p closed pos v e =
      some-subst (Result (suc n) p closed) e (nothing-Received (suc n) p closed v, inr refl)
  receive_packet-Received (suc n) p (arrives [] s) pos v e =
      let (f, end) = receive_packet-Received (suc n) p s pos v e in
      (
        record {
          bytes = f.bytes;
          counted = f.counted;
          taken = f.taken;
          stored = f.stored;
          valid = f.valid;
        },
        end,
      )
  receive_packet-Received (suc n) p (arrives (b ∷ bs) s) {left} {p'} {s'} pos v e =
      let got = take (suc n) (b ∷ bs) in
      let rest = suc n - length got in
      let (p1, e1, e2) = >>=-eq-some (store got p) _ e in
      let (v1, d1) = store-PackingIsValid got p pos v e1 in
      elim (Bool-cases (rest == 0)) [
        | inl y ↦
            let run : some (0, p1, arrives (drop (suc n) (b ∷ bs)) s) ≡ some (left, p', s') =
              ground arith in
            some-subst (Result (suc n) p (arrives (b ∷ bs) s)) run (
              record {
                bytes = got;
                counted = omega (arith, length-take (suc n) (b ∷ bs), ==→eq rest 0 y);
                taken =
                    ap (λ t. t ++ content s) (sym (take-append-drop (suc n) (b ∷ bs)))
                    ∙ append_assoc got (drop (suc n) (b ∷ bs)) (content s);
                stored = d1;
                valid = v1;
              },
              inl refl,
            )
        | inr m ↦
            let run : receive_packet store rest p1 s ≡ some (left, p', s') = ground arith in
            let gone : drop (suc n) (b ∷ bs) ≡ [] = nil_of_length (drop (suc n) (b ∷ bs)) (
              omega (
                arith,
                length-take (suc n) (b ∷ bs),
                length-drop (suc n) (b ∷ bs),
                ==→ne rest 0 m,
              )) in
            after-segment n p p1 b bs s (left, p', s') d1 gone
              (receive_packet-Received rest p1 s pos v1 run)
      ]

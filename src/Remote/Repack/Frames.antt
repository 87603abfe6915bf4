-- ===== src/Remote/Repack/Frames.antt =====
-- A client's packets in a row: where each fits into the server's buffer, the stream comes through.
use streamio.Common.{
  ℕ, suc, ◌+◌, ◌^◌, ◌<◌, ◌≤◌, ◌≡◌, refl, sym, ap, ◌∙◌, inl, inr, true, none, some, List, [], ◌∷◌,
  ◌++◌, append_assoc, append-nil, length, length-append, to_le, arith, leb, if◌then◌else◌,
  Bool-cases, take-length, drop-length,
}
use streamio.Remote.{Socket, closed, arrives, call_write_stream, recv_word_front, command_front}
use streamio.Remote.Upload.{
  receive_packet, receive_frame, Locals, client_cmd_write_stream_inf,
  client_cmd_write_stream_inf_skip,
}
use streamio.Remote.Repack.{
  Packing, payload, flatten, io_write_stream_net, store, PackingIsValid, store-PackingIsValid,
}

module _ (stream_size : ℕ) where
  -- Where a packet ends in the present buffer, and packets that each end in the buffer in which they
  -- begin.
  abbrev advance : ℕ → ℕ → ℕ
  advance ptr n = if leb stream_size (ptr + n) then 0 else ptr + n

  abbrev pub Fits : ℕ → List (List ℕ) → Type 0
  Fits ptr [] = Unit {0}
  Fits ptr (p ∷ ps) = (ptr + length p ≤ stream_size) × Fits (advance ptr (length p)) ps

  abbrev pub AllShort : List (List ℕ) → Type 0
  AllShort [] = Unit {0}
  AllShort (p ∷ ps) = (length p < 2 ^ 32) × AllShort ps

  -- What a client that has shaken hands sends for its packets, a segment for each call.
  pub frames : List (List ℕ) → Socket
  frames [] = closed
  frames (p ∷ ps) = arrives (io_write_stream_net true p).1 (frames ps)

  store-advance :
      (bytes : List ℕ) (p : Packing)
      → length p.filled + length bytes ≤ stream_size
      → 0 < stream_size
      → (p' : Packing) × (store stream_size bytes p ≡ some p')
        × (length p'.filled ≡ advance (length p.filled) (length bytes))
  unfolding store
  store-advance bytes p h pos = elim (Bool-cases (leb stream_size (length (p.filled ++ bytes)))) [
    | inl y ↦ (
      record { sent = p.sent ++ ((p.filled ++ bytes) ∷ []); filled = [] },
      ground (arith, length-append p.filled bytes),
      ground (arith, length-append p.filled bytes),
    )
    | inr n ↦ (
      record p { filled = p.filled ++ bytes },
      ground (arith, length-append p.filled bytes),
      ground (arith, length-append p.filled bytes),
    )
  ]

  store-nil : (p : Packing) → PackingIsValid stream_size p → store stream_size [] p ≡ some p
  unfolding store
  store-nil p v = ground (arith, append-nil p.filled, v.room)

  -- A packet that lies in one segment is received whole.
  receive_packet-whole :
      (bytes : List ℕ) (p p' : Packing) (s : Socket)
      → PackingIsValid stream_size p
      → store stream_size bytes p ≡ some p'
      → receive_packet (store stream_size) (length bytes) p (arrives bytes s)
        ≡ some (0, p', arrives [] s)
  unfolding receive_packet
  receive_packet-whole [] p p' s v e = ground (arith, store-nil p v)
  receive_packet-whole (b ∷ bs) p p' s v e = rw (take-length bs, drop-length bs, e) (ground arith)

  -- A frame in one segment.
  receive_frame-whole :
      (bytes : List ℕ) (l : Locals Packing) (p' : Packing) (s : Socket)
      → length bytes < 2 ^ 32
      → PackingIsValid stream_size l.packing
      → store stream_size bytes l.packing ≡ some p'
      → receive_frame (store stream_size) l (arrives (io_write_stream_net true bytes).1 s)
        ≡ some (record { start_cmd = call_write_stream; recv_size = 0; packing = p' }, arrives [] s)
  unfolding receive_frame io_write_stream_net
  receive_frame-whole bytes l p' s h v e =
      rw
        (
          command_front call_write_stream l.start_cmd (to_le 4 (length bytes) ++ bytes) s
              (omega arith),
          recv_word_front 4 (length bytes) l.recv_size bytes s (omega arith) h,
          receive_packet-whole bytes l.packing p' s v e,
        )
        refl

  loop-suc :
      (acks : ℕ) (l l1 : Locals Packing) (s s1 : Socket)
      → receive_frame (store stream_size) l s ≡ some (l1, s1)
      → client_cmd_write_stream_inf (store stream_size) (suc acks) l s
        ≡ client_cmd_write_stream_inf (store stream_size) acks l1 s1
  unfolding client_cmd_write_stream_inf
  loop-suc acks l l1 s s1 e = rw e refl

  -- A client's packets, each within the buffer in which it begins, come through whole: after as many
  -- rounds the server has taken exactly their payload, in order, behind what it had, in full buffers
  -- for the device and the rest in the present one. No byte is written past a buffer's end.
  pub client_cmd_write_stream_inf-frames :
      (p : List ℕ) (ps : List (List ℕ)) (l : Locals Packing)
      → 0 < stream_size
      → PackingIsValid stream_size l.packing
      → Fits (length l.packing.filled) (p ∷ ps)
      → AllShort (p ∷ ps)
      → (l' : Locals Packing) × (s' : Socket) × (client_cmd_write_stream_inf
            (store stream_size)
            (length ps)
            l
            (frames (p ∷ ps))
          ≡ some (l', s'))
        × (payload l'.packing ≡ payload l.packing ++ flatten (p ∷ ps))
        × PackingIsValid stream_size l'.packing
  unfolding frames
  client_cmd_write_stream_inf-frames p [] l pos v f h =
      let (q, e, a) = store-advance p l.packing f.0 pos in
      let (w, d) = store-PackingIsValid stream_size p l.packing pos v e in
      (
        record { start_cmd = call_write_stream; recv_size = 0; packing = q },
        arrives [] closed,
        unfold client_cmd_write_stream_inf in receive_frame-whole p l q closed h.0 v e,
        d ∙ ap (◌++◌ (payload l.packing)) (sym (append-nil p)),
        w,
      )
  client_cmd_write_stream_inf-frames p (p2 ∷ ps) l pos v f h =
      let (q, e, a) = store-advance p l.packing f.0 pos in
      let (w, d) = store-PackingIsValid stream_size p l.packing pos v e in
      let l1 : Locals Packing = record {
        start_cmd = call_write_stream;
        recv_size = 0;
        packing = q;
      } in
      let (l', s', run, pay, good) =
        client_cmd_write_stream_inf-frames p2 ps l1 pos w (rw a (f.1)) (h.1) in
      (
        l',
        s',
        loop-suc (length ps) l l1 _ _ (receive_frame-whole p l q (frames (p2 ∷ ps)) h.0 v e)
            ∙ client_cmd_write_stream_inf_skip (store stream_size) (length ps) l1 (frames (p2 ∷ ps))
            ∙ run,
        pay
            ∙ ap (λ t. t ++ flatten (p2 ∷ ps)) d
            ∙ append_assoc (payload l.packing) p (flatten (p2 ∷ ps)),
        good,
      )

  -- The loop has no test of its own against the buffer's end: a packet that runs over it, and of which
  -- that much has arrived, is written past it.
  receive_packet_overrun :
      (bytes : List ℕ) (p : Packing) (s : Socket)
      → stream_size < length p.filled + length bytes
      → PackingIsValid stream_size p
      → receive_packet (store stream_size) (length bytes) p (arrives bytes s) ≡ none
  unfolding receive_packet store
  receive_packet_overrun [] p s h v = absurd (omega (arith, v.room))
  receive_packet_overrun (b ∷ bs) p s h v =
      rw (take-length bs) (ground (arith, length-append p.filled (b ∷ bs)))

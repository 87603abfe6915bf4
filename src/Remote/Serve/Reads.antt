-- ===== src/Remote/Serve/Reads.antt =====
-- The read loop over a device, userspace/io_backend/src/io_backend_call.c.
use streamio.Common.{
  ℕ, suc, ◌+◌, ◌≤◌, true, length, ◌%◌, ◌<◌, ◌≡◌, refl, sym, ap, ap₂, ◌∙◌, Bool, some, List, [], ◌∷◌,
  ◌++◌, map, replicate, length-replicate, append_assoc, append-nil, arith, if◌then◌else◌, inl, inr,
  Bool-cases,
}
use streamio.Dma.{ChannelBuffer, buffer_size, buffer_count}
use streamio.Dma.Bounds.{InRange, buffer_at}
use streamio.Local.{LocalBuffer, Answers}
use streamio.Local.Ring.{RingIsValid, io_write_stream_local_lem}
use streamio.Local.Drain.{cycle, io_finish_stream_local-IsBack}
use streamio.Remote.Download.{send_size, read_stream_frame, client_cmd_read_stream_inf}
use streamio.Remote.Download.Whole.{read_stream_frame-append}
use streamio.Remote.Deliver.Calls.{
  Willing, whole, get_buffer-Given, put, put_at, put_bytes-put, requests-front,
}
use streamio.Remote.Serve.{ReadRound, read_again, read_stream_inf}

-- The engine is willing in every round, and its completions are known.
abbrev pub AllWilling : List ReadRound → Type 0
AllWilling [] = Unit {0}
AllWilling (r ∷ rounds) =
    (Willing r.ask × Willing r.start × ((k : ℕ) → InRange (r.sync k).finish.meanwhile))
    × AllWilling rounds

abbrev pub outputs : List ReadRound → List (List ℕ × Bool)
outputs [] = []
outputs (r ∷ rounds) = (r.stored, r.written) ∷ outputs rounds

-- The engine stores within the buffer, and where the write goes through as much as is sent.
abbrev pub AllStored : List ReadRound → Type 0
AllStored [] = Unit {0}
AllStored (r ∷ rounds) =
    ((length r.stored ≤ buffer_size) × (r.written ≡ true → send_size ≤ length r.stored))
    × AllStored rounds

-- The frame of a buffer is that of what the engine has stored in it.
read_stream_frame-put :
    (bytes : List ℕ) (b : ChannelBuffer)
    → send_size ≤ length bytes
    → read_stream_frame (put 0 bytes b).buffer ≡ read_stream_frame bytes
read_stream_frame-put bytes b h = read_stream_frame-append bytes _ h

-- The rounds before the first whose `writev` fails.
abbrev pub rounds_done : List ReadRound → ℕ
rounds_done [] = 0
rounds_done (r ∷ rounds) = let more = rounds_done rounds in if r.written then suc more else 0

-- The device has a transfer of a whole buffer more for each of `n`, in the ring's order.
pub record Reads (l l' : LocalBuffer) (n : ℕ) : Type 0 where
  pub valid : RingIsValid l'
  pub base : l'.channel.buffer_phys_addr ≡ l.channel.buffer_phys_addr
  pub queue :
      l'.channel.issued
      ≡ l.channel.issued ++ map (whole l.channel.buffer_phys_addr) (cycle l.current_buffer_id n)

-- A buffer is filled with ones and handed back to the engine.
read_again_lem :
    (a : Answers) (id : ℕ) (l : LocalBuffer)
    → RingIsValid l
    → Willing a
    → id < buffer_count
    → (l' : LocalBuffer) × (read_again a id l ≡ some l')
      × RingIsValid l'
      × (l'.current_buffer_id ≡ l.current_buffer_id)
      × (l'.channel.buffer_phys_addr ≡ l.channel.buffer_phys_addr)
      × (l'.channel.issued ≡ l.channel.issued ++ (whole l.channel.buffer_phys_addr id ∷ []))
unfolding read_again
read_again_lem a id l v w lt =
    let ones = replicate buffer_size 255 in
    let (b, e) = buffer_at v.channel id lt in
    let (e1, v1, here) =
      put_bytes-put id 0 ones b l v lt e
        (omega (arith, length-replicate {A = ℕ} buffer_size 255)) in
    let c = put_at id 0 ones b l.channel in
    let (l', b', run, v', cur, size, queue, there, others, base) =
      io_write_stream_local_lem a id buffer_size (record l { channel = c }) v1 lt (omega arith) in
    (
      l',
      rw (e1, run) refl,
      v',
      cur,
      base,
      queue ∙ ap (◌++◌ l.channel.issued) (requests-front c id b' refl size w.taken),
    )

chain_rounds :
    (l l1 l2 : LocalBuffer) (n : ℕ)
    → Reads l l1 1
    → l1.current_buffer_id ≡ (l.current_buffer_id + 1) % buffer_count
    → Reads l1 l2 n
    → Reads l l2 (suc n)
chain_rounds l l1 l2 n s cur r =
    let send = whole l.channel.buffer_phys_addr in
    let i = l.current_buffer_id in
    record {
      valid = r.valid;
      base = r.base ∙ s.base;
      queue =
          r.queue
          ∙ ap₂ ◌++◌ s.queue (ap₂ (λ b k. map (whole b) (cycle k n)) s.base cur)
          ∙ append_assoc l.channel.issued (send i ∷ [])
              (map send (cycle ((i + 1) % buffer_count) n));
    }

-- The read loop over a valid ring whose engine takes each transfer, answers in time where a buffer is
-- asked for, and may be late where all are waited for: it runs to its end, sends just the frames of
-- what the engine has stored in the buffers, up to the first that cannot be sent, and hands each buffer that was
-- sent back to the engine for a whole one, in the ring's order from the current buffer on.
pub read_stream_inf-Reads :
    (rounds : List ReadRound) (l : LocalBuffer)
    → RingIsValid l
    → AllWilling rounds
    → AllStored rounds
    → (l' : LocalBuffer) × (read_stream_inf rounds l
        ≡ some (l', client_cmd_read_stream_inf (outputs rounds)))
      × Reads l l' (rounds_done rounds)
unfolding read_stream_inf client_cmd_read_stream_inf
read_stream_inf-Reads [] l v w h =
    (l, refl, record { valid = v; base = refl; queue = sym (append-nil l.channel.issued) })
read_stream_inf-Reads (r ∷ rounds) l v w h =
    let i = l.current_buffer_id in
    let (ask, start, known) = w.0 in
    let (l1, e1, g) = get_buffer-Given r.ask l v ask in
    let (l2, e2, v2, c2, q2, back, b2) = io_finish_stream_local-IsBack r.sync l1 g.valid known in
    let (b, found) = buffer_at v2.channel i v.current in
    let (put, v5, here) =
      put_bytes-put i 0 r.stored b l2 v2 v.current found (omega (arith, h.0.0)) in
    let l5 = record l2 { channel = put_at i 0 r.stored b l2.channel } in
    elim (Bool-cases r.written) [
      | inr m ↦ (
        l5,
        rw (e1, e2, put, here, m) refl,
        record {
          valid = v5;
          base = b2 ∙ g.base;
          queue = rw m (q2 ∙ g.queue ∙ sym (append-nil l.channel.issued));
        },
      )
      | inl y ↦
          let (l3, e3, v3, c3, b3, q3) = read_again_lem r.start i l5 v5 start v.current in
          let (l4, e4, s) = read_stream_inf-Reads rounds l3 v3 w.1 h.1 in
          let before : Reads l l3 1 = record {
            valid = v3;
            base = b3 ∙ b2 ∙ g.base;
            queue = q3 ∙ ap₂ (λ t b. t ++ (whole b i ∷ [])) (q2 ∙ g.queue) (b2 ∙ g.base);
          } in
          (
            l4,
            rw (e1, e2, put, here, e3, e4, y, read_stream_frame-put r.stored b (h.0.1 y)) refl,
            rw y (chain_rounds l l3 l4 (rounds_done rounds) before (c3 ∙ c2 ∙ g.next) s),
          )
    ]

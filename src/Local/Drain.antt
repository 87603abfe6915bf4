-- ===== src/Local/Drain.antt =====
-- Waiting for every buffer, and a client that keeps asking for buffers.
use streamio.Common.{
  ℕ, zero, suc, ◌+◌, ◌%◌, ◌<◌, ◌≤◌, ◌≡◌, refl, ap, ◌∙◌, Option, none, some, List, [], ◌∷◌, length,
  get_elem?, arith, ◌>>=◌,
}
use native.Mathlib.Decide.{dec_le}
use streamio.Dma.{ChannelBuffer, Channel, buffer_count}
use streamio.Dma.Inv.{IsValid}
use streamio.Dma.Bounds.{InRange}
use streamio.Local.{
  LocalBuffer, Answers, finish_from, io_stream_zc_buffer_local, io_finish_stream_local,
}
use streamio.Local.Ring.{
  RingIsValid, Settled, finish_if_pending_lem, Got, busy_ring, handed,
  io_stream_zc_buffer_local-Got,
}

-- Buffer `j` of the channel has come back from the engine.
abbrev pub IsBack : Channel → ℕ → Type 0
IsBack c j = (b : ChannelBuffer) × (get_elem? c.buffer_table j ≡ some b) × Settled b.status

record Drained (n i : ℕ) (c c' : Channel) : Type 0 where
  valid : IsValid c'
  queue : c'.issued ≡ c.issued
  base : c'.buffer_phys_addr ≡ c.buffer_phys_addr
  before : (j : ℕ) → j < i → get_elem? c'.buffer_table j ≡ get_elem? c.buffer_table j
  back : (j : ℕ) → i ≤ j → j < i + n → IsBack c' j

finish_from-Drained :
    (n : ℕ) (answers : ℕ → Answers) (i : ℕ) (c : Channel)
    → IsValid c
    → i + n ≤ buffer_count
    → ((k : ℕ) → InRange (answers k).finish.meanwhile)
    → (c' : Channel) × (finish_from n answers i c ≡ some c') × Drained n i c c'
unfolding finish_from
finish_from-Drained zero answers i c v h m = (
  c,
  refl,
  record {
    valid = v;
    queue = refl;
    base = refl;
    before = λ j lt. refl;
    back = λ j le lt. absurd (omega arith);
  },
)
finish_from-Drained (suc n) answers i c v h m =
    let (c1, e1, f) = finish_if_pending_lem (answers i) i c v (omega arith) (m i) in
    let (c2, e2, d) = finish_from-Drained n answers (i + 1) c1 f.valid (omega arith) m in
    (
      c2,
      rw e1 e2,
      record {
        valid = d.valid;
        queue = d.queue ∙ f.queue;
        base = d.base ∙ f.base;
        before = λ j lt. d.before j (omega arith) ∙ f.others j (λ e. omega arith);
        back = λ j le lt. elim (dec_le (i + 1) j) [
          | yes p ↦ d.back j p (omega arith)
          | no p ↦
              let here : j ≡ i = omega arith in
              (f.buffer, rw here (d.before i (omega arith) ∙ f.found), f.settled)
        ];
      },
    )

-- `io_finish_stream_local` returns, whatever the engine answers to its waits, and then no buffer of
-- the ring is QUEUED or BUSY; the engine's queue, the position in the ring and the address of its
-- buffers stay.
pub io_finish_stream_local-IsBack :
    (answers : ℕ → Answers) (l : LocalBuffer)
    → RingIsValid l
    → ((k : ℕ) → InRange (answers k).finish.meanwhile)
    → (l' : LocalBuffer) × (io_finish_stream_local answers l ≡ some l')
      × RingIsValid l'
      × (l'.current_buffer_id ≡ l.current_buffer_id)
      × (l'.channel.issued ≡ l.channel.issued)
      × ((j : ℕ) → j < buffer_count → IsBack l'.channel j)
      × (l'.channel.buffer_phys_addr ≡ l.channel.buffer_phys_addr)
unfolding io_finish_stream_local
io_finish_stream_local-IsBack answers l v m =
    let (c, e, d) =
      finish_from-Drained l.buffer_count answers 0 l.channel v.channel (omega (arith, v.count)) m in
    (
      record l { channel = c },
      rw e refl,
      record { channel = d.valid; count = v.count; current = v.current },
      refl,
      d.queue,
      λ j lt. d.back j (omega arith) (omega (arith, v.count)),
      d.base,
    )

-- A client asks again and again, with the answers that each call meets; the buffers it is given.
pub take_buffers : List Answers → LocalBuffer → Option (LocalBuffer × List ℕ)
take_buffers [] l = some (l, [])
take_buffers (a ∷ as') l = do
  (l1, r) ← io_stream_zc_buffer_local a l
  (l2, ids) ← take_buffers as' l1
  some (l2, elim r [ none ↦ ids | some i ↦ i ∷ ids ])

-- The ring's order from buffer `i` on.
abbrev pub cycle : ℕ → ℕ → List ℕ
cycle i zero = []
cycle i (suc n) = i ∷ cycle ((i + 1) % buffer_count) n

abbrev AllInRange : List Answers → Type 0
AllInRange [] = Unit {0}
AllInRange (a ∷ as') = InRange a.finish.meanwhile × AllInRange as'

join :
    (a : Answers) (xs : List Answers) (l l1 l2 : LocalBuffer) (r : Option ℕ) (ids : List ℕ)
    → io_stream_zc_buffer_local a l ≡ some (l1, r)
    → Got a l l1 r
    → take_buffers xs l1 ≡ some (l2, ids)
    → RingIsValid l2
    → ids ≡ cycle l1.current_buffer_id (length ids)
    → l2.current_buffer_id ≡ (l1.current_buffer_id + length ids) % buffer_count
    → (l' : LocalBuffer) × (got : List ℕ) × (take_buffers (a ∷ xs) l ≡ some (l', got))
      × RingIsValid l'
      × (got ≡ cycle l.current_buffer_id (length got))
      × (l'.current_buffer_id ≡ (l.current_buffer_id + length got) % buffer_count)
unfolding take_buffers
join a xs l l1 l2 r ids e1 (busy_ring b f t w same) e2 v c i =
    (l2, ids, rw (e1, e2) refl, v, rw (← same) c, rw (← same) i)
join a xs l l1 l2 r ids e1 (handed b f s t next here) e2 v c i = (
  l2,
  l.current_buffer_id ∷ ids,
  rw (e1, here, e2) refl,
  v,
  ap (◌∷◌ l.current_buffer_id) (c ∙ ap (λ k. cycle k (length ids)) next),
  omega (arith, i, next),
)

-- However often a client asks, and whichever calls time out: the buffers that it is given are those
-- of the ring in its order, one after the other from the current one, without a gap.
pub take_buffers-cycle :
    (xs : List Answers) (l : LocalBuffer)
    → RingIsValid l
    → AllInRange xs
    → (l' : LocalBuffer) × (ids : List ℕ) × (take_buffers xs l ≡ some (l', ids))
      × RingIsValid l'
      × (ids ≡ cycle l.current_buffer_id (length ids))
      × (l'.current_buffer_id ≡ (l.current_buffer_id + length ids) % buffer_count)
take_buffers-cycle [] l v m =
    (l, [], unfold take_buffers in refl, v, refl, omega (arith, v.current))
take_buffers-cycle (a ∷ xs) l v m =
    let (l1, r, e1, v1, g, q, p) = io_stream_zc_buffer_local-Got a l v m.0 in
    let (l2, ids, e2, v2, c, i) = take_buffers-cycle xs l1 v1 m.1 in
    join a xs l l1 l2 r ids e1 g e2 v2 c i

-- ===== src/App/Transfers.antt =====
-- The transfers that a program over the ring hands to the engine.
use streamio.Common.{
  ℕ, suc, ◌+◌, ◌*◌, ◌%◌, ◌^◌, ◌<◌, ◌≡◌, refl, sym, ap₂, ◌∙◌, some, [], ◌∷◌, ◌++◌, map, append_assoc,
  append-nil, arith,
}
use streamio.Dma.{Channel, buffer_count, sizeof_channel_buffer}
use streamio.Local.{LocalBuffer, Answers, io_write_stream_local, io_finish_stream_local}
use streamio.Local.Ring.{RingIsValid, io_write_stream_local_lem}
use streamio.Local.Drain.{cycle, IsBack, io_finish_stream_local-IsBack}
use streamio.Remote.Deliver.Calls.{Willing, Given, front, requests-front}

-- `n` transfers of `size` bytes were handed over, in the ring's order from the current buffer on.
pub record Transfers (size n : ℕ) (l l' : LocalBuffer) : Type 0 where
  pub valid : RingIsValid l'
  pub base : l'.channel.buffer_phys_addr ≡ l.channel.buffer_phys_addr
  pub next : l'.current_buffer_id ≡ (l.current_buffer_id + n) % buffer_count
  pub queue :
      l'.channel.issued
      ≡ l.channel.issued
        ++ map (front size l.channel.buffer_phys_addr) (cycle l.current_buffer_id n)

module _ (size : ℕ) where
  -- The buffer that was asked for is handed over, with what was put into it.
  pub write_stream-Transfers :
      (a : Answers) (l0 l : LocalBuffer) (c : Channel)
      → RingIsValid l0
      → Willing a
      → Given l0 l
      → RingIsValid (record l { channel = c })
      → c.issued ≡ l.channel.issued
      → c.buffer_phys_addr ≡ l.channel.buffer_phys_addr
      → size < 2 ^ 32
      → (l' : LocalBuffer) × (io_write_stream_local a
            (sizeof_channel_buffer * l0.current_buffer_id)
            size
            (record l { channel = c })
          ≡ some (l', l0.current_buffer_id))
        × Transfers size 1 l0 l'
  write_stream-Transfers a l0 l c v0 w g v issued phys small =
      let i = l0.current_buffer_id in
      let (l', b, e, v', cur, sized, queue, there, others, base) =
        io_write_stream_local_lem a i size (record l { channel = c }) v v0.current small in
      (
        l',
        e,
        record {
          valid = v';
          base = base ∙ phys ∙ g.base;
          next = cur ∙ g.next;
          queue =
              queue
              ∙ ap₂ ◌++◌ (issued ∙ g.queue) (requests-front c i b (phys ∙ g.base) sized w.taken);
        },
      )

  pub no-Transfers : (l : LocalBuffer) → RingIsValid l → Transfers size 0 l l
  no-Transfers l v = record {
    valid = v;
    base = refl;
    next = omega (arith, v.current);
    queue = sym (append-nil l.channel.issued);
  }

  pub more-Transfers :
      (n : ℕ) (l l1 l2 : LocalBuffer)
      → Transfers size 1 l l1
      → Transfers size n l1 l2
      → Transfers size (suc n) l l2
  more-Transfers n l l1 l2 s r =
      let send = front size l.channel.buffer_phys_addr in
      let i = l.current_buffer_id in
      record {
        valid = r.valid;
        base = r.base ∙ s.base;
        next = omega (arith, r.next, s.next);
        queue =
            r.queue
            ∙ ap₂ ◌++◌ s.queue (ap₂ (λ b k. map (front size b) (cycle k n)) s.base s.next)
            ∙ append_assoc l.channel.issued (send i ∷ [])
                (map send (cycle ((i + 1) % buffer_count) n));
      }

  pub resume-Transfers :
      (n : ℕ) (l l1 l2 : LocalBuffer)
      → RingIsValid l
      → Transfers size 0 l l1
      → Transfers size n l1 l2
      → Transfers size n l l2
  resume-Transfers n l l1 l2 v s r =
      let here : l1.current_buffer_id ≡ l.current_buffer_id = omega (arith, s.next, v.current) in
      record {
        valid = r.valid;
        base = r.base ∙ s.base;
        next = omega (arith, r.next, here);
        queue =
            r.queue
            ∙ ap₂ ◌++◌ (s.queue ∙ append-nil l.channel.issued)
                (ap₂ (λ b k. map (front size b) (cycle k n)) s.base here);
      }

  -- A sync changes no position and hands over nothing.
  pub finish_stream-Transfers :
      (n : ℕ) (answers : ℕ → Answers) (l0 l : LocalBuffer)
      → Transfers size n l0 l
      → ((k : ℕ) → Willing (answers k))
      → (l' : LocalBuffer) × (io_finish_stream_local answers l ≡ some l')
        × Transfers size n l0 l'
        × ((j : ℕ) → j < buffer_count → IsBack l'.channel j)
  finish_stream-Transfers n answers l0 l t w =
      let (l', e, v', cur, queue, back, base) =
        io_finish_stream_local-IsBack answers l t.valid (λ k. (w k).known) in
      (
        l',
        e,
        record { valid = v'; base = base ∙ t.base; next = cur ∙ t.next; queue = queue ∙ t.queue },
        back,
      )

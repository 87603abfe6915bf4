-- ===== src/Dma/Status.antt =====
-- The status of a buffer through a start and a wait.
use streamio.Common.{
  ℕ, ◌≡◌, sym, ap, ◌∙◌, ◌≢◌, ◌↔◌, some, get_elem?, arith, >>=-eq-some, lt_of_get_elem?,
  get_elem?-set_self, get_elem?-set_ne,
}
use streamio.Dma.{
  ChannelBuffer, Channel, no_error, busy, timeout, queued, Wait, timed_out, DmaStatus, dma_complete,
  Finish, outcome, interrupts, begin_wait, end_wait, wait_for_transfer,
}
use streamio.Dma.Inv.{interrupts-SameBuffers}

-- The buffer at `i` becomes `b'`, and no other one changes.
pub record Updates (c c' : Channel) (i : ℕ) (b' : ChannelBuffer) : Type 0 where
  pub here : get_elem? c'.buffer_table i ≡ some b'
  pub others : (j : ℕ) → i ≢ j → get_elem? c'.buffer_table j ≡ get_elem? c.buffer_table j

begin_wait-Updates :
    (c : Channel) {c' : Channel} (b : ChannelBuffer)
    → begin_wait c ≡ some c'
    → get_elem? c.buffer_table c.bdindex ≡ some b
    → Updates c c' c.bdindex (record b { status = busy })
      × (c'.bdindex ≡ c.bdindex)
      × (c'.issued ≡ c.issued)
unfolding begin_wait
begin_wait-Updates c {c'} b e h = (
  record {
    here = ground (
      arith,
      get_elem?-set_self c.buffer_table c.bdindex (record b { status = busy }),
      lt_of_get_elem? c.buffer_table c.bdindex h,
    );
    others = λ j n.
        ground (arith, get_elem?-set_ne c.buffer_table c.bdindex j (record b { status = busy }));
  },
  ground arith,
  ground arith,
)

end_wait-Updates :
    (w : Wait) (s : DmaStatus) (c : Channel) {c' : Channel} (b : ChannelBuffer)
    → end_wait w s c ≡ some c'
    → get_elem? c.buffer_table c.bdindex ≡ some b
    → Updates c c' c.bdindex (record b { status = outcome w s })
      × (c'.bdindex ≡ c.bdindex)
      × (c'.issued ≡ c.issued)
unfolding end_wait
end_wait-Updates w s c {c'} b e h = (
  record {
    here = ground (
      arith,
      get_elem?-set_self c.buffer_table c.bdindex (record b { status = outcome w s }),
      lt_of_get_elem? c.buffer_table c.bdindex h,
    );
    others = λ j n.
        ground
          (arith, get_elem?-set_ne c.buffer_table c.bdindex j (record b { status = outcome w s }));
  },
  ground arith,
  ground arith,
)

-- A wait that ends leaves its buffer with the status of its outcome, every other buffer and the
-- engine's queue as they were.
pub wait_for_transfer-Updates :
    (f : Finish) (c : Channel) {c' : Channel} (b : ChannelBuffer)
    → wait_for_transfer f c ≡ some c'
    → get_elem? c.buffer_table c.bdindex ≡ some b
    → Updates c c' c.bdindex (record b { status = outcome f.wait f.status })
      × (c'.issued ≡ c.issued)
unfolding wait_for_transfer
wait_for_transfer-Updates f c {c'} b e h =
    let (c1, e1, r1) = >>=-eq-some (begin_wait c) _ e in
    let (c2, e2, e3) = >>=-eq-some (interrupts f.meanwhile c1) _ r1 in
    let (u1, i1, q1) = begin_wait-Updates c b e1 h in
    let s = interrupts-SameBuffers f.meanwhile c1 e2 in
    let i2 : c2.bdindex ≡ c.bdindex = s.index ∙ i1 in
    let h2 : get_elem? c2.buffer_table c2.bdindex ≡ some (record b { status = busy }) =
      rw (s.table, i2) u1.here in
    let (u3, i3, q3) = end_wait-Updates f.wait f.status c2 (record b { status = busy }) e3 h2 in
    (
      record {
        here = rw i2 at u3.here;
        others = λ j n.
            u3.others j (λ e. n (sym i2 ∙ e)) ∙ ap (λ t. get_elem? t j) s.table ∙ u1.others j n;
      },
      q3 ∙ s.queue ∙ q1,
    )

-- The status that a wait leaves says that the buffer is no longer with the engine's caller: it is
-- neither QUEUED nor BUSY, and it is NO_ERROR exactly when the wait did not run out of time and the
-- engine reports completion.
pub outcome_settled :
    (w : Wait) (s : DmaStatus)
    → (outcome w s ≢ queued)
      × (outcome w s ≢ busy)
      × ((outcome w s ≡ no_error) ↔ ((w ≢ timed_out) × (s ≡ dma_complete)))
      × ((outcome w s ≡ timeout) ↔ (w ≡ timed_out))
unfolding outcome
outcome_settled w s = ground arith

-- ===== src/Dma/Inv.antt =====
-- The tables of a channel keep their shape, and no operation at an index of theirs faults.
use streamio.Common.{
  ℕ, ◌+◌, ◌≡◌, refl, sym, ap, ◌∙◌, inl, inr, some, List, [], ◌∷◌, length, get_elem?, set, arith,
  Option-cases, length-set, length-map, >>=-eq-some, some-subst,
}
use streamio.Dma.{
  ChannelBuffer, ProxyBd, Channel, Transfer, busy, Submit, Cookie, accepted, refused, Interrupt,
  irq, callback, Wait, DmaStatus, Finish, Command, start_xfer, finish_xfer, xfer, select,
  start_transfer, submit_transfer, interrupt, interrupts, sync_callback, begin_wait, end_wait,
  wait_for_transfer, run_command, buffer_count,
}
use streamio.Dma.Tables.{
  handles_from, length-handles_from, handles, SameShape, SameShape-refl, SameShape-trans, map-set,
}

-- Both tables have 32 entries, and entry `i` stands for the `i`-th buffer of the DMA memory.
pub record IsValid (c : Channel) : Type 0 where
  pub buffers : length c.buffer_table ≡ buffer_count
  pub entries : handles c ≡ handles_from buffer_count 0 c.buffer_phys_addr

pub SameShape-IsValid : {c c' : Channel} → SameShape c c' → IsValid c → IsValid c'
SameShape-IsValid s v = record {
  buffers = s.buffers ∙ v.buffers;
  entries = s.entries ∙ (rw s.base v.entries);
}

pub length-bdtable : {c : Channel} → IsValid c → length c.bdtable ≡ buffer_count
length-bdtable {c} v =
    sym (length-map (λ (d : ProxyBd). d.dma_handle) c.bdtable)
    ∙ ap length v.entries
    ∙ length-handles_from buffer_count 0 c.buffer_phys_addr

-- What an interrupt leaves alone.
pub record SameBuffers (c c' : Channel) : Type 0 where
  pub shape : SameShape c c'
  pub table : c'.buffer_table ≡ c.buffer_table
  pub index : c'.bdindex ≡ c.bdindex
  pub queue : c'.issued ≡ c.issued

pub sync_callback-SameBuffers :
    (i : ℕ) (c : Channel) {c' : Channel} → sync_callback i c ≡ some c' → SameBuffers c c'
unfolding sync_callback
sync_callback-SameBuffers i c e = elim (Option-cases (get_elem? c.bdtable i)) [
  | inl n ↦ absurd (ground arith)
  | inr (d, h) ↦ ground (
    arith,
    map-set (λ (x : ProxyBd). x.dma_handle) c.bdtable i d (record d { done = d.done + 1 }) h refl,
  )
]

abbrev rearm : ProxyBd → Cookie → ℕ → ProxyBd
rearm d k n = record d { done = 0; cookie = k; sg_address = d.dma_handle; sg_length = n }

pub interrupt-SameBuffers :
    (x : Interrupt) (c : Channel) {c' : Channel} → interrupt x c ≡ some c' → SameBuffers c c'
unfolding interrupt
interrupt-SameBuffers irq c e = ground arith
interrupt-SameBuffers (callback i) c e = sync_callback-SameBuffers i c e

SameBuffers-trans : {c c' c'' : Channel} → SameBuffers c c' → SameBuffers c' c'' → SameBuffers c c''
SameBuffers-trans p q = record {
  shape = SameShape-trans p.shape q.shape;
  table = q.table ∙ p.table;
  index = q.index ∙ p.index;
  queue = q.queue ∙ p.queue;
}

pub interrupts-SameBuffers :
    (xs : List Interrupt) (c : Channel) {c' : Channel}
    → interrupts xs c ≡ some c'
    → SameBuffers c c'
unfolding interrupts
interrupts-SameBuffers [] c e = ground arith
interrupts-SameBuffers (x ∷ xs) c e =
    let (m, h, k) = >>=-eq-some (interrupt x c) (interrupts xs) e in
    SameBuffers-trans (interrupt-SameBuffers x c h) (interrupts-SameBuffers xs m k)

-- Writing an entry that keeps its address, and a buffer, keeps the shape.
module _ (c : Channel) (b : ChannelBuffer) (d d' : ProxyBd)
    (h : get_elem? c.bdtable c.bdindex ≡ some d) (same : d'.dma_handle ≡ d.dma_handle) where
  set_entry-SameShape : SameShape c (record c { bdtable = set c.bdtable c.bdindex d' })
  set_entry-SameShape = record {
    buffers = refl;
    entries = map-set (λ (x : ProxyBd). x.dma_handle) c.bdtable c.bdindex d d' h same;
    base = refl;
  }

  set_both-SameShape :
      (n : ℕ) (q : List Transfer)
      → SameShape c (record c {
        bdtable = set c.bdtable c.bdindex d';
        buffer_table = set c.buffer_table c.bdindex b;
        wait_transfer_count = n;
        issued = q;
      })
  set_both-SameShape n q = record {
    buffers = length-set c.buffer_table c.bdindex b;
    entries = map-set (λ (x : ProxyBd). x.dma_handle) c.bdtable c.bdindex d d' h same;
    base = refl;
  }

submit_transfer-SameShape :
    (k : Cookie) (b : ChannelBuffer) (d d' : ProxyBd) (c : Channel)
    → get_elem? c.bdtable c.bdindex ≡ some d
    → d'.dma_handle ≡ d.dma_handle
    → SameShape c (submit_transfer k b d' c)
unfolding submit_transfer
submit_transfer-SameShape (refused e) b d d' c h same = set_entry-SameShape c b d _ h same
submit_transfer-SameShape (accepted n) b d d' c h same =
    set_both-SameShape c _ d _ h same c.wait_transfer_count _

pub start_transfer-SameShape :
    (a : Submit) (c : Channel) {c' : Channel} → start_transfer a c ≡ some c' → SameShape c c'
unfolding start_transfer
start_transfer-SameShape a c {c'} e =
    let (b, eb, e1) = >>=-eq-some (get_elem? c.buffer_table c.bdindex) _ e in
    let (d, ed, e2) = >>=-eq-some (get_elem? c.bdtable c.bdindex) _ e1 in
    let d' : ProxyBd = record d { sg_address = d.dma_handle; sg_length = b.length } in
    ground (
      arith,
      submit_transfer-SameShape a.cookie b d d' c ed refl,
      set_entry-SameShape c b d d' ed refl,
      e2,
    )

pub begin_wait-SameShape : (c : Channel) {c' : Channel} → begin_wait c ≡ some c' → SameShape c c'
unfolding begin_wait
begin_wait-SameShape c e = elim (Option-cases (get_elem? c.buffer_table c.bdindex)) [
  | inl n ↦ absurd (ground arith)
  | inr (b, h) ↦ ground (arith, length-set c.buffer_table c.bdindex (record b { status = busy }))
]

end_wait-SameShape :
    (w : Wait) (s : DmaStatus) (c : Channel) {c' : Channel}
    → end_wait w s c ≡ some c'
    → SameShape c c'
unfolding end_wait
end_wait-SameShape w s c e =
    let (b, eb, e1) = >>=-eq-some (get_elem? c.buffer_table c.bdindex) _ e in
    let (d, ed, e2) = >>=-eq-some (get_elem? c.bdtable c.bdindex) _ e1 in
    some-subst (SameShape c) e2 (set_both-SameShape c _ d _ ed refl _ c.issued)

pub wait_for_transfer-SameShape :
    (f : Finish) (c : Channel) {c' : Channel} → wait_for_transfer f c ≡ some c' → SameShape c c'
unfolding wait_for_transfer
wait_for_transfer-SameShape f c e =
    let (c1, e1, r1) = >>=-eq-some (begin_wait c) _ e in
    let (c2, e2, e3) = >>=-eq-some (interrupts f.meanwhile c1) _ r1 in
    SameShape-trans (begin_wait-SameShape c e1) (
      SameShape-trans (interrupts-SameBuffers f.meanwhile c1 e2).shape
        (end_wait-SameShape f.wait f.status c2 e3))

pub run_command-SameShape :
    (cmd : Command) (a : Submit) (f : Finish) (c : Channel) {c' : Channel}
    → run_command cmd a f c ≡ some c'
    → SameShape c c'
unfolding run_command
run_command-SameShape start_xfer a f c e = start_transfer-SameShape a c e
run_command-SameShape finish_xfer a f c e = wait_for_transfer-SameShape f c e
run_command-SameShape xfer a f c e =
    let (c1, e1, e2) = >>=-eq-some (start_transfer a c) _ e in
    SameShape-trans (start_transfer-SameShape a c e1) (wait_for_transfer-SameShape f c1 e2)
run_command-SameShape select a f c e = some-subst (SameShape c) e (SameShape-refl c)

-- ===== src/Dma/Bounds.antt =====
-- `ioctl` at an index of the tables does not fault, and at any other it does.
use streamio.Common.{
  ℕ, ◌%◌, ◌^◌, ◌≤◌, ◌<◌, ◌≡◌, refl, ◌≢◌, none, some, List, [], ◌∷◌, get_elem?, arith,
  get_elem?_of_lt, get_elem?_of_ge, some_of_ne_none,
}
use streamio.Dma.{
  ChannelBuffer, ProxyBd, Channel, Submit, Interrupt, irq, callback, Wait, DmaStatus, Finish,
  Command, start_xfer, finish_xfer, xfer, select, start_transfer, submit_transfer, interrupt,
  interrupts, irq_handler, sync_callback, begin_wait, end_wait, wait_for_transfer, run_command,
  ioctl, buffer_count, returns,
}
use streamio.Dma.Inv.{
  IsValid, SameShape-IsValid, length-bdtable, sync_callback-SameBuffers, interrupt-SameBuffers,
  interrupts-SameBuffers, start_transfer-SameShape, begin_wait-SameShape, run_command-SameShape,
}

-- Every completion that is signalled belongs to an entry of the table.
abbrev pub InRange : List Interrupt → Type 0
InRange [] = Unit {0}
InRange (irq ∷ xs) = InRange xs
InRange (callback i ∷ xs) = (i < buffer_count) × InRange xs

module _ {c : Channel} (v : IsValid c) where
  pub buffer_at :
      (i : ℕ) → i < buffer_count → (b : ChannelBuffer) × (get_elem? c.buffer_table i ≡ some b)
  buffer_at i h = get_elem?_of_lt c.buffer_table i (omega (arith, v.buffers))

  pub entry_at : (i : ℕ) → i < buffer_count → (d : ProxyBd) × (get_elem? c.bdtable i ≡ some d)
  entry_at i h = get_elem?_of_lt c.bdtable i (omega (arith, length-bdtable v))

  pub start_transfer-ne-none : (a : Submit) → c.bdindex < buffer_count → start_transfer a c ≢ none
  unfolding start_transfer
  start_transfer-ne-none a h =
      let (b, eb) = buffer_at c.bdindex h in
      let (d, ed) = entry_at c.bdindex h in ground (arith, eb, ed)

  begin_wait-ne-none : c.bdindex < buffer_count → begin_wait c ≢ none
  unfolding begin_wait
  begin_wait-ne-none h = let (b, eb) = buffer_at c.bdindex h in ground (arith, eb)

  end_wait-ne-none : (w : Wait) (s : DmaStatus) → c.bdindex < buffer_count → end_wait w s c ≢ none
  unfolding end_wait
  end_wait-ne-none w s h =
      let (b, eb) = buffer_at c.bdindex h in
      let (d, ed) = entry_at c.bdindex h in ground (arith, eb, ed)

  pub sync_callback-ne-none : (i : ℕ) → i < buffer_count → sync_callback i c ≢ none
  unfolding sync_callback
  sync_callback-ne-none i h = let (d, ed) = entry_at i h in ground (arith, ed)

interrupts-ne-none :
    (xs : List Interrupt) (c : Channel) → IsValid c → InRange xs → interrupts xs c ≢ none
unfolding interrupts interrupt
interrupts-ne-none [] c v r = ground arith
interrupts-ne-none (irq ∷ xs) c v r =
    interrupts-ne-none xs (irq_handler c)
      (SameShape-IsValid (interrupt-SameBuffers irq c refl).shape v) r
interrupts-ne-none (callback i ∷ xs) c v r =
    let (m, e) = some_of_ne_none (sync_callback i c) (sync_callback-ne-none v i r.0) in
    rw e (interrupts-ne-none xs m (SameShape-IsValid (sync_callback-SameBuffers i c e).shape v) r.1)

pub begin_wait-index :
    (c : Channel) {c' : Channel} → begin_wait c ≡ some c' → c'.bdindex ≡ c.bdindex
unfolding begin_wait
begin_wait-index c e = ground arith

pub start_transfer-index :
    (a : Submit) (c : Channel) {c' : Channel}
    → start_transfer a c ≡ some c'
    → c'.bdindex ≡ c.bdindex
unfolding start_transfer submit_transfer
start_transfer-index a c e = ground arith

pub wait_for_transfer-ne-none :
    (f : Finish) (c : Channel)
    → IsValid c
    → InRange f.meanwhile
    → c.bdindex < buffer_count
    → wait_for_transfer f c ≢ none
unfolding wait_for_transfer
wait_for_transfer-ne-none f c v r h =
    let (c1, e1) = some_of_ne_none (begin_wait c) (begin_wait-ne-none v h) in
    let v1 = SameShape-IsValid (begin_wait-SameShape c e1) v in
    let (c2, e2) =
      some_of_ne_none (interrupts f.meanwhile c1) (interrupts-ne-none f.meanwhile c1 v1 r) in
    let s = interrupts-SameBuffers f.meanwhile c1 e2 in
    rw (e1, e2)
      (end_wait-ne-none (SameShape-IsValid s.shape v1) f.wait f.status
        (omega (arith, begin_wait-index c e1, s.index)))

run_command-ne-none :
    (cmd : Command) (a : Submit) (f : Finish) (c : Channel)
    → IsValid c
    → InRange f.meanwhile
    → c.bdindex < buffer_count
    → run_command cmd a f c ≢ none
unfolding run_command
run_command-ne-none start_xfer a f c v r h = start_transfer-ne-none v a h
run_command-ne-none finish_xfer a f c v r h = wait_for_transfer-ne-none f c v r h
run_command-ne-none xfer a f c v r h =
    let (c1, e1) = some_of_ne_none (start_transfer a c) (start_transfer-ne-none v a h) in
    rw e1 (
      wait_for_transfer-ne-none f c1 (SameShape-IsValid (start_transfer-SameShape a c e1) v) r
        (omega (arith, start_transfer-index a c e1)))
run_command-ne-none select a f c v r h = ground arith

-- On a valid channel, `ioctl` at an index below 32 runs every command to its end, whatever the
-- engine and the wait answer, if the completions that come meanwhile are of entries below 32: no
-- access leaves the tables, it returns 0, and the tables keep their shape.
pub ioctl-IsValid :
    (cmd : Command) (arg : ℕ) (a : Submit) (f : Finish) (c : Channel)
    → IsValid c
    → InRange f.meanwhile
    → arg % 2 ^ 32 < buffer_count
    → (c' : Channel) × (ioctl cmd arg a f (some c) ≡ some (some c', returns 0)) × IsValid c'
unfolding ioctl
ioctl-IsValid cmd arg a f c v r h =
    let c0 : Channel = record c { bdindex = arg % 2 ^ 32 } in
    let v0 : IsValid c0 = record { buffers = v.buffers; entries = v.entries } in
    let (c', e) =
      some_of_ne_none (run_command cmd a f c0) (run_command-ne-none cmd a f c0 v0 r h) in
    (c', rw e refl, SameShape-IsValid (run_command-SameShape cmd a f c0 e) v0)

start_transfer_out :
    (a : Submit) (c : Channel)
    → get_elem? c.buffer_table c.bdindex ≡ none
    → start_transfer a c ≡ none
unfolding start_transfer
start_transfer_out a c e = rw e refl

wait_for_transfer_out :
    (f : Finish) (c : Channel)
    → get_elem? c.buffer_table c.bdindex ≡ none
    → wait_for_transfer f c ≡ none
unfolding wait_for_transfer begin_wait
wait_for_transfer_out f c e = rw e refl

run_command_out :
    (cmd : Command) (a : Submit) (f : Finish) (c : Channel)
    → get_elem? c.buffer_table c.bdindex ≡ none
    → cmd ≢ select
    → run_command cmd a f c ≡ none
unfolding run_command
run_command_out start_xfer a f c e n = start_transfer_out a c e
run_command_out finish_xfer a f c e n = wait_for_transfer_out f c e
run_command_out xfer a f c e n = rw (start_transfer_out a c e) refl
run_command_out select a f c e n = absurd (n refl)

-- `ioctl` does not test its argument: at an index of 32 or more, every command that does anything
-- reads outside of the buffer table.
ioctl_out_of_range :
    (cmd : Command) (arg : ℕ) (a : Submit) (f : Finish) (c : Channel)
    → IsValid c
    → cmd ≢ select
    → buffer_count ≤ arg % 2 ^ 32
    → ioctl cmd arg a f (some c) ≡ none
unfolding ioctl
ioctl_out_of_range cmd arg a f c v n h =
    rw
      (run_command_out cmd a f (record c { bdindex = arg % 2 ^ 32 })
        (get_elem?_of_ge c.buffer_table (arg % 2 ^ 32) (omega (arith, v.buffers))) n)
      refl

-- ===== src/Dma/Runs.antt =====
-- driver/stream_dma/streamio-drv.c: any calls and interrupts in a row.
use streamio.Common.{
  ◌%◌, ◌^◌, ◌≤◌, ◌<◌, ◌≡◌, refl, ◌∙◌, true, some, List, [], ◌∷◌, ◌++◌, ◌-◌, min, take, drop,
  replicate, length, length-set, set, arith, leb, >>=-eq-some, some_of_ne_none,
}
use streamio.Dma.{
  ChannelBuffer, Channel, Submit, Finish, Wait, DmaStatus, Command, start_xfer, finish_xfer, xfer,
  select, irq, callback, start_transfer, begin_wait, end_wait, interrupts, interrupt, irq_handler,
  sync_callback, wait_for_transfer, run_command, ioctl, buffer_count, buffer_size,
}
use streamio.Dma.Files.{
  clear_statuses, local_open, release, buffer_write, Event, opens, releases, ioctls, writes,
  interrupted_by, step, run,
}
use streamio.Dma.Tables.{clear_statuses_lem}
use streamio.Dma.Inv.{IsValid, SameShape-IsValid, interrupts-SameBuffers, interrupt-SameBuffers}
use streamio.Dma.Bounds.{
  InRange, buffer_at, begin_wait-index, start_transfer-index, sync_callback-ne-none, ioctl-IsValid,
}

end_wait-index :
    (w : Wait) (s : DmaStatus) (c : Channel) {c' : Channel}
    → end_wait w s c ≡ some c'
    → c'.bdindex ≡ c.bdindex
unfolding end_wait
end_wait-index w s c e = ground arith

wait_for_transfer-index :
    (f : Finish) (c : Channel) {c' : Channel}
    → wait_for_transfer f c ≡ some c'
    → c'.bdindex ≡ c.bdindex
unfolding wait_for_transfer
wait_for_transfer-index f c e =
    let (c1, e1, r1) = >>=-eq-some (begin_wait c) _ e in
    let (c2, e2, e3) = >>=-eq-some (interrupts f.meanwhile c1) _ r1 in
    end_wait-index f.wait f.status c2 e3
    ∙ (interrupts-SameBuffers f.meanwhile c1 e2).index
    ∙ begin_wait-index c e1

run_command-index :
    (cmd : Command) (a : Submit) (f : Finish) (c : Channel) {c' : Channel}
    → run_command cmd a f c ≡ some c'
    → c'.bdindex ≡ c.bdindex
unfolding run_command
run_command-index start_xfer a f c e = start_transfer-index a c e
run_command-index finish_xfer a f c e = wait_for_transfer-index f c e
run_command-index xfer a f c e =
    let (c1, e1, e2) = >>=-eq-some (start_transfer a c) _ e in
    wait_for_transfer-index f c1 e2 ∙ start_transfer-index a c e1
run_command-index select a f c e = ground arith

-- A valid channel whose index is one of a buffer.
pub record Ready (c : Channel) : Type 0 where
  pub valid : IsValid c
  pub index : c.bdindex < buffer_count

-- A caller that keeps to the tables: its indices, its interrupts, and the size of its writes.
abbrev pub EventInRange : Event → Type 0
EventInRange (ioctls cmd arg a f) = (arg % 2 ^ 32 < buffer_count) × InRange f.meanwhile
EventInRange (writes missing bytes) = length bytes ≤ buffer_size
EventInRange (interrupted_by x) = InRange (x ∷ [])
EventInRange e = Unit {0}

abbrev pub AllInRange : List Event → Type 0
AllInRange [] = Unit {0}
AllInRange (x ∷ xs) = EventInRange x × AllInRange xs

cleared :
    (c : Channel)
    → IsValid c
    → (bs : List ChannelBuffer) × (clear_statuses buffer_count 0 c.buffer_table ≡ some bs)
      × (length bs ≡ buffer_count)
cleared c v =
    let (bs, run, same, all) =
      clear_statuses_lem buffer_count 0 c.buffer_table (omega (arith, v.buffers)) in
    (bs, run, same ∙ v.buffers)

step-Ready :
    (x : Event) (c : Channel)
    → Ready c
    → EventInRange x
    → (c' : Channel) × (step x c ≡ some c') × Ready c'
unfolding step local_open release buffer_write interrupt irq_handler
step-Ready opens c v r =
    let (bs, e, n) = cleared c v.valid in
    (
      record c { buffer_table = bs; issued = [] },
      rw e refl,
      record { valid = record { buffers = n; entries = v.valid.entries }; index = v.index },
    )
step-Ready releases c v r =
    let (bs, e, n) = cleared c v.valid in
    (
      record c { buffer_table = bs },
      rw e refl,
      record { valid = record { buffers = n; entries = v.valid.entries }; index = v.index },
    )
step-Ready (ioctls cmd arg a f) c v r =
    let (c', e, w) = ioctl-IsValid cmd arg a f c v.valid r.1 r.0 in
    let c0 : Channel = record c { bdindex = arg % 2 ^ 32 } in
    let ran : run_command cmd a f c0 ≡ some c' = unfold ioctl in ground (arith, e) in
    (
      c',
      rw e refl,
      record { valid = w; index = omega (arith, run_command-index cmd a f c0 ran, r.0) },
    )
step-Ready (writes missing bytes) c v r =
    let (b, e) = buffer_at v.valid c.bdindex v.index in
    let fits : leb (length bytes) buffer_size ≡ true = ground arith in
    let size = length bytes in
    let copied = take (size - missing) bytes ++ replicate (min missing size) 0 in
    let b' : ChannelBuffer = record b { buffer = copied ++ drop size b.buffer } in
    (
      record c { buffer_table = set c.buffer_table c.bdindex b' },
      rw (e, fits) refl,
      record {
        valid = record {
          buffers = length-set c.buffer_table c.bdindex b' ∙ v.valid.buffers;
          entries = v.valid.entries;
        };
        index = v.index;
      },
    )
step-Ready (interrupted_by irq) c v r = (
  irq_handler c,
  refl,
  record {
    valid = record { buffers = v.valid.buffers; entries = v.valid.entries };
    index = v.index;
  },
)
step-Ready (interrupted_by (callback i)) c v r =
    let (m, e) = some_of_ne_none (sync_callback i c) (sync_callback-ne-none v.valid i r.0) in
    let s = interrupt-SameBuffers (callback i) c e in
    (
      m,
      e,
      record { valid = SameShape-IsValid s.shape v.valid; index = omega (arith, s.index, v.index) },
    )

-- Any calls and interrupts whose indices and sizes keep to the tables run to their end without a
-- fault, whatever the engine and the waits answer, and leave a valid channel.
pub run-Ready :
    (xs : List Event) (c : Channel)
    → Ready c
    → AllInRange xs
    → (c' : Channel) × (run xs c ≡ some c') × Ready c'
unfolding run
run-Ready [] c v r = (c, refl, v)
run-Ready (x ∷ xs) c v r =
    let (m, e, w) = step-Ready x c v r.0 in
    let (c', e', w') = run-Ready xs m w r.1 in (c', rw e e', w')

-- ===== src/Dma/Contents.antt =====
-- The bytes of the buffers: but for a write, the driver's own code changes none of them. What the engine
-- stores while a transfer to memory runs is not part of the model.
use streamio.Common.{
  ℕ, zero, suc, ◌+◌, ◌%◌, ◌^◌, ◌≡◌, refl, ap, ◌∙◌, inl, inr, some, List, [], ◌∷◌, map, get_elem?,
  set, arith, >>=-eq-some, some-subst, Option-cases,
}
use streamio.Dma.{
  ChannelBuffer, ProxyBd, Channel, no_error, busy, queued, Submit, Cookie, accepted, refused, Wait,
  DmaStatus, Finish, Command, start_xfer, finish_xfer, xfer, select, outcome, submit_transfer,
  start_transfer, interrupts, begin_wait, end_wait, wait_for_transfer, run_command, ioctl,
  on_channel, buffer_count,
}
use streamio.Dma.Files.{
  clear_statuses, local_open, release, Event, opens, releases, ioctls, writes, interrupted_by, step,
  run,
}
use streamio.Dma.Inv.{interrupts-SameBuffers, interrupt-SameBuffers}
use streamio.Dma.Tables.{map-set}

abbrev pub bytes : List ChannelBuffer → List (List ℕ)
bytes = map (λ (b : ChannelBuffer). b.buffer)

abbrev pub contents : Channel → List (List ℕ)
contents c = bytes c.buffer_table

-- A buffer that is changed in its status or its length only.
pub bytes-set :
    (bs : List ChannelBuffer) (i : ℕ) (b b' : ChannelBuffer)
    → get_elem? bs i ≡ some b
    → b'.buffer ≡ b.buffer
    → bytes (set bs i b') ≡ bytes bs
bytes-set bs i b b' e same = map-set (λ (x : ChannelBuffer). x.buffer) bs i b b' e same

submit_transfer-contents :
    (k : Cookie) (b : ChannelBuffer) (d : ProxyBd) (c : Channel)
    → get_elem? c.buffer_table c.bdindex ≡ some b
    → contents (submit_transfer k b d c) ≡ contents c
unfolding submit_transfer
submit_transfer-contents (refused n) b d c e = refl
submit_transfer-contents (accepted n) b d c e =
    bytes-set c.buffer_table c.bdindex b (record b { status = queued }) e refl

start_transfer-contents :
    (a : Submit) (c : Channel) {c' : Channel}
    → start_transfer a c ≡ some c'
    → contents c' ≡ contents c
unfolding start_transfer
start_transfer-contents a c {c'} e =
    let (b, eb, e1) = >>=-eq-some (get_elem? c.buffer_table c.bdindex) _ e in
    let (d, ed, e2) = >>=-eq-some (get_elem? c.bdtable c.bdindex) _ e1 in
    let d' : ProxyBd = record d { sg_address = d.dma_handle; sg_length = b.length } in
    ground (arith, submit_transfer-contents a.cookie b d' c eb, e2)

begin_wait-contents :
    (c : Channel) {c' : Channel} → begin_wait c ≡ some c' → contents c' ≡ contents c
unfolding begin_wait
begin_wait-contents c e =
    let (b, eb, e1) = >>=-eq-some (get_elem? c.buffer_table c.bdindex) _ e in
    some-subst (λ (x : Channel). contents x ≡ contents c) e1
      (bytes-set c.buffer_table c.bdindex b (record b { status = busy }) eb refl)

end_wait-contents :
    (w : Wait) (s : DmaStatus) (c : Channel) {c' : Channel}
    → end_wait w s c ≡ some c'
    → contents c' ≡ contents c
unfolding end_wait
end_wait-contents w s c e =
    let (b, eb, e1) = >>=-eq-some (get_elem? c.buffer_table c.bdindex) _ e in
    let (d, ed, e2) = >>=-eq-some (get_elem? c.bdtable c.bdindex) _ e1 in
    some-subst (λ (x : Channel). contents x ≡ contents c) e2
      (bytes-set c.buffer_table c.bdindex b (record b { status = outcome w s }) eb refl)

wait_for_transfer-contents :
    (f : Finish) (c : Channel) {c' : Channel}
    → wait_for_transfer f c ≡ some c'
    → contents c' ≡ contents c
unfolding wait_for_transfer
wait_for_transfer-contents f c e =
    let (c1, e1, r1) = >>=-eq-some (begin_wait c) _ e in
    let (c2, e2, e3) = >>=-eq-some (interrupts f.meanwhile c1) _ r1 in
    end_wait-contents f.wait f.status c2 e3
    ∙ ap bytes (interrupts-SameBuffers f.meanwhile c1 e2).table
    ∙ begin_wait-contents c e1

run_command-contents :
    (cmd : Command) (a : Submit) (f : Finish) (c : Channel) {c' : Channel}
    → run_command cmd a f c ≡ some c'
    → contents c' ≡ contents c
unfolding run_command
run_command-contents start_xfer a f c e = start_transfer-contents a c e
run_command-contents finish_xfer a f c e = wait_for_transfer-contents f c e
run_command-contents xfer a f c e =
    let (c1, e1, e2) = >>=-eq-some (start_transfer a c) _ e in
    wait_for_transfer-contents f c1 e2 ∙ start_transfer-contents a c e1
run_command-contents select a f c e = some-subst (λ (x : Channel). contents x ≡ contents c) e refl

pub ioctl-contents :
    (cmd : Command) (arg : ℕ) (a : Submit) (f : Finish) (c : Channel) {c' : Channel}
    → on_channel (ioctl cmd arg a f (some c)) ≡ some c'
    → contents c' ≡ contents c
unfolding ioctl
ioctl-contents cmd arg a f c {c'} e =
    let c0 : Channel = record c { bdindex = arg % 2 ^ 32 } in
    elim (Option-cases (run_command cmd a f c0)) [
      | inl n ↦ absurd (ground arith)
      | inr (c1, e1) ↦
          let same : some c1 ≡ some c' = ground (arith, e1) in
          some-subst (λ (x : Channel). contents x ≡ contents c) same
            (run_command-contents cmd a f c0 e1)
    ]

clear_statuses-contents :
    (n i : ℕ) (bs : List ChannelBuffer) {bs' : List ChannelBuffer}
    → clear_statuses n i bs ≡ some bs'
    → bytes bs' ≡ bytes bs
unfolding clear_statuses
clear_statuses-contents zero i bs e = some-subst (λ x. bytes x ≡ bytes bs) e refl
clear_statuses-contents (suc n) i bs e =
    let (b, eb, e1) = >>=-eq-some (get_elem? bs i) _ e in
    clear_statuses-contents n (i + 1) (set bs i (record b { status = no_error })) e1
    ∙ bytes-set bs i b (record b { status = no_error }) eb refl

-- The event does not copy into a buffer.
abbrev pub IsQuiet : Event → Type 0
IsQuiet (writes missing bytes) = ⊥
IsQuiet e = Unit

abbrev pub AllQuiet : List Event → Type 0
AllQuiet [] = Unit
AllQuiet (e ∷ es) = IsQuiet e × AllQuiet es

step-contents :
    (x : Event) (c : Channel) {c' : Channel}
    → IsQuiet x
    → step x c ≡ some c'
    → contents c' ≡ contents c
unfolding step local_open release
step-contents opens c q e =
    let (bs, e1, e2) = >>=-eq-some (clear_statuses buffer_count 0 c.buffer_table) _ e in
    some-subst (λ (x : Channel). contents x ≡ contents c) e2
      (clear_statuses-contents buffer_count 0 c.buffer_table e1)
step-contents releases c q e =
    let (bs, e1, e2) = >>=-eq-some (clear_statuses buffer_count 0 c.buffer_table) _ e in
    some-subst (λ (x : Channel). contents x ≡ contents c) e2
      (clear_statuses-contents buffer_count 0 c.buffer_table e1)
step-contents (ioctls cmd arg a f) c q e = ioctl-contents cmd arg a f c e
step-contents (writes missing bs) c q e = absurd q
step-contents (interrupted_by x) c q e = ap bytes (interrupt-SameBuffers x c e).table

-- Whatever calls and interrupts come in, as long as none is a write, the driver's own code leaves every
-- byte of every buffer as it was, what the engine stores set aside.
run-contents :
    (xs : List Event) (c : Channel) {c' : Channel}
    → AllQuiet xs
    → run xs c ≡ some c'
    → contents c' ≡ contents c
unfolding run
run-contents [] c q e = some-subst (λ (x : Channel). contents x ≡ contents c) e refl
run-contents (x ∷ xs) c q e =
    let (c1, e1, e2) = >>=-eq-some (step x c) _ e in
    run-contents xs c1 q.1 e2 ∙ step-contents x c q.0 e1

-- ===== src/Dma/Credits.antt =====
-- The interrupt count by which `poll` tells that received data waits.
use streamio.Common.{
  ℕ, ◌+◌, ◌-◌, ap, ◌∙◌, ◌%◌, ◌^◌, ◌≤◌, ◌<◌, ◌≡◌, true, false, Bool, some, List, [], ◌∷◌, arith,
  if◌then◌else◌, >>=-eq-some,
}
use streamio.Dma.{
  Channel, ProxyStatus, no_error, Submit, Interrupt, irq, callback, Wait, DmaStatus, Finish,
  Command, start_xfer, finish_xfer, xfer, select, outcome, takes_credit, dec_if_positive,
  start_transfer, submit_transfer, irq_handler, sync_callback, interrupt, interrupts, begin_wait,
  end_wait, wait_for_transfer, run_command, ioctl,
}
use streamio.Dma.Files.{
  local_open, release, buffer_write, Event, opens, releases, ioctls, writes, interrupted_by, step,
  run, dma_proxy_poll,
}

-- How many interrupt requests an event brings.
abbrev raised : List Interrupt → ℕ
raised [] = 0
raised (irq ∷ xs) = raised xs + 1
raised (callback i ∷ xs) = raised xs

abbrev pub waits : Command → Bool
waits finish_xfer = true
waits xfer = true
waits c = false

abbrev event_irqs : Event → ℕ
event_irqs (ioctls cmd arg a f) = if waits cmd then raised f.meanwhile else 0
event_irqs (interrupted_by x) = raised (x ∷ [])
event_irqs e = 0

abbrev pub irqs : List Event → ℕ
irqs [] = 0
irqs (x ∷ xs) = event_irqs x + irqs xs

abbrev is_done : ProxyStatus → ℕ
is_done no_error = 1
is_done s = 0

-- How many waits of an event end with NO_ERROR.
abbrev event_finished : Event → ℕ
event_finished (ioctls cmd arg a f) = if waits cmd then is_done (outcome f.wait f.status) else 0
event_finished e = 0

abbrev pub finished : List Event → ℕ
finished [] = 0
finished (x ∷ xs) = event_finished x + finished xs

interrupts_count :
    (xs : List Interrupt) (c : Channel) {c' : Channel}
    → interrupts xs c ≡ some c'
    → c.wait_transfer_count + raised xs < 2 ^ 31
    → c'.wait_transfer_count ≡ c.wait_transfer_count + raised xs
unfolding interrupts interrupt irq_handler sync_callback
interrupts_count [] c e h = ground arith
interrupts_count (irq ∷ xs) c e h =
    omega (arith, interrupts_count xs (irq_handler c) e (omega arith))
interrupts_count (callback i ∷ xs) c e h =
    let (m, e1, e2) = >>=-eq-some (sync_callback i c) (interrupts xs) e in
    let same : m.wait_transfer_count ≡ c.wait_transfer_count = ground arith in
    omega (arith, same, interrupts_count xs m e2 (omega (arith, same)))

start_count :
    (a : Submit) (c : Channel) {c' : Channel}
    → start_transfer a c ≡ some c'
    → c'.wait_transfer_count ≡ c.wait_transfer_count
unfolding start_transfer submit_transfer
start_count a c e = ground arith

begin_count :
    (c : Channel) {c' : Channel}
    → begin_wait c ≡ some c'
    → c'.wait_transfer_count ≡ c.wait_transfer_count
unfolding begin_wait
begin_count c e = ground arith

end_count :
    (w : Wait) (s : DmaStatus) (c : Channel) {c' : Channel}
    → end_wait w s c ≡ some c'
    → c'.wait_transfer_count ≡ takes_credit (outcome w s) c.wait_transfer_count
unfolding end_wait
end_count w s c e = ground arith

-- A count of pending interrupts after `n` more came in and then `k` were taken, as far as there were
-- any.
record Credits (before n k after : ℕ) : Type 0 where
  exact : after ≡ before + n - k

-- The count that events leave, by what each brings and takes.
abbrev pub balance : List Event → ℕ → ℕ
balance [] n = n
balance (x ∷ xs) n = balance xs (n + event_irqs x - event_finished x)

takes_credit-Credits :
    (s : ProxyStatus) (m : ℕ) → m < 2 ^ 31 → Credits m 0 (is_done s) (takes_credit s m)
unfolding dec_if_positive
takes_credit-Credits no_error m h = ground arith
takes_credit-Credits s m h = ground arith

wait_count :
    (f : Finish) (c : Channel) {c' : Channel}
    → wait_for_transfer f c ≡ some c'
    → c.wait_transfer_count + raised f.meanwhile < 2 ^ 31
    → Credits c.wait_transfer_count
        (raised f.meanwhile)
        (is_done (outcome f.wait f.status))
        c'.wait_transfer_count
unfolding wait_for_transfer
wait_count f c {c'} e h =
    let (c1, e1, r1) = >>=-eq-some (begin_wait c) _ e in
    let (c2, e2, e3) = >>=-eq-some (interrupts f.meanwhile c1) _ r1 in
    let p1 = begin_count c e1 in
    let p2 = interrupts_count f.meanwhile c1 e2 (omega (arith, p1)) in
    let p3 = end_count f.wait f.status c2 e3 in
    let k =
      takes_credit-Credits (outcome f.wait f.status) c2.wait_transfer_count
        (omega (arith, p1, p2)) in
    omega (arith, p1, p2, p3, k)

command_count :
    (cmd : Command) (a : Submit) (f : Finish) (c : Channel) {c' : Channel} (arg : ℕ)
    → run_command cmd a f c ≡ some c'
    → c.wait_transfer_count + event_irqs (ioctls cmd arg a f) < 2 ^ 31
    → Credits c.wait_transfer_count
        (event_irqs (ioctls cmd arg a f))
        (event_finished (ioctls cmd arg a f))
        c'.wait_transfer_count
unfolding run_command
command_count start_xfer a f c arg e h = omega (arith, start_count a c e)
command_count finish_xfer a f c arg e h = wait_count f c e h
command_count xfer a f c arg e h =
    let (c1, e1, e2) = >>=-eq-some (start_transfer a c) _ e in
    let p = start_count a c e1 in
    let k = wait_count f c1 e2 (omega (arith, p)) in omega (arith, p, k)
command_count select a f c arg e h = ground arith

step_count :
    (x : Event) (c : Channel) {c' : Channel}
    → step x c ≡ some c'
    → c.wait_transfer_count + event_irqs x < 2 ^ 31
    → Credits c.wait_transfer_count (event_irqs x) (event_finished x) c'.wait_transfer_count
unfolding step local_open release ioctl buffer_write interrupt irq_handler sync_callback
step_count opens c e h = ground arith
step_count releases c e h = ground arith
step_count (ioctls cmd arg a f) c {c'} e h =
    let c0 : Channel = record c { bdindex = arg % 2 ^ 32 } in
    let r : run_command cmd a f c0 ≡ some c' = ground arith in command_count cmd a f c0 arg r h
step_count (writes missing bytes) c e h = ground arith
step_count (interrupted_by irq) c e h = ground arith
step_count (interrupted_by (callback i)) c e h = ground arith

-- Over any calls and interrupts that run without a fault, while the count stays in its `int`: each
-- event adds its interrupt requests to the count, and then each wait that ends with NO_ERROR takes one,
-- if there is one. So the count after them is at most the count before and the requests that
-- came in, and it is less than that by at most the waits that ended with NO_ERROR.
pub run-Credits :
    (xs : List Event) (c : Channel) {c' : Channel}
    → run xs c ≡ some c'
    → c.wait_transfer_count + irqs xs < 2 ^ 31
    → (c'.wait_transfer_count ≡ balance xs c.wait_transfer_count)
      × (c'.wait_transfer_count ≤ c.wait_transfer_count + irqs xs)
      × (c.wait_transfer_count + irqs xs ≤ c'.wait_transfer_count + finished xs)
unfolding run
run-Credits [] c {c'} e h =
    let same : c'.wait_transfer_count ≡ c.wait_transfer_count = ground arith in
    (same, omega (arith, same), omega (arith, same))
run-Credits (x ∷ xs) c e h =
    let (m, e1, e2) = >>=-eq-some (step x c) (run xs) e in
    let k = step_count x c e1 (omega arith) in
    let step_exact = k.exact in
    let (exact, upper, lower) = run-Credits xs m e2 (omega (arith, step_exact)) in
    (
      exact ∙ ap (balance xs) step_exact,
      omega (arith, step_exact, upper),
      omega (arith, step_exact, lower),
    )

-- From a count of 0 on, `poll` reports the channel readable after any calls and interrupts that run
-- without a fault and of which more were interrupt requests than waits that ended with NO_ERROR,
-- while the count stays in its `int`.
dma_proxy_poll-readable :
    (xs : List Event) (c : Channel) {c' : Channel}
    → run xs c ≡ some c'
    → c.wait_transfer_count ≡ 0
    → irqs xs < 2 ^ 31
    → finished xs < irqs xs
    → dma_proxy_poll c' ≡ (true, true)
unfolding dma_proxy_poll
dma_proxy_poll-readable xs c e z h lt = ground (arith, run-Credits xs c e (omega arith))

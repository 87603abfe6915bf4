-- ===== src/Server/Task.antt =====
-- `start_task` of userspace/io_backend/src/io_backend.c: the frames of one connection.
use streamio.Common.{
  append-nil, drop-length, true, [], ℕ, zero, suc, ◌+◌, ◌<◌, ◌≤◌, ◌≡◌, refl, ap, ◌∙◌, inl, inr,
  Bool, false, some, List, ◌++◌, length, length-append, drop, get_elem?, arith, ltb, ◌==◌, ◌>>=◌,
  >>=-eq-some, some-subst, Bool-cases, Option-cases, ==→ne, take, from_le,
}
use mathlib.Core.Path.{subst}
use streamio.Remote.{Socket, closed, arrives, recv, recv_front}
use streamio.Remote.Repack.{content}
use streamio.Remote.Download.{recv-Receives}
use streamio.Server.{
  op_of, Slot, null, live, freed, Server, Handled, close_slot, close_context, handle_context,
  op_type, dev_type, frame_op_open, frame_op_clos, frame_dev_ctx, max_context_count, Ending, ended,
  faulted, context_loop, start_task,
}
use streamio.Server.Slots.{ServerIsValid, open_context-Opened, handle_context-ServerIsValid}

close_slot-socket :
    (i : ℕ) (slot : Slot) (sv : Server) (s : Socket) {h : Handled}
    → close_slot i slot sv s ≡ some h
    → h.socket ≡ s
unfolding close_slot
close_slot-socket i null sv s e = ground arith
close_slot-socket i live sv s e = ground arith
close_slot-socket i freed sv s e = ground arith

close_context-socket :
    (junk : List ℕ) (sv : Server) (s : Socket) {h : Handled}
    → close_context junk sv s ≡ some h
    → h.socket ≡ (recv 12 s).1
unfolding close_context
close_context-socket junk sv s {h} e =
    let bs = (recv 12 s).0 in
    let s' = (recv 12 s).1 in
    let id = from_le (take 4 (drop 8 (bs ++ drop (length bs) junk))) in
    elim (Bool-cases (ltb id max_context_count)) [
      | inl y ↦
          let run : (get_elem? sv.opened_ctx_list id >>= λ slot. close_slot id slot sv s')
              ≡ some h =
            ground arith in
          let (slot, e1, e2) = >>=-eq-some (get_elem? sv.opened_ctx_list id) _ run in
          close_slot-socket id slot sv s' e2
      | inr n ↦ ground arith
    ]

-- The bytes that a receive leaves are no more than there were, and fewer when it gave some.
recv-content :
    (n : ℕ) (s : Socket) → length (content s) ≡ length (recv n s).0 + length (content (recv n s).1)
recv-content n s =
    ap length (recv-Receives n s).taken ∙ length-append (recv n s).0 (content (recv n s).1)

handle_context-content :
    (sent : Bool) (junk frame : List ℕ) (sv : Server) (s : Socket) {h : Handled}
    → ServerIsValid sv
    → handle_context sent junk frame sv s ≡ some h
    → length (content h.socket) ≤ length (content s)
unfolding handle_context
handle_context-content sent junk frame sv s {h} v e =
    let (o, eo, same, f) = open_context-Opened sent sv s v in
    elim (Bool-cases (op_type frame == frame_op_open)) [
      | inl y ↦
          let run : some o ≡ some h = ground (arith, eo) in
          some-subst (λ (k : Handled). length (content k.socket) ≤ length (content s)) run
            (rw same (omega arith))
      | inr n ↦ elim (Bool-cases (op_type frame == frame_op_clos)) [
        | inl y ↦
            let run : close_context junk sv s ≡ some h = ground arith in
            rw (close_context-socket junk sv s run) (omega (arith, recv-content 12 s))
        | inr m ↦
            let run : some (record { server = sv; socket = s; success = false }) ≡ some h =
              ground arith in
            some-subst (λ (k : Handled). length (content k.socket) ≤ length (content s)) run
              (omega arith)
      ]
    ]

-- The task comes to its end, or closes a context that was freed.
pub data Returns : Ending → Type 0 where
  closes_twice : {r : Ending} → r ≡ faulted → Returns r
  returned : (sv : Server) {r : Ending} → r ≡ ended sv → ServerIsValid sv → Returns r

context_loop-Returns :
    (fuel : ℕ) (sent : ℕ → Bool) (junk frame : List ℕ) (sv : Server) (s : Socket)
    → ServerIsValid sv
    → length (content s) < fuel
    → Returns (context_loop fuel sent junk frame sv s)
unfolding context_loop
context_loop-Returns zero sent junk frame sv s v lt = absurd (omega arith)
context_loop-Returns (suc fuel) sent junk frame sv s v lt =
    elim (Option-cases (handle_context (sent 0) junk frame sv s)) [
      | inl n ↦ rw (n, context_loop) (closes_twice refl)
      | inr (h, e) ↦
          let valid = (handle_context-ServerIsValid (sent 0) junk frame sv s v e).0 in
          let shrinks = handle_context-content (sent 0) junk frame sv s v e in
          let bs = (recv 8 h.socket).0 in
          let s' = (recv 8 h.socket).1 in
          rw (e, context_loop)
            (elim (Bool-cases h.success) [
              | inr fails ↦ rw fails (returned h.server refl valid)
              | inl goes ↦ elim (Bool-cases (length bs == 0)) [
                | inl last ↦ rw (goes, last) (returned h.server refl valid)
                | inr more ↦
                    rw (goes, more)
                      (context_loop-Returns fuel (λ k. sent (suc k)) junk
                        (bs ++ drop (length bs) frame) h.server s' valid
                        (omega (arith, shrinks, recv-content 8 h.socket, ==→ne (length bs) 0 more)))
              ]
            ])
    ]

-- A task that runs alone, with more rounds than its client sends bytes, does not run out of them: whatever
-- the client sends, however cut, and whichever replies go out, the task returns with a valid list of
-- contexts, or it closes a freed context.
pub start_task-Returns :
    (fuel : ℕ) (sent : ℕ → Bool) (junk unset : List ℕ) (sv : Server) (s : Socket)
    → ServerIsValid sv
    → length (content s) < fuel
    → Returns (start_task fuel sent junk unset sv s)
unfolding start_task
start_task-Returns fuel sent junk unset sv s v lt =
    let bs = (recv 8 s).0 in
    let frame = bs ++ drop (length bs) unset in
    elim (Bool-cases (dev_type frame == frame_dev_ctx)) [
      | inl y ↦ rw y (context_loop-Returns fuel sent junk frame sv s v lt)
      | inr n ↦ rw n (returned sv refl v)
    ]

-- A round of an OPEN whose reply goes out, while fewer than four ids were handed out.
open_round :
    (junk frame : List ℕ) (sv : Server) (s : Socket)
    → ServerIsValid sv
    → length sv.told < 4
    → op_of frame ≡ 0
    → (h : Handled) × (handle_context true junk frame sv s ≡ some h)
      × (h.socket ≡ s)
      × (h.success ≡ true)
      × ServerIsValid h.server
      × (length h.server.told ≡ length sv.told + 1)
unfolding handle_context
open_round junk frame sv s v lt op =
    let (h, e, same, o) = open_context-Opened true sv s v in
    let opens : (op_type frame == frame_op_open) ≡ true = rw op refl in
    let good : h.success ≡ true = ground (arith, o.success) in
    (h, rw (opens, e) refl, same, good, o.valid, ground (arith, o.told, good))

module _ (frame : List ℕ) (len : length frame ≡ 8) where
  recv-frame : recv 8 (arrives frame closed) ≡ (frame, arrives [] closed)
  recv-frame =
      subst (λ n. recv n (arrives frame closed) ≡ (frame, arrives [] closed)) len
        (subst (λ t. recv (length frame) (arrives t closed) ≡ (frame, arrives [] closed))
          (append-nil frame) (recv_front frame [] closed (omega (arith, len))))

  -- The frame takes the whole of the eight bytes into which it is received.
  overwrites : (old : List ℕ) → length old ≡ 8 → frame ++ drop 8 old ≡ frame
  overwrites old e =
      let gone : drop 8 old ≡ [] = subst (λ n. drop n old ≡ []) e (drop-length old) in
      ap (◌++◌ frame) gone ∙ append-nil frame

-- A client that sends one frame, an OPEN, and closes the connection gets two contexts, if two ids
-- are left and the replies go out: the frame that the task peeks at is received and handled again.
pub start_task-open_twice :
    (fuel : ℕ) (junk unset frame : List ℕ) (sv : Server)
    → ServerIsValid sv
    → length sv.told ≤ 2
    → length unset ≡ 8
    → length frame ≡ 8
    → op_of frame ≡ 0
    → (sv' : Server) × (start_task (suc (suc fuel)) (λ k. true) junk unset sv (arrives frame closed)
        ≡ ended sv')
      × (length sv'.told ≡ length sv.told + 2)
unfolding start_task context_loop
start_task-open_twice fuel junk unset frame sv v lt lu lf op =
    let (h1, e1, s1, g1, v1, t1) =
      open_round junk frame sv (arrives frame closed) v (omega arith) op in
    let (h2, e2, s2, g2, v2, t2) =
      open_round junk frame h1.server (arrives [] closed) v1 (omega (arith, t1)) op in
    let context : (dev_type frame == frame_dev_ctx) ≡ true = rw op refl in
    let none_left : recv 8 (arrives [] closed) ≡ ([], closed) = unfold recv in refl in
    (
      h2.server,
      rw
          (
            recv-frame frame lf,
            lf,
            overwrites frame lf unset lu,
            context,
            context_loop,
            e1,
            g1,
            s1,
            recv-frame frame lf,
            lf,
            overwrites frame lf unset lu,
            overwrites frame lf frame lf,
            e2,
            g2,
            s2,
            none_left,
          )
          refl,
      omega (arith, t1, t2),
    )

-- ===== src/Context/Close.antt =====
-- A context from its creation to its close.
use streamio.Common.{
  ℕ, zero, suc, ◌+◌, ◌≡◌, refl, sym, ap, ◌∙◌, inl, inr, true, false, Option, none, some, List, [],
  ◌∷◌, ◌++◌, map, append-nil, append_assoc, length, length-append, take, drop, ltb, arith,
  if◌then◌else◌, ◌>>=◌, Bool-cases,
}
use streamio.Context.{
  Device, Context, max_device, Call, free_device, free_devices, free_context, io_create_context,
  add_device, close_device, close_devices, io_close_context,
}
use streamio.Context.Refine.{slots, Holds, push, io_append_device-push, io_count_devices-Holds}

close_devices-slots :
    (ds : List Device) (log : List Call)
    → close_devices (slots ds) log ≡ some (log ++ map close_device ds)
unfolding close_devices
close_devices-slots [] log = ap some (sym (append-nil log))
close_devices-slots (d ∷ ds) log =
    close_devices-slots ds (log ++ (close_device d ∷ []))
    ∙ ap some (append_assoc log (close_device d ∷ []) (map close_device ds))

-- Closing a context that holds `ds` closes each of them once, in the order in which they were added,
-- and then frees the array and the context, if the backend has set that up.
io_close_context-Holds :
    (ctx : Context) (ds : List Device)
    → Holds ctx ds
    → io_close_context ctx
      ≡ some (
          ctx.log
          ++ (map close_device ds
              ++ (if ctx.post_close then free_devices ∷ free_context ∷ [] else [])))
unfolding io_close_context
io_close_context-Holds ctx ds h = elim (Bool-cases ctx.post_close) [
  | inl y ↦ ground (
    arith,
    h.devices,
    io_count_devices-Holds ctx ds h,
    close_devices-slots ds ctx.log,
    append_assoc ctx.log (map close_device ds) (free_devices ∷ free_context ∷ []),
  )
  | inr n ↦ ground (
    arith,
    h.devices,
    io_count_devices-Holds ctx ds h,
    close_devices-slots ds ctx.log,
    append-nil (map close_device ds),
  )
]

-- A program adds devices one after the other; every open succeeds.
pub add_all : List Device → Context → Option Context
add_all [] ctx = some ctx
add_all (d ∷ ds) ctx = do (ctx', r) ← add_device d.kind d.path (some d.id) ctx; add_all ds ctx'

-- What one addition does to a context that holds `ds`.
added :
    (ctx : Context) (ds : List Device) (d : Device)
    → Holds ctx ds
    → (ctx' : Context) × (r : Option Device) × (add_device d.kind d.path (some d.id) ctx
        ≡ some (ctx', r))
      × Holds ctx' (push ds d).0
      × (ctx'.log ≡ ctx.log ++ (if ltb (length ds) max_device then [] else free_device d ∷ []))
      × (ctx'.post_close ≡ ctx.post_close)
      × (ctx'.arrays ≡ (if ltb (length ds) max_device then ctx.arrays else ctx.arrays + 1))
unfolding add_device push
added ctx ds d h =
    let (c, e, k, l, p, a) = io_append_device-push ctx ds d h in
    elim (Bool-cases (ltb (length ds) max_device)) [
      | inl room ↦ (c, some d, ground arith, ground arith, ground (arith, append-nil ctx.log), p, a)
      | inr full ↦ (
        record c { log = c.log ++ (free_device d ∷ []) },
        none,
        ground arith,
        record { devices = k.devices; bounded = k.bounded },
        ground arith,
        p,
        a,
      )
    ]

added-run :
    (ctx ctx' : Context) (d : Device) (ds : List Device) (r : Option Device)
    → add_device d.kind d.path (some d.id) ctx ≡ some (ctx', r)
    → add_all (d ∷ ds) ctx ≡ add_all ds ctx'
unfolding add_all
added-run ctx ctx' d ds r e = rw e refl

-- With room for `k` more devices the first `k` stay, and the others are freed.
add_all_lem :
    (k : ℕ) (new : List Device) (ctx : Context) (ds : List Device)
    → Holds ctx ds
    → length ds + k ≡ max_device
    → (ctx' : Context) × (add_all new ctx ≡ some ctx')
      × Holds ctx' (ds ++ take k new)
      × (ctx'.log ≡ ctx.log ++ map free_device (drop k new))
      × (ctx'.post_close ≡ ctx.post_close)
      × (ctx'.arrays ≡ ctx.arrays + length (drop k new))
add_all_lem zero [] ctx ds h e =
    (ctx, unfold add_all in refl, rw (append-nil ds) h, sym (append-nil ctx.log), refl, omega arith)
add_all_lem (suc k) [] ctx ds h e =
    (ctx, unfold add_all in refl, rw (append-nil ds) h, sym (append-nil ctx.log), refl, omega arith)
add_all_lem zero (d ∷ new) ctx ds h e =
    let (c, r, run, k, l, p, a) = added ctx ds d h in
    let full : ltb (length ds) max_device ≡ false = ground arith in
    let same : (push ds d).0 ≡ ds = unfold push in ground arith in
    let (c', run', k', l', p', a') = add_all_lem zero new c ds (rw same at k) e in
    (
      c',
      added-run ctx c d new r run ∙ run',
      k',
      ground (arith, l', l, append_assoc ctx.log (free_device d ∷ []) (map free_device new)),
      p' ∙ p,
      ground (arith, a, a'),
    )
add_all_lem (suc k) (d ∷ new) ctx ds h e =
    let (c, r, run, kept, l, p, a) = added ctx ds d h in
    let room : ltb (length ds) max_device ≡ true = ground arith in
    let grown : (push ds d).0 ≡ ds ++ (d ∷ []) = unfold push in ground arith in
    let (c', run', k', l', p', a') =
      add_all_lem k new c (ds ++ (d ∷ [])) (rw grown at kept)
        (omega (arith, length-append ds (d ∷ []))) in
    (
      c',
      added-run ctx c d new r run ∙ run',
      rw (append_assoc ds (d ∷ []) (take k new)) at k',
      ground (arith, l', l, append-nil ctx.log),
      p' ∙ p,
      ground (arith, a, a'),
    )

-- A program that adds devices to a new context, every open of which succeeds, and closes it: the first
-- four are closed, each once and in order, every further one was freed at once when it was added, and
-- the context's array and the context are freed last; for every further device an array is lost. No
-- step reads past the array.
pub add_all-close :
    (new : List Device)
    → (ctx : Context) × (add_all new io_create_context ≡ some ctx)
      × (io_close_context ctx
          ≡ some (
              map free_device (drop max_device new)
              ++ (map close_device (take max_device new) ++ (free_devices ∷ free_context ∷ []))))
      × (ctx.arrays ≡ 1 + length (drop max_device new))
unfolding io_create_context
add_all-close new =
    let (c, run, h, l, p, a) =
      add_all_lem max_device new io_create_context []
        (record { devices = refl; bounded = omega arith }) refl in
    (c, run, io_close_context-Holds c (take max_device new) h ∙ ground (arith, l, p), a)

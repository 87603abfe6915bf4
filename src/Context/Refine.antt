-- ===== src/Context/Refine.antt =====
-- A context is a list of at most four devices.
use streamio.Common.{
  ℕ, suc, ◌+◌, ◌≤◌, ◌≡◌, refl, sym, ap, ap₂, ◌∙◌, inl, inr, Option, none, some, List, [], ◌∷◌, ◌++◌,
  map, append_assoc, length, length-append, length-map, length-replicate, get_elem?, set,
  set-append, get_elem?-append, replicate, replicate-add, ltb, arith, if◌then◌else◌, Bool-cases,
}
use streamio.Context.{
  Device, Context, max_device, count_from, io_count_devices, copy_devices, io_append_device,
}

-- The array that holds the devices `ds`.
abbrev pub slots : List Device → List (Option Device)
slots ds = map some ds ++ (none ∷ [])

-- The context holds `ds`, within the limit.
pub record Holds (ctx : Context) (ds : List Device) : Type 0 where
  pub devices : ctx.devices ≡ slots ds
  pub bounded : length ds ≤ max_device

-- Specification: a bounded list.
unfoldable pub push : List Device → Device → List Device × Option ℕ
push ds d =
    if ltb (length ds) max_device then (ds ++ (d ∷ []), some (length ds + 1)) else (ds, none)

count_from-slots : (ds : List Device) (i : ℕ) → count_from (slots ds) i ≡ some (i + length ds)
unfolding count_from
count_from-slots [] i = ap some (omega arith)
count_from-slots (d ∷ ds) i = count_from-slots ds (i + 1) ∙ ap some (omega arith)

pub io_count_devices-Holds :
    (ctx : Context) (ds : List Device) → Holds ctx ds → io_count_devices ctx ≡ some (length ds)
unfolding io_count_devices
io_count_devices-Holds ctx ds h = rw h.devices (count_from-slots ds 0 ∙ ap some (omega arith))

abbrev Slots : Type 0
Slots = List (Option Device)

copy_devices-suc :
    (n i : ℕ) (old new : Slots) (d : Option Device)
    → get_elem? old i ≡ some d
    → copy_devices (suc n) i old new ≡ copy_devices n (i + 1) old (set new i d)
unfolding copy_devices
copy_devices-suc n i old new d e = rw e refl

-- The loop puts what is left of the old array in the place of as many slots of the new one.
copy_devices-append :
    (pre rest tail fill rem : Slots) (i : ℕ)
    → length pre ≡ i
    → length fill ≡ length rest
    → copy_devices (length rest) i (pre ++ (rest ++ tail)) (pre ++ (fill ++ rem))
      ≡ some (pre ++ (rest ++ rem))
copy_devices-append pre [] tail [] rem i e l = unfold copy_devices in refl
copy_devices-append pre [] tail (y ∷ fill) rem i e l = absurd (omega arith)
copy_devices-append pre (x ∷ rest) tail [] rem i e l = absurd (omega arith)
copy_devices-append pre (x ∷ rest) tail (y ∷ fill) rem i e l =
    let at : get_elem? (pre ++ (x ∷ (rest ++ tail))) i ≡ some x =
      rw (← e) (get_elem?-append pre (rest ++ tail) x) in
    let put : set (pre ++ (y ∷ (fill ++ rem))) i x ≡ pre ++ (x ∷ (fill ++ rem)) =
      rw (← e) (set-append pre (fill ++ rem) y x) in
    copy_devices-suc (length rest) i _ _ x at
    ∙ ap₂ (copy_devices (length rest) (i + 1)) (sym (append_assoc pre (x ∷ []) (rest ++ tail)))
        (put ∙ sym (append_assoc pre (x ∷ []) (fill ++ rem)))
    ∙ copy_devices-append (pre ++ (x ∷ [])) rest tail fill rem (i + 1)
        (omega (arith, length-append pre (x ∷ []))) (omega arith)
    ∙ ap some (append_assoc pre (x ∷ []) (rest ++ rem))

-- Below the limit the new array holds the old devices and the new one.
appended :
    (xs : Slots) (n : ℕ) (d : Device)
    → length xs ≡ n
    → set (set (xs ++ (none ∷ none ∷ [])) n (some d)) (n + 1) none ≡ xs ++ (some d ∷ none ∷ [])
appended xs n d e =
    let first : set (xs ++ (none ∷ none ∷ [])) n (some d) ≡ (xs ++ (some d ∷ [])) ++ (none ∷ []) =
      rw (← e) (
        set-append xs (none ∷ []) none (some d)
        ∙ sym (append_assoc xs (some d ∷ []) (none ∷ []))) in
    let len : length (xs ++ (some d ∷ [])) ≡ n + 1 =
      omega (arith, length-append xs (some d ∷ [])) in
    rw (first, ← len)
      (set-append (xs ++ (some d ∷ [])) [] none none ∙ append_assoc xs (some d ∷ []) (none ∷ []))

slots-push :
    (ds : List Device) (d : Device) → slots (ds ++ (d ∷ [])) ≡ map some ds ++ (some d ∷ none ∷ [])
slots-push [] d = refl
slots-push (x ∷ ds) d = ap (◌∷◌ (some x)) (slots-push ds d)

copied :
    (ds : List Device)
    → copy_devices (length ds) 0 (slots ds) (replicate (length ds + 2) none)
      ≡ some (map some ds ++ (none ∷ none ∷ []))
copied ds =
    let len : length (map {B = Option Device} some ds) ≡ length ds = length-map some ds in
    ap₂ (λ n new. copy_devices n 0 (slots ds) new) (sym len) (replicate-add (length ds) 2 none)
    ∙ copy_devices-append [] (map some ds) (none ∷ []) (replicate (length ds) none)
        (none ∷ none ∷ []) 0 refl
        (omega (arith, len, length-replicate {A = Option Device} (length ds) none))

-- `io_append_device` on a context that holds `ds` does what `push` does to `ds`: below four devices
-- the context holds the new one behind them and their number is returned, and at four it returns -1
-- and the context holds what it did, but the array that was allocated for a new one is lost. It never
-- reads past the array, and logs nothing.
pub io_append_device-push :
    (ctx : Context) (ds : List Device) (d : Device)
    → Holds ctx ds
    → (ctx' : Context) × (io_append_device ctx d ≡ some (ctx', (push ds d).1))
      × Holds ctx' (push ds d).0
      × (ctx'.log ≡ ctx.log)
      × (ctx'.post_close ≡ ctx.post_close)
      × (ctx'.arrays ≡ (if ltb (length ds) max_device then ctx.arrays else ctx.arrays + 1))
unfolding io_append_device push
io_append_device-push ctx ds d h = elim (Bool-cases (ltb (length ds) max_device)) [
  | inl room ↦ (
    record ctx { devices = slots (ds ++ (d ∷ [])) },
    ground (
      arith,
      io_count_devices-Holds ctx ds h,
      h.devices,
      copied ds,
      slots-push ds d,
      appended (map some ds) (length ds) d,
      length-map {B = Option Device} some ds,
    ),
    ground (arith, length-append ds (d ∷ [])),
    refl,
    refl,
    ground arith,
  )
  | inr full ↦ (
    record ctx { arrays = ctx.arrays + 1 },
    ground (arith, io_count_devices-Holds ctx ds h),
    (let k : (push ds d).0 ≡ ds = ground arith in
        rw k (record { devices = h.devices; bounded = h.bounded })),
    refl,
    refl,
    ground arith,
  )
]

-- ===== src/Context.antt =====
-- lib/bbio/src/bbio_utils.c and bbio_core.c: a context and the devices that it holds.
-- `none` is undefined behaviour, such as the use of the null pointer that a failed open returns.
pub mod Refine
pub mod Close
mod Tests
use streamio.Common.{
  ℕ, zero, suc, ◌+◌, ◌-◌, Bool, true, false, Option, none, some, List, [], ◌∷◌, ◌++◌, length,
  get_elem?, set, replicate, ltb, leb, ◌==◌, if◌then◌else◌, ◌>>=◌,
}

abbrev pub max_device : ℕ
max_device = 4

-- `enum IO_DEVICE_TYPE`
pub data DeviceType : Type 0 where
  mapped_device stream_device : DeviceType

-- `io_device`: what the core reads and writes of it; `id` tells the allocations apart.
pub record Device : Type 0 where
  pub id : ℕ
  pub kind : DeviceType
  pub path : ℕ

-- The closes that the core asks of the backend, and its frees of devices, of the context, and of the
-- array that the context has when it is closed, in order.
pub data Call : Type 0 where
  close_stream close_mapped : Device → Call
  free_device : Device → Call
  free_devices free_context : Call

-- `io_context`: `devices` is an array of pointers that ends at the first null, here `none`.
-- `post_close` is whether `backend.post_context_close` is set, `arrays` how many arrays of pointers were
-- allocated and not freed yet.
pub record Context : Type 0 where
  pub devices : List (Option Device)
  pub post_close : Bool
  pub log : List Call
  pub arrays : ℕ

-- `io_create_context`, for the local backend
unfoldable pub io_create_context : Context
io_create_context = record { devices = none ∷ []; post_close = true; log = []; arrays = 1 }

-- while (dev[i]) i++; a read past the array is a fault.
unfoldable pub count_from : List (Option Device) → ℕ → Option ℕ
count_from [] i = none
count_from (none ∷ ds) i = some i
count_from (some d ∷ ds) i = count_from ds (i + 1)

unfoldable pub io_count_devices : Context → Option ℕ
unfolding count_from
io_count_devices ctx = count_from ctx.devices 0

-- for (i = i; rounds left; i++) new_devices[i] = ctx->devices[i];
unfoldable pub copy_devices :
    ℕ → ℕ → List (Option Device) → List (Option Device) → Option (List (Option Device))
copy_devices zero i old new = some new
copy_devices (suc n) i old new = do d ← get_elem? old i; copy_devices n (i + 1) old (set new i d)

-- The new context and the number of devices, or -1, here `none` in the pair. A new array is allocated
-- first; below the limit the old one is freed, and at it neither.
unfoldable pub io_append_device : Context → Device → Option (Context × Option ℕ)
unfolding io_count_devices
io_append_device ctx device = do
  n ← io_count_devices ctx
  let fresh = replicate (n + 2) none
  copied ← if ltb n max_device then copy_devices n 0 ctx.devices fresh else some fresh
  some (
      if ltb n max_device
      then (record ctx { devices = set (set copied n (some device)) (n + 1) none }, some (n + 1))
      else (record ctx { arrays = ctx.arrays + 1 }, none))

-- `io_add_mapped_device` and `io_add_stream_device`: `opened` is what the backend's open gives. The
-- result is the device, or NULL. The type is stored through the pointer before it is tested.
unfoldable pub add_device : DeviceType → ℕ → Option ℕ → Context → Option (Context × Option Device)
add_device kind path none ctx = none
add_device kind path (some id) ctx = do
  let device : Device = record { id = id; kind = kind; path = path }
  (ctx', r) ← io_append_device ctx device
  some (elim r [
    | some n ↦ (ctx', some device)
    | none ↦ (record ctx' { log = ctx'.log ++ (free_device device ∷ []) }, none)
  ])

unfoldable pub io_add_mapped_device : ℕ → Option ℕ → Context → Option (Context × Option Device)
io_add_mapped_device path opened ctx = add_device mapped_device path opened ctx

unfoldable pub io_add_stream_device : ℕ → Option ℕ → Context → Option (Context × Option Device)
io_add_stream_device path opened ctx = add_device stream_device path opened ctx

unfoldable pub close_device : Device → Call
close_device d = elim d.kind [ stream_device ↦ close_stream d | mapped_device ↦ close_mapped d ]

-- while ((*start_device) != NULL)
unfoldable pub close_devices : List (Option Device) → List Call → Option (List Call)
unfolding close_device
close_devices [] log = none
close_devices (none ∷ ds) log = some log
close_devices (some d ∷ ds) log = close_devices ds (log ++ (close_device d ∷ []))

-- `io_close_context`, with `io_post_context_close_local`: the calls that it makes.
unfoldable pub io_close_context : Context → Option (List Call)
io_close_context ctx = do
  n ← io_count_devices ctx
  log ← close_devices ctx.devices ctx.log
  some (if ctx.post_close then log ++ (free_devices ∷ free_context ∷ []) else log)

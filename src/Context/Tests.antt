-- ===== src/Context/Tests.antt =====
-- Contexts with devices at concrete values, lib/bbio/src/bbio_core.c and bbio_utils.c.
use streamio.Common.{
  ◌≡◌, refl, true, ◌++◌, none, some, List, [], ◌∷◌, map, take, drop, length, ◌+◌, arith,
}
use streamio.Context.{
  Device, mapped_device, stream_device, Context, max_device, io_create_context, io_append_device,
  io_close_context, close_device, free_device, free_devices, free_context,
}
use streamio.Context.Refine.{Holds, push, io_append_device-push}
use streamio.Context.Close.{add_all, add_all-close}

abbrev registers : Device
registers = record { id = 1; kind = mapped_device; path = 10 }

abbrev samples : Device
samples = record { id = 2; kind = stream_device; path = 11 }

abbrev one_device : Context
one_device = record {
  devices = some registers ∷ none ∷ [];
  post_close = true;
  log = [];
  arrays = 1;
}

one_device-Holds : Holds one_device (registers ∷ [])
one_device-Holds = record { devices = refl; bounded = omega arith }

io_append_device-push_example :
    (ctx' : Context) × (io_append_device one_device samples
      ≡ some (ctx', (push (registers ∷ []) samples).1))
    × Holds ctx' (push (registers ∷ []) samples).0
    × (ctx'.log ≡ [])
    × (ctx'.post_close ≡ one_device.post_close)
    × (ctx'.arrays ≡ 1)
io_append_device-push_example =
    io_append_device-push one_device (registers ∷ []) samples one_device-Holds

-- One device too many
abbrev five : List Device
five = registers ∷ samples ∷ registers ∷ samples ∷ registers ∷ []

add_all-close_example :
    (ctx : Context) × (add_all five io_create_context ≡ some ctx)
    × (io_close_context ctx
        ≡ some (
            map free_device (drop max_device five)
            ++ (map close_device (take max_device five) ++ (free_devices ∷ free_context ∷ []))))
    × (ctx.arrays ≡ 1 + length (drop max_device five))
add_all-close_example = add_all-close five

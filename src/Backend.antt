-- ===== src/Backend.antt =====
-- lib/include/bbio/bbio_h.h and lib/bbio/src/bbio_core.c: the operations that a backend puts into a
-- device, the calls of the core that go through them, and what a program may rely on. `S` is what
-- stands behind a device, and `none` is undefined behaviour.
pub mod Writes
pub mod Local
pub mod Net
pub mod Samples
mod Tests
use streamio.Common.{ℕ, ◌^◌, ◌<◌, ◌≡◌, ◌≢◌, Option, none, some, List, [], ◌∷◌, ◌>>=◌}
use streamio.Context.{DeviceType, mapped_device, stream_device}

-- `io_mapped_channel`
pub record MappedChannel (S : Type 0) : Type 0 where
  pub write : ℕ → ℕ → S → Option S
  pub read : ℕ → S → Option (ℕ × S)

-- `io_stream_channel`; `sync_stream` may be null. Data is named by its offset from the buffers.
pub record StreamChannel (S : Type 0) : Type 0 where
  pub write_stream : ℕ → ℕ → S → Option (S × ℕ)
  pub read_stream : ℕ → ℕ → S → Option (S × ℕ)
  pub sync_stream : Option (S → Option S)
  pub alloc_buffer : S → Option (S × Option ℕ)

-- `io_mapped_device`, the type of its `io_device` included.
pub record MappedDevice (S : Type 0) : Type 0 where
  pub kind : DeviceType
  pub ch : MappedChannel S

module _ {S : Type 0} where
  pub io_write_mapped_device : MappedDevice S → ℕ → ℕ → S → Option S
  io_write_mapped_device d addr value s = elim d.kind [
    | mapped_device ↦ d.ch.write addr value s
    | stream_device ↦ some s
  ]

  pub io_read_mapped_device : MappedDevice S → ℕ → S → Option (ℕ × S)
  io_read_mapped_device d addr s = d.ch.read addr s

  pub io_stream_get_buffer : StreamChannel S → S → Option (S × Option ℕ)
  io_stream_get_buffer ch s = ch.alloc_buffer s

  unfoldable pub io_write_stream_device : StreamChannel S → ℕ → ℕ → S → Option S
  io_write_stream_device ch offset size s = ch.write_stream offset size s >>= λ r. some r.0

  unfoldable pub io_read_stream_device : StreamChannel S → ℕ → ℕ → S → Option S
  io_read_stream_device ch offset size s = ch.read_stream offset size s >>= λ r. some r.0

  unfoldable pub io_sync_stream_device : StreamChannel S → S → Option S
  io_sync_stream_device ch s = elim ch.sync_stream [ none ↦ some s | some sync ↦ sync s ]

-- What a backend promises of its registers: below the size a write sets the register that it names
-- and no other, and a read gives the register and changes none.
pub record Registers {S : Type 0} (ch : MappedChannel S) : Type 1 where
  pub Usable : S → Type 0
  pub size : S → ℕ
  pub contents : S → ℕ → ℕ
  pub write_law :
      (addr value : ℕ) (s : S)
      → Usable s
      → addr < size s
      → addr < 2 ^ 32
      → value < 2 ^ 32
      → (s' : S) × (ch.write addr value s ≡ some s')
        × Usable s'
        × (size s' ≡ size s)
        × (contents s' addr ≡ value)
        × ((i : ℕ) → i ≢ addr → contents s' i ≡ contents s i)
  pub read_law :
      (addr : ℕ) (s : S)
      → Usable s
      → addr < size s
      → addr < 2 ^ 32
      → ch.read addr s ≡ some (contents s addr, s)

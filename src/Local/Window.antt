-- ===== src/Local/Window.antt =====
-- lib/bbio/src/bbio_backend_local.c and lib/buffer/buffer.c: mapped registers, and what opening and
-- closing a local device takes from the system and gives back.
use streamio.Common.{
  ℕ, ◌+◌, ◌-◌, ◌*◌, ◌/◌, ◌%◌, ◌^◌, ◌<◌, ◌≤◌, ◌≡◌, refl, ◌≢◌, inl, inr, Bool-cases, Option, none,
  some, List, [], length, get_elem?, get_elem?_of_lt, get_elem?-set_self, get_elem?-set_ne, set,
  arith, ltb, if◌then◌else◌, ◌>>=◌,
}
use streamio.Dma.{Channel, buffer_count, sizeof_channel_buffer}
use streamio.Local.{LocalBuffer, io_local_buffer_init}

-- `ch.start` and `ch.end` of a mapped device: `size` registers from the start on. `memory` is what
-- the mapping reaches, whole pages, so it may be longer.
pub record Window : Type 0 where
  pub size : ℕ
  pub memory : List ℕ

-- The guard lets `addr` be `size`. `none` is an access outside of the mapping.
unfoldable pub io_write_local : ℕ → ℕ → Window → Option Window
io_write_local addr value w =
    let access = (do
      old ← get_elem? w.memory addr
      some (record w { memory = set w.memory addr (value % 2 ^ 32) })) in
    if ltb w.size addr then some w else access

unfoldable pub io_read_local : ℕ → Window → Option ℕ
io_read_local addr w = if ltb w.size addr then some (2 ^ 32 - 1) else get_elem? w.memory addr

-- What is held of the system: descriptors, heap blocks, mapped bytes.
pub record Ledger : Type 0 where
  pub fds : ℕ
  pub blocks : ℕ
  pub mapped : ℕ

abbrev pub hold : Ledger → ℕ → ℕ → ℕ → Ledger
hold h f b m = record { fds = h.fds + f; blocks = h.blocks + b; mapped = h.mapped + m }

-- What a mapping of so many bytes takes, and what its unmapping gives back: whole pages of 4096 bytes.
abbrev pub whole_pages : ℕ → ℕ
whole_pages bytes = (bytes + 4095) / 4096 * 4096

-- What `mmap` gives: an address, the null address, or MAP_FAILED, which is not null.
pub data MmapResult {ℓ} (A : Type ℓ) : Type ℓ where
  mapped : A → MmapResult A
  null failed : MmapResult A

-- `fd` is what `open` gives; a negative one is 0 here, which the test `fd < 1` treats alike. With
-- MAP_FAILED the device is made, over memory that no access reaches.
pub io_open_mapped_local : ℕ → MmapResult (List ℕ) → ℕ → Ledger → Option Window × Ledger
io_open_mapped_local fd m size h = if ltb fd 1 then (none, h) else elim m [
  | mapped memory ↦
      (some (record { size = size; memory = memory }), hold h 1 1 (whole_pages (4 * size)))
  | null ↦ (none, h)
  | failed ↦ (some (record { size = size; memory = [] }), hold h 1 1 0)
]

-- `munmap` of the whole window, `close` and `free`
pub io_close_mapped_local : Option Window → Ledger → Ledger
io_close_mapped_local none h = h
io_close_mapped_local (some w) h = record {
  fds = h.fds - 1;
  blocks = h.blocks - 1;
  mapped = h.mapped - whole_pages (4 * w.size);
}

-- `buffer_allocate`: the count is tested, the mapping is not. The result is the mapping.
unfoldable pub buffer_allocate :
    ℕ → MmapResult Channel → Ledger → Option (MmapResult Channel) × Ledger
buffer_allocate count m h = if ltb buffer_count count then (none, h) else elim m [
  | mapped c ↦ (some (mapped c), hold h 0 1 (whole_pages (sizeof_channel_buffer * count)))
  | null ↦ (some null, hold h 0 1 0)
  | failed ↦ (some failed, hold h 0 1 0)
]

-- `buffer_release` unmaps the pages of one buffer.
buffer_release : Ledger → Ledger
buffer_release h = record h {
  blocks = h.blocks - 1;
  mapped = h.mapped - whole_pages sizeof_channel_buffer;
}

-- The statuses are stored through the mapping, whatever it is: `none` where there is no memory.
unfoldable pub init_statuses : MmapResult Channel → Option LocalBuffer
init_statuses (mapped c) = io_local_buffer_init c
init_statuses null = none
init_statuses failed = none

-- `io_open_stream_local`: the device, the context of the buffers and `local_buffer_d` are allocated.
unfoldable pub io_open_stream_local :
    ℕ → MmapResult Channel → Ledger → Option (Option LocalBuffer × Ledger)
unfolding buffer_allocate init_statuses
io_open_stream_local fd m h =
    let opened = hold h 1 1 0 in
    let allocation = buffer_allocate buffer_count m opened in
    let init : Option (Option LocalBuffer × Ledger) = elim (allocation.0) [
      | none ↦ some (none, h)
      | some a ↦ init_statuses a >>= λ l. some (some l, hold (allocation.1) 0 1 0)
    ] in
    if ltb fd 1 then some (none, h) else init

-- `io_close_stream_local`
pub io_close_stream_local : Option LocalBuffer → Ledger → Ledger
unfolding buffer_release
io_close_stream_local none h = h
io_close_stream_local (some l) h =
    let h' = buffer_release h in record h' { fds = h'.fds - 1; blocks = h'.blocks - 2 }

-- A window whose mapping holds all its registers: what is written to an address below its size is
-- what is read there, no other register changes, and beyond the size a write does nothing.
io_read_local-write :
    (addr value : ℕ) (w : Window)
    → w.size ≤ length w.memory
    → value < 2 ^ 32
    → (w' : Window) × (addr ≢ w.size → io_write_local addr value w ≡ some w')
      × (addr < w.size → io_read_local addr w' ≡ some value)
      × ((other : ℕ) → other ≢ addr → io_read_local other w' ≡ io_read_local other w)
      × (w.size < addr → w' ≡ w)
unfolding io_write_local io_read_local
io_read_local-write addr value w h lt = elim (Bool-cases (ltb w.size addr)) [
  | inl out ↦ (w, λ n. ground arith, λ l. absurd (ground arith), λ o n. refl, λ l. refl)
  | inr inside ↦ (
    record w { memory = set w.memory addr (value % 2 ^ 32) },
    λ n. let (old, e) = get_elem?_of_lt w.memory addr (ground arith) in ground (arith, e),
    λ l. ground (arith, get_elem?-set_self w.memory addr (value % 2 ^ 32)),
    λ o n. ground (arith, get_elem?-set_ne w.memory addr o (value % 2 ^ 32)),
    λ l. absurd (ground arith),
  )
]

-- A mapped device that is opened and closed leaves the ledger as it was, on every answer that
-- `open` and `mmap` may give but MAP_FAILED, and so does an open that fails.
io_close_mapped_local-open :
    (fd size : ℕ) (m : MmapResult (List ℕ)) (h : Ledger)
    → m ≢ failed
    → io_close_mapped_local
        (io_open_mapped_local fd m size h).0
        (io_open_mapped_local fd m size h).1
      ≡ h
unfolding io_open_mapped_local io_close_mapped_local
io_close_mapped_local-open fd size (mapped memory) h n = ground arith
io_close_mapped_local-open fd size null h n = ground arith
io_close_mapped_local-open fd size failed h n = absurd (n refl)

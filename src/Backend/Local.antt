-- ===== src/Backend/Local.antt =====
-- The channels of the local backend, lib/bbio/src/bbio_backend_local.c.
use streamio.Common.{
  ℕ, ◌%◌, ◌^◌, ◌<◌, ◌≤◌, ◌≡◌, ◌≢◌, refl, sym, ap, ◌∙◌, Option, none, some, length, get_elem?,
  get_elem?_of_lt, get_elem?-set_self, get_elem?-set_ne, length-set, set, ◌>>=◌, arith,
}
use native.Mathlib.Decide.{ℕ_discrete}
use streamio.Local.{
  LocalBuffer, Answers, io_stream_zc_buffer_local, io_write_stream_local, io_finish_stream_local,
}
use streamio.Local.Window.{Window, io_write_local, io_read_local}
use streamio.Backend.{MappedChannel, StreamChannel, Registers}

-- `device->ch` as `io_open_mapped_local` sets it.
abbrev pub mapped_local : MappedChannel Window
mapped_local = record {
  write = io_write_local;
  read = λ addr w. io_read_local addr w >>= λ v. some (v, w);
}

-- `device->ch` as `io_open_stream_local` sets it: a read is a write. The answers are those that the
-- call meets, of a sync those of each round.
abbrev pub stream_local : Answers → (ℕ → Answers) → StreamChannel LocalBuffer
stream_local a round = record {
  write_stream = io_write_stream_local a;
  read_stream = io_write_stream_local a;
  sync_stream = some (io_finish_stream_local round);
  alloc_buffer = io_stream_zc_buffer_local a;
}

-- The mapping holds the registers, which are 32-bit words.
pub record Mapped (w : Window) : Type 0 where
  pub reach : w.size ≤ length w.memory
  pub words : (i v : ℕ) → get_elem? w.memory i ≡ some v → v < 2 ^ 32

abbrev pub register : Window → ℕ → ℕ
register w i = elim (get_elem? w.memory i) [ none ↦ 0 | some v ↦ v ]

pub register-eq : (w : Window) (i : ℕ) {v : ℕ} → get_elem? w.memory i ≡ some v → register w i ≡ v
register-eq w i e = rw (register, e) refl

abbrev pub written : ℕ → ℕ → Window → Window
written addr value w = record w { memory = set w.memory addr (value % 2 ^ 32) }

written-Mapped :
    (addr value : ℕ) (w : Window) → Mapped w → addr < w.size → Mapped (written addr value w)
written-Mapped addr value w m lt = record {
  reach = omega (arith, m.reach, length-set w.memory addr (value % 2 ^ 32));
  words = λ i v e. elim (ℕ_discrete addr i) [
    | yes same ↦ ground (arith, m.reach, get_elem?-set_self w.memory addr (value % 2 ^ 32))
    | no other ↦ m.words i v (sym (get_elem?-set_ne w.memory addr i (value % 2 ^ 32) other) ∙ e)
  ];
}

pub write_local_law :
    (addr value : ℕ) (w : Window)
    → Mapped w
    → addr < w.size
    → addr < 2 ^ 32
    → value < 2 ^ 32
    → (w' : Window) × (io_write_local addr value w ≡ some w')
      × Mapped w'
      × (w'.size ≡ w.size)
      × (register w' addr ≡ value)
      × ((i : ℕ) → i ≢ addr → register w' i ≡ register w i)
unfolding io_write_local
write_local_law addr value w m lt small word =
    let (old, e) = get_elem?_of_lt w.memory addr (omega (arith, m.reach)) in
    let same : value % 2 ^ 32 ≡ value = omega arith in
    (
      written addr value w,
      ground (arith, e),
      written-Mapped addr value w m lt,
      refl,
      register-eq (written addr value w) addr
            (get_elem?-set_self w.memory addr (value % 2 ^ 32) (omega (arith, m.reach)))
          ∙ same,
      λ i ne.
          ap (λ (o : Option ℕ). elim o [ none ↦ 0 | some v ↦ v ])
            (get_elem?-set_ne w.memory addr i (value % 2 ^ 32) (λ q. ne (sym q))),
    )

pub read_local_law :
    (addr : ℕ) (w : Window)
    → Mapped w
    → addr < w.size
    → io_read_local addr w ≡ some (register w addr)
unfolding io_read_local
read_local_law addr w m lt =
    let (v, e) = get_elem?_of_lt w.memory addr (omega (arith, m.reach)) in
    ground (arith, e, register-eq w addr e)

-- The mapped devices of the local backend keep the promise, where the mapping holds the registers.
abbrev pub local_registers : Registers mapped_local
local_registers = record {
  Usable = Mapped;
  size = λ w. w.size;
  contents = register;
  write_law = write_local_law;
  read_law = λ addr w m lt small. rw (read_local_law addr w m lt) refl;
}

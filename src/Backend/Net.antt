-- ===== src/Backend/Net.antt =====
-- The registers of a device of the network backend, lib/bbio/src/bbio_backend_net.c, with the server's
-- `client_mapped_cmd_handle` at the other end: a call sends its request, the server handles it on its
-- window, and a read takes its value from the answer.
use streamio.Common.{
  ℕ, ◌^◌, ◌<◌, ◌≡◌, refl, ap, ◌∙◌, inl, inr, Option-cases, some, List, [], append-nil, to_le,
  get_elem?_of_lt, ◌>>=◌, arith,
}
use mathlib.Core.Path.{subst}
use streamio.Local.Window.{Window, io_write_local, io_read_local}
use streamio.Remote.{Socket, arrives}
use streamio.Remote.Mapped.{
  io_write_net, io_read_net_request, io_read_net_answer, client_mapped_cmd_handle, Access,
  write_register, read_register, IsWord, request, local_access, handle-request,
  io_read_net_answer-le,
}
use streamio.Backend.{MappedChannel, Registers, io_read_mapped_device}
use streamio.Backend.Local.{
  Mapped, register, register-eq, write_local_law, read_local_law, mapped_local, local_registers,
}
use streamio.Backend.Writes.{Setting, write_all, after, AllFit, device, write_all-read}

-- The sends of a request arrive joined, in one segment, and an answer does too. `junk` is what the unset
-- locals of both ends hold, and `s` what the connections bring later.
abbrev pub mapped_net : ℕ → Socket → MappedChannel Window
mapped_net junk s = record {
  write = λ addr value w.
      client_mapped_cmd_handle junk w (arrives (io_write_net addr value) s) >>= λ r. some r.1;
  read = λ addr w. client_mapped_cmd_handle junk w (arrives (io_read_net_request addr) s) >>= λ r.
      some ((io_read_net_answer junk (arrives r.3 s)).0, r.1);
}

handle-whole :
    (junk : ℕ) (c : Access) (w : Window) (s : Socket)
    → IsWord c
    → client_mapped_cmd_handle junk w (arrives (request c) s)
      ≡ (local_access c w >>= λ r. some (1, r.0, arrives [] s, r.1))
handle-whole junk c w s h =
    subst
      (λ bytes.
        client_mapped_cmd_handle junk w (arrives bytes s)
        ≡ (local_access c w >>= λ r. some (1, r.0, arrives [] s, r.1)))
      (append-nil (request c)) (handle-request junk c w [] s h)

register_bound : (addr : ℕ) (w : Window) → Mapped w → addr < w.size → register w addr < 2 ^ 32
register_bound addr w m lt =
    let (v, e) = get_elem?_of_lt w.memory addr (omega (arith, m.reach)) in
    rw (register-eq w addr e) (m.words addr v e)

-- The program of these writes runs on the channel, and what its registers read as then.
abbrev pub Settles : MappedChannel Window → List Setting → Window → Type 0
Settles ch ws w =
    (w' : Window) × (write_all (device ch) ws w ≡ some w')
    × ((i : ℕ)
        → i < w.size
        → i < 2 ^ 32
        → io_read_mapped_device (device ch) i w' ≡ some (after ws (register w) i, w'))

module _ (junk : ℕ) (s : Socket) where
  write_net-eq :
      (addr value : ℕ) (w : Window)
      → addr < 2 ^ 32
      → value < 2 ^ 32
      → (mapped_net junk s).write addr value w ≡ io_write_local addr value w
  unfolding request local_access
  write_net-eq addr value w a v =
      ap (λ o. o >>= λ r. some r.1) (handle-whole junk (write_register addr value) w s (a, v))
      ∙ elim (Option-cases (io_write_local addr value w)) [
        | inl n ↦ rw n refl
        | inr (w', e) ↦ rw e refl
      ]

  read_net-eq :
      (addr value : ℕ) (w : Window)
      → addr < 2 ^ 32
      → value < 2 ^ 32
      → io_read_local addr w ≡ some value
      → (mapped_net junk s).read addr w ≡ some (value, w)
  unfolding request local_access
  read_net-eq addr value w a lt e =
      let bytes = append-nil (to_le 4 value) in
      let got : io_read_net_answer junk (arrives (to_le 4 value) s) ≡ (value, arrives [] s) =
        subst (λ b. io_read_net_answer junk (arrives b s) ≡ (value, arrives [] s)) bytes
          (io_read_net_answer-le junk value [] s lt) in
      ap (λ o. o >>= λ r. some ((io_read_net_answer junk (arrives r.3 s)).0, r.1))
        (handle-whole junk (read_register addr) w s a)
      ∙ rw (e, got) refl

  abbrev net_registers : Registers (mapped_net junk s)
  net_registers = record {
    Usable = Mapped;
    size = λ w. w.size;
    contents = register;
    write_law = λ addr value w m lt small word.
        let (w', e, m', n, here, others) = write_local_law addr value w m lt small word in
        (w', write_net-eq addr value w small word ∙ e, m', n, here, others);
    read_law = λ addr w m lt small.
        read_net-eq addr (register w addr) w small (register_bound addr w m lt)
          (read_local_law addr w m lt);
  }

-- A program that sets registers of a mapped device and then reads: over the local backend and over the
-- network it runs to its end, and any register reads as the last value that the program gave it or as
-- it was, with the same answer on both. The window's mapping holds its registers, and the
-- program keeps to them. Each request arrives whole, in one segment, and so does each answer.
pub write_all_read_back :
    (junk : ℕ) (s : Socket) (ws : List Setting) (w : Window)
    → Mapped w
    → AllFit w.size ws
    → Settles mapped_local ws w × Settles (mapped_net junk s) ws w
write_all_read_back junk s ws w m h = (
  write_all-read mapped_local local_registers ws w m h,
  write_all-read (mapped_net junk s) (net_registers junk s) ws w m h,
)

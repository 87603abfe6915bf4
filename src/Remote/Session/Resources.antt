-- ===== src/Remote/Session/Resources.antt =====
-- What opening and closing a network device take and give back, lib/bbio/src/bbio_backend_net.c.
use streamio.Common.{
  ℕ, ◌+◌, ◌≡◌, refl, inl, inr, Bool, true, false, Option, none, some, arith, if◌then◌else◌,
  Bool-cases, Option-cases,
}
use streamio.Local.Window.{Ledger, hold}
use streamio.Remote.{Socket}
use streamio.Remote.Session.{
  io_handshake, io_open_remote_device, open_net, io_open_mapped_net, io_open_stream_net,
  io_close_mapped_net, io_close_stream_net, accepts,
}

abbrev kept : Bool → Ledger → Ledger
kept ok h = if ok then h else record h { fds = h.fds + 1 }

-- The two results of an open.
data Opening (blocks sockfd : ℕ) (h : Ledger) (ok : Bool)
    : Option ℕ × Ledger × Socket → Type 0 where
  opens :
      {r : Option ℕ × Ledger × Socket}
      → r.0 ≡ some sockfd
      → r.1 ≡ hold h 1 blocks 0
      → ok ≡ true
      → Opening blocks sockfd h ok r
  fails :
      {r : Option ℕ × Ledger × Socket}
      → r.0 ≡ none
      → r.1 ≡ hold h 1 0 0
      → ok ≡ false
      → Opening blocks sockfd h ok r

open_net-Opening :
    (blocks sockfd junk : ℕ) (connected : Bool) (s : Socket) (h : Ledger)
    → Opening blocks sockfd h
        (accepts connected junk s)
        (open_net blocks (some sockfd) connected junk s h)
unfolding open_net
open_net-Opening blocks sockfd junk false s h = fails refl refl refl
open_net-Opening blocks sockfd junk true s h = elim (Bool-cases (io_handshake s).0) [
  | inr no_ack ↦ rw no_ack (fails refl refl refl)
  | inl y ↦ elim (Option-cases (io_open_remote_device junk (io_handshake s).1).0) [
    | inl n ↦ rw (y, n) (fails refl refl refl)
    | inr (fd, e) ↦ rw (y, e) (opens refl refl refl)
  ]
]

close_mapped-Opening :
    (sockfd : ℕ) (h : Ledger) (ok : Bool) {r : Option ℕ × Ledger × Socket}
    → Opening 1 sockfd h ok r
    → io_close_mapped_net r.0 r.1 ≡ kept ok h
unfolding io_close_mapped_net
close_mapped-Opening sockfd h ok (opens e f g) = ground (arith, e, f, g)
close_mapped-Opening sockfd h ok (fails e f g) = ground (arith, e, f, g)

close_stream-Opening :
    (sockfd : ℕ) (h : Ledger) (ok : Bool) {r : Option ℕ × Ledger × Socket}
    → Opening 3 sockfd h ok r
    → io_close_stream_net r.0 r.1 ≡ kept ok h
unfolding io_close_stream_net
close_stream-Opening sockfd h ok (opens e f g) = ground (arith, e, f, g)
close_stream-Opening sockfd h ok (fails e f g) = ground (arith, e, f, g)

-- A network device that is opened and closed gives everything back. An open that the server does
-- not accept keeps the descriptor of its socket.
pub io_close_net-open :
    (sockfd junk : ℕ) (connected : Bool) (s : Socket) (h : Ledger)
    → (io_close_mapped_net
          (io_open_mapped_net (some sockfd) connected junk s h).0
          (io_open_mapped_net (some sockfd) connected junk s h).1
        ≡ (if accepts connected junk s then h else record h { fds = h.fds + 1 }))
      × (io_close_stream_net
            (io_open_stream_net (some sockfd) connected junk s h).0
            (io_open_stream_net (some sockfd) connected junk s h).1
          ≡ (if accepts connected junk s then h else record h { fds = h.fds + 1 }))
unfolding io_open_mapped_net io_open_stream_net
io_close_net-open sockfd junk connected s h = (
  close_mapped-Opening sockfd h _ (open_net-Opening 1 sockfd junk connected s h),
  close_stream-Opening sockfd h _ (open_net-Opening 3 sockfd junk connected s h),
)

-- ===== src/Remote/Session.antt =====
-- Opening a device over the network: `io_open_mapped_net`, `io_open_stream_net` and their closes in
-- lib/bbio/src/bbio_backend_net.c, `client_mapped_channel` in userspace/io_backend/src/io_backend.c.
pub mod Resources
use streamio.Common.{
  ℕ, ◌+◌, ◌-◌, ◌%◌, ◌^◌, ◌<◌, ◌≡◌, refl, ap, ◌∙◌, inl, inr, Bool, true, false, not, ◌&&◌, Option,
  none, some, List, [], ◌∷◌, ◌++◌, append_assoc, length, to_le, arith, ltb, ◌==◌, if◌then◌else◌,
  ◌>>=◌, Bool-cases, Option-cases,
}
use streamio.Context.{
  io_create_context, io_add_mapped_device, io_close_context, add_device, io_append_device,
  io_count_devices, count_from, copy_devices, close_devices, close_device, Call, close_mapped,
  free_devices, free_context, mapped_device,
}
use streamio.Local.Window.{Window, Ledger, hold}
use streamio.Remote.{Socket, closed, arrives, recv, recv_word, recv_front, recv_word_front}
use streamio.Remote.Mapped.{
  serve_mapped, Access, AllWords, requests, local_accesses, serve_mapped-local,
}

-- `HANDSHAKE_HEADER`
abbrev handshake_header : ℕ
handshake_header = 0x114514

-- What `io_handshake` makes of the answer: whether it returns 0, and the socket.
pub io_handshake : Socket → Bool × Socket
io_handshake s = let (n, ack, s1) = recv_word 4 0 s in (not (n == 0) && ack == handshake_header, s1)

-- The bytes of `io_open_remote_device`: the length of the path, the path without its end, the size.
pub open_request : List ℕ → ℕ → List ℕ
open_request path size = to_le 4 (length path) ++ (path ++ to_le 8 size)

-- The descriptor that it returns, or -1, here `none`. `junk` is the unset `fd`.
pub io_open_remote_device : ℕ → Socket → Option ℕ × Socket
io_open_remote_device junk s =
    let (n, fd, s1) = recv_word 4 junk s in
    let positive = ltb 0 fd && ltb fd (2 ^ 31) in
    (if n == 0 then none else if positive then some fd else none, s1)

-- The part that both opens share, with `blocks` allocations at its end. `sockfd` is what `socket`
-- gives, `connected` whether `connect` went through. The result is the device's descriptor or NULL,
-- what is held of the system, and the socket.
open_net : ℕ → Option ℕ → Bool → ℕ → Socket → Ledger → Option ℕ × Ledger × Socket
open_net blocks none connected junk s h = (none, h, s)
open_net blocks (some sockfd) false junk s h = (none, hold h 1 0 0, s)
open_net blocks (some sockfd) true junk s h =
    let (ok, s1) = io_handshake s in
    let (remotefd, s2) = io_open_remote_device junk s1 in
    let opened : Option ℕ × Ledger × Socket = elim remotefd [
      | none ↦ (none, hold h 1 0 0, s2)
      | some fd ↦ (some sockfd, hold h 1 blocks 0, s2)
    ] in
    if ok then opened else (none, hold h 1 0 0, s1)

-- The device; and for a stream its state, and the buffer of that.
pub io_open_mapped_net : Option ℕ → Bool → ℕ → Socket → Ledger → Option ℕ × Ledger × Socket
io_open_mapped_net sockfd connected junk s h = open_net 1 sockfd connected junk s h

pub io_open_stream_net : Option ℕ → Bool → ℕ → Socket → Ledger → Option ℕ × Ledger × Socket
io_open_stream_net sockfd connected junk s h = open_net 3 sockfd connected junk s h

pub io_close_mapped_net : Option ℕ → Ledger → Ledger
io_close_mapped_net none h = h
io_close_mapped_net (some fd) h = record h { fds = h.fds - 1; blocks = h.blocks - 1 }

pub io_close_stream_net : Option ℕ → Ledger → Ledger
io_close_stream_net none h = h
io_close_stream_net (some fd) h = record h { fds = h.fds - 1; blocks = h.blocks - 3 }

-- Whether the server accepts: the connection, the handshake, and a positive descriptor.
abbrev pub accepts : Bool → ℕ → Socket → Bool
accepts connected junk s =
    connected
    && (io_handshake s).0
    && (elim (io_open_remote_device junk (io_handshake s).1).0 [ none ↦ false | some fd ↦ true ])

-- `client_finish_handshake`
pub handshake_ack : List ℕ
handshake_ack = to_le 4 handshake_header

-- Whether a string of C ends within its bytes.
unfoldable pub has_nul : List ℕ → Bool
has_nul [] = false
has_nul (b ∷ bs) = let rest = has_nul bs in if b == 0 then true else rest

-- `client_deivce_option`: the path and the size. `junk` is what the unset locals hold. The path is
-- printed as a string, and its memory is of the length that was sent: `none`, a read past it, where
-- the bytes that came in have no 0.
pub client_device_option : ℕ → Socket → Option (List ℕ × ℕ × Socket)
client_device_option junk s =
    let (n, path_len, s1) = recv_word 4 junk s in
    let (dev_path, s2) = recv path_len s1 in
    let (m, map_size, s3) = recv_word 8 junk s2 in
    if has_nul dev_path then some (dev_path, map_size, s3) else none

-- What a mapped channel leaves: the device's registers, the bytes sent, and what the core did.
pub record Served : Type 0 where
  pub window : Window
  pub sent : List ℕ
  pub log : List Call

-- `file_path` is the address of the path, `opened` what the backend's open of it gives: the new
-- device and its descriptor, or NULL. The size is not used by the code.
pub client_mapped_channel : ℕ → ℕ → ℕ → Option ℕ → ℕ → Window → Socket → Option Served
client_mapped_channel rounds junk file_path opened fd w s = do
  (dev_path, map_size, s1) ← client_device_option junk s
  (ctx, device) ← io_add_mapped_device file_path opened io_create_context
  let serve = serve_mapped rounds junk w s1 >>= λ r. some (r.0, to_le 4 fd ++ r.1)
  (w', out) ← elim device [ none ↦ some (w, []) | some d ↦ serve ]
  log ← io_close_context ctx
  some (record { window = w'; sent = handshake_ack ++ out; log = log })

recv-path :
    (path rest : List ℕ) (b : ℕ) (s : Socket)
    → recv (length path) (arrives (path ++ (b ∷ rest)) s) ≡ (path, arrives (b ∷ rest) s)
recv-path [] rest b s = unfold recv in refl
recv-path (x ∷ path) rest b s = recv_front (x ∷ path) (b ∷ rest) s (omega arith)

-- The server reads from the client's request the path and the size that were sent, and leaves what
-- follows them, if the request comes in one segment and the path holds its end.
pub client_device_option-open_request :
    (junk size : ℕ) (path rest : List ℕ) (s : Socket)
    → has_nul path ≡ true
    → length path < 2 ^ 32
    → size < 2 ^ 64
    → client_device_option junk (arrives (open_request path size ++ rest) s)
      ≡ some (path, size, arrives rest s)
unfolding client_device_option open_request
client_device_option-open_request junk size path rest s nul h k =
    let cut : (to_le 4 (length path) ++ (path ++ to_le 8 size)) ++ rest
        ≡ to_le 4 (length path) ++ (path ++ (to_le 8 size ++ rest)) =
      append_assoc (to_le 4 (length path)) (path ++ to_le 8 size) rest
      ∙ ap (◌++◌ (to_le 4 (length path))) (append_assoc path (to_le 8 size) rest) in
    let path_bytes : recv (length path) (arrives (path ++ (to_le 8 size ++ rest)) s)
        ≡ (path, arrives (to_le 8 size ++ rest) s) =
      unfold to_le in recv-path path _ (size % 256) s in
    let size_word = recv_word_front 8 size junk rest s (omega arith) k in
    rw
      (
        cut,
        recv_word_front 4 (length path) junk (path ++ (to_le 8 size ++ rest)) s (omega arith) h,
        path_bytes,
        size_word,
        nul,
      )
      refl

-- The client takes the server's answers, the acknowledgement and a positive descriptor, for a device
-- that is open.
accepts-answers :
    (junk fd : ℕ) (rest : List ℕ) (s : Socket)
    → 0 < fd
    → fd < 2 ^ 31
    → accepts true junk (arrives (handshake_ack ++ (to_le 4 fd ++ rest)) s) ≡ true
unfolding io_handshake io_open_remote_device handshake_ack
accepts-answers junk fd rest s pos h =
    rw
      (
        recv_word_front 4 handshake_header 0 (to_le 4 fd ++ rest) s (omega arith) (omega arith),
        recv_word_front 4 fd junk rest s (omega arith) (omega arith),
      )
      (ground arith)

pub client_mapped_channel-local :
    (cs : List Access) (rounds junk size file_path id fd : ℕ) (path out : List ℕ) (w w' : Window)
    → AllWords cs
    → length cs < rounds
    → has_nul path ≡ true
    → length path < 2 ^ 32
    → size < 2 ^ 64
    → local_accesses cs w ≡ some (w', out)
    → client_mapped_channel rounds junk file_path
        (some id)
        fd
        w
        (arrives (open_request path size ++ requests cs) closed)
      ≡ some (record {
        window = w';
        sent = handshake_ack ++ (to_le 4 fd ++ out);
        log =
            close_mapped (record { id = id; kind = mapped_device; path = file_path })
            ∷ free_devices
            ∷ free_context
            ∷ [];
      })
unfolding client_mapped_channel io_create_context io_add_mapped_device io_close_context add_device
    io_append_device io_count_devices count_from copy_devices close_devices close_device
client_mapped_channel-local cs rounds junk size file_path id fd path out w w' h lt nul p z run =
    rw
      (
        client_device_option-open_request junk size path (requests cs) closed nul p z,
        serve_mapped-local cs rounds junk w h lt,
        run,
      )
      refl

-- ===== src/Remote/Mapped.antt =====
-- Registers over the network: `io_write_net` and `io_read_net` of the client against
-- `client_mapped_cmd_handle` of the server, which works on its local device.
use streamio.Common.{
  ℕ, zero, suc, ◌^◌, ◌<◌, ◌≡◌, refl, Option, some, inl, inr, List, [], ◌∷◌, ◌++◌, append_assoc,
  length, to_le, Option-cases, arith, ◌==◌, if◌then◌else◌, ◌>>=◌,
}
use streamio.Local.Window.{Window, io_write_local, io_read_local}
use streamio.Remote.{
  Socket, closed, arrives, recv, recv_word, call_write, call_read, recv_word_front, command_front,
}

-- The bytes that a call of `io_write_net` sends.
pub io_write_net : ℕ → ℕ → List ℕ
io_write_net addr value = call_write ∷ (to_le 4 addr ++ to_le 4 value)

-- The request of `io_read_net`, and its answer as it is read from the socket. `junk` is what
-- the unset `value` holds.
pub io_read_net_request : ℕ → List ℕ
io_read_net_request addr = call_read ∷ to_le 4 addr

pub io_read_net_answer : ℕ → Socket → ℕ × Socket
io_read_net_answer junk s = let (n, value, s') = recv_word 4 junk s in (value, s')

-- The server's side of one call: the device, the socket, and the bytes sent back. `junk` is what
-- the unset locals hold.
client_cmd_write : ℕ → Window → Socket → Option (Window × Socket × List ℕ)
client_cmd_write junk w s =
    let (n, addr, s1) = recv_word 4 junk s in
    let (m, value, s2) = recv_word 4 junk s1 in
    io_write_local addr value w >>= λ w'. some (w', s2, [])

client_cmd_read : ℕ → Window → Socket → Option (Window × Socket × List ℕ)
client_cmd_read junk w s =
    let (n, addr, s1) = recv_word 4 junk s in
    io_read_local addr w >>= λ ret. some (w, s1, to_le 4 ret)

-- `client_mapped_cmd_handle`: the count of the first read, and what the command does.
pub client_mapped_cmd_handle : ℕ → Window → Socket → Option (ℕ × Window × Socket × List ℕ)
client_mapped_cmd_handle junk w s =
    let (n, cmd, s1) = recv_word 1 junk s in
    let nothing = some (n, w, s1, []) in
    let write = client_cmd_write junk w s1 >>= λ r. some (n, r.0, r.1, r.2) in
    let read = client_cmd_read junk w s1 >>= λ r. some (n, r.0, r.1, r.2) in
    if n == 0
    then nothing
    else if cmd == call_write
    then write
    else if cmd == call_read
    then read
    else nothing

-- while (!stop && client_mapped_cmd_handle(device, sockfd)); with `rounds` tests before `stop`.
pub serve_mapped : ℕ → ℕ → Window → Socket → Option (Window × List ℕ)
serve_mapped zero junk w s = some (w, [])
serve_mapped (suc rounds) junk w s = do
  (n, w1, s1, out) ← client_mapped_cmd_handle junk w s
  let rest = serve_mapped rounds junk w1 s1 >>= λ r. some (r.0, out ++ r.1)
  if n == 0 then some (w1, out) else rest

-- A client's calls, the bytes that it sends for them, and the same calls on a local device.
pub data Access : Type 0 where
  write_register : ℕ → ℕ → Access
  read_register : ℕ → Access

abbrev pub IsWord : Access → Type 0
IsWord (write_register addr value) = (addr < 2 ^ 32) × (value < 2 ^ 32)
IsWord (read_register addr) = addr < 2 ^ 32

abbrev pub AllWords : List Access → Type 0
AllWords [] = Unit {0}
AllWords (c ∷ cs) = IsWord c × AllWords cs

unfoldable pub request : Access → List ℕ
request (write_register addr value) = io_write_net addr value
request (read_register addr) = io_read_net_request addr

pub requests : List Access → List ℕ
requests [] = []
requests (c ∷ cs) = request c ++ requests cs

unfoldable pub local_access : Access → Window → Option (Window × List ℕ)
local_access (write_register addr value) w = io_write_local addr value w >>= λ w'. some (w', [])
local_access (read_register addr) w = io_read_local addr w >>= λ v. some (w, to_le 4 v)

unfoldable pub local_accesses : List Access → Window → Option (Window × List ℕ)
local_accesses [] w = some (w, [])
local_accesses (c ∷ cs) w = do
  (w1, out) ← local_access c w
  (w2, more) ← local_accesses cs w1
  some (w2, out ++ more)

write-front :
    (junk addr value : ℕ) (w : Window) (rest : List ℕ) (s : Socket)
    → addr < 2 ^ 32
    → value < 2 ^ 32
    → client_cmd_write junk w (arrives (to_le 4 addr ++ (to_le 4 value ++ rest)) s)
      ≡ (io_write_local addr value w >>= λ w'. some (w', arrives rest s, []))
unfolding client_cmd_write
write-front junk addr value w rest s a v =
    rw
      (
        recv_word_front 4 addr junk (to_le 4 value ++ rest) s (omega arith) a,
        recv_word_front 4 value junk rest s (omega arith) v,
      )
      refl

read-front :
    (junk addr : ℕ) (w : Window) (rest : List ℕ) (s : Socket)
    → addr < 2 ^ 32
    → client_cmd_read junk w (arrives (to_le 4 addr ++ rest) s)
      ≡ (io_read_local addr w >>= λ ret. some (w, arrives rest s, to_le 4 ret))
unfolding client_cmd_read
read-front junk addr w rest s a = rw (recv_word_front 4 addr junk rest s (omega arith) a) refl

-- One request at the front of the socket is served as the local access.
pub handle-request :
    (junk : ℕ) (c : Access) (w : Window) (rest : List ℕ) (s : Socket)
    → IsWord c
    → client_mapped_cmd_handle junk w (arrives (request c ++ rest) s)
      ≡ (local_access c w >>= λ r. some (1, r.0, arrives rest s, r.1))
unfolding client_mapped_cmd_handle request io_write_net io_read_net_request local_access
handle-request junk (write_register addr value) w rest s h =
    rw
      (
        append_assoc (to_le 4 addr) (to_le 4 value) rest,
        command_front call_write junk (to_le 4 addr ++ (to_le 4 value ++ rest)) s (omega arith),
        write-front junk addr value w rest s h.0 h.1,
      )
      (ground arith)
handle-request junk (read_register addr) w rest s h =
    rw
      (
        command_front call_read junk (to_le 4 addr ++ rest) s (omega arith),
        read-front junk addr w rest s h,
      )
      (ground arith)

handle-end :
    (junk : ℕ) (w : Window)
    → (s' : Socket) × (client_mapped_cmd_handle junk w (arrives [] closed) ≡ some (0, w, s', []))
unfolding client_mapped_cmd_handle recv_word recv
handle-end junk w = (closed, refl)

-- The registers over the network are the registers: with rounds for all of a client's calls and
-- one more, a server that gets their requests in one piece does to its device what the same calls
-- do locally, in order, and sends back exactly the values that they read. It stops at the end of the
-- stream, and it faults only where a local access does.
pub serve_mapped-local :
    (cs : List Access) (rounds junk : ℕ) (w : Window)
    → AllWords cs
    → length cs < rounds
    → serve_mapped rounds junk w (arrives (requests cs) closed) ≡ local_accesses cs w
unfolding serve_mapped requests local_accesses
serve_mapped-local cs zero junk w h lt = absurd (omega arith)
serve_mapped-local [] (suc rounds) junk w h lt = let (s', e) = handle-end junk w in rw e refl
serve_mapped-local (c ∷ cs) (suc rounds) junk w h lt =
    rw (handle-request junk c w (requests cs) closed h.0) (elim (Option-cases (local_access c w)) [
      | inl n ↦ rw n refl
      | inr (r, e) ↦ rw (e, serve_mapped-local cs rounds junk (r.0) h.1 (omega arith)) refl
    ])

-- What the client reads from the server's answer is the value that the server read.
pub io_read_net_answer-le :
    (junk value : ℕ) (rest : List ℕ) (s : Socket)
    → value < 2 ^ 32
    → io_read_net_answer junk (arrives (to_le 4 value ++ rest) s) ≡ (value, arrives rest s)
unfolding io_read_net_answer
io_read_net_answer-le junk value rest s h =
    rw (recv_word_front 4 value junk rest s (omega arith) h) refl

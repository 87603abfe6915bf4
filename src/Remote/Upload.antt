-- ===== src/Remote/Upload.antt =====
-- The loops of `client_cmd_write_stream_inf`, userspace/io_backend/src/io_backend_call.c, over what
-- becomes of the bytes that are received: `store`, which gives `none` for a fault.
pub mod Simulate
use streamio.Common.{
  ℕ, zero, suc, ◌+◌, ◌-◌, ◌≡◌, refl, Option, none, some, List, [], ◌∷◌, length, take, drop, ◌==◌,
  if◌then◌else◌, ◌>>=◌, inl, inr, Bool-cases, >>=-eq-some, some-subst, sym, ap, ◌∙◌, arith,
}
use streamio.Remote.{Socket, closed, arrives, recv, recv_word, call_write_stream}

-- The locals keep what the last round left.
pub record Locals {ℓ} (P : Type ℓ) : Type ℓ where
  pub start_cmd : ℕ
  pub recv_size : ℕ
  pub packing : P

module _ {ℓ} {P : Type ℓ} (store : List ℕ → P → Option P) where
  -- while (recv_size > 0) with the break at the end of the stream: what is left of `recv_size`, the
  -- packing and the socket. Each round takes a segment, or as much of it as is wanted.
  unfoldable pub receive_packet : ℕ → P → Socket → Option (ℕ × P × Socket)
  receive_packet zero p s = some (zero, p, s)
  receive_packet (suc n) p closed = some (suc n, p, closed)
  receive_packet (suc n) p (arrives [] s) = receive_packet (suc n) p s
  receive_packet (suc n) p (arrives (b ∷ bs) s) =
      let got = take (suc n) (b ∷ bs) in
      let left = suc n - length got in
      store got p >>= λ p'.
      let more = receive_packet left p' s in
      if left == 0 then some (0, p', arrives (drop (suc n) (b ∷ bs)) s) else more

  -- A round of the outer loop, up to the acknowledgement. A first byte that is not the command's is
  -- skipped.
  unfoldable pub receive_frame : Locals P → Socket → Option (Locals P × Socket)
  receive_frame l s =
      let (n, cmd, s1) = recv_word 1 l.start_cmd s in
      let (m, size, s2) = recv_word 4 l.recv_size s1 in
      let packet = (do
        (left, p, s3) ← receive_packet size l.packing s2
        some (record { start_cmd = cmd; recv_size = left; packing = p }, s3)) in
      if cmd == call_write_stream then packet else some (record l { start_cmd = cmd }, s1)

  -- The outer loop, ended by an acknowledgement that cannot be sent, after `acks` that could.
  unfoldable pub client_cmd_write_stream_inf : ℕ → Locals P → Socket → Option (Locals P × Socket)
  client_cmd_write_stream_inf zero l s = receive_frame l s
  client_cmd_write_stream_inf (suc acks) l s = do
    (l', s') ← receive_frame l s
    client_cmd_write_stream_inf acks l' s'

  -- An empty segment does not matter.
  pub client_cmd_write_stream_inf_skip :
      (acks : ℕ) (l : Locals P) (s : Socket)
      → client_cmd_write_stream_inf acks l (arrives [] s) ≡ client_cmd_write_stream_inf acks l s
  unfolding client_cmd_write_stream_inf receive_frame recv_word recv
  client_cmd_write_stream_inf_skip zero l s = refl
  client_cmd_write_stream_inf_skip (suc acks) l s = refl

-- ===== src/Remote/Upload/Simulate.antt =====
-- Two ways to keep the received bytes that are in step keep the loops in step.
use streamio.Common.{
  ℕ, zero, suc, ◌-◌, ◌≡◌, refl, Option, some, List, [], ◌∷◌, length, take, drop, arith, ◌==◌, ◌>>=◌,
  inl, inr, Bool-cases, >>=-eq-some, some-subst,
}
use streamio.Remote.{Socket, closed, arrives, recv_word, call_write_stream}
use streamio.Remote.Upload.{Locals, receive_packet, receive_frame, client_cmd_write_stream_inf}

module _ {P : Type 0} {K : Type 0} (f : List ℕ → P → Option P) (g : List ℕ → K → Option K)
    (R : P → K → Type 0)
    (store-step : (bytes : List ℕ) (p : P) (k : K) (p' : P)
      → R p k
      → f bytes p ≡ some p'
      → (k' : K) × (g bytes k ≡ some k') × R p' k') where
  -- The same, with what is left to receive and the socket.
  abbrev Packet : ℕ × P × Socket → Option (ℕ × K × Socket) → Type 0
  Packet r o = (k' : K) × (o ≡ some (r.0, k', r.2)) × R (r.1) k'

  pub receive_packet-Packet :
      (n : ℕ) (p : P) (k : K) (s : Socket) (r : ℕ × P × Socket)
      → R p k
      → receive_packet f n p s ≡ some r
      → Packet r (receive_packet g n k s)
  unfolding receive_packet
  receive_packet-Packet zero p k s r h e =
      some-subst (λ r. Packet r (some (zero, k, s))) e (k, refl, h)
  receive_packet-Packet (suc n) p k closed r h e =
      some-subst (λ r. Packet r (some (suc n, k, closed))) e (k, refl, h)
  receive_packet-Packet (suc n) p k (arrives [] s) r h e = receive_packet-Packet (suc n) p k s r h e
  receive_packet-Packet (suc n) p k (arrives (b ∷ bs) s) r h e =
      let got = take (suc n) (b ∷ bs) in
      let left = suc n - length got in
      let (p1, e1, e2) = >>=-eq-some (f got p) _ e in
      let (k1, g1, h1) = store-step got p k p1 h e1 in
      elim (Bool-cases (left == 0)) [
        | inl y ↦
            let run : some (0, p1, arrives (drop (suc n) (b ∷ bs)) s) ≡ some r =
              ground (arith, e2) in
            rw (g1, y)
              (some-subst (λ r. Packet r (some (0, k1, arrives (drop (suc n) (b ∷ bs)) s))) run
                (k1, refl, h1))
        | inr m ↦
            let run : receive_packet f left p1 s ≡ some r = ground (arith, e2) in
            rw (g1, m) (receive_packet-Packet left p1 k1 s r h1 run)
      ]

  pub record InStep (l : Locals P) (m : Locals K) : Type 0 where
    pub cmd : m.start_cmd ≡ l.start_cmd
    pub size : m.recv_size ≡ l.recv_size
    pub kept : R l.packing m.packing

  abbrev Round : Locals P × Socket → Option (Locals K × Socket) → Type 0
  Round r o = (m' : Locals K) × (o ≡ some (m', r.1)) × InStep (r.0) m'

  pub receive_frame-Round :
      (l : Locals P) (m : Locals K) (s : Socket) (r : Locals P × Socket)
      → InStep l m
      → receive_frame f l s ≡ some r
      → Round r (receive_frame g m s)
  unfolding receive_frame
  receive_frame-Round l m s r i e =
      let (n, cmd, s1) = recv_word 1 l.start_cmd s in
      let (n', size, s2) = recv_word 4 l.recv_size s1 in
      elim (Bool-cases (cmd == call_write_stream)) [
        | inl y ↦
            let run : (receive_packet f size l.packing s2 >>= λ q.
            some (record { start_cmd = cmd; recv_size = q.0; packing = q.1 }, q.2))
                ≡ some r =
              ground (arith, e) in
            let (q, e1, e2) = >>=-eq-some (receive_packet f size l.packing s2) _ run in
            let (k', g1, h1) = receive_packet-Packet size l.packing m.packing s2 q i.kept e1 in
            rw (i.cmd, i.size, y, g1)
              (some-subst
                (λ r.
                  Round r (some (record { start_cmd = cmd; recv_size = q.0; packing = k' }, q.2)))
                e2
                (
                  record { start_cmd = cmd; recv_size = q.0; packing = k' },
                  refl,
                  record { cmd = refl; size = refl; kept = h1 },
                ))
        | inr no_sync ↦
            let run : some (record l { start_cmd = cmd }, s1) ≡ some r = ground (arith, e) in
            rw (i.cmd, no_sync)
              (some-subst (λ r. Round r (some (record m { start_cmd = cmd }, s1))) run
                (
                  record m { start_cmd = cmd },
                  refl,
                  record { cmd = refl; size = i.size; kept = i.kept },
                ))
      ]

  -- Whatever the socket holds, where the one loop runs without a fault, so does the other, with the
  -- same locals and the same socket after it, and what they keep still agrees.
  pub client_cmd_write_stream_inf-Round :
      (acks : ℕ) (l : Locals P) (m : Locals K) (s : Socket) (r : Locals P × Socket)
      → InStep l m
      → client_cmd_write_stream_inf f acks l s ≡ some r
      → Round r (client_cmd_write_stream_inf g acks m s)
  unfolding client_cmd_write_stream_inf
  client_cmd_write_stream_inf-Round zero l m s r i e = receive_frame-Round l m s r i e
  client_cmd_write_stream_inf-Round (suc acks) l m s r i e =
      let (r1, e1, e2) = >>=-eq-some (receive_frame f l s) _ e in
      let (m1, g1, i1) = receive_frame-Round l m s r1 i e1 in
      rw g1 (client_cmd_write_stream_inf-Round acks (r1.0) m1 (r1.1) r i1 e2)

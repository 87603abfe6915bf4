-- ===== src/Remote/Deliver/Refine.antt =====
-- The server's end of a write stream over the device's ring refines the packing of Remote/Repack:
-- userspace/io_backend/src/io_backend_call.c with lib/bbio/src/bbio_backend_local.c.
use streamio.Remote.Deliver.Calls.{
  Willing, whole, get_buffer-Given, requests-front, put, put_at, put_bytes-put,
}
use streamio.Common.{
  ℕ, zero, suc, ◌+◌, ◌%◌, ◌<◌, ◌≤◌, ◌≡◌, refl, sym, ap, ap₂, ◌∙◌, true, false, some, List, [], ◌∷◌,
  ◌++◌, map, append_assoc, length, length-append, take, drop, take-append, get_elem?, arith, leb,
  inl, inr, Bool-cases, some-subst,
}
use streamio.Dma.{ChannelBuffer, Channel, Transfer, buffer_size, buffer_count}
use streamio.Local.{Answers}
use streamio.Local.Ring.{RingIsValid, Settled, io_write_stream_local_lem}
use streamio.Local.Drain.{cycle}
use streamio.Remote.Repack.{Packing, store}
use streamio.Remote.Deliver.{Sink, put_bytes, deliver, store_local}

cycle-append :
    (n i : ℕ) → i < buffer_count → cycle i (suc n) ≡ cycle i n ++ (((i + n) % buffer_count) ∷ [])
cycle-append zero i h = let e : (i + 0) % buffer_count ≡ i = omega arith in rw e refl
cycle-append (suc n) i h =
    let e : ((i + 1) % buffer_count + n) % buffer_count ≡ (i + suc n) % buffer_count =
      omega arith in
    ap (◌∷◌ i) (
      cycle-append n ((i + 1) % buffer_count) (omega arith)
      ∙ ap (λ k. cycle ((i + 1) % buffer_count) n ++ (k ∷ [])) e)

map-append-whole :
    (base : ℕ) (xs : List ℕ) (i : ℕ)
    → map (whole base) (xs ++ (i ∷ [])) ≡ map (whole base) xs ++ (whole base i ∷ [])
map-append-whole base [] i = refl
map-append-whole base (x ∷ xs) i = ap (◌∷◌ (whole base x)) (map-append-whole base xs i)

-- What is written behind `x` is found behind it.
put-front :
    (x bytes old rest : List ℕ)
    → take (length x) old ≡ x
    → take (length x + length bytes) (take (length x) old ++ (bytes ++ rest)) ≡ x ++ bytes
put-front x bytes old rest h = rw h (
    rw (sym (append_assoc x bytes rest), sym (length-append x bytes))
      (take-append (x ++ bytes) rest))

-- The ring and the engine's queue hold what the packing has: a transfer of a whole buffer for each
-- buffer sent, in the ring's order from `i` on behind the queue `q`, of the bytes that were sent; and
-- the present buffer, which the engine does not have, holds the bytes that the packing has.
pub record Delivers (q : List Transfer) (base i : ℕ) (p : Packing) (k : Sink) : Type 0 where
  pub valid : RingIsValid k.device
  pub start : k.device.channel.buffer_phys_addr ≡ base
  pub queue : k.device.channel.issued ≡ q ++ map (whole base) (cycle i (length p.sent))
  pub given : k.handed ≡ p.sent
  pub ptr : k.buffer_ptr ≡ length p.filled
  pub turn : k.buffer_id ≡ (i + length p.sent) % buffer_count
  pub next : k.device.current_buffer_id ≡ (k.buffer_id + 1) % buffer_count
  pub buffer : ChannelBuffer
  pub found : get_elem? k.device.channel.buffer_table k.buffer_id ≡ some buffer
  pub holds : take (length p.filled) buffer.buffer ≡ p.filled
  pub settled : Settled buffer.status

module _ (q : List Transfer) (base i : ℕ) (start : i < buffer_count) where
  one_more :
      (n j : ℕ)
      → j ≡ (i + n) % buffer_count
      → (q ++ map (whole base) (cycle i n)) ++ (whole base j ∷ [])
        ≡ q ++ map (whole base) (cycle i (suc n))
  one_more n j e =
      append_assoc q (map (whole base) (cycle i n)) (whole base j ∷ [])
      ∙ ap (◌++◌ q) (
          sym (map-append-whole base (cycle i n) j)
          ∙ ap (λ t. map (whole base) (cycle i n ++ (t ∷ []))) e
          ∙ ap (map (whole base)) (sym (cycle-append n i start)))

  -- A full buffer goes to the engine.
  deliver-Delivers :
      (a : Answers) (p : Packing) (k : Sink)
      → Willing a
      → Delivers q base i p k
      → length p.filled ≡ buffer_size
      → (k' : Sink) × (deliver a k ≡ some k')
        × Delivers q base i (record { sent = p.sent ++ (p.filled ∷ []); filled = [] }) k'
  unfolding deliver
  deliver-Delivers a p k w d full =
      let lt : k.buffer_id < buffer_count = omega (arith, d.turn) in
      let (l, b, run, v, cur, size, queue, here, others, base_same) =
        io_write_stream_local_lem a k.buffer_id buffer_size k.device d.valid lt (omega arith) in
      let (l', e, g) = get_buffer-Given a l v w in
      let more : length (p.sent ++ (p.filled ∷ [])) ≡ suc (length p.sent) =
        omega (arith, length-append p.sent (p.filled ∷ [])) in
      (
        record {
          device = l';
          buffer_id = l.current_buffer_id;
          buffer_ptr = 0;
          handed = k.handed ++ (take buffer_size d.buffer.buffer ∷ []);
        },
        rw (d.found, run, e) refl,
        record {
          valid = g.valid;
          start = g.base ∙ base_same ∙ d.start;
          queue =
              g.queue
              ∙ queue
              ∙ ap₂ ◌++◌ d.queue
                  (requests-front k.device.channel k.buffer_id b d.start size w.taken)
              ∙ one_more (length p.sent) k.buffer_id d.turn
              ∙ ap (λ n. q ++ map (whole base) (cycle i n)) (sym more);
          given =
              ap₂ ◌++◌ d.given
                (ap (λ t. t ∷ []) (ap (λ n. take n d.buffer.buffer) (sym full) ∙ d.holds));
          ptr = refl;
          turn = omega (arith, d.turn, d.next, cur, more);
          next = g.next;
          buffer = g.buffer;
          found = g.found;
          holds = refl;
          settled = g.settled;
        },
      )

  -- What is received goes behind what the buffer has.
  put_bytes-Delivers :
      (bytes : List ℕ) (p : Packing) (k : Sink)
      → Delivers q base i p k
      → length p.filled + length bytes ≤ buffer_size
      → (c : Channel) × (put_bytes k.buffer_id k.buffer_ptr bytes k.device.channel ≡ some c)
        × Delivers q base i
            (record p { filled = p.filled ++ bytes })
            (record k {
              device = record (k.device) { channel = c };
              buffer_ptr = k.buffer_ptr + length bytes;
            })
  put_bytes-Delivers bytes p k d room =
      let (run, v, here) =
        put_bytes-put k.buffer_id k.buffer_ptr bytes d.buffer k.device d.valid
          (omega (arith, d.turn)) d.found (omega (arith, d.ptr, room)) in
      let old = d.buffer.buffer in
      (
        put_at k.buffer_id k.buffer_ptr bytes d.buffer k.device.channel,
        run,
        record {
          valid = v;
          start = d.start;
          queue = d.queue;
          given = d.given;
          ptr = omega (arith, d.ptr, length-append p.filled bytes);
          turn = d.turn;
          next = d.next;
          buffer = put k.buffer_ptr bytes d.buffer;
          found = here;
          holds =
              rw (d.ptr, length-append p.filled bytes)
                (put-front p.filled bytes old (drop (length p.filled + length bytes) old) d.holds);
          settled = d.settled;
        },
      )

  -- Receiving into the device's buffer does what packing does: where the packing has no fault, neither
  -- has the server, and what they hold still agrees.
  pub store_local-Delivers :
      (answers : ℕ → Answers)
      → ((n : ℕ) → Willing (answers n))
      → (bytes : List ℕ) (p : Packing) (k : Sink) (p' : Packing) → Delivers q base i p k
      → store buffer_size bytes p ≡ some p'
      → (k' : Sink) × (store_local answers bytes k ≡ some k') × Delivers q base i p' k'
  unfolding store store_local
  store_local-Delivers answers w bytes p k p' d e =
      let all = p.filled ++ bytes in
      let add = length-append p.filled bytes in
      let fits : length p.filled + length bytes ≤ buffer_size = ground (arith, e, add) in
      let (c, e1, d1) = put_bytes-Delivers bytes p k d fits in
      let k1 : Sink = record k {
        device = record (k.device) { channel = c };
        buffer_ptr = k.buffer_ptr + length bytes;
      } in
      elim (Bool-cases (leb buffer_size (length all))) [
        | inl y ↦
            let full : length all ≡ buffer_size = ground (arith, add) in
            let run : some (record { sent = p.sent ++ (all ∷ []); filled = [] }) ≡ some p' =
              ground (arith, add) in
            let (k2, e2, d2) =
              deliver-Delivers (answers (length k.handed)) (record p { filled = all }) k1
                (w (length k.handed)) d1 full in
            let test : leb buffer_size (k.buffer_ptr + length bytes) ≡ true =
              ground (arith, d.ptr, add) in
            some-subst Good run (k2, rw (e1, test) e2, d2)
        | inr n ↦
            let run : some (record p { filled = all }) ≡ some p' = ground (arith, add) in
            let test : leb buffer_size (k.buffer_ptr + length bytes) ≡ false =
              ground (arith, d.ptr, add) in
            some-subst Good run (k1, rw (e1, test) refl, d1)
      ]
    where
      Good : Packing → Type 0
      Good p = (k' : Sink) × (store_local answers bytes k ≡ some k') × Delivers q base i p k'

-- ===== src/Remote/Deliver/Stream.antt =====
-- A write stream from the client's calls to the DMA engine: lib/bbio/src/bbio_backend_net.c,
-- userspace/io_backend/src/io_backend_call.c and lib/bbio/src/bbio_backend_local.c together.
use streamio.Common.{
  ℕ, ◌<◌, ◌≡◌, refl, sym, ap, ap₂, ◌∙◌, some, List, [], ◌∷◌, ◌++◌, map, append-nil, length, take,
  get_elem?, arith,
}
use streamio.Dma.{ChannelBuffer, buffer_size}
use streamio.Local.{LocalBuffer, Answers}
use streamio.Local.Ring.{RingIsValid}
use streamio.Local.Drain.{cycle}
use streamio.Remote.{Socket}
use streamio.Remote.Upload.{Locals, client_cmd_write_stream_inf}
use streamio.Remote.Upload.Simulate.{client_cmd_write_stream_inf-Round}
use streamio.Remote.Repack.{Packing, flatten, store, AllFull}
use streamio.Remote.Repack.Frames.{Fits, AllShort, frames, client_cmd_write_stream_inf-frames}
use streamio.Remote.Deliver.{Sink, store_local, write_stream_inf}
use streamio.Remote.Deliver.Calls.{Willing, whole, get_buffer-Given}
use streamio.Remote.Deliver.Refine.{Delivers, store_local-Delivers}

-- The packing before anything is received.
abbrev pub unpacked : ℕ → Locals Packing
unpacked cmd = record {
  start_cmd = cmd;
  recv_size = 0;
  packing = record { sent = []; filled = [] };
}

-- Whatever the socket holds, however it is cut, and whatever the calls that fill no buffer meet:
-- where packing the received bytes has no fault, the server over a valid ring has none either, if the
-- engine takes each transfer and completes in time. It ends with the same locals and the same socket,
-- and for every buffer packed there is one transfer of a whole buffer behind those that were issued
-- before, in the ring's order from the current buffer on, of just those bytes; the present buffer
-- holds the rest of them.
pub write_stream_inf-Delivers :
    (first : Answers) (answers : ℕ → Answers) (cmd acks : ℕ) (l : LocalBuffer) (s : Socket)
    (r : Locals Packing × Socket)
    → RingIsValid l
    → Willing first
    → ((n : ℕ) → Willing (answers n))
    → client_cmd_write_stream_inf (store buffer_size) acks (unpacked cmd) s ≡ some r
    → (m : Locals Sink) × (write_stream_inf first answers cmd acks l s ≡ some (m, r.1))
      × (m.start_cmd ≡ (r.0).start_cmd)
      × (m.recv_size ≡ (r.0).recv_size)
      × Delivers l.channel.issued l.channel.buffer_phys_addr l.current_buffer_id
          (r.0).packing
          m.packing
unfolding write_stream_inf
write_stream_inf-Delivers first answers cmd acks l s r v w0 w e =
    let base = l.channel.buffer_phys_addr in
    let q = l.channel.issued in
    let i = l.current_buffer_id in
    let (l1, e1, g) = get_buffer-Given first l v w0 in
    let k : Sink = record { device = l1; buffer_id = i; buffer_ptr = 0; handed = [] } in
    let d : Delivers q base i (record { sent = []; filled = [] }) k = record {
      valid = g.valid;
      start = g.base;
      queue = g.queue ∙ sym (append-nil q);
      given = refl;
      ptr = refl;
      turn = omega (arith, v.current);
      next = g.next;
      buffer = g.buffer;
      found = g.found;
      holds = refl;
      settled = g.settled;
    } in
    let (m, run, step) =
      client_cmd_write_stream_inf-Round (store buffer_size) (store_local answers)
        (Delivers q base i) (store_local-Delivers q base i v.current answers w) acks (unpacked cmd)
        (record { start_cmd = cmd; recv_size = 0; packing = k }) s r
        (record { cmd = refl; size = refl; kept = d }) e in
    (m, rw e1 run, step.cmd, step.size, step.kept)

-- The engine's queue after a stream: behind the old one a transfer for each buffer of `bufs`, in the
-- ring's order, and in the present buffer, which has room, the rest of `bytes`.
pub record Streams (l : LocalBuffer) (k : Sink) (bytes : List ℕ) : Type 0 where
  pub queue :
      k.device.channel.issued
      ≡ l.channel.issued
        ++ map (whole l.channel.buffer_phys_addr) (cycle l.current_buffer_id (length k.handed))
  pub valid : RingIsValid k.device
  pub full : AllFull buffer_size k.handed
  pub buffer : ChannelBuffer
  pub found : get_elem? k.device.channel.buffer_table k.buffer_id ≡ some buffer
  pub room : k.buffer_ptr < buffer_size
  pub all : flatten k.handed ++ take k.buffer_ptr buffer.buffer ≡ bytes

-- A client that has shaken hands writes its packets, each of which ends in the server's buffer in
-- which it begins; the server's device is a valid ring whose engine takes each transfer and completes
-- in time. Then the server runs without a fault as many rounds as there are packets, and what the
-- engine was told to send, one whole buffer of the ring after the other, followed by what is left in
-- the present buffer, is exactly the bytes of the client's packets in their order.
pub write_stream_inf-Streams :
    (first : Answers) (answers : ℕ → Answers) (cmd : ℕ) (l : LocalBuffer) (p : List ℕ)
    (ps : List (List ℕ))
    → RingIsValid l
    → Willing first
    → ((n : ℕ) → Willing (answers n))
    → Fits buffer_size 0 (p ∷ ps)
    → AllShort buffer_size (p ∷ ps)
    → (m : Locals Sink) × (s' : Socket) × (write_stream_inf first answers cmd
          (length ps)
          l
          (frames buffer_size (p ∷ ps))
        ≡ some (m, s'))
      × Streams l m.packing (flatten (p ∷ ps))
write_stream_inf-Streams first answers cmd l p ps v w0 w f h =
    let (l', s', run, pay, good) =
      client_cmd_write_stream_inf-frames buffer_size p ps (unpacked cmd) (omega arith)
        (record { full = tt; room = omega arith }) f h in
    let (m, e, c, n, d) =
      write_stream_inf-Delivers first answers cmd (length ps) l (frames buffer_size (p ∷ ps))
        (l', s') v w0 w run in
    let given : length l'.packing.sent ≡ length m.packing.handed = ap length (sym d.given) in
    (
      m,
      s',
      e,
      record {
        queue = rw (sym given) d.queue;
        valid = d.valid;
        full = rw d.given good.full;
        buffer = d.buffer;
        found = d.found;
        room = omega (arith, d.ptr, good.room);
        all =
            ap₂ (λ x n. flatten x ++ take n d.buffer.buffer) d.given d.ptr
            ∙ ap (◌++◌ (flatten l'.packing.sent)) d.holds
            ∙ pay;
      },
    )

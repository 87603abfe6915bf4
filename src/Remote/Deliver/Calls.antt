-- ===== src/Remote/Deliver/Calls.antt =====
-- The calls of the driver that the server's loops make, where the engine is willing:
-- lib/bbio/src/bbio_backend_local.c from userspace/io_backend/src/io_backend_call.c.
use streamio.Common.{
  ℕ, ◌+◌, ◌*◌, ◌%◌, ◌<◌, ◌≤◌, ◌≡◌, ◌≢◌, refl, ap₂, inl, inr, ◌∙◌, Bool, >>=-eq-some, Option-cases,
  true, Option, some, List, [], ◌∷◌, ◌++◌, length, length-set, take, drop, get_elem?, set,
  get_elem?-set_self, arith,
}
use streamio.Dma.{
  timed_out, ChannelBuffer, Channel, Transfer, buffer_size, buffer_count, sizeof_channel_buffer,
}
use streamio.Dma.Bounds.{InRange}
use streamio.Dma.Requests.{takes, requests}
use streamio.Local.{LocalBuffer, Answers, io_stream_zc_buffer_local}
use streamio.Dma.Contents.{contents}
use streamio.Local.Contents.{io_stream_zc_buffer_local-contents}
use streamio.Local.Ring.{
  RingIsValid, Settled, Got, busy_ring, handed, io_stream_zc_buffer_local-Got,
}
use streamio.Remote.Deliver.{put_bytes, get_buffer}

-- The engine takes the transfer and completes in time what is waited for.
pub record Willing (a : Answers) : Type 0 where
  pub taken : takes a.submit ≡ true
  pub known : InRange a.finish.meanwhile
  pub prompt : a.finish.wait ≢ timed_out

-- The transfer of the first `size` bytes of buffer `i` of a device whose buffers start at `base`.
abbrev pub front : ℕ → ℕ → ℕ → Transfer
front size base i = record { address = base + sizeof_channel_buffer * i; size = size; entry = i }

abbrev pub whole : ℕ → ℕ → Transfer
whole base i = front buffer_size base i

-- The buffer that a call was given: the engine does not have it, and the ring has moved on.
pub record Given (l l' : LocalBuffer) : Type 0 where
  pub valid : RingIsValid l'
  pub next : l'.current_buffer_id ≡ (l.current_buffer_id + 1) % buffer_count
  pub queue : l'.channel.issued ≡ l.channel.issued
  pub base : l'.channel.buffer_phys_addr ≡ l.channel.buffer_phys_addr
  pub buffer : ChannelBuffer
  pub found : get_elem? l'.channel.buffer_table l.current_buffer_id ≡ some buffer
  pub settled : Settled buffer.status

settle_buffer :
    (a : Answers) (l l' : LocalBuffer) (r : Option ℕ)
    → a.finish.wait ≢ timed_out
    → io_stream_zc_buffer_local a l ≡ some (l', r)
    → RingIsValid l'
    → Got a l l' r
    → l'.channel.issued ≡ l.channel.issued
    → l'.channel.buffer_phys_addr ≡ l.channel.buffer_phys_addr
    → (get_buffer a l ≡ some (l', l.current_buffer_id)) × Given l l'
unfolding get_buffer
settle_buffer a l l' r w e v (busy_ring b f t late same) q p = absurd (w late)
settle_buffer a l l' r w e v (handed b f s t next here) q p = (
  rw (e, here) refl,
  record { valid = v; next = next; queue = q; base = p; buffer = b; found = f; settled = s },
)

pub get_buffer-Given :
    (a : Answers) (l : LocalBuffer)
    → RingIsValid l
    → Willing a
    → (l' : LocalBuffer) × (get_buffer a l ≡ some (l', l.current_buffer_id)) × Given l l'
get_buffer-Given a l v w =
    let (l', r, e, v', g, q, p) = io_stream_zc_buffer_local-Got a l v w.known in
    let (run, given) = settle_buffer a l l' r w.prompt e v' g q p in (l', run, given)

pub get_buffer-some :
    (a : Answers) (l : LocalBuffer) {l' : LocalBuffer} {id : ℕ}
    → get_buffer a l ≡ some (l', id)
    → io_stream_zc_buffer_local a l ≡ some (l', some id)
unfolding get_buffer
get_buffer-some a l {l'} {id} e =
    let ((l1, r), e1, e2) = >>=-eq-some (io_stream_zc_buffer_local a l) _ e in
    elim (Option-cases r) [
      | inl n ↦ absurd (ground (arith, e2, n))
      | inr (i, n) ↦
          let ring : l1 ≡ l' = ground (arith, e2, n) in
          let same : r ≡ some id = ground (arith, e2, n) in
          e1 ∙ ap₂ (λ (x : LocalBuffer) (y : Option ℕ). some (x, y)) ring same
    ]

-- Asking for a buffer changes no byte.
pub get_buffer-contents :
    (a : Answers) (l : LocalBuffer) {l' : LocalBuffer} {id : ℕ}
    → get_buffer a l ≡ some (l', id)
    → contents l'.channel ≡ contents l.channel
get_buffer-contents a l e = io_stream_zc_buffer_local-contents a l (get_buffer-some a l e)

pub requests-front :
    (c : Channel) (i : ℕ) (b : ChannelBuffer) {size base : ℕ} {t : Bool}
    → c.buffer_phys_addr ≡ base
    → b.length ≡ size
    → t ≡ true
    → requests c i b t ≡ front size base i ∷ []
requests-front c i b h size t = rw (t, h, size) refl

-- The buffer after a receive of `bytes` at `ptr`, and the device with it.
abbrev pub put : ℕ → List ℕ → ChannelBuffer → ChannelBuffer
put ptr bytes b = record b {
  buffer = take ptr b.buffer ++ (bytes ++ drop (ptr + length bytes) b.buffer);
}

abbrev pub put_at : ℕ → ℕ → List ℕ → ChannelBuffer → Channel → Channel
put_at id ptr bytes b c = record c { buffer_table = set c.buffer_table id (put ptr bytes b) }

pub put_bytes-put :
    (id ptr : ℕ) (bytes : List ℕ) (b : ChannelBuffer) (l : LocalBuffer)
    → RingIsValid l
    → id < buffer_count
    → get_elem? l.channel.buffer_table id ≡ some b
    → ptr + length bytes ≤ buffer_size
    → (put_bytes id ptr bytes l.channel ≡ some (put_at id ptr bytes b l.channel))
      × RingIsValid (record l { channel = put_at id ptr bytes b l.channel })
      × (get_elem? (put_at id ptr bytes b l.channel).buffer_table id ≡ some (put ptr bytes b))
unfolding put_bytes
put_bytes-put id ptr bytes b l v lt e room = (
  ground (arith, e, room),
  record {
    channel = record {
      buffers = length-set l.channel.buffer_table id (put ptr bytes b) ∙ v.channel.buffers;
      entries = v.channel.entries;
    };
    count = v.count;
    current = v.current;
  },
  get_elem?-set_self l.channel.buffer_table id (put ptr bytes b) (omega (arith, v.channel.buffers)),
)

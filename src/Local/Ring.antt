-- ===== src/Local/Ring.antt =====
-- The ring of buffers that the local backend hands out, together with the driver behind it.
use streamio.Common.{
  ℕ, ◌+◌, ◌*◌, ◌/◌, ◌%◌, ◌^◌, ◌<◌, ◌≡◌, refl, ap, ◌∙◌, ◌≢◌, inl, inr, true, false, Option, none,
  some, ◌++◌, length-set, get_elem?, set, get_elem?-set_self, get_elem?-set_ne, arith, Bool-cases,
}
use streamio.Dma
use streamio.Dma.{
  timed_out, ProxyStatus, no_error, busy, timeout, error, queued, ChannelBuffer, Channel, Submit,
  Finish, outcome, start_xfer, finish_xfer, sizeof_channel_buffer, on_channel, buffer_count,
}
use streamio.Dma.Inv.{IsValid}
use streamio.Dma.Bounds.{InRange, buffer_at}
use streamio.Dma.Status.{outcome_settled}
use streamio.Dma.Requests.{takes, requests, started}
use streamio.Dma.Calls.{ioctl_start, ioctl_finish}
use streamio.Local.{
  LocalBuffer, Answers, is_clear, is_timeout, finish_if_pending, io_stream_zc_buffer_local,
  io_write_stream_local,
}

pub record RingIsValid (l : LocalBuffer) : Type 0 where
  pub channel : IsValid l.channel
  pub count : l.buffer_count ≡ buffer_count
  pub current : l.current_buffer_id < buffer_count

-- The engine does not have a buffer of this status.
pub record Settled (s : ProxyStatus) : Type 0 where
  pub not_queued : s ≢ queued
  pub not_busy : s ≢ busy

is_clear-Settled : (s : ProxyStatus) → is_clear s ≡ true → Settled s
unfolding is_clear
is_clear-Settled no_error e = ground arith
is_clear-Settled s e = absurd (cc)

is_clear-ne-timeout : (s : ProxyStatus) → is_clear s ≡ true → s ≢ timeout
unfolding is_clear
is_clear-ne-timeout s e = ground arith

-- What waiting for buffer `i`, if its status asks for it, makes of the channel.
pub record Finished (a : Answers) (c c' : Channel) (i : ℕ) : Type 0 where
  pub valid : IsValid c'
  pub base : c'.buffer_phys_addr ≡ c.buffer_phys_addr
  pub queue : c'.issued ≡ c.issued
  pub buffer : ChannelBuffer
  pub found : get_elem? c'.buffer_table i ≡ some buffer
  pub settled : Settled buffer.status
  pub late : buffer.status ≡ timeout → a.finish.wait ≡ timed_out
  pub others : (j : ℕ) → i ≢ j → get_elem? c'.buffer_table j ≡ get_elem? c.buffer_table j

pub finish_if_pending_lem :
    (a : Answers) (i : ℕ) (c : Channel)
    → IsValid c
    → i < buffer_count
    → InRange a.finish.meanwhile
    → (c' : Channel) × (finish_if_pending a i c ≡ some c') × Finished a c c' i
unfolding finish_if_pending
finish_if_pending_lem a i c v lt m =
    let (b, e) = buffer_at v i lt in
    elim (Bool-cases (is_clear b.status)) [
      | inl y ↦ (
        c,
        ground arith,
        record {
          valid = v;
          base = refl;
          queue = refl;
          buffer = b;
          found = e;
          settled = is_clear-Settled b.status y;
          late = λ q. absurd (is_clear-ne-timeout b.status y q);
          others = λ j n. refl;
        },
      )
      | inr n ↦
          let (c', r, v', p, q, u) = ioctl_finish i a.submit a.finish c b v lt e m in
          let o = outcome_settled a.finish.wait a.finish.status in
          (
            c',
            ground arith,
            record {
              valid = v';
              base = p;
              queue = q;
              buffer = record b { status = outcome a.finish.wait a.finish.status };
              found = u.here;
              settled = record { not_queued = o.0; not_busy = o.1 };
              late = o.3.0;
              others = u.others;
            },
          )
    ]

is_timeout-eq : (s : ProxyStatus) → is_timeout s ≡ true → s ≡ timeout
unfolding is_timeout
is_timeout-eq s e = ground arith

is_timeout-ne : (s : ProxyStatus) → is_timeout s ≡ false → s ≢ timeout
unfolding is_timeout
is_timeout-ne s e = ground arith

-- The two results of asking for a buffer.
pub data Got (a : Answers) (l l' : LocalBuffer) : Option ℕ → Type 0 where
  busy_ring :
      (b : ChannelBuffer)
      → get_elem? l'.channel.buffer_table l.current_buffer_id ≡ some b
      → b.status ≡ timeout
      → a.finish.wait ≡ timed_out
      → l'.current_buffer_id ≡ l.current_buffer_id
      → Got a l l' none
  handed :
      (b : ChannelBuffer)
      → get_elem? l'.channel.buffer_table l.current_buffer_id ≡ some b
      → Settled b.status
      → b.status ≢ timeout
      → l'.current_buffer_id ≡ (l.current_buffer_id + 1) % buffer_count
      → {r : Option ℕ} → r ≡ some l.current_buffer_id
      → Got a l l' r

-- Asking for a buffer never leaves the tables. It gives either the current buffer, which the engine
-- then does not have and whose wait did not time out, and the ring moves on by one; or no buffer,
-- when the wait for it timed out, and the ring stays. The engine's queue stays as it was.
pub io_stream_zc_buffer_local-Got :
    (a : Answers) (l : LocalBuffer)
    → RingIsValid l
    → InRange a.finish.meanwhile
    → (l' : LocalBuffer) × (r : Option ℕ) × (io_stream_zc_buffer_local a l ≡ some (l', r))
      × RingIsValid l'
      × Got a l l' r
      × (l'.channel.issued ≡ l.channel.issued)
      × (l'.channel.buffer_phys_addr ≡ l.channel.buffer_phys_addr)
unfolding io_stream_zc_buffer_local
io_stream_zc_buffer_local-Got a l v m =
    let (c, e, f) = finish_if_pending_lem a l.current_buffer_id l.channel v.channel v.current m in
    elim (Bool-cases (is_timeout f.buffer.status)) [
      | inl y ↦ (
        record l { channel = c },
        none,
        ground (arith, e, f.found),
        record { channel = f.valid; count = v.count; current = v.current },
        busy_ring f.buffer f.found (is_timeout-eq f.buffer.status y)
            (f.late (is_timeout-eq f.buffer.status y)) refl,
        f.queue,
        f.base,
      )
      | inr n ↦ (
        record l { channel = c; current_buffer_id = (l.current_buffer_id + 1) % l.buffer_count },
        some l.current_buffer_id,
        ground (arith, e, f.found),
        record { channel = f.valid; count = v.count; current = omega (arith, v.count) },
        handed f.buffer f.found f.settled (is_timeout-ne f.buffer.status n)
            (ap (λ k. (l.current_buffer_id + 1) % k) v.count) refl,
        f.queue,
        f.base,
      )
    ]

-- The channel when the length of buffer `i` is stored.
abbrev sized : LocalBuffer → ℕ → ChannelBuffer → ℕ → Channel
sized l i b size = record (l.channel) {
  buffer_table = set l.channel.buffer_table i (record b { length = size % 2 ^ 32 });
}

write_run :
    (a : Answers) (offset i size : ℕ) (l : LocalBuffer) (b : ChannelBuffer) (c' : Channel)
    → offset / sizeof_channel_buffer ≡ i
    → offset % sizeof_channel_buffer ≡ 0
    → get_elem? l.channel.buffer_table i ≡ some b
    → on_channel (Dma.ioctl start_xfer i a.submit a.finish (some (sized l i b size))) ≡ some c'
    → io_write_stream_local a offset size l ≡ some (record l { channel = c' }, i)
unfolding io_write_stream_local
write_run a offset i size l b c' id start e r = rw (id, start, e, r) refl

-- Handing buffer `i` to the engine: whatever was in the table, a write at the start of buffer `i`
-- returns `i`, and if the engine takes the transfer, it is that of the buffer's physical memory with
-- the size of the call, at the end of the queue, and the buffer is QUEUED. No other buffer
-- changes, nor does the address of the first.
pub io_write_stream_local_lem :
    (a : Answers) (i size : ℕ) (l : LocalBuffer)
    → RingIsValid l
    → i < buffer_count
    → size < 2 ^ 32
    → (l' : LocalBuffer) × (b : ChannelBuffer) × (io_write_stream_local a
          (sizeof_channel_buffer * i)
          size
          l
        ≡ some (l', i))
      × RingIsValid l'
      × (l'.current_buffer_id ≡ l.current_buffer_id)
      × (b.length ≡ size)
      × (l'.channel.issued ≡ l.channel.issued ++ requests l.channel i b (takes a.submit))
      × (get_elem? l'.channel.buffer_table i ≡ some (started l.channel i b (takes a.submit)))
      × ((j : ℕ) → i ≢ j → get_elem? l'.channel.buffer_table j ≡ get_elem? l.channel.buffer_table j)
      × (l'.channel.buffer_phys_addr ≡ l.channel.buffer_phys_addr)
io_write_stream_local_lem a i size l v lt h =
    let (b, e) = buffer_at v.channel i lt in
    let b' : ChannelBuffer = record b { length = size % 2 ^ 32 } in
    let c : Channel = record (l.channel) { buffer_table = set l.channel.buffer_table i b' } in
    let vc : IsValid c = record {
      buffers = length-set l.channel.buffer_table i b' ∙ v.channel.buffers;
      entries = v.channel.entries;
    } in
    let id : sizeof_channel_buffer * i / sizeof_channel_buffer ≡ i = omega arith in
    let start : sizeof_channel_buffer * i % sizeof_channel_buffer ≡ 0 = omega arith in
    let at : get_elem? c.buffer_table i ≡ some b' =
      get_elem?-set_self l.channel.buffer_table i b' (omega (arith, v.channel.buffers)) in
    let (c', r, v', p, q, u) = ioctl_start i a.submit a.finish c b' vc lt at in
    (
      record l { channel = c' },
      b',
      write_run a (sizeof_channel_buffer * i) i size l b c' id start e r,
      record { channel = v'; count = v.count; current = v.current },
      refl,
      omega arith,
      q,
      u.here,
      λ j n. u.others j n ∙ get_elem?-set_ne l.channel.buffer_table i j b' n,
      p,
    )

-- ===== src/Local.antt =====
-- lib/bbio/src/bbio_backend_local.c and lib/buffer/buffer.c: the local backend, over the driver's
-- channel. The mapped buffers are the driver's own, so a stream device is the ring state beside the
-- `Channel` that its file descriptor stands for. `none` is undefined behaviour.
pub mod Ring
pub mod Drain
pub mod Window
pub mod Contents
pub mod Samples
mod Tests
use streamio.Common.{
  ℕ, zero, suc, ◌+◌, ◌-◌, ◌*◌, ◌/◌, ◌%◌, ◌^◌, Bool, true, false, Option, none, some, List, [], ◌∷◌,
  length, get_elem?, set, ltb, leb, ◌==◌, if◌then◌else◌, ◌>>=◌,
}
use streamio.Dma
use streamio.Dma.Files
use streamio.Dma.{
  ProxyStatus, no_error, busy, timeout, error, queued, ChannelBuffer, Channel, Submit, Finish,
  start_xfer, finish_xfer, sizeof_channel_buffer, Reply, on_channel,
}

-- `local_buffer_d`, with the channel that its mapping and its descriptor reach.
pub record LocalBuffer : Type 0 where
  pub buffer_count : ℕ
  pub current_buffer_id : ℕ
  pub channel : Channel

-- The answers to an `ioctl` that a call may make.
pub record Answers : Type 0 where
  pub submit : Submit
  pub finish : Finish

-- `buffer->status != PROXY_NO_ERROR`
pub is_clear : ProxyStatus → Bool
is_clear no_error = true
is_clear s = false

pub is_timeout : ProxyStatus → Bool
is_timeout timeout = true
is_timeout s = false

-- ioctl(device->fd, FINISH_XFER, i) where the status says so
pub finish_if_pending : Answers → ℕ → Channel → Option Channel
unfolding is_clear
finish_if_pending a i c = do
  b ← get_elem? c.buffer_table i
  if is_clear b.status
      then some c
      else on_channel (Dma.ioctl finish_xfer i a.submit a.finish (some c))

-- `io_stream_zc_buffer_local`: the next buffer of the ring, or `NULL`, here `none` in the pair.
pub io_stream_zc_buffer_local : Answers → LocalBuffer → Option (LocalBuffer × Option ℕ)
unfolding is_timeout
io_stream_zc_buffer_local a l = do
  let next = l.current_buffer_id
  c ← finish_if_pending a next l.channel
  b ← get_elem? c.buffer_table next
  some (
      if is_timeout b.status
      then (record l { channel = c }, none)
      else (record l { channel = c; current_buffer_id = (next + 1) % l.buffer_count }, some next))

-- `io_write_stream_local`, which is the read too: `offset` is that of `data` from the first buffer,
-- in bytes. The length is stored through `data`: off a buffer's start it would hit other data.
pub io_write_stream_local : Answers → ℕ → ℕ → LocalBuffer → Option (LocalBuffer × ℕ)
io_write_stream_local a offset size l = do
  let buffer_id = offset / sizeof_channel_buffer
  b ← get_elem? l.channel.buffer_table buffer_id
  let c : Channel = record (l.channel) {
    buffer_table = set l.channel.buffer_table buffer_id (record b { length = size % 2 ^ 32 });
  }
  let sent = on_channel (Dma.ioctl start_xfer buffer_id a.submit a.finish (some c))
  c' ← if offset % sizeof_channel_buffer == 0 then sent else none
  some (record l { channel = c' }, buffer_id)

-- The loop of `io_finish_stream_local`, with the answers of each round.
pub finish_from : ℕ → (ℕ → Answers) → ℕ → Channel → Option Channel
finish_from zero answers i c = some c
finish_from (suc n) answers i c =
    finish_if_pending (answers i) i c >>= finish_from n answers (i + 1)

-- for (i = i; rounds left; i++) channel_buffer[i].status = PROXY_NO_ERROR;
pub io_local_buffer_init : Channel → Option LocalBuffer
io_local_buffer_init c = do
  bs ← Files.clear_statuses Dma.buffer_count 0 c.buffer_table
  some (record {
    buffer_count = Dma.buffer_count;
    current_buffer_id = 0;
    channel = record c { buffer_table = bs };
  })

pub io_finish_stream_local : (ℕ → Answers) → LocalBuffer → Option LocalBuffer
io_finish_stream_local answers l = do
  c ← finish_from l.buffer_count answers 0 l.channel
  some (record l { channel = c })

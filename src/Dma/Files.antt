-- ===== src/Dma/Files.antt =====
-- driver/stream_dma/streamio-drv.c: the other operations of a channel's file, `dm_fops`, and what can
-- happen to a channel.
use streamio.Common.{
  ℕ, zero, suc, ◌+◌, ◌-◌, Bool, true, false, Option, none, some, List, [], ◌∷◌, ◌++◌, length,
  get_elem?, set, take, drop, replicate, min, leb, ◌==◌, if◌then◌else◌, ◌>>=◌,
}
use streamio.Dma.{
  buffer_size, buffer_count, ChannelBuffer, ProxyBd, Channel, Submit, Interrupt, interrupt, Finish,
  is_positive, Command, Reply, ioctl, on_channel, no_error, einval, returns,
}

-- for (i = i; rounds left; i++) buffer_table_p[i].status = PROXY_NO_ERROR;
unfoldable pub clear_statuses : ℕ → ℕ → List ChannelBuffer → Option (List ChannelBuffer)
clear_statuses zero i bs = some bs
clear_statuses (suc n) i bs = do
  b ← get_elem? bs i
  clear_statuses n (i + 1) (set bs i (record b { status = no_error }))

-- `device_terminate_all` drops what the engine still had to run.
unfoldable pub local_open : Channel → Option Channel
unfolding clear_statuses
local_open c = do
  bs ← clear_statuses buffer_count 0 c.buffer_table
  some (record c { buffer_table = bs; issued = [] })

unfoldable pub release : Channel → Option Channel
unfolding clear_statuses
release c = do
  bs ← clear_statuses buffer_count 0 c.buffer_table
  some (record c { buffer_table = bs })

-- `copy_from_user` of `bytes` into the selected buffer, of which the last `missing` do not come
-- through: the kernel fills their place by zeros. Nothing bounds the copy by the array's size, and
-- past it the copy would overwrite the status and what follows.
unfoldable pub buffer_write : ℕ → List ℕ → Option Channel → Option (Option Channel × Reply)
buffer_write missing bytes none = some (none, einval)
buffer_write missing bytes (some c) = do
  b ← get_elem? c.buffer_table c.bdindex
  let size = length bytes
  let copied = take (size - missing) bytes ++ replicate (min missing size) 0
  let c' = record c {
    buffer_table =
        set c.buffer_table c.bdindex (record b { buffer = copied ++ drop size b.buffer });
  }
  if leb size buffer_size
      then some (some c', if missing == 0 then returns size else einval)
      else none

-- `dma_proxy_poll`: (POLLIN, POLLOUT)
unfoldable pub dma_proxy_poll : Channel → Bool × Bool
dma_proxy_poll c = (is_positive c.wait_transfer_count, true)

-- The second loop of `dma_proxy_buffer_poll`: some completion is done.
buffer_poll_from : ℕ → ℕ → List ProxyBd → Option Bool
buffer_poll_from zero i ds = some false
buffer_poll_from (suc n) i ds = do
  d ← get_elem? ds i
  let rest = buffer_poll_from n (i + 1) ds
  if d.done == 0 then rest else some true

dma_proxy_buffer_poll : Channel → Option Bool
unfolding buffer_poll_from
dma_proxy_buffer_poll c = buffer_poll_from buffer_count 0 c.bdtable

-- What can happen to a channel: a call of `dm_fops` on its open file, or an interrupt.
pub data Event : Type 0 where
  opens releases : Event
  ioctls : Command → ℕ → Submit → Finish → Event
  writes : ℕ → List ℕ → Event
  interrupted_by : Interrupt → Event

unfoldable pub step : Event → Channel → Option Channel
step opens c = local_open c
step releases c = release c
step (ioctls cmd arg a f) c = on_channel (ioctl cmd arg a f (some c))
step (writes missing bytes) c = on_channel (buffer_write missing bytes (some c))
step (interrupted_by x) c = interrupt x c

unfoldable pub run : List Event → Channel → Option Channel
run [] c = some c
run (x ∷ xs) c = step x c >>= run xs

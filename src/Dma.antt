-- ===== src/Dma.antt =====
-- driver/stream_dma/dma_tx.h and streamio-drv.c: the state of one DMA channel, its transfers and
-- the file operations on it. `none` is an access outside of the channel's tables.
-- What the DMA engine, the wait queue and the user copy answer are arguments of the operations.
pub mod Tables
pub mod Inv
pub mod Bounds
pub mod Status
pub mod Requests
pub mod Calls
pub mod Files
pub mod Contents
pub mod Runs
pub mod Credits
pub mod Setup
mod Tests
use streamio.Common.{
  ℕ, zero, suc, ◌+◌, ◌-◌, ◌%◌, ◌^◌, Bool, true, false, ◌&&◌, Option, none, some, List, [], ◌∷◌,
  ◌++◌, length, get_elem?, set, take, drop, replicate, min, ltb, leb, ◌==◌, if◌then◌else◌, ◌>>=◌,
}

-- `BUFFER_SIZE`, `BUFFER_COUNT`, and `sizeof(struct channel_buffer)` with its alignment of 1024.
abbrev pub buffer_size : ℕ
buffer_size = 131072

abbrev pub buffer_count : ℕ
buffer_count = 32

abbrev pub sizeof_channel_buffer : ℕ
sizeof_channel_buffer = 132096

-- `enum proxy_status`
pub data ProxyStatus : Type 0 where
  no_error busy timeout error queued : ProxyStatus

-- `struct channel_buffer`, its array as bytes
pub record ChannelBuffer : Type 0 where
  pub buffer : List ℕ
  pub status : ProxyStatus
  pub length : ℕ

-- `dma_cookie_t`: a negative cookie is an error.
pub data Cookie : Type 0 where
  accepted refused : ℕ → Cookie

-- `struct proxy_bd`; `done` is the counter of its completion, `sg_*` its one-entry scatter list.
pub record ProxyBd : Type 0 where
  pub done : ℕ
  pub cookie : Cookie
  pub dma_handle : ℕ
  pub sg_address : ℕ
  pub sg_length : ℕ

-- A descriptor handed to the engine: what to move, and the entry whose completion it signals.
pub record Transfer : Type 0 where
  pub address : ℕ
  pub size : ℕ
  pub entry : ℕ

-- `struct dma_proxy_channel`. `issued` is what the engine was told to run, in order;
-- `wait_transfer_count` is the bit pattern of its `int`.
pub record Channel : Type 0 where
  pub buffer_table : List ChannelBuffer
  pub bdtable : List ProxyBd
  pub buffer_phys_addr : ℕ
  pub bdindex : ℕ
  pub wait_transfer_count : ℕ
  pub issued : List Transfer

-- What the engine answers to one start: a descriptor or not, and a cookie.
pub record Submit : Type 0 where
  pub prepared : Bool
  pub cookie : Cookie

-- from `init_completion` on
pub submit_transfer : Cookie → ChannelBuffer → ProxyBd → Channel → Channel
submit_transfer (refused e) b d c = record c {
  bdtable = set c.bdtable c.bdindex (record d { done = 0; cookie = refused e });
}
submit_transfer (accepted n) b d c = record c {
  bdtable = set c.bdtable c.bdindex (record d { done = 0; cookie = accepted n });
  buffer_table = set c.buffer_table c.bdindex (record b { status = queued });
  issued =
      c.issued ++ record { address = d.sg_address; size = d.sg_length; entry = c.bdindex } ∷ [];
}

pub start_transfer : Submit → Channel → Option Channel
start_transfer a c = do
  b ← get_elem? c.buffer_table c.bdindex
  d ← get_elem? c.bdtable c.bdindex
  let d' = record d { sg_address = d.dma_handle; sg_length = b.length }
  some (
      if a.prepared
      then submit_transfer a.cookie b d' c
      else record c { bdtable = set c.bdtable c.bdindex d' })

-- What may run while `wait_for_transfer` sleeps.
pub data Interrupt : Type 0 where
  irq : Interrupt
  callback : ℕ → Interrupt

-- `atomic_inc_return`, on an `int`
pub irq_handler : Channel → Channel
irq_handler c = record c { wait_transfer_count = (c.wait_transfer_count + 1) % 2 ^ 32 }

-- `complete` on the entry's completion
pub sync_callback : ℕ → Channel → Option Channel
sync_callback i c = do
  d ← get_elem? c.bdtable i
  some (record c { bdtable = set c.bdtable i (record d { done = d.done + 1 }) })

pub interrupt : Interrupt → Channel → Option Channel
unfolding irq_handler sync_callback
interrupt irq c = some (irq_handler c)
interrupt (callback i) c = sync_callback i c

pub interrupts : List Interrupt → Channel → Option Channel
interrupts [] c = some c
interrupts (x ∷ xs) c = interrupt x c >>= interrupts xs

-- `wait_for_completion_interruptible_timeout`: 0, a positive rest, or -ERESTARTSYS, which is not 0.
pub data Wait : Type 0 where
  timed_out woken interrupted : Wait

-- `enum dma_status`
pub data DmaStatus : Type 0 where
  dma_complete dma_in_progress dma_paused dma_error : DmaStatus

pub record Finish : Type 0 where
  pub meanwhile : List Interrupt
  pub wait : Wait
  pub status : DmaStatus

-- An `int` greater than 0.
abbrev pub is_positive : ℕ → Bool
is_positive n = ltb 0 n && ltb n (2 ^ 31)

-- `atomic_dec_if_positive`
pub dec_if_positive : ℕ → ℕ
dec_if_positive n = if is_positive n then n - 1 else n

-- The status that a wait leaves, and the count. The first match decides, as in the code.
pub outcome : Wait → DmaStatus → ProxyStatus
outcome timed_out s = timeout
outcome woken dma_complete = no_error
outcome interrupted dma_complete = no_error
outcome w s = error

abbrev pub takes_credit : ProxyStatus → ℕ → ℕ
takes_credit no_error n = dec_if_positive n
takes_credit s n = n

abbrev consume : Wait → ℕ → ℕ
consume woken done = done - 1
consume w done = done

-- The buffer is BUSY while the call sleeps.
pub begin_wait : Channel → Option Channel
begin_wait c = do
  b ← get_elem? c.buffer_table c.bdindex
  some (record c { buffer_table = set c.buffer_table c.bdindex (record b { status = busy }) })

pub end_wait : Wait → DmaStatus → Channel → Option Channel
unfolding outcome
end_wait w s c = do
  b ← get_elem? c.buffer_table c.bdindex
  d ← get_elem? c.bdtable c.bdindex
  some (record c {
    bdtable = set c.bdtable c.bdindex (record d { done = consume w d.done });
    buffer_table = set c.buffer_table c.bdindex (record b { status = outcome w s });
    wait_transfer_count = takes_credit (outcome w s) c.wait_transfer_count;
  })

pub wait_for_transfer : Finish → Channel → Option Channel
wait_for_transfer f c = do
  sleeping ← begin_wait c
  woke ← interrupts f.meanwhile sleeping
  end_wait f.wait f.status woke

pub data Command : Type 0 where
  start_xfer finish_xfer xfer select : Command

pub data Reply : Type 0 where
  returns : ℕ → Reply
  einval : Reply

-- The switch of `ioctl`; `SELECT` and any other command has no case.
pub run_command : Command → Submit → Finish → Channel → Option Channel
run_command start_xfer a f c = start_transfer a c
run_command finish_xfer a f c = wait_for_transfer f c
run_command xfer a f c = start_transfer a c >>= wait_for_transfer f
run_command select a f c = some c

-- `private_data` may be null. The argument becomes an `int`, with no test of its range.
pub ioctl : Command → ℕ → Submit → Finish → Option Channel → Option (Option Channel × Reply)
ioctl cmd arg a f none = some (none, einval)
ioctl cmd arg a f (some c) = do
  c' ← run_command cmd a f (record c { bdindex = arg % 2 ^ 32 })
  some (some c', returns 0)

abbrev pub on_channel : Option (Option Channel × Reply) → Option Channel
on_channel none = none
on_channel (some (c, r)) = c

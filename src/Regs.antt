-- ===== src/Regs.antt =====
-- driver/axi_ctrl/streamio-ctrl-drv.c: the register file `/dev/tc` and its file operations.
-- `none` is undefined behaviour: a register access outside of the region, or an unset variable.
pub mod Access
pub mod Mapping
pub mod Setup
mod Tests
use streamio.Common.{
  ℕ, zero, suc, ◌+◌, ◌-◌, ◌*◌, ◌/◌, ◌%◌, ◌^◌, Bool, true, false, Option, none, some, List, [], ◌∷◌,
  ◌||◌, ◌++◌, length, get_elem?, set, take, replicate, min, leb, ◌==◌, if◌then◌else◌, ◌>>=◌,
}

abbrev pub reg_size : ℕ
reg_size = 4

abbrev pub reg_length : ℕ
reg_length = 512

-- An open file: `file->f_pos`, and `tc->addr`, which only `tc_cdev_open` sets, to 0.
pub record File : Type 0 where
  pub f_pos : ℕ
  pub addr : ℕ

pub tc_cdev_open : File
tc_cdev_open = record { f_pos = 0; addr = 0 }

-- `read_size` and `write_size`
abbrev pub word_count : File → ℕ → ℕ
word_count f size = min (size / reg_size) (reg_length - f.addr) % 2 ^ 32

-- where the loops start: an `unsigned int`
abbrev pub first_word : File → ℕ
first_word f = f.f_pos / reg_size % 2 ^ 32

-- reg_read_buffer[addr] = ioread32(regs + addr * REG_SIZE), for the rounds that are left
pub read_words : ℕ → ℕ → List ℕ → List ℕ → Option (List ℕ)
read_words zero addr regs buffer = some buffer
read_words (suc n) addr regs buffer = do
  r ← get_elem? regs addr
  read_words n (addr + 1) regs (set buffer addr r)

-- The data that `copy_to_user` moved, whole words, or -EFAULT.
pub data ReadResult : Type 0 where
  words : List ℕ → ReadResult
  efault : ReadResult

-- `allocated` is whether `kzalloc` gives the buffer, which then is zeroed; the code does not test it, so
-- without it any access of a word is one through NULL. `copied` is whether the user's memory took
-- the data.
pub tc_cdev_read : Bool → Bool → ℕ → List ℕ → File → Option (File × ReadResult)
unfolding read_words
tc_cdev_read allocated copied size regs f = do
  let n = word_count f size
  checked ← if allocated || n == 0 then some n else none
  buffer ← read_words (n - first_word f) (first_word f) regs (replicate (size / reg_size) 0)
  some (
      if copied
      then (record f { f_pos = f.f_pos + n * reg_size }, words (take n buffer))
      else (f, efault))

-- iowrite32(reg_read_buffer[addr], regs + addr * REG_SIZE), for the rounds that are left
pub write_words : ℕ → ℕ → List ℕ → List ℕ → Option (List ℕ)
write_words zero addr buffer regs = some regs
write_words (suc n) addr buffer regs = do
  v ← get_elem? buffer addr
  r ← get_elem? regs addr
  write_words n (addr + 1) buffer (set regs addr v)

-- `data` is what the user hands over: the whole words of `size` bytes. The result is the registers,
-- the file, and the byte count or -EFAULT, here `none`.
pub tc_cdev_write : Bool → Bool → ℕ → List ℕ → List ℕ → File → Option (List ℕ × File × Option ℕ)
unfolding write_words
tc_cdev_write allocated copied size buffer regs f = do
  let n = word_count f size
  checked ← if allocated || size == 0 then some size else none
  let run = write_words (n - first_word f) (first_word f) buffer regs
  regs' ← if copied then run else some regs
  some (
      if copied
      then (regs', record f { f_pos = f.f_pos + n * reg_size }, some size)
      else (regs, f, none))

-- A signed `loff_t`: `negative n` is -(n + 1).
pub data Offset : Type 0 where
  nonnegative negative : ℕ → Offset

pub data Whence : Type 0 where
  seek_set seek_end seek_cur other : Whence

-- The new position, or -EINVAL, here `none` in the pair.
abbrev pub seek_to : File → Offset → File × Option ℕ
seek_to f (nonnegative n) = (record f { f_pos = n }, some n)
seek_to f (negative n) = (f, none)

-- `tc->addr + offset`
abbrev add_offset : ℕ → Offset → Offset
add_offset a (nonnegative n) = nonnegative (a + n)
add_offset a (negative n) = if leb (n + 1) a then nonnegative (a - (n + 1)) else negative (n - a)

pub llseek : Offset → Whence → File → Option (File × Option ℕ)
llseek offset seek_set f = some (seek_to f offset)
llseek offset seek_end f = some (seek_to f (nonnegative reg_length))
llseek offset seek_cur f = some (seek_to f (add_offset f.addr offset))
llseek offset other f = none

-- `simple_mmap`: the size that `remap_pfn_range` is given.
pub map_size : ℕ → ℕ → ℕ
map_size page size = if size % page == 0 then size else (size + page) / page * page

-- ===== src/Regs/Access.antt =====
-- What a read and a write of the register file move.
use streamio.Common.{
  ℕ, zero, suc, ◌+◌, ◌-◌, ◌*◌, ◌/◌, ◌^◌, ◌<◌, ◌≤◌, ◌≡◌, refl, ◌∙◌, true, ◌&&◌, Option, some, List,
  length, length-set, length-replicate, get_elem?, get_elem?_of_lt, take-ext, get_elem?-replicate,
  take-replicate, get_elem?-set_self, get_elem?-set_ne, set, take, replicate, min, arith, ltb, leb,
  if◌then◌else◌,
}
use streamio.Regs.{
  File, reg_length, word_count, first_word, read_words, write_words, words, tc_cdev_open,
  tc_cdev_read, tc_cdev_write,
}

-- Word `j` of one list where the loop has been, and of the other elsewhere.
abbrev patched : ℕ → ℕ → List ℕ → List ℕ → ℕ → Option ℕ
patched from upto new old j = if leb from j && ltb j upto then get_elem? new j else get_elem? old j

read_words-patched :
    (n addr : ℕ) (regs buffer : List ℕ)
    → n ≤ length regs - addr
    → n ≤ length buffer - addr
    → (out : List ℕ) × (read_words n addr regs buffer ≡ some out)
      × (length out ≡ length buffer)
      × ((j : ℕ) → get_elem? out j ≡ patched addr (addr + n) regs buffer j)
unfolding read_words
read_words-patched zero addr regs buffer h k = (buffer, refl, refl, λ j. ground arith)
read_words-patched (suc n) addr regs buffer h k =
    let (r, e) = get_elem?_of_lt regs addr (omega arith) in
    let (out, run, same, all) =
      read_words-patched n (addr + 1) regs (set buffer addr r) (omega arith)
        (omega (arith, length-set buffer addr r)) in
    (
      out,
      rw e run,
      same ∙ length-set buffer addr r,
      λ j.
          ground
            (arith, all j, e, get_elem?-set_self buffer addr r, get_elem?-set_ne buffer addr j r),
    )

write_words-patched :
    (n addr : ℕ) (buffer regs : List ℕ)
    → n ≤ length regs - addr
    → n ≤ length buffer - addr
    → (out : List ℕ) × (write_words n addr buffer regs ≡ some out)
      × (length out ≡ length regs)
      × ((j : ℕ) → get_elem? out j ≡ patched addr (addr + n) buffer regs j)
unfolding write_words
write_words-patched zero addr buffer regs h k = (regs, refl, refl, λ j. ground arith)
write_words-patched (suc n) addr buffer regs h k =
    let (v, e) = get_elem?_of_lt buffer addr (omega arith) in
    let (r, e') = get_elem?_of_lt regs addr (omega arith) in
    let (out, run, same, all) =
      write_words-patched n (addr + 1) buffer (set regs addr v)
        (omega (arith, length-set regs addr v)) (omega arith) in
    (
      out,
      rw (e, e') run,
      same ∙ length-set regs addr v,
      λ j. ground (arith, all j, e, get_elem?-set_self regs addr v, get_elem?-set_ne regs addr j v),
    )

-- The words that a call of `size` bytes covers, from the start of the file on.
abbrev pub covered : ℕ → ℕ
covered size = min (size / 4) 512

word_count-covered : (size p : ℕ) → word_count (record { f_pos = p; addr = 0 }) size ≡ covered size
word_count-covered size p = omega arith

first_word-div : (p : ℕ) → p < 2 ^ 34 → first_word (record { f_pos = p; addr = 0 }) ≡ p / 4
first_word-div p h = omega arith

read_run :
    (size p : ℕ) (regs out : List ℕ)
    → p < 2 ^ 34
    → read_words (covered size - p / 4) (p / 4) regs (replicate (size / 4) 0) ≡ some out
    → tc_cdev_read true true size regs (record { f_pos = p; addr = 0 })
      ≡ some (record { f_pos = p + covered size * 4; addr = 0 }, words (take (covered size) out))
unfolding tc_cdev_read
read_run size p regs out h e = rw (word_count-covered size p, first_word-div p h, e) refl

write_run :
    (size p : ℕ) (buffer regs out : List ℕ)
    → p < 2 ^ 34
    → write_words (covered size - p / 4) (p / 4) buffer regs ≡ some out
    → tc_cdev_write true true size buffer regs (record { f_pos = p; addr = 0 })
      ≡ some (out, record { f_pos = p + covered size * 4; addr = 0 }, some size)
unfolding tc_cdev_write
write_run size p buffer regs out h e = rw (word_count-covered size p, first_word-div p h, e) refl

-- A read of `size` bytes from any byte position below 2^34, where the kernel gives the buffer and the
-- user's memory takes the data: it ends at register
-- `covered size`, however far on it starts, and in the data that it returns, word `j` is register `j`
-- from the position on and 0 before it. The position moves on by the data's bytes.
pub tc_cdev_read_lem :
    (size p : ℕ) (regs : List ℕ)
    → length regs ≡ reg_length
    → p < 2 ^ 34
    → (buffer : List ℕ) × (tc_cdev_read true true size regs (record { f_pos = p; addr = 0 })
        ≡ some
            (record { f_pos = p + covered size * 4; addr = 0 }, words (take (covered size) buffer)))
      × ((j : ℕ)
          → j < covered size
          → get_elem? buffer j ≡ (if leb (p / 4) j then get_elem? regs j else some 0))
tc_cdev_read_lem size p regs l h =
    let zeros : List ℕ = replicate (size / 4) 0 in
    let z = length-replicate {A = ℕ} (size / 4) 0 in
    let (out, run, same, all) =
      read_words-patched (covered size - p / 4) (p / 4) regs zeros (omega (arith, l))
        (omega (arith, z)) in
    (
      out,
      read_run size p regs out h run,
      λ j lt. ground (arith, all j, get_elem?-replicate {A = ℕ} (size / 4) j 0),
    )

-- A write of `size` bytes from any byte position below 2^34 stores word `j` of the data in register
-- `j`, for the registers from the position on and below `covered size`, and changes no other one.
-- It returns `size`, and the position moves on by the covered bytes.
tc_cdev_write_lem :
    (size p : ℕ) (buffer regs : List ℕ)
    → length regs ≡ reg_length
    → length buffer ≡ size / 4
    → p < 2 ^ 34
    → (out : List ℕ) × (tc_cdev_write true true size buffer regs (record { f_pos = p; addr = 0 })
        ≡ some (out, record { f_pos = p + covered size * 4; addr = 0 }, some size))
      × (length out ≡ reg_length)
      × ((j : ℕ)
          → get_elem? out j ≡ (
              if leb (p / 4) j && ltb j (covered size)
              then get_elem? buffer j
              else get_elem? regs j))
tc_cdev_write_lem size p buffer regs l k h =
    let (out, run, same, all) =
      write_words-patched (covered size - p / 4) (p / 4) buffer regs (omega (arith, l))
        (omega (arith, k)) in
    (out, write_run size p buffer regs out h run, same ∙ l, λ j. ground (arith, all j))

-- From the start of the file a read returns the first registers, as many as the call covers.
tc_cdev_read_start :
    (size : ℕ) (regs : List ℕ)
    → length regs ≡ reg_length
    → tc_cdev_read true true size regs tc_cdev_open
      ≡ some (record { f_pos = covered size * 4; addr = 0 }, words (take (covered size) regs))
unfolding tc_cdev_open
tc_cdev_read_start size regs l =
    let (buffer, run, all) = tc_cdev_read_lem size 0 regs l (omega arith) in
    let same : take (covered size) buffer ≡ take (covered size) regs =
      take-ext (covered size) buffer regs (λ j lt. ground (arith, all j lt)) in
    ground (arith, run, same)

-- What was written from the start of the file is what a read from the start returns.
tc_cdev_read-write :
    (size : ℕ) (buffer regs : List ℕ)
    → length regs ≡ reg_length
    → length buffer ≡ size / 4
    → (out : List ℕ) × (f : File) × (tc_cdev_write true true size buffer regs tc_cdev_open
        ≡ some (out, f, some size))
      × (tc_cdev_read true true size out tc_cdev_open
          ≡ some (f, words (take (covered size) buffer)))
unfolding tc_cdev_open
tc_cdev_read-write size buffer regs l k =
    let (out, run, len, all) = tc_cdev_write_lem size 0 buffer regs l k (omega arith) in
    let same : take (covered size) out ≡ take (covered size) buffer =
      take-ext (covered size) out buffer (λ j lt. ground (arith, all j)) in
    (
      out,
      record { f_pos = covered size * 4; addr = 0 },
      ground (arith, run),
      ground (arith, tc_cdev_read_start size out len, same),
    )

-- A read at or past the end of what it covers returns zeros, whatever the registers hold: so does
-- the second of two reads in a row.
tc_cdev_read_past :
    (size p : ℕ) (regs : List ℕ)
    → length regs ≡ reg_length
    → p < 2 ^ 34
    → covered size ≤ p / 4
    → tc_cdev_read true true size regs (record { f_pos = p; addr = 0 })
      ≡ some (record { f_pos = p + covered size * 4; addr = 0 }, words (replicate (covered size) 0))
tc_cdev_read_past size p regs l h c =
    let (buffer, run, all) = tc_cdev_read_lem size p regs l h in
    let same : take (covered size) buffer ≡ replicate (covered size) 0 =
      take-ext (covered size) buffer (replicate (covered size) 0)
        (λ j lt. ground (arith, all j lt, get_elem?-replicate {A = ℕ} (covered size) j 0))
      ∙ take-replicate (covered size) 0 in
    ground (arith, run, same)

-- ===== src/Regs/Mapping.antt =====
-- The position after a seek, and the size of a mapping.
use native.Mathlib.Nat.{div-add-mod', mod-lt, mul-mod_left, add-mod_right}
use streamio.Common.{
  ℕ, ◌+◌, ◌/◌, ◌%◌, ◌<◌, ◌≤◌, ◌≡◌, refl, inl, inr, none, some, arith, ◌==◌, Bool-cases,
}
use streamio.Regs.{
  File, Offset, nonnegative, negative, seek_set, seek_end, seek_cur, llseek, map_size,
}

-- On a file as `tc_cdev_open` leaves its context, wherever its position is: SEEK_CUR goes where
-- SEEK_SET goes, so it counts from the start of the file and not from the position; SEEK_END goes
-- to 512, a quarter of the registers' bytes, whatever the offset; and a seek that fails, which it
-- does exactly for a negative target, leaves the file as it was.
llseek_lem :
    (offset : Offset) (f : File)
    → f.addr ≡ 0
    → (llseek offset seek_cur f ≡ llseek offset seek_set f)
      × (llseek offset seek_end f ≡ some (record f { f_pos = 512 }, some 512))
      × ((n : ℕ)
          → offset ≡ nonnegative n
          → llseek offset seek_set f ≡ some (record f { f_pos = n }, some n))
      × ((n : ℕ) → offset ≡ negative n → llseek offset seek_set f ≡ some (f, none))
unfolding llseek
llseek_lem (nonnegative k) f z = (ground arith, refl, λ n e. ground arith, λ n e. ground arith)
llseek_lem (negative k) f z = (ground arith, refl, λ n e. ground arith, λ n e. ground arith)

-- The size that is mapped is the least whole number of pages that holds the size asked for.
map_size_lem :
    (page size : ℕ)
    → 0 < page
    → (map_size page size % page ≡ 0)
      × (size ≤ map_size page size)
      × (map_size page size < size + page)
unfolding map_size
map_size_lem page size h = elim (Bool-cases (size % page == 0)) [
  | inl whole ↦ ground arith
  | inr rest ↦ ground (
    arith,
    mul-mod_left ((size + page) / page) page,
    div-add-mod' (size + page) page,
    mod-lt (size + page) h,
    add-mod_right size page,
  )
]

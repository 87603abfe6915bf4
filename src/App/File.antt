-- ===== src/App/File.antt =====
-- userspace/test_app/src/tc_test.c: how `main_tx_file` reads the numbers of a file.
pub mod Numbers
pub mod Output
mod Tests
use streamio.Common.{
  ℕ, zero, suc, ◌+◌, ◌-◌, min, Option, none, some, List, [], ◌∷◌, ◌++◌, take, drop, length, set,
  get_elem?, ltb, ◌==◌, if◌then◌else◌, ◌>>=◌,
}

-- sscanf(line, "%u", ...): the number of a line, if it is found; and what malloc gives for `n` words.
module _ (scan : List ℕ → Option ℕ) (fresh : ℕ → List ℕ) where
  -- The first loop over the lines: their number, or `none` for the return of -1.
  unfoldable pub count_lines : List (List ℕ) → ℕ → Option ℕ
  count_lines [] n = some n
  count_lines (l ∷ ls) n = scan l >>= λ v. count_lines ls (n + 1)

  -- The second loop: where `input_temp` points, and the memory; `none` is a write past it.
  unfoldable pub store_lines : List (List ℕ) → ℕ → List ℕ → Option (ℕ × List ℕ)
  store_lines [] at temp = some (at, temp)
  store_lines (l ∷ ls) at temp = elim (scan l) [
    | none ↦ store_lines ls at temp
    | some v ↦
        let rest = store_lines ls (at + 1) (set temp at v) in
        if ltb at (length temp) then rest else none
  ]

  -- Both loops: the numbers, or the inner `none` for the return of -1. `input_temp` goes back by
  -- `data_size`, which is to be its start.
  unfoldable pub read_input : List (List ℕ) → Option (Option (List ℕ))
  read_input lines = elim (count_lines lines 0) [
    | none ↦ some none
    | some n ↦ (do
      (at, temp) ← store_lines lines 0 (fresh n)
      if at == n then some (some temp) else none)
  ]

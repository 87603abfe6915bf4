-- ===== src/App/File/Tests.antt =====
-- Runs of main_tx_file's loops over the lines, tc_test.c.
use streamio.Common.{ℕ, ◌≡◌, refl, Option, none, some, List, [], ◌∷◌, replicate, length-replicate}
use streamio.App.File.{read_input}
use streamio.App.File.Numbers.{numbers, read_input-numbers}

-- The first byte of a line stands for its number.
scan_first : List ℕ → Option ℕ
scan_first [] = none
scan_first (x ∷ xs) = some x

abbrev zeros : ℕ → List ℕ
zeros n = replicate n 0

abbrev file : List (List ℕ)
file = (11 ∷ []) ∷ (12 ∷ []) ∷ (13 ∷ []) ∷ (14 ∷ []) ∷ []

file-numbers : numbers scan_first file ≡ some (11 ∷ 12 ∷ 13 ∷ 14 ∷ [])
unfolding scan_first
file-numbers = refl

read_input-numbers_example : read_input scan_first zeros file ≡ some (numbers scan_first file)
read_input-numbers_example = read_input-numbers scan_first zeros file (λ n. length-replicate n 0)

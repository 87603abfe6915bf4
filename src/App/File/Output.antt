-- ===== src/App/File/Output.antt =====
-- The arguments of main_tx_file and the file that it writes: userspace/test_app/src/arg_parse.c and the
-- end of main_tx_file in tc_test.c.
use streamio.Common.{
  ℕ, zero, suc, ◌+◌, ◌≤◌, ◌≡◌, refl, ap, Bool, true, Option, none, some, List, [], ◌∷◌, map, take,
  drop, length, get_elem?, get_elem?_of_lt, ◌>>=◌, if◌then◌else◌, arith,
}
use streamio.App.Ramp.{drop-get}

-- `struct arguments`; `A` are the strings.
pub record Arguments (A : Type 0) : Type 0 where
  pub input_file_path : Option A
  pub output_file_path : Option A

-- 'i', 'o', and every other key.
pub data FileKey : Type 0 where
  input output other : FileKey

-- `none` is ARGP_ERR_UNKNOWN.
pub parse_opt : {A : Type 0} → FileKey → A → Arguments A → Option (Arguments A)
parse_opt input arg o = some (record o { input_file_path = some arg })
parse_opt output arg o = some (record o { output_file_path = some arg })
parse_opt other arg o = none

module _ {L : Type 0} (print : ℕ → L) where
  -- for (i = i; rounds left; i++) fprintf(output_f, "%d\n", output_temp[i]): the lines.
  pub print_words : ℕ → ℕ → List ℕ → Option (List L)
  print_words zero i words = some []
  print_words (suc n) i words = do
    w ← get_elem? words i
    ls ← print_words n (i + 1) words
    some (print w ∷ ls)

  -- The file, if one is asked for, or the inner `none` for the return of -1. `opened` is whether
  -- `fopen` gives it; the outer `none` is an access past the output.
  pub write_output : {A : Type 0} → Option A → Bool → ℕ → List ℕ → Option (Option (List L))
  write_output none opened j words = some (some [])
  write_output (some path) opened j words =
      let lines = (do ls ← print_words j 0 words; some (some ls)) in
      if opened then lines else some none

  print_words-take :
      (n i : ℕ) (words : List ℕ)
      → i + n ≤ length words
      → print_words n i words ≡ some (map print (take n (drop i words)))
  unfolding print_words
  print_words-take zero i words h = refl
  print_words-take (suc n) i words h =
      let (w, e) = get_elem?_of_lt words i (omega (arith, h)) in
      let cut : take (suc n) (drop i words) ≡ w ∷ take n (drop (i + 1) words) =
        ap (take (suc n)) (drop-get i words w e) in
      rw (e, print_words-take n (i + 1) words (omega (arith, h)), cut) refl

  -- The file that can be opened gets a line for each of the first `j` words, in their order.
  write_output-take :
      {A : Type 0} (path : A) (j : ℕ) (words : List ℕ)
      → j ≤ length words
      → write_output (some path) true j words ≡ some (some (map print (take j words)))
  unfolding write_output
  write_output-take path j words h = rw (print_words-take j 0 words (omega (arith, h))) refl

-- ===== src/App/File/Numbers.antt =====
-- The numbers of a file, userspace/test_app/src/tc_test.c.
use streamio.Common.{
  ℕ, suc, ◌+◌, ◌≡◌, refl, sym, ap, ap₂, ◌∙◌, Option, some, Option-cases, List, [], ◌∷◌, ◌++◌,
  length, length-append, set, set-append, append_assoc, arith, ltb, ◌==◌, ◌>>=◌, inl, inr,
  nil_of_length, true, >>=-eq-some, some-subst,
}
use streamio.App.File.{count_lines, store_lines, read_input}

-- The numbers of the lines, if each line has one.
abbrev pub numbers : (List ℕ → Option ℕ) → List (List ℕ) → Option (List ℕ)
numbers scan [] = some []
numbers scan (l ∷ ls) = do v ← scan l; vs ← numbers scan ls; some (v ∷ vs)

module _ (scan : List ℕ → Option ℕ) (fresh : ℕ → List ℕ) where
  count_lines_lem :
      (ls : List (List ℕ)) (n : ℕ)
      → count_lines scan fresh ls n ≡ (numbers scan ls >>= λ vs. some (n + length vs))
  unfolding count_lines
  count_lines_lem [] n = ap some (omega arith)
  count_lines_lem (l ∷ ls) n = elim (Option-cases (scan l)) [
    | inl e ↦ rw e refl
    | inr (v, e) ↦ elim (Option-cases (numbers scan ls)) [
      | inl f ↦ rw e (count_lines_lem ls (n + 1) ∙ rw f refl)
      | inr (vs, f) ↦
          let s : n + 1 + length vs ≡ n + suc (length vs) = omega arith in
          rw (e, f) (count_lines_lem ls (n + 1) ∙ rw f (ap some s))
    ]
  ]

  store_one :
      (l : List ℕ) (ls : List (List ℕ)) (at v : ℕ) (temp : List ℕ) {r : Option (ℕ × List ℕ)}
      → scan l ≡ some v
      → ltb at (length temp) ≡ true
      → store_lines scan fresh ls (at + 1) (set temp at v) ≡ r
      → store_lines scan fresh (l ∷ ls) at temp ≡ r
  unfolding store_lines
  store_one l ls at v temp e room run = rw (store_lines, e, room) run

  -- With as much memory behind `pre` as there are numbers, the second loop fills just that.
  store_lines_lem :
      (ls : List (List ℕ)) (vs pre junk : List ℕ)
      → numbers scan ls ≡ some vs
      → length junk ≡ length vs
      → store_lines scan fresh ls (length pre) (pre ++ junk)
        ≡ some (length pre + length vs, pre ++ vs)
  unfolding store_lines
  store_lines_lem [] vs pre junk e h =
      some-subst
        (λ vs.
          length junk ≡ length vs
          → store_lines scan fresh [] (length pre) (pre ++ junk)
            ≡ some (length pre + length vs, pre ++ vs))
        e
        (λ h.
          let a : length pre ≡ length pre + 0 = omega arith in
          ap₂ (λ n xs. some (n, pre ++ xs)) a (nil_of_length junk h))
        h
  store_lines_lem (l ∷ ls) vs pre [] e h =
      let (v, e1, e2) = >>=-eq-some (scan l) _ e in
      let (vs', e3, e4) = >>=-eq-some (numbers scan ls) _ e2 in
      let size : suc (length vs') ≡ length vs =
        some-subst (λ vs. suc (length vs') ≡ length vs) e4 refl in
      absurd (omega arith)
  store_lines_lem (l ∷ ls) vs pre (x ∷ junk) e h =
      let (v, e1, e2) = >>=-eq-some (scan l) _ e in
      let (vs', e3, e4) = >>=-eq-some (numbers scan ls) _ e2 in
      let size : suc (length vs') ≡ length vs =
        some-subst (λ vs. suc (length vs') ≡ length vs) e4 refl in
      let rest = store_lines_lem ls vs' (pre ++ (v ∷ [])) junk e3 (omega arith) in
      let len = length-append pre (v ∷ []) in
      let next : length pre + 1 ≡ length (pre ++ (v ∷ [])) = omega (arith, len) in
      let stored : set (pre ++ (x ∷ junk)) (length pre) v ≡ (pre ++ (v ∷ [])) ++ junk =
        set-append pre junk x v ∙ sym (append_assoc pre (v ∷ []) junk) in
      let end : length (pre ++ (v ∷ [])) + length vs' ≡ length pre + suc (length vs') =
        omega (arith, len) in
      let room : ltb (length pre) (length (pre ++ (x ∷ junk))) ≡ true =
        ground (arith, length-append pre (x ∷ junk)) in
      let run : store_lines scan fresh ls (length pre + 1) (set (pre ++ (x ∷ junk)) (length pre) v)
          ≡ some (length pre + suc (length vs'), pre ++ (v ∷ vs')) =
        ap₂ (store_lines scan fresh ls) next stored
        ∙ rest
        ∙ ap₂ (λ n xs. some (n, xs)) end (append_assoc pre (v ∷ []) vs') in
      some-subst
        (λ vs.
          store_lines scan fresh (l ∷ ls) (length pre) (pre ++ (x ∷ junk))
          ≡ some (length pre + length vs, pre ++ vs))
        e4 (store_one l ls (length pre) v (pre ++ (x ∷ junk)) e1 room run)

  pub read_input-numbers :
      (ls : List (List ℕ))
      → ((n : ℕ) → length (fresh n) ≡ n)
      → read_input scan fresh ls ≡ some (numbers scan ls)
  unfolding read_input
  read_input-numbers ls size = elim (Option-cases (numbers scan ls)) [
    | inl e ↦ rw (read_input, count_lines_lem ls 0, e) refl
    | inr (vs, e) ↦
        let n : 0 + length vs ≡ length vs = omega arith in
        let run = store_lines_lem ls vs [] (fresh (length vs)) e (size (length vs)) in
        let same : (length vs == length vs) ≡ true = ground arith in
        rw (read_input, count_lines_lem ls 0, e, n, run) (rw (n, same) refl)
  ]

-- ===== src/App/Validate.antt =====
-- userspace/io_client/src/client_test.c, `validate_data`: the words of a test pattern.
-- `none` is an access outside of the buffer.
use streamio.Common.{
  ℕ, zero, suc, ◌+◌, ◌-◌, ◌*◌, ◌%◌, ◌^◌, ◌≤◌, ◌<◌, ◌≡◌, ◌↔◌, refl, sym, ap, ap₂, ◌∙◌, min, Option,
  none, some, List, [], ◌∷◌, take, drop, length, get_elem?, get_elem?_of_lt, arith, ltb, ◌==◌,
  if◌then◌else◌, ◌>>=◌, inl, inr, Bool-cases, ==→eq, ==→ne,
}
use streamio.App.Ramp.{drop-get}

-- The last `n` words that are printed around a wrong one, from the index `pos` on.
unfoldable pub printed : ℕ → ℕ → List ℕ → Option (List ℕ)
printed zero pos buffer = some []
printed (suc n) pos buffer = do
  w ← get_elem? buffer pos
  ws ← printed n (pos + 1) buffer
  some (w ∷ ws)

-- What is printed when the word at `i` is wrong.
unfoldable pub around : ℕ → ℕ → List ℕ → Option (List ℕ)
around test_size i buffer =
    let first = if ltb 10 i then i - 10 else 0 in
    let end = min (i + 10) test_size in printed (end - first) first buffer

-- The last `n` rounds of the loop, from the index `i` on: `none` inside, or what is printed.
unfoldable pub validate_from : ℕ → ℕ → ℕ → List ℕ → Option (Option (List ℕ))
validate_from test_size zero i buffer = some none
validate_from test_size (suc n) i buffer = do
  w ← get_elem? buffer i
  let rest = validate_from test_size n (i + 1) buffer
  let wrong = (do ws ← around test_size i buffer; some (some ws))
  if w == (i * 2) % 2 ^ 32 then rest else wrong

unfoldable pub validate_data : ℕ → List ℕ → Option (Option (List ℕ))
validate_data test_size buffer = validate_from test_size test_size 0 buffer

-- The pattern: each word is twice its index.
abbrev pub pattern : ℕ → ℕ → List ℕ
pattern i zero = []
pattern i (suc n) = ((i * 2) % 2 ^ 32) ∷ pattern (i + 1) n

printed-some :
    (n pos : ℕ) (buffer : List ℕ)
    → pos + n ≤ length buffer
    → (ws : List ℕ) × (printed n pos buffer ≡ some ws)
unfolding printed
printed-some zero pos buffer h = ([], refl)
printed-some (suc n) pos buffer h =
    let (w, e) = get_elem?_of_lt buffer pos (omega arith) in
    let (ws, es) = printed-some n (pos + 1) buffer (omega arith) in (w ∷ ws, rw (e, es) refl)

around-some :
    (test_size i : ℕ) (buffer : List ℕ)
    → i < test_size
    → test_size ≤ length buffer
    → (ws : List ℕ) × (around test_size i buffer ≡ some ws)
unfolding around
around-some test_size i buffer lt h =
    printed-some _ (if ltb 10 i then i - 10 else 0) buffer (ground arith)

abbrev Finds : Option (Option (List ℕ)) → List ℕ → List ℕ → Type 0
Finds o xs ys = (r : Option (List ℕ)) × (o ≡ some r) × ((r ≡ none) ↔ (xs ≡ ys))

validate_from-Finds :
    (test_size n i : ℕ) (buffer : List ℕ)
    → i + n ≤ test_size
    → test_size ≤ length buffer
    → Finds (validate_from test_size n i buffer) (take n (drop i buffer)) (pattern i n)
unfolding validate_from
validate_from-Finds test_size zero i buffer h k = (none, refl, ((λ e. refl), (λ e. refl)))
validate_from-Finds test_size (suc n) i buffer h k =
    let (w, ew) = get_elem?_of_lt buffer i (omega arith) in
    let (r, run, iff) = validate_from-Finds test_size n (i + 1) buffer (omega arith) k in
    let cut : take (suc n) (drop i buffer) ≡ w ∷ take n (drop (i + 1) buffer) =
      ap (take (suc n)) (drop-get i buffer w ew) in
    elim (Bool-cases (w == (i * 2) % 2 ^ 32)) [
      | inl y ↦
          let same : w ≡ (i * 2) % 2 ^ 32 = ==→eq w ((i * 2) % 2 ^ 32) y in
          (
            r,
            rw (ew, y) run,
            (
              (λ e. cut ∙ ap₂ ◌∷◌ same (iff.0 e)),
              (λ e.
                  let t : w ∷ take n (drop (i + 1) buffer) ≡ pattern i (suc n) = sym cut ∙ e in
                  iff.1 (cc)),
            ),
          )
      | inr m ↦
          let other = ==→ne w ((i * 2) % 2 ^ 32) m in
          let (ws, shown) = around-some test_size i buffer (omega arith) k in
          (
            some ws,
            rw (ew, m, shown) refl,
            (
              (λ e. absurd (cc)),
              (λ e.
                  let t : w ∷ take n (drop (i + 1) buffer) ≡ pattern i (suc n) = sym cut ∙ e in
                  let u : w ≡ (i * 2) % 2 ^ 32 = cc in absurd (other u)),
            ),
          )
    ]

-- A buffer of at least the tested words: the test ends, reads no word outside of the buffer, not for
-- its output either, and finds no error exactly if each of the tested words is twice its index.
pub validate_data-pattern :
    (test_size : ℕ) (buffer : List ℕ)
    → test_size ≤ length buffer
    → (r : Option (List ℕ)) × (validate_data test_size buffer ≡ some r)
      × ((r ≡ none) ↔ (take test_size buffer ≡ pattern 0 test_size))
unfolding validate_data
validate_data-pattern test_size buffer h =
    validate_from-Finds test_size test_size 0 buffer (omega arith) h

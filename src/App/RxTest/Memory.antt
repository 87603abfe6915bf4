-- ===== src/App/RxTest/Memory.antt =====
-- The memory that main_rx of userspace/io_client/src/client_test.c compares: the bytes that came, and
-- behind them those of its `memset`.
use streamio.Common.{
  ℕ, zero, suc, ◌+◌, ◌*◌, ◌%◌, ◌^◌, ◌<◌, ◌≤◌, ◌≡◌, refl, sym, ap, ◌∙◌, List, [], ◌∷◌, ◌++◌,
  append_assoc, length, length-append, length-replicate, length-drop, replicate, replicate-add,
  drop, from_le, arith,
}
use streamio.App.Validate.{pattern}
use streamio.App.RxTest.{test_size, words_of, RxAnswers}

-- The transfer's memory when it is compared.
abbrev pub memory : List ℕ → List ℕ
memory arrived = arrived ++ drop (length arrived) (replicate (4 * test_size) 254)

-- The words that are compared are those of the pattern.
abbrev pub Shows : RxAnswers → Type 0
Shows a = words_of test_size (memory a.arrived) ≡ pattern 0 test_size

drop-append_lt : (n : ℕ) (xs ys : List ℕ) → n ≤ length xs → drop n (xs ++ ys) ≡ drop n xs ++ ys
drop-append_lt zero xs ys h = refl
drop-append_lt (suc n) [] ys h = absurd (omega arith)
drop-append_lt (suc n) (x ∷ xs) ys h = drop-append_lt n xs ys (omega arith)

words_of-append :
    (n : ℕ) (xs ys : List ℕ) → length xs ≡ 4 * n → words_of n (xs ++ ys) ≡ words_of n xs
unfolding words_of
words_of-append zero xs ys h = refl
words_of-append (suc n) (a ∷ b ∷ c ∷ d ∷ xs) ys h =
    ap (◌∷◌ (from_le (a ∷ b ∷ c ∷ d ∷ []))) (words_of-append n xs ys (omega (arith, h)))
words_of-append (suc n) [] ys h = absurd (omega (arith, h))
words_of-append (suc n) (a ∷ []) ys h = absurd (omega (arith, h))
words_of-append (suc n) (a ∷ b ∷ []) ys h = absurd (omega (arith, h))
words_of-append (suc n) (a ∷ b ∷ c ∷ []) ys h = absurd (omega (arith, h))

pub length-words_of : (n : ℕ) (bytes : List ℕ) → length (words_of n bytes) ≡ n
unfolding words_of
length-words_of zero bytes = refl
length-words_of (suc n) bytes = ap suc (length-words_of n (drop 4 bytes))

length-memory :
    (arrived : List ℕ) → length arrived ≤ 4 * test_size → length (memory arrived) ≡ 4 * test_size
length-memory arrived h = omega (
  arith,
  length-append arrived (drop (length arrived) (replicate (4 * test_size) 254)),
  length-drop (length arrived) (replicate {A = ℕ} (4 * test_size) 254),
  length-replicate {A = ℕ} (4 * test_size) 254,
)

-- What lies behind the transfer's memory is not compared.
pub words_of-memory :
    (arrived rest : List ℕ)
    → length arrived ≤ 4 * test_size
    → words_of test_size (arrived ++ drop (length arrived) (replicate (4 * test_size) 254 ++ rest))
      ≡ words_of test_size (memory arrived)
words_of-memory arrived rest h =
    let ones : List ℕ = replicate (4 * test_size) 254 in
    let enough : length arrived ≤ length ones =
      omega (arith, h, length-replicate {A = ℕ} (4 * test_size) 254) in
    ap (λ x. words_of test_size (arrived ++ x)) (drop-append_lt (length arrived) ones rest enough)
    ∙ ap (words_of test_size) (sym (append_assoc arrived (drop (length arrived) ones) rest))
    ∙ words_of-append test_size (memory arrived) rest (length-memory arrived h)

-- Where the last byte is still 254 the last word is not that of the pattern.
last_word :
    (n i : ℕ) (front : List ℕ)
    → i + n < 2 ^ 20
    → length front ≡ 4 * n + 3
    → words_of (suc n) (front ++ (254 ∷ [])) ≡ pattern i (suc n)
    → ⊥
unfolding words_of from_le
last_word zero i (a ∷ b ∷ c ∷ []) small h e =
    let w : a + 256 * (b + 256 * (c + 256 * (254 + 256 * 0))) ≡ i * 2 % 2 ^ 32 = cc in
    omega (arith, w)
last_word zero i [] small h e = omega (arith, h)
last_word zero i (a ∷ []) small h e = omega (arith, h)
last_word zero i (a ∷ b ∷ []) small h e = omega (arith, h)
last_word zero i (a ∷ b ∷ c ∷ d ∷ front) small h e = omega (arith, h)
last_word (suc n) i (a ∷ b ∷ c ∷ d ∷ front) small h e =
    last_word n (i + 1) front (omega (arith, small)) (omega (arith, h)) (cc)
last_word (suc n) i [] small h e = omega (arith, h)
last_word (suc n) i (a ∷ []) small h e = omega (arith, h)
last_word (suc n) i (a ∷ b ∷ []) small h e = omega (arith, h)
last_word (suc n) i (a ∷ b ∷ c ∷ []) small h e = omega (arith, h)

-- If not all bytes of the packet came in time, the words are not those of the pattern.
pub incomplete_lem : (a : RxAnswers) → length a.arrived < 4 * test_size → Shows a → ⊥
incomplete_lem a h e =
    let fill : List ℕ = replicate 8191 254 in
    let front = a.arrived ++ drop (length a.arrived) fill in
    let enough : length a.arrived ≤ length fill =
      omega (arith, h, length-replicate {A = ℕ} 8191 254) in
    let split : memory a.arrived ≡ front ++ (254 ∷ []) =
      ap (λ x. a.arrived ++ drop (length a.arrived) x) (replicate-add {A = ℕ} 8191 1 254)
      ∙ ap (λ x. a.arrived ++ x) (drop-append_lt (length a.arrived) fill (254 ∷ []) enough)
      ∙ sym (append_assoc a.arrived (drop (length a.arrived) fill) (254 ∷ [])) in
    let long : length front ≡ 4 * 2047 + 3 = omega (
      arith,
      h,
      length-append a.arrived (drop (length a.arrived) fill),
      length-drop (length a.arrived) fill,
      length-replicate {A = ℕ} 8191 254,
    ) in
    last_word 2047 0 front (omega arith) long (ap (words_of test_size) (sym split) ∙ e)

-- ===== src/Server/Search.antt =====
-- The search for a null entry of the list of contexts, userspace/io_backend/src/io_backend.c.
use mathlib.Core.Option.{some-injective}
use streamio.Common.{
  ℕ, zero, suc, ◌+◌, ◌<◌, ◌≤◌, ◌≡◌, refl, sym, ap, ◌∙◌, ◌≢◌, inl, inr, true, false, Option, none,
  some, List, [], ◌∷◌, length, get_elem?, get_elem?_of_lt, set, arith, ◌==◌, Bool-cases,
}
use streamio.Server.{Slot, null, live, freed, is_null, find_null}

abbrev pub vacancy : Slot → ℕ
vacancy null = 1
vacancy s = 0

-- How many of the first `n` entries are null.
abbrev pub vacancies : ℕ → List Slot → ℕ
vacancies zero slots = 0
vacancies (suc n) [] = 0
vacancies (suc n) (s ∷ slots) = vacancy s + vacancies n slots

pub vacancies-set :
    (n i : ℕ) (slots : List Slot) (x y : Slot)
    → i < n
    → get_elem? slots i ≡ some x
    → vacancies n (set slots i y) + vacancy x ≡ vacancies n slots + vacancy y
vacancies-set zero i slots x y h e = absurd (omega arith)
vacancies-set (suc n) i [] x y h e = cc
vacancies-set (suc n) zero (s ∷ slots) x y h e = ground arith
vacancies-set (suc n) (suc i) (s ∷ slots) x y h e =
    omega (arith, vacancies-set n i slots x y (omega arith) e)

pub vacancies-set_out :
    (n i : ℕ) (slots : List Slot) (y : Slot)
    → n ≤ i
    → vacancies n (set slots i y) ≡ vacancies n slots
vacancies-set_out zero i slots y h = refl
vacancies-set_out (suc n) i [] y h = refl
vacancies-set_out (suc n) zero (s ∷ slots) y h = absurd (omega arith)
vacancies-set_out (suc n) (suc i) (s ∷ slots) y h =
    omega (arith, vacancies-set_out n i slots y (omega arith))

-- The search finds a null entry among its rounds, if there is one.
pub data Found (n i : ℕ) (slots : List Slot) : Option (Option ℕ) → Type 0 where
  absent :
      {r : Option (Option ℕ)}
      → r ≡ some none
      → ((j : ℕ) → i ≤ j → j < i + n → get_elem? slots j ≢ some null)
      → Found n i slots r
  present :
      (j : ℕ) {r : Option (Option ℕ)}
      → r ≡ some (some j)
      → i ≤ j
      → j < i + n
      → get_elem? slots j ≡ some null
      → Found n i slots r

pub is_null-eq : (s : Slot) → is_null s ≡ true → s ≡ null
unfolding is_null
is_null-eq s e = ground arith

pub is_null-ne : (s : Slot) → is_null s ≡ false → s ≢ null
unfolding is_null
is_null-ne s e = ground arith

later :
    (n i : ℕ) (slots : List Slot) (s : Slot) (r : Option (Option ℕ))
    → get_elem? slots i ≡ some s
    → s ≢ null
    → Found n (i + 1) slots r
    → Found (suc n) i slots r
later n i slots s r e ne (absent q all) = absent q λ j le lt. elim (Bool-cases (i == j)) [
  | inl y ↦ λ h.
      let same : i ≡ j = ground arith in
      ne (some-injective _ _ (sym e ∙ ap (get_elem? slots) same ∙ h))
  | inr y ↦ all j (ground arith) (omega arith)
]
later n i slots s r e ne (present j q le lt h) = present j q (omega arith) (omega arith) h

pub find_null-Found :
    (n i : ℕ) (slots : List Slot) → i + n ≤ length slots → Found n i slots (find_null n i slots)
unfolding find_null
find_null-Found zero i slots h = absent refl (λ j le lt. absurd (omega arith))
find_null-Found (suc n) i slots h =
    let (s, e) = get_elem?_of_lt slots i (omega arith) in
    elim (Bool-cases (is_null s)) [
      | inl y ↦
          present i (ground arith) (omega arith) (omega arith) (ground (arith, is_null-eq s y))
      | inr m ↦
          rw (e, m)
            (later n i slots s _ e (is_null-ne s m) (find_null-Found n (i + 1) slots (omega arith)))
    ]

pub vacancies-eq-zero :
    (n : ℕ) (slots : List Slot)
    → ((j : ℕ) → j < n → get_elem? slots j ≢ some null)
    → vacancies n slots ≡ 0
vacancies-eq-zero zero slots h = refl
vacancies-eq-zero (suc n) [] h = refl
vacancies-eq-zero (suc n) (null ∷ slots) h = absurd (h 0 (omega arith) refl)
vacancies-eq-zero (suc n) (live ∷ slots) h =
    omega (arith, vacancies-eq-zero n slots (λ j lt. h (suc j) (omega arith)))
vacancies-eq-zero (suc n) (freed ∷ slots) h =
    omega (arith, vacancies-eq-zero n slots (λ j lt. h (suc j) (omega arith)))

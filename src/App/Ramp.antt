-- ===== src/App/Ramp.antt =====
-- What the comparison of `rx_thread` accepts where it is made, userspace/test_app/src/txrx_test_thread.c.
use streamio.Common.{
  true, ℕ, zero, suc, ◌+◌, ◌-◌, ◌*◌, ◌%◌, ◌^◌, ◌≤◌, ◌≡◌, ◌↔◌, refl, sym, ap, ap₂, ◌∙◌, Option, none,
  some, List, [], ◌∷◌, ◌++◌, take, drop, length, length-append, length-take, get_elem?,
  get_elem?_of_lt, arith, ◌==◌, inl, inr, Bool-cases, take-append, ==→eq, ==→ne,
}
use streamio.App.{word, fill_words, Packet, compare_from, compare_packets}

-- The numbers behind `i`.
abbrev pub ramp : ℕ → ℕ → List ℕ
ramp i zero = []
ramp i (suc n) = ((i + 1) % 2 ^ 32) ∷ ramp (i + 1) n

length-ramp : (i n : ℕ) → length (ramp i n) ≡ n
length-ramp i zero = refl
length-ramp i (suc n) = ap suc (length-ramp (i + 1) n)

ramp-add : (i n m : ℕ) → ramp i (n + m) ≡ ramp i n ++ ramp (i + n) m
ramp-add i zero m =
    let a : 0 + m ≡ m = omega arith in let b : i + 0 ≡ i = omega arith in rw (a, b) refl
ramp-add i (suc n) m =
    let a : suc n + m ≡ suc (n + m) = omega arith in
    let b : i + 1 + n ≡ i + suc n = omega arith in
    ap (ramp i) a
    ∙ ap (◌∷◌ ((i + 1) % 2 ^ 32)) (ramp-add (i + 1) n m ∙ ap (λ k. ramp (i + 1) n ++ ramp k m) b)

-- Only the low 32 bits count.
ramp-wrap : (n i j : ℕ) → i % 2 ^ 32 ≡ j % 2 ^ 32 → ramp i n ≡ ramp j n
ramp-wrap zero i j e = refl
ramp-wrap (suc n) i j e =
    ap₂ ◌∷◌ (omega (arith, e)) (ramp-wrap n (i + 1) (j + 1) (omega (arith, e)))

fill_words-ramp :
    (n i j packet_size : ℕ) → fill_words n i j packet_size ≡ ramp (i + j * packet_size) n
unfolding fill_words word
fill_words-ramp zero i j p = refl
fill_words-ramp (suc n) i j p =
    let a : (0 + i + j * p + 1) % 2 ^ 32 ≡ (i + j * p + 1) % 2 ^ 32 =
      ap (λ k. k % 2 ^ 32) (omega arith) in
    let b : i + 1 + j * p ≡ i + j * p + 1 = omega arith in
    ap₂ ◌∷◌ a (fill_words-ramp n (i + 1) j p ∙ ap (λ k. ramp k n) b)

-- The words of `n` rounds of the sender, from round `j` on.
abbrev pub sent_words : ℕ → ℕ → ℕ → List ℕ
sent_words packet_size zero j = []
sent_words packet_size (suc n) j =
    fill_words packet_size 0 j packet_size ++ sent_words packet_size n (j + 1)

sent_words-ramp : (p n j : ℕ) → sent_words p n j ≡ ramp (j * p) (n * p)
sent_words-ramp p zero j = let z : 0 * p ≡ 0 = omega arith in rw z refl
sent_words-ramp p (suc n) j =
    let a : suc n * p ≡ p + n * p = omega arith in
    let b : (j + 1) * p ≡ j * p + p = omega arith in
    let c : 0 + j * p ≡ j * p = omega arith in
    ap₂ ◌++◌ (fill_words-ramp p 0 j p ∙ ap (λ k. ramp k p) c)
      (sent_words-ramp p n (j + 1) ∙ ap (λ k. ramp k (n * p)) b)
    ∙ sym (ramp-add (j * p) p (n * p))
    ∙ ap (ramp (j * p)) (sym a)

pub drop-get :
    {A : Type 0} (k : ℕ) (xs : List A) (x : A)
    → get_elem? xs k ≡ some x
    → drop k xs ≡ x ∷ drop (k + 1) xs
drop-get k [] x e = absurd (cc)
drop-get zero (y ∷ ys) x e = let h : y ≡ x = cc in ap (λ t. t ∷ ys) h
drop-get (suc k) (y ∷ ys) x e =
    let s : suc k + 1 ≡ suc (k + 1) = omega arith in
    drop-get k ys x e ∙ ap (λ n. x ∷ drop n (y ∷ ys)) (sym s)

-- Whether a comparison that ended found nothing, and whether the words are those of the ramp.
abbrev Finds : Option (Option ℕ) → List ℕ → List ℕ → Type 0
Finds o xs ys = (r : Option ℕ) × (o ≡ some r) × ((r ≡ none) ↔ (xs ≡ ys))

compare_from-Finds :
    (n k i : ℕ) (buffer : List ℕ)
    → k + n ≤ length buffer
    → Finds (compare_from n k i buffer) (take n (drop k buffer)) (ramp (k + i) n)
unfolding compare_from
compare_from-Finds zero k i buffer h = (none, refl, ((λ e. refl), (λ e. refl)))
compare_from-Finds (suc n) k i buffer h =
    let (w, ew) = get_elem?_of_lt buffer k (omega arith) in
    let (r, run, iff) = compare_from-Finds n (k + 1) i buffer (omega arith) in
    let cut : take (suc n) (drop k buffer) ≡ w ∷ take n (drop (k + 1) buffer) =
      ap (take (suc n)) (drop-get k buffer w ew) in
    let next : ramp (k + 1 + i) n ≡ ramp (k + i + 1) n = ap (λ m. ramp m n) (omega arith) in
    elim (Bool-cases ((k + i + 1) % 2 ^ 32 == w)) [
      | inl y ↦
          let same : (k + i + 1) % 2 ^ 32 ≡ w = ==→eq ((k + i + 1) % 2 ^ 32) w y in
          (
            r,
            rw (ew, y) run,
            (
              (λ e. cut ∙ ap₂ ◌∷◌ (sym same) (iff.0 e ∙ next)),
              (λ e.
                  let t : w ∷ take n (drop (k + 1) buffer) ≡ ramp (k + i) (suc n) = sym cut ∙ e in
                  iff.1 (
                    let u : take n (drop (k + 1) buffer) ≡ ramp (k + i + 1) n = cc in
                    u ∙ sym next)),
            ),
          )
      | inr m ↦
          let other = ==→ne ((k + i + 1) % 2 ^ 32) w m in
          (
            some k,
            rw (ew, m) refl,
            (
              (λ e. absurd (cc)),
              (λ e.
                  let t : w ∷ take n (drop (k + 1) buffer) ≡ ramp (k + i) (suc n) = sym cut ∙ e in
                  let u : w ≡ (k + i + 1) % 2 ^ 32 = cc in absurd (other (sym u))),
            ),
          )
    ]

-- The words of a packet, and those of packets one after the other.
abbrev pub words : Packet → List ℕ
words p = take p.packet_length p.buffer

abbrev pub all_words : List Packet → List ℕ
all_words [] = []
all_words (p ∷ ps) = words p ++ all_words ps

-- Every packet lies within its buffer.
abbrev pub AllWithin : List Packet → Type 0
AllWithin [] = Unit {0}
AllWithin (p ∷ ps) = (p.packet_length ≤ length p.buffer) × AllWithin ps

-- No comparison broke off.
abbrev pub AllClean : List (Option ℕ) → Type 0
AllClean [] = Unit {0}
AllClean (r ∷ rs) = (r ≡ none) × AllClean rs

append_split :
    {A : Type 0} (xs ys zs ws : List A)
    → length xs ≡ length zs
    → xs ++ ys ≡ zs ++ ws
    → (xs ≡ zs) × (ys ≡ ws)
append_split [] ys [] ws h e = (refl, e)
append_split [] ys (z ∷ zs) ws h e = absurd (omega arith)
append_split (x ∷ xs) ys [] ws h e = absurd (omega arith)
append_split (x ∷ xs) ys (z ∷ zs) ws h e =
    let t : xs ++ ys ≡ zs ++ ws = cc in
    let u : x ≡ z = cc in let (a, b) = append_split xs ys zs ws (omega arith) t in (ap₂ ◌∷◌ u a, b)

compare_packets-ramp :
    (ps : List Packet) (i : ℕ)
    → AllWithin ps
    → (rs : List (Option ℕ)) × (compare_packets true ps i ≡ some rs)
      × (AllClean rs ↔ (all_words ps ≡ ramp i (length (all_words ps))))
unfolding compare_packets
compare_packets-ramp [] i h = ([], refl, ((λ c. refl), (λ e. tt)))
compare_packets-ramp (p ∷ ps) i h =
    let n = p.packet_length in
    let rest = all_words ps in
    let (r, run, iff) = compare_from-Finds n 0 i p.buffer (omega (arith, h.0)) in
    let (rs, runs, iffs) = compare_packets-ramp ps ((i + n) % 2 ^ 32) h.1 in
    let size : length (words p) ≡ n = omega (arith, length-take n p.buffer, h.0) in
    let whole : length (words p ++ rest) ≡ n + length rest =
      omega (arith, length-append (words p) rest, size) in
    let here : ramp (0 + i) n ≡ ramp i n = ap (λ k. ramp k n) (omega arith) in
    let there : ramp ((i + n) % 2 ^ 32) (length rest) ≡ ramp (i + n) (length rest) =
      ramp-wrap (length rest) ((i + n) % 2 ^ 32) (i + n) (omega arith) in
    let halves : ramp i (length (words p ++ rest)) ≡ ramp i n ++ ramp (i + n) (length rest) =
      ap (ramp i) whole ∙ ramp-add i n (length rest) in
    (
      r ∷ rs,
      rw (run, runs) refl,
      (
        (λ c. ap₂ ◌++◌ (iff.0 c.0 ∙ here) (iffs.0 c.1 ∙ there) ∙ sym halves),
        (λ e.
            let (a, b) =
              append_split (words p) rest (ramp i n) (ramp (i + n) (length rest))
                (size ∙ sym (length-ramp i n)) (e ∙ halves) in
            (iff.1 (a ∙ sym here), iffs.1 (b ∙ sym there))),
      ),
    )

take-ramp : (m n i : ℕ) → m ≤ n → take m (ramp i n) ≡ ramp i m
take-ramp m n i h =
    let e : n ≡ m + (n - m) = omega arith in
    ap (λ k. take m (ramp i k)) e
    ∙ ap (take m) (ramp-add i m (n - m))
    ∙ ap (λ k. take k (ramp i m ++ ramp (i + m) (n - m))) (sym (length-ramp i m))
    ∙ take-append (ramp i m) (ramp (i + m) (n - m))

-- The comparison with `verify` set, whatever the size of the packets that come in, if each lies within its buffer and
-- they hold together no more words than the sender's rounds: it runs to its end, and no comparison
-- of it breaks off exactly if the words of its packets, one after the other, are those that the
-- sender stored, from the first on.
compare_packets-sent :
    (packet_size loops : ℕ) (ps : List Packet)
    → AllWithin ps
    → length (all_words ps) ≤ loops * packet_size
    → (rs : List (Option ℕ)) × (compare_packets true ps 0 ≡ some rs)
      × (AllClean rs
          ↔ (all_words ps ≡ take (length (all_words ps)) (sent_words packet_size loops 0)))
compare_packets-sent p loops ps h l =
    let (rs, run, iff) = compare_packets-ramp ps 0 h in
    let z : 0 * p ≡ 0 = omega arith in
    let m = length (all_words ps) in
    let sent : take m (sent_words p loops 0) ≡ ramp 0 m =
      ap (take m) (sent_words-ramp p loops 0 ∙ ap (λ k. ramp k (loops * p)) z)
      ∙ take-ramp m (loops * p) 0 l in
    (rs, run, ((λ c. iff.0 c ∙ sym sent), (λ e. iff.1 (e ∙ sent))))

-- ===== src/Backend/Writes.antt =====
-- Programs that set registers of a mapped device one after the other, over any backend that keeps the
-- promise of Backend.antt.
use native.Mathlib.Decide.{ℕ_discrete}
use mathlib.Core.Logic.{ite}
use streamio.Common.{
  ℕ, Bool, true, ◌&&◌, ltb, ◌≤◌, ◌^◌, ◌<◌, ◌≡◌, refl, ap, ◌∙◌, Option, some, List, [], ◌∷◌, ◌>>=◌,
  arith,
}
use streamio.Context.{mapped_device}
use streamio.Backend.{
  MappedChannel, MappedDevice, io_write_mapped_device, io_read_mapped_device, Registers,
}

-- A register and a value for it.
abbrev pub Setting : Type 0
Setting = ℕ × ℕ

-- Consecutive calls of `io_write_mapped_device`.
unfoldable pub write_all : {S : Type 0} → MappedDevice S → List Setting → S → Option S
write_all d [] s = some s
write_all d (w ∷ ws) s = io_write_mapped_device d w.0 w.1 s >>= write_all d ws

-- What the registers hold after the writes: the last value of each, or what it held.
abbrev pub after : List Setting → (ℕ → ℕ) → ℕ → ℕ
after [] f i = f i
after (w ∷ ws) f i = after ws (λ j. ite (ℕ_discrete w.0 j) w.1 (f j)) i

-- The writes name registers below `n`, and their values are 32-bit words.
abbrev pub AllFit : ℕ → List Setting → Type 0
AllFit n [] = Unit {0}
AllFit n (w ∷ ws) = ((w.0 < n) × (w.0 < 2 ^ 32) × (w.1 < 2 ^ 32)) × AllFit n ws

-- The writes name the first eight registers, with 32-bit words.
abbrev pub first_eight : List Setting → Bool
first_eight [] = true
first_eight (w ∷ ws) = ltb w.0 8 && ltb w.1 (2 ^ 32) && first_eight ws

pub AllFit-first_eight : (n : ℕ) (ws : List Setting) → first_eight ws ≡ true → 8 ≤ n → AllFit n ws
AllFit-first_eight n [] e le = tt
AllFit-first_eight n (w ∷ ws) e le =
    ((ground arith, ground arith, ground arith), AllFit-first_eight n ws (ground arith) le)

pub after-ext :
    (ws : List Setting) (f g : ℕ → ℕ)
    → ((i : ℕ) → f i ≡ g i)
    → (i : ℕ) → after ws f i ≡ after ws g i
after-ext [] f g h i = h i
after-ext (w ∷ ws) f g h i = after-ext ws _ _ (λ j. ground (arith, h j)) i

abbrev pub device : {S : Type 0} → MappedChannel S → MappedDevice S
device ch = record { kind = mapped_device; ch = ch }

module _ {S : Type 0} (ch : MappedChannel S) (laws : Registers ch) where
  -- The registers after the writes are as after the same assignments, one after the other.
  pub write_all-after :
      (ws : List Setting) (s : S)
      → laws.Usable s
      → AllFit (laws.size s) ws
      → (s' : S) × (write_all (device ch) ws s ≡ some s')
        × laws.Usable s'
        × (laws.size s' ≡ laws.size s)
        × ((i : ℕ) → laws.contents s' i ≡ after ws (laws.contents s) i)
  unfolding write_all io_write_mapped_device
  write_all-after [] s u h = (s, refl, u, refl, λ i. refl)
  write_all-after (w ∷ ws) s u h =
      let (s1, e1, u1, n1, here, others) = laws.write_law w.0 w.1 s u h.0.0 h.0.1 h.0.2 in
      let (s2, e2, u2, n2, all) = write_all-after ws s1 u1 (rw n1 h.1) in
      (
        s2,
        rw e1 e2,
        u2,
        n2 ∙ n1,
        λ i. all i ∙ after-ext ws (laws.contents s1) _ (λ j. ground (arith, others j, here)) i,
      )

  pub write_all-read :
      (ws : List Setting) (s : S)
      → laws.Usable s
      → AllFit (laws.size s) ws
      → (s' : S) × (write_all (device ch) ws s ≡ some s')
        × ((i : ℕ)
            → i < laws.size s
            → i < 2 ^ 32
            → io_read_mapped_device (device ch) i s' ≡ some (after ws (laws.contents s) i, s'))
  unfolding io_read_mapped_device
  write_all-read ws s u h =
      let (s', e, u', n, all) = write_all-after ws s u h in
      (s', e, λ i lt small. laws.read_law i s' u' (rw n lt) small ∙ ap (λ v. some (v, s')) (all i))

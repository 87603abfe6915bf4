-- ===== src/Common/Bytes.antt =====
-- Little-endian integers as bytes, the way the AArch64 and x86-64 targets lay them out.
use Prim.Native.Nat.{ℕ, zero, suc, ◌+◌, ◌*◌, ◌/◌, ◌%◌, ◌^◌, ◌<◌}
use mathlib.Core.Path.{◌≡◌, refl, sym, ap, ◌∙◌}
use mathlib.Core.List.{List, [], ◌∷◌, ◌++◌}
use native.Mathlib.Nat.{pow-suc}
use native.Mathlib.Omega.{arith}
use streamio.Common.Lists.{length, take, drop, take-append, drop-append}

unfoldable pub to_le : ℕ → ℕ → List ℕ
to_le zero x = []
to_le (suc n) x = x % 256 ∷ to_le n (x / 256)

unfoldable pub from_le : List ℕ → ℕ
from_le [] = 0
from_le (b ∷ bs) = b + 256 * from_le bs

pub length-to_le : (n x : ℕ) → length (to_le n x) ≡ n
unfolding to_le
length-to_le zero x = refl
length-to_le (suc n) x = ap suc (length-to_le n (x / 256))

pub from_le-to_le : (n x : ℕ) → x < 256 ^ n → from_le (to_le n x) ≡ x
unfolding to_le from_le
from_le-to_le zero x h = omega arith
from_le-to_le (suc n) x h =
    let below : x < 256 ^ n * 256 = rw pow-suc at h in
    omega (arith, from_le-to_le n (x / 256) (omega arith))

pub take-to_le : (n x : ℕ) (rest : List ℕ) → take n (to_le n x ++ rest) ≡ to_le n x
take-to_le n x rest =
    ap (λ k. take k (to_le n x ++ rest)) (sym (length-to_le n x)) ∙ take-append (to_le n x) rest

pub drop-to_le : (n x : ℕ) (rest : List ℕ) → drop n (to_le n x ++ rest) ≡ rest
drop-to_le n x rest =
    ap (λ k. drop k (to_le n x ++ rest)) (sym (length-to_le n x)) ∙ drop-append (to_le n x) rest

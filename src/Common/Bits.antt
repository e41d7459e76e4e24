-- ===== src/Common/Bits.antt =====
-- Facts about every byte, checked by evaluation.
use Prim.Native.Nat.{ℕ, zero, suc, ◌<◌, bit_xor}
use mathlib.Core.Path.{◌≡◌, refl}
use mathlib.Core.Bool.{Bool, true, false}
use native.Mathlib.Omega.{arith}
use sandrun.Common.Tests.{◌==◌, ==_iff, if◌then◌else◌}

-- The test holds of all numbers under the bound; the largest is tried first.
unfoldable pub passes_under : (ℕ → Bool) → ℕ → Bool
passes_under test zero = true
passes_under test (suc bound) = if test bound then passes_under test bound else false

pub passes_under-holds :
    (test : ℕ → Bool) (bound k : ℕ) → k < bound → passes_under test bound ≡ true → test k ≡ true
unfolding passes_under
passes_under-holds test zero k below passed = absurd (omega arith)
passes_under-holds test (suc bound) k below passed = ground (arith, passes_under-holds test bound k)

xor_table : passes_under (λ x. passes_under (λ m. bit_xor (bit_xor x m) m == x) 256) 256 ≡ true
unfolding passes_under
xor_table = refl

pub bit_xor_twice : (x m : ℕ) → x < 256 → m < 256 → bit_xor (bit_xor x m) m ≡ x
bit_xor_twice x m hx hm =
    let row =
      passes_under-holds (λ x. passes_under (λ m. bit_xor (bit_xor x m) m == x) 256) 256 x hx
        xor_table in
    (==_iff _ x).0 (passes_under-holds (λ m. bit_xor (bit_xor x m) m == x) 256 m hm row)

-- ===== src/Common/Outcomes.antt =====
-- What a C++ operation may end in: a value, an exception, or behaviour that the language leaves
-- undefined. A loop on fuel that runs out ends in `diverges`.
use Prim.Native.Nat.{ℕ}
use mathlib.Core.Path.{◌≡◌, refl}
use mathlib.Core.Logic.{◌⊎◌, inl, inr}
use sandrun.Common.Tests.{leb, if◌then◌else◌}
use sandrun.Common.Lists.{length, take, drop}
use sandrun.Common.Text.{Bytes}

pub data Error : Type 0 where
  out_of_range : Error
  invalid_argument : Error
  bad_alloc : Error
  runtime_error : Bytes → Error
  undefined_behavior : Error
  diverges : Error

pub data Outcome {ℓ} (A : Type ℓ) : Type ℓ where
  ok : A → Outcome A
  err : Error → Outcome A

infixl 5 ◌>>=◌
abbrev pub ◌>>=◌ {ℓ κ} : {A : Type ℓ} {B : Type κ} → Outcome A → (A → Outcome B) → Outcome B
ok a >>= f = f a
err e >>= f = err e

-- `s.substr(pos)`, which throws when `pos` lies behind the end.
abbrev pub substr_from : Bytes → ℕ → Outcome Bytes
substr_from s pos = if leb pos (length s) then ok (drop pos s) else err out_of_range

-- `s.substr(pos, n)`.
abbrev pub substr : Bytes → ℕ → ℕ → Outcome Bytes
substr s pos n = if leb pos (length s) then ok (take n (drop pos s)) else err out_of_range

pub Outcome-cases {ℓ} :
    {A : Type ℓ} (o : Outcome A) → ((a : A) × (o ≡ ok a)) ⊎ ((e : Error) × (o ≡ err e))
Outcome-cases (ok a) = inl (a, refl)
Outcome-cases (err e) = inr (e, refl)

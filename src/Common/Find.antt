-- ===== src/Common/Find.antt =====
-- `find` and `rfind` of std::string; npos is `none`.
use sandrun.Common.Tests.{if◌then◌else◌, Option-cases}
use sandrun.Common.Lists.{length, All, length-append}
use sandrun.Common.Text.{Bytes, starts_with, starts_with_self, starts_with-append}
use Prim.Native.Nat.{ℕ, zero, suc, ◌+◌, ◌≤◌}
use mathlib.Core.Path.{◌≡◌, refl}
use mathlib.Core.Logic.{◌≢◌, inl, inr}
use mathlib.Core.Bool.{Bool, true, false}
use mathlib.Core.Option.{Option, none, some}
use mathlib.Core.List.{[], ◌∷◌, ◌++◌}
use native.Mathlib.Omega.{arith}

abbrev pub is_found : Option ℕ → Bool
is_found none = false
is_found (some i) = true

abbrev pub npos : ℕ
npos = 18446744073709551615

abbrev pub index_or_npos : Option ℕ → ℕ
index_or_npos none = npos
index_or_npos (some i) = i

-- One index further on.
abbrev pub later : Option ℕ → Option ℕ
later none = none
later (some i) = some (suc i)

-- `s.find(p)`: the first index at which `p` stands.
unfoldable pub find : Bytes → Bytes → Option ℕ
find p [] = if starts_with p [] then some 0 else none
find p (c ∷ s) = if starts_with p (c ∷ s) then some 0 else later (find p s)

-- `s.find(p, pos)`; none as well where `pos` lies behind the end.
unfoldable pub find_from : Bytes → ℕ → Bytes → Option ℕ
find_from p zero s = find p s
find_from p (suc pos) [] = none
find_from p (suc pos) (c ∷ s) = later (find_from p pos s)

-- `s.rfind(p)`: the last index at which `p` stands.
unfoldable pub rfind : Bytes → Bytes → Option ℕ
rfind p [] = if starts_with p [] then some 0 else none
rfind p (c ∷ s) = elim (rfind p s) [
  | some i ↦ some (suc i)
  | none ↦ if starts_with p (c ∷ s) then some 0 else none
]

abbrev pub Lacks : ℕ → Bytes → Type 0
Lacks b = All (λ c. c ≢ b)

-- A byte that the text before it lacks is found there.
pub find_byte :
    (b : ℕ) (x rest : Bytes) → Lacks b x → find (b ∷ []) (x ++ b ∷ rest) ≡ some (length x)
unfolding find starts_with
find_byte b [] rest h = ground arith
find_byte b (c ∷ x) rest h = ground (arith, find_byte b x rest)

pub find_byte_none : (b : ℕ) (x : Bytes) → Lacks b x → find (b ∷ []) x ≡ none
unfolding find starts_with
find_byte_none b [] h = refl
find_byte_none b (c ∷ x) h = ground (arith, find_byte_none b x)

-- An occurrence lies inside the text.
find_bound_starts : (p s : Bytes) → starts_with p s ≡ true → length p ≤ length s
unfolding starts_with
find_bound_starts [] s h = omega arith
find_bound_starts (x ∷ p) [] h = cc
find_bound_starts (x ∷ p) (c ∷ s) h = ground (arith, find_bound_starts p s)

pub find_bound : (p s : Bytes) (i : ℕ) → find p s ≡ some i → i + length p ≤ length s
unfolding find
find_bound p [] i h = ground (arith, find_bound_starts p [])
find_bound p (c ∷ s) i h = elim (Option-cases (find p s)) [
  | inl e ↦ ground (arith, find_bound_starts p (c ∷ s))
  | inr (j, e) ↦ ground (arith, find_bound_starts p (c ∷ s), find_bound p s j e)
]

pub find_from_bound :
    (p s : Bytes) (pos i : ℕ) → find_from p pos s ≡ some i → (pos ≤ i) × (i + length p ≤ length s)
unfolding find_from
find_from_bound p s zero i h = (omega arith, find_bound p s i h)
find_from_bound p [] (suc pos) i h = cc
find_from_bound p (c ∷ s) (suc pos) i h = elim (Option-cases (find_from p pos s)) [
  | inl e ↦ ground arith
  | inr (j, e) ↦ ground (arith, find_from_bound p s pos j e)
]

-- What follows the first occurrence does not matter.
pub find-append :
    (p x rest : Bytes)
    → find p (x ++ p) ≡ some (length x)
    → find p (x ++ p ++ rest) ≡ some (length x)
unfolding find
find-append [] [] [] h = h
find-append [] [] (c ∷ rest) h = unfold starts_with in refl
find-append (d ∷ p) [] rest h = rw (starts_with_self (d ∷ p) rest)
find-append p (c ∷ x) rest h = elim (Option-cases (find p (x ++ p))) [
  | inl e ↦ ground (arith, starts)
  | inr (j, e) ↦ ground (arith, starts, find-append p x rest)
]
  where
    starts : starts_with p (c ∷ (x ++ p ++ rest)) ≡ starts_with p (c ∷ (x ++ p))
    starts = starts_with-append p (c ∷ (x ++ p)) rest (omega (arith, length-append x p))

-- The search from behind `x` on finds the byte that `y` lacks behind `y`.
pub find_from_byte :
    (b : ℕ) (x y rest : Bytes)
    → Lacks b y
    → find_from (b ∷ []) (length x) (x ++ (y ++ b ∷ rest)) ≡ some (length x + length y)
unfolding find_from
find_from_byte b [] y rest h = rw (find_byte b y rest h) (ground arith)
find_from_byte b (c ∷ x) y rest h = ground (arith, find_from_byte b x y rest h)

-- ===== src/Common/Decimal.antt =====
-- std::to_string of an unsigned number, and std::stoul.
use sandrun.Common.Tests.{if◌then◌else◌, ◌==◌, leb, Bool-cases}
use sandrun.Common.Text.{Bytes}
use sandrun.Common.Outcomes.{Outcome, ok, err, out_of_range, invalid_argument}
use Prim.Native.Nat.{ℕ, zero, suc, ◌+◌, ◌-◌, ◌*◌, ◌/◌, ◌%◌, ◌^◌, ◌<◌}
use mathlib.Core.Path.{◌∙◌, ◌≡◌, refl}
use sandrun.Common.Lists.{All}
use mathlib.Core.Logic.{◌≢◌, ◌⊎◌, inl, inr}
use mathlib.Core.Bool.{Bool, true, false, ◌&&◌, ◌||◌}
use mathlib.Core.List.{[], ◌∷◌}
use native.Mathlib.Omega.{arith}

-- The digits of `n` in front of `out`; each round divides by ten.
unfoldable pub print : ℕ → ℕ → Bytes → Bytes
print zero n out = out
print (suc fuel) n out =
    let more = print fuel (n / 10) ((b'0' + n % 10) ∷ out) in
    if n / 10 == 0 then (b'0' + n % 10) ∷ out else more

unfoldable pub to_string : ℕ → Bytes
unfolding print
to_string n = print (suc n) n []

abbrev pub is_digit : ℕ → Bool
is_digit c = leb b'0' c && leb c b'9'

-- The number that the leading digits spell behind `n`.
unfoldable pub read_digits : ℕ → Bytes → ℕ
read_digits n [] = n
read_digits n (c ∷ s) =
    let rest = read_digits (n * 10 + (c - b'0')) s in if is_digit c then rest else n

abbrev pub starts_digit : Bytes → Bool
starts_digit [] = false
starts_digit (c ∷ s) = is_digit c

-- What `isspace` holds of, in the C locale.
abbrev pub is_space : ℕ → Bool
is_space c = c == 32 || (leb 9 c && leb c 13)

unfoldable pub skip_space : Bytes → Bytes
skip_space [] = []
skip_space (c ∷ s) = if is_space c then skip_space s else c ∷ s

-- A value past 2^64 - 1 is out of range; a minus sign negates modulo 2^64.
unfoldable pub read_unsigned : Bool → Bytes → Outcome ℕ
unfolding read_digits
read_unsigned negative s =
    if starts_digit s
    then (if leb (2 ^ 64) (read_digits 0 s)
        then err out_of_range
        else ok (if negative then (2 ^ 64 - read_digits 0 s) % 2 ^ 64 else read_digits 0 s))
    else err invalid_argument

unfoldable pub read_signed : Bytes → Outcome ℕ
unfolding read_unsigned
read_signed [] = err invalid_argument
read_signed (c ∷ s) =
    if c == b'-'
    then read_unsigned true s
    else if c == b'+'
    then read_unsigned false s
    else read_unsigned false (c ∷ s)

-- `std::stoul(s)`.
unfoldable pub stoul : Bytes → Outcome ℕ
unfolding read_signed skip_space
stoul s = read_signed (skip_space s)

read-print : (f n : ℕ) (out : Bytes) → n < f → read_digits 0 (print f n out) ≡ read_digits n out
unfolding print read_digits
read-print zero n out h = absurd (omega arith)
read-print (suc f) n out h = elim (Bool-cases (n / 10 == 0)) [
  | inl last ↦ ground arith
  | inr more ↦ ground (arith, read-print f (n / 10) ((b'0' + n % 10) ∷ out))
]

-- A signed int; `negsuc n` is -(n + 1).
pub data ℤ : Type 0 where
  pos : ℕ → ℤ
  negsuc : ℕ → ℤ

-- An int as std::ostream and std::to_string write it.
unfoldable pub int_to_string : ℤ → Bytes
int_to_string (pos n) = to_string n
int_to_string (negsuc n) = b'-' ∷ to_string (suc n)

-- Only digits are printed in front of what is there.
pub print-All {κ} :
    (P : ℕ → Type κ)
    → ((k : ℕ) → k < 10 → P (b'0' + k))
    → (f n : ℕ) (out : Bytes) → All P out
    → All P (print f n out)
unfolding print
print-All P digit zero n out all = all
print-All P digit (suc f) n out all = elim (Bool-cases (n / 10 == 0)) [
  | inl last ↦ rw last (digit (n % 10) (omega arith), all)
  | inr more ↦
      rw more
        (print-All P digit f (n / 10) ((b'0' + n % 10) ∷ out) (digit (n % 10) (omega arith), all))
]

-- A number that std::to_string prints is read back by std::stoul, if it has 64 bits.
pub read-to_string : (n : ℕ) → read_digits 0 (to_string n) ≡ n
unfolding to_string
read-to_string n = read-print (suc n) n [] (omega arith) ∙ unfold read_digits in refl

pub to_string-Lacks : (b n : ℕ) → (b < b'0') ⊎ (b'9' < b) → All (λ c. c ≢ b) (to_string n)
unfolding to_string
to_string-Lacks b n h = print-All (λ c. c ≢ b) (λ k small e. ground arith) (suc n) n [] tt

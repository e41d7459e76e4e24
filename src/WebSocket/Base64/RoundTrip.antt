-- ===== src/WebSocket/Base64/RoundTrip.antt =====
-- A decoder after RFC 4648 reads back what `base64_encode` of src/websocket.cpp writes.
use Prim.Native.Nat.{bit_and}
use sandrun.Common.{
  leb, ◌-◌, Bool, ℕ, ◌+◌, ◌*◌, ◌/◌, ◌%◌, ◌<◌, [], ◌∷◌, ◌≡◌, refl, arith, Bytes, Option, none, some,
  true, false, ◌==◌, ==_iff, if◌then◌else◌, ◌&&◌, length, All,
}
use sandrun.Common.Bits.{passes_under, passes_under-holds}
use sandrun.WebSocket.Base64.{base64_char, sextet_0, sextet_1, sextet_2, sextet_3, base64_encode}

-- The alphabet of RFC 4648, section 4: A to Z, a to z, 0 to 9, + and /.
value_of : ℕ → ℕ
value_of c =
    if leb b'A' c && leb c b'Z'
    then c - b'A'
    else if leb b'a' c && leb c b'z'
    then c - b'a' + 26
    else if leb b'0' c && leb c b'9'
    then c - b'0' + 52
    else if c == b'+'
    then 62
    else if c == b'/'
    then 63
    else 64

-- Three bytes from four six-bit values.
abbrev byte_0 : ℕ → ℕ → ℕ
byte_0 p q = p * 4 + q / 16

abbrev byte_1 : ℕ → ℕ → ℕ
byte_1 q r = q % 16 * 16 + r / 4

abbrev byte_2 : ℕ → ℕ → ℕ
byte_2 r s = r % 4 * 64 + s

-- Groups of four characters; the last may end in one or two marks `=`.
pub decode : Bytes → Option Bytes
unfolding value_of
decode [] = some []
decode (p ∷ []) = none
decode (p ∷ q ∷ []) = none
decode (p ∷ q ∷ r ∷ []) = none
decode (p ∷ q ∷ r ∷ s ∷ rest) =
    let more = decode rest in
    if r == b'='
    then some (byte_0 (value_of p) (value_of q) ∷ [])
    else if s == b'='
    then some (byte_0 (value_of p) (value_of q) ∷ byte_1 (value_of q) (value_of r) ∷ [])
    else elim more [
      | none ↦ none
      | some bytes ↦ some (
          byte_0 (value_of p) (value_of q)
          ∷ byte_1 (value_of q) (value_of r)
          ∷ byte_2 (value_of r) (value_of s)
          ∷ bytes)
    ]

char_table : passes_under (λ i. value_of (base64_char i) == i) 64 ≡ true
unfolding passes_under value_of base64_char
char_table = refl

value_of-base64_char : (i : ℕ) → i < 64 → value_of (base64_char i) ≡ i
value_of-base64_char i h =
    (==_iff _ i).0 (passes_under-holds (λ k. value_of (base64_char k) == k) 64 i h char_table)

mark_table : passes_under (λ i. if base64_char i == b'=' then false else true) 64 ≡ true
unfolding passes_under base64_char
mark_table = refl

base64_char-ne-mark : (i : ℕ) → i < 64 → (base64_char i == b'=') ≡ false
base64_char-ne-mark i h = ground (
  arith,
  passes_under-holds (λ k. if base64_char k == b'=' then false else true) 64 i h mark_table,
)

-- One byte's masks and shifts.
abbrev masks_agree : ℕ → Bool
masks_agree a =
    bit_and a 0xfc / 4 == a / 4
    && bit_and a 0x03 == a % 4
    && bit_and a 0xf0 / 16 == a / 16
    && bit_and a 0x0f == a % 16
    && bit_and a 0xc0 / 64 == a / 64
    && bit_and a 0x3f == a % 64

and_table : passes_under masks_agree 256 ≡ true
unfolding passes_under
and_table = refl

-- The masks and shifts as quotients and remainders.
masks :
    (a : ℕ)
    → a < 256
    → (bit_and a 0xfc / 4 ≡ a / 4)
      × (bit_and a 0x03 ≡ a % 4)
      × (bit_and a 0xf0 / 16 ≡ a / 16)
      × (bit_and a 0x0f ≡ a % 16)
      × (bit_and a 0xc0 / 64 ≡ a / 64)
      × (bit_and a 0x3f ≡ a % 64)
masks a h = ground (arith, passes_under-holds masks_agree 256 a h and_table)

sextet_0_lem : (a : ℕ) → a < 256 → sextet_0 a ≡ a / 4
unfolding sextet_0
sextet_0_lem a h = (masks a h).0

sextet_1_lem : (a b : ℕ) → a < 256 → b < 256 → sextet_1 a b ≡ a % 4 * 16 + b / 16
unfolding sextet_1
sextet_1_lem a b h k = rw ((masks a h).1, (masks b k).2)

sextet_2_lem : (b c : ℕ) → b < 256 → c < 256 → sextet_2 b c ≡ b % 16 * 4 + c / 64
unfolding sextet_2
sextet_2_lem b c h k = rw ((masks b h).3, (masks c k).4)

sextet_3_lem : (c : ℕ) → c < 256 → sextet_3 c ≡ c % 64
unfolding sextet_3
sextet_3_lem c h = (masks c h).5

module _ (a b c : ℕ) (ha : a < 256) (hb : b < 256) (hc : c < 256) where
  group :
      (byte_0 (value_of (base64_char (sextet_0 a))) (value_of (base64_char (sextet_1 a b))) ≡ a)
      × (byte_1 (value_of (base64_char (sextet_1 a b))) (value_of (base64_char (sextet_2 b c))) ≡ b)
      × (byte_2 (value_of (base64_char (sextet_2 b c))) (value_of (base64_char (sextet_3 c))) ≡ c)
      × ((base64_char (sextet_2 b c) == b'=') ≡ false)
      × ((base64_char (sextet_3 c) == b'=') ≡ false)
  group =
      let e0 = sextet_0_lem a ha in
      let e1 = sextet_1_lem a b ha hb in
      let e2 = sextet_2_lem b c hb hc in
      let e3 = sextet_3_lem c hc in
      let v0 = value_of-base64_char (sextet_0 a) (omega (arith, e0)) in
      let v1 = value_of-base64_char (sextet_1 a b) (omega (arith, e1)) in
      let v2 = value_of-base64_char (sextet_2 b c) (omega (arith, e2)) in
      let v3 = value_of-base64_char (sextet_3 c) (omega (arith, e3)) in
      (
        rw (v0, v1) (omega (arith, e0, e1)),
        rw (v1, v2) (omega (arith, e1, e2)),
        rw (v2, v3) (omega (arith, e2, e3)),
        base64_char-ne-mark (sextet_2 b c) (omega (arith, e2)),
        base64_char-ne-mark (sextet_3 c) (omega (arith, e3)),
      )

mark_is_mark : (b'=' == b'=') ≡ true
mark_is_mark = refl

-- Decoding the encoding of any bytes gives them back.
pub decode-base64_encode :
    (bytes : Bytes) → All (λ b. b < 256) bytes → decode (base64_encode bytes) ≡ some bytes
unfolding decode base64_encode
decode-base64_encode [] all = refl
decode-base64_encode (a ∷ []) all = ground (arith, group a 0 0 all.0)
decode-base64_encode (a ∷ b ∷ []) all = ground (arith, group a b 0 all.0 all.1.0)
decode-base64_encode (a ∷ b ∷ c ∷ rest) all =
    ground (arith, group a b c all.0 all.1.0 all.1.1.0, decode-base64_encode rest all.1.1.1)

-- The encoding has four characters for each three bytes begun.
length-base64_encode : (bytes : Bytes) → length (base64_encode bytes) ≡ (length bytes + 2) / 3 * 4
unfolding base64_encode
length-base64_encode [] = refl
length-base64_encode (a ∷ []) = refl
length-base64_encode (a ∷ b ∷ []) = refl
length-base64_encode (a ∷ b ∷ c ∷ rest) = omega (arith, length-base64_encode rest)

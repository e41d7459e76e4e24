-- ===== src/Json/Escape.antt =====
-- `json_escape` of src/main.cpp against a reader of JSON strings after RFC 8259.
use sandrun.Common.{
  not, ◌||◌, ℕ, ◌+◌, ◌-◌, ◌*◌, ◌/◌, ◌%◌, ◌<◌, ◌≤◌, Bool, true, false, [], ◌∷◌, ◌++◌, ◌≡◌, refl, ap,
  ◌∙◌, arith, Option, none, some, Bytes, ltb, leb, ◌==◌, ◌&&◌, Option-cases, inl, inr,
  if◌then◌else◌, All, append_assoc,
}
use sandrun.Files.Hashes.{hex_digit}
use sandrun.Json.{escape_char, json_escape}

-- Where the reader stands: behind a plain char, a backslash, or in a number with digits to come.
pub data Reading : Type 0 where
  plain : Reading
  escaped : Reading
  number : ℕ → ℕ → Reading

-- A digit, or a letter of either case.
is_hex : ℕ → Bool
is_hex c = (leb b'0' c && leb c b'9') || ((leb b'a' c && leb c b'f') || (leb b'A' c && leb c b'F'))

digit_value : ℕ → ℕ
digit_value c = if ltb c b'A' then c - b'0' else if ltb c b'a' then c - b'A' + 10 else c - b'a' + 10

-- The char that a letter behind a backslash stands for.
meaning : ℕ → ℕ
meaning c =
    if c == b'n'
    then 10
    else if c == b'r'
    then 13
    else if c == b't'
    then 9
    else if c == b'b'
    then 8
    else if c == b'f'
    then 12
    else c

-- The letters that may stand behind a backslash.
may_follow : ℕ → Bool
may_follow c =
    (((c == b'"') || (c == b'\\')) || ((c == b'/') || (c == b'u')))
    || (((c == b'n') || (c == b'r')) || ((c == b't') || ((c == b'b') || (c == b'f'))))

-- UTF-8 of a code point below 65536.
unfoldable pub utf8 : ℕ → Bytes
utf8 n =
    if ltb n 128
    then n ∷ []
    else if ltb n 2048
    then (192 + n / 64) ∷ (128 + n % 64) ∷ []
    else (224 + n / 4096) ∷ (128 + n / 64 % 64) ∷ (128 + n % 64) ∷ []

-- A control character is not allowed in a string.
rejects : Reading → ℕ → Bool
unfolding is_hex may_follow
rejects plain c = ltb c 32
rejects escaped c = not (may_follow c)
rejects (number left value) c = not (is_hex c)

ends : Reading → ℕ → Bool
ends plain c = c == b'"'
ends escaped c = false
ends (number left value) c = false

next : Reading → ℕ → Reading
unfolding digit_value
next plain c = if c == b'\\' then escaped else plain
next escaped c = if c == b'u' then number 4 0 else plain
next (number left value) c =
    if left == 1 then plain else number (left - 1) (value * 16 + digit_value c)

emitted : Reading → ℕ → Bytes
unfolding digit_value meaning utf8
emitted plain c = if c == b'\\' then [] else c ∷ []
emitted escaped c = if c == b'u' then [] else meaning c ∷ []
emitted (number left value) c = if left == 1 then utf8 (value * 16 + digit_value c) else []

abbrev behind : Bytes → Option (Bytes × Bytes) → Option (Bytes × Bytes)
behind out none = none
behind out (some (text, rest)) = some (out ++ text, rest)

-- The string up to its closing quote, and what stands behind it.
pub read_string : Reading → Bytes → Option (Bytes × Bytes)
unfolding rejects ends next emitted
read_string state [] = none
read_string state (c ∷ s) =
    let more = read_string (next state c) s in
    if rejects state c
    then none
    else if ends state c
    then some ([], s)
    else behind (emitted state c) more

-- Every byte as the code point of its number.
unfoldable pub code_points : Bytes → Bytes
unfolding utf8
code_points [] = []
code_points (c ∷ str) = utf8 c ++ code_points str

digit_value-hex_digit : (n : ℕ) → n < 16 → digit_value (hex_digit n) ≡ n
unfolding digit_value hex_digit
digit_value-hex_digit n h = ground arith

is_hex-hex_digit : (n : ℕ) → n < 16 → is_hex (hex_digit n) ≡ true
unfolding is_hex hex_digit
is_hex-hex_digit n h = ground arith

read_string-number :
    (a b : ℕ) (s : Bytes)
    → is_hex a ≡ true
    → is_hex b ≡ true
    → read_string plain (b'\\' ∷ b'u' ∷ b'0' ∷ b'0' ∷ a ∷ b ∷ s)
      ≡ behind (utf8 (digit_value a * 16 + digit_value b)) (read_string plain s)
unfolding read_string rejects emitted
read_string-number a b s ha hb = elim (Option-cases (read_string plain s)) [
  | inl e ↦ rw (e, ha, hb, read_string) refl
  | inr (found, e) ↦ rw (e, ha, hb, read_string) (ground arith)
]

read_string-plain :
    (c : ℕ) (s : Bytes)
    → 32 ≤ c
    → c < 128
    → (c == b'"') ≡ false
    → (c == b'\\') ≡ false
    → read_string plain (c ∷ s) ≡ behind (utf8 c) (read_string plain s)
unfolding read_string utf8
read_string-plain c s low high no_quote no_backslash = ground arith

read_string-escape_char :
    (c : ℕ) (s : Bytes)
    → c < 256
    → read_string plain (escape_char c ++ s) ≡ behind (utf8 c) (read_string plain s)
unfolding read_string escape_char utf8
read_string-escape_char c s h = ground (
  arith,
  read_string-number (hex_digit (c / 16)) (hex_digit (c % 16)) s,
  digit_value-hex_digit (c / 16),
  digit_value-hex_digit (c % 16),
  is_hex-hex_digit (c / 16),
  is_hex-hex_digit (c % 16),
)

-- ASCII without control characters, but for DEL.
pub is_printable : Bytes → Bool
is_printable [] = true
is_printable (c ∷ s) = (leb 32 c && ltb c 128) && is_printable s

is_printable-append :
    (x y : Bytes) → is_printable x ≡ true → is_printable y ≡ true → is_printable (x ++ y) ≡ true
unfolding is_printable
is_printable-append [] y hx hy = hy
is_printable-append (c ∷ x) y hx hy = ground (arith, is_printable-append x y)

hex_digit-bound : (n : ℕ) → n < 16 → (32 ≤ hex_digit n) × (hex_digit n < 127)
unfolding hex_digit
hex_digit-bound n h = ground arith

is_printable-escape_char : (c : ℕ) → c < 256 → is_printable (escape_char c) ≡ true
unfolding is_printable escape_char
is_printable-escape_char c h = ground (arith, hex_digit-bound (c / 16), hex_digit-bound (c % 16))

-- A reader of JSON strings after RFC 8259, which refuses control characters and reads `\u` as UTF-8,
-- reads every text of bytes from its json_escape as the code points of its bytes, and stops at the
-- quote that follows: ASCII comes back as it was, and a byte from 128 on as two bytes.
pub read_string-json_escape :
    (str rest : Bytes)
    → All (λ c. c < 256) str
    → read_string plain (json_escape str ++ b'"' ∷ rest) ≡ some (code_points str, rest)
unfolding json_escape code_points
read_string-json_escape [] rest h = unfold read_string in refl
read_string-json_escape (c ∷ str) rest h =
    ap (read_string plain) (append_assoc (escape_char c) (json_escape str) (b'"' ∷ rest))
    ∙ read_string-escape_char c (json_escape str ++ b'"' ∷ rest) h.0
    ∙ ap (behind (utf8 c)) (read_string-json_escape str rest h.1)

-- Escaped text is ASCII without control characters but DEL: no byte from 128 on stays as it is.
is_printable-json_escape :
    (str : Bytes) → All (λ c. c < 256) str → is_printable (json_escape str) ≡ true
unfolding json_escape is_printable
is_printable-json_escape [] h = refl
is_printable-json_escape (c ∷ str) h =
    is_printable-append (escape_char c) (json_escape str) (is_printable-escape_char c h.0)
      (is_printable-json_escape str h.1)

-- ===== src/Json.antt =====
-- `json_escape`, `json_get_string` and `json_get_string_array` of src/main.cpp. A char is signed, as
-- on x86, so a byte from 128 on is below 32.
pub mod Escape
pub mod Manifest
pub mod Tests
use sandrun.Common.{
  ℕ, zero, suc, ◌+◌, ◌-◌, ◌/◌, ◌%◌, Bool, true, false, ◌||◌, List, [], ◌∷◌, ◌++◌, Option, none,
  some, Bytes, codes, ltb, leb, ◌==◌, if◌then◌else◌, length, take, drop, value_or,
}
use sandrun.Common.Find.{find, find_from}
use sandrun.Files.Hashes.{hex_digit}

-- What a char becomes.
unfoldable pub escape_char : ℕ → Bytes
unfolding hex_digit
escape_char c =
    if c == b'"'
    then b'\\' ∷ b'"' ∷ []
    else if c == b'\\'
    then b'\\' ∷ b'\\' ∷ []
    else if c == 10
    then b'\\' ∷ b'n' ∷ []
    else if c == 13
    then b'\\' ∷ b'r' ∷ []
    else if c == 9
    then b'\\' ∷ b't' ∷ []
    else if c == 8
    then b'\\' ∷ b'b' ∷ []
    else if c == 12
    then b'\\' ∷ b'f' ∷ []
    else if ltb c 32 || leb 128 c
    then b'\\' ∷ b'u' ∷ b'0' ∷ b'0' ∷ hex_digit (c / 16) ∷ hex_digit (c % 16) ∷ []
    else c ∷ []

unfoldable pub json_escape : Bytes → Bytes
unfolding escape_char
json_escape [] = []
json_escape (c ∷ str) = escape_char c ++ json_escape str

infixl 5 ◌>>=◌
abbrev ◌>>=◌ : {A : Type 0} {B : Type 0} → Option A → (A → Option B) → Option B
none >>= f = none
some a >>= f = f a

-- `"key"`.
abbrev pub quoted : Bytes → Bytes
quoted key = b'"' ∷ (key ++ b'"' ∷ [])

abbrev quote : Bytes
quote = b'"' ∷ []

-- `s.substr(start, end - start)`, where `end` is not before `start`.
abbrev pub between : ℕ → ℕ → Bytes → Bytes
between start end s = take (end - start) (drop start s)

unfoldable pub find_string : Bytes → Bytes → Option Bytes
find_string json key = do
  key_pos ← find (quoted key) json
  colon ← find_from (b':' ∷ []) key_pos json
  value_start ← find_from quote colon json
  value_end ← find_from quote (suc value_start) json
  some (between (suc value_start) value_end json)

unfoldable pub json_get_string : Bytes → Bytes → Bytes
unfolding find_string
json_get_string json key = value_or [] (find_string json key)

unfoldable pub find_array : Bytes → Bytes → Option Bytes
find_array json key = do
  key_pos ← find (quoted key) json
  colon ← find_from (b':' ∷ []) key_pos json
  array_start ← find_from (b'[' ∷ []) colon json
  array_end ← find_from (b']' ∷ []) array_start json
  some (between (suc array_start) array_end json)

-- The next string in the array, and the position behind it.
unfoldable pub next_string : Bytes → ℕ → Option (Bytes × ℕ)
next_string content pos = do
  quote_start ← find_from quote pos content
  quote_end ← find_from quote (suc quote_start) content
  some (between (suc quote_start) quote_end content, suc quote_end)

-- The loop over the array, with fuel for each string.
unfoldable pub strings_from : ℕ → Bytes → ℕ → List Bytes
unfolding next_string
strings_from zero content pos = []
strings_from (suc fuel) content pos =
    if ltb pos (length content)
    then (elim (next_string content pos) [
      | none ↦ []
      | some found ↦ found.0 ∷ strings_from fuel content found.1
    ])
    else []

unfoldable pub json_get_string_array : Bytes → Bytes → List Bytes
unfolding find_array strings_from
json_get_string_array json key = elim (find_array json key) [
  | none ↦ []
  | some content ↦ strings_from (length content) content 0
]

-- ===== src/WebSocket/Base64.antt =====
-- `base64_encode` of src/websocket.cpp. The loop fills `char_array_3` and writes four characters
-- whenever it holds three bytes; the clauses below take three bytes at a time.
pub mod RoundTrip
use Prim.Native.Nat.{bit_and}
use sandrun.Common.{ℕ, ◌+◌, ◌*◌, ◌/◌, List, [], ◌∷◌, Bytes, codes, get_elem?, value_or}

abbrev pub base64_chars : Bytes
base64_chars = codes "ABCDEFGHIJKLMNOPQRSTUVWXYZabcdefghijklmnopqrstuvwxyz0123456789+/"

pub base64_char : ℕ → ℕ
base64_char i = value_or 0 (get_elem? base64_chars i)

-- `char_array_4[0..3]`, from the bytes of `char_array_3`.
pub sextet_0 : ℕ → ℕ
sextet_0 a = bit_and a 0xfc / 4

pub sextet_1 : ℕ → ℕ → ℕ
sextet_1 a b = bit_and a 0x03 * 16 + bit_and b 0xf0 / 16

pub sextet_2 : ℕ → ℕ → ℕ
sextet_2 b c = bit_and b 0x0f * 4 + bit_and c 0xc0 / 64

pub sextet_3 : ℕ → ℕ
sextet_3 c = bit_and c 0x3f

pub base64_encode : Bytes → Bytes
unfolding base64_char sextet_0 sextet_1 sextet_2 sextet_3
base64_encode [] = []
base64_encode (a ∷ []) = base64_char (sextet_0 a) ∷ base64_char (sextet_1 a 0) ∷ b'=' ∷ b'=' ∷ []
base64_encode (a ∷ b ∷ []) =
    base64_char (sextet_0 a) ∷ base64_char (sextet_1 a b) ∷ base64_char (sextet_2 b 0) ∷ b'=' ∷ []
base64_encode (a ∷ b ∷ c ∷ rest) =
    base64_char (sextet_0 a)
    ∷ base64_char (sextet_1 a b)
    ∷ base64_char (sextet_2 b c)
    ∷ base64_char (sextet_3 c)
    ∷ base64_encode rest

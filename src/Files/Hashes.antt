-- ===== src/Files/Hashes.antt =====
-- The hashes of src/file_utils.cpp, and `calculate_hash` of src/job_hash.cpp. OpenSSL's SHA256 and
-- its contexts are parameters.
use sandrun.Common.{
  ℕ, zero, suc, ◌+◌, ◌-◌, ◌/◌, ◌%◌, ◌<◌, ◌≤◌, ltb, List, [], ◌∷◌, ◌++◌, ◌≡◌, refl, sym, ap, ◌∙◌,
  arith, Bytes, if◌then◌else◌, Option, none, some, length, take, drop, is_empty, All,
  take-append-drop, length-drop, append_assoc,
}

unfoldable pub hex_digit : ℕ → ℕ
hex_digit d = if ltb d 10 then b'0' + d else b'a' + (d - 10)

unfoldable pub bytes_to_hex : Bytes → Bytes
unfolding hex_digit
bytes_to_hex [] = []
bytes_to_hex (c ∷ bytes) = hex_digit (c / 16) ∷ hex_digit (c % 16) ∷ bytes_to_hex bytes

unfoldable pub sha256_string : (Bytes → Bytes) → Bytes → Bytes
sha256_string sha256 text = bytes_to_hex (sha256 text)

module _ {C : Type 0} (init : C) (update : C → Bytes → C) (final : C → Bytes) where
  -- The buffers of 8192 bytes that the loop reads from a file.
  unfoldable pub update_all : ℕ → C → Bytes → C
  update_all zero ctx file = ctx
  update_all (suc fuel) ctx file =
      let rest = update_all fuel (update ctx (take 8192 file)) (drop 8192 file) in
      if is_empty file then ctx else rest

  -- `file` is none where the file cannot be opened.
  unfoldable pub sha256_file : Option Bytes → Bytes
  unfolding update_all
  sha256_file none = []
  sha256_file (some file) = bytes_to_hex (final (update_all (length file) init file))

  update_all_lem :
      ((ctx : C) (x y : Bytes) → update (update ctx x) y ≡ update ctx (x ++ y))
      → ((ctx : C) → update ctx [] ≡ ctx)
      → (fuel : ℕ) (ctx : C) (file : Bytes) → length file ≤ fuel
      → update_all fuel ctx file ≡ update ctx file
  unfolding update_all
  update_all_lem joins nothing zero ctx [] h = sym (nothing ctx)
  update_all_lem joins nothing zero ctx (c ∷ file) h = absurd (omega arith)
  update_all_lem joins nothing (suc fuel) ctx [] h = sym (nothing ctx)
  update_all_lem joins nothing (suc fuel) ctx (c ∷ file) h =
      update_all_lem joins nothing fuel (update ctx (take 8192 (c ∷ file))) (drop 8192 (c ∷ file))
        (omega (arith, length-drop 8192 (c ∷ file)))
      ∙ joins ctx (take 8192 (c ∷ file)) (drop 8192 (c ∷ file))
      ∙ ap (update ctx) (take-append-drop 8192 (c ∷ file))

  -- The hash of a file that can be read is the hash of its content as one text, when an update by
  -- two texts is an update by both in a row, and SHA256 is an update of a fresh context.
  sha256_file-sha256_string :
      (sha256 : Bytes → Bytes)
      → ((ctx : C) (x y : Bytes) → update (update ctx x) y ≡ update ctx (x ++ y))
      → ((ctx : C) → update ctx [] ≡ ctx)
      → ((text : Bytes) → sha256 text ≡ final (update init text))
      → (file : Bytes) → sha256_file (some file) ≡ sha256_string sha256 file
  unfolding sha256_file sha256_string
  sha256_file-sha256_string sha256 joins nothing one_shot file =
      ap (λ ctx. bytes_to_hex (final ctx))
        (update_all_lem joins nothing (length file) init file (omega arith))
      ∙ ap bytes_to_hex (sym (one_shot file))

hex_digit-inj : (c d : ℕ) → c < 16 → d < 16 → hex_digit c ≡ hex_digit d → c ≡ d
unfolding hex_digit
hex_digit-inj c d hc hd e = ground arith

hex_byte-inj :
    (c d : ℕ)
    → c < 256
    → d < 256
    → hex_digit (c / 16) ≡ hex_digit (d / 16)
    → hex_digit (c % 16) ≡ hex_digit (d % 16)
    → c ≡ d
hex_byte-inj c d hc hd e f =
    let high : c / 16 ≡ d / 16 = hex_digit-inj (c / 16) (d / 16) (omega arith) (omega arith) e in
    let low : c % 16 ≡ d % 16 = hex_digit-inj (c % 16) (d % 16) (omega arith) (omega arith) f in
    omega arith

-- Two texts of bytes with the same hexadecimal form are the same text.
pub bytes_to_hex-inj :
    (x y : Bytes)
    → All (λ c. c < 256) x
    → All (λ c. c < 256) y
    → bytes_to_hex x ≡ bytes_to_hex y
    → x ≡ y
unfolding bytes_to_hex
bytes_to_hex-inj [] [] hx hy e = refl
bytes_to_hex-inj [] (d ∷ y) hx hy e = cc
bytes_to_hex-inj (c ∷ x) [] hx hy e = cc
bytes_to_hex-inj (c ∷ x) (d ∷ y) hx hy e =
    let high : hex_digit (c / 16) ≡ hex_digit (d / 16) = cc in
    let low : hex_digit (c % 16) ≡ hex_digit (d % 16) = cc in
    let more : bytes_to_hex x ≡ bytes_to_hex y = cc in
    let head : c ≡ d = hex_byte-inj c d hx.0 hy.0 high low in
    let tail : x ≡ y = bytes_to_hex-inj x y hx.1 hy.1 more in cc (head, tail)

-- What the fields of a job are joined with.
abbrev bar : Bytes
bar = b'|' ∷ []

pub record JobDefinition : Type 0 where
  pub entrypoint : Bytes
  pub interpreter : Bytes
  pub environment : Bytes
  pub args : List Bytes
  pub code : Bytes

unfoldable pub hashed_args : List Bytes → Bytes
hashed_args [] = []
hashed_args (arg ∷ args) = arg ++ (bar ++ hashed_args args)

unfoldable pub job_data : JobDefinition → Bytes
unfolding hashed_args
job_data j =
    j.entrypoint
    ++ (bar
        ++ (j.interpreter ++ (bar ++ (j.environment ++ (bar ++ (hashed_args j.args ++ j.code))))))

unfoldable pub calculate_hash : (Bytes → Bytes) → JobDefinition → Bytes
unfolding job_data sha256_string
calculate_hash sha256 j = sha256_string sha256 (job_data j)

-- The same job with other arguments.
abbrev pub with_args : JobDefinition → List Bytes → JobDefinition
with_args j args = record j { args = args }

-- Two arguments hash like the one argument that joins them with a bar, whatever the hash function
-- and the other fields are.
calculate_hash-joined :
    (sha256 : Bytes → Bytes) (j : JobDefinition) (x y : Bytes) (rest : List Bytes)
    → calculate_hash sha256 (with_args j (x ∷ y ∷ rest))
      ≡ calculate_hash sha256 (with_args j ((x ++ (b'|' ∷ y)) ∷ rest))
unfolding calculate_hash
calculate_hash-joined sha256 j x y rest =
    let same : hashed_args (x ∷ y ∷ rest) ≡ hashed_args ((x ++ (b'|' ∷ y)) ∷ rest) =
      sym (append_assoc x (b'|' ∷ y) (bar ++ hashed_args rest)) in
    ap
      (λ text. sha256_string sha256 (
        j.entrypoint
        ++ (bar ++ (j.interpreter ++ (bar ++ (j.environment ++ (bar ++ (text ++ j.code))))))))
      same

-- ===== src/Json/Manifest.antt =====
-- What `json_get_string` of src/main.cpp finds in a manifest, and the fuel of the loop in
-- `json_get_string_array`.
use sandrun.Common.{
  ℕ, zero, suc, ◌+◌, ◌-◌, ◌≤◌, ◌<◌, [], ◌∷◌, ◌++◌, ◌≡◌, ◌≢◌, refl, ap, ◌∙◌, arith, some, Bytes,
  length, length-append, drop, take-append, append_assoc, All-append, Option-cases, inl, inr,
}
use sandrun.Common.Find.{find, find_from, Lacks, find-append, find_from_byte, find_from_bound}
use sandrun.Json.{quoted, between, find_string, json_get_string, next_string, strings_from}

-- A text with `"key":"value"` in it.
abbrev pub with_entry : Bytes → Bytes → Bytes → Bytes → Bytes
with_entry before key value rest = (before ++ quoted key) ++ b':' ∷ b'"' ∷ (value ++ b'"' ∷ rest)

quote_colon : ◌≢◌ {A = ℕ} b'"' b':'
quote_colon e = absurd (omega arith)

colon_quote : ◌≢◌ {A = ℕ} b':' b'"'
colon_quote e = absurd (omega arith)

colon_found :
    (before key value rest : Bytes)
    → Lacks b':' key
    → find_from (b':' ∷ []) (length before) (with_entry before key value rest)
      ≡ some (length (before ++ quoted key))
colon_found before key value rest lacks =
    rw
      (
        append_assoc before (quoted key) (b':' ∷ b'"' ∷ (value ++ b'"' ∷ rest)),
        length-append before (quoted key),
      )
      (find_from_byte b':' before (quoted key) (b'"' ∷ (value ++ b'"' ∷ rest))
        (quote_colon, All-append _ key (b'"' ∷ []) lacks (quote_colon, tt)))

quote_found :
    (x value rest : Bytes)
    → find_from (b'"' ∷ []) (length x) (x ++ b':' ∷ b'"' ∷ (value ++ b'"' ∷ rest))
      ≡ some (suc (length x))
quote_found x value rest =
    find_from_byte b'"' x (b':' ∷ []) (value ++ b'"' ∷ rest) (colon_quote, tt)
    ∙ ap some (omega arith)

end_found :
    (x value rest : Bytes)
    → Lacks b'"' value
    → find_from (b'"' ∷ []) (suc (suc (length x))) (x ++ b':' ∷ b'"' ∷ (value ++ b'"' ∷ rest))
      ≡ some (suc (suc (length x)) + length value)
unfolding find_from
end_found [] value rest lacks = find_from_byte b'"' (b':' ∷ b'"' ∷ []) value rest lacks
end_found (c ∷ x) value rest lacks = rw (end_found x value rest lacks) (ap some (omega arith))

behind_quote : (x y : Bytes) → drop (suc (suc (length x))) (x ++ b':' ∷ b'"' ∷ y) ≡ y
behind_quote [] y = refl
behind_quote (c ∷ x) y = behind_quote x y

value_between :
    (x value rest : Bytes)
    → between
        (suc (suc (length x)))
        (suc (suc (length x)) + length value)
        (x ++ b':' ∷ b'"' ∷ (value ++ b'"' ∷ rest))
      ≡ value
value_between x value rest =
    let n : suc (suc (length x)) + length value - suc (suc (length x)) ≡ length value =
      omega arith in
    let front : drop (suc (suc (length x))) (x ++ b':' ∷ b'"' ∷ (value ++ b'"' ∷ rest))
        ≡ value ++ b'"' ∷ rest =
      behind_quote x (value ++ b'"' ∷ rest) in
    rw (n, front) (take-append value (b'"' ∷ rest))

-- The value of a key is what stands between the quotes behind its colon, if the text before the
-- entry does not have the quoted key, the key has no colon and the value no quote.
json_get_string-with_entry :
    (before key value rest : Bytes)
    → find (quoted key) (before ++ quoted key) ≡ some (length before)
    → Lacks b':' key
    → Lacks b'"' value
    → json_get_string (with_entry before key value rest) key ≡ value
unfolding json_get_string find_string
json_get_string-with_entry before key value rest first key_lacks value_lacks =
    let x = before ++ quoted key in
    let e : find (quoted key) (with_entry before key value rest) ≡ some (length before) =
      find-append (quoted key) before (b':' ∷ b'"' ∷ (value ++ b'"' ∷ rest)) first in
    rw
      (
        e,
        colon_found before key value rest key_lacks,
        quote_found x value rest,
        end_found x value rest value_lacks,
        value_between x value rest,
      )
      refl

next_string-bound :
    (content value : Bytes) (pos after : ℕ)
    → next_string content pos ≡ some (value, after)
    → pos < after
unfolding next_string
next_string-bound content value pos after h =
    elim (Option-cases (find_from (b'"' ∷ []) pos content)) [
      | inl e ↦ ground (arith, e)
      | inr (i, e) ↦ elim (Option-cases (find_from (b'"' ∷ []) (suc i) content)) [
        | inl f ↦ ground (arith, e, f)
        | inr (j, f) ↦ ground (
          arith,
          e,
          f,
          find_from_bound (b'"' ∷ []) content pos i e,
          find_from_bound (b'"' ∷ []) content (suc i) j f,
        )
      ]
    ]

-- The loop over an array ends: with as much fuel as bytes behind the position, more fuel makes no
-- difference.
strings_from-enough :
    (fuel : ℕ) (content : Bytes) (pos : ℕ)
    → length content ≤ fuel + pos
    → strings_from fuel content pos ≡ strings_from (suc fuel) content pos
unfolding strings_from
strings_from-enough zero content pos h = ground arith
strings_from-enough (suc fuel) content pos h = elim (Option-cases (next_string content pos)) [
  | inl e ↦ rw e refl
  | inr ((value, after), e) ↦
      let later = next_string-bound content value pos after e in
      let rest = strings_from-enough fuel content after (omega arith) in
      rw (e, strings_from) (ground (arith, rest))
]

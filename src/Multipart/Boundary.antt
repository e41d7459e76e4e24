-- ===== src/Multipart/Boundary.antt =====
-- `extract_boundary` of src/multipart.cpp on the content types that clients send.
use sandrun.Common.{
  ℕ, ◌+◌, ◌-◌, [], ◌∷◌, ◌++◌, ◌≡◌, ◌≢◌, refl, ◌∙◌, arith, some, Bytes, codes, length, length-append,
  take-append, drop-append, All-append, ◌^◌, ◌<◌,
}
use sandrun.Common.Find.{find, find_from, find-append, find_from_byte, Lacks}
use sandrun.Multipart.{extract_boundary, unquote, minus}

unquote-quoted : (b : Bytes) → length b < 2 ^ 63 → unquote (b'"' ∷ (b ++ b'"' ∷ [])) ≡ b
unfolding unquote
unquote-quoted b small =
    let n : minus (length (b'"' ∷ (b ++ b'"' ∷ []))) 2 ≡ length b =
      omega (arith, length-append b (b'"' ∷ [])) in
    rw n (take-append b (b'"' ∷ []))

quote_semicolon : ◌≢◌ {A = ℕ} b'"' b';'
quote_semicolon e = absurd (omega arith)

boundary_lem :
    (before text rest : Bytes)
    → find (codes "boundary=") (before ++ codes "boundary=") ≡ some (length before)
    → Lacks b';' text
    → extract_boundary ((before ++ codes "boundary=") ++ (text ++ b';' ∷ rest)) ≡ unquote text
unfolding extract_boundary
boundary_lem before text rest first lacks =
    let x = before ++ codes "boundary=" in
    let found = find-append (codes "boundary=") before (text ++ b';' ∷ rest) first in
    let n : length before + 9 ≡ length x =
      omega (arith, length-append before (codes "boundary=")) in
    let end : find_from (b';' ∷ []) (length x) (x ++ (text ++ b';' ∷ rest))
        ≡ some (length x + length text) =
      find_from_byte b';' x text rest lacks in
    let size : length x + length text - length x ≡ length text = omega arith in
    rw (found, n, end, extract_boundary)
      (rw (n, drop-append x (text ++ b';' ∷ rest), size, take-append text (b';' ∷ rest)) refl)

-- A boundary of less than 2^63 bytes between quotes, without a semicolon, is read without its
-- quotes, whatever parameters follow, if no earlier text is `boundary=`.
extract_boundary-quoted :
    (before boundary rest : Bytes)
    → find (codes "boundary=") (before ++ codes "boundary=") ≡ some (length before)
    → Lacks b';' boundary
    → length boundary < 2 ^ 63
    → extract_boundary
        ((before ++ codes "boundary=") ++ ((b'"' ∷ (boundary ++ b'"' ∷ [])) ++ b';' ∷ rest))
      ≡ boundary
extract_boundary-quoted before boundary rest first lacks small =
    boundary_lem before (b'"' ∷ (boundary ++ b'"' ∷ [])) rest first
      (quote_semicolon, All-append _ boundary (b'"' ∷ []) lacks (quote_semicolon, tt))
    ∙ unquote-quoted boundary small

-- ===== src/Multipart/Totality.antt =====
-- The loop of `parse` in src/multipart.cpp ends.
use sandrun.Common.{
  ℕ, zero, suc, ◌+◌, ◌-◌, ◌<◌, Bool, true, false, List, [], ◌∷◌, ◌≡◌, refl, arith, Bytes, codes,
  length, take, drop, is_empty, Outcome, ok, err, diverges, ◌>>=◌, substr_from, if◌then◌else◌,
  Option-cases, Bool-cases, inl, inr, bytes_eq, Error, out_of_range, invalid_argument, bad_alloc,
  runtime_error, undefined_behavior,
}
use sandrun.Common.Find.{find, find_from, find_from_bound}
use sandrun.Http.Lines.{split_lines}
use sandrun.Multipart.{
  minus, MultipartPart, empty_part, extract_boundary, pop_return, quoted_after, disposition,
  header_line, header_lines, split_part, parse_part, part_between, parse_from, parse,
}

is_divergence : Error → Bool
is_divergence out_of_range = false
is_divergence invalid_argument = false
is_divergence bad_alloc = false
is_divergence (runtime_error what) = false
is_divergence undefined_behavior = false
is_divergence diverges = true

-- The fuel ran out.
pub runs_out {ℓ} : {A : Type ℓ} → Outcome A → Bool
unfolding is_divergence
runs_out (ok a) = false
runs_out (err e) = is_divergence e

runs_out-bind :
    {A : Type 0} {B : Type 0} (o : Outcome A) (f : A → Outcome B)
    → runs_out o ≡ false
    → ((a : A) → runs_out (f a) ≡ false)
    → runs_out (o >>= f) ≡ false
unfolding runs_out
runs_out-bind (ok a) f h g = g a
runs_out-bind (err e) f h g = h

ok-ends : {A : Type 0} (a : A) → runs_out (ok a) ≡ false
unfolding runs_out
ok-ends a = refl

if-ends :
    {A : Type 0} (b : Bool) (x y : Outcome A)
    → runs_out x ≡ false
    → runs_out y ≡ false
    → runs_out (if b then x else y) ≡ false
if-ends true x y hx hy = hx
if-ends false x y hx hy = hy

pop_return-ends : (line : Bytes) → runs_out (pop_return line) ≡ false
unfolding pop_return runs_out
pop_return-ends [] = refl
pop_return-ends (c ∷ []) = refl
pop_return-ends (c ∷ d ∷ line) =
    runs_out-bind (pop_return (d ∷ line)) _ (pop_return-ends (d ∷ line)) (λ rest. refl)

substr_from-ends : (s : Bytes) (pos : ℕ) → runs_out (substr_from s pos) ≡ false
unfolding runs_out
substr_from-ends s pos = ground arith

quoted_after-ends : (marker value old : Bytes) → runs_out (quoted_after marker value old) ≡ false
unfolding quoted_after runs_out
quoted_after-ends marker value old = elim (Option-cases (find marker value)) [
  | inl e ↦ rw (e, quoted_after) refl
  | inr (found, e) ↦ rw (e, quoted_after) (ground arith)
]

disposition-ends :
    (value : Bytes) (part : MultipartPart) → runs_out (disposition value part) ≡ false
unfolding disposition
disposition-ends value part =
    runs_out-bind (quoted_after (codes "name=\"") value part.name) _ (quoted_after-ends _ value _)
      λ name.
        runs_out-bind (quoted_after (codes "filename=\"") value part.filename) _
          (quoted_after-ends _ value _) λ filename. ok-ends _

header_line-ends : (raw : Bytes) (part : MultipartPart) → runs_out (header_line raw part) ≡ false
unfolding header_line
header_line-ends raw part = runs_out-bind (pop_return raw) _ (pop_return-ends raw) λ line.
    elim (Option-cases (find (b':' ∷ []) line)) [
      | inl e ↦ rw e (ok-ends _)
      | inr (colon, e) ↦ rw e (
          runs_out-bind (substr_from line (colon + 2)) _ (substr_from-ends line (colon + 2))
            λ value. elim (Bool-cases (bytes_eq (take colon line) (codes "Content-Disposition"))) [
              | inl same ↦ rw same (disposition-ends value _)
              | inr other ↦ rw other (ok-ends _)
            ])
    ]

header_lines-ends :
    (lines : List Bytes) (part : MultipartPart) → runs_out (header_lines lines part) ≡ false
unfolding header_lines
header_lines-ends [] part = ok-ends _
header_lines-ends (line ∷ lines) part =
    runs_out-bind (header_line line part) (header_lines lines) (header_line-ends line part)
      (λ more. header_lines-ends lines more)

split_part-ends : (s : Bytes) (i gap : ℕ) → runs_out (split_part s i gap) ≡ false
unfolding split_part
split_part-ends s i gap =
    runs_out-bind (header_lines (split_lines (take i s)) empty_part) _
      (header_lines-ends (split_lines (take i s)) empty_part) (λ part. ok-ends _)

parse_part-ends : (s : Bytes) → runs_out (parse_part s) ≡ false
unfolding parse_part
parse_part-ends s = elim (Option-cases (find (codes "\r\n\r\n") s)) [
  | inr (i, e) ↦ rw (e, parse_part) (split_part-ends s i 4)
  | inl e ↦ elim (Option-cases (find (codes "\n\n") s)) [
    | inr (i, f) ↦ rw (e, f, parse_part) (split_part-ends s i 2)
    | inl f ↦ rw (e, f, parse_part) (ok-ends _)
  ]
]

part_between-ends : (body : Bytes) (start end : ℕ) → runs_out (part_between body start end) ≡ false
unfolding part_between
part_between-ends body start end =
    let part_data = take (minus (end - start) 2) (drop start body) in
    elim (Bool-cases (is_empty part_data)) [
      | inl e ↦ rw e (ok-ends _)
      | inr e ↦ rw e (parse_part-ends part_data)
    ]

parse_from-ends :
    (fuel : ℕ) (body delimiter : Bytes) (c start : ℕ)
    → length body < suc fuel + start
    → runs_out (parse_from (suc fuel) body (c ∷ delimiter) start) ≡ false
unfolding parse_from
parse_from-ends zero body delimiter c start h =
    elim (Option-cases (find_from (c ∷ delimiter) start body)) [
      | inl e ↦ rw (e, parse_from) (ok-ends _)
      | inr (end, e) ↦ absurd (omega (arith, find_from_bound (c ∷ delimiter) body start end e))
    ]
parse_from-ends (suc fuel) body delimiter c start h =
    elim (Option-cases (find_from (c ∷ delimiter) start body)) [
      | inl e ↦ rw (e, parse_from) (ok-ends _)
      | inr (end, e) ↦
          let rest =
            parse_from-ends fuel body delimiter c (end + length (c ∷ delimiter) + 2)
              (omega (arith, find_from_bound (c ∷ delimiter) body start end e)) in
          rw (e, parse_from)
            (runs_out-bind (part_between body start end) _ (part_between-ends body start end)
              λ part. runs_out-bind _ _ (if-ends _ (ok []) _ (ok-ends _) rest) (λ parts. ok-ends _))
    ]

-- The parser ends on every content type and body.
pub parse-ends : (content_type body : Bytes) → runs_out (parse content_type body) ≡ false
unfolding parse
parse-ends content_type body =
    let boundary = extract_boundary content_type in
    let delimiter = b'-' ∷ b'-' ∷ boundary in
    elim (Bool-cases (is_empty boundary)) [
      | inl e ↦ rw e (ok-ends _)
      | inr e ↦ elim (Option-cases (find delimiter body)) [
        | inl f ↦ rw (e, f) (ok-ends _)
        | inr (start, f) ↦
            rw (e, f)
              (parse_from-ends (length body) body (b'-' ∷ boundary) b'-'
                (start + length delimiter + 2) (omega arith))
      ]
    ]

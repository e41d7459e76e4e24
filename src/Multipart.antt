-- ===== src/Multipart.antt =====
-- src/multipart.h and src/multipart.cpp: the parser of multipart/form-data. `size_t` wraps around,
-- npos is 2^64 - 1, and `line.back()` of an empty line is undefined.
pub mod Boundary
pub mod Totality
pub mod Tests
use sandrun.Common.{
  ℕ, zero, suc, ◌+◌, ◌-◌, ◌%◌, ◌^◌, Bool, true, false, not, ◌&&◌, List, [], ◌∷◌, ◌++◌, Option, none,
  some, Bytes, codes, ◌==◌, if◌then◌else◌, length, take, drop, is_empty, Map, insert, bytes_key,
  bytes_eq, Outcome, ok, err, out_of_range, undefined_behavior, diverges, ◌>>=◌, substr,
  substr_from,
}
use sandrun.Common.Find.{find, find_from, index_or_npos}
use sandrun.Http.Lines.{split_lines}

-- The field `data` is `data_bytes`, since `data` is a reserved word.
pub record MultipartPart : Type 0 where
  pub headers : Map Bytes Bytes
  pub name : Bytes
  pub filename : Bytes
  pub data_bytes : Bytes

abbrev pub empty_part : MultipartPart
empty_part = record { headers = []; name = []; filename = []; data_bytes = [] }

-- `a - b` on size_t.
abbrev pub minus : ℕ → ℕ → ℕ
minus a b = (a + 2 ^ 64 - b) % 2 ^ 64

-- `boundary` without its quotes.
unfoldable pub unquote : Bytes → Bytes
unquote [] = []
unquote (c ∷ s) = if c == b'"' then take (minus (length (c ∷ s)) 2) s else c ∷ s

unfoldable pub extract_boundary : Bytes → Bytes
unfolding unquote
extract_boundary content_type = elim (find (codes "boundary=") content_type) [
  | none ↦ []
  | some found ↦
      let rest = drop (found + 9) content_type in
      (elim (find_from (b';' ∷ []) (found + 9) content_type) [
        | none ↦ unquote rest
        | some end ↦ unquote (take (end - (found + 9)) rest)
      ])
]

unfoldable pub pop_return : Bytes → Outcome Bytes
pop_return [] = err undefined_behavior
pop_return (c ∷ []) = ok (if c == 13 then [] else c ∷ [])
pop_return (c ∷ d ∷ line) = pop_return (d ∷ line) >>= λ rest. ok (c ∷ rest)

-- What stands behind the marker, up to the next quote; the old text without the marker.
unfoldable pub quoted_after : Bytes → Bytes → Bytes → Outcome Bytes
quoted_after marker value old = elim (find marker value) [
  | none ↦ ok old
  | some found ↦
      let start = found + length marker in
      substr value start (minus (index_or_npos (find_from (b'"' ∷ []) start value)) start)
]

-- The name and the filename of a Content-Disposition.
unfoldable pub disposition : Bytes → MultipartPart → Outcome MultipartPart
unfolding quoted_after
disposition value part = do
  name ← quoted_after (codes "name=\"") value part.name
  filename ← quoted_after (codes "filename=\"") value part.filename
  ok (record part { name = name; filename = filename })

unfoldable pub header_line : Bytes → MultipartPart → Outcome MultipartPart
unfolding pop_return disposition
header_line raw part = do
  line ← pop_return raw
  elim (find (b':' ∷ []) line) [
    | none ↦ ok part
    | some colon ↦ do
      value ← substr_from line (colon + 2)
      let key = take colon line
      let stored = record part { headers = insert key value part.headers }
      if bytes_eq key (codes "Content-Disposition") then disposition value stored else ok stored
  ]

unfoldable pub header_lines : List Bytes → MultipartPart → Outcome MultipartPart
unfolding header_line
header_lines [] part = ok part
header_lines (line ∷ lines) part = header_line line part >>= header_lines lines

-- The headers end at `headers_end`, and the content starts `gap` bytes further on.
unfoldable pub split_part : Bytes → ℕ → ℕ → Outcome MultipartPart
unfolding header_lines
split_part part_data headers_end gap = do
  part ← header_lines (split_lines (take headers_end part_data)) empty_part
  ok (record part { data_bytes = drop (headers_end + gap) part_data })

unfoldable pub parse_part : Bytes → Outcome MultipartPart
unfolding split_part
parse_part part_data = elim (find (codes "\r\n\r\n") part_data) [
  | some headers_end ↦ split_part part_data headers_end 4
  | none ↦ elim (find (codes "\n\n") part_data) [
    | some headers_end ↦ split_part part_data headers_end 2
    | none ↦ ok empty_part
  ]
]

-- One part in front of the others, if it has a name.
abbrev pub with_part : MultipartPart → List MultipartPart → List MultipartPart
with_part part parts = if is_empty part.name then parts else part ∷ parts

-- The part from `start` to the delimiter at `end`.
unfoldable pub part_between : Bytes → ℕ → ℕ → Outcome MultipartPart
unfolding parse_part
part_between body start end =
    let part_data = take (minus (end - start) 2) (drop start body) in
    if is_empty part_data then ok empty_part else parse_part part_data

-- The loop from the position `start` on, with fuel for each part.
unfoldable pub parse_from : ℕ → Bytes → Bytes → ℕ → Outcome (List MultipartPart)
unfolding part_between
parse_from zero body delimiter start = err diverges
parse_from (suc fuel) body delimiter start = elim (find_from delimiter start body) [
  | none ↦ ok []
  | some end ↦
      let finish = delimiter ++ b'-' ∷ b'-' ∷ [] in
      part_between body start end >>= λ part.
      (if bytes_eq (take (length finish) (drop end body)) finish
        then ok []
        else parse_from fuel body delimiter (end + length delimiter + 2))
      >>= λ parts. ok (with_part part parts)
]

unfoldable pub parse : Bytes → Bytes → Outcome (List MultipartPart)
unfolding extract_boundary parse_from
parse content_type body =
    let boundary = extract_boundary content_type in
    let delimiter = b'-' ∷ b'-' ∷ boundary in
    if is_empty boundary then ok [] else (elim (find delimiter body) [
      | none ↦ ok []
      | some start ↦ parse_from (suc (length body)) body delimiter (start + length delimiter + 2)
    ])

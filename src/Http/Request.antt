-- ===== src/Http/Request.antt =====
-- `HttpRequest` and `parse_request` of src/http_server.h and src/http_server.cpp.
pub mod RoundTrip
use sandrun.Common.{
  ℕ, ◌+◌, ◌-◌, Bool, true, false, ◌&&◌, not, List, [], ◌∷◌, ◌++◌, Bytes, codes, ◌==◌, bytes_eq,
  length, if◌then◌else◌, is_empty, Option, none, some, Outcome, ok, err, ◌>>=◌, substr, substr_from,
  Map, insert, bytes_key,
}
use sandrun.Common.Find.{find, find_from}
use sandrun.Http.Lines.{split_lines}

pub record HttpRequest : Type 0 where
  pub method : Bytes
  pub path : Bytes
  pub headers : Map Bytes Bytes
  pub body : Bytes
  pub client_ip : Bytes

-- `if (line.back() == '\r') line.pop_back()`, on a line that is not empty.
pub pop_return : Bytes → Bytes
pop_return [] = []
pop_return (c ∷ []) = if c == b'\r' then [] else c ∷ []
pop_return (c ∷ d ∷ line) = c ∷ pop_return (d ∷ line)

-- The method and the path of the request line; both stay empty without two spaces.
pub request_line : Bytes → Outcome (Bytes × Bytes)
request_line line = elim (find (b' ' ∷ []) line) [
  | none ↦ ok ([], [])
  | some space1 ↦ elim (find_from (b' ' ∷ []) (space1 + 1) line) [
    | none ↦ ok ([], [])
    | some space2 ↦ do
      method ← substr line 0 space1
      path ← substr line (space1 + 1) (space2 - space1 - 1)
      ok (method, path)
  ]
]

-- One header line; `colon + 2` skips ": ".
pub header_line : Bytes → Map Bytes Bytes → Outcome (Map Bytes Bytes)
header_line line headers = elim (find (b':' ∷ []) line) [
  | none ↦ ok headers
  | some colon ↦ do
    key ← substr line 0 colon
    value ← substr_from line (colon + 2)
    ok (insert key value headers)
]

-- The header loop: the headers, and the lines behind the empty one that ends them.
pub header_lines : List Bytes → Map Bytes Bytes → Outcome (Map Bytes Bytes × List Bytes)
unfolding header_line pop_return
header_lines [] headers = ok (headers, [])
header_lines (line ∷ lines) headers =
    let more = header_line (pop_return line) headers >>= header_lines lines in
    if not (bytes_eq line (codes "\r")) && not (is_empty line) then more else ok (headers, lines)

-- The body loop: a newline goes in front of a line only if the body is not empty.
pub body_lines : Bytes → List Bytes → Bytes
body_lines body [] = body
body_lines body (rest ∷ lines) =
    body_lines (if is_empty body then rest else body ++ b'\n' ∷ rest) lines

-- The request line and what stands behind it.
pub first_line : List Bytes → Bytes × List Bytes
first_line [] = ([], [])
first_line (line ∷ lines) = (line, lines)

pub parse_request : Bytes → Outcome HttpRequest
unfolding first_line request_line header_lines body_lines
parse_request raw = do
  let (line, lines) = first_line (split_lines raw)
  target ← request_line line
  found ← header_lines lines []
  ok (record {
    method = target.0;
    path = target.1;
    headers = found.0;
    body = body_lines [] found.1;
    client_ip = [];
  })

-- ===== src/Http/Request/RoundTrip.antt =====
-- What `parse_request` of src/http_server.cpp makes of a request as clients write it.
use sandrun.Common.{
  ℕ, ◌+◌, ◌-◌, ◌≤◌, false, List, [], ◌∷◌, ◌++◌, ◌≡◌, ◌≢◌, refl, ap, sym, ◌∙◌, arith, Bytes, codes,
  bytes_eq, length, drop, is_empty, some, ok, err, out_of_range, Map, insert, bytes_key,
  append_assoc, length-append, append-nil, take-append, drop-append_at, All, append_cons-filled,
}
use sandrun.Common.Find.{find_from, find_byte, find_from_byte, Lacks}
use sandrun.Http.Lines.{
  prepend, split_lines, split_lines-line, joined, newlined, EndsPlain, joined-split_lines,
  split_lines-newline,
}
use sandrun.Http.Request.{
  pop_return, request_line, header_line, header_lines, body_lines, parse_request,
}

abbrev pub line_of : Bytes × Bytes → Bytes
line_of (key, value) = key ++ (b':' ∷ b' ' ∷ (value ++ b'\r' ∷ []))

unfoldable pub format_headers : List (Bytes × Bytes) → Bytes → Bytes
format_headers [] body = b'\r' ∷ b'\n' ∷ body
format_headers (header ∷ headers) body = line_of header ++ b'\n' ∷ format_headers headers body

-- A request as RFC 7230 writes it.
unfoldable pub format_request : Bytes → Bytes → List (Bytes × Bytes) → Bytes → Bytes
unfolding format_headers
format_request method path headers body =
    (method ++ b' ' ∷ (path ++ codes " HTTP/1.1\r")) ++ b'\n' ∷ format_headers headers body

pub format_request-filled :
    (method path : Bytes) (headers : List (Bytes × Bytes)) (body : Bytes)
    → is_empty (format_request method path headers body) ≡ false
unfolding format_request
format_request-filled method path headers body =
    append_cons-filled (method ++ b' ' ∷ (path ++ codes " HTTP/1.1\r"))
      (format_headers headers body) b'\n'

abbrev pub insert_all : List (Bytes × Bytes) → Map Bytes Bytes → Map Bytes Bytes
insert_all [] m = m
insert_all ((key, value) ∷ headers) m = insert_all headers (insert key value m)

-- A key has no colon, and neither it nor its value a newline.
abbrev pub IsHeader : Bytes × Bytes → Type 0
IsHeader (key, value) = Lacks b':' key × Lacks b'\n' key × Lacks b'\n' value

Lacks-append : (b : ℕ) (xs ys : Bytes) → Lacks b xs → Lacks b ys → Lacks b (xs ++ ys)
Lacks-append b [] ys h k = k
Lacks-append b (x ∷ xs) ys h k = (h.0, Lacks-append b xs ys h.1 k)

pop_return-append : (line : Bytes) → pop_return (line ++ b'\r' ∷ []) ≡ line
unfolding pop_return
pop_return-append [] = refl
pop_return-append (c ∷ []) = refl
pop_return-append (c ∷ d ∷ line) = ap (◌∷◌ c) (pop_return-append (d ∷ line))

return_only : (line : Bytes) → 2 ≤ length line → bytes_eq line (codes "\r") ≡ false
unfolding bytes_eq
return_only [] h = absurd (omega arith)
return_only (c ∷ []) h = absurd (omega arith)
return_only (c ∷ d ∷ line) h = ground arith

header_line_lem :
    (key value : Bytes) (m : Map Bytes Bytes)
    → Lacks b':' key
    → header_line (key ++ (b':' ∷ b' ' ∷ value)) m ≡ ok (insert key value m)
unfolding header_line
header_line_lem key value m h =
    let line = key ++ (b':' ∷ b' ' ∷ value) in
    let behind : drop (length key + 2) line ≡ value =
      rw (← append_assoc key (b':' ∷ b' ' ∷ []) value) (
        drop-append_at (length key + 2) (key ++ b':' ∷ b' ' ∷ []) value
          (omega (arith, length-append key (b':' ∷ b' ' ∷ [])))) in
    ground (
      arith,
      find_byte b':' key (b' ' ∷ value) h,
      take-append key (b':' ∷ b' ' ∷ value),
      length-append key (b':' ∷ b' ' ∷ value),
      behind,
    )

filled_line : (line : Bytes) → 2 ≤ length line → is_empty line ≡ false
filled_line [] h = absurd (omega arith)
filled_line (c ∷ line) h = refl

header_lines_step :
    (key value : Bytes) (lines : List Bytes) (m : Map Bytes Bytes)
    → Lacks b':' key
    → header_lines (line_of (key, value) ∷ lines) m ≡ header_lines lines (insert key value m)
unfolding header_lines
header_lines_step key value lines m h =
    let line = line_of (key, value) in
    let long : 2 ≤ length line =
      omega (arith, length-append key (b':' ∷ b' ' ∷ (value ++ b'\r' ∷ []))) in
    let bare : pop_return line ≡ key ++ (b':' ∷ b' ' ∷ value) =
      rw (← append_assoc key (b':' ∷ b' ' ∷ value) (b'\r' ∷ []))
        (pop_return-append (key ++ (b':' ∷ b' ' ∷ value))) in
    rw (return_only line long, filled_line line long, bare, header_line_lem key value m h)

line_of-Lacks : (key value : Bytes) → IsHeader (key, value) → Lacks b'\n' (line_of (key, value))
line_of-Lacks key value (hc, hk, hv) =
    Lacks-append b'\n' key _ hk (λ e. cc, (λ e. cc, Lacks-append b'\n' value _ hv (λ e. cc, tt)))

-- The header loop reads the headers one after the other, up to the empty line.
header_lines_lem :
    (headers : List (Bytes × Bytes)) (body : Bytes) (m : Map Bytes Bytes)
    → All IsHeader headers
    → header_lines (split_lines (format_headers headers body)) m
      ≡ ok (insert_all headers m, split_lines body)
unfolding format_headers
header_lines_lem [] body m h =
    rw (split_lines-line (b'\r' ∷ []) body (λ e. cc, tt)) (unfold header_lines bytes_eq in refl)
header_lines_lem ((key, value) ∷ headers) body m (hd, h) =
    rw
      (split_lines-line (line_of (key, value)) (format_headers headers body)
        (line_of-Lacks key value hd))
      (header_lines_step key value _ m hd.0 ∙ header_lines_lem headers body (insert key value m) h)

request_line_lem :
    (method path rest : Bytes)
    → Lacks b' ' method
    → Lacks b' ' path
    → request_line (method ++ b' ' ∷ (path ++ b' ' ∷ rest)) ≡ ok (method, path)
unfolding request_line
request_line_lem method path rest hm hp =
    let line = method ++ b' ' ∷ (path ++ b' ' ∷ rest) in
    let after = method ++ b' ' ∷ [] in
    let len : length after ≡ length method + 1 = omega (arith, length-append method (b' ' ∷ [])) in
    let same : line ≡ after ++ (path ++ b' ' ∷ rest) =
      sym (append_assoc method (b' ' ∷ []) (path ++ b' ' ∷ rest)) in
    let second : find_from (b' ' ∷ []) (length method + 1) line
        ≡ some (length method + 1 + length path) =
      rw (same, ← len) (find_from_byte b' ' after path rest hp) in
    let behind : drop (length method + 1) line ≡ path ++ b' ' ∷ rest =
      rw (same, ← len) (drop-append_at (length after) after (path ++ b' ' ∷ rest) refl) in
    let wide : length method + 1 + length path - length method - 1 ≡ length path = omega arith in
    ground (
      arith,
      find_byte b' ' method (path ++ b' ' ∷ rest) hm,
      second,
      behind,
      wide,
      take-append method (b' ' ∷ (path ++ b' ' ∷ rest)),
      take-append path (b' ' ∷ rest),
      length-append method (b' ' ∷ (path ++ b' ' ∷ rest)),
    )

body_lines-newlined :
    (c : ℕ) (body : Bytes) (lines : List Bytes)
    → body_lines (c ∷ body) lines ≡ (c ∷ body) ++ newlined lines
unfolding body_lines
body_lines-newlined c body [] = sym (append-nil (c ∷ body))
body_lines-newlined c body (line ∷ lines) =
    body_lines-newlined c (body ++ b'\n' ∷ line) lines
    ∙ append_assoc (c ∷ body) (b'\n' ∷ line) (newlined lines)

-- Neither the first nor the last byte is a newline.
abbrev pub IsPlain : Bytes → Type 0
IsPlain [] = Unit
IsPlain (c ∷ body) = (c ≢ b'\n') × EndsPlain (c ∷ body)

body_lines-prepend :
    (c : ℕ) (lines : List Bytes) → body_lines [] (prepend c lines) ≡ joined (prepend c lines)
unfolding body_lines
body_lines-prepend c [] = refl
body_lines-prepend c (line ∷ lines) = body_lines-newlined c line lines

body_lines-split_lines : (body : Bytes) → IsPlain body → body_lines [] (split_lines body) ≡ body
body_lines-split_lines [] h = unfold split_lines body_lines in refl
body_lines-split_lines (c ∷ body) (plain, ends) =
    ap (body_lines []) started
    ∙ body_lines-prepend c (split_lines body)
    ∙ sym (ap joined started)
    ∙ joined-split_lines (c ∷ body) ends
  where
    started : split_lines (c ∷ body) ≡ prepend c (split_lines body)
    started = unfold split_lines in ground arith

module _ (method path : Bytes) (headers : List (Bytes × Bytes)) where
  -- A method and a path of one word.
  abbrev pub IsTarget : Type 0
  IsTarget = Lacks b' ' method × Lacks b'\n' method × Lacks b' ' path × Lacks b'\n' path

  parse_request_lines :
      (body : Bytes)
      → IsTarget
      → All IsHeader headers
      → parse_request (format_request method path headers body)
        ≡ ok (record {
          method = method;
          path = path;
          headers = insert_all headers [];
          body = body_lines [] (split_lines body);
          client_ip = [];
        })
  unfolding parse_request format_request
  parse_request_lines body (ms, ml, ps, pl) h =
      let line = method ++ b' ' ∷ (path ++ codes " HTTP/1.1\r") in
      let plain : Lacks b'\n' line =
        Lacks-append b'\n' method _ ml (λ e. cc, Lacks-append b'\n' path _ pl (omega arith)) in
      rw (
        split_lines-line line (format_headers headers body) plain,
        request_line_lem method path (codes "HTTP/1.1\r") ms ps,
        header_lines_lem headers body [] h,
      )

  -- A request as clients write it is parsed to its method, path, headers (a later one of the same
  -- name wins) and body. The method and the path are words without spaces and newlines, no key has
  -- a colon or newline, no value a newline, and the body neither begins nor ends with a newline.
  pub parse_request-format_request :
      (body : Bytes)
      → IsTarget
      → All IsHeader headers
      → IsPlain body
      → parse_request (format_request method path headers body)
        ≡ ok (record {
          method = method;
          path = path;
          headers = insert_all headers [];
          body = body;
          client_ip = [];
        })
  parse_request-format_request body target h plain =
      rw (parse_request_lines body target h, body_lines-split_lines body plain)

  -- A newline at the end of a body is lost: the request is parsed like the one without it.
  parse_request-newline :
      (c : ℕ) (body : Bytes)
      → IsTarget
      → All IsHeader headers
      → EndsPlain (c ∷ body)
      → parse_request (format_request method path headers ((c ∷ body) ++ b'\n' ∷ []))
        ≡ parse_request (format_request method path headers (c ∷ body))
  parse_request-newline c body target h plain = rw (
    parse_request_lines ((c ∷ body) ++ b'\n' ∷ []) target h,
    parse_request_lines (c ∷ body) target h,
    split_lines-newline c body plain,
  )

header_line_throws :
    (key : Bytes) (m : Map Bytes Bytes)
    → Lacks b':' key
    → header_line (key ++ b':' ∷ []) m ≡ err out_of_range
unfolding header_line
header_line_throws key m h = ground (arith, find_byte b':' key [] h, length-append key (b':' ∷ []))

-- A header line with nothing behind its colon makes `parse_request` throw, whatever follows it.
pub parse_request_throws :
    (method path key rest : Bytes)
    → IsTarget method path []
    → Lacks b':' key
    → Lacks b'\n' key
    → parse_request (
        (method ++ b' ' ∷ (path ++ codes " HTTP/1.1\r"))
        ++ b'\n' ∷ ((key ++ codes ":\r") ++ b'\n' ∷ rest))
      ≡ err out_of_range
unfolding parse_request header_lines
parse_request_throws method path key rest (ms, ml, ps, pl) hc hk =
    let line = method ++ b' ' ∷ (path ++ codes " HTTP/1.1\r") in
    let plain : Lacks b'\n' line =
      Lacks-append b'\n' method _ ml (λ e. cc, Lacks-append b'\n' path _ pl (omega arith)) in
    let header = key ++ codes ":\r" in
    let long : 2 ≤ length header = omega (arith, length-append key (codes ":\r")) in
    let bare : pop_return header ≡ key ++ b':' ∷ [] =
      rw (← append_assoc key (b':' ∷ []) (b'\r' ∷ [])) (pop_return-append (key ++ b':' ∷ [])) in
    rw (
      split_lines-line line (header ++ b'\n' ∷ rest) plain,
      request_line_lem method path (codes "HTTP/1.1\r") ms ps,
      split_lines-line header rest (Lacks-append b'\n' key _ hk (omega arith)),
      return_only header long,
      filled_line header long,
      bare,
      header_line_throws key [] hc,
    )

-- ===== src/Http/Receive.antt =====
-- The reading part of `handle_client` in src/http_server.cpp. The connection is the list of the
-- chunks that the calls of `read` return, until one returns nothing. `size_t` has 64 bits.
use sandrun.Common.{
  ℕ, ◌+◌, ◌-◌, ◌^◌, ◌%◌, ◌≤◌, List, [], ◌∷◌, ◌++◌, ◌≡◌, arith, Bytes, codes, ltb, length, take,
  if◌then◌else◌, is_empty, none, some, Outcome, ok, ◌>>=◌, substr, substr_from, length-append,
  length-take, Option-cases, inl, inr, Outcome-cases,
}
use sandrun.Common.Find.{find, find_from}
use sandrun.Common.Decimal.{stoul}

-- MAX_REQUEST_SIZE of src/constants.h.
abbrev pub max_request_size : ℕ
max_request_size = 104_857_600

pub data Receiving : Type 0 where
  too_large : Receiving
  received : Bytes → Receiving

-- `while (request_data.size() < expected_size)`.
fill : ℕ → Bytes → List Bytes → Bytes
fill expected request_data [] = request_data
fill expected request_data (chunk ∷ more) =
    let on = fill expected (request_data ++ take (expected - length request_data) chunk) more in
    if ltb (length request_data) expected
    then (if is_empty chunk then request_data else on)
    else request_data

-- The value of a Content-Length header at `pos`.
content_length : ℕ → Bytes → Outcome ℕ
content_length pos request_data = do
  length_str ← elim (find_from (codes "\r\n") pos request_data) [
    | none ↦ substr_from request_data (pos + 16)
    | some line_end ↦ substr request_data (pos + 16) ((line_end + 2 ^ 64 - pos - 16) % 2 ^ 64)
  ]
  stoul length_str

-- The headers are complete and end at `header_end`.
pub receive_body : ℕ → Bytes → List Bytes → Outcome Receiving
unfolding fill content_length
receive_body header_end request_data more = elim (find (codes "Content-Length: ") request_data) [
  | none ↦ ok (received request_data)
  | some pos ↦ do
    len ← content_length pos request_data
    let expected_size = (header_end + len) % 2 ^ 64
    if ltb max_request_size expected_size
        then ok too_large
        else ok (received (fill expected_size request_data more))
]

unfoldable pub receive : Bytes → List Bytes → Outcome Receiving
unfolding receive_body
receive request_data [] = ok (received request_data)
receive request_data (chunk ∷ more) =
    let on = receive (request_data ++ chunk) more in
    if is_empty chunk
    then ok (received request_data)
    else if ltb max_request_size (length request_data + length chunk)
    then ok too_large
    else elim (find (codes "\r\n\r\n") (request_data ++ chunk)) [
      | none ↦ on
      | some headers ↦ receive_body (headers + 4) (request_data ++ chunk) more
    ]

fill-le :
    (expected limit : ℕ) (request_data : Bytes) (more : List Bytes)
    → expected ≤ limit
    → length request_data ≤ limit
    → length (fill expected request_data more) ≤ limit
unfolding fill
fill-le expected limit request_data [] h k = k
fill-le expected limit request_data (chunk ∷ more) h k = ground (
  arith,
  length-append request_data (take (expected - length request_data) chunk),
  length-take (expected - length request_data) chunk,
  fill-le expected limit (request_data ++ take (expected - length request_data) chunk) more h,
)

receive_body-le :
    (header_end : ℕ) (request_data result : Bytes) (more : List Bytes)
    → length request_data ≤ max_request_size
    → receive_body header_end request_data more ≡ ok (received result)
    → length result ≤ max_request_size
unfolding receive_body
receive_body-le header_end request_data result more h e =
    elim (Option-cases (find (codes "Content-Length: ") request_data)) [
      | inl absent ↦ ground arith
      | inr (pos, at) ↦ elim (Outcome-cases (content_length pos request_data)) [
        | inl (len, fine) ↦
            ground (arith, fill-le ((header_end + len) % 2 ^ 64) max_request_size request_data more)
        | inr (error, thrown) ↦ ground arith
      ]
    ]

-- A request that is accepted has at most 100 MB, whatever the client sends and announces.
pub receive-le-max_request_size :
    (request_data result : Bytes) (chunks : List Bytes)
    → length request_data ≤ max_request_size
    → receive request_data chunks ≡ ok (received result)
    → length result ≤ max_request_size
unfolding receive
receive-le-max_request_size request_data result [] h e = ground arith
receive-le-max_request_size request_data result (chunk ∷ more) h e =
    elim (Option-cases (find (codes "\r\n\r\n") (request_data ++ chunk))) [
      | inl incomplete ↦ ground (
        arith,
        length-append request_data chunk,
        receive-le-max_request_size (request_data ++ chunk) result more,
      )
      | inr (headers, complete) ↦ ground (
        arith,
        length-append request_data chunk,
        receive_body-le (headers + 4) (request_data ++ chunk) result more,
      )
    ]

-- ===== src/Http/Response.antt =====
-- `HttpResponse` and `build_response` of src/http_server.h and src/http_server.cpp.
use sandrun.Common.{
  ℕ, [], ◌∷◌, ◌++◌, Bytes, codes, ◌==◌, length, if◌then◌else◌, Map, insert, bytes_key,
}
use sandrun.Common.Decimal.{to_string}

pub record HttpResponse : Type 0 where
  pub status_code : ℕ
  pub headers : Map Bytes Bytes
  pub body : Bytes

-- The constructor's values.
pub default_response : HttpResponse
default_response = record {
  status_code = 200;
  headers =
      insert (codes "Access-Control-Allow-Origin") (codes "*")
        (insert (codes "Content-Type") (codes "application/json") []);
  body = [];
}

pub reason_phrase : ℕ → Bytes
reason_phrase status =
    if status == 200
    then codes "OK"
    else if status == 400
    then codes "Bad Request"
    else if status == 404
    then codes "Not Found"
    else if status == 500
    then codes "Internal Server Error"
    else codes "Unknown"

pub header_text : Map Bytes Bytes → Bytes
header_text [] = []
header_text ((key, value) ∷ headers) =
    key ++ (codes ": " ++ (value ++ (codes "\r\n" ++ header_text headers)))

-- The status line and the headers, up to the empty line.
pub response_head : HttpResponse → Bytes
unfolding reason_phrase header_text
response_head resp =
    codes "HTTP/1.1 "
    ++ (to_string resp.status_code
        ++ (codes " "
            ++ (reason_phrase resp.status_code
                ++ (codes "\r\n"
                    ++ (header_text resp.headers
                        ++ (codes "Content-Length: "
                            ++ (to_string (length resp.body) ++ codes "\r\n\r\n")))))))

pub build_response : HttpResponse → Bytes
unfolding response_head
build_response resp = response_head resp ++ resp.body

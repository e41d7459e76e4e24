-- ===== src/Program/Requests.antt =====
-- Requests at the server of src/main.cpp, from the bytes that a client sends to the reply.
use sandrun.Common.{
  true, false, List, [], ◌++◌, ◌≡◌, ◌∙◌, insert, arith, some, Bytes, codes, All, lookup, bytes_key,
  ok, Error,
}
use sandrun.Common.Find.{Lacks}
use sandrun.Common.Decimal.{ℤ}
use sandrun.Http.Request.{HttpRequest}
use sandrun.Http.Request.RoundTrip.{format_request, insert_all, IsHeader, IsPlain}
use sandrun.Http.Receive.{receive, received}
use sandrun.Http.Routes.{find_handler}
use sandrun.Http.Client.{
  HandlerFunc, Reply, upgrades, catch_errors, write_response, serve, handle_client,
}
use sandrun.Http.Client.Served.{
  handle_client-format_request, serve-found, serve-upgrades, find_websocket-single,
}
use sandrun.WebSocket.Handshake.{is_websocket_upgrade, create_handshake_response}
use sandrun.Answers.Routes.{Handlers, routes, find_handler-routes}
use sandrun.Program.{launched}

-- The routes behind which the id of a job stands.
pub data IsJobRoute (h : Handlers HandlerFunc) : Bytes → HandlerFunc → Type 0 where
  status_route : IsJobRoute h (codes "/status/") h.status
  logs_route : IsJobRoute h (codes "/logs/") h.logs
  outputs_route : IsJobRoute h (codes "/outputs/") h.outputs
  download_route : IsJobRoute h (codes "/download/") h.download

IsJobRoute-found :
    (h : Handlers HandlerFunc) (rest : Bytes) {prefix : Bytes} {handler : HandlerFunc}
    → IsJobRoute h prefix handler
    → find_handler (codes "GET") (prefix ++ rest) (routes h) ≡ some handler
IsJobRoute-found h rest status_route = (find_handler-routes h rest).0
IsJobRoute-found h rest logs_route = (find_handler-routes h rest).1
IsJobRoute-found h rest outputs_route = (find_handler-routes h rest).2
IsJobRoute-found h rest download_route = (find_handler-routes h rest).3

-- The request that a handler gets.
abbrev pub request : Bytes → List (Bytes × Bytes) → Bytes → Bytes → HttpRequest
request client_ip headers body path = record {
  method = codes "GET";
  path = path;
  headers = insert_all headers [];
  body = body;
  client_ip = client_ip;
}

-- A GET of the path arrives whole.
abbrev pub Arrives : List Bytes → List (Bytes × Bytes) → Bytes → Bytes → Type 0
Arrives chunks headers body path =
    receive [] chunks ≡ ok (received (format_request (codes "GET") path headers body))

-- The headers and the body are as clients write them, and the path is one word.
abbrev pub IsWritten : List (Bytes × Bytes) → Bytes → Bytes → Type 0
IsWritten headers body path =
    Lacks b' ' path × Lacks b'\n' path × All IsHeader headers × IsPlain body

module _ (what : Error → Bytes) (sha1 : Bytes → Bytes) {W : Type 0} (port : ℤ)
    (handlers : Handlers HandlerFunc) (stream : W) (client_ip : Bytes) (chunks : List Bytes)
    (headers : List (Bytes × Bytes)) (body : Bytes) where
  -- What the server replies.
  abbrev pub reply : Reply W
  reply =
      handle_client what sha1 (launched port handlers stream).ws_routes
        (launched port handlers stream).routes client_ip chunks

  reply-serve :
      (path : Bytes)
      → IsWritten headers body path
      → Arrives chunks headers body path
      → reply
        ≡ serve what sha1
            (launched port handlers stream).ws_routes
            (launched port handlers stream).routes
            (request client_ip headers body path)
  reply-serve path (word, line, good, plain) arrives =
      handle_client-format_request what sha1 (launched port handlers stream).ws_routes
        (launched port handlers stream).routes client_ip chunks (codes "GET") path headers body
        (omega arith, omega arith, word, line) good plain arrives

  reply-handler :
      (path : Bytes) (handler : HandlerFunc)
      → IsWritten headers body path
      → is_websocket_upgrade (insert_all headers []) ≡ false
      → find_handler (codes "GET") path (routes handlers) ≡ some handler
      → Arrives chunks headers body path
      → reply
        ≡ write_response what (catch_errors what (handler (request client_ip headers body path)))
  unfolding launched
  reply-handler path handler written plain found arrives =
      reply-serve path written arrives
      ∙ serve-found what sha1 (launched port handlers stream).ws_routes
          (launched port handlers stream).routes (request client_ip headers body path) handler plain
          found

  -- A GET of a job's status, logs, files or download, as clients write it and not as an upgrade,
  -- that arrives whole at the server that main starts, is answered by what the handler of that
  -- route makes of the request as it was written, under the client's address.
  pub reply-routes :
      (rest : Bytes)
      → is_websocket_upgrade (insert_all headers []) ≡ false
      → (handler : HandlerFunc) (prefix : Bytes) → IsJobRoute handlers prefix handler
      → IsWritten headers body (prefix ++ rest)
      → Arrives chunks headers body (prefix ++ rest)
      → reply
        ≡ write_response what
            (catch_errors what (handler (request client_ip headers body (prefix ++ rest))))
  reply-routes rest plain handler prefix route written arrives =
      reply-handler (prefix ++ rest) handler written plain (IsJobRoute-found handlers rest route)
        arrives

  -- An upgrade with a key of the path /stream/, as clients write it, that arrives whole at the
  -- server that main starts, gets the handshake and goes to the stream's handler with the rest of
  -- the path.
  pub reply-stream :
      (rest key : Bytes)
      → is_websocket_upgrade (insert_all headers []) ≡ true
      → lookup (codes "Sec-WebSocket-Key") (insert_all headers []) ≡ some key
      → IsWritten headers body (codes "/stream/" ++ rest)
      → Arrives chunks headers body (codes "/stream/" ++ rest)
      → reply ≡ upgrades (create_handshake_response sha1 key) stream rest
  unfolding launched insert
  reply-stream rest key asked given written arrives =
      reply-serve (codes "/stream/" ++ rest) written arrives
      ∙ serve-upgrades what sha1 (launched port handlers stream).ws_routes
          (launched port handlers stream).routes
          (request client_ip headers body (codes "/stream/" ++ rest)) (codes "/stream/") key stream
          asked (find_websocket-single (codes "/stream/") rest stream) given

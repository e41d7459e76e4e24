-- ===== src/Http/Client.antt =====
-- `handle_client` of src/http_server.cpp, from the bytes of a connection to what is written back.
-- Handlers, and the text `what()` of an exception, are parameters; an exception outside the two
-- `try` blocks leaves the connection's thread and ends the process.
pub mod Replies
pub mod Served
use sandrun.Common.{
  ℕ, Bool, true, false, ◌&&◌, List, [], ◌∷◌, ◌++◌, Bytes, codes, length, drop, if◌then◌else◌,
  is_empty, Option, none, some, Outcome, ok, err, Error, ◌>>=◌, undefined_behavior, diverges, Map,
  lookup, bytes_key, starts_with,
}
use sandrun.Http.Request.{HttpRequest, parse_request}
use sandrun.Http.Response.{HttpResponse, default_response, build_response}
use sandrun.Http.Receive.{Receiving, too_large, received, receive}
use sandrun.Http.Routes.{find_handler}
use sandrun.WebSocket.Handshake.{is_websocket_upgrade, create_handshake_response}

-- What a connection ends in: nothing is written, a text is written, a handshake is written and a
-- WebSocket handler takes over with the rest of the path, or the process ends.
pub data Reply (W : Type 0) : Type 0 where
  silent : Reply W
  writes : Bytes → Reply W
  upgrades : Bytes → W → Bytes → Reply W
  terminates : Error → Reply W

abbrev pub HandlerFunc : Type 0
HandlerFunc = HttpRequest → Outcome HttpResponse

abbrev pub error_413 : Bytes
error_413 =
    codes "HTTP/1.1 413 Payload Too Large\r\nContent-Type: application/json\r\n"
    ++ codes "Content-Length: 36\r\n\r\n{\"error\":\"Request exceeds 100MB limit\"}"

-- The response of the `catch` blocks.
pub error_response : Bytes → HttpResponse
error_response what = record default_response {
  status_code = 500;
  body = codes "{\"error\":\"" ++ (what ++ codes "\"}");
}

pub not_found_response : HttpResponse
not_found_response = record default_response {
  status_code = 404;
  body = codes "{\"error\":\"Not found\"}";
}

-- The first of the routes, in their order, whose prefix the path has.
pub find_websocket : {W : Type 0} → Bytes → Map Bytes W → Option (Bytes × W)
find_websocket path [] = none
find_websocket path ((prefix, handler) ∷ routes) =
    if starts_with prefix path then some (prefix, handler) else find_websocket path routes

module _ (what : Error → Bytes) where
  -- Exceptions become a response; undefined behaviour is no exception.
  pub catch_errors : Outcome HttpResponse → Outcome HttpResponse
  unfolding error_response
  catch_errors (ok resp) = ok resp
  catch_errors (err undefined_behavior) = err undefined_behavior
  catch_errors (err diverges) = err diverges
  catch_errors (err e) = ok (error_response (what e))

  -- The response to a request that is no upgrade.
  pub respond : Map Bytes HandlerFunc → HttpRequest → Outcome HttpResponse
  unfolding catch_errors not_found_response
  respond routes req = elim (find_handler req.method req.path routes) [
    | none ↦ ok not_found_response
    | some handler ↦ catch_errors (handler req)
  ]

  pub write_response : {W : Type 0} → Outcome HttpResponse → Reply W
  write_response (ok resp) = writes (build_response resp)
  write_response (err e) = terminates e

  module _ {W : Type 0} (sha1 : Bytes → Bytes) (ws_routes : Map Bytes W)
      (routes : Map Bytes HandlerFunc) where
    -- The upgrade is refused without the client's key.
    upgrade : HttpRequest → Bytes × W → Reply W
    upgrade req (prefix, handler) = elim (lookup (codes "Sec-WebSocket-Key") req.headers) [
      | none ↦ silent
      | some key ↦
          upgrades (create_handshake_response sha1 key) handler (drop (length prefix) req.path)
    ]

    pub serve : HttpRequest → Reply W
    unfolding respond write_response upgrade
    serve req =
        let plain = write_response (respond routes req) in
        if is_websocket_upgrade req.headers
        then (elim (find_websocket req.path ws_routes) [
          | none ↦ plain
          | some entry ↦ upgrade req entry
        ])
        else plain

    pub handle_request : Bytes → Bytes → Reply W
    unfolding serve
    handle_request client_ip request_data =
        if is_empty request_data then silent else (elim (parse_request request_data) [
          | ok req ↦ serve (record req { client_ip = client_ip })
          | err e ↦ terminates e
        ])

    pub handle_client : Bytes → List Bytes → Reply W
    unfolding handle_request
    handle_client client_ip chunks = elim (receive [] chunks) [
      | ok too_large ↦ writes error_413
      | ok (received request_data) ↦ handle_request client_ip request_data
      | err e ↦ terminates e
    ]

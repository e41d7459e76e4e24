-- ===== src/Http/Client/Served.antt =====
-- Which handler of src/http_server.cpp a request reaches, from the bytes that are received on.
use sandrun.Common.{
  true, false, List, [], ◌∷◌, ◌++◌, ◌≡◌, refl, arith, some, Bytes, codes, All, lookup, bytes_key,
  ok, Error, drop, length, starts_with_self, Map,
}
use sandrun.Http.Request.{HttpRequest}
use sandrun.Http.Request.RoundTrip.{
  format_request, format_request-filled, insert_all, IsHeader, IsPlain, IsTarget,
  parse_request-format_request,
}
use sandrun.Http.Receive.{receive, received}
use sandrun.Http.Routes.{find_handler}
use sandrun.Http.Client.{
  HandlerFunc, upgrades, catch_errors, respond, write_response, find_websocket, upgrade, serve,
  handle_request, handle_client,
}
use sandrun.WebSocket.Handshake.{is_websocket_upgrade, create_handshake_response}

module _ (what : Error → Bytes) (sha1 : Bytes → Bytes) {W : Type 0} (ws_routes : Map Bytes W)
    (routes : Map Bytes HandlerFunc) where
  -- A request that arrives whole is served as it was written, under the client's address.
  pub handle_client-format_request :
      (client_ip : Bytes) (chunks : List Bytes) (method path : Bytes)
      (headers : List (Bytes × Bytes)) (body : Bytes)
      → IsTarget method path headers
      → All IsHeader headers
      → IsPlain body
      → receive [] chunks ≡ ok (received (format_request method path headers body))
      → handle_client what sha1 ws_routes routes client_ip chunks
        ≡ serve what sha1 ws_routes routes (record {
          method = method;
          path = path;
          headers = insert_all headers [];
          body = body;
          client_ip = client_ip;
        })
  unfolding handle_client handle_request
  handle_client-format_request client_ip chunks method path headers body target good plain arrives =
      ground (
        arith,
        arrives,
        format_request-filled method path headers body,
        parse_request-format_request method path headers body target good plain,
      )

  -- A request that is no upgrade gets what its route's handler answers.
  pub serve-found :
      (req : HttpRequest) (handler : HandlerFunc)
      → is_websocket_upgrade req.headers ≡ false
      → find_handler req.method req.path routes ≡ some handler
      → serve what sha1 ws_routes routes req ≡ write_response what (catch_errors what (handler req))
  unfolding serve respond
  serve-found req handler plain found = rw (plain, found, serve, respond) refl

  -- An upgrade with a key gets the handshake, and goes to the handler of the first prefix that its
  -- path has, with the rest of the path.
  pub serve-upgrades :
      (req : HttpRequest) (prefix key : Bytes) (handler : W)
      → is_websocket_upgrade req.headers ≡ true
      → find_websocket req.path ws_routes ≡ some (prefix, handler)
      → lookup (codes "Sec-WebSocket-Key") req.headers ≡ some key
      → serve what sha1 ws_routes routes req
        ≡ upgrades (create_handshake_response sha1 key) handler (drop (length prefix) req.path)
  unfolding serve upgrade
  serve-upgrades req prefix key handler asked found given =
      rw (asked, found, given, serve, upgrade) refl

-- The only route is found behind its prefix.
pub find_websocket-single :
    {W : Type 0} (prefix rest : Bytes) (handler : W)
    → find_websocket (prefix ++ rest) ((prefix, handler) ∷ []) ≡ some (prefix, handler)
unfolding find_websocket
find_websocket-single prefix rest handler = rw (starts_with_self prefix rest) refl

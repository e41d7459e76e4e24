-- ===== src/Program/Tests.antt =====
-- The theorem on the requests at the server of src/main.cpp at an input.
use sandrun.Common.{ℕ, [], ◌∷◌, ◌≡◌, refl, arith, Bytes, codes, Error, ok, lookup, starts_with}
use sandrun.Common.Find.{find}
use sandrun.Common.Decimal.{pos}
use sandrun.Http.Response.{default_response}
use sandrun.Http.Request.RoundTrip.{format_request}
use sandrun.Http.Receive.{receive}
use sandrun.Http.Client.{HandlerFunc, catch_errors, write_response}
use sandrun.WebSocket.Handshake.{is_websocket_upgrade}
use sandrun.Answers.Routes.{Handlers}
use sandrun.Program.Requests.{reply, request, status_route, reply-routes}

abbrev with_status : ℕ → HandlerFunc
with_status status_code req = ok (record default_response { status_code = status_code })

abbrev handlers : Handlers HandlerFunc
handlers = record {
  submit = with_status 200;
  status = with_status 201;
  logs = with_status 202;
  outputs = with_status 203;
  download = with_status 204;
  info = with_status 205;
  stats = with_status 206;
  environments = with_status 207;
  health = with_status 208;
}

abbrev what : Error → Bytes
what e = codes "error"

abbrev sha1 : Bytes → Bytes
sha1 text = []

reply-routes_example :
    reply what sha1 {W = ℕ}
      (pos 8443)
      handlers
      0
      (codes "10.0.0.1")
      (codes "GET /status/x HTTP/1.1\r\n\r\n" ∷ [])
      []
      []
    ≡ write_response what
        (catch_errors what (handlers.status (request (codes "10.0.0.1") [] [] (codes "/status/x"))))
reply-routes_example =
    reply-routes what sha1 (pos 8443) handlers 0 (codes "10.0.0.1")
      (codes "GET /status/x HTTP/1.1\r\n\r\n" ∷ []) [] [] (codes "x")
      (unfold is_websocket_upgrade lookup in refl) handlers.status (codes "/status/") status_route
      (omega arith) (unfold receive find starts_with format_request in refl)

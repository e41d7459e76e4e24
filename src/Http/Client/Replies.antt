-- ===== src/Http/Client/Replies.antt =====
-- The replies of `handle_client` in src/http_server.cpp.
use sandrun.Common.{
  List, ◌++◌, ◌∷◌, [], ◌≡◌, Bytes, Error, some, ok, err, bytes_key, Map, undefined_behavior,
  diverges, ◌≢◌, arith, out_of_range, codes, append_cons-filled,
}
use sandrun.Common.Find.{Lacks}
use sandrun.Http.Request.{HttpRequest}
use sandrun.Http.Request.RoundTrip.{IsTarget, parse_request_throws}
use sandrun.Http.Receive.{receive, received}
use sandrun.Http.Routes.{find_handler}
use sandrun.Http.Client.{
  HandlerFunc, terminates, respond, handle_request, handle_client, error_response,
}

-- A handler that throws is answered by a 500 with the exception's text.
respond_throws :
    (what : Error → Bytes) (routes : Map Bytes HandlerFunc) (req : HttpRequest)
    (handler : HandlerFunc) (e : Error)
    → find_handler req.method req.path routes ≡ some handler
    → handler req ≡ err e
    → e ≢ undefined_behavior
    → e ≢ diverges
    → respond what routes req ≡ ok (error_response (what e))
unfolding respond
respond_throws what routes req handler e found thrown h k = ground (arith)

-- A request with a header line that ends at its colon ends the process, whatever the routes are,
-- once it has been received whole.
pub handle_client_terminates :
    {W : Type 0} (what : Error → Bytes) (sha1 : Bytes → Bytes) (ws_routes : Map Bytes W)
    (routes : Map Bytes HandlerFunc) (client_ip : Bytes) (chunks : List Bytes)
    (method path key rest : Bytes)
    → IsTarget method path []
    → Lacks b':' key
    → Lacks b'\n' key
    → receive [] chunks
      ≡ ok (
          received (
            (method ++ b' ' ∷ (path ++ codes " HTTP/1.1\r"))
            ++ b'\n' ∷ ((key ++ codes ":\r") ++ b'\n' ∷ rest)))
    → handle_client what sha1 ws_routes routes client_ip chunks ≡ terminates out_of_range
unfolding handle_client handle_request
handle_client_terminates what sha1 ws_routes routes client_ip chunks method path key rest t hc hk
      r =
    ground (
      arith,
      parse_request_throws method path key rest t hc hk,
      append_cons-filled (method ++ b' ' ∷ (path ++ codes " HTTP/1.1\r"))
          ((key ++ codes ":\r") ++ b'\n' ∷ rest) b'\n',
    )

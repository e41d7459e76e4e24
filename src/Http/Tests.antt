-- ===== src/Http/Tests.antt =====
-- The theorems on src/http_server.cpp at inputs.
use sandrun.Common.{
  ℕ, ◌≤◌, List, [], ◌∷◌, ◌≡◌, refl, arith, Bytes, codes, length, Error, ok, err, out_of_range, some,
  Map, lookup, insert, bytes_key, bytes_eq, bytes_lt, starts_with, true, false, none, ◌++◌, ◌==◌,
}
use sandrun.Common.Find.{find}
use sandrun.Http.Request.{HttpRequest, parse_request}
use sandrun.Http.Request.RoundTrip.{format_request, insert_all, parse_request-format_request}
use sandrun.Http.Receive.{max_request_size, receive, receive-le-max_request_size}
use sandrun.Http.Routes.{find_handler, route}
use sandrun.Http.Routes.Longest.{IsChosen, find_handler-IsChosen}
use sandrun.Http.Client.{HandlerFunc, handle_client, terminates}
use sandrun.Http.Client.Replies.{handle_client_terminates}
use sandrun.Http.Server.{HttpServer, Network, Round, returned, start, destroy}
use sandrun.Http.Server.Lifecycle.{spawned, closed, start-returns}
use sandrun.Common.Decimal.{pos, negsuc}

abbrev one_header : List (Bytes × Bytes)
one_header = (codes "Host", codes "localhost") ∷ []

parse_request-format_request_example :
    parse_request (format_request (codes "POST") (codes "/submit") one_header (codes "a\n\nb"))
    ≡ ok (record {
      method = codes "POST";
      path = codes "/submit";
      headers = insert_all one_header [];
      body = codes "a\n\nb";
      client_ip = [];
    })
parse_request-format_request_example =
    parse_request-format_request (codes "POST") (codes "/submit") one_header (codes "a\n\nb")
      (omega arith) (omega arith) (omega arith)

receive-le-max_request_size_example : length (codes "GET / HTTP/1.1\r\n\r\n") ≤ max_request_size
unfolding receive find starts_with
receive-le-max_request_size_example =
    receive-le-max_request_size [] (codes "GET / HTTP/1.1\r\n\r\n")
      (codes "GET / HTTP" ∷ codes "/1.1\r\n\r\n" ∷ []) (omega arith) refl

two_routes : Map Bytes ℕ
unfolding route
two_routes = route (codes "GET") (codes "/") 1 (route (codes "GET") (codes "/status/") 2 [])

find_handler-IsChosen_example :
    IsChosen
      (codes "GET")
      (codes "/status/job_1")
      two_routes
      (find_handler (codes "GET") (codes "/status/job_1") two_routes)
find_handler-IsChosen_example =
    find_handler-IsChosen (codes "GET") (codes "/status/job_1") two_routes

status_route : find_handler (codes "GET") (codes "/status/job_1") two_routes ≡ some 2
unfolding find_handler two_routes find starts_with lookup insert bytes_eq bytes_lt
status_route = refl

bad_status : HandlerFunc
bad_status req = err out_of_range

abbrev handlers : Map Bytes HandlerFunc
handlers = (codes "GET /status/", bad_status) ∷ []

abbrev status_request : HttpRequest
status_request = record {
  method = codes "GET";
  path = codes "/status/x";
  headers = [];
  body = [];
  client_ip = [];
}

abbrev what : Error → Bytes
what e = codes "basic_string::substr"

handle_client_terminates_example :
    handle_client what {W = ℕ}
      (λ s. s)
      []
      handlers
      (codes "10.0.0.1")
      (codes "GET / HTTP/1.1\r\nHost:\r\n\r\n" ∷ [])
    ≡ terminates out_of_range
unfolding receive find starts_with
handle_client_terminates_example =
    handle_client_terminates {W = ℕ} what (λ s. s) [] handlers (codes "10.0.0.1")
      (codes "GET / HTTP/1.1\r\nHost:\r\n\r\n" ∷ []) (codes "GET") (codes "/") (codes "Host")
      (codes "\r\n") (omega arith) (omega arith) (omega arith) refl

-- A server at port 8443 that accepts a client, and is stopped while it waits for the next.
abbrev at_8443 : HttpServer ℕ
at_8443 = record {
  port = pos 8443;
  server_fd = negsuc 0;
  running = false;
  routes = [];
  ws_routes = [];
}

abbrev network : Network
network = record { socket = pos 3; binds = λ port. port == 8443; listens = true }

abbrev two_rounds : List Round
two_rounds =
    record { stops_before = false; stops_during = false; accepted = some (4, codes "10.0.0.1") }
    ∷ record { stops_before = false; stops_during = true; accepted = none }
    ∷ []

abbrev sha1 : Bytes → Bytes
sha1 text = []

start-returns_example :
    let after = start network two_rounds at_8443 in
    (after.2 ≡ returned)
    × (spawned after.1 ≡ (4, codes "10.0.0.1") ∷ [])
    × (closed (after.1 ++ destroy after.0) ≡ pos 3 ∷ [])
start-returns_example = start-returns network two_rounds at_8443 refl refl refl refl

-- ===== src/Http/Server.antt =====
-- The class HttpServer of src/http_server.cpp: its set-up, the loop that accepts clients, and stop,
-- which another thread may call at any time. What the system calls answer is a parameter, a round of
-- the loop for each call of accept that comes back. A client's thread is detached: the loop starts it
-- and goes on, and what it does then, which may end the process, is `client_thread`.
pub mod Lifecycle
use sandrun.Common.{
  ℕ, ◌+◌, ◌-◌, ◌%◌, ◌^◌, Bool, true, false, not, List, [], ◌∷◌, ◌++◌, Option, none, some, Bytes,
  codes, if◌then◌else◌, Map, insert, bytes_key, Error,
}
use sandrun.Common.Decimal.{ℤ, pos, negsuc}
use sandrun.Http.Client.{Reply, terminates, HandlerFunc, handle_client}

pub record HttpServer (W : Type 0) : Type 0 where
  pub port : ℤ
  pub server_fd : ℤ
  pub running : Bool
  pub routes : Map Bytes HandlerFunc
  pub ws_routes : Map Bytes W

unfoldable pub new_server : {W : Type 0} → ℤ → HttpServer W
new_server port = record {
  port = port;
  server_fd = negsuc 0;
  running = false;
  routes = [];
  ws_routes = [];
}

unfoldable pub websocket_route : {W : Type 0} → Bytes → W → HttpServer W → HttpServer W
websocket_route path_prefix handler s = record s {
  ws_routes = insert path_prefix handler s.ws_routes;
}

-- What the server does: the closing of its socket, and the start of a client's thread; and what such
-- a thread does: the reply, the closing of the client's socket, and the end of the process by an
-- exception that leaves the thread.
pub data Effect (W : Type 0) : Type 0 where
  closes_server : ℤ → Effect W
  spawns : ℕ → Bytes → Effect W
  handles : ℕ → Bytes → Reply W → Effect W
  closes_client : ℕ → Effect W
  ends : Error → Effect W

-- How `start` comes back, if it does.
pub data Ending : Type 0 where
  returned : Ending
  threw : Bytes → Ending
  still_running : Ending

-- The answers to `socket`, to `bind` at a port, and to `listen`.
pub record Network : Type 0 where
  pub socket : ℤ
  pub binds : ℕ → Bool
  pub listens : Bool

-- A round of the loop: whether `stop` is called before the test of the loop, or while accept waits,
-- and the client, or none where accept fails.
pub record Round : Type 0 where
  pub stops_before : Bool
  pub stops_during : Bool
  pub accepted : Option (ℕ × Bytes)

-- `htons(port_)`: an int cut to sixteen bits.
abbrev pub to_uint16 : ℤ → ℕ
to_uint16 (pos n) = n % 2 ^ 16
to_uint16 (negsuc n) = 2 ^ 16 - 1 - n % 2 ^ 16

abbrev pub is_negative : ℤ → Bool
is_negative (pos n) = false
is_negative (negsuc n) = true

module _ {W : Type 0} where
  unfoldable pub stop : HttpServer W → HttpServer W × List (Effect W)
  stop s =
      if is_negative s.server_fd
      then (record s { running = false }, [])
      else (record s { running = false; server_fd = negsuc 0 }, closes_server s.server_fd ∷ [])

  abbrev pub stop_if : Bool → HttpServer W → HttpServer W × List (Effect W)
  stop_if called s = if called then stop s else (s, [])

  -- What the destructor does.
  unfoldable pub destroy : HttpServer W → List (Effect W)
  unfolding stop
  destroy s = (stop s).1

  -- The end of a client's thread.
  abbrev pub thread_end : ℕ → Reply W → List (Effect W)
  thread_end client_fd (terminates e) = ends e ∷ []
  thread_end client_fd reply = closes_client client_fd ∷ []

module _ (what : Error → Bytes) (sha1 : Bytes → Bytes) {W : Type 0} where
  unfoldable pub client_thread : HttpServer W → ℕ → Bytes → List Bytes → List (Effect W)
  client_thread s client_fd client_ip chunks =
      let reply = handle_client what sha1 s.ws_routes s.routes client_ip chunks in
      handles client_fd client_ip reply ∷ thread_end client_fd reply

module _ {W : Type 0} where
  -- The loop of `start`; it still runs if the rounds are used up.
  unfoldable pub accept_loop : List Round → HttpServer W → HttpServer W × List (Effect W) × Ending
  unfolding stop
  accept_loop [] s = (s, [], if s.running then still_running else returned)
  accept_loop (round ∷ rounds) s =
      let (tested, before) = stop_if round.stops_before s in
      let (waited, during) = stop_if round.stops_during tested in
      let (last, effects, ending) = accept_loop rounds waited in
      if not tested.running then (tested, before, returned) else elim round.accepted [
        | none ↦ if waited.running then (last, effects, ending) else (waited, during, returned)
        | some (client_fd, client_ip) ↦
            (last, during ++ spawns client_fd client_ip ∷ effects, ending)
      ]

  unfoldable pub start :
      Network → List Round → HttpServer W → HttpServer W × List (Effect W) × Ending
  unfolding accept_loop
  start network rounds s =
      let opened = record s { server_fd = network.socket } in
      if is_negative network.socket
      then (opened, [], threw (codes "Failed to create socket"))
      else if not (network.binds (to_uint16 s.port))
      then (opened, closes_server network.socket ∷ [], threw (codes "Failed to bind to port"))
      else if not network.listens
      then (opened, closes_server network.socket ∷ [], threw (codes "Failed to listen"))
      else accept_loop rounds (record opened { running = true })

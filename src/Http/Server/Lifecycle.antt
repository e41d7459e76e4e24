-- ===== src/Http/Server/Lifecycle.antt =====
-- How the server of src/http_server.cpp ends: by `stop`, or by an exception of its set-up.
use sandrun.Common.{
  ℕ, Bool, true, false, ◌&&◌, ◌||◌, List, [], ◌∷◌, ◌++◌, ◌≡◌, refl, ap, arith, Option, none, some,
  Bytes, codes, if◌then◌else◌, any, append-nil, Option-cases, Bool-cases, inl, inr,
}
use sandrun.Common.Decimal.{ℤ, negsuc}
use sandrun.Http.Server.{
  HttpServer, Effect, closes_server, spawns, Ending, returned, threw, Network, Round, to_uint16,
  is_negative, stop, accept_loop, start, destroy,
}

-- Whether `stop` is called in a round.
abbrev pub is_stopped : List Round → Bool
is_stopped = any (λ round. round.stops_before || round.stops_during)

abbrev pub client_of : Option (ℕ × Bytes) → List (ℕ × Bytes)
client_of none = []
client_of (some client) = client ∷ []

-- The clients that are accepted before or while `stop` is called.
abbrev pub clients : List Round → List (ℕ × Bytes)
clients [] = []
clients (round ∷ rounds) =
    if round.stops_before
    then []
    else client_of round.accepted ++ (if round.stops_during then [] else clients rounds)

module _ {W : Type 0} where
  -- The clients whose threads are started, and the sockets of the server that are closed, in their order.
  abbrev pub spawned : List (Effect W) → List (ℕ × Bytes)
  spawned [] = []
  spawned (spawns client_fd client_ip ∷ effects) = (client_fd, client_ip) ∷ spawned effects
  spawned (e ∷ effects) = spawned effects

  abbrev pub closed : List (Effect W) → List ℤ
  closed [] = []
  closed (closes_server fd ∷ effects) = fd ∷ closed effects
  closed (e ∷ effects) = closed effects

  closed-append : (effects : List (Effect W)) → closed (effects ++ []) ≡ closed effects
  closed-append effects = ap closed (append-nil effects)

  -- What is left when the server has been stopped.
  abbrev HasEnded : HttpServer W × List (Effect W) × Ending → Type 0
  HasEnded after = (after.2 ≡ returned) × (after.0.running ≡ false) × (after.0.server_fd ≡ negsuc 0)

  accept_loop-stopped :
      (rounds : List Round) (s : HttpServer W)
      → s.running ≡ false
      → s.server_fd ≡ negsuc 0
      → HasEnded (accept_loop rounds s) × ((accept_loop rounds s).1 ≡ [])
  unfolding accept_loop
  accept_loop-stopped [] s off none_open = ground arith
  accept_loop-stopped (round ∷ rounds) s off none_open = ground arith

  accept_loop-returns :
      (rounds : List Round) (s : HttpServer W)
      → s.running ≡ true
      → is_negative s.server_fd ≡ false
      → is_stopped rounds ≡ true
      → HasEnded (accept_loop rounds s)
        × (spawned (accept_loop rounds s).1 ≡ clients rounds)
        × (closed (accept_loop rounds s).1 ≡ s.server_fd ∷ [])
  unfolding accept_loop
  accept_loop-returns [] s on up h = absurd (cc)
  accept_loop-returns (round ∷ rounds) s on up h = elim (Option-cases round.accepted) [
    | inl failed ↦ ground (
      arith,
      failed,
      accept_loop-returns rounds s on up,
      accept_loop-stopped rounds (record s { running = false; server_fd = negsuc 0 }),
    )
    | inr ((client_fd, client_ip), came) ↦
        let off = record s { running = false; server_fd = negsuc 0 } in
        let stopped = accept_loop-stopped rounds off refl refl in
        elim (Bool-cases round.stops_before) [
          | inl before ↦ ground (arith, came, before)
          | inr later ↦ elim (Bool-cases round.stops_during) [
            | inl during ↦ ground (arith, came, later, during, stopped)
            | inr not_yet ↦
                let (last, seen, shut) = accept_loop-returns rounds s on up (ground arith) in
                ground (arith, came, later, not_yet, last, seen, shut)
          ]
        ]
  ]

  module _ (network : Network) (rounds : List Round) (s : HttpServer W) where
    -- Where the socket can be opened, bound and listened on, `start` returns once `stop` has been
    -- called and accept has come back: it has started a thread for each client that was accepted till
    -- then, in their order and under their addresses, and its socket is closed once, what the
    -- destructor does counted in.
    pub start-returns :
        is_negative network.socket ≡ false
        → network.binds (to_uint16 s.port) ≡ true
        → network.listens ≡ true
        → is_stopped rounds ≡ true
        → let after = start network rounds s in
          (after.2 ≡ returned)
          × (spawned after.1 ≡ clients rounds)
          × (closed (after.1 ++ destroy after.0) ≡ network.socket ∷ [])
    unfolding start destroy stop
    start-returns opened bound listened stopped =
        let on = record s { server_fd = network.socket; running = true } in
        ground (
          arith,
          accept_loop-returns rounds on refl opened stopped,
          closed-append (accept_loop rounds on).1,
        )

    -- Where the socket is opened and cannot be bound or listened on, `start` throws, and the
    -- descriptor that it has closed is closed once more by the destructor.
    pub start-closes_twice :
        is_negative network.socket ≡ false
        → network.binds (to_uint16 s.port) && network.listens ≡ false
        → let after = start network rounds s in
          (message : Bytes) × (after.2 ≡ threw message)
          × (closed (after.1 ++ destroy after.0) ≡ network.socket ∷ network.socket ∷ [])
    unfolding start destroy stop
    start-closes_twice opened failed = elim (Bool-cases (network.binds (to_uint16 s.port))) [
      | inl bound ↦ (codes "Failed to listen", ground arith, ground arith)
      | inr refused ↦ (codes "Failed to bind to port", ground arith, ground arith)
    ]

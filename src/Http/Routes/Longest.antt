-- ===== src/Http/Routes/Longest.antt =====
-- The prefix match of `handle_client` in src/http_server.cpp finds the longest pattern.
use mathlib.Core.List.{Memᴰ}
use sandrun.Common.{
  ℕ, ◌≤◌, ◌<◌, true, false, ◌&&◌, [], ◌∷◌, ◌≡◌, ◌⊎◌, inl, inr, refl, arith, Bytes, ltb, length,
  Option, none, some, Map, lookup, All, Bool-cases, Option-cases, bytes_key,
}
use sandrun.Http.Routes.{route_key, pattern_parts, pattern_matches, best_route, find_handler}

abbrev pub path_length : Bytes → ℕ
path_length pattern = length (pattern_parts pattern).1

module _ {H : Type 0} (method path : Bytes) where
  -- No pattern of the routes that matches is longer than `len`.
  abbrev pub AtMost : ℕ → Map Bytes H → Type 0
  AtMost len = All λ entry. pattern_matches method path entry.0 ≡ true → path_length entry.0 ≤ len

  -- The handler is that of a route which matches, with no longer one among `routes`.
  pub record IsLongest (routes : Map Bytes H) (handler : H) : Type 0 where
    pub pattern : Bytes
    pub listed : Memᴰ (pattern, handler) routes
    pub matched : pattern_matches method path pattern ≡ true
    pub longest : AtMost (path_length pattern) routes

  -- How the loop ends that starts with `best_match_len` and `best_handler`.
  data Ends (best_match_len : ℕ) (best_handler : Option H) (routes : Map Bytes H)
      (result : Option H) : Type 0 where
    kept :
        result ≡ best_handler
        → AtMost best_match_len routes
        → Ends best_match_len best_handler routes result
    found :
        (handler : H)
        → result ≡ some handler
        → (l : IsLongest routes handler) → best_match_len < path_length l.pattern
        → Ends best_match_len best_handler routes result

  AtMost-mono : {m n : ℕ} (routes : Map Bytes H) → m ≤ n → AtMost m routes → AtMost n routes
  AtMost-mono [] h a = tt
  AtMost-mono (entry ∷ routes) h a = (λ e. omega (arith, a.0 e), AtMost-mono routes h a.1)

  improve :
      {len : ℕ} {best r : Option H} (pattern : Bytes) (handler : H) (routes : Map Bytes H)
      → (pattern_matches method path pattern && ltb len (path_length pattern)) ≡ true
      → Ends (path_length pattern) (some handler) routes r
      → Ends len best ((pattern, handler) ∷ routes) r
  improve pattern handler routes better (kept e a) =
      found handler e
        (record {
          pattern = pattern;
          listed = Memᴰ.head refl;
          matched = ground arith;
          longest = (λ _. omega arith, a);
        })
        (ground arith)
  improve pattern handler routes better (found h e l more) =
      found h e
        (record {
          pattern = l.pattern;
          listed = Memᴰ.tail l.listed;
          matched = l.matched;
          longest = (λ _. omega arith, l.longest);
        })
        (ground arith)

  keep :
      {len : ℕ} {best r : Option H} (pattern : Bytes) (handler : H) (routes : Map Bytes H)
      → (pattern_matches method path pattern && ltb len (path_length pattern)) ≡ false
      → Ends len best routes r
      → Ends len best ((pattern, handler) ∷ routes) r
  keep pattern handler routes worse (kept e a) = kept e (λ m. ground arith, a)
  keep pattern handler routes worse (found h e l more) =
      found h e
        (record {
          pattern = l.pattern;
          listed = Memᴰ.tail l.listed;
          matched = l.matched;
          longest = (λ m. ground arith, l.longest);
        })
        more

  best_route-Ends :
      (len : ℕ) (best : Option H) (routes : Map Bytes H)
      → Ends len best routes (best_route method path len best routes)
  unfolding best_route
  best_route-Ends len best [] = kept refl tt
  best_route-Ends len best ((pattern, handler) ∷ routes) =
      elim (Bool-cases (pattern_matches method path pattern && ltb len (path_length pattern))) [
        | inl better ↦ rw better (
            improve pattern handler routes better
              (best_route-Ends (path_length pattern) (some handler) routes))
        | inr worse ↦ rw worse (keep pattern handler routes worse (best_route-Ends len best routes))
      ]

  -- What `find_handler` chose.
  abbrev pub IsChosen : Map Bytes H → Option H → Type 0
  IsChosen routes none = (lookup (route_key method path) routes ≡ none) × AtMost 0 routes
  IsChosen routes (some handler) =
      (lookup (route_key method path) routes ≡ some handler)
      ⊎ ((lookup (route_key method path) routes ≡ none) × IsLongest routes handler)

  Ends-IsChosen :
      {r : Option H} (routes : Map Bytes H)
      → lookup (route_key method path) routes ≡ none
      → Ends 0 none routes r
      → IsChosen routes r
  Ends-IsChosen routes e (kept k a) = rw k (e, a)
  Ends-IsChosen routes e (found h k l more) = rw k (inr (e, l))

  -- A request goes to the route of exactly its method and path, and else to a route whose method is
  -- the request's and whose path is a prefix of the request's, with none longer among the routes;
  -- it goes to none only if no exact route is there and every such prefix is empty.
  pub find_handler-IsChosen :
      (routes : Map Bytes H) → IsChosen routes (find_handler method path routes)
  unfolding find_handler
  find_handler-IsChosen routes = elim (Option-cases (lookup (route_key method path) routes)) [
    | inr (h, e) ↦ rw (e, find_handler) (inl e)
    | inl e ↦ rw (e, find_handler) (Ends-IsChosen routes e (best_route-Ends 0 none routes))
  ]

-- ===== src/Http/Routes.antt =====
-- The routes of src/http_server.cpp: `route`, and the choice of a handler in `handle_client`. A
-- handler is a value of any type.
pub mod Longest
use sandrun.Common.{
  ℕ, suc, ◌+◌, Bool, true, false, ◌&&◌, List, [], ◌∷◌, ◌++◌, Bytes, bytes_eq, ltb, length, drop,
  take, if◌then◌else◌, Option, none, some, Map, lookup, insert, bytes_key, starts_with,
}
use sandrun.Common.Find.{find}

-- The key of a route is its method, a space and its path.
pub route_key : Bytes → Bytes → Bytes
route_key method path = method ++ b' ' ∷ path

unfoldable pub route : {H : Type 0} → Bytes → Bytes → H → Map Bytes H → Map Bytes H
unfolding route_key
route method path handler routes = insert (route_key method path) handler routes

-- The method and the path of a pattern; without a space both are the whole pattern.
pub pattern_parts : Bytes → Bytes × Bytes
pattern_parts pattern = elim (find (b' ' ∷ []) pattern) [
  | none ↦ (pattern, pattern)
  | some space_pos ↦ (take space_pos pattern, drop (suc space_pos) pattern)
]

-- `method == req.method && req.path.find(path_pattern) == 0`.
pub pattern_matches : Bytes → Bytes → Bytes → Bool
unfolding pattern_parts
pattern_matches method path pattern =
    bytes_eq (pattern_parts pattern).0 method && starts_with (pattern_parts pattern).1 path

module _ {H : Type 0} (method path : Bytes) where
  -- The loop over the routes; `best_match_len` and `best_handler` are its variables.
  pub best_route : ℕ → Option H → Map Bytes H → Option H
  unfolding pattern_matches
  best_route best_match_len best_handler [] = best_handler
  best_route best_match_len best_handler ((pattern, handler) ∷ routes) =
      let len = length (pattern_parts pattern).1 in
      let better = pattern_matches method path pattern && ltb best_match_len len in
      best_route (if better then len else best_match_len)
        (if better then some handler else best_handler) routes

  -- An exact match, or else the longest matching prefix.
  unfoldable pub find_handler : Map Bytes H → Option H
  unfolding best_route route_key
  find_handler routes = elim (lookup (route_key method path) routes) [
    | some handler ↦ some handler
    | none ↦ best_route 0 none routes
  ]

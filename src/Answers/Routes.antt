-- ===== src/Answers/Routes.antt =====
-- The routes that src/main.cpp registers with the HTTP server. A handler is a value of any type.
use sandrun.Common.{
  [], ◌∷◌, ◌++◌, ◌≡◌, refl, Option, some, Bytes, codes, Map, insert, lookup, bytes_key, bytes_eq,
  bytes_lt, starts_with,
}
use sandrun.Common.Find.{find}
use sandrun.Http.Routes.{route, find_handler}

pub record Handlers (H : Type 0) : Type 0 where
  pub submit : H
  pub status : H
  pub logs : H
  pub outputs : H
  pub download : H
  pub info : H
  pub stats : H
  pub environments : H
  pub health : H

unfoldable pub routes : {H : Type 0} → Handlers H → Map Bytes H
unfolding route
routes h = route (codes "GET") (codes "/health") h.health (
    route (codes "GET") (codes "/environments") h.environments (
      route (codes "GET") (codes "/stats") h.stats (
        route (codes "GET") (codes "/") h.info (
          route (codes "GET") (codes "/download/") h.download (
            route (codes "GET") (codes "/outputs/") h.outputs (
              route (codes "GET") (codes "/logs/") h.logs (
                route (codes "GET") (codes "/status/") h.status
                  (route (codes "POST") (codes "/submit") h.submit []))))))))

abbrev pub got : {H : Type 0} → Bytes → Handlers H → Option H
got path h = find_handler (codes "GET") path (routes h)

-- A GET of a job's status, logs, files or download reaches the handler of that route, whatever
-- stands behind the route in the path: the routes are told apart, and none hides another.
pub find_handler-routes :
    {H : Type 0} (h : Handlers H) (rest : Bytes)
    → (got (codes "/status/" ++ rest) h ≡ some h.status)
      × (got (codes "/logs/" ++ rest) h ≡ some h.logs)
      × (got (codes "/outputs/" ++ rest) h ≡ some h.outputs)
      × (got (codes "/download/" ++ rest) h ≡ some h.download)
unfolding routes find_handler find starts_with insert lookup bytes_eq bytes_lt
find_handler-routes h [] = (refl, refl, refl, refl)
find_handler-routes h (c ∷ rest) = (refl, refl, refl, refl)

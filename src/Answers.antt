-- ===== src/Answers.antt =====
-- The handlers of src/main.cpp that answer a GET with what the server holds. Each one is a function
-- of the state at the time; the id is what stands behind the route in the path.
pub mod Status
pub mod Listing
pub mod System
pub mod Routes
pub mod Lookups
pub mod Tests
use sandrun.Common.{
  ℕ, Bool, List, [], ◌∷◌, ◌++◌, Option, none, some, Bytes, codes, if◌then◌else◌, is_empty, lookup,
  bytes_key, Outcome, ok, ◌>>=◌,
}
use sandrun.Http.Response.{HttpResponse, default_response}
use sandrun.Jobs.{Job, Server, deref}

-- What is written into a stream, one piece after the other.
abbrev pub written : List Bytes → Bytes
written [] = []
written (piece ∷ pieces) = piece ++ written pieces

-- The pieces of a loop with a separator in front of all but the first.
unfoldable pub join_pieces : Bytes → List Bytes → Bytes
join_pieces separator [] = []
join_pieces separator (piece ∷ []) = piece
join_pieces separator (piece ∷ next ∷ pieces) =
    piece ++ (separator ++ join_pieces separator (next ∷ pieces))

abbrev pub answer : Bytes → Outcome HttpResponse
answer body = ok (record default_response { body = body })

abbrev pub job_not_found : HttpResponse
job_not_found = record default_response {
  status_code = 404;
  body = codes "{\"error\":\"Job not found\"}";
}

-- The job of an id, or the answer 404.
unfoldable pub with_job :
    {F : Type 0} → Bytes → Server F → (Job F → Outcome HttpResponse) → Outcome HttpResponse
unfolding deref
with_job job_id s handler = elim (lookup job_id s.jobs) [
  | none ↦ ok job_not_found
  | some pointer ↦ deref (some pointer) >>= handler
]

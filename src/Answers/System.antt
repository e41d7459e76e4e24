-- ===== src/Answers/System.antt =====
-- GET /, /stats, /environments and /health in src/main.cpp. The printing of doubles is a parameter.
use sandrun.Common.{
  ℕ, suc, Bool, true, false, List, [], ◌∷◌, ◌++◌, Option, none, some, Bytes, codes, if◌then◌else◌,
  map, Map, Outcome, ok, ◌>>=◌,
}
use sandrun.Common.Decimal.{to_string, int_to_string}
use sandrun.RateLimiter.{Double, Config, QuotaInfo, check_quota}
use sandrun.Http.Response.{HttpResponse}
use sandrun.Environments.{EnvironmentManager, Disk, list_templates}
use sandrun.Environments.Cleanup.{Stats, get_stats}
use sandrun.Jobs.{Job, Status, queued, Server, deref, is_running}
use sandrun.Answers.{written, join_pieces, answer}

abbrev pub is_queued : Status → Bool
is_queued queued = true
is_queued status = false

-- The loop over the jobs: how many have a status. A null pointer is followed.
unfoldable pub count_jobs : {F : Type 0} → (Status → Bool) → Map Bytes (Option (Job F)) → Outcome ℕ
unfolding deref
count_jobs counts [] = ok 0
count_jobs counts ((id, pointer) ∷ jobs) = deref (some pointer) >>= λ job.
    count_jobs counts jobs >>= λ n. ok (if counts job.status then suc n else n)

module _ {F : Type 0} (show : F → Bytes) (limit : Bytes) where
  unfoldable pub stats_body : QuotaInfo F → ℕ → ℕ → Bytes
  stats_body quota total_queued total_running = written (
      codes "{\"your_quota\":{\"used\":"
      ∷ show quota.cpu_seconds_used
      ∷ codes ",\"limit\":"
      ∷ limit
      ∷ codes ",\"available\":"
      ∷ show quota.cpu_seconds_available
      ∷ codes ",\"active_jobs\":"
      ∷ to_string quota.active_jobs
      ∷ codes ",\"can_submit\":"
      ∷ (if quota.can_submit then codes "true" else codes "false")
      ∷ codes ",\"reason\":\""
      ∷ quota.reason
      ∷ codes "\"},\"system\":{\"queue_length\":"
      ∷ to_string total_queued
      ∷ codes ",\"active_jobs\":"
      ∷ to_string total_running
      ∷ codes "}}"
      ∷ [])

  unfoldable pub handle_stats :
      Double F → Config F → ℕ → Bytes → Server F → Server F × Outcome HttpResponse
  unfolding count_jobs stats_body
  handle_stats d config now client_ip s =
      let (limiter, quota) = check_quota d config now client_ip s.limiter in
      (
        record s { limiter = limiter },
        count_jobs is_queued s.jobs >>= λ total_queued.
            count_jobs is_running s.jobs >>= λ total_running.
            answer (stats_body quota total_queued total_running),
      )

unfoldable pub environments_body : List Bytes → Stats → Bytes
unfolding join_pieces
environments_body templates stats = written (
    codes "{\n  \"templates\": [\n"
    ∷ join_pieces (codes ",\n") (map (λ name. codes "    \"" ++ (name ++ codes "\"")) templates)
    ∷ codes "\n  ],\n  \"stats\": {\n    \"total_templates\": "
    ∷ int_to_string stats.total_templates
    ∷ codes ",\n    \"cached_environments\": "
    ∷ int_to_string stats.cached_environments
    ∷ codes ",\n    \"total_uses\": "
    ∷ int_to_string stats.total_uses
    ∷ codes ",\n    \"disk_usage_mb\": "
    ∷ to_string stats.disk_usage_mb
    ∷ codes "\n  }\n}"
    ∷ [])

unfoldable pub handle_environments :
    {W : Type 0} → Disk W → EnvironmentManager → W → Outcome HttpResponse
unfolding environments_body
handle_environments disk m w = answer (environments_body (list_templates m) (get_stats disk m w))

-- The id of the worker, if it has a key.
unfoldable pub handle_health : Option Bytes → Outcome HttpResponse
handle_health none = answer (codes "{\"status\":\"healthy\",\"worker_id\":null}")
handle_health (some worker_id) =
    answer (codes "{\"status\":\"healthy\",\"worker_id\":\"" ++ (worker_id ++ codes "\"}"))

unfoldable pub handle_info : Outcome HttpResponse
handle_info = answer (
    written (
      codes "{\n            \"service\": \"sandrun\",\n"
      ∷ codes "            \"status\": \"running\",\n"
      ∷ codes "            \"description\": \"Batch job execution with directory upload\",\n"
      ∷ codes "            \"privacy\": \"Jobs auto-delete after download\",\n"
      ∷ codes "            \"limits\": \"10 CPU-sec/min, 512MB RAM, 5 min timeout\"\n"
      ∷ codes "        }"
      ∷ []))

-- ===== src/Submit/Accepted.antt =====
-- What an admitted POST /submit of src/main.cpp does to the jobs, the queue and the limiter.
use sandrun.Common.{
  ℕ, ◌<◌, true, false, List, [], ◌∷◌, ◌++◌, ◌≡◌, refl, some, Bytes, codes, is_empty, length,
  value_or, lookup, contains, lookup-insert_self, bytes_key, Outcome, ok,
}
use sandrun.RateLimiter.{Double, Config, state_of, check_quota}
use sandrun.RateLimiter.Quota.{check_quota-can_submit}
use sandrun.RateLimiter.Slots.{register_job_start-admits, check_quota-active_jobs}
use sandrun.Multipart.{MultipartPart, parse}
use sandrun.Http.Request.{HttpRequest}
use sandrun.Http.Response.{HttpResponse}
use sandrun.Jobs.{Job, generate_job_id, submit_job}
use sandrun.Submit.{Storage}
use sandrun.Submit.Manifest.{new_job, configured, job_data}
use sandrun.Submit.Handler.{World, Clock, answered, enqueue, accept, upload, handle_submit}
use sandrun.Submit.Configured.{configured-IsSame, named_job, saved_world, create_job-accept}

module _ {F : Type 0} {W : Type 0} (d : Double F) (config : Config F) (show : F → Bytes)
    (sha256_string : Bytes → Bytes) (disk : Storage W) where
  -- A job of the address stands at the end of the queue and in the map, holds a slot of the
  -- limiter, and its id is the answer.
  abbrev IsQueued : Bytes → Bytes → World F W → World F W × Outcome HttpResponse → Type 0
  IsQueued ip id w after =
      (queued : Job F) × (after.1
        ≡ answered d config show sha256_string disk 200
            (codes "{\"job_id\":\"" ++ (id ++ codes "\",\"status\":\"queued\"}")))
      × (after.0.server.job_queue ≡ w.server.job_queue ++ id ∷ [])
      × (lookup id after.0.server.jobs ≡ some (some queued))
      × (queued.client_ip ≡ ip)
      × (contains id (state_of ip after.0.server.limiter).active_jobs ≡ true)

  enqueue-IsQueued :
      (now : ℕ) (job : Job F) (w : World F W)
      → length (state_of job.client_ip w.server.limiter).active_jobs < config.max_concurrent_jobs
      → IsQueued job.client_ip job.job_id w (enqueue d config show sha256_string disk now job w)
  unfolding enqueue submit_job
  enqueue-IsQueued now job w room =
      let (admits, active) =
        register_job_start-admits d config now job.client_ip job.job_id w.server.limiter in
      let admitted = admits.1 room in
      let queued = record job {
        job_hash = sha256_string (job_data disk w.disk job);
        queue_position = length (w.server.job_queue ++ job.job_id ∷ []);
      } in
      rw (admitted, enqueue, submit_job)
        (
          queued,
          refl,
          refl,
          lookup-insert_self job.job_id (some queued) w.server.jobs,
          refl,
          (active admitted).0,
        )

  enqueue-IsQueued_as :
      (now : ℕ) (job : Job F) (ip id : Bytes) (w : World F W)
      → job.client_ip ≡ ip
      → job.job_id ≡ id
      → length (state_of ip w.server.limiter).active_jobs < config.max_concurrent_jobs
      → IsQueued ip id w (enqueue d config show sha256_string disk now job w)
  enqueue-IsQueued_as now job ip id w same_ip same_id room =
      rw (← same_id, ← same_ip) (enqueue-IsQueued now job w (rw same_ip room))

  accept-IsQueued :
      (now : ℕ) (parts : List MultipartPart) (job : Job F) (w : World F W)
      → is_empty (configured disk parts w.disk job).entrypoint ≡ false
      → length (state_of job.client_ip w.server.limiter).active_jobs < config.max_concurrent_jobs
      → IsQueued job.client_ip job.job_id w
          (accept d config show sha256_string disk now parts job w)
  unfolding accept
  accept-IsQueued now parts job w named room =
      let (same_id, same_ip, same_dir) = configured-IsSame disk w.disk parts job in
      let queued =
        enqueue-IsQueued_as now (configured disk parts w.disk job) job.client_ip job.job_id w
          same_ip same_id room in
      rw (named, accept) queued

  pub handle_submit-accepts :
      (clock : Clock) (req : HttpRequest) (w : World F W) (parts : List MultipartPart)
      → (check_quota d config clock.steady req.client_ip w.server.limiter).1.can_submit ≡ true
      → parse (value_or [] (lookup (codes "Content-Type") req.headers)) req.body ≡ ok parts
      → is_empty parts ≡ false
      → is_empty
          (configured disk parts
            (saved_world d config show sha256_string disk clock req.client_ip parts w).disk
            (named_job d config show sha256_string disk clock req.client_ip w)).entrypoint
        ≡ false
      → let id = (generate_job_id clock.seconds w.counter).0 in
        let after = handle_submit d config show sha256_string disk clock req w in
        (queued : Job F) × (after.1
          ≡ answered d config show sha256_string disk 200
              (codes "{\"job_id\":\"" ++ (id ++ codes "\",\"status\":\"queued\"}")))
        × (after.0.server.job_queue ≡ w.server.job_queue ++ id ∷ [])
        × (lookup id after.0.server.jobs ≡ some (some queued))
        × (queued.client_ip ≡ req.client_ip)
        × (contains id (state_of req.client_ip after.0.server.limiter).active_jobs ≡ true)
  unfolding handle_submit upload new_job
  handle_submit-accepts clock req w parts admits parsed filled named =
      let limiter = w.server.limiter in
      let quota = check_quota d config clock.steady req.client_ip limiter in
      let checked = record w { server = record w.server { limiter = quota.0 } } in
      let (room, hourly, cpu) =
        (check_quota-can_submit d config clock.steady req.client_ip limiter).0 admits in
      let same = check_quota-active_jobs d config clock.steady req.client_ip limiter in
      let queued =
        accept-IsQueued clock.steady parts
          (named_job d config show sha256_string disk clock req.client_ip w)
          (saved_world d config show sha256_string disk clock req.client_ip parts checked) named
          (rw same room) in
      rw
        (
          admits,
          parsed,
          filled,
          create_job-accept d config show sha256_string disk clock req.client_ip parts checked,
          handle_submit,
          upload,
        )
        queued

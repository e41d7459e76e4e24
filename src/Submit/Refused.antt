-- ===== src/Submit/Refused.antt =====
-- What a refused POST /submit of src/main.cpp leaves as it was.
use sandrun.Common.{
  ℕ, Bool, false, List, [], ◌≡◌, refl, ◌∙◌, Bytes, codes, ◌==◌, is_empty, value_or, lookup,
  bytes_key, Outcome, ok, err, inl, inr, Bool-cases, Outcome-cases,
}
use sandrun.RateLimiter.{Double, Config, state_of, check_quota, register_job_start}
use sandrun.RateLimiter.Slots.{register_job_start-refuses, check_quota-active_jobs}
use sandrun.Multipart.{MultipartPart, parse}
use sandrun.Http.Request.{HttpRequest}
use sandrun.Http.Response.{HttpResponse}
use sandrun.Jobs.{Job, submit_job}
use sandrun.Submit.{Storage}
use sandrun.Submit.Manifest.{new_job, configured}
use sandrun.Submit.Handler.{World, Clock, enqueue, accept, create_job, upload, handle_submit}
use sandrun.Submit.Configured.{configured-IsSame, named_job, saved_world, create_job-accept}

abbrev pub is_accepted : Outcome HttpResponse → Bool
is_accepted (ok resp) = resp.status_code == 200
is_accepted (err e) = false

module _ {F : Type 0} {W : Type 0} (d : Double F) (config : Config F) (show : F → Bytes)
    (sha256_string : Bytes → Bytes) (disk : Storage W) where
  -- The jobs, the queue, and the active jobs of the address are as before.
  abbrev IsUnchanged : Bytes → World F W → World F W → Type 0
  IsUnchanged ip w v =
      (v.server.jobs ≡ w.server.jobs)
      × (v.server.job_queue ≡ w.server.job_queue)
      × ((state_of ip v.server.limiter).active_jobs ≡ (state_of ip w.server.limiter).active_jobs)

  enqueue-IsUnchanged :
      (now : ℕ) (job : Job F) (ip : Bytes) (w : World F W)
      → job.client_ip ≡ ip
      → is_accepted (enqueue d config show sha256_string disk now job w).1 ≡ false
      → IsUnchanged ip w (enqueue d config show sha256_string disk now job w).0
  unfolding enqueue submit_job
  enqueue-IsUnchanged now job ip w named h =
      let started = register_job_start d config now job.client_ip job.job_id w.server.limiter in
      elim (Bool-cases started.1) [
        | inl e ↦ absurd (cc (rw (e, enqueue, submit_job) at h))
        | inr e ↦
            let same : (state_of ip started.0).active_jobs
                ≡ (state_of ip w.server.limiter).active_jobs =
              rw (← named) (
                register_job_start-refuses d config now job.client_ip job.job_id w.server.limiter
                  e) in
            rw (e, enqueue, submit_job) (refl, refl, same)
      ]

  accept-IsUnchanged :
      (now : ℕ) (parts : List MultipartPart) (job : Job F) (w : World F W)
      → is_accepted (accept d config show sha256_string disk now parts job w).1 ≡ false
      → IsUnchanged job.client_ip w (accept d config show sha256_string disk now parts job w).0
  unfolding accept
  accept-IsUnchanged now parts job w h =
      let named = configured disk parts w.disk job in
      elim (Bool-cases (is_empty named.entrypoint)) [
        | inl e ↦ rw (e, accept) (refl, refl, refl)
        | inr e ↦
            let (same_id, same, same_dir) = configured-IsSame disk w.disk parts job in
            let kept = enqueue-IsUnchanged now named job.client_ip w same (rw (e, accept) at h) in
            rw (e, accept) kept
      ]

  create_job-IsUnchanged :
      (clock : Clock) (ip : Bytes) (parts : List MultipartPart) (w : World F W)
      → is_accepted (create_job d config show sha256_string disk clock ip parts w).1 ≡ false
      → IsUnchanged ip w (create_job d config show sha256_string disk clock ip parts w).0
  unfolding new_job
  create_job-IsUnchanged clock ip parts w h =
      let e = create_job-accept d config show sha256_string disk clock ip parts w in
      rw e (
        accept-IsUnchanged clock.steady parts
          (named_job d config show sha256_string disk clock ip w)
          (saved_world d config show sha256_string disk clock ip parts w) (rw e at h))

  upload-IsUnchanged :
      (clock : Clock) (req : HttpRequest) (w : World F W)
      → is_accepted (upload d config show sha256_string disk clock req w).1 ≡ false
      → IsUnchanged req.client_ip w (upload d config show sha256_string disk clock req w).0
  unfolding upload
  upload-IsUnchanged clock req w h =
      elim (Outcome-cases
        (parse (value_or [] (lookup (codes "Content-Type") req.headers)) req.body)) [
          | inr (x, e) ↦ rw (e, upload) (refl, refl, refl)
          | inl (parts, e) ↦ elim (Bool-cases (is_empty parts)) [
            | inl f ↦ rw (e, f, upload) (refl, refl, refl)
            | inr f ↦
                rw (e, f, upload)
                  (create_job-IsUnchanged clock req.client_ip parts w (rw (e, f, upload) at h))
          ]
        ]

  -- An answer other than 200, or an exception, leaves the jobs, the queue and the active jobs of
  -- the client's address as they were.
  pub handle_submit-refuses :
      (clock : Clock) (req : HttpRequest) (w : World F W)
      → is_accepted (handle_submit d config show sha256_string disk clock req w).1 ≡ false
      → let after = (handle_submit d config show sha256_string disk clock req w).0.server in
        (after.jobs ≡ w.server.jobs)
        × (after.job_queue ≡ w.server.job_queue)
        × ((state_of req.client_ip after.limiter).active_jobs
            ≡ (state_of req.client_ip w.server.limiter).active_jobs)
  unfolding handle_submit
  handle_submit-refuses clock req w h =
      let quota = check_quota d config clock.steady req.client_ip w.server.limiter in
      let same = check_quota-active_jobs d config clock.steady req.client_ip w.server.limiter in
      elim (Bool-cases quota.1.can_submit) [
        | inr e ↦ rw (e, handle_submit) (refl, refl, same)
        | inl e ↦
            let (jobs, queue, active) =
              upload-IsUnchanged clock req
                (record w { server = record w.server { limiter = quota.0 } })
                (rw (e, handle_submit) at h) in
            rw (e, handle_submit) (jobs, queue, active ∙ same)
      ]

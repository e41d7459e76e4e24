-- ===== src/Submit/Handler.antt =====
-- The handler of POST /submit in src/main.cpp. It gets the time on both clocks.
use sandrun.Common.{
  ℕ, not, List, [], ◌++◌, none, some, Bytes, codes, if◌then◌else◌, is_empty, value_or, lookup,
  bytes_key, Outcome, ok, err,
}
use sandrun.Common.Decimal.{to_string}
use sandrun.RateLimiter.{Double, Config, QuotaInfo, check_quota}
use sandrun.Multipart.{MultipartPart, parse}
use sandrun.Http.Request.{HttpRequest}
use sandrun.Http.Response.{HttpResponse, default_response}
use sandrun.Jobs.{Job, Server, generate_job_id, submit_job}
use sandrun.Submit.{Storage}
use sandrun.Submit.Upload.{save_files}
use sandrun.Submit.Manifest.{new_job, configured, job_data}

-- What the program keeps: the server's state, the counter of ids and the disk.
pub record World (F : Type 0) (W : Type 0) : Type 0 where
  pub server : Server F
  pub counter : ℕ
  pub disk : W

pub record Clock : Type 0 where
  pub seconds : ℕ
  pub steady : ℕ

module _ {F : Type 0} {W : Type 0} (d : Double F) (config : Config F) (show : F → Bytes)
    (sha256_string : Bytes → Bytes) (disk : Storage W) where
  abbrev pub answered : ℕ → Bytes → Outcome HttpResponse
  answered status body = ok (record default_response { status_code = status; body = body })

  unfoldable pub quota_body : QuotaInfo F → Bytes
  quota_body quota =
      codes "{\"error\":\""
      ++ (quota.reason
          ++ (codes "\",\"cpu_available\":"
              ++ (show quota.cpu_seconds_available
                  ++ (codes ",\"active_jobs\":" ++ (to_string quota.active_jobs ++ codes "}")))))

  -- The job is hashed, registered and queued.
  unfoldable pub enqueue : ℕ → Job F → World F W → World F W × Outcome HttpResponse
  enqueue now job w =
      let hashed = record job { job_hash = sha256_string (job_data disk w.disk job) } in
      let (server, admitted) = submit_job d config now hashed w.server in
      if admitted
      then (
        record w { server = server },
        answered 200 (codes "{\"job_id\":\"" ++ (job.job_id ++ codes "\",\"status\":\"queued\"}")),
      )
      else (
        record w { server = server; disk = disk.remove_all job.working_dir w.disk },
        answered 429 (codes "{\"error\":\"Rate limit exceeded\"}"),
      )

  -- The handler behind `save_files`.
  unfoldable pub accept :
      ℕ → List MultipartPart → Job F → World F W → World F W × Outcome HttpResponse
  unfolding enqueue
  accept now parts job w =
      let configured_job = configured disk parts w.disk job in
      if is_empty configured_job.entrypoint
      then (
        record w { disk = disk.remove_all job.working_dir w.disk },
        answered 400 (codes "{\"error\":\"No entrypoint specified\"}"),
      )
      else enqueue now configured_job w

  -- The handler behind the multipart parser.
  unfoldable pub create_job :
      Clock → Bytes → List MultipartPart → World F W → World F W × Outcome HttpResponse
  unfolding accept
  create_job clock client_ip parts w =
      let (job_id, counter) = generate_job_id clock.seconds w.counter in
      let job = new_job d.zero job_id client_ip clock.steady in
      let (saved, failed) = save_files disk job.working_dir parts w.disk in
      let w' = record w { counter = counter; disk = saved } in
      elim failed [ some e ↦ (w', err e) | none ↦ accept clock.steady parts job w' ]

  unfoldable pub upload : Clock → HttpRequest → World F W → World F W × Outcome HttpResponse
  unfolding create_job
  upload clock req w =
      elim (parse (value_or [] (lookup (codes "Content-Type") req.headers)) req.body) [
        | err e ↦ (w, err e)
        | ok parts ↦
            if is_empty parts
            then (w, answered 400 (codes "{\"error\":\"No files uploaded\"}"))
            else create_job clock req.client_ip parts w
      ]

  unfoldable pub handle_submit : Clock → HttpRequest → World F W → World F W × Outcome HttpResponse
  unfolding upload quota_body
  handle_submit clock req w =
      let (limiter, quota) = check_quota d config clock.steady req.client_ip w.server.limiter in
      let checked = record w { server = record w.server { limiter = limiter } } in
      if not quota.can_submit
      then (checked, answered 429 (quota_body quota))
      else upload clock req checked

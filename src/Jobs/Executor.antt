-- ===== src/Jobs/Executor.antt =====
-- A round of the executor thread in src/main.cpp. JobExecutor, the environments, the sending of
-- messages, the file system, the worker's key and the printing of doubles are parameters.
use sandrun.Common.{
  ℕ, ◌/◌, ◌*◌, Bool, List, [], ◌∷◌, ◌++◌, Option, none, some, Bytes, codes, ◌==◌, if◌then◌else◌,
  is_empty, Map, lookup, insert, bytes_key, Outcome, ok, ◌>>=◌,
}
use sandrun.Common.Decimal.{ℤ, pos, negsuc, to_string, int_to_string}
use sandrun.RateLimiter.{Double, Config, register_job_end}
use sandrun.WebSocket.Broadcaster.{Broadcaster, broadcast, append_output}
use sandrun.Files.Directory.{FileSystem, FileMetadata, hash_directory}
use sandrun.Jobs.{
  Remover, Job, Server, Status, running, completed, failed, deref, pop_job, cleanup_jobs,
}

-- What `JobExecutor::execute` returns, as far as it is used.
pub record JobResult (F : Type 0) : Type 0 where
  pub stdout_log : Bytes
  pub stderr_log : Bytes
  pub cpu_seconds : F
  pub memory_bytes : ℕ
  pub exit_code : ℤ

-- What the environment manager answers: it has no such template, a directory, or an exception.
pub data Prepared : Type 0 where
  unknown : Prepared
  directory : Bytes → Prepared
  refused : Bytes → Prepared

-- The code that a round calls.
pub record Outside (F : Type 0) : Type 0 where
  pub execute : Bytes → Bytes → Bytes → List Bytes → Bytes → JobResult F
  pub prepare_environment : Bytes → Bytes → Prepared
  pub sends : Bytes → ℕ → Bool
  pub file_system : FileSystem
  pub sha256_file : Bytes → Bytes
  pub worker_identity : Option (Bytes × (Bytes → Bytes))
  pub show : F → Bytes
  pub to_fixed : F → Bytes
  pub remove_all : Remover

abbrev pub exit_status : ℤ → Status
exit_status (pos code) = if code == 0 then completed else failed
exit_status (negsuc code) = failed

unfoldable pub status_text : Status → Bytes
status_text Status.queued = codes "queued"
status_text running = codes "running"
status_text completed = codes "completed"
status_text failed = codes "failed"

module _ {F : Type 0} (o : Outside F) where
  unfoldable pub tell : Bytes → Bytes → Broadcaster → Broadcaster
  tell id message b = (broadcast (o.sends message) id b).0

  -- The environment's part: the path for Python, and what is broadcast.
  unfoldable pub environment_path : Bytes → Job F → Broadcaster → Bytes × Broadcaster
  unfolding tell
  environment_path id job b =
      let named =
        tell id (codes "[ENV] Preparing environment: " ++ (job.environment ++ codes "\n")) b in
      if is_empty job.environment
      then ([], b)
      else (elim (o.prepare_environment job.environment id) [
        | unknown ↦ (
          [],
          tell id
              (codes "[ENV] Warning: Environment '"
                ++ (job.environment ++ codes "' not found, using default\n"))
              b,
        )
        | directory env_dir ↦
            (env_dir ++ codes "/site-packages", tell id (codes "[ENV] Environment ready\n") named)
        | refused what ↦ (
          [],
          tell id (codes "[ENV] Error preparing environment: " ++ (what ++ codes "\n")) named,
        )
      ])

  -- Output that is not empty is broadcast and kept.
  unfoldable pub publish : Bytes → Bytes → Bytes → Broadcaster → Broadcaster
  unfolding tell
  publish id label log b =
      if is_empty log then b else append_output id (label ++ log) (tell id (label ++ log) b)

  unfoldable pub file_hashes : Map Bytes FileMetadata → Bytes
  file_hashes [] = []
  file_hashes ((path, metadata) ∷ files) =
      path ++ (b':' ∷ (metadata.sha256_hash ++ (b'|' ∷ file_hashes files)))

  unfoldable pub sign_data : Job F → Bytes
  unfolding file_hashes
  sign_data job =
      job.job_hash
      ++ (b'|'
          ∷ (int_to_string job.exit_code
              ++ (b'|'
                  ∷ (o.show job.cpu_seconds
                      ++ (b'|'
                          ∷ (to_string job.memory_mb ++ (b'|' ∷ file_hashes job.output_files)))))))

  unfoldable pub sign_job : Job F → Job F
  unfolding sign_data
  sign_job job = elim o.worker_identity [
    | none ↦ job
    | some (id, sign) ↦ record job { worker_id = id; result_signature = sign (sign_data job) }
  ]

  -- The job with its results and the metadata of its files.
  unfoldable pub finished : Job F → JobResult F → Map Bytes FileMetadata → Job F
  unfolding sign_job
  finished job result files = sign_job (record job {
    status = exit_status result.exit_code;
    queue_position = 0;
    stdout_log = result.stdout_log;
    stderr_log = result.stderr_log;
    cpu_seconds = result.cpu_seconds;
    memory_mb = result.memory_bytes / (1024 * 1024);
    exit_code = result.exit_code;
    output_files = files;
  })

  unfoldable pub completion_msg : Job F → Bytes
  unfolding status_text
  completion_msg job =
      codes "[DONE] Job "
      ++ (status_text job.status
          ++ (codes " (exit="
              ++ (int_to_string job.exit_code
                  ++ (codes ", CPU="
                      ++ (o.to_fixed job.cpu_seconds
                          ++ (codes "s, Mem=" ++ (to_string job.memory_mb ++ codes "MB)\n")))))))

  -- The job and the broadcaster after a run that left `files`.
  unfoldable pub report : Bytes → Job F → Broadcaster → Map Bytes FileMetadata → Job F × Broadcaster
  unfolding environment_path publish finished completion_msg tell
  report id job b files =
      let (pythonpath, told) =
        environment_path id job (tell id (codes "[STATUS] Job started\n") b) in
      let result = o.execute job.working_dir job.interpreter job.entrypoint job.args pythonpath in
      let shown =
        publish id (codes "[STDERR]\n") result.stderr_log (publish id [] result.stdout_log told) in
      let after = finished job result files in (after, tell id (completion_msg after) shown)

  unfoldable pub run_job : Bytes → Job F → Broadcaster → Outcome (Job F × Broadcaster)
  unfolding report
  run_job id job b =
      hash_directory o.file_system o.sha256_file job.working_dir job.outputs >>= λ files.
      ok (report id job b files)

  -- The region under the mutex in which a job runs; `jobs[id]` makes a null pointer of an id that
  -- is not in the map, and `->` of it is undefined.
  unfoldable pub execute_job : Bytes → Server F → Outcome (Server F × Job F)
  unfolding run_job
  execute_job id s = deref (lookup id s.jobs) >>= λ job. run_job id job s.broadcaster >>= λ done.
      ok (record s { jobs = insert id (some done.0) s.jobs; broadcaster = done.1 }, done.0)

  -- One round of the thread's loop, at the time `now`, without the clean-up of environments that
  -- each tenth round ends with.
  unfoldable pub executor_round : Double F → Config F → ℕ → Server F → Outcome (Server F)
  unfolding execute_job
  executor_round d config now s = pop_job s >>= λ popped.
      (elim popped.1 [
        | none ↦ ok popped.0
        | some id ↦ execute_job id popped.0 >>= λ done. ok (record done.0 {
          limiter =
              register_job_end d config now done.1.client_ip id done.1.cpu_seconds done.0.limiter;
        })
      ])
      >>= λ after.
          cleanup_jobs o.remove_all now after.jobs >>= λ jobs. ok (record after { jobs = jobs })

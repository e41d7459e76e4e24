-- ===== src/Jobs.antt =====
-- The jobs and their queue in src/main.cpp, which the handlers of the HTTP server and the executor
-- thread share under jobs_mutex. Each region under the mutex is one operation. Time is the steady
-- clock in nanoseconds. A null unique_ptr in the map is `none`.
pub mod Executor
pub mod Pointers
pub mod Download
pub mod Ids
pub mod Rounds
pub mod Tests
use sandrun.Common.{
  ℕ, suc, ◌+◌, ◌-◌, ◌/◌, Bool, true, false, ◌&&◌, not, List, [], ◌∷◌, ◌++◌, Option, none, some,
  Bytes, codes, ltb, ◌==◌, if◌then◌else◌, length, is_empty, Map, lookup, insert, erase, bytes_key,
  Outcome, ok, err, undefined_behavior, ◌>>=◌,
}
use sandrun.Common.Decimal.{ℤ, pos, negsuc, to_string}
use sandrun.RateLimiter.{Double, Config, States, register_job_start, register_job_end, minute}
use sandrun.WebSocket.Broadcaster.{Broadcaster}
use sandrun.Files.Directory.{FileMetadata}

-- The texts that the field `status` holds.
pub data Status : Type 0 where
  queued running completed failed : Status

pub record Job (F : Type 0) : Type 0 where
  pub job_id : Bytes
  pub client_ip : Bytes
  pub entrypoint : Bytes
  pub interpreter : Bytes
  pub args : List Bytes
  pub outputs : List Bytes
  pub environment : Bytes
  pub status : Status
  pub stdout_log : Bytes
  pub stderr_log : Bytes
  pub working_dir : Bytes
  pub queue_position : ℕ
  pub cpu_seconds : F
  pub memory_mb : ℕ
  pub created_at : ℕ
  pub job_hash : Bytes
  pub output_files : Map Bytes FileMetadata
  pub wall_time_ms : ℕ
  pub exit_code : ℤ
  pub worker_id : Bytes
  pub result_signature : Bytes

-- The globals of the program, with the rate limiter of `main`.
pub record Server (F : Type 0) : Type 0 where
  pub jobs : Map Bytes (Option (Job F))
  pub job_queue : List Bytes
  pub limiter : States F
  pub broadcaster : Broadcaster

-- `generate_job_id` at the time `now` in seconds, when `counter` ids were made before.
unfoldable pub generate_job_id : ℕ → ℕ → Bytes × ℕ
generate_job_id now counter =
    (codes "job_" ++ (to_string now ++ (b'_' ∷ to_string (suc counter))), suc counter)

-- `jobs.find(id)` with a pointer that is not null, and then `->`.
unfoldable pub deref : {F : Type 0} → Option (Option (Job F)) → Outcome (Job F)
deref none = err undefined_behavior
deref (some none) = err undefined_behavior
deref (some (some job)) = ok job

-- The loop that numbers the jobs that still wait.
unfoldable pub update_positions :
    {F : Type 0}
    → ℕ
    → List Bytes
    → Map Bytes (Option (Job F))
    → Outcome (Map Bytes (Option (Job F)))
unfolding deref
update_positions position [] jobs = ok jobs
update_positions position (id ∷ queue) jobs = elim (lookup id jobs) [
  | none ↦ update_positions position queue jobs
  | some pointer ↦ deref (some pointer) >>= λ job.
      update_positions (suc position) queue
        (insert id (some (record job { queue_position = position })) jobs)
]

-- The executor takes the next id from the queue; none where the queue is empty.
unfoldable pub pop_job : {F : Type 0} → Server F → Outcome (Server F × Option Bytes)
unfolding update_positions
pop_job s = elim s.job_queue [
  | [] ↦ ok (s, none)
  | id ∷ queue ↦ update_positions 1 queue s.jobs >>= λ jobs.
      ok (record s { jobs = jobs; job_queue = queue }, some id)
]

-- The end of the handler of POST /submit: the limiter's guard, then the queue.
unfoldable pub submit_job :
    {F : Type 0} → Double F → Config F → ℕ → Job F → Server F → Server F × Bool
submit_job d config now job s =
    let (limiter, admitted) = register_job_start d config now job.client_ip job.job_id s.limiter in
    let queue = s.job_queue ++ job.job_id ∷ [] in
    if admitted
    then (
      record s {
        jobs = insert job.job_id (some (record job { queue_position = length queue })) s.jobs;
        job_queue = queue;
        limiter = limiter;
      },
      true,
    )
    else (record s { limiter = limiter }, false)

-- GET /download/{job_id}, as far as it changes the state: the job leaves the map. False is the
-- answer that the job is not found.
unfoldable pub download_all : {F : Type 0} → Bytes → Server F → Outcome (Server F × Bool)
unfolding deref
download_all id s = elim (lookup id s.jobs) [
  | none ↦ ok (s, false)
  | some pointer ↦ deref (some pointer) >>= λ job. ok (record s { jobs = erase id s.jobs }, true)
]

abbrev pub is_running : Status → Bool
is_running running = true
is_running status = false

-- The age in whole minutes of a job that does not run.
unfoldable pub is_old : {F : Type 0} → ℕ → Job F → Bool
is_old now job = ltb 5 ((now - job.created_at) / minute) && not (is_running job.status)

-- What `fs::remove_all` answers for a path, an exception too.
abbrev pub Remover : Type 0
Remover = Bytes → Outcome (Unit {0})

unfoldable pub removal : {F : Type 0} → Remover → ℕ → Job F → Outcome (Unit {0})
removal remove_all now job = if is_old now job then remove_all job.working_dir else ok tt

-- The clean-up of old jobs at the end of each round.
unfoldable pub cleanup_jobs :
    {F : Type 0} → Remover → ℕ → Map Bytes (Option (Job F)) → Outcome (Map Bytes (Option (Job F)))
unfolding deref is_old removal
cleanup_jobs remove_all now [] = ok []
cleanup_jobs remove_all now ((id, pointer) ∷ jobs) = deref (some pointer) >>= λ job.
    removal remove_all now job >>= λ removed. cleanup_jobs remove_all now jobs >>= λ rest.
    if is_old now job then ok rest else ok ((id, pointer) ∷ rest)

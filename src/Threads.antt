-- ===== src/Threads.antt =====
-- The threads of src/main.cpp between their critical sections. A handler of POST /submit registers
-- its job with the limiter, queues it later, and then prints a line for which it reads the map without
-- the lock; the executor thread pops an id, runs the job, gives its slot back and sweeps old jobs,
-- each under a lock of its own. An event is one such section, so a list of events is an interleaving.
-- What a handler does between them touches its own files only, so the id of a job is made in the step
-- that registers it, or in the step that gives it up before; `++counter` is taken to be atomic.
pub mod Known
pub mod Consistent
pub mod Steps
pub mod Loop
pub mod Slots
pub mod Bound
pub mod Stages
pub mod Served
pub mod Gentle
pub mod Rounds
pub mod Calls
pub mod Tests
use sandrun.Common.{
  ℕ, Bool, true, false, ◌&&◌, ◌||◌, List, [], ◌∷◌, ◌++◌, ◌≡◌, Option, none, some, Bytes, bytes_eq,
  if◌then◌else◌, length, not, select, Map, lookup, insert, erase, contains, bytes_key, Outcome, ok,
  ◌>>=◌,
}
use sandrun.RateLimiter.{Double, Config, check_quota, register_job_start, register_job_end}
use sandrun.WebSocket.Broadcaster.{no_jobs}
use sandrun.Jobs.{Job, Server, deref, generate_job_id, pop_job, download_all, cleanup_jobs}
use sandrun.Jobs.Executor.{Outside, execute_job}

-- Where the executor thread stands in its loop: before the pop, with an id, with the client and the
-- CPU time of a job that has run, or before the clean-up.
pub data Phase (F : Type 0) : Type 0 where
  resting : Phase F
  popped : Bytes → Phase F
  ran : Bytes → Bytes → F → Phase F
  sweeping : Phase F

-- The server, the counter of ids, the handlers that have registered a job and not yet queued it, those
-- that have queued one and not yet printed its line, and the executor. `owners` is no variable of the program: it records the address of each admitted id.
pub record System (F : Type 0) : Type 0 where
  pub server : Server F
  pub counter : ℕ
  pub registered : Map Bytes (Job F)
  pub logging : List Bytes
  pub executor : Phase F
  pub owners : Map Bytes Bytes

pub data Event (F : Type 0) : Type 0 where
  ask : ℕ → Bytes → Event F
  register : ℕ → ℕ → Job F → Event F
  give_up : ℕ → Event F
  push : Bytes → Event F
  log_line : Bytes → Event F
  download : Bytes → Event F
  pop : Event F
  execute : Event F
  finish : ℕ → Event F
  sweep : ℕ → Event F

-- The program when its threads start.
abbrev pub start : {F : Type 0} → System F
start = record {
  server = record { jobs = []; job_queue = []; limiter = []; broadcaster = no_jobs };
  counter = 0;
  registered = [];
  logging = [];
  executor = resting;
  owners = [];
}

-- The section of a handler under jobs_mutex.
unfoldable pub push_job : {F : Type 0} → Bytes → Job F → Server F → Server F
push_job id job s =
    let queue = s.job_queue ++ id ∷ [] in
    record s {
      job_queue = queue;
      jobs = insert id (some (record job { queue_position = length queue })) s.jobs;
    }

-- The line that a handler prints takes `jobs[job_id]->entrypoint` without the lock: where the job has
-- left the map, a null pointer is inserted and followed. The read is taken to be atomic.
unfoldable pub log_job : {F : Type 0} → Bytes → System F → Outcome (System F)
unfolding deref
log_job id s =
    let left = select (λ i. not (bytes_eq i id)) s.logging in
    if contains id s.logging
    then (deref (lookup id s.server.jobs) >>= λ job. ok (record s { logging = left }))
    else ok s

-- The phase behind the pop. An id is never empty.
abbrev pub phase_of : {F : Type 0} → Option Bytes → Phase F
phase_of none = sweeping
phase_of (some id) = popped id

module _ {F : Type 0} (o : Outside F) (d : Double F) (config : Config F) where
  unfoldable pub register_job : ℕ → ℕ → Job F → System F → System F
  register_job seconds now job s =
      let (id, counter) = generate_job_id seconds s.counter in
      let (limiter, admitted) = register_job_start d config now job.client_ip id s.server.limiter in
      let counted = record s {
        counter = counter;
        server = record s.server { limiter = limiter };
      } in
      if admitted
      then record counted {
        registered = insert id (record job { job_id = id }) s.registered;
        owners = insert id job.client_ip s.owners;
      }
      else counted

  -- An event of a thread that stands elsewhere changes nothing.
  unfoldable pub executor_step : Event F → Phase F → System F → Outcome (System F)
  executor_step pop resting s =
      pop_job s.server >>= λ front. ok (record s { server = front.0; executor = phase_of front.1 })
  executor_step execute (popped id) s = execute_job o id s.server >>= λ done.
      ok (record s { server = done.0; executor = ran id done.1.client_ip done.1.cpu_seconds })
  executor_step (finish now) (ran id client_ip cpu_seconds) s = ok (record s {
    server = record s.server {
      limiter = register_job_end d config now client_ip id cpu_seconds s.server.limiter;
    };
    executor = sweeping;
  })
  executor_step (sweep now) sweeping s = cleanup_jobs o.remove_all now s.server.jobs >>= λ jobs.
      ok (record s { server = record s.server { jobs = jobs }; executor = resting })
  executor_step e phase s = ok s

  unfoldable pub step : Event F → System F → Outcome (System F)
  unfolding executor_step register_job push_job log_job
  step (ask now ip) s = ok (record s {
    server = record s.server { limiter = (check_quota d config now ip s.server.limiter).0 };
  })
  step (register seconds now job) s = ok (register_job seconds now job s)
  step (give_up seconds) s = ok (record s { counter = (generate_job_id seconds s.counter).1 })
  step (push id) s = elim (lookup id s.registered) [
    | none ↦ ok s
    | some job ↦ ok (record s {
      server = push_job id job s.server;
      registered = erase id s.registered;
      logging = id ∷ s.logging;
    })
  ]
  step (log_line id) s = log_job id s
  step (download id) s = download_all id s.server >>= λ done. ok (record s { server = done.0 })
  step e s = executor_step e s.executor s

  unfoldable pub run : List (Event F) → System F → Outcome (System F)
  unfolding step
  run [] s = ok s
  run (e ∷ events) s = step e s >>= λ t. run events t

  -- The states that events lead to which are allowed where they happen.
  pub data Reach (Allowed : Event F → System F → Type 0) : System F → Type 0 where
    here : Reach Allowed start
    next :
        {s t : System F}
        → Reach Allowed s
        → (e : Event F) → Allowed e s
        → step e s ≡ ok t
        → Reach Allowed t

-- Every event may happen.
abbrev pub Anything : {F : Type 0} → Event F → System F → Type 0
Anything e s = Unit {0}

abbrev pub is_some : {A : Type 0} → Option A → Bool
is_some none = false
is_some (some a) = true

module _ {F : Type 0} where
  abbrev pub at_executor : Bytes → Phase F → Bool
  at_executor id resting = false
  at_executor id (popped j) = bytes_eq j id
  at_executor id (ran j ip cpu) = bytes_eq j id
  at_executor id sweeping = false

  -- A job on its way: registered, waiting, or with the executor.
  abbrev pub in_flight : Bytes → System F → Bool
  in_flight id s =
      is_some (lookup id s.registered)
      || (contains id s.server.job_queue || at_executor id s.executor)

abbrev pub owns : Bytes → Option Bytes → Bool
owns ip none = false
owns ip (some owner) = bytes_eq owner ip

-- ===== src/Threads/Calls/Submits.antt =====
-- The handler of POST /submit in src/main.cpp as a run of its critical sections.
use sandrun.Common.{
  select, not, bytes_eq, bytes_eq_iff, contains, length, ◌++◌, ℕ, true, false, List, [], ◌∷◌, ◌≡◌,
  refl, sym, ap, ◌∙◌, arith, none, some, Bytes, codes, is_empty, value_or, lookup, insert, erase,
  bytes_key, lookup-erase, lookup-insert, lookup-insert_self, Outcome, ok, ◌>>=◌, inl, inr,
  Bool-cases, Outcome-cases,
}
use sandrun.RateLimiter.{Double, Config, check_quota, register_job_start}
use sandrun.Multipart.{MultipartPart, parse}
use sandrun.Http.Request.{HttpRequest}
use sandrun.Jobs.{deref, Job, generate_job_id, submit_job}
use sandrun.Jobs.Executor.{Outside}
use sandrun.Submit.{Storage}
use sandrun.Submit.Manifest.{new_job, configured, job_data}
use sandrun.Submit.Handler.{World, Clock, enqueue, accept, create_job, upload, handle_submit}
use sandrun.Submit.Configured.{configured-IsSame, named_job, saved_world, create_job-accept}
use sandrun.Threads.{
  System, Event, ask, register, give_up, push, log_line, log_job, push_job, register_job, step, run,
}

module _ {F : Type 0} (o : Outside F) (d : Double F) (config : Config F) where
  -- What the handler's two sections leave.
  queued : ℕ → ℕ → Job F → System F → System F
  queued seconds now job s = record s {
    server = push_job job.job_id job (record s.server {
      limiter = (register_job_start d config now job.client_ip job.job_id s.server.limiter).0;
    });
    counter = (generate_job_id seconds s.counter).1;
    registered = erase job.job_id (insert job.job_id job s.registered);
    logging = select (λ i. not (bytes_eq i job.job_id)) (job.job_id ∷ s.logging);
    owners = insert job.job_id job.client_ip s.owners;
  }

  step-push :
      (id : Bytes) (job : Job F) (s : System F)
      → lookup id s.registered ≡ some job
      → step o d config (push id) s
        ≡ ok (record s {
          server = push_job id job s.server;
          registered = erase id s.registered;
          logging = id ∷ s.logging;
        })
  unfolding step
  step-push id job s found = rw (found, step) refl

  step-log_line :
      (id : Bytes) (job : Job F) (s : System F)
      → contains id s.logging ≡ true
      → lookup id s.server.jobs ≡ some (some job)
      → step o d config (log_line id) s
        ≡ ok (record s { logging = select (λ i. not (bytes_eq i id)) s.logging })
  unfolding step log_job deref
  step-log_line id job s pending found = rw (pending, found, log_job) refl

  run-queued :
      (seconds now : ℕ) (job : Job F) (s : System F)
      → (generate_job_id seconds s.counter).0 ≡ job.job_id
      → (register_job_start d config now job.client_ip job.job_id s.server.limiter).1 ≡ true
      → run o d config (register seconds now job ∷ push job.job_id ∷ log_line job.job_id ∷ []) s
        ≡ ok (queued seconds now job s)
  unfolding run step register_job queued
  run-queued seconds now job s same admitted =
      let started = register_job_start d config now job.client_ip job.job_id s.server.limiter in
      let held = record s {
        server = record s.server { limiter = started.0 };
        counter = (generate_job_id seconds s.counter).1;
        registered = insert job.job_id job s.registered;
        owners = insert job.job_id job.client_ip s.owners;
      } in
      let id = job.job_id in
      let kept = record job { queue_position = length (s.server.job_queue ++ id ∷ []) } in
      let waiting = record held {
        server = push_job id job held.server;
        registered = erase id held.registered;
        logging = id ∷ held.logging;
      } in
      rw (same, admitted, register_job)
        (ap (λ (m : Outcome (System F)). m >>= λ t. step o d config (log_line id) t >>= λ u. ok u)
            (step-push id job held (lookup-insert_self id job s.registered))
          ∙ ap (λ (m : Outcome (System F)). m >>= λ u. ok u)
              (step-log_line id kept waiting
                (unfold contains in rw ((bytes_eq_iff id id).1 refl) refl)
                (unfold push_job in lookup-insert_self id (some kept) s.server.jobs)))

  run-refused :
      (seconds now : ℕ) (job : Job F) (s : System F)
      → (generate_job_id seconds s.counter).0 ≡ job.job_id
      → (register_job_start d config now job.client_ip job.job_id s.server.limiter).1 ≡ false
      → run o d config (register seconds now job ∷ []) s
        ≡ ok (record s {
          server = record s.server {
            limiter = (register_job_start d config now job.client_ip job.job_id s.server.limiter).0;
          };
          counter = (generate_job_id seconds s.counter).1;
        })
  unfolding run step register_job
  run-refused seconds now job s same refused = rw (same, refused, register_job) refl

abbrev pub world_of : {F : Type 0} {W : Type 0} → System F → W → World F W
world_of s w = record { server = s.server; counter = s.counter; disk = w }

module _ {F : Type 0} {W : Type 0} (o : Outside F) (d : Double F) (config : Config F) where
  -- Steps of the threads lead from a state to the server and the counter of a world, and leave the
  -- executor and the handlers' jobs as they were.
  abbrev pub Leads : System F → World F W → Type 0
  Leads s w =
      (events : List (Event F)) × (t : System F) × (run o d config events s ≡ ok t)
      × (t.server ≡ w.server)
      × (t.counter ≡ w.counter)
      × (t.executor ≡ s.executor)
      × ((id : Bytes) → lookup id s.registered ≡ none → lookup id t.registered ≡ none)

module _ {F : Type 0} {W : Type 0} (o : Outside F) (d : Double F) (config : Config F)
    (show : F → Bytes) (sha256_string : Bytes → Bytes) (disk : Storage W) where
  -- The world behind the making of an id.
  abbrev made : ℕ → W → System F → World F W
  made seconds w s = record {
    server = s.server;
    counter = (generate_job_id seconds s.counter).1;
    disk = w;
  }

  enqueue-Leads :
      (seconds now : ℕ) (job : Job F) (s : System F) (w : W)
      → (generate_job_id seconds s.counter).0 ≡ job.job_id
      → Leads {W = W} o d config s
          (enqueue d config show sha256_string disk now job (made seconds w s)).0
  unfolding enqueue submit_job queued push_job
  enqueue-Leads seconds now job s w same =
      let hashed = record job { job_hash = sha256_string (job_data disk w job) } in
      let started = register_job_start d config now job.client_ip job.job_id s.server.limiter in
      elim (Bool-cases started.1) [
        | inl e ↦
            rw (e, enqueue, submit_job)
              (
                register seconds now hashed ∷ push job.job_id ∷ log_line job.job_id ∷ [],
                queued o d config seconds now hashed s,
                run-queued o d config seconds now hashed s same e,
                refl,
                refl,
                refl,
                λ id none_held. ground (
                  arith,
                  lookup-erase job.job_id id (insert job.job_id hashed s.registered),
                  lookup-insert job.job_id id hashed s.registered,
                ),
              )
        | inr e ↦
            rw (e, enqueue, submit_job)
              (
                register seconds now hashed ∷ [],
                record s {
                  server = record s.server { limiter = started.0 };
                  counter = (generate_job_id seconds s.counter).1;
                },
                run-refused o d config seconds now hashed s same e,
                refl,
                refl,
                refl,
                λ id none_held. none_held,
              )
      ]

  accept-Leads :
      (seconds now : ℕ) (parts : List MultipartPart) (job : Job F) (s : System F) (w : W)
      → (generate_job_id seconds s.counter).0 ≡ job.job_id
      → Leads {W = W} o d config s
          (accept d config show sha256_string disk now parts job (made seconds w s)).0
  unfolding accept run step
  accept-Leads seconds now parts job s w same =
      let named = configured disk parts w job in
      elim (Bool-cases (is_empty named.entrypoint)) [
        | inl e ↦
            rw (e, accept)
              (
                give_up seconds ∷ [],
                record s { counter = (generate_job_id seconds s.counter).1 },
                refl,
                refl,
                refl,
                refl,
                λ id none_held. none_held,
              )
        | inr e ↦
            let (same_id, same_ip, same_dir) = configured-IsSame disk w parts job in
            let kept = enqueue-Leads seconds now named s w (same ∙ sym same_id) in
            rw (e, accept) kept
      ]

  create_job-Leads :
      (clock : Clock) (ip : Bytes) (parts : List MultipartPart) (s : System F) (w : W)
      → Leads {W = W} o d config s
          (create_job d config show sha256_string disk clock ip parts (world_of s w)).0
  unfolding new_job
  create_job-Leads clock ip parts s w =
      let v = world_of s w in
      rw (create_job-accept d config show sha256_string disk clock ip parts v) (
        accept-Leads clock.seconds clock.steady parts
          (named_job d config show sha256_string disk clock ip v) s
          (saved_world d config show sha256_string disk clock ip parts v).disk refl)

  upload-Leads :
      (clock : Clock) (req : HttpRequest) (s : System F) (w : W)
      → Leads {W = W} o d config s
          (upload d config show sha256_string disk clock req (world_of s w)).0
  unfolding upload run
  upload-Leads clock req s w =
      let parsed = parse (value_or [] (lookup (codes "Content-Type") req.headers)) req.body in
      elim (Outcome-cases parsed) [
        | inr (x, e) ↦ rw (e, upload) ([], s, refl, refl, refl, refl, λ id n. n)
        | inl (parts, e) ↦ elim (Bool-cases (is_empty parts)) [
          | inl f ↦ rw (e, f, upload) ([], s, refl, refl, refl, refl, λ id n. n)
          | inr f ↦
              let created = create_job-Leads clock req.client_ip parts s w in
              rw (e, f, upload) created
        ]
      ]

  -- Whatever its branch, a call of the handler of POST /submit at the server and the counter of any
  -- state of the threads is a run of their sections from that state, which leaves the executor where
  -- it stood and no further job at a handler.
  pub handle_submit-Leads :
      (clock : Clock) (req : HttpRequest) (s : System F) (w : W)
      → Leads {W = W} o d config s
          (handle_submit d config show sha256_string disk clock req (world_of s w)).0
  unfolding handle_submit run step
  handle_submit-Leads clock req s w =
      let (limiter, quota) = check_quota d config clock.steady req.client_ip s.server.limiter in
      let asked = record s { server = record s.server { limiter = limiter } } in
      elim (Bool-cases quota.can_submit) [
        | inr e ↦
            rw (e, handle_submit)
              (ask clock.steady req.client_ip ∷ [], asked, refl, refl, refl, refl, λ id n. n)
        | inl e ↦
            let (events, t, runs, server, counter, executor, held) =
              upload-Leads clock req asked w in
            rw (e, handle_submit)
              (ask clock.steady req.client_ip ∷ events, t, runs, server, counter, executor, held)
      ]

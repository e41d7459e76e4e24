-- ===== src/Jobs/Rounds.antt =====
-- How a round of the executor in src/main.cpp ends: it runs the job at the front of the queue, or it
-- follows a null pointer.
use sandrun.Common.{
  ℕ, ◌<◌, true, false, List, [], ◌∷◌, ◌≡◌, refl, ap, arith, none, some, Bytes, Map, lookup, insert,
  erase, bytes_key, Option-cases, inl, inr, ok, err, undefined_behavior, ◌>>=◌, length, contains,
  lookup-insert_self, lookup-erase_self,
}
use sandrun.RateLimiter.{Double, Config, state_of, register_job_start, register_job_end}
use sandrun.RateLimiter.Slots.{register_job_end-start}
use sandrun.Files.Directory.{FileMetadata, hash_directory}
use sandrun.WebSocket.Broadcaster.{Broadcaster}
use sandrun.Jobs.{Job, Server, deref, pop_job, submit_job, download_all}
use sandrun.Jobs.Executor.{
  Outside, sign_job, finished, report, run_job, execute_job, executor_round,
}
use sandrun.Jobs.Pointers.{
  all_present, ip_of, ip_behind, lookup-cases, insert-all_present, erase-all_present,
  update_positions_lem, cleanup_jobs_lem,
}

module _ {F : Type 0} (o : Outside F) where
  -- Every working directory can be removed.
  abbrev pub IsRemovable : Type 0
  IsRemovable = (dir : Bytes) → o.remove_all dir ≡ ok tt

  -- Every working directory can be listed.
  abbrev pub IsListable : Type 0
  IsListable =
      (dir : Bytes) (patterns : List Bytes)
      → (files : Map Bytes FileMetadata) × (hash_directory o.file_system o.sha256_file dir patterns
          ≡ ok files)

  pub sign_job-client_ip : (job : Job F) → (sign_job o job).client_ip ≡ job.client_ip
  unfolding sign_job
  sign_job-client_ip job = elim (Option-cases o.worker_identity) [
    | inl e ↦ rw e refl
    | inr (identity, e) ↦ rw e refl
  ]

  run_job_lem :
      IsListable
      → (id : Bytes) (job : Job F) (b : Broadcaster)
      → (after : Job F × Broadcaster) × (run_job o id job b ≡ ok after)
        × (after.0.client_ip ≡ job.client_ip)
  unfolding run_job report finished
  run_job_lem listable id job b =
      let (files, e) = listable job.working_dir job.outputs in
      (report o id job b files, rw e refl, sign_job-client_ip _)

  pub execute_job_lem :
      IsListable
      → (id : Bytes) (s : Server F) (job : Job F) → all_present s.jobs ≡ true
      → lookup id s.jobs ≡ some (some job)
      → (after : Server F × Job F) × (execute_job o id s ≡ ok after)
        × (after.1.client_ip ≡ job.client_ip)
        × (after.0.limiter ≡ s.limiter)
        × (after.0.job_queue ≡ s.job_queue)
        × (all_present after.0.jobs ≡ true)
  unfolding execute_job deref
  execute_job_lem listable id s job present e =
      let ((ran, b), runs, same) = run_job_lem listable id job s.broadcaster in
      (
        (record s { jobs = insert id (some ran) s.jobs; broadcaster = b }, ran),
        rw (e, runs) refl,
        same,
        refl,
        refl,
        insert-all_present id ran s.jobs present,
      )

  module _ (d : Double F) (config : Config F) (now : ℕ) (s : Server F) (id ip : Bytes)
      (queue : List Bytes) where
    -- A round runs the job at the front of the queue, if the id is still in the map: it then
    -- returns, the other ids stay in the queue, and the client's slot is given back. No pointer is
    -- null before, and every working directory can be listed.
    pub executor_round-pops :
        IsListable
        → IsRemovable
        → all_present s.jobs ≡ true
        → s.job_queue ≡ id ∷ queue
        → ip_of id s.jobs ≡ some ip
        → (after : Server F) × (cpu : F) × (executor_round o d config now s ≡ ok after)
          × (after.job_queue ≡ queue)
          × (after.limiter ≡ register_job_end d config now ip id cpu s.limiter)
    unfolding executor_round pop_job
    executor_round-pops listable removable present front here =
        let (jobs, numbered, filled, keeps) = update_positions_lem 1 queue s.jobs present in
        elim (lookup-cases id jobs filled) [
          | inl e ↦
              let lost : ip_of id jobs ≡ none = ap ip_behind e in absurd (cc (lost, keeps id, here))
          | inr (job, e) ↦
              let popped = record s { jobs = jobs; job_queue = queue } in
              let (done, ran, same, limiter, rest, present') =
                execute_job_lem listable id popped job filled e in
              let (kept, cleaned) =
                cleanup_jobs_lem o.remove_all removable now done.0.jobs present' in
              let found : ip_of id jobs ≡ some job.client_ip = ap ip_behind e in
              let client : done.1.client_ip ≡ ip = cc (found, keeps id, here, same) in
              (
                record done.0 {
                  jobs = kept;
                  limiter =
                      register_job_end d config now done.1.client_ip id done.1.cpu_seconds
                        done.0.limiter;
                },
                done.1.cpu_seconds,
                rw (front, numbered, ran, cleaned) refl,
                rest,
                rw (client, limiter) refl,
              )
        ]

    -- A round that finds no job behind the id at the front of the queue follows a null pointer.
    executor_round-missing :
        all_present s.jobs ≡ true
        → s.job_queue ≡ id ∷ queue
        → lookup id s.jobs ≡ none
        → executor_round o d config now s ≡ err undefined_behavior
    unfolding executor_round pop_job
    executor_round-missing present front gone =
        let (jobs, numbered, filled, keeps) = update_positions_lem 1 queue s.jobs present in
        elim (lookup-cases id jobs filled) [
          | inl e ↦ rw (front, numbered) (unfold execute_job deref in rw e refl)
          | inr (job, e) ↦
              let found : ip_of id jobs ≡ some job.client_ip = ap ip_behind e in
              let lost : ip_of id s.jobs ≡ none = ap ip_behind gone in
              absurd (cc (found, lost, keeps id))
        ]

  -- What submit_job leaves of a server with an empty queue, where the client has room.
  submitted : Double F → Config F → ℕ → Job F → Server F → Server F
  submitted d config now job s = record s {
    jobs = insert job.job_id (some (record job { queue_position = 1 })) s.jobs;
    job_queue = job.job_id ∷ [];
    limiter = (register_job_start d config now job.client_ip job.job_id s.limiter).0;
  }

  module _ (d : Double F) (config : Config F) (now later : ℕ) (job : Job F) (s : Server F) where
    abbrev HasRoom : Type 0
    HasRoom = length (state_of job.client_ip s.limiter).active_jobs < config.max_concurrent_jobs

    submit_job-submitted :
        s.job_queue ≡ []
        → HasRoom
        → submit_job d config now job s ≡ (submitted d config now job s, true)
    unfolding submit_job register_job_start submitted
    submit_job-submitted empty room = ground (arith, empty)

    -- A job that is submitted while the queue is empty and its client has room runs in the next
    -- round, and the client has the active jobs that it had before. No pointer is null before, every
    -- working directory can be listed, and the job's id is new to the limiter.
    pub executor_round-submit_job :
        IsListable
        → IsRemovable
        → all_present s.jobs ≡ true
        → s.job_queue ≡ []
        → HasRoom
        → contains job.job_id (state_of job.client_ip s.limiter).active_jobs ≡ false
        → (after : Server F) × (executor_round o d config later (submit_job d config now job s).0
            ≡ ok after)
          × (after.job_queue ≡ [])
          × ((state_of job.client_ip after.limiter).active_jobs
              ≡ (state_of job.client_ip s.limiter).active_jobs)
    executor_round-submit_job listable removable present empty room new =
        let start = submitted d config now job s in
        let behind =
          insert-all_present job.job_id (record job { queue_position = 1 }) s.jobs present in
        let here : ip_of job.job_id start.jobs ≡ some job.client_ip =
          unfold submitted in ap ip_behind (lookup-insert_self job.job_id _ s.jobs) in
        let (after, cpu, runs, rest, limiter) =
          executor_round-pops d config later start job.job_id job.client_ip [] listable removable
            (unfold submitted in behind) (unfold submitted in refl) here in
        (
          after,
          rw (submit_job-submitted empty room) runs,
          rest,
          rw limiter (
              unfold submitted in
              register_job_end-start d config now later job.client_ip job.job_id cpu s.limiter room
                new),
        )

    download_all-submitted :
        download_all job.job_id (submitted d config now job s)
        ≡ ok (
          record (submitted d config now job s) {
            jobs = erase job.job_id (submitted d config now job s).jobs;
          },
          true,
        )
    unfolding download_all submitted deref
    download_all-submitted =
        rw
          (
            lookup-insert_self job.job_id (some (record job { queue_position = 1 })) s.jobs,
            download_all,
          )
          refl

    -- A job that is submitted while the queue is empty and its client has room, and is downloaded
    -- before the next round, makes that round follow a null pointer. No pointer is null before.
    pub executor_round-download_all :
        all_present s.jobs ≡ true
        → s.job_queue ≡ []
        → HasRoom
        → (download_all job.job_id (submit_job d config now job s).0 >>= λ answer.
            executor_round o d config later answer.0)
          ≡ err undefined_behavior
    executor_round-download_all present empty room =
        let start = submitted d config now job s in
        let kept =
          insert-all_present job.job_id (record job { queue_position = 1 }) s.jobs present in
        let gone = record start { jobs = erase job.job_id start.jobs } in
        let present' = erase-all_present job.job_id start.jobs (unfold submitted in kept) in
        rw (submit_job-submitted empty room, download_all-submitted)
          (executor_round-missing d config later gone job.job_id job.client_ip [] present'
            (unfold submitted in refl) (lookup-erase_self job.job_id start.jobs))

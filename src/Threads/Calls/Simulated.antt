-- ===== src/Threads/Calls/Simulated.antt =====
-- Whole calls of src/main.cpp, one behind the other, as runs of the threads' sections.
use sandrun.Common.{
  ℕ, List, [], ◌∷◌, ◌≡◌, refl, sym, ap, ◌∙◌, ◌⊎◌, none, some, Option-cases, is_empty, Bytes, lookup,
  bytes_key, Outcome, ok, err, undefined_behavior, diverges, ◌>>=◌, inl, inr, Bool-cases,
  Outcome-cases,
}
use sandrun.RateLimiter.{Double, Config}
use sandrun.Files.Directory.{FileSystem}
use sandrun.Http.Response.{HttpResponse}
use sandrun.Jobs.{Server, download_all, deref}
use sandrun.Jobs.Executor.{Outside, executor_round}
use sandrun.Submit.{Storage}
use sandrun.Submit.Handler.{World, handle_submit}
use sandrun.Answers.Listing.{Removals, archive, handle_download, download_job, split_download}
use sandrun.Threads.{
  System, Event, resting, download, pop, execute, finish, sweep, step, run, Reach, here, next,
  Anything,
}
use sandrun.Threads.Known.{>>=-ok, ok-injective}
use sandrun.Threads.Rounds.{run-executor_round}
use sandrun.Threads.Calls.{
  Call, submits, downloads, rounds, fresh_world, downloaded, call, run_calls,
}
use sandrun.Threads.Calls.Submits.{handle_submit-Leads}

module _ {F : Type 0} (o : Outside F) (d : Double F) (config : Config F) where
  run-Reach :
      (events : List (Event F)) {s t : System F}
      → Reach o d config Anything s
      → run o d config events s ≡ ok t
      → Reach o d config Anything t
  unfolding run
  run-Reach [] r e = rw (← ok-injective e) r
  run-Reach (event ∷ events) {s} r e =
      let (between, first, rest) = >>=-ok (step o d config event s) _ e in
      run-Reach events (next r event tt first) rest

  -- A world between two calls: the threads reach its server and its counter, while the executor
  -- rests and no handler holds a job.
  abbrev pub IsSimulated : {W : Type 0} → World F W → Type 0
  IsSimulated w =
      (t : System F) × Reach o d config Anything t
      × (t.server ≡ w.server)
      × (t.counter ≡ w.counter)
      × (t.executor ≡ resting)
      × ((id : Bytes) → lookup id t.registered ≡ none)

  pub fresh_world-IsSimulated : {W : Type 0} (disk : W) → IsSimulated (fresh_world disk)
  unfolding lookup
  fresh_world-IsSimulated disk = (_, here, refl, refl, refl, λ id. refl)

module _ {F : Type 0} {W : Type 0} (disk : Storage W) (removals : Removals W) (fs : FileSystem)
    (canonical : Bytes → Outcome Bytes) (read_file : Bytes → Bytes)
    (file_name : Bytes → Bytes) where
  -- A download keeps the server, or is the section of a handler.
  download_job-server :
      (id path : Bytes) (s : Server F) (w : W)
      → let done = download_job disk removals fs canonical read_file file_name (id, path) s w in
        (done.0 ≡ s) ⊎ ((found : _) × (download_all id s ≡ ok (done.0, found)))
  unfolding download_job
  download_job-server id path s w = elim (Option-cases (lookup id s.jobs)) [
    | inl gone ↦ inl (rw (gone, download_job) refl)
    | inr (pointer, listed) ↦ elim (Outcome-cases (deref (some pointer))) [
      | inr (x, null) ↦ inl (rw (listed, null, download_job) refl)
      | inl (job, at) ↦
          let made = archive disk removals id job.working_dir w in
          elim (Bool-cases (is_empty path)) [
            | inr one ↦ inl (rw (listed, at, one, download_job) refl)
            | inl all ↦ elim (Outcome-cases made.1) [
              | inr (x, thrown) ↦ inl (rw (listed, at, all, thrown, download_job) refl)
              | inl (done, removed) ↦ elim (Outcome-cases (download_all id s)) [
                | inr (x, null) ↦ inl (rw (listed, at, all, removed, null, download_job) refl)
                | inl (after, runs) ↦
                    inr (after.1, runs ∙ rw (listed, at, all, removed, runs, download_job) refl)
              ]
            ]
          ]
    ]
  ]

module _ {F : Type 0} {W : Type 0} where
  downloaded-server :
      (w : World F W) (server : Server F) (disk : W) (answer : Outcome HttpResponse) {v : World F W}
      → downloaded w (server, disk, answer) ≡ ok v
      → v ≡ record w { server = server; disk = disk }
  downloaded-server w server disk (err undefined_behavior) e = absurd (cc)
  downloaded-server w server disk (err diverges) e = absurd (cc)
  downloaded-server w server disk (err x) e = sym (ok-injective e)
  downloaded-server w server disk (ok resp) e = sym (ok-injective e)

module _ {F : Type 0} {W : Type 0} (o : Outside F) (d : Double F) (config : Config F)
    (show : F → Bytes) (sha256_string : Bytes → Bytes) (disk : Storage W) (removals : Removals W)
    (fs : FileSystem) (canonical : Bytes → Outcome Bytes) (read_file : Bytes → Bytes)
    (file_name : Bytes → Bytes) where
  downloads-IsSimulated :
      (path : Bytes) (w : World F W) {v : World F W}
      → IsSimulated o d config w
      → downloaded w
          (handle_download disk removals fs canonical read_file file_name path w.server w.disk)
        ≡ ok v
      → IsSimulated o d config v
  unfolding handle_download step
  downloads-IsSimulated path w {v} (t, r, server, counter, executor, held) e =
      let (id, name) = split_download path in
      let done =
        handle_download disk removals fs canonical read_file file_name path w.server w.disk in
      let last = downloaded-server w done.0 done.1 done.2 e in
      elim (download_job-server disk removals fs canonical read_file file_name id name w.server
        w.disk) [
          | inl same ↦ rw last (t, r, server ∙ sym same, counter, executor, held)
          | inr (found, ran) ↦
              let moved : step o d config (download id) t ≡ ok (record t { server = done.0 }) =
                rw (server, ran) refl in
              rw last (
                record t { server = done.0 },
                next r (download id) tt moved,
                refl,
                counter,
                executor,
                held,
              )
        ]

  rounds-IsSimulated :
      (now : ℕ) (w : World F W) {v : World F W}
      → IsSimulated o d config w
      → (executor_round o d config now w.server >>= λ server. ok (record w { server = server }))
        ≡ ok v
      → IsSimulated o d config v
  rounds-IsSimulated now w {v} (t, r, server, counter, executor, held) e =
      let (after, turned, last) = >>=-ok (executor_round o d config now w.server) _ e in
      let ran : run o d config (pop ∷ execute ∷ finish now ∷ sweep now ∷ []) t
          ≡ ok (record t { server = after }) =
        run-executor_round o d config now t executor ∙ rw (server, turned) refl in
      rw (← ok-injective last) (
        record t { server = after },
        run-Reach o d config (pop ∷ execute ∷ finish now ∷ sweep now ∷ []) r ran,
        refl,
        counter,
        executor,
        held,
      )

  call-IsSimulated :
      (c : Call) (w : World F W) {v : World F W}
      → IsSimulated o d config w
      → call o d config show sha256_string disk removals fs canonical read_file file_name c w ≡ ok v
      → IsSimulated o d config v
  unfolding call
  call-IsSimulated (submits clock req) w {v} (t, r, server, counter, executor, held) e =
      let (events, u, runs, server', counter', executor', held') =
        handle_submit-Leads o d config show sha256_string disk clock req t w.disk in
      let same : record w { server = t.server; counter = t.counter } ≡ w =
        rw (server, counter) refl in
      let submitted =
        λ (x : World F W). (handle_submit d config show sha256_string disk clock req x).0 in
      rw (← ok-injective e) (
        u,
        run-Reach o d config events r runs,
        server' ∙ ap (λ (x : World F W). (submitted x).server) same,
        counter' ∙ ap (λ (x : World F W). (submitted x).counter) same,
        executor' ∙ executor,
        λ id. held' id (held id),
      )
  call-IsSimulated (downloads path) w h e = downloads-IsSimulated path w h e
  call-IsSimulated (rounds now) w h e = rounds-IsSimulated now w h e

  pub run_calls-IsSimulated :
      (calls : List Call) (w : World F W) {v : World F W}
      → IsSimulated o d config w
      → run_calls o d config show sha256_string disk removals fs canonical read_file file_name calls
          w
        ≡ ok v
      → IsSimulated o d config v
  unfolding run_calls
  run_calls-IsSimulated [] w h e = rw (← ok-injective e) h
  run_calls-IsSimulated (c ∷ calls) w h e =
      let (between, first, rest) =
        >>=-ok
          (call o d config show sha256_string disk removals fs canonical read_file file_name c w) _
          e in
      run_calls-IsSimulated calls between (call-IsSimulated c w h first) rest

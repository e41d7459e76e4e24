-- ===== src/Threads/Calls/Drains.antt =====
-- How whole rounds of the executor of src/main.cpp empty the queue and the limiter.
use sandrun.Common.{
  ◌≤◌, length, arith, ℕ, true, false, List, [], ◌∷◌, ◌≡◌, refl, ◌∙◌, Bytes, map, contains, ◌++◌,
  Bool-cases, inl, inr, bytes_key, All, Outcome, ok,
}
use sandrun.RateLimiter.{Double, Config}
use sandrun.RateLimiter.Active.{is_active}
use sandrun.Files.Directory.{FileSystem}
use sandrun.Jobs.Executor.{Outside}
use sandrun.Jobs.Pointers.{Jobs, ip_of}
use sandrun.Jobs.Rounds.{IsListable}
use sandrun.Submit.{Storage}
use sandrun.Submit.Handler.{World}
use sandrun.Threads.{is_some}
use sandrun.Threads.Known.{>>=-ok, ok-injective}
use sandrun.Answers.Listing.{Removals}
use sandrun.Threads.Calls.{Call, rounds, fresh_world, call, run_calls}
use sandrun.Threads.Calls.Waiting.{run_calls-waits}
use sandrun.Threads.Calls.Young.{AllYoung, executor_round-AllYoung}

module _ {F : Type 0} {W : Type 0} (o : Outside F) (d : Double F) (config : Config F)
    (show : F → Bytes) (sha256_string : Bytes → Bytes) (disk : Storage W) (removals : Removals W)
    (fs : FileSystem) (canonical : Bytes → Outcome Bytes) (read_file : Bytes → Bytes)
    (file_name : Bytes → Bytes) where
  -- A round for each id in the queue.
  drain-empty :
      IsListable o
      → (last : ℕ) (base : Jobs F) (times : List ℕ) (queue : List Bytes) (w : World F W)
      → length times ≡ length queue
      → All (λ t. t ≤ last) times
      → w.server.job_queue ≡ queue
      → AllYoung last w.server.jobs
      → ((i : Bytes) → ip_of i w.server.jobs ≡ ip_of i base)
      → All (λ id. is_some (ip_of id base) ≡ true) queue
      → (v : World F W) × (v.server.job_queue ≡ [])
        × (run_calls o d config show sha256_string disk removals fs canonical read_file file_name
              (map rounds times)
              w
            ≡ ok v)
  unfolding run_calls call
  drain-empty listable last base [] [] w as_many before at young same held = (w, at, refl)
  drain-empty listable last base [] (id ∷ queue) w as_many before at young same held =
      absurd (omega arith)
  drain-empty listable last base (now ∷ times) [] w as_many before at young same held =
      absurd (omega arith)
  drain-empty listable last base (now ∷ times) (id ∷ queue) w as_many before at young same held =
      let (after, runs, rest, still, kept) =
        executor_round-AllYoung o listable d config now last w.server id queue before.0 young at
          (rw same held.0) in
      let (v, empty, ran) =
        drain-empty listable last base times queue (record w { server = after }) (omega arith)
          before.1 rest still (λ i. kept i ∙ same i) held.1 in
      (v, empty, rw runs ran)

  run_calls-append :
      (before after : List Call) (w : World F W) {v : World F W}
      → run_calls o d config show sha256_string disk removals fs canonical read_file file_name
          before w
        ≡ ok v
      → run_calls o d config show sha256_string disk removals fs canonical read_file file_name
          (before ++ after)
          w
        ≡ run_calls o d config show sha256_string disk removals fs canonical read_file file_name
            after v
  unfolding run_calls
  run_calls-append [] after w e = rw (ok-injective e) refl
  run_calls-append (c ∷ before) after w e =
      let (between, first, rest) =
        >>=-ok
          (call o d config show sha256_string disk removals fs canonical read_file file_name c w) _
          e in
      rw first (run_calls-append before after between rest)

  -- After any whole calls that come back, as many rounds of the executor as ids are in the
  -- queue, each at a time of its own, all come back, and then the queue is empty and no job is
  -- active at any address. No job in the map is more than five whole minutes old at a time that
  -- none of these rounds comes after, each id in the queue has its job in the map, and every
  -- working directory can be listed.
  pub run_calls-drains :
      IsListable o
      → (calls : List Call) (empty : W) {w : World F W}
      → run_calls o d config show sha256_string disk removals fs canonical read_file file_name calls
          (fresh_world empty)
        ≡ ok w
      → (last : ℕ) (times : List ℕ) → length times ≡ length w.server.job_queue
      → All (λ t. t ≤ last) times
      → AllYoung last w.server.jobs
      → All (λ id. is_some (ip_of id w.server.jobs) ≡ true) w.server.job_queue
      → (ip id : Bytes)
      → (v : World F W) × (run_calls o d config show sha256_string disk removals fs canonical
            read_file file_name
            (map rounds times)
            w
          ≡ ok v)
        × (v.server.job_queue ≡ [])
        × (is_active ip id v.server.limiter ≡ false)
  unfolding contains
  run_calls-drains listable calls empty {w} ran last times as_many before young held ip id =
      let (v, gone, drained) =
        drain-empty listable last w.server.jobs times w.server.job_queue w as_many before refl young
          (λ i. refl) held in
      let whole = run_calls-append calls (map rounds times) (fresh_world empty) ran ∙ drained in
      let waits =
        run_calls-waits o d config show sha256_string disk removals fs canonical read_file file_name
          (calls ++ map rounds times) empty whole ip id in
      (
        v,
        drained,
        gone,
        elim (Bool-cases (is_active ip id v.server.limiter)) [
          | inl active ↦ absurd (cc (rw gone at waits active))
          | inr idle ↦ idle
        ],
      )

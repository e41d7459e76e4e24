-- ===== src/Threads/Known.antt =====
-- The addresses of the jobs in the map of src/main.cpp, under the operations on the map: each entry
-- is a job of the address that was admitted under its id.
use sandrun.Common.{
  true, not, select, contains, bytes_eq, ℕ, suc, List, [], ◌∷◌, ◌≡◌, refl, arith, Option, none,
  some, Bytes, bytes_eq_iff, Map, lookup, insert, bytes_key, lookup-insert, All, Option-cases,
  Bool-cases, inl, inr, Outcome, ok, err, ◌>>=◌,
}
use sandrun.Common.Entries.{insert-All, lookup-All, All-map}
use sandrun.Files.Directory.{hash_directory}
use sandrun.Jobs.{Remover, removal, Job, Server, deref, update_positions, cleanup_jobs, is_old}
use sandrun.Threads.{System, log_job}
use sandrun.Jobs.Executor.{Outside, finished, report, run_job, execute_job}
use sandrun.Jobs.Pointers.{Jobs}
use sandrun.Jobs.Rounds.{sign_job-client_ip}

-- Of a chain that comes back with a value: the value in between, which the rest goes on from.
module _ {ℓ κ} {A : Type ℓ} {B : Type κ} where
  pub >>=-ok :
      (first : Outcome A) (rest : A → Outcome B) {last : B}
      → (first >>= rest) ≡ ok last
      → (between : A) × (first ≡ ok between) × (rest between ≡ ok last)
  >>=-ok (err thrown) rest comes_back = absurd (cc)
  >>=-ok (ok between) rest comes_back = (between, refl, comes_back)

pub ok-injective {ℓ} : {A : Type ℓ} {a b : A} → ◌≡◌ {A = Outcome A} (ok a) (ok b) → a ≡ b
ok-injective h = cc

contains-select :
    (id i : Bytes) (ids : List Bytes)
    → contains i (select (λ j. not (bytes_eq j id)) ids) ≡ true
    → contains i ids ≡ true
unfolding contains
contains-select id i [] h = h
contains-select id i (j ∷ ids) h = ground (arith, contains-select id i ids)

module _ {F : Type 0} where
  abbrev pub IsKnown : Map Bytes Bytes → Bytes × Option (Job F) → Type 0
  IsKnown owners (id, none) = ⊥
  IsKnown owners (id, some job) = lookup id owners ≡ some job.client_ip

  abbrev pub AllKnown : Map Bytes Bytes → Jobs F → Type 0
  AllKnown owners = All (IsKnown owners)

  -- A new id tells nothing about the others.
  pub insert-AllKnown :
      (id ip : Bytes) (owners : Map Bytes Bytes) (jobs : Jobs F)
      → lookup id owners ≡ none
      → AllKnown owners jobs
      → AllKnown (insert id ip owners) jobs
  insert-AllKnown id ip owners jobs new =
      All-map {P = IsKnown owners} {Q = IsKnown (insert id ip owners)} known jobs
    where
      known :
          (entry : Bytes × Option (Job F))
          → IsKnown owners entry
          → IsKnown (insert id ip owners) entry
      known (i, none) h = h
      known (i, some job) h = ground (arith, lookup-insert id i ip owners, bytes_eq_iff id i, new)

  pub deref-ok :
      (found : Option (Option (Job F))) {job : Job F}
      → deref found ≡ ok job
      → found ≡ some (some job)
  unfolding deref
  deref-ok none h = absurd (cc)
  deref-ok (some none) h = absurd (cc)
  deref-ok (some (some job)) h = cc

  module _ (owners : Map Bytes Bytes) where
    pub update_positions-AllKnown :
        (position : ℕ) (queue : List Bytes) (jobs : Jobs F) {after : Jobs F}
        → AllKnown owners jobs
        → update_positions position queue jobs ≡ ok after
        → AllKnown owners after
    unfolding update_positions
    update_positions-AllKnown position [] jobs h e = rw (← ok-injective e) h
    update_positions-AllKnown position (id ∷ queue) jobs h e =
        elim (Option-cases (lookup id jobs)) [
          | inl gone ↦
              update_positions-AllKnown position queue jobs h (rw (gone, update_positions) at e)
          | inr (none, null) ↦ absurd (lookup-All (IsKnown owners) id none jobs h null)
          | inr (some job, here) ↦
              let moved = record job { queue_position = position } in
              let known = lookup-All (IsKnown owners) id (some job) jobs h here in
              update_positions-AllKnown (suc position) queue (insert id (some moved) jobs)
                (insert-All (IsKnown owners) id (some moved) jobs known h)
                (unfold deref in rw (here, update_positions) at e)
        ]

    pub cleanup_jobs-AllKnown :
        (remove_all : Remover) (now : ℕ) (jobs : Jobs F) {after : Jobs F}
        → AllKnown owners jobs
        → cleanup_jobs remove_all now jobs ≡ ok after
        → AllKnown owners after
    unfolding cleanup_jobs deref
    cleanup_jobs-AllKnown remove_all now [] {after} h e = rw (← ok-injective e) h
    cleanup_jobs-AllKnown remove_all now ((id, none) ∷ jobs) {after} h e = absurd h.0
    cleanup_jobs-AllKnown remove_all now ((id, some job) ∷ jobs) {after} h e =
        let (_, removed, e') = >>=-ok (removal remove_all now job) _ e in
        let (rest, runs, last) = >>=-ok (cleanup_jobs remove_all now jobs) _ e' in
        let kept = cleanup_jobs-AllKnown remove_all now jobs h.1 runs in
        elim (Bool-cases (is_old now job)) [
          | inl old ↦ let same : rest ≡ after = ground (arith, old, last) in rw (← same) kept
          | inr young ↦
              let same : (id, some job) ∷ rest ≡ after = ground (arith, young, last) in
              rw (← same) (h.0, kept)
        ]

  -- A line that is printed leaves fewer to print, and all else as it was.
  pub log_job_lem :
      (id : Bytes) (s : System F) {t : System F}
      → log_job id s ≡ ok t
      → (left : List Bytes) × (record s { logging = left } ≡ t)
        × ((i : Bytes) → contains i left ≡ true → contains i s.logging ≡ true)
  unfolding log_job
  log_job_lem id s e = elim (Bool-cases (contains id s.logging)) [
    | inr none_left ↦ (s.logging, ok-injective (rw (none_left, log_job) at e), λ i h. h)
    | inl pending ↦
        let (job, found, last) =
          >>=-ok (deref (lookup id s.server.jobs)) _ (rw (pending, log_job) at e) in
        (
          select (λ i. not (bytes_eq i id)) s.logging,
          ok-injective last,
          λ i h. contains-select id i s.logging h,
        )
  ]

  -- What a region in which a job runs leaves.
  pub record HasRun (id : Bytes) (s : Server F) (done : Server F × Job F) : Type 0 where
    pub job : Job F
    pub found : lookup id s.jobs ≡ some (some job)
    pub same : done.1.client_ip ≡ job.client_ip
    pub jobs : done.0.jobs ≡ insert id (some done.1) s.jobs
    pub limiter : done.0.limiter ≡ s.limiter
    pub queue : done.0.job_queue ≡ s.job_queue

module _ {F : Type 0} (o : Outside F) where
  run_job-client_ip :
      (id : Bytes) (job : Job F) (s : Server F) {done : Job F × _}
      → run_job o id job s.broadcaster ≡ ok done
      → done.0.client_ip ≡ job.client_ip
  unfolding run_job report finished
  run_job-client_ip id job s e =
      let (files, listed, last) = >>=-ok (hash_directory _ _ _ _) _ e in
      rw (← ok-injective last) (sign_job-client_ip o _)

  -- A region that returns has run the job that stood behind the id.
  pub execute_job-HasRun :
      (id : Bytes) (s : Server F) {done : Server F × Job F}
      → execute_job o id s ≡ ok done
      → HasRun id s done
  unfolding execute_job
  execute_job-HasRun id s e =
      let (job, found, runs) = >>=-ok (deref (lookup id s.jobs)) _ e in
      let (after, ran, last) = >>=-ok (run_job o id job s.broadcaster) _ runs in
      let client = run_job-client_ip id job s ran in
      rw (← ok-injective last) (record {
        job = job;
        found = deref-ok (lookup id s.jobs) found;
        same = client;
        jobs = refl;
        limiter = refl;
        queue = refl;
      })

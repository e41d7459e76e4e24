-- ===== src/Jobs/Pointers.antt =====
-- The pointers in the map of jobs of src/main.cpp, and the operations that follow them.
use sandrun.Common.{
  ℕ, suc, Bool, true, false, ◌&&◌, List, [], ◌∷◌, ◌≡◌, ◌≢◌, refl, sym, ap, ◌∙◌, arith, Option, none,
  some, Bytes, Map, lookup, insert, erase, bytes_key, bytes_eq, bytes_eq_sound, lookup-insert,
  Option-cases, Bool-cases, inl, inr, ok, ◌⊎◌,
}
use sandrun.Jobs.{Remover, removal, Job, deref, update_positions, cleanup_jobs, is_old}

abbrev pub Jobs : Type 0 → Type 0
Jobs F = Map Bytes (Option (Job F))

abbrev pub is_present : {F : Type 0} → Option (Job F) → Bool
is_present none = false
is_present (some job) = true

-- No pointer is null.
abbrev pub all_present : {F : Type 0} → Jobs F → Bool
all_present [] = true
all_present ((id, pointer) ∷ jobs) = is_present pointer && all_present jobs

abbrev pub ip_behind : {F : Type 0} → Option (Option (Job F)) → Option Bytes
ip_behind none = none
ip_behind (some none) = none
ip_behind (some (some job)) = some job.client_ip

-- The client of the job behind an id.
abbrev pub ip_of : {F : Type 0} → Bytes → Jobs F → Option Bytes
ip_of id jobs = ip_behind (lookup id jobs)

module _ {F : Type 0} where
  pub insert-all_present :
      (id : Bytes) (job : Job F) (jobs : Jobs F)
      → all_present jobs ≡ true
      → all_present (insert id (some job) jobs) ≡ true
  unfolding insert
  insert-all_present id job [] h = refl
  insert-all_present id job ((i, p) ∷ jobs) h = ground (arith, insert-all_present id job jobs)

  pub erase-all_present :
      (id : Bytes) (jobs : Jobs F) → all_present jobs ≡ true → all_present (erase id jobs) ≡ true
  unfolding erase
  erase-all_present id [] h = refl
  erase-all_present id ((i, p) ∷ jobs) h = ground (arith, erase-all_present id jobs)

  lookup-ne-null :
      (id : Bytes) (jobs : Jobs F) → all_present jobs ≡ true → lookup id jobs ≢ some none
  unfolding lookup
  lookup-ne-null id [] h e = cc
  lookup-ne-null id ((i, none) ∷ jobs) h e = cc
  lookup-ne-null id ((i, some job) ∷ jobs) h e = ground (arith, lookup-ne-null id jobs)

  -- What stands behind an id, where no pointer is null.
  pub lookup-cases :
      (id : Bytes) (jobs : Jobs F)
      → all_present jobs ≡ true
      → (lookup id jobs ≡ none) ⊎ ((job : Job F) × (lookup id jobs ≡ some (some job)))
  lookup-cases id jobs h = elim (Option-cases (lookup id jobs)) [
    | inl e ↦ inl e
    | inr (none, e) ↦ absurd (lookup-ne-null id jobs h e)
    | inr (some job, e) ↦ inr (job, e)
  ]

  pub ip_of-insert :
      (id i : Bytes) (job moved : Job F) (jobs : Jobs F)
      → lookup id jobs ≡ some (some job)
      → moved.client_ip ≡ job.client_ip
      → ip_of i (insert id (some moved) jobs) ≡ ip_of i jobs
  ip_of-insert id i job moved jobs e same = elim (Bool-cases (bytes_eq id i)) [
    | inl here ↦
        let at : id ≡ i = bytes_eq_sound id i here in
        rw (lookup-insert id i (some moved) jobs, here) (ap some same ∙ rw (sym at, e) refl)
    | inr other ↦ rw (lookup-insert id i (some moved) jobs, other) refl
  ]

  -- The numbering keeps every job in the map with its client.
  pub update_positions_lem :
      (position : ℕ) (queue : List Bytes) (jobs : Jobs F)
      → all_present jobs ≡ true
      → (after : Jobs F) × (update_positions position queue jobs ≡ ok after)
        × (all_present after ≡ true)
        × ((i : Bytes) → ip_of i after ≡ ip_of i jobs)
  unfolding update_positions
  update_positions_lem position [] jobs h = (jobs, refl, h, λ i. refl)
  update_positions_lem position (id ∷ queue) jobs h = elim (lookup-cases id jobs h) [
    | inl e ↦ rw (e, update_positions) (update_positions_lem position queue jobs h)
    | inr (job, e) ↦
        let moved = record job { queue_position = position } in
        let (after, runs, present, keeps) =
          update_positions_lem (suc position) queue (insert id (some moved) jobs)
            (insert-all_present id moved jobs h) in
        (
          after,
          rw (e, update_positions) (unfold deref in runs),
          present,
          λ i. keeps i ∙ ip_of-insert id i job moved jobs e refl,
        )
  ]

  pub cleanup_jobs_lem :
      (remove_all : Remover)
      → ((dir : Bytes) → remove_all dir ≡ ok tt)
      → (now : ℕ) (jobs : Jobs F) → all_present jobs ≡ true
      → (after : Jobs F) × (cleanup_jobs remove_all now jobs ≡ ok after)
  unfolding cleanup_jobs removal deref
  cleanup_jobs_lem remove_all works now [] h = ([], refl)
  cleanup_jobs_lem remove_all works now ((id, none) ∷ jobs) h = absurd cc
  cleanup_jobs_lem remove_all works now ((id, some job) ∷ jobs) h =
      let (rest, e) = cleanup_jobs_lem remove_all works now jobs h in
      elim (Bool-cases (is_old now job)) [
        | inl old ↦ (rest, rw (old, works job.working_dir, e, cleanup_jobs) refl)
        | inr young ↦ ((id, some job) ∷ rest, rw (young, e, cleanup_jobs) refl)
      ]

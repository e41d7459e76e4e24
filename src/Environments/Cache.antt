-- ===== src/Environments/Cache.antt =====
-- The manager of src/environment_manager.cpp over histories of calls, and against a table of how
-- often each environment was used since it was built.
use sandrun.Common.{
  ◌&&◌, Outcome-cases, ℕ, suc, Bool, true, false, List, [], ◌∷◌, ◌++◌, ◌≡◌, refl, sym, ap, ◌∙◌,
  arith, Option, none, some, Bytes, codes, Map, lookup, insert, bytes_key, bytes_eq, bytes_eq_sound,
  lookup-insert, Option-cases, Bool-cases, inl, inr, Outcome, ok, err, runtime_error, if◌then◌else◌,
}
use sandrun.Common.Entries.{lookup-All}
use sandrun.Environments.{
  cache_base_dir, EnvironmentTemplate, CachedEnvironment, EnvironmentManager, Disk, is_some,
  register_template, rebuild_template,
}
use sandrun.Environments.BuiltIn.{new_manager}
use sandrun.Environments.Prepare.{
  prepare_environment, build_base_environment, clone_environment, after_build, mark_used, add_built,
}
use sandrun.Environments.Cleanup.{cleanup_old_environments}
use sandrun.Environments.Valid.{
  IsValid, IsCached, new_manager-IsValid, register_template-IsValid, rebuild_template-IsValid,
  prepare_environment-IsValid, cleanup_old_environments-IsValid, ready_env-cached,
}

-- The calls that change the manager.
pub data Call : Type 0 where
  registers : EnvironmentTemplate → Call
  prepares : Bytes → Bytes → Call
  rebuilds : Bytes → Call
  cleans : Call

-- How often a cached environment was used.
abbrev pub uses_in : Option CachedEnvironment → Option ℕ
uses_in none = none
uses_in (some cached) = some cached.use_count

abbrev pub uses : EnvironmentManager → Bytes → Option ℕ
uses m name = uses_in (lookup name m.cached_envs)

-- One more use, which builds the environment where it is not there and can be built.
abbrev pub one_more : Bool → Option ℕ → Option ℕ
one_more builds (some n) = some (suc n)
one_more true none = some 1
one_more false none = none

abbrev pub is_ok {ℓ} : {A : Type ℓ} → Outcome A → Bool
is_ok (ok a) = true
is_ok (err e) = false

is_some-one_more : (b : Bool) → b ≡ is_some (one_more b none)
is_some-one_more true = refl
is_some-one_more false = refl

module _ {W : Type 0} (disk : Disk W) where
  -- One call at the time `now`.
  unfoldable pub step : EnvironmentManager × W → ℕ × Call → EnvironmentManager × W
  step (m, w) (now, registers tmpl) = (register_template tmpl m, w)
  step (m, w) (now, prepares name job_id) =
      let (m', w', answer) = prepare_environment disk now name job_id m w in (m', w')
  step (m, w) (now, rebuilds name) =
      let (m', w', answer) = rebuild_template disk name m w in (m', w')
  step (m, w) (now, cleans) =
      let (m', w', answer) = cleanup_old_environments disk now m w in (m', w')

  unfoldable pub run : EnvironmentManager × W → List (ℕ × Call) → EnvironmentManager × W
  unfolding step
  run state [] = state
  run state (call ∷ calls) = run (step state call) calls

  step-IsValid :
      (state : EnvironmentManager × W) (call : ℕ × Call)
      → IsValid state.0
      → IsValid (step state call).0
  unfolding step
  step-IsValid (m, w) (now, registers tmpl) h = register_template-IsValid tmpl m h
  step-IsValid (m, w) (now, prepares name job_id) h =
      prepare_environment-IsValid disk now name job_id m w h
  step-IsValid (m, w) (now, rebuilds name) h = rebuild_template-IsValid disk name m w h
  step-IsValid (m, w) (now, cleans) h = cleanup_old_environments-IsValid disk now m w h

  run-IsValid :
      (state : EnvironmentManager × W) (calls : List (ℕ × Call))
      → IsValid state.0
      → IsValid (run state calls).0
  unfolding run
  run-IsValid state [] h = h
  run-IsValid state (call ∷ calls) h =
      run-IsValid (step state call) calls (step-IsValid state call h)

  -- After any history of calls on a new manager, each template stands under its own name, and each
  -- cached environment is ready, stands under its template's name in a directory of its own, and has
  -- a known template.
  pub run-new_manager-IsValid :
      (w : W) (calls : List (ℕ × Call)) → IsValid (run (new_manager disk w) calls).0
  run-new_manager-IsValid w calls =
      run-IsValid (new_manager disk w) calls (new_manager-IsValid disk w)

  -- The template is known, and can be built on the disk.
  abbrev pub builds : Bytes → EnvironmentManager → W → Bool
  builds name m w = elim (lookup name m.templates) [
    | none ↦ false
    | some tmpl ↦ is_ok (build_base_environment disk tmpl w).0
  ]

  -- The directory of a job can be made.
  abbrev pub makes : Bytes → W → Bool
  makes job_id w = is_ok (disk.create_directories (cache_base_dir ++ (codes "/job_" ++ job_id)) w).0

  -- The disk on which the directory is made.
  abbrev pub built_disk : Bytes → EnvironmentManager → W → W
  built_disk name m w = elim (lookup name m.cached_envs) [
    | some cached ↦ w
    | none ↦ elim (lookup name m.templates) [
      | none ↦ w
      | some tmpl ↦ (build_base_environment disk tmpl w).1
    ]
  ]

  clone_environment-makes :
      (base_path job_id : Bytes) (w : W)
      → is_ok (clone_environment disk base_path job_id w).0 ≡ makes job_id w
  unfolding clone_environment
  clone_environment-makes base_path job_id w =
      let made = disk.create_directories (cache_base_dir ++ (codes "/job_" ++ job_id)) w in
      elim (Outcome-cases made.0) [
        | inl (done, e) ↦ rw (e, clone_environment) refl
        | inr (x, e) ↦ rw (e, clone_environment) refl
      ]

  built_disk-cached :
      (name : Bytes) (cached : CachedEnvironment) (m : EnvironmentManager) (w : W)
      → lookup name m.cached_envs ≡ some cached
      → built_disk name m w ≡ w
  built_disk-cached name cached m w f = rw (f, built_disk) refl

  built_disk-builds :
      (name : Bytes) (tmpl : EnvironmentTemplate) (m : EnvironmentManager) (w : W)
      → lookup name m.cached_envs ≡ none
      → lookup name m.templates ≡ some tmpl
      → built_disk name m w ≡ (build_base_environment disk tmpl w).1
  built_disk-builds name tmpl m w f e = rw (f, built_disk) (rw (e, built_disk) refl)

  uses-insert :
      (name other : Bytes) (cached : CachedEnvironment) (envs : Map Bytes CachedEnvironment)
      → uses_in (lookup other (insert name cached envs))
        ≡ (if bytes_eq name other then some cached.use_count else uses_in (lookup other envs))
  uses-insert name other cached envs = ground (arith, lookup-insert name other cached envs)

  absent-eq :
      (name other : Bytes) (envs : Map Bytes CachedEnvironment)
      → lookup name envs ≡ none
      → uses_in (lookup other envs)
        ≡ (if bytes_eq name other then none else uses_in (lookup other envs))
  absent-eq name other envs absent = elim (Bool-cases (bytes_eq name other)) [
    | inl same ↦
        let at : name ≡ other = bytes_eq_sound name other same in
        rw same (ap uses_in (ap (λ n. lookup n envs) (sym at) ∙ absent))
    | inr distinct ↦ rw distinct refl
  ]

  builds-unknown :
      (name : Bytes) (m : EnvironmentManager) (w : W)
      → lookup name m.templates ≡ none
      → builds name m w ≡ false
  builds-unknown name m w e = rw (e, builds) refl

  builds-known :
      (name : Bytes) (tmpl : EnvironmentTemplate) (m : EnvironmentManager) (w : W)
      → lookup name m.templates ≡ some tmpl
      → builds name m w ≡ is_ok (build_base_environment disk tmpl w).0
  builds-known name tmpl m w e = rw (e, builds) refl

  after_build-uses :
      (now : ℕ) (name job_id other : Bytes) (m : EnvironmentManager) (built : Outcome Bytes × W)
      → lookup name m.cached_envs ≡ none
      → (uses (after_build disk now name job_id m built).0 other
          ≡ (if bytes_eq name other then one_more (is_ok built.0) none else uses m other))
        × (is_ok (after_build disk now name job_id m built).2
            ≡ (is_ok built.0 && makes job_id built.1))
  unfolding after_build add_built
  after_build-uses now name job_id other m (ok path, w) absent =
      (uses-insert name other _ m.cached_envs, clone_environment-makes path job_id w)
  after_build-uses now name job_id other m (err e, w) absent =
      (absent-eq name other m.cached_envs absent, refl)

  module _ (now : ℕ) (name job_id : Bytes) (m : EnvironmentManager) (w : W) where
    prepare_environment-unknown :
        lookup name m.templates ≡ none
        → prepare_environment disk now name job_id m w
          ≡ (m, w, err (runtime_error (codes "Environment template not found: " ++ name)))
    unfolding prepare_environment
    prepare_environment-unknown e = rw (e, prepare_environment) refl

    prepare_environment-cached :
        (tmpl : EnvironmentTemplate) (cached : CachedEnvironment)
        → IsValid m
        → lookup name m.templates ≡ some tmpl
        → lookup name m.cached_envs ≡ some cached
        → prepare_environment disk now name job_id m w ≡ (
          mark_used disk now name cached m,
          (clone_environment disk cached.base_path job_id w).1,
          (clone_environment disk cached.base_path job_id w).0,
        )
    unfolding prepare_environment
    prepare_environment-cached tmpl cached h e f =
        rw (e, prepare_environment)
          (rw (ready_env-cached disk name m cached h f, prepare_environment) refl)

    prepare_environment-builds :
        (tmpl : EnvironmentTemplate)
        → lookup name m.templates ≡ some tmpl
        → lookup name m.cached_envs ≡ none
        → prepare_environment disk now name job_id m w
          ≡ after_build disk now name job_id m (build_base_environment disk tmpl w)
    unfolding prepare_environment
    prepare_environment-builds tmpl e f = rw (e, f, prepare_environment) refl

  -- prepare_environment keeps the table of uses: the named environment has one more use, or its
  -- first where it is built now, the others keep theirs, and an environment that is neither there
  -- nor can be built is refused and leaves the table as it was; the answer is a directory if in
  -- addition the job's own directory can be made. The manager is valid.
  pub prepare_environment-uses :
      (now : ℕ) (name job_id other : Bytes) (m : EnvironmentManager) (w : W)
      → IsValid m
      → (uses (prepare_environment disk now name job_id m w).0 other ≡ (
          if bytes_eq name other then one_more (builds name m w) (uses m name) else uses m other))
        × (is_ok (prepare_environment disk now name job_id m w).2 ≡ (
            is_some (one_more (builds name m w) (uses m name))
            && makes job_id (built_disk name m w)))
  unfolding mark_used
  prepare_environment-uses now name job_id other m w h =
      elim (Option-cases (lookup name m.cached_envs)) [
        | inr (cached, f) ↦
            let c = lookup-All (IsCached m.templates) name cached m.cached_envs h.envs_cached f in
            elim (Option-cases (lookup name m.templates)) [
              | inl e ↦
                  let unknown : is_some (lookup name m.templates) ≡ true = c.known in
                  absurd (cc (unknown, e))
              | inr (tmpl, e) ↦
                  let more =
                    uses-insert name other
                      (record cached { last_used = now; use_count = suc cached.use_count })
                      m.cached_envs in
                  rw (prepare_environment-cached now name job_id m w tmpl cached h e f) (
                    more ∙ rw f refl,
                    clone_environment-makes cached.base_path job_id w
                        ∙ rw (built_disk-cached name cached m w f, f) refl,
                  )
            ]
        | inl f ↦ elim (Option-cases (lookup name m.templates)) [
          | inl e ↦ rw (prepare_environment-unknown now name job_id m w e) (
            absent-eq name other m.cached_envs f ∙ rw (builds-unknown name m w e, f) refl,
            rw (builds-unknown name m w e, f) refl,
          )
          | inr (tmpl, e) ↦
              let (table, answer) =
                after_build-uses now name job_id other m (build_base_environment disk tmpl w) f in
              rw (prepare_environment-builds now name job_id m w tmpl e f) (
                table ∙ rw (builds-known name tmpl m w e, f) refl,
                answer
                    ∙ rw (builds-known name tmpl m w e, built_disk-builds name tmpl m w f e, f)
                        (ap (λ b. b && makes job_id (build_base_environment disk tmpl w).1)
                          (is_some-one_more _)),
              )
        ]
      ]

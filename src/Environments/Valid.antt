-- ===== src/Environments/Valid.antt =====
-- What holds of the manager of src/environment_manager.cpp between two calls.
use sandrun.Common.{
  List, Outcome, Bool, false, ltb, ◌-◌, ◌*◌, value_or, ℕ, true, not, [], ◌∷◌, ◌++◌, ◌≡◌, refl, ap,
  ◌∙◌, arith, some, Bytes, codes, Map, lookup, insert, bytes_key, lookup-insert, select, All,
  Option-cases, Bool-cases, inl, inr, Outcome-cases, ok,
}
use sandrun.Common.Entries.{insert-All, erase-All, lookup-All, All-map}
use sandrun.Environments.{
  default_template, EnvironmentTemplate, CachedEnvironment, EnvironmentManager, Disk,
  cache_base_dir, is_some, register_template, rebuild_template,
}
use sandrun.Environments.BuiltIn.{new_manager, ml_basic, vision, nlp, data_science, scientific}
use sandrun.Environments.Prepare.{
  prepare_environment, build_base_environment, finish_setup, mark_used, add_built, after_build,
  ready_env,
}
use sandrun.Environments.Cleanup.{
  cleanup_old_environments, evict, evict_one, remove_job_dir, remove_job_dirs, remove_old_jobs,
  is_expired, touch_template,
}

abbrev pub base_path_of : Bytes → Bytes
base_path_of name = cache_base_dir ++ (codes "/base_" ++ name)

-- A template stands under its own name.
abbrev pub IsNamed : Bytes × EnvironmentTemplate → Type 0
IsNamed entry = entry.1.name ≡ entry.0

-- A cached environment is ready, stands under its template's name, in a directory of its own, and
-- its template is known.
pub record IsCached (templates : Map Bytes EnvironmentTemplate) (entry : Bytes × CachedEnvironment)
    : Type 0 where
  pub named : entry.1.template_name ≡ entry.0
  pub is_ready : entry.1.ready ≡ true
  pub placed : entry.1.base_path ≡ base_path_of entry.0
  pub known : is_some (lookup entry.0 templates) ≡ true

pub record IsValid (m : EnvironmentManager) : Type 0 where
  pub templates_named : All IsNamed m.templates
  pub envs_cached : All (IsCached m.templates) m.cached_envs

lookup-insert-known :
    (name key : Bytes) (tmpl : EnvironmentTemplate) (templates : Map Bytes EnvironmentTemplate)
    → is_some (lookup key templates) ≡ true
    → is_some (lookup key (insert name tmpl templates)) ≡ true
lookup-insert-known name key tmpl templates h =
    ground (arith, lookup-insert name key tmpl templates)

pub register_template-IsValid :
    (tmpl : EnvironmentTemplate) (m : EnvironmentManager)
    → IsValid m
    → IsValid (register_template tmpl m)
unfolding register_template
register_template-IsValid tmpl m h = record {
  templates_named = insert-All IsNamed tmpl.name tmpl m.templates refl h.templates_named;
  envs_cached =
      All-map
        (λ entry c. record {
          named = c.named;
          is_ready = c.is_ready;
          placed = c.placed;
          known = lookup-insert-known tmpl.name entry.0 tmpl m.templates c.known;
        })
        m.cached_envs h.envs_cached;
}

pub new_manager-IsValid : {W : Type 0} (disk : Disk W) (w : W) → IsValid (new_manager disk w).0
unfolding new_manager
new_manager-IsValid disk w =
    let empty : IsValid (record { templates = []; cached_envs = [] }) = record {
      templates_named = tt;
      envs_cached = tt;
    } in
    register_template-IsValid scientific _ (
      register_template-IsValid data_science _ (
        register_template-IsValid nlp _
          (register_template-IsValid vision _ (register_template-IsValid ml_basic _ empty))))

-- The age in nanoseconds is below the hours of the template.
abbrev pub is_younger : ℕ → Map Bytes EnvironmentTemplate → CachedEnvironment → Bool
is_younger now templates cached =
    let tmpl = value_or default_template (lookup cached.template_name templates) in
    ltb (now - cached.created_at) (tmpl.max_age_hours * 3_600_000_000_000)

is_expired-younger :
    (now : ℕ) (templates : Map Bytes EnvironmentTemplate) (cached : CachedEnvironment)
    → is_younger now templates cached ≡ not (is_expired now templates cached)
unfolding is_expired
is_expired-younger now templates cached = ground arith

module _ {W : Type 0} (disk : Disk W) where
  pub rebuild_template-IsValid :
      (name : Bytes) (m : EnvironmentManager) (w : W)
      → IsValid m
      → IsValid (rebuild_template disk name m w).0
  unfolding rebuild_template
  rebuild_template-IsValid name m w h = elim (Option-cases (lookup name m.cached_envs)) [
    | inl e ↦ rw (e, rebuild_template) h
    | inr (cached, e) ↦ elim (Outcome-cases (disk.remove_all cached.base_path w).0) [
      | inr (x, f) ↦ rw (e, f, rebuild_template) h
      | inl (done, f) ↦
          rw (e, f, rebuild_template)
            (record {
              templates_named = h.templates_named;
              envs_cached = erase-All (IsCached m.templates) name m.cached_envs h.envs_cached;
            })
    ]
  ]

  -- A build that succeeds ends in the template's own directory.
  pub build_base_environment-path :
      (tmpl : EnvironmentTemplate) (w : W) (path : Bytes)
      → (build_base_environment disk tmpl w).0 ≡ ok path
      → path ≡ base_path_of tmpl.name
  unfolding build_base_environment finish_setup
  build_base_environment-path tmpl w path e = ground (arith)

  mark_used-IsValid :
      (now : ℕ) (name : Bytes) (cached : CachedEnvironment) (m : EnvironmentManager)
      → IsValid m
      → lookup name m.cached_envs ≡ some cached
      → IsValid (mark_used disk now name cached m)
  unfolding mark_used
  mark_used-IsValid now name cached m h found =
      let c = lookup-All (IsCached m.templates) name cached m.cached_envs h.envs_cached found in
      record {
        templates_named = h.templates_named;
        envs_cached =
            insert-All (IsCached m.templates) name _ m.cached_envs
              (record {
                named = c.named;
                is_ready = c.is_ready;
                placed = c.placed;
                known = c.known;
              })
              h.envs_cached;
      }

  add_built-IsValid :
      (now : ℕ) (name : Bytes) (tmpl : EnvironmentTemplate) (m : EnvironmentManager)
      → IsValid m
      → lookup name m.templates ≡ some tmpl
      → IsValid (add_built disk now name (base_path_of name) m)
  unfolding add_built
  add_built-IsValid now name tmpl m h found = record {
    templates_named = h.templates_named;
    envs_cached =
        insert-All (IsCached m.templates) name _ m.cached_envs
          (record { named = refl; is_ready = refl; placed = refl; known = ap is_some found })
          h.envs_cached;
  }

  after_build-IsValid :
      (now : ℕ) (name job_id : Bytes) (tmpl : EnvironmentTemplate) (m : EnvironmentManager) (w : W)
      → IsValid m
      → lookup name m.templates ≡ some tmpl
      → IsValid (after_build disk now name job_id m (build_base_environment disk tmpl w)).0
  unfolding after_build
  after_build-IsValid now name job_id tmpl m w h found =
      elim (Outcome-cases (build_base_environment disk tmpl w).0) [
        | inl (path, e) ↦
            let named = lookup-All IsNamed name tmpl m.templates h.templates_named found in
            let place : path ≡ base_path_of name =
              build_base_environment-path tmpl w path e ∙ ap base_path_of named in
            rw (e, after_build) (rw place (add_built-IsValid now name tmpl m h found))
        | inr (x, e) ↦ rw (e, after_build) h
      ]

  -- In a valid manager a cached environment is used as it is.
  pub ready_env-cached :
      (name : Bytes) (m : EnvironmentManager) (cached : CachedEnvironment)
      → IsValid m
      → lookup name m.cached_envs ≡ some cached
      → ready_env disk name m ≡ some cached
  ready_env-cached name m cached h found =
      let c = lookup-All (IsCached m.templates) name cached m.cached_envs h.envs_cached found in
      let ready : cached.ready ≡ true = c.is_ready in rw (found, ready_env) (simp ready)

  pub prepare_environment-IsValid :
      (now : ℕ) (name job_id : Bytes) (m : EnvironmentManager) (w : W)
      → IsValid m
      → IsValid (prepare_environment disk now name job_id m w).0
  unfolding prepare_environment
  prepare_environment-IsValid now name job_id m w h =
      elim (Option-cases (lookup name m.templates)) [
        | inl e ↦ rw (e, prepare_environment) h
        | inr (tmpl, e) ↦ elim (Option-cases (lookup name m.cached_envs)) [
          | inl f ↦
              rw (e, f, prepare_environment) (after_build-IsValid now name job_id tmpl m w h e)
          | inr (cached, f) ↦
              rw (e, ready_env-cached name m cached h f, prepare_environment)
                (mark_used-IsValid now name cached m h f)
        ]
      ]

  touch_template-known :
      (name : Bytes) (templates : Map Bytes EnvironmentTemplate)
      → is_some (lookup name templates) ≡ true
      → touch_template name templates ≡ templates
  unfolding touch_template
  touch_template-known name templates h = elim (Option-cases (lookup name templates)) [
    | inl e ↦ ground (arith)
    | inr (tmpl, e) ↦ rw (e, touch_template) refl
  ]

  -- The loop over the cache of a valid manager keeps the templates, and what stays is valid, however
  -- it ends.
  evict_lem :
      (now : ℕ) (envs : Map Bytes CachedEnvironment) (templates : Map Bytes EnvironmentTemplate)
      (w : W)
      → All (IsCached templates) envs
      → ((evict disk now envs templates w).0 ≡ templates)
        × All (IsCached templates) (evict disk now envs templates w).1
  unfolding evict
  evict_lem now [] templates w h = (refl, tt)
  evict_lem now ((name, cached) ∷ envs) templates w h =
      let same_name : cached.template_name ≡ name = h.0.named in
      let known : is_some (lookup name templates) ≡ true = h.0.known in
      let same : touch_template cached.template_name templates ≡ templates =
        ap (λ n. touch_template n templates) same_name
        ∙ touch_template-known name templates known in
      let one = evict_one disk now templates cached w in
      let rest = evict_lem now envs templates one.1 h.1 in
      elim (Outcome-cases one.0) [
        | inr (x, e) ↦ rw (e, same, evict) (refl, h)
        | inl (gone, e) ↦ elim (Bool-cases gone) [
          | inl g ↦ rw (e, same, g, evict) rest
          | inr g ↦ rw (e, same, g, evict) (rest.0, (h.0, rest.1))
        ]
      ]

  evict_one-gone :
      (now : ℕ) (templates : Map Bytes EnvironmentTemplate) (cached : CachedEnvironment) (w : W)
      {gone : Bool}
      → (evict_one disk now templates cached w).0 ≡ ok gone
      → is_younger now templates cached ≡ not gone
  unfolding evict_one
  evict_one-gone now templates cached w {gone} e =
      let removed = disk.remove_all cached.base_path w in
      let younger = is_expired-younger now templates cached in
      elim (Bool-cases (is_expired now templates cached)) [
        | inr young ↦ ground (arith, young, younger, e)
        | inl old ↦ elim (Outcome-cases removed.0) [
          | inr (x, f) ↦ absurd (cc (rw (old, f, evict_one) at e))
          | inl (done, f) ↦
              let ends = rw (old, f, evict_one) at e in ground (arith, old, younger, ends)
        ]
      ]

  -- A loop that comes to its end has kept the environments that are younger.
  evict-select :
      (now : ℕ) (envs : Map Bytes CachedEnvironment) (templates : Map Bytes EnvironmentTemplate)
      (w : W) {done : _}
      → All (IsCached templates) envs
      → (evict disk now envs templates w).3 ≡ ok done
      → (evict disk now envs templates w).1
        ≡ select (λ entry. is_younger now templates entry.1) envs
  unfolding evict
  evict-select now [] templates w h ends = refl
  evict-select now ((name, cached) ∷ envs) templates w h ends =
      let same_name : cached.template_name ≡ name = h.0.named in
      let known : is_some (lookup name templates) ≡ true = h.0.known in
      let same : touch_template cached.template_name templates ≡ templates =
        ap (λ n. touch_template n templates) same_name
        ∙ touch_template-known name templates known in
      let one = evict_one disk now templates cached w in
      elim (Outcome-cases one.0) [
        | inr (x, e) ↦ absurd (cc (rw (e, evict) at ends))
        | inl (gone, e) ↦
            let rest = evict-select now envs templates one.1 h.1 (rw (e, same, evict) at ends) in
            let younger = evict_one-gone now templates cached w e in
            elim (Bool-cases gone) [
              | inl g ↦ rw (e, same, younger, g, evict) rest
              | inr g ↦ rw (e, same, younger, g, evict) (ap (◌∷◌ (name, cached)) rest)
            ]
      ]

  -- The clean-up of a valid manager keeps the templates, and of the cached environments exactly
  -- those whose age in nanoseconds is below their template's hours; where it throws nothing.
  pub cleanup_old_environments-select :
      (now : ℕ) (m : EnvironmentManager) (w : W)
      → IsValid m
      → (cleanup_old_environments disk now m w).2 ≡ ok tt
      → (cleanup_old_environments disk now m w).0 ≡ record m {
        cached_envs = select (λ entry. is_younger now m.templates entry.1) m.cached_envs;
      }
  unfolding cleanup_old_environments
  cleanup_old_environments-select now m w h ends =
      let (templates, valid) = evict_lem now m.cached_envs m.templates w h.envs_cached in
      elim (Outcome-cases (evict disk now m.cached_envs m.templates w).3) [
        | inr (x, e) ↦ absurd (cc (rw (e, cleanup_old_environments) at ends))
        | inl (done, e) ↦
            let kept = evict-select now m.cached_envs m.templates w h.envs_cached e in
            rw (e, templates, kept, cleanup_old_environments) refl
      ]

  pub cleanup_old_environments-IsValid :
      (now : ℕ) (m : EnvironmentManager) (w : W)
      → IsValid m
      → IsValid (cleanup_old_environments disk now m w).0
  unfolding cleanup_old_environments
  cleanup_old_environments-IsValid now m w h =
      let (templates, valid) = evict_lem now m.cached_envs m.templates w h.envs_cached in
      let left : IsValid (record {
        templates = (evict disk now m.cached_envs m.templates w).0;
        cached_envs = (evict disk now m.cached_envs m.templates w).1;
      }) =
        rw templates (record { templates_named = h.templates_named; envs_cached = valid }) in
      elim (Outcome-cases (evict disk now m.cached_envs m.templates w).3) [
        | inr (x, e) ↦ rw (e, cleanup_old_environments) left
        | inl (done, e) ↦ rw (e, cleanup_old_environments) left
      ]

  -- Every directory can be removed, and read with the ages of its entries.
  abbrev pub IsUsable : Type 0
  IsUsable =
      ((path : Bytes) (w : W) → (disk.remove_all path w).0 ≡ ok tt)
      × ((path : Bytes) (w : W)
          → (entries : _) × (disk.directory path w ≡ ok entries)
            × All (λ entry. (hours : ℕ) × (entry.1 ≡ ok hours)) entries)

  evict_one-ends :
      IsUsable
      → (now : ℕ) (templates : Map Bytes EnvironmentTemplate) (cached : CachedEnvironment) (w : W)
      → (gone : Bool) × ((evict_one disk now templates cached w).0 ≡ ok gone)
  unfolding evict_one
  evict_one-ends usable now templates cached w =
      elim (Bool-cases (is_expired now templates cached)) [
        | inl old ↦ (true, rw (old, usable.0 cached.base_path w, evict_one) refl)
        | inr young ↦ (false, rw (young, evict_one) refl)
      ]

  evict-ends :
      IsUsable
      → (now : ℕ) (envs : Map Bytes CachedEnvironment) (templates : Map Bytes EnvironmentTemplate)
      → (w : W) → (evict disk now envs templates w).3 ≡ ok tt
  unfolding evict
  evict-ends usable now [] templates w = refl
  evict-ends usable now ((name, cached) ∷ envs) templates w =
      let (gone, e) = evict_one-ends usable now templates cached w in
      rw (e, evict)
        (evict-ends usable now envs (touch_template cached.template_name templates)
          (evict_one disk now templates cached w).1)

  remove_job_dir-ends :
      IsUsable
      → (filename : Bytes) (age : Outcome ℕ) (hours : ℕ) (w : W) → age ≡ ok hours
      → (remove_job_dir disk (filename, age) w).0 ≡ ok tt
  unfolding remove_job_dir
  remove_job_dir-ends usable filename age hours w known =
      ground (arith, known, usable.0 (cache_base_dir ++ (codes "/" ++ filename)) w)

  remove_job_dirs-ends :
      IsUsable
      → (entries : List (Bytes × Outcome ℕ)) (w : W)
      → All (λ entry. (hours : ℕ) × (entry.1 ≡ ok hours)) entries
      → (remove_job_dirs disk entries w).0 ≡ ok tt
  unfolding remove_job_dirs
  remove_job_dirs-ends usable [] w h = refl
  remove_job_dirs-ends usable ((filename, age) ∷ entries) w ((hours, known), h) =
      rw (remove_job_dir-ends usable filename age hours w known, remove_job_dirs)
        (remove_job_dirs-ends usable entries (remove_job_dir disk (filename, age) w).1 h)

  remove_old_jobs-ends : IsUsable → (w : W) → (remove_old_jobs disk w).0 ≡ ok tt
  unfolding remove_old_jobs
  remove_old_jobs-ends usable w =
      let (entries, listed, aged) = usable.1 cache_base_dir w in
      elim (Bool-cases (disk.exists cache_base_dir w)) [
        | inl there ↦ rw (there, listed) (remove_job_dirs-ends usable entries w aged)
        | inr gone ↦ rw gone refl
      ]

  -- On such a disk the clean-up throws nothing.
  pub cleanup_old_environments-ends :
      IsUsable
      → (now : ℕ) (m : EnvironmentManager) (w : W)
      → (cleanup_old_environments disk now m w).2 ≡ ok tt
  unfolding cleanup_old_environments
  cleanup_old_environments-ends usable now m w =
      let ends = evict-ends usable now m.cached_envs m.templates w in
      rw (ends, cleanup_old_environments)
        (remove_old_jobs-ends usable (evict disk now m.cached_envs m.templates w).2)

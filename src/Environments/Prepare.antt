-- ===== src/Environments/Prepare.antt =====
-- `prepare_environment` of src/environment_manager.cpp and the methods below it. An exception leaves
-- the disk as the calls before it made it.
use sandrun.Common.{
  ℕ, suc, Bool, true, false, not, List, [], ◌∷◌, ◌++◌, Option, none, some, Bytes, codes, lookup,
  insert, bytes_key, is_empty, if◌then◌else◌, ◌==◌, Outcome, ok, err, runtime_error,
}
use sandrun.Common.Decimal.{ℤ, pos, negsuc}
use sandrun.Environments.{
  EnvironmentTemplate, CachedEnvironment, EnvironmentManager, Disk, cache_base_dir,
}

-- `ret == 0`.
abbrev pub is_zero : ℤ → Bool
is_zero (pos n) = n == 0
is_zero (negsuc n) = false

-- The lines of requirements.txt.
unfoldable pub requirements : List Bytes → Bytes
requirements [] = []
requirements (pkg ∷ packages) = pkg ++ (codes "\n" ++ requirements packages)

unfoldable pub install_command : Bytes → Bytes
install_command env_path =
    codes "pip3 install --target "
    ++ (env_path
        ++ (codes "/site-packages -r "
            ++ (env_path ++ codes "/requirements.txt --quiet 2>&1 | tail -5")))

module _ {W : Type 0} (disk : Disk W) where
  unfoldable pub install_packages : Bytes → List Bytes → W → Bool × W
  unfolding requirements install_command
  install_packages env_path packages w =
      let req_file = env_path ++ codes "/requirements.txt" in
      let (ret, w') =
        disk.system (install_command env_path)
          (disk.write_file req_file (requirements packages) w) in
      (is_zero ret, w')

  unfoldable pub run_setup_script : Bytes → Bytes → W → Bool × W
  run_setup_script env_path script_path w =
      let local_script = env_path ++ codes "/setup.sh" in
      let (ret, w') =
        disk.system (codes "cd " ++ (env_path ++ codes " && bash setup.sh"))
          (disk.make_executable local_script (disk.copy_file script_path local_script w)) in
      if not (disk.exists script_path w) then (false, w) else (is_zero ret, w')

  -- The setup script of a template, on the built packages.
  unfoldable pub finish_setup : EnvironmentTemplate → Bytes → W → Outcome Bytes × W
  unfolding run_setup_script
  finish_setup tmpl base_path w =
      let (done, w') = run_setup_script base_path tmpl.setup_script w in
      if is_empty tmpl.setup_script
      then (ok base_path, w)
      else if done
      then (ok base_path, w')
      else (err (runtime_error (codes "Setup script failed for: " ++ tmpl.name)), w')

  unfoldable pub build_base_environment : EnvironmentTemplate → W → Outcome Bytes × W
  unfolding install_packages finish_setup
  build_base_environment tmpl w =
      let base_path = cache_base_dir ++ (codes "/base_" ++ tmpl.name) in
      let (created, made) = disk.create_directories base_path w in
      let (installed, w') = install_packages base_path tmpl.packages made in
      elim created [
        | err e ↦ (err e, made)
        | ok directory ↦
            if is_empty tmpl.packages
            then finish_setup tmpl base_path made
            else if installed
            then finish_setup tmpl base_path w'
            else (err (runtime_error (codes "Failed to install packages for: " ++ tmpl.name)), w')
      ]

  -- A failed copy is only reported.
  unfoldable pub clone_environment : Bytes → Bytes → W → Outcome Bytes × W
  clone_environment base_path job_id w =
      let job_env_path = cache_base_dir ++ (codes "/job_" ++ job_id) in
      let cmd =
        codes "cp -r "
        ++ (base_path ++ (codes "/* " ++ (job_env_path ++ codes "/ 2>/dev/null || true"))) in
      let (created, made) = disk.create_directories job_env_path w in
      elim created [
        | err e ↦ (err e, made)
        | ok directory ↦ (ok job_env_path, (disk.system cmd made).1)
      ]

  -- The cache after a use at the time `now`.
  unfoldable pub mark_used : ℕ → Bytes → CachedEnvironment → EnvironmentManager → EnvironmentManager
  mark_used now name cached m = record m {
    cached_envs =
        insert name (record cached { last_used = now; use_count = suc cached.use_count })
          m.cached_envs;
  }

  -- The cache after a build that ended at the time `now`.
  unfoldable pub add_built : ℕ → Bytes → Bytes → EnvironmentManager → EnvironmentManager
  add_built now name base_path m = record m {
    cached_envs =
        insert name
          (record {
            template_name = name;
            base_path = base_path;
            created_at = now;
            last_used = now;
            use_count = 1;
            ready = true;
          })
          m.cached_envs;
  }

  -- The environment that is cached under a name and ready.
  abbrev pub ready_env : Bytes → EnvironmentManager → Option CachedEnvironment
  ready_env name m = elim (lookup name m.cached_envs) [
    | none ↦ none
    | some cached ↦ if cached.ready then some cached else none
  ]

  -- The manager and the disk after a build that ended in `built`.
  unfoldable pub after_build :
      ℕ
      → Bytes
      → Bytes
      → EnvironmentManager
      → Outcome Bytes × W
      → EnvironmentManager × W × Outcome Bytes
  unfolding clone_environment add_built
  after_build now template_name job_id m (err e, w) = (m, w, err e)
  after_build now template_name job_id m (ok base_path, w) = (
    add_built now template_name base_path m,
    (clone_environment base_path job_id w).1,
    (clone_environment base_path job_id w).0,
  )

  unfoldable pub prepare_environment :
      ℕ → Bytes → Bytes → EnvironmentManager → W → EnvironmentManager × W × Outcome Bytes
  unfolding build_base_environment clone_environment mark_used after_build
  prepare_environment now template_name job_id m w = elim (lookup template_name m.templates) [
    | none ↦ (m, w, err (runtime_error (codes "Environment template not found: " ++ template_name)))
    | some tmpl ↦ elim (ready_env template_name m) [
      | some cached ↦ (
        mark_used now template_name cached m,
        (clone_environment cached.base_path job_id w).1,
        (clone_environment cached.base_path job_id w).0,
      )
      | none ↦ after_build now template_name job_id m (build_base_environment tmpl w)
    ]
  ]

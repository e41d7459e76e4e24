-- ===== src/Environments/Cleanup.antt =====
-- `cleanup_old_environments` and `get_stats` of src/environment_manager.cpp.
use sandrun.Common.{
  Outcome, ok, err, ℕ, ◌+◌, ◌-◌, ◌*◌, ◌/◌, ◌%◌, ◌^◌, Bool, true, false, List, [], ◌∷◌, ◌++◌, none,
  some, Bytes, codes, Map, lookup, insert, value_or, bytes_key, leb, ltb, if◌then◌else◌, length,
  starts_with,
}
use sandrun.Common.Decimal.{ℤ, pos, negsuc}
use sandrun.Environments.{
  EnvironmentTemplate, CachedEnvironment, EnvironmentManager, Disk, cache_base_dir,
  default_template,
}
use sandrun.RateLimiter.{hour}

-- `templates_[name]`, which adds a default template under a name that is not there.
unfoldable pub touch_template :
    Bytes → Map Bytes EnvironmentTemplate → Map Bytes EnvironmentTemplate
touch_template name templates = elim (lookup name templates) [
  | none ↦ insert name default_template templates
  | some tmpl ↦ templates
]

-- The age in whole hours has reached the template's limit.
unfoldable pub is_expired : ℕ → Map Bytes EnvironmentTemplate → CachedEnvironment → Bool
is_expired now templates cached =
    leb (value_or default_template (lookup cached.template_name templates)).max_age_hours
      ((now - cached.created_at) / hour)

module _ {W : Type 0} (disk : Disk W) where
  -- Whether one environment is removed; an exception of `fs::remove_all` comes before the erasure.
  unfoldable pub evict_one :
      ℕ → Map Bytes EnvironmentTemplate → CachedEnvironment → W → Outcome Bool × W
  evict_one now templates cached w =
      let (removed, w') = disk.remove_all cached.base_path w in
      if is_expired now templates cached
      then (elim removed [ err e ↦ (err e, w') | ok directory ↦ (ok true, w') ])
      else (ok false, w)

  -- The loop over the cache, from a disk on: the templates, what stays in the cache, the disk, and
  -- how the loop ends.
  unfoldable pub evict :
      ℕ
      → Map Bytes CachedEnvironment
      → Map Bytes EnvironmentTemplate
      → W
      → Map Bytes EnvironmentTemplate × Map Bytes CachedEnvironment × W × Outcome (Unit {0})
  unfolding evict_one
  evict now [] templates w = (templates, [], w, ok tt)
  evict now ((name, cached) ∷ envs) templates w =
      let known = touch_template cached.template_name templates in
      let (removed, w') = evict_one now templates cached w in
      let rest = evict now envs known w' in
      elim removed [
        | err e ↦ (known, (name, cached) ∷ envs, w', err e)
        | ok gone ↦ (rest.0, if gone then rest.1 else (name, cached) ∷ rest.1, rest.2, rest.3)
      ]

  -- One entry of the base directory.
  unfoldable pub remove_job_dir : Bytes × Outcome ℕ → W → Outcome (Unit {0}) × W
  remove_job_dir (filename, age) w =
      let (removed, w') = disk.remove_all (cache_base_dir ++ (codes "/" ++ filename)) w in
      if starts_with (codes "job_") filename
      then (elim age [
        | err e ↦ (err e, w)
        | ok hours ↦ if leb 1 hours then (removed, w') else (ok tt, w)
      ])
      else (ok tt, w)

  -- The loop over the entries of the base directory.
  unfoldable pub remove_job_dirs : List (Bytes × Outcome ℕ) → W → Outcome (Unit {0}) × W
  unfolding remove_job_dir
  remove_job_dirs [] w = (ok tt, w)
  remove_job_dirs (entry ∷ entries) w =
      let (removed, w') = remove_job_dir entry w in
      let rest = remove_job_dirs entries w' in
      elim removed [ err e ↦ (err e, w') | ok directory ↦ rest ]

  -- The second half, on the base directory.
  unfoldable pub remove_old_jobs : W → Outcome (Unit {0}) × W
  unfolding remove_job_dirs
  remove_old_jobs w =
      if disk.exists cache_base_dir w
      then (elim (disk.directory cache_base_dir w) [
        | err e ↦ (err e, w)
        | ok entries ↦ remove_job_dirs entries w
      ])
      else (ok tt, w)

  unfoldable pub cleanup_old_environments :
      ℕ → EnvironmentManager → W → EnvironmentManager × W × Outcome (Unit {0})
  unfolding evict remove_old_jobs
  cleanup_old_environments now m w =
      let (templates, kept, w', evicted) = evict now m.cached_envs m.templates w in
      let left = record m { templates = templates; cached_envs = kept } in
      let (removed, last) = remove_old_jobs w' in
      elim evicted [ err e ↦ (left, w', err e) | ok done ↦ (left, last, removed) ]

  -- `size_t` sums.
  abbrev pub total : List ℕ → ℕ
  total [] = 0
  total (n ∷ ns) = (n + total ns) % 2 ^ 64

  unfoldable pub get_directory_size : Bytes → W → ℕ
  get_directory_size path w = if disk.exists path w then total (disk.file_sizes path w) else 0

  -- The loop of `get_stats`: the uses, and the megabytes of each environment rounded down.
  unfoldable pub sum_stats : Map Bytes CachedEnvironment → W → ℕ × ℕ
  unfolding get_directory_size
  sum_stats [] w = (0, 0)
  sum_stats ((name, cached) ∷ envs) w =
      let (uses, megabytes) = sum_stats envs w in
      (
        (cached.use_count + uses) % 2 ^ 64,
        (get_directory_size cached.base_path w / (1024 * 1024) + megabytes) % 2 ^ 64,
      )

-- A size_t as an int.
abbrev pub to_int : ℕ → ℤ
to_int n = if ltb (n % 2 ^ 32) (2 ^ 31) then pos (n % 2 ^ 32) else negsuc (2 ^ 32 - 1 - n % 2 ^ 32)

pub record Stats : Type 0 where
  pub total_templates : ℤ
  pub cached_environments : ℤ
  pub total_uses : ℤ
  pub disk_usage_mb : ℕ

unfoldable pub get_stats : {W : Type 0} → Disk W → EnvironmentManager → W → Stats
unfolding sum_stats
get_stats disk m w =
    let (uses, megabytes) = sum_stats disk m.cached_envs w in
    record {
      total_templates = to_int (length m.templates);
      cached_environments = to_int (length m.cached_envs);
      total_uses = to_int uses;
      disk_usage_mb = megabytes;
    }

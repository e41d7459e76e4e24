-- ===== src/Environments.antt =====
-- src/environment_manager.h and src/environment_manager.cpp: templates of Python environments and
-- the cache of built ones. The mutex makes each method one step. Time is the steady clock in
-- nanoseconds; the file system and the shell are a parameter, with a type of disks that its calls
-- change. What is written to std::cout is left out.
pub mod BuiltIn
pub mod Prepare
pub mod Cleanup
pub mod Valid
pub mod Cache
pub mod Tests
use sandrun.Common.{
  Outcome, ok, err, ℕ, Bool, true, false, not, List, [], ◌∷◌, ◌++◌, Option, none, some, Bytes,
  codes, Map, lookup, insert, erase, bytes_key, length, map,
}
use sandrun.Common.Decimal.{ℤ}

pub record EnvironmentTemplate : Type 0 where
  pub name : Bytes
  pub base_image : Bytes
  pub packages : List Bytes
  pub setup_script : Bytes
  pub max_age_hours : ℕ
  pub gpu_enabled : Bool

-- The members' initial values.
abbrev pub default_template : EnvironmentTemplate
default_template = record {
  name = [];
  base_image = [];
  packages = [];
  setup_script = [];
  max_age_hours = 24;
  gpu_enabled = false;
}

pub record CachedEnvironment : Type 0 where
  pub template_name : Bytes
  pub base_path : Bytes
  pub created_at : ℕ
  pub last_used : ℕ
  pub use_count : ℕ
  pub ready : Bool

pub record EnvironmentManager : Type 0 where
  pub templates : Map Bytes EnvironmentTemplate
  pub cached_envs : Map Bytes CachedEnvironment

abbrev pub cache_base_dir : Bytes
cache_base_dir = codes "/tmp/sandrun_envs"

-- The calls of std::filesystem and of the C library that the class makes, on a disk. An exception
-- of theirs is an answer, beside the disk that it leaves.
pub record Disk (W : Type 0) : Type 0 where
  pub exists : Bytes → W → Bool
  pub create_directories : Bytes → W → Outcome (Unit {0}) × W
  pub write_file : Bytes → Bytes → W → W
  pub copy_file : Bytes → Bytes → W → W
  pub make_executable : Bytes → W → W
  pub remove_all : Bytes → W → Outcome (Unit {0}) × W
  pub system : Bytes → W → ℤ × W
  -- The names in a directory, each with the age of its last write in whole hours.
  pub directory : Bytes → W → Outcome (List (Bytes × Outcome ℕ))
  -- The sizes of the regular files below a directory.
  pub file_sizes : Bytes → W → List ℕ

unfoldable pub register_template : EnvironmentTemplate → EnvironmentManager → EnvironmentManager
register_template tmpl m = record m { templates = insert tmpl.name tmpl m.templates }

abbrev pub is_some {ℓ} : {A : Type ℓ} → Option A → Bool
is_some none = false
is_some (some a) = true

unfoldable pub has_template : Bytes → EnvironmentManager → Bool
has_template name m = is_some (lookup name m.templates)

abbrev pub keys {ℓ κ} : {K : Type ℓ} {V : Type κ} → Map K V → List K
keys [] = []
keys ((k, v) ∷ m) = k ∷ keys m

unfoldable pub list_templates : EnvironmentManager → List Bytes
list_templates m = keys m.templates

-- The next prepare_environment builds the template anew, if its directory can be removed.
unfoldable pub rebuild_template :
    {W : Type 0}
    → Disk W
    → Bytes
    → EnvironmentManager
    → W
    → EnvironmentManager × W × Outcome (Unit {0})
rebuild_template disk template_name m w = elim (lookup template_name m.cached_envs) [
  | none ↦ (m, w, ok tt)
  | some cached ↦ elim (disk.remove_all cached.base_path w).0 [
    | err e ↦ (m, (disk.remove_all cached.base_path w).1, err e)
    | ok removed ↦ (
      record m { cached_envs = erase template_name m.cached_envs },
      (disk.remove_all cached.base_path w).1,
      ok tt,
    )
  ]
]

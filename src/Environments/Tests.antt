-- ===== src/Environments/Tests.antt =====
-- The theorems on src/environment_manager.cpp at inputs. The disk of the examples is the list of the
-- commands that the shell ran, and each command succeeds.
use sandrun.Common.{
  ok, ◌&&◌, starts_with, true, List, [], ◌∷◌, ◌≡◌, refl, Bytes, codes, select, if◌then◌else◌,
  bytes_eq, lookup, insert, bytes_lt, bytes_key,
}
use sandrun.Common.Decimal.{pos}
use sandrun.Environments.{EnvironmentManager, Disk, is_some}
use sandrun.Environments.BuiltIn.{new_manager}
use sandrun.Environments.Prepare.{prepare_environment}
use sandrun.Environments.Cleanup.{cleanup_old_environments}
use sandrun.Environments.Valid.{
  IsValid, new_manager-IsValid, is_younger, cleanup_old_environments-select,
}
use sandrun.Environments.Cache.{
  prepares, rebuilds, cleans, run, uses, one_more, builds, makes, built_disk, is_ok,
  run-new_manager-IsValid, prepare_environment-uses,
}

abbrev pub shell : Disk (List Bytes)
shell = record {
  exists = λ path w. true;
  create_directories = λ path w. (ok tt, w);
  write_file = λ path text w. w;
  copy_file = λ source target w. w;
  make_executable = λ path w. w;
  remove_all = λ path w. (ok tt, w);
  system = λ command w. (pos 0, command ∷ w);
  directory = λ path w. ok ((codes "job_7_1", ok 2) ∷ []);
  file_sizes = λ path w. 2_000_000 ∷ [];
}

abbrev fresh : EnvironmentManager
fresh = (new_manager shell []).0

run-new_manager-IsValid_example :
    IsValid
      (run shell (new_manager shell []) (
        (1, prepares (codes "nlp") (codes "7_1"))
        ∷ (2, prepares (codes "nlp") (codes "7_2"))
        ∷ (3, rebuilds (codes "nlp"))
        ∷ (4, cleans)
        ∷ [])).0
run-new_manager-IsValid_example = run-new_manager-IsValid shell [] (
    (1, prepares (codes "nlp") (codes "7_1"))
    ∷ (2, prepares (codes "nlp") (codes "7_2"))
    ∷ (3, rebuilds (codes "nlp"))
    ∷ (4, cleans)
    ∷ [])

prepare_environment-uses_example :
    (uses (prepare_environment shell 5 (codes "nlp") (codes "7_1") fresh []).0 (codes "nlp") ≡ (
      if bytes_eq (codes "nlp") (codes "nlp")
      then one_more (builds shell (codes "nlp") fresh []) (uses fresh (codes "nlp"))
      else uses fresh (codes "nlp")))
    × (is_ok (prepare_environment shell 5 (codes "nlp") (codes "7_1") fresh []).2 ≡ (
        is_some (one_more (builds shell (codes "nlp") fresh []) (uses fresh (codes "nlp")))
        && makes shell (codes "7_1") (built_disk shell (codes "nlp") fresh [])))
prepare_environment-uses_example =
    prepare_environment-uses shell 5 (codes "nlp") (codes "7_1") (codes "nlp") fresh []
      (new_manager-IsValid shell [])

cleaned : (cleanup_old_environments shell 9 fresh []).2 ≡ ok tt
unfolding cleanup_old_environments new_manager starts_with
cleaned = refl

cleanup_old_environments-select_example :
    (cleanup_old_environments shell 9 fresh []).0 ≡ record fresh {
      cached_envs = select (λ entry. is_younger 9 fresh.templates entry.1) fresh.cached_envs;
    }
cleanup_old_environments-select_example =
    cleanup_old_environments-select shell 9 fresh [] (new_manager-IsValid shell []) cleaned

-- The shell runs pip once for two jobs, and copies twice.
commands_of_two_jobs :
    (run shell (new_manager shell []) (
      (1, prepares (codes "vision") (codes "a"))
      ∷ (2, prepares (codes "vision") (codes "b"))
      ∷ [])).1
    ≡ codes "cp -r /tmp/sandrun_envs/base_vision/* /tmp/sandrun_envs/job_b/ 2>/dev/null || true"
      ∷ codes "cp -r /tmp/sandrun_envs/base_vision/* /tmp/sandrun_envs/job_a/ 2>/dev/null || true"
      ∷ codes
          "pip3 install --target /tmp/sandrun_envs/base_vision/site-packages -r /tmp/sandrun_envs/base_vision/requirements.txt --quiet 2>&1 | tail -5"
      ∷ []
unfolding run prepare_environment lookup new_manager insert bytes_eq bytes_lt
commands_of_two_jobs = refl

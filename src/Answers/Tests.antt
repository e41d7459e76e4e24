-- ===== src/Answers/Tests.antt =====
-- The theorems on the answers of src/main.cpp at inputs.
use sandrun.Common.{
  ℕ, ◌/◌, true, List, [], ◌∷◌, ◌++◌, ◌≡◌, refl, some, Bytes, codes, leb, bytes_key, lookup,
  bytes_eq, ok,
}
use sandrun.Common.Decimal.{to_string}
use sandrun.Files.Sizes.{SizeDouble, format_file_size}
use sandrun.Http.Response.{HttpResponse}
use sandrun.Jobs.{Job, Server}
use sandrun.Jobs.Tests.{job, fresh, empty_disk}
use sandrun.Submit.{Storage}
use sandrun.Submit.Saved.{lacks}
use sandrun.Answers.{job_not_found}
use sandrun.Answers.Status.{handle_status, handle_logs}
use sandrun.Answers.Listing.{Removals, archive, handle_outputs, handle_download}
use sandrun.Answers.Routes.{Handlers}
use sandrun.Answers.Lookups.{handle_download-gone}

abbrev whole : SizeDouble ℕ
whole = record {
  of_bytes = λ n. n;
  at_least_1024 = leb 1024;
  by_1024 = λ n. n / 1024;
  to_fixed_1 = λ n. to_string n ++ codes ".0";
}

size_of_two_megabytes : format_file_size whole 2_097_152 ≡ codes "2.0 MB"
unfolding format_file_size to_string
size_of_two_megabytes = refl

abbrev logged : Job ℕ
logged = record job { stdout_log = codes "a\"\n"; stderr_log = codes "b" }

abbrev one_job : Server ℕ
one_job = record fresh { jobs = (codes "job_7_1", some logged) ∷ [] }

one_job_is_there : lookup (codes "job_7_1") one_job.jobs ≡ some (some logged)
unfolding lookup bytes_eq
one_job_is_there = refl

-- The disk is the list of the commands that ran.
abbrev shell : Storage (List Bytes)
shell = record {
  exists = λ path w. true;
  read_file = λ path w. codes "archive";
  create_directories = λ path w. w;
  write_file = λ path text w. w;
  remove_all = λ path w. codes "remove_all" ∷ w;
  system = λ command w. command ∷ w;
}

abbrev unlink : Removals (List Bytes)
unlink = record {
  remove = λ path w. (ok tt, codes "remove" ∷ w);
  remove_all = λ path w. (ok tt, codes "remove_all" ∷ w);
}

handle_download-gone_example :
    let download =
      handle_download shell unlink empty_disk
        (λ path. ok path)
        (λ path. [])
        (λ path. path)
        (codes "job_7_1") in
    (after : Server ℕ) × (last : List Bytes) × (resp : HttpResponse) × (download one_job []
      ≡ (after, last, ok resp))
    × (resp.body ≡ (archive shell unlink (codes "job_7_1") job.working_dir []).0)
    × (handle_status to_string (codes "job_7_1") after ≡ ok job_not_found)
    × (handle_logs (codes "job_7_1") after ≡ ok job_not_found)
    × (handle_outputs empty_disk (λ path dir. path) whole (codes "job_7_1") after
        ≡ ok job_not_found)
    × ((v : List Bytes) → download after v ≡ (after, v, ok job_not_found))
handle_download-gone_example =
    handle_download-gone empty_disk (λ path dir. path) whole to_string shell unlink
      (λ path. ok path) (λ path. []) (λ path. path) (codes "job_7_1") one_job [] logged
      (lacks 47 (codes "job_7_1") refl) one_job_is_there (λ path v. refl) (λ path v. refl)

abbrev numbered : Handlers ℕ
numbered = record {
  submit = 0;
  status = 1;
  logs = 2;
  outputs = 3;
  download = 4;
  info = 5;
  stats = 6;
  environments = 7;
  health = 8;
}

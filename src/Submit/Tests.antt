-- ===== src/Submit/Tests.antt =====
-- The theorems on POST /submit of src/main.cpp at inputs. The disk of the examples is a map from
-- paths to texts, and the shell does nothing.
use sandrun.Common.{
  ℕ, true, false, List, [], ◌∷◌, ◌++◌, ◌≡◌, refl, Bytes, codes, Map, lookup, insert, contains,
  bytes_key, bytes_eq, starts_with, is_empty, value_or, ok,
}
use sandrun.Common.Find.{find, find_from}
use sandrun.Common.Decimal.{to_string}
use sandrun.RateLimiter.{state_of, check_quota, jobs_since}
use sandrun.RateLimiter.Tests.{milliseconds, limits}
use sandrun.Http.Lines.{split_lines}
use sandrun.Http.Request.{HttpRequest}
use sandrun.Multipart.{parse, MultipartPart}
use sandrun.Jobs.{generate_job_id}
use sandrun.Jobs.Tests.{fresh}
use sandrun.Submit.{Storage}
use sandrun.Submit.Upload.{save_files}
use sandrun.Submit.Manifest.{configured, new_job}
use sandrun.Submit.Handler.{World, Clock, handle_submit}
use sandrun.Submit.Refused.{is_accepted, handle_submit-refuses}

abbrev pub files_by_path : Storage (Map Bytes Bytes)
files_by_path = record {
  exists = λ path w. contains path (paths w);
  read_file = λ path w. value_or [] (lookup path w);
  create_directories = λ path w. w;
  write_file = insert;
  remove_all = λ path w. [];
  system = λ command w. w;
}
  where
    paths : Map Bytes Bytes → List Bytes
    paths [] = []
    paths ((path, text) ∷ files) = path ∷ paths files

abbrev pub idle : World ℕ (Map Bytes Bytes)
idle = record { server = fresh; counter = 0; disk = [] }

abbrev pub clock : Clock
clock = record { seconds = 7; steady = 8 }

abbrev form : Bytes
form =
    codes "--ab\r\nContent-Disposition: form-data; name=\"files\"; filename=\"main.py\"\r\n\r\n"
    ++ codes "1\r\n--ab--\r\n"

abbrev pub request : HttpRequest
request = record {
  method = codes "POST";
  path = codes "/submit";
  headers = (codes "Content-Type", codes "multipart/form-data; boundary=ab") ∷ [];
  body = form;
  client_ip = codes "10.0.0.1";
}

abbrev pub part : MultipartPart
part = record {
  headers =
      (codes "Content-Disposition", codes "form-data; name=\"files\"; filename=\"main.py\"") ∷ [];
  name = codes "files";
  filename = codes "main.py";
  data_bytes = codes "1";
}

form_is_parsed : parse (codes "multipart/form-data; boundary=ab") form ≡ ok (part ∷ [])
unfolding parse find find_from starts_with split_lines insert bytes_eq
form_is_parsed = refl

pub quota_is_free :
    (check_quota milliseconds limits clock.steady request.client_ip
      idle.server.limiter).1.can_submit
    ≡ true
unfolding check_quota jobs_since lookup
quota_is_free = refl

pub form_is_read :
    parse (value_or [] (lookup (codes "Content-Type") request.headers)) request.body
    ≡ ok (part ∷ [])
unfolding lookup bytes_eq
form_is_read = form_is_parsed

pub entrypoint_is_found :
    let job = new_job {F = ℕ} 0 (generate_job_id 7 0).0 request.client_ip 8 in
    is_empty
      (configured files_by_path
        (part ∷ [])
        (save_files files_by_path job.working_dir (part ∷ []) []).0
        job).entrypoint
    ≡ false
unfolding configured save_files new_job generate_job_id bytes_eq contains find starts_with insert
    to_string
entrypoint_is_found = refl

nothing_is_uploaded :
    is_accepted
      (handle_submit milliseconds limits to_string
        (λ text. text)
        files_by_path
        clock
        (record request { body = [] })
        idle).1
    ≡ false
unfolding handle_submit check_quota lookup jobs_since parse find bytes_eq starts_with find_from
nothing_is_uploaded = refl

handle_submit-refuses_example :
    let after =
      (handle_submit milliseconds limits to_string
        (λ text. text)
        files_by_path
        clock
        (record request { body = [] })
        idle).0.server in
    (after.jobs ≡ [])
    × (after.job_queue ≡ [])
    × ((state_of (codes "10.0.0.1") after.limiter).active_jobs ≡ [])
unfolding lookup
handle_submit-refuses_example =
    handle_submit-refuses milliseconds limits to_string (λ text. text) files_by_path clock
      (record request { body = [] }) idle nothing_is_uploaded

-- ===== src/Submit/Configured.antt =====
-- What the manifests of src/main.cpp leave alone in a new job, and that its files are always saved.
use sandrun.Common.{
  List, [], ◌∷◌, ◌≡◌, refl, ◌∙◌, arith, Bytes, codes, bytes_key, inl, inr, Bool-cases, bytes_eq,
}
use sandrun.RateLimiter.{Double, Config}
use sandrun.Multipart.{MultipartPart}
use sandrun.Jobs.{Job, generate_job_id}
use sandrun.Submit.{Storage}
use sandrun.Submit.Upload.{save_files}
use sandrun.Submit.Saved.{save_files-none}
use sandrun.Submit.Manifest.{
  new_job, read_manifest, read_manifests, read_job_json, with_entrypoint, read_uploaded,
  default_entrypoint, configured,
}
use sandrun.Submit.Handler.{World, Clock, accept, create_job}

-- What the manifests leave alone.
abbrev pub IsSame : {F : Type 0} → Job F → Job F → Type 0
IsSame a b = (a.job_id ≡ b.job_id) × (a.client_ip ≡ b.client_ip) × (a.working_dir ≡ b.working_dir)

read_manifests-IsSame :
    {F : Type 0} (parts : List MultipartPart) (job : Job F) → IsSame (read_manifests parts job) job
unfolding read_manifests read_manifest
read_manifests-IsSame [] job = (refl, refl, refl)
read_manifests-IsSame (part ∷ parts) job =
    elim (Bool-cases (bytes_eq part.name (codes "manifest"))) [
      | inl e ↦
          rw (e, read_manifests) (read_manifests-IsSame parts (read_manifest part.data_bytes job))
      | inr e ↦ rw (e, read_manifests) (read_manifests-IsSame parts job)
    ]

module _ {F : Type 0} {W : Type 0} (disk : Storage W) (w : W) where
  read_uploaded-IsSame : (job : Job F) → IsSame (read_uploaded disk w job) job
  unfolding read_uploaded read_job_json
  read_uploaded-IsSame job = ground arith

  default_entrypoint-IsSame : (job : Job F) → IsSame (default_entrypoint disk w job) job
  unfolding default_entrypoint with_entrypoint
  default_entrypoint-IsSame job = ground arith

  pub configured-IsSame :
      (parts : List MultipartPart) (job : Job F) → IsSame (configured disk parts w job) job
  unfolding configured
  configured-IsSame parts job =
      let (a, b, c) = read_manifests-IsSame parts job in
      let (a', b', c') = read_uploaded-IsSame (read_manifests parts job) in
      let (a'', b'', c'') =
        default_entrypoint-IsSame (read_uploaded disk w (read_manifests parts job)) in
      (a'' ∙ a' ∙ a, b'' ∙ b' ∙ b, c'' ∙ c' ∙ c)

module _ {F : Type 0} {W : Type 0} (d : Double F) (config : Config F) (show : F → Bytes)
    (sha256_string : Bytes → Bytes) (disk : Storage W) where
  -- A new job in a world where its files are saved.
  abbrev pub named_job : Clock → Bytes → World F W → Job F
  named_job clock ip w = new_job d.zero (generate_job_id clock.seconds w.counter).0 ip clock.steady

  abbrev pub saved_world : Clock → Bytes → List MultipartPart → World F W → World F W
  saved_world clock ip parts w = record w {
    counter = (generate_job_id clock.seconds w.counter).1;
    disk = (save_files disk (named_job clock ip w).working_dir parts w.disk).0;
  }

  pub create_job-accept :
      (clock : Clock) (ip : Bytes) (parts : List MultipartPart) (w : World F W)
      → create_job d config show sha256_string disk clock ip parts w
        ≡ accept d config show sha256_string disk clock.steady parts
            (named_job clock ip w)
            (saved_world clock ip parts w)
  unfolding create_job
  create_job-accept clock ip parts w =
      rw (save_files-none disk (named_job clock ip w).working_dir parts w.disk, create_job) refl

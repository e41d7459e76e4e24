-- ===== src/WorkerIdentity/Tests.antt =====
-- The theorems on src/worker_identity.cpp at inputs. The keys of the examples are numbers, and a
-- signature is the sum of the key and the length of the text.
use mathlib.Core.Option.{some-injective}
use sandrun.Common.{
  ℕ, zero, suc, ◌+◌, true, false, ◌≡◌, refl, sym, ap, ◌∙◌, [], ◌∷◌, Option, none, some, inl, Bytes,
  codes, length, is_empty, bytes_eq, bytes_key, same_refl, lookup, insert, ok,
}
use sandrun.Common.Decimal.{pos}
use sandrun.Files.Directory.{hash_directory}
use sandrun.Jobs.{Job, Server}
use sandrun.Jobs.Executor.{Outside, execute_job}
use sandrun.Jobs.Rounds.{IsListable}
use sandrun.Jobs.Tests.{outside, job, fresh}
use sandrun.WorkerIdentity.{
  OpenSsl, WorkerIdentity, Files, get_worker_id, generate, save_to_file, sign, base64_encode,
}
use sandrun.WorkerIdentity.Signatures.{IsEd25519}
use sandrun.WorkerIdentity.Startup.{
  Arguments, default_arguments, parse_arguments, serves, start, start-start, keyfile_of,
  generate_keyfile,
}
use sandrun.WorkerIdentity.Results.{IsSigned, execute_job-IsSigned}

abbrev repeated : ℕ → ℕ → Bytes
repeated zero n = []
repeated (suc m) n = n ∷ repeated m n

abbrev first_of : Bytes → Option ℕ
first_of [] = none
first_of (n ∷ bytes) = some n

abbrev filled : Bytes → Option Bytes
filled [] = none
filled (n ∷ bytes) = some (n ∷ bytes)

abbrev toy : OpenSsl ℕ
toy = record {
  base64 = λ bytes. bytes;
  bio_read = filled;
  keygen = some 7;
  raw_public_key = λ k. some (repeated 32 k);
  raw_private_key = λ k. some (repeated 32 k);
  new_raw_public_key = first_of;
  new_raw_private_key = first_of;
  is_ed25519 = λ k. true;
  pem_read = first_of;
  pem_write = λ k. some (k ∷ []);
  inits_sign = λ k. true;
  inits_verify = λ k. true;
  digest_sign = λ k message. some (repeated 64 (k + length message));
  digest_verify = λ k signature message. bytes_eq signature (repeated 64 (k + length message));
}

filled_lem : (bytes : Bytes) → is_empty bytes ≡ false → filled bytes ≡ some bytes
filled_lem [] h = absurd (cc h)
filled_lem (n ∷ bytes) h = refl

toy-IsEd25519 : IsEd25519 toy
toy-IsEd25519 = record {
  bio_read-base64 = filled_lem;
  keygen-ed25519 = λ k e. refl;
  public-length = λ k public h e. ap length (sym (some-injective _ _ e));
  private-again = λ k private h e. ap first_of (sym (some-injective _ _ e));
  signature-length = λ k message signature h e. ap length (sym (some-injective _ _ e));
  verify-sign = λ k public message signature h e f. (
    k,
    ap first_of (sym (some-injective _ _ e)),
    refl,
    ap (λ s. bytes_eq s (repeated 64 (k + length message))) (sym (some-injective _ _ f))
        ∙ same_refl (repeated 64 (k + length message)),
  );
  pem_read-pem_write = λ k text e. ap first_of (sym (some-injective _ _ e));
}

abbrev no_files : Files
no_files = record { contents = []; opens = λ path. true }

abbrev worker : WorkerIdentity
worker = record { private_key = repeated 32 7; public_key = repeated 32 7 }

abbrev signing : Outside ℕ
signing = record outside { worker_identity = some (get_worker_id toy worker, sign toy worker) }

abbrev queued_job : Server ℕ
queued_job = record fresh { jobs = (codes "job_7_1", some job) ∷ [] }

listable : IsListable signing
listable dir patterns = ([], unfold hash_directory in refl)

execute_job-IsSigned_example :
    (after : Server ℕ × Job ℕ) × (execute_job signing (codes "job_7_1") queued_job ≡ ok after)
    × (lookup (codes "job_7_1") after.0.jobs ≡ some (some after.1))
    × IsSigned signing toy worker after.1
unfolding lookup bytes_eq
execute_job-IsSigned_example =
    execute_job-IsSigned signing toy worker toy-IsEd25519 no_files []
      (inl (unfold generate in refl)) refl (λ message. unfold sign base64_encode in refl) listable
      (codes "job_7_1") queued_job job refl

abbrev generating : Arguments
generating = record default_arguments { generate_key = true }

abbrev with_key : Arguments
with_key = record default_arguments { worker_key_file = codes "worker_key.pem" }

arguments_with_key :
    parse_arguments
      (λ digits. pos (length digits))
      (codes "--port" ∷ codes "80" ∷ codes "--worker-key" ∷ codes "worker_key.pem" ∷ [])
      default_arguments
    ≡ record with_key { port = pos 2 }
unfolding parse_arguments bytes_eq
arguments_with_key = refl

abbrev key_written : Files
key_written = record no_files { contents = (codes "worker_key.pem", 7 ∷ []) ∷ [] }

start-start_example :
    (identity : WorkerIdentity) × (generate toy ≡ some identity)
    × (start toy with_key key_written ≡ (serves (pos 8443) (some identity), key_written))
unfolding start generate_keyfile generate save_to_file insert
start-start_example =
    start-start toy generating with_key no_files key_written toy-IsEd25519 refl refl
      (unfold keyfile_of in refl) refl

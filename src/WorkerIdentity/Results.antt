-- ===== src/WorkerIdentity/Results.antt =====
-- Signed results: the executor of src/main.cpp with the worker's identity of
-- src/worker_identity.cpp.
use sandrun.Common.{
  true, false, ◌≡◌, refl, ◌⊎◌, Bytes, some, is_empty, lookup, insert, lookup-insert_self, bytes_key,
  ok,
}
use sandrun.Jobs.{Job, Server, deref}
use sandrun.Jobs.Executor.{Outside, sign_data, sign_job, finished, report, run_job, execute_job}
use sandrun.Jobs.Rounds.{IsListable}
use sandrun.WorkerIdentity.{
  OpenSsl, WorkerIdentity, Files, generate, from_keyfile, get_worker_id, sign, verify,
}
use sandrun.WorkerIdentity.Signatures.{IsEd25519, verify-sign}

module _ {F : Type 0} {Key : Type 0} (out : Outside F) (o : OpenSsl Key)
    (identity : WorkerIdentity) where
  -- A job whose signature verifies what it says of its result.
  abbrev pub IsSigned : Job F → Type 0
  IsSigned job = verify o (sign_data out job) job.result_signature job.worker_id ≡ true

  sign_job-IsSigned :
      out.worker_identity ≡ some (get_worker_id o identity, sign o identity)
      → (job : Job F)
      → verify o
          (sign_data out job)
          (sign o identity (sign_data out job))
          (get_worker_id o identity)
        ≡ true
      → IsSigned (sign_job out job)
  unfolding sign_job sign_data
  sign_job-IsSigned known job accepted = rw known accepted

  -- A job that the executor runs ends signed: verify accepts its signature under the worker's id
  -- for the data of the job that is kept. The executor has the worker's identity, which was
  -- generated or read from a file, OpenSSL signs and does as its manual says, and every working
  -- directory can be listed.
  pub execute_job-IsSigned :
      IsEd25519 o
      → (files : Files) (path : Bytes)
      → (generate o ≡ some identity) ⊎ (from_keyfile o files path ≡ some identity)
      → out.worker_identity ≡ some (get_worker_id o identity, sign o identity)
      → ((message : Bytes) → is_empty (sign o identity message) ≡ false)
      → IsListable out
      → (id : Bytes) (s : Server F) (job : Job F) → lookup id s.jobs ≡ some (some job)
      → (after : Server F × Job F) × (execute_job out id s ≡ ok after)
        × (lookup id after.0.jobs ≡ some (some after.1))
        × IsSigned after.1
  unfolding execute_job deref run_job report finished
  execute_job-IsSigned laws files path made known signs listable id s job e =
      let (files_out, listed) = listable job.working_dir job.outputs in
      let (ran, b) = report out id job s.broadcaster files_out in
      (
        (record s { jobs = insert id (some ran) s.jobs; broadcaster = b }, ran),
        rw (e, listed) refl,
        lookup-insert_self id (some ran) s.jobs,
        sign_job-IsSigned known _ (verify-sign o laws identity files path _ made (signs _)),
      )

-- ===== src/Proof/Tests.antt =====
-- The theorems on src/proof.cpp at inputs. The hash of the examples is the text itself.
use sandrun.Common.{ℕ, true, [], ◌∷◌, ◌≡◌, ◌≢◌, ◌⊎◌, Bytes, codes}
use sandrun.Common.Decimal.{pos}
use sandrun.Proof.{ProofGenerator, verify}
use sandrun.Proof.Verify.{own_proof, verify-generate_proof}

abbrev plain : Bytes → Bytes
plain text = text

abbrev one_call : ProofGenerator
one_call = record {
  current_trace = record {
    syscalls = record { number = pos 1; timestamp = 5; arg1 = 2; arg2 = 3 } ∷ [];
    file_operations = [];
    checkpoints = [];
  };
  current_job_id = codes "job_1";
  current_code_hash = [];
  recording = true;
}

verify-generate_proof_example :
    (verify plain (own_proof {F = ℕ} plain 0 4 9 64 (codes "out") one_call) one_call.current_trace
        ≡ true
      → (one_call.current_trace.syscalls ≡ [])
        ⊎ ((x : Bytes) × (y : Bytes) × (x ≢ y) × (plain x ≡ plain y)))
    × (one_call.current_trace.syscalls ≡ []
        → verify plain
            (own_proof {F = ℕ} plain 0 4 9 64 (codes "out") one_call)
            one_call.current_trace
          ≡ true)
verify-generate_proof_example = verify-generate_proof {F = ℕ} plain 0 4 9 64 (codes "out") one_call

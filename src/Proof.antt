-- ===== src/Proof.antt =====
-- src/proof.h and src/proof.cpp: execution traces and proofs of compute. SHA-256 (with its hex
-- digits), the clock, the formats of a double and of a time are parameters.
pub mod Json
pub mod Verify
pub mod Tests
use sandrun.Common.{
  ℕ, suc, ◌+◌, ◌-◌, Bool, true, false, ◌&&◌, List, [], ◌∷◌, ◌++◌, Bytes, codes, bytes_eq, ◌==◌,
  length, drop, if◌then◌else◌,
}
use sandrun.Common.Decimal.{ℤ, int_to_string, to_string}

pub record Syscall : Type 0 where
  pub number : ℤ
  pub timestamp : ℕ
  pub arg1 : ℕ
  pub arg2 : ℕ

pub record ExecutionTrace : Type 0 where
  pub syscalls : List Syscall
  pub file_operations : List Bytes
  pub checkpoints : List Bytes

abbrev pub empty_trace : ExecutionTrace
empty_trace = record { syscalls = []; file_operations = []; checkpoints = [] }

-- `now` is the steady clock.
pub record_syscall : ℕ → ℤ → ℕ → ℕ → ExecutionTrace → ExecutionTrace
record_syscall now number arg1 arg2 trace = record trace {
  syscalls =
      trace.syscalls ++ record { number = number; timestamp = now; arg1 = arg1; arg2 = arg2 } ∷ [];
}

pub record_file_op : Bytes → Bytes → ExecutionTrace → ExecutionTrace
record_file_op op path trace = record trace {
  file_operations = trace.file_operations ++ (op ++ b':' ∷ path) ∷ [];
}

-- The numbers behind commas.
recent_syscalls : List Syscall → Bytes
recent_syscalls [] = []
recent_syscalls (sc ∷ syscalls) = b',' ∷ (int_to_string sc.number ++ recent_syscalls syscalls)

-- `size > 100 ? size - 100 : 0` is `size - 100` on ℕ.
checkpoint_text : ExecutionTrace → Bytes
unfolding recent_syscalls
checkpoint_text trace =
    codes "syscalls:"
    ++ (to_string (length trace.syscalls)
        ++ (codes ",files:"
            ++ (to_string (length trace.file_operations)
                ++ recent_syscalls (drop (length trace.syscalls - 100) trace.syscalls))))

pub create_checkpoint : (Bytes → Bytes) → ExecutionTrace → ExecutionTrace × Bytes
unfolding checkpoint_text
create_checkpoint sha256 trace =
    let checkpoint_hash = sha256 (checkpoint_text trace) in
    (record trace { checkpoints = trace.checkpoints ++ checkpoint_hash ∷ [] }, checkpoint_hash)

pub clear : ExecutionTrace → ExecutionTrace
clear trace = empty_trace

pub record ProofOfCompute (F : Type 0) : Type 0 where
  pub job_id : Bytes
  pub code_hash : Bytes
  pub input_hash : Bytes
  pub output_hash : Bytes
  pub execution_hash : Bytes
  pub checkpoint_hashes : List Bytes
  pub cpu_time : F
  pub gpu_time : F
  pub memory_peak : ℕ
  pub syscall_count : ℕ
  pub timestamp : ℕ

-- `a == b` on std::vector<std::string>.
pub same_hashes : List Bytes → List Bytes → Bool
same_hashes [] [] = true
same_hashes [] (y ∷ ys) = false
same_hashes (x ∷ xs) [] = false
same_hashes (x ∷ xs) (y ∷ ys) = bytes_eq x y && same_hashes xs ys

-- What `verify` hashes of a trace.
pub verify_text : List Syscall → Bytes
verify_text [] = []
verify_text (sc ∷ syscalls) = int_to_string sc.number ++ b',' ∷ verify_text syscalls

-- What `generate_proof` hashes of a trace.
pub execution_text : List Syscall → Bytes
execution_text [] = []
execution_text (sc ∷ syscalls) =
    int_to_string sc.number
    ++ b',' ∷ (to_string sc.arg1 ++ b',' ∷ (to_string sc.arg2 ++ b';' ∷ execution_text syscalls))

pub verify : {F : Type 0} → (Bytes → Bytes) → ProofOfCompute F → ExecutionTrace → Bool
unfolding same_hashes verify_text
verify sha256 proof trace =
    if length trace.syscalls == proof.syscall_count
    then (if same_hashes trace.checkpoints proof.checkpoint_hashes
        then bytes_eq (sha256 (verify_text trace.syscalls)) proof.execution_hash
        else false)
    else false

-- ProofGenerator::Impl; the start time is never read.
pub record ProofGenerator : Type 0 where
  pub current_trace : ExecutionTrace
  pub current_job_id : Bytes
  pub current_code_hash : Bytes
  pub recording : Bool

pub start_recording : (Bytes → Bytes) → Bytes → Bytes → ProofGenerator → ProofGenerator
unfolding clear
start_recording sha256 job_id code g = record {
  current_trace = clear g.current_trace;
  current_job_id = job_id;
  current_code_hash = sha256 code;
  recording = true;
}

-- ProofGenerator::record_syscall.
pub observe : ℕ → ℤ → ℕ → ℕ → ProofGenerator → ProofGenerator
unfolding record_syscall
observe now number arg1 arg2 g =
    if g.recording
    then record g { current_trace = record_syscall now number arg1 arg2 g.current_trace }
    else g

pub checkpoint : (Bytes → Bytes) → ProofGenerator → ProofGenerator
unfolding create_checkpoint
checkpoint sha256 g =
    if g.recording
    then record g { current_trace = (create_checkpoint sha256 g.current_trace).0 }
    else g

-- `zero` is the double 0, and `now` the system clock.
pub generate_proof :
    {F : Type 0}
    → (Bytes → Bytes)
    → F
    → ℕ
    → Bytes
    → F
    → ℕ
    → ProofGenerator
    → ProofOfCompute F × ProofGenerator
unfolding execution_text
generate_proof sha256 zero now output cpu_time memory_peak g = (
  record {
    job_id = g.current_job_id;
    code_hash = g.current_code_hash;
    input_hash = [];
    output_hash = sha256 output;
    execution_hash = sha256 (execution_text g.current_trace.syscalls);
    checkpoint_hashes = g.current_trace.checkpoints;
    cpu_time = cpu_time;
    gpu_time = zero;
    memory_peak = memory_peak;
    syscall_count = length g.current_trace.syscalls;
    timestamp = now;
  },
  record g { recording = false },
)

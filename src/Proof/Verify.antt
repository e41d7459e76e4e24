-- ===== src/Proof/Verify.antt =====
-- When `verify` of src/proof.cpp accepts the proof that `generate_proof` made.
use sandrun.Common.{
  ℕ, suc, ◌+◌, true, List, [], ◌∷◌, ◌++◌, ◌≡◌, ◌≢◌, ◌⊎◌, inl, inr, refl, sym, ◌∙◌, arith, Bytes,
  bytes_eq, bytes_eq_refl, bytes_eq_sound, ==_iff, length, All-append, length-append,
}
use mathlib.Core.Path.{subst}
use sandrun.Common.Find.{Lacks}
use sandrun.Common.Decimal.{ℤ, pos, negsuc, int_to_string, to_string, to_string-Lacks}
use sandrun.Proof.{
  Syscall, ProofOfCompute, ProofGenerator, verify, verify_text, execution_text, generate_proof,
  same_hashes, start_recording, observe, record_syscall,
}

semicolon_free : (n : ℕ) → Lacks b';' (to_string n)
semicolon_free n = to_string-Lacks b';' n (inr (omega arith))

minus_free : ◌≢◌ {A = ℕ} b'-' b';'
minus_free e = absurd (omega arith)

comma_free : ◌≢◌ {A = ℕ} b',' b';'
comma_free e = absurd (omega arith)

int_to_string-Lacks : (z : ℤ) → Lacks b';' (int_to_string z)
unfolding int_to_string
int_to_string-Lacks (pos n) = semicolon_free n
int_to_string-Lacks (negsuc n) = (minus_free, semicolon_free (suc n))

verify_text-Lacks : (syscalls : List Syscall) → Lacks b';' (verify_text syscalls)
unfolding verify_text
verify_text-Lacks [] = tt
verify_text-Lacks (sc ∷ syscalls) =
    All-append _ (int_to_string sc.number) _ (int_to_string-Lacks sc.number)
      (comma_free, verify_text-Lacks syscalls)

Lacks-behind : (b : ℕ) (xs ys : Bytes) → Lacks b (xs ++ ys) → Lacks b ys
Lacks-behind b [] ys h = h
Lacks-behind b (x ∷ xs) ys h = Lacks-behind b xs ys h.1

-- The two texts of a trace with a system call are not the same.
texts_differ :
    (sc : Syscall) (syscalls : List Syscall)
    → verify_text (sc ∷ syscalls) ≢ execution_text (sc ∷ syscalls)
unfolding execution_text
texts_differ sc syscalls e =
    let whole = subst (Lacks b';') e (verify_text-Lacks (sc ∷ syscalls)) in
    let args = (Lacks-behind b';' (int_to_string sc.number) _ whole).1 in
    let last = (Lacks-behind b';' (to_string sc.arg1) _ args).1 in
    (Lacks-behind b';' (to_string sc.arg2) _ last).0 refl

same_hashes_refl : (hashes : List Bytes) → same_hashes hashes hashes ≡ true
unfolding same_hashes
same_hashes_refl [] = refl
same_hashes_refl (hash ∷ hashes) = ground (arith, bytes_eq_refl hash, same_hashes_refl hashes)

module _ {F : Type 0} (sha256 : Bytes → Bytes) (zero cpu_time : F) (now memory_peak : ℕ)
    (output : Bytes) (g : ProofGenerator) where
  abbrev pub own_proof : ProofOfCompute F
  own_proof = (generate_proof sha256 zero now output cpu_time memory_peak g).0

  verify_own :
      verify sha256 own_proof g.current_trace
      ≡ bytes_eq
          (sha256 (verify_text g.current_trace.syscalls))
          (sha256 (execution_text g.current_trace.syscalls))
  unfolding verify generate_proof
  verify_own = ground (
    arith,
    (==_iff (length g.current_trace.syscalls) (length g.current_trace.syscalls)).1 refl,
    same_hashes_refl g.current_trace.checkpoints,
  )

  -- The generator's own proof is accepted for its own trace exactly when the hashes of two texts
  -- agree, and these are different texts as soon as the trace has a system call; so `verify` then
  -- accepts only at a collision of the hash. An empty trace is accepted.
  pub verify-generate_proof :
      (verify sha256 own_proof g.current_trace ≡ true
        → (g.current_trace.syscalls ≡ [])
          ⊎ ((x : Bytes) × (y : Bytes) × (x ≢ y) × (sha256 x ≡ sha256 y)))
      × (g.current_trace.syscalls ≡ [] → verify sha256 own_proof g.current_trace ≡ true)
  verify-generate_proof = (accepted g.current_trace.syscalls refl, empty)
    where
      accepted :
          (syscalls : List Syscall)
          → g.current_trace.syscalls ≡ syscalls
          → verify sha256 own_proof g.current_trace ≡ true
          → (g.current_trace.syscalls ≡ [])
            ⊎ ((x : Bytes) × (y : Bytes) × (x ≢ y) × (sha256 x ≡ sha256 y))
      accepted [] e h = inl e
      accepted (sc ∷ syscalls) e h = inr (
        verify_text (sc ∷ syscalls),
        execution_text (sc ∷ syscalls),
        texts_differ sc syscalls,
        bytes_eq_sound _ _ (
            subst (λ s. bytes_eq (sha256 (verify_text s)) (sha256 (execution_text s)) ≡ true) e
              (sym verify_own ∙ h)),
      )

      empty : g.current_trace.syscalls ≡ [] → verify sha256 own_proof g.current_trace ≡ true
      empty e =
          verify_own
          ∙ subst (λ s. bytes_eq (sha256 (verify_text s)) (sha256 (execution_text s)) ≡ true)
              (sym e) (unfold verify_text execution_text in bytes_eq_refl (sha256 []))

-- One observed system call: the time, the number and the arguments.
abbrev pub Observed : Type 0
Observed = ℕ × ℤ × ℕ × ℕ

pub observe_all : List Observed → ProofGenerator → ProofGenerator
observe_all [] g = g
observe_all ((now, number, arg1, arg2) ∷ calls) g =
    observe_all calls (observe now number arg1 arg2 g)

observe-recording :
    (now : ℕ) (number : ℤ) (arg1 arg2 : ℕ) (g : ProofGenerator)
    → (observe now number arg1 arg2 g).recording ≡ g.recording
unfolding observe
observe-recording now number arg1 arg2 g = ground arith

observe_all-length :
    (calls : List Observed) (g : ProofGenerator)
    → g.recording ≡ true
    → length (observe_all calls g).current_trace.syscalls
      ≡ length g.current_trace.syscalls + length calls
unfolding observe_all observe record_syscall
observe_all-length [] g on = omega arith
observe_all-length ((now, number, arg1, arg2) ∷ calls) g on =
    let sc : Syscall = record { number = number; timestamp = now; arg1 = arg1; arg2 = arg2 } in
    ground (
      arith,
      observe_all-length calls (observe now number arg1 arg2 g)
          (observe-recording now number arg1 arg2 g ∙ on),
      length-append g.current_trace.syscalls (sc ∷ []),
    )

-- A proof counts exactly the system calls that were observed since the recording started, whatever
-- the generator had recorded before.
generate_proof-syscall_count :
    {F : Type 0} (sha256 : Bytes → Bytes) (zero cpu_time : F) (now memory_peak : ℕ)
    (output job_id code : Bytes) (calls : List Observed) (g : ProofGenerator)
    → (generate_proof sha256 zero now output cpu_time memory_peak
        (observe_all calls (start_recording sha256 job_id code g))).0.syscall_count
      ≡ length calls
unfolding generate_proof start_recording
generate_proof-syscall_count sha256 zero cpu_time now memory_peak output job_id code calls g =
    omega (arith, observe_all-length calls (start_recording sha256 job_id code g) refl)

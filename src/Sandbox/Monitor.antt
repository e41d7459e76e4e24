-- ===== src/Sandbox/Monitor.antt =====
-- The loop of `execute` in src/sandbox.cpp that waits for the child. A poll is what one round of the
-- loop meets; the loop has as much fuel as there are polls.
use sandrun.Common.{
  ℕ, List, [], ◌∷◌, ◌++◌, Option, none, some, Bytes, codes, ltb, if◌then◌else◌, length, Outcome, ok,
  err, diverges, ◌≡◌, refl, ◌⊎◌, inl, inr,
}
use sandrun.Sandbox.{max_output_size}
use sandrun.Sandbox.Pipe.{read_pipe_nonblocking}

-- What waitpid wrote into `status`.
pub data WaitStatus : Type 0 where
  exited : ℕ → WaitStatus
  signaled : WaitStatus

-- What `waitpid(pid, &status, WNOHANG)` answers: the child, 0 or -1.
pub data Wait : Type 0 where
  child_ended : WaitStatus → Wait
  still_running : Wait
  wait_error : Wait

pub Wait-cases :
    (w : Wait) → ((s : WaitStatus) × (w ≡ child_ended s)) ⊎ ((w ≡ still_running) ⊎ (w ≡ wait_error))
Wait-cases (child_ended s) = inl (s, refl)
Wait-cases still_running = inr (inl refl)
Wait-cases wait_error = inr (inr refl)

pub record Poll : Type 0 where
  pub out : List Bytes
  pub errors : List Bytes
  pub waited : Wait
  -- What the last reads find, where the child has child_ended.
  pub last_out : List Bytes
  pub last_errors : List Bytes
  pub now : ℕ
  -- What the waitpid behind a kill writes into `status`, if it succeeds.
  pub killed : Option WaitStatus

-- The buffers and `status` behind the loop.
pub record Watched : Type 0 where
  pub stdout_buffer : Bytes
  pub stderr_buffer : Bytes
  pub status : Option WaitStatus

-- A note at the end of a buffer that is below the limit.
unfoldable pub append_note : Bytes → Bytes → Bytes
append_note note buffer = if ltb (length buffer) max_output_size then buffer ++ note else buffer

-- The child has child_ended: its last output is read.
abbrev pub ended_with : Poll → WaitStatus → Bytes → Bytes → Watched
ended_with p status out errors = record {
  stdout_buffer = read_pipe_nonblocking p.last_out out;
  stderr_buffer = read_pipe_nonblocking p.last_errors errors;
  status = some status;
}

abbrev pub failed_wait : Bytes → Bytes → Watched
failed_wait out errors = record {
  stdout_buffer = out;
  stderr_buffer = append_note (codes "\nwaitpid error") errors;
  status = none;
}

-- The process group is killed, and waited for.
abbrev pub timed_out : Poll → Bytes → Bytes → Watched
timed_out p out errors = record {
  stdout_buffer = out;
  stderr_buffer = append_note (codes "\nKilled: timeout") errors;
  status = p.killed;
}

-- A round behind its reads. `rest` is what the next rounds lead to.
unfoldable pub after_reads : ℕ → Poll → Bytes → Bytes → Outcome Watched → Outcome Watched
after_reads deadline p out errors rest = elim p.waited [
  | child_ended status ↦ ok (ended_with p status out errors)
  | wait_error ↦ ok (failed_wait out errors)
  | still_running ↦ if ltb deadline p.now then ok (timed_out p out errors) else rest
]

unfoldable pub monitor : ℕ → List Poll → Bytes → Bytes → Outcome Watched
unfolding after_reads
monitor deadline [] out errors = err diverges
monitor deadline (p ∷ polls) out errors =
    let out' = read_pipe_nonblocking p.out out in
    let errors' = read_pipe_nonblocking p.errors errors in
    after_reads deadline p out' errors' (monitor deadline polls out' errors')

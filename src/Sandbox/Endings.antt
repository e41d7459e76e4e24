-- ===== src/Sandbox/Endings.antt =====
-- When the loop of src/sandbox.cpp loses output, when it keeps it, and that it ends.
use sandrun.Common.{
  ℕ, ◌+◌, ◌≤◌, true, false, List, [], ◌∷◌, ◌++◌, ◌≡◌, refl, sym, ◌∙◌, arith, Bytes, ltb, length,
  length-append, any, append_assoc, append-nil, Bool-cases, inl, inr, Outcome, ok,
}
use sandrun.Sandbox.Pipe.{effective_limit, read_chunks, read_pipe_nonblocking}
use sandrun.Sandbox.Monitor.{
  Poll, Watched, Wait-cases, ended_with, failed_wait, timed_out, after_reads, monitor,
}
use sandrun.Sandbox.Output.{is_truncated}

after_reads-truncated :
    (deadline : ℕ) (p : Poll) (out errors : Bytes) (rest : Outcome Watched) (w : Watched)
    → is_truncated out ≡ true
    → (rest ≡ ok w → w.stdout_buffer ≡ out)
    → after_reads deadline p out errors rest ≡ ok w
    → w.stdout_buffer ≡ out
unfolding after_reads read_pipe_nonblocking
after_reads-truncated deadline p out errors rest w cut more e = elim (Wait-cases p.waited) [
  | inl (status, f) ↦ ground arith
  | inr (inr f) ↦ ground arith
  | inr (inl f) ↦ elim (Bool-cases (ltb deadline p.now)) [
    | inl late ↦ ground arith
    | inr early ↦ more (rw (f, early, after_reads) at e)
  ]
]

-- Once the kept standard output has the word `truncated` in it, all that the child writes after it
-- is lost: what the loop returns is the output so far.
pub monitor-truncated :
    (deadline : ℕ) (polls : List Poll) (out errors : Bytes) (w : Watched)
    → is_truncated out ≡ true
    → monitor deadline polls out errors ≡ ok w
    → w.stdout_buffer ≡ out
unfolding monitor
monitor-truncated deadline [] out errors w cut e = cc
monitor-truncated deadline (p ∷ polls) out errors w cut e =
    let same : read_pipe_nonblocking p.out out ≡ out =
      unfold read_pipe_nonblocking in rw cut refl in
    let e' = rw same at e in
    after_reads-truncated deadline p out _ _ w cut (monitor-truncated deadline polls out _ w cut) e'

after_reads-ends :
    (deadline : ℕ) (p : Poll) (out errors : Bytes) (rest : Outcome Watched)
    → (ltb deadline p.now ≡ false → (w : Watched) × (rest ≡ ok w))
    → (w : Watched) × (after_reads deadline p out errors rest ≡ ok w)
unfolding after_reads
after_reads-ends deadline p out errors rest more = elim (Wait-cases p.waited) [
  | inl (status, f) ↦ (ended_with p status out errors, rw (f, after_reads) refl)
  | inr (inr f) ↦ (failed_wait out errors, rw (f, after_reads) refl)
  | inr (inl f) ↦ elim (Bool-cases (ltb deadline p.now)) [
    | inl late ↦ (timed_out p out errors, rw (f, late, after_reads) refl)
    | inr early ↦ rw (f, early, after_reads) (more early)
  ]
]

-- The loop ends: it returns as soon as one of the polls comes after the deadline, at the latest.
pub monitor-ends :
    (deadline : ℕ) (polls : List Poll) (out errors : Bytes)
    → any (λ p. ltb deadline p.now) polls ≡ true
    → (w : Watched) × (monitor deadline polls out errors ≡ ok w)
unfolding monitor
monitor-ends deadline [] out errors late = absurd (cc (late))
monitor-ends deadline (p ∷ polls) out errors late =
    after_reads-ends deadline p _ _ _
      (λ early. monitor-ends deadline polls _ _ (ground (arith, early)))

pub concat_chunks : List Bytes → Bytes
concat_chunks [] = []
concat_chunks (chunk ∷ chunks) = chunk ++ concat_chunks chunks

read_chunks-concat :
    (chunks : List Bytes) (buffer : Bytes)
    → length buffer + length (concat_chunks chunks) ≤ effective_limit
    → read_chunks chunks buffer ≡ buffer ++ concat_chunks chunks
unfolding read_chunks concat_chunks
read_chunks-concat [] buffer h = sym (append-nil buffer)
read_chunks-concat (chunk ∷ chunks) buffer h =
    let len : length (chunk ++ concat_chunks chunks)
        ≡ length chunk + length (concat_chunks chunks) =
      length-append chunk (concat_chunks chunks) in
    let room : ltb effective_limit (length buffer + length chunk) ≡ false = ground (arith, len) in
    rw room (
      read_chunks-concat chunks (buffer ++ chunk) (omega (arith, len, length-append buffer chunk))
      ∙ append_assoc buffer chunk (concat_chunks chunks))

-- Output that fits and does not have the word `truncated` in front is kept as it is.
pub read_pipe_nonblocking-concat :
    (chunks : List Bytes) (buffer : Bytes)
    → is_truncated buffer ≡ false
    → length buffer + length (concat_chunks chunks) ≤ effective_limit
    → read_pipe_nonblocking chunks buffer ≡ buffer ++ concat_chunks chunks
unfolding read_pipe_nonblocking
read_pipe_nonblocking-concat chunks buffer whole room =
    rw whole (read_chunks-concat chunks buffer room)

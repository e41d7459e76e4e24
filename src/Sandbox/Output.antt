-- ===== src/Sandbox/Output.antt =====
-- How much output the loop of src/sandbox.cpp keeps.
use sandrun.Common.{
  ℕ, ◌+◌, ◌-◌, ◌≤◌, ◌<◌, Bool, true, List, [], ◌∷◌, ◌++◌, ◌≡◌, refl, sym, ap, ◌∙◌, arith, Bytes,
  codes, ltb, length, Option-cases, ◌⊎◌, starts_with, starts_with_self, length-append, length-take,
  take, append_assoc, Bool-cases, inl, inr, Outcome, ok,
}
use sandrun.Common.Find.{find, is_found}
use sandrun.Sandbox.{max_output_size}
use sandrun.Sandbox.Pipe.{truncation_msg, effective_limit, read_chunks, read_pipe_nonblocking}
use sandrun.Sandbox.Monitor.{Poll, Watched, Wait-cases, append_note, after_reads, monitor}

limit-value : effective_limit ≡ 10_485_726
unfolding effective_limit
limit-value = refl

message-length : length truncation_msg ≡ 33
message-length = refl

-- A text is found where it stands, be it there for the first time or not.
find-inside : (p x rest : Bytes) → is_found (find p (x ++ (p ++ rest))) ≡ true
unfolding find
find-inside [] [] [] = unfold starts_with in refl
find-inside [] [] (c ∷ rest) = unfold starts_with in refl
find-inside (d ∷ p) [] rest = rw (starts_with_self (d ∷ p) rest) refl
find-inside p (c ∷ x) rest = elim (Bool-cases (starts_with p (c ∷ (x ++ (p ++ rest))))) [
  | inl here ↦ rw here refl
  | inr later ↦ elim (Option-cases (find p (x ++ (p ++ rest)))) [
    | inl e ↦ absurd (cc (find-inside p x rest, e))
    | inr (i, e) ↦ rw (later, e) refl
  ]
]

message-parts :
    truncation_msg ≡ codes "\n[Output " ++ (codes "truncated" ++ codes " at 10MB limit]")
message-parts = refl

cut-IsTruncated : (x : Bytes) → is_found (find (codes "truncated") (x ++ truncation_msg)) ≡ true
cut-IsTruncated x =
    ap (λ s. is_found (find (codes "truncated") s))
      (sym (append_assoc x (codes "\n[Output ") (codes "truncated" ++ codes " at 10MB limit]")))
    ∙ find-inside (codes "truncated") (x ++ codes "\n[Output ") (codes " at 10MB limit]")

-- The word `truncated` stands in a buffer.
abbrev pub is_truncated : Bytes → Bool
is_truncated buffer = is_found (find (codes "truncated") buffer)

-- A buffer is below the limit with room for the message, or is cut and below the limit.
abbrev Fits : Bytes → Type 0
Fits buffer =
    (length buffer ≤ effective_limit)
    ⊎ ((length buffer < max_output_size) × (is_truncated buffer ≡ true))

cut-bound :
    (buffer chunk : Bytes)
    → length buffer ≤ effective_limit
    → length ((buffer ++ take (effective_limit - length buffer) chunk) ++ truncation_msg)
      < max_output_size
cut-bound buffer chunk h = omega (
  arith,
  limit-value,
  message-length,
  length-append (buffer ++ take (effective_limit - length buffer) chunk) truncation_msg,
  length-append buffer (take (effective_limit - length buffer) chunk),
  length-take (effective_limit - length buffer) chunk,
)

read_chunks-Fits :
    (chunks : List Bytes) (buffer : Bytes)
    → length buffer ≤ effective_limit
    → Fits (read_chunks chunks buffer)
unfolding read_chunks
read_chunks-Fits [] buffer h = inl h
read_chunks-Fits (chunk ∷ chunks) buffer h =
    elim (Bool-cases (ltb effective_limit (length buffer + length chunk))) [
      | inl full ↦ rw full (
          inr (
            cut-bound buffer chunk h,
            cut-IsTruncated (buffer ++ take (effective_limit - length buffer) chunk),
          ))
      | inr room ↦
          rw room
            (read_chunks-Fits chunks (buffer ++ chunk) (ground (arith, length-append buffer chunk)))
    ]

read_pipe_nonblocking-Fits :
    (chunks : List Bytes) (buffer : Bytes)
    → Fits buffer
    → Fits (read_pipe_nonblocking chunks buffer)
unfolding read_pipe_nonblocking
read_pipe_nonblocking-Fits chunks buffer h = elim (Bool-cases (is_truncated buffer)) [
  | inl cut ↦ rw cut h
  | inr whole ↦ rw whole (
      read_chunks-Fits chunks buffer
        (elim h [ inl room ↦ room | inr (small, cut) ↦ absurd (cc (cut, whole)) ]))
]

Fits-bound : (buffer : Bytes) → Fits buffer → length buffer < max_output_size
Fits-bound buffer (inl room) = omega (arith, limit-value)
Fits-bound buffer (inr (small, cut)) = small

append_note-bound :
    (note buffer : Bytes)
    → length buffer < max_output_size
    → length (append_note note buffer) < max_output_size + length note
unfolding append_note
append_note-bound note buffer h = ground (arith, length-append buffer note)

abbrev IsBounded : Watched → Type 0
IsBounded w =
    (length w.stdout_buffer < max_output_size) × (length w.stderr_buffer < max_output_size + 16)

IsBounded-eq : (w v : Watched) → ok w ≡ ok v → IsBounded w → IsBounded v
IsBounded-eq w v e h = ground arith

after_reads-bound :
    (deadline : ℕ) (p : Poll) (out errors : Bytes) (rest : Outcome Watched) (w : Watched)
    → Fits out
    → Fits errors
    → (rest ≡ ok w → IsBounded w)
    → after_reads deadline p out errors rest ≡ ok w
    → IsBounded w
unfolding after_reads
after_reads-bound deadline p out errors rest w ho he more e = elim (Wait-cases p.waited) [
  | inl (status, f) ↦ IsBounded-eq _ w (rw (f, after_reads) at e) (
    Fits-bound _ (read_pipe_nonblocking-Fits p.last_out out ho),
    omega (arith, Fits-bound _ (read_pipe_nonblocking-Fits p.last_errors errors he)),
  )
  | inr (inr f) ↦ IsBounded-eq _ w (rw (f, after_reads) at e) (
    Fits-bound out ho,
    omega (arith, append_note-bound (codes "\nwaitpid error") errors (Fits-bound errors he)),
  )
  | inr (inl f) ↦ elim (Bool-cases (ltb deadline p.now)) [
    | inl late ↦ IsBounded-eq _ w (rw (f, late, after_reads) at e) (
      Fits-bound out ho,
      append_note-bound (codes "\nKilled: timeout") errors (Fits-bound errors he),
    )
    | inr early ↦ more (rw (f, early, after_reads) at e)
  ]
]

-- What the loop keeps of the standard output is shorter than the limit, and of the standard error
-- shorter than the limit and a note of sixteen bytes, whatever the child writes.
pub monitor-bound :
    (deadline : ℕ) (polls : List Poll) (out errors : Bytes) (w : Watched)
    → Fits out
    → Fits errors
    → monitor deadline polls out errors ≡ ok w
    → IsBounded w
unfolding monitor
monitor-bound deadline [] out errors w ho he e = cc
monitor-bound deadline (p ∷ polls) out errors w ho he e =
    let ho' = read_pipe_nonblocking-Fits p.out out ho in
    let he' = read_pipe_nonblocking-Fits p.errors errors he in
    after_reads-bound deadline p _ _ _ w ho' he' (monitor-bound deadline polls _ _ w ho' he') e

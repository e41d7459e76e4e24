-- ===== src/Streams/Ends.antt =====
-- How a stream of src/main.cpp ends.
use sandrun.Common.{
  ◌||◌, err, Outcome-cases, ℕ, Bool, true, false, ◌&&◌, List, [], ◌∷◌, ◌++◌, ◌≡◌, refl, arith,
  Bytes, lookup, contains, bytes_key, nat_key, ok, inl, inr, Bool-cases,
}
use sandrun.WebSocket.Broadcaster.{
  Broadcaster, subscribe, unsubscribe, unsubscribe-contains, members, get_accumulated_output,
}
use sandrun.Jobs.{Server, deref}
use sandrun.Jobs.Pointers.{all_present, lookup-cases}
use sandrun.WebSocket.Frame.{Socket, read_frame}
use sandrun.Streams.{
  is_close, left_of, Sent, is_done, text_if_any, done_frame, not_found, wait, final_frames,
  status_frame, follow, handle_stream,
}

unsubscribe-lacks :
    (job_id : Bytes) (fd : ℕ) (b : Broadcaster)
    → contains fd (members job_id (unsubscribe job_id fd b)) ≡ false
unsubscribe-lacks job_id fd b = ground (arith, unsubscribe-contains job_id fd fd b)

module _ {F : Type 0} (fits : ℕ → Bool) where
  -- No pointer is null in any round.
  abbrev pub are_present : List (Server F) → Bool
  are_present [] = true
  are_present (s ∷ rounds) = all_present s.jobs && are_present rounds

  -- The client closes, or is gone, within the rounds, and each frame before can be stored.
  abbrev pub is_closed : Socket → List (Server F) → Bool
  is_closed socket [] = false
  is_closed socket (s ∷ rounds) = elim (read_frame fits socket) [
    | err e ↦ false
    | ok received ↦ is_close received || is_closed (left_of received) rounds
  ]

  wait-ends :
      (job_id : Bytes) (socket : Socket) (rounds : List (Server F))
      → are_present rounds ≡ true
      → is_closed socket rounds ≡ true
      → (last : Broadcaster × List Sent) × (wait fits job_id socket rounds ≡ ok last)
  unfolding wait deref
  wait-ends job_id socket [] here closed = absurd (cc closed)
  wait-ends job_id socket (s ∷ rounds) here closed = elim (Outcome-cases (read_frame fits socket)) [
    | inr (x, thrown) ↦ absurd (cc (rw (thrown, is_closed) at closed))
    | inl (received, read) ↦ elim (Bool-cases (is_close received)) [
      | inl last ↦ ((s.broadcaster, []), rw (read, last, wait) refl)
      | inr more ↦
          let later : is_closed (left_of received) rounds ≡ true =
            ground (arith, more, rw (read, is_closed) at closed) in
          let rest = wait-ends job_id (left_of received) rounds (ground arith) later in
          elim (lookup-cases job_id s.jobs (ground arith)) [
            | inl e ↦ (rest.0, rw (read, more, e, wait) rest.1)
            | inr (job, e) ↦ elim (Bool-cases (is_done job.status)) [
              | inl f ↦
                  ((s.broadcaster, done_frame fits job ∷ []), rw (read, more, e, f, wait) refl)
              | inr f ↦ (rest.0, rw (read, more, e, f, wait) rest.1)
            ]
          ]
    ]
  ]

  follow-ends :
      (job_id : Bytes) (client_fd : ℕ) (b : Broadcaster) (s : Server F) (socket : Socket)
      (rounds : List (Server F))
      → all_present s.jobs ≡ true
      → are_present rounds ≡ true
      → is_closed socket rounds ≡ true
      → (after : Broadcaster × List Sent) × (follow fits job_id client_fd b
            (lookup job_id s.jobs)
            socket
            rounds
          ≡ ok after)
        × (contains client_fd (members job_id after.0) ≡ false)
  unfolding follow deref
  follow-ends job_id client_fd b s socket rounds here later closed =
      let (last, waits) = wait-ends job_id socket rounds later closed in
      elim (lookup-cases job_id s.jobs here) [
        | inl e ↦ (
          (unsubscribe job_id client_fd b, not_found job_id),
          rw e refl,
          unsubscribe-lacks job_id client_fd b,
        )
        | inr (job, e) ↦ elim (Bool-cases (is_done job.status)) [
          | inl f ↦ (
            (unsubscribe job_id client_fd b, status_frame fits job ∷ final_frames fits job),
            rw (e, f, follow) refl,
            unsubscribe-lacks job_id client_fd b,
          )
          | inr f ↦ (
            (unsubscribe job_id client_fd last.0, status_frame fits job ∷ last.1),
            rw (e, f, waits, follow) refl,
            unsubscribe-lacks job_id client_fd last.0,
          )
        ]
      ]

  -- A stream ends, at the latest when its client closes or is gone, and leaves no subscription of the
  -- client behind, be the job there or not, done or not; if no pointer is null, and read_frame throws
  -- nothing till then.
  pub handle_stream-ends :
      (client_fd : ℕ) (job_id : Bytes) (s : Server F) (socket : Socket) (rounds : List (Server F))
      → all_present s.jobs ≡ true
      → are_present rounds ≡ true
      → is_closed socket rounds ≡ true
      → (after : Broadcaster × List Sent) × (handle_stream fits client_fd job_id s socket rounds
          ≡ ok after)
        × (contains client_fd (members job_id after.0) ≡ false)
  unfolding handle_stream
  handle_stream-ends client_fd job_id s socket rounds here later closed =
      let b = subscribe job_id client_fd s.broadcaster in
      let (after, follows, gone) =
        follow-ends job_id client_fd b s socket rounds here later closed in
      (
        (after.0, text_if_any [] (get_accumulated_output job_id b) ++ after.1),
        rw (follows, handle_stream) refl,
        gone,
      )

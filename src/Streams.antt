-- ===== src/Streams.antt =====
-- The WebSocket route /stream/ in src/main.cpp. The client is the socket that `read_frame` reads from,
-- and a round of the handler's loop has the server's state when the job is looked up; the loop has as
-- much fuel as there are rounds. `fits` is whether the allocator grants a buffer: an exception of
-- `read_frame` leaves the thread, and ends the process.
pub mod Ends
pub mod Tests
use sandrun.Common.{
  ℕ, Bool, true, false, List, [], ◌∷◌, ◌++◌, Option, none, some, Bytes, codes, if◌then◌else◌,
  is_empty, lookup, bytes_key, Outcome, ok, err, diverges, ◌>>=◌,
}
use sandrun.WebSocket.Broadcaster.{Broadcaster, subscribe, unsubscribe, get_accumulated_output}
use sandrun.WebSocket.Frame.{Socket, Received, closes, message, read_frame}
use sandrun.Jobs.{Job, Server, Status, completed, failed, deref}
use sandrun.Jobs.Executor.{status_text}

-- What is sent to the client.
pub data Sent : Type 0 where
  sent_text : Bytes → Sent
  sent_close : Sent

-- `should_close` behind `read_frame`, and what the client sends later.
abbrev pub is_close : Received → Bool
is_close closes = true
is_close (message text later) = false

abbrev pub left_of : Received → Socket
left_of closes = []
left_of (message text later) = later

abbrev pub is_done : Status → Bool
is_done completed = true
is_done failed = true
is_done status = false

abbrev pub text_if_any : Bytes → Bytes → List Sent
text_if_any label log = if is_empty log then [] else sent_text (label ++ log) ∷ []

abbrev pub not_found : Bytes → List Sent
not_found job_id =
    sent_text (codes "[ERROR] Job not found: " ++ (job_id ++ codes "\n")) ∷ sent_close ∷ []

module _ {F : Type 0} (fits : ℕ → Bool) where
  unfoldable pub done_frame : Job F → Sent
  unfolding status_text
  done_frame job = sent_text (codes "[DONE] Job " ++ (status_text job.status ++ codes "\n"))

  -- The broadcaster behind the loop, and what the loop sends.
  unfoldable pub wait : Bytes → Socket → List (Server F) → Outcome (Broadcaster × List Sent)
  unfolding deref done_frame
  wait job_id socket [] = err diverges
  wait job_id socket (s ∷ rounds) = read_frame fits socket >>= λ received.
      let rest = wait job_id (left_of received) rounds in
      if is_close received then ok (s.broadcaster, []) else (elim (lookup job_id s.jobs) [
        | none ↦ rest
        | some pointer ↦ deref (some pointer) >>= λ job.
            if is_done job.status then ok (s.broadcaster, done_frame job ∷ []) else rest
      ])

  -- The last frames for a job that is done when the client comes.
  unfoldable pub final_frames : Job F → List Sent
  unfolding done_frame
  final_frames job =
      text_if_any [] job.stdout_log
      ++ (text_if_any (codes "[STDERR]\n") job.stderr_log ++ done_frame job ∷ sent_close ∷ [])

  unfoldable pub status_frame : Job F → Sent
  unfolding status_text
  status_frame job =
      sent_text (codes "[STATUS] Job status: " ++ (status_text job.status ++ codes "\n"))

  -- The handler behind the accumulated output; the client is subscribed in `b`.
  unfoldable pub follow :
      Bytes
      → ℕ
      → Broadcaster
      → Option (Option (Job F))
      → Socket
      → List (Server F)
      → Outcome (Broadcaster × List Sent)
  unfolding wait final_frames status_frame deref
  follow job_id client_fd b none socket rounds =
      ok (unsubscribe job_id client_fd b, not_found job_id)
  follow job_id client_fd b (some pointer) socket rounds = deref (some pointer) >>= λ job.
      if is_done job.status
      then ok (unsubscribe job_id client_fd b, status_frame job ∷ final_frames job)
      else (wait job_id socket rounds >>= λ last.
          ok (unsubscribe job_id client_fd last.0, status_frame job ∷ last.1))

  unfoldable pub handle_stream :
      ℕ → Bytes → Server F → Socket → List (Server F) → Outcome (Broadcaster × List Sent)
  unfolding follow
  handle_stream client_fd job_id s socket rounds =
      let b = subscribe job_id client_fd s.broadcaster in
      let accumulated = get_accumulated_output job_id b in
      follow job_id client_fd b (lookup job_id s.jobs) socket rounds >>= λ after.
      ok (after.0, text_if_any [] accumulated ++ after.1)

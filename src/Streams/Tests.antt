-- ===== src/Streams/Tests.antt =====
-- The theorem on the streams of src/main.cpp at inputs.
use sandrun.Common.{
  ℕ, Bool, true, false, List, [], ◌∷◌, ◌≡◌, refl, some, codes, lookup, contains, bytes_key, nat_key,
  bytes_eq, insert, erase, add, remove, ok,
}
use sandrun.WebSocket.Broadcaster.{
  Broadcaster, no_jobs, members, subscribe, unsubscribe, get_accumulated_output,
}
use sandrun.Jobs.{Job, Server, running, completed}
use sandrun.Jobs.Tests.{job, fresh}
use sandrun.WebSocket.Frame.{Socket, read_frame}
use sandrun.Streams.{Sent, sent_text, sent_close, handle_stream, follow}
use sandrun.Streams.Ends.{handle_stream-ends, is_closed}

abbrev with_status : Job ℕ → Server ℕ
with_status current = record fresh { jobs = (codes "job_7_1", some current) ∷ [] }

-- A ping of no bytes, and a closing frame.
abbrev client : Socket
client = (137 ∷ 0 ∷ []) ∷ (136 ∷ 0 ∷ []) ∷ []

abbrev granted : ℕ → Bool
granted len = true

abbrev rounds : List (Server ℕ)
rounds =
    with_status (record job { status = running })
    ∷ with_status (record job { status = running })
    ∷ []

client_closes : is_closed granted client rounds ≡ true
unfolding read_frame
client_closes = refl

handle_stream-ends_example :
    (after : Broadcaster × List Sent) × (handle_stream granted 5
        (codes "job_7_1")
        (with_status job)
        client
        rounds
      ≡ ok after)
    × (contains 5 (members (codes "job_7_1") after.0) ≡ false)
handle_stream-ends_example =
    handle_stream-ends granted 5 (codes "job_7_1") (with_status job) client rounds refl refl
      client_closes

-- A client that comes when the job is done gets its output twice: the output that was broadcast, and
-- the log.
abbrev after_the_job : Server ℕ
after_the_job =
    record (with_status (record job { status = completed; stdout_log = codes "hi\n" })) {
      broadcaster = record no_jobs { accumulated_output = (codes "job_7_1", codes "hi\n") ∷ [] };
    }

stream_of_a_done_job :
    handle_stream granted 5 (codes "job_7_1") after_the_job client []
    ≡ ok (
      after_the_job.broadcaster,
      sent_text (codes "hi\n")
          ∷ sent_text (codes "[STATUS] Job status: completed\n")
          ∷ sent_text (codes "hi\n")
          ∷ sent_text (codes "[DONE] Job completed\n")
          ∷ sent_close
          ∷ [],
    )
unfolding handle_stream follow lookup bytes_eq subscribe unsubscribe get_accumulated_output insert
    erase contains add remove
stream_of_a_done_job = refl

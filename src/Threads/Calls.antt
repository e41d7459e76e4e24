-- ===== src/Threads/Calls.antt =====
-- Whole calls of src/main.cpp, one behind the other: the handlers of POST /submit and of
-- GET /download, and rounds of the executor thread, each with no other thread in between. An
-- exception of a handler becomes an answer, and one of the executor ends the process.
pub mod Submits
pub mod Simulated
pub mod Waiting
pub mod Young
pub mod Drains
pub mod Tests
use sandrun.Common.{
  ℕ, List, [], ◌∷◌, Bytes, Outcome, ok, err, Error, undefined_behavior, diverges, ◌>>=◌,
}
use sandrun.RateLimiter.{Double, Config}
use sandrun.WebSocket.Broadcaster.{no_jobs}
use sandrun.Files.Directory.{FileSystem}
use sandrun.Http.Request.{HttpRequest}
use sandrun.Http.Response.{HttpResponse}
use sandrun.Jobs.{Server}
use sandrun.Jobs.Executor.{Outside, executor_round}
use sandrun.Submit.{Storage}
use sandrun.Submit.Handler.{World, Clock, handle_submit}
use sandrun.Answers.Listing.{Removals, handle_download}

pub data Call : Type 0 where
  submits : Clock → HttpRequest → Call
  downloads : Bytes → Call
  rounds : ℕ → Call

-- The program with a disk, when its threads start.
abbrev pub fresh_world : {F : Type 0} {W : Type 0} → W → World F W
fresh_world disk = record {
  server = record { jobs = []; job_queue = []; limiter = []; broadcaster = no_jobs };
  counter = 0;
  disk = disk;
}

-- An exception of a download is answered, unless the process ends.
abbrev pub downloaded :
    {F : Type 0} {W : Type 0}
    → World F W
    → Server F × W × Outcome HttpResponse
    → Outcome (World F W)
downloaded w (server, disk', err undefined_behavior) = err undefined_behavior
downloaded w (server, disk', err diverges) = err diverges
downloaded w (server, disk', answer) = ok (record w { server = server; disk = disk' })

module _ {F : Type 0} {W : Type 0} (o : Outside F) (d : Double F) (config : Config F)
    (show : F → Bytes) (sha256_string : Bytes → Bytes) (disk : Storage W) (removals : Removals W)
    (fs : FileSystem) (canonical : Bytes → Outcome Bytes) (read_file : Bytes → Bytes)
    (file_name : Bytes → Bytes) where
  unfoldable pub call : Call → World F W → Outcome (World F W)
  call (submits clock req) w = ok (handle_submit d config show sha256_string disk clock req w).0
  call (downloads path) w =
      downloaded w
        (handle_download disk removals fs canonical read_file file_name path w.server w.disk)
  call (rounds now) w =
      executor_round o d config now w.server >>= λ server. ok (record w { server = server })

  unfoldable pub run_calls : List Call → World F W → Outcome (World F W)
  unfolding call
  run_calls [] w = ok w
  run_calls (c ∷ calls) w = call c w >>= λ v. run_calls calls v

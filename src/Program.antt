-- ===== src/Program.antt =====
-- `main` of src/main.cpp as a whole: the command line and the worker's key, the limiter's
-- configuration, the server with its routes, and the end of the process. The executor thread is
-- joined at the end and never returns; an exception of the server's set-up leaves main.
pub mod Requests
pub mod Tests
use sandrun.Common.{ℕ, List, [], Bytes, codes, ◌++◌, Error}
use sandrun.Common.Decimal.{ℤ}
use sandrun.RateLimiter.{Config}
use sandrun.Http.Client.{HandlerFunc}
use sandrun.Http.Server.{
  HttpServer, Effect, Ending, returned, threw, still_running, Network, Round, new_server,
  websocket_route, start,
}
use sandrun.Answers.Routes.{Handlers, routes}
use sandrun.WorkerIdentity.{OpenSsl, Files}
use sandrun.WorkerIdentity.Startup.{
  Startup, serves, exits, default_arguments, parse_arguments, start as start_worker,
}

-- `rate_config`, where `cpu_seconds` stands for 10 seconds.
unfoldable pub rate_config : {F : Type 0} → F → Config F
rate_config cpu_seconds = record {
  cpu_seconds_per_minute = cpu_seconds;
  max_concurrent_jobs = 2;
  max_jobs_per_hour = 20;
  cleanup_after_minutes = 60;
}

-- The server with its routes, before `start`.
unfoldable pub launched : {W : Type 0} → ℤ → Handlers HandlerFunc → W → HttpServer W
unfolding websocket_route new_server
launched port handlers stream =
    websocket_route (codes "/stream/") stream
      (record (new_server port) { routes = routes handlers })

-- How the process ends, if it does: by a status, by an exception that leaves main, or not, since it
-- waits for the executor, or serves.
pub data Exit : Type 0 where
  exited : ℕ → Exit
  terminated : Bytes → Exit
  waits_for_executor : Exit
  serving : Exit

abbrev pub exit_of : Ending → Exit
exit_of returned = waits_for_executor
exit_of (threw message) = terminated message
exit_of still_running = serving

module _ {Key : Type 0} {W : Type 0} (o : OpenSsl Key) (atoi : Bytes → ℤ) (what : Error → Bytes)
    (sha1 : Bytes → Bytes) (handlers : Handlers HandlerFunc) (stream : W) (network : Network) where
  unfoldable pub serve : List Round → Startup → List (Effect W) × Exit
  unfolding launched
  serve rounds (exits status) = ([], exited status)
  serve rounds (serves port identity) =
      let (server, effects, ending) = start network rounds (launched port handlers stream) in
      (effects, exit_of ending)

  unfoldable pub run_main : List Bytes → List Round → Files → Files × List (Effect W) × Exit
  unfolding serve
  run_main args rounds files =
      let (startup, written) = start_worker o (parse_arguments atoi args default_arguments) files in
      let (effects, exit) = serve rounds startup in (written, effects, exit)

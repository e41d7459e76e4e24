-- ===== src/Lib.antt =====
-- Sandrun runs batch jobs for anonymous clients. A client posts files with a manifest to an HTTP
-- server, the rate limiter admits the job, a queue holds it until the executor thread runs it in a
-- sandbox, and clients read its state, its logs and its files, or follow its output over a
-- WebSocket. The handlers and the executor share the jobs and their queue under one mutex, and the
-- limiter and the broadcaster each have their own; every region under a mutex is one operation here.
--
-- The files and the code that they model, from the repository's root:
--
-- * Common.antt and Common/: the shared names; lists, texts as lists of bytes, `find` and `rfind` of
--   std::string, std::to_string and std::stoul, std::map and std::set as lists in the order of their
--   keys, and Outcome, which is a value, an exception, or behaviour that C++ leaves undefined.
-- * RateLimiter.antt, src/rate_limiter.cpp: IpState, Config, check_quota, register_job_start,
--   register_job_end, get_available_cpu_seconds and cleanup_old_entries on the map of addresses.
--   RateLimiter/Bounds has every history of calls, RateLimiter/Quota the quota, RateLimiter/Slots
--   single calls, RateLimiter/Active the active jobs of all addresses, and RateLimiter/History the
--   clean-up.
-- * WebSocket.antt, src/websocket.cpp: the handshake (WebSocket/Handshake), base64_encode
--   (WebSocket/Base64), create_frame and read_frame (WebSocket/Frame) and OutputBroadcaster
--   (WebSocket/Broadcaster).
-- * Http.antt, src/http_server.cpp: parse_request (Http/Request, on the lines of Http/Lines),
--   build_response (Http/Response), the receiving loops of handle_client (Http/Receive), the choice
--   of a route (Http/Routes), handle_client with its replies (Http/Client), and the class with its
--   set-up, accept loop and stop (Http/Server, with theorems in Http/Server/Lifecycle).
-- * Jobs.antt and Jobs/Executor.antt, src/main.cpp: the globals `jobs` and `job_queue` with the
--   limiter and the broadcaster as a record Server; submit_job and download_all are the changes of
--   state in the handlers of POST /submit and GET /download, executor_round is one round of the
--   executor thread, from the pop to the clean-up of old jobs. Jobs/Pointers follows the pointers in
--   the map, Jobs/Rounds has whole rounds, Jobs/Ids the ids, and Jobs/Download the handler that
--   serves one file.
-- * Threads.antt, src/main.cpp: the critical sections of the handlers of POST /submit and GET /download
--   and of the executor as steps that interleave in any order. Threads/Consistent is the invariant,
--   which Threads/Steps and Threads/Loop keep, on the lemmas of Threads/Known; Threads/Slots,
--   Threads/Stages and Threads/Bound follow from it, Threads/Served and Threads/Gentle show when every
--   step returns, and Threads/Rounds joins the steps to the round of Jobs/Executor. Threads/Calls has
--   whole calls one behind the other; Threads/Calls/Submits takes the handler of POST /submit apart
--   into its sections, Threads/Calls/Simulated every list of calls, Threads/Calls/Waiting says
--   what follows for the queue, and Threads/Calls/Drains what rounds make of it, by the single rounds
--   of Threads/Calls/Young.
-- * Program.antt, src/main.cpp: main from its command line to its end, with the limiter's
--   configuration and the routes; Program/Requests follows a request from its bytes to its handler.
-- * Submit.antt, src/main.cpp: the handler of POST /submit as a whole, on the server's state and a
--   disk: the uploaded files (Submit/Upload), the manifests (Submit/Manifest) and the guards with
--   their answers (Submit/Handler). Submit/Saved, Submit/Refused and Submit/Accepted have
--   the theorems.
-- * Answers.antt, src/main.cpp: the handlers of GET: status and logs (Answers/Status), outputs and
--   download (Answers/Listing), stats, environments, health and info (Answers/System), and the table of
--   routes (Answers/Routes). Answers/Lookups has theorems on several of them.
-- * Streams.antt, src/main.cpp: the WebSocket route /stream/, on the rounds of its loop, with the
--   theorem in Streams/Ends.
-- * Executor.antt, src/main.cpp: the executor's round with the environment manager that it asks, and
--   the clean-up on each tenth round, with the theorem in Executor/Rounds.
-- * Json.antt, src/main.cpp: json_escape, json_get_string and json_get_string_array.
-- * Multipart.antt, src/multipart.cpp: extract_boundary, parse_part and parse.
-- * Environments.antt, src/environment_manager.cpp: the built-in templates (Environments/BuiltIn), the
--   steps that build an environment and prepare_environment (Environments/Prepare), the clean-up and
--   the statistics (Environments/Cleanup). Environments/Valid has single calls, Environments/Cache
--   every history of calls and the table of uses.
-- * Sandbox.antt, src/sandbox.cpp: the pipes (Sandbox/Pipe), the loop that waits for the child
--   (Sandbox/Monitor), the set-up of the child (Sandbox/Setup) with its filter of system calls
--   (Sandbox/Seccomp), the clean-up (Sandbox/Wipe) and execute (Sandbox/Execute). Sandbox/Output
--   and Sandbox/Endings follow the loop.
-- * WorkerIdentity.antt, src/worker_identity.cpp: keys, key files, signatures. WorkerIdentity/Startup
--   is the command line and the key in main of src/main.cpp, WorkerIdentity/Signatures has what
--   follows from the manual of OpenSSL, and WorkerIdentity/Results the executor with an identity.
-- * Proof.antt, src/proof.cpp: traces, checkpoints, ProofOfCompute with its hash, JSON and verify,
--   and the generator.
-- * Files.antt, src/file_utils.cpp and src/job_hash.cpp: the tables and types of files, patterns,
--   hashes, hash_directory, format_file_size (Files/Sizes) and JobDefinition::calculate_hash.
--
-- Numbers are natural; size_t wraps around where the source lets it, and a time is a count of
-- nanoseconds that each call gets. Loops are structural recursion on what they read, or recursion on
-- fuel that is the length of that: a search of std::string and a read of a socket both move forward,
-- so the length is enough, and an Outcome says so where fuel could run out.
--
-- Parameters stand for what is outside these sources: doubles and their printing, SHA-1 and SHA-256,
-- the allocator, sockets and pipes as lists of chunks, the handlers of the routes, the file system,
-- the shell, system calls, OpenSSL, and JobExecutor, which is not in the repository.
--
-- The steps of Threads.antt leave out the handlers that only read and the streams, since they change
-- neither the jobs nor the queue nor the limiter. The line that a submission prints reads the map
-- without the lock; it is a step of its own, taken to be atomic. The answers of socket, bind, listen
-- and accept and the calls of stop are a list of rounds, and the threads of the clients run beside the
-- loop that starts them. What std::filesystem throws where it removes or makes directories is an
-- answer of the calls, in the executor, the downloads, the environments and the sandbox; the handler
-- of POST /submit takes them to come back.
--
-- Not modelled: the text of printed lines, the text of the script that the sandbox writes, JobExecutor,
-- which is not in the repository, data races on the counter of ids and on the server's flag, the
-- integrations in Python and the web frontends.
pub mod Answers
pub mod Common
pub mod Environments
pub mod Executor
pub mod Files
pub mod Http
pub mod Jobs
pub mod Json
pub mod Multipart
pub mod Program
pub mod Proof
pub mod RateLimiter
pub mod Sandbox
pub mod Streams
pub mod Submit
pub mod Threads
pub mod WebSocket
pub mod WorkerIdentity

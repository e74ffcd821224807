-- ===== src/Lib.antt =====
-- The secure remote code execution platform: a FastAPI gateway, a Redis server and workers that run
-- and grade untrusted programs in sandboxes.
--
-- A submission is stored by the gateway and pushed to a queue (backend/app/services). A worker runs
-- it in a sandbox (worker/sandbox): the strategy of its language says how it is compiled and run,
-- and a stream consumer caps what it writes. The chunks of its output are numbered, published and
-- buffered in Redis (worker/streaming), and a WebSocket passes them on to the browser
-- (backend/app/api/v1/endpoints/websocket.py). A submission for a problem is graded against its
-- test cases instead (worker/grading).
--
-- Prelude and its modules: tests, lists, results, integers and texts that all parts use. A `str` is
--   the list of its code points, a Python `int` that can be negative is an integer.
-- PyStr: the methods of `str` that the program calls. Utf8: `str.encode`, and `bytes.decode` with
--   errors="ignore" and errors="replace".
-- Redis: the commands of the server, an argument with what they are documented to do.
-- Sandbox.Models: worker/sandbox/models.py. Sandbox.StreamConsumer: stream_consumer.py there, every
--   method of `StreamConsumer`. Sandbox.Polyglot: polyglot there, `LanguageRegistry` and the six
--   strategies. Sandbox.Process: process_sandbox.py there, where Process has `execute`,
--   Process.Command `_adapt_compile_command_for_platform` and Process.Stream `stream_execute`, as
--   the list of what it yields.
-- Sandbox.Terminal: the system calls of a terminal session, an argument. Sandbox.Pty: pty_session.py
--   there, every method of `PTYSession`, as a step on the session and the system. Sandbox.Live, with
--   the child Live of Sandbox.Process, Sandbox.Docker and Sandbox.MicroVm: `write_stdin`,
--   `resize_terminal` and `send_signal` of the sandboxes, which act on a live program.
-- Streaming.Buffer, Streaming.Multiplexer: worker/streaming/buffer.py and multiplexer.py.
--   Streaming.Replay: the pumps of the WebSocket of a submission, which Streaming.Socket puts
--   together. Streaming.Room: the handshake and the WebSocket of a room; Room.Genuine has its
--   connections as steps that interleave, and Room.Runs the endpoint as a run of such steps.
-- Grading.Models, Normalizer, Verifier, Harness, Sanitize: worker/grading/models.py, normalizer.py,
--   verifier.py, harness.py (`evaluate_submission`, `_determine_overall_status`) and
--   `sanitize_for_student`. Grading.Floats: the operations on floats, an argument.
-- Sandbox.Docker and Sandbox.MicroVm: docker_sandbox.py and microvm_sandbox.py there, both calls
--   of each. Sandbox.Factory: worker/sandbox/factory.py. Tasks.Execution, Tasks.Inputs and
--   Tasks.Grading: worker/tasks/execution.py, where a sandbox is what its stream yields.
--   Tasks.Daemon: worker/daemon.py, a turn of its loop as a function on the queue, the rows and
--   the stop flag, and its runs as a relation. Tasks.Inputs.Keystrokes: the inputs of a client, down
--   to the bytes that a program reads.
-- Janitor: worker/janitor/reaper.py.
-- Database: backend/app/models, the rows of users and submissions.
-- Backend.Problems: backend/app/services/problem_service.py, where Problems.Grade has grading and
--   scorecards and Problems.Seed the problems of a new installation. Backend.Limits:
--   backend/app/core/rate_limiter.py. Backend.Users: backend/app/services/user_service.py,
--   core/security.py, api/deps.py and api/v1/endpoints/auth.py.
-- Backend.Endpoints: backend/app/api/v1/endpoints/problems.py, rooms.py and submissions.py, and what
--   requests to them keep true of the tables, in any order. Endpoints.Grades: posting a
--   submission to be graded, and reading its result.
-- Backend.Health: backend/app/api/v1/endpoints/health.py.
-- Backend.Query, Rooms, Submissions: what backend/app/services/room_service.py and
--   submission_service.py ask of the database, and their operations. Rooms.Race: `join_room` by
--   requests that overlap.
--
-- State is passed from call to call. What the operating system, Redis, `json`, `difflib`, floats,
-- bcrypt, the token library and the database's order and identifiers do is an argument of the
-- definitions. A loop is recursion on the list that it runs over, or on what the environment
-- answers at each turn; a turn of the daemon is one step, and a run of it is a relation;
-- the three attempts to start a container are counted; only the decimal digits of a
-- number are written with fuel, one more than the number, which is more than its digits.
--
-- Not modelled: a failure to make the temporary directory, but in `stream_execute` of the process
-- sandbox; the cancelling of the daemon; the order that a page of submissions with equal times has
-- beside another page, which is one argument of each query; expiry in Redis, and failing Redis and
-- database commands but for the push of a job; concurrent calls of a service, but for joining a
-- room and the rate limiter; the wait of a terminal session for output, which is one call with the
-- read; the wiring of libraries in backend/app/main.py, core and db and worker/broker; migrations,
-- benchmarks and the frontend.
pub mod Prelude
pub mod PyStr
pub mod Utf8
pub mod Redis
pub mod Sandbox
pub mod Streaming
pub mod Grading
pub mod Tasks
pub mod Janitor
pub mod Database
pub mod Backend

-- ===== src/Lib.antt =====
-- A model of go-judge, a sandbox for programs in a contest, and of the judge node built on it.
--
-- The program. `cmd/go-judge` serves a sandbox over HTTP and gRPC: `worker/` runs requests in a pool
-- of `env/` containers with `envexec/`, and keeps files in `filestore/`. `cmd/hnieoj-judge-node` is
-- the judge node: `internal/hnieoj/wss` receives the assignments of a server; each becomes an attempt
-- in the registry of `internal/hnieoj/tasks` and a reservation in the queue of
-- `internal/hnieoj/resultqueue`; `internal/hnieoj/processor` fetches its test data, compiles and runs
-- it through the sandbox (`internal/hnieoj/runner`) and reports events of `internal/hnieoj/model`; the
-- final event goes into the result queue, from which it is sent until the server acknowledges it.
--
-- The files. An operation has the name of the function it models, in snake case.
-- - Prelude: Boolean tests on numbers, lists, counts, byte strings, integers, maps, ASCII text and results
--   that the other files share. A Go map is an association list (Prelude.Dict), where `insert`
--   overwrites a key in place and `delete` drops it; an `int` is an unbounded integer (Prelude.Int).
-- - ResultQueue: internal/hnieoj/resultqueue/queue.go, with `Queue`, `enqueue`, `reserve`, `release`,
--   `mark_attempt`, `ack`, `prune`, `peek`, `load` and `open_queue`. Load is about the capacity used,
--   Steps about single operations and the invariant, Calls about sequences of calls, Capacity,
--   Guarantee, Keeping and Outcomes about what a caller may rely on, Opening about a start from any
--   directory.
-- - Tasks: internal/hnieoj/tasks/registry.go, with `Registry`, `start`, `resume`, `complete`,
--   `has_attempt`, `cancel_attempt`, `cancel_all`, `snapshot` and the others. Keys is about the
--   key of an attempt, InFlight about its states, Memory about the attempts that have ended.
-- - Model: internal/hnieoj/model/model.go, the tasks, the events and the names of the statuses.
-- - Processor: internal/hnieoj/processor/processor.go. `process` is `Process`, cut at its stages:
--   `judge`, `judge_ensured`, `compile_and_judge`, `judge_with_mode` with `with_program` for its two
--   cases, `judge_cases` and `judge_loop`. Score has the functions on scores, Reports the rules on
--   final events that Terminal applies to the stages, Verdict the arithmetic of the last event,
--   Reported its relation to the results of the cases, Cleanup the deferred calls.
-- - Wss: internal/hnieoj/wss/client.go and internal/hnieoj/wss/run.go, the handlers of the socket:
--   `handle_assign` (cut into `admit`, `begin` and `offer`), `handle_node_state` and
--   `available_slots`. Admission is about the room for results, Channel about what is passed on,
--   Drain about the drain flags. Recovery is `resume` of run.go: `resume_list` is what the server is
--   asked, `settle` what is done with its answer. Delivery is `deliverResults` of run.go; Session has
--   `session`, `respondWithKey`, `applyAuthOK` and `refreshDelay`, with the credential of
--   internal/hnieoj/auth/auth.go.
-- - Runner: internal/hnieoj/runner/runner.go from the answers of the sandbox on: `run_plain_case` is
--   `RunCase`, `run_spj_case` and `run_interactive_case` are the others. Outputs is about the
--   comparison of outputs, Accepting about the verdict, Compile about the languages and
--   `CompileProgram`.
-- - Envexec: envexec/run_status.go, the statuses of a run, with Names about their names. Results and
--   Commands are the types of envexec/cmd.go, CopyIn is envexec/file_copyin.go, Collect is
--   envexec/file_collect.go, and Run has `run_single` (envexec/run_single.go, cut after copying in,
--   linking and the process), `single_run` and `group_run`. Descriptors is `countFd` and
--   `prepareFds` of envexec/file_prepare.go. Accepted, Stored and Unopened are about a run, Limits and
--   Complete about the files that come out, Counting, Places and Panics about the descriptors.
-- - Worker: worker/worker.go. Pool is a step relation: `submit`, `execute`, `shut` and `destroy` for
--   the calls, `take_request` and `finish` for a loop; Sound is its invariant, Progress its end,
--   Stranded what becomes of a request after a shutdown. Command has the types of worker/model.go
--   and worker/file.go, Prepare is `prepareCmd`, Conversion is `convertResult`, and Execution is
--   `workDoCmd` with its two cases, over the pool of environments. Returning, Answering (with
--   Lengths) and Closing are about the environments, the answer and the files of a request.
-- - EnvPool: env/pool/interface.go, with `get_env`, `put_env` and `destroy_all`; Lending is about where
--   the environments are.
-- - Protocol: internal/hnieoj/protocol/protocol.go, with `canonical`, the fields of each purpose of a
--   signature and `validate_inbound`. Canonical is about the bytes that are signed, Inbound about the
--   envelopes that are let in.
-- - Identity: internal/hnieoj/identity/identity.go, with the operations of `Store` from
--   `apply_enrollment` to `discard_pending_rotation`, each cut where it reads the pending rotation.
--   State has the store and its write, Preparing and Switching the operations;
--   Keys has the look-ups, Signing the choice of a key, Opening is `Open` and the view for the panel,
--   Calls are sequences of calls with starts in between. Find and Changes are about single steps,
--   Sound, Rotating, Activating, Kept and Always about the invariant, Signed and Opened about the
--   keys that sign and that are read.
-- - Rotation: internal/hnieoj/rotation/rotation.go, with `recover`, `rotate_once` and what they call;
--   Exchange has the requests and the writes of the store that they are made of;
--   `confirm_once` and `query` call each other at most once, which `confirm_again` and `query_again`
--   write out. Server has the answers and their check, Timing when a rotation is due. Valid, Settled
--   and Ending are about how a rotation ends, Safe and Rounds about the keys meanwhile.
-- - Testdata: internal/hnieoj/testdata/cleanup.go, with `cleanup_cache` and its two loops, and the
--   list of internal/hnieoj/testdata/manage.go (Listing). Swept and Cleaned are about what goes.
-- - The Examples of a component apply the theorems at concrete inputs.
--
-- State and effects. A method of a queue or a registry runs under its lock, so it is one function
-- from the state before to the state after; what the disk, the clock and the JSON and hash packages
-- answer are arguments (`Codec` for the packages, of which nothing is assumed unless a theorem says
-- so). The processor runs in a monad over a `Trace` of its reports and artifacts, with the two kinds
-- of error; a `World` has the answers of the other packages, any answers at all. `process` is one step
-- on the set of the tasks in flight; that other calls change other keys meanwhile is not modelled.
-- A handler of `Wss` is one step on the client, its registry and its queue, as the loop that reads
-- the socket calls them one at a time; the session and the clock answer through a `Turn`, and the
-- outcome of a `select` with two ready branches is a field of it.
--
-- In `Worker.Pool` a request is a number and its execution lies between two steps, so that any
-- interleaving of callers, loops and goroutines is a sequence of steps; a `select` with two ready
-- branches is a choice of the step. In `Envexec.Run` and `Worker.Command` a file and an environment
-- are numbers, and what the environment, the file store and `os` answer are arguments (`Answers`,
-- `Services`). The goroutines that copy files count as run one after another, in the order in which
-- they end, and the texts of the errors made by `fmt` are arguments.
--
-- A `Store` of `Identity` has its state in memory and the one in its file; a write ends in one of three
-- ways, since `WriteFileAtomic` of internal/hnieoj/securefile can fail before and after the file is
-- replaced. A `World` of `Rotation` holds how the next writes and requests end, as lists that are
-- used up; a request without an entry fails, a write without one succeeds. Codec, signature scheme,
-- generator, sort and file system are parameters.
--
-- Loops are structural recursions. The only fuel is that of `decimal_digits`: `n + 1` divisions by
-- ten leave nothing of `n`.
--
-- What is not exact. `strings.TrimSpace` and `strings.ToLower` are those of ASCII text; `%q` writes
-- its text between quotes, as it does for printable text; sums of scores, of the sizes of test data and
-- of times in `Rotation.Timing` do not wrap, which 64 bits allow; `sort.Slice` is an insertion sort by
-- the same comparison, but a parameter in `Testdata`; log lines are left out.
-- A subtraction that the source clamps to 0 is the truncated one. The order in which a loop runs
-- over a map is that of the association list.
--
-- `make` panics for more than `max_places` files of a command; memory suffices otherwise. A panic of
-- `prepareFds` ends the worker: `group_run` and `work_do_cmd` then answer `none`.
-- A limit of type `uint64` that is read as an `int64` is negative from 2 ^ 63 on (`exceeds`).
--
-- Not modelled: of the sandbox, the opening of the files of one command (`prepareCmdFd` but for its
-- answer and the places that it makes) and the
-- proxies of pipes (`envexec/file_pipe.go`), which system calls make up; the containers
-- (`env/`), the stores of `filestore/`, and `worker/waiter.go`, a loop over the clock. Of the judge
-- node, the rest of `internal/hnieoj/wss` (the socket and its loops),
-- the commands and HTTP calls of `internal/hnieoj/runner`, the HTTP calls of the enrollment and of the
-- rotation, the timers of `Run` in rotation.go, the download of test data, the configuration of the
-- node and its panel.
pub mod Prelude
pub mod ResultQueue
pub mod Tasks
pub mod Model
pub mod Processor
pub mod Wss
pub mod Runner
pub mod Envexec
pub mod Worker
pub mod EnvPool
pub mod Protocol
pub mod Identity
pub mod Rotation
pub mod Testdata

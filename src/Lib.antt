-- ===== src/Lib.antt =====
-- rrjj records what happens to a directory: a watcher notes the paths that are touched, a coordinator
-- takes snapshots of the tree with jj and writes a numbered log of events to a sink, and a reader opens
-- the log again. This library models the recorder's core, its records, its journal, the
-- durable, broadcast and HTTP sinks, and the reader.
--
-- Core/PathMap and Core/Audit: the audit accumulator of crates/rrjj-core/src/lib.rs
-- (`AuditAccumulator`), which the watcher's callback fills and the coordinator drains. A method on the
-- locked state is a function on `AuditState`; `Notification` is a call of `observe` or
-- `report_overflow`. Maps are association lists in the order of their keys.
--
-- Core/Coordinator and Core/Command: the coordinator of the same file (`Coordinator`), its methods by
-- their names, and the loop `run` over the commands of `CoordinatorHandle`. A method that may fail is
-- an `Action`: it returns the result and the state, which keeps what was changed before a failure. The
-- sink is a `Sinks.Traits.Sink` with a state of its own and the recorder a `Recorder`. Since the
-- watcher runs beside the coordinator, the state holds the batches of notifications that it will have
-- made by each time the coordinator takes the accumulator's lock (`arrivals`); any finite sequence of
-- batches is allowed. Events wrap their number at 2 ^ 64, as a release build does.
--
-- The loop `while self.pending_snapshot` is `settle`, recursion on fuel. Its fuel is `rounds`, the
-- number of batches that are still to come and two more: every round takes a batch if there is one, one
-- round may go to a retained event and one to what has been drained. A run that would need more would end
-- in `out_of_fuel`.
--
-- Sinks/Traits, Sinks/Error, Sinks/Util and Sinks/Journal: crates/rrjj-sinks/src, `NdjsonSink` with its
-- recovery from a spool. tokio's file is a parameter (`Writer`), with the laws of its buffer, contents and
-- durable contents where a property needs them (`IsAppending`); serde's JSON is a pair of functions, with the law that a line can
-- be read back (`IsJson`).
--
-- Sinks/Http: `HttpEventSink` of crates/rrjj-sinks/src/http.rs. Its server, the JSON of an acknowledgement
-- and the file of its cursor are parameters (`Network`). The retries of a batch run on fuel, one turn
-- more than the configured retries; the loop over the batches on the number of events, since a batch
-- has at least one.
--
-- Sinks/Durable and Sinks/Broadcast: `DurableSessionSink` and `BroadcastSink` of the same crate, over the
-- interfaces of Sinks/Traits; the broadcast channel is the list of what was sent.
--
-- Reader: crates/rrjj-reader/src/lib.rs, `Timeline::read`, `Session::open` and the lookups, and in
-- Reader/ObjectId `decode_id`. Lines, the JSON and the files are parameters (`Text`, `Files`).
--
-- Core/Recorder: `JjRecorder` of the same file and `project_diff`, over jj-lib as a parameter (`Jj`).
--
-- Core/Watcher: `start_watcher` of crates/rrjj-core/src/lib.rs, its callback, its filter of paths and
-- the time at which it wakes up. The crates notify and globset are parameters (`Received`, `Globs`); a
-- path is the list of its components.
--
-- Core/System: the coordinator, the watcher's task and the clones of `CoordinatorHandle` together, as a
-- relation `Step` on a state that holds the coordinator, the watcher's flag, its time of retry and the
-- clock, with `Reach` for any sequence of steps. Setting the flag in `pause`, the coordinator's turn and
-- clearing the flag in `resume` are steps of their own, and a shutdown ends the coordinator; `call` is a
-- method of the handle with no other step in between. What is noted while the coordinator works is among
-- its arrivals, and what it has not looked at by the end stays in the accumulator.
--
-- Sinks/Files, Sinks/Git and Sinks/Local: the atomic writes of util.rs, `GitCheckpointSink` of git.rs and
-- `DirectorySessionSink` of local.rs. The file system (`Files`) and git2 (`Git`) are records of calls on a
-- state, with the laws that a property needs (`HasContent`, `HasRemote`). `Git.others` is what other writers
-- do to the remote between the look at it and the push; names of the file system may be hard links.
--
-- Daemon: crates/rrjj/src/main.rs, the options of `run_daemon` and what is built of them, the removal of a
-- stale socket, and the requests of the control socket (`handle_connection`, `dispatch`, `request`).
--
-- Core/Start: `Coordinator::initialize`.
--
-- Schema: the records of crates/rrjj-schema/src/lib.rs.
--
-- Prelude: names of the libraries, 64-bit arithmetic, lists, and actions with their rules.
--
-- Not modelled: jj itself (a third-party library) and the setting up of its repository, the reader's `diff` and
-- `materialize`, which work on jj's repository, the daemon's command line, HTTP routes and start, and the
-- benchmarks. Error texts keep their fixed part only.
pub mod Prelude
pub mod Schema
pub mod Sinks
pub mod Core
pub mod Reader
pub mod Daemon

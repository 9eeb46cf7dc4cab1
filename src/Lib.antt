-- ===== src/Lib.antt =====
-- The Blink battery experiment: a camera runs through three stages of snapshots and one of live
-- streaming, and between stages its battery recovers; everything that happens is written to a
-- database, so that a restarted program goes on where it was.
--
-- The parts, and the files that model them:
--   src/blink_dashboard/experiment.py, the runner (Experiment). State: the states of a run. World:
--     the attributes of `ExperimentRunner` beside the database, and its small steps. Battery,
--     Schedule, Outage, Phases, Transitions: the methods that run under the lock. Controls:
--     `initialize`, `start`, `stop`, `restart`, `continue_after_low_battery` and `shutdown`.
--     Sections: what the runner task does under the lock after each awaited call. Snapshots and
--     Streams: the loops, cut at their awaits; Recovery: what the loops of the recovery and the
--     stream wait for. Status: `get_status` and the constructor. Invariant: what holds between any
--     two sections, and how it is carried through a method.
--   src/blink_dashboard/storage.py, the tables (Storage). Types: rows and arguments. Runs, Phases,
--     Records: the operations of `SQLiteStorage` on runs, on phases, and on measurements and events.
--     Timestamps: `to_timestamp`, and the order of texts.
--   src/blink_dashboard/config.py, the configuration (Config). Types: the experiment's settings.
--     Toml and Merge: the values of a file and `_merge`. Build: the checks of the experiment's
--     section. Defaults and Sections: the classes with their defaults, `_build_config` and
--     `load_config` as a whole.
--   Experiment.Reach: everything that can happen to a runner, as a relation over its controls and
--     sections; Experiment.Reach.Progress drives a run through the stages that are left.
--   src/blink_dashboard/blink_adapter.py, the adapter (Adapter). Clients: the live stream and its TCP
--     clients, with Traces, the orders of their steps. Cameras: the selection of the camera. Login:
--     `authenticate_blink`. Operations: snapshots, battery readings and their HTTP handlers.
--   src/blink_dashboard/app.py and clients.py (Dashboard). Web: the two middlewares. Controls,
--     Queries, Progress: the handlers and the status. Backend: the client of the adapter and the
--     experiment's backend, which is how Adapter.Operations and Experiment.Sections meet.
--   src/blink_dashboard/media.py, the stream's consumer (Media; the JPEG test is in Dashboard.Backend).
--   src/blink_dashboard/secret_store.py, the encrypted store (SecretStore).
--   src/blink_dashboard/supervisor.py, the token, the wait and the port (Supervisor).
--   Common, Text and Action hold numbers and lists, Python's strings, and calls that read and write a
--     state and return or raise. Examples holds concrete runs, with each property at one of them.
--
-- A method keeps its name, less a leading underscore. The storage is called by the runner through
-- `on_store`, in the order of the source; the rows are lists, newest first. A method that does not
-- await runs at one instant of both clocks, which is its argument; what it awaits is an argument of
-- the next section, an `Outcome`. The generation of a runner is compared where the source
-- does (in each section but `recovery_without_deadline`), so that any interleaving of sections and controls is a sequence of these definitions.
--
-- Times are natural numbers of microseconds (seconds in the examples); a difference that the source
-- cuts at 0 is the truncated one. A monotonic clock does not run backwards. No definition needs fuel:
-- each is a section of a loop, or recurses on a list or a table; a loop that waits for its environment
-- recurses on the list of what the environment does, and says that it still waits where that ends.
-- Texts are lists of code points, with the case folding and white space of ASCII.
--
-- A configuration is standard if it has three snapshot tests and then a stream test. A world is valid
-- if the run that is held is the row of the database, its stage is from 1 to 4 and fits its state, a
-- recovering run has a deadline, the held phase is open, and phase ids fall below the counter.
--
-- An adapter is sound if its live stream is accounted for (Adapter.Clients.Laws). Adapter.Login takes
-- what Blinkpy does while it logs in as values, with its token renewals. Blinkpy, Pillow,
-- FFmpeg, DPAPI, JSON, the user and the network come in as values or as parameters with named
-- hypotheses; the backoff factor of the login is a whole number. A duration of the configuration is
-- finite: the source's check takes nan and infinity, and where `float` gives one the model ends the
-- load (Config.Build).
--
-- Not modelled: SQLite itself, schema migration, asyncio and cancellation of the runner, TOML reading,
-- sockets and files as such, the loading of Blinkpy and blinkliveview, DPAPI's calls, the redaction of
-- log lines, routing, starting processes, and the modules adapter_main.py, logging_setup.py and
-- __main__.py, which put these together. The printed form of a number in a message is an argument.
pub mod Common
pub mod Text
pub mod Action
pub mod Storage
pub mod Config
pub mod Experiment
pub mod Dashboard
pub mod Adapter
pub mod SecretStore
pub mod Media
pub mod Supervisor
mod Examples

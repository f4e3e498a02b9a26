-- ===== src/Lib.antt =====
-- Verification of the native core of the desktop AI dashboard (Forma).
--
-- The program. The desktop shell under src-tauri/src keeps chats in an SQLite store (store.rs),
-- sends them to the managed Hermes runtime (runtime.rs and runtime/), and lets a run of Hermes read
-- Google accounts under grants that the user gives (connectors.rs and connectors/). `start` admits a
-- run, `apply_poll` takes its pages of events, and `runtime_finish` or `apply_cancel_receipt` ends
-- it; all of them go through the store. A read is checked against the grants, which the sign-in
-- lifecycle holds and revokes on a disconnect, and `cancel` tells the grants of a cancelled run. The
-- model provider is configured in core.rs: a new configuration moves the generation of the store,
-- and with it ends every check, refresh and reply that is under way. The owned browser (browser.rs)
-- is a window of its own, whose session has a generation too. It asks the connectors whether an
-- address is the callback of the sign-in that waits (connectors/loopback.rs).
--
-- The files. Paths of Rust files stand below src-tauri/src.
--   Prelude      what all modules share; Prelude/Results is types.rs with `?` as a bind.
--                Prelude/Acts has steps on a state that may fail, Prelude/Scans and
--                Prelude/Addresses the text functions and the IP addresses of the standard library.
--   Host         the crates uuid, chrono and url, as functions that the definitions take; Host/Json
--                has the values of serde_json.
--   Validation   validation.rs; Validation/Endpoints has `endpoint` and `allowed_address`.
--   Connectors/Grants      connectors/grants.rs: Types (the data), Requests (checks of one request),
--                Table (`impl Grants`: register, list, check, begin, check_read, finish, revoke,
--                revoke_connection, cancel_run, expire), then one file for each kind of theorem.
--   Connectors/Lifecycle   connectors/lifecycle.rs, `impl Lifecycle`: begin, allows_callback, check,
--                exchanging, finish, committed, cancel, expire and the refreshes.
--   Connectors/Loopback    connectors/loopback.rs: `matches_callback_url`, then Requests
--                (`parse_target`, `parse_request`, `handle_request`) and Waiting
--                (`wait_for_callback`).
--   Connectors/Store       connectors/store.rs, `impl ConnectorStore`; Store/Refinement has the
--                abstract map beside it.
--   Connectors/Scopes, Commands, Commits   connectors.rs: the scopes, `snapshot`,
--                `disconnect_impl`, `rollback_staged`; `commit_new`, `begin_refresh_checked`,
--                `commit_refresh_checked`. They join the lifecycle, the table and the secrets.
--   Browser      browser.rs and browser/macos.rs: Addresses (`validate_url`, `service_url`), Session
--                (the methods of `BrowserState`), Actions (`perform_on_main`), Events (the callbacks
--                of the window); browser/chromium.rs (Chromium); then the theorems.
--   Provider     provider.rs: what it makes of a response, a list of models and a reference.
--   Core         core.rs: Core (the state, `key`), Configuration (`configure`), Checks
--                (`begin_discovery`, `finish_discovery`, `check_model`, `cancel`, `delete`); Stops (the
--                part of `cancel` of runtime/runs.rs before Hermes is asked); Managed
--                (runtime/managed.rs and `validate_capabilities` of runtime.rs).
--   Store        store.rs: Tables (rows and statements), Queries (workspace, summaries), Chats (the
--                operations of `impl Store`), Outcomes (what each makes of the tables), Rows (laws of
--                the statements), then the theorems.
--   Runtime      runtime/dto.rs and config.rs (Dto), runtime/storage.rs (Storage, Requests),
--                runtime/runs.rs (Polls: the checks on what Hermes answers; Admission: `start`; Runs:
--                `apply_poll`, `apply_cancel_receipt`, `interrupt_for_quit`), runtime/resources.rs
--                (Resources), runtime/interfaces.rs (Interfaces: `validate` and the datasets; its
--                Nodes: the tree of nodes), then the theorems.
--   Examples     concrete runs, at which the theorems are applied.
--
-- Conventions. State is passed on: an operation takes the table and returns the new one with its
-- result, and what it changed before an error stays changed unless it stands in a transaction. A
-- table of the database is the list of its rows in the order of insertion, and a JSON column holds
-- the value that its text decodes to. Failures of SQLite and of serde are not modelled, except that
-- each statement which writes the table of connections may fail, as connectors.rs handles it: an
-- argument `Statements` says which ones succeed. Identifiers from `Uuid::new_v4`, cancellation
-- tokens and readings of the clock are arguments. Numbers are natural numbers; a u64 counter that
-- wraps keeps its modulus. Instants of chrono are integers. The loops over events, pages, grants,
-- rounds, replies and datasets recurse on their lists; those that wait for the outside world
-- recurse on the list of its answers. The paging loop runs four turns, as the source does. `node`
-- of the validator recurses on the levels that are left, three at the root, since the source
-- refuses a container at depth three. `lines_of` of a request has the length of its text as fuel,
-- and every line but the last takes a character or more of it; the digits of a port, which is a
-- u16, are at most five.
-- A step that takes a lock is one step of the model; what another task does in between is another
-- step, and clocks are read once for each reading in the source.
--
-- Not modelled: windows, web views, processes, sockets, HTTP, the keychain, cryptography,
-- profiles on disk, the schema migrations, other failures of the database, poisoned mutexes, the
-- Tauri commands and the asynchronous loops that call the steps above, the reads of Google
-- services (connectors/reads.rs), the client of Hermes (hermes.rs), and the front end.
pub mod Prelude
pub mod Host
pub mod Connectors
pub mod Validation
pub mod Runtime
pub mod Store
pub mod Browser
pub mod Provider
pub mod Core
pub mod Examples

-- ===== src/Lib.antt =====
-- The council: a domain kernel of sessions and ballots, and the durable store of its service.
--
-- The program's parts that are modelled, and their files:
--   Council/Contributor, Council/Ballot   internal/council/domain.go: the roster, `Tally`.
--   Council/Status, Council/Session/*     internal/council/domain.go: `Session` and its methods.
--     State, Prompts, Turns, Recovery and Control hold the methods. `Turns` and `ActiveTurn` of the
--     source share a pointer, so turns live in a heap of cells. Step makes calls into histories;
--     Change, Invariant, History, Outcomes, Finality and Strangers hold the proofs.
--   Storage/Rows, Storage/Journal         internal/storage: schema.sql, schema_v2.go, types.go, and
--     the journal of session_store.go. A table is the function that looks a row up, or a list.
--   Storage/Authority                     controller_leases.go: who may give a command.
--   Storage/Commands, Prompts, Release, Cancel, Terminal, HostLoss, Control, Dispatch, Reconcile
--     session_store.go and transitions.go, one function per transition: its input checks, the
--     authority of its caller, the replay of a committed operation id, the new decision (`…_new`).
--   Storage/Observed                      execution_outcomes.go: what the supervisor records.
--   Storage/Step                          the transitions as commands, and histories of commands.
--   Storage/Replay/*                      what the operation ids guarantee.
--   Storage/Sessions/*                    the changes of the tables, their invariant, their history.
--   Storage/Grants/*                      controller_leases.go and controller_attachment.go: grants
--     of a run's control, revocation, and the episodes of a controller's connection.
--   Storage/Create, Storage/Create/*      session_store.go: the creation of runs and sessions. The ids of
--     the rows of `sessions` stand beside that table, for its unique index.
--   Storage/Lifetime, Storage/Lifetime/*  histories of all these operations from an empty database.
--   Storage/Attempts/*                    agy_state.go and claude_state.go: the ledgers of attempts and
--     their launches. A table is the list of its rows, since sessions share attempt ids.
--   Adapter/Usage, Adapter/Event          internal/adapter/types.go and stream.go: turn references,
--     usage, capabilities, and which events are valid.
--   Adapter/Stream, Adapter/Stream/*      internal/adapter/stream.go: `BufferedStream`, any number of
--     goroutines that call it, interleaved step by step, and the observer that receives.
--   Service/Coordinator                   internal/service/coordinator.go: admission, accounting and
--     shutdown; Calls makes the methods into histories. Observers and Attachments model the same
--     struct's event fan-out and its record of attached controllers, whose fields no other method
--     reads. Accounting, Admission, Observers/* and Attachments/* hold the proofs.
--   Protocol, Protocol/*                  what the kernel and the store both promise of the turns of a
--     session: the phases of its keys and the steps between them. Kernel and Store read the phases off
--     `Session` and off the tables.
--   Common/*                              Boolean tests, texts, maps and results.
--
-- Every transition runs in one SQL transaction on one writer, so a history is a list of commands,
-- and a command that fails leaves the tables as they were. A command returns a result: the receipt
-- with the new tables, or one of the errors of `StoreError`.
--
-- `Env` holds what the store takes from elsewhere: the SHA-256 digest and the JSON of a list of
-- texts, of the standard library, and `SanitizeText` of redaction.go. No theorem asks anything of
-- them. The time is an argument of each transition, and so is the attachment id that is drawn.
--
-- In the stream, what the code does under its mutex is one step, since nothing blocks there, and each
-- other shared access is a step of its own; a schedule is the list of who moves. What Go answers with
-- a panic is a state of the model. A method of the coordinator holds its mutex throughout, so it is
-- one step, and a history of calls is a list; `CancelAll` alone acts before it takes the mutex, which
-- is a step of its own, and what it does under it to the observers stands with them.
--
-- Bounds: row versions and recovery generations are int64 columns; the transitions refuse what
-- passes the range (`check_version`, `next_recovery_gen`). The kernel's recovery generation is a
-- uint64 and wraps. `project_session_connection`, `acknowledged_new` and the grants' generations are written without a
-- bound. No definition runs on fuel but `decimal`, whose fuel is one more than the number.
--
-- Not modelled: the creation of a run with a canonical profile, proposal sets, decisions, artifacts, canonical
-- profiles, the ledger of Codex, the session bindings, the adapters, the HTTP handlers, the client and the
-- commands. They are I/O, or stand apart from the tables modelled here.
pub mod Adapter
pub mod Common
pub mod Council
pub mod Protocol
pub mod Service
pub mod Storage

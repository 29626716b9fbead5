-- ===== src/Lib.antt =====
-- A verification library of Session Manager, which runs teams of coding agents in terminal sessions.
-- The server (src/server.py, src/session_manager.py) keeps the sessions and calls the components
-- modelled here; all but LockManager, which writes lock files, keep their own SQLite databases beside
-- their state in memory.
--
-- RequestLedger models src/codex_request_ledger.py, the ledger of approvals and questions that an
-- agent of the Codex app server puts to its users. `register_request`, `resolve_request`,
-- `mark_expired` (`_mark_expired`), `expire_after_timeout`, `wait_for_resolution`, `get_request`,
-- `list_requests`, `has_pending_requests`, `oldest_pending_summary`, `orphan_pending_for_session` and
-- `init` (`__init__` with `_init_db`) stand for the methods of those names. RequestLedger/Types and
-- Rows hold the rows, the futures and the timers; Runs the steps that the ledger can take, where
-- asyncio lets other calls come between. The JSON codec is a parameter whose `loads` undoes `dumps`;
-- the clock and new identifiers are arguments. Errors of the database and of threads are not
-- modelled.
--
-- QueueRunner models src/queue_runner.py, which runs local commands under shared limits. Types
-- holds the jobs, the runner (`_jobs`, the table queue_jobs, the tasks) and what an operation reads
-- from outside; Gates the conditions of admission; QueueRunner the methods under `_lock` down to
-- `_admit_jobs_locked`; Calls the calls that come to the runner: `create_job` from the lock on,
-- `cancel_job`, `_wait_for_job`, `start`, `_recover_running_job_locked`, `_poll_recovered_job` and
-- a round of `_scheduler_loop`; Runs any sequence of them. A method runs under the lock, so it is
-- one step; the process, the clock, the free memory and the exit code are readings, arbitrary at
-- each step. Search and Priority are about which job is admitted next. The loop of
-- `_admit_jobs_locked` recurses on fuel: more than twice the number of pending jobs and the number
-- of running background jobs is enough. An exception in the creation of a process ends an
-- admission. The texts of the notices, the wrapper script, resource sampling, `stop` and the policy
-- runs are not modelled.
--
-- EventStore models src/codex_event_store.py. EventStore itself is the ledger of relayed assistant
-- messages, `has_assistant_message_relayed`, `has_assistant_turn_relayed` and
-- `mark_assistant_message_relayed` over the table codex_assistant_relays; EventStore/Events is
-- `append_event` over the table codex_session_events, the rings and the marks of the sessions.
-- EventStore/Reading is `get_events` and `get_ring_events`, Ordered and Cursor about reading page by
-- page, Ring about the rings; EventStore/Pruning is `_prune_incremental`, Batch and Retention about
-- what it takes away. SHA-256, the JSON codec and the clock are parameters, and an argument says
-- whether the transaction fails. Times are numbers, in the order of their ISO texts. The thread that
-- calls `_prune_incremental`, and `_prune_locked`, which nothing calls, are not modelled.
--
-- LockManager models src/lock_manager.py: `try_acquire`, `acquire_lock`, `release_lock`,
-- `check_lock`, `is_locked` and `_read_lock_file`, down to the characters of the lock file.
-- LockManager/Lines and RoundTrip are about the file's text, Exclusion about two sessions at one
-- repository. What git says is an argument; times in ISO form are a parameter, each written on one
-- line and read back. A write that fails leaves any file. The functions that only call git are not
-- modelled.
--
-- MessageQueue models the messages of src/message_queue.py that wait for sessions, the table
-- message_queue: `queue_message` up to the start of a delivery task, `get_pending_messages`,
-- `_mark_expired`, `_mark_delivered`, `was_message_delivered`, the deletions of
-- `retire_session_queue`, `cancel_context_monitor_messages_from`,
-- `cancel_queued_messages_for_target`, `cancel_queued_track_reminds` and
-- `cancel_queued_track_status_nudges`. MessageQueue/Delivery is `_try_deliver_messages` under the
-- lock of its session, Urgent is `_deliver_urgent`, each as one step: what comes from the terminal,
-- the clock and other components is a reading, and what it calls of them an effect.
-- MessageQueue/Pending, Batches and Fifo are about the queue. MessageQueue/State is the delivery
-- state of a session; Stops the methods that change it, among them `mark_session_idle`,
-- `mark_session_active`, `arm_stop_notify` and `_run_delayed_stop_notification`, Clears what a
-- /clear and a handoff do to it (`_invalidate_session_cache` of src/server.py); StopCalls any
-- sequence of them, of what Clears has, and of deliveries. StopCounts, DueCounts and Notified count
-- notifications, StopTurns is about fences, TurnEnds about the stop that notifies a sender. A task
-- of a delayed notification is one step behind its sleep. Watches, wakes, scheduled reminders and
-- the sending of a handoff are not modelled.
--
-- Reminds models the periodic reminders of src/message_queue.py: `_remind_registrations` and the
-- table remind_registrations. Reminds has `cancel_remind`, `reset_remind` and
-- `refresh_persistent_tracked_remind`; Registering `register_periodic_remind` and
-- `cancel_tracked_remind_on_reply`; Rounds a round of `_run_remind_task` and
-- `_recover_remind_registrations`. Backing, Storing, Preserving, Recovery and Runs are about the
-- table against the memory. The JSON codec of the owners is a parameter; messages and tasks are
-- calls. The clock does not go back behind the start of a cycle.
--
-- ResponseRelay models the ledger of src/response_relay.py: the tables inbound_turns and
-- assistant_outputs and the methods `record_inbound_turn`, `update_inbound_boundary`,
-- `replace_inbound_transcript_boundary`, `get_latest_active_turn`, `claim_assistant_output`,
-- `mark_assistant_output_relayed` and `release_assistant_output_claim`. ResponseRelay/Turns is
-- about the inputs, Claims about the outputs. ResponseRelay/Transcript is
-- `find_claude_inbound_turn_boundary_offset` and `collect_claude_assistant_outputs_after_turn`,
-- Lines `bytes.splitlines`, Boundary about the two scans together. Times are in microseconds;
-- hashes, the JSON of a line, ISO times and the clock are parameters.
--
-- Sql holds what the statements of the program mean on a table; Prelude the shared names and lemmas.
-- The remaining components of the program (the session manager, the terminal control, the command
-- line, the Telegram and mail clients, the Android app) are not modelled.
pub mod Prelude
pub mod Sql
pub mod RequestLedger
pub mod QueueRunner
pub mod EventStore
pub mod LockManager
pub mod MessageQueue
pub mod ResponseRelay
pub mod Reminds

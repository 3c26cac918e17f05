-- ===== src/Lib.antt =====
-- CW Station: a Django application that decodes Morse code from audio, keeps a log of contacts,
-- and runs its work as background tasks. This library models the Morse engine (apps/cw/engine),
-- the retry layer of the background tasks (apps/tasks), the scheduler that enqueues them
-- (apps/scheduler), the approval requests (apps/approvals), the webhooks (apps/webhooks), and two
-- parts of the workbench: the contact log with its ADIF files (apps/cw/logbook.py) and the keying
-- of a rig (apps/cw/transmit.py).
--
-- How the parts interact. Blocks of audio become magnitudes, which `CWDecoder` turns into marks,
-- spaces, elements and characters by the table of morse.py; each character goes to the listeners,
-- one of which is `CWLogBridge`, which fills in the draft of a contact. Independently, workers run
-- tasks and write their results; a failed task is retried by the receiver of a signal, a task
-- whose worker died is failed and retried by the reaper, and a task that comes back after it was
-- given up is recorded as a late completion. All of these write the table of attempts, from which
-- `chain_outcome` tells what became of a task. Each worker has a thread that writes its heartbeat,
-- by which the reapers tell who is alive, and that reaps in its turn. A tick of the scheduler
-- claims each job that is due by moving its cursor, holds it back while its last run goes on (by
-- `chain_outcome`), and enqueues its task. Requests for approval wait in a table of their own
-- until someone decides, withdraws or outlives them. When a record of a model that asks for it
-- changes, the webhooks make a delivery for each endpoint that subscribes to the event; a task
-- sends it, under the guard against private targets, and a tick of their own claims those that
-- wait for a retry. What comes in by POST is verified, recorded and handed to a handler in the
-- background, whose own writes set off no event unless it asks for that.
--
-- Files and sources:
--   Prelude            lists, texts, tests on numbers, and tables of rows with their queries
--   Cw/Morse           apps/cw/engine/morse.py: CHAR_TO_MORSE, MORSE_TO_CHAR, decode_symbol,
--                      encode_text (encode_text's loop is encode_from, its body encode_step)
--   Cw/Events          apps/cw/engine/events.py: the events and the result
--   Cw/Decoder         apps/cw/engine/cw.py: State holds CWConfig and CWDecoder (here
--                      CwConfig and CwDecoder), Elements the methods from _flush_char to
--                      _space_logic, Stream those from _step to flush; a method returns
--                      the new decoder and the events it emits
--   Cw/Bridge          apps/cw/engine/bridge.py: CWLogBridge; on_events is the manager's loop over
--                      the events (apps/cw/engine/manager.py)
--   Cw/Rig             apps/cw/rigctl.py: RigctldClient
--   Cw/Transmit        apps/cw/transmit.py: transmit_session; run's body is key_and_play
--   Cw/Logbook         apps/cw/logbook.py: bands, modes and adif_export
--   Cw/Adif            the same file: parse_adif (its loop is parse_from)
--   Cw/Import          the same file: import_adif (its loop is import_records)
--   Tasks/Model        apps/tasks/models.py and exceptions.py: the rows and the tables (Db)
--   Tasks/Policy       apps/tasks/reliability.py: RetryPolicy and its delay
--   Tasks/Retry        the same file: _decide, maybe_retry, pin_max_attempts
--   Tasks/Late         the same file: _mark_superseded, record_late_completion and the sweep
--   Tasks/Repair       the same file: repair_missed_retries
--   Tasks/Chain        the same file: chain_outcome
--   Tasks/Reaper       apps/tasks/reaper.py: find_lost_tasks, reap_lost_tasks
--   Tasks/Signals      apps/tasks/signals.py: retry_failed_task
--   Tasks/Heartbeat    apps/tasks/heartbeat.py: HeartbeatThread and the worker's rows; run_round is
--                      one round of run
--   Scheduler/Schedules  apps/scheduler/schedules.py: parse_interval, _step_interval, next_run,
--                      missed_periods
--   Scheduler/Model    apps/scheduler/models.py: ScheduledJob and ScheduledJobRun
--   Scheduler/Services apps/scheduler/services.py: run_due_jobs; _process_job_body is
--                      claim_job and settle
--   Scheduler/Registry apps/scheduler/registry.py: sync_code_jobs
--   Approvals/Model    apps/approvals/models.py: the columns that matter to a decision
--   Approvals/Permissions  apps/approvals/permissions.py: can_view, can_decide, can_cancel
--   Approvals/Services     apps/approvals/services.py: request_approval, decide, cancel, mark_expired;
--                      `claim` is the conditional UPDATE of _claim, `req` the caller's copy of a row
--   Webhooks/Model     apps/webhooks/models.py: the rows, and what is taken from Python (Outside)
--   Webhooks/Headers   apps/webhooks/hooks.py: CaseInsensitiveDict
--   Webhooks/Hooks     the same file and registry.py: the registries of hooks and handlers
--   Webhooks/Guard     apps/webhooks/services.py and context.py: sign, verify, url_is_allowed,
--                      ip_is_blocked, current_origin
--   Webhooks/Patterns  apps/webhooks/services.py: validate_event_patterns, unmatched_patterns
--   Webhooks/Backoff   the same file: backoff_seconds, clamp_backoff, parse_retry_after
--   Webhooks/Services  the same file: fan_out, run_due_deliveries, replay_delivery, replay_dead
--   Webhooks/Send      apps/webhooks/tasks.py: deliver_webhook up to its answer (send_delivery), with
--                      _open and _check_peer (http_exchange)
--   Webhooks/Deliver   the same file: _record_attempt, _bump_endpoint and the whole deliver_webhook
--   Webhooks/Inbound   apps/webhooks/views.py: incoming_webhook; tasks.py: dispatch_incoming
-- The other files hold proofs, and the files whose names end in Tests, with Samples and
-- Milli, hold examples.
--
-- Parameters. Floating point is the record `Floats` of Cw/Floats, of which nothing is assumed; the
-- examples use thousandths (Cw/Milli). What the task layer asks of Django is the record `World` of
-- Tasks/Policy: settings, the import of task modules and exception classes, the random generator
-- and the enqueue of a result. Settings and registered kinds of approvals are the record `Site` of
-- Approvals/Model; a kind's callback is taken to touch no approval row. Months and years
-- (python-dateutil), cron (croniter) and time zones are the record `Calendar` of
-- Scheduler/Schedules, and the enqueue of a scheduled task the record `Backend` of
-- Scheduler/Services; the names of zones and the texts of anchors are the record `Zones` of
-- Scheduler/Registry. The TCP connection to rigctld is the record `Link` of Cw/Rig; a session's
-- audio and how its player ends are arguments; so is what float and round make of a frequency's
-- text in Cw/Import. DNS, urllib.parse, ipaddress, hmac and fnmatch are the record `Outside` of
-- Webhooks/Model, the settings `WebSettings` beside it, and the hooks of other apps `Hooks` of
-- Webhooks/Hooks; the broker and the network are functions of a `Moment` of Webhooks/Send, and the
-- behaviour of an inbound handler is an argument. Where a theorem relies on one of these, the
-- hypothesis says so: that `random.uniform(0, x)` is at most x, that enqueueing a result leaves
-- the rows that are there, that a month has 28 days at least, that the next fire of a cron
-- expression is later than the time given, and that a hex digest is ASCII without blanks.
--
-- Conventions. A table is the list of its rows, ids and times are numbers (seconds; waits are in
-- milliseconds, so that half of a number of seconds is exact; the scheduler's times are
-- microseconds since the year 1), and an operation takes the tables and returns them. An exception
-- that leaves `maybe_retry` is the outcome `raised`; the unique columns refuse a row in
-- create_attempt, which takes the enqueued result back with it. Interleavings are the steps of
-- Tasks/Reach and Approvals/History, in which an operation is one step, and of Scheduler/Claims,
-- in which a tick's claim of a job and what it does then are two. In Webhooks/Steps the start of a
-- task, which loads its copy of the delivery, and its end are two steps, and a tick's claims one
-- each. A list of pairs is a dictionary in the order of its keys.
--
-- Bounds. The loop of encode_text is a recursion on the text with a count of the characters that a
-- prosign still jumps over. The loop of chain_outcome has the source's own bound of 1000 rounds,
-- and the loops over calendar periods that of 10000; a month has at least 28 days, so these cover
-- 766 years. The loop of parse_adif is a recursion on the text with a count of the characters to
-- skip; a number has no more digits than its value and one.
--
-- Not modelled: the numerical front end of the decoder (the product that yields a magnitude, gain
-- and frequency control), extract_callsigns, texts that are only rendered or logged, the outcomes
-- that the scheduler copies onto its runs, quick_log and the callbook, the pairing of two stations
-- (pair_smallstack), the picker of event patterns, and the rest of the application: its web pages,
-- interfaces and uploads.
pub mod Prelude
pub mod Approvals
pub mod Cw
pub mod Scheduler
pub mod Tasks
pub mod Webhooks

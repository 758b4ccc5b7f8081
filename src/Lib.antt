-- ===== src/Lib.antt =====
-- Verification of telegram-bot-delivery-enhanced: a service that accepts bulk jobs for Telegram bots,
-- stores them in SQLite, sends each recipient's request under limits, and reports a completed job to
-- a webhook.
--
-- The parts. HTTP handlers (crates/telegram-bulk-delivery/src/http) and the dispatcher
-- (src/scheduler) never write to the database themselves: they send a `WriterCmd` to one writer
-- thread (src/store/writer.rs), which runs each in a transaction. What a method of the Bot API is, is
-- read from a committed catalog (crates/telegram-api-meta). When the last recipient of a job ends, the
-- writer splits the results into webhook pages (src/webhook.rs).
--
-- The files.
--   Base: shared names, Boolean tests, lists as tables, membership, integers over the native numbers.
--   Domain: src/domain, identifiers, states and the policy snapshot.
--   Meta: crates/telegram-api-meta/src/lib.rs. Spec has the types, Params and Catalog the tables,
--     Lookup the queries, Naming the proofs.
--   Webhook: src/webhook.rs. Pages is `page_bodies`, Splitting its proofs. Addresses, Hosts and
--     Literals are the SSRF rules, Backoff the delays, Deliver is `deliver_one`, Pump is `pump_at`;
--     Ranges writes out the denied ranges; Outcomes, Attempts, Safety and Turns are their proofs.
--   Store: src/store/writer.rs over the tables of src/store/migrations. Tables has one record for a
--     row and a list for a table; Sql has the expressions of the statements. The commands: Accept
--     (BeginAcceptJob, InsertRecipientBatch, PromoteJob, AbortAcceptJob), Lease (LeaseBatch,
--     DelayRecipient, ReleaseLease, MarkWireStarted, MigrateRecipient), Complete (CompleteAttempt,
--     `reconcile_job`, and Complete/Events for `finalize_completed_job`), Recover (RecoverLeases,
--     RequeueExpiredLeases, ExpireDeadline, FailBotUnauthorized), Webhooks (MarkWebhook), Upkeep
--     (UpsertBot, UpsertConfig, PauseScope, RetentionTick, PersistScheduler). Execute is the dispatch
--     `execute`, and `run` the writer loop over the requests in the order of its queue.
--   Store/Ledger: what job rows say of their recipients, one module for each group of commands, and
--     Commands for all of them. Store/Tokens, Store/Fencing and Store/Lasting have the
--     lease tokens.
--   Store/Reader: the queries of src/store/reader.rs. Rows has what they return, Queries and Upkeep the
--     queries; Paging is also `results` of src/http/api.rs with a client that follows its cursor,
--     Gating and Leasing relate queries to commands. Store/Ordering has what ORDER BY keeps.
--   Http: Envelope is `parse_envelope` of src/api_model.rs, Ingest is `chat` and `ingest_payload` of
--     src/http/api.rs; Batches, Stored, Accepts and Refused are the proofs.
--   Telegram: Classify and Masking are src/telegram/classify.rs.
--   Scheduler: Wdrr is src/scheduler/fairness.rs. Grants has what `grant` grants, Keeping, Turning and
--     Steps what every operation keeps. Limiters is src/scheduler/limiters.rs: Scopes and Buckets the
--     code, Counting, Bounds, Taking, Places, Pausing and Running the proofs. Dispatcher is
--     src/scheduler/dispatcher.rs: Policy and Finish the code, Retries the proofs.
--   Examples: the theorems at concrete inputs.
--
-- How the model is made. An UPDATE or DELETE is a change of the rows that pass a Boolean test; key and
-- reference checks of the schema are written out where a command can meet them. A transaction runs the
-- operation on the database and gives the old one back on an error, also when the COMMIT is refused;
-- that SQLite rolls back is taken for granted, and a ROLLBACK that fails is not modelled. Times are
-- integers without bounds unless a theorem bounds them. Identifiers are typed, so the check in
-- `deliver_one` that a row's bot id has 32 bytes is left out. Counters are SQL integers and may be
-- negative. serde_json, sha2, the clock of the process and whether a COMMIT succeeds are fields of
-- `Env`, one for each request. The order in which `recover_expired` takes the ids of its HashSet is one
-- order of many. A HashMap is an association list. URL parsing, DNS, HTTP, encryption, HMAC,
-- serde_json's values and the arithmetic of f64 are records of functions that the definitions take as
-- parameters; a random draw is a function of its bound. A request's document is the members and values
-- that serde_json yields, and the answers of the writer to its batches are given, so that other
-- requests may come between them. The tasks of one turn of `pump_at` run at the same time in the
-- source, and their marks reach the writer in some order; here it is the order of the rows.
--
-- Fuel. `shrink`, the inner loop of `page_bodies`, gets the number of results as fuel; each round
-- pops one result and the loop stops at none. `scan`, the loop of `grant`, gets the length of the ring,
-- which is the source's own bound. `pump_at` and the client of `results` get their turns as fuel, and
-- theorems say how many are enough.
--
-- Not modelled: Checkpoint, Backup and the pragma of SetMaxPageCount, metrics, threads and channels;
-- the schema's pragmas and the blob files; most of the HTTP layer, configuration, cryptography, the
-- entry point, the simulator and the TypeScript client; `FromStr` of `Scope` and
-- `snapshot_target_rate`. The first group calls SQLite and the operating system only.
pub mod Base
pub mod Domain
pub mod Meta
pub mod Webhook
pub mod Store
pub mod Http
pub mod Telegram
pub mod Scheduler
pub mod Examples

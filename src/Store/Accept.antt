-- ===== src/Store/Accept.antt =====
-- Accepting a job: `BeginAcceptJob`, `InsertRecipientBatch`, `PromoteJob` and `AbortAcceptJob` of
-- src/store/writer.rs, with the key and reference checks of the schema.
use telegram_bot_delivery_en.Base.{
  ℕ, String, Bool, true, false, not, ◌&&◌, ◌||◌, List, [], ◌∷◌, ◌++◌, Option, none, some, ℤ, pos,
  ltb, ◌^◌, ◌==◌, nat_eq, string_eq, if◌then◌else◌, any, update_where, keep_where, count_where,
  length,
}
use telegram_bot_delivery_en.Domain.{
  BotId, JobId, JobState, RecipientState, WebhookState, job_state_eq, recipient_state_eq,
}
use telegram_bot_delivery_en.Store.Tables.{
  BotConfig, Job, JobFile, Recipient, Db, Result, ok, err, sqlite, invalid_command,
  capacity_exceeded, ◌>>=◌, WriterResult, done, count, Env, transaction, is_job, of_job, is_row,
}
use telegram_bot_delivery_en.Store.Sql.{is_waiting}

pub record RecipientInsert : Type 0 where
  pub idx : ℕ
  pub bot_id : BotId
  pub patch_json : String
  pub chat_id : Option String
  pub chat_kind : Option String

abbrev pub new_job : JobId → BotId → String → String → ℕ → Option ℤ → Job
new_job id bot method policy version deadline = record {
  job_id = id;
  bot_id = bot;
  method = method;
  shared_params_json = "{}";
  state = JobState.accepting;
  total = pos 0;
  queued = pos 0;
  inflight = pos 0;
  delayed = pos 0;
  succeeded = pos 0;
  failed = pos 0;
  ambiguous = pos 0;
  policy_snapshot_json = policy;
  config_version = version;
  accepted_at_unix = none;
  started_at_unix = none;
  completed_at_unix = none;
  expire_at_unix = none;
  deadline_unix = deadline;
  webhook_event_id = none;
  webhook_state = WebhookState.not_configured;
  error_summary = none;
}

-- The job id is new, the bot exists, and the version fits an i64.
unfoldable pub insert_job : Job → Db → Result (Db × WriterResult)
insert_job j db =
    if not (ltb j.config_version (2 ^ 63))
    then err (invalid_command "config version exceeds sqlite integer")
    else if any (is_job j.job_id) db.jobs
    then err (sqlite "UNIQUE constraint failed: jobs.job_id")
    else if not (any (λ b. b.bot_id == j.bot_id) db.bots)
    then err (sqlite "FOREIGN KEY constraint failed")
    else ok (record db { jobs = db.jobs ++ (j ∷ []) }, done)

unfoldable pub begin_accept_job :
    Env → JobId → BotId → String → String → ℕ → Option ℤ → Db → Db × Result WriterResult
begin_accept_job env id bot method policy version deadline =
    transaction env (insert_job (new_job id bot method policy version deadline))

-- The columns that the INSERT leaves out take the schema's defaults.
abbrev pub new_recipient : JobId → RecipientInsert → Recipient
new_recipient id row = record {
  job_id = id;
  idx = row.idx;
  bot_id = row.bot_id;
  patch_json = row.patch_json;
  chat_id = row.chat_id;
  chat_kind = row.chat_kind;
  state = RecipientState.queued;
  attempt_count = 0;
  retry_consumed = 0;
  wire_started = false;
  lease_owner = none;
  lease_until_unix = none;
  not_before_unix = pos 0;
  limiter_scope_hint = none;
  telegram_message_id = none;
  time_send_unix = none;
  error_norm = none;
  last_http_status = none;
  last_error_desc = none;
  lease_token = 0;
}

unfoldable pub insert_row : JobId → RecipientInsert → Db → Result Db
insert_row id row db =
    if any (is_row id row.idx) db.recipients
    then err (sqlite "UNIQUE constraint failed: recipients.job_id, recipients.idx")
    else if not (any (is_job id) db.jobs)
    then err (sqlite "FOREIGN KEY constraint failed")
    else ok (record db { recipients = db.recipients ++ (new_recipient id row ∷ []) })

unfoldable pub insert_rows : JobId → List RecipientInsert → Db → Result Db
insert_rows id [] db = ok db
insert_rows id (row ∷ rows) db = insert_row id row db >>= insert_rows id rows

unfoldable pub insert_recipient_batch :
    Env → JobId → List RecipientInsert → Db → Db × Result WriterResult
insert_recipient_batch env id rows db =
    if ltb 1000 (length rows)
    then (db, err (invalid_command "recipient batch exceeds 1000"))
    else transaction env (λ d. insert_rows id rows d >>= λ d'. ok (d', count (length rows))) db

-- Recipients that are not terminal, over all jobs.
unfoldable pub held : List Recipient → ℕ
held = count_where λ r. is_waiting r.state || (r.state == RecipientState.leased)

abbrev pub over_cap : Option ℕ → List Recipient → Bool
over_cap none rows = false
over_cap (some cap) rows = ltb cap (held rows)

abbrev pub is_accepting : JobId → Job → Bool
is_accepting id j = is_job id j && j.state == JobState.accepting

-- `EXISTS(SELECT 1 FROM bot_configs WHERE bot_id=… AND webhook_url IS NOT NULL)`.
abbrev pub is_set {ℓ} : {A : Type ℓ} → Option A → Bool
is_set none = false
is_set (some a) = true

abbrev pub has_webhook : List BotConfig → BotId → Bool
has_webhook configs bot = any (λ c. c.bot_id == bot && is_set c.webhook_url) configs

abbrev pub promote : List BotConfig → ℕ → String → ℤ → Job → Job
promote configs total shared accepted_at j = record j {
  state = JobState.queued;
  total = pos total;
  queued = pos total;
  shared_params_json = shared;
  accepted_at_unix = some accepted_at;
  webhook_state =
      if has_webhook configs j.bot_id then WebhookState.pending else WebhookState.not_configured;
}

unfoldable pub insert_files : JobId → List JobFile → List JobFile → Result (List JobFile)
insert_files id [] files = ok files
insert_files id (f ∷ fs) files =
    let rest = insert_files id fs (files ++ (record f { job_id = id } ∷ [])) in
    if not (ltb f.size_bytes (2 ^ 63))
    then err (invalid_command "file size exceeds sqlite integer")
    else if any (λ g. g.file_id == f.file_id) files
    then err (sqlite "UNIQUE constraint failed: job_files.file_id")
    else rest

pub record Promotion : Type 0 where
  pub job_id : JobId
  pub total : ℕ
  pub shared_params_json : String
  pub accepted_at_unix : ℤ
  pub file_rows : List JobFile
  pub nonterminal_cap : Option ℕ

unfoldable pub promote_rows : Promotion → Db → Result (Db × WriterResult)
promote_rows p db =
    if over_cap p.nonterminal_cap db.recipients
    then err (capacity_exceeded "global_nonterminal_recipients")
    else if not (count_where (is_accepting p.job_id) db.jobs == 1)
    then err (invalid_command "job is not accepting")
    else insert_files p.job_id p.file_rows db.job_files >>= λ files. ok (
      record db {
        jobs =
            update_where (is_accepting p.job_id)
              (promote db.bot_configs p.total p.shared_params_json p.accepted_at_unix) db.jobs;
        job_files = files;
      },
      done,
    )

unfoldable pub promote_job : Env → Promotion → Db → Db × Result WriterResult
promote_job env p = transaction env (promote_rows p)

-- `DELETE FROM jobs`, with the schema's ON DELETE CASCADE. An event refers to its job and does not
-- cascade, so the row cannot go while the event stays.
unfoldable pub delete_jobs : (Job → Bool) → JobId → Db → Result (Db × ℕ)
delete_jobs which id db =
    let n = count_where which db.jobs in
    if n == 0
    then ok (db, 0)
    else if any (λ e. e.job_id == id) db.webhook_events
    then err (sqlite "FOREIGN KEY constraint failed")
    else ok (
      record db {
        jobs = keep_where (λ j. not (which j)) db.jobs;
        job_files = keep_where (λ f. not (f.job_id == id)) db.job_files;
        recipients = keep_where (λ r. not (of_job id r)) db.recipients;
        rate_samples = keep_where (λ s. not (s.job_id == id)) db.rate_samples;
      },
      n,
    )

unfoldable pub abort_accept_job : Env → JobId → Db → Db × Result WriterResult
abort_accept_job env id =
    transaction env λ db. delete_jobs (is_accepting id) id db >>= λ r. ok (r.0, count r.1)

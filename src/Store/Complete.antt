-- ===== src/Store/Complete.antt =====
-- Completing attempts and jobs: `reconcile_job` and `CompleteAttempt` of
-- src/store/writer.rs.
pub mod Events
use telegram_bot_delivery_en.Base.{
  ℕ, suc, ◌+◌, ◌-◌, ◌%◌, ◌^◌, String, str_append, Bool, true, false, ◌&&◌, List, [], ◌∷◌, ◌++◌,
  Option, none, some, ℤ, pos, negsuc, ◌+ℤ◌, ltb, ltb_ℤ, eqb_ℤ, ◌==◌, nat_eq, string_eq,
  if◌then◌else◌, any, update_where, keep_where, find_where, count_where, length,
}
use telegram_bot_delivery_en.Domain.{
  BotId, JobId, EventId, JobState, RecipientState, WebhookState, job_state_eq, recipient_state_eq,
  webhook_state_eq,
}
use telegram_bot_delivery_en.Webhook.Pages.{Bytes, ResultRow, max_webhook_page_bytes, page_bodies}
use telegram_bot_delivery_en.Store.Tables.{
  Job, Recipient, WebhookEvent, WebhookPage, Db, Result, ok, err, sqlite, ◌>>=◌, WriterResult, done,
  Env, transaction, is_job, of_job,
}
use telegram_bot_delivery_en.Store.Sql.{
  coalesce, unit_if, less_one, is_active, in_state, tally, sorted, count_rate,
}
use telegram_bot_delivery_en.Store.Lease.{holds_lease}
unfoldable pub use Events.*

-- The counters that `reconcile_job` reads off the recipients.
pub record Tallies : Type 0 where
  pub queued : ℕ
  pub leased : ℕ
  pub delayed : ℕ
  pub succeeded : ℕ
  pub failed : ℕ
  pub ambiguous : ℕ

abbrev pub tallies : JobId → List Recipient → Tallies
tallies id rows = record {
  queued = tally id RecipientState.queued rows;
  leased = tally id RecipientState.leased rows;
  delayed = tally id RecipientState.delayed rows;
  succeeded = tally id RecipientState.succeeded rows;
  failed = tally id RecipientState.failed rows;
  ambiguous = tally id RecipientState.ambiguous rows;
}

abbrev pub ended : Tallies → ℕ
ended t = t.succeeded + t.failed + t.ambiguous

-- `+604800`: seven days.
abbrev pub retention_secs : ℤ
retention_secs = pos 604800

abbrev pub stamp_completed : ℤ → Job → Job
stamp_completed now j = record j {
  state = JobState.completed;
  completed_at_unix = coalesce j.completed_at_unix (some now);
  expire_at_unix = coalesce j.expire_at_unix (some (now +ℤ retention_secs));
}

abbrev pub set_counters : Tallies → Job → Job
set_counters t j = record j {
  queued = pos t.queued;
  inflight = pos t.leased;
  delayed = pos t.delayed;
  succeeded = pos t.succeeded;
  failed = pos t.failed;
  ambiguous = pos t.ambiguous;
}

abbrev pub recount : ℤ → Tallies → Job → Job
recount now t j =
    if eqb_ℤ (pos (ended t)) j.total
    then stamp_completed now (set_counters t j)
    else set_counters t j

unfoldable pub reconcile_job : Env → JobId → ℤ → Db → Result Db
reconcile_job env id now db =
    if count_where (of_job id) db.recipients == 0
    then err (sqlite "Invalid column type Null: sum(state='queued')")
    else finalize_completed_job env id now (record db {
      jobs = update_where (is_job id) (recount now (tallies id db.recipients)) db.jobs;
      rate_samples = count_rate id now db.rate_samples;
    })

pub data CompletionOutcome : Type 0 where
  succeeded : Option ℤ → ℤ → CompletionOutcome
  failed : String → Option ℕ → Option String → CompletionOutcome
  ambiguous : CompletionOutcome
  delayed : ℤ → String → Bool → CompletionOutcome

-- The parameters that the outcome binds in the UPDATE.
pub record Attempt : Type 0 where
  pub state : RecipientState
  pub error : Option String
  pub not_before : Option ℤ
  pub consume : Bool
  pub message_id : Option ℤ
  pub sent : Option ℤ
  pub http_status : Option ℕ
  pub error_desc : Option String

unfoldable pub attempt_of : CompletionOutcome → Attempt
attempt_of (CompletionOutcome.succeeded message sent) = record {
  state = RecipientState.succeeded;
  error = none;
  not_before = none;
  consume = true;
  message_id = message;
  sent = some sent;
  http_status = none;
  error_desc = none;
}
attempt_of (CompletionOutcome.failed norm status desc) = record {
  state = RecipientState.failed;
  error = some norm;
  not_before = none;
  consume = true;
  message_id = none;
  sent = none;
  http_status = status;
  error_desc = desc;
}
attempt_of CompletionOutcome.ambiguous = record {
  state = RecipientState.ambiguous;
  error = some "ambiguous";
  not_before = none;
  consume = true;
  message_id = none;
  sent = none;
  http_status = none;
  error_desc = none;
}
attempt_of (CompletionOutcome.delayed not_before norm consume) = record {
  state = RecipientState.delayed;
  error = some norm;
  not_before = some not_before;
  consume = consume;
  message_id = none;
  sent = none;
  http_status = none;
  error_desc = none;
}

abbrev pub or_else {ℓ} : {A : Type ℓ} → Option A → A → A
or_else none d = d
or_else (some a) d = a

abbrev pub record_attempt : Attempt → Recipient → Recipient
record_attempt a r = record r {
  state = a.state;
  attempt_count = r.attempt_count + 1;
  retry_consumed = r.retry_consumed + (if a.consume then 1 else 0);
  error_norm = a.error;
  not_before_unix = or_else a.not_before r.not_before_unix;
  telegram_message_id = a.message_id;
  time_send_unix = a.sent;
  lease_owner = none;
  lease_until_unix = none;
  wire_started = false;
  last_http_status = coalesce a.http_status r.last_http_status;
  last_error_desc = coalesce a.error_desc r.last_error_desc;
}

abbrev pub count_attempt : RecipientState → Job → Job
count_attempt s j = record j {
  inflight = less_one j.inflight;
  succeeded = j.succeeded +ℤ unit_if (s == RecipientState.succeeded);
  failed = j.failed +ℤ unit_if (s == RecipientState.failed);
  ambiguous = j.ambiguous +ℤ unit_if (s == RecipientState.ambiguous);
  delayed = j.delayed +ℤ unit_if (s == RecipientState.delayed);
}

abbrev pub is_active_job : JobId → Job → Bool
is_active_job id j = is_job id j && is_active j.state

abbrev pub all_ended : Job → Bool
all_ended j = eqb_ℤ (j.succeeded +ℤ j.failed +ℤ j.ambiguous) j.total && ltb_ℤ (pos 0) j.total

-- The rate sample of a send that ended, and the job's completion once all its recipients ended.
unfoldable pub close_job : Env → JobId → ℤ → Db → Result Db
close_job env id finished db =
    let sampled = record db { rate_samples = count_rate id finished db.rate_samples } in
    elim (find_where (is_job id) db.jobs) [
      | none ↦ err (sqlite "query returned no rows")
      | some j ↦
          if all_ended j
          then finalize_completed_job env id finished (record sampled {
            jobs = update_where (is_active_job id) (stamp_completed finished) db.jobs;
          })
          else ok sampled
    ]

unfoldable pub move_attempt : JobId → ℕ → ℕ → Attempt → Db → Db
move_attempt id idx token a db = record db {
  recipients = update_where (holds_lease id idx token) (record_attempt a) db.recipients;
  jobs = update_where (is_active_job id) (count_attempt a.state) db.jobs;
}

unfoldable pub complete_rows :
    Env → JobId → ℕ → CompletionOutcome → ℕ → Db → Result (Db × WriterResult)
complete_rows env id idx outcome token db =
    let a = attempt_of outcome in
    if count_where (holds_lease id idx token) db.recipients == 0
    then ok (db, done)
    else if a.state == RecipientState.delayed
    then ok (move_attempt id idx token a db, done)
    else close_job env id (or_else a.sent env.wall_clock) (move_attempt id idx token a db) >>= λ d.
        ok (d, done)

unfoldable pub complete_attempt :
    Env → JobId → ℕ → CompletionOutcome → ℕ → Db → Db × Result WriterResult
complete_attempt env id idx outcome token = transaction env (complete_rows env id idx outcome token)

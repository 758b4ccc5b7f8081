-- ===== src/Store/Complete/Events.antt =====
-- The webhook event of a completed job: `finalize_completed_job` of src/store/writer.rs.
use telegram_bot_delivery_en.Base.{
  ℕ, suc, ◌-◌, ◌%◌, ◌^◌, str_append, Bool, false, ◌&&◌, List, [], ◌∷◌, ◌++◌, none, some, ℤ, pos,
  negsuc, ltb, ◌==◌, nat_eq, string_eq, if◌then◌else◌, any, update_where, keep_where, find_where,
  length,
}
use telegram_bot_delivery_en.Domain.{
  BotId, JobId, EventId, JobState, RecipientState, WebhookState, job_state_eq, recipient_state_eq,
  webhook_state_eq,
}
use telegram_bot_delivery_en.Webhook.Pages.{Bytes, ResultRow, max_webhook_page_bytes, page_bodies}
use telegram_bot_delivery_en.Store.Tables.{
  Job, Recipient, WebhookEvent, WebhookPage, Db, Result, ok, err, sqlite, ◌>>=◌, Env, is_job,
}
use telegram_bot_delivery_en.Store.Sql.{in_state, sorted}

-- `as u32`.
abbrev pub as_u32 : ℤ → ℕ
as_u32 (pos n) = n % 2 ^ 32
as_u32 (negsuc n) = 2 ^ 32 - 1 - n % 2 ^ 32

-- The columns of a result; a missing time is a conversion error.
unfoldable pub result_rows : List Recipient → Result (List ResultRow)
result_rows [] = ok []
result_rows (r ∷ rows) = result_rows rows >>= λ rest. elim r.time_send_unix [
  | none ↦ err (sqlite "Invalid column type Null: time_send_unix")
  | some at ↦
      ok (record { chat_id = r.chat_id; message_id = r.telegram_message_id; sent_at = at } ∷ rest)
]

unfoldable pub event_id_of : JobId → EventId
event_id_of id = str_append id "-event"

unfoldable pub new_pages : Env → EventId → ℤ → ℕ → List Bytes → List WebhookPage
new_pages env event now i [] = []
new_pages env event now i (body ∷ bodies) =
    record {
      event_id = event;
      page_index = i;
      delivered = false;
      body = body;
      body_sha256 = env.sha256 body;
      attempt_count = 0;
      next_attempt_unix = if i == 0 then some now else none;
      last_http_status = none;
      last_error = none;
    }
    ∷ new_pages env event now (suc i) bodies

abbrev new_event : EventId → JobId → BotId → ℤ → ℕ → WebhookEvent
new_event event id bot now pages = record {
  event_id = event;
  job_id = id;
  bot_id = bot;
  state = WebhookState.pending;
  attempt_count = 0;
  next_attempt_unix = now;
  lease_until_unix = none;
  page_count = pages;
  last_error = none;
  delivered_at_unix = none;
  created_at_unix = now;
}

-- `INSERT OR IGNORE` of the event, and its pages if it was inserted.
unfoldable pub add_event : Env → JobId → BotId → ℤ → List Bytes → Db → Db
add_event env id bot now bodies db =
    let event = event_id_of id in
    if any (λ e. e.event_id == event) db.webhook_events
    then db
    else if any (λ e. e.job_id == id) db.webhook_events
    then db
    else record db {
      webhook_events = db.webhook_events ++ (new_event event id bot now (length bodies) ∷ []);
      webhook_pages = db.webhook_pages ++ new_pages env event now 0 bodies;
    }

-- `SELECT … WHERE job_id=?1 AND state='succeeded' ORDER BY idx`.
unfoldable pub succeeded_rows : JobId → List Recipient → List Recipient
succeeded_rows id rows =
    sorted (λ r s. ltb r.idx s.idx) (keep_where (in_state id RecipientState.succeeded) rows)

unfoldable pub publish : Env → ℤ → Job → Db → List ResultRow → Db
publish env now j db rows =
    let event = event_id_of j.job_id in
    add_event env j.job_id j.bot_id now
      (page_bodies env.encoder max_webhook_page_bytes j.job_id event "completed" (as_u32 j.total)
        (as_u32 j.succeeded) (as_u32 j.failed) (as_u32 j.ambiguous) rows)
      (record db {
        jobs =
            update_where (is_job j.job_id) (λ k. record k { webhook_event_id = some event })
              db.jobs;
      })

unfoldable pub materialize : Env → ℤ → Job → Db → Result Db
materialize env now j db =
    result_rows (succeeded_rows j.job_id db.recipients) >>= λ rows. ok (publish env now j db rows)

abbrev pub is_completed : JobId → Job → Bool
is_completed id j = is_job id j && j.state == JobState.completed

unfoldable pub finalize_completed_job : Env → JobId → ℤ → Db → Result Db
finalize_completed_job env id now db = elim (find_where (is_completed id) db.jobs) [
  | none ↦ ok db
  | some j ↦ if j.webhook_state == WebhookState.pending then materialize env now j db else ok db
]

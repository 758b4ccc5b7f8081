-- ===== src/Store/Webhooks.antt =====
-- `MarkWebhook` of src/store/writer.rs: the outcome of one HTTP attempt for one page.
use telegram_bot_delivery_en.Base.{
  ℕ, String, Bool, true, not, ◌&&◌, List, [], ◌∷◌, ◌++◌, Option, none, some, ℤ, ltb, ◌==◌, nat_eq,
  string_eq, if◌then◌else◌, any, update_where,
}
use telegram_bot_delivery_en.Domain.{EventId, WebhookState}
use telegram_bot_delivery_en.Store.Tables.{
  WebhookEvent, WebhookPage, Db, Result, ok, err, sqlite, invalid_command, ◌>>=◌, WriterResult,
  done, Env, transaction,
}
use telegram_bot_delivery_en.Store.Sql.{text_is}

pub data WebhookTerminal : Type 0 where
  delivered : WebhookTerminal
  exhausted : String → WebhookTerminal

pub record WebhookMark : Type 0 where
  pub page : ℕ
  pub attempt : ℕ
  pub at_unix : ℤ
  pub http_status : Option ℕ
  pub error : Option String
  pub next_attempt_unix : Option ℤ
  pub terminal : Option WebhookTerminal

abbrev pub is_event : EventId → WebhookEvent → Bool
is_event id e = e.event_id == id

abbrev pub is_page : EventId → ℕ → WebhookPage → Bool
is_page id page p = p.event_id == id && p.page_index == page

-- `INSERT OR IGNORE`; the reference to the event is still checked.
unfoldable pub log_delivery : EventId → WebhookMark → Db → Result Db
log_delivery id m db =
    if not (any (is_event id) db.webhook_events)
    then err (sqlite "FOREIGN KEY constraint failed")
    else if any (λ d. d.event_id == id && d.page_index == m.page && d.attempt == m.attempt)
        db.webhook_deliveries
    then ok db
    else ok (record db {
      webhook_deliveries =
          db.webhook_deliveries
          ++ (record {
            event_id = id;
            page_index = m.page;
            attempt = m.attempt;
            at_unix = m.at_unix;
            http_status = m.http_status;
            error = m.error;
          }
              ∷ []);
    })

-- The page's counters, and the event's for page 0.
unfoldable pub count_webhook_attempt : EventId → WebhookMark → Db → Db
count_webhook_attempt id m db = record db {
  webhook_pages =
      update_where (is_page id m.page)
        (λ p. record p {
          attempt_count = m.attempt;
          last_http_status = m.http_status;
          last_error = m.error;
        })
        db.webhook_pages;
  webhook_events =
      if m.page == 0
      then update_where (λ e. is_event id e && ltb e.attempt_count m.attempt)
          (λ e. record e { attempt_count = m.attempt }) db.webhook_events
      else db.webhook_events;
}

abbrev pub set_event : EventId → (WebhookEvent → WebhookEvent) → Db → Db
set_event id f db = record db { webhook_events = update_where (is_event id) f db.webhook_events }

abbrev pub set_job_webhook : EventId → WebhookState → Db → Db
set_job_webhook id s db = record db {
  jobs =
      update_where (λ j. text_is j.webhook_event_id id) (λ j. record j { webhook_state = s })
        db.jobs;
}

abbrev pub deliver_page : EventId → ℕ → Db → Db
deliver_page id page db = record db {
  webhook_pages =
      update_where (is_page id page) (λ p. record p { delivered = true; next_attempt_unix = none })
        db.webhook_pages;
}

-- `NOT EXISTS(SELECT 1 FROM webhook_pages WHERE event_id=?1 AND delivered=0)`.
abbrev pub all_delivered : EventId → List WebhookPage → Bool
all_delivered id pages = not (any (λ p. p.event_id == id && not p.delivered) pages)

unfoldable pub mark_delivered : EventId → WebhookMark → Db → Db
mark_delivered id m db =
    let db' = deliver_page id m.page db in
    if all_delivered id db'.webhook_pages
    then set_job_webhook id WebhookState.delivered (
        set_event id
          (λ e. record e {
            state = WebhookState.delivered;
            delivered_at_unix = some m.at_unix;
            next_attempt_unix = m.at_unix;
            lease_until_unix = none;
          })
          db')
    else set_job_webhook id WebhookState.pending (
        set_event id
          (λ e. record e {
            state = WebhookState.pending;
            next_attempt_unix = m.at_unix;
            lease_until_unix = none;
          })
          db')

unfoldable pub mark_exhausted : EventId → WebhookMark → String → Db → Db
mark_exhausted id m error db = set_job_webhook id WebhookState.exhausted (
    set_event id
      (λ e. record e {
        state = WebhookState.exhausted;
        last_error = some error;
        next_attempt_unix = m.at_unix;
        lease_until_unix = none;
      })
      db)

-- The source's two branches, for page 0 and the others, set the same columns.
unfoldable pub mark_retry : EventId → WebhookMark → ℤ → Db → Db
mark_retry id m next db = set_job_webhook id WebhookState.pending (
    set_event id
      (λ e. record e {
        state = WebhookState.pending;
        next_attempt_unix = next;
        last_error = m.error;
        lease_until_unix = none;
      })
      (record db {
        webhook_pages =
            update_where (is_page id m.page) (λ p. record p { next_attempt_unix = some next })
              db.webhook_pages;
      }))

unfoldable pub mark_terminal : EventId → WebhookMark → Option WebhookTerminal → Db → Result Db
mark_terminal id m (some WebhookTerminal.delivered) db = ok (mark_delivered id m db)
mark_terminal id m (some (WebhookTerminal.exhausted error)) db = ok (mark_exhausted id m error db)
mark_terminal id m none db = elim m.next_attempt_unix [
  | none ↦ err (invalid_command "retry attempt requires next_attempt_unix")
  | some next ↦ ok (mark_retry id m next db)
]

unfoldable pub mark_webhook : Env → EventId → WebhookMark → Db → Db × Result WriterResult
mark_webhook env id m = transaction env λ db. do
  logged ← log_delivery id m db
  marked ← mark_terminal id m m.terminal (count_webhook_attempt id m logged)
  ok (marked, done)

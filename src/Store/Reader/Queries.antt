-- ===== src/Store/Reader/Queries.antt =====
-- The queries of `reader_loop` in crates/telegram-bulk-delivery/src/store/reader.rs. A JOIN on the
-- primary key of a table that gives no column is the existence of the row.
use telegram_bot_delivery_en.Base.{
  ℕ, ◌+◌, ◌-◌, ◌%◌, Bool, true, false, not, ◌&&◌, ◌||◌, List, [], ◌∷◌, ◌++◌, Option, none, some, ℤ,
  pos, negsuc, ◌-ℤ◌, ltb, leb, ltb_ℤ, leb_ℤ, ◌==◌, nat_eq, string_eq, if◌then◌else◌, any, map,
  keep_where, find_where, take,
}
use telegram_bot_delivery_en.Domain.{
  BotId, JobId, JobState, WebhookState, job_state_eq, recipient_state_eq, webhook_state_eq,
}
use telegram_bot_delivery_en.Store.Tables.{
  BotConfig, Job, Recipient, WebhookEvent, WebhookPage, RateSample, Db, is_job,
}
use telegram_bot_delivery_en.Store.Sql.{is_active, is_waiting, str_ltb, sorted}
use telegram_bot_delivery_en.Store.Reader.Rows.{JobStatus, ResultItem, WebhookPageRow}

-- `SELECT telegram_user_id FROM bots WHERE bot_id=?`: the outer option is the row's.
unfoldable pub read_bot : BotId → Db → Option (Option ℤ)
read_bot id db = elim (find_where (λ b. b.bot_id == id) db.bots) [
  | some b ↦ some b.telegram_user_id
  | none ↦ none
]

unfoldable pub read_config : BotId → Db → Option BotConfig
read_config id db = find_where (λ c. c.bot_id == id) db.bot_configs

-- `coalesce(sum(sent),0)` over the samples of the last seconds.
unfoldable pub sent_since : JobId → ℤ → List RateSample → ℕ
sent_since id from [] = 0
sent_since id from (s ∷ ss) =
    (if s.job_id == id && leb_ℤ from s.window_start_unix then s.sent else 0) + sent_since id from ss

unfoldable pub job_status : ℤ → List RateSample → Job → JobStatus
job_status now samples j = record {
  job_id = j.job_id;
  method = j.method;
  state = j.state;
  accepted_at_unix = j.accepted_at_unix;
  started_at_unix = j.started_at_unix;
  completed_at_unix = j.completed_at_unix;
  expire_at_unix = j.expire_at_unix;
  deadline_unix = j.deadline_unix;
  total = j.total;
  queued = j.queued;
  inflight = j.inflight;
  delayed = j.delayed;
  succeeded = j.succeeded;
  failed = j.failed;
  ambiguous = j.ambiguous;
  webhook_state = j.webhook_state;
  sent_5s = sent_since j.job_id (now -ℤ pos 5) samples;
  sent_30s = sent_since j.job_id (now -ℤ pos 30) samples;
}

-- An accepting job, and another bot's, is not there for the client.
abbrev pub is_visible : BotId → JobId → Job → Bool
is_visible bot id j = j.bot_id == bot && is_job id j && not (j.state == JobState.accepting)

unfoldable pub read_job : ℤ → BotId → JobId → Db → Option JobStatus
unfolding job_status
read_job now bot id db = elim (find_where (is_visible bot id) db.jobs) [
  | some j ↦ some (job_status now db.rate_samples j)
  | none ↦ none
]

unfoldable pub result_item : Recipient → ResultItem
result_item r = record {
  idx = r.idx;
  chat_id = r.chat_id;
  status = r.state;
  attempt_count = r.attempt_count;
  telegram_message_id = r.telegram_message_id;
  time_send_unix = r.time_send_unix;
  error = r.error_norm;
  error_desc = r.last_error_desc;
  http_status = r.last_http_status;
}

abbrev pub by_idx : Recipient → Recipient → Bool
by_idx r s = ltb r.idx s.idx

unfoldable pub is_result : BotId → JobId → ℕ → List Job → Recipient → Bool
is_result bot id cursor jobs r =
    any (λ j. is_job r.job_id j && is_visible bot id j) jobs && leb cursor r.idx

unfoldable pub read_results : BotId → JobId → ℕ → ℕ → Db → List ResultItem
unfolding result_item
read_results bot id cursor limit db =
    map result_item
      (take limit (sorted by_idx (keep_where (is_result bot id cursor db.jobs) db.recipients)))

-- `as u8`.
abbrev pub as_u8 : ℤ → ℕ
as_u8 (pos n) = n % 256
as_u8 (negsuc n) = 255 - n % 256

unfoldable pub weight_of : List BotConfig → BotId → ℤ
weight_of configs bot = elim (find_where (λ c. c.bot_id == bot) configs) [
  | some c ↦ c.fairness_weight
  | none ↦ pos 1
]

-- `DISTINCT`; a bot has one weight.
unfoldable pub distinct_bots : List Recipient → List BotId
distinct_bots [] = []
distinct_bots (r ∷ rs) =
    let rest = distinct_bots rs in if any (λ b. b == r.bot_id) rest then rest else r.bot_id ∷ rest

unfoldable pub is_due : ℤ → List Job → Recipient → Bool
is_due now jobs r =
    is_waiting r.state
    && leb_ℤ r.not_before_unix now
    && any (λ j. is_job r.job_id j && is_active j.state) jobs

unfoldable pub ready_bots : ℤ → Db → List (BotId × ℕ)
unfolding weight_of
ready_bots now db =
    map (λ b. (b, as_u8 (weight_of db.bot_configs b)))
      (distinct_bots (keep_where (is_due now db.jobs) db.recipients))

abbrev pub is_open : WebhookState → Bool
is_open WebhookState.pending = true
is_open WebhookState.delivering = true
is_open _ = false

-- `next_attempt_unix IS NULL OR next_attempt_unix<=now`.
abbrev pub null_or_due : Option ℤ → ℤ → Bool
null_or_due none now = true
null_or_due (some at) now = leb_ℤ at now

abbrev pub is_earlier : WebhookPage → WebhookPage → Bool
is_earlier p q = q.event_id == p.event_id && not q.delivered && ltb q.page_index p.page_index

unfoldable pub is_pending : ℤ → List WebhookPage → WebhookEvent × WebhookPage → Bool
is_pending now pages (e, p) =
    not p.delivered
    && is_open e.state
    && null_or_due p.next_attempt_unix now
    && not (any (is_earlier p) pages)

-- `JOIN webhook_events e ON e.event_id=p.event_id`.
unfoldable pub events_of : List WebhookEvent → WebhookPage → List (WebhookEvent × WebhookPage)
events_of [] p = []
events_of (e ∷ es) p =
    let rest = events_of es p in if e.event_id == p.event_id then (e, p) ∷ rest else rest

unfoldable pub join_events :
    List WebhookEvent → List WebhookPage → List (WebhookEvent × WebhookPage)
unfolding events_of
join_events events [] = []
join_events events (p ∷ ps) = events_of events p ++ join_events events ps

-- NULL comes first.
abbrev pub next_before : Option ℤ → Option ℤ → Bool
next_before none (some t) = true
next_before (some s) (some t) = ltb_ℤ s t
next_before _ none = false

abbrev pub page_before : WebhookEvent × WebhookPage → WebhookEvent × WebhookPage → Bool
page_before (e, p) (f, q) =
    next_before p.next_attempt_unix q.next_attempt_unix
    || (not (next_before q.next_attempt_unix p.next_attempt_unix)
        && (str_ltb e.event_id f.event_id
            || (e.event_id == f.event_id && ltb p.page_index q.page_index)))

-- The columns of `LEFT JOIN bot_configs`.
unfoldable pub of_config {ℓ} : {A : Type ℓ} → (BotConfig → A) → Option BotConfig → Option A
of_config f (some c) = some (f c)
of_config f none = none

unfoldable pub secret_of {ℓ} : {A : Type ℓ} → (BotConfig → Option A) → Option BotConfig → Option A
secret_of f (some c) = f c
secret_of f none = none

unfoldable pub page_row : List BotConfig → WebhookEvent × WebhookPage → WebhookPageRow
unfolding of_config secret_of
page_row configs (e, p) =
    let c = find_where (λ c. c.bot_id == e.bot_id) configs in
    record {
      event_id = e.event_id;
      job_id = e.job_id;
      bot_id = e.bot_id;
      page_index = p.page_index;
      page_attempt_count = p.attempt_count;
      body = some p.body;
      body_sha256 = some p.body_sha256;
      event_state = e.state;
      page_count = e.page_count;
      webhook_url = secret_of (λ c. c.webhook_url) c;
      webhook_max_attempts = of_config (λ c. c.webhook_max_attempts) c;
      webhook_retry_base_ms = of_config (λ c. c.webhook_retry_base_ms) c;
      webhook_retry_max_ms = of_config (λ c. c.webhook_retry_max_ms) c;
      webhook_secret_nonce = secret_of (λ c. c.webhook_secret_nonce) c;
      webhook_secret_ciphertext = secret_of (λ c. c.webhook_secret_ciphertext) c;
      webhook_secret_kid = secret_of (λ c. c.webhook_secret_kid) c;
    }

unfoldable pub pending_webhook_pages : ℤ → Db → List WebhookPageRow
unfolding is_pending join_events page_row
pending_webhook_pages now db = map (page_row db.bot_configs) (
    take 16 (
      sorted page_before (
        keep_where (is_pending now db.webhook_pages)
          (join_events db.webhook_events db.webhook_pages))))

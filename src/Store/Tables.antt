-- ===== src/Store/Tables.antt =====
-- The SQLite tables (src/store/migrations), one record for a row and a list for a table, and the
-- values that the writer thread takes and returns. Columns of JSON text stay text.
use telegram_bot_delivery_en.Base.{
  ℕ, String, Bool, true, false, List, [], Option, ℤ, ◌==◌, ◌&&◌, nat_eq, string_eq,
}
use telegram_bot_delivery_en.Domain.{
  BotId, JobId, EventId, JobState, RecipientState, WebhookState, PolicySnapshot,
}
use telegram_bot_delivery_en.Webhook.Pages.{Bytes, Encoder}

pub record Bot : Type 0 where
  pub bot_id : BotId
  pub token_nonce : Bytes
  pub token_ciphertext : Bytes
  pub token_kid : String
  pub telegram_user_id : Option ℤ
  pub created_at_unix : ℤ
  pub last_seen_unix : ℤ

-- An f64 column is the number that its 64 bits spell.
pub record BotConfig : Type 0 where
  pub bot_id : BotId
  pub config_version : ℕ
  pub target_msgs_per_sec : ℕ
  pub retry_max_attempts : ℤ
  pub retry_base_ms : ℤ
  pub retry_max_ms : ℤ
  pub retry_jitter : String
  pub retryable_classes_json : String
  pub ambiguity_policy : String
  pub job_deadline_secs : ℤ
  pub fairness_weight : ℤ
  pub webhook_url : Option String
  pub webhook_https_only : Bool
  pub webhook_secret_nonce : Option Bytes
  pub webhook_secret_ciphertext : Option Bytes
  pub webhook_secret_kid : Option String
  pub webhook_max_attempts : ℤ
  pub webhook_retry_base_ms : ℤ
  pub webhook_retry_max_ms : ℤ
  pub updated_at_unix : ℤ
  pub telegram_api_base : Option String

-- Counters are SQL integers, which may be negative.
pub record Job : Type 0 where
  pub job_id : JobId
  pub bot_id : BotId
  pub method : String
  pub shared_params_json : String
  pub state : JobState
  pub total : ℤ
  pub queued : ℤ
  pub inflight : ℤ
  pub delayed : ℤ
  pub succeeded : ℤ
  pub failed : ℤ
  pub ambiguous : ℤ
  pub policy_snapshot_json : String
  pub config_version : ℕ
  pub accepted_at_unix : Option ℤ
  pub started_at_unix : Option ℤ
  pub completed_at_unix : Option ℤ
  pub expire_at_unix : Option ℤ
  pub deadline_unix : Option ℤ
  pub webhook_event_id : Option EventId
  pub webhook_state : WebhookState
  pub error_summary : Option String

pub record JobFile : Type 0 where
  pub file_id : String
  pub job_id : JobId
  pub field_name : String
  pub attach_name : Option String
  pub content_type : Option String
  pub original_filename : Option String
  pub sha256 : Bytes
  pub size_bytes : ℕ
  pub blob_path : String
  pub retain_until_unix : ℤ

pub record Recipient : Type 0 where
  pub job_id : JobId
  pub idx : ℕ
  pub bot_id : BotId
  pub patch_json : String
  pub chat_id : Option String
  pub chat_kind : Option String
  pub state : RecipientState
  pub attempt_count : ℕ
  pub retry_consumed : ℕ
  pub wire_started : Bool
  pub lease_owner : Option String
  pub lease_until_unix : Option ℤ
  pub not_before_unix : ℤ
  pub limiter_scope_hint : Option String
  pub telegram_message_id : Option ℤ
  pub time_send_unix : Option ℤ
  pub error_norm : Option String
  pub last_http_status : Option ℕ
  pub last_error_desc : Option String
  pub lease_token : ℕ

pub record LimiterPause : Type 0 where
  pub scope_key : String
  pub paused_until_unix : ℤ
  pub last_retry_after : Option ℕ
  pub updated_at_unix : ℤ

pub record WebhookEvent : Type 0 where
  pub event_id : EventId
  pub job_id : JobId
  pub bot_id : BotId
  pub state : WebhookState
  pub attempt_count : ℕ
  pub next_attempt_unix : ℤ
  pub lease_until_unix : Option ℤ
  pub page_count : ℕ
  pub last_error : Option String
  pub delivered_at_unix : Option ℤ
  pub created_at_unix : ℤ

pub record WebhookPage : Type 0 where
  pub event_id : EventId
  pub page_index : ℕ
  pub delivered : Bool
  pub body : Bytes
  pub body_sha256 : Bytes
  pub attempt_count : ℕ
  pub next_attempt_unix : Option ℤ
  pub last_http_status : Option ℕ
  pub last_error : Option String

pub record WebhookDelivery : Type 0 where
  pub event_id : EventId
  pub page_index : ℕ
  pub attempt : ℕ
  pub at_unix : ℤ
  pub http_status : Option ℕ
  pub error : Option String

pub record FairnessDeficit : Type 0 where
  pub bot_id : BotId
  pub deficit : ℤ
  pub weight : ℕ
  pub last_grant_unix : ℤ

pub record RateSample : Type 0 where
  pub job_id : JobId
  pub window_start_unix : ℤ
  pub sent : ℕ

pub record Db : Type 0 where
  pub bots : List Bot
  pub bot_configs : List BotConfig
  pub jobs : List Job
  pub job_files : List JobFile
  pub recipients : List Recipient
  pub limiter_pauses : List LimiterPause
  pub webhook_events : List WebhookEvent
  pub webhook_pages : List WebhookPage
  pub webhook_deliveries : List WebhookDelivery
  pub fairness_deficits : List FairnessDeficit
  pub rate_samples : List RateSample

pub data StoreError : Type 0 where
  sqlite : String → StoreError
  invalid_command : String → StoreError
  capacity_exceeded : String → StoreError

pub data Result {ℓ} (A : Type ℓ) : Type ℓ where
  ok : A → Result A
  err : StoreError → Result A

infixl 5 ◌>>=◌
abbrev pub ◌>>=◌ {ℓ κ} : {A : Type ℓ} {B : Type κ} → Result A → (A → Result B) → Result B
ok a >>= f = f a
err e >>= f = err e

pub data WriterResult : Type 0 where
  done : WriterResult
  count : ℕ → WriterResult
  lease : Option (JobId × ℕ × ℕ) → WriterResult
  retention : ℕ → List String → WriterResult

-- What a command takes from outside the crate: serde_json and sha2, the clock of the process, and
-- whether SQLite can commit.
pub record Env : Type 0 where
  pub parse_policy : String → Option PolicySnapshot
  pub encoder : Encoder
  pub sha256 : Bytes → Bytes
  pub wall_clock : ℤ
  pub can_commit : Bool

-- `transaction`: what the operation or the COMMIT refuses is rolled back.
unfoldable pub transaction {ℓ} : {A : Type ℓ} → Env → (Db → Result (Db × A)) → Db → Db × Result A
transaction env operation db = elim (operation db) [
  | ok (db', value) ↦ elim env.can_commit [
    | true ↦ (db', ok value)
    | false ↦ (db, err (sqlite "commit failed"))
  ]
  | err e ↦ (db, err e)
]

-- `WHERE job_id=?1` and `WHERE job_id=?1 AND idx=?2`.
abbrev pub is_job : JobId → Job → Bool
is_job id j = j.job_id == id

abbrev pub of_job : JobId → Recipient → Bool
of_job id r = r.job_id == id

abbrev pub is_row : JobId → ℕ → Recipient → Bool
is_row id idx r = of_job id r && r.idx == idx

abbrev pub empty_db : Db
empty_db = record {
  bots = [];
  bot_configs = [];
  jobs = [];
  job_files = [];
  recipients = [];
  limiter_pauses = [];
  webhook_events = [];
  webhook_pages = [];
  webhook_deliveries = [];
  fairness_deficits = [];
  rate_samples = [];
}

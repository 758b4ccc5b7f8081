-- ===== src/Store/Reader/Rows.antt =====
-- What the queries of crates/telegram-bulk-delivery/src/store/reader.rs return.
use telegram_bot_delivery_en.Base.{ℕ, String, List, Option, ℤ}
use telegram_bot_delivery_en.Domain.{BotId, JobId, EventId, JobState, RecipientState, WebhookState}
use telegram_bot_delivery_en.Webhook.Pages.{Bytes}

-- The rates are the sums of samples that SQL divides by 5 and by 30.
pub record JobStatus : Type 0 where
  pub job_id : JobId
  pub method : String
  pub state : JobState
  pub accepted_at_unix : Option ℤ
  pub started_at_unix : Option ℤ
  pub completed_at_unix : Option ℤ
  pub expire_at_unix : Option ℤ
  pub deadline_unix : Option ℤ
  pub total : ℤ
  pub queued : ℤ
  pub inflight : ℤ
  pub delayed : ℤ
  pub succeeded : ℤ
  pub failed : ℤ
  pub ambiguous : ℤ
  pub webhook_state : WebhookState
  pub sent_5s : ℕ
  pub sent_30s : ℕ

pub record ResultItem : Type 0 where
  pub idx : ℕ
  pub chat_id : Option String
  pub status : RecipientState
  pub attempt_count : ℕ
  pub telegram_message_id : Option ℤ
  pub time_send_unix : Option ℤ
  pub error : Option String
  pub error_desc : Option String
  pub http_status : Option ℕ

pub record DispatchFile : Type 0 where
  pub field_name : String
  pub attach_name : Option String
  pub content_type : Option String
  pub original_filename : Option String
  pub blob_path : String
  pub size_bytes : ℕ

pub record DispatchItem : Type 0 where
  pub method : String
  pub shared_params_json : String
  pub patch_json : String
  pub chat_id : Option String
  pub chat_kind : Option String
  pub retry_consumed : ℕ
  pub policy_snapshot_json : String
  pub token_nonce : Bytes
  pub token_ciphertext : Bytes
  pub token_kid : String
  pub files : List DispatchFile

pub record WebhookPageRow : Type 0 where
  pub event_id : EventId
  pub job_id : JobId
  pub bot_id : BotId
  pub page_index : ℕ
  pub page_attempt_count : ℕ
  pub body : Option Bytes
  pub body_sha256 : Option Bytes
  pub event_state : WebhookState
  pub page_count : ℕ
  pub webhook_url : Option String
  pub webhook_max_attempts : Option ℤ
  pub webhook_retry_base_ms : Option ℤ
  pub webhook_retry_max_ms : Option ℤ
  pub webhook_secret_nonce : Option Bytes
  pub webhook_secret_ciphertext : Option Bytes
  pub webhook_secret_kid : Option String

pub record DbGauges : Type 0 where
  pub jobs_accepting : ℕ
  pub jobs_active : ℕ
  pub recipients_queued : ℕ
  pub recipients_delayed : ℕ
  pub recipients_leased : ℕ
  pub recipients_succeeded : ℕ
  pub recipients_failed : ℕ
  pub recipients_ambiguous : ℕ
  pub webhook_pending : ℕ
  pub webhook_delivering : ℕ
  pub webhook_delivered : ℕ
  pub webhook_exhausted : ℕ
  pub oldest_active_start_unix : Option ℤ

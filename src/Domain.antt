-- ===== src/Domain.antt =====
-- Identifiers, states and policies (crates/telegram-bulk-delivery/src/domain). A `BotId` is 32 bytes
-- and is read as the number that they spell, big end first: equality and order are the same.
use telegram_bot_delivery_en.Base.{ℕ, ◌≡◌, String, Bool, true, false, ◌↔◌, arith, Comparable}

abbrev pub BotId : Type 0
BotId = ℕ

abbrev pub JobId : Type 0
JobId = String

abbrev pub EventId : Type 0
EventId = String

pub data AmbiguityPolicy : Type 0 where
  at_least_once at_most_once method_aware : AmbiguityPolicy

pub record PolicySnapshot : Type 0 where
  pub retry_max_attempts : ℕ
  pub ambiguity_policy : AmbiguityPolicy
  pub fairness_weight : ℕ
  pub job_deadline_secs : ℕ

pub data JobState : Type 0 where
  accepting queued running completed failed_internal : JobState

pub data RecipientState : Type 0 where
  queued leased delayed succeeded failed ambiguous : RecipientState

pub data WebhookState : Type 0 where
  not_configured pending delivering delivered exhausted : WebhookState

abbrev pub same_job_state : JobState → JobState → Bool
same_job_state JobState.accepting JobState.accepting = true
same_job_state JobState.queued JobState.queued = true
same_job_state JobState.running JobState.running = true
same_job_state JobState.completed JobState.completed = true
same_job_state JobState.failed_internal JobState.failed_internal = true
same_job_state _ _ = false

abbrev pub same_state : RecipientState → RecipientState → Bool
same_state RecipientState.queued RecipientState.queued = true
same_state RecipientState.leased RecipientState.leased = true
same_state RecipientState.delayed RecipientState.delayed = true
same_state RecipientState.succeeded RecipientState.succeeded = true
same_state RecipientState.failed RecipientState.failed = true
same_state RecipientState.ambiguous RecipientState.ambiguous = true
same_state _ _ = false

abbrev pub same_webhook_state : WebhookState → WebhookState → Bool
same_webhook_state WebhookState.not_configured WebhookState.not_configured = true
same_webhook_state WebhookState.pending WebhookState.pending = true
same_webhook_state WebhookState.delivering WebhookState.delivering = true
same_webhook_state WebhookState.delivered WebhookState.delivered = true
same_webhook_state WebhookState.exhausted WebhookState.exhausted = true
same_webhook_state _ _ = false

pub job_state_same_iff : (a b : JobState) → (same_job_state a b ≡ true) ↔ (a ≡ b)
job_state_same_iff a b = ground arith

pub recipient_state_same_iff : (a b : RecipientState) → (same_state a b ≡ true) ↔ (a ≡ b)
recipient_state_same_iff a b = ground arith

pub webhook_state_same_iff : (a b : WebhookState) → (same_webhook_state a b ≡ true) ↔ (a ≡ b)
webhook_state_same_iff a b = ground arith

instance abbrev pub job_state_eq : Comparable JobState
job_state_eq = record { same_iff = job_state_same_iff; same = same_job_state }

instance abbrev pub recipient_state_eq : Comparable RecipientState
recipient_state_eq = record { same_iff = recipient_state_same_iff; same = same_state }

instance abbrev pub webhook_state_eq : Comparable WebhookState
webhook_state_eq = record { same_iff = webhook_state_same_iff; same = same_webhook_state }

-- ===== src/Scheduler/Dispatcher/Retries.antt =====
-- When an answer sends a recipient again, and what a late answer can change
-- (crates/telegram-bulk-delivery/src/scheduler/dispatcher.rs).
use telegram_bot_delivery_en.Base.{
  ℕ, ◌+◌, ◌/◌, ◌<◌, ◌≡◌, ◌≢◌, refl, ◌⊎◌, inl, inr, String, Bool, true, not, ◌&&◌, Option, none,
  some, ℤ, pos, ◌+ℤ◌, ◌≤ℤ◌, string_eq, Bool-cases,
}
use telegram_bot_delivery_en.Meta.Lookup.{can_auto_migrate, method_aware_retries}
use telegram_bot_delivery_en.Domain.{AmbiguityPolicy}
use telegram_bot_delivery_en.Telegram.Classify.{Json, Classification, classify}
use telegram_bot_delivery_en.Scheduler.Dispatcher.Policy.{AttemptPolicy}
use telegram_bot_delivery_en.Scheduler.Dispatcher.Finish.{
  LeasedCall, complete_with, migrated_or_failed, command_of, finish_as, finish,
}
use telegram_bot_delivery_en.Store.Tables.{Db, Env}
use telegram_bot_delivery_en.Store.Complete.{CompletionOutcome}
use telegram_bot_delivery_en.Store.Execute.{WriterCmd, execute}
use telegram_bot_delivery_en.Store.Tokens.{IsStale, stale_token}

-- The command puts the recipient back, and counts a retry.
unfoldable pub counts_retry : WriterCmd → Option ℤ
counts_retry (WriterCmd.complete id idx (CompletionOutcome.delayed at norm true) token) = some at
counts_retry _ = none

-- A transient failure, whatever the policy; or an unknown outcome, under the policy of at least once,
-- or under the policy that asks the method, for one that may be sent twice.
unfoldable pub MayResend : LeasedCall → Classification → Type 0
MayResend call c =
    (c ≡ Classification.transient)
    ⊎ ((c ≡ Classification.ambiguous)
        × ((call.policy.ambiguity ≡ AmbiguityPolicy.at_least_once)
            ⊎ ((call.policy.ambiguity ≡ AmbiguityPolicy.method_aware)
                × (method_aware_retries call.method ≡ true))))

-- Within the retries that the policy allows, and within its longest delay in whole seconds.
unfoldable pub IsWithinPolicy : AttemptPolicy → ℤ → ℤ → Type 0
IsWithinPolicy p now at =
    (p.retry_consumed + 1 < p.retry_max)
    × (now ≤ℤ at)
    × (at ≤ℤ now +ℤ pos ((p.retry_max_ms + 999) / 1000))

completed-stale :
    (env : Env) (call : LeasedCall) (outcome : CompletionOutcome) (db : Db)
    → IsStale call.job_id call.idx call.lease_token db
    → (execute env (complete_with call outcome) db).0 ≡ db
unfolding complete_with execute
completed-stale env call outcome db stale =
    (stale_token env call.job_id call.idx call.lease_token db outcome (pos 0) "" "" "" stale).0

moved-stale :
    (env : Env) (call : LeasedCall) (old new : String) (db : Db)
    → IsStale call.job_id call.idx call.lease_token db
    → (execute env (WriterCmd.migrate call.job_id call.idx old new call.lease_token) db).0 ≡ db
unfolding execute
moved-stale env call old new db stale =
    (stale_token env call.job_id call.idx call.lease_token db CompletionOutcome.ambiguous (pos 0) ""
      old new stale).3

migrated-stale :
    (env : Env) (show : ℤ → String) (call : LeasedCall) (status : ℕ) (chat : ℤ)
    (old : Option String) (db : Db)
    → IsStale call.job_id call.idx call.lease_token db
    → (execute env (migrated_or_failed show call status chat old) db).0 ≡ db
unfolding migrated_or_failed
migrated-stale env show call status chat none db stale = completed-stale env call _ db stale
migrated-stale env show call status chat (some old) db stale =
    elim (Bool-cases (not call.migrated && can_auto_migrate call.method)) [
      | inl e ↦ rw (migrated_or_failed, e) (moved-stale env call old (show chat) db stale)
      | inr e ↦ rw (migrated_or_failed, e) (completed-stale env call _ db stale)
    ]

command_of-stale :
    (env : Env) (show : ℤ → String) (call : LeasedCall) (status : ℕ) (now : ℤ) (c : Classification)
    (db : Db)
    → IsStale call.job_id call.idx call.lease_token db
    → c ≢ Classification.unauthorized
    → (execute env (command_of show call status now c) db).0 ≡ db
unfolding command_of
command_of-stale env show call status now (Classification.success s) db stale known =
    completed-stale env call _ db stale
command_of-stale env show call status now (Classification.flood n) db stale known =
    completed-stale env call _ db stale
command_of-stale env show call status now Classification.transient db stale known =
    completed-stale env call _ db stale
command_of-stale env show call status now Classification.ambiguous db stale known =
    completed-stale env call _ db stale
command_of-stale env show call status now (Classification.permanent norm code desc) db stale known =
    completed-stale env call _ db stale
command_of-stale env show call status now Classification.unauthorized db stale known =
    absurd (known refl)
command_of-stale env show call status now (Classification.migrate chat) db stale known =
    migrated-stale env show call status chat call.chat_id db stale

-- An answer whose lease is no longer held changes nothing, whatever Telegram said, but for the
-- answer that the bot's token is not authorized, which is about the bot.
pub finish-stale :
    (env : Env) (json : Json) (show : ℤ → String) (call : LeasedCall) (status : ℕ)
    (body : Option json.value) (transport_after_wire : Bool) (now : ℤ) (db : Db)
    → IsStale call.job_id call.idx call.lease_token db
    → classify json status body transport_after_wire now call.method call.chat_id
      ≢ Classification.unauthorized
    → (finish env json show call status body transport_after_wire now db).0 ≡ db
unfolding finish finish_as
finish-stale env json show call status body transport_after_wire now db stale known =
    command_of-stale env show call status now _ db stale known

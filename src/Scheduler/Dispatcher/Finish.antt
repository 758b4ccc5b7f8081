-- ===== src/Scheduler/Dispatcher/Finish.antt =====
-- `Dispatcher::finish` (crates/telegram-bulk-delivery/src/scheduler/dispatcher.rs).
use telegram_bot_delivery_en.Base.{
  ℕ, ◌+◌, ◌-◌, ◌/◌, ◌^◌, min, String, str_append, Bool, true, false, not, ◌&&◌, Option, none, some,
  ℤ, pos, ◌+ℤ◌, leb, ◌==◌, string_eq, if◌then◌else◌,
}
use telegram_bot_delivery_en.Domain.{BotId, JobId}
use telegram_bot_delivery_en.Meta.Spec.{MethodSpec}
use telegram_bot_delivery_en.Meta.Lookup.{can_auto_migrate, lease_ttl_secs}
use telegram_bot_delivery_en.Telegram.Classify.{
  Json, Classification, classify, retries_ambiguous, shifted_ms,
}
use telegram_bot_delivery_en.Scheduler.Dispatcher.Policy.{AttemptPolicy}
use telegram_bot_delivery_en.Store.Tables.{Db, Result, ok, err, WriterResult, Env}
use telegram_bot_delivery_en.Store.Complete.{CompletionOutcome}
use telegram_bot_delivery_en.Store.Execute.{WriterCmd, execute}

pub record LeasedCall : Type 0 where
  pub job_id : JobId
  pub idx : ℕ
  pub lease_token : ℕ
  pub bot_id : BotId
  pub method : MethodSpec
  pub chat_id : Option String
  pub policy : AttemptPolicy
  pub migrated : Bool

-- `retry_consumed` is a u16.
unfoldable pub is_last_attempt : AttemptPolicy → Bool
is_last_attempt p = leb p.retry_max (min (2 ^ 16 - 1) (p.retry_consumed + 1))

unfoldable pub retry_delay_ms : AttemptPolicy → ℕ
unfolding shifted_ms
retry_delay_ms p = min (shifted_ms p.retry_base_ms p.retry_consumed) p.retry_max_ms

unfoldable pub retry_or_fail : AttemptPolicy → ℤ → String → CompletionOutcome
unfolding is_last_attempt retry_delay_ms
retry_or_fail p now norm =
    if is_last_attempt p
    then if norm == "ambiguous"
      then CompletionOutcome.ambiguous
      else CompletionOutcome.failed norm none none
    else CompletionOutcome.delayed (now +ℤ pos ((retry_delay_ms p + 999) / 1000)) norm true

-- What the answer asks of the writer.
unfoldable pub complete_with : LeasedCall → CompletionOutcome → WriterCmd
complete_with call outcome = WriterCmd.complete call.job_id call.idx outcome call.lease_token

unfoldable pub migrated_or_failed : (ℤ → String) → LeasedCall → ℕ → ℤ → Option String → WriterCmd
unfolding complete_with
migrated_or_failed show call status chat none =
    complete_with call (CompletionOutcome.failed "migrated" (some status) none)
migrated_or_failed show call status chat (some old) =
    if not call.migrated && can_auto_migrate call.method
    then WriterCmd.migrate call.job_id call.idx old (show chat) call.lease_token
    else complete_with call (CompletionOutcome.failed "migrated" (some status) none)

unfoldable pub command_of : (ℤ → String) → LeasedCall → ℕ → ℤ → Classification → WriterCmd
unfolding complete_with retry_or_fail migrated_or_failed
command_of show call status now (Classification.success s) =
    complete_with call (CompletionOutcome.succeeded s.message_id s.sent_at_unix)
command_of show call status now (Classification.flood retry_after) =
    complete_with call (CompletionOutcome.delayed (now +ℤ pos retry_after) "flood" false)
command_of show call status now Classification.transient =
    complete_with call (retry_or_fail call.policy now "transient")
command_of show call status now Classification.ambiguous = complete_with call (
    if retries_ambiguous call.policy.ambiguity call.method
    then retry_or_fail call.policy now "ambiguous"
    else CompletionOutcome.ambiguous)
command_of show call status now (Classification.permanent norm code desc) =
    complete_with call (CompletionOutcome.failed norm (some code) desc)
command_of show call status now Classification.unauthorized = WriterCmd.revoke call.bot_id now
command_of show call status now (Classification.migrate chat) =
    migrated_or_failed show call status chat call.chat_id

-- The pause that the scheduler makes durable.
unfoldable pub flood_of : Classification → Option ℕ
flood_of (Classification.flood retry_after) = some retry_after
flood_of _ = none

unfoldable pub answer_of : Option ℕ → Result WriterResult → Result (Option ℕ)
answer_of flood (ok r) = ok flood
answer_of flood (err e) = err e

unfoldable pub finish_as :
    Env → (ℤ → String) → LeasedCall → ℕ → ℤ → Classification → Db → Db × Result (Option ℕ)
unfolding command_of flood_of answer_of
finish_as env show call status now c db =
    let r = execute env (command_of show call status now c) db in (r.0, answer_of (flood_of c) r.1)

unfoldable pub finish :
    Env
    → (json : Json) → (ℤ → String)
    → LeasedCall
    → ℕ
    → Option json.value
    → Bool
    → ℤ
    → Db
    → Db × Result (Option ℕ)
unfolding finish_as
finish env json show call status body transport_after_wire now db =
    finish_as env show call status now
      (classify json status body transport_after_wire now call.method call.chat_id) db

-- `Dispatcher::lease` and `mark_wire_started`.
unfoldable pub lease_call :
    Env → String → BotId → MethodSpec → String → ℤ → Db → Db × Result WriterResult
lease_call env epoch bot spec worker now = execute env (
    WriterCmd.lease_next bot (str_append epoch (str_append ":" worker)) now (lease_ttl_secs spec) 1)

unfoldable pub mark_call_started : Env → LeasedCall → Db → Db × Result WriterResult
mark_call_started env call = execute env (WriterCmd.mark_wire call.job_id call.idx call.lease_token)

-- ===== src/Store/Lease.antt =====
-- Commands on one recipient that has not been answered yet: `LeaseBatch`, `DelayRecipient`,
-- `ReleaseLease`, `MarkWireStarted` and `MigrateRecipient` of src/store/writer.rs.
use telegram_bot_delivery_en.Base.{
  ℕ, String, Bool, true, false, not, ◌&&◌, List, Option, none, some, ℤ, pos, ◌+ℤ◌, ◌-ℤ◌, ◌+◌, leb_ℤ,
  ◌==◌, nat_eq, string_eq, if◌then◌else◌, str_append, any, update_where, keep_where, find_where,
  count_where,
}
use telegram_bot_delivery_en.Domain.{BotId, JobId, JobState, RecipientState, recipient_state_eq}
use telegram_bot_delivery_en.Meta.Lookup.{method, lease_ttl_secs}
use telegram_bot_delivery_en.Store.Tables.{
  Job, Recipient, Db, Result, ok, err, sqlite, invalid_command, WriterResult, done, count, lease,
  Env, transaction, is_job, is_row,
}
use telegram_bot_delivery_en.Store.Sql.{
  coalesce, unit_if, less_one, text_is, is_active, is_waiting, row_before, least,
}

-- The WHERE of the candidate query, with its JOIN.
unfoldable pub is_ready : BotId → ℤ → List Job → Recipient → Bool
is_ready bot now jobs r =
    r.bot_id == bot
    && is_waiting r.state
    && leb_ℤ r.not_before_unix now
    && any (λ j. is_job r.job_id j && is_active j.state) jobs

unfoldable pub candidate : BotId → ℤ → Db → Option Recipient
candidate bot now db = least row_before (keep_where (is_ready bot now db.jobs) db.recipients)

-- The exact time to live of the job's method, or the scheduler's bound for an unknown method.
pub ttl_of : ℕ → Option Job → ℕ
ttl_of lease_secs none = lease_secs
ttl_of lease_secs (some j) = elim (method j.method) [
  | none ↦ lease_secs
  | some spec ↦ lease_ttl_secs spec
]

abbrev pub take_lease : String → ℤ → Recipient → Recipient
take_lease owner until r = record r {
  state = RecipientState.leased;
  lease_owner = some owner;
  lease_until_unix = some until;
  lease_token = r.lease_token + 1;
}

abbrev pub count_lease : RecipientState → ℤ → Job → Job
count_lease was now j = record j {
  state = JobState.running;
  inflight = j.inflight +ℤ pos 1;
  queued = j.queued -ℤ unit_if (was == RecipientState.queued);
  delayed = j.delayed -ℤ unit_if (was == RecipientState.delayed);
  started_at_unix = coalesce j.started_at_unix (some now);
}

-- The token that the leased row now has.
abbrev pub issue : Recipient → Db → Option Recipient → Result (Db × WriterResult)
issue r db none = err (sqlite "query returned no rows")
issue r db (some s) = ok (db, lease (some (r.job_id, r.idx, s.lease_token)))

unfoldable pub grant_lease : String → ℤ → ℕ → Recipient → Db → Result (Db × WriterResult)
unfolding ttl_of
grant_lease owner now lease_secs r db =
    let until = now +ℤ pos (ttl_of lease_secs (find_where (is_job r.job_id) db.jobs)) in
    let rows = update_where (is_row r.job_id r.idx) (take_lease owner until) db.recipients in
    let jobs = update_where (is_job r.job_id) (count_lease r.state now) db.jobs in
    issue r (record db { recipients = rows; jobs = jobs }) (find_where (is_row r.job_id r.idx) rows)

unfoldable pub lease_one : BotId → String → ℤ → ℕ → Db → Result (Db × WriterResult)
lease_one bot owner now lease_secs db = elim (candidate bot now db) [
  | none ↦ ok (db, lease none)
  | some r ↦ grant_lease owner now lease_secs r db
]

unfoldable pub lease_batch : Env → BotId → String → ℤ → ℕ → ℕ → Db → Db × Result WriterResult
lease_batch env bot owner now lease_secs limit db =
    if limit == 1
    then transaction env (lease_one bot owner now lease_secs) db
    else (db, err (invalid_command "v1 leases exactly one recipient"))

unfoldable pub delay_recipient : Env → JobId → ℕ → ℤ → String → Db → Db × Result WriterResult
delay_recipient env id idx not_before reason = transaction env λ db. ok (
  record db {
    recipients =
        update_where (λ r. is_row id idx r && is_waiting r.state)
          (λ r. record r {
            state = RecipientState.delayed;
            not_before_unix = not_before;
            limiter_scope_hint = some reason;
          })
          db.recipients;
  },
  done,
)

-- `state='leased' AND lease_token=?`: the guard of every attempt mutation.
abbrev pub holds_lease : JobId → ℕ → ℕ → Recipient → Bool
holds_lease id idx token r =
    is_row id idx r && r.state == RecipientState.leased && r.lease_token == token

abbrev pub is_unsent : JobId → ℕ → ℕ → Recipient → Bool
is_unsent id idx token r = holds_lease id idx token r && not r.wire_started

abbrev pub put_back : ℤ → String → Recipient → Recipient
put_back not_before reason r = record r {
  state = RecipientState.delayed;
  not_before_unix = not_before;
  limiter_scope_hint = some reason;
  lease_owner = none;
  lease_until_unix = none;
}

abbrev pub count_release : Job → Job
count_release j = record j { inflight = less_one j.inflight; delayed = j.delayed +ℤ pos 1 }

unfoldable pub release_row : JobId → ℕ → ℤ → String → ℕ → Db → Result (Db × WriterResult)
release_row id idx not_before reason token db =
    let n = count_where (is_unsent id idx token) db.recipients in
    ok (
      record db {
        recipients =
            update_where (is_unsent id idx token) (put_back not_before reason) db.recipients;
        jobs = if n == 1 then update_where (is_job id) count_release db.jobs else db.jobs;
      },
      count n,
    )

unfoldable pub release_lease : Env → JobId → ℕ → ℤ → String → ℕ → Db → Db × Result WriterResult
unfolding release_row
release_lease env id idx not_before reason token =
    transaction env (release_row id idx not_before reason token)

unfoldable pub mark_wire_started : Env → JobId → ℕ → ℕ → Db → Db × Result WriterResult
mark_wire_started env id idx token = transaction env λ db. ok (
  record db {
    recipients =
        update_where (holds_lease id idx token) (λ r. record r { wire_started = true })
          db.recipients;
  },
  done,
)

unfoldable pub migrate_recipient :
    Env → JobId → ℕ → String → String → ℕ → Db → Db × Result WriterResult
migrate_recipient env id idx old_chat new_chat token = transaction env λ db. ok (
  record db {
    recipients =
        update_where (λ r. holds_lease id idx token r && text_is r.chat_id old_chat)
          (λ r. record r {
            chat_id = some new_chat;
            chat_kind = some "supergroup";
            limiter_scope_hint = some (str_append "migrated_from:" old_chat);
            wire_started = false;
          })
          db.recipients;
  },
  done,
)

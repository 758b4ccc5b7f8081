-- ===== src/Store/Recover.antt =====
-- Commands that move many recipients at once: lease recovery, deadline expiry and a revoked bot
-- (`recover_expired`, `ExpireDeadline`, `FailBotUnauthorized` of src/store/writer.rs).
use telegram_bot_delivery_en.Base.{
  ℕ, ◌+◌, String, Bool, true, false, ◌&&◌, ◌||◌, List, [], ◌∷◌, map, none, some, ℤ, ltb, min, ◌==◌,
  nat_eq, string_eq, if◌then◌else◌, any, update_where, keep_where, count_where, length,
}
use telegram_bot_delivery_en.Domain.{
  BotId, JobId, AmbiguityPolicy, at_least_once, RecipientState, recipient_state_eq,
}
use telegram_bot_delivery_en.Store.Tables.{
  Job, Recipient, Db, Result, ok, ◌>>=◌, WriterResult, count, Env, transaction, is_job, is_row,
}
use telegram_bot_delivery_en.Store.Sql.{due, is_active, is_waiting}
use telegram_bot_delivery_en.Store.Complete.{reconcile_job}

-- The rows of the query, whose JOIN drops a recipient with no job.
abbrev pub is_expired : ℤ → List Job → Recipient → Bool
is_expired now jobs r =
    r.state == RecipientState.leased && due r.lease_until_unix now && any (is_job r.job_id) jobs

abbrev pub retries_at_least_once : AmbiguityPolicy → Bool
retries_at_least_once at_least_once = true
retries_at_least_once _ = false

-- A snapshot that does not parse counts as `AtMostOnce` with no attempts: no retry.
unfoldable pub can_retry : Env → ℕ → String → Bool
can_retry env retry policy_json = elim (env.parse_policy policy_json) [
  | none ↦ false
  | some p ↦
      retries_at_least_once p.ambiguity_policy && ltb (min (retry + 1) 65535) p.retry_max_attempts
]

abbrev pub policy_of : JobId → List Job → String
policy_of id [] = ""
policy_of id (j ∷ jobs) = if is_job id j then j.policy_snapshot_json else policy_of id jobs

-- `wire_started=0`: the row never reached Telegram.
abbrev pub requeue : Recipient → Recipient
requeue r = record r {
  state = RecipientState.queued;
  error_norm = some "transient";
  wire_started = false;
  lease_owner = none;
  lease_until_unix = none;
}

-- The row may have reached Telegram; `wire_started` keeps its value.
abbrev pub give_back : Bool → ℤ → Recipient → Recipient
give_back retry now r = record r {
  state = if retry then RecipientState.delayed else RecipientState.ambiguous;
  error_norm = some "ambiguous";
  retry_consumed = r.retry_consumed + 1;
  not_before_unix = if retry then now else r.not_before_unix;
  lease_owner = none;
  lease_until_unix = none;
}

abbrev pub is_leased_row : JobId → ℕ → Recipient → Bool
is_leased_row id idx r = is_row id idx r && r.state == RecipientState.leased

-- One round of the loop, with what the query read of the row.
unfoldable pub recover_row : Env → ℤ → List Job → Recipient → List Recipient → List Recipient
recover_row env now jobs row = update_where (is_leased_row row.job_id row.idx) (
    if row.wire_started
    then give_back (can_retry env row.retry_consumed (policy_of row.job_id jobs)) now
    else requeue)

unfoldable pub recover_rows : Env → ℤ → List Job → List Recipient → List Recipient → List Recipient
recover_rows env now jobs [] table = table
recover_rows env now jobs (row ∷ rows) table =
    recover_rows env now jobs rows (recover_row env now jobs row table)

-- A set of job ids; the source's HashSet leaves the order open.
unfoldable pub distinct : List JobId → List JobId
distinct [] = []
distinct (id ∷ ids) = let rest = distinct ids in if any (λ k. k == id) rest then rest else id ∷ rest

unfoldable pub reconcile_all : Env → ℤ → List JobId → Db → Result Db
reconcile_all env now [] db = ok db
reconcile_all env now (id ∷ ids) db = reconcile_job env id now db >>= reconcile_all env now ids

unfoldable pub recover_expired : Env → ℤ → Db → Result (Db × WriterResult)
recover_expired env now db =
    let rows = keep_where (is_expired now db.jobs) db.recipients in
    reconcile_all env now (distinct (map (λ r. r.job_id) rows))
      (record db { recipients = recover_rows env now db.jobs rows db.recipients })
    >>= λ d. ok (d, count (length rows))

-- Both commands ignore the epoch.
unfoldable pub recover_leases : Env → String → ℤ → Db → Db × Result WriterResult
recover_leases env process_epoch now = transaction env (recover_expired env now)

unfoldable pub requeue_expired_leases : Env → String → ℤ → Db → Db × Result WriterResult
requeue_expired_leases env process_epoch now = transaction env (recover_expired env now)

abbrev pub is_late : ℤ → Job → Bool
is_late now j = due j.deadline_unix now && is_active j.state

abbrev pub is_late_row : ℤ → List Job → Recipient → Bool
is_late_row now jobs r = is_waiting r.state && any (λ j. is_job r.job_id j && is_late now j) jobs

abbrev pub fail_late : Recipient → Recipient
fail_late r = record r { state = RecipientState.failed; error_norm = some "deadline_exceeded" }

unfoldable pub expire_rows : Env → ℤ → Db → Result (Db × WriterResult)
expire_rows env now db =
    reconcile_all env now (map (λ j. j.job_id) (keep_where (is_late now) db.jobs))
      (record db { recipients = update_where (is_late_row now db.jobs) fail_late db.recipients })
    >>= λ d. ok (d, count (count_where (is_late_row now db.jobs) db.recipients))

unfoldable pub expire_deadline : Env → ℤ → Db → Db × Result WriterResult
expire_deadline env now = transaction env (expire_rows env now)

abbrev pub is_pending : RecipientState → Bool
is_pending s = is_waiting s || s == RecipientState.leased

abbrev pub of_bot : BotId → Recipient → Bool
of_bot bot r = r.bot_id == bot && is_pending r.state

abbrev pub fail_unauthorized : Recipient → Recipient
fail_unauthorized r = record r {
  state = RecipientState.failed;
  error_norm = some "bot_unauthorized";
  lease_owner = none;
  lease_until_unix = none;
}

unfoldable pub reconcile_revoked : Env → ℤ → List JobId → Db → Result Db
reconcile_revoked env now [] db = ok db
reconcile_revoked env now (id ∷ ids) db = do
  d ← reconcile_job env id now db
  reconcile_revoked env now ids (record d {
    jobs =
        update_where (is_job id) (λ j. record j { error_summary = some "bot_unauthorized" }) d.jobs;
  })

abbrev pub is_active_of_bot : BotId → Job → Bool
is_active_of_bot bot j = j.bot_id == bot && is_active j.state

unfoldable pub revoke_rows : Env → BotId → ℤ → Db → Result (Db × WriterResult)
revoke_rows env bot now db =
    reconcile_revoked env now (map (λ j. j.job_id) (keep_where (is_active_of_bot bot) db.jobs))
      (record db { recipients = update_where (of_bot bot) fail_unauthorized db.recipients })
    >>= λ d. ok (d, count (count_where (of_bot bot) db.recipients))

unfoldable pub fail_bot_unauthorized : Env → BotId → ℤ → Db → Db × Result WriterResult
fail_bot_unauthorized env bot now = transaction env (revoke_rows env bot now)

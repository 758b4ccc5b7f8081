-- ===== src/Store/Ledger/Books.antt =====
-- The books of the store: what a job row says of its recipients.
use telegram_bot_delivery_en.Base.{
  ℕ, ◌+◌, ◌≤◌, ◌<◌, ◌≡◌, Bool, true, false, not, ◌&&◌, List, pos, nat_beq, ◌==◌, nat_eq, string_eq,
  count_where, All,
}
use telegram_bot_delivery_en.Domain.{BotId, JobId, JobState, RecipientState, same_job_state}
use telegram_bot_delivery_en.Store.Tables.{Job, Recipient, Db, of_job, is_row, is_job}
use telegram_bot_delivery_en.Store.Sql.{tally}

abbrev pub size : JobId → List Recipient → ℕ
size id = count_where (of_job id)

abbrev pub closed : JobId → List Recipient → ℕ
closed id rows =
    tally id RecipientState.succeeded rows
    + tally id RecipientState.failed rows
    + tally id RecipientState.ambiguous rows

-- Recipients of the job under another bot.
abbrev pub strays : JobId → BotId → List Recipient → ℕ
strays id bot = count_where (λ r. of_job id r && not (r.bot_id == bot))

abbrev pub is_staging : Job → Bool
is_staging j = same_job_state j.state JobState.accepting

-- The total of a promoted job is the number of its recipients, and they are its bot's.
pub record Sized (rows : List Recipient) (j : Job) : Type 0 where
  pub total_exact : j.total ≡ pos (size j.job_id rows)
  pub nonempty : 0 < size j.job_id rows
  pub never_internal : same_job_state j.state JobState.failed_internal ≡ false
  pub one_bot : strays j.job_id j.bot_id rows ≡ 0

-- Its counters are the numbers of its recipients in each state.
pub record Tallied (rows : List Recipient) (j : Job) : Type 0 where
  pub sized : Sized rows j
  pub open sized use *
  pub queued_exact : j.queued ≡ pos (tally j.job_id RecipientState.queued rows)
  pub inflight_exact : j.inflight ≡ pos (tally j.job_id RecipientState.leased rows)
  pub delayed_exact : j.delayed ≡ pos (tally j.job_id RecipientState.delayed rows)
  pub succeeded_exact : j.succeeded ≡ pos (tally j.job_id RecipientState.succeeded rows)
  pub failed_exact : j.failed ≡ pos (tally j.job_id RecipientState.failed rows)
  pub ambiguous_exact : j.ambiguous ≡ pos (tally j.job_id RecipientState.ambiguous rows)

-- And it is completed exactly when all of them have ended.
pub record Counted (rows : List Recipient) (j : Job) : Type 0 where
  pub tallied : Tallied rows j
  pub open tallied use *
  pub completed_exact :
      same_job_state j.state JobState.completed
      ≡ nat_beq (closed j.job_id rows) (size j.job_id rows)

-- A job that is still accepting has no recipient on the wire.
pub record Ledger (rows : List Recipient) (j : Job) : Type 0 where
  pub staging : is_staging j ≡ true → tally j.job_id RecipientState.leased rows ≡ 0
  pub promoted : is_staging j ≡ false → Counted rows j

-- Rows of both tables are unique by their key, and every job's books are right.
pub record Inv (db : Db) : Type 0 where
  pub keyed : (id : JobId) (idx : ℕ) → count_where (is_row id idx) db.recipients ≤ 1
  pub jobs_keyed : (id : JobId) → count_where (is_job id) db.jobs ≤ 1
  pub books : All (Ledger db.recipients) db.jobs

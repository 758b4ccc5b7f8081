-- ===== src/Store/Ledger/Step.antt =====
-- One recipient of one job moves from a state to another, and the job's counters move with it.
use telegram_bot_delivery_en.Base.{
  ℕ, ◌+◌, ◌≡◌, Bool, true, false, ◌&&◌, List, arith, ◌==◌, nat_eq, string_eq, if◌then◌else◌,
  count_where, update_where, test_sym,
}
use telegram_bot_delivery_en.Domain.{BotId, JobId, RecipientState, same_state, recipient_state_eq}
use telegram_bot_delivery_en.Store.Tables.{Job, Recipient, is_job}
use telegram_bot_delivery_en.Store.Sql.{tally}
use telegram_bot_delivery_en.Store.Ledger.Books.{size, strays, Sized, Counted, Ledger}
use telegram_bot_delivery_en.Store.Ledger.Moves.{Keeps, size-update, strays-update, tally-update}

-- What the books need to know of an update that moves `n` rows of job `id` from `s` to `s'`.
pub record Moved (id : JobId) (s s' : RecipientState) (n : ℕ) (rows rows' : List Recipient)
    : Type 0 where
  pub sizes : (k : JobId) → size k rows' ≡ size k rows
  pub bots : (k : JobId) (bot : BotId) → strays k bot rows' ≡ strays k bot rows
  pub tallies :
      (k : JobId) (t : RecipientState)
      → tally k t rows' + (if id == k && same_state s t then n else 0)
        ≡ tally k t rows + (if id == k && same_state s' t then n else 0)

pub update-Moved :
    (p : Recipient → Bool) (f : Recipient → Recipient) (id : JobId) (s s' : RecipientState)
    (rows : List Recipient)
    → Keeps f
    → ((r : Recipient) → p r ≡ true → (r.job_id ≡ id) × (r.state ≡ s))
    → ((r : Recipient) → p r ≡ true → (f r).state ≡ s')
    → Moved id s s' (count_where p rows) rows (update_where p f rows)
update-Moved p f id s s' rows keeps from to = record {
  sizes = λ k. size-update p f keeps k rows;
  bots = λ k bot. strays-update p f keeps k bot rows;
  tallies = λ k t. tally-update p f keeps id s s' from to k t rows;
}

-- The books of a job depend on its recipients through these numbers only.
module _ (rows rows' : List Recipient) (j : Job)
    (tallies : (t : RecipientState) → tally j.job_id t rows' ≡ tally j.job_id t rows)
    (sizes : size j.job_id rows' ≡ size j.job_id rows)
    (bots : strays j.job_id j.bot_id rows' ≡ strays j.job_id j.bot_id rows) where
  pub Sized-same : Sized rows j → Sized rows' j
  Sized-same c = record {
    total_exact = simp sizes c.total_exact;
    nonempty = omega (arith, sizes, c.nonempty);
    never_internal = c.never_internal;
    one_bot = simp bots c.one_bot;
  }

  Counted-same : Counted rows j → Counted rows' j
  Counted-same c = record {
    tallied = record {
      sized = Sized-same c.sized;
      queued_exact = simp (tallies RecipientState.queued) c.queued_exact;
      inflight_exact = simp (tallies RecipientState.leased) c.inflight_exact;
      delayed_exact = simp (tallies RecipientState.delayed) c.delayed_exact;
      succeeded_exact = simp (tallies RecipientState.succeeded) c.succeeded_exact;
      failed_exact = simp (tallies RecipientState.failed) c.failed_exact;
      ambiguous_exact = simp (tallies RecipientState.ambiguous) c.ambiguous_exact;
    };
    completed_exact =
        simp
          (
            sizes,
            tallies RecipientState.succeeded,
            tallies RecipientState.failed,
            tallies RecipientState.ambiguous,
          )
          c.completed_exact;
  }

  pub Ledger-same : Ledger rows j → Ledger rows' j
  Ledger-same l = record {
    staging = λ e. simp (tallies RecipientState.leased) (l.staging e);
    promoted = λ e. Counted-same (l.promoted e);
  }

module _ {id : JobId} {s s' : RecipientState} {n : ℕ} {rows rows' : List Recipient}
    (moved : Moved id s s' n rows rows') (j : Job) where
  -- A job of another id keeps its books.
  pub Ledger-elsewhere : is_job id j ≡ false → Ledger rows j → Ledger rows' j
  Ledger-elsewhere away =
      Ledger-same rows rows' j (λ t. ground (arith, moved.tallies j.job_id t, test_sym id j.job_id))
        (moved.sizes j.job_id) (moved.bots j.job_id j.bot_id)

  -- The tallies of the job itself.
  pub tallies-here :
      is_job id j ≡ true
      → (t : RecipientState)
      → tally j.job_id t rows' + (if same_state s t then n else 0)
        ≡ tally j.job_id t rows + (if same_state s' t then n else 0)
  tallies-here here t = ground (arith, moved.tallies j.job_id t, test_sym id j.job_id)

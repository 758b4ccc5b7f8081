-- ===== src/Store/Ledger/Moves.antt =====
-- How an update of recipients moves the tallies.
use telegram_bot_delivery_en.Base.{
  ℕ, ◌+◌, ◌≤◌, ◌≡◌, ap, refl, Bool, true, false, ◌&&◌, List, [], ◌∷◌, arith, ◌==◌, nat_eq,
  string_eq, if◌then◌else◌, count_where, update_where, count_where-update_alike,
  count_where-update_same,
}
use telegram_bot_delivery_en.Domain.{BotId, JobId, RecipientState, same_state, recipient_state_eq}
use telegram_bot_delivery_en.Store.Tables.{Job, Recipient, of_job, is_row, is_job}
use telegram_bot_delivery_en.Store.Sql.{in_state, tally}
use telegram_bot_delivery_en.Store.Ledger.Books.{size, strays}

-- Every recipient is in one of six states.
pub size-split :
    (id : JobId) (rows : List Recipient)
    → size id rows
      ≡ tally id RecipientState.queued rows
        + tally id RecipientState.leased rows
        + tally id RecipientState.delayed rows
        + tally id RecipientState.succeeded rows
        + tally id RecipientState.failed rows
        + tally id RecipientState.ambiguous rows
size-split id [] = omega arith
size-split id (r ∷ rows) = ground (arith, size-split id rows)

-- An update that leaves keys and bots alone.
pub record Keeps (f : Recipient → Recipient) : Type 0 where
  pub job : (r : Recipient) → (f r).job_id ≡ r.job_id
  pub row : (r : Recipient) → (f r).idx ≡ r.idx
  pub bot : (r : Recipient) → (f r).bot_id ≡ r.bot_id

module _ (p : Recipient → Bool) (f : Recipient → Recipient) (keeps : Keeps f) where
  pub size-update :
      (id : JobId) (rows : List Recipient) → size id (update_where p f rows) ≡ size id rows
  size-update id [] = refl
  size-update id (r ∷ rows) = ground (arith, size-update id rows, keeps.job r)

  pub keys-update :
      (id : JobId) (idx : ℕ) (rows : List Recipient)
      → count_where (is_row id idx) (update_where p f rows) ≡ count_where (is_row id idx) rows
  keys-update id idx [] = refl
  keys-update id idx (r ∷ rows) = ground (arith, keys-update id idx rows, keeps.job r, keeps.row r)

  pub keyed-update :
      (rows : List Recipient)
      → ((id : JobId) (idx : ℕ) → count_where (is_row id idx) rows ≤ 1)
      → (id : JobId) (idx : ℕ) → count_where (is_row id idx) (update_where p f rows) ≤ 1
  keyed-update rows one id idx = rw (keys-update id idx rows) (one id idx)

  pub strays-update :
      (id : JobId) (bot : BotId) (rows : List Recipient)
      → strays id bot (update_where p f rows) ≡ strays id bot rows
  strays-update id bot [] = refl
  strays-update id bot (r ∷ rows) =
      ground (arith, strays-update id bot rows, keeps.job r, keeps.bot r)

  -- Rows of one job move from state `s` to state `s'`.
  module _ (id : JobId) (s s' : RecipientState)
      (from : (r : Recipient) → p r ≡ true → (r.job_id ≡ id) × (r.state ≡ s))
      (to : (r : Recipient) → p r ≡ true → (f r).state ≡ s') where
    pub tally-update :
        (k : JobId) (t : RecipientState) (rows : List Recipient)
        → tally k t (update_where p f rows)
            + (if id == k && same_state s t then count_where p rows else 0)
          ≡ tally k t rows + (if id == k && same_state s' t then count_where p rows else 0)
    tally-update k t rows =
        count_where-update_alike (in_state k t) p f _ _ rows
          (λ r h. rw ((from r h).0, (from r h).1)) (λ r h. simp (keeps.job r, (from r h).0, to r h))

  -- Rows of a job that the update does not touch keep their tallies.
  pub tally-untouched :
      (k : JobId) (t : RecipientState) (rows : List Recipient)
      → ((r : Recipient) → p r ≡ true → of_job k r ≡ false)
      → tally k t (update_where p f rows) ≡ tally k t rows
  tally-untouched k t [] away = refl
  tally-untouched k t (r ∷ rows) away =
      ground (arith, tally-untouched k t rows away, away r, keeps.job r)

pub jobs_keyed-update :
    (p : Job → Bool) (f : Job → Job) (jobs : List Job)
    → ((j : Job) → (f j).job_id ≡ j.job_id)
    → ((id : JobId) → count_where (is_job id) jobs ≤ 1)
    → (id : JobId) → count_where (is_job id) (update_where p f jobs) ≤ 1
jobs_keyed-update p f jobs same one id =
    rw (count_where-update_same (is_job id) p f jobs (λ j. ap (λ k. k == id) (same j))) (one id)

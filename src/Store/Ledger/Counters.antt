-- ===== src/Store/Ledger/Counters.antt =====
-- The counter updates of a lease, a release and an answered attempt keep a job's books.
use telegram_bot_delivery_en.Base.{
  ℕ, ◌+◌, ◌≡◌, refl, ap, ◌∙◌, Bool, true, false, ◌||◌, List, ℤ, pos, ◌+ℤ◌, ◌-ℤ◌, max_ℤ, arith,
  if◌then◌else◌,
}
use telegram_bot_delivery_en.Domain.{
  JobId, JobState, RecipientState, same_state, same_job_state, recipient_state_eq,
}
use telegram_bot_delivery_en.Store.Tables.{Job, Recipient, is_job}
use telegram_bot_delivery_en.Store.Sql.{tally, less_one, unit_if, is_waiting, is_terminal}
use telegram_bot_delivery_en.Store.Lease.{count_lease, count_release}
use telegram_bot_delivery_en.Store.Complete.{count_attempt}
use telegram_bot_delivery_en.Store.Ledger.Books.{Sized, Tallied, Counted}
use telegram_bot_delivery_en.Store.Ledger.Moves.{size-split}
use telegram_bot_delivery_en.Store.Ledger.Step.{Moved, tallies-here}

-- A counter, its number before, and after one row went in or out.
gains :
    (x : ℤ) (a b : ℕ) (c : Bool) → x ≡ pos a → b ≡ a + (if c then 1 else 0) → x +ℤ unit_if c ≡ pos b
unfolding ◌+ℤ◌
gains x a b c e h = ground arith

loses :
    (x : ℤ) (a b : ℕ) (c : Bool) → x ≡ pos a → b + (if c then 1 else 0) ≡ a → x -ℤ unit_if c ≡ pos b
unfolding ◌-ℤ◌
loses x a b c e h = ground arith

frees : (x : ℤ) (a b : ℕ) → x ≡ pos a → b + 1 ≡ a → less_one x ≡ pos b
unfolding ◌-ℤ◌ max_ℤ
frees x a b e h = ground arith

module _ {id : JobId} {s s' : RecipientState} {rows rows' : List Recipient}
    (moved : Moved id s s' 1 rows rows') (j : Job) (here : is_job id j ≡ true) where
  at :
      (t : RecipientState)
      → tally j.job_id t rows' + (if same_state s t then 1 else 0)
        ≡ tally j.job_id t rows + (if same_state s' t then 1 else 0)
  at = tallies-here moved j here

  Sized-moved :
      (k : Job)
      → k.job_id ≡ j.job_id
      → k.bot_id ≡ j.bot_id
      → k.total ≡ j.total
      → same_job_state k.state JobState.failed_internal ≡ false
      → Sized rows j
      → Sized rows' k
  Sized-moved k id_eq bot_eq total_eq ne c = record {
    total_exact = simp (id_eq, total_eq, moved.sizes j.job_id) c.total_exact;
    nonempty = simp (id_eq, moved.sizes j.job_id) c.nonempty;
    never_internal = ne;
    one_bot = simp (id_eq, bot_eq, moved.bots j.job_id j.bot_id) c.one_bot;
  }

  keeps_number :
      (t : RecipientState) {x : ℤ}
      → same_state s t ≡ false
      → same_state s' t ≡ false
      → x ≡ pos (tally j.job_id t rows)
      → x ≡ pos (tally j.job_id t rows')
  keeps_number t e e' h = h ∙ ap pos (ground (arith, at t))

  pub Counted-lease :
      (now : ℤ)
      → is_waiting s ≡ true
      → s' ≡ RecipientState.leased
      → Counted rows j
      → Counted rows' (count_lease s now j)
  Counted-lease now w e c = record {
    tallied = record {
      sized = Sized-moved (count_lease s now j) refl refl refl refl c.sized;
      queued_exact =
          loses j.queued (tally j.job_id RecipientState.queued rows) _ _ c.queued_exact
            (ground (arith, at RecipientState.queued));
      inflight_exact =
          gains j.inflight (tally j.job_id RecipientState.leased rows) _ true c.inflight_exact
            (ground (arith, at RecipientState.leased));
      delayed_exact =
          loses j.delayed (tally j.job_id RecipientState.delayed rows) _ _ c.delayed_exact
            (ground (arith, at RecipientState.delayed));
      succeeded_exact =
          keeps_number RecipientState.succeeded (ground arith) (ground arith) c.succeeded_exact;
      failed_exact =
          keeps_number RecipientState.failed (ground arith) (ground arith) c.failed_exact;
      ambiguous_exact =
          keeps_number RecipientState.ambiguous (ground arith) (ground arith) c.ambiguous_exact;
    };
    completed_exact = ground (arith, at RecipientState.leased, size-split j.job_id rows');
  }

  pub Counted-release :
      s ≡ RecipientState.leased
      → s' ≡ RecipientState.delayed
      → Counted rows j
      → Counted rows' (count_release j)
  Counted-release e e' c = record {
    tallied = record {
      sized = Sized-moved (count_release j) refl refl refl c.never_internal c.sized;
      queued_exact =
          keeps_number RecipientState.queued (ground arith) (ground arith) c.queued_exact;
      inflight_exact =
          frees j.inflight (tally j.job_id RecipientState.leased rows) _ c.inflight_exact
            (ground (arith, at RecipientState.leased));
      delayed_exact =
          gains j.delayed (tally j.job_id RecipientState.delayed rows) _ true c.delayed_exact
            (ground (arith, at RecipientState.delayed));
      succeeded_exact =
          keeps_number RecipientState.succeeded (ground arith) (ground arith) c.succeeded_exact;
      failed_exact =
          keeps_number RecipientState.failed (ground arith) (ground arith) c.failed_exact;
      ambiguous_exact =
          keeps_number RecipientState.ambiguous (ground arith) (ground arith) c.ambiguous_exact;
    };
    completed_exact =
        c.completed_exact
        ∙ ground (
          arith,
          at RecipientState.succeeded,
          at RecipientState.failed,
          at RecipientState.ambiguous,
          moved.sizes j.job_id,
        );
  }

  -- An answered attempt leaves `leased` for a state that is neither `queued` nor `leased`.
  module _ (from : s ≡ RecipientState.leased)
      (to : is_terminal s' || same_state s' RecipientState.delayed ≡ true) where
    pub Tallied-attempt : Tallied rows j → Tallied rows' (count_attempt s' j)
    Tallied-attempt c = record {
      sized = Sized-moved (count_attempt s' j) refl refl refl c.never_internal c.sized;
      queued_exact =
          keeps_number RecipientState.queued (ground arith) (ground arith) c.queued_exact;
      inflight_exact =
          frees j.inflight (tally j.job_id RecipientState.leased rows) _ c.inflight_exact
            (ground (arith, at RecipientState.leased));
      delayed_exact =
          gains j.delayed (tally j.job_id RecipientState.delayed rows) _ _ c.delayed_exact
            (ground (arith, at RecipientState.delayed));
      succeeded_exact =
          gains j.succeeded (tally j.job_id RecipientState.succeeded rows) _ _ c.succeeded_exact
            (ground (arith, at RecipientState.succeeded));
      failed_exact =
          gains j.failed (tally j.job_id RecipientState.failed rows) _ _ c.failed_exact
            (ground (arith, at RecipientState.failed));
      ambiguous_exact =
          gains j.ambiguous (tally j.job_id RecipientState.ambiguous rows) _ _ c.ambiguous_exact
            (ground (arith, at RecipientState.ambiguous));
    }

    -- Before it the job was not completed, since a recipient was on the wire.
    pub not-completed : Counted rows j → same_job_state j.state JobState.completed ≡ false
    not-completed c =
        c.completed_exact ∙ ground (arith, at RecipientState.leased, size-split j.job_id rows)

    pub Counted-attempt_delayed :
        s' ≡ RecipientState.delayed → Counted rows j → Counted rows' (count_attempt s' j)
    Counted-attempt_delayed e c = record {
      tallied = Tallied-attempt c.tallied;
      completed_exact =
          c.completed_exact
          ∙ ground (
            arith,
            at RecipientState.succeeded,
            at RecipientState.failed,
            at RecipientState.ambiguous,
            moved.sizes j.job_id,
          );
    }

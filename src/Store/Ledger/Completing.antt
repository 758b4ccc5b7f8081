-- ===== src/Store/Ledger/Completing.antt =====
-- The jobs' counters over an answered attempt (`CompleteAttempt` of src/store/writer.rs).
use telegram_bot_delivery_en.Base.{
  ◌≡◌, refl, sym, true, false, ◌||◌, List, ℤ, +ℤ_pos, nat_beq, arith, nat_eq, string_eq,
  update_where, All, All-update_where, Bool-cases, inl, inr,
}
use telegram_bot_delivery_en.Domain.{
  JobId, JobState, RecipientState, same_state, same_job_state, recipient_state_eq,
}
use telegram_bot_delivery_en.Store.Tables.{Job, Recipient, is_job}
use telegram_bot_delivery_en.Store.Sql.{is_active, is_terminal}
use telegram_bot_delivery_en.Store.Complete.{
  Attempt, record_attempt, count_attempt, is_active_job, all_ended, stamp_completed,
}
use telegram_bot_delivery_en.Store.Ledger.Books.{size, closed, Tallied, Ledger}
use telegram_bot_delivery_en.Store.Ledger.Moves.{Keeps, size-split}
use telegram_bot_delivery_en.Store.Ledger.Step.{Moved, Ledger-elsewhere, tallies-here}
use telegram_bot_delivery_en.Store.Ledger.Counters.{Tallied-attempt, Counted-attempt_delayed}

pub record_attempt-Keeps : (a : Attempt) → Keeps (record_attempt a)
record_attempt-Keeps a = record { job = λ r. refl; row = λ r. refl; bot = λ r. refl }

-- A job with a recipient on the wire is queued or running.
module _ {id : JobId} {s' : RecipientState} {rows rows' : List Recipient}
    (moved : Moved id RecipientState.leased s' 1 rows rows')
    (away : same_state s' RecipientState.leased ≡ false) (j : Job) (here : is_job id j ≡ true)
    (l : Ledger rows j) where
  not_staging : same_job_state j.state JobState.accepting ≡ false
  not_staging = elim (Bool-cases (same_job_state j.state JobState.accepting)) [
    | inl e ↦ absurd (ground (arith, l.staging e, tallies-here moved j here RecipientState.leased))
    | inr e ↦ e
  ]

  on_wire-active : is_active j.state ≡ true
  on_wire-active =
      let c = l.promoted not_staging in
      ground (
        arith,
        not_staging,
        c.completed_exact,
        c.never_internal,
        size-split j.job_id rows,
        tallies-here moved j here RecipientState.leased,
      )

-- The test of the code is the one of the books.
pub all_ended_lem :
    (rows : List Recipient) (j : Job)
    → Tallied rows j
    → all_ended j ≡ nat_beq (closed j.job_id rows) (size j.job_id rows)
all_ended_lem rows j t =
    simp (t.succeeded_exact, t.failed_exact, t.ambiguous_exact, t.total_exact, +ℤ_pos)
      (ground (arith, t.nonempty))

-- Between the two steps of a terminal attempt: the job's counters are right already, and its state
-- may be behind.
abbrev pub IsOpen : JobId → List Recipient → Job → Type 0
IsOpen id rows j =
    (is_job id j ≡ true → Tallied rows j × (is_active j.state ≡ true))
    × (is_job id j ≡ false → Ledger rows j)

module _ {id : JobId} {s' : RecipientState} {rows rows' : List Recipient}
    (moved : Moved id RecipientState.leased s' 1 rows rows')
    (to : is_terminal s' || same_state s' RecipientState.delayed ≡ true) where
  off_wire : same_state s' RecipientState.leased ≡ false
  off_wire = ground arith

  live_or_away : (j : Job) → Ledger rows j → is_active_job id j ≡ false → is_job id j ≡ false
  live_or_away j l h = elim (Bool-cases (is_job id j)) [
    | inl here ↦ absurd (ground (arith, on_wire-active moved off_wire j here l))
    | inr away ↦ away
  ]

  pub IsOpen-books :
      (jobs : List Job)
      → All (Ledger rows) jobs
      → All (IsOpen id rows') (update_where (is_active_job id) (count_attempt s') jobs)
  IsOpen-books jobs =
      All-update_where (Ledger rows) (IsOpen id rows') (is_active_job id) (count_attempt s') jobs
        (λ j h l.
          let here : is_job id j ≡ true = ground arith in
          (
            λ _. (
              Tallied-attempt moved j here refl to
                  (l.promoted (not_staging moved off_wire j here l)).tallied,
              ground arith,
            ),
            λ away. cc,
          ))
        (λ j h l.
          let away : is_job id j ≡ false = live_or_away j l h in
          (λ here. cc, λ _. Ledger-elsewhere moved j away l))

  pub delayed_books :
      s' ≡ RecipientState.delayed
      → (jobs : List Job) → All (Ledger rows) jobs
      → All (Ledger rows') (update_where (is_active_job id) (count_attempt s') jobs)
  delayed_books e jobs =
      All-update_where (Ledger rows) (Ledger rows') (is_active_job id) (count_attempt s') jobs
        (λ j h l.
          let here : is_job id j ≡ true = ground arith in
          let live : same_job_state j.state JobState.accepting ≡ false = ground arith in
          record {
            staging = λ e. cc;
            promoted = λ _. Counted-attempt_delayed moved j here refl to e (l.promoted live);
          })
        (λ j h l. Ledger-elsewhere moved j (live_or_away j l h) l)

-- The state of the jobs follows: completed exactly if the test passes.
pub Ledger-stamped :
    (finished : ℤ) (rows : List Recipient) (j : Job)
    → Tallied rows j
    → nat_beq (closed j.job_id rows) (size j.job_id rows) ≡ true
    → Ledger rows (stamp_completed finished j)
Ledger-stamped finished rows j t e = record {
  staging = λ h. cc;
  promoted = λ _. record {
    tallied = record {
      sized = record {
        total_exact = t.total_exact;
        nonempty = t.nonempty;
        never_internal = refl;
        one_bot = t.one_bot;
      };
      queued_exact = t.queued_exact;
      inflight_exact = t.inflight_exact;
      delayed_exact = t.delayed_exact;
      succeeded_exact = t.succeeded_exact;
      failed_exact = t.failed_exact;
      ambiguous_exact = t.ambiguous_exact;
    };
    completed_exact = sym e;
  };
}

pub Ledger-running :
    (rows : List Recipient) (j : Job)
    → Tallied rows j
    → is_active j.state ≡ true
    → nat_beq (closed j.job_id rows) (size j.job_id rows) ≡ false
    → Ledger rows j
Ledger-running rows j t a e = record {
  staging = λ h. absurd (ground arith);
  promoted = λ _. record { tallied = t; completed_exact = ground arith };
}

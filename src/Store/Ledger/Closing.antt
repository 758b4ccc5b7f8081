-- ===== src/Store/Ledger/Closing.antt =====
-- `CompleteAttempt` of src/store/writer.rs as a whole: the attempt, and the close of its job.
use telegram_bot_delivery_en.Base.{
  ℕ, ◌≤◌, ◌≡◌, refl, sym, ◌∙◌, Bool, true, false, ◌||◌, List, ℤ, nat_beq, arith, ◌==◌, nat_eq,
  string_eq, count_where, update_where, find_where, All, subst, All-update_where, All-map,
  All-find_where, find_where-true, count_where-le, eq_of_test, Bool-cases, Option-cases, inl, inr,
}
use telegram_bot_delivery_en.Domain.{JobId, RecipientState, same_state, recipient_state_eq}
use telegram_bot_delivery_en.Store.Tables.{Job, Recipient, Db, ok, done, Env, is_job, is_row}
use telegram_bot_delivery_en.Store.Sql.{is_terminal}
use telegram_bot_delivery_en.Store.Lease.{holds_lease}
use telegram_bot_delivery_en.Store.Complete.{
  CompletionOutcome, attempt_of, record_attempt, count_attempt, is_active_job, all_ended,
  stamp_completed, move_attempt, close_job, complete_rows, complete_attempt, or_else,
}
use telegram_bot_delivery_en.Store.Ledger.Books.{size, closed, Ledger, Inv}
use telegram_bot_delivery_en.Store.Ledger.Moves.{keyed-update, jobs_keyed-update}
use telegram_bot_delivery_en.Store.Ledger.Step.{Moved, update-Moved}
use telegram_bot_delivery_en.Store.Ledger.Finishing.{finalize-Inv}
use telegram_bot_delivery_en.Store.Ledger.Completing.{
  record_attempt-Keeps, all_ended_lem, IsOpen, IsOpen-books, delayed_books, Ledger-stamped,
  Ledger-running,
}
use telegram_bot_delivery_en.Store.Ledger.Commit.{Ensures, Ensures-bind, transaction-Ensures}

-- The code reads the first job of the id; all of that id agree.
closed_by_id :
    (id : JobId) (rows : List Recipient) (j : Job) (b : Bool)
    → is_job id j ≡ true
    → nat_beq (closed id rows) (size id rows) ≡ b
    → nat_beq (closed j.job_id rows) (size j.job_id rows) ≡ b
closed_by_id id rows j b here e = rw (eq_of_test j.job_id id here) e

closed_of_id :
    (id : JobId) (rows : List Recipient) (j : Job) (b : Bool)
    → is_job id j ≡ true
    → nat_beq (closed j.job_id rows) (size j.job_id rows) ≡ b
    → nat_beq (closed id rows) (size id rows) ≡ b
closed_of_id id rows j b here e = rw (sym (eq_of_test j.job_id id here)) e

module _ (env : Env) (id : JobId) (finished : ℤ) (db : Db)
    (keyed : (k : JobId) (idx : ℕ) → count_where (is_row k idx) db.recipients ≤ 1)
    (jobs_keyed : (k : JobId) → count_where (is_job k) db.jobs ≤ 1)
    (opened : All (IsOpen id db.recipients) db.jobs) where
  closing_books :
      nat_beq (closed id db.recipients) (size id db.recipients) ≡ true
      → All
          (Ledger db.recipients)
          (update_where (is_active_job id) (stamp_completed finished) db.jobs)
  closing_books e =
      All-update_where (IsOpen id db.recipients) (Ledger db.recipients) (is_active_job id)
        (stamp_completed finished) db.jobs
        (λ j h o.
          let here : is_job id j ≡ true = ground arith in
          Ledger-stamped finished db.recipients j (o.0 here).0
            (closed_by_id id db.recipients j true here e))
        (λ j h o. elim (Bool-cases (is_job id j)) [
          | inl here ↦ absurd (ground (arith, (o.0 here).1))
          | inr away ↦ o.1 away
        ])
        opened

  running_books :
      nat_beq (closed id db.recipients) (size id db.recipients) ≡ false
      → All (Ledger db.recipients) db.jobs
  running_books e =
      All-map (IsOpen id db.recipients) (Ledger db.recipients) db.jobs
        (λ j o. elim (Bool-cases (is_job id j)) [
          | inl here ↦
              Ledger-running db.recipients j (o.0 here).0 (o.0 here).1
                (closed_by_id id db.recipients j false here e)
          | inr away ↦ o.1 away
        ])
        opened

  close_job-Inv : Ensures Inv (close_job env id finished db)
  unfolding close_job
  close_job-Inv = elim (Option-cases (find_where (is_job id) db.jobs)) [
    | inl e ↦ rw (e, close_job) tt
    | inr (j, e) ↦
        let here : is_job id j ≡ true = find_where-true (is_job id) db.jobs e in
        let o = (All-find_where (IsOpen id db.recipients) (is_job id) db.jobs e opened).0 here in
        elim (Bool-cases (all_ended j)) [
          | inl f ↦
              rw (e, f, close_job)
                (finalize-Inv env id finished _ (record {
                  keyed = keyed;
                  jobs_keyed =
                      jobs_keyed-update (is_active_job id) (stamp_completed finished) db.jobs
                        (λ k. refl) jobs_keyed;
                  books = closing_books (
                      closed_of_id id db.recipients j true here
                        (sym (all_ended_lem db.recipients j o.0) ∙ f));
                }))
          | inr f ↦
              rw (e, f, close_job)
                (record {
                  keyed = keyed;
                  jobs_keyed = jobs_keyed;
                  books = running_books (
                      closed_of_id id db.recipients j false here
                        (sym (all_ended_lem db.recipients j o.0) ∙ f));
                })
        ]
  ]

module _ (env : Env) (id : JobId) (idx : ℕ) (outcome : CompletionOutcome) (token : ℕ) (db : Db)
    (inv : Inv db) where
  at_most_one : count_where (holds_lease id idx token) db.recipients ≤ 1
  at_most_one = omega (
    arith,
    inv.keyed id idx,
    count_where-le (holds_lease id idx token) (is_row id idx) db.recipients (λ r h. ground arith),
  )

  answered : List Recipient
  answered =
      update_where (holds_lease id idx token) (record_attempt (attempt_of outcome)) db.recipients

  answered-Moved :
      count_where (holds_lease id idx token) db.recipients ≡ 1
      → Moved id RecipientState.leased (attempt_of outcome).state 1 db.recipients answered
  unfolding answered
  answered-Moved one =
      subst
        (λ n. Moved id RecipientState.leased (attempt_of outcome).state n db.recipients answered)
        one
        (update-Moved (holds_lease id idx token) (record_attempt (attempt_of outcome)) id
          RecipientState.leased (attempt_of outcome).state db.recipients
          (record_attempt-Keeps (attempt_of outcome))
          (λ r h. (
            eq_of_test r.job_id id (ground arith),
            eq_of_test r.state RecipientState.leased (ground arith),
          ))
          (λ r h. refl))

  answered-keyed : (k : JobId) (i : ℕ) → count_where (is_row k i) answered ≤ 1
  unfolding answered
  answered-keyed =
      keyed-update _ _ (record_attempt-Keeps (attempt_of outcome)) db.recipients inv.keyed

  answered-jobs_keyed :
      (k : JobId)
      → count_where
          (is_job k)
          (update_where (is_active_job id) (count_attempt (attempt_of outcome).state) db.jobs)
        ≤ 1
  answered-jobs_keyed =
      jobs_keyed-update (is_active_job id) (count_attempt (attempt_of outcome).state) db.jobs
        (λ j. refl) inv.jobs_keyed

  outcome_states :
      is_terminal (attempt_of outcome).state
        || same_state (attempt_of outcome).state RecipientState.delayed
      ≡ true
  unfolding attempt_of
  outcome_states = ground arith

  put_off-Inv :
      count_where (holds_lease id idx token) db.recipients ≡ 1
      → (attempt_of outcome).state ≡ RecipientState.delayed
      → Inv (move_attempt id idx token (attempt_of outcome) db)
  unfolding move_attempt answered
  put_off-Inv one e = record {
    keyed = answered-keyed;
    jobs_keyed = answered-jobs_keyed;
    books = delayed_books (answered-Moved one) outcome_states e db.jobs inv.books;
  }

  close-Inv :
      count_where (holds_lease id idx token) db.recipients ≡ 1
      → Ensures Inv (
          close_job env id
            (or_else (attempt_of outcome).sent env.wall_clock)
            (move_attempt id idx token (attempt_of outcome) db))
  unfolding move_attempt answered
  close-Inv one =
      close_job-Inv env id (or_else (attempt_of outcome).sent env.wall_clock)
        (move_attempt id idx token (attempt_of outcome) db) answered-keyed answered-jobs_keyed
        (IsOpen-books (answered-Moved one) outcome_states db.jobs inv.books)

  complete_rows-Inv : Ensures (λ d. Inv d.0) (complete_rows env id idx outcome token db)
  unfolding complete_rows
  complete_rows-Inv =
      elim (Bool-cases (count_where (holds_lease id idx token) db.recipients == 0)) [
        | inl e ↦ rw (e, complete_rows) inv
        | inr e ↦
            let one : count_where (holds_lease id idx token) db.recipients ≡ 1 =
              ground (arith, at_most_one) in
            elim (Bool-cases (same_state (attempt_of outcome).state RecipientState.delayed)) [
              | inl f ↦ rw (e, f, complete_rows) (put_off-Inv one (eq_of_test _ _ f))
              | inr f ↦
                  rw (e, f, complete_rows)
                    (Ensures-bind Inv (λ d. Inv d.0) _ (λ d. ok (d, done)) (close-Inv one)
                      (λ d i. i))
            ]
      ]

pub complete_attempt-Inv :
    (env : Env) (id : JobId) (idx : ℕ) (outcome : CompletionOutcome) (token : ℕ) (db : Db)
    → Inv db
    → Inv (complete_attempt env id idx outcome token db).0
unfolding complete_attempt
complete_attempt-Inv env id idx outcome token db inv =
    transaction-Ensures Inv env (complete_rows env id idx outcome token) db inv
      (complete_rows-Inv env id idx outcome token db inv)

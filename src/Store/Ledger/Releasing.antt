-- ===== src/Store/Ledger/Releasing.antt =====
-- `ReleaseLease` keeps the ledger, and refuses every token but the current lease's.
use telegram_bot_delivery_en.Base.{
  ℕ, ◌≤◌, ◌≡◌, refl, String, List, ℤ, arith, ◌==◌, nat_eq, string_eq, count_where, update_where,
  All, subst, nat_beq_iff, All-update_where, update_where-none, count_where-le, eq_of_test,
  Bool-cases, inl, inr,
}
use telegram_bot_delivery_en.Domain.{JobId, RecipientState, recipient_state_eq}
use telegram_bot_delivery_en.Store.Tables.{Recipient, Db, Env, is_job, is_row}
use telegram_bot_delivery_en.Store.Lease.{
  put_back, count_release, is_unsent, release_row, release_lease,
}
use telegram_bot_delivery_en.Store.Ledger.Books.{Ledger, Inv}
use telegram_bot_delivery_en.Store.Ledger.Moves.{Keeps, keyed-update, jobs_keyed-update}
use telegram_bot_delivery_en.Store.Ledger.Step.{Moved, update-Moved, Ledger-elsewhere, tallies-here}
use telegram_bot_delivery_en.Store.Ledger.Counters.{Counted-release}
use telegram_bot_delivery_en.Store.Ledger.Commit.{Ensures, transaction-Ensures}

put_back-Keeps : (at : ℤ) (reason : String) → Keeps (put_back at reason)
put_back-Keeps at reason = record { job = λ r. refl; row = λ r. refl; bot = λ r. refl }

module _ (id : JobId) (idx : ℕ) (at : ℤ) (reason : String) (token : ℕ) (db : Db)
    (inv : Inv db) where
  released : List Recipient
  released = update_where (is_unsent id idx token) (put_back at reason) db.recipients

  at_most_one : count_where (is_unsent id idx token) db.recipients ≤ 1
  at_most_one = omega (
    arith,
    inv.keyed id idx,
    count_where-le (is_unsent id idx token) (is_row id idx) db.recipients (λ r h. ground arith),
  )

  released_books :
      count_where (is_unsent id idx token) db.recipients ≡ 1
      → All (Ledger released) (update_where (is_job id) count_release db.jobs)
  unfolding released
  released_books one =
      All-update_where (Ledger db.recipients) (Ledger _) (is_job id) count_release db.jobs
        (λ j here l. record {
          staging = λ e.
              absurd (omega (arith, l.staging e, tallies-here moved j here RecipientState.leased));
          promoted = λ e. Counted-release moved j here refl refl (l.promoted e);
        })
        (λ j away l. Ledger-elsewhere moved j away l) inv.books
    where
      moved : Moved id RecipientState.leased RecipientState.delayed 1 db.recipients released
      moved =
          subst
            (λ n. Moved id RecipientState.leased RecipientState.delayed n db.recipients released)
            one
            (update-Moved (is_unsent id idx token) (put_back at reason) id RecipientState.leased
              RecipientState.delayed db.recipients (put_back-Keeps at reason)
              (λ r h. (
                eq_of_test r.job_id id (ground arith),
                eq_of_test r.state RecipientState.leased (ground arith),
              ))
              (λ r h. refl))

  release_row-Inv : Ensures (λ d. Inv d.0) (release_row id idx at reason token db)
  unfolding release_row released
  release_row-Inv = elim (Bool-cases (count_where (is_unsent id idx token) db.recipients == 1)) [
    | inl e ↦
        rw (e, release_row)
          (record {
            keyed =
                keyed-update _ (put_back at reason) (put_back-Keeps at reason) db.recipients
                  inv.keyed;
            jobs_keyed =
                jobs_keyed-update (is_job id) count_release db.jobs (λ j. refl) inv.jobs_keyed;
            books = released_books ((nat_beq_iff _ _).0 e);
          })
    | inr e ↦
        rw
          (
            e,
            release_row,
            update_where-none (is_unsent id idx token) (put_back at reason) db.recipients
                (ground (arith, at_most_one)),
          )
          inv
  ]

pub release_lease-Inv :
    (env : Env) (id : JobId) (idx : ℕ) (at : ℤ) (reason : String) (token : ℕ) (db : Db)
    → Inv db
    → Inv (release_lease env id idx at reason token db).0
unfolding release_lease
release_lease-Inv env id idx at reason token db inv =
    transaction-Ensures Inv env (release_row id idx at reason token) db inv
      (release_row-Inv id idx at reason token db inv)

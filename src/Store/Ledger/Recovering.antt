-- ===== src/Store/Ledger/Recovering.antt =====
-- Lease recovery of src/store/writer.rs keeps the ledger.
use telegram_bot_delivery_en.Base.{
  ℕ, ◌≤◌, ◌≡◌, refl, sym, subst, ◌∙◌, String, true, false, ◌&&◌, List, [], ◌∷◌, map, ℤ, arith, ◌==◌,
  nat_eq, string_eq, if◌then◌else◌, any, count_where, keep_where, All, All-map, eq_of_test,
  test_self, Bool-cases, inl, inr, any-map, any-map-keep_where, All-members, any_of_member,
  count_where-none, count_where-any, count_where-le,
}
use telegram_bot_delivery_en.Domain.{JobId, RecipientState, recipient_state_eq}
use telegram_bot_delivery_en.Store.Tables.{Job, Recipient, Db, Env, of_job, is_row}
use telegram_bot_delivery_en.Store.Sql.{is_active, in_state}
use telegram_bot_delivery_en.Store.Recover.{
  is_expired, can_retry, policy_of, requeue, give_back, is_leased_row, recover_row, recover_rows,
  distinct, reconcile_all, recover_expired, recover_leases, requeue_expired_leases,
}
use telegram_bot_delivery_en.Store.Ledger.Books.{is_staging, Ledger, Inv}
use telegram_bot_delivery_en.Store.Ledger.Moves.{Keeps, size-split, keyed-update}
use telegram_bot_delivery_en.Store.Ledger.Commit.{Ensures, Ensures-bind, transaction-Ensures}
use telegram_bot_delivery_en.Store.Ledger.Behind.{listed, Behind, Unsettled}
use telegram_bot_delivery_en.Store.Ledger.Reconciling.{
  reconcile_all-Inv, Stirred, Stirred-Behind, Ledger-Stirred, Stirred-update,
}

any-distinct :
    (id : JobId) (ids : List JobId) → any (λ k. k == id) (distinct ids) ≡ any (λ k. k == id) ids
unfolding distinct
any-distinct id [] = refl
any-distinct id (k ∷ ids) = elim (Bool-cases (any (λ l. l == k) (distinct ids))) [
  | inl e ↦ elim (Bool-cases (k == id)) [
    | inl f ↦
        let q : any (λ l. l == id) (distinct ids) ≡ true =
          subst (λ x. any (λ l. l == x) (distinct ids) ≡ true) (eq_of_test k id f) e in
        rw e (ground (arith, any-distinct id ids))
    | inr f ↦ rw e (ground (arith, any-distinct id ids))
  ]
  | inr e ↦ rw e (ground (arith, any-distinct id ids))
]

-- What one round of the loop writes.
module _ (env : Env) (now : ℤ) (jobs : List Job) (row : Recipient) where
  recovered : Recipient → Recipient
  recovered =
      if row.wire_started
      then give_back (can_retry env row.retry_consumed (policy_of row.job_id jobs)) now
      else requeue

  recovered-Keeps : Keeps recovered
  unfolding recovered
  recovered-Keeps = elim (Bool-cases row.wire_started) [
    | inl e ↦ rw e (record { job = λ r. refl; row = λ r. refl; bot = λ r. refl })
    | inr e ↦ rw e (record { job = λ r. refl; row = λ r. refl; bot = λ r. refl })
  ]

  recovered_apart :
      (ids : List JobId) (j : Job) (table : List Recipient)
      → any (λ k. k == row.job_id) ids ≡ true
      → listed ids j ≡ false
      → count_where (λ r. is_leased_row row.job_id row.idx r && of_job j.job_id r) table ≡ 0
  recovered_apart ids j table h away = count_where-none _ table λ r.
      elim (Bool-cases (of_job row.job_id r)) [
        | inl e ↦ elim (Bool-cases (of_job j.job_id r)) [
          | inl f ↦
              let q : row.job_id ≡ j.job_id =
                sym (eq_of_test r.job_id row.job_id e) ∙ eq_of_test r.job_id j.job_id f in
              let listed_j : listed ids j ≡ true = subst (λ x. any (λ k. k == x) ids ≡ true) q h in
              absurd (ground arith)
          | inr f ↦ ground arith
        ]
        | inr e ↦ ground arith
      ]

module _ (env : Env) (now : ℤ) (jobs : List Job) (ids : List JobId) where
  recover_rows-Stirred :
      (j : Job) (rows table : List Recipient)
      → All (λ row. any (λ k. k == row.job_id) ids ≡ true) rows
      → Stirred ids table j
      → Stirred ids (recover_rows env now jobs rows table) j
  unfolding recover_rows recover_row recovered
  recover_rows-Stirred j [] table a s = s
  recover_rows-Stirred j (row ∷ rows) table a s = recover_rows-Stirred j rows _ a.1 (
      Stirred-update ids (is_leased_row row.job_id row.idx) (recovered env now jobs row) table j
        (recovered-Keeps env now jobs row) (recovered_apart env now jobs row ids j table a.0) s)

  recover_rows-keyed :
      (rows table : List Recipient)
      → ((id : JobId) (idx : ℕ) → count_where (is_row id idx) table ≤ 1)
      → (id : JobId) (idx : ℕ)
      → count_where (is_row id idx) (recover_rows env now jobs rows table) ≤ 1
  unfolding recover_rows recover_row recovered
  recover_rows-keyed [] table one = one
  recover_rows-keyed (row ∷ rows) table one = recover_rows-keyed rows _ (
      keyed-update (is_leased_row row.job_id row.idx) (recovered env now jobs row)
        (recovered-Keeps env now jobs row) table one)

module _ (now : ℤ) (db : Db) (inv : Inv db) where
  lost : List Recipient
  lost = keep_where (is_expired now db.jobs) db.recipients

  lost_jobs : List JobId
  lost_jobs = distinct (map (λ r. r.job_id) lost)

  lost_jobs_lem :
      (id : JobId)
      → any (λ k. k == id) lost_jobs
        ≡ any (λ r. of_job id r && is_expired now db.jobs r) db.recipients
  unfolding lost_jobs lost
  lost_jobs_lem id =
      any-distinct id _
      ∙ any-map-keep_where (λ k. k == id) (λ r. r.job_id) (is_expired now db.jobs) db.recipients

  lost-listed : All (λ row. any (λ k. k == row.job_id) lost_jobs ≡ true) lost
  unfolding lost_jobs
  lost-listed = All-members _ lost λ row m.
      any-distinct row.job_id _
      ∙ any-map (λ k. k == row.job_id) (λ r. r.job_id) lost
      ∙ any_of_member (λ r. r.job_id == row.job_id) lost m (test_self row.job_id)

  -- A job with an expired lease has a recipient on the wire, so it runs.
  lost-running :
      (j : Job) → Ledger db.recipients j → listed lost_jobs j ≡ true → is_active j.state ≡ true
  lost-running j l h =
      let p =
        count_where-any (λ r. of_job j.job_id r && is_expired now db.jobs r) db.recipients
          (sym (lost_jobs_lem j.job_id) ∙ h) in
      let on_wire =
        count_where-le (λ r. of_job j.job_id r && is_expired now db.jobs r)
          (in_state j.job_id RecipientState.leased) db.recipients (λ r e. ground arith) in
      elim (Bool-cases (is_staging j)) [
        | inl e ↦ absurd (omega (arith, l.staging e))
        | inr e ↦
            let c = l.promoted e in
            ground (arith, c.completed_exact, c.never_internal, size-split j.job_id db.recipients)
      ]

  recovered-Unsettled :
      (env : Env)
      → Unsettled lost_jobs
          (record db { recipients = recover_rows env now db.jobs lost db.recipients })
  recovered-Unsettled env = record {
    keyed = recover_rows-keyed env now db.jobs lost_jobs lost db.recipients inv.keyed;
    jobs_keyed = inv.jobs_keyed;
    behind =
        All-map (Ledger db.recipients) (Behind lost_jobs _) db.jobs
          (λ j l. Stirred-Behind lost_jobs _ j (
            recover_rows-Stirred env now db.jobs lost_jobs j lost db.recipients lost-listed
              (Ledger-Stirred lost_jobs db.recipients j (lost-running j l) l)))
          inv.books;
  }

  recover_expired-Inv : (env : Env) → Ensures (λ d. Inv d.0) (recover_expired env now db)
  unfolding recover_expired lost_jobs lost
  recover_expired-Inv env =
      Ensures-bind Inv (λ d. Inv d.0) (reconcile_all env now lost_jobs _) _
        (reconcile_all-Inv env now lost_jobs _ (recovered-Unsettled env)) (λ d i. i)

pub recover_leases-Inv :
    (env : Env) (epoch : String) (now : ℤ) (db : Db)
    → Inv db
    → Inv (recover_leases env epoch now db).0
unfolding recover_leases
recover_leases-Inv env epoch now db inv =
    transaction-Ensures Inv env (recover_expired env now) db inv
      (recover_expired-Inv now db inv env)

pub requeue_expired_leases-Inv :
    (env : Env) (epoch : String) (now : ℤ) (db : Db)
    → Inv db
    → Inv (requeue_expired_leases env epoch now db).0
unfolding requeue_expired_leases
requeue_expired_leases-Inv env epoch now db inv =
    transaction-Ensures Inv env (recover_expired env now) db inv
      (recover_expired-Inv now db inv env)

-- ===== src/Store/Ledger/Deleting.antt =====
-- Deleting jobs (`AbortAcceptJob` and `RetentionTick` of src/store/writer.rs) keeps the ledger.
use telegram_bot_delivery_en.Base.{
  ℕ, ◌<◌, ◌≡◌, ◌∙◌, Bool, true, false, not, ◌&&◌, List, [], ◌∷◌, ℤ, arith, ◌==◌, nat_eq, string_eq,
  any, count_where, keep_where, All, All-map, All-both, All-keep_where, eq_of_test, Bool-cases, inl,
  inr, count_where-keep_where, count_where-eq, count_where-le, count-absent, All-of_unique,
  any-Memᴰ,
}
use telegram_bot_delivery_en.Domain.{JobId, same_state, recipient_state_eq, job_state_eq}
use telegram_bot_delivery_en.Store.Tables.{
  Job, Recipient, Db, ok, ◌>>=◌, count, Env, is_job, of_job, is_row,
}
use telegram_bot_delivery_en.Store.Accept.{is_accepting, delete_jobs, abort_accept_job}
use telegram_bot_delivery_en.Store.Upkeep.{delete_event, collect, retire, retention_tick}
use telegram_bot_delivery_en.Store.Ledger.Books.{Ledger, Inv}
use telegram_bot_delivery_en.Store.Ledger.Step.{Ledger-same}
use telegram_bot_delivery_en.Store.Ledger.Commit.{Ensures, Ensures-bind, transaction-Ensures}

module _ (id : JobId) (rows : List Recipient) where
  abbrev others : List Recipient
  others = keep_where (λ r. not (of_job id r)) rows

  kept :
      (q : Recipient → Bool)
      → ((r : Recipient) → q r ≡ true → of_job id r ≡ false)
      → count_where q others ≡ count_where q rows
  kept q h =
      count_where-keep_where q (λ r. not (of_job id r)) rows
      ∙ count_where-eq _ q rows (λ r. ground (arith, h r))

  other_rows :
      (j : Job)
      → is_job id j ≡ false
      → (r : Recipient) → of_job j.job_id r ≡ true
      → of_job id r ≡ false
  other_rows j away r h = rw (eq_of_test r.job_id j.job_id h) away

  kept-Ledger : (j : Job) → is_job id j ≡ false → Ledger rows j → Ledger others j
  kept-Ledger j away =
      Ledger-same rows others j
        (λ t.
          kept (λ r. of_job j.job_id r && same_state r.state t)
            (λ r h. other_rows j away r (ground arith)))
        (kept (of_job j.job_id) (other_rows j away))
        (kept (λ r. of_job j.job_id r && not (r.bot_id == j.bot_id))
          (λ r h. other_rows j away r (ground arith)))

-- All jobs of the id go.
module _ (which : Job → Bool) (id : JobId) where
  left_over :
      (jobs : List Job)
      → All (λ j. is_job id j ≡ true → which j ≡ true) jobs
      → All (λ j. is_job id j ≡ false) (keep_where (λ j. not (which j)) jobs)
  left_over [] a = tt
  left_over (j ∷ jobs) a = elim (Bool-cases (not (which j))) [
    | inl e ↦ rw e (ground (arith, a.0), left_over jobs a.1)
    | inr e ↦ rw e (left_over jobs a.1)
  ]

  pub delete_jobs-Inv :
      (db : Db)
      → (0 < count_where which db.jobs → All (λ j. is_job id j ≡ true → which j ≡ true) db.jobs)
      → Inv db
      → Ensures (λ d. Inv d.0) (delete_jobs which id db)
  unfolding delete_jobs
  delete_jobs-Inv db whole inv = elim (Bool-cases (count_where which db.jobs == 0)) [
    | inl e ↦ rw (e, delete_jobs) inv
    | inr e ↦ elim (Bool-cases (any (λ x. x.job_id == id) db.webhook_events)) [
      | inl f ↦ rw (e, f, delete_jobs) tt
      | inr f ↦
          rw (e, f, delete_jobs)
            (record {
              keyed = λ k i.
                  let le =
                    count_where-le (λ r. not (of_job id r) && is_row k i r) (is_row k i)
                      db.recipients (λ r h. ground arith) in
                  omega (
                    arith,
                    inv.keyed k i,
                    count_where-keep_where (is_row k i) (λ r. not (of_job id r)) db.recipients,
                  );
              jobs_keyed = λ k.
                  let le =
                    count_where-le (λ j. not (which j) && is_job k j) (is_job k) db.jobs
                      (λ j h. ground arith) in
                  omega (
                    arith,
                    inv.jobs_keyed k,
                    count_where-keep_where (is_job k) (λ j. not (which j)) db.jobs,
                  );
              books =
                  All-map _ (Ledger _) _ (λ j b. kept-Ledger id db.recipients j b.0 b.1)
                    (All-both _ (Ledger db.recipients) _ (left_over db.jobs (whole (ground arith)))
                      (All-keep_where (Ledger db.recipients) (λ j. not (which j)) db.jobs
                        inv.books));
            })
    ]
  ]

pub abort_accept_job-Inv :
    (env : Env) (id : JobId) (db : Db) → Inv db → Inv (abort_accept_job env id db).0
unfolding abort_accept_job
abort_accept_job-Inv env id db inv =
    transaction-Ensures Inv env
      (λ d. delete_jobs (is_accepting id) id d >>= λ r. ok (r.0, count r.1)) db inv
      (Ensures-bind (λ d. Inv d.0) (λ d. Inv d.0) (delete_jobs (is_accepting id) id db) _
        (delete_jobs-Inv (is_accepting id) id db whole inv) (λ d i. i))
  where
    whole :
        0 < count_where (is_accepting id) db.jobs
        → All (λ j. is_job id j ≡ true → is_accepting id j ≡ true) db.jobs
    whole h = elim (Bool-cases (any (is_accepting id) db.jobs)) [
      | inl e ↦
          let (j, m, t) = any-Memᴰ (is_accepting id) db.jobs e in
          All-of_unique (is_job id) (is_accepting id) db.jobs m (ground arith) t (inv.jobs_keyed id)
      | inr e ↦ absurd (omega (arith, count-absent (is_accepting id) db.jobs e))
    ]

collect-Inv : (jobs : List Job) (db : Db) → Inv db → Ensures Inv (collect jobs db)
unfolding collect delete_event
collect-Inv [] db inv = inv
collect-Inv (j ∷ jobs) db inv =
    Ensures-bind (λ d. Inv d.0) Inv
      (delete_jobs (is_job j.job_id) j.job_id (delete_event j.job_id db)) _
      (delete_jobs-Inv (is_job j.job_id) j.job_id (delete_event j.job_id db) (λ _. All_same db.jobs)
        (record { keyed = inv.keyed; jobs_keyed = inv.jobs_keyed; books = inv.books }))
      (λ d i. collect-Inv jobs d.0 i)
  where
    All_same : (ks : List Job) → All (λ k. is_job j.job_id k ≡ true → is_job j.job_id k ≡ true) ks
    All_same [] = tt
    All_same (k ∷ ks) = (λ h. h, All_same ks)

pub retention_tick-Inv :
    (env : Env) (now : ℤ) (batch : ℕ) (db : Db) → Inv db → Inv (retention_tick env now batch db).0
unfolding retention_tick retire
retention_tick-Inv env now batch db inv =
    transaction-Ensures Inv env (retire now batch) db inv
      (Ensures-bind Inv (λ d. Inv d.0) (collect _ db) _ (collect-Inv _ db inv) (λ d i. i))

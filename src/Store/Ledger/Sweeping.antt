-- ===== src/Store/Ledger/Sweeping.antt =====
-- `ExpireDeadline` and lease recovery of src/store/writer.rs keep the ledger.
use telegram_bot_delivery_en.Base.{
  ◌≤◌, ◌≡◌, refl, sym, ◌∙◌, Bool, true, false, ◌&&◌, List, map, ℤ, arith, ◌==◌, nat_eq, string_eq,
  any, count_where, keep_where, update_where, All, All-map, eq_of_test, test_self, Bool-cases, inl,
  inr, any-Memᴰ, any-map-keep_where, All-members, All-Memᴰ, All-both, All-of_unique,
  count_where-none,
}
use telegram_bot_delivery_en.Domain.{JobId, recipient_state_eq}
use telegram_bot_delivery_en.Store.Tables.{Job, Db, Env, is_job, of_job}
use telegram_bot_delivery_en.Store.Recover.{
  reconcile_all, is_late, is_late_row, fail_late, expire_rows, expire_deadline,
}
use telegram_bot_delivery_en.Store.Ledger.Books.{Ledger, Inv}
use telegram_bot_delivery_en.Store.Ledger.Moves.{Keeps, keyed-update}
use telegram_bot_delivery_en.Store.Ledger.Commit.{Ensures, Ensures-bind, transaction-Ensures}
use telegram_bot_delivery_en.Store.Ledger.Behind.{listed, Behind, Unsettled}
use telegram_bot_delivery_en.Store.Ledger.Reconciling.{
  reconcile_all-Inv, Stirred-Behind, Ledger-Stirred, Stirred-update,
}

-- The listed jobs are the ones the query selected, where ids are unique.
module _ (p : Job → Bool) (jobs : List Job)
    (one : (id : JobId) → count_where (is_job id) jobs ≤ 1) where
  unfoldable pub selected : List JobId
  selected = map (λ j. j.job_id) (keep_where p jobs)

  pub selected_lem : (id : JobId) → any (λ k. k == id) selected ≡ any (λ j. is_job id j && p j) jobs
  unfolding selected
  selected_lem id = any-map-keep_where (λ k. k == id) (λ j. j.job_id) p jobs

  pub listed-selected : All (λ j. listed selected j ≡ true → p j ≡ true) jobs
  listed-selected =
      All-members (λ j. listed selected j ≡ true → p j ≡ true) jobs
        λ j m h.
          let (k, mk, hk) =
            any-Memᴰ (λ k. is_job j.job_id k && p k) jobs (sym (selected_lem j.job_id) ∙ h) in
          All-Memᴰ (λ y. is_job j.job_id y ≡ true → p y ≡ true) jobs
            (All-of_unique (is_job j.job_id) p jobs mk (ground arith) (ground arith) (one j.job_id))
            m (test_self j.job_id)

fail_late-Keeps : Keeps fail_late
fail_late-Keeps = record { job = λ r. refl; row = λ r. refl; bot = λ r. refl }

module _ (now : ℤ) (db : Db) (inv : Inv db) where
  late : List JobId
  late = selected (is_late now) db.jobs inv.jobs_keyed

  late_apart :
      (j : Job)
      → listed late j ≡ false
      → count_where (λ r. is_late_row now db.jobs r && of_job j.job_id r) db.recipients ≡ 0
  unfolding late
  late_apart j h = count_where-none _ db.recipients λ r. elim (Bool-cases (of_job j.job_id r)) [
    | inl e ↦
        rw (eq_of_test r.job_id j.job_id e)
          (ground (arith, selected_lem (is_late now) db.jobs inv.jobs_keyed j.job_id))
    | inr e ↦ ground arith
  ]

  expired-Unsettled :
      Unsettled late
        (record db { recipients = update_where (is_late_row now db.jobs) fail_late db.recipients })
  unfolding late
  expired-Unsettled = record {
    keyed =
        keyed-update (is_late_row now db.jobs) fail_late fail_late-Keeps db.recipients inv.keyed;
    jobs_keyed = inv.jobs_keyed;
    behind =
        All-map _ (Behind late _) db.jobs
          (λ j b. Stirred-Behind late _ j (
            Stirred-update late (is_late_row now db.jobs) fail_late db.recipients j fail_late-Keeps
              (late_apart j)
              (Ledger-Stirred late db.recipients j (λ h. let hit = b.1 h in ground arith) b.0)))
          (All-both (Ledger db.recipients) (λ j. listed late j ≡ true → is_late now j ≡ true)
            db.jobs inv.books (listed-selected (is_late now) db.jobs inv.jobs_keyed));
  }

  expire_rows-Inv : (env : Env) → Ensures (λ d. Inv d.0) (expire_rows env now db)
  unfolding expire_rows late selected
  expire_rows-Inv env =
      Ensures-bind Inv (λ d. Inv d.0) (reconcile_all env now late _) _
        (reconcile_all-Inv env now late _ expired-Unsettled) (λ d i. i)

pub expire_deadline-Inv :
    (env : Env) (now : ℤ) (db : Db) → Inv db → Inv (expire_deadline env now db).0
unfolding expire_deadline
expire_deadline-Inv env now db inv =
    transaction-Ensures Inv env (expire_rows env now) db inv (expire_rows-Inv now db inv env)

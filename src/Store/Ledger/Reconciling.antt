-- ===== src/Store/Ledger/Reconciling.antt =====
-- `reconcile_job` of src/store/writer.rs puts the books of a job in order, and its loop those of a list.
use telegram_bot_delivery_en.Base.{
  ◌≡◌, refl, Bool, true, false, ◌&&◌, List, [], ◌∷◌, some, ℤ, arith, ◌==◌, nat_eq, string_eq,
  count_where, update_where, All-update_where, Bool-cases, inl, inr,
}
use telegram_bot_delivery_en.Domain.{JobId, RecipientState, recipient_state_eq}
use telegram_bot_delivery_en.Store.Tables.{Job, Recipient, Db, Env, is_job, of_job}
use telegram_bot_delivery_en.Store.Sql.{is_active, tally}
use telegram_bot_delivery_en.Store.Complete.{
  tallies, recount, reconcile_job, finalize_completed_job,
}
use telegram_bot_delivery_en.Store.Recover.{reconcile_all, reconcile_revoked}
use telegram_bot_delivery_en.Store.Ledger.Books.{Sized, Ledger, Inv}
use telegram_bot_delivery_en.Store.Ledger.Moves.{
  Keeps, size-update, strays-update, jobs_keyed-update,
}
use telegram_bot_delivery_en.Store.Ledger.Step.{Ledger-same}
use telegram_bot_delivery_en.Store.Ledger.Columns.{SameBooks}
use telegram_bot_delivery_en.Store.Ledger.Commit.{Ensures, Ensures-bind}
use telegram_bot_delivery_en.Store.Ledger.Finishing.{finalize-Keeps}
use telegram_bot_delivery_en.Store.Ledger.Behind.{
  listed, Behind, Unsettled, Settled, Behind-columns, recount-Behind, recount_id,
}

columns-Unsettled :
    (ids : List JobId) (p : Job → Bool) (f : Job → Job) (db : Db)
    → ((j : Job) → SameBooks j (f j))
    → Unsettled ids db
    → Unsettled ids (record db { jobs = update_where p f db.jobs })
columns-Unsettled ids p f db same u = record {
  keyed = u.keyed;
  jobs_keyed = jobs_keyed-update p f db.jobs (λ j. (same j).same_id) u.jobs_keyed;
  behind =
      All-update_where (Behind ids db.recipients) (Behind ids db.recipients) p f db.jobs
        (λ j h b. Behind-columns ids db.recipients j (f j) (same j) b) (λ j h b. b) u.behind;
}

finalize-Unsettled :
    (ids : List JobId) (env : Env) (id : JobId) (now : ℤ) (db : Db)
    → Unsettled ids db
    → Ensures (Unsettled ids) (finalize_completed_job env id now db)
finalize-Unsettled ids =
    finalize-Keeps (Unsettled ids)
      (λ db es ps u. record { keyed = u.keyed; jobs_keyed = u.jobs_keyed; behind = u.behind })
      (λ db id event u.
        columns-Unsettled ids (is_job id) (λ k. record k { webhook_event_id = some event }) db
          (λ k. ground arith) u)

-- The books of the job are in order after it, and no other job's order is lost.
pub reconcile_job-Unsettled :
    (env : Env) (id : JobId) (ids : List JobId) (now : ℤ) (db : Db)
    → Unsettled (id ∷ ids) db
    → Ensures (Unsettled ids) (reconcile_job env id now db)
unfolding reconcile_job
reconcile_job-Unsettled env id ids now db u =
    elim (Bool-cases (count_where (of_job id) db.recipients == 0)) [
      | inl e ↦ rw (e, reconcile_job) tt
      | inr e ↦
          rw (e, reconcile_job)
            (finalize-Unsettled ids env id now _ (record {
              keyed = u.keyed;
              jobs_keyed =
                  jobs_keyed-update (is_job id) (recount now (tallies id db.recipients)) db.jobs
                    (recount_id now (tallies id db.recipients)) u.jobs_keyed;
              behind = recount-Behind id ids now db.recipients db.jobs u.behind;
            }))
    ]

pub reconcile_all-Inv :
    (env : Env) (now : ℤ) (ids : List JobId) (db : Db)
    → Unsettled ids db
    → Ensures Inv (reconcile_all env now ids db)
unfolding reconcile_all
reconcile_all-Inv env now [] db u = Settled db u
reconcile_all-Inv env now (id ∷ ids) db u =
    Ensures-bind (Unsettled ids) Inv (reconcile_job env id now db) (reconcile_all env now ids)
      (reconcile_job-Unsettled env id ids now db u) (reconcile_all-Inv env now ids)

pub reconcile_revoked-Inv :
    (env : Env) (now : ℤ) (ids : List JobId) (db : Db)
    → Unsettled ids db
    → Ensures Inv (reconcile_revoked env now ids db)
unfolding reconcile_revoked
reconcile_revoked-Inv env now [] db u = Settled db u
reconcile_revoked-Inv env now (id ∷ ids) db u =
    Ensures-bind (Unsettled ids) Inv (reconcile_job env id now db) _
      (reconcile_job-Unsettled env id ids now db u)
      (λ d u'. reconcile_revoked-Inv env now ids _ (
        columns-Unsettled ids (is_job id)
          (λ j. record j { error_summary = some "bot_unauthorized" }) d (λ k. ground arith) u'))

-- Jobs that run, of which some have recipients that moved.
pub record Stirred (ids : List JobId) (rows : List Recipient) (j : Job) : Type 0 where
  pub stirred_sized : listed ids j ≡ true → Sized rows j
  pub stirred_active : listed ids j ≡ true → is_active j.state ≡ true
  pub untouched : listed ids j ≡ false → Ledger rows j

pub Stirred-Behind :
    (ids : List JobId) (rows : List Recipient) (j : Job) → Stirred ids rows j → Behind ids rows j
Stirred-Behind ids rows j s = record {
  waits = λ h. record {
    sized = s.stirred_sized h;
    live = ground (arith, s.stirred_active h);
    ended_if = λ e. absurd (ground (arith, s.stirred_active h));
  };
  settled = s.untouched;
}

-- A running job in order may be stirred.
pub Ledger-Stirred :
    (ids : List JobId) (rows : List Recipient) (j : Job)
    → (listed ids j ≡ true → is_active j.state ≡ true)
    → Ledger rows j
    → Stirred ids rows j
Ledger-Stirred ids rows j active l = record {
  stirred_sized = λ h. (l.promoted (ground (arith, active h))).sized;
  stirred_active = active;
  untouched = λ _. l;
}

-- Rows move, none of them of a job that is not listed.
pub tally-apart :
    (p : Recipient → Bool) (f : Recipient → Recipient) (keeps : Keeps f) (k : JobId)
    (t : RecipientState) (rows : List Recipient)
    → count_where (λ r. p r && of_job k r) rows ≡ 0
    → tally k t (update_where p f rows) ≡ tally k t rows
tally-apart p f keeps k t [] away = refl
tally-apart p f keeps k t (r ∷ rows) away =
    ground (arith, tally-apart p f keeps k t rows, keeps.job r)

pub Stirred-update :
    (ids : List JobId) (p : Recipient → Bool) (f : Recipient → Recipient) (rows : List Recipient)
    (j : Job)
    → Keeps f
    → (listed ids j ≡ false → count_where (λ r. p r && of_job j.job_id r) rows ≡ 0)
    → Stirred ids rows j
    → Stirred ids (update_where p f rows) j
Stirred-update ids p f rows j keeps away s =
    let sizes = size-update p f keeps j.job_id rows in
    let bots = strays-update p f keeps j.job_id j.bot_id rows in
    record {
      stirred_sized = λ h.
          let z = s.stirred_sized h in
          record {
            total_exact = simp sizes z.total_exact;
            nonempty = omega (arith, sizes, z.nonempty);
            never_internal = z.never_internal;
            one_bot = simp bots z.one_bot;
          };
      stirred_active = s.stirred_active;
      untouched = λ h.
          Ledger-same rows (update_where p f rows) j
            (λ t. tally-apart p f keeps j.job_id t rows (away h)) sizes bots (s.untouched h);
    }

-- ===== src/Store/Ledger/Behind.antt =====
-- Jobs whose recipients have moved in bulk, before `reconcile_job` reads their counters again.
use telegram_bot_delivery_en.Base.{
  ℕ, ◌≤◌, ◌≡◌, refl, sym, ap, ◌∙◌, Bool, true, false, List, [], ◌∷◌, ℤ, pos, eqb_ℤ, nat_beq, arith,
  ◌==◌, nat_eq, string_eq, any, count_where, update_where, All, All-update_where, All-map,
  eq_of_test, test_sym, Bool-cases, inl, inr,
}
use telegram_bot_delivery_en.Domain.{
  JobId, JobState, RecipientState, same_job_state, recipient_state_eq, job_state_eq,
}
use telegram_bot_delivery_en.Store.Tables.{Job, Recipient, Db, is_job, is_row}
use telegram_bot_delivery_en.Store.Sql.{tally}
use telegram_bot_delivery_en.Store.Complete.{Tallies, tallies, ended, recount, set_counters}
use telegram_bot_delivery_en.Store.Ledger.Books.{
  size, closed, is_staging, Sized, Tallied, Ledger, Inv,
}
use telegram_bot_delivery_en.Store.Ledger.Completing.{Ledger-stamped}
use telegram_bot_delivery_en.Store.Ledger.Columns.{SameBooks, Ledger-columns}

-- What `reconcile_job` needs of a job to put its books right.
pub record Ready (rows : List Recipient) (j : Job) : Type 0 where
  pub sized : Sized rows j
  pub live : is_staging j ≡ false
  pub ended_if :
      same_job_state j.state JobState.completed ≡ true
      → nat_beq (closed j.job_id rows) (size j.job_id rows) ≡ true

abbrev pub listed : List JobId → Job → Bool
listed ids j = any (λ k. k == j.job_id) ids

-- The jobs of the list wait for it; the others are in order.
pub record Behind (ids : List JobId) (rows : List Recipient) (j : Job) : Type 0 where
  pub waits : listed ids j ≡ true → Ready rows j
  pub settled : listed ids j ≡ false → Ledger rows j

pub record Unsettled (ids : List JobId) (db : Db) : Type 0 where
  pub keyed : (id : JobId) (idx : ℕ) → count_where (is_row id idx) db.recipients ≤ 1
  pub jobs_keyed : (id : JobId) → count_where (is_job id) db.jobs ≤ 1
  pub behind : All (Behind ids db.recipients) db.jobs

pub Settled : (db : Db) → Unsettled [] db → Inv db
Settled db u = record {
  keyed = u.keyed;
  jobs_keyed = u.jobs_keyed;
  books =
      All-map (Behind [] db.recipients) (Ledger db.recipients) db.jobs (λ j b. b.settled refl)
        u.behind;
}

pub Ready-of_Ledger :
    (rows : List Recipient) (j : Job) → is_staging j ≡ false → Ledger rows j → Ready rows j
Ready-of_Ledger rows j e l =
    let c = l.promoted e in
    record { sized = c.sized; live = e; ended_if = λ h. sym c.completed_exact ∙ h }

pub Ready-columns :
    (rows : List Recipient) (j k : Job) → SameBooks j k → Ready rows j → Ready rows k
Ready-columns rows j k e r = record {
  sized = record {
    total_exact = simp (e.same_id, e.same_total) r.sized.total_exact;
    nonempty = simp e.same_id r.sized.nonempty;
    never_internal = simp e.same_status r.sized.never_internal;
    one_bot = simp (e.same_id, e.same_bot) r.sized.one_bot;
  };
  live = simp e.same_status r.live;
  ended_if = λ h. simp e.same_id (r.ended_if (simp (← e.same_status) h));
}

pub Behind-columns :
    (ids : List JobId) (rows : List Recipient) (j k : Job)
    → SameBooks j k
    → Behind ids rows j
    → Behind ids rows k
Behind-columns ids rows j k e b = record {
  waits = λ h. Ready-columns rows j k e (b.waits (simp (← e.same_id) h));
  settled = λ h. Ledger-columns rows j k e (b.settled (simp (← e.same_id) h));
}

pub recount_id : (now : ℤ) (t : Tallies) (j : Job) → (recount now t j).job_id ≡ j.job_id
recount_id now t j = elim (Bool-cases (eqb_ℤ (pos (ended t)) j.total)) [
  | inl e ↦ rw e refl
  | inr e ↦ rw e refl
]

-- The recount puts the books of a job in order.
module _ (rows : List Recipient) (id : JobId) (now : ℤ) (j : Job) (here : is_job id j ≡ true)
    (r : Ready rows j) where
  same_id : j.job_id ≡ id
  same_id = eq_of_test j.job_id id here

  counts : (t : RecipientState) → tally id t rows ≡ tally j.job_id t rows
  counts t = rw same_id refl

  recount-Tallied : Tallied rows (set_counters (tallies id rows) j)
  recount-Tallied = record {
    sized = record {
      total_exact = r.sized.total_exact;
      nonempty = r.sized.nonempty;
      never_internal = r.sized.never_internal;
      one_bot = r.sized.one_bot;
    };
    queued_exact = ap pos (counts RecipientState.queued);
    inflight_exact = ap pos (counts RecipientState.leased);
    delayed_exact = ap pos (counts RecipientState.delayed);
    succeeded_exact = ap pos (counts RecipientState.succeeded);
    failed_exact = ap pos (counts RecipientState.failed);
    ambiguous_exact = ap pos (counts RecipientState.ambiguous);
  }

  recount_test :
      eqb_ℤ (pos (ended (tallies id rows))) j.total
      ≡ nat_beq (closed j.job_id rows) (size j.job_id rows)
  recount_test =
      simp
        (
          counts RecipientState.succeeded,
          counts RecipientState.failed,
          counts RecipientState.ambiguous,
          r.sized.total_exact,
        )
        (ground arith)

  recount-Ledger : Ledger rows (recount now (tallies id rows) j)
  recount-Ledger = elim (Bool-cases (eqb_ℤ (pos (ended (tallies id rows))) j.total)) [
    | inl e ↦ rw e (
        Ledger-stamped now rows (set_counters (tallies id rows) j) recount-Tallied
          (sym recount_test ∙ e))
    | inr e ↦ rw e (record {
      staging = λ h. absurd (ground (arith, r.live));
      promoted = λ _. record {
        tallied = recount-Tallied;
        completed_exact = ground (arith, r.ended_if, recount_test);
      };
    })
  ]

  recount-live : is_staging (recount now (tallies id rows) j) ≡ false
  recount-live = elim (Bool-cases (eqb_ℤ (pos (ended (tallies id rows))) j.total)) [
    | inl e ↦ rw e refl
    | inr e ↦ rw e r.live
  ]

-- One id of the list is dealt with.
pub recount-Behind :
    (id : JobId) (ids : List JobId) (now : ℤ) (rows : List Recipient) (jobs : List Job)
    → All (Behind (id ∷ ids) rows) jobs
    → All (Behind ids rows) (update_where (is_job id) (recount now (tallies id rows)) jobs)
recount-Behind id ids now rows jobs =
    All-update_where (Behind (id ∷ ids) rows) (Behind ids rows) (is_job id)
      (recount now (tallies id rows)) jobs
      (λ j here b.
        let r : Ready rows j = b.waits (ground (arith, test_sym id j.job_id)) in
        let l = recount-Ledger rows id now j here r in
        record {
          waits = λ _. Ready-of_Ledger rows _ (recount-live rows id now j here r) l;
          settled = λ _. l;
        })
      (λ j away b. record {
        waits = λ h. b.waits (ground arith);
        settled = λ h. b.settled (ground (arith, test_sym id j.job_id));
      })

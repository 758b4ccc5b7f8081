-- ===== src/Store/Ledger/Promoting.antt =====
-- `PromoteJob` of src/store/writer.rs opens the books of a job whose recipients are all staged.
use telegram_bot_delivery_en.Base.{
  ℕ, ◌<◌, ◌≡◌, refl, ap, ◌∙◌, String, true, not, List, ℤ, pos, arith, ◌==◌, nat_eq, string_eq,
  count_where, update_where, All, All-both, All-update_where, Bool-cases, inl, inr,
}
use telegram_bot_delivery_en.Domain.{RecipientState, recipient_state_eq, job_state_eq}
use telegram_bot_delivery_en.Store.Tables.{BotConfig, Job, JobFile, Recipient, Db, Env}
use telegram_bot_delivery_en.Store.Sql.{tally}
use telegram_bot_delivery_en.Store.Accept.{
  over_cap, is_accepting, promote, insert_files, Promotion, promote_rows, promote_job,
}
use telegram_bot_delivery_en.Store.Ledger.Books.{size, strays, Ledger, Inv}
use telegram_bot_delivery_en.Store.Ledger.Moves.{size-split, jobs_keyed-update}
use telegram_bot_delivery_en.Store.Ledger.Commit.{Ensures, Ensures-after, transaction-Ensures}

-- The counters of a job that has not been promoted.
pub record Fresh (j : Job) : Type 0 where
  pub inflight_zero : j.inflight ≡ pos 0
  pub delayed_zero : j.delayed ≡ pos 0
  pub succeeded_zero : j.succeeded ≡ pos 0
  pub failed_zero : j.failed ≡ pos 0
  pub ambiguous_zero : j.ambiguous ≡ pos 0

-- The total is the number of the job's recipients, which are queued and the job's bot's.
pub record Complete (total : ℕ) (rows : List Recipient) (j : Job) : Type 0 where
  pub fresh : Fresh j
  pub some_rows : 0 < total
  pub total_is : total ≡ size j.job_id rows
  pub all_queued : tally j.job_id RecipientState.queued rows ≡ size j.job_id rows
  pub own_rows : strays j.job_id j.bot_id rows ≡ 0

abbrev pub IsComplete : Promotion → Db → Type 0
IsComplete p db =
    All (λ j. is_accepting p.job_id j ≡ true → Complete p.total db.recipients j) db.jobs

promote-Ledger :
    (configs : List BotConfig) (total : ℕ) (shared : String) (at : ℤ) (rows : List Recipient)
    (j : Job)
    → Complete total rows j
    → Ledger rows (promote configs total shared at j)
promote-Ledger configs total shared at rows j c =
    let split = size-split j.job_id rows in
    let queued = c.all_queued in
    record {
      staging = λ h. cc;
      promoted = λ _. record {
        tallied = record {
          sized = record {
            total_exact = ap pos c.total_is;
            nonempty = omega (arith, c.total_is, c.some_rows);
            never_internal = refl;
            one_bot = c.own_rows;
          };
          queued_exact = ap pos (omega (arith, c.total_is));
          inflight_exact = c.fresh.inflight_zero ∙ ap pos (omega arith);
          delayed_exact = c.fresh.delayed_zero ∙ ap pos (omega arith);
          succeeded_exact = c.fresh.succeeded_zero ∙ ap pos (omega arith);
          failed_exact = c.fresh.failed_zero ∙ ap pos (omega arith);
          ambiguous_exact = c.fresh.ambiguous_zero ∙ ap pos (omega arith);
        };
        completed_exact = ground (arith, c.total_is, c.some_rows);
      };
    }

module _ (p : Promotion) (db : Db) (inv : Inv db) (complete : IsComplete p db) where
  promoted_jobs : List Job
  promoted_jobs =
      update_where (is_accepting p.job_id)
        (promote db.bot_configs p.total p.shared_params_json p.accepted_at_unix) db.jobs

  promoted-Inv :
      (files : List JobFile) → Inv (record db { jobs = promoted_jobs; job_files = files })
  unfolding promoted_jobs
  promoted-Inv files = record {
    keyed = inv.keyed;
    jobs_keyed = jobs_keyed-update (is_accepting p.job_id) _ db.jobs (λ j. refl) inv.jobs_keyed;
    books =
        All-update_where _ (Ledger db.recipients) (is_accepting p.job_id)
          (promote db.bot_configs p.total p.shared_params_json p.accepted_at_unix) db.jobs
          (λ j h b.
            promote-Ledger db.bot_configs p.total p.shared_params_json p.accepted_at_unix
              db.recipients j (b.0 h))
          (λ j h b. b.1)
          (All-both (λ j. is_accepting p.job_id j ≡ true → Complete p.total db.recipients j)
            (Ledger db.recipients) db.jobs complete inv.books);
  }

  promote_rows-Inv : Ensures (λ d. Inv d.0) (promote_rows p db)
  unfolding promote_rows promoted_jobs
  promote_rows-Inv = elim (Bool-cases (over_cap p.nonterminal_cap db.recipients)) [
    | inl e ↦ rw (e, promote_rows) tt
    | inr e ↦ elim (Bool-cases (not (count_where (is_accepting p.job_id) db.jobs == 1))) [
      | inl f ↦ rw (e, f, promote_rows) tt
      | inr f ↦
          rw (e, f, promote_rows)
            (Ensures-after (λ d. Inv d.0) (insert_files p.job_id p.file_rows db.job_files) _
              promoted-Inv)
    ]
  ]

pub promote_job-Inv :
    (env : Env) (p : Promotion) (db : Db) → IsComplete p db → Inv db → Inv (promote_job env p db).0
unfolding promote_job
promote_job-Inv env p db complete inv =
    transaction-Ensures Inv env (promote_rows p) db inv (promote_rows-Inv p db inv complete)

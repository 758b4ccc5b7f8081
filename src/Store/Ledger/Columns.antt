-- ===== src/Store/Ledger/Columns.antt =====
-- Columns of a job that the books do not read.
use telegram_bot_delivery_en.Base.{◌≡◌, Bool, List, update_where, All-update_where, string_eq}
use telegram_bot_delivery_en.Store.Tables.{Job, Recipient, Db}
use telegram_bot_delivery_en.Store.Ledger.Books.{Counted, Ledger, Inv}
use telegram_bot_delivery_en.Store.Ledger.Moves.{jobs_keyed-update}

-- Two job rows with the same books.
pub record SameBooks (j k : Job) : Type 0 where
  pub same_id : k.job_id ≡ j.job_id
  pub same_bot : k.bot_id ≡ j.bot_id
  pub same_status : k.state ≡ j.state
  pub same_total : k.total ≡ j.total
  pub same_queued : k.queued ≡ j.queued
  pub same_inflight : k.inflight ≡ j.inflight
  pub same_delayed : k.delayed ≡ j.delayed
  pub same_succeeded : k.succeeded ≡ j.succeeded
  pub same_failed : k.failed ≡ j.failed
  pub same_ambiguous : k.ambiguous ≡ j.ambiguous

module _ (rows : List Recipient) (j k : Job) (e : SameBooks j k) where
  Counted-columns : Counted rows j → Counted rows k
  Counted-columns c = record {
    tallied = record {
      sized = record {
        total_exact = simp (e.same_id, e.same_total) c.total_exact;
        nonempty = simp e.same_id c.nonempty;
        never_internal = simp e.same_status c.never_internal;
        one_bot = simp (e.same_id, e.same_bot) c.one_bot;
      };
      queued_exact = simp (e.same_id, e.same_queued) c.queued_exact;
      inflight_exact = simp (e.same_id, e.same_inflight) c.inflight_exact;
      delayed_exact = simp (e.same_id, e.same_delayed) c.delayed_exact;
      succeeded_exact = simp (e.same_id, e.same_succeeded) c.succeeded_exact;
      failed_exact = simp (e.same_id, e.same_failed) c.failed_exact;
      ambiguous_exact = simp (e.same_id, e.same_ambiguous) c.ambiguous_exact;
    };
    completed_exact = simp (e.same_id, e.same_status) c.completed_exact;
  }

  pub Ledger-columns : Ledger rows j → Ledger rows k
  Ledger-columns l = record {
    staging = λ h. simp e.same_id (l.staging (simp (← e.same_status) h));
    promoted = λ h. Counted-columns (l.promoted (simp (← e.same_status) h));
  }

-- An update of such columns keeps the invariant.
pub columns-Inv :
    (p : Job → Bool) (f : Job → Job) (db : Db)
    → ((j : Job) → SameBooks j (f j))
    → Inv db
    → Inv (record db { jobs = update_where p f db.jobs })
columns-Inv p f db same inv = record {
  keyed = inv.keyed;
  jobs_keyed = jobs_keyed-update p f db.jobs (λ j. (same j).same_id) inv.jobs_keyed;
  books =
      All-update_where (Ledger db.recipients) (Ledger db.recipients) p f db.jobs
        (λ j h l. Ledger-columns db.recipients j (f j) (same j) l) (λ j h l. l) inv.books;
}

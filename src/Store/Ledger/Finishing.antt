-- ===== src/Store/Ledger/Finishing.antt =====
-- Materialising the webhook event of a completed job does not touch the books.
use telegram_bot_delivery_en.Base.{
  String, List, some, ℤ, arith, ◌==◌, string_eq, any, update_where, find_where, Bool-cases,
  Option-cases, inl, inr,
}
use telegram_bot_delivery_en.Domain.{BotId, JobId, WebhookState, webhook_state_eq}
use telegram_bot_delivery_en.Webhook.Pages.{Bytes, ResultRow}
use telegram_bot_delivery_en.Store.Tables.{Job, WebhookEvent, WebhookPage, Db, ok, Env, is_job}
use telegram_bot_delivery_en.Store.Complete.{
  result_rows, event_id_of, add_event, succeeded_rows, publish, materialize, is_completed,
  finalize_completed_job,
}
use telegram_bot_delivery_en.Store.Ledger.Books.{Inv}
use telegram_bot_delivery_en.Store.Ledger.Columns.{columns-Inv}
use telegram_bot_delivery_en.Store.Ledger.Commit.{Ensures, Ensures-after}

-- For a property of the database that neither the webhook tables nor a job's event id can break.
module _ (P : Db → Type 0)
    (events : (db : Db) (es : List WebhookEvent) (ps : List WebhookPage)
      → P db
      → P (record db { webhook_events = es; webhook_pages = ps }))
    (linked : (db : Db) (id : JobId) (event : String)
      → P db
      → P (record db {
        jobs = update_where (is_job id) (λ k. record k { webhook_event_id = some event }) db.jobs;
      })) where
  add_event-Keeps :
      (env : Env) (id : JobId) (bot : BotId) (now : ℤ) (bodies : List Bytes) (db : Db)
      → P db
      → P (add_event env id bot now bodies db)
  unfolding add_event
  add_event-Keeps env id bot now bodies db h =
      elim (Bool-cases (any (λ e. e.event_id == event_id_of id) db.webhook_events)) [
        | inl e ↦ rw (e, add_event) h
        | inr e ↦ elim (Bool-cases (any (λ e. e.job_id == id) db.webhook_events)) [
          | inl f ↦ rw (e, f, add_event) h
          | inr f ↦ rw (e, f, add_event) (events db _ _ h)
        ]
      ]

  publish-Keeps :
      (env : Env) (now : ℤ) (j : Job) (db : Db) (rows : List ResultRow)
      → P db
      → P (publish env now j db rows)
  unfolding publish
  publish-Keeps env now j db rows h =
      add_event-Keeps env j.job_id j.bot_id now _ _ (linked db j.job_id (event_id_of j.job_id) h)

  materialize-Keeps :
      (env : Env) (now : ℤ) (j : Job) (db : Db) → P db → Ensures P (materialize env now j db)
  unfolding materialize
  materialize-Keeps env now j db h =
      Ensures-after P (result_rows (succeeded_rows j.job_id db.recipients))
        (λ rows. ok (publish env now j db rows)) (λ rows. publish-Keeps env now j db rows h)

  pub finalize-Keeps :
      (env : Env) (id : JobId) (now : ℤ) (db : Db)
      → P db
      → Ensures P (finalize_completed_job env id now db)
  unfolding finalize_completed_job
  finalize-Keeps env id now db h = elim (Option-cases (find_where (is_completed id) db.jobs)) [
    | inl e ↦ rw (e, finalize_completed_job) h
    | inr (j, e) ↦ elim (Bool-cases (j.webhook_state == WebhookState.pending)) [
      | inl p ↦ rw (e, p, finalize_completed_job) (materialize-Keeps env now j db h)
      | inr p ↦ rw (e, p, finalize_completed_job) h
    ]
  ]

pub finalize-Inv :
    (env : Env) (id : JobId) (now : ℤ) (db : Db)
    → Inv db
    → Ensures Inv (finalize_completed_job env id now db)
finalize-Inv =
    finalize-Keeps Inv
      (λ db es ps inv. record { keyed = inv.keyed; jobs_keyed = inv.jobs_keyed; books = inv.books })
      (λ db id event inv.
        columns-Inv (is_job id) (λ k. record k { webhook_event_id = some event }) db
          (λ k. ground arith) inv)

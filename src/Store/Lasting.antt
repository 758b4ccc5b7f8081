-- ===== src/Store/Lasting.antt =====
-- The lease token of a recipient never goes back (src/store/writer.rs): what every command does to
-- the tokens of one recipient.
pub mod Rows
pub mod Commands
pub mod Fences
use telegram_bot_delivery_en.Base.{
  ℕ, zero, suc, ◌+◌, ◌≤◌, ◌<◌, ◌≡◌, refl, sym, ap, ◌∙◌, String, Bool, true, false, not, ◌&&◌, List,
  [], ◌∷◌, ◌++◌, Option, none, some, ℤ, pos, ◌+ℤ◌, leb, ltb, ◌==◌, nat_eq, string_eq, arith,
  if◌then◌else◌, any, All, All-update_where, All-keep_where, All-append, update_where, keep_where,
  count_where, length, find_where, map, inl, inr, Bool-cases, Option-cases,
}
use telegram_bot_delivery_en.Domain.{BotId, JobId, EventId}
use telegram_bot_delivery_en.Store.Tables.{
  Job, Recipient, Db, Result, ok, err, ◌>>=◌, WriterResult, count, Env, is_job, is_row, of_job,
}
use telegram_bot_delivery_en.Store.Sql.{text_is, is_waiting, sorted}
use telegram_bot_delivery_en.Store.Accept.{
  RecipientInsert, new_recipient, new_job, insert_job, begin_accept_job, insert_row, insert_rows,
  insert_recipient_batch, Promotion, insert_files, promote_rows, promote_job, delete_jobs,
  is_accepting, abort_accept_job,
}
use telegram_bot_delivery_en.Store.Lease.{
  candidate, ttl_of, take_lease, count_lease, issue, grant_lease, lease_one, lease_batch,
  delay_recipient, holds_lease, is_unsent, put_back, release_row, release_lease, mark_wire_started,
  migrate_recipient,
}
use telegram_bot_delivery_en.Store.Complete.{
  CompletionOutcome, attempt_of, record_attempt, or_else, move_attempt, close_job, complete_rows,
  complete_attempt, reconcile_job,
}
use telegram_bot_delivery_en.Store.Recover.{
  recover_row, recover_rows, reconcile_all, recover_expired, recover_leases, requeue_expired_leases,
  expire_rows, expire_deadline, reconcile_revoked, revoke_rows, fail_bot_unauthorized, give_back,
  requeue, can_retry, policy_of,
}
use telegram_bot_delivery_en.Store.Webhooks.{
  WebhookTerminal, WebhookMark, log_delivery, count_webhook_attempt, mark_delivered, mark_exhausted,
  mark_retry, mark_terminal, mark_webhook, is_event, all_delivered, deliver_page,
}
use telegram_bot_delivery_en.Store.Upkeep.{
  upsert_bot, put_config, config_row, upsert_config, pause_scope, persist_scheduler, collect,
  delete_event, retire, retention_tick, is_config,
}
use telegram_bot_delivery_en.Store.Execute.{WriterCmd, execute, run, is_shutdown}
use telegram_bot_delivery_en.Store.Ledger.Commit.{
  Ensures, Ensures-bind, Ensures-weaken, Ensures-after, transaction-Ensures,
}
use telegram_bot_delivery_en.Store.Ledger.Finishing.{finalize-Keeps}
use telegram_bot_delivery_en.Store.Tokens.{IsStale, close_job-recipients}

-- The command brings no new recipient of this job.
abbrev pub BringsNone : JobId → WriterCmd → Type 0
BringsNone id (WriterCmd.insert_batch other _) = (other == id) ≡ false
BringsNone id _ = Unit

module _ (id : JobId) (idx n : ℕ) where
  -- Every row of the recipient has this token or a later one.
  abbrev pub Reached : List Recipient → Type 0
  Reached = All (λ r. is_row id idx r ≡ true → leb n r.lease_token ≡ true)

  abbrev pub HasReached : Db → Type 0
  HasReached db = Reached db.recipients

  -- The change keeps the key of a row and does not lower its token.
  pub record Advances (f : Recipient → Recipient) : Type 0 where
    pub job : (r : Recipient) → (f r).job_id ≡ r.job_id
    pub row : (r : Recipient) → (f r).idx ≡ r.idx
    pub token : (r : Recipient) → r.lease_token ≤ (f r).lease_token

  pub Reached-update :
      (p : Recipient → Bool) (f : Recipient → Recipient) (rows : List Recipient)
      → Advances f
      → Reached rows
      → Reached (update_where p f rows)
  Reached-update p f rows a h =
      All-update_where (λ r. is_row id idx r ≡ true → leb n r.lease_token ≡ true)
        (λ r. is_row id idx r ≡ true → leb n r.lease_token ≡ true) p f rows
        (λ r e k same. ground (arith, k (simp (← a.job r, ← a.row r) same), a.token r)) (λ r e k. k)
        h

  pub take_lease-Advances : (owner : String) (until : ℤ) → Advances (take_lease owner until)
  take_lease-Advances owner until = record {
    job = λ r. refl;
    row = λ r. refl;
    token = λ r. omega arith;
  }

  reconcile_job-Reached :
      (env : Env) (job : JobId) (now : ℤ) (db : Db)
      → HasReached db
      → Ensures HasReached (reconcile_job env job now db)
  unfolding reconcile_job
  reconcile_job-Reached env job now db h =
      elim (Bool-cases (count_where (of_job job) db.recipients == 0)) [
        | inl e ↦ rw (e, reconcile_job) tt
        | inr e ↦
            rw (e, reconcile_job)
              (finalize-Keeps HasReached (λ d es ps k. k) (λ d j event k. k) env job now _ h)
      ]

  pub reconcile_all-Reached :
      (env : Env) (now : ℤ) (ids : List JobId) (db : Db)
      → HasReached db
      → Ensures HasReached (reconcile_all env now ids db)
  unfolding reconcile_all
  reconcile_all-Reached env now [] db h = h
  reconcile_all-Reached env now (job ∷ ids) db h =
      Ensures-bind HasReached HasReached (reconcile_job env job now db) (reconcile_all env now ids)
        (reconcile_job-Reached env job now db h) (reconcile_all-Reached env now ids)

  pub reconcile_revoked-Reached :
      (env : Env) (now : ℤ) (ids : List JobId) (db : Db)
      → HasReached db
      → Ensures HasReached (reconcile_revoked env now ids db)
  unfolding reconcile_revoked
  reconcile_revoked-Reached env now [] db h = h
  reconcile_revoked-Reached env now (job ∷ ids) db h =
      Ensures-bind HasReached HasReached (reconcile_job env job now db) _
        (reconcile_job-Reached env job now db h) (λ d k. reconcile_revoked-Reached env now ids _ k)

  pub close_job-Reached :
      (env : Env) (job : JobId) (finished : ℤ) (db : Db)
      → HasReached db
      → Ensures HasReached (close_job env job finished db)
  close_job-Reached env job finished db h =
      Ensures-weaken (λ d. d.recipients ≡ db.recipients) HasReached (close_job env job finished db)
        (close_job-recipients env job finished db) (λ d e. rw e h)

  pub recover_rows-Reached :
      (env : Env) (now : ℤ) (jobs : List Job) (rows table : List Recipient)
      → Reached table
      → Reached (recover_rows env now jobs rows table)
  unfolding recover_rows recover_row
  recover_rows-Reached env now jobs [] table h = h
  recover_rows-Reached env now jobs (r ∷ rows) table h =
      recover_rows-Reached env now jobs rows _ (elim (Bool-cases r.wire_started) [
        | inl e ↦ rw e (
            Reached-update _ _ table
              (record { job = λ r. refl; row = λ r. refl; token = λ r. omega arith }) h)
        | inr e ↦ rw e (
            Reached-update _ _ table
              (record { job = λ r. refl; row = λ r. refl; token = λ r. omega arith }) h)
      ])

  pub delete_jobs-Reached :
      (which : Job → Bool) (job : JobId) (db : Db)
      → HasReached db
      → Ensures (λ r. HasReached r.0) (delete_jobs which job db)
  unfolding delete_jobs
  delete_jobs-Reached which job db h = elim (Bool-cases (count_where which db.jobs == 0)) [
    | inl e ↦ rw (e, delete_jobs) h
    | inr e ↦ elim (Bool-cases (any (λ e. e.job_id == job) db.webhook_events)) [
      | inl f ↦ rw (e, f, delete_jobs) tt
      | inr f ↦
          rw (e, f, delete_jobs)
            (All-keep_where (λ r. is_row id idx r ≡ true → leb n r.lease_token ≡ true)
              (λ r. not (of_job job r)) db.recipients h)
    ]
  ]

  pub collect_jobs-Reached :
      (jobs : List Job) (db : Db) → HasReached db → Ensures HasReached (collect jobs db)
  unfolding collect delete_event
  collect_jobs-Reached [] db h = h
  collect_jobs-Reached (j ∷ jobs) db h =
      Ensures-bind (λ d. HasReached d.0) HasReached
        (delete_jobs (is_job j.job_id) j.job_id (delete_event j.job_id db)) _
        (delete_jobs-Reached (is_job j.job_id) j.job_id (delete_event j.job_id db) h)
        (λ d k. collect_jobs-Reached jobs d.0 k)

  pub insert_rows-Reached :
      (job : JobId) (rows : List RecipientInsert) (db : Db)
      → (job == id) ≡ false
      → HasReached db
      → Ensures HasReached (insert_rows job rows db)
  unfolding insert_rows insert_row
  insert_rows-Reached job [] db other h = h
  insert_rows-Reached job (row ∷ rows) db other h =
      Ensures-bind HasReached HasReached (insert_row job row db) (insert_rows job rows) (go db h)
        (λ d k. insert_rows-Reached job rows d other k)
    where
      go : (db : Db) → HasReached db → Ensures HasReached (insert_row job row db)
      go db h = elim (Bool-cases (any (is_row job row.idx) db.recipients)) [
        | inl e ↦ rw (e, insert_row) tt
        | inr e ↦ elim (Bool-cases (not (any (is_job job) db.jobs))) [
          | inl f ↦ rw (e, f, insert_row) tt
          | inr f ↦
              rw (e, f, insert_row)
                (All-append (λ r. is_row id idx r ≡ true → leb n r.lease_token ≡ true) db.recipients
                  (new_recipient job row ∷ []) h (λ same. absurd (ground (arith, other)), tt))
        ]
      ]

  pub Reached-IsStale :
      (older : ℕ) (rows : List Recipient)
      → older < n
      → Reached rows
      → count_where (holds_lease id idx older) rows ≡ 0
  Reached-IsStale older [] lt h = refl
  Reached-IsStale older (r ∷ rows) lt h = ground (arith, h.0, Reached-IsStale older rows lt h.1)

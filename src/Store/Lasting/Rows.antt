-- ===== src/Store/Lasting/Rows.antt =====
-- What the statements of src/store/writer.rs do to the tokens of one recipient, command by command.
use telegram_bot_delivery_en.Base.{
  ℕ, ◌^◌, ◌≡◌, refl, String, Bool, not, ◌&&◌, List, Option, none, some, ℤ, pos, ◌+ℤ◌, ltb, ◌==◌,
  nat_eq, string_eq, arith, any, update_where, count_where, find_where, inl, inr, Bool-cases,
  Option-cases,
}
use telegram_bot_delivery_en.Domain.{RecipientState, recipient_state_eq, BotId, JobId, EventId}
use telegram_bot_delivery_en.Store.Tables.{BotConfig, Job, Recipient, Db, Env, is_job, is_row}
use telegram_bot_delivery_en.Store.Accept.{
  over_cap, insert_job, Promotion, insert_files, promote_rows, is_accepting,
}
use telegram_bot_delivery_en.Store.Lease.{
  candidate, ttl_of, take_lease, grant_lease, lease_one, holds_lease,
}
use telegram_bot_delivery_en.Store.Complete.{
  CompletionOutcome, attempt_of, record_attempt, or_else, move_attempt, complete_rows,
}
use telegram_bot_delivery_en.Store.Recover.{recover_expired}
use telegram_bot_delivery_en.Store.Webhooks.{
  WebhookTerminal, WebhookMark, log_delivery, mark_delivered, mark_exhausted, mark_retry,
  mark_terminal, is_event, all_delivered, deliver_page,
}
use telegram_bot_delivery_en.Store.Upkeep.{put_config, is_config}
use telegram_bot_delivery_en.Store.Ledger.Commit.{Ensures, Ensures-bind, Ensures-after}
use telegram_bot_delivery_en.Store.Lasting.{
  Reached, HasReached, Reached-update, take_lease-Advances, reconcile_all-Reached,
  close_job-Reached, recover_rows-Reached,
}

module _ (id : JobId) (idx n : ℕ) where
  -- A change of other columns.
  pub columns_only :
      (p : Recipient → Bool) (f : Recipient → Recipient) (rows : List Recipient)
      → ((r : Recipient) → (f r).job_id ≡ r.job_id)
      → ((r : Recipient) → (f r).idx ≡ r.idx)
      → ((r : Recipient) → (f r).lease_token ≡ r.lease_token)
      → Reached id idx n rows
      → Reached id idx n (update_where p f rows)
  columns_only p f rows j i t h =
      Reached-update id idx n p f rows
        (record { job = j; row = i; token = λ r. omega (arith, t r) }) h

  pub log_delivery-Reached :
      (event : EventId) (m : WebhookMark) (db : Db)
      → HasReached id idx n db
      → Ensures (HasReached id idx n) (log_delivery event m db)
  unfolding log_delivery
  log_delivery-Reached event m db h =
      elim (Bool-cases (not (any (is_event event) db.webhook_events))) [
        | inl e ↦ rw (e, log_delivery) tt
        | inr e ↦
            elim (Bool-cases (
              any (λ d. d.event_id == event && d.page_index == m.page && d.attempt == m.attempt)
                db.webhook_deliveries)) [
                  | inl f ↦ rw (e, f, log_delivery) h
                  | inr f ↦ rw (e, f, log_delivery) h
                ]
      ]

  pub mark_terminal-Reached :
      (event : EventId) (m : WebhookMark) (t : Option WebhookTerminal) (db : Db)
      → HasReached id idx n db
      → Ensures (HasReached id idx n) (mark_terminal event m t db)
  unfolding mark_terminal mark_delivered mark_exhausted mark_retry
  mark_terminal-Reached event m (some WebhookTerminal.delivered) db h =
      elim (Bool-cases (all_delivered event (deliver_page event m.page db).webhook_pages)) [
        | inl e ↦ rw (e, mark_delivered) h
        | inr e ↦ rw (e, mark_delivered) h
      ]
  mark_terminal-Reached event m (some (WebhookTerminal.exhausted error)) db h = h
  mark_terminal-Reached event m none db h = elim (Option-cases m.next_attempt_unix) [
    | inl e ↦ rw (e, mark_terminal) tt
    | inr (next, e) ↦ rw (e, mark_terminal) h
  ]

  pub lease_one-Reached :
      (bot : BotId) (owner : String) (now : ℤ) (secs : ℕ) (db : Db)
      → HasReached id idx n db
      → Ensures (λ r. HasReached id idx n r.0) (lease_one bot owner now secs db)
  unfolding lease_one grant_lease
  lease_one-Reached bot owner now secs db h = elim (Option-cases (candidate bot now db)) [
    | inl e ↦ rw (e, lease_one) h
    | inr (r, e) ↦
        let until = now +ℤ pos (ttl_of secs (find_where (is_job r.job_id) db.jobs)) in
        let rows = update_where (is_row r.job_id r.idx) (take_lease owner until) db.recipients in
        elim (Option-cases (find_where (is_row r.job_id r.idx) rows)) [
          | inl f ↦ rw (e, f, lease_one) tt
          | inr (s, f) ↦
              rw (e, f, lease_one)
                (Reached-update id idx n (is_row r.job_id r.idx) (take_lease owner until)
                  db.recipients (take_lease-Advances id idx n owner until) h)
        ]
  ]

  pub complete_rows-Reached :
      (env : Env) (job : JobId) (i : ℕ) (outcome : CompletionOutcome) (token : ℕ) (db : Db)
      → HasReached id idx n db
      → Ensures (λ r. HasReached id idx n r.0) (complete_rows env job i outcome token db)
  unfolding complete_rows move_attempt
  complete_rows-Reached env job i outcome token db h =
      let a = attempt_of outcome in
      let h' =
        columns_only (holds_lease job i token) (record_attempt a) db.recipients (λ r. refl)
          (λ r. refl) (λ r. refl) h in
      elim (Bool-cases (count_where (holds_lease job i token) db.recipients == 0)) [
        | inl e ↦ rw (e, complete_rows) h
        | inr e ↦ elim (Bool-cases (a.state == RecipientState.delayed)) [
          | inl f ↦ rw (e, f, complete_rows) h'
          | inr f ↦
              rw (e, f, complete_rows)
                (Ensures-bind (HasReached id idx n) (λ r. HasReached id idx n r.0) _ _
                  (close_job-Reached id idx n env job (or_else a.sent env.wall_clock)
                    (move_attempt job i token a db) h')
                  (λ d k. k))
        ]
      ]

  pub recover_expired-Reached :
      (env : Env) (now : ℤ) (db : Db)
      → HasReached id idx n db
      → Ensures (λ r. HasReached id idx n r.0) (recover_expired env now db)
  unfolding recover_expired
  recover_expired-Reached env now db h =
      Ensures-bind (HasReached id idx n) (λ r. HasReached id idx n r.0) _ _
        (reconcile_all-Reached id idx n env now _ _
          (recover_rows-Reached id idx n env now db.jobs _ db.recipients h))
        (λ d k. k)

  pub promote_rows-Reached :
      (p : Promotion) (db : Db)
      → HasReached id idx n db
      → Ensures (λ r. HasReached id idx n r.0) (promote_rows p db)
  unfolding promote_rows
  promote_rows-Reached p db h = elim (Bool-cases (over_cap p.nonterminal_cap db.recipients)) [
    | inl e ↦ rw (e, promote_rows) tt
    | inr e ↦ elim (Bool-cases (not (count_where (is_accepting p.job_id) db.jobs == 1))) [
      | inl f ↦ rw (e, f, promote_rows) tt
      | inr f ↦
          rw (e, f, promote_rows)
            (Ensures-after (λ r. HasReached id idx n r.0)
              (insert_files p.job_id p.file_rows db.job_files) _ (λ files. h))
    ]
  ]

  pub insert_job-Reached :
      (j : Job) (db : Db)
      → HasReached id idx n db
      → Ensures (λ r. HasReached id idx n r.0) (insert_job j db)
  unfolding insert_job
  insert_job-Reached j db h = elim (Bool-cases (not (ltb j.config_version (2 ^ 63)))) [
    | inl e ↦ rw (e, insert_job) tt
    | inr e ↦ elim (Bool-cases (any (is_job j.job_id) db.jobs)) [
      | inl f ↦ rw (e, f, insert_job) tt
      | inr f ↦ elim (Bool-cases (not (any (λ b. b.bot_id == j.bot_id) db.bots))) [
        | inl g ↦ rw (e, f, g, insert_job) tt
        | inr g ↦ rw (e, f, g, insert_job) h
      ]
    ]
  ]

  pub put_config-Reached :
      (new : BotConfig) (db : Db)
      → HasReached id idx n db
      → Ensures (λ r. HasReached id idx n r.0) (put_config new db)
  unfolding put_config
  put_config-Reached new db h = elim (Bool-cases (any (is_config new.bot_id) db.bot_configs)) [
    | inl e ↦ rw (e, put_config) h
    | inr e ↦ elim (Bool-cases (any (λ b. b.bot_id == new.bot_id) db.bots)) [
      | inl f ↦ rw (e, f, put_config) h
      | inr f ↦ rw (e, f, put_config) tt
    ]
  ]

-- ===== src/Store/Lasting/Commands.antt =====
-- Every command of src/store/writer.rs keeps the tokens of a recipient from going back, so that an
-- issued token fences off all earlier ones for good.
use telegram_bot_delivery_en.Base.{
  ℕ, refl, ltb, ◌==◌, nat_eq, string_eq, any, length, inl, inr, Bool-cases,
}
use telegram_bot_delivery_en.Domain.{recipient_state_eq, JobId}
use telegram_bot_delivery_en.Store.Tables.{Db, ok, ◌>>=◌, count, Env}
use telegram_bot_delivery_en.Store.Accept.{
  begin_accept_job, insert_rows, insert_recipient_batch, promote_job, delete_jobs, is_accepting,
  abort_accept_job,
}
use telegram_bot_delivery_en.Store.Lease.{
  lease_batch, delay_recipient, release_row, release_lease, mark_wire_started, migrate_recipient,
}
use telegram_bot_delivery_en.Store.Complete.{complete_attempt}
use telegram_bot_delivery_en.Store.Recover.{
  recover_leases, requeue_expired_leases, expire_rows, expire_deadline, revoke_rows,
  fail_bot_unauthorized,
}
use telegram_bot_delivery_en.Store.Webhooks.{
  log_delivery, count_webhook_attempt, mark_terminal, mark_webhook,
}
use telegram_bot_delivery_en.Store.Upkeep.{
  upsert_bot, config_row, upsert_config, pause_scope, persist_scheduler, collect, retire,
  retention_tick,
}
use telegram_bot_delivery_en.Store.Execute.{WriterCmd, execute}
use telegram_bot_delivery_en.Store.Ledger.Commit.{Ensures-bind, Ensures-after, transaction-Ensures}
use telegram_bot_delivery_en.Store.Lasting.{
  HasReached, BringsNone, reconcile_all-Reached, reconcile_revoked-Reached, delete_jobs-Reached,
  collect_jobs-Reached, insert_rows-Reached,
}
use telegram_bot_delivery_en.Store.Lasting.Rows.{
  columns_only, log_delivery-Reached, mark_terminal-Reached, lease_one-Reached,
  complete_rows-Reached, recover_expired-Reached, promote_rows-Reached, insert_job-Reached,
  put_config-Reached,
}

module _ (id : JobId) (idx n : ℕ) where
  -- Each command keeps the tokens.
  pub execute-Reached :
      (env : Env) (cmd : WriterCmd) (db : Db)
      → BringsNone id cmd
      → HasReached id idx n db
      → HasReached id idx n (execute env cmd db).0
  unfolding execute begin_accept_job insert_recipient_batch promote_job abort_accept_job lease_batch
      delay_recipient release_lease release_row mark_wire_started migrate_recipient complete_attempt
      recover_leases requeue_expired_leases expire_deadline expire_rows fail_bot_unauthorized
      revoke_rows mark_webhook count_webhook_attempt upsert_bot upsert_config pause_scope
      retention_tick retire persist_scheduler
  execute-Reached env (WriterCmd.begin_accept job bot method policy version deadline) db b h =
      transaction-Ensures (HasReached id idx n) env _ db h (insert_job-Reached id idx n _ db h)
  execute-Reached env (WriterCmd.insert_batch job rows) db b h =
      elim (Bool-cases (ltb 1000 (length rows))) [
        | inl e ↦ rw (e, insert_recipient_batch) h
        | inr e ↦
            rw (e, insert_recipient_batch)
              (transaction-Ensures (HasReached id idx n) env
                (λ d. insert_rows job rows d >>= λ d'. ok (d', count (length rows))) db h
                (Ensures-bind (HasReached id idx n) (λ r. HasReached id idx n r.0)
                  (insert_rows job rows db) _ (insert_rows-Reached id idx n job rows db b h)
                  (λ d k. k)))
      ]
  execute-Reached env (WriterCmd.promote p) db b h =
      transaction-Ensures (HasReached id idx n) env _ db h (promote_rows-Reached id idx n p db h)
  execute-Reached env (WriterCmd.abort_accept job) db b h =
      transaction-Ensures (HasReached id idx n) env
        (λ d. delete_jobs (is_accepting job) job d >>= λ r. ok (r.0, count r.1)) db h
        (Ensures-bind (λ r. HasReached id idx n r.0) (λ r. HasReached id idx n r.0)
          (delete_jobs (is_accepting job) job db) _
          (delete_jobs-Reached id idx n (is_accepting job) job db h) (λ d k. k))
  execute-Reached env (WriterCmd.lease_next bot owner now secs limit) db b h =
      elim (Bool-cases (limit == 1)) [
        | inl e ↦
            rw (e, lease_batch)
              (transaction-Ensures (HasReached id idx n) env _ db h
                (lease_one-Reached id idx n bot owner now secs db h))
        | inr e ↦ rw (e, lease_batch) h
      ]
  execute-Reached env (WriterCmd.delay job i at reason) db b h =
      transaction-Ensures (HasReached id idx n) env _ db h
        (columns_only id idx n _ _ db.recipients (λ r. refl) (λ r. refl) (λ r. refl) h)
  execute-Reached env (WriterCmd.release job i at reason token) db b h =
      transaction-Ensures (HasReached id idx n) env _ db h
        (columns_only id idx n _ _ db.recipients (λ r. refl) (λ r. refl) (λ r. refl) h)
  execute-Reached env (WriterCmd.mark_wire job i token) db b h =
      transaction-Ensures (HasReached id idx n) env _ db h
        (columns_only id idx n _ _ db.recipients (λ r. refl) (λ r. refl) (λ r. refl) h)
  execute-Reached env (WriterCmd.migrate job i old new token) db b h =
      transaction-Ensures (HasReached id idx n) env _ db h
        (columns_only id idx n _ _ db.recipients (λ r. refl) (λ r. refl) (λ r. refl) h)
  execute-Reached env (WriterCmd.complete job i outcome token) db b h =
      transaction-Ensures (HasReached id idx n) env _ db h
        (complete_rows-Reached id idx n env job i outcome token db h)
  execute-Reached env (WriterCmd.recover epoch now) db b h =
      transaction-Ensures (HasReached id idx n) env _ db h
        (recover_expired-Reached id idx n env now db h)
  execute-Reached env (WriterCmd.requeue_expired epoch now) db b h =
      transaction-Ensures (HasReached id idx n) env _ db h
        (recover_expired-Reached id idx n env now db h)
  execute-Reached env (WriterCmd.expire now) db b h =
      transaction-Ensures (HasReached id idx n) env _ db h (
        Ensures-bind (HasReached id idx n) (λ r. HasReached id idx n r.0) _ _
          (reconcile_all-Reached id idx n env now _ _
            (columns_only id idx n _ _ db.recipients (λ r. refl) (λ r. refl) (λ r. refl) h))
          (λ d k. k))
  execute-Reached env (WriterCmd.configure bot c secret at) db b h =
      transaction-Ensures (HasReached id idx n) env _ db h (
        Ensures-after (λ r. HasReached id idx n r.0) (config_row bot c secret at) _
          (λ new. put_config-Reached id idx n new db h))
  execute-Reached env (WriterCmd.register new) db b h =
      transaction-Ensures (HasReached id idx n) env _ db h
        (elim (Bool-cases (any (λ c. c.bot_id == new.bot_id) db.bots)) [
          | inl e ↦ rw e h
          | inr e ↦ rw e h
        ])
  execute-Reached env (WriterCmd.revoke bot now) db b h =
      transaction-Ensures (HasReached id idx n) env _ db h (
        Ensures-bind (HasReached id idx n) (λ r. HasReached id idx n r.0) _ _
          (reconcile_revoked-Reached id idx n env now _ _
            (columns_only id idx n _ _ db.recipients (λ r. refl) (λ r. refl) (λ r. refl) h))
          (λ d k. k))
  execute-Reached env (WriterCmd.pause p) db b h =
      transaction-Ensures (HasReached id idx n) env _ db h h
  execute-Reached env (WriterCmd.mark_page event m) db b h =
      transaction-Ensures (HasReached id idx n) env _ db h (
        Ensures-bind (HasReached id idx n) (λ r. HasReached id idx n r.0) (log_delivery event m db)
          _ (log_delivery-Reached id idx n event m db h)
          (λ d i.
            Ensures-bind (HasReached id idx n) (λ r. HasReached id idx n r.0)
              (mark_terminal event m m.terminal _) _
              (mark_terminal-Reached id idx n event m m.terminal (count_webhook_attempt event m d)
                i)
              (λ d' k. k)))
  execute-Reached env (WriterCmd.retain now batch) db b h =
      transaction-Ensures (HasReached id idx n) env _ db h (
        Ensures-bind (HasReached id idx n) (λ r. HasReached id idx n r.0) (collect _ db) _
          (collect_jobs-Reached id idx n _ db h) (λ d k. k))
  execute-Reached env (WriterCmd.set_max_page_count pages) db b h = h
  execute-Reached env (WriterCmd.persist bot deficit weight last) db b h =
      transaction-Ensures (HasReached id idx n) env _ db h
        (elim (Bool-cases (any (λ f. f.bot_id == bot) db.fairness_deficits)) [
          | inl e ↦ rw e h
          | inr e ↦ elim (Bool-cases (any (λ b. b.bot_id == bot) db.bots)) [
            | inl f ↦ rw (e, f) h
            | inr f ↦ rw (e, f) tt
          ]
        ])
  execute-Reached env WriterCmd.shutdown db b h = h

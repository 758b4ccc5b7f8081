-- ===== src/Store/Execute.antt =====
-- The writer's commands and their dispatch (`WriterCmd` and `execute` of src/store/writer.rs), and a
-- run of the writer loop over the requests of its queue.
use telegram_bot_delivery_en.Base.{
  Bool, true, false, ℕ, String, List, [], ◌∷◌, Option, ℤ, pos, negsuc, ltb_ℤ, eqb_ℤ, ◌||◌,
  if◌then◌else◌,
}
use telegram_bot_delivery_en.Domain.{BotId, JobId, EventId}
use telegram_bot_delivery_en.Store.Tables.{
  Bot, LimiterPause, Db, Result, ok, err, invalid_command, WriterResult, done, Env,
}
use telegram_bot_delivery_en.Store.Accept.{
  RecipientInsert, Promotion, begin_accept_job, insert_recipient_batch, promote_job,
  abort_accept_job,
}
use telegram_bot_delivery_en.Store.Lease.{
  lease_batch, delay_recipient, release_lease, mark_wire_started, migrate_recipient,
}
use telegram_bot_delivery_en.Store.Complete.{CompletionOutcome, complete_attempt}
use telegram_bot_delivery_en.Store.Recover.{
  recover_leases, requeue_expired_leases, expire_deadline, fail_bot_unauthorized,
}
use telegram_bot_delivery_en.Store.Webhooks.{WebhookMark, mark_webhook}
use telegram_bot_delivery_en.Store.Upkeep.{
  ConfigJson, WebhookSecret, upsert_bot, upsert_config, pause_scope, retention_tick,
  persist_scheduler,
}

-- The commands that touch the tables, and `SetMaxPageCount` and `Shutdown`, which do not.
pub data WriterCmd : Type 0 where
  begin_accept : JobId → BotId → String → String → ℕ → Option ℤ → WriterCmd
  insert_batch : JobId → List RecipientInsert → WriterCmd
  promote : Promotion → WriterCmd
  abort_accept : JobId → WriterCmd
  lease_next : BotId → String → ℤ → ℕ → ℕ → WriterCmd
  delay : JobId → ℕ → ℤ → String → WriterCmd
  release : JobId → ℕ → ℤ → String → ℕ → WriterCmd
  mark_wire : JobId → ℕ → ℕ → WriterCmd
  migrate : JobId → ℕ → String → String → ℕ → WriterCmd
  complete : JobId → ℕ → CompletionOutcome → ℕ → WriterCmd
  recover : String → ℤ → WriterCmd
  requeue_expired : String → ℤ → WriterCmd
  expire : ℤ → WriterCmd
  configure : BotId → ConfigJson → Option WebhookSecret → ℤ → WriterCmd
  register : Bot → WriterCmd
  revoke : BotId → ℤ → WriterCmd
  pause : LimiterPause → WriterCmd
  mark_page : EventId → WebhookMark → WriterCmd
  retain : ℤ → ℕ → WriterCmd
  set_max_page_count : ℤ → WriterCmd
  persist : BotId → ℤ → ℕ → ℤ → WriterCmd
  shutdown : WriterCmd

unfoldable pub execute : Env → WriterCmd → Db → Db × Result WriterResult
execute env (begin_accept id bot method policy version deadline) db =
    begin_accept_job env id bot method policy version deadline db
execute env (insert_batch id rows) db = insert_recipient_batch env id rows db
execute env (promote p) db = promote_job env p db
execute env (abort_accept id) db = abort_accept_job env id db
execute env (lease_next bot owner now lease_secs limit) db =
    lease_batch env bot owner now lease_secs limit db
execute env (delay id idx not_before reason) db = delay_recipient env id idx not_before reason db
execute env (release id idx not_before reason token) db =
    release_lease env id idx not_before reason token db
execute env (mark_wire id idx token) db = mark_wire_started env id idx token db
execute env (migrate id idx old_chat new_chat token) db =
    migrate_recipient env id idx old_chat new_chat token db
execute env (complete id idx outcome token) db = complete_attempt env id idx outcome token db
execute env (recover epoch now) db = recover_leases env epoch now db
execute env (requeue_expired epoch now) db = requeue_expired_leases env epoch now db
execute env (expire now) db = expire_deadline env now db
execute env (configure bot c secret updated_at) db = upsert_config env bot c secret updated_at db
execute env (register b) db = upsert_bot env b db
execute env (revoke bot now) db = fail_bot_unauthorized env bot now db
execute env (pause p) db = pause_scope env p db
execute env (mark_page id m) db = mark_webhook env id m db
execute env (retain now batch) db = retention_tick env now batch db
execute env (set_max_page_count pages) db = (
  db,
  if eqb_ℤ pages (negsuc 0) || ltb_ℤ (pos 0) pages
      then ok done
      else err (invalid_command "max_page_count must be positive or -1"),
)
execute env (persist bot deficit weight last_grant) db =
    persist_scheduler env bot deficit weight last_grant db
execute env shutdown db = (db, ok done)

abbrev pub is_shutdown : WriterCmd → Bool
is_shutdown WriterCmd.shutdown = true
is_shutdown _ = false

-- The requests in the order in which the single writer thread takes them off its queue; the loop ends
-- after a shutdown.
unfoldable pub run : List (Env × WriterCmd) → Db → Db
run [] db = db
run ((env, cmd) ∷ rest) db =
    let db' = (execute env cmd db).0 in
    let later = run rest db' in if is_shutdown cmd then db' else later

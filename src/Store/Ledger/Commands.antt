-- ===== src/Store/Ledger/Commands.antt =====
-- The ledger over every command of the writer (`execute` of src/store/writer.rs) and over its queue.
use telegram_bot_delivery_en.Base.{
  Bool-cases, inl, inr, ◌≡◌, sym, ap, false, List, [], ◌∷◌, some, pos, ◌+ℤ◌, +ℤ_pos, arith, nat_eq,
  string_eq, find_where, All-find_where, nat_beq,
}
use telegram_bot_delivery_en.Domain.{
  JobId, JobState, RecipientState, same_job_state, recipient_state_eq,
}
use telegram_bot_delivery_en.Store.Tables.{Job, Recipient, Db, Env, is_job, empty_db}
use telegram_bot_delivery_en.Store.Sql.{tally}
use telegram_bot_delivery_en.Store.Execute.{WriterCmd, execute, is_shutdown, run}
use telegram_bot_delivery_en.Store.Ledger.Books.{size, closed, is_staging, Ledger, Inv}
use telegram_bot_delivery_en.Store.Ledger.Moves.{size-split}
use telegram_bot_delivery_en.Store.Ledger.Accepting.{
  IsStaged, begin_accept_job-Inv, insert_recipient_batch-Inv,
}
use telegram_bot_delivery_en.Store.Ledger.Promoting.{IsComplete, promote_job-Inv}
use telegram_bot_delivery_en.Store.Ledger.Deleting.{abort_accept_job-Inv, retention_tick-Inv}
use telegram_bot_delivery_en.Store.Ledger.Leasing.{lease_batch-Inv}
use telegram_bot_delivery_en.Store.Ledger.Releasing.{release_lease-Inv}
use telegram_bot_delivery_en.Store.Ledger.Closing.{complete_attempt-Inv}
use telegram_bot_delivery_en.Store.Ledger.Sweeping.{expire_deadline-Inv}
use telegram_bot_delivery_en.Store.Ledger.Recovering.{
  recover_leases-Inv, requeue_expired_leases-Inv,
}
use telegram_bot_delivery_en.Store.Ledger.Revoking.{NothingStaged, fail_bot_unauthorized-Inv}
use telegram_bot_delivery_en.Store.Ledger.Delaying.{WaitsAlready, delay_recipient-Inv}
use telegram_bot_delivery_en.Store.Ledger.Untouched.{
  mark_wire_started-Inv, migrate_recipient-Inv, upsert_bot-Inv, upsert_config-Inv, pause_scope-Inv,
  persist_scheduler-Inv, mark_webhook-Inv,
}

-- What the ledger asks of a command's sender.
abbrev pub Permitted : WriterCmd → Db → Type 0
Permitted (WriterCmd.begin_accept id _ _ _ _ _) db =
    tally id RecipientState.leased db.recipients ≡ 0
Permitted (WriterCmd.insert_batch id _) db = IsStaged id db
Permitted (WriterCmd.promote p) db = IsComplete p db
Permitted (WriterCmd.delay id idx _ _) db = WaitsAlready id idx db
Permitted (WriterCmd.revoke bot _) db = NothingStaged bot db
Permitted _ db = Unit

-- Every command of the writer keeps the ledger, on the success path and on every refusal, where its
-- sender kept to `Permitted`.
pub execute-Inv :
    (env : Env) (cmd : WriterCmd) (db : Db) → Permitted cmd db → Inv db → Inv (execute env cmd db).0
unfolding execute
execute-Inv env (WriterCmd.begin_accept id bot method policy version deadline) db h inv =
    begin_accept_job-Inv env id bot method policy version deadline db h inv
execute-Inv env (WriterCmd.insert_batch id rows) db h inv =
    insert_recipient_batch-Inv env id rows db h inv
execute-Inv env (WriterCmd.promote p) db h inv = promote_job-Inv env p db h inv
execute-Inv env (WriterCmd.abort_accept id) db h inv = abort_accept_job-Inv env id db inv
execute-Inv env (WriterCmd.lease_next bot owner now secs limit) db h inv =
    lease_batch-Inv env bot owner now secs limit db inv
execute-Inv env (WriterCmd.delay id idx at reason) db h inv =
    delay_recipient-Inv id idx at reason db env h inv
execute-Inv env (WriterCmd.release id idx at reason token) db h inv =
    release_lease-Inv env id idx at reason token db inv
execute-Inv env (WriterCmd.mark_wire id idx token) db h inv =
    mark_wire_started-Inv env id idx token db inv
execute-Inv env (WriterCmd.migrate id idx old new token) db h inv =
    migrate_recipient-Inv env id idx old new token db inv
execute-Inv env (WriterCmd.complete id idx outcome token) db h inv =
    complete_attempt-Inv env id idx outcome token db inv
execute-Inv env (WriterCmd.recover epoch now) db h inv = recover_leases-Inv env epoch now db inv
execute-Inv env (WriterCmd.requeue_expired epoch now) db h inv =
    requeue_expired_leases-Inv env epoch now db inv
execute-Inv env (WriterCmd.expire now) db h inv = expire_deadline-Inv env now db inv
execute-Inv env (WriterCmd.configure bot c secret at) db h inv =
    upsert_config-Inv env bot c secret at db inv
execute-Inv env (WriterCmd.register b) db h inv = upsert_bot-Inv env b db inv
execute-Inv env (WriterCmd.revoke bot now) db h inv = fail_bot_unauthorized-Inv env bot now db inv h
execute-Inv env (WriterCmd.pause p) db h inv = pause_scope-Inv env p db inv
execute-Inv env (WriterCmd.mark_page id m) db h inv = mark_webhook-Inv env id m db inv
execute-Inv env (WriterCmd.retain now batch) db h inv = retention_tick-Inv env now batch db inv
execute-Inv env (WriterCmd.set_max_page_count pages) db h inv = inv
execute-Inv env (WriterCmd.persist bot deficit weight last) db h inv =
    persist_scheduler-Inv env bot deficit weight last db inv
execute-Inv env WriterCmd.shutdown db h inv = inv

-- Each request of the queue is permitted when its turn comes.
abbrev pub AllPermitted : List (Env × WriterCmd) → Db → Type 0
AllPermitted [] db = Unit
AllPermitted ((env, cmd) ∷ rest) db = Permitted cmd db × AllPermitted rest (execute env cmd db).0

-- The ledger holds after any queue of permitted requests, in any order and with any refusals.
pub run-Inv :
    (requests : List (Env × WriterCmd)) (db : Db)
    → AllPermitted requests db
    → Inv db
    → Inv (run requests db)
unfolding run
run-Inv [] db h inv = inv
run-Inv ((env, cmd) ∷ rest) db h inv = elim (Bool-cases (is_shutdown cmd)) [
  | inl e ↦ rw (e, run) (execute-Inv env cmd db h.0 inv)
  | inr e ↦ rw (e, run) (run-Inv rest _ h.1 (execute-Inv env cmd db h.0 inv))
]

pub empty_db-Inv : Inv empty_db
empty_db-Inv = record { keyed = λ id idx. omega arith; jobs_keyed = λ id. omega arith; books = tt }

-- What the store then says of a job that was promoted.
abbrev pub Accounted : Job → List Recipient → Type 0
Accounted j rows =
    (j.total ≡ pos (size j.job_id rows))
    × (j.queued +ℤ j.inflight +ℤ j.delayed +ℤ j.succeeded +ℤ j.failed +ℤ j.ambiguous ≡ j.total)
    × (same_job_state j.state JobState.completed
        ≡ nat_beq (closed j.job_id rows) (size j.job_id rows))

Accounted-of_Ledger :
    (rows : List Recipient) (j : Job) → is_staging j ≡ false → Ledger rows j → Accounted j rows
Accounted-of_Ledger rows j e l =
    let c = l.promoted e in
    (
      c.total_exact,
      simp
          (
            c.queued_exact, c.inflight_exact, c.delayed_exact, c.succeeded_exact, c.failed_exact,
            c.ambiguous_exact, c.total_exact, +ℤ_pos,
          )
          (ap pos (sym (size-split j.job_id rows))),
      c.completed_exact,
    )

-- After any permitted queue on an empty store, a job that was promoted counts all its recipients:
-- its total is their number, its six counters add up to the total, and it is completed exactly when
-- all of them have ended.
pub run-Accounted :
    (requests : List (Env × WriterCmd)) (id : JobId) (j : Job)
    → AllPermitted requests empty_db
    → find_where (is_job id) (run requests empty_db).jobs ≡ some j
    → is_staging j ≡ false
    → Accounted j (run requests empty_db).recipients
run-Accounted requests id j h e live =
    Accounted-of_Ledger (run requests empty_db).recipients j live (
      All-find_where (Ledger (run requests empty_db).recipients) (is_job id)
        (run requests empty_db).jobs e (run-Inv requests empty_db h empty_db-Inv).books)

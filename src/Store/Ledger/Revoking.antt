-- ===== src/Store/Ledger/Revoking.antt =====
-- `FailBotUnauthorized` of src/store/writer.rs keeps the ledger where the bot has no staged recipient.
use telegram_bot_delivery_en.Base.{
  ◌+◌, ◌≤◌, ◌≡◌, refl, true, false, not, ◌&&◌, List, [], ◌∷◌, ℤ, arith, ◌==◌, nat_eq, string_eq,
  count_where, update_where, All, All-map, test_self, Bool-cases, inl, inr, Memᴰ, All-members,
  any_of_member, All-Memᴰ, count_where-le,
}
use telegram_bot_delivery_en.Domain.{BotId, JobId, RecipientState, recipient_state_eq}
use telegram_bot_delivery_en.Store.Tables.{Job, Recipient, Db, Env, is_job, of_job}
use telegram_bot_delivery_en.Store.Sql.{tally}
use telegram_bot_delivery_en.Store.Recover.{
  of_bot, fail_unauthorized, is_active_of_bot, reconcile_revoked, revoke_rows,
  fail_bot_unauthorized,
}
use telegram_bot_delivery_en.Store.Ledger.Books.{is_staging, Ledger, Inv}
use telegram_bot_delivery_en.Store.Ledger.Moves.{Keeps, size-split, keyed-update}
use telegram_bot_delivery_en.Store.Ledger.Commit.{Ensures, Ensures-bind, transaction-Ensures}
use telegram_bot_delivery_en.Store.Ledger.Behind.{listed, Behind, Unsettled}
use telegram_bot_delivery_en.Store.Ledger.Reconciling.{
  reconcile_revoked-Inv, Stirred, Stirred-Behind, Ledger-Stirred, Stirred-update,
}
use telegram_bot_delivery_en.Store.Ledger.Sweeping.{selected, selected_lem, listed-selected}

-- No job that is still accepting has a recipient of the bot staged.
abbrev pub NothingStaged : BotId → Db → Type 0
NothingStaged bot db =
    All
      (λ j.
        is_staging j ≡ true
        → count_where (λ r. of_bot bot r && of_job j.job_id r) db.recipients ≡ 0)
      db.jobs

fail_unauthorized-Keeps : Keeps fail_unauthorized
fail_unauthorized-Keeps = record { job = λ r. refl; row = λ r. refl; bot = λ r. refl }

pending_split :
    (bot : BotId) (id : JobId) (rows : List Recipient)
    → count_where (λ r. of_bot bot r && of_job id r) rows
      ≤ tally id RecipientState.queued rows
        + tally id RecipientState.leased rows
        + tally id RecipientState.delayed rows
pending_split bot id [] = omega arith
pending_split bot id (r ∷ rows) = ground (arith, pending_split bot id rows)

module _ (bot : BotId) (db : Db) (inv : Inv db) (quiet : NothingStaged bot db) where
  revoked : List JobId
  revoked = selected (is_active_of_bot bot) db.jobs inv.jobs_keyed

  -- Of a promoted job that is not the bot's, or not running, the bot has no pending recipient.
  promoted_apart :
      (j : Job)
      → is_staging j ≡ false
      → is_active_of_bot bot j ≡ false
      → Ledger db.recipients j
      → count_where (λ r. of_bot bot r && of_job j.job_id r) db.recipients ≡ 0
  promoted_apart j e h l =
      let c = l.promoted e in
      elim (Bool-cases (j.bot_id == bot)) [
        | inl f ↦ ground (
          arith,
          c.completed_exact,
          c.never_internal,
          size-split j.job_id db.recipients,
          pending_split bot j.job_id db.recipients,
        )
        | inr f ↦
            let le =
              count_where-le (λ r. of_bot bot r && of_job j.job_id r)
                (λ r. of_job j.job_id r && not (r.bot_id == j.bot_id)) db.recipients
                (λ r g. ground arith) in
            omega (arith, c.one_bot)
      ]

  idle : (j : Job) → Memᴰ j db.jobs → listed revoked j ≡ false → is_active_of_bot bot j ≡ false
  unfolding revoked
  idle j m h = elim (Bool-cases (is_active_of_bot bot j)) [
    | inl e ↦
        let self = test_self j.job_id in
        let hit =
          any_of_member (λ k. is_job j.job_id k && is_active_of_bot bot k) db.jobs m
            (ground arith) in
        absurd (ground (arith, selected_lem (is_active_of_bot bot) db.jobs inv.jobs_keyed j.job_id))
    | inr e ↦ e
  ]

  revoked_apart :
      All
        (λ j.
          listed revoked j ≡ false
          → count_where (λ r. of_bot bot r && of_job j.job_id r) db.recipients ≡ 0)
        db.jobs
  revoked_apart = All-members _ db.jobs λ j m h. elim (Bool-cases (is_staging j)) [
    | inl e ↦
        All-Memᴰ
          (λ j.
            is_staging j ≡ true
            → count_where (λ r. of_bot bot r && of_job j.job_id r) db.recipients ≡ 0)
          db.jobs quiet m e
    | inr e ↦ promoted_apart j e (idle j m h) (All-Memᴰ (Ledger db.recipients) db.jobs inv.books m)
  ]

  stirred :
      All (Stirred revoked (update_where (of_bot bot) fail_unauthorized db.recipients)) db.jobs
  unfolding revoked
  stirred = All-members _ db.jobs λ j m.
      Stirred-update revoked (of_bot bot) fail_unauthorized db.recipients j fail_unauthorized-Keeps
        (All-Memᴰ
          (λ j.
            listed revoked j ≡ false
            → count_where (λ r. of_bot bot r && of_job j.job_id r) db.recipients ≡ 0)
          db.jobs revoked_apart m)
        (Ledger-Stirred revoked db.recipients j
          (λ h.
            let hit =
              All-Memᴰ (λ j. listed revoked j ≡ true → is_active_of_bot bot j ≡ true) db.jobs
                (listed-selected (is_active_of_bot bot) db.jobs inv.jobs_keyed) m h in
            ground arith)
          (All-Memᴰ (Ledger db.recipients) db.jobs inv.books m))

  revoked-Unsettled :
      Unsettled revoked
        (record db { recipients = update_where (of_bot bot) fail_unauthorized db.recipients })
  revoked-Unsettled = record {
    keyed =
        keyed-update (of_bot bot) fail_unauthorized fail_unauthorized-Keeps db.recipients inv.keyed;
    jobs_keyed = inv.jobs_keyed;
    behind = All-map _ (Behind revoked _) db.jobs (Stirred-Behind revoked _) stirred;
  }

  revoke_rows-Inv : (env : Env) (now : ℤ) → Ensures (λ d. Inv d.0) (revoke_rows env bot now db)
  unfolding revoke_rows revoked selected
  revoke_rows-Inv env now =
      Ensures-bind Inv (λ d. Inv d.0) (reconcile_revoked env now revoked _) _
        (reconcile_revoked-Inv env now revoked _ revoked-Unsettled) (λ d i. i)

pub fail_bot_unauthorized-Inv :
    (env : Env) (bot : BotId) (now : ℤ) (db : Db)
    → Inv db
    → NothingStaged bot db
    → Inv (fail_bot_unauthorized env bot now db).0
unfolding fail_bot_unauthorized
fail_bot_unauthorized-Inv env bot now db inv quiet =
    transaction-Ensures Inv env (revoke_rows env bot now) db inv
      (revoke_rows-Inv bot db inv quiet env now)

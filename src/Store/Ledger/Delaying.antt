-- ===== src/Store/Ledger/Delaying.antt =====
-- `DelayRecipient` of src/store/writer.rs keeps the ledger for a row that is delayed already.
use telegram_bot_delivery_en.Base.{
  ℕ, ◌≡◌, refl, String, Bool, true, ◌&&◌, some, ℤ, arith, ◌==◌, nat_eq, string_eq, count_where,
  update_where, All, All-map, update_where-narrow, eq_of_test,
}
use telegram_bot_delivery_en.Domain.{JobId, RecipientState, recipient_state_eq}
use telegram_bot_delivery_en.Store.Tables.{Recipient, Db, Env, is_row}
use telegram_bot_delivery_en.Store.Sql.{is_waiting}
use telegram_bot_delivery_en.Store.Lease.{delay_recipient}
use telegram_bot_delivery_en.Store.Ledger.Books.{Ledger, Inv}
use telegram_bot_delivery_en.Store.Ledger.Moves.{Keeps, keyed-update}
use telegram_bot_delivery_en.Store.Ledger.Step.{Moved, update-Moved, Ledger-same}
use telegram_bot_delivery_en.Store.Ledger.Commit.{transaction-Ensures}

abbrev is_delayable : JobId → ℕ → Recipient → Bool
is_delayable id idx r = is_row id idx r && is_waiting r.state

-- The row waits already, so that `DelayRecipient` moves no counter.
abbrev pub WaitsAlready : JobId → ℕ → Db → Type 0
WaitsAlready id idx db =
    All (λ r. is_delayable id idx r ≡ true → (r.state == RecipientState.delayed) ≡ true)
      db.recipients

-- `DelayRecipient` on such a row.
module _ (id : JobId) (idx : ℕ) (at : ℤ) (reason : String) (db : Db) where
  later : Recipient → Recipient
  later r = record r {
    state = RecipientState.delayed;
    not_before_unix = at;
    limiter_scope_hint = some reason;
  }

  later-Keeps : Keeps later
  unfolding later
  later-Keeps = record { job = λ r. refl; row = λ r. refl; bot = λ r. refl }

  stays : Recipient → Bool
  stays r = is_delayable id idx r && r.state == RecipientState.delayed

  later-Moved :
      Moved id RecipientState.delayed RecipientState.delayed
        (count_where stays db.recipients)
        db.recipients
        (update_where stays later db.recipients)
  unfolding stays later
  later-Moved =
      update-Moved stays later id RecipientState.delayed RecipientState.delayed db.recipients
        later-Keeps
        (λ r h. (
          eq_of_test r.job_id id (ground arith),
          eq_of_test r.state RecipientState.delayed (ground arith),
        ))
        (λ r h. refl)

  later-Inv :
      WaitsAlready id idx db
      → Inv db
      → Inv (record db { recipients = update_where (is_delayable id idx) later db.recipients })
  unfolding later stays
  later-Inv waits inv =
      rw
        (update_where-narrow (is_delayable id idx) (λ r. r.state == RecipientState.delayed) later
          db.recipients waits)
        (record {
          keyed = keyed-update _ later later-Keeps db.recipients inv.keyed;
          jobs_keyed = inv.jobs_keyed;
          books =
              All-map (Ledger db.recipients) (Ledger _) db.jobs
                (λ j l.
                  Ledger-same db.recipients _ j
                    (λ t. let same = later-Moved.tallies j.job_id t in omega arith)
                    (later-Moved.sizes j.job_id) (later-Moved.bots j.job_id j.bot_id) l)
                inv.books;
        })

  pub delay_recipient-Inv :
      (env : Env)
      → WaitsAlready id idx db
      → Inv db
      → Inv (delay_recipient env id idx at reason db).0
  unfolding delay_recipient later
  delay_recipient-Inv env waits inv = transaction-Ensures Inv env _ db inv (later-Inv waits inv)

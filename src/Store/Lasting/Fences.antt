-- ===== src/Store/Lasting/Fences.antt =====
-- The token that `LeaseBatch` of src/store/writer.rs issues fences off the earlier ones for good.
use telegram_bot_delivery_en.Base.{
  ℕ, ◌<◌, ◌≡◌, List, [], ◌∷◌, some, ℤ, String, any, leb, count_where, arith, inl, inr, Bool-cases,
  any-Memᴰ, All-of_unique, count-absent, nat_eq, string_eq,
}
use telegram_bot_delivery_en.Domain.{BotId, JobId, recipient_state_eq}
use telegram_bot_delivery_en.Store.Tables.{Db, ok, lease, Env, is_row}
use telegram_bot_delivery_en.Store.Lease.{lease_batch, holds_lease}
use telegram_bot_delivery_en.Store.Execute.{WriterCmd, run, is_shutdown}
use telegram_bot_delivery_en.Store.Ledger.Books.{Inv}
use telegram_bot_delivery_en.Store.Ledger.Leasing.{lease_batch-Inv}
use telegram_bot_delivery_en.Store.Tokens.{IsStale}
use telegram_bot_delivery_en.Store.Fencing.{lease_batch-answer}
use telegram_bot_delivery_en.Store.Lasting.{HasReached, BringsNone, Reached-IsStale}
use telegram_bot_delivery_en.Store.Lasting.Commands.{execute-Reached}

abbrev pub BringNone : JobId → List (Env × WriterCmd) → Type 0
BringNone id [] = Unit
BringNone id ((env, cmd) ∷ rest) = BringsNone id cmd × BringNone id rest

run-Reached :
    (id : JobId) (idx n : ℕ) (requests : List (Env × WriterCmd)) (db : Db)
    → BringNone id requests
    → HasReached id idx n db
    → HasReached id idx n (run requests db)
unfolding run
run-Reached id idx n [] db b h = h
run-Reached id idx n ((env, cmd) ∷ rest) db b h = elim (Bool-cases (is_shutdown cmd)) [
  | inl e ↦ rw (e, run) (execute-Reached id idx n env cmd db b.0 h)
  | inr e ↦
      rw (e, run) (run-Reached id idx n rest _ b.1 (execute-Reached id idx n env cmd db b.0 h))
]

-- A row that holds a token is the recipient's only row.
holder-HasReached :
    (id : JobId) (idx token : ℕ) (db : Db)
    → Inv db
    → count_where (holds_lease id idx token) db.recipients ≡ 1
    → HasReached id idx token db
holder-HasReached id idx token db inv one =
    elim (Bool-cases (any (holds_lease id idx token) db.recipients)) [
      | inl e ↦
          let (r, m, t) = any-Memᴰ (holds_lease id idx token) db.recipients e in
          All-of_unique (is_row id idx) (λ s. leb token s.lease_token) db.recipients m
            (ground arith) (ground arith) (inv.keyed id idx)
      | inr e ↦ absurd (omega (arith, count-absent (holds_lease id idx token) db.recipients e))
    ]

-- In a store whose ledger holds, once `LeaseBatch` has handed out a recipient under a token, no earlier
-- token is held again, after any requests that bring no new recipients of that job, whether they are
-- answered or refused: further leases, recoveries and the end of the job among them.
pub lease_batch-fences :
    (env : Env) (bot : BotId) (owner : String) (now : ℤ) (secs limit : ℕ) (db : Db) (id : JobId)
    (idx token older : ℕ) (requests : List (Env × WriterCmd))
    → Inv db
    → (lease_batch env bot owner now secs limit db).1 ≡ ok (lease (some (id, idx, token)))
    → BringNone id requests
    → older < token
    → IsStale id idx older (run requests (lease_batch env bot owner now secs limit db).0)
lease_batch-fences env bot owner now secs limit db id idx token older requests inv h b lt =
    let after = (lease_batch env bot owner now secs limit db).0 in
    let held = (lease_batch-answer env bot owner now secs limit db id idx token inv h).0 in
    Reached-IsStale id idx token older _ lt (
      run-Reached id idx token requests after b (
        holder-HasReached id idx token after (lease_batch-Inv env bot owner now secs limit db inv)
          held))

-- ===== src/Store/Tokens.antt =====
-- Lease tokens, the fences of src/store/writer.rs: an answer under an old token changes nothing.
use telegram_bot_delivery_en.Base.{
  ℕ, ◌≡◌, refl, String, Bool, true, false, ◌&&◌, List, [], ◌∷◌, ℤ, arith, ◌==◌, nat_eq, string_eq,
  count_where, update_where, update_where-none, count_where-le, find_where, nat_beq_iff, Bool-cases,
  Option-cases, inl, inr,
}
use telegram_bot_delivery_en.Domain.{JobId, RecipientState, same_state, recipient_state_eq}
use telegram_bot_delivery_en.Store.Tables.{
  Recipient, Db, Result, ok, WriterResult, done, count, Env, transaction, is_job,
}
use telegram_bot_delivery_en.Store.Sql.{text_is}
use telegram_bot_delivery_en.Store.Lease.{
  holds_lease, is_unsent, put_back, release_row, release_lease, mark_wire_started,
  migrate_recipient,
}
use telegram_bot_delivery_en.Store.Complete.{
  CompletionOutcome, attempt_of, record_attempt, move_attempt, close_job, complete_rows,
  complete_attempt, or_else, all_ended,
}
use telegram_bot_delivery_en.Store.Ledger.Commit.{Ensures, Ensures-bind, transaction-ok}
use telegram_bot_delivery_en.Store.Ledger.Finishing.{finalize-Keeps}

-- No row is on the wire under this token.
abbrev pub IsStale : JobId → ℕ → ℕ → Db → Type 0
IsStale id idx token db = count_where (holds_lease id idx token) db.recipients ≡ 0

stale-same :
    (env : Env) (operation : Db → Result (Db × WriterResult)) (db : Db) {r : WriterResult}
    → operation db ≡ ok (db, r)
    → (transaction env operation db).0 ≡ db
unfolding transaction
stale-same env operation db {r} e = elim (Bool-cases env.can_commit) [
  | inl c ↦ rw (e, c, transaction) refl
  | inr c ↦ rw (e, c, transaction) refl
]

complete_attempt-stale :
    (env : Env) (id : JobId) (idx : ℕ) (outcome : CompletionOutcome) (token : ℕ) (db : Db)
    → IsStale id idx token db
    → (complete_attempt env id idx outcome token db).0 ≡ db
unfolding complete_attempt complete_rows
complete_attempt-stale env id idx outcome token db h =
    stale-same env (complete_rows env id idx outcome token) db {r = done}
      (rw (h, complete_rows) refl)

release_lease-stale :
    (env : Env) (id : JobId) (idx : ℕ) (at : ℤ) (reason : String) (token : ℕ) (db : Db)
    → IsStale id idx token db
    → (release_lease env id idx at reason token db).0 ≡ db
unfolding release_lease release_row
release_lease-stale env id idx at reason token db h =
    stale-same env (release_row id idx at reason token) db {r = count 0}
      (rw (none_unsent, same) refl)
  where
    none_unsent : count_where (is_unsent id idx token) db.recipients ≡ 0
    none_unsent = omega (
      arith,
      count_where-le (is_unsent id idx token) (holds_lease id idx token) db.recipients
          (λ r h. ground arith),
    )

    same : update_where (is_unsent id idx token) (put_back at reason) db.recipients ≡ db.recipients
    same = update_where-none (is_unsent id idx token) (put_back at reason) db.recipients none_unsent

mark_wire_started-stale :
    (env : Env) (id : JobId) (idx token : ℕ) (db : Db)
    → IsStale id idx token db
    → (mark_wire_started env id idx token db).0 ≡ db
unfolding mark_wire_started
mark_wire_started-stale env id idx token db h = stale-same env _ db {r = done} (
    rw
      (update_where-none (holds_lease id idx token) (λ r. record r { wire_started = true })
        db.recipients h)
      refl)

migrate_recipient-stale :
    (env : Env) (id : JobId) (idx : ℕ) (old_chat new_chat : String) (token : ℕ) (db : Db)
    → IsStale id idx token db
    → (migrate_recipient env id idx old_chat new_chat token db).0 ≡ db
unfolding migrate_recipient
migrate_recipient-stale env id idx old_chat new_chat token db h =
    stale-same env _ db {r = done} (rw (update_where-none moves _ db.recipients none_moves) refl)
  where
    moves : Recipient → Bool
    moves r = holds_lease id idx token r && text_is r.chat_id old_chat

    none_moves : count_where moves db.recipients ≡ 0
    none_moves = omega (
      arith,
      count_where-le moves (holds_lease id idx token) db.recipients (λ r h'. ground arith),
    )

-- An answer takes its row off the wire.
off_wire : (o : CompletionOutcome) → same_state (attempt_of o).state RecipientState.leased ≡ false
unfolding attempt_of
off_wire (CompletionOutcome.succeeded message sent) = refl
off_wire (CompletionOutcome.failed norm status desc) = refl
off_wire CompletionOutcome.ambiguous = refl
off_wire (CompletionOutcome.delayed at norm consume) = refl

answered-stale :
    (id : JobId) (idx token : ℕ) (outcome : CompletionOutcome) (rows : List Recipient)
    → count_where
        (holds_lease id idx token)
        (update_where (holds_lease id idx token) (record_attempt (attempt_of outcome)) rows)
      ≡ 0
answered-stale id idx token outcome [] = refl
answered-stale id idx token outcome (r ∷ rows) =
    ground (arith, off_wire outcome, answered-stale id idx token outcome rows)

-- The recipients are not touched by the close of their job.
pub close_job-recipients :
    (env : Env) (id : JobId) (finished : ℤ) (db : Db)
    → Ensures (λ d. d.recipients ≡ db.recipients) (close_job env id finished db)
unfolding close_job
close_job-recipients env id finished db = elim (Option-cases (find_where (is_job id) db.jobs)) [
  | inl e ↦ rw (e, close_job) tt
  | inr (j, e) ↦ elim (Bool-cases (all_ended j)) [
    | inl f ↦
        rw (e, f, close_job)
          (finalize-Keeps (λ d. d.recipients ≡ db.recipients) (λ d es ps h. h) (λ d k event h. h)
            env id finished _ refl)
    | inr f ↦ rw (e, f, close_job) refl
  ]
]

complete_rows-IsStale :
    (env : Env) (id : JobId) (idx : ℕ) (outcome : CompletionOutcome) (token : ℕ) (db : Db)
    → Ensures (λ d. IsStale id idx token d.0) (complete_rows env id idx outcome token db)
unfolding complete_rows move_attempt
complete_rows-IsStale env id idx outcome token db =
    elim (Bool-cases (count_where (holds_lease id idx token) db.recipients == 0)) [
      | inl e ↦ rw (e, complete_rows) ((nat_beq_iff _ _).0 e)
      | inr e ↦ elim (Bool-cases (same_state (attempt_of outcome).state RecipientState.delayed)) [
        | inl f ↦ rw (e, f, complete_rows) (answered-stale id idx token outcome db.recipients)
        | inr f ↦
            rw (e, f, complete_rows)
              (Ensures-bind
                (λ d.
                  d.recipients
                  ≡ update_where (holds_lease id idx token) (record_attempt (attempt_of outcome))
                      db.recipients)
                (λ d. IsStale id idx token d.0) _ (λ d. ok (d, done))
                (close_job-recipients env id (or_else (attempt_of outcome).sent env.wall_clock)
                  (move_attempt id idx token (attempt_of outcome) db))
                (λ d same. rw same (answered-stale id idx token outcome db.recipients)))
      ]
    ]

-- Once an answer went through, any other answer under the same token changes nothing, whatever the
-- two answers are: no recipient is counted twice.
pub complete_attempt-twice :
    (env env' : Env) (id : JobId) (idx : ℕ) (outcome outcome' : CompletionOutcome) (token : ℕ)
    (db : Db) {r : WriterResult}
    → (complete_attempt env id idx outcome token db).1 ≡ ok r
    → (complete_attempt env' id idx outcome' token
        (complete_attempt env id idx outcome token db).0).0
      ≡ (complete_attempt env id idx outcome token db).0
unfolding complete_attempt
complete_attempt-twice env env' id idx outcome outcome' token db h =
    complete_attempt-stale env' id idx outcome' token _ (
      transaction-ok (IsStale id idx token) env (complete_rows env id idx outcome token) db h
        (complete_rows-IsStale env id idx outcome token db))

-- A token that no row on the wire holds is refused by all four commands that carry one: an answer, a
-- release, the mark of a started request and a chat migration each leave the database as it is.
pub stale_token :
    (env : Env) (id : JobId) (idx token : ℕ) (db : Db) (outcome : CompletionOutcome) (at : ℤ)
    (reason old_chat new_chat : String)
    → IsStale id idx token db
    → ((complete_attempt env id idx outcome token db).0 ≡ db)
      × ((release_lease env id idx at reason token db).0 ≡ db)
      × ((mark_wire_started env id idx token db).0 ≡ db)
      × ((migrate_recipient env id idx old_chat new_chat token db).0 ≡ db)
stale_token env id idx token db outcome at reason old_chat new_chat h = (
  complete_attempt-stale env id idx outcome token db h,
  release_lease-stale env id idx at reason token db h,
  mark_wire_started-stale env id idx token db h,
  migrate_recipient-stale env id idx old_chat new_chat token db h,
)

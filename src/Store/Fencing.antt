-- ===== src/Store/Fencing.antt =====
-- The token that `LeaseBatch` of src/store/writer.rs issues fences off every other one.
use telegram_bot_delivery_en.Base.{
  ℕ, ◌+◌, ap, ◌≤◌, ◌≡◌, refl, sym, ◌∙◌, String, Bool, true, false, ◌&&◌, List, [], ◌∷◌, some, ℤ,
  pos, ◌+ℤ◌, arith, ◌==◌, nat_eq, string_eq, if◌then◌else◌, count_where, update_where, find_where,
  All, All-update_where, All-find_where, All-members, count_where-eq, find_where-true, test_self,
  Bool-cases, Option-cases, inl, inr,
}
use telegram_bot_delivery_en.Domain.{BotId, JobId, RecipientState, same_state, recipient_state_eq}
use telegram_bot_delivery_en.Store.Tables.{
  Job, Recipient, Db, ok, WriterResult, lease, Env, is_job, is_row,
}
use telegram_bot_delivery_en.Store.Lease.{
  candidate, ttl_of, take_lease, count_lease, grant_lease, lease_one, lease_batch, holds_lease,
}
use telegram_bot_delivery_en.Store.Ledger.Books.{Inv}
use telegram_bot_delivery_en.Store.Ledger.Commit.{Ensures, transaction-answer}
use telegram_bot_delivery_en.Store.Ledger.Moves.{Keeps, keyed-update}
use telegram_bot_delivery_en.Store.Tokens.{IsStale}

-- Where one row passes a test at most, the rows that pass another one with it are that row or none.
count_where-found :
    (p q : Recipient → Bool) (rows : List Recipient) {s : Recipient}
    → find_where p rows ≡ some s
    → count_where p rows ≤ 1
    → count_where (λ r. p r && q r) rows ≡ (if q s then 1 else 0)
count_where-found p q [] h one = cc
count_where-found p q (r ∷ rows) {s} h one = elim (Bool-cases (p r)) [
  | inl e ↦ let same : r ≡ s = ground arith in rw (sym same) (ground (arith, alone rows))
  | inr e ↦
      let rest = count_where-found p q rows {s = s} (ground arith) (ground arith) in
      rw e (ground (arith, rest))
]
  where
    alone : (xs : List Recipient) → count_where p xs ≡ 0 → count_where (λ r. p r && q r) xs ≡ 0
    alone [] n = refl
    alone (x ∷ xs) n = ground (arith, alone xs)

-- The row that an update finds is the one it found before, changed.
find_where-update_where :
    (p : Recipient → Bool) (f : Recipient → Recipient) (rows : List Recipient) {s : Recipient}
    → ((r : Recipient) → p r ≡ true → p (f r) ≡ true)
    → find_where p rows ≡ some s
    → find_where p (update_where p f rows) ≡ some (f s)
find_where-update_where p f [] keeps h = cc
find_where-update_where p f (r ∷ rows) {s} keeps h = elim (Bool-cases (p r)) [
  | inl e ↦ let same : r ≡ s = ground arith in rw (e, keeps r e, same) refl
  | inr e ↦ rw (e, e) (find_where-update_where p f rows {s = s} keeps (ground arith))
]

-- What an answer of `LeaseBatch` says of the database, and of the one before.
abbrev pub Issued : Db → WriterResult → Db → Type 0
Issued before (lease (some (id, idx, token))) d =
    (count_where (holds_lease id idx token) d.recipients ≡ 1)
    × ((other : ℕ) → (other == token) ≡ false → IsStale id idx other d)
    × ((r : Recipient)
        → find_where (is_row id idx) before.recipients ≡ some r
        → token ≡ r.lease_token + 1)
Issued before _ d = Unit

take_lease-Keeps : {owner : String} {until : ℤ} → Keeps (take_lease owner until)
take_lease-Keeps = record { job = λ r. refl; row = λ r. refl; bot = λ r. refl }

module _ (owner : String) (until : ℤ) (r : Recipient) (rows : List Recipient)
    (keyed : (id : JobId) (idx : ℕ) → count_where (is_row id idx) rows ≤ 1) where
  taken : List Recipient
  taken = update_where (is_row r.job_id r.idx) (take_lease owner until) rows

  taken-leased :
      All
        (λ s. is_row r.job_id r.idx s ≡ true → same_state s.state RecipientState.leased ≡ true)
        taken
  unfolding taken
  taken-leased =
      All-update_where (λ s. Unit {0})
        (λ s. is_row r.job_id r.idx s ≡ true → same_state s.state RecipientState.leased ≡ true)
        (is_row r.job_id r.idx) (take_lease owner until) rows (λ s h u _. refl)
        (λ s h u g. absurd (ground (arith, h, g))) (All-members (λ s. Unit {0}) rows (λ s m. tt))

  module _ {s : Recipient} (h : find_where (is_row r.job_id r.idx) taken ≡ some s) where
    on_wire : same_state s.state RecipientState.leased ≡ true
    on_wire =
        All-find_where
          (λ s. is_row r.job_id r.idx s ≡ true → same_state s.state RecipientState.leased ≡ true)
          (is_row r.job_id r.idx) taken h taken-leased
          (find_where-true (is_row r.job_id r.idx) taken h)

    holders :
        (token : ℕ)
        → count_where (holds_lease r.job_id r.idx token) taken
          ≡ (if s.lease_token == token then 1 else 0)
    unfolding taken
    holders token =
        count_where-eq (holds_lease r.job_id r.idx token)
          (λ x.
            is_row r.job_id r.idx x
            && (same_state x.state RecipientState.leased && x.lease_token == token))
          taken (λ x. ground arith)
        ∙ (count_where-found (is_row r.job_id r.idx)
              (λ x. same_state x.state RecipientState.leased && x.lease_token == token) taken h
              (keyed-update (is_row r.job_id r.idx) (take_lease owner until) take_lease-Keeps rows
                keyed r.job_id r.idx)
            ∙ rw on_wire refl)

    taken-Issued :
        (jobs : List Job) (db : Db)
        → db.recipients ≡ rows
        → Issued db
            (lease (some (r.job_id, r.idx, s.lease_token)))
            (record db { recipients = taken; jobs = jobs })
    unfolding taken
    taken-Issued jobs db same = (
      holders s.lease_token ∙ rw (test_self s.lease_token) refl,
      λ other away. let n = holders other in ground (arith, n),
      λ r' e. next_token r' (rw same at e),
    )
      where
        next_token :
            (r' : Recipient)
            → find_where (is_row r.job_id r.idx) rows ≡ some r'
            → s.lease_token ≡ r'.lease_token + 1
        next_token r' e =
            let found =
              find_where-update_where (is_row r.job_id r.idx) (take_lease owner until) rows {s = r'}
                (λ x k. k) e in
            let same : take_lease owner until r' ≡ s = cc in ap (λ x. x.lease_token) (sym same)

lease_one-Issued :
    (bot : BotId) (owner : String) (now : ℤ) (secs : ℕ) (db : Db)
    → Inv db
    → Ensures (λ d. Issued db d.1 d.0) (lease_one bot owner now secs db)
unfolding lease_one grant_lease taken
lease_one-Issued bot owner now secs db inv = elim (Option-cases (candidate bot now db)) [
  | inl e ↦ rw (e, lease_one) tt
  | inr (r, e) ↦
      let until = now +ℤ pos (ttl_of secs (find_where (is_job r.job_id) db.jobs)) in
      elim (Option-cases
        (find_where (is_row r.job_id r.idx) (taken owner until r db.recipients inv.keyed))) [
          | inl f ↦ rw (e, f, lease_one) tt
          | inr (s, f) ↦
              rw (e, f, lease_one)
                (taken-Issued owner until r db.recipients inv.keyed f
                  (update_where (is_job r.job_id) (count_lease r.state now) db.jobs) db refl)
        ]
]

pub lease_batch-answer :
    (env : Env) (bot : BotId) (owner : String) (now : ℤ) (secs limit : ℕ) (db : Db) (id : JobId)
    (idx token : ℕ)
    → Inv db
    → (lease_batch env bot owner now secs limit db).1 ≡ ok (lease (some (id, idx, token)))
    → Issued db (lease (some (id, idx, token))) (lease_batch env bot owner now secs limit db).0
unfolding lease_batch
lease_batch-answer env bot owner now secs limit db id idx token inv h =
    elim (Bool-cases (limit == 1)) [
      | inl e ↦
          rw (e, lease_batch)
            (transaction-answer (Issued db) env (lease_one bot owner now secs) db
              (rw (e, lease_batch) at h) (lease_one-Issued bot owner now secs db inv))
      | inr e ↦ absurd (cc (rw (e, lease_batch) at h))
    ]

-- In a store whose ledger holds, `LeaseBatch` hands out a recipient under a token that is one more than
-- the one that the recipient's row had before; the recipient is then on the wire under that token,
-- once, and under no other.
pub lease_batch-Issued :
    (env : Env) (bot : BotId) (owner : String) (now : ℤ) (secs limit : ℕ) (db : Db) (id : JobId)
    (idx token other : ℕ) (r : Recipient)
    → Inv db
    → (lease_batch env bot owner now secs limit db).1 ≡ ok (lease (some (id, idx, token)))
    → find_where (is_row id idx) db.recipients ≡ some r
    → (other == token) ≡ false
    → (token ≡ r.lease_token + 1)
      × (count_where
            (holds_lease id idx token)
            (lease_batch env bot owner now secs limit db).0.recipients
          ≡ 1)
      × IsStale id idx other (lease_batch env bot owner now secs limit db).0
lease_batch-Issued env bot owner now secs limit db id idx token other r inv h found away =
    let a = lease_batch-answer env bot owner now secs limit db id idx token inv h in
    (a.2 r found, a.0, a.1 other away)

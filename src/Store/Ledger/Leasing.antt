-- ===== src/Store/Ledger/Leasing.antt =====
-- `LeaseBatch` and `ReleaseLease` keep the ledger.
use telegram_bot_delivery_en.Base.{
  ℕ, ◌≤◌, ◌≡◌, refl, sym, ap, ◌∙◌, String, Bool, true, ◌&&◌, List, [], ◌∷◌, Option, none, some, ℤ,
  Memᴰ, arith, ◌==◌, nat_eq, string_eq, count_where, update_where, All, All-update_where, All-both,
  any-Memᴰ, keep_where-Memᴰ, count_where-pos, All-of_unique, update_where-narrow,
  count_where-narrow, subst, test_self, eq_of_test, Bool-cases, inl, inr, Option-cases,
}
use telegram_bot_delivery_en.Domain.{BotId, RecipientState, recipient_state_eq}
use telegram_bot_delivery_en.Store.Tables.{Recipient, Db, Env, is_job, is_row}
use telegram_bot_delivery_en.Store.Sql.{is_active, is_waiting, row_before, least}
use telegram_bot_delivery_en.Store.Lease.{
  is_ready, candidate, take_lease, count_lease, issue, grant_lease, lease_one, put_back,
  lease_batch,
}
use telegram_bot_delivery_en.Store.Ledger.Books.{Ledger, Inv}
use telegram_bot_delivery_en.Store.Ledger.Moves.{Keeps, keyed-update, jobs_keyed-update}
use telegram_bot_delivery_en.Store.Ledger.Step.{Moved, update-Moved, Ledger-elsewhere}
use telegram_bot_delivery_en.Store.Ledger.Counters.{Counted-lease}
use telegram_bot_delivery_en.Store.Ledger.Commit.{Ensures, transaction-Ensures}

pub least-Memᴰ {ℓ} :
    {A : Type ℓ} (before : A → A → Bool) (xs : List A) {x : A}
    → least before xs ≡ some x
    → Memᴰ x xs
unfolding least
least-Memᴰ before [] h = cc
least-Memᴰ before (y ∷ ys) {x} h = elim (Option-cases (least before ys)) [
  | inl e ↦ Memᴰ.head (ground arith)
  | inr (z, e) ↦ elim (Bool-cases (before z y)) [
    | inl b ↦ let q : z ≡ x = ground arith in Memᴰ.tail (least-Memᴰ before ys (e ∙ ap some q))
    | inr b ↦ Memᴰ.head (ground arith)
  ]
]

take_lease-Keeps : (owner : String) (until : ℤ) → Keeps (take_lease owner until)
take_lease-Keeps owner until = record { job = λ r. refl; row = λ r. refl; bot = λ r. refl }

put_back-Keeps : (at : ℤ) (reason : String) → Keeps (put_back at reason)
put_back-Keeps at reason = record { job = λ r. refl; row = λ r. refl; bot = λ r. refl }

-- A row with a unique key moves alone.
row-Moved :
    (r : Recipient) (f : Recipient → Recipient) (s' : RecipientState) (rows : List Recipient)
    → Keeps f
    → ((x : Recipient) → (f x).state ≡ s')
    → Memᴰ r rows
    → count_where (is_row r.job_id r.idx) rows ≤ 1
    → Moved r.job_id r.state s' 1 rows (update_where (is_row r.job_id r.idx) f rows)
row-Moved r f s' rows keeps to m one = rw (update_where-narrow p q f rows alike) (
    subst (λ n. Moved r.job_id r.state s' n rows (update_where (λ x. p x && q x) f rows)) single
      (update-Moved (λ x. p x && q x) f r.job_id r.state s' rows keeps
        (λ x h.
          (eq_of_test x.job_id r.job_id (ground arith), eq_of_test x.state r.state (ground arith)))
        (λ x h. to x)))
  where
    p : Recipient → Bool
    p = is_row r.job_id r.idx

    q : Recipient → Bool
    q x = x.state == r.state

    self : p r ≡ true
    self = ground (arith, test_self r.job_id, test_self r.idx)

    alike : All (λ x. p x ≡ true → q x ≡ true) rows
    alike = All-of_unique p q rows m self (test_self r.state) one

    single : count_where (λ x. p x && q x) rows ≡ 1
    single =
        sym (count_where-narrow p q rows alike) ∙ omega (arith, one, count_where-pos p rows m self)

issue-Ensures :
    (P : Db → Type 0) (r : Recipient) (db : Db) (o : Option Recipient)
    → P db
    → Ensures (λ d. P d.0) (issue r db o)
issue-Ensures P r db none h = tt
issue-Ensures P r db (some s) h = h

module _ (db : Db) (inv : Inv db) (r : Recipient) (m : Memᴰ r db.recipients)
    (waits : is_waiting r.state ≡ true)
    (live : All (λ j. is_job r.job_id j ≡ true → is_active j.state ≡ true) db.jobs) where
  leased_books :
      (owner : String) (until now : ℤ)
      → All
          (Ledger (update_where (is_row r.job_id r.idx) (take_lease owner until) db.recipients))
          (update_where (is_job r.job_id) (count_lease r.state now) db.jobs)
  leased_books owner until now =
      All-update_where
        (λ j. Ledger db.recipients j × (is_job r.job_id j ≡ true → is_active j.state ≡ true))
        (Ledger _) (is_job r.job_id) (count_lease r.state now) db.jobs
        (λ j here l. record {
          staging = λ e. cc;
          promoted = λ e.
              Counted-lease moved j here now waits refl (l.0.promoted (ground (arith, l.1 here)));
        })
        (λ j away l. Ledger-elsewhere moved j away l.0) (All-both _ _ db.jobs inv.books live)
    where
      moved :
          Moved r.job_id r.state RecipientState.leased 1 db.recipients
            (update_where (is_row r.job_id r.idx) (take_lease owner until) db.recipients)
      moved =
          row-Moved r (take_lease owner until) RecipientState.leased db.recipients
            (take_lease-Keeps owner until) (λ x. refl) m (inv.keyed r.job_id r.idx)

  grant_lease-Inv :
      (owner : String) (now : ℤ) (lease_secs : ℕ)
      → Ensures (λ d. Inv d.0) (grant_lease owner now lease_secs r db)
  unfolding grant_lease
  grant_lease-Inv owner now lease_secs = issue-Ensures Inv r _ _ (record {
    keyed = keyed-update _ (take_lease owner _) (take_lease-Keeps owner _) db.recipients inv.keyed;
    jobs_keyed =
        jobs_keyed-update (is_job r.job_id) (count_lease r.state now) db.jobs (λ j. refl)
          inv.jobs_keyed;
    books = leased_books owner _ now;
  })

-- A lease keeps the ledger, whichever recipient it picks.
pub lease_one-Inv :
    (bot : BotId) (owner : String) (now : ℤ) (lease_secs : ℕ) (db : Db)
    → Inv db
    → Ensures (λ d. Inv d.0) (lease_one bot owner now lease_secs db)
unfolding lease_one candidate is_ready
lease_one-Inv bot owner now lease_secs db inv = elim (Option-cases (candidate bot now db)) [
  | inl e ↦ rw (e, lease_one) inv
  | inr (r, e) ↦
      let (m, ready) =
        keep_where-Memᴰ (is_ready bot now db.jobs) db.recipients (least-Memᴰ row_before _ e) in
      let (j, found, here) =
        any-Memᴰ (λ j. is_job r.job_id j && is_active j.state) db.jobs (ground arith) in
      rw (e, lease_one)
        (grant_lease-Inv db inv r m (ground arith)
          (All-of_unique (is_job r.job_id) (λ k. is_active k.state) db.jobs found (ground arith)
            (ground arith) (inv.jobs_keyed r.job_id))
          owner now lease_secs)
]

pub lease_batch-Inv :
    (env : Env) (bot : BotId) (owner : String) (now : ℤ) (lease_secs limit : ℕ) (db : Db)
    → Inv db
    → Inv (lease_batch env bot owner now lease_secs limit db).0
unfolding lease_batch
lease_batch-Inv env bot owner now lease_secs limit db inv = elim (Bool-cases (limit == 1)) [
  | inl e ↦
      rw (e, lease_batch)
        (transaction-Ensures Inv env (lease_one bot owner now lease_secs) db inv
          (lease_one-Inv bot owner now lease_secs db inv))
  | inr e ↦ rw (e, lease_batch) inv
]

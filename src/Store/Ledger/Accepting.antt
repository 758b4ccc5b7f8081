-- ===== src/Store/Ledger/Accepting.antt =====
-- Accepting a job (`BeginAcceptJob`, `InsertRecipientBatch` and `PromoteJob` of src/store/writer.rs)
-- keeps the ledger.
use telegram_bot_delivery_en.Base.{
  ℕ, ◌≤◌, ◌≡◌, refl, sym, subst, String, true, false, not, ◌&&◌, List, [], ◌∷◌, ◌++◌, Option, ℤ,
  arith, ◌==◌, nat_eq, string_eq, ltb, ◌^◌, any, count_where, All, All-append, All-map, All-both,
  eq_of_test, test_sym, Bool-cases, inl, inr, count_where-append, count-absent, length,
}
use telegram_bot_delivery_en.Domain.{
  BotId, JobId, RecipientState, same_state, recipient_state_eq, job_state_eq,
}
use telegram_bot_delivery_en.Store.Tables.{
  Job, Recipient, Db, ok, ◌>>=◌, count, Env, is_job, of_job, is_row,
}
use telegram_bot_delivery_en.Store.Sql.{tally}
use telegram_bot_delivery_en.Store.Accept.{
  RecipientInsert, new_job, insert_job, begin_accept_job, new_recipient, insert_row, insert_rows,
  insert_recipient_batch,
}
use telegram_bot_delivery_en.Store.Ledger.Books.{is_staging, Ledger, Inv}
use telegram_bot_delivery_en.Store.Ledger.Step.{Ledger-same}
use telegram_bot_delivery_en.Store.Ledger.Commit.{Ensures, Ensures-bind, transaction-Ensures}

-- A new job that no recipient refers to.
insert_job-Inv :
    (j : Job) (db : Db)
    → is_staging j ≡ true
    → tally j.job_id RecipientState.leased db.recipients ≡ 0
    → Inv db
    → Ensures (λ d. Inv d.0) (insert_job j db)
unfolding insert_job
insert_job-Inv j db new fresh inv = elim (Bool-cases (not (ltb j.config_version (2 ^ 63)))) [
  | inl e ↦ rw (e, insert_job) tt
  | inr e ↦ elim (Bool-cases (any (is_job j.job_id) db.jobs)) [
    | inl f ↦ rw (e, f, insert_job) tt
    | inr f ↦ elim (Bool-cases (not (any (λ b. b.bot_id == j.bot_id) db.bots))) [
      | inl g ↦ rw (e, f, g, insert_job) tt
      | inr g ↦
          rw (e, f, g, insert_job)
            (record {
              keyed = inv.keyed;
              jobs_keyed = λ id. elim (Bool-cases (j.job_id == id)) [
                | inl h ↦
                    let old = count-absent (is_job j.job_id) db.jobs f in
                    rw (sym (eq_of_test j.job_id id h)) (
                      omega (
                        arith,
                        count_where-append (is_job j.job_id) db.jobs (j ∷ []),
                        one_row j j.job_id,
                      ))
                | inr h ↦
                    let none_new : count_where (is_job id) (j ∷ []) ≡ 0 = ground arith in
                    omega
                      (arith, count_where-append (is_job id) db.jobs (j ∷ []), inv.jobs_keyed id)
              ];
              books =
                  All-append (Ledger db.recipients) db.jobs (j ∷ []) inv.books
                    (record { staging = λ _. fresh; promoted = λ h. absurd (ground arith) }, tt);
            })
    ]
  ]
]
  where
    one_row : (j : Job) (id : JobId) → count_where (is_job id) (j ∷ []) ≤ 1
    one_row j id = ground arith

pub begin_accept_job-Inv :
    (env : Env) (id : JobId) (bot : BotId) (method policy : String) (version : ℕ)
    (deadline : Option ℤ) (db : Db)
    → tally id RecipientState.leased db.recipients ≡ 0
    → Inv db
    → Inv (begin_accept_job env id bot method policy version deadline db).0
unfolding begin_accept_job
begin_accept_job-Inv env id bot method policy version deadline db fresh inv =
    transaction-Ensures Inv env (insert_job (new_job id bot method policy version deadline)) db inv
      (insert_job-Inv (new_job id bot method policy version deadline) db refl fresh inv)

-- The jobs of the id are still accepting.
abbrev pub IsStaged : JobId → Db → Type 0
IsStaged id db = All (λ j. is_job id j ≡ true → is_staging j ≡ true) db.jobs

module _ (id : JobId) (row : RecipientInsert) (rows : List Recipient) (j : Job) where
  appended-Ledger :
      (is_job id j ≡ true → is_staging j ≡ true)
      → Ledger rows j
      → Ledger (rows ++ (new_recipient id row ∷ [])) j
  appended-Ledger staged l = elim (Bool-cases (is_job id j)) [
    | inl e ↦ record {
      staging = λ h. ground (
        arith,
        l.staging h,
        count_where-append (λ r. of_job j.job_id r && same_state r.state RecipientState.leased) rows
            (new_recipient id row ∷ []),
      );
      promoted = λ h. absurd (ground (arith, staged e));
    }
    | inr e ↦
        let away : (j.job_id == id) ≡ false = e in
        Ledger-same rows (rows ++ (new_recipient id row ∷ [])) j
          (λ t. ground (
            arith,
            test_sym id j.job_id,
            count_where-append (λ r. of_job j.job_id r && same_state r.state t) rows
                (new_recipient id row ∷ []),
          ))
          (ground (
            arith,
            test_sym id j.job_id,
            count_where-append (of_job j.job_id) rows (new_recipient id row ∷ []),
          ))
          (ground (
            arith,
            test_sym id j.job_id,
            count_where-append (λ r. of_job j.job_id r && not (r.bot_id == j.bot_id)) rows
                (new_recipient id row ∷ []),
          ))
          l
  ]

appended_keyed :
    (id : JobId) (row : RecipientInsert) (rows : List Recipient)
    → any (is_row id row.idx) rows ≡ false
    → ((k : JobId) (i : ℕ) → count_where (is_row k i) rows ≤ 1)
    → (k : JobId) (i : ℕ) → count_where (is_row k i) (rows ++ (new_recipient id row ∷ [])) ≤ 1
appended_keyed id row rows absent one k i =
    let split = count_where-append (is_row k i) rows (new_recipient id row ∷ []) in
    elim (Bool-cases (is_row k i (new_recipient id row))) [
      | inl e ↦
          let same_id : id ≡ k = eq_of_test id k (ground arith) in
          let same_idx : row.idx ≡ i = eq_of_test row.idx i (ground arith) in
          let none_old : count_where (is_row k i) rows ≡ 0 =
            subst (λ x. count_where (is_row x i) rows ≡ 0) same_id
              (subst (λ x. count_where (is_row id x) rows ≡ 0) same_idx
                (count-absent (is_row id row.idx) rows absent)) in
          ground arith
      | inr e ↦ let old = one k i in ground arith
    ]

insert_row-Inv :
    (id : JobId) (row : RecipientInsert) (db : Db)
    → Inv db × IsStaged id db
    → Ensures (λ d. Inv d × IsStaged id d) (insert_row id row db)
unfolding insert_row
insert_row-Inv id row db (inv, staged) = elim (Bool-cases (any (is_row id row.idx) db.recipients)) [
  | inl e ↦ rw (e, insert_row) tt
  | inr e ↦ elim (Bool-cases (not (any (is_job id) db.jobs))) [
    | inl f ↦ rw (e, f, insert_row) tt
    | inr f ↦
        rw (e, f, insert_row)
          (
            record {
              keyed = appended_keyed id row db.recipients e inv.keyed;
              jobs_keyed = inv.jobs_keyed;
              books =
                  All-map _ (Ledger _) db.jobs
                    (λ j b. appended-Ledger id row db.recipients j b.0 b.1)
                    (All-both (λ j. is_job id j ≡ true → is_staging j ≡ true) (Ledger db.recipients)
                      db.jobs staged inv.books);
            },
            staged,
          )
  ]
]

insert_rows-Inv :
    (id : JobId) (rows : List RecipientInsert) (db : Db)
    → Inv db × IsStaged id db
    → Ensures (λ d. Inv d × IsStaged id d) (insert_rows id rows db)
unfolding insert_rows
insert_rows-Inv id [] db h = h
insert_rows-Inv id (row ∷ rows) db h =
    Ensures-bind (λ d. Inv d × IsStaged id d) (λ d. Inv d × IsStaged id d) (insert_row id row db)
      (insert_rows id rows) (insert_row-Inv id row db h) (insert_rows-Inv id rows)

pub insert_recipient_batch-Inv :
    (env : Env) (id : JobId) (rows : List RecipientInsert) (db : Db)
    → IsStaged id db
    → Inv db
    → Inv (insert_recipient_batch env id rows db).0
unfolding insert_recipient_batch
insert_recipient_batch-Inv env id rows db staged inv = elim (Bool-cases (ltb 1000 (length rows))) [
  | inl e ↦ rw (e, insert_recipient_batch) inv
  | inr e ↦
      rw (e, insert_recipient_batch)
        (transaction-Ensures Inv env
          (λ d. insert_rows id rows d >>= λ d'. ok (d', count (length rows))) db inv
          (Ensures-bind (λ d. Inv d × IsStaged id d) (λ d. Inv d.0) (insert_rows id rows db) _
            (insert_rows-Inv id rows db (inv, staged)) (λ d h. h.0)))
]

-- ===== src/Store/Ledger/Commit.antt =====
-- Transactions: an invariant of the operation goes through.
use telegram_bot_delivery_en.Base.{◌≡◌, refl, subst, ◌⊎◌, inl, inr, arith, Bool-cases}
use telegram_bot_delivery_en.Store.Tables.{Db, Result, ok, err, StoreError, ◌>>=◌, Env, transaction}

-- What holds of a result if there is one.
abbrev pub Ensures {ℓ} : {A : Type ℓ} → (A → Type 0) → Result A → Type 0
Ensures P (ok a) = P a
Ensures P (err e) = Unit

pub Result-cases {ℓ} :
    {A : Type ℓ} (r : Result A) → ((a : A) × (r ≡ ok a)) ⊎ ((e : StoreError) × (r ≡ err e))
Result-cases (ok a) = inl (a, refl)
Result-cases (err e) = inr (e, refl)

module _ {ℓ} {A : Type ℓ} where
  pub transaction-Ensures :
      (P : Db → Type 0) (env : Env) (operation : Db → Result (Db × A)) (db : Db)
      → P db
      → Ensures (λ r. P r.0) (operation db)
      → P (transaction env operation db).0
  unfolding transaction
  transaction-Ensures P env operation db h k = elim (Result-cases (operation db)) [
    | inl (r, e) ↦ elim (Bool-cases env.can_commit) [
      | inl c ↦ rw (e, c, transaction) (rw e at k)
      | inr c ↦ rw (e, c, transaction) h
    ]
    | inr (x, e) ↦ rw (e, transaction) h
  ]

  -- What the operation ensures holds where the transaction went through.
  pub transaction-ok :
      (P : Db → Type 0) (env : Env) (operation : Db → Result (Db × A)) (db : Db) {a : A}
      → (transaction env operation db).1 ≡ ok a
      → Ensures (λ r. P r.0) (operation db)
      → P (transaction env operation db).0
  unfolding transaction
  transaction-ok P env operation db {a} h k = elim (Result-cases (operation db)) [
    | inl (r, e) ↦ elim (Bool-cases env.can_commit) [
      | inl c ↦ rw (e, c, transaction) (rw e at k)
      | inr c ↦ absurd (ground (arith, e))
    ]
    | inr (x, e) ↦ absurd (ground (arith, e))
  ]

  -- The same for what it ensures of its answer.
  pub transaction-answer :
      (P : A → Db → Type 0) (env : Env) (operation : Db → Result (Db × A)) (db : Db) {a : A}
      → (transaction env operation db).1 ≡ ok a
      → Ensures (λ r. P r.1 r.0) (operation db)
      → P a (transaction env operation db).0
  unfolding transaction
  transaction-answer P env operation db {a} h k = elim (Result-cases (operation db)) [
    | inl (r, e) ↦ elim (Bool-cases env.can_commit) [
      | inl c ↦
          let same : r.1 ≡ a = ground (arith, e) in
          rw (e, c, transaction) (subst (λ x. P x r.0) same (rw e at k))
      | inr c ↦ absurd (ground (arith, e))
    ]
    | inr (x, e) ↦ absurd (ground (arith, e))
  ]

pub Ensures-bind {ℓ κ} :
    {A : Type ℓ} {B : Type κ} (P : A → Type 0) (Q : B → Type 0) (m : Result A) (f : A → Result B)
    → Ensures P m
    → ((a : A) → P a → Ensures Q (f a))
    → Ensures Q (m >>= f)
Ensures-bind P Q (ok a) f h k = k a h
Ensures-bind P Q (err e) f h k = tt

pub Ensures-after {ℓ κ} :
    {A : Type ℓ} {B : Type κ} (Q : B → Type 0) (m : Result A) (f : A → Result B)
    → ((a : A) → Ensures Q (f a))
    → Ensures Q (m >>= f)
Ensures-after Q (ok a) f k = k a
Ensures-after Q (err e) f k = tt

pub Ensures-weaken {ℓ} :
    {A : Type ℓ} (P Q : A → Type 0) (m : Result A)
    → Ensures P m
    → ((a : A) → P a → Q a)
    → Ensures Q m
Ensures-weaken P Q (ok a) h k = k a h
Ensures-weaken P Q (err e) h k = tt

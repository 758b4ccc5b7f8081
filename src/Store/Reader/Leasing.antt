-- ===== src/Store/Reader/Leasing.antt =====
-- The `ReadyBots` query (crates/telegram-bulk-delivery/src/store/reader.rs) and the `LeaseBatch`
-- command: the scheduler is told of the bots for which a lease would find a recipient.
use telegram_bot_delivery_en.Base.{
  ◌≡◌, refl, sym, ◌∙◌, Bool, true, ◌&&◌, List, [], ◌∷◌, ℤ, ◌==◌, nat_eq, string_eq, any, keep_where,
  inl, inr, arith, Bool-cases, Option-cases, eq_of_test, any-map, is_some,
}
use telegram_bot_delivery_en.Domain.{BotId}
use telegram_bot_delivery_en.Store.Tables.{Recipient, Db}
use telegram_bot_delivery_en.Store.Sql.{row_before, least}
use telegram_bot_delivery_en.Store.Lease.{is_ready, candidate}
use telegram_bot_delivery_en.Store.Reader.Queries.{ready_bots, is_due, distinct_bots}

any-distinct_bots :
    (bot : BotId) (rs : List Recipient)
    → any (λ b. b == bot) (distinct_bots rs) ≡ any (λ r. r.bot_id == bot) rs
unfolding distinct_bots
any-distinct_bots bot [] = refl
any-distinct_bots bot (r ∷ rs) = elim (Bool-cases (any (λ b. b == r.bot_id) (distinct_bots rs))) [
  | inl e ↦ elim (Bool-cases (r.bot_id == bot)) [
    | inl h ↦ let q : r.bot_id ≡ bot = eq_of_test r.bot_id bot h in rw (e, h) (rw (← q) e)
    | inr h ↦ rw (e, h) (any-distinct_bots bot rs)
  ]
  | inr e ↦ rw (e, any-distinct_bots bot rs) refl
]

any-keep_where {ℓ} :
    {A : Type ℓ} (q p : A → Bool) (xs : List A) → any q (keep_where p xs) ≡ any (λ x. q x && p x) xs
any-keep_where q p [] = refl
any-keep_where q p (x ∷ xs) = ground (arith, any-keep_where q p xs)

is_some-least {ℓ} :
    {A : Type ℓ} (before : A → A → Bool) (xs : List A)
    → is_some (least before xs) ≡ any (λ _. true) xs
unfolding least
is_some-least before [] = refl
is_some-least before (x ∷ xs) = elim (Option-cases (least before xs)) [
  | inl e ↦ rw (least, e) refl
  | inr (y, e) ↦ rw (least, e) refl
]

any-alike {ℓ} :
    {A : Type ℓ} (q p : A → Bool) (xs : List A) → ((x : A) → q x ≡ p x) → any q xs ≡ any p xs
any-alike q p [] h = refl
any-alike q p (x ∷ xs) h = ground (arith, h x, any-alike q p xs h)

-- A bot is among the ready ones exactly when a lease for it would find a recipient.
pub ready_bots-candidate :
    (now : ℤ) (bot : BotId) (db : Db)
    → any (λ b. b.0 == bot) (ready_bots now db) ≡ is_some (candidate bot now db)
unfolding ready_bots candidate is_ready is_due
ready_bots-candidate now bot db =
    let due_rows = keep_where (is_due now db.jobs) db.recipients in
    any-map (λ b. b.0 == bot) _ (distinct_bots due_rows)
    ∙ any-distinct_bots bot due_rows
    ∙ any-keep_where (λ r. r.bot_id == bot) (is_due now db.jobs) db.recipients
    ∙ sym (
        is_some-least row_before (keep_where (is_ready bot now db.jobs) db.recipients)
        ∙ any-keep_where (λ _. true) (is_ready bot now db.jobs) db.recipients
        ∙ any-alike (λ r. true && is_ready bot now db.jobs r)
            (λ r. r.bot_id == bot && is_due now db.jobs r) db.recipients (λ r. ground arith))

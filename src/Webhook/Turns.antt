-- ===== src/Webhook/Turns.antt =====
-- Whether a round of webhook delivery comes to its end (`pump_at` of
-- crates/telegram-bulk-delivery/src/webhook.rs).
use telegram_bot_delivery_en.Base.{
  ℕ, zero, suc, ◌+◌, ◌-◌, ◌^◌, ◌≤◌, ◌<◌, ◌≡◌, refl, ap, inl, inr, Bool, true, false, ◌&&◌, List, [],
  ◌∷◌, Option, none, some, String, ℤ, pos, ◌≤ℤ◌, leb, ◌==◌, string_eq, nat_eq, any, take, map,
  keep_where, All, All-map, All-append, All-keep_where, arith, Bool-cases, Option-cases, test_self,
}
use telegram_bot_delivery_en.Domain.{EventId}
use telegram_bot_delivery_en.Store.Tables.{WebhookEvent, WebhookPage, Db, ok, Env, transaction}
use telegram_bot_delivery_en.Store.Sql.{sorted, insert_sorted}
use telegram_bot_delivery_en.Store.Ledger.Commit.{Result-cases}
use telegram_bot_delivery_en.Store.Webhooks.{
  WebhookMark, WebhookTerminal, is_event, log_delivery, count_webhook_attempt, mark_terminal,
  mark_webhook,
}
use telegram_bot_delivery_en.Store.Reader.Rows.{WebhookPageRow}
use telegram_bot_delivery_en.Store.Reader.Queries.{
  pending_webhook_pages, is_pending, events_of, join_events, page_before, page_row,
}
use telegram_bot_delivery_en.Store.Reader.Gating.{Defers, DefersTo}
use telegram_bot_delivery_en.Webhook.Deliver.{DeliveryEnv, Delivery, deliver_one}
use telegram_bot_delivery_en.Webhook.Outcomes.{
  is_recorded, IsMarked, RecordsMark, deliver_one-Marks, deliver_one-recorded,
}
use telegram_bot_delivery_en.Webhook.Pump.{
  max_pages_per_pump, is_ok, record_page_attempt, pump_rows, pump_round, pump_at,
}

-- The rows that the query returns are of events that exist.
abbrev HasEvent : List WebhookEvent → WebhookPageRow → Type 0
HasEvent events row = any (is_event row.event_id) events ≡ true

All-insert {ℓ} :
    {A : Type ℓ} (P : A → Type 0) (before : A → A → Bool) (x : A) (ys : List A)
    → P x
    → All P ys
    → All P (insert_sorted before x ys)
unfolding insert_sorted
All-insert P before x [] p a = (p, tt)
All-insert P before x (y ∷ ys) p a = elim (Bool-cases (before y x)) [
  | inl e ↦ rw e (a.0, All-insert P before x ys p a.1)
  | inr e ↦ rw e (p, a)
]

All-sorted {ℓ} :
    {A : Type ℓ} (P : A → Type 0) (before : A → A → Bool) (xs : List A)
    → All P xs
    → All P (sorted before xs)
unfolding sorted
All-sorted P before [] a = tt
All-sorted P before (x ∷ xs) a =
    All-insert P before x (sorted before xs) a.0 (All-sorted P before xs a.1)

All-take {ℓ} : {A : Type ℓ} (P : A → Type 0) (n : ℕ) (xs : List A) → All P xs → All P (take n xs)
All-take P zero xs a = tt
All-take P (suc n) [] a = tt
All-take P (suc n) (x ∷ xs) a = (a.0, All-take P n xs a.1)

All-mapped {ℓ κ} :
    {A : Type ℓ} {B : Type κ} (P : B → Type 0) (f : A → B) (xs : List A)
    → All (λ x. P (f x)) xs
    → All P (map f xs)
All-mapped P f [] a = tt
All-mapped P f (x ∷ xs) a = (a.0, All-mapped P f xs a.1)

abbrev Known : List WebhookEvent → WebhookEvent × WebhookPage → Type 0
Known events x = any (is_event x.0.event_id) events ≡ true

Known-more :
    (e : WebhookEvent) (events : List WebhookEvent) (xs : List (WebhookEvent × WebhookPage))
    → All (Known events) xs
    → All (Known (e ∷ events)) xs
Known-more e events xs a = All-map _ _ xs (λ x k. ground (arith, k)) a

events_of-Known :
    (events : List WebhookEvent) (p : WebhookPage) → All (Known events) (events_of events p)
unfolding events_of
events_of-Known [] p = tt
events_of-Known (e ∷ events) p =
    let rest = Known-more e events (events_of events p) (events_of-Known events p) in
    elim (Bool-cases (e.event_id == p.event_id)) [
      | inl q ↦ rw q (ground (arith, test_self e.event_id), rest)
      | inr q ↦ rw q rest
    ]

join_events-Known :
    (events : List WebhookEvent) (pages : List WebhookPage)
    → All (Known events) (join_events events pages)
unfolding join_events
join_events-Known events [] = tt
join_events-Known events (p ∷ pages) =
    All-append (Known events) _ _ (events_of-Known events p) (join_events-Known events pages)

pending-HasEvent :
    (now : ℤ) (db : Db) → All (HasEvent db.webhook_events) (pending_webhook_pages now db)
unfolding pending_webhook_pages page_row
pending-HasEvent now db =
    let kept =
      keep_where (is_pending now db.webhook_pages)
        (join_events db.webhook_events db.webhook_pages) in
    All-mapped (HasEvent db.webhook_events) _ (take 16 (sorted page_before kept)) (
      All-take (Known db.webhook_events) 16 (sorted page_before kept) (
        All-sorted (Known db.webhook_events) page_before kept (
          All-keep_where (Known db.webhook_events) _ _
            (join_events-Known db.webhook_events db.webhook_pages))))

log_delivery-ok :
    (id : EventId) (m : WebhookMark) (db : Db)
    → any (is_event id) db.webhook_events ≡ true
    → (db' : Db) × (log_delivery id m db ≡ ok db')
unfolding log_delivery
log_delivery-ok id m db h =
    let logged =
      any (λ d. d.event_id == id && d.page_index == m.page && d.attempt == m.attempt)
        db.webhook_deliveries in
    elim (Result-cases (log_delivery id m db)) [
      | inl found ↦ found
      | inr (x, e) ↦ elim (Bool-cases logged) [
        | inl l ↦ absurd (ground arith)
        | inr l ↦ absurd (ground arith)
      ]
    ]

mark_terminal-ok :
    (now : ℤ) (id : EventId) (m : WebhookMark) (t : Option WebhookTerminal) (db : Db)
    → DefersTo now t m.next_attempt_unix
    → (db' : Db) × (mark_terminal id m t db ≡ ok db')
unfolding mark_terminal DefersTo
mark_terminal-ok now id m (some WebhookTerminal.delivered) db h = (_, refl)
mark_terminal-ok now id m (some (WebhookTerminal.exhausted error)) db h = (_, refl)
mark_terminal-ok now id m none db h = elim (Option-cases m.next_attempt_unix) [
  | inl e ↦ absurd (rw e at h)
  | inr (at, e) ↦ elim (Result-cases (mark_terminal id m none db)) [
    | inl found ↦ found
    | inr (x, f) ↦ absurd (ground arith)
  ]
]

-- The writer commits, so the mark of an existing event is recorded.
mark_webhook-ok :
    (writer : Env) (now : ℤ) (id : EventId) (m : WebhookMark) (db : Db)
    → writer.can_commit ≡ true
    → any (is_event id) db.webhook_events ≡ true
    → Defers now m
    → is_ok (mark_webhook writer id m db).1 ≡ true
unfolding mark_webhook transaction
mark_webhook-ok writer now id m db commits known h =
    let (logged, e) = log_delivery-ok id m db known in
    let (marked, f) = mark_terminal-ok now id m m.terminal (count_webhook_attempt id m logged) h in
    rw (mark_webhook, transaction, e, f, commits) refl

-- Every client can be built.
abbrev pub ClientsBuild : DeliveryEnv → Type 0
ClientsBuild env = (host : String) (ips : _) → env.build_error host ips ≡ none

module _ (writer : Env) (env : DeliveryEnv) (now : ℤ) where
  -- The first row of a turn is handled.
  record_page_attempt-handled :
      (row : WebhookPageRow) (db : Db)
      → now ≤ℤ pos (2 ^ 63 - 2)
      → writer.can_commit ≡ true
      → ClientsBuild env
      → HasEvent db.webhook_events row
      → (record_page_attempt writer env now row.event_id (deliver_one env row now) db).1 ≡ true
  unfolding record_page_attempt RecordsMark IsMarked is_recorded
  record_page_attempt-handled row db soon commits build known =
      go (deliver_one env row now) (deliver_one-recorded env row now build)
        (deliver_one-Marks env row now soon)
    where
      go :
          (d : Delivery)
          → is_recorded d ≡ true
          → RecordsMark env row now d
          → (record_page_attempt writer env now row.event_id d db).1 ≡ true
      go (Delivery.recorded post m) r orderly =
          mark_webhook-ok writer now row.event_id m db commits known orderly.2
      go (Delivery.broken e) r orderly = absurd (ground arith)

  -- A turn with a permit and a row handles one row at least.
  pump_rows-handled :
      (permits : ℕ) (row : WebhookPageRow) (rows : List WebhookPageRow) (db : Db)
      → now ≤ℤ pos (2 ^ 63 - 2)
      → writer.can_commit ≡ true
      → ClientsBuild env
      → HasEvent db.webhook_events row
      → 0 < (pump_rows writer env now (take (suc permits) (row ∷ rows)) db).1
  unfolding pump_rows
  pump_rows-handled permits row rows db soon commits build known =
      ground (arith, record_page_attempt-handled row db soon commits build known)

  unfoldable pub Finishes : Option (Db × ℕ) → Type 0
  Finishes o = (r : Db × ℕ) × (o ≡ some r)

  pump_round-Finishes :
      (permits : ℕ) (next : ℕ → Db → Option (Db × ℕ)) (handled : ℕ) (db : Db)
      (rows : List WebhookPageRow)
      → now ≤ℤ pos (2 ^ 63 - 2)
      → writer.can_commit ≡ true
      → ClientsBuild env
      → All (HasEvent db.webhook_events) rows
      → ((handled' : ℕ) (db' : Db) → handled < handled' → Finishes (next handled' db'))
      → Finishes (pump_round writer env now (suc permits) next handled db rows)
  unfolding pump_round Finishes
  pump_round-Finishes permits next handled db [] soon commits build known rest = (_, refl)
  pump_round-Finishes permits next handled db (row ∷ rows) soon commits build known rest =
      rest _ _ (omega (arith, pump_rows-handled permits row rows db soon commits build known.0))

  -- With a permit for each turn, a writer that commits, clients that can be built and a time below
  -- the end of i64, the pump returns: after 201 turns at most, whatever the tables and the receivers.
  pub pump_at-Finishes :
      (permits fuel handled : ℕ) (db : Db)
      → now ≤ℤ pos (2 ^ 63 - 2)
      → writer.can_commit ≡ true
      → ClientsBuild env
      → 201 ≤ fuel + handled
      → 0 < fuel
      → Finishes (pump_at writer env now (suc permits) fuel handled db)
  unfolding pump_at Finishes
  pump_at-Finishes permits zero handled db soon commits build enough some_fuel =
      absurd (omega arith)
  pump_at-Finishes permits (suc fuel) handled db soon commits build enough some_fuel =
      elim (Bool-cases (leb max_pages_per_pump handled)) [
        | inl e ↦ ((db, handled), rw e refl)
        | inr e ↦ rw e (
            pump_round-Finishes permits _ handled db (pending_webhook_pages now db) soon commits
              build (pending-HasEvent now db)
              (λ handled' db' more.
                pump_at-Finishes permits fuel handled' db' soon commits build (omega arith)
                  (ground arith)))
      ]

  -- The writer refuses every mark.
  record_page_attempt-refused :
      (row : WebhookPageRow) (d : Delivery) (db : Db)
      → writer.can_commit ≡ false
      → record_page_attempt writer env now row.event_id d db ≡ (db, false)
  unfolding record_page_attempt mark_webhook transaction
  record_page_attempt-refused row (Delivery.broken e) db refuses = refl
  record_page_attempt-refused row (Delivery.recorded post m) db refuses =
      elim (Result-cases (log_delivery row.event_id m db)) [
        | inr (x, e) ↦ rw (mark_webhook, transaction, e) refl
        | inl (logged, e) ↦
            let counted = count_webhook_attempt row.event_id m logged in
            elim (Result-cases (mark_terminal row.event_id m m.terminal counted)) [
              | inr (x, f) ↦ rw (mark_webhook, transaction, e, f) refl
              | inl (marked, f) ↦ rw (mark_webhook, transaction, e, f, refuses) refl
            ]
      ]

  pump_rows-refused :
      (rows : List WebhookPageRow) (db : Db)
      → writer.can_commit ≡ false
      → pump_rows writer env now rows db ≡ (db, 0)
  unfolding pump_rows
  pump_rows-refused [] db refuses = refl
  pump_rows-refused (row ∷ rows) db refuses =
      rw
        (
          record_page_attempt-refused row (deliver_one env row now) db refuses,
          pump_rows-refused rows db refuses,
        )
        (ap (λ n. (db, n)) (omega arith))

  -- While the writer cannot commit and a page is eligible, the pump does not return, however many
  -- turns it takes: the same pages are attempted again at the same time in each.
  pub pump_at-stuck :
      (permits fuel : ℕ) (db : Db) (row : WebhookPageRow) (rows : List WebhookPageRow)
      → writer.can_commit ≡ false
      → pending_webhook_pages now db ≡ row ∷ rows
      → pump_at writer env now permits fuel 0 db ≡ none
  unfolding pump_at pump_round
  pump_at-stuck permits zero db row rows refuses e = refl
  pump_at-stuck permits (suc fuel) db row rows refuses e =
      rw (e, pump_rows-refused (take permits (row ∷ rows)) db refuses)
        (pump_at-stuck permits fuel db row rows refuses e)

-- ===== src/Store/Reader/Gating.antt =====
-- The `PendingWebhookPages` query (crates/telegram-bulk-delivery/src/store/reader.rs) after a
-- `MarkWebhook` command: which pages the deliverer is given again.
use telegram_bot_delivery_en.Base.{
  ℕ, zero, suc, ◌≡◌, refl, ◌∙◌, ◌⊎◌, inl, inr, Bool, true, false, not, ◌&&◌, ◌||◌, List, [], ◌∷◌,
  Option, none, some, ℤ, leb_ℤ, ◌==◌, nat_eq, string_eq, any, keep_where, update_where, take, All,
  All-append, arith, Bool-cases, Option-cases, eq_of_test, any-map,
}
use telegram_bot_delivery_en.Domain.{EventId}
use telegram_bot_delivery_en.Store.Tables.{
  WebhookEvent, WebhookPage, Db, Result, ok, ◌>>=◌, WriterResult, done, Env,
}
use telegram_bot_delivery_en.Store.Sql.{sorted, insert_sorted}
use telegram_bot_delivery_en.Store.Webhooks.{
  WebhookMark, WebhookTerminal, is_event, is_page, log_delivery, count_webhook_attempt,
  deliver_page, all_delivered, mark_delivered, mark_exhausted, mark_retry, mark_terminal,
  mark_webhook,
}
use telegram_bot_delivery_en.Store.Ledger.Commit.{Ensures, Result-cases, transaction-ok}
use telegram_bot_delivery_en.Store.Reader.Rows.{WebhookPageRow}
use telegram_bot_delivery_en.Store.Reader.Queries.{
  is_open, null_or_due, is_pending, events_of, join_events, page_before, page_row,
  pending_webhook_pages,
}

-- What the deliverer is given for the page.
abbrev pub is_row_of : EventId → ℕ → WebhookPageRow → Bool
is_row_of id page w = w.event_id == id && w.page_index == page

-- The rows of a page are out of turn, or the event is closed.
abbrev pub page_waits : ℤ → WebhookPage → Bool
page_waits now p = p.delivered || not (null_or_due p.next_attempt_unix now)

pub PagesWait : ℤ → EventId → ℕ → List WebhookPage → Type 0
PagesWait now id page = All (λ p. is_page id page p ≡ true → page_waits now p ≡ true)

pub EventsClosed : EventId → List WebhookEvent → Type 0
EventsClosed id = All (λ e. is_event id e ≡ true → is_open e.state ≡ false)

any-insert {ℓ} :
    {A : Type ℓ} (q : A → Bool) (before : A → A → Bool) (x : A) (ys : List A)
    → any q (insert_sorted before x ys) ≡ q x || any q ys
unfolding insert_sorted
any-insert q before x [] = refl
any-insert q before x (y ∷ ys) = ground (arith, any-insert q before x ys)

any-sorted {ℓ} :
    {A : Type ℓ} (q : A → Bool) (before : A → A → Bool) (xs : List A)
    → any q (sorted before xs) ≡ any q xs
unfolding sorted
any-sorted q before [] = refl
any-sorted q before (x ∷ xs) =
    ground (arith, any-insert q before x (sorted before xs), any-sorted q before xs)

any-take {ℓ} :
    {A : Type ℓ} (q : A → Bool) (n : ℕ) (xs : List A) → any q xs ≡ false → any q (take n xs) ≡ false
any-take q zero xs h = refl
any-take q (suc n) [] h = refl
any-take q (suc n) (x ∷ xs) h = ground (arith, any-take q n xs)

absent-keep_where {ℓ} :
    {A : Type ℓ} (q p : A → Bool) (xs : List A)
    → All (λ x. q x ≡ true → p x ≡ false) xs
    → any q (keep_where p xs) ≡ false
absent-keep_where q p [] a = refl
absent-keep_where q p (x ∷ xs) a = ground (arith, a.0, absent-keep_where q p xs a.1)

module _ (now : ℤ) (id : EventId) (page : ℕ) (pages : List WebhookPage) where
  Shut : WebhookEvent × WebhookPage → Type 0
  Shut x = (x.0.event_id == id && x.1.page_index == page) ≡ true → is_pending now pages x ≡ false

  events_of-Shut :
      (es : List WebhookEvent) (p : WebhookPage)
      → ((is_page id page p ≡ true → page_waits now p ≡ true) ⊎ EventsClosed id es)
      → All Shut (events_of es p)
  unfolding events_of EventsClosed Shut is_pending
  events_of-Shut [] p h = tt
  events_of-Shut (e ∷ es) p h = elim (Bool-cases (e.event_id == p.event_id)) [
    | inr q ↦ rw q (events_of-Shut es p (later e es p h))
    | inl q ↦
        let same : e.event_id ≡ p.event_id = eq_of_test e.event_id p.event_id q in
        rw q (shut e p h same, events_of-Shut es p (later e es p h))
  ]
    where
      later :
          (e : WebhookEvent) (es : List WebhookEvent) (p : WebhookPage)
          → ((is_page id page p ≡ true → page_waits now p ≡ true) ⊎ EventsClosed id (e ∷ es))
          → (is_page id page p ≡ true → page_waits now p ≡ true) ⊎ EventsClosed id es
      later e es p (inl w) = inl w
      later e es p (inr c) = inr c.1

      shut :
          (e : WebhookEvent) (p : WebhookPage)
          → ((is_page id page p ≡ true → page_waits now p ≡ true) ⊎ EventsClosed id (e ∷ es))
          → e.event_id ≡ p.event_id
          → Shut (e, p)
      shut e p (inl w) same t =
          let here : is_page id page p ≡ true = rw (← same) t in ground (arith, w here)
      shut e p (inr c) same t = ground (arith, c.0)

  join_events-Shut :
      (es : List WebhookEvent) (ps : List WebhookPage)
      → PagesWait now id page ps ⊎ EventsClosed id es
      → All Shut (join_events es ps)
  unfolding join_events PagesWait
  join_events-Shut es [] h = tt
  join_events-Shut es (p ∷ ps) (inl w) =
      All-append Shut _ _ (events_of-Shut es p (inl w.0)) (join_events-Shut es ps (inl w.1))
  join_events-Shut es (p ∷ ps) (inr c) =
      All-append Shut _ _ (events_of-Shut es p (inr c)) (join_events-Shut es ps (inr c))

any-page_row :
    (id : EventId) (page : ℕ) (now : ℤ) (db : Db)
    → PagesWait now id page db.webhook_pages ⊎ EventsClosed id db.webhook_events
    → any (is_row_of id page) (pending_webhook_pages now db) ≡ false
unfolding pending_webhook_pages page_row Shut
any-page_row id page now db h =
    let q : WebhookEvent × WebhookPage → Bool = λ x. x.0.event_id == id && x.1.page_index == page in
    let shut = join_events-Shut now id page db.webhook_pages db.webhook_events db.webhook_pages h in
    let kept =
      keep_where (is_pending now db.webhook_pages)
        (join_events db.webhook_events db.webhook_pages) in
    any-map (is_row_of id page) _ (take 16 (sorted page_before kept))
    ∙ any-take q 16 (sorted page_before kept)
        (any-sorted q page_before kept ∙ absent-keep_where q _ _ shut)

-- The attempt ends the page or the event, or asks for a later time.
unfoldable pub DefersTo : ℤ → Option WebhookTerminal → Option ℤ → Type 0
DefersTo now (some t) next = Unit
DefersTo now none none = ⊥
DefersTo now none (some at) = leb_ℤ at now ≡ false

abbrev pub Defers : ℤ → WebhookMark → Type 0
Defers now m = DefersTo now m.terminal m.next_attempt_unix

-- What the page then waits for.
Waits : ℤ → EventId → ℕ → Db → Type 0
Waits now id page db = PagesWait now id page db.webhook_pages ⊎ EventsClosed id db.webhook_events

all-PagesWait :
    (now : ℤ) (id : EventId) (page : ℕ) (f : WebhookPage → WebhookPage) (ps : List WebhookPage)
    → ((p : WebhookPage) → page_waits now (f p) ≡ true)
    → PagesWait now id page (update_where (is_page id page) f ps)
unfolding PagesWait
all-PagesWait now id page f [] h = tt
all-PagesWait now id page f (p ∷ ps) h = elim (Bool-cases (is_page id page p)) [
  | inl e ↦ rw e ((λ _. h p), all-PagesWait now id page f ps h)
  | inr e ↦ rw e ((λ t. absurd (ground arith)), all-PagesWait now id page f ps h)
]

all-EventsClosed :
    (id : EventId) (f : WebhookEvent → WebhookEvent) (es : List WebhookEvent)
    → ((e : WebhookEvent) → is_open (f e).state ≡ false)
    → EventsClosed id (update_where (is_event id) f es)
unfolding EventsClosed
all-EventsClosed id f [] h = tt
all-EventsClosed id f (e ∷ es) h = elim (Bool-cases (is_event id e)) [
  | inl q ↦ rw q ((λ _. h e), all-EventsClosed id f es h)
  | inr q ↦ rw q ((λ t. absurd (ground arith)), all-EventsClosed id f es h)
]

mark_delivered-Waits :
    (now : ℤ) (id : EventId) (m : WebhookMark) (db : Db)
    → Waits now id m.page (mark_delivered id m db)
unfolding mark_delivered Waits
mark_delivered-Waits now id m db =
    let waits =
      all-PagesWait now id m.page (λ p. record p { delivered = true; next_attempt_unix = none })
        db.webhook_pages (λ p. refl) in
    elim (Bool-cases (all_delivered id (deliver_page id m.page db).webhook_pages)) [
      | inl e ↦ rw e (inl waits)
      | inr e ↦ rw e (inl waits)
    ]

mark_terminal-Waits :
    (now : ℤ) (id : EventId) (m : WebhookMark) (t : Option WebhookTerminal) (db : Db)
    → DefersTo now t m.next_attempt_unix
    → Ensures (Waits now id m.page) (mark_terminal id m t db)
unfolding mark_terminal Waits mark_exhausted mark_retry DefersTo
mark_terminal-Waits now id m (some WebhookTerminal.delivered) db h =
    mark_delivered-Waits now id m db
mark_terminal-Waits now id m (some (WebhookTerminal.exhausted error)) db h =
    inr (all-EventsClosed id _ db.webhook_events (λ v. refl))
mark_terminal-Waits now id m none db h = elim (Option-cases m.next_attempt_unix) [
  | inl n ↦ absurd (rw n at h)
  | inr (at, n) ↦
      let later : leb_ℤ at now ≡ false = rw n at h in
      rw (mark_terminal, n)
        (inl (
          all-PagesWait now id m.page (λ p. record p { next_attempt_unix = some at })
            db.webhook_pages (λ p. ground arith)))
]

recorded : EventId → WebhookMark → Db → Result (Db × WriterResult)
recorded id m db = do
  logged ← log_delivery id m db
  marked ← mark_terminal id m m.terminal (count_webhook_attempt id m logged)
  ok (marked, done)

recorded-Waits :
    (now : ℤ) (id : EventId) (m : WebhookMark) (db : Db)
    → Defers now m
    → Ensures (λ r. Waits now id m.page r.0) (recorded id m db)
unfolding recorded
recorded-Waits now id m db h = elim (Result-cases (log_delivery id m db)) [
  | inr (x, e) ↦ rw e tt
  | inl (logged, e) ↦
      let counted = count_webhook_attempt id m logged in
      let waits = mark_terminal-Waits now id m m.terminal counted h in
      elim (Result-cases (mark_terminal id m m.terminal counted)) [
        | inr (x, f) ↦ rw (e, f) tt
        | inl (marked, f) ↦ rw (e, f) (rw f at waits)
      ]
]

-- An attempt is recorded that delivers or exhausts the page, or that asks for a time after `now`.
-- Then the page is not among the pages that the deliverer is given at `now`.
pub mark_webhook-absent :
    (env : Env) (now : ℤ) (id : EventId) (m : WebhookMark) (db : Db)
    → Defers now m
    → (mark_webhook env id m db).1 ≡ ok done
    → any (is_row_of id m.page) (pending_webhook_pages now (mark_webhook env id m db).0) ≡ false
unfolding mark_webhook recorded Waits
mark_webhook-absent env now id m db h went =
    any-page_row id m.page now (mark_webhook env id m db).0 (
      transaction-ok (Waits now id m.page) env (recorded id m) db went
        (recorded-Waits now id m db h))

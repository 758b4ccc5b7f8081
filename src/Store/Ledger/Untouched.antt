-- ===== src/Store/Ledger/Untouched.antt =====
-- Commands of src/store/writer.rs that touch no counter and move no recipient keep the ledger.
use telegram_bot_delivery_en.Base.{
  ℕ, ◌≡◌, refl, String, Bool, true, not, ◌&&◌, Option, none, some, ℤ, arith, ◌==◌, nat_eq,
  string_eq, any, update_where, All-map, Bool-cases, Option-cases, inl, inr,
  count_where-update_same,
}
use telegram_bot_delivery_en.Domain.{BotId, JobId, EventId, WebhookState, same_state}
use telegram_bot_delivery_en.Store.Tables.{Bot, BotConfig, Recipient, LimiterPause, Db, Env, of_job}
use telegram_bot_delivery_en.Store.Sql.{text_is}
use telegram_bot_delivery_en.Store.Lease.{holds_lease, mark_wire_started, migrate_recipient}
use telegram_bot_delivery_en.Store.Webhooks.{
  WebhookTerminal, WebhookMark, is_event, log_delivery, count_webhook_attempt, set_job_webhook,
  mark_delivered, mark_exhausted, mark_retry, mark_terminal, mark_webhook, all_delivered,
  deliver_page,
}
use telegram_bot_delivery_en.Store.Upkeep.{
  ConfigJson, WebhookSecret, upsert_bot, config_row, put_config, upsert_config, pause_scope,
  persist_scheduler, is_config,
}
use telegram_bot_delivery_en.Store.Ledger.Books.{Ledger, Inv}
use telegram_bot_delivery_en.Store.Ledger.Moves.{Keeps, size-update, strays-update, keyed-update}
use telegram_bot_delivery_en.Store.Ledger.Step.{Ledger-same}
use telegram_bot_delivery_en.Store.Ledger.Columns.{columns-Inv}
use telegram_bot_delivery_en.Store.Ledger.Commit.{
  Ensures, Ensures-bind, Ensures-after, transaction-Ensures,
}

-- The invariant reads jobs and recipients only.
pub elsewhere-Inv :
    (db db' : Db) → db'.jobs ≡ db.jobs → db'.recipients ≡ db.recipients → Inv db → Inv db'
elsewhere-Inv db db' e f inv = record {
  keyed = rw f inv.keyed;
  jobs_keyed = rw e inv.jobs_keyed;
  books = rw (e, f) inv.books;
}

-- An update of recipients that changes neither key nor bot nor state.
recipients-Inv :
    (p : Recipient → Bool) (f : Recipient → Recipient) (db : Db)
    → Keeps f
    → ((r : Recipient) → (f r).state ≡ r.state)
    → Inv db
    → Inv (record db { recipients = update_where p f db.recipients })
recipients-Inv p f db keeps same inv = record {
  keyed = keyed-update p f keeps db.recipients inv.keyed;
  jobs_keyed = inv.jobs_keyed;
  books =
      All-map (Ledger db.recipients) (Ledger _) db.jobs
        (λ j l.
          Ledger-same db.recipients (update_where p f db.recipients) j
            (λ t.
              count_where-update_same (λ r. of_job j.job_id r && same_state r.state t) p f
                db.recipients (λ r. simp (keeps.job r, same r) refl))
            (size-update p f keeps j.job_id db.recipients)
            (strays-update p f keeps j.job_id j.bot_id db.recipients) l)
        inv.books;
}

pub mark_wire_started-Inv :
    (env : Env) (id : JobId) (idx token : ℕ) (db : Db)
    → Inv db
    → Inv (mark_wire_started env id idx token db).0
unfolding mark_wire_started
mark_wire_started-Inv env id idx token db inv = transaction-Ensures Inv env _ db inv (
    recipients-Inv (holds_lease id idx token) (λ r. record r { wire_started = true }) db
      (record { job = λ r. refl; row = λ r. refl; bot = λ r. refl }) (λ r. refl) inv)

pub migrate_recipient-Inv :
    (env : Env) (id : JobId) (idx : ℕ) (old_chat new_chat : String) (token : ℕ) (db : Db)
    → Inv db
    → Inv (migrate_recipient env id idx old_chat new_chat token db).0
unfolding migrate_recipient
migrate_recipient-Inv env id idx old_chat new_chat token db inv =
    transaction-Ensures Inv env _ db inv (
      recipients-Inv (λ r. holds_lease id idx token r && text_is r.chat_id old_chat) _ db
        (record { job = λ r. refl; row = λ r. refl; bot = λ r. refl }) (λ r. refl) inv)

pub upsert_bot-Inv : (env : Env) (b : Bot) (db : Db) → Inv db → Inv (upsert_bot env b db).0
unfolding upsert_bot
upsert_bot-Inv env b db inv =
    transaction-Ensures Inv env _ db inv
      (elim (Bool-cases (any (λ c. c.bot_id == b.bot_id) db.bots)) [
        | inl e ↦ rw e inv
        | inr e ↦ rw e (elsewhere-Inv db _ refl refl inv)
      ])

put_config-Inv : (new : BotConfig) (db : Db) → Inv db → Ensures (λ d. Inv d.0) (put_config new db)
unfolding put_config
put_config-Inv new db inv = elim (Bool-cases (any (is_config new.bot_id) db.bot_configs)) [
  | inl e ↦ rw (e, put_config) (elsewhere-Inv db _ refl refl inv)
  | inr e ↦ elim (Bool-cases (any (λ b. b.bot_id == new.bot_id) db.bots)) [
    | inl f ↦ rw (e, f, put_config) (elsewhere-Inv db _ refl refl inv)
    | inr f ↦ rw (e, f, put_config) tt
  ]
]

pub upsert_config-Inv :
    (env : Env) (bot : BotId) (c : ConfigJson) (secret : Option WebhookSecret) (at : ℤ) (db : Db)
    → Inv db
    → Inv (upsert_config env bot c secret at db).0
unfolding upsert_config
upsert_config-Inv env bot c secret at db inv =
    transaction-Ensures Inv env _ db inv (
      Ensures-after (λ d. Inv d.0) (config_row bot c secret at) _
        (λ new. put_config-Inv new db inv))

pub pause_scope-Inv :
    (env : Env) (new : LimiterPause) (db : Db) → Inv db → Inv (pause_scope env new db).0
unfolding pause_scope
pause_scope-Inv env new db inv =
    transaction-Ensures Inv env _ db inv (elsewhere-Inv db _ refl refl inv)

pub persist_scheduler-Inv :
    (env : Env) (bot : BotId) (deficit : ℤ) (weight : ℕ) (last : ℤ) (db : Db)
    → Inv db
    → Inv (persist_scheduler env bot deficit weight last db).0
unfolding persist_scheduler
persist_scheduler-Inv env bot deficit weight last db inv =
    transaction-Ensures Inv env _ db inv
      (elim (Bool-cases (any (λ f. f.bot_id == bot) db.fairness_deficits)) [
        | inl e ↦ rw e (elsewhere-Inv db _ refl refl inv)
        | inr e ↦ elim (Bool-cases (any (λ b. b.bot_id == bot) db.bots)) [
          | inl f ↦ rw (e, f) (elsewhere-Inv db _ refl refl inv)
          | inr f ↦ rw (e, f) tt
        ]
      ])

-- The state of the webhook, on the job.
set_job_webhook-Inv :
    (id : EventId) (s : WebhookState) (db : Db) → Inv db → Inv (set_job_webhook id s db)
set_job_webhook-Inv id s db inv =
    columns-Inv (λ j. text_is j.webhook_event_id id) (λ j. record j { webhook_state = s }) db
      (λ k. ground arith) inv

log_delivery-Inv :
    (id : EventId) (m : WebhookMark) (db : Db) → Inv db → Ensures Inv (log_delivery id m db)
unfolding log_delivery
log_delivery-Inv id m db inv = elim (Bool-cases (not (any (is_event id) db.webhook_events))) [
  | inl e ↦ rw (e, log_delivery) tt
  | inr e ↦
      elim (Bool-cases (
        any (λ d. d.event_id == id && d.page_index == m.page && d.attempt == m.attempt)
          db.webhook_deliveries)) [
            | inl f ↦ rw (e, f, log_delivery) inv
            | inr f ↦ rw (e, f, log_delivery) (elsewhere-Inv db _ refl refl inv)
          ]
]

mark_terminal-Inv :
    (id : EventId) (m : WebhookMark) (t : Option WebhookTerminal) (db : Db)
    → Inv db
    → Ensures Inv (mark_terminal id m t db)
unfolding mark_terminal mark_delivered mark_exhausted mark_retry
mark_terminal-Inv id m (some WebhookTerminal.delivered) db inv =
    elim (Bool-cases (all_delivered id (deliver_page id m.page db).webhook_pages)) [
      | inl e ↦
          rw (e, mark_delivered) (set_job_webhook-Inv id _ _ (elsewhere-Inv db _ refl refl inv))
      | inr e ↦
          rw (e, mark_delivered) (set_job_webhook-Inv id _ _ (elsewhere-Inv db _ refl refl inv))
    ]
mark_terminal-Inv id m (some (WebhookTerminal.exhausted error)) db inv =
    set_job_webhook-Inv id _ _ (elsewhere-Inv db _ refl refl inv)
mark_terminal-Inv id m none db inv = elim (Option-cases m.next_attempt_unix) [
  | inl e ↦ rw (e, mark_terminal) tt
  | inr (next, e) ↦
      rw (e, mark_terminal) (set_job_webhook-Inv id _ _ (elsewhere-Inv db _ refl refl inv))
]

pub mark_webhook-Inv :
    (env : Env) (id : EventId) (m : WebhookMark) (db : Db)
    → Inv db
    → Inv (mark_webhook env id m db).0
unfolding mark_webhook count_webhook_attempt
mark_webhook-Inv env id m db inv = transaction-Ensures Inv env _ db inv (
    Ensures-bind Inv (λ d. Inv d.0) (log_delivery id m db) _ (log_delivery-Inv id m db inv)
      (λ d i.
        Ensures-bind Inv (λ d. Inv d.0)
          (mark_terminal id m m.terminal (count_webhook_attempt id m d)) _
          (mark_terminal-Inv id m m.terminal _ (elsewhere-Inv d _ refl refl i)) (λ d' i'. i')))

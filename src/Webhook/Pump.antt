-- ===== src/Webhook/Pump.antt =====
-- Rounds of webhook delivery (`pump_at` of crates/telegram-bulk-delivery/src/webhook.rs). The tasks
-- of a round run at the same time; their marks reach the writer in the order of the rows here.
use telegram_bot_delivery_en.Base.{
  ℕ, zero, suc, ◌+◌, Bool, true, false, List, [], ◌∷◌, Option, none, some, ℤ, leb, string_eq,
  nat_eq, if◌then◌else◌, take,
}
use telegram_bot_delivery_en.Domain.{EventId}
use telegram_bot_delivery_en.Store.Tables.{Db, Result, ok, err, Env}
use telegram_bot_delivery_en.Store.Webhooks.{mark_webhook}
use telegram_bot_delivery_en.Store.Reader.Rows.{WebhookPageRow}
use telegram_bot_delivery_en.Store.Reader.Queries.{pending_webhook_pages}
use telegram_bot_delivery_en.Webhook.Deliver.{DeliveryEnv, Delivery, deliver_one}

abbrev pub max_pages_per_pump : ℕ
max_pages_per_pump = 200

abbrev pub is_ok {ℓ} : {A : Type ℓ} → Result A → Bool
is_ok (ok a) = true
is_ok (err e) = false

module _ (writer : Env) (env : DeliveryEnv) (now : ℤ) where
  -- `record_attempt`: whether the attempt counts as handled.
  unfoldable pub record_page_attempt : EventId → Delivery → Db → Db × Bool
  record_page_attempt id (Delivery.recorded post m) db =
      let r = mark_webhook writer id m db in (r.0, is_ok r.1)
  record_page_attempt id (Delivery.broken e) db = (db, false)

  unfoldable pub pump_rows : List WebhookPageRow → Db → Db × ℕ
  unfolding record_page_attempt
  pump_rows [] db = (db, 0)
  pump_rows (row ∷ rows) db =
      let r = record_page_attempt row.event_id (deliver_one env row now) db in
      let rest = pump_rows rows r.0 in (rest.0, (if r.1 then 1 else 0) + rest.1)

  -- One turn of the loop, and what follows it.
  unfoldable pub pump_round :
      ℕ → (ℕ → Db → Option (Db × ℕ)) → ℕ → Db → List WebhookPageRow → Option (Db × ℕ)
  unfolding pump_rows
  pump_round permits next handled db [] = some (db, handled)
  pump_round permits next handled db (row ∷ rows) =
      let r = pump_rows (take permits (row ∷ rows)) db in next (handled + r.1) r.0

  -- `None` when the fuel is spent before the pump returns.
  unfoldable pub pump_at : ℕ → ℕ → ℕ → Db → Option (Db × ℕ)
  unfolding pump_round
  pump_at permits zero handled db = none
  pump_at permits (suc fuel) handled db =
      let next =
        pump_round permits (pump_at permits fuel) handled db (pending_webhook_pages now db) in
      if leb max_pages_per_pump handled then some (db, handled) else next

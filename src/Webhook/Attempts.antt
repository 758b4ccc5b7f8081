-- ===== src/Webhook/Attempts.antt =====
-- Which attempt `deliver_one` of crates/telegram-bulk-delivery/src/webhook.rs records, in the numbers of
-- the stored page and of the bot's configuration.
use telegram_bot_delivery_en.Base.{
  ℕ, ◌+◌, ◌^◌, ◌<◌, ◌≤◌, ◌≡◌, ◌⊎◌, inl, inr, true, none, some, ℤ, pos, ◌≤ℤ◌, arith, refl, ◌-◌, ◌∙◌,
  is_some, max_ℤ,
}
use telegram_bot_delivery_en.Webhook.Deliver.{
  DeliveryEnv, Delivery, max_attempts_of, attempt_number, page_of, deliver_one,
}
use telegram_bot_delivery_en.Webhook.Outcomes.{IsMarked, RecordsMark, deliver_one-Marks}
use telegram_bot_delivery_en.Store.Webhooks.{WebhookMark}
use telegram_bot_delivery_en.Store.Reader.Rows.{WebhookPageRow}
use telegram_bot_delivery_en.Store.Reader.Gating.{Defers}

-- The number of attempts that the bot's configuration allows: from 1 to 255, and 10 by default.
abbrev pub Allows : WebhookPageRow → ℕ → Type 0
Allows row k =
    ((row.webhook_max_attempts ≡ some (pos k)) × (0 < k) × (k ≤ 255))
    ⊎ ((row.webhook_max_attempts ≡ none) × (k ≡ 10))

-- The mark is for the row's page and counts one attempt more than the row; it ends the page or the
-- event, or asks for a later time; and it ends them when the allowed attempts are made.
unfoldable pub IsOrderly : WebhookPageRow → ℤ → WebhookMark → Type 0
IsOrderly row now m =
    (m.page ≡ row.page_index)
    × (m.attempt ≡ row.page_attempt_count + 1)
    × Defers now m
    × ((k : ℕ) → Allows row k → k ≤ row.page_attempt_count + 1 → is_some m.terminal ≡ true)

unfoldable pub RecordsOrderly : WebhookPageRow → ℤ → Delivery → Type 0
RecordsOrderly row now (Delivery.recorded post m) = IsOrderly row now m
RecordsOrderly row now (Delivery.broken e) = Unit

max_attempts_of-Allows : (row : WebhookPageRow) (k : ℕ) → Allows row k → max_attempts_of row ≡ k
unfolding max_attempts_of max_ℤ
max_attempts_of-Allows row k (inl (e, more, few)) = rw e (ground arith)
max_attempts_of-Allows row k (inr (e, ten)) = rw (e, ten) refl

module _ (env : DeliveryEnv) (row : WebhookPageRow) (now : ℤ)
    (fits : row.page_attempt_count + 1 < 2 ^ 16) (few : row.page_index < 2 ^ 16) where
  attempt_exact : attempt_number row ≡ row.page_attempt_count + 1
  unfolding attempt_number
  attempt_exact = omega arith

  page_exact : page_of row ≡ row.page_index
  unfolding page_of
  page_exact = omega arith

  orderly : (d : Delivery) → RecordsMark env row now d → RecordsOrderly row now d
  unfolding RecordsMark RecordsOrderly IsMarked IsOrderly
  orderly (Delivery.broken e) h = tt
  orderly (Delivery.recorded post m) (page, attempt, defers, spent) = (
    page ∙ page_exact,
    attempt ∙ attempt_exact,
    defers,
    λ k allows made. spent (ground (arith, max_attempts_of-Allows row k allows, attempt_exact)),
  )

  -- With a time below the end of i64 and a page and its attempts within u16, an attempt that is
  -- recorded is for the row's page and its number is one more than the attempts of the row; it ends
  -- the page or the event, or asks for a later time; and it ends them when as many attempts are made
  -- as the configuration allows, which is from 1 to 255, or 10 where it says nothing.
  pub deliver_one-Orderly :
      now ≤ℤ pos (2 ^ 63 - 2) → RecordsOrderly row now (deliver_one env row now)
  deliver_one-Orderly soon = orderly (deliver_one env row now) (deliver_one-Marks env row now soon)

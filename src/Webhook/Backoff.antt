-- ===== src/Webhook/Backoff.antt =====
-- The delay before a webhook page's next attempt (`retry_backoff_ms` of
-- crates/telegram-bulk-delivery/src/webhook.rs), in u64 and i64 arithmetic that saturates.
use telegram_bot_delivery_en.Base.{
  ℕ, ◌+◌, ◌-◌, ◌*◌, ◌/◌, ◌^◌, min, max, ◌≡◌, false, ℤ, pos, negsuc, ◌+ℤ◌, ◌≤ℤ◌, leb_ℤ,
  if◌then◌else◌, arith,
}

abbrev pub u64_max : ℕ
u64_max = 2 ^ 64 - 1

abbrev pub i64_max : ℤ
i64_max = pos (2 ^ 63 - 1)

-- `attempt` is a u16 and `jitter` the draw from 0..=base.
unfoldable pub retry_backoff_ms : (ℕ → ℕ) → ℕ → ℕ → ℕ → ℕ
retry_backoff_ms jitter base_ms max_ms attempt =
    let shift = min (attempt - 1) 30 in
    let exp = min u64_max (base_ms * 2 ^ shift) in min max_ms (min u64_max (exp + jitter base_ms))

unfoldable pub saturating_add : ℤ → ℕ → ℤ
saturating_add t n = let s = t +ℤ pos n in if leb_ℤ s i64_max then s else i64_max

-- Whole seconds, one at least.
unfoldable pub next_attempt_at : ℤ → ℕ → ℤ
unfolding saturating_add
next_attempt_at now ms = saturating_add now (max 1 ((ms + 999) / 1000))

-- The next attempt is later, and at most the longest delay, in seconds that are rounded up, away.
pub next_attempt_at-bounds :
    (jitter : ℕ → ℕ) (base max_ms attempt : ℕ) (now : ℤ)
    → now ≤ℤ pos (2 ^ 63 - 2)
    → (leb_ℤ (next_attempt_at now (retry_backoff_ms jitter base max_ms attempt)) now ≡ false)
      × (next_attempt_at now (retry_backoff_ms jitter base max_ms attempt)
          ≤ℤ now +ℤ pos (max 1 ((max_ms + 999) / 1000)))
unfolding next_attempt_at saturating_add retry_backoff_ms ◌+ℤ◌
next_attempt_at-bounds jitter base max_ms attempt (pos n) small = ground arith
next_attempt_at-bounds jitter base max_ms attempt (negsuc n) small = ground arith

-- ===== src/Scheduler/Dispatcher/Policy.antt =====
-- `AttemptPolicy` and what `snapshot_policy_and_base` reads of a job's policy snapshot
-- (crates/telegram-bulk-delivery/src/scheduler/dispatcher.rs).
use telegram_bot_delivery_en.Base.{
  ℕ, ◌^◌, String, ◌||◌, Option, none, some, ltb, ◌==◌, string_eq, if◌then◌else◌,
}
use telegram_bot_delivery_en.Domain.{AmbiguityPolicy}
use telegram_bot_delivery_en.Webhook.Pages.{is_empty}
use telegram_bot_delivery_en.Webhook.Hosts.{
  Text, text, is_space, trim_end, trim_start, starts_with, unwrap_or, and_then,
}
use telegram_bot_delivery_en.Telegram.Classify.{Json}
use telegram_bot_delivery_en.Store.Reader.Rows.{DispatchItem}

pub record AttemptPolicy : Type 0 where
  pub retry_max : ℕ
  pub retry_consumed : ℕ
  pub retry_base_ms : ℕ
  pub retry_max_ms : ℕ
  pub ambiguity : AmbiguityPolicy

-- `u16::try_from(n).ok()`.
abbrev pub fits_u16 : ℕ → Option ℕ
fits_u16 n = if ltb n (2 ^ 16) then some n else none

unfoldable pub ambiguity_of : Option String → AmbiguityPolicy
ambiguity_of none = AmbiguityPolicy.at_least_once
ambiguity_of (some s) =
    if s == "at_most_once"
    then AmbiguityPolicy.at_most_once
    else if s == "method_aware"
    then AmbiguityPolicy.method_aware
    else AmbiguityPolicy.at_least_once

-- A base that is not empty and has the scheme of HTTP.
unfoldable pub base_of : Text → Option Text
unfolding trim_end trim_start starts_with is_space
base_of s =
    let t = trim_end is_space (trim_start is_space s) in
    if is_empty t
    then none
    else if starts_with (text "http://") t || starts_with (text "https://") t
    then some t
    else none

module _ (json : Json) (parse : String → Option json.value) (empty_object : json.value) where
  open json use {value, get, as_u64, as_str}

  unfoldable pub snapshot_policy : DispatchItem → AttemptPolicy
  unfolding ambiguity_of
  snapshot_policy item =
      let config = unwrap_or empty_object (parse item.policy_snapshot_json) in
      record {
        retry_max =
            unwrap_or 8 (and_then (and_then (get "retry_max_attempts" config) as_u64) fits_u16);
        retry_consumed = item.retry_consumed;
        retry_base_ms = unwrap_or 500 (and_then (get "retry_base_ms" config) as_u64);
        retry_max_ms = unwrap_or 60000 (and_then (get "retry_max_ms" config) as_u64);
        ambiguity = ambiguity_of (and_then (get "ambiguity_policy" config) as_str);
      }

  unfoldable pub snapshot_base : DispatchItem → Option Text
  unfolding base_of
  snapshot_base item =
      let config = unwrap_or empty_object (parse item.policy_snapshot_json) in
      and_then (and_then (get "telegram_api_base" config) as_str) (λ s. base_of (text s))

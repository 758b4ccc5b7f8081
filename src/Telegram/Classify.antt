-- ===== src/Telegram/Classify.antt =====
-- The class of one Telegram attempt (`classify`, `retries_ambiguous` and `full_jitter_ms` of
-- crates/telegram-bulk-delivery/src/telegram/classify.rs). JSON values are serde_json's.
use telegram_bot_delivery_en.Base.{
  ℕ, ◌-◌, ◌*◌, ◌^◌, min, String, Bool, true, false, not, List, [], ◌∷◌, Option, none, some, ℤ, ltb,
  leb, nat_beq, if◌then◌else◌,
}
use telegram_bot_delivery_en.Domain.{AmbiguityPolicy}
use telegram_bot_delivery_en.Meta.Spec.{MethodSpec, SuccessProjection}
use telegram_bot_delivery_en.Meta.Lookup.{method_aware_retries}
use telegram_bot_delivery_en.Webhook.Hosts.{unwrap_or, and_then, map_option, ◌or_else◌}
use telegram_bot_delivery_en.Telegram.Masking.{sanitize_desc}

-- `serde_json::Value`; a pointer is the list of its keys.
pub record Json : Type 1 where
  pub value : Type 0
  pub null : value
  pub get : String → value → Option value
  pub pointer : List String → value → Option value
  pub as_u64 : value → Option ℕ
  pub as_i64 : value → Option ℤ
  pub as_bool : value → Option Bool
  pub as_str : value → Option String
  pub as_array : value → Option (List value)
  pub to_string : value → String

pub record Success : Type 0 where
  pub message_id : Option ℤ
  pub sent_at_unix : ℤ
  pub chat_id : Option String

pub data Classification : Type 0 where
  success : Success → Classification
  flood : ℕ → Classification
  transient : Classification
  permanent : String → ℕ → Option String → Classification
  unauthorized : Classification
  migrate : ℤ → Classification
  ambiguous : Classification

abbrev pub u32_max : ℕ
u32_max = 2 ^ 32 - 1

unfoldable pub permanent_norm : ℕ → String
permanent_norm status =
    if nat_beq status 403
    then "forbidden"
    else if nat_beq status 404
    then "not_found"
    else "invalid_recipient"

module _ (json : Json) where
  open json use {value, null, get, pointer, as_u64, as_i64, as_bool, as_str, as_array, to_string}

  unfoldable pub head_or : value → List value → value
  head_or d [] = d
  head_or d (v ∷ vs) = v

  -- The first message of an array, or the result itself.
  unfoldable pub first_of : value → value
  unfolding head_or
  first_of result = elim (as_array result) [ some vs ↦ head_or result vs | none ↦ result ]

  unfoldable pub message_id_of : SuccessProjection → value → Option ℤ
  message_id_of SuccessProjection.no_message first = none
  message_id_of _ first = and_then (get "message_id" first) as_i64

  unfoldable pub chat_id_of : Option String → value → Option String
  chat_id_of resolved first =
      resolved
      or_else map_option (λ x. unwrap_or (to_string x) (as_str x))
          (pointer ("chat" ∷ "id" ∷ []) first)

  unfoldable pub success_of : ℤ → MethodSpec → Option String → value → Success
  unfolding first_of message_id_of chat_id_of
  success_of now spec resolved v =
      let first = first_of (unwrap_or null (get "result" v)) in
      record {
        message_id = message_id_of spec.projection first;
        sent_at_unix = unwrap_or now (and_then (get "date" first) as_i64);
        chat_id = chat_id_of resolved first;
      }

  -- Answers without `retry_after` and not of status 429.
  unfoldable pub classify_rest : ℕ → value → ℤ → MethodSpec → Option String → Classification
  unfolding permanent_norm success_of
  classify_rest status v now spec resolved =
      elim (and_then (pointer ("parameters" ∷ "migrate_to_chat_id" ∷ []) v) as_i64) [
        | some n ↦ Classification.migrate n
        | none ↦
            if nat_beq status 401
            then Classification.unauthorized
            else if leb 500 status
            then Classification.transient
            else if not (unwrap_or false (and_then (get "ok" v) as_bool))
            then Classification.permanent (permanent_norm status) status
                (map_option sanitize_desc (and_then (get "description" v) as_str))
            else Classification.success (success_of now spec resolved v)
      ]

  unfoldable pub classify_body : ℕ → value → ℤ → MethodSpec → Option String → Classification
  unfolding classify_rest
  classify_body status v now spec resolved =
      elim (and_then (pointer ("parameters" ∷ "retry_after" ∷ []) v) as_u64) [
        | some n ↦ Classification.flood (min n u32_max)
        | none ↦
            if nat_beq status 429
            then Classification.flood 1
            else classify_rest status v now spec resolved
      ]

  unfoldable pub classify_bodyless : ℕ → Classification
  classify_bodyless status =
      if leb 500 status
      then Classification.transient
      else Classification.permanent "unknown" status none

  unfoldable pub classify :
      ℕ → Option value → Bool → ℤ → MethodSpec → Option String → Classification
  unfolding classify_body classify_bodyless
  classify status body true now spec resolved = Classification.ambiguous
  classify status none false now spec resolved = classify_bodyless status
  classify status (some v) false now spec resolved = classify_body status v now spec resolved

unfoldable pub retries_ambiguous : AmbiguityPolicy → MethodSpec → Bool
retries_ambiguous AmbiguityPolicy.at_least_once spec = true
retries_ambiguous AmbiguityPolicy.at_most_once spec = false
retries_ambiguous AmbiguityPolicy.method_aware spec = method_aware_retries spec

-- `base.saturating_mul(1u64.checked_shl(n).unwrap_or(u64::MAX))`.
unfoldable pub shifted_ms : ℕ → ℕ → ℕ
shifted_ms base n = min (2 ^ 64 - 1) (base * (if ltb n 64 then 2 ^ n else 2 ^ 64 - 1))

-- The draw from `0..=cap` is a parameter.
unfoldable pub full_jitter_ms : (ℕ → ℕ) → ℕ → ℕ → ℕ → ℕ
unfolding shifted_ms
full_jitter_ms draw base max retry_consumed =
    let cap = min (shifted_ms base retry_consumed) max in if nat_beq cap 0 then 0 else draw cap

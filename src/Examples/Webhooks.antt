-- ===== src/Examples/Webhooks.antt =====
-- The theorems on webhook delivery at concrete inputs.
use telegram_bot_delivery_en.Base.{
  ◌+◌, ◌/◌, max, ◌≡◌, refl, ap, subst, inr, true, false, not, ◌&&◌, [], ◌∷◌, none, some, pos, arith,
  nat_eq, string_eq, ◌+ℤ◌, leb_ℤ, any, ◌≤ℤ◌,
}
use telegram_bot_delivery_en.Domain.{WebhookState}
use telegram_bot_delivery_en.Webhook.Pages.{Bytes}
use telegram_bot_delivery_en.Webhook.Addresses.{
  IpAddr, is_denied_ip, is_denied_v4, never_trustable, is_overlooked, never_trustable-is_overlooked,
}
use telegram_bot_delivery_en.Webhook.Hosts.{
  text, AddressParser, trim_end, trim_start, is_space, normalize_host, strip_prefix, strip_bracket,
  parse_digits, parse_u32, v4_of_u32, parse_ip_literal, ends_with, denied_name, is_trusted,
  unwrap_or,
}
use telegram_bot_delivery_en.Webhook.Literals.{NoSpace, denied_name-literal}
use telegram_bot_delivery_en.Webhook.Backoff.{
  retry_backoff_ms, next_attempt_at, next_attempt_at-bounds,
}
use telegram_bot_delivery_en.Webhook.Deliver.{
  Url, Client, Post, DeliveryEnv, attempt_number, page_of, scheme_ok, choose_pinned, choose_client,
  check_host, choose_target, open_secret, request, send_signed, send_page, deliver_one,
}
use telegram_bot_delivery_en.Webhook.Outcomes.{post_of}
use telegram_bot_delivery_en.Webhook.Attempts.{RecordsOrderly, deliver_one-Orderly}
use telegram_bot_delivery_en.Webhook.Safety.{CleanHosts, SentAsAllowed, deliver_one-SentAsAllowed}
use telegram_bot_delivery_en.Webhook.Pump.{pump_at}
use telegram_bot_delivery_en.Webhook.Turns.{Finishes, pump_at-Finishes, pump_at-stuck}
use telegram_bot_delivery_en.Store.Tables.{
  Db, Env, WebhookEvent, WebhookPage, BotConfig, empty_db, transaction,
}
use telegram_bot_delivery_en.Store.Sql.{sorted, insert_sorted}
use telegram_bot_delivery_en.Store.Webhooks.{
  WebhookMark, log_delivery, count_webhook_attempt, mark_retry, mark_terminal, mark_webhook,
}
use telegram_bot_delivery_en.Store.Reader.Rows.{WebhookPageRow}
use telegram_bot_delivery_en.Store.Reader.Gating.{DefersTo, is_row_of, mark_webhook-absent}
use telegram_bot_delivery_en.Store.Reader.Queries.{
  is_pending, events_of, join_events, of_config, secret_of, page_row, pending_webhook_pages,
}

-- Rust's parsers, as far as these names go: no name here is an address in dots or in colons.
abbrev parser : AddressParser
parser = record { parse_ip = λ _. none; parse_v6 = λ _. none }

never_trustable-is_overlooked_example :
    (never_trustable (IpAddr.v4 (record { a = 168; b = 63; c = 129; d = 16 }))
      && not (is_denied_ip (IpAddr.v4 (record { a = 168; b = 63; c = 129; d = 16 }))))
    ≡ is_overlooked (IpAddr.v4 (record { a = 168; b = 63; c = 129; d = 16 }))
never_trustable-is_overlooked_example =
    never_trustable-is_overlooked (IpAddr.v4 (record { a = 168; b = 63; c = 129; d = 16 }))

next_attempt_at-bounds_example :
    (leb_ℤ (next_attempt_at (pos 100) (retry_backoff_ms (λ b. b / 2) 1000 60000 9)) (pos 100)
      ≡ false)
    × (next_attempt_at (pos 100) (retry_backoff_ms (λ b. b / 2) 1000 60000 9)
        ≤ℤ pos 100 +ℤ pos (max 1 ((60000 + 999) / 1000)))
unfolding ◌+ℤ◌
next_attempt_at-bounds_example =
    next_attempt_at-bounds (λ b. b / 2) 1000 60000 9 (pos 100) (omega arith)

-- 127.0.0.1 as one number, with a dot at its end.
denied_name-literal_example : denied_name parser (text "2130706433.") ≡ true
unfolding normalize_host trim_end trim_start is_space strip_prefix strip_bracket parse_u32
    parse_digits v4_of_u32 parse_ip_literal is_denied_ip is_denied_v4
denied_name-literal_example =
    denied_name-literal parser (text "2130706433.")
      (IpAddr.v4 (record { a = 127; b = 0; c = 0; d = 1 }))
      (refl, (refl, (refl, (refl, (refl, (refl, (refl, (refl, (refl, (refl, (refl, tt)))))))))))
      refl refl

abbrev public_ip : IpAddr
public_ip = IpAddr.v4 (record { a = 93; b = 184; c = 216; d = 34 })

abbrev hook : Url
hook = record { host_str = some "hook.io"; scheme = "https"; port_or_known_default = some 443 }

-- Every URL is that of the hook, its host has one public address, and its server answers 503.
abbrev env : DeliveryEnv
env = record {
  parser = parser;
  policy = record { allow_insecure_http = false; trusted_hosts = [] };
  parse_url = λ _. some hook;
  resolve = λ _ _. inr (public_ip ∷ []);
  build_error = λ _ _. none;
  decrypt = λ _ _ _ _. some (1 ∷ []);
  hmac_hex = λ _ _. "ab";
  sha256_prefix = λ _. "cd";
  jitter = λ b. b;
  send = λ _. inr 503;
  show_ℕ = λ _. "0";
  show_ips = λ _. "";
}

abbrev nonce : Bytes
nonce = 0 ∷ 0 ∷ 0 ∷ 0 ∷ 0 ∷ 0 ∷ 0 ∷ 0 ∷ 0 ∷ 0 ∷ 0 ∷ 0 ∷ []

abbrev config : BotConfig
config = record {
  bot_id = 7;
  config_version = 1;
  target_msgs_per_sec = 0;
  retry_max_attempts = pos 8;
  retry_base_ms = pos 500;
  retry_max_ms = pos 60000;
  retry_jitter = "full";
  retryable_classes_json = "[]";
  ambiguity_policy = "at_least_once";
  job_deadline_secs = pos 86400;
  fairness_weight = pos 1;
  webhook_url = some "https://hook.io/done";
  webhook_https_only = true;
  webhook_secret_nonce = some nonce;
  webhook_secret_ciphertext = some (2 ∷ []);
  webhook_secret_kid = some "k1";
  webhook_max_attempts = pos 5;
  webhook_retry_base_ms = pos 1000;
  webhook_retry_max_ms = pos 60000;
  updated_at_unix = pos 0;
  telegram_api_base = none;
}

abbrev event : WebhookEvent
event = record {
  event_id = "e1";
  job_id = "j1";
  bot_id = 7;
  state = WebhookState.pending;
  attempt_count = 0;
  next_attempt_unix = pos 0;
  lease_until_unix = none;
  page_count = 1;
  last_error = none;
  delivered_at_unix = none;
  created_at_unix = pos 0;
}

abbrev first_page : WebhookPage
first_page = record {
  event_id = "e1";
  page_index = 0;
  delivered = false;
  body = 3 ∷ [];
  body_sha256 = 4 ∷ [];
  attempt_count = 0;
  next_attempt_unix = none;
  last_http_status = none;
  last_error = none;
}

abbrev hook_db : Db
hook_db = record empty_db {
  bot_configs = config ∷ [];
  webhook_events = event ∷ [];
  webhook_pages = first_page ∷ [];
}

abbrev hook_row : WebhookPageRow
unfolding page_row of_config secret_of
hook_row = page_row (config ∷ []) (event, first_page)

option_eq {ℓ} : {A : Type ℓ} {a b : A} → some a ≡ some b → a ≡ b
option_eq {a = a} h = ap (unwrap_or a) h

hook_clean : CleanHosts env
unfolding is_space
hook_clean url u host p h =
    let same : some "hook.io" ≡ some host = rw (← option_eq p) at h in
    subst (λ t. NoSpace (text t)) (option_eq same)
      (refl, (refl, (refl, (refl, (refl, (refl, (refl, tt)))))))

abbrev sent_post : Post
unfolding request attempt_number page_of
sent_post =
    request env hook_row (pos 100) (Client.pinned "hook.io" (public_ip ∷ [])) "https://hook.io/done"
      (3 ∷ []) (1 ∷ [])

deliver_one-SentAsAllowed_example : SentAsAllowed env hook_row (pos 100) sent_post
unfolding deliver_one choose_target check_host choose_client choose_pinned scheme_ok send_page
    open_secret send_signed request attempt_number page_of post_of is_trusted denied_name
    normalize_host trim_end trim_start is_space strip_prefix strip_bracket parse_u32 parse_digits
    parse_ip_literal ends_with is_denied_ip is_denied_v4 page_row of_config secret_of
deliver_one-SentAsAllowed_example =
    deliver_one-SentAsAllowed env hook_row (pos 100) hook_clean sent_post refl

deliver_one-Orderly_example : RecordsOrderly hook_row (pos 100) (deliver_one env hook_row (pos 100))
unfolding page_row
deliver_one-Orderly_example =
    deliver_one-Orderly env hook_row (pos 100) (omega arith) (omega arith) (omega arith)

abbrev writer : Env
writer = record {
  parse_policy = λ _. none;
  encoder = record { row_bytes = λ r. []; envelope_bytes = λ e. [] };
  sha256 = λ b. b;
  wall_clock = pos 100;
  can_commit = true;
}

pump_at-Finishes_example :
    Finishes writer env (pos 100) (pump_at writer env (pos 100) 4 201 0 hook_db)
pump_at-Finishes_example =
    pump_at-Finishes writer env (pos 100) 3 201 0 hook_db (omega arith) refl (λ host ips. refl)
      (omega arith) (omega arith)

-- A full disk.
abbrev full : Env
full = record writer { can_commit = false }

pump_at-stuck_example : pump_at full env (pos 100) 4 1000 0 hook_db ≡ none
unfolding pending_webhook_pages is_pending events_of join_events page_row of_config secret_of sorted
    insert_sorted
pump_at-stuck_example = pump_at-stuck full env (pos 100) 4 1000 hook_db hook_row [] refl refl

abbrev retry_mark : WebhookMark
retry_mark = record {
  page = 0;
  attempt = 1;
  at_unix = pos 100;
  http_status = some 503;
  error = none;
  next_attempt_unix = some (pos 102);
  terminal = none;
}

mark_webhook-absent_example :
    any
      (is_row_of "e1" 0)
      (pending_webhook_pages (pos 100) (mark_webhook writer "e1" retry_mark hook_db).0)
    ≡ false
unfolding mark_webhook transaction log_delivery count_webhook_attempt mark_terminal mark_retry
    DefersTo
mark_webhook-absent_example = mark_webhook-absent writer (pos 100) "e1" retry_mark hook_db refl refl

-- ===== src/Webhook/Deliver.antt =====
-- One attempt to deliver one webhook page (`deliver_one` of
-- crates/telegram-bulk-delivery/src/webhook.rs): the mark that it records, and the request that it
-- sent before, if any. URL parsing, DNS, HTTP and cryptography are parameters.
use telegram_bot_delivery_en.Base.{
  ℕ, ◌+◌, ◌%◌, ◌^◌, min, String, str_append, ◌⊎◌, inl, inr, Bool, true, false, not, ◌&&◌, ◌||◌,
  List, Option, none, some, ℤ, pos, pos_part, max_ℤ, ltb, leb, nat_beq, ◌==◌, string_eq,
  if◌then◌else◌, any, length,
}
use telegram_bot_delivery_en.Domain.{BotId, JobId, EventId}
use telegram_bot_delivery_en.Webhook.Pages.{Bytes, is_empty}
use telegram_bot_delivery_en.Webhook.Addresses.{IpAddr, is_denied_ip}
use telegram_bot_delivery_en.Webhook.Hosts.{
  AddressParser, WebhookSsrPolicy, text, parse_ip_literal, denied_name, is_trusted, unwrap_or,
}
use telegram_bot_delivery_en.Webhook.Backoff.{retry_backoff_ms, next_attempt_at}
use telegram_bot_delivery_en.Store.Webhooks.{WebhookMark, WebhookTerminal}
use telegram_bot_delivery_en.Store.Reader.Rows.{WebhookPageRow}

pub record Url : Type 0 where
  pub host_str : Option String
  pub scheme : String
  pub port_or_known_default : Option ℕ

-- The client without pinning, or one that connects to these addresses of the host only.
pub data Client : Type 0 where
  shared : Client
  pinned : String → List IpAddr → Client

pub record Post : Type 0 where
  pub client : Client
  pub url : String
  pub signature : String
  pub event_id : EventId
  pub job_id : JobId
  pub page : ℕ
  pub page_count : ℕ
  pub attempt : ℕ
  pub timestamp : ℤ
  pub idempotency_key : String
  pub body : Bytes

-- What the deliverer takes from other crates, the network and its configuration.
pub record DeliveryEnv : Type 0 where
  pub parser : AddressParser
  pub policy : WebhookSsrPolicy
  pub parse_url : String → Option Url
  pub resolve : String → ℕ → String ⊎ List IpAddr
  pub build_error : String → List IpAddr → Option String
  pub decrypt : BotId → String → Bytes → Bytes → Option Bytes
  pub hmac_hex : Bytes → Bytes → String
  pub sha256_prefix : Bytes → String
  pub jitter : ℕ → ℕ
  pub send : Post → String ⊎ ℕ
  pub show_ℕ : ℕ → String
  pub show_ips : List IpAddr → String

-- The attempt recorded with the request before it, or an error before anything is recorded.
pub data Delivery : Type 0 where
  recorded : Option Post → WebhookMark → Delivery
  broken : String → Delivery

unfoldable pub max_attempts_of : WebhookPageRow → ℕ
max_attempts_of row =
    min 255 (pos_part (max_ℤ (unwrap_or (pos 10) row.webhook_max_attempts) (pos 1)))

unfoldable pub retry_base_of : WebhookPageRow → ℕ
retry_base_of row = pos_part (max_ℤ (unwrap_or (pos 1000) row.webhook_retry_base_ms) (pos 1))

unfoldable pub retry_max_of : WebhookPageRow → ℕ
unfolding retry_base_of
retry_max_of row =
    pos_part (max_ℤ (unwrap_or (pos 300000) row.webhook_retry_max_ms) (pos (retry_base_of row)))

unfoldable pub attempt_number : WebhookPageRow → ℕ
attempt_number row = (row.page_attempt_count + 1) % 2 ^ 16

-- `u16::try_from(..).unwrap_or(u16::MAX)`.
unfoldable pub page_of : WebhookPageRow → ℕ
page_of row = min 0xffff row.page_index

module _ (env : DeliveryEnv) (row : WebhookPageRow) (now : ℤ) where
  open env use {
    parser, policy, parse_url, resolve, build_error, decrypt, hmac_hex, sha256_prefix, jitter, send,
    show_ℕ, show_ips,
  }

  unfoldable pub attempt_mark :
      Option ℕ → Option String → Option ℤ → Option WebhookTerminal → WebhookMark
  unfolding attempt_number page_of
  attempt_mark status error next terminal = record {
    page = page_of row;
    attempt = attempt_number row;
    at_unix = now;
    http_status = status;
    error = error;
    next_attempt_unix = next;
    terminal = terminal;
  }

  -- An attempt that ends the event before any request.
  unfoldable pub refuse : String → Delivery
  unfolding attempt_mark
  refuse e =
      Delivery.recorded none (attempt_mark none (some e) none (some (WebhookTerminal.exhausted e)))

  unfoldable pub retry_at : ℤ
  unfolding retry_base_of retry_max_of attempt_number
  retry_at =
      next_attempt_at now
        (retry_backoff_ms jitter (retry_base_of row) (retry_max_of row) (attempt_number row))

  -- A failure that is retried until the attempts are spent.
  unfoldable pub resolve_failed : String → Delivery
  unfolding attempt_mark retry_at max_attempts_of attempt_number
  resolve_failed e =
      if leb (max_attempts_of row) (attempt_number row)
      then Delivery.recorded none
          (attempt_mark none (some e) none (some (WebhookTerminal.exhausted e)))
      else Delivery.recorded none (attempt_mark none (some e) (some retry_at) none)

  unfoldable pub scheme_ok : String → Bool → Bool
  scheme_ok scheme trusted =
      if scheme == "https"
      then true
      else if scheme == "http"
      then policy.allow_insecure_http && trusted
      else false

  unfoldable pub choose_pinned : String → List IpAddr → Delivery ⊎ Client
  unfolding refuse
  choose_pinned host ips =
      if is_empty ips
      then inl (refuse (str_append "ssrf_no_addresses:" host))
      else if any is_denied_ip ips
      then inl
          (refuse (str_append "ssrf_ip_denied:" (str_append host (str_append ":" (show_ips ips)))))
      else elim (build_error host ips) [
        | some e ↦ inl (Delivery.broken e)
        | none ↦ inr (Client.pinned host ips)
      ]

  -- A trusted host and a literal address are not pinned.
  unfoldable pub choose_client : String → String → Option ℕ → Bool → Delivery ⊎ Client
  unfolding resolve_failed
  choose_client host scheme port trusted =
      if trusted then inr Client.shared else elim (parse_ip_literal parser (text host)) [
        | some ip ↦ inr Client.shared
        | none ↦ elim (resolve host (unwrap_or (if scheme == "http" then 80 else 443) port)) [
          | inl e ↦ inl (resolve_failed (str_append "ssrf_resolve_failed:" e))
          | inr ips ↦ choose_pinned host ips
        ]
      ]

  unfoldable pub check_host : String → Url → Delivery ⊎ Client
  unfolding refuse scheme_ok choose_client
  check_host host url =
      let trusted = is_trusted parser policy (text host) in
      if not (scheme_ok url.scheme trusted)
      then inl (refuse (str_append "ssrf_scheme_denied:" url.scheme))
      else if not trusted && denied_name parser (text host)
      then inl (refuse (str_append "ssrf_host_denied:" host))
      else choose_client host url.scheme url.port_or_known_default trusted

  -- The gates before the request, in their order.
  unfoldable pub choose_target : Option String → Delivery ⊎ Client
  unfolding refuse check_host
  choose_target none = inl (refuse "webhook_url_missing")
  choose_target (some url) = elim (parse_url url) [
    | none ↦ inl (refuse "invalid_webhook_url")
    | some parsed ↦ elim parsed.host_str [
      | none ↦ inl (refuse "webhook_url_no_host")
      | some host ↦ check_host host parsed
    ]
  ]

  -- Twelve bytes of nonce, else the secret cannot be opened.
  unfoldable pub open_secret : Option Bytes → Option Bytes → Option String → String ⊎ Bytes
  open_secret (some nonce) (some ciphertext) (some kid) =
      if not (nat_beq (length nonce) 12)
      then inl "webhook_secret_bad_nonce"
      else elim (decrypt row.bot_id kid nonce ciphertext) [
        | some secret ↦ inr secret
        | none ↦ inl "webhook_secret_decrypt_failed"
      ]
  open_secret _ _ _ = inl "webhook_secret_missing"

  unfoldable pub request : Client → String → Bytes → Bytes → Post
  unfolding attempt_number page_of
  request client url body secret = record {
    client = client;
    url = url;
    signature = str_append "v1=" (hmac_hex secret body);
    event_id = row.event_id;
    job_id = row.job_id;
    page = page_of row;
    page_count = row.page_count % 2 ^ 16;
    attempt = attempt_number row;
    timestamp = now;
    idempotency_key =
        str_append row.event_id (
          str_append ":" (str_append (show_ℕ (page_of row)) (str_append ":" (sha256_prefix body))));
    body = body;
  }

  unfoldable pub is_success : Option ℕ → Bool
  is_success none = false
  is_success (some s) = leb 200 s && ltb s 300

  -- 404 and 410 are dead ends after a few attempts.
  unfoldable pub is_spent : ℕ → Bool
  unfolding max_attempts_of attempt_number
  is_spent status =
      leb (max_attempts_of row) (attempt_number row)
      || ((nat_beq status 404 || nat_beq status 410) && leb 3 (attempt_number row))

  unfoldable pub after_response : Option ℕ → Option String → WebhookMark
  unfolding attempt_mark is_success is_spent retry_at
  after_response status error =
      if is_success status
      then attempt_mark status none none (some WebhookTerminal.delivered)
      else if is_spent (unwrap_or 0 status)
      then attempt_mark status error none (
          some (
            WebhookTerminal.exhausted (
              str_append "exhausted status=" (
                str_append (show_ℕ (unwrap_or 0 status))
                  (str_append " error=" (unwrap_or "no error" error))))))
      else attempt_mark status error (some retry_at) none

  unfoldable pub response_of : String ⊎ ℕ → Option ℕ × Option String
  response_of (inr status) = (some status, none)
  response_of (inl e) = (none, some e)

  unfoldable pub send_signed : Client → String → Bytes → String ⊎ Bytes → Delivery
  unfolding refuse request after_response response_of
  send_signed client url body (inl e) = refuse e
  send_signed client url body (inr secret) =
      let post = request client url body secret in
      let r = response_of (send post) in Delivery.recorded (some post) (after_response r.0 r.1)

  unfoldable pub send_page : Client → String → Option Bytes → Delivery
  unfolding refuse open_secret send_signed
  send_page client url none = refuse "webhook_body_missing"
  send_page client url (some body) =
      send_signed client url body
        (open_secret row.webhook_secret_nonce row.webhook_secret_ciphertext row.webhook_secret_kid)

  unfoldable pub deliver_one : Delivery
  unfolding choose_target send_page
  deliver_one = elim (choose_target row.webhook_url) [
    | inl refused ↦ refused
    | inr client ↦ send_page client (unwrap_or "" row.webhook_url) row.body
  ]

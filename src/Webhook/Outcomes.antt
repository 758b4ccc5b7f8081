-- ===== src/Webhook/Outcomes.antt =====
-- What one attempt at a webhook page records (`deliver_one` of
-- crates/telegram-bulk-delivery/src/webhook.rs): it ends the page or asks for a later time.
use telegram_bot_delivery_en.Base.{
  ℕ, ◌-◌, ◌^◌, String, ◌≡◌, refl, subst, ◌⊎◌, inl, inr, Bool, true, false, not, ◌&&◌, List, Option,
  none, some, ℤ, pos, ◌≤ℤ◌, leb_ℤ, ◌==◌, string_eq, if◌then◌else◌, any, leb, arith, Bool-cases,
  Option-cases, is_some,
}
use telegram_bot_delivery_en.Webhook.Pages.{Bytes, is_empty}
use telegram_bot_delivery_en.Webhook.Addresses.{IpAddr, is_denied_ip}
use telegram_bot_delivery_en.Webhook.Hosts.{
  text, parse_ip_literal, denied_name, is_trusted, unwrap_or,
}
use telegram_bot_delivery_en.Webhook.Backoff.{next_attempt_at-bounds}
use telegram_bot_delivery_en.Webhook.Deliver.{
  Url, Client, Post, DeliveryEnv, Delivery, max_attempts_of, attempt_number, page_of, retry_base_of,
  retry_max_of, attempt_mark, retry_at, refuse, resolve_failed, scheme_ok, choose_pinned,
  choose_client, check_host, choose_target, open_secret, request, is_success, is_spent,
  after_response, response_of, send_signed, send_page, deliver_one,
}
use telegram_bot_delivery_en.Store.Webhooks.{WebhookMark}
use telegram_bot_delivery_en.Store.Reader.Rows.{WebhookPageRow}
use telegram_bot_delivery_en.Store.Reader.Gating.{Defers, DefersTo}

pub Sum-cases {ℓ κ} :
    {A : Type ℓ} {B : Type κ} (s : A ⊎ B) → ((a : A) × (s ≡ inl a)) ⊎ ((b : B) × (s ≡ inr b))
Sum-cases (inl a) = inl (a, refl)
Sum-cases (inr b) = inr (b, refl)

-- What holds of the left side of a sum.
abbrev pub IfLeft {ℓ κ} : {A : Type ℓ} {B : Type κ} → (A → Type 0) → A ⊎ B → Type 0
IfLeft P (inl a) = P a
IfLeft P (inr b) = Unit

unfoldable pub post_of : Delivery → Option Post
post_of (Delivery.recorded post m) = post
post_of (Delivery.broken e) = none

unfoldable pub is_recorded : Delivery → Bool
is_recorded (Delivery.recorded post m) = true
is_recorded (Delivery.broken e) = false

module _ (env : DeliveryEnv) (row : WebhookPageRow) (now : ℤ) where
  open env use {parser, policy, parse_url}

  -- The mark is for the row's page and its next attempt; it ends the page or the event, or asks for
  -- a later time; and it ends them when the attempts are spent.
  unfoldable pub IsMarked : WebhookMark → Type 0
  IsMarked m =
      (m.page ≡ page_of row)
      × (m.attempt ≡ attempt_number row)
      × Defers now m
      × (leb (max_attempts_of row) (attempt_number row) ≡ true → is_some m.terminal ≡ true)

  unfoldable pub RecordsMark : Delivery → Type 0
  RecordsMark (Delivery.recorded post m) = IsMarked m
  RecordsMark (Delivery.broken e) = Unit

  -- What holds of the ways to refuse holds of each delivery that no request precedes.
  module _ (Q : Delivery → Type 0) (refuse-Q : (e : String) → Q (refuse env row now e))
      (failed-Q : (e : String) → Q (resolve_failed env row now e))
      (broken-Q : (host : String) (ips : List IpAddr) (e : String)
        → env.build_error host ips ≡ some e
        → Q (Delivery.broken e)) where
    choose_pinned-refuses :
        (host : String) (ips : List IpAddr) → IfLeft Q (choose_pinned env row now host ips)
    unfolding choose_pinned
    choose_pinned-refuses host ips = elim (Bool-cases (is_empty ips)) [
      | inl h ↦ rw h (refuse-Q _)
      | inr h ↦ elim (Bool-cases (any is_denied_ip ips)) [
        | inl g ↦ rw (h, g) (refuse-Q _)
        | inr g ↦ elim (Option-cases (env.build_error host ips)) [
          | inl e ↦ rw (h, g, e) tt
          | inr (x, e) ↦ rw (h, g, e) (broken-Q host ips x e)
        ]
      ]
    ]

    choose_client-refuses :
        (host scheme : String) (port : Option ℕ) (trusted : Bool)
        → IfLeft Q (choose_client env row now host scheme port trusted)
    unfolding choose_client
    choose_client-refuses host scheme port true = tt
    choose_client-refuses host scheme port false =
        elim (Option-cases (parse_ip_literal parser (text host))) [
          | inr (ip, e) ↦ rw e tt
          | inl e ↦
              elim (Sum-cases
                (env.resolve host (unwrap_or (if scheme == "http" then 80 else 443) port))) [
                  | inl (x, f) ↦ rw (e, f) (failed-Q _)
                  | inr (ips, f) ↦ rw (e, f) (choose_pinned-refuses host ips)
                ]
        ]

    check_host-refuses : (host : String) (u : Url) → IfLeft Q (check_host env row now host u)
    unfolding check_host
    check_host-refuses host u =
        let trusted = is_trusted parser policy (text host) in
        elim (Bool-cases (scheme_ok env row now u.scheme trusted)) [
          | inr e ↦ rw e (refuse-Q _)
          | inl e ↦ elim (Bool-cases (not trusted && denied_name parser (text host))) [
            | inl f ↦ rw (e, f) (refuse-Q _)
            | inr f ↦
                rw (e, f) (choose_client-refuses host u.scheme u.port_or_known_default trusted)
          ]
        ]

    choose_target-refuses : (url : Option String) → IfLeft Q (choose_target env row now url)
    unfolding choose_target
    choose_target-refuses none = refuse-Q _
    choose_target-refuses (some s) = elim (Option-cases (parse_url s)) [
      | inl e ↦ rw (choose_target, e) (refuse-Q _)
      | inr (u, e) ↦ elim (Option-cases u.host_str) [
        | inl f ↦ rw (choose_target, e, f) (refuse-Q _)
        | inr (host, f) ↦ rw (choose_target, e, f) (check_host-refuses host u)
      ]
    ]

  refuse-quiet : (e : String) → post_of (refuse env row now e) ≡ none
  unfolding refuse post_of
  refuse-quiet e = refl

  failed-quiet : (e : String) → post_of (resolve_failed env row now e) ≡ none
  unfolding resolve_failed post_of
  failed-quiet e = elim (Bool-cases (leb (max_attempts_of row) (attempt_number row))) [
    | inl h ↦ rw h refl
    | inr h ↦ rw h refl
  ]

  broken-quiet : (e : String) → post_of (Delivery.broken e) ≡ none
  unfolding post_of
  broken-quiet e = refl

  pub choose_target-inl :
      (url : Option String) (d : Delivery)
      → choose_target env row now url ≡ inl d
      → post_of d ≡ none
  choose_target-inl url d h = subst (IfLeft (λ r. post_of r ≡ none)) h (
      choose_target-refuses (λ r. post_of r ≡ none) refuse-quiet failed-quiet
        (λ host ips e _. broken-quiet e) url)

  refuse-recorded : (e : String) → is_recorded (refuse env row now e) ≡ true
  unfolding refuse is_recorded
  refuse-recorded e = refl

  failed-recorded : (e : String) → is_recorded (resolve_failed env row now e) ≡ true
  unfolding resolve_failed is_recorded
  failed-recorded e = elim (Bool-cases (leb (max_attempts_of row) (attempt_number row))) [
    | inl h ↦ rw h refl
    | inr h ↦ rw h refl
  ]

  send_page-recorded :
      (client : Client) (url : String) (body : Option Bytes)
      → is_recorded (send_page env row now client url body) ≡ true
  unfolding send_page send_signed is_recorded
  send_page-recorded client url none = refuse-recorded "webhook_body_missing"
  send_page-recorded client url (some body) =
      elim (Sum-cases (
        open_secret env row now row.webhook_secret_nonce row.webhook_secret_ciphertext
          row.webhook_secret_kid)) [
            | inl (x, f) ↦ rw (send_signed, f) (refuse-recorded x)
            | inr (secret, f) ↦ rw (send_signed, f) refl
          ]

  -- Where every client can be built, every attempt is recorded.
  pub deliver_one-recorded :
      ((host : String) (ips : List IpAddr) → env.build_error host ips ≡ none)
      → is_recorded (deliver_one env row now) ≡ true
  unfolding deliver_one
  deliver_one-recorded build = elim (Sum-cases (choose_target env row now row.webhook_url)) [
    | inl (d, e) ↦
        rw (deliver_one, e)
          (subst (IfLeft (λ r. is_recorded r ≡ true)) e (
            choose_target-refuses (λ r. is_recorded r ≡ true) refuse-recorded failed-recorded
              (λ host ips x q. absurd (ground (arith, build host ips))) row.webhook_url))
    | inr (client, e) ↦ rw (deliver_one, e) (send_page-recorded client _ row.body)
  ]

  refuse-Marks : (e : String) → RecordsMark (refuse env row now e)
  unfolding refuse RecordsMark IsMarked attempt_mark DefersTo
  refuse-Marks e = (refl, refl, tt, λ _. refl)

  broken-Marks : (e : String) → RecordsMark (Delivery.broken e)
  unfolding RecordsMark
  broken-Marks e = tt

  -- Times are below the end of i64.
  module _ (soon : now ≤ℤ pos (2 ^ 63 - 2)) where
    retry_at-later : leb_ℤ (retry_at env row now) now ≡ false
    unfolding retry_at
    retry_at-later =
        (next_attempt_at-bounds env.jitter (retry_base_of row) (retry_max_of row)
          (attempt_number row) now soon).0

    failed-Marks : (e : String) → RecordsMark (resolve_failed env row now e)
    unfolding resolve_failed RecordsMark IsMarked attempt_mark DefersTo
    failed-Marks e = elim (Bool-cases (leb (max_attempts_of row) (attempt_number row))) [
      | inl h ↦ rw h (refl, refl, tt, λ _. refl)
      | inr h ↦ rw h (refl, refl, retry_at-later, λ t. absurd (ground (arith, h)))
    ]

    after_response-Marks :
        (status : Option ℕ) (error : Option String)
        → IsMarked (after_response env row now status error)
    unfolding after_response IsMarked attempt_mark DefersTo is_spent
    after_response-Marks status error = elim (Bool-cases (is_success env row now status)) [
      | inl h ↦ rw h (refl, refl, tt, λ _. refl)
      | inr h ↦ elim (Bool-cases (is_spent env row now (unwrap_or 0 status))) [
        | inl s ↦ rw (h, s) (refl, refl, tt, λ _. refl)
        | inr s ↦ rw (h, s) (refl, refl, retry_at-later, λ t. absurd (ground (arith, s)))
      ]
    ]

    send_signed-Marks :
        (client : Client) (url : String) (body : Bytes) (secret : String ⊎ Bytes)
        → RecordsMark (send_signed env row now client url body secret)
    unfolding send_signed RecordsMark
    send_signed-Marks client url body (inl e) = refuse-Marks e
    send_signed-Marks client url body (inr secret) =
        let r = response_of env row now (env.send (request env row now client url body secret)) in
        after_response-Marks r.0 r.1

    send_page-Marks :
        (client : Client) (url : String) (body : Option Bytes)
        → RecordsMark (send_page env row now client url body)
    unfolding send_page
    send_page-Marks client url none = refuse-Marks _
    send_page-Marks client url (some body) = send_signed-Marks client url body _

    -- Every recorded attempt is marked so.
    pub deliver_one-Marks : RecordsMark (deliver_one env row now)
    unfolding deliver_one
    deliver_one-Marks = elim (Sum-cases (choose_target env row now row.webhook_url)) [
      | inl (d, e) ↦
          rw (deliver_one, e)
            (subst (IfLeft RecordsMark) e (
              choose_target-refuses RecordsMark refuse-Marks failed-Marks
                (λ host ips x _. broken-Marks x) row.webhook_url))
      | inr (client, e) ↦ rw (deliver_one, e) (send_page-Marks client _ row.body)
    ]

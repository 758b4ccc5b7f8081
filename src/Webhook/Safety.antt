-- ===== src/Webhook/Safety.antt =====
-- Where the webhook deliverer may send (`deliver_one` of
-- crates/telegram-bulk-delivery/src/webhook.rs).
use telegram_bot_delivery_en.Base.{
  ℕ, String, ◌≡◌, refl, sym, ap, ◌⊎◌, inl, inr, Bool, true, false, List, Option, none, some, ℤ,
  ◌==◌, string_eq, if◌then◌else◌, any, All, arith, Bool-cases, Option-cases, eq_of_test,
}
use telegram_bot_delivery_en.Webhook.Pages.{Bytes, is_empty}
use telegram_bot_delivery_en.Webhook.Addresses.{IpAddr, is_denied_ip}
use telegram_bot_delivery_en.Webhook.Ranges.{IsOutside, is_denied_ip-IsOutside, any-IsOutside}
use telegram_bot_delivery_en.Webhook.Hosts.{
  text, parse_ip_literal, denied_name, is_trusted, unwrap_or,
}
use telegram_bot_delivery_en.Webhook.Literals.{NoSpace, denied_name-literal}
use telegram_bot_delivery_en.Webhook.Deliver.{
  Url, Client, Post, DeliveryEnv, refuse, scheme_ok, choose_pinned, choose_client, check_host,
  choose_target, request, send_signed, send_page, deliver_one,
}
use telegram_bot_delivery_en.Webhook.Outcomes.{Sum-cases, post_of, choose_target-inl}
use telegram_bot_delivery_en.Store.Reader.Rows.{WebhookPageRow}

-- The host of a parsed URL has no white space.
abbrev pub CleanHosts : DeliveryEnv → Type 0
CleanHosts env =
    (url : String) (u : Url) (host : String)
    → env.parse_url url ≡ some u
    → u.host_str ≡ some host
    → NoSpace (text host)

module _ (env : DeliveryEnv) (row : WebhookPageRow) (now : ℤ) where
  open env use {parser, policy, parse_url}

  -- Only addresses outside the denied ranges: the one that the host spells, or all of those, at least
  -- one, to which the client is pinned.
  unfoldable pub ReachesOutside : String → Client → Type 0
  ReachesOutside host client =
      ((ip : IpAddr) × (parse_ip_literal parser (text host) ≡ some ip)
        × IsOutside ip
        × (client ≡ Client.shared))
      ⊎ ((ips : List IpAddr) × (client ≡ Client.pinned host ips)
          × (is_empty ips ≡ false)
          × All IsOutside ips)

  -- A host that the operator trusts, by HTTPS or by the HTTP that the operator allows; or by HTTPS
  -- to addresses outside the denied ranges.
  unfoldable pub IsAllowed : Url → String → Client → Type 0
  IsAllowed u host client =
      ((is_trusted parser policy (text host) ≡ true)
        × ((u.scheme ≡ "https") ⊎ ((u.scheme ≡ "http") × (policy.allow_insecure_http ≡ true)))
        × (client ≡ Client.shared))
      ⊎ ((is_trusted parser policy (text host) ≡ false)
          × (u.scheme ≡ "https")
          × (denied_name parser (text host) ≡ false)
          × ReachesOutside host client)

  choose_pinned-inr :
      (host : String) (ips : List IpAddr) (client : Client)
      → choose_pinned env row now host ips ≡ inr client
      → (client ≡ Client.pinned host ips) × (is_empty ips ≡ false) × (any is_denied_ip ips ≡ false)
  unfolding choose_pinned
  choose_pinned-inr host ips client h = elim (Option-cases (env.build_error host ips)) [
    | inl e ↦ ground arith
    | inr (x, e) ↦ ground arith
  ]

  choose_client-inr :
      (host scheme : String) (port : Option ℕ) (client : Client)
      → NoSpace (text host)
      → denied_name parser (text host) ≡ false
      → choose_client env row now host scheme port false ≡ inr client
      → ReachesOutside host client
  unfolding choose_client ReachesOutside
  choose_client-inr host scheme port client clean named h =
      elim (Option-cases (parse_ip_literal parser (text host))) [
        | inr (ip, e) ↦ elim (Bool-cases (is_denied_ip ip)) [
          | inl d ↦ absurd (ground (arith, denied_name-literal parser (text host) ip clean e d))
          | inr d ↦ inl (ip, e, is_denied_ip-IsOutside ip d, ground arith)
        ]
        | inl e ↦
            let r = env.resolve host (unwrap_or (if scheme == "http" then 80 else 443) port) in
            elim (Sum-cases r) [
              | inl (x, f) ↦ absurd (ground arith)
              | inr (ips, f) ↦
                  let (q, full, public) = choose_pinned-inr host ips client (ground arith) in
                  inr (ips, q, full, any-IsOutside ips public)
            ]
      ]

  trusted-inr :
      (host scheme : String) (port : Option ℕ) (client : Client)
      → choose_client env row now host scheme port true ≡ inr client
      → client ≡ Client.shared
  unfolding choose_client
  trusted-inr host scheme port client h = ground arith

  scheme_ok-true :
      (scheme : String) (trusted : Bool)
      → scheme_ok env row now scheme trusted ≡ true
      → (scheme ≡ "https")
        ⊎ ((scheme ≡ "http") × (policy.allow_insecure_http ≡ true) × (trusted ≡ true))
  unfolding scheme_ok
  scheme_ok-true scheme trusted h = elim (Bool-cases (scheme == "https")) [
    | inl e ↦ inl (eq_of_test scheme "https" e)
    | inr e ↦ elim (Bool-cases (scheme == "http")) [
      | inl f ↦ inr (eq_of_test scheme "http" f, ground arith, ground arith)
      | inr f ↦ absurd (ground arith)
    ]
  ]

  check_host-inr :
      (host : String) (u : Url) (client : Client)
      → NoSpace (text host)
      → check_host env row now host u ≡ inr client
      → IsAllowed u host client
  unfolding check_host IsAllowed
  check_host-inr host u client clean h =
      let trusted = is_trusted parser policy (text host) in
      elim (Bool-cases (scheme_ok env row now u.scheme trusted)) [
        | inr e ↦ absurd (ground arith)
        | inl e ↦ elim (Bool-cases trusted) [
          | inl t ↦ elim (scheme_ok-true u.scheme trusted e) [
            | inl s ↦
                inl (
                  t,
                  inl s,
                  trusted-inr host u.scheme u.port_or_known_default client (ground arith),
                )
            | inr s ↦ inl (
              t,
              inr (s.0, s.1),
              trusted-inr host u.scheme u.port_or_known_default client (ground arith),
            )
          ]
          | inr t ↦ elim (scheme_ok-true u.scheme trusted e) [
            | inr s ↦ absurd (ground arith)
            | inl s ↦
                let named : denied_name parser (text host) ≡ false = ground arith in
                inr (
                  t,
                  s,
                  named,
                  choose_client-inr host u.scheme u.port_or_known_default client clean named
                      (rw (e, t, named) at h),
                )
          ]
        ]
      ]

  -- Where a page's URL leads.
  unfoldable pub LeadsTo : Client → Option String → Type 0
  LeadsTo client url =
      (s : String) × (u : Url) × (host : String) × (url ≡ some s)
      × (parse_url s ≡ some u)
      × (u.host_str ≡ some host)
      × IsAllowed u host client

  choose_target-inr :
      (url : Option String) (client : Client)
      → CleanHosts env
      → choose_target env row now url ≡ inr client
      → LeadsTo client url
  unfolding choose_target LeadsTo
  choose_target-inr none client clean h = absurd (ground arith)
  choose_target-inr (some s) client clean h = elim (Option-cases (parse_url s)) [
    | inl e ↦ absurd (ground arith)
    | inr (u, e) ↦ elim (Option-cases u.host_str) [
      | inl f ↦ absurd (ground arith)
      | inr (host, f) ↦
          (s, u, host, refl, e, f, check_host-inr host u client (clean s u host e f) (ground arith))
    ]
  ]

  send_signed-client :
      (client : Client) (url : String) (body : Bytes) (secret : String ⊎ Bytes) (post : Post)
      → post_of (send_signed env row now client url body secret) ≡ some post
      → (post.client ≡ client) × (post.url ≡ url)
  unfolding send_signed request refuse post_of
  send_signed-client client url body (inl e) post h = absurd (ground arith)
  send_signed-client client url body (inr secret) post h =
      let same : request env row now client url body secret ≡ post = ground arith in
      (ap (λ p. p.client) (sym same), ap (λ p. p.url) (sym same))

  send_page-client :
      (client : Client) (url : String) (body : Option Bytes) (post : Post)
      → post_of (send_page env row now client url body) ≡ some post
      → (post.client ≡ client) × (post.url ≡ url)
  unfolding send_page refuse post_of
  send_page-client client url none post h = absurd (ground arith)
  send_page-client client url (some body) post h = send_signed-client client url body _ post h

  -- A page is sent only where its URL leads, as it stands in the configuration.
  unfoldable pub SentAsAllowed : Post → Type 0
  SentAsAllowed post = (row.webhook_url ≡ some post.url) × LeadsTo post.client row.webhook_url

  -- Every host of a parsed URL is without white space. Then a request of the deliverer goes to the
  -- configured URL, and either to a host that the operator trusts, by HTTPS or by the HTTP that the
  -- operator allows, or by HTTPS to addresses that are all outside these ranges: 0.0.0.0/8, 10.0.0.0/8,
  -- 100.64.0.0/10, 127.0.0.0/8, 169.254.0.0/16, 172.16.0.0/12, 192.168.0.0/16, 224.0.0.0/3, those
  -- embedded in ::ffff:0:0/96, ::/127, 64:ff9b::/96, fc00::/7, fe80::/10 and ff00::/8. The addresses are
  -- the one that the host spells, or those, at least one, to which the connection is pinned.
  pub deliver_one-SentAsAllowed :
      CleanHosts env
      → (post : Post) → post_of (deliver_one env row now) ≡ some post
      → SentAsAllowed post
  unfolding deliver_one SentAsAllowed LeadsTo
  deliver_one-SentAsAllowed clean post h =
      elim (Sum-cases (choose_target env row now row.webhook_url)) [
        | inl (d, e) ↦
            let quiet = choose_target-inl env row now row.webhook_url d e in
            absurd (ground (arith, quiet))
        | inr (client, e) ↦
            let (s, u, host, q, p, f, allowed) = choose_target-inr row.webhook_url client clean e in
            let (same, to) =
              send_page-client client (unwrap_or "" row.webhook_url) row.body post
                (rw (deliver_one, e) at h) in
            let url : row.webhook_url ≡ some post.url = rw (to, q) refl in
            (url, rw same (s, u, host, q, p, f, allowed))
      ]

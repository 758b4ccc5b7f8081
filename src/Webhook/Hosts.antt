-- ===== src/Webhook/Hosts.antt =====
-- Host names of webhook targets (`normalize_host`, `parse_ip_literal`, `denied_name` and
-- `WebhookSsrPolicy` in crates/telegram-bulk-delivery/src/webhook.rs). A name is its code points.
use Prim.Native.Char.{code}
use telegram_bot_delivery_en.Base.{
  ℕ, ◌+◌, ◌-◌, ◌*◌, ◌/◌, ◌%◌, ◌^◌, String, Bool, true, false, ◌&&◌, ◌||◌, List, [], ◌∷◌, Option,
  none, some, ltb, leb, nat_beq, if◌then◌else◌, any, map,
}
use telegram_bot_delivery_en.Meta.Lookup.{to_ascii_lowercase, codes_beq}
use telegram_bot_delivery_en.Webhook.Pages.{is_empty}
use telegram_bot_delivery_en.Webhook.Addresses.{
  IpAddr, Ipv4Addr, Ipv6Addr, same_ip, is_some_and, is_denied_ip,
}

abbrev pub Text : Type 0
Text = List ℕ

abbrev pub text : String → Text
text String.[] = []
text (String.◌∷◌ c s) = code c ∷ text s

-- Rust's parsers of addresses, on text.
pub record AddressParser : Type 0 where
  pub parse_ip : Text → Option IpAddr
  pub parse_v6 : Text → Option Ipv6Addr

abbrev pub is_dot : ℕ → Bool
is_dot c = nat_beq c b'.'

-- Unicode's White_Space, which `trim` removes.
unfoldable pub is_space : ℕ → Bool
is_space c =
    (leb 9 c && leb c 13)
    || nat_beq c 0x20
    || nat_beq c 0x85
    || nat_beq c 0xa0
    || nat_beq c 0x1680
    || (leb 0x2000 c && leb c 0x200a)
    || nat_beq c 0x2028
    || nat_beq c 0x2029
    || nat_beq c 0x202f
    || nat_beq c 0x205f
    || nat_beq c 0x3000

unfoldable pub trim_end : (ℕ → Bool) → Text → Text
trim_end p [] = []
trim_end p (c ∷ cs) = let rest = trim_end p cs in if is_empty rest && p c then [] else c ∷ rest

unfoldable pub trim_start : (ℕ → Bool) → Text → Text
trim_start p [] = []
trim_start p (c ∷ cs) = if p c then trim_start p cs else c ∷ cs

unfoldable pub normalize_host : Text → Text
unfolding trim_end trim_start is_space
normalize_host h =
    map to_ascii_lowercase (trim_end is_space (trim_start is_space (trim_end is_dot h)))

unfoldable pub strip_prefix : Text → Text → Option Text
strip_prefix [] cs = some cs
strip_prefix (p ∷ ps) [] = none
strip_prefix (p ∷ ps) (c ∷ cs) = if nat_beq p c then strip_prefix ps cs else none

unfoldable pub starts_with : Text → Text → Bool
starts_with [] cs = true
starts_with (p ∷ ps) [] = false
starts_with (p ∷ ps) (c ∷ cs) = nat_beq p c && starts_with ps cs

-- A suffix from some place on.
unfoldable pub ends_with : Text → Text → Bool
ends_with suffix [] = codes_beq suffix []
ends_with suffix (c ∷ cs) = codes_beq suffix (c ∷ cs) || ends_with suffix cs

-- `strip_suffix("]")`.
unfoldable pub strip_bracket : Text → Option Text
strip_bracket [] = none
strip_bracket (c ∷ []) = if nat_beq c b']' then some [] else none
strip_bracket (c ∷ d ∷ cs) = elim (strip_bracket (d ∷ cs)) [
  | some rest ↦ some (c ∷ rest)
  | none ↦ none
]

abbrev pub decimal_digit : ℕ → Option ℕ
decimal_digit c = if leb b'0' c && leb c b'9' then some (c - b'0') else none

abbrev pub hex_digit : ℕ → Option ℕ
hex_digit c =
    if leb b'0' c && leb c b'9'
    then some (c - b'0')
    else if leb b'a' c && leb c b'f'
    then some (c - b'a' + 10)
    else if leb b'A' c && leb c b'F'
    then some (c - b'A' + 10)
    else none

-- Digits to a u32; overflow and other characters are errors.
unfoldable pub parse_digits : ℕ → (ℕ → Option ℕ) → ℕ → Text → Option ℕ
parse_digits radix digit n [] = some n
parse_digits radix digit n (c ∷ cs) = elim (digit c) [
  | some d ↦
      let m = n * radix + d in
      let rest = parse_digits radix digit m cs in if ltb m (2 ^ 32) then rest else none
  | none ↦ none
]

-- `u32::from_str_radix`: an optional plus, then one digit at least.
unfoldable pub parse_u32 : ℕ → (ℕ → Option ℕ) → Text → Option ℕ
unfolding parse_digits
parse_u32 radix digit [] = none
parse_u32 radix digit (c ∷ cs) =
    if nat_beq c b'+'
    then (if is_empty cs then none else parse_digits radix digit 0 cs)
    else parse_digits radix digit 0 (c ∷ cs)

infixl 5 ◌or_else◌
abbrev pub ◌or_else◌ {ℓ} : {A : Type ℓ} → Option A → Option A → Option A
some a or_else o = some a
none or_else o = o

abbrev pub and_then {ℓ κ} : {A : Type ℓ} {B : Type κ} → Option A → (A → Option B) → Option B
and_then (some a) f = f a
and_then none f = none

abbrev pub unwrap_or {ℓ} : {A : Type ℓ} → A → Option A → A
unwrap_or d (some a) = a
unwrap_or d none = d

abbrev pub map_option {ℓ κ} : {A : Type ℓ} {B : Type κ} → (A → B) → Option A → Option B
map_option f (some a) = some (f a)
map_option f none = none

unfoldable pub v4_of_u32 : ℕ → Ipv4Addr
v4_of_u32 n = record { a = n / 2 ^ 24; b = n / 2 ^ 16 % 256; c = n / 2 ^ 8 % 256; d = n % 256 }

pub record WebhookSsrPolicy : Type 0 where
  pub allow_insecure_http : Bool
  pub trusted_hosts : List String

module _ (parser : AddressParser) where
  open parser use {parse_ip, parse_v6}

  -- An address, an IPv6 address in brackets, or a 32-bit number in decimal or hexadecimal.
  unfoldable pub parse_ip_literal : Text → Option IpAddr
  unfolding normalize_host strip_prefix strip_bracket parse_u32 v4_of_u32
  parse_ip_literal host0 =
      let host = normalize_host host0 in
      parse_ip host
      or_else map_option IpAddr.v6
          (parse_v6 (unwrap_or host (and_then (strip_prefix (text "[") host) strip_bracket)))
      or_else map_option (λ n. IpAddr.v4 (v4_of_u32 n))
          (parse_u32 10 decimal_digit host
            or_else and_then (strip_prefix (text "0x") host) (parse_u32 16 hex_digit)
            or_else and_then (strip_prefix (text "0X") host) (parse_u32 16 hex_digit))

  abbrev pub denied_names : List Text
  denied_names =
      text "localhost"
      ∷ text "localhost.localdomain"
      ∷ text "localhost.localhost"
      ∷ text "metadata"
      ∷ text "metadata.google.internal"
      ∷ text "metadata.google.com"
      ∷ text "instance-data"
      ∷ text "169.254.169.254"
      ∷ text "0.0.0.0"
      ∷ []

  abbrev pub denied_suffixes : List Text
  denied_suffixes = text ".internal" ∷ text ".localhost" ∷ text ".local" ∷ []

  unfoldable pub denied_name : Text → Bool
  unfolding normalize_host ends_with parse_ip_literal
  denied_name host0 =
      let h = normalize_host host0 in
      any (codes_beq h) denied_names
      || any (λ suffix. ends_with suffix h) denied_suffixes
      || is_some_and is_denied_ip (parse_ip_literal h)

  -- Addresses are compared as addresses, other names as names.
  unfoldable pub is_trusted : WebhookSsrPolicy → Text → Bool
  unfolding normalize_host parse_ip_literal
  is_trusted policy host = elim (parse_ip_literal host) [
    | some ip ↦ any (λ t. is_some_and (same_ip ip) (parse_ip_literal (text t))) policy.trusted_hosts
    | none ↦
        any (λ t. codes_beq (normalize_host (text t)) (normalize_host host)) policy.trusted_hosts
  ]

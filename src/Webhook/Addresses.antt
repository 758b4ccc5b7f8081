-- ===== src/Webhook/Addresses.antt =====
-- The address rules for webhook targets (`is_denied_ip`, `never_trustable` in
-- crates/telegram-bulk-delivery/src/webhook.rs).
use telegram_bot_delivery_en.Base.{
  ℕ, ◌/◌, ◌%◌, ◌^◌, ◌≡◌, Bool, false, not, ◌&&◌, ◌||◌, Option, none, some, leb, nat_beq,
  if◌then◌else◌, arith, inl, inr, Option-cases,
}

-- Four octets.
pub record Ipv4Addr : Type 0 where
  pub a : ℕ
  pub b : ℕ
  pub c : ℕ
  pub d : ℕ

-- Eight segments of 16 bits.
pub record Ipv6Addr : Type 0 where
  pub s0 : ℕ
  pub s1 : ℕ
  pub s2 : ℕ
  pub s3 : ℕ
  pub s4 : ℕ
  pub s5 : ℕ
  pub s6 : ℕ
  pub s7 : ℕ

pub data IpAddr : Type 0 where
  v4 : Ipv4Addr → IpAddr
  v6 : Ipv6Addr → IpAddr

abbrev pub same_v4 : Ipv4Addr → Ipv4Addr → Bool
same_v4 x y = nat_beq x.a y.a && nat_beq x.b y.b && nat_beq x.c y.c && nat_beq x.d y.d

abbrev pub same_v6 : Ipv6Addr → Ipv6Addr → Bool
same_v6 x y =
    nat_beq x.s0 y.s0
    && nat_beq x.s1 y.s1
    && nat_beq x.s2 y.s2
    && nat_beq x.s3 y.s3
    && nat_beq x.s4 y.s4
    && nat_beq x.s5 y.s5
    && nat_beq x.s6 y.s6
    && nat_beq x.s7 y.s7

abbrev pub same_ip : IpAddr → IpAddr → Bool
same_ip (IpAddr.v4 x) (IpAddr.v4 y) = same_v4 x y
same_ip (IpAddr.v6 x) (IpAddr.v6 y) = same_v6 x y
same_ip _ _ = false

-- `ip & mask == value` for a mask of the high bits of a segment, all but the low `k`.
abbrev pub high_bits_are : ℕ → ℕ → ℕ → Bool
high_bits_are k segment value = nat_beq (segment / 2 ^ k) (value / 2 ^ k)

unfoldable pub to_ipv4_mapped : Ipv6Addr → Option Ipv4Addr
to_ipv4_mapped s =
    if nat_beq s.s0 0
      && nat_beq s.s1 0
      && nat_beq s.s2 0
      && nat_beq s.s3 0
      && nat_beq s.s4 0
      && nat_beq s.s5 0xffff
    then some (record { a = s.s6 / 256; b = s.s6 % 256; c = s.s7 / 256; d = s.s7 % 256 })
    else none

unfoldable pub is_denied_v4 : Ipv4Addr → Bool
is_denied_v4 o =
    nat_beq o.a 0
    || nat_beq o.a 127
    || nat_beq o.a 10
    || (nat_beq o.a 172 && (leb 16 o.b && leb o.b 31))
    || (nat_beq o.a 192 && nat_beq o.b 168)
    || (nat_beq o.a 169 && nat_beq o.b 254)
    || (nat_beq o.a 100 && (leb 64 o.b && leb o.b 127))
    || leb 224 o.a

abbrev pub unspecified_v6 : Ipv6Addr
unspecified_v6 = record { s0 = 0; s1 = 0; s2 = 0; s3 = 0; s4 = 0; s5 = 0; s6 = 0; s7 = 0 }

abbrev pub loopback_v6 : Ipv6Addr
loopback_v6 = record unspecified_v6 { s7 = 1 }

-- AWS's metadata address.
abbrev pub aws_metadata_v6 : Ipv6Addr
aws_metadata_v6 = record unspecified_v6 { s0 = 0xfd00; s1 = 0xec2; s7 = 0x254 }

-- What an IPv6 address is judged by, apart from an embedded IPv4 address.
unfoldable pub is_denied_v6 : Ipv6Addr → Bool
is_denied_v6 s =
    same_v6 s unspecified_v6
    || same_v6 s loopback_v6
    || high_bits_are 9 s.s0 0xfc00
    || high_bits_are 6 s.s0 0xfe80
    || high_bits_are 8 s.s0 0xff00
    || (nat_beq s.s0 0x64
        && nat_beq s.s1 0xff9b
        && nat_beq s.s2 0
        && nat_beq s.s3 0
        && nat_beq s.s4 0
        && nat_beq s.s5 0)

abbrev pub is_some_and {ℓ} : {A : Type ℓ} → (A → Bool) → Option A → Bool
is_some_and p (some a) = p a
is_some_and p none = false

unfoldable pub is_denied_ip : IpAddr → Bool
is_denied_ip (IpAddr.v4 o) = is_denied_v4 o
is_denied_ip (IpAddr.v6 s) = is_denied_v6 s || is_some_and is_denied_v4 (to_ipv4_mapped s)

unfoldable pub never_trustable_v4 : Ipv4Addr → Bool
never_trustable_v4 o =
    nat_beq o.a 0
    || (nat_beq o.a 169 && nat_beq o.b 254)
    || leb 224 o.a
    || same_v4 o (record { a = 100; b = 100; c = 100; d = 200 })
    || same_v4 o (record { a = 168; b = 63; c = 129; d = 16 })

unfoldable pub never_trustable_v6 : Ipv6Addr → Bool
never_trustable_v6 s =
    same_v6 s unspecified_v6
    || high_bits_are 6 s.s0 0xfe80
    || high_bits_are 6 s.s0 0xfec0
    || high_bits_are 8 s.s0 0xff00
    || same_v6 s aws_metadata_v6

-- Judged by the embedded IPv4 address where there is one.
abbrev pub by_mapped : (Ipv4Addr → Bool) → (Ipv6Addr → Bool) → Ipv6Addr → Option Ipv4Addr → Bool
by_mapped p q s (some o) = p o
by_mapped p q s none = q s

unfoldable pub never_trustable : IpAddr → Bool
never_trustable (IpAddr.v4 o) = never_trustable_v4 o
never_trustable (IpAddr.v6 s) = by_mapped never_trustable_v4 never_trustable_v6 s (to_ipv4_mapped s)

-- Azure's WireServer, and the deprecated site-local addresses fec0::/10.
abbrev pub is_wire_server : Ipv4Addr → Bool
is_wire_server o = same_v4 o (record { a = 168; b = 63; c = 129; d = 16 })

abbrev pub is_site_local : Ipv6Addr → Bool
is_site_local s = high_bits_are 6 s.s0 0xfec0

unfoldable pub is_overlooked : IpAddr → Bool
is_overlooked (IpAddr.v4 o) = is_wire_server o
is_overlooked (IpAddr.v6 s) = by_mapped is_wire_server is_site_local s (to_ipv4_mapped s)

overlooked_v4 : (o : Ipv4Addr) → (never_trustable_v4 o && not (is_denied_v4 o)) ≡ is_wire_server o
unfolding never_trustable_v4 is_denied_v4
overlooked_v4 o = ground arith

overlooked_v6 : (s : Ipv6Addr) → (never_trustable_v6 s && not (is_denied_v6 s)) ≡ is_site_local s
unfolding never_trustable_v6 is_denied_v6
overlooked_v6 s = ground arith

mapped-is_denied_v6 :
    (s : Ipv6Addr) {o : Ipv4Addr} → to_ipv4_mapped s ≡ some o → is_denied_v6 s ≡ false
unfolding to_ipv4_mapped is_denied_v6
mapped-is_denied_v6 s h = ground arith

-- The addresses that no operator may trust but that a webhook without trust may reach are Azure's
-- WireServer, also where it is embedded in IPv6, and fec0::/10, and no others.
pub never_trustable-is_overlooked :
    (ip : IpAddr) → (never_trustable ip && not (is_denied_ip ip)) ≡ is_overlooked ip
unfolding never_trustable is_denied_ip is_overlooked
never_trustable-is_overlooked (IpAddr.v4 o) = overlooked_v4 o
never_trustable-is_overlooked (IpAddr.v6 s) = elim (Option-cases (to_ipv4_mapped s)) [
  | inl e ↦ rw e (ground (arith, overlooked_v6 s))
  | inr (o, e) ↦ rw (e, mapped-is_denied_v6 s e) (overlooked_v4 o)
]

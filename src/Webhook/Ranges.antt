-- ===== src/Webhook/Ranges.antt =====
-- The address ranges that a webhook without trust never reaches, written as numbers, and that
-- `is_denied_ip` of crates/telegram-bulk-delivery/src/webhook.rs denies them all.
use telegram_bot_delivery_en.Base.{
  ℕ, ◌+◌, ◌/◌, ◌%◌, ◌<◌, ◌≡◌, ◌≢◌, ◌⊎◌, inl, inr, false, List, [], ◌∷◌, All, any, ltb, nat_beq,
  arith, Bool-cases,
}
use telegram_bot_delivery_en.Webhook.Addresses.{
  Ipv4Addr, Ipv6Addr, IpAddr, is_denied_v4, is_denied_v6, is_denied_ip, to_ipv4_mapped,
}

abbrev Beyond : ℕ → ℕ → ℕ → Type 0
Beyond first last n = (n < first) ⊎ (last < n)

-- Outside 0.0.0.0/8, 10.0.0.0/8, 127.0.0.0/8, 224.0.0.0/3, 172.16.0.0/12, 192.168.0.0/16,
-- 169.254.0.0/16 and 100.64.0.0/10.
unfoldable pub IsOutsideV4 : Ipv4Addr → Type 0
IsOutsideV4 o =
    (o.a ≢ 0)
    × (o.a ≢ 10)
    × (o.a ≢ 127)
    × (o.a < 224)
    × ((o.a ≢ 172) ⊎ Beyond 16 31 o.b)
    × ((o.a ≢ 192) ⊎ (o.b ≢ 168))
    × ((o.a ≢ 169) ⊎ (o.b ≢ 254))
    × ((o.a ≢ 100) ⊎ Beyond 64 127 o.b)

-- Outside ::/127, fc00::/7, fe80::/10, ff00::/8 and 64:ff9b::/96.
unfoldable pub IsOutsideV6 : Ipv6Addr → Type 0
IsOutsideV6 s =
    ((0 < s.s0 + s.s1 + s.s2 + s.s3 + s.s4 + s.s5 + s.s6) ⊎ (1 < s.s7))
    × Beyond 0xfc00 0xfdff s.s0
    × Beyond 0xfe80 0xfebf s.s0
    × Beyond 0xff00 0xffff s.s0
    × ((s.s0 ≢ 0x64) ⊎ ((s.s1 ≢ 0xff9b) ⊎ (0 < s.s2 + s.s3 + s.s4 + s.s5)))

-- And outside ::ffff:0:0/96 for an IPv4 address in a range above.
unfoldable pub IsOutside : IpAddr → Type 0
IsOutside (IpAddr.v4 o) = IsOutsideV4 o
IsOutside (IpAddr.v6 s) =
    IsOutsideV6 s
    × ((0 < s.s0 + s.s1 + s.s2 + s.s3 + s.s4)
        ⊎ ((s.s5 ≢ 0xffff)
            ⊎ IsOutsideV4
                (record { a = s.s6 / 256; b = s.s6 % 256; c = s.s7 / 256; d = s.s7 % 256 })))

allowed_v4 : (o : Ipv4Addr) → is_denied_v4 o ≡ false → IsOutsideV4 o
unfolding is_denied_v4 IsOutsideV4
allowed_v4 o h = (
  ground arith,
  ground arith,
  ground arith,
  ground arith,
  ground arith,
  ground arith,
  ground arith,
  ground arith,
)

allowed_v6 : (s : Ipv6Addr) → is_denied_v6 s ≡ false → IsOutsideV6 s
unfolding is_denied_v6 IsOutsideV6
allowed_v6 s h = (ground arith, ground arith, ground arith, ground arith, ground arith)

embedded :
    (s : Ipv6Addr)
    → s.s0 + s.s1 + s.s2 + s.s3 + s.s4 ≡ 0
    → s.s5 ≡ 0xffff
    → is_denied_ip (IpAddr.v6 s) ≡ false
    → is_denied_v4 (record { a = s.s6 / 256; b = s.s6 % 256; c = s.s7 / 256; d = s.s7 % 256 })
      ≡ false
unfolding is_denied_ip to_ipv4_mapped
embedded s low six h = ground arith

pub is_denied_ip-IsOutside : (ip : IpAddr) → is_denied_ip ip ≡ false → IsOutside ip
unfolding is_denied_ip IsOutside to_ipv4_mapped
is_denied_ip-IsOutside (IpAddr.v4 o) h = allowed_v4 o h
is_denied_ip-IsOutside (IpAddr.v6 s) h = (
  allowed_v6 s (ground arith),
  elim (Bool-cases (ltb 0 (s.s0 + s.s1 + s.s2 + s.s3 + s.s4))) [
    | inl e ↦ inl (ground arith)
    | inr e ↦ elim (Bool-cases (nat_beq s.s5 0xffff)) [
      | inr f ↦ inr (inl (ground arith))
      | inl f ↦ inr (inr (allowed_v4 _ (embedded s (ground arith) (ground arith) (ground arith))))
    ]
  ],
)

pub any-IsOutside : (ips : List IpAddr) → any is_denied_ip ips ≡ false → All IsOutside ips
any-IsOutside [] h = tt
any-IsOutside (ip ∷ ips) h =
    (is_denied_ip-IsOutside ip (ground arith), any-IsOutside ips (ground arith))

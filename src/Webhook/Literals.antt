-- ===== src/Webhook/Literals.antt =====
-- A webhook host that spells an address is judged by that address (`denied_name` and
-- `parse_ip_literal` in crates/telegram-bulk-delivery/src/webhook.rs).
use telegram_bot_delivery_en.Base.{
  ℕ, ◌≡◌, refl, ◌∙◌, Bool, true, false, ◌&&◌, [], ◌∷◌, some, All, map, arith, inl, inr, Bool-cases,
}
use telegram_bot_delivery_en.Meta.Lookup.{to_ascii_lowercase}
use telegram_bot_delivery_en.Webhook.Pages.{is_empty}
use telegram_bot_delivery_en.Webhook.Addresses.{IpAddr, is_denied_ip}
use telegram_bot_delivery_en.Webhook.Hosts.{
  Text, AddressParser, is_dot, is_space, trim_end, trim_start, normalize_host, parse_ip_literal,
  denied_name,
}

-- No white space, as in every host of a parsed URL.
abbrev pub NoSpace : Text → Type 0
NoSpace = All (λ c. is_space c ≡ false)

trim_end-NoSpace : (p : ℕ → Bool) (cs : Text) → NoSpace cs → NoSpace (trim_end p cs)
unfolding trim_end
trim_end-NoSpace p [] h = tt
trim_end-NoSpace p (c ∷ cs) h = elim (Bool-cases (is_empty (trim_end p cs) && p c)) [
  | inl e ↦ rw e tt
  | inr e ↦ rw e (h.0, trim_end-NoSpace p cs h.1)
]

trim_end-none : (cs : Text) → NoSpace cs → trim_end is_space cs ≡ cs
unfolding trim_end
trim_end-none [] h = refl
trim_end-none (c ∷ cs) h = rw (trim_end-none cs h.1, h.0) (ground arith)

trim_start-none : (cs : Text) → NoSpace cs → trim_start is_space cs ≡ cs
unfolding trim_start
trim_start-none [] h = refl
trim_start-none (c ∷ cs) h = rw h.0 refl

is_space-lowercase : (c : ℕ) → is_space (to_ascii_lowercase c) ≡ is_space c
unfolding is_space
is_space-lowercase c = ground arith

is_dot-lowercase : (c : ℕ) → is_dot (to_ascii_lowercase c) ≡ is_dot c
is_dot-lowercase c = ground arith

lowercase_twice :
    (cs : Text) → map to_ascii_lowercase (map to_ascii_lowercase cs) ≡ map to_ascii_lowercase cs
lowercase_twice [] = refl
lowercase_twice (c ∷ cs) = ground (arith, lowercase_twice cs)

lowercase-NoSpace : (cs : Text) → NoSpace cs → NoSpace (map to_ascii_lowercase cs)
lowercase-NoSpace [] h = tt
lowercase-NoSpace (c ∷ cs) h = (is_space-lowercase c ∙ h.0, lowercase-NoSpace cs h.1)

is_empty-map : (cs : Text) → is_empty (map to_ascii_lowercase cs) ≡ is_empty cs
is_empty-map [] = refl
is_empty-map (c ∷ cs) = refl

trim_end-lowercase :
    (cs : Text)
    → trim_end is_dot (map to_ascii_lowercase (trim_end is_dot cs))
      ≡ map to_ascii_lowercase (trim_end is_dot cs)
unfolding trim_end
trim_end-lowercase [] = refl
trim_end-lowercase (c ∷ cs) = elim (Bool-cases (is_empty (trim_end is_dot cs) && is_dot c)) [
  | inl e ↦ rw e refl
  | inr e ↦
      rw
        (
          e,
          trim_end,
          trim_end-lowercase cs,
          is_empty-map (trim_end is_dot cs),
          is_dot-lowercase c,
          e,
        )
        refl
]

normalize_host-NoSpace :
    (h : Text) → NoSpace h → normalize_host h ≡ map to_ascii_lowercase (trim_end is_dot h)
unfolding normalize_host
normalize_host-NoSpace h clean =
    let kept = trim_end-NoSpace is_dot h clean in
    rw (trim_start-none (trim_end is_dot h) kept, trim_end-none (trim_end is_dot h) kept) refl

normalize_host_twice : (h : Text) → NoSpace h → normalize_host (normalize_host h) ≡ normalize_host h
normalize_host_twice h clean =
    let low = map to_ascii_lowercase (trim_end is_dot h) in
    let low_clean = lowercase-NoSpace (trim_end is_dot h) (trim_end-NoSpace is_dot h clean) in
    rw (normalize_host-NoSpace h clean, normalize_host-NoSpace low low_clean, trim_end-lowercase h)
      (lowercase_twice (trim_end is_dot h))

-- A host without white space, as a URL has it, that spells an address the rules deny is a denied
-- name, however it is written: with capitals, dots at its end, brackets, or as one number.
pub denied_name-literal :
    (parser : AddressParser) (h : Text) (ip : IpAddr)
    → NoSpace h
    → parse_ip_literal parser h ≡ some ip
    → is_denied_ip ip ≡ true
    → denied_name parser h ≡ true
unfolding denied_name parse_ip_literal
denied_name-literal parser h ip clean e denied =
    let again : parse_ip_literal parser (normalize_host h) ≡ some ip =
      rw (normalize_host_twice h clean) e in
    ground (arith, again)

-- ===== src/Scheduler/Wdrr/Grants.antt =====
-- What `grant` of crates/telegram-bulk-delivery/src/scheduler/fairness.rs grants, and how the ring turns.
use telegram_bot_delivery_en.Base.{
  ℕ, ◌≤◌, ◌≡◌, refl, sym, ap, ◌∙◌, Bool, true, List, [], ◌∷◌, ◌++◌, some, arith, ltb, nat_eq,
  if◌then◌else◌, any, update_where, find_where, length, All, All-map, All-update_where,
  All-find_where, Bool-cases, inl, inr,
}
use telegram_bot_delivery_en.Domain.{BotId}
use telegram_bot_delivery_en.Scheduler.Wdrr.{
  Entry, Wdrr, per_bot_concurrency, is_entry, contains, inflight_of, charge, can_run, scan, grant,
}

-- A bot of the ring that is present and known.
abbrev pub Runs : Wdrr → List Entry → BotId → Type 0
Runs q entries b = (contains b q ≡ true) × (any (is_entry b) entries ≡ true)

-- Whether a bot has a free slot.
abbrev pub has_slot : List Entry → BotId → Bool
has_slot entries b = ltb (inflight_of (find_where (is_entry b) entries)) per_bot_concurrency

-- The ring after a grant: the bots that were passed over, and then the one granted, go to the back.
abbrev pub served : (BotId → Bool) → List BotId → List BotId → List BotId
served p seen [] = seen
served p seen (b ∷ rest) =
    let next = served p (seen ++ (b ∷ [])) rest in if p b then rest ++ (seen ++ (b ∷ [])) else next

append_assoc : (x y z : List BotId) → (x ++ y) ++ z ≡ x ++ (y ++ z)
append_assoc [] y z = refl
append_assoc (a ∷ x) y z = ap (λ l. a ∷ l) (append_assoc x y z)

pub known_entry :
    (b : BotId) (es : List Entry)
    → any (is_entry b) es ≡ true
    → (e : Entry) × (find_where (is_entry b) es ≡ some e)
known_entry b [] h = cc
known_entry b (e ∷ es) h = elim (Bool-cases (is_entry b e)) [
  | inl hit ↦ (e, rw hit refl)
  | inr miss ↦ let (x, found) = known_entry b es (ground arith) in (x, rw miss found)
]

-- A charge changes neither who is known nor what is in flight.
module _ (b c : BotId) (cap : ℕ) where
  any-charge :
      (es : List Entry)
      → any (is_entry c) (update_where (is_entry b) (charge cap) es) ≡ any (is_entry c) es
  any-charge [] = refl
  any-charge (e ∷ es) = ground (arith, any-charge es)

  inflight-charge :
      (es : List Entry)
      → inflight_of (find_where (is_entry c) (update_where (is_entry b) (charge cap) es))
        ≡ inflight_of (find_where (is_entry c) es)
  inflight-charge [] = refl
  inflight-charge (e ∷ es) = elim (Bool-cases (is_entry b e)) [
    | inl hit ↦ elim (Bool-cases (is_entry c e)) [
      | inl here ↦ rw (hit, here) refl
      | inr away ↦ rw (hit, away) (inflight-charge es)
    ]
    | inr miss ↦ elim (Bool-cases (is_entry c e)) [
      | inl here ↦ rw (miss, here) refl
      | inr away ↦ rw (miss, away) (inflight-charge es)
    ]
  ]

abbrev pub Weighs : Entry → Type 0
Weighs e = 1 ≤ e.weight

module _ (q : Wdrr) (p : BotId → Bool) (cap_some : 1 ≤ q.deficit_cap) where
  -- With a weight of at least one, the deficit never stops a bot that has a free slot.
  runs_by_slot :
      (e : Entry) → Weighs e → can_run (charge q.deficit_cap e) ≡ ltb e.inflight per_bot_concurrency
  runs_by_slot e w = ground arith

  scan_lem :
      (todo seen : List BotId) (es : List Entry)
      → ((c : BotId) → has_slot es c ≡ p c)
      → All (Runs q es) todo
      → All Weighs es
      → ((scan (length todo) (record q { ring = todo ++ seen; entries = es })).1
          ≡ find_where p todo)
        × ((scan (length todo) (record q { ring = todo ++ seen; entries = es })).0.ring
            ≡ served p seen todo)
  unfolding scan
  scan_lem [] seen es slots runs w = (refl, refl)
  scan_lem (b ∷ todo) seen es slots runs w =
      let (e, found) = known_entry b es runs.0.1 in
      let weighs = All-find_where Weighs (is_entry b) es found w in
      let slot : ltb e.inflight per_bot_concurrency ≡ p b =
        ap (λ o. ltb (inflight_of o) per_bot_concurrency) (sym found) ∙ slots b in
      let present : contains b q ≡ true = runs.0.0 in
      let es' = update_where (is_entry b) (charge q.deficit_cap) es in
      elim (Bool-cases (p b)) [
        | inl hit ↦
            rw (present, found, runs_by_slot e weighs ∙ (slot ∙ hit), hit, scan)
              (refl, append_assoc todo seen (b ∷ []))
        | inr miss ↦
            rw
              (
                present,
                found,
                runs_by_slot e weighs ∙ (slot ∙ miss),
                miss,
                append_assoc todo seen (b ∷ []),
                scan,
              )
              (scan_lem todo (seen ++ (b ∷ [])) es'
                (λ c.
                  ap (λ n. ltb n per_bot_concurrency) (inflight-charge b c q.deficit_cap es)
                  ∙ slots c)
                (All-map (Runs q es) (Runs q es') todo
                  (λ c r. (r.0, any-charge b c q.deficit_cap es ∙ r.1)) runs.1)
                (All-update_where Weighs Weighs (is_entry b) (charge q.deficit_cap) es (λ e h w. w)
                  (λ e h w. w) w))
      ]

append_nil : (x : List BotId) → x ++ [] ≡ x
append_nil [] = refl
append_nil (a ∷ x) = ap (λ l. a ∷ l) (append_nil x)

-- Where the ring holds known bots that are present, and weights are one or more, `grant` grants the
-- first bot of the ring that has fewer than four requests in flight, and nothing if there is none;
-- that bot and those before it go to the back of the ring, in their order. Neither weights nor
-- deficits decide which bot it is.
pub grant-first :
    (q : Wdrr)
    → All (Runs q q.entries) q.ring
    → All Weighs q.entries
    → 1 ≤ q.deficit_cap
    → ((grant q).1 ≡ find_where (has_slot q.entries) q.ring)
      × ((grant q).0.ring ≡ served (has_slot q.entries) [] q.ring)
unfolding grant
grant-first q runs w cap_some =
    simp (append_nil q.ring) at
      (scan_lem q (has_slot q.entries) cap_some q.ring [] q.entries (λ c. refl) runs w)

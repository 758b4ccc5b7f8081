-- ===== src/Scheduler/Wdrr/Keeping.antt =====
-- What every operation of `Wdrr` (crates/telegram-bulk-delivery/src/scheduler/fairness.rs) keeps.
use telegram_bot_delivery_en.Base.{
  ℕ, ◌+◌, ◌-◌, ◌≤◌, ◌<◌, ◌≡◌, refl, ap, Bool, true, false, not, ◌&&◌, List, [], ◌∷◌, ◌++◌, arith,
  ◌==◌, nat_eq, if◌then◌else◌, any, count_where, update_where, All, All-append, All-update_where,
  count_where-update_same, count_where-append, count_where-any, count-absent, Bool-cases, inl, inr,
}
use telegram_bot_delivery_en.Domain.{BotId}
use telegram_bot_delivery_en.Scheduler.Wdrr.{
  Entry, Wdrr, per_bot_concurrency, is_entry, is_bot, is_sleeping, contains, clamp_weight,
  put_entry, admits, upsert_ready, readmit, complete,
}

-- The numbers of an entry.
pub record IsBounded (e : Entry) : Type 0 where
  pub weight_low : 1 ≤ e.weight
  pub weight_high : e.weight ≤ 16
  pub deficit_high : e.deficit ≤ 64
  pub inflight_high : e.inflight ≤ per_bot_concurrency

-- The ring holds each present bot once and no other, every one of them is known, and none sleeps.
pub record Tidy (q : Wdrr) : Type 0 where
  pub ring_is_present :
      (b : BotId) → count_where (is_bot b) q.ring ≡ count_where (is_bot b) q.present
  pub once : (b : BotId) → count_where (is_bot b) q.present ≤ 1
  pub known : (b : BotId) → count_where (is_bot b) q.present ≤ count_where (is_entry b) q.entries
  pub one_entry : (b : BotId) → count_where (is_entry b) q.entries ≤ 1
  pub awake : (b : BotId) → is_sleeping b q ≡ true → contains b q ≡ false
  pub bounded : All IsBounded q.entries
  pub cap : q.deficit_cap ≡ 64

pub counted : {A : Type 0} (p : A → Bool) (xs : List A) → 0 < count_where p xs → any p xs ≡ true
counted p [] h = absurd (omega arith)
counted p (x ∷ xs) h = ground (arith, counted p xs)

-- An update of entries that keeps their keys.
rekeyed :
    (p : Entry → Bool) (f : Entry → Entry) (es : List Entry) (c : BotId)
    → ((e : Entry) → (f e).bot ≡ e.bot)
    → count_where (is_entry c) (update_where p f es) ≡ count_where (is_entry c) es
rekeyed p f es c same = count_where-update_same (is_entry c) p f es (λ e. ap (λ b. b == c) (same e))

pub entries-Tidy :
    (p : Entry → Bool) (f : Entry → Entry) (q : Wdrr)
    → ((e : Entry) → (f e).bot ≡ e.bot)
    → All IsBounded (update_where p f q.entries)
    → Tidy q
    → Tidy (record q { entries = update_where p f q.entries })
entries-Tidy p f q same bounded t = record {
  ring_is_present = t.ring_is_present;
  once = t.once;
  known = λ b. omega (arith, t.known b, rekeyed p f q.entries b same);
  one_entry = λ b. omega (arith, t.one_entry b, rekeyed p f q.entries b same);
  awake = t.awake;
  bounded = bounded;
  cap = t.cap;
}

pub complete-Tidy : (b : BotId) (q : Wdrr) → Tidy q → Tidy (complete b q)
unfolding complete
complete-Tidy b q t =
    entries-Tidy (is_entry b) (λ e. record e { inflight = e.inflight - 1 }) q (λ e. refl)
      (All-update_where IsBounded IsBounded (is_entry b) _ q.entries
        (λ e h w. record {
          weight_low = w.weight_low;
          weight_high = w.weight_high;
          deficit_high = w.deficit_high;
          inflight_high = omega (arith, w.inflight_high);
        })
        (λ e h w. w) t.bounded)
      t

-- A bot that is admitted.
admitted :
    (b : BotId) (ring' : List BotId) (q : Wdrr)
    → admits b q ≡ true
    → 0 < count_where (is_entry b) q.entries
    → ((c : BotId) → count_where (is_bot c) ring' ≡ count_where (is_bot c) (b ∷ q.ring))
    → Tidy q
    → Tidy (record q { present = b ∷ q.present; ring = ring' })
admitted b ring' q ok entry same t = record {
  ring_is_present = λ c. ground (arith, same c, t.ring_is_present c);
  once = λ c. elim (Bool-cases (b == c)) [
    | inl e ↦
        let fresh = count-absent (is_bot b) q.present (ground arith) in ground (arith, t.once c)
    | inr e ↦ ground (arith, t.once c)
  ];
  known = λ c. elim (Bool-cases (b == c)) [
    | inl e ↦
        let fresh = count-absent (is_bot b) q.present (ground arith) in ground (arith, t.known c)
    | inr e ↦ ground (arith, t.known c)
  ];
  one_entry = t.one_entry;
  awake = λ c h. elim (Bool-cases (b == c)) [
    | inl e ↦ absurd (ground arith)
    | inr e ↦ ground (arith, t.awake c)
  ];
  bounded = t.bounded;
  cap = t.cap;
}

pub at_back :
    (b : BotId) (ring : List BotId) (c : BotId)
    → count_where (is_bot c) (ring ++ (b ∷ [])) ≡ count_where (is_bot c) (b ∷ ring)
at_back b ring c = omega (arith, count_where-append (is_bot c) ring (b ∷ []))

pub readmit-Tidy : (b : BotId) (q : Wdrr) → Tidy q → Tidy (readmit b q)
unfolding readmit
readmit-Tidy b q t = elim (Bool-cases (any (is_entry b) q.entries && admits b q)) [
  | inl e ↦
      rw (e, readmit)
        (admitted b (q.ring ++ (b ∷ [])) q (ground arith)
          (count_where-any (is_entry b) q.entries (ground arith)) (at_back b q.ring) t)
  | inr e ↦ rw (e, readmit) t
]

-- The entry of a bot that becomes ready.
put_counts :
    (b c : BotId) (weight : ℕ) (es : List Entry)
    → count_where (is_entry c) (put_entry b weight es)
      ≡ count_where (is_entry c) es + (if b == c && not (any (is_entry b) es) then 1 else 0)
put_counts b c weight es = elim (Bool-cases (any (is_entry b) es)) [
  | inl e ↦ rw e (
      ground (
        arith,
        rekeyed (is_entry b) (λ x. record x { weight = clamp_weight weight }) es c (λ x. refl),
      ))
  | inr e ↦ rw e (
      ground (
        arith,
        count_where-append (is_entry c) es
            (record { bot = b; weight = clamp_weight weight; deficit = 0; inflight = 0 } ∷ []),
      ))
]

put-IsBounded :
    (b : BotId) (weight : ℕ) (es : List Entry)
    → All IsBounded es
    → All IsBounded (put_entry b weight es)
put-IsBounded b weight es a = elim (Bool-cases (any (is_entry b) es)) [
  | inl e ↦ rw e (
      All-update_where IsBounded IsBounded (is_entry b) _ es
        (λ x h w. record {
          weight_low = omega arith;
          weight_high = omega arith;
          deficit_high = w.deficit_high;
          inflight_high = w.inflight_high;
        })
        (λ x h w. w) a)
  | inr e ↦ rw e (
      All-append IsBounded es _ a (
        record {
          weight_low = omega arith;
          weight_high = omega arith;
          deficit_high = omega arith;
          inflight_high = omega arith;
        },
        tt,
      ))
]

put-Tidy :
    (b : BotId) (weight : ℕ) (q : Wdrr)
    → Tidy q
    → Tidy (record q { entries = put_entry b weight q.entries })
put-Tidy b weight q t = record {
  ring_is_present = t.ring_is_present;
  once = t.once;
  known = λ c. omega (arith, t.known c, put_counts b c weight q.entries);
  one_entry = λ c. elim (Bool-cases (b == c && not (any (is_entry b) q.entries))) [
    | inl e ↦
        let absent = count-absent (is_entry b) q.entries (ground arith) in
        ground (arith, put_counts b c weight q.entries)
    | inr e ↦ ground (arith, put_counts b c weight q.entries, t.one_entry c)
  ];
  awake = t.awake;
  bounded = put-IsBounded b weight q.entries t.bounded;
  cap = t.cap;
}

put_known :
    (b : BotId) (weight : ℕ) (es : List Entry)
    → 0 < count_where (is_entry b) (put_entry b weight es)
put_known b weight es = elim (Bool-cases (any (is_entry b) es)) [
  | inl e ↦ omega (arith, put_counts b b weight es, count_where-any (is_entry b) es e)
  | inr e ↦ ground (arith, put_counts b b weight es)
]

front_or_back :
    (b : BotId) (front : Bool) (ring : List BotId) (c : BotId)
    → count_where (is_bot c) (if front then b ∷ ring else ring ++ (b ∷ []))
      ≡ count_where (is_bot c) (b ∷ ring)
front_or_back b true ring c = refl
front_or_back b false ring c = at_back b ring c

pub upsert_ready-Tidy :
    (b : BotId) (weight : ℕ) (q : Wdrr) → Tidy q → Tidy (upsert_ready b weight q)
unfolding upsert_ready
upsert_ready-Tidy b weight q t =
    elim (Bool-cases (admits b (record q { entries = put_entry b weight q.entries }))) [
      | inl e ↦
          rw (e, upsert_ready)
            (admitted b _ (record q { entries = put_entry b weight q.entries }) e
              (put_known b weight q.entries) (front_or_back b (any (is_entry b) q.entries) q.ring)
              (put-Tidy b weight q t))
      | inr e ↦ rw (e, upsert_ready) (put-Tidy b weight q t)
    ]

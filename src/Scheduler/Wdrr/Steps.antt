-- ===== src/Scheduler/Wdrr/Steps.antt =====
-- `grant` and every sequence of operations of
-- crates/telegram-bulk-delivery/src/scheduler/fairness.rs keep the ring in order.
use telegram_bot_delivery_en.Base.{
  ℕ, zero, suc, ◌≤◌, ◌<◌, ◌≡◌, refl, sym, subst, ◌∙◌, true, List, [], ◌∷◌, ◌++◌, some, arith, ltb,
  nat_eq, count_where, update_where, find_where, length, All, All-map, All-both, All-update_where,
  All-members, count_where-pos, test_self, All-of_none, Bool-cases, inl, inr,
}
use telegram_bot_delivery_en.Domain.{BotId}
use telegram_bot_delivery_en.Scheduler.Wdrr.{
  Entry, Wdrr, new_wdrr, per_bot_concurrency, is_entry, is_bot, contains, upsert_ready, remove,
  readmit, sleep_until, wake_due, charge, spend, can_run, scan, grant, complete,
}
use telegram_bot_delivery_en.Scheduler.Wdrr.Grants.{
  Runs, Weighs, has_slot, served, known_entry, grant-first,
}
use telegram_bot_delivery_en.Scheduler.Wdrr.Keeping.{
  IsBounded, Tidy, counted, entries-Tidy, complete-Tidy, readmit-Tidy, upsert_ready-Tidy, at_back,
}
use telegram_bot_delivery_en.Scheduler.Wdrr.Turning.{remove-Tidy, sleep_until-Tidy, wake_due-Tidy}

abbrev IsIdle : BotId → Entry → Type 0
IsIdle b e = is_entry b e ≡ true → ltb e.inflight per_bot_concurrency ≡ true

-- The entry found is the bot's only one.
found-IsIdle :
    (b : BotId) (es : List Entry) {e : Entry}
    → find_where (is_entry b) es ≡ some e
    → count_where (is_entry b) es ≤ 1
    → ltb e.inflight per_bot_concurrency ≡ true
    → All (IsIdle b) es
found-IsIdle b [] found one idle = cc
found-IsIdle b (x ∷ es) {e} found one idle = elim (Bool-cases (is_entry b x)) [
  | inl hit ↦
      let same : x ≡ e = ground arith in
      (
        λ _. subst (λ y. ltb y.inflight per_bot_concurrency ≡ true) (sym same) idle,
        All-of_none (is_entry b) (λ y. ltb y.inflight per_bot_concurrency) es (ground arith),
      )
  | inr miss ↦ (λ hit. cc, found-IsIdle b es {e = e} (ground arith) (ground arith) idle)
]

charge-IsBounded : (e : Entry) → IsBounded e → IsBounded (charge 64 e)
charge-IsBounded e w = record {
  weight_low = w.weight_low;
  weight_high = w.weight_high;
  deficit_high = omega arith;
  inflight_high = w.inflight_high;
}

spend-IsBounded :
    (b : BotId) (e : Entry) → is_entry b e ≡ true → IsBounded e × IsIdle b e → IsBounded (spend e)
spend-IsBounded b e h (w, idle) = record {
  weight_low = w.weight_low;
  weight_high = w.weight_high;
  deficit_high = omega (arith, w.deficit_high);
  inflight_high = ground (arith, idle h);
}

-- The ring turns: the bot in front goes to the back.
turned-Tidy :
    (q : Wdrr) (b : BotId) (rest : List BotId) (es : List Entry)
    → Tidy (record q { ring = b ∷ rest; entries = es })
    → Tidy (record q {
      ring = rest ++ (b ∷ []);
      entries = update_where (is_entry b) (charge q.deficit_cap) es;
    })
turned-Tidy q b rest es t =
    entries-Tidy (is_entry b) (charge q.deficit_cap)
      (record q { ring = rest ++ (b ∷ []); entries = es }) (λ e. refl)
      (rw t.cap (
        All-update_where IsBounded IsBounded (is_entry b) (charge 64) es
          (λ e h w. charge-IsBounded e w) (λ e h w. w) t.bounded))
      (record {
        ring_is_present = λ c. at_back b rest c ∙ t.ring_is_present c;
        once = t.once;
        known = t.known;
        one_entry = t.one_entry;
        awake = t.awake;
        bounded = t.bounded;
        cap = t.cap;
      })

front-Runs :
    (q : Wdrr) (b : BotId) (ring : List BotId)
    → Tidy (record q { ring = ring })
    → 0 < count_where (is_bot b) ring
    → Runs q q.entries b
front-Runs q b ring t h = (
  counted (is_bot b) q.present (omega (arith, t.ring_is_present b)),
  counted (is_entry b) q.entries (omega (arith, t.ring_is_present b, t.known b)),
)

scan-Tidy :
    (n : ℕ) (q : Wdrr) (ring : List BotId) (es : List Entry)
    → Tidy (record q { ring = ring; entries = es })
    → Tidy (scan n (record q { ring = ring; entries = es })).0
unfolding scan
scan-Tidy zero q ring es t = t
scan-Tidy (suc n) q [] es t = t
scan-Tidy (suc n) q (b ∷ rest) es t =
    let runs = front-Runs (record q { entries = es }) b (b ∷ rest) t (ground arith) in
    let (e, found) = known_entry b es runs.1 in
    let present : contains b q ≡ true = runs.0 in
    let turned = turned-Tidy q b rest es t in
    let es' = update_where (is_entry b) (charge q.deficit_cap) es in
    elim (Bool-cases (can_run (charge q.deficit_cap e))) [
      | inl go ↦
          rw (present, found, go, scan)
            (entries-Tidy (is_entry b) spend (record q { ring = rest ++ (b ∷ []); entries = es' })
              (λ x. refl)
              (All-update_where (λ x. IsBounded x × IsIdle b x) IsBounded (is_entry b) spend es'
                (spend-IsBounded b) (λ x h w. w.0)
                (All-both IsBounded (IsIdle b) es' turned.bounded (
                  All-update_where (IsIdle b) (IsIdle b) (is_entry b) (charge q.deficit_cap) es
                    (λ x h i. i) (λ x h i. i)
                    (found-IsIdle b es found (t.one_entry b) (ground arith)))))
              turned)
      | inr stay ↦ rw (present, found, stay, scan) (scan-Tidy n q (rest ++ (b ∷ [])) es' turned)
    ]

grant-Tidy : (q : Wdrr) → Tidy q → Tidy (grant q).0
unfolding grant
grant-Tidy q t = scan-Tidy (length q.ring) q q.ring q.entries t

-- The operations as a data type, and a sequence of them.
pub data Step : Type 0 where
  ready : BotId → ℕ → Step
  gone : BotId → Step
  again : BotId → Step
  sleeps : BotId → ℕ → Step
  wakes_at : ℕ → Step
  granted : Step
  completed : BotId → Step

abbrev pub apply : Step → Wdrr → Wdrr
apply (Step.ready b weight) q = upsert_ready b weight q
apply (Step.gone b) q = remove b q
apply (Step.again b) q = readmit b q
apply (Step.sleeps b at) q = sleep_until b at q
apply (Step.wakes_at now) q = (wake_due now q).0
apply Step.granted q = (grant q).0
apply (Step.completed b) q = complete b q

abbrev pub apply_all : List Step → Wdrr → Wdrr
apply_all [] q = q
apply_all (s ∷ steps) q = apply_all steps (apply s q)

step-Tidy : (s : Step) (q : Wdrr) → Tidy q → Tidy (apply s q)
step-Tidy (Step.ready b weight) q t = upsert_ready-Tidy b weight q t
step-Tidy (Step.gone b) q t = remove-Tidy b q t
step-Tidy (Step.again b) q t = readmit-Tidy b q t
step-Tidy (Step.sleeps b at) q t = sleep_until-Tidy b at q t
step-Tidy (Step.wakes_at now) q t = wake_due-Tidy now q t
step-Tidy Step.granted q t = grant-Tidy q t
step-Tidy (Step.completed b) q t = complete-Tidy b q t

-- Any sequence of operations keeps a tidy scheduler tidy: the ring holds each present bot once and no
-- other, each of them has one entry and none is asleep, weights stay within 1 and 16, deficits below
-- 65 and requests in flight below 5.
pub apply_all-Tidy : (steps : List Step) (q : Wdrr) → Tidy q → Tidy (apply_all steps q)
apply_all-Tidy [] q t = t
apply_all-Tidy (s ∷ steps) q t = apply_all-Tidy steps (apply s q) (step-Tidy s q t)

pub new_wdrr-Tidy : Tidy new_wdrr
new_wdrr-Tidy = record {
  ring_is_present = λ b. refl;
  once = λ b. omega arith;
  known = λ b. omega arith;
  one_entry = λ b. omega arith;
  awake = λ b h. refl;
  bounded = tt;
  cap = refl;
}

-- The scheduler after a sequence of operations.
abbrev pub after : List Step → Wdrr
after steps = apply_all steps new_wdrr

-- After any sequence of operations, `grant` grants the first bot of the ring that has fewer than four
-- requests in flight, and nothing if there is none; that bot and those before it go to the back of
-- the ring in their order. Neither weights nor deficits decide which bot it is.
pub grant_round_robin :
    (steps : List Step)
    → ((grant (after steps)).1 ≡ find_where (has_slot (after steps).entries) (after steps).ring)
      × ((grant (after steps)).0.ring
          ≡ served (has_slot (after steps).entries) [] (after steps).ring)
grant_round_robin steps =
    let q = after steps in
    let t = apply_all-Tidy steps new_wdrr new_wdrr-Tidy in
    grant-first q
      (All-members (Runs q q.entries) q.ring
        (λ b m. front-Runs q b q.ring t (count_where-pos (is_bot b) q.ring m (test_self b))))
      (All-map IsBounded Weighs q.entries (λ e w. w.weight_low) t.bounded) (omega (arith, t.cap))

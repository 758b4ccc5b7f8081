-- ===== src/Scheduler/Wdrr/Turning.antt =====
-- `remove`, `sleep_until`, `wake_due` and `grant` of
-- crates/telegram-bulk-delivery/src/scheduler/fairness.rs keep the ring in order.
use telegram_bot_delivery_en.Base.{
  ℕ, ◌≡◌, refl, true, not, ◌&&◌, ◌||◌, List, [], ◌∷◌, arith, leb, ◌==◌, nat_eq, if◌then◌else◌, any,
  count_where, keep_where, Bool-cases, inl, inr,
}
use telegram_bot_delivery_en.Domain.{BotId}
use telegram_bot_delivery_en.Scheduler.Wdrr.{
  Wdrr, is_bot, is_wake_of, remove, wakes_before, push_wake, sleep_until, pop_due, wake_due,
}
use telegram_bot_delivery_en.Scheduler.Wdrr.Keeping.{Tidy}

without :
    (b c : BotId) (xs : List BotId)
    → count_where (is_bot c) (keep_where (λ x. not (is_bot b x)) xs)
      ≡ (if b == c then 0 else count_where (is_bot c) xs)
without b c [] = ground arith
without b c (x ∷ xs) = ground (arith, without b c xs)

any-without :
    (b c : BotId) (xs : List BotId)
    → any (is_bot c) (keep_where (λ x. not (is_bot b x)) xs) ≡ (not (b == c) && any (is_bot c) xs)
any-without b c [] = ground arith
any-without b c (x ∷ xs) = ground (arith, any-without b c xs)

pub remove-Tidy : (b : BotId) (q : Wdrr) → Tidy q → Tidy (remove b q)
unfolding remove
remove-Tidy b q t = record {
  ring_is_present =
      λ c. ground (arith, without b c q.ring, without b c q.present, t.ring_is_present c);
  once = λ c. ground (arith, without b c q.present, t.once c);
  known = λ c. ground (arith, without b c q.present, t.known c);
  one_entry = t.one_entry;
  awake = λ c h. ground (arith, any-without b c q.present, t.awake c);
  bounded = t.bounded;
  cap = t.cap;
}

any-push_wake :
    (c : BotId) (w : ℕ × BotId) (ws : List (ℕ × BotId))
    → any (is_wake_of c) (push_wake w ws) ≡ (is_wake_of c w || any (is_wake_of c) ws)
unfolding push_wake
any-push_wake c w [] = refl
any-push_wake c w (v ∷ vs) = elim (Bool-cases (wakes_before w v)) [
  | inl e ↦ rw e refl
  | inr e ↦ rw e (ground (arith, any-push_wake c w vs))
]

pub sleep_until-Tidy : (b : BotId) (at : ℕ) (q : Wdrr) → Tidy q → Tidy (sleep_until b at q)
unfolding sleep_until remove
sleep_until-Tidy b at q t =
    let r = remove-Tidy b q t in
    record {
      ring_is_present = r.ring_is_present;
      once = r.once;
      known = r.known;
      one_entry = r.one_entry;
      awake = λ c h.
          ground (arith, any-without b c q.present, any-push_wake c (at, b) q.wakes, t.awake c);
      bounded = r.bounded;
      cap = r.cap;
    }

left_over :
    (now : ℕ) (c : BotId) (ws : List (ℕ × BotId)) (found : List BotId)
    → any (is_wake_of c) (pop_due now ws found).0 ≡ true
    → any (is_wake_of c) ws ≡ true
unfolding pop_due
left_over now c [] found h = h
left_over now c (w ∷ ws) found h = elim (Bool-cases (leb w.0 now)) [
  | inl e ↦ let deeper = left_over now c ws _ (rw (e, pop_due) at h) in ground arith
  | inr e ↦ rw (e, pop_due) at h
]

pub wake_due-Tidy : (now : ℕ) (q : Wdrr) → Tidy q → Tidy (wake_due now q).0
unfolding wake_due
wake_due-Tidy now q t = record {
  ring_is_present = t.ring_is_present;
  once = t.once;
  known = t.known;
  one_entry = t.one_entry;
  awake = λ c h. t.awake c (left_over now c q.wakes [] h);
  bounded = t.bounded;
  cap = t.cap;
}

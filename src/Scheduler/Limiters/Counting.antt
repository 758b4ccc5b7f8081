-- ===== src/Scheduler/Limiters/Counting.antt =====
-- What a call does to the counts of sends in flight (`Limiters` in
-- crates/telegram-bulk-delivery/src/scheduler/limiters.rs).
use telegram_bot_delivery_en.Base.{
  ℕ, ◌≤◌, ◌<◌, String, ◌≡◌, refl, ap, ◌∙◌, ◌⊎◌, inl, inr, true, false, List, [], ◌∷◌, Option, none,
  some, if◌then◌else◌, Bool-cases, Option-cases, eq_of_test, test_self, arith, nat_eq, string_eq,
  pair_eq, same_pair_iff,
}
use telegram_bot_delivery_en.Domain.{BotId}
use telegram_bot_delivery_en.Scheduler.Limiters.Scopes.{
  Scope, Float, Bucket, Limiters, same_scope, get_bucket, put_bucket, get_bucket-put_bucket,
  get_bucket-put_bucket_other,
}
use telegram_bot_delivery_en.Scheduler.Limiters.Buckets.{
  refill, admit, check, fresh_bucket, new_bucket, entry_or, chat_denied, check_scope, check_scopes,
}

pub same_scope-eq : (s t : Scope) → same_scope s t ≡ true → s ≡ t
same_scope-eq Scope.global Scope.global h = refl
same_scope-eq (Scope.bot b) (Scope.bot b') h = let q : b ≡ b' = eq_of_test b b' h in cc
same_scope-eq (Scope.chat b c) (Scope.chat b' c') h =
    ap (λ (p : BotId × String). Scope.chat p.0 p.1) ((same_pair_iff (b, c) (b', c')).0 h)
same_scope-eq (Scope.group b c) (Scope.group b' c') h =
    ap (λ (p : BotId × String). Scope.group p.0 p.1) ((same_pair_iff (b, c) (b', c')).0 h)
same_scope-eq (Scope.method b c) (Scope.method b' c') h =
    ap (λ (p : BotId × String). Scope.method p.0 p.1) ((same_pair_iff (b, c) (b', c')).0 h)
same_scope-eq s t h = ground arith

pub same_scope_self : (s : Scope) → same_scope s s ≡ true
same_scope_self Scope.global = refl
same_scope_self (Scope.bot b) = test_self b
same_scope_self (Scope.chat b c) = (same_pair_iff (b, c) (b, c)).1 refl
same_scope_self (Scope.group b c) = (same_pair_iff (b, c) (b, c)).1 refl
same_scope_self (Scope.method b c) = (same_pair_iff (b, c) (b, c)).1 refl

module _ (float : Float) where
  fresh_inflight :
      (rate : float.carrier) (slots now : ℕ) (s : Scope)
      → (fresh_bucket {float = float} rate slots now s).inflight ≡ 0
  unfolding fresh_bucket new_bucket
  fresh_inflight rate slots now Scope.global = refl
  fresh_inflight rate slots now (Scope.bot b) = refl
  fresh_inflight rate slots now (Scope.chat b c) = refl
  fresh_inflight rate slots now (Scope.group b c) = refl
  fresh_inflight rate slots now (Scope.method b c) = refl

module _ {float : Float} where
  -- The sends in flight that the scope's bucket counts.
  unfoldable pub inflight_of : Option (Bucket float) → ℕ
  inflight_of none = 0
  inflight_of (some b) = b.inflight

  unfoldable pub inflight_in : Scope → Limiters float → ℕ
  unfolding inflight_of
  inflight_in s l = inflight_of (get_bucket s l)

  -- What a bucket is, seen from another scope and from its own.
  pub get_bucket-put_bucket_cases :
      (t s : Scope) (v : Bucket float) (l : Limiters float)
      → ((s ≡ t) × (get_bucket t (put_bucket s v l) ≡ some v))
        ⊎ ((same_scope s t ≡ false) × (get_bucket t (put_bucket s v l) ≡ get_bucket t l))
  get_bucket-put_bucket_cases t s v l = elim (Bool-cases (same_scope s t)) [
    | inl h ↦ let q : s ≡ t = same_scope-eq s t h in inl (q, rw (← q) (get_bucket-put_bucket s v l))
    | inr h ↦ inr (h, get_bucket-put_bucket_other t s v l h)
  ]

  pub inflight_in-put_bucket :
      (t s : Scope) (v : Bucket float) (l : Limiters float)
      → inflight_in t (put_bucket s v l) ≡ (if same_scope s t then v.inflight else inflight_in t l)
  unfolding inflight_in
  inflight_in-put_bucket t s v l = elim (get_bucket-put_bucket_cases t s v l) [
    | inl h ↦ rw (h.1, h.0, same_scope_self t) refl
    | inr h ↦ rw (h.1, h.0) refl
  ]

  -- A bucket written with the count that its scope had changes no count.
  inflight_in-put_alike :
      (t s : Scope) (v : Bucket float) (l : Limiters float)
      → v.inflight ≡ inflight_in s l
      → inflight_in t (put_bucket s v l) ≡ inflight_in t l
  inflight_in-put_alike t s v l e = elim (Bool-cases (same_scope s t)) [
    | inl h ↦
        let q : s ≡ t = same_scope-eq s t h in rw (inflight_in-put_bucket t s v l, h, e, q) refl
    | inr h ↦ rw (inflight_in-put_bucket t s v l, h) refl
  ]

  -- Checking a bucket neither counts a send nor ends a pause.
  pub check_keeps :
      (now : ℕ) (b : Bucket float)
      → ((check now b).0.inflight ≡ b.inflight)
        × ((check now b).0.max_inflight ≡ b.max_inflight)
        × ((check now b).0.paused_until ≡ b.paused_until)
  unfolding check refill
  check_keeps now b = ground arith

  -- A bucket that is not refused is not paused, and has a place.
  pub check_passes :
      (now : ℕ) (b : Bucket float)
      → (check now b).1 ≡ none
      → (b.inflight < b.max_inflight) × (b.paused_until ≤ now)
  unfolding check admit refill
  check_passes now b h = ground arith

  entry_inflight :
      (rate : float.carrier) (slots now : ℕ) (s : Scope) (l : Limiters float)
      → (entry_or (fresh_bucket {float = float} rate slots now s) (get_bucket s l)).inflight
        ≡ inflight_in s l
  unfolding entry_or inflight_in
  entry_inflight rate slots now s l = elim (Option-cases (get_bucket s l)) [
    | inl e ↦ rw e (fresh_inflight float rate slots now s)
    | inr (b, e) ↦ rw e refl
  ]

  module _ (rate : float.carrier) (slots now : ℕ) where
    pub inflight_in-check_scope :
        (t s : Scope) (l : Limiters float)
        → inflight_in t (check_scope rate slots now s l).0 ≡ inflight_in t l
    unfolding check_scope
    inflight_in-check_scope t s l = elim (Bool-cases (chat_denied s l)) [
      | inl h ↦ rw h refl
      | inr h ↦ rw h (
          inflight_in-put_alike t s _ l (
            (check_keeps now
              (entry_or (fresh_bucket {float = float} rate slots now s) (get_bucket s l))).0
            ∙ entry_inflight rate slots now s l))
    ]

    pub check_scopes_passed :
        (s : Scope) (ss : List Scope) (l : Limiters float)
        → (check_scope rate slots now s l).1 ≡ none
        → check_scopes rate slots now (s ∷ ss) l
          ≡ check_scopes rate slots now ss (check_scope rate slots now s l).0
    unfolding check_scopes
    check_scopes_passed s ss l e = rw (e, check_scopes) refl

    pub check_scopes_stopped :
        (s : Scope) (ss : List Scope) (l : Limiters float) {at : ℕ}
        → (check_scope rate slots now s l).1 ≡ some at
        → check_scopes rate slots now (s ∷ ss) l
          ≡ ((check_scope rate slots now s l).0, some (s, at))
    unfolding check_scopes
    check_scopes_stopped s ss l e = rw (e, check_scopes) refl

    pub inflight_in-check_scopes :
        (t : Scope) (ss : List Scope) (l : Limiters float)
        → inflight_in t (check_scopes rate slots now ss l).0 ≡ inflight_in t l
    unfolding check_scopes
    inflight_in-check_scopes t [] l = refl
    inflight_in-check_scopes t (s ∷ ss) l = elim (Option-cases (check_scope rate slots now s l).1) [
      | inl e ↦ rw (check_scopes_passed s ss l e) (
          inflight_in-check_scopes t ss (check_scope rate slots now s l).0
          ∙ inflight_in-check_scope t s l)
      | inr (at, e) ↦ rw (check_scopes_stopped s ss l e) (inflight_in-check_scope t s l)
    ]

-- ===== src/Scheduler/Limiters/Pausing.antt =====
-- Flood pauses (`pause` of crates/telegram-bulk-delivery/src/scheduler/limiters.rs) and sequences of
-- operations: what a pause refuses until it ends.
use telegram_bot_delivery_en.Base.{
  ℕ, ◌≤◌, ◌<◌, ◌≡◌, refl, ◌∙◌, inl, inr, Bool, true, List, [], ◌∷◌, none, some, any, keep_where,
  map_get, Bool-cases, Option-cases, arith, nat_eq, string_eq, pair_eq, Comparable, ◌==◌,
}
use telegram_bot_delivery_en.Scheduler.Limiters.Scopes.{
  Scope, Float, Bucket, Limiters, same_scope, get_bucket, put_bucket,
}
use telegram_bot_delivery_en.Scheduler.Limiters.Buckets.{
  check, fresh_bucket, entry_or, chat_denied, check_scope, check_scopes,
}
use telegram_bot_delivery_en.Scheduler.Limiters.Counting.{
  same_scope-eq, get_bucket-put_bucket_cases, check_keeps, check_passes, check_scopes_passed,
  check_scopes_stopped,
}

-- An entry that the test keeps is found as before.
pub map_get-keep_where {ℓ κ} :
    {K : Type ℓ} {V : Type κ} ⦃c : Comparable K⦄
    → (p : V → Bool) (k : K) (es : List (K × V)) {v : V} → map_get k es ≡ some v
    → p v ≡ true
    → map_get k (keep_where (λ e. p e.1) es) ≡ some v
map_get-keep_where p k [] h keep = h
map_get-keep_where p k (e ∷ es) {v} h keep = elim (Bool-cases (e.0 == k)) [
  | inl q ↦ let same : e.1 ≡ v = ground arith in rw (same, keep, q) refl
  | inr q ↦ elim (Bool-cases (p e.1)) [
    | inl r ↦ rw (r, q) (map_get-keep_where p k es {v = v} (ground arith) keep)
    | inr r ↦ rw r (map_get-keep_where p k es {v = v} (ground arith) keep)
  ]
]

module _ {float : Float} where
  -- The scope's bucket is paused until `until` at least.
  unfoldable pub Paused : ℕ → Scope → Limiters float → Type 0
  Paused until s l = (b : Bucket float) × (get_bucket s l ≡ some b) × (until ≤ b.paused_until)

  pub Paused-put_bucket :
      (until : ℕ) (s t : Scope) (v : Bucket float) (l : Limiters float)
      → ((b : Bucket float) → get_bucket t l ≡ some b → b.paused_until ≤ v.paused_until)
      → Paused until s l
      → Paused until s (put_bucket t v l)
  unfolding Paused
  Paused-put_bucket until s t v l later (b, e, p) = elim (get_bucket-put_bucket_cases s t v l) [
    | inl h ↦ (v, h.1, ground (arith, later b (rw h.0 e)))
    | inr h ↦ (b, h.1 ∙ e, p)
  ]

  module _ (rate : float.carrier) (slots now : ℕ) where
    check-later :
        (t : Scope) (l : Limiters float) (b : Bucket float)
        → get_bucket t l ≡ some b
        → b.paused_until
          ≤ (check now (
              entry_or
                (fresh_bucket {float = float} rate slots now t)
                (get_bucket t l))).0.paused_until
    unfolding entry_or
    check-later t l b e = rw e (ground (arith, check_keeps now b))

    Paused-check_scope :
        (until : ℕ) (s t : Scope) (l : Limiters float)
        → Paused until s l
        → Paused until s (check_scope rate slots now t l).0
    unfolding check_scope
    Paused-check_scope until s t l p = elim (Bool-cases (chat_denied t l)) [
      | inl h ↦ rw h p
      | inr h ↦ rw h (Paused-put_bucket until s t _ l (check-later t l) p)
    ]

    pub Paused-check_scopes :
        (until : ℕ) (s : Scope) (ss : List Scope) (l : Limiters float)
        → Paused until s l
        → Paused until s (check_scopes rate slots now ss l).0
    unfolding check_scopes
    Paused-check_scopes until s [] l p = p
    Paused-check_scopes until s (t ∷ ss) l p =
        elim (Option-cases (check_scope rate slots now t l).1) [
          | inl e ↦
              rw (check_scopes_passed rate slots now t ss l e)
                (Paused-check_scopes until s ss _ (Paused-check_scope until s t l p))
          | inr (at, e) ↦
              rw (check_scopes_stopped rate slots now t ss l e) (Paused-check_scope until s t l p)
        ]

    -- A paused scope does not pass its check.
    check_scope-refuses :
        (until : ℕ) (s : Scope) (l : Limiters float)
        → now < until
        → Paused until s l
        → (at : ℕ) × ((check_scope rate slots now s l).1 ≡ some at)
    unfolding check_scope Paused entry_or
    check_scope-refuses until s l early (b, e, p) =
        elim (Option-cases (check_scope rate slots now s l).1) [
          | inl q ↦ elim (Bool-cases (chat_denied s l)) [
            | inl d ↦ absurd (ground arith)
            | inr d ↦
                let passed : (check now b).1 ≡ none = ground arith in
                absurd (omega (arith, (check_passes now b passed).1))
          ]
          | inr found ↦ found
        ]

    pub check_scopes-refuses :
        (until : ℕ) (s : Scope) (ss : List Scope) (l : Limiters float)
        → now < until
        → any (λ t. same_scope t s) ss ≡ true
        → Paused until s l
        → (r : Scope × ℕ) × ((check_scopes rate slots now ss l).1 ≡ some r)
    unfolding check_scopes
    check_scopes-refuses until s [] l early member p = absurd (ground arith)
    check_scopes-refuses until s (t ∷ ss) l early member p =
        elim (Option-cases (check_scope rate slots now t l).1) [
          | inr (at, e) ↦ ((t, at), rw (check_scopes_stopped rate slots now t ss l e) refl)
          | inl e ↦ elim (Bool-cases (same_scope t s)) [
            | inl h ↦
                let q : t ≡ s = same_scope-eq t s h in
                let (at, stop) = check_scope-refuses until s l early p in absurd (ground arith)
            | inr h ↦
                let (r, stop) =
                  check_scopes-refuses until s ss (check_scope rate slots now t l).0 early
                    (ground arith) (Paused-check_scope until s t l p) in
                (r, rw (check_scopes_passed rate slots now t ss l e) stop)
          ]
        ]

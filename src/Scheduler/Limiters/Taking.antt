-- ===== src/Scheduler/Limiters/Taking.antt =====
-- A call that is let through takes one place in each of its scopes, and a release gives them back
-- (`check_and_acquire` and `release` of crates/telegram-bulk-delivery/src/scheduler/limiters.rs).
use telegram_bot_delivery_en.Base.{
  ℕ, ◌+◌, ◌-◌, ◌≤◌, ◌<◌, String, ◌≡◌, refl, sym, ◌∙◌, subst, inl, inr, Bool, true, false, List, [],
  ◌∷◌, Option, none, some, if◌then◌else◌, All, count_where, Bool-cases, Option-cases, arith, nat_eq,
  string_eq,
}
use telegram_bot_delivery_en.Domain.{BotId}
use telegram_bot_delivery_en.Scheduler.Limiters.Scopes.{
  Scope, Float, Bucket, Limiters, same_scope, get_bucket, put_bucket,
}
use telegram_bot_delivery_en.Scheduler.Limiters.Buckets.{
  Acquisition, call_scopes, chat_scopes, check, take_token, fresh_bucket, entry_or, chat_denied,
  check_scope, check_scopes, take_scopes, take_checked, check_and_acquire, release_scope, release,
}
use telegram_bot_delivery_en.Scheduler.Limiters.Counting.{
  same_scope-eq, same_scope_self, inflight_in, get_bucket-put_bucket_cases, check_keeps,
  check_scopes_passed, check_scopes_stopped, check_passes, inflight_in-check_scopes,
}
use telegram_bot_delivery_en.Scheduler.Limiters.Bounds.{
  Holds, Sound, Sound-get_bucket, Sound-put_known, Sound-check_scopes,
}

-- No two scopes of the list name the same bucket.
abbrev Apart : List Scope → Type 0
Apart [] = Unit
Apart (s ∷ ss) = All (λ t. same_scope s t ≡ false) ss × Apart ss

call_scopes-Apart :
    (lower : String → String) (k : BotId) (c : Option String) (group : Bool) (m : String)
    → Apart (call_scopes lower k c group m)
unfolding call_scopes chat_scopes
call_scopes-Apart lower k none group m = ((refl, (refl, tt)), ((refl, tt), (tt, tt)))
call_scopes-Apart lower k (some c) true m = (
  (refl, (refl, (refl, (refl, tt)))),
  ((refl, (refl, (refl, tt))), ((refl, (refl, tt)), ((refl, tt), (tt, tt)))),
)
call_scopes-Apart lower k (some c) false m =
    ((refl, (refl, (refl, tt))), ((refl, (refl, tt)), ((refl, tt), (tt, tt))))

module _ {float : Float} where
  -- The scope's bucket exists and has a free place.
  unfoldable pub HasPlace : Scope → Limiters float → Type 0
  HasPlace s l = (b : Bucket float) × (get_bucket s l ≡ some b) × (b.inflight < b.max_inflight)

  HasPlace-put_other :
      (s t : Scope) (v : Bucket float) (l : Limiters float)
      → same_scope t s ≡ false
      → HasPlace s l
      → HasPlace s (put_bucket t v l)
  unfolding HasPlace
  HasPlace-put_other s t v l n (b, e, p) = elim (get_bucket-put_bucket_cases s t v l) [
    | inl h ↦ absurd (ground (arith, same_scope_self s, h.0))
    | inr h ↦ (b, h.1 ∙ e, p)
  ]

  module _ (rate : float.carrier) (slots now : ℕ) where
    HasPlace-put_checked :
        (s t : Scope) (l : Limiters float)
        → HasPlace s l
        → HasPlace s (
            put_bucket t
              (check now
                (entry_or (fresh_bucket {float = float} rate slots now t) (get_bucket t l))).0
              l)
    unfolding HasPlace entry_or
    HasPlace-put_checked s t l (b, e, p) =
        let b' = entry_or (fresh_bucket {float = float} rate slots now t) (get_bucket t l) in
        elim (get_bucket-put_bucket_cases s t (check now b').0 l) [
          | inl h ↦ (_, h.1, rw (h.0, e) (ground (arith, check_keeps now b)))
          | inr h ↦ (b, h.1 ∙ e, p)
        ]

    HasPlace-check_scope :
        (s t : Scope) (l : Limiters float)
        → HasPlace s l
        → HasPlace s (check_scope rate slots now t l).0
    unfolding check_scope
    HasPlace-check_scope s t l p = elim (Bool-cases (chat_denied t l)) [
      | inl h ↦ rw h p
      | inr h ↦ rw h (HasPlace-put_checked s t l p)
    ]

    check_scope-HasPlace :
        (s : Scope) (l : Limiters float)
        → (check_scope rate slots now s l).1 ≡ none
        → HasPlace s (check_scope rate slots now s l).0
    unfolding check_scope HasPlace
    check_scope-HasPlace s l e = elim (Bool-cases (chat_denied s l)) [
      | inl h ↦ absurd (ground arith)
      | inr h ↦
          let b = entry_or (fresh_bucket {float = float} rate slots now s) (get_bucket s l) in
          let passed : (check now b).1 ≡ none = ground arith in
          elim (get_bucket-put_bucket_cases s s (check now b).0 l) [
            | inl g ↦
                rw h (
                  (check now b).0,
                  g.1,
                  ground (arith, check_keeps now b, check_passes now b passed),
                )
            | inr g ↦ absurd (ground (arith, same_scope_self s))
          ]
    ]

    HasPlace-check_scopes :
        (s : Scope) (ss : List Scope) (l : Limiters float)
        → HasPlace s l
        → HasPlace s (check_scopes rate slots now ss l).0
    unfolding check_scopes
    HasPlace-check_scopes s [] l p = p
    HasPlace-check_scopes s (t ∷ ss) l p = elim (Option-cases (check_scope rate slots now t l).1) [
      | inl e ↦
          rw (check_scopes_passed rate slots now t ss l e)
            (HasPlace-check_scopes s ss _ (HasPlace-check_scope s t l p))
      | inr (at, e) ↦
          rw (check_scopes_stopped rate slots now t ss l e) (HasPlace-check_scope s t l p)
    ]

    -- Where every check passes, every scope of the call has a free place afterwards.
    check_scopes-HasPlace :
        (ss : List Scope) (l : Limiters float)
        → (check_scopes rate slots now ss l).1 ≡ none
        → All (λ s. HasPlace s (check_scopes rate slots now ss l).0) ss
    unfolding check_scopes
    check_scopes-HasPlace [] l h = tt
    check_scopes-HasPlace (s ∷ ss) l h =
        let l' = (check_scope rate slots now s l).0 in
        elim (Option-cases (check_scope rate slots now s l).1) [
          | inl e ↦
              let q = check_scopes_passed rate slots now s ss l e in
              subst (λ r. All (λ s'. HasPlace s' r.0) (s ∷ ss)) (sym q)
                (
                  HasPlace-check_scopes s ss l' (check_scope-HasPlace s l e),
                  check_scopes-HasPlace ss l' (rw (← q) h),
                )
          | inr (at, e) ↦ absurd (ground (arith, check_scopes_stopped rate slots now s ss l e))
        ]

  take_token-Holds :
      (b : Bucket float)
      → b.inflight < b.max_inflight
      → Holds b
      → Holds (take_token b) × ((take_token b).inflight ≡ b.inflight + 1)
  unfolding take_token
  take_token-Holds b p h = ground arith

  inflight_in-take :
      (t s : Scope) (b : Bucket float) (l : Limiters float)
      → get_bucket s l ≡ some b
      → (take_token b).inflight ≡ b.inflight + 1
      → inflight_in t (put_bucket s (take_token b) l)
        ≡ (if same_scope s t then 1 else 0) + inflight_in t l
  unfolding inflight_in
  inflight_in-take t s b l e more = elim (get_bucket-put_bucket_cases t s (take_token b) l) [
    | inl h ↦ rw (h.1, ← h.0, e, same_scope_self s) (ground (arith, more))
    | inr h ↦ rw (h.1, h.0) (omega arith)
  ]

  -- With a place in each of its scopes a call takes one in each, and no bucket is missing.
  take_scopes_lem :
      (ss : List Scope) (l : Limiters float)
      → Apart ss
      → All (λ s. HasPlace s l) ss
      → Sound float l
      → (l' : Limiters float) × (take_scopes ss l ≡ some l')
        × ((t : Scope) → inflight_in t l' ≡ count_where (λ s. same_scope s t) ss + inflight_in t l)
        × Sound float l'
  unfolding take_scopes HasPlace
  take_scopes_lem [] l apart places sound = (l, refl, λ t. omega arith, sound)
  take_scopes_lem (s ∷ ss) l (apart, aparts) ((b, e, p), places) sound =
      let taken = take_token-Holds b p (Sound-get_bucket s l e sound) in
      let l1 = put_bucket s (take_token b) l in
      let (l', q, counts, sound') =
        take_scopes_lem ss l1 aparts (later s ss l b apart places)
          (Sound-put_known s (take_token b) l e taken.0 sound) in
      (
        l',
        rw (e, take_scopes) q,
        λ t. ground (arith, counts t, inflight_in-take t s b l e taken.1),
        sound',
      )
    where
      later :
          (s : Scope) (ss : List Scope) (l : Limiters float) (b : Bucket float)
          → All (λ t. same_scope s t ≡ false) ss
          → All (λ t. HasPlace t l) ss
          → All (λ t. HasPlace t (put_bucket s (take_token b) l)) ss
      later s [] l b apart places = tt
      later s (t ∷ ss) l b apart places = (
        HasPlace-put_other t s (take_token b) l apart.0 places.0,
        later s ss l b apart.1 places.1,
      )

  -- What becomes of the counts: a call let through adds one in each of these scopes and holds them,
  -- a refused one adds nothing, and no bucket is missing.
  unfoldable pub Settles : List Scope → Limiters float → Acquisition float → Type 0
  Settles scopes l (Acquisition.acquired ss l') =
      ((t : Scope) → inflight_in t l' ≡ count_where (λ s. same_scope s t) scopes + inflight_in t l)
      × Sound float l'
      × (ss ≡ scopes)
  Settles scopes l (Acquisition.refused s at l') =
      ((t : Scope) → inflight_in t l' ≡ inflight_in t l) × Sound float l'
  Settles scopes l Acquisition.panicked = ⊥

  take_checked-Settles :
      (rate : float.carrier) (slots now : ℕ) (ss : List Scope) (l : Limiters float)
      → slots ≤ 32
      → Apart ss
      → Sound float l
      → Settles ss l (take_checked ss (check_scopes rate slots now ss l))
  unfolding Settles take_checked
  take_checked-Settles rate slots now ss l few apart sound =
      let r = check_scopes rate slots now ss l in
      let sound' = Sound-check_scopes rate slots now few ss l sound in
      let same = λ (t : Scope). inflight_in-check_scopes rate slots now t ss l in
      elim (Option-cases r.1) [
        | inl e ↦
            let (l', q, counts, sound'') =
              take_scopes_lem ss r.0 apart (check_scopes-HasPlace rate slots now ss l e) sound' in
            rw (e, take_checked, q) (λ t. ground (arith, counts t, same t), sound'', refl)
        | inr (at, e) ↦ rw e (same, sound')
      ]

  -- The scopes of the call settle.
  pub check_and_acquire-Settles_scopes :
      (lower : String → String) (k : BotId) (c : Option String) (group : Bool) (m : String)
      (media : Bool) (rate : float.carrier) (now : ℕ) (l : Limiters float)
      → Sound float l
      → Settles
          (call_scopes lower k c group m)
          l
          (check_and_acquire lower k c group m media rate now l)
  unfolding check_and_acquire
  check_and_acquire-Settles_scopes lower k c group m media rate now l =
      take_checked-Settles rate (if media then 4 else 8) now (call_scopes lower k c group m) l
        (ground arith) (call_scopes-Apart lower k c group m)

  inflight_in-release_scope :
      (t s : Scope) (l : Limiters float)
      → inflight_in t (release_scope s l) ≡ inflight_in t l - (if same_scope s t then 1 else 0)
  unfolding release_scope inflight_in
  inflight_in-release_scope t s l = elim (Option-cases (get_bucket s l)) [
    | inl e ↦ elim (Bool-cases (same_scope s t)) [
      | inl h ↦ let q : s ≡ t = same_scope-eq s t h in rw (release_scope, e, h, ← q, e) refl
      | inr h ↦ rw (release_scope, e, h) (omega arith)
    ]
    | inr (b, e) ↦
        elim (get_bucket-put_bucket_cases t s (record b { inflight = b.inflight - 1 }) l) [
          | inl h ↦ rw (release_scope, e, h.1, ← h.0, e, same_scope_self s) refl
          | inr h ↦ rw (release_scope, e, h.1, h.0) (omega arith)
        ]
  ]

  pub inflight_in-release :
      (t : Scope) (ss : List Scope) (l : Limiters float)
      → inflight_in t (release ss l) ≡ inflight_in t l - count_where (λ s. same_scope s t) ss
  unfolding release
  inflight_in-release t [] l = omega arith
  inflight_in-release t (s ∷ ss) l =
      ground (arith, inflight_in-release t ss (release_scope s l), inflight_in-release_scope t s l)

  -- From a sound state, releasing the scopes that a call acquired gives every scope the count of
  -- sends in flight that it had before the call.
  pub release-check_and_acquire :
      (lower : String → String) (k : BotId) (c : Option String) (group : Bool) (m : String)
      (media : Bool) (rate : float.carrier) (now : ℕ) (l l' : Limiters float) (ss : List Scope)
      → Sound float l
      → check_and_acquire lower k c group m media rate now l ≡ Acquisition.acquired ss l'
      → (t : Scope) → inflight_in t (release ss l') ≡ inflight_in t l
  unfolding Settles
  release-check_and_acquire lower k c group m media rate now l l' ss sound e t =
      ground (arith, inflight_in-release t ss l', rw (← settled.2) at settled.0 t)
    where
      settled : Settles (call_scopes lower k c group m) l (Acquisition.acquired ss l')
      settled =
          subst (Settles (call_scopes lower k c group m) l) e
            (check_and_acquire-Settles_scopes lower k c group m media rate now l sound)

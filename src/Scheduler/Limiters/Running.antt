-- ===== src/Scheduler/Limiters/Running.antt =====
-- Sequences of operations on the limiters (crates/telegram-bulk-delivery/src/scheduler/limiters.rs):
-- their bounds hold always, and a flood pause refuses until it ends.
use telegram_bot_delivery_en.Base.{
  ℕ, ◌≤◌, ◌<◌, String, ◌≡◌, refl, inl, inr, Bool, true, false, not, List, [], ◌∷◌, Option, none,
  some, if◌then◌else◌, All, any, Bool-cases, Option-cases, arith, nat_eq, string_eq, pair_eq,
}
use telegram_bot_delivery_en.Domain.{BotId}
use telegram_bot_delivery_en.Scheduler.Limiters.Scopes.{
  Scope, Float, Bucket, Limiters, same_scope, get_bucket, put_bucket, get_bucket-put_bucket,
}
use telegram_bot_delivery_en.Scheduler.Limiters.Buckets.{
  Acquisition, call_scopes, take_token, entry_or, chat_denied, check_scopes, take_scopes,
  take_checked, check_and_acquire, release_scope, release, pause, is_idle, evict_idle,
  with_global_rate,
}
use telegram_bot_delivery_en.Scheduler.Limiters.Bounds.{
  Sound, Sound-release, Sound-pause, Sound-evict_idle, with_global_rate-Sound,
}
use telegram_bot_delivery_en.Scheduler.Limiters.Taking.{Settles, check_and_acquire-Settles_scopes}
use telegram_bot_delivery_en.Scheduler.Limiters.Pausing.{
  Paused, Paused-put_bucket, Paused-check_scopes, check_scopes-refuses, map_get-keep_where,
}

pub data LimiterOp (float : Float) : Type 0 where
  acquire : BotId → Option String → Bool → String → Bool → float.carrier → ℕ → LimiterOp float
  give_back : List Scope → LimiterOp float
  hold : Scope → ℕ → ℕ → LimiterOp float
  evict : ℕ → ℕ → LimiterOp float

module _ {float : Float} where
  -- What the limiters are after a call, let through or not.
  unfoldable pub limiters_after : Limiters float → Acquisition float → Limiters float
  limiters_after l (Acquisition.acquired ss l') = l'
  limiters_after l (Acquisition.refused s at l') = l'
  limiters_after l Acquisition.panicked = l

  unfoldable pub limiter_step :
      (String → String) → LimiterOp float → Limiters float → Limiters float
  unfolding limiters_after
  limiter_step lower (LimiterOp.acquire k c group m media rate now) l =
      limiters_after l (check_and_acquire lower k c group m media rate now l)
  limiter_step lower (LimiterOp.give_back ss) l = release ss l
  limiter_step lower (LimiterOp.hold s until now) l = pause s until now l
  limiter_step lower (LimiterOp.evict now idle_ms) l = evict_idle now idle_ms l

  unfoldable pub run_limiters :
      (String → String) → List (LimiterOp float) → Limiters float → Limiters float
  run_limiters lower [] l = l
  run_limiters lower (o ∷ os) l = run_limiters lower os (limiter_step lower o l)

  limiters_after-Sound :
      (scopes : List Scope) (l : Limiters float) (a : Acquisition float)
      → Sound float l
      → Settles scopes l a
      → Sound float (limiters_after l a)
  unfolding limiters_after Settles
  limiters_after-Sound scopes l (Acquisition.acquired ss l') h settled = settled.1
  limiters_after-Sound scopes l (Acquisition.refused s at l') h settled = settled.1
  limiters_after-Sound scopes l Acquisition.panicked h settled = h

  limiter_step-Sound :
      (lower : String → String) (o : LimiterOp float) (l : Limiters float)
      → Sound float l
      → Sound float (limiter_step lower o l)
  unfolding limiter_step
  limiter_step-Sound lower (LimiterOp.acquire k c group m media rate now) l h =
      limiters_after-Sound _ l _ h
        (check_and_acquire-Settles_scopes lower k c group m media rate now l h)
  limiter_step-Sound lower (LimiterOp.give_back ss) l h = Sound-release ss l h
  limiter_step-Sound lower (LimiterOp.hold s until now) l h = Sound-pause s until now l h
  limiter_step-Sound lower (LimiterOp.evict now idle_ms) l h = Sound-evict_idle now idle_ms l h

  run_limiters-keeps :
      (lower : String → String) (os : List (LimiterOp float)) (l : Limiters float)
      → Sound float l
      → Sound float (run_limiters lower os l)
  unfolding run_limiters
  run_limiters-keeps lower [] l h = h
  run_limiters-keeps lower (o ∷ os) l h =
      run_limiters-keeps lower os (limiter_step lower o l) (limiter_step-Sound lower o l h)

  -- After any sequence of operations on new limiters, every bucket has at most its number of sends
  -- in flight, that number is at most 32, and the chat map has at most its capacity of entries.
  pub run_limiters-Sound :
      (lower : String → String) (now : ℕ) (rate : float.carrier) (os : List (LimiterOp float))
      → Sound float (run_limiters lower os (with_global_rate now rate))
  run_limiters-Sound lower now rate os =
      run_limiters-keeps lower os (with_global_rate now rate) (with_global_rate-Sound now rate)

  take_later :
      (t : Scope) (l : Limiters float) (b : Bucket float)
      → get_bucket t l ≡ some b
      → (c : Bucket float) → get_bucket t l ≡ some c
      → c.paused_until ≤ (take_token b).paused_until
  unfolding take_token
  take_later t l b g c g' = let q : b ≡ c = ground arith in rw q (omega arith)

  take_scopes-Paused :
      (until : ℕ) (s : Scope) (ss : List Scope) (l l' : Limiters float)
      → take_scopes ss l ≡ some l'
      → Paused until s l
      → Paused until s l'
  unfolding take_scopes
  take_scopes-Paused until s [] l l' e p = let q : l ≡ l' = ground arith in rw (← q) p
  take_scopes-Paused until s (t ∷ ss) l l' e p = elim (Option-cases (get_bucket t l)) [
    | inl g ↦ absurd (ground arith)
    | inr (b, g) ↦
        take_scopes-Paused until s ss (put_bucket t (take_token b) l) l' (ground arith)
          (Paused-put_bucket until s t (take_token b) l (λ c g'. take_later t l b g c g') p)
  ]

  take_checked-Paused :
      (until : ℕ) (s : Scope) (ss : List Scope) (l : Limiters float)
      (r : Limiters float × Option (Scope × ℕ))
      → Paused until s r.0
      → Paused until s l
      → Paused until s (limiters_after l (take_checked ss r))
  unfolding take_checked limiters_after
  take_checked-Paused until s ss l (l', some (t, at)) p q = p
  take_checked-Paused until s ss l (l', none) p q = elim (Option-cases (take_scopes ss l')) [
    | inl e ↦ rw (limiters_after, take_checked, e) q
    | inr (l'', e) ↦ rw (limiters_after, take_checked, e) (take_scopes-Paused until s ss l' l'' e p)
  ]

  release-Paused :
      (until : ℕ) (s : Scope) (ss : List Scope) (l : Limiters float)
      → Paused until s l
      → Paused until s (release ss l)
  unfolding release release_scope
  release-Paused until s [] l p = p
  release-Paused until s (t ∷ ss) l p = elim (Option-cases (get_bucket t l)) [
    | inl e ↦ rw (release_scope, e) (release-Paused until s ss l p)
    | inr (b, e) ↦
        rw (release_scope, e)
          (release-Paused until s ss _ (Paused-put_bucket until s t _ l (λ c g. ground arith) p))
  ]

  pause-Paused :
      (until : ℕ) (s t : Scope) (until' now : ℕ) (l : Limiters float)
      → Paused until s l
      → Paused until s (pause t until' now l)
  unfolding pause entry_or
  pause-Paused until s t until' now l p = elim (Bool-cases (chat_denied t l)) [
    | inl d ↦ rw d p
    | inr d ↦ rw d (Paused-put_bucket until s t _ l (λ c g. rw g (omega arith)) p)
  ]

  -- A bucket with a pause to come is not idle.
  kept :
      (until now idle_ms : ℕ) (b : Bucket float)
      → now < until
      → until ≤ b.paused_until
      → not (is_idle now idle_ms b) ≡ true
  unfolding is_idle
  kept until now idle_ms b early p = ground arith

  evict_idle-Paused :
      (until : ℕ) (s : Scope) (now idle_ms : ℕ) (l : Limiters float)
      → now < until
      → Paused until s l
      → Paused until s (evict_idle now idle_ms l)
  unfolding evict_idle Paused get_bucket
  evict_idle-Paused until Scope.global now idle_ms l early p = p
  evict_idle-Paused until (Scope.bot k) now idle_ms l early p = p
  evict_idle-Paused until (Scope.chat k c) now idle_ms l early (b, e, p) =
      (b, map_get-keep_where _ (k, c) l.chats e (kept until now idle_ms b early p), p)
  evict_idle-Paused until (Scope.group k c) now idle_ms l early (b, e, p) =
      (b, map_get-keep_where _ (k, c) l.groups e (kept until now idle_ms b early p), p)
  evict_idle-Paused until (Scope.method k m) now idle_ms l early (b, e, p) =
      (b, map_get-keep_where _ (k, m) l.methods e (kept until now idle_ms b early p), p)

  -- An eviction before the end of the pause; what the others do has no time to keep to.
  unfoldable pub Early : ℕ → LimiterOp float → Type 0
  Early until (LimiterOp.evict now idle_ms) = now < until
  Early until _ = Unit

  limiter_step-Paused :
      (lower : String → String) (until : ℕ) (s : Scope) (o : LimiterOp float) (l : Limiters float)
      → Early until o
      → Paused until s l
      → Paused until s (limiter_step lower o l)
  unfolding limiter_step Early check_and_acquire
  limiter_step-Paused lower until s (LimiterOp.acquire k c group m media rate now) l early p =
      let ss = call_scopes lower k c group m in
      take_checked-Paused until s ss l _
        (Paused-check_scopes rate (if media then 4 else 8) now until s ss l p) p
  limiter_step-Paused lower until s (LimiterOp.give_back ss) l early p =
      release-Paused until s ss l p
  limiter_step-Paused lower until s (LimiterOp.hold t until' now) l early p =
      pause-Paused until s t until' now l p
  limiter_step-Paused lower until s (LimiterOp.evict now idle_ms) l early p =
      evict_idle-Paused until s now idle_ms l early p

  run_limiters-Paused :
      (lower : String → String) (until : ℕ) (s : Scope) (os : List (LimiterOp float))
      (l : Limiters float)
      → All (Early until) os
      → Paused until s l
      → Paused until s (run_limiters lower os l)
  unfolding run_limiters
  run_limiters-Paused lower until s [] l early p = p
  run_limiters-Paused lower until s (o ∷ os) l early p =
      run_limiters-Paused lower until s os _ early.1
        (limiter_step-Paused lower until s o l early.0 p)

  Paused-pause :
      (until at : ℕ) (s : Scope) (l : Limiters float)
      → chat_denied s l ≡ false
      → Paused until s (pause s until at l)
  unfolding pause Paused
  Paused-pause until at s l d = rw d (_, get_bucket-put_bucket s _ l, omega arith)

  -- A scope with a bucket, or with room for one, is paused until a time. After any operations, the
  -- evictions among them before that time, every call in the scope is refused before that time.
  pub pause-refuses :
      (lower : String → String) (until at : ℕ) (s : Scope) (l : Limiters float)
      (os : List (LimiterOp float)) (k : BotId) (c : Option String) (group : Bool) (m : String)
      (media : Bool) (rate : float.carrier) (now : ℕ)
      → chat_denied s l ≡ false
      → All (Early until) os
      → any (λ t. same_scope t s) (call_scopes lower k c group m) ≡ true
      → now < until
      → (t : Scope) × (again : ℕ) × (l' : Limiters float) × (check_and_acquire lower k c group m
            media rate now
            (run_limiters lower os (pause s until at l))
          ≡ Acquisition.refused t again l')
  unfolding check_and_acquire take_checked
  pause-refuses lower until at s l os k c group m media rate now d early member soon =
      let ss = call_scopes lower k c group m in
      let l1 = run_limiters lower os (pause s until at l) in
      let p = run_limiters-Paused lower until s os _ early (Paused-pause until at s l d) in
      let (r, e) =
        check_scopes-refuses rate (if media then 4 else 8) now until s ss l1 soon member p in
      (
        r.0,
        r.1,
        (check_scopes rate (if media then 4 else 8) now ss l1).0,
        rw (take_checked, e) refl,
      )

-- ===== src/Scheduler/Limiters/Places.antt =====
-- Where a call takes its places (`check_and_acquire` of
-- crates/telegram-bulk-delivery/src/scheduler/limiters.rs), said of each bucket.
use telegram_bot_delivery_en.Base.{
  ℕ, ◌+◌, String, ◌≡◌, refl, ap, ◌∙◌, Bool, true, false, ◌&&◌, Option, none, some, if◌then◌else◌,
  ◌==◌, nat_eq, string_eq, pair_eq, count_where, arith,
}
use telegram_bot_delivery_en.Domain.{BotId}
use telegram_bot_delivery_en.Scheduler.Limiters.Scopes.{Scope, Float, Limiters, same_scope}
use telegram_bot_delivery_en.Scheduler.Limiters.Buckets.{
  Acquisition, call_scopes, chat_scopes, check_and_acquire,
}
use telegram_bot_delivery_en.Scheduler.Limiters.Counting.{inflight_in}
use telegram_bot_delivery_en.Scheduler.Limiters.Bounds.{Sound}
use telegram_bot_delivery_en.Scheduler.Limiters.Taking.{Settles, check_and_acquire-Settles_scopes}

abbrev pub is_chat : Option String → String → Bool
is_chat none d = false
is_chat (some c) d = c == d

-- The buckets that a call is counted in: the global one, its bot's, its chat's where it names one, the
-- same chat's group bucket where the chat is a group, and its method's, in lower case.
unfoldable pub counts_in : (String → String) → BotId → Option String → Bool → String → Scope → Bool
counts_in lower k c group m Scope.global = true
counts_in lower k c group m (Scope.bot b) = k == b
counts_in lower k c group m (Scope.chat b d) = k == b && is_chat c d
counts_in lower k c group m (Scope.group b d) = group && (k == b && is_chat c d)
counts_in lower k c group m (Scope.method b n) = k == b && lower m == n

call_scopes-counts_in :
    (lower : String → String) (k : BotId) (c : Option String) (group : Bool) (m : String)
    (t : Scope)
    → count_where (λ s. same_scope s t) (call_scopes lower k c group m)
      ≡ (if counts_in lower k c group m t then 1 else 0)
unfolding call_scopes chat_scopes counts_in
call_scopes-counts_in lower k none group m Scope.global = refl
call_scopes-counts_in lower k none group m (Scope.bot b) = ground arith
call_scopes-counts_in lower k none group m (Scope.chat b d) = ground arith
call_scopes-counts_in lower k none group m (Scope.group b d) = ground arith
call_scopes-counts_in lower k none group m (Scope.method b n) = ground arith
call_scopes-counts_in lower k (some c) true m Scope.global = refl
call_scopes-counts_in lower k (some c) true m (Scope.bot b) = ground arith
call_scopes-counts_in lower k (some c) true m (Scope.chat b d) = ground arith
call_scopes-counts_in lower k (some c) true m (Scope.group b d) = ground arith
call_scopes-counts_in lower k (some c) true m (Scope.method b n) = ground arith
call_scopes-counts_in lower k (some c) false m Scope.global = refl
call_scopes-counts_in lower k (some c) false m (Scope.bot b) = ground arith
call_scopes-counts_in lower k (some c) false m (Scope.chat b d) = ground arith
call_scopes-counts_in lower k (some c) false m (Scope.group b d) = ground arith
call_scopes-counts_in lower k (some c) false m (Scope.method b n) = ground arith

module _ {float : Float} where
  -- A call let through takes one place in each of these buckets and none elsewhere; a refused one
  -- takes none; and no bucket is missing.
  unfoldable pub TakesPlaces : (Scope → Bool) → Limiters float → Acquisition float → Type 0
  TakesPlaces counts l (Acquisition.acquired ss l') =
      ((t : Scope) → inflight_in t l' ≡ (if counts t then 1 else 0) + inflight_in t l)
      × Sound float l'
  TakesPlaces counts l (Acquisition.refused s at l') =
      ((t : Scope) → inflight_in t l' ≡ inflight_in t l) × Sound float l'
  TakesPlaces counts l Acquisition.panicked = ⊥

  module _ (lower : String → String) (k : BotId) (c : Option String) (group : Bool)
      (m : String) where
    settled-TakesPlaces :
        (l : Limiters float) (a : Acquisition float)
        → Settles (call_scopes lower k c group m) l a
        → TakesPlaces (counts_in lower k c group m) l a
    unfolding Settles TakesPlaces
    settled-TakesPlaces l (Acquisition.acquired ss l') (grown, sound, same) = (
      λ t. grown t ∙ ap (λ n. n + inflight_in t l) (call_scopes-counts_in lower k c group m t),
      sound,
    )
    settled-TakesPlaces l (Acquisition.refused s at l') h = h
    settled-TakesPlaces l Acquisition.panicked h = h

    -- From a sound state a call never meets a missing bucket. If it is let through, it adds one to
    -- the sends in flight of the global bucket, of its bot, of its method, of its chat where it names
    -- one and of that chat's group where it is a group, and of no other bucket; if it is refused, no
    -- count changes. The state stays sound both ways.
    pub check_and_acquire-TakesPlaces :
        (media : Bool) (rate : float.carrier) (now : ℕ) (l : Limiters float)
        → Sound float l
        → TakesPlaces
            (counts_in lower k c group m)
            l
            (check_and_acquire lower k c group m media rate now l)
    check_and_acquire-TakesPlaces media rate now l sound =
        settled-TakesPlaces l _
          (check_and_acquire-Settles_scopes lower k c group m media rate now l sound)

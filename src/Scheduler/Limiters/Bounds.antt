-- ===== src/Scheduler/Limiters/Bounds.antt =====
-- The bounds that the limiters keep: each bucket's sends in flight, and the entries of the chat map
-- (crates/telegram-bulk-delivery/src/scheduler/limiters.rs).
use telegram_bot_delivery_en.Base.{
  ℕ, ◌≤◌, String, ◌≡◌, refl, inl, inr, false, not, ◌&&◌, List, [], ◌∷◌, some, All, All-map_put,
  All-map_get, All-keep_where, length, length-map_put, length-keep_where, leb, contains_key,
  map_put, Bool-cases, Option-cases, arith, nat_eq, string_eq, pair_eq,
}
use telegram_bot_delivery_en.Domain.{BotId}
use telegram_bot_delivery_en.Scheduler.Limiters.Scopes.{
  Scope, Float, Bucket, Limiters, get_bucket, put_bucket,
}
use telegram_bot_delivery_en.Scheduler.Limiters.Buckets.{
  fresh_bucket, new_bucket, entry_or, chat_denied, check_scope, check_scopes, release_scope,
  release, pause, is_idle, evict_idle, with_global_rate,
}
use telegram_bot_delivery_en.Scheduler.Limiters.Counting.{check_keeps}

-- At most the bucket's number of sends is in flight, and that number is at most 32.
abbrev pub Holds : {float : Float} → Bucket float → Type 0
Holds b = (b.inflight ≤ b.max_inflight) × (b.max_inflight ≤ 32)

pub record Sound (float : Float) (l : Limiters float) : Type 0 where
  pub global_holds : Holds l.global
  pub bots_hold : All (λ e. Holds e.1) l.bots
  pub chats_hold : All (λ e. Holds e.1) l.chats
  pub groups_hold : All (λ e. Holds e.1) l.groups
  pub methods_hold : All (λ e. Holds e.1) l.methods
  pub chats_fit : length l.chats ≤ l.chat_capacity

module _ (float : Float) (rate : float.carrier) (slots now : ℕ) (few : slots ≤ 32) where
  fresh-Holds : (s : Scope) → Holds (fresh_bucket {float = float} rate slots now s)
  unfolding fresh_bucket new_bucket
  fresh-Holds Scope.global = ground arith
  fresh-Holds (Scope.bot k) = ground arith
  fresh-Holds (Scope.chat k c) = ground arith
  fresh-Holds (Scope.group k c) = ground arith
  fresh-Holds (Scope.method k m) = ground arith

module _ {float : Float} where
  pub Sound-get_bucket :
      (s : Scope) (l : Limiters float) {b : Bucket float}
      → get_bucket s l ≡ some b
      → Sound float l
      → Holds b
  unfolding get_bucket
  Sound-get_bucket Scope.global l {b} e h = let q : l.global ≡ b = cc in rw (← q) h.global_holds
  Sound-get_bucket (Scope.bot k) l e h = All-map_get Holds k l.bots e h.bots_hold
  Sound-get_bucket (Scope.chat k c) l e h = All-map_get Holds (k, c) l.chats e h.chats_hold
  Sound-get_bucket (Scope.group k c) l e h = All-map_get Holds (k, c) l.groups e h.groups_hold
  Sound-get_bucket (Scope.method k m) l e h = All-map_get Holds (k, m) l.methods e h.methods_hold

  -- A chat that is known, or that finds room.
  chats-fit :
      (k : BotId × String) (v : Bucket float) (es : List ((BotId × String) × Bucket float))
      (room : ℕ)
      → leb room (length es) && not (contains_key k es) ≡ false
      → length es ≤ room
      → length (map_put k v es) ≤ room
  chats-fit k v es room h fits = ground (arith, length-map_put k v es)

  pub Sound-put_bucket :
      (s : Scope) (v : Bucket float) (l : Limiters float)
      → chat_denied s l ≡ false
      → Holds v
      → Sound float l
      → Sound float (put_bucket s v l)
  unfolding put_bucket chat_denied
  Sound-put_bucket Scope.global v l d p h = record {
    global_holds = p;
    bots_hold = h.bots_hold;
    chats_hold = h.chats_hold;
    groups_hold = h.groups_hold;
    methods_hold = h.methods_hold;
    chats_fit = h.chats_fit;
  }
  Sound-put_bucket (Scope.bot k) v l d p h = record {
    bots_hold = All-map_put Holds k v l.bots p h.bots_hold;
    global_holds = h.global_holds;
    chats_hold = h.chats_hold;
    groups_hold = h.groups_hold;
    methods_hold = h.methods_hold;
    chats_fit = h.chats_fit;
  }
  Sound-put_bucket (Scope.chat k c) v l d p h = record {
    chats_hold = All-map_put Holds (k, c) v l.chats p h.chats_hold;
    chats_fit = chats-fit (k, c) v l.chats l.chat_capacity d h.chats_fit;
    global_holds = h.global_holds;
    bots_hold = h.bots_hold;
    groups_hold = h.groups_hold;
    methods_hold = h.methods_hold;
  }
  Sound-put_bucket (Scope.group k c) v l d p h = record {
    groups_hold = All-map_put Holds (k, c) v l.groups p h.groups_hold;
    global_holds = h.global_holds;
    bots_hold = h.bots_hold;
    chats_hold = h.chats_hold;
    methods_hold = h.methods_hold;
    chats_fit = h.chats_fit;
  }
  Sound-put_bucket (Scope.method k m) v l d p h = record {
    methods_hold = All-map_put Holds (k, m) v l.methods p h.methods_hold;
    global_holds = h.global_holds;
    bots_hold = h.bots_hold;
    chats_hold = h.chats_hold;
    groups_hold = h.groups_hold;
    chats_fit = h.chats_fit;
  }

  -- A scope that has a bucket is not denied.
  known-chat_denied :
      (s : Scope) (l : Limiters float) {b : Bucket float}
      → get_bucket s l ≡ some b
      → chat_denied s l ≡ false
  unfolding get_bucket chat_denied
  known-chat_denied Scope.global l e = refl
  known-chat_denied (Scope.bot k) l e = refl
  known-chat_denied (Scope.chat k c) l e = ground arith
  known-chat_denied (Scope.group k c) l e = refl
  known-chat_denied (Scope.method k m) l e = refl

  pub Sound-put_known :
      (s : Scope) (v : Bucket float) (l : Limiters float) {b : Bucket float}
      → get_bucket s l ≡ some b
      → Holds v
      → Sound float l
      → Sound float (put_bucket s v l)
  Sound-put_known s v l e = Sound-put_bucket s v l (known-chat_denied s l e)

  module _ (rate : float.carrier) (slots now : ℕ) (few : slots ≤ 32) where
    pub entry-Holds :
        (s : Scope) (l : Limiters float)
        → Sound float l
        → Holds (entry_or (fresh_bucket {float = float} rate slots now s) (get_bucket s l))
    unfolding entry_or
    entry-Holds s l h = elim (Option-cases (get_bucket s l)) [
      | inl e ↦ rw e (fresh-Holds float rate slots now few s)
      | inr (b, e) ↦ rw e (Sound-get_bucket s l e h)
    ]

    pub Sound-check_scope :
        (s : Scope) (l : Limiters float)
        → Sound float l
        → Sound float (check_scope rate slots now s l).0
    unfolding check_scope
    Sound-check_scope s l h = elim (Bool-cases (chat_denied s l)) [
      | inl d ↦ rw d h
      | inr d ↦
          let b = entry_or (fresh_bucket {float = float} rate slots now s) (get_bucket s l) in
          rw d (Sound-put_bucket s _ l d (ground (arith, check_keeps now b, entry-Holds s l h)) h)
    ]

    pub Sound-check_scopes :
        (ss : List Scope) (l : Limiters float)
        → Sound float l
        → Sound float (check_scopes rate slots now ss l).0
    unfolding check_scopes
    Sound-check_scopes [] l h = h
    Sound-check_scopes (s ∷ ss) l h = elim (Option-cases (check_scope rate slots now s l).1) [
      | inl e ↦ rw (e, check_scopes) (Sound-check_scopes ss _ (Sound-check_scope s l h))
      | inr (at, e) ↦ rw (e, check_scopes) (Sound-check_scope s l h)
    ]

  pub Sound-release :
      (ss : List Scope) (l : Limiters float) → Sound float l → Sound float (release ss l)
  unfolding release release_scope
  Sound-release [] l h = h
  Sound-release (s ∷ ss) l h = elim (Option-cases (get_bucket s l)) [
    | inl e ↦ rw (e, release_scope) (Sound-release ss l h)
    | inr (b, e) ↦
        rw (e, release_scope)
          (Sound-release ss _
            (Sound-put_known s _ l e (ground (arith, Sound-get_bucket s l e h)) h))
  ]

  pub Sound-pause :
      (s : Scope) (until now : ℕ) (l : Limiters float)
      → Sound float l
      → Sound float (pause s until now l)
  unfolding pause
  Sound-pause s until now l h = elim (Bool-cases (chat_denied s l)) [
    | inl d ↦ rw d h
    | inr d ↦
        rw d (Sound-put_bucket s _ l d (entry-Holds (float.of_nat 20) 8 now (omega arith) s l h) h)
  ]

  pub Sound-evict_idle :
      (now idle_ms : ℕ) (l : Limiters float)
      → Sound float l
      → Sound float (evict_idle now idle_ms l)
  unfolding evict_idle
  Sound-evict_idle now idle_ms l h = record {
    chats_hold = All-keep_where _ _ l.chats h.chats_hold;
    groups_hold = All-keep_where _ _ l.groups h.groups_hold;
    methods_hold = All-keep_where _ _ l.methods h.methods_hold;
    chats_fit =
        omega (arith, length-keep_where (λ e. not (is_idle now idle_ms e.1)) l.chats, h.chats_fit);
    global_holds = h.global_holds;
    bots_hold = h.bots_hold;
  }

  pub with_global_rate-Sound :
      (now : ℕ) (rate : float.carrier) → Sound float (with_global_rate now rate)
  unfolding with_global_rate new_bucket
  with_global_rate-Sound now rate = record {
    global_holds = ground arith;
    bots_hold = tt;
    chats_hold = tt;
    groups_hold = tt;
    methods_hold = tt;
    chats_fit = omega arith;
  }

-- ===== src/Scheduler/Limiters/Buckets.antt =====
-- `Bucket` and the operations of `Limiters`: every scope of a call is checked before one is taken.
use telegram_bot_delivery_en.Base.{
  ℕ, ◌+◌, ◌-◌, ◌%◌, ◌^◌, max, String, Bool, true, false, not, ◌&&◌, List, [], ◌∷◌, Option, none,
  some, ltb, leb, nat_beq, if◌then◌else◌, length, keep_where, contains_key, nat_eq, string_eq,
  pair_eq,
}
use telegram_bot_delivery_en.Domain.{BotId}
use telegram_bot_delivery_en.Scheduler.Limiters.Scopes.{
  Scope, Float, Bucket, Limiters, get_bucket, put_bucket,
}

-- `None` stands for `unwrap` on a missing bucket, which panics.
pub data Acquisition (float : Float) : Type 0 where
  acquired : List Scope → Limiters float → Acquisition float
  refused : Scope → ℕ → Limiters float → Acquisition float
  panicked : Acquisition float

abbrev pub wrap_u64 : ℕ → ℕ
wrap_u64 n = n % 2 ^ 64

-- The scopes of one call, in the order in which they are checked.
unfoldable pub chat_scopes : BotId → Option String → Bool → List Scope
chat_scopes b none group = []
chat_scopes b (some c) true = Scope.chat b c ∷ Scope.group b c ∷ []
chat_scopes b (some c) false = Scope.chat b c ∷ []

-- `to_ascii_lowercase` is the parameter `lower`.
unfoldable pub call_scopes : (String → String) → BotId → Option String → Bool → String → List Scope
call_scopes lower b c group m =
    Scope.global ∷ Scope.bot b ∷ Scope.method b (lower m) ∷ chat_scopes b c group

module _ {float : Float} where
  open float use {carrier, of_nat, add, sub, mul, div, less, ceil, as_u64}

  unfoldable pub new_bucket : carrier → carrier → ℕ → ℕ → Bucket float
  new_bucket rate burst now max = record {
    rate = rate;
    burst = burst;
    tokens = burst;
    last = now;
    paused_until = 0;
    inflight = 0;
    max_inflight = max;
  }

  unfoldable pub refill : ℕ → Bucket float → Bucket float
  refill now b = record b {
    tokens =
        float.min (add b.tokens (mul (div (of_nat (now - b.last)) (of_nat 1000)) b.rate)) b.burst;
    last = now;
  }

  -- Ok, or the time from which the bucket may be tried again.
  unfoldable pub admit : ℕ → Bucket float → Option ℕ
  admit now b =
      if leb b.max_inflight b.inflight
      then some (wrap_u64 (now + 1))
      else if less b.tokens (of_nat 1)
      then some (
          wrap_u64 (now + as_u64 (ceil (mul (div (sub (of_nat 1) b.tokens) b.rate) (of_nat 1000)))))
      else none

  unfoldable pub check : ℕ → Bucket float → Bucket float × Option ℕ
  check now b =
      if ltb now b.paused_until
      then (b, some b.paused_until)
      else (refill now b, admit now (refill now b))

  unfoldable pub take_token : Bucket float → Bucket float
  take_token b = record b { tokens = sub b.tokens (of_nat 1); inflight = (b.inflight + 1) % 2 ^ 8 }

  unfoldable pub with_global_rate : ℕ → carrier → Limiters float
  unfolding new_bucket
  with_global_rate now per_sec = record {
    global = new_bucket per_sec (mul per_sec (of_nat 2)) now 32;
    bots = [];
    chats = [];
    groups = [];
    methods = [];
    chat_capacity = 131072;
  }

  unfoldable pub new_limiters : ℕ → Limiters float
  unfolding with_global_rate
  new_limiters now = with_global_rate now (of_nat 25)

  -- The bucket that `or_insert_with` makes for a scope without one; the global one is always there.
  unfoldable pub fresh_bucket : carrier → ℕ → ℕ → Scope → Bucket float
  unfolding new_bucket
  fresh_bucket bot_rate method_slots now Scope.global = new_bucket (of_nat 25) (of_nat 50) now 32
  fresh_bucket bot_rate method_slots now (Scope.bot b) = new_bucket bot_rate (of_nat 10) now 4
  fresh_bucket bot_rate method_slots now (Scope.chat b c) = new_bucket (of_nat 1) (of_nat 2) now 4
  fresh_bucket bot_rate method_slots now (Scope.group b c) =
      new_bucket (div (of_nat 1) (of_nat 3)) (of_nat 1) now 4
  fresh_bucket bot_rate method_slots now (Scope.method b m) =
      new_bucket (of_nat 1000) (of_nat 1000) now method_slots

  unfoldable pub entry_or : Bucket float → Option (Bucket float) → Bucket float
  entry_or fresh (some b) = b
  entry_or fresh none = fresh

  -- A chat that is not known while the map of chats is full.
  unfoldable pub chat_denied : Scope → Limiters float → Bool
  chat_denied (Scope.chat b c) l =
      leb l.chat_capacity (length l.chats) && not (contains_key (b, c) l.chats)
  chat_denied _ l = false

  unfoldable pub check_scope : carrier → ℕ → ℕ → Scope → Limiters float → Limiters float × Option ℕ
  unfolding entry_or check fresh_bucket
  check_scope bot_rate method_slots now s l =
      if chat_denied s l
      then (l, some (wrap_u64 (now + 1000)))
      else let b = entry_or (fresh_bucket bot_rate method_slots now s) (get_bucket s l) in
        (put_bucket s (check now b).0 l, (check now b).1)

  -- The first scope that refuses ends the round.
  unfoldable pub check_scopes :
      carrier → ℕ → ℕ → List Scope → Limiters float → Limiters float × Option (Scope × ℕ)
  unfolding check_scope
  check_scopes bot_rate method_slots now [] l = (l, none)
  check_scopes bot_rate method_slots now (s ∷ ss) l =
      let r = check_scope bot_rate method_slots now s l in
      elim r.1 [
        | some at ↦ (r.0, some (s, at))
        | none ↦ check_scopes bot_rate method_slots now ss r.0
      ]

  unfoldable pub take_scopes : List Scope → Limiters float → Option (Limiters float)
  unfolding take_token
  take_scopes [] l = some l
  take_scopes (s ∷ ss) l = elim (get_bucket s l) [
    | some b ↦ take_scopes ss (put_bucket s (take_token b) l)
    | none ↦ none
  ]

  unfoldable pub take_checked : List Scope → Limiters float × Option (Scope × ℕ) → Acquisition float
  take_checked ss (l, some (s, at)) = Acquisition.refused s at l
  take_checked ss (l, none) = elim (take_scopes ss l) [
    | some l' ↦ Acquisition.acquired ss l'
    | none ↦ Acquisition.panicked
  ]

  unfoldable pub check_and_acquire :
      (String → String)
      → BotId
      → Option String
      → Bool
      → String
      → Bool
      → carrier
      → ℕ
      → Limiters float
      → Acquisition float
  unfolding check_scopes take_checked
  check_and_acquire lower b c group m media bot_rate now l =
      let ss = call_scopes lower b c group m in
      take_checked ss (check_scopes bot_rate (if media then 4 else 8) now ss l)

  unfoldable pub release_scope : Scope → Limiters float → Limiters float
  release_scope s l = elim (get_bucket s l) [
    | some b ↦ put_bucket s (record b { inflight = b.inflight - 1 }) l
    | none ↦ l
  ]

  unfoldable pub release : List Scope → Limiters float → Limiters float
  unfolding release_scope
  release [] l = l
  release (s ∷ ss) l = release ss (release_scope s l)

  unfoldable pub pause : Scope → ℕ → ℕ → Limiters float → Limiters float
  unfolding entry_or fresh_bucket
  pause s until now l =
      if chat_denied s l
      then l
      else let b = entry_or (fresh_bucket (of_nat 20) 8 now s) (get_bucket s l) in
        put_bucket s (record b { paused_until = max b.paused_until until }) l

  unfoldable pub is_idle : ℕ → ℕ → Bucket float → Bool
  is_idle now idle_ms b =
      nat_beq b.inflight 0 && leb b.paused_until now && ltb b.last (now - idle_ms)

  unfoldable pub evict_idle : ℕ → ℕ → Limiters float → Limiters float
  unfolding is_idle
  evict_idle now idle_ms l = record l {
    chats = keep_where (λ e. not (is_idle now idle_ms e.1)) l.chats;
    groups = keep_where (λ e. not (is_idle now idle_ms e.1)) l.groups;
    methods = keep_where (λ e. not (is_idle now idle_ms e.1)) l.methods;
  }

  unfoldable pub chat_entries : Limiters float → ℕ
  chat_entries l = length l.chats

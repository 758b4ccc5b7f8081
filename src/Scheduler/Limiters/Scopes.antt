-- ===== src/Scheduler/Limiters/Scopes.antt =====
-- `Scope` and the maps of `Limiters`: which bucket a scope names.
use telegram_bot_delivery_en.Base.{
  ℕ, ◌*◌, String, ◌≡◌, refl, Bool, true, false, List, Option, some, ◌==◌, nat_eq, string_eq,
  pair_eq, same_pair, map_get, map_put, map_get-map_put, map_get-map_put_other,
}
use telegram_bot_delivery_en.Domain.{BotId}

pub data Scope : Type 0 where
  global : Scope
  bot : BotId → Scope
  chat : BotId → String → Scope
  group : BotId → String → Scope
  method : BotId → String → Scope

-- The arithmetic on f64 that the buckets use; `as u64` truncates and saturates.
pub record Float : Type 1 where
  pub carrier : Type 0
  pub of_nat : ℕ → carrier
  pub add : carrier → carrier → carrier
  pub sub : carrier → carrier → carrier
  pub mul : carrier → carrier → carrier
  pub div : carrier → carrier → carrier
  pub min : carrier → carrier → carrier
  pub less : carrier → carrier → Bool
  pub ceil : carrier → carrier
  pub as_u64 : carrier → ℕ

pub record Bucket (float : Float) : Type 0 where
  pub rate : float.carrier
  pub burst : float.carrier
  pub tokens : float.carrier
  pub last : ℕ
  pub paused_until : ℕ
  pub inflight : ℕ
  pub max_inflight : ℕ

pub record Limiters (float : Float) : Type 0 where
  pub global : Bucket float
  pub bots : List (BotId × Bucket float)
  pub chats : List ((BotId × String) × Bucket float)
  pub groups : List ((BotId × String) × Bucket float)
  pub methods : List ((BotId × String) × Bucket float)
  pub chat_capacity : ℕ

abbrev pub idle_bucket_ttl_ms : ℕ
idle_bucket_ttl_ms = 60 * 60 * 1000

abbrev pub same_scope : Scope → Scope → Bool
same_scope Scope.global Scope.global = true
same_scope (Scope.bot b) (Scope.bot b') = b == b'
same_scope (Scope.chat b c) (Scope.chat b' c') = same_pair (b, c) (b', c')
same_scope (Scope.group b c) (Scope.group b' c') = same_pair (b, c) (b', c')
same_scope (Scope.method b m) (Scope.method b' m') = same_pair (b, m) (b', m')
same_scope _ _ = false

module _ {float : Float} where
  -- `get_mut` on the map of the scope's kind, and the write through it.
  unfoldable pub get_bucket : Scope → Limiters float → Option (Bucket float)
  get_bucket Scope.global l = some l.global
  get_bucket (Scope.bot b) l = map_get b l.bots
  get_bucket (Scope.chat b c) l = map_get (b, c) l.chats
  get_bucket (Scope.group b c) l = map_get (b, c) l.groups
  get_bucket (Scope.method b m) l = map_get (b, m) l.methods

  unfoldable pub put_bucket : Scope → Bucket float → Limiters float → Limiters float
  put_bucket Scope.global v l = record l { global = v }
  put_bucket (Scope.bot b) v l = record l { bots = map_put b v l.bots }
  put_bucket (Scope.chat b c) v l = record l { chats = map_put (b, c) v l.chats }
  put_bucket (Scope.group b c) v l = record l { groups = map_put (b, c) v l.groups }
  put_bucket (Scope.method b m) v l = record l { methods = map_put (b, m) v l.methods }

  pub get_bucket-put_bucket :
      (s : Scope) (v : Bucket float) (l : Limiters float) → get_bucket s (put_bucket s v l) ≡ some v
  unfolding get_bucket put_bucket
  get_bucket-put_bucket Scope.global v l = refl
  get_bucket-put_bucket (Scope.bot b) v l = map_get-map_put b v l.bots
  get_bucket-put_bucket (Scope.chat b c) v l = map_get-map_put (b, c) v l.chats
  get_bucket-put_bucket (Scope.group b c) v l = map_get-map_put (b, c) v l.groups
  get_bucket-put_bucket (Scope.method b m) v l = map_get-map_put (b, m) v l.methods

  pub get_bucket-put_bucket_other :
      (t s : Scope) (v : Bucket float) (l : Limiters float)
      → same_scope s t ≡ false
      → get_bucket t (put_bucket s v l) ≡ get_bucket t l
  unfolding get_bucket put_bucket
  get_bucket-put_bucket_other Scope.global Scope.global v l n = cc
  get_bucket-put_bucket_other (Scope.bot b) (Scope.bot b') v l n =
      map_get-map_put_other b b' v l.bots n
  get_bucket-put_bucket_other (Scope.chat b c) (Scope.chat b' c') v l n =
      map_get-map_put_other (b, c) (b', c') v l.chats n
  get_bucket-put_bucket_other (Scope.group b c) (Scope.group b' c') v l n =
      map_get-map_put_other (b, c) (b', c') v l.groups n
  get_bucket-put_bucket_other (Scope.method b c) (Scope.method b' c') v l n =
      map_get-map_put_other (b, c) (b', c') v l.methods n
  get_bucket-put_bucket_other Scope.global (Scope.bot k) v l n = refl
  get_bucket-put_bucket_other Scope.global (Scope.chat k d) v l n = refl
  get_bucket-put_bucket_other Scope.global (Scope.group k d) v l n = refl
  get_bucket-put_bucket_other Scope.global (Scope.method k d) v l n = refl
  get_bucket-put_bucket_other (Scope.bot b) Scope.global v l n = refl
  get_bucket-put_bucket_other (Scope.bot b) (Scope.chat k d) v l n = refl
  get_bucket-put_bucket_other (Scope.bot b) (Scope.group k d) v l n = refl
  get_bucket-put_bucket_other (Scope.bot b) (Scope.method k d) v l n = refl
  get_bucket-put_bucket_other (Scope.chat b c) Scope.global v l n = refl
  get_bucket-put_bucket_other (Scope.chat b c) (Scope.bot k) v l n = refl
  get_bucket-put_bucket_other (Scope.chat b c) (Scope.group k d) v l n = refl
  get_bucket-put_bucket_other (Scope.chat b c) (Scope.method k d) v l n = refl
  get_bucket-put_bucket_other (Scope.group b c) Scope.global v l n = refl
  get_bucket-put_bucket_other (Scope.group b c) (Scope.bot k) v l n = refl
  get_bucket-put_bucket_other (Scope.group b c) (Scope.chat k d) v l n = refl
  get_bucket-put_bucket_other (Scope.group b c) (Scope.method k d) v l n = refl
  get_bucket-put_bucket_other (Scope.method b c) Scope.global v l n = refl
  get_bucket-put_bucket_other (Scope.method b c) (Scope.bot k) v l n = refl
  get_bucket-put_bucket_other (Scope.method b c) (Scope.chat k d) v l n = refl
  get_bucket-put_bucket_other (Scope.method b c) (Scope.group k d) v l n = refl

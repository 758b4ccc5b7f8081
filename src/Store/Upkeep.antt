-- ===== src/Store/Upkeep.antt =====
-- The remaining commands of src/store/writer.rs: bots, configurations, limiter pauses, retention and
-- the persisted scheduler.
use telegram_bot_delivery_en.Base.{
  ℕ, ◌+◌, String, Bool, true, false, not, ◌&&◌, ◌||◌, List, [], ◌∷◌, ◌++◌, Option, none, some, ℤ,
  ltb_ℤ, eqb_ℤ, max_ℤ, ◌==◌, nat_eq, string_eq, if◌then◌else◌, any, update_where, keep_where,
  length, take,
}
use telegram_bot_delivery_en.Domain.{
  BotId, JobId, JobState, WebhookState, job_state_eq, webhook_state_eq,
}
use telegram_bot_delivery_en.Webhook.Pages.{Bytes}
use telegram_bot_delivery_en.Store.Tables.{
  Bot, BotConfig, Job, JobFile, LimiterPause, Db, Result, ok, err, sqlite, invalid_command, ◌>>=◌,
  WriterResult, done, retention, Env, transaction, is_job,
}
use telegram_bot_delivery_en.Store.Sql.{coalesce, str_ltb, sorted}
use telegram_bot_delivery_en.Store.Accept.{delete_jobs}

-- `ON CONFLICT(bot_id) DO NOTHING`.
unfoldable pub upsert_bot : Env → Bot → Db → Db × Result WriterResult
upsert_bot env b = transaction env λ db. ok (
  if any (λ c. c.bot_id == b.bot_id) db.bots then db else record db { bots = db.bots ++ (b ∷ []) },
  done,
)

-- The configuration as the crate reads it out of its JSON: `get(key)` with `as_i64`, `as_str` and
-- `as_f64` (the bits).
pub record ConfigJson : Type 0 where
  pub integer : String → Option ℤ
  pub text : String → Option String
  pub float : String → Option ℕ

abbrev pub required {ℓ} : {A : Type ℓ} → String → Option A → Result A
required what none = err (invalid_command what)
required what (some a) = ok a

pub record WebhookSecret : Type 0 where
  pub nonce : Bytes
  pub ciphertext : Bytes
  pub kid : String

abbrev nonce_of : Option WebhookSecret → Option Bytes
nonce_of none = none
nonce_of (some s) = some s.nonce

abbrev ciphertext_of : Option WebhookSecret → Option Bytes
ciphertext_of none = none
ciphertext_of (some s) = some s.ciphertext

abbrev kid_of : Option WebhookSecret → Option String
kid_of none = none
kid_of (some s) = some s.kid

unfoldable pub config_row : BotId → ConfigJson → Option WebhookSecret → ℤ → Result BotConfig
config_row bot c secret updated_at = do
  target ← required "config rate missing" (c.float "target_msgs_per_sec")
  retry_max ← required "config integer missing" (c.integer "retry_max_attempts")
  base ← required "config integer missing" (c.integer "retry_base_ms")
  limit ← required "config integer missing" (c.integer "retry_max_ms")
  classes ← required "config string missing" (c.text "retryable_classes_json")
  policy ← required "config string missing" (c.text "ambiguity_policy")
  deadline ← required "config integer missing" (c.integer "job_deadline_secs")
  weight ← required "config integer missing" (c.integer "fairness_weight")
  hook_max ← required "config integer missing" (c.integer "webhook_max_attempts")
  hook_base ← required "config integer missing" (c.integer "webhook_retry_base_ms")
  hook_limit ← required "config integer missing" (c.integer "webhook_retry_max_ms")
  ok (record {
    bot_id = bot;
    config_version = 1;
    target_msgs_per_sec = target;
    retry_max_attempts = retry_max;
    retry_base_ms = base;
    retry_max_ms = limit;
    retry_jitter = "full";
    retryable_classes_json = classes;
    ambiguity_policy = policy;
    job_deadline_secs = deadline;
    fairness_weight = weight;
    webhook_url = c.text "completion_webhook_url";
    webhook_https_only = true;
    webhook_secret_nonce = nonce_of secret;
    webhook_secret_ciphertext = ciphertext_of secret;
    webhook_secret_kid = kid_of secret;
    webhook_max_attempts = hook_max;
    webhook_retry_base_ms = hook_base;
    webhook_retry_max_ms = hook_limit;
    updated_at_unix = updated_at;
    telegram_api_base = c.text "telegram_api_base";
  })

-- `CASE WHEN excluded.webhook_url IS NULL THEN NULL ELSE coalesce(excluded.x, x) END`.
abbrev pub kept_secret {ℓ} : {A : Type ℓ} → Option String → Option A → Option A → Option A
kept_secret none new old = none
kept_secret (some url) new old = coalesce new old

-- `DO UPDATE SET …`, with the new row as `excluded`.
abbrev pub merge_config : BotConfig → BotConfig → BotConfig
merge_config new old = record new {
  config_version = old.config_version + 1;
  retry_jitter = old.retry_jitter;
  webhook_https_only = old.webhook_https_only;
  webhook_secret_nonce =
      kept_secret new.webhook_url new.webhook_secret_nonce old.webhook_secret_nonce;
  webhook_secret_ciphertext =
      kept_secret new.webhook_url new.webhook_secret_ciphertext old.webhook_secret_ciphertext;
  webhook_secret_kid = kept_secret new.webhook_url new.webhook_secret_kid old.webhook_secret_kid;
}

abbrev pub is_config : BotId → BotConfig → Bool
is_config bot c = c.bot_id == bot

-- The bot of a new configuration has to exist.
unfoldable pub put_config : BotConfig → Db → Result (Db × WriterResult)
put_config new db =
    if any (is_config new.bot_id) db.bot_configs
    then ok (
      record db {
        bot_configs = update_where (is_config new.bot_id) (merge_config new) db.bot_configs;
      },
      done,
    )
    else if any (λ b. b.bot_id == new.bot_id) db.bots
    then ok (record db { bot_configs = db.bot_configs ++ (new ∷ []) }, done)
    else err (sqlite "FOREIGN KEY constraint failed")

unfoldable pub upsert_config :
    Env → BotId → ConfigJson → Option WebhookSecret → ℤ → Db → Db × Result WriterResult
upsert_config env bot c secret updated_at =
    transaction env λ db. config_row bot c secret updated_at >>= λ new. put_config new db

-- A pause is only ever extended.
abbrev pub extend_pause : LimiterPause → LimiterPause → LimiterPause
extend_pause new old = record old {
  paused_until_unix = max_ℤ old.paused_until_unix new.paused_until_unix;
  last_retry_after = new.last_retry_after;
  updated_at_unix = new.updated_at_unix;
}

abbrev pub is_pause : String → LimiterPause → Bool
is_pause key p = p.scope_key == key

unfoldable pub pause_scope : Env → LimiterPause → Db → Db × Result WriterResult
pause_scope env new = transaction env λ db. ok (
  record db {
    limiter_pauses =
        if any (is_pause new.scope_key) db.limiter_pauses
        then update_where (is_pause new.scope_key) (extend_pause new) db.limiter_pauses
        else db.limiter_pauses ++ (new ∷ []);
  },
  done,
)

abbrev expires_before : ℤ → Option ℤ → Bool
expires_before now none = false
expires_before now (some at) = ltb_ℤ at now

abbrev pub is_finished : JobState → Bool
is_finished JobState.completed = true
is_finished JobState.failed_internal = true
is_finished _ = false

abbrev pub is_settled : WebhookState → Bool
is_settled s = not (s == WebhookState.pending || s == WebhookState.delivering)

-- The WHERE of the retention query.
abbrev pub is_collectable : ℤ → Job → Bool
is_collectable now j =
    expires_before now j.expire_at_unix && is_settled j.webhook_state && is_finished j.state

-- `ORDER BY expire_at_unix,job_id`, over rows whose `expire_at_unix` is not NULL.
abbrev expires_first : Job → Job → Bool
expires_first j k = elim j.expire_at_unix [
  | none ↦ true
  | some a ↦ elim k.expire_at_unix [
    | none ↦ false
    | some b ↦ ltb_ℤ a b || (eqb_ℤ a b && str_ltb j.job_id k.job_id)
  ]
]

unfoldable pub blob_paths : JobId → List JobFile → List String
blob_paths id [] = []
blob_paths id (f ∷ fs) =
    let rest = blob_paths id fs in if f.job_id == id then f.blob_path ∷ rest else rest

unfoldable pub all_paths : List Job → List JobFile → List String
all_paths [] files = []
all_paths (j ∷ jobs) files = blob_paths j.job_id files ++ all_paths jobs files

-- `DELETE FROM webhook_events WHERE job_id=?1`, which takes pages and deliveries along.
unfoldable pub delete_event : JobId → Db → Db
delete_event id db = record db {
  webhook_events = keep_where (λ e. not (e.job_id == id)) db.webhook_events;
  webhook_pages =
      keep_where
        (λ p. not (any (λ e. e.job_id == id && e.event_id == p.event_id) db.webhook_events))
        db.webhook_pages;
  webhook_deliveries =
      keep_where
        (λ d. not (any (λ e. e.job_id == id && e.event_id == d.event_id) db.webhook_events))
        db.webhook_deliveries;
}

unfoldable pub collect : List Job → Db → Result Db
collect [] db = ok db
collect (j ∷ jobs) db = do
  (db', n) ← delete_jobs (is_job j.job_id) j.job_id (delete_event j.job_id db)
  collect jobs db'

unfoldable pub retire : ℤ → ℕ → Db → Result (Db × WriterResult)
retire now batch db =
    let jobs = take batch (sorted expires_first (keep_where (is_collectable now) db.jobs)) in
    collect jobs db >>= λ d. ok (d, retention (length jobs) (all_paths jobs db.job_files))

-- The files are removed from disk after the commit.
unfoldable pub retention_tick : Env → ℤ → ℕ → Db → Db × Result WriterResult
retention_tick env now batch = transaction env (retire now batch)

unfoldable pub persist_scheduler : Env → BotId → ℤ → ℕ → ℤ → Db → Db × Result WriterResult
persist_scheduler env bot deficit weight last_grant = transaction env λ db.
    if any (λ f. f.bot_id == bot) db.fairness_deficits
    then ok (
      record db {
        fairness_deficits =
            update_where (λ f. f.bot_id == bot)
              (λ f. record f { deficit = deficit; weight = weight; last_grant_unix = last_grant })
              db.fairness_deficits;
      },
      done,
    )
    else if any (λ b. b.bot_id == bot) db.bots
    then ok (
      record db {
        fairness_deficits =
            db.fairness_deficits
            ++ (record {
              bot_id = bot;
              deficit = deficit;
              weight = weight;
              last_grant_unix = last_grant;
            }
                ∷ []);
      },
      done,
    )
    else err (sqlite "FOREIGN KEY constraint failed")

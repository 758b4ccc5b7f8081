-- ===== src/Examples/Reading.antt =====
-- The theorems on queries and on Telegram's answers at concrete inputs.
use telegram_bot_delivery_en.Base.{
  ℕ, ◌≤◌, ◌≡◌, refl, true, false, [], ◌∷◌, none, some, pos, arith, length, map, any, nat_eq,
  string_eq, is_some, ◌==◌,
}
use telegram_bot_delivery_en.Domain.{AmbiguityPolicy, JobState, RecipientState, WebhookState}
use telegram_bot_delivery_en.Meta.Spec.{SuccessProjection, MethodFamily}
use telegram_bot_delivery_en.Telegram.Masking.{
  chars, short_runs, sanitize_chars, sanitize_chars-masked,
}
use telegram_bot_delivery_en.Telegram.Classify.{Json, classify, classify_bodyless}
use telegram_bot_delivery_en.Scheduler.Dispatcher.Finish.{LeasedCall, finish}
use telegram_bot_delivery_en.Scheduler.Dispatcher.Retries.{finish-stale}
use telegram_bot_delivery_en.Store.Tables.{Db, Env, Job, Recipient, empty_db}
use telegram_bot_delivery_en.Store.Sql.{sorted, insert_sorted}
use telegram_bot_delivery_en.Store.Lease.{candidate}
use telegram_bot_delivery_en.Store.Ordering.{by_key, Unique}
use telegram_bot_delivery_en.Store.Reader.Queries.{result_item, ready_bots}
use telegram_bot_delivery_en.Store.Reader.Paging.{all_results, visible_rows, all_results_complete}
use telegram_bot_delivery_en.Store.Reader.Leasing.{ready_bots-candidate}

abbrev row : ℕ → Recipient
row i = record {
  job_id = "j1";
  idx = i;
  bot_id = 7;
  patch_json = "{}";
  chat_id = some "1";
  chat_kind = none;
  state = RecipientState.queued;
  attempt_count = 0;
  retry_consumed = 0;
  wire_started = false;
  lease_owner = none;
  lease_until_unix = none;
  not_before_unix = pos 0;
  limiter_scope_hint = none;
  telegram_message_id = none;
  time_send_unix = none;
  error_norm = none;
  last_http_status = none;
  last_error_desc = none;
  lease_token = 0;
}

abbrev job : Job
job = record {
  job_id = "j1";
  bot_id = 7;
  method = "sendMessage";
  shared_params_json = "{}";
  state = JobState.queued;
  total = pos 2;
  queued = pos 2;
  inflight = pos 0;
  delayed = pos 0;
  succeeded = pos 0;
  failed = pos 0;
  ambiguous = pos 0;
  policy_snapshot_json = "{}";
  config_version = 1;
  accepted_at_unix = some (pos 1);
  started_at_unix = none;
  completed_at_unix = none;
  expire_at_unix = none;
  deadline_unix = none;
  webhook_event_id = none;
  webhook_state = WebhookState.not_configured;
  error_summary = none;
}

abbrev two_rows : Db
two_rows = record empty_db { jobs = job ∷ []; recipients = row 1 ∷ row 0 ∷ [] }

two_rows-Unique : Unique (λ r. r.idx) (visible_rows 7 "j1" two_rows)
unfolding Unique visible_rows
two_rows-Unique n = ground arith

all_results_complete_example :
    all_results 3 7 "j1" none (some 0) two_rows
    ≡ map result_item (sorted (by_key (λ (r : Recipient). r.idx)) (visible_rows 7 "j1" two_rows))
unfolding visible_rows sorted insert_sorted
all_results_complete_example =
    all_results_complete 3 7 "j1" (some 0) two_rows two_rows-Unique (omega arith, (omega arith, tt))
      (omega arith)

ready_bots-candidate_example :
    any (λ b. b.0 == 7) (ready_bots (pos 5) two_rows) ≡ is_some (candidate 7 (pos 5) two_rows)
ready_bots-candidate_example = ready_bots-candidate (pos 5) 7 two_rows

sanitize_chars-masked_example :
    (short_runs 0 (sanitize_chars (chars "chat 1234567 not found")) ≡ true)
    × (length (sanitize_chars (chars "chat 1234567 not found")) ≤ 200)
sanitize_chars-masked_example = sanitize_chars-masked (chars "chat 1234567 not found")

-- The third attempt at a recipient, after two retries.
abbrev call : LeasedCall
call = record {
  job_id = "j1";
  idx = 0;
  lease_token = 5;
  bot_id = 7;
  method = record {
    name = "sendMessage";
    family = MethodFamily.send;
    projection = SuccessProjection.message;
    params = [];
  };
  chat_id = some "1";
  policy = record {
    retry_max = 8;
    retry_consumed = 2;
    retry_base_ms = 500;
    retry_max_ms = 60000;
    ambiguity = AmbiguityPolicy.at_least_once;
  };
  migrated = false;
}

abbrev json : Json
json = record {
  value = Unit;
  null = tt;
  get = λ _ _. none;
  pointer = λ _ _. none;
  as_u64 = λ _. none;
  as_i64 = λ _. none;
  as_bool = λ _. none;
  as_str = λ _. none;
  as_array = λ _. none;
  to_string = λ _. "";
}

abbrev env : Env
env = record {
  parse_policy = λ _. none;
  encoder = record { row_bytes = λ r. []; envelope_bytes = λ e. [] };
  sha256 = λ b. b;
  wall_clock = pos 100;
  can_commit = true;
}

finish-stale_example :
    (finish env json (λ _. "") call 502 none false (pos 100) two_rows).0 ≡ two_rows
unfolding classify classify_bodyless
finish-stale_example =
    finish-stale env json (λ _. "") call 502 none false (pos 100) two_rows refl (λ e. ground arith)

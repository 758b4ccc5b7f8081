-- ===== src/Store/Reader/Upkeep.antt =====
-- The queries of dispatch, of the boot and of maintenance in
-- crates/telegram-bulk-delivery/src/store/reader.rs.
use telegram_bot_delivery_en.Base.{
  ℕ, ◌+◌, String, Bool, true, ◌&&◌, ◌||◌, List, [], ◌∷◌, Option, none, some, ℤ, pos, pos_part, ◌+ℤ◌,
  ltb_ℤ, leb_ℤ, eqb_ℤ, ◌==◌, nat_eq, string_eq, if◌then◌else◌, map, keep_where, find_where,
  count_where, take,
}
use telegram_bot_delivery_en.Domain.{
  JobId, JobState, RecipientState, WebhookState, job_state_eq, recipient_state_eq, webhook_state_eq,
}
use telegram_bot_delivery_en.Store.Tables.{Bot, Job, JobFile, Recipient, Db, is_job, is_row}
use telegram_bot_delivery_en.Store.Sql.{coalesce, is_active, str_ltb, sorted}
use telegram_bot_delivery_en.Store.Reader.Rows.{DispatchFile, DispatchItem, DbGauges}

unfoldable pub dispatch_file : JobFile → DispatchFile
dispatch_file f = record {
  field_name = f.field_name;
  attach_name = f.attach_name;
  content_type = f.content_type;
  original_filename = f.original_filename;
  blob_path = f.blob_path;
  size_bytes = f.size_bytes;
}

unfoldable pub files_of : JobId → List JobFile → List DispatchFile
unfolding dispatch_file
files_of id files =
    map dispatch_file
      (sorted (λ f g. str_ltb f.file_id g.file_id) (keep_where (λ f. f.job_id == id) files))

unfoldable pub item_of : List JobFile → Recipient → Job → Bot → DispatchItem
unfolding files_of
item_of files r j b = record {
  method = j.method;
  shared_params_json = j.shared_params_json;
  patch_json = r.patch_json;
  chat_id = r.chat_id;
  chat_kind = r.chat_kind;
  retry_consumed = r.retry_consumed;
  policy_snapshot_json = j.policy_snapshot_json;
  token_nonce = b.token_nonce;
  token_ciphertext = b.token_ciphertext;
  token_kid = b.token_kid;
  files = files_of r.job_id files;
}

-- A recipient that is leased, with its job and its bot.
unfoldable pub dispatch_item : JobId → ℕ → Db → Option DispatchItem
unfolding item_of
dispatch_item id idx db =
    elim (find_where (λ r. is_row id idx r && r.state == RecipientState.leased) db.recipients) [
      | none ↦ none
      | some r ↦ elim (find_where (is_job r.job_id) db.jobs) [
        | none ↦ none
        | some j ↦ elim (find_where (λ b. b.bot_id == r.bot_id) db.bots) [
          | none ↦ none
          | some b ↦ some (item_of db.job_files r j b)
        ]
      ]
    ]

unfoldable pub file_blob_paths : Db → List String
file_blob_paths db = map (λ f. f.blob_path) db.job_files

unfoldable pub accepting_job_ids : Db → List JobId
accepting_job_ids db = map (λ j. j.job_id) (keep_where (λ j. j.state == JobState.accepting) db.jobs)

unfoldable pub active_pauses : ℤ → Db → List (String × ℤ)
active_pauses now db =
    map (λ p. (p.scope_key, p.paused_until_unix))
      (keep_where (λ p. ltb_ℤ now p.paused_until_unix) db.limiter_pauses)

abbrev pub sum_of {ℓ} : {A : Type ℓ} → (A → ℕ) → List A → ℕ
sum_of f [] = 0
sum_of f (x ∷ xs) = f x + sum_of f xs

unfoldable pub blob_bytes : Db → ℕ
blob_bytes db = sum_of (λ f. f.size_bytes) db.job_files

-- `completed_at_unix IS NOT NULL AND accepted_at_unix IS NOT NULL`, with the columns.
unfoldable pub completion : Job → Option (JobId × ℤ × ℤ)
completion j =
    if j.state == JobState.completed
    then elim j.accepted_at_unix [
      | none ↦ none
      | some accepted ↦ elim j.completed_at_unix [
        | none ↦ none
        | some completed ↦ some (j.job_id, accepted, completed)
      ]
    ]
    else none

unfoldable pub completions : List Job → List (JobId × ℤ × ℤ)
unfolding completion
completions [] = []
completions (j ∷ js) = elim (completion j) [ some c ↦ c ∷ completions js | none ↦ completions js ]

-- `(completed_at_unix, job_id)` in the order of the key.
abbrev pub key_before : ℤ × JobId → ℤ × JobId → Bool
key_before (s, id) (t, id') = ltb_ℤ s t || (eqb_ℤ s t && str_ltb id id')

abbrev pub completion_key : JobId × ℤ × ℤ → ℤ × JobId
completion_key (id, accepted, completed) = (completed, id)

unfoldable pub completed_jobs : ℤ → JobId → Db → List (JobId × ℤ × ℤ)
unfolding completions
completed_jobs after_second after_job db = take 5000 (
    sorted (λ c d. key_before (completion_key c) (completion_key d))
      (keep_where (λ c. key_before (after_second, after_job) (completion_key c))
        (completions db.jobs)))

-- `coalesce(sum(column),0)`, and `u64::try_from(v.max(0))` of what it is.
unfoldable pub sum_column : (Job → ℤ) → List Job → ℤ
sum_column f [] = pos 0
sum_column f (j ∷ js) = f j +ℤ sum_column f js

abbrev pub is_unfinished : JobState → Bool
is_unfinished JobState.accepting = true
is_unfinished s = is_active s

-- `min` of a column, whose NULLs do not count.
unfoldable pub min_column : (Job → Option ℤ) → List Job → Option ℤ
min_column f [] = none
min_column f (j ∷ js) = elim (f j) [
  | none ↦ min_column f js
  | some t ↦ elim (min_column f js) [ none ↦ some t | some u ↦ some (if leb_ℤ t u then t else u) ]
]

unfoldable pub db_gauges : Db → DbGauges
unfolding sum_column min_column
db_gauges db = record {
  jobs_accepting = count_where (λ j. j.state == JobState.accepting) db.jobs;
  jobs_active = count_where (λ j. is_active j.state) db.jobs;
  recipients_queued = pos_part (sum_column (λ j. j.queued) db.jobs);
  recipients_delayed = pos_part (sum_column (λ j. j.delayed) db.jobs);
  recipients_leased = pos_part (sum_column (λ j. j.inflight) db.jobs);
  recipients_succeeded = pos_part (sum_column (λ j. j.succeeded) db.jobs);
  recipients_failed = pos_part (sum_column (λ j. j.failed) db.jobs);
  recipients_ambiguous = pos_part (sum_column (λ j. j.ambiguous) db.jobs);
  webhook_pending = count_where (λ e. e.state == WebhookState.pending) db.webhook_events;
  webhook_delivering = count_where (λ e. e.state == WebhookState.delivering) db.webhook_events;
  webhook_delivered = count_where (λ e. e.state == WebhookState.delivered) db.webhook_events;
  webhook_exhausted = count_where (λ e. e.state == WebhookState.exhausted) db.webhook_events;
  oldest_active_start_unix =
      min_column (λ j. coalesce j.started_at_unix j.accepted_at_unix)
        (keep_where (λ j. is_unfinished j.state) db.jobs);
}

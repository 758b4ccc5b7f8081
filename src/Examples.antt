-- ===== src/Examples.antt =====
-- The theorems at concrete inputs.
mod Limits
mod Webhooks
mod Reading
mod Requests
use telegram_bot_delivery_en.Base.{
  ◌+◌, find_where, count_where, ℕ, ◌==◌, nat_eq, false, ◌≡◌, ◌+ℤ◌, ◌-ℤ◌, max_ℤ, refl, true, List,
  [], ◌∷◌, ◌++◌, ◌≤◌, none, some, pos, length, arith, All,
}
use telegram_bot_delivery_en.Domain.{JobState, WebhookState}
use telegram_bot_delivery_en.Scheduler.Wdrr.{
  new_wdrr, upsert_ready, sleep_until, remove, push_wake, grant, scan, complete,
}
use telegram_bot_delivery_en.Scheduler.Wdrr.Grants.{has_slot, served}
use telegram_bot_delivery_en.Scheduler.Wdrr.Keeping.{Tidy}
use telegram_bot_delivery_en.Scheduler.Wdrr.Steps.{
  Step, apply_all, apply_all-Tidy, new_wdrr-Tidy, after, grant_round_robin,
}
use telegram_bot_delivery_en.Webhook.Pages.{
  Encoder, ResultRow, fill, split_pages, page_bodies, row_len, opens_page,
}
use telegram_bot_delivery_en.Webhook.Splitting.{
  concat, whole_bodies, envelope_of, page_bodies_complete, FitsReserve,
}
use telegram_bot_delivery_en.Store.Tables.{
  Recipient, Bot, Job, Env, invalid_command, done, transaction, empty_db,
}
use telegram_bot_delivery_en.Store.Sql.{least, count_rate}
use telegram_bot_delivery_en.Store.Accept.{
  new_recipient, begin_accept_job, insert_job, insert_recipient_batch, insert_rows, insert_row,
  promote_job, promote_rows, insert_files, held, Promotion,
}
use telegram_bot_delivery_en.Store.Fencing.{lease_batch-Issued}
use telegram_bot_delivery_en.Store.Lease.{
  holds_lease, is_ready, candidate, grant_lease, lease_one, lease_batch, release_lease,
  mark_wire_started, migrate_recipient,
}
use telegram_bot_delivery_en.Store.Complete.{
  CompletionOutcome, attempt_of, move_attempt, close_job, complete_rows, complete_attempt,
  finalize_completed_job,
}
use telegram_bot_delivery_en.Store.Upkeep.{upsert_bot}
use telegram_bot_delivery_en.Store.Execute.{WriterCmd, execute, run}
use telegram_bot_delivery_en.Store.Ledger.Books.{Inv}
use telegram_bot_delivery_en.Store.Ledger.Commands.{
  AllPermitted, execute-Inv, run-Inv, empty_db-Inv, Accounted, run-Accounted,
}
use telegram_bot_delivery_en.Store.Lasting.Fences.{lease_batch-fences}
use telegram_bot_delivery_en.Store.Tokens.{IsStale, complete_attempt-twice, stale_token}

-- Bot 1 with weight 16 and bot 2 with weight 1: after one grant of bot 1, bot 2 is next.
abbrev two_bots : List Step
two_bots =
    Step.ready 1 16
    ∷ Step.ready 2 1
    ∷ Step.ready 3 1
    ∷ Step.sleeps 3 5
    ∷ Step.granted
    ∷ Step.completed 1
    ∷ []

apply_all-Tidy_example : Tidy (apply_all two_bots new_wdrr)
apply_all-Tidy_example = apply_all-Tidy two_bots new_wdrr new_wdrr-Tidy

grant_round_robin_example :
    ((grant (after two_bots)).1
      ≡ find_where (has_slot (after two_bots).entries) (after two_bots).ring)
    × ((grant (after two_bots)).0.ring
        ≡ served (has_slot (after two_bots).entries) [] (after two_bots).ring)
grant_round_robin_example = grant_round_robin two_bots

second_grant : (grant (after two_bots)).1 ≡ some 2
unfolding upsert_ready sleep_until remove push_wake grant scan complete
second_grant = refl

abbrev encoder : Encoder
encoder = record { row_bytes = λ r. 1 ∷ 2 ∷ []; envelope_bytes = λ e. 7 ∷ [] }

abbrev env : Env
env = record {
  parse_policy = λ text. none;
  encoder = encoder;
  sha256 = λ bytes. bytes;
  wall_clock = pos 0;
  can_commit = true;
}

abbrev bot : Bot
bot = record {
  bot_id = 1;
  token_nonce = [];
  token_ciphertext = [];
  token_kid = "k";
  telegram_user_id = none;
  created_at_unix = pos 1;
  last_seen_unix = pos 1;
}

abbrev promotion : Promotion
promotion = record {
  job_id = "j";
  total = 1;
  shared_params_json = "{}";
  accepted_at_unix = pos 10;
  file_rows = [];
  nonterminal_cap = some 5;
}

-- One recipient is accepted, promoted and leased.
abbrev until_promoted : List (Env × WriterCmd)
until_promoted =
    (env, WriterCmd.register bot)
    ∷ (env, WriterCmd.begin_accept "j" 1 "sendMessage" "{}" 1 none)
    ∷ (
      env,
      WriterCmd.insert_batch "j" (
          record { idx = 0; bot_id = 1; patch_json = "{}"; chat_id = some "42"; chat_kind = none }
          ∷ []),
    )
    ∷ (env, WriterCmd.promote promotion)
    ∷ []

abbrev until_leased : List (Env × WriterCmd)
until_leased = until_promoted ++ ((env, WriterCmd.lease_next 1 "w" (pos 11) 30 1) ∷ [])

abbrev sent : CompletionOutcome
sent = CompletionOutcome.succeeded (some (pos 99)) (pos 12)

abbrev until_sent : List (Env × WriterCmd)
until_sent = until_leased ++ ((env, WriterCmd.complete "j" 0 sent 1) ∷ [])

-- All counters of the one job, after its only recipient was sent to.
abbrev sent_job : Job
sent_job = record {
  job_id = "j";
  bot_id = 1;
  method = "sendMessage";
  shared_params_json = "{}";
  state = JobState.completed;
  total = pos 1;
  queued = pos 0;
  inflight = pos 0;
  delayed = pos 0;
  succeeded = pos 1;
  failed = pos 0;
  ambiguous = pos 0;
  policy_snapshot_json = "{}";
  config_version = 1;
  accepted_at_unix = some (pos 10);
  started_at_unix = some (pos 11);
  completed_at_unix = some (pos 12);
  expire_at_unix = some (pos 604812);
  deadline_unix = none;
  webhook_event_id = none;
  webhook_state = WebhookState.not_configured;
  error_summary = none;
}

leased_permitted : AllPermitted until_leased empty_db
unfolding run execute upsert_bot transaction begin_accept_job insert_job insert_recipient_batch
    insert_rows insert_row promote_job promote_rows insert_files held lease_batch lease_one
    candidate is_ready grant_lease least
leased_permitted = (
  tt,
  (
    refl,
    (
      (λ h. refl, tt),
      (
        (
          λ h. record {
            fresh = record {
              inflight_zero = refl;
              delayed_zero = refl;
              succeeded_zero = refl;
              failed_zero = refl;
              ambiguous_zero = refl;
            };
            some_rows = omega arith;
            total_is = refl;
            all_queued = refl;
            own_rows = refl;
          },
          tt,
        ),
        (tt, tt),
      ),
    ),
  ),
)

sent_permitted : AllPermitted until_sent empty_db
unfolding run execute upsert_bot transaction begin_accept_job insert_job insert_recipient_batch
    insert_rows insert_row promote_job promote_rows insert_files held lease_batch lease_one
    candidate is_ready grant_lease least complete_attempt complete_rows attempt_of move_attempt
    close_job finalize_completed_job count_rate ◌+ℤ◌ ◌-ℤ◌ max_ℤ
sent_permitted = (
  leased_permitted.0,
  (leased_permitted.1.0, (leased_permitted.1.1.0, (leased_permitted.1.1.1.0, (tt, (tt, tt))))),
)

run-Accounted_example : Accounted sent_job (run until_sent empty_db).recipients
unfolding run execute upsert_bot transaction begin_accept_job insert_job insert_recipient_batch
    insert_rows insert_row promote_job promote_rows insert_files held lease_batch lease_one
    candidate is_ready grant_lease least complete_attempt complete_rows attempt_of move_attempt
    close_job finalize_completed_job count_rate ◌+ℤ◌ ◌-ℤ◌ max_ℤ
run-Accounted_example = run-Accounted until_sent "j" sent_job sent_permitted refl refl

promoted_permitted : AllPermitted until_promoted empty_db
unfolding run execute upsert_bot transaction begin_accept_job insert_job insert_recipient_batch
    insert_rows insert_row promote_job promote_rows insert_files held lease_batch lease_one
    candidate is_ready grant_lease least
promoted_permitted = (
  leased_permitted.0,
  (leased_permitted.1.0, (leased_permitted.1.1.0, (leased_permitted.1.1.1.0, tt))),
)

abbrev queued_row : Recipient
queued_row =
    new_recipient "j"
      (record { idx = 0; bot_id = 1; patch_json = "{}"; chat_id = some "42"; chat_kind = none })

lease_batch-Issued_example :
    (1 ≡ queued_row.lease_token + 1)
    × (count_where
          (holds_lease "j" 0 1)
          (lease_batch env 1 "w" (pos 11) 30 1 (run until_promoted empty_db)).0.recipients
        ≡ 1)
    × IsStale "j" 0 0 (lease_batch env 1 "w" (pos 11) 30 1 (run until_promoted empty_db)).0
unfolding run execute upsert_bot transaction begin_accept_job insert_job insert_recipient_batch
    insert_rows insert_row promote_job promote_rows insert_files held lease_batch lease_one
    candidate is_ready grant_lease least
lease_batch-Issued_example =
    lease_batch-Issued env 1 "w" (pos 11) 30 1 (run until_promoted empty_db) "j" 0 1 0 queued_row
      (run-Inv until_promoted empty_db promoted_permitted empty_db-Inv) refl refl refl

-- The lease is lost and recovered, and the row is leased again.
abbrev later : List (Env × WriterCmd)
later =
    (env, WriterCmd.recover "epoch" (pos 500))
    ∷ (env, WriterCmd.lease_next 1 "w" (pos 501) 30 1)
    ∷ []

lease_batch-fences_example :
    IsStale "j" 0 0
      (run later (lease_batch env 1 "w" (pos 11) 30 1 (run until_promoted empty_db)).0)
unfolding run execute upsert_bot transaction begin_accept_job insert_job insert_recipient_batch
    insert_rows insert_row promote_job promote_rows insert_files held lease_batch lease_one
    candidate is_ready grant_lease least
lease_batch-fences_example =
    lease_batch-fences env 1 "w" (pos 11) 30 1 (run until_promoted empty_db) "j" 0 1 0 later
      (run-Inv until_promoted empty_db promoted_permitted empty_db-Inv) refl (tt, (tt, tt))
      (omega arith)

execute-Inv_example :
    Inv (execute env (WriterCmd.complete "j" 0 sent 1) (run until_leased empty_db)).0
execute-Inv_example =
    execute-Inv env (WriterCmd.complete "j" 0 sent 1) (run until_leased empty_db) tt
      (run-Inv until_leased empty_db leased_permitted empty_db-Inv)

complete_attempt-twice_example :
    (complete_attempt env "j" 0 CompletionOutcome.ambiguous 1
      (complete_attempt env "j" 0 sent 1 (run until_leased empty_db)).0).0
    ≡ (complete_attempt env "j" 0 sent 1 (run until_leased empty_db)).0
unfolding run execute upsert_bot transaction begin_accept_job insert_job insert_recipient_batch
    insert_rows insert_row promote_job promote_rows insert_files held lease_batch lease_one
    candidate is_ready grant_lease least complete_attempt complete_rows attempt_of move_attempt
    close_job finalize_completed_job count_rate ◌+ℤ◌ ◌-ℤ◌ max_ℤ
complete_attempt-twice_example =
    complete_attempt-twice env env "j" 0 sent CompletionOutcome.ambiguous 1
      (run until_leased empty_db) {r = done} refl

-- The lease of the row has token 1; token 0 is an old one.
stale_token_example :
    ((complete_attempt env "j" 0 sent 0 (run until_leased empty_db)).0 ≡ run until_leased empty_db)
    × ((release_lease env "j" 0 (pos 50) "pause" 0 (run until_leased empty_db)).0
        ≡ run until_leased empty_db)
    × ((mark_wire_started env "j" 0 0 (run until_leased empty_db)).0 ≡ run until_leased empty_db)
    × ((migrate_recipient env "j" 0 "42" "43" 0 (run until_leased empty_db)).0
        ≡ run until_leased empty_db)
unfolding run execute upsert_bot transaction begin_accept_job insert_job insert_recipient_batch
    insert_rows insert_row promote_job promote_rows insert_files held lease_batch lease_one
    candidate is_ready grant_lease least
stale_token_example =
    stale_token env "j" 0 0 (run until_leased empty_db) sent (pos 50) "pause" "42" "43" refl

abbrev row : ResultRow
row = record { chat_id = some "42"; message_id = some (pos 99); sent_at = pos 12 }

abbrev three_rows : List ResultRow
three_rows = row ∷ row ∷ row ∷ []

-- Pages of 4102 bytes hold two rows of two bytes: the third opens a page.
two_pages : split_pages encoder 4102 three_rows ≡ (row ∷ row ∷ []) ∷ (row ∷ []) ∷ []
unfolding split_pages fill opens_page row_len
two_pages = refl

small_law :
    FitsReserve encoder 4102
      (envelope_of "j" "j-event" "completed" 3 3 0 0 (length (split_pages encoder 4102 three_rows)))
small_law idx results = omega arith

page_bodies_complete_example :
    (concat (split_pages encoder 4102 three_rows) ≡ three_rows)
    × (page_bodies encoder 4102 "j" "j-event" "completed" 3 3 0 0 three_rows
        ≡ whole_bodies encoder 4102 0
            (envelope_of "j" "j-event" "completed" 3 3 0 0
              (length (split_pages encoder 4102 three_rows)))
            (split_pages encoder 4102 three_rows))
    × All
        (λ b. length b ≤ 4102)
        (page_bodies encoder 4102 "j" "j-event" "completed" 3 3 0 0 three_rows)
unfolding row_len
page_bodies_complete_example =
    page_bodies_complete encoder 4102 "j" "j-event" "completed" 3 3 0 0 three_rows (omega arith)
      (omega arith, (omega arith, (omega arith, tt))) small_law

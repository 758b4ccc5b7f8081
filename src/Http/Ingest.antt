-- ===== src/Http/Ingest.antt =====
-- Storing the recipients of a bulk request while they are read (`chat` and `ingest_payload` of
-- crates/telegram-bulk-delivery/src/http/api.rs). The writer's queue is shared with the other
-- requests, so its answers and the permits that are free are parameters.
use telegram_bot_delivery_en.Base.{
  ℕ, ◌+◌, ◌%◌, ◌^◌, String, Bool, true, false, not, ◌&&◌, ◌||◌, List, [], ◌∷◌, ◌++◌, Option, none,
  some, ℤ, pos, ltb, ltb_ℤ, ◌==◌, nat_eq, if◌then◌else◌, length,
}
use telegram_bot_delivery_en.Domain.{BotId}
use telegram_bot_delivery_en.Store.Tables.{StoreError, Result, ok, err, WriterResult}
use telegram_bot_delivery_en.Store.Accept.{RecipientInsert}
use telegram_bot_delivery_en.Http.Envelope.{
  EnvelopeError, too_large, ChatValue, string, number, neither, EnvelopeJson, Limits, Document,
  Walk, next, halt, parse_envelope,
}

-- Rust's `str::len`, `str::starts_with` and `parse::<i64>`.
pub record StdText : Type 0 where
  pub len : String → ℕ
  pub starts_with : String → String → Bool
  pub parse_i64 : String → Option ℤ

unfoldable pub chat_kind_of : StdText → String → String
chat_kind_of t name = elim (t.parse_i64 name) [
  | none ↦ "unknown"
  | some n ↦
      if ltb_ℤ (pos 0) n
      then "private"
      else if t.starts_with name "-100"
      then "supergroup"
      else "group"
]

unfoldable pub named_chat : StdText → String → Option String × Option String
named_chat t name =
    if ltb 256 (t.len name) then (none, some "unknown") else (some name, some (chat_kind_of t name))

unfoldable pub chat : StdText → Option ChatValue → Option String × Option String
chat t none = (none, some "unknown")
chat t (some (string name)) = named_chat t name
chat t (some (number name)) = named_chat t name
chat t (some neither) = (none, some "unknown")

pub record IngestEnv (O : Type 0) : Type 0 where
  pub json_of : EnvelopeJson O
  pub text_of : StdText
  pub limits : Limits
  pub answer : ℕ → Result WriterResult
  pub large_body_free : Bool
  pub large_ingest_free : Bool

-- The local variables that the callback captures. `sent` are the rows of each
-- `InsertRecipientBatch` of the job so far; its next one is answered by `answer (length sent)`.
pub record Ingest : Type 0 where
  pub batch : List RecipientInsert
  pub total : ℕ
  pub unknown_permits : Bool
  pub store_failed : Option StoreError
  pub large_denied : Bool
  pub sent : List (List RecipientInsert)

abbrev pub nothing_read : Ingest
nothing_read = record {
  batch = [];
  total = 0;
  unknown_permits = false;
  store_failed = none;
  large_denied = false;
  sent = [];
}

-- What the handler goes on with, or the error response.
pub data Ingested (O : Type 0) : Type 0 where
  accepted : O → ℕ → Bool → Ingested O
  overloaded : Ingested O
  unavailable : StoreError → Ingested O
  bad_request : EnvelopeError → Ingested O

abbrev pub failure : {A : Type 0} → Result A → Option StoreError
failure (ok a) = none
failure (err e) = some e

module _ {O : Type 0} (env : IngestEnv O) (id : BotId) (known_large : Bool) where
  abbrev pub row_of : ℕ → O → RecipientInsert
  row_of idx p = record {
    idx = idx;
    bot_id = id;
    patch_json = env.json_of.to_string p;
    chat_id = (chat env.text_of (env.json_of.get_chat_id p)).0;
    chat_kind = (chat env.text_of (env.json_of.get_chat_id p)).1;
  }

  -- A full batch is taken, and sent unless a write has failed before.
  unfoldable pub flush_full : Ingest → Ingest
  flush_full s =
      if length s.batch == 1000
      then elim s.store_failed [
        | none ↦ record s {
          batch = [];
          store_failed = failure (env.answer (length s.sent));
          sent = s.sent ++ (s.batch ∷ []);
        }
        | some e ↦ record s { batch = [] }
      ]
      else s

  abbrev pub crosses : ℕ → Bool
  crosses idx = (idx == 9999) && not known_large

  unfoldable pub receive : ℕ → O → Ingest → Walk Ingest Unit
  receive idx p s =
      if crosses idx && not (env.large_body_free && env.large_ingest_free)
      then halt too_large (record s { large_denied = true })
      else next tt (
          flush_full (record s {
            batch = s.batch ++ (row_of idx p ∷ []);
            total = (idx + 1) % 2 ^ 32;
            unknown_permits = s.unknown_permits || crosses idx;
          }))

  unfoldable pub finish_ingest : O → Ingest → List (List RecipientInsert) × Ingested O
  finish_ingest p s = elim s.batch [
    | [] ↦ (s.sent, accepted p s.total s.unknown_permits)
    | r ∷ rs ↦ (
      s.sent ++ ((r ∷ rs) ∷ []),
      elim (failure (env.answer (length s.sent))) [
        | none ↦ accepted p s.total s.unknown_permits
        | some e ↦ unavailable e
      ],
    )
  ]

  -- A busy permit and a failed write come before what the parser says.
  abbrev pub checked :
      Ingest → List (List RecipientInsert) × Ingested O → List (List RecipientInsert) × Ingested O
  checked s result =
      if s.large_denied
      then (s.sent, overloaded)
      else elim s.store_failed [ none ↦ result | some e ↦ (s.sent, unavailable e) ]

  abbrev pub settle : Walk Ingest O → List (List RecipientInsert) × Ingested O
  settle (next p s) = checked s (finish_ingest p s)
  settle (halt e s) = checked s (s.sent, bad_request e)

  -- The batches that are sent, and the outcome.
  unfoldable pub ingest_payload : Document O → List (List RecipientInsert) × Ingested O
  ingest_payload doc = settle (parse_envelope env.json_of env.limits receive doc nothing_read)

-- ===== src/Examples/Requests.antt =====
-- The theorems on bulk requests at concrete inputs.
use telegram_bot_delivery_en.Base.{
  ℕ, ◌≡◌, refl, true, false, List, [], ◌∷◌, none, some, Bool, String, arith,
}
use telegram_bot_delivery_en.Store.Tables.{ok, err, sqlite, count}
use telegram_bot_delivery_en.Store.Accept.{RecipientInsert}
use telegram_bot_delivery_en.Http.Envelope.{
  string, Document, shared_params, patches, object, parse_envelope, visit_map, visit_member,
  visit_seq, visit_element, read_parameters,
}
use telegram_bot_delivery_en.Http.Ingest.{
  IngestEnv, accepted, unavailable, ingest_payload, receive, flush_full, finish_ingest, chat,
  named_chat, chat_kind_of,
}
use telegram_bot_delivery_en.Http.Batches.{values_of}
use telegram_bot_delivery_en.Http.Stored.{IsStored, ingest_payload-IsStored}
use telegram_bot_delivery_en.Http.Refused.{IsTruthful, ingest_payload-IsTruthful}
use telegram_bot_delivery_en.Http.Accepts.{as_values, ingest_payload-accepts}

-- Objects stand for their texts; each names the chat "-1001".
abbrev ingest_env : IngestEnv String
ingest_env = record {
  json_of = record {
    empty = "{}";
    encoded_len = λ _. 20;
    to_string = λ text. text;
    custom = λ _. "refused";
    get_chat_id = λ _. some (string "-1001");
  };
  text_of = record { len = λ _. 5; starts_with = λ _ _. true; parse_i64 = λ _. none };
  limits = record { shared_limit = 100; patch_limit = 50; max_recipients = 100000 };
  answer = λ _. ok (count 2);
  large_body_free = false;
  large_ingest_free = false;
}

abbrev two_patches : List String
two_patches = "first" ∷ "second" ∷ []

abbrev document : Document String
document = record {
  members = shared_params (object "shared") ∷ patches (as_values two_patches) ∷ [];
  trailing = none;
}

abbrev row : ℕ → String → RecipientInsert
row idx patch = record {
  idx = idx;
  bot_id = 7;
  patch_json = patch;
  chat_id = some "-1001";
  chat_kind = some "unknown";
}

document-accepted :
    ingest_payload ingest_env 7 true document
    ≡ ((row 0 "first" ∷ row 1 "second" ∷ []) ∷ [], accepted "shared" 2 false)
unfolding ingest_payload parse_envelope visit_map visit_member visit_seq visit_element
    read_parameters receive flush_full finish_ingest chat named_chat chat_kind_of
document-accepted = refl

ingest_payload-IsStored_example :
    IsStored ingest_env 7 true
      (omega arith)
      (values_of document.members)
      ((row 0 "first" ∷ row 1 "second" ∷ []) ∷ [])
      2
ingest_payload-IsStored_example =
    ingest_payload-IsStored ingest_env 7 true document "shared"
      ((row 0 "first" ∷ row 1 "second" ∷ []) ∷ []) 2 false (omega arith) document-accepted

ingest_payload-accepts_example :
    (batches : List (List RecipientInsert)) × (n : ℕ) × (held : Bool) × (ingest_payload ingest_env 7
        true document
      ≡ (batches, accepted "shared" n held))
ingest_payload-accepts_example =
    ingest_payload-accepts ingest_env 7 true "shared" two_patches (λ i. refl) refl (omega arith)
      (omega arith, (omega arith, tt)) (omega arith) (omega arith)

-- The disk is full.
abbrev full : IngestEnv String
full = record ingest_env { answer = λ _. err (sqlite "disk is full") }

document-refused :
    ingest_payload full 7 true document
    ≡ ((row 0 "first" ∷ row 1 "second" ∷ []) ∷ [], unavailable (sqlite "disk is full"))
unfolding ingest_payload parse_envelope visit_map visit_member visit_seq visit_element
    read_parameters receive flush_full finish_ingest chat named_chat chat_kind_of
document-refused = refl

ingest_payload-IsTruthful_example : IsTruthful full 7 true (ingest_payload full 7 true document)
ingest_payload-IsTruthful_example = ingest_payload-IsTruthful full 7 true document

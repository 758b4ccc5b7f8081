-- ===== src/Webhook/Pages.antt =====
-- Splitting the results of a completed job into webhook page bodies (`page_bodies` of
-- crates/telegram-bulk-delivery/src/webhook.rs). A body is its bytes.
use telegram_bot_delivery_en.Base.{
  ℕ, zero, suc, ◌+◌, ◌*◌, String, Bool, not, ◌&&◌, ◌||◌, true, false, List, [], ◌∷◌, ◌++◌, Option,
  ℤ, ltb, leb, if◌then◌else◌, length,
}
use telegram_bot_delivery_en.Domain.{JobId, EventId}

abbrev pub Bytes : Type 0
Bytes = List ℕ

-- `(chat_id, telegram_message_id, time_send_unix)` of one successful recipient.
pub record ResultRow : Type 0 where
  pub chat_id : Option String
  pub message_id : Option ℤ
  pub sent_at : ℤ

-- The object that one body holds.
pub record Envelope : Type 0 where
  pub job_id : JobId
  pub event_id : EventId
  pub state : String
  pub total : ℕ
  pub succeeded : ℕ
  pub failed : ℕ
  pub ambiguous : ℕ
  pub page : ℕ
  pub page_count : ℕ
  pub results : List ResultRow

-- What the crate takes from serde_json: the bytes of a row and of an envelope.
pub record Encoder : Type 0 where
  pub row_bytes : ResultRow → Bytes
  pub envelope_bytes : Envelope → Bytes

abbrev pub max_webhook_page_bytes : ℕ
max_webhook_page_bytes = 256 * 1024

abbrev pub envelope_reserve_bytes : ℕ
envelope_reserve_bytes = 4096

abbrev pub is_empty {ℓ} : {A : Type ℓ} → List A → Bool
is_empty [] = true
is_empty (x ∷ xs) = false

-- `Vec::pop`, which drops the last element.
abbrev pub drop_last {ℓ} : {A : Type ℓ} → List A → List A
drop_last [] = []
drop_last (x ∷ []) = []
drop_last (x ∷ y ∷ xs) = x ∷ drop_last (y ∷ xs)

module _ (enc : Encoder) (max_page_bytes : ℕ) where
  unfoldable pub row_len : ResultRow → ℕ
  row_len r = length (enc.row_bytes r)

  -- Whether the next row opens a new page.
  unfoldable pub opens_page : ResultRow → List ResultRow → ℕ → Bool
  unfolding row_len
  opens_page r current size =
      not (is_empty current) && ltb max_page_bytes (size + row_len r + envelope_reserve_bytes)

  -- The loop over the rows: the pages that are full, the current one and its size.
  unfoldable pub fill :
      List (List ResultRow) → List ResultRow → ℕ → List ResultRow → List (List ResultRow)
  unfolding opens_page row_len
  fill full current size [] = full ++ (current ∷ [])
  fill full current size (r ∷ rows) =
      fill (if opens_page r current size then full ++ (current ∷ []) else full)
        (if opens_page r current size then r ∷ [] else current ++ (r ∷ []))
        ((if opens_page r current size then 0 else size) + (row_len r + 1)) rows

  unfoldable pub split_pages : List ResultRow → List (List ResultRow)
  unfolding fill
  split_pages rows = fill [] [] 0 rows

  -- The inner loop: results are popped until the body fits or none is left. The fuel is the number
  -- of results, and each round pops one.
  unfoldable pub shrink : ℕ → (List ResultRow → Envelope) → List ResultRow → Bytes
  shrink zero env results = enc.envelope_bytes (env results)
  shrink (suc fuel) env results =
      let rest = shrink fuel env (drop_last results) in
      if leb (length (enc.envelope_bytes (env results))) max_page_bytes || is_empty results
      then enc.envelope_bytes (env results)
      else rest

  unfoldable pub bodies_from :
      ℕ → (ℕ → List ResultRow → Envelope) → List (List ResultRow) → List Bytes
  unfolding shrink
  bodies_from idx env [] = []
  bodies_from idx env (results ∷ pages) =
      shrink (length results) (env idx) results ∷ bodies_from (suc idx) env pages

  unfoldable pub page_bodies :
      JobId → EventId → String → ℕ → ℕ → ℕ → ℕ → List ResultRow → List Bytes
  unfolding split_pages bodies_from
  page_bodies job_id event_id job_state total succeeded failed ambiguous rows =
      let pages = split_pages rows in
      bodies_from 0
        (λ idx results. record {
          job_id = job_id;
          event_id = event_id;
          state = job_state;
          total = total;
          succeeded = succeeded;
          failed = failed;
          ambiguous = ambiguous;
          page = idx;
          page_count = length pages;
          results = results;
        })
        pages

-- ===== src/Http/Envelope.antt =====
-- The envelope of a bulk request (crates/telegram-bulk-delivery/src/api_model.rs): its limits, and
-- the callback that each recipient is given to as it is read. serde_json is a parameter: it yields
-- the members of the document one by one, and a value or a key that it cannot read is `malformed`.
use telegram_bot_delivery_en.Base.{
  ℕ, suc, ◌%◌, ◌^◌, String, Bool, true, false, not, ◌||◌, List, [], ◌∷◌, Option, none, some, ltb,
  ◌==◌, nat_eq, if◌then◌else◌,
}

pub data EnvelopeError : Type 0 where
  json : String → EnvelopeError
  duplicate : String → EnvelopeError
  parameters : EnvelopeError
  recipients : EnvelopeError
  patch : EnvelopeError
  too_large : EnvelopeError

pub data Value (O : Type 0) : Type 0 where
  object : O → Value O
  other : Value O
  malformed : String → Value O

-- A key with its value. `recipients` holds the elements of its array, an array that breaks off or
-- is none ends in a `malformed` element.
pub data Member (O : Type 0) : Type 0 where
  shared_params : Value O → Member O
  patches : List (Value O) → Member O
  ignored : Member O
  malformed_member : String → Member O

-- The members, and what is wrong with the text after the object, if anything.
pub record Document (O : Type 0) : Type 0 where
  pub members : List (Member O)
  pub trailing : Option String

-- A chat id's JSON value: a string, a number with its text, or anything else.
pub data ChatValue : Type 0 where
  string : String → ChatValue
  number : String → ChatValue
  neither : ChatValue

-- serde_json's objects: `Map::new`, the length and the text of the encoding, `get("chat_id")`, and the
-- message of an error that is made by `Error::custom`.
pub record EnvelopeJson (O : Type 0) : Type 0 where
  pub empty : O
  pub encoded_len : O → ℕ
  pub to_string : O → String
  pub custom : EnvelopeError → String
  pub get_chat_id : O → Option ChatValue

pub record Limits : Type 0 where
  pub shared_limit : ℕ
  pub patch_limit : ℕ
  pub max_recipients : ℕ

-- A result over the state that the callback changes, which a refusal leaves as it is.
pub data Walk (S : Type 0) (A : Type 0) : Type 0 where
  next : A → S → Walk S A
  halt : EnvelopeError → S → Walk S A

abbrev pub and_then : {S A B : Type 0} → Walk S A → (A → S → Walk S B) → Walk S B
and_then (next a s) f = f a s
and_then (halt e s) f = halt e s

-- The keys seen before, the parameters, and the number of recipients.
pub record Seen (O : Type 0) : Type 0 where
  pub params : O
  pub params_seen : Bool
  pub recipients_seen : Bool
  pub count : ℕ

module _ {O S : Type 0} (json_of : EnvelopeJson O) (limits : Limits)
    (emit : ℕ → O → S → Walk S Unit) where
  unfoldable pub visit_element : Value O → ℕ → S → Walk S ℕ
  visit_element (malformed e) n s = halt (json e) s
  visit_element other n s = halt (if ltb n limits.max_recipients then patch else too_large) s
  visit_element (object p) n s =
      if not (ltb n limits.max_recipients)
      then halt too_large s
      else if ltb limits.patch_limit (json_of.encoded_len p)
      then halt too_large s
      else and_then (emit (n % 2 ^ 32) p s) (λ _ s'. next (suc n) s')

  unfoldable pub visit_seq : List (Value O) → ℕ → S → Walk S ℕ
  visit_seq [] n s = next n s
  visit_seq (v ∷ vs) n s = and_then (visit_element v n s) (visit_seq vs)

  unfoldable pub read_parameters : Value O → Seen O → S → Walk S (Seen O)
  read_parameters (malformed e) seen s = halt (json e) s
  read_parameters other seen s = halt parameters s
  read_parameters (object p) seen s =
      if ltb limits.shared_limit (json_of.encoded_len p)
      then halt too_large s
      else next (record seen { params = p; params_seen = true }) s

  unfoldable pub visit_member : Member O → Seen O → S → Walk S (Seen O)
  visit_member (shared_params v) seen s =
      if seen.params_seen then halt (duplicate "parameters") s else read_parameters v seen s
  visit_member (patches vs) seen s =
      if seen.recipients_seen
      then halt (duplicate "recipients") s
      else and_then (visit_seq vs seen.count s)
          (λ n s'. next (record seen { recipients_seen = true; count = n }) s')
  visit_member ignored seen s = next seen s
  visit_member (malformed_member e) seen s = halt (json e) s

  unfoldable pub visit_map : List (Member O) → Seen O → S → Walk S O
  visit_map [] seen s =
      if not seen.recipients_seen || (seen.count == 0)
      then halt recipients s
      else next seen.params s
  visit_map (m ∷ ms) seen s = and_then (visit_member m seen s) (visit_map ms)

  abbrev pub nothing_seen : Seen O
  nothing_seen = record {
    params = json_of.empty;
    params_seen = false;
    recipients_seen = false;
    count = 0;
  }

  abbrev pub end : Option String → O → S → Walk S O
  end none p s = next p s
  end (some e) p s = halt (json e) s

  -- Every refusal reaches the caller as an error of serde_json.
  abbrev pub as_serde : EnvelopeError → EnvelopeError
  as_serde (json e) = json e
  as_serde (duplicate key) = json (json_of.custom (duplicate key))
  as_serde parameters = json (json_of.custom parameters)
  as_serde recipients = json (json_of.custom recipients)
  as_serde patch = json (json_of.custom patch)
  as_serde too_large = json (json_of.custom too_large)

  abbrev pub flattened : Walk S O → Walk S O
  flattened (next p s) = next p s
  flattened (halt e s) = halt (as_serde e) s

  unfoldable pub parse_envelope : Document O → S → Walk S O
  parse_envelope doc s =
      flattened (and_then (visit_map doc.members nothing_seen s) (end doc.trailing))

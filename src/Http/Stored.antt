-- ===== src/Http/Stored.antt =====
-- What an accepted request has stored (`ingest_payload` of
-- crates/telegram-bulk-delivery/src/http/api.rs over `parse_envelope` of api_model.rs).
use telegram_bot_delivery_en.Base.{
  ℕ, ◌%◌, ◌^◌, ◌≤◌, ◌<◌, ◌≡◌, refl, sym, ap, ◌∙◌, inl, inr, Bool, not, ◌||◌, List, [], ◌∷◌, ◌++◌,
  Option, none, some, String, ltb, ◌==◌, nat_eq, length, All, All-append, All-map, Bool-cases,
  Option-cases, arith,
}
use telegram_bot_delivery_en.Domain.{BotId}
use telegram_bot_delivery_en.Store.Accept.{RecipientInsert}
use telegram_bot_delivery_en.Http.Envelope.{
  Value, object, other, malformed, Member, shared_params, patches, ignored, malformed_member,
  Document, Seen, Walk, next, halt, visit_element, visit_seq, read_parameters, visit_member,
  visit_map, flattened, end, nothing_seen, parse_envelope,
}
use telegram_bot_delivery_en.Http.Ingest.{
  IngestEnv, Ingest, accepted, receive, finish_ingest, settle, nothing_read, ingest_payload,
}
use telegram_bot_delivery_en.Http.Batches.{
  values_of, values_in, checked-clear, finish_cases, objects, concat, append_assoc, append_nil,
  concat_snoc, length-snoc, After, After-and_then, rows_from, AllTaken, AllTaken-suc, Stage,
  receive-Stage,
}

module _ {O : Type 0} (env : IngestEnv O) (id : BotId) (known_large : Bool)
    (max : env.limits.max_recipients < 2 ^ 32) where
  -- Every batch has between one and 1000 rows, and the writer took them all.
  pub record IsStored (vs : List (Value O)) (batches : List (List RecipientInsert)) (n : ℕ)
      : Type 0 where
    pub all_rows : concat batches ≡ rows_from env id known_large 0 (objects vs)
    pub sized : All (λ b. (0 < length b) × (length b ≤ 1000)) batches
    pub all_taken : AllTaken env id known_large (length batches)
    pub exact : n ≡ length vs
    pub only_objects : length (objects vs) ≡ length vs
    pub in_range : (0 < n) × (n ≤ env.limits.max_recipients)

  visit_element-Stage :
      (v : Value O) (n : ℕ) (vs : List (Value O)) (s : Ingest)
      → Stage env id known_large n vs s
      → After
          (λ n' s'. Stage env id known_large n' (vs ++ (v ∷ [])) s')
          (visit_element env.json_of env.limits (receive env id known_large) v n s)
  unfolding visit_element
  visit_element-Stage (malformed e) n vs s h = tt
  visit_element-Stage other n vs s h = tt
  visit_element-Stage (object p) n vs s h =
      elim (Bool-cases (not (ltb n env.limits.max_recipients))) [
        | inl e ↦ rw (e, visit_element) tt
        | inr e ↦ elim (Bool-cases (ltb env.limits.patch_limit (env.json_of.encoded_len p))) [
          | inl f ↦ rw (e, f, visit_element) tt
          | inr f ↦
              rw (e, f, visit_element)
                (After-and_then _ _ (receive env id known_large (n % 2 ^ 32) p s) _
                  (receive-Stage env id known_large n vs p s max (ground arith) h) (λ _ s' k. k))
        ]
      ]

  visit_seq-Stage :
      (ws : List (Value O)) (n : ℕ) (vs : List (Value O)) (s : Ingest)
      → Stage env id known_large n vs s
      → After
          (λ n' s'. Stage env id known_large n' (vs ++ ws) s')
          (visit_seq env.json_of env.limits (receive env id known_large) ws n s)
  unfolding visit_seq
  visit_seq-Stage [] n vs s h = rw (append_nil vs) h
  visit_seq-Stage (w ∷ ws) n vs s h =
      After-and_then _ _ (visit_element env.json_of env.limits (receive env id known_large) w n s) _
        (visit_element-Stage w n vs s h)
        (λ n' s' k.
          rw⁻¹ (append_assoc vs (w ∷ []) ws) (visit_seq-Stage ws n' (vs ++ (w ∷ [])) s' k))

  abbrev Read : List (Value O) → O → Ingest → Type 0
  Read vs p s = (n : ℕ) × Stage env id known_large n vs s × (0 < n)

  read_parameters-Stage :
      (v : Value O) (seen : Seen O) (vs : List (Value O)) (s : Ingest)
      → Stage env id known_large seen.count vs s
      → After
          (λ seen' s'. Stage env id known_large seen'.count vs s')
          (read_parameters env.json_of env.limits (receive env id known_large) v seen s)
  unfolding read_parameters
  read_parameters-Stage (malformed e) seen vs s h = tt
  read_parameters-Stage other seen vs s h = tt
  read_parameters-Stage (object p) seen vs s h =
      elim (Bool-cases (ltb env.limits.shared_limit (env.json_of.encoded_len p))) [
        | inl e ↦ rw (e, read_parameters) tt
        | inr e ↦ rw (e, read_parameters) h
      ]

  visit_member-Stage :
      (m : Member O) (seen : Seen O) (vs : List (Value O)) (s : Ingest)
      → Stage env id known_large seen.count vs s
      → After
          (λ seen' s'. Stage env id known_large seen'.count (vs ++ values_in m) s')
          (visit_member env.json_of env.limits (receive env id known_large) m seen s)
  unfolding visit_member read_parameters
  visit_member-Stage (shared_params v) seen vs s h = elim (Bool-cases seen.params_seen) [
    | inl e ↦ rw (e, visit_member) tt
    | inr e ↦ simp (e, visit_member, append_nil vs) (read_parameters-Stage v seen vs s h)
  ]
  visit_member-Stage (patches ws) seen vs s h = elim (Bool-cases seen.recipients_seen) [
    | inl e ↦ rw (e, visit_member) tt
    | inr e ↦
        rw (e, visit_member)
          (After-and_then _ _
            (visit_seq env.json_of env.limits (receive env id known_large) ws seen.count s) _
            (visit_seq-Stage ws seen.count vs s h) (λ n s' k. k))
  ]
  visit_member-Stage ignored seen vs s h = rw (append_nil vs) h
  visit_member-Stage (malformed_member e) seen vs s h = tt

  visit_map-Read :
      (ms : List (Member O)) (seen : Seen O) (vs : List (Value O)) (s : Ingest)
      → Stage env id known_large seen.count vs s
      → After
          (Read (vs ++ values_of ms))
          (visit_map env.json_of env.limits (receive env id known_large) ms seen s)
  unfolding visit_map
  visit_map-Read [] seen vs s h =
      elim (Bool-cases (not seen.recipients_seen || (seen.count == 0))) [
        | inl e ↦ rw (e, visit_map) tt
        | inr e ↦ rw (e, visit_map, append_nil vs) (seen.count, h, ground arith)
      ]
  visit_map-Read (m ∷ ms) seen vs s h =
      After-and_then _ _ (visit_member env.json_of env.limits (receive env id known_large) m seen s)
        _ (visit_member-Stage m seen vs s h)
        (λ seen' s' k.
          rw⁻¹ (append_assoc vs (values_in m) (values_of ms))
            (visit_map-Read ms seen' (vs ++ values_in m) s' k))

  nothing_read-Stage : Stage env id known_large 0 [] nothing_read
  nothing_read-Stage = record {
    counted = refl;
    all_objects = refl;
    bounded = omega arith;
    small = omega arith;
    totalled = refl;
    covers = λ e. record { covered = refl; full = tt; taken = λ i lt. ground arith };
  }

  end-Read :
      (trailing : Option String) {vs : List (Value O)} (p : O) (s : Ingest)
      → Read vs p s
      → After (Read vs) (end env.json_of env.limits (receive env id known_large) trailing p s)
  end-Read none p s h = h
  end-Read (some e) p s h = tt

  flattened-Read :
      (vs : List (Value O)) (w : Walk Ingest O)
      → After (Read vs) w
      → After (Read vs) (flattened env.json_of env.limits (receive env id known_large) w)
  flattened-Read vs (next p s) h = h
  flattened-Read vs (halt e s) h = tt

  parse_envelope-Read :
      (doc : Document O)
      → After
          (Read (values_of doc.members))
          (parse_envelope env.json_of env.limits (receive env id known_large) doc nothing_read)
  unfolding parse_envelope
  parse_envelope-Read doc = flattened-Read _ _ (
      After-and_then _ _
        (visit_map env.json_of env.limits (receive env id known_large) doc.members _ nothing_read) _
        (visit_map-Read doc.members
          (nothing_seen env.json_of env.limits (receive env id known_large)) [] nothing_read
          nothing_read-Stage)
        (λ p s k. end-Read doc.trailing p s k))

  finish_ingest-IsStored :
      (p q : O) (s : Ingest) (vs : List (Value O)) (batches : List (List RecipientInsert)) (n : ℕ)
      (held : Bool)
      → Read vs p s
      → s.store_failed ≡ none
      → finish_ingest env id known_large p s ≡ (batches, accepted q n held)
      → IsStored vs batches n
  finish_ingest-IsStored p q s vs batches n held (k, st, more) f e =
      let c = st.covers f in
      elim (finish_cases env id known_large p s) [
        | inl (g, eq) ↦
            let n_eq : s.total ≡ n = cc in
            let b_eq : s.sent ≡ batches = cc in
            rw⁻¹ (b_eq) (record {
              all_rows = sym (append_nil _) ∙ ap (λ b. concat s.sent ++ b) (sym g) ∙ c.covered;
              sized = All-map _ _ s.sent (λ b h. (omega arith, omega arith)) c.full;
              all_taken = c.taken;
              exact = omega (arith, st.counted, st.totalled);
              only_objects = st.all_objects;
              in_range = (omega (arith, st.totalled), omega (arith, st.totalled, st.bounded));
            })
        | inr (inl (g, t, eq)) ↦
            let n_eq : s.total ≡ n = cc in
            let b_eq : s.sent ++ (s.batch ∷ []) ≡ batches = cc in
            rw⁻¹ b_eq (record {
              all_rows = concat_snoc s.sent s.batch ∙ c.covered;
              sized =
                  All-append _ s.sent _
                    (All-map _ _ s.sent (λ b h. (omega arith, omega arith)) c.full)
                    ((g, omega (arith, st.small)), tt);
              all_taken =
                  rw (length-snoc s.sent s.batch)
                    (AllTaken-suc env id known_large (length s.sent) c.taken t);
              exact = omega (arith, st.counted, st.totalled);
              only_objects = st.all_objects;
              in_range = (omega (arith, st.totalled), omega (arith, st.totalled, st.bounded));
            })
        | inr (inr (x, t, eq)) ↦ cc
      ]

  settle-IsStored :
      (w : Walk Ingest O) (vs : List (Value O)) (q : O) (batches : List (List RecipientInsert))
      (n : ℕ) (held : Bool)
      → After (Read vs) w
      → settle env id known_large w ≡ (batches, accepted q n held)
      → IsStored vs batches n
  settle-IsStored (halt e s) vs q batches n held r h = elim (Bool-cases s.large_denied) [
    | inl f ↦ cc
    | inr f ↦ elim (Option-cases s.store_failed) [ inl g ↦ cc | inr (x, g) ↦ cc ]
  ]
  settle-IsStored (next p s) vs q batches n held r h = elim (Bool-cases s.large_denied) [
    | inl f ↦ cc
    | inr f ↦ elim (Option-cases s.store_failed) [
      | inl g ↦
          finish_ingest-IsStored p q s vs batches n held r g
            (sym (checked-clear env id known_large s _ f g) ∙ h)
      | inr (x, g) ↦ cc
    ]
  ]

-- Where the request is accepted, whatever the writer, the parser and the permits did meanwhile: the
-- batches that were sent hold, in order, one row for each recipient of the document, numbered from
-- zero; each has between one and 1000 rows and was taken by the writer; every recipient is an object
-- and the reported total is their number, which is not zero and within the limit, for a limit below
-- 2 ^ 32.
pub ingest_payload-IsStored :
    {O : Type 0} (env : IngestEnv O) (id : BotId) (known_large : Bool) (doc : Document O) (q : O)
    (batches : List (List RecipientInsert)) (n : ℕ) (held : Bool)
    (max : env.limits.max_recipients < 2 ^ 32)
    → ingest_payload env id known_large doc ≡ (batches, accepted q n held)
    → IsStored env id known_large max (values_of doc.members) batches n
unfolding ingest_payload
ingest_payload-IsStored env id known_large doc q batches n held max h =
    settle-IsStored env id known_large max _ _ q batches n held
      (parse_envelope-Read env id known_large max doc) h

-- ===== src/Http/Refused.antt =====
-- What a request that meets a busy permit, a refused write or a bad body is told, and what it has sent
-- by then (`ingest_payload` of crates/telegram-bulk-delivery/src/http/api.rs).
use telegram_bot_delivery_en.Base.{
  ℕ, ◌-◌, ◌%◌, ◌^◌, ◌<◌, ◌≡◌, refl, sym, ◌∙◌, inl, inr, Bool, not, ◌&&◌, ◌||◌, List, [], ◌∷◌, ◌++◌,
  Option, none, some, String, ltb, ◌==◌, nat_eq, length, Bool-cases, Option-cases, arith,
}
use telegram_bot_delivery_en.Domain.{BotId}
use telegram_bot_delivery_en.Store.Accept.{RecipientInsert}
use telegram_bot_delivery_en.Store.Tables.{StoreError}
use telegram_bot_delivery_en.Http.Envelope.{
  Value, object, other, malformed, Member, shared_params, patches, ignored, malformed_member,
  Document, Seen, Walk, next, halt, and_then, visit_element, visit_seq, read_parameters,
  visit_member, visit_map, flattened, end, nothing_seen, parse_envelope,
}
use telegram_bot_delivery_en.Http.Ingest.{
  IngestEnv, Ingest, Ingested, accepted, overloaded, unavailable, bad_request, failure, receive,
  flush_full, crosses, finish_ingest, checked, settle, nothing_read, ingest_payload,
}
use telegram_bot_delivery_en.Http.Batches.{
  length-snoc, AllTaken, AllTaken-suc, flush_full-cases, finish_cases,
}

-- What holds of a walk's state, also where it stops.
abbrev Always : {S A : Type 0} → (S → Type 0) → Walk S A → Type 0
Always P (next a s) = P s
Always P (halt e s) = P s

Always-and_then :
    {S A B : Type 0} (P : S → Type 0) (w : Walk S A) (f : A → S → Walk S B)
    → Always P w
    → ((a : A) (s : S) → P s → Always P (f a s))
    → Always P (and_then w f)
Always-and_then P (next a s) f h k = k a s h
Always-and_then P (halt e s) f h k = h

module _ {O : Type 0} (env : IngestEnv O) (id : BotId) (known_large : Bool) where
  -- Only the last batch can have been refused, and the error kept is the answer to it.
  record Watched (s : Ingest) : Type 0 where
    before : AllTaken env id known_large (length s.sent - 1)
    clear : s.store_failed ≡ none → AllTaken env id known_large (length s.sent)
    refused :
        (x : StoreError)
        → s.store_failed ≡ some x
        → (0 < length s.sent) × (failure (env.answer (length s.sent - 1)) ≡ some x)

  same-Watched :
      (s s' : Ingest) → s'.sent ≡ s.sent → s'.store_failed ≡ s.store_failed → Watched s → Watched s'
  same-Watched s s' e f w = record {
    before = rw e w.before;
    clear = λ h. rw e (w.clear (sym f ∙ h));
    refused = λ x h. rw e (w.refused x (sym f ∙ h));
  }

  flush_full-Watched : (s : Ingest) → Watched s → Watched (flush_full env id known_large s)
  flush_full-Watched s w = elim (flush_full-cases env id known_large s) [
    | inl (f, eq) ↦ rw eq w
    | inr (f, inl (g, eq)) ↦
        let one_less : length (s.sent ++ (s.batch ∷ [])) - 1 ≡ length s.sent =
          omega (arith, length-snoc s.sent s.batch) in
        rw eq (record {
          before = rw one_less (w.clear g);
          clear = λ h.
              rw (length-snoc s.sent s.batch)
                (AllTaken-suc env id known_large (length s.sent) (w.clear g) h);
          refused = λ x h. (omega (arith, length-snoc s.sent s.batch), rw one_less h);
        })
    | inr (f, inr (x, g, eq)) ↦ same-Watched s _ (rw eq refl) (rw eq refl) w
  ]

  receive-Watched :
      (idx : ℕ) (p : O) (s : Ingest)
      → Watched s
      → Always Watched (receive env id known_large idx p s)
  unfolding receive
  receive-Watched idx p s w =
      elim (Bool-cases
        (crosses env id known_large idx && not (env.large_body_free && env.large_ingest_free))) [
          | inl f ↦ rw (f, receive) (same-Watched s _ refl refl w)
          | inr f ↦ rw (f, receive) (flush_full-Watched _ (same-Watched s _ refl refl w))
        ]

  visit_element-Watched :
      (v : Value O) (n : ℕ) (s : Ingest)
      → Watched s
      → Always Watched (visit_element env.json_of env.limits (receive env id known_large) v n s)
  unfolding visit_element
  visit_element-Watched (malformed e) n s w = w
  visit_element-Watched other n s w = w
  visit_element-Watched (object p) n s w =
      elim (Bool-cases (not (ltb n env.limits.max_recipients))) [
        | inl e ↦ rw (e, visit_element) w
        | inr e ↦ elim (Bool-cases (ltb env.limits.patch_limit (env.json_of.encoded_len p))) [
          | inl f ↦ rw (e, f, visit_element) w
          | inr f ↦
              rw (e, f, visit_element)
                (Always-and_then Watched (receive env id known_large (n % 2 ^ 32) p s) _
                  (receive-Watched (n % 2 ^ 32) p s w) (λ _ s' k. k))
        ]
      ]

  visit_seq-Watched :
      (vs : List (Value O)) (n : ℕ) (s : Ingest)
      → Watched s
      → Always Watched (visit_seq env.json_of env.limits (receive env id known_large) vs n s)
  unfolding visit_seq
  visit_seq-Watched [] n s w = w
  visit_seq-Watched (v ∷ vs) n s w =
      Always-and_then Watched
        (visit_element env.json_of env.limits (receive env id known_large) v n s) _
        (visit_element-Watched v n s w) (visit_seq-Watched vs)

  visit_member-Watched :
      (m : Member O) (seen : Seen O) (s : Ingest)
      → Watched s
      → Always Watched (visit_member env.json_of env.limits (receive env id known_large) m seen s)
  unfolding visit_member read_parameters
  visit_member-Watched (shared_params v) seen s w = elim (Bool-cases seen.params_seen) [
    | inl e ↦ rw (e, visit_member) w
    | inr e ↦ simp (e, visit_member) (go v)
  ]
    where
      go :
          (v : Value O)
          → Always Watched
              (read_parameters env.json_of env.limits (receive env id known_large) v seen s)
      go (malformed e) = w
      go other = w
      go (object p) = elim (Bool-cases (ltb env.limits.shared_limit (env.json_of.encoded_len p))) [
        | inl e ↦ rw (e, read_parameters) w
        | inr e ↦ rw (e, read_parameters) w
      ]
  visit_member-Watched (patches vs) seen s w = elim (Bool-cases seen.recipients_seen) [
    | inl e ↦ rw (e, visit_member) w
    | inr e ↦
        rw (e, visit_member)
          (Always-and_then Watched
            (visit_seq env.json_of env.limits (receive env id known_large) vs seen.count s) _
            (visit_seq-Watched vs seen.count s w) (λ n s' k. k))
  ]
  visit_member-Watched ignored seen s w = w
  visit_member-Watched (malformed_member e) seen s w = w

  visit_map-Watched :
      (ms : List (Member O)) (seen : Seen O) (s : Ingest)
      → Watched s
      → Always Watched (visit_map env.json_of env.limits (receive env id known_large) ms seen s)
  unfolding visit_map
  visit_map-Watched [] seen s w =
      elim (Bool-cases (not seen.recipients_seen || (seen.count == 0))) [
        | inl e ↦ rw (e, visit_map) w
        | inr e ↦ rw (e, visit_map) w
      ]
  visit_map-Watched (m ∷ ms) seen s w =
      Always-and_then Watched
        (visit_member env.json_of env.limits (receive env id known_large) m seen s) _
        (visit_member-Watched m seen s w) (visit_map-Watched ms)

  flattened-Watched :
      (r : Walk Ingest O)
      → Always Watched r
      → Always Watched (flattened env.json_of env.limits (receive env id known_large) r)
  flattened-Watched (next p s) h = h
  flattened-Watched (halt e s) h = h

  end-Watched :
      (trailing : Option String) (p : O) (s : Ingest)
      → Watched s
      → Always Watched (end env.json_of env.limits (receive env id known_large) trailing p s)
  end-Watched none p s w = w
  end-Watched (some e) p s w = w

  nothing_read-Watched : Watched nothing_read
  nothing_read-Watched = record {
    before = λ i lt. ground arith;
    clear = λ h i lt. ground arith;
    refused = λ x h. absurd (cc h);
  }

  parse_envelope-Watched :
      (doc : Document O)
      → Always Watched
          (parse_envelope env.json_of env.limits (receive env id known_large) doc nothing_read)
  unfolding parse_envelope
  parse_envelope-Watched doc = flattened-Watched _ (
      Always-and_then Watched
        (visit_map env.json_of env.limits (receive env id known_large) doc.members _ nothing_read)
        (end env.json_of env.limits (receive env id known_large) doc.trailing)
        (visit_map-Watched doc.members
          (nothing_seen env.json_of env.limits (receive env id known_large)) nothing_read
          nothing_read-Watched)
        (end-Watched doc.trailing))

  -- What the answer says of the batches.
  unfoldable pub Reports : List (List RecipientInsert) → Ingested O → Type 0
  Reports batches (accepted p n held) = AllTaken env id known_large (length batches)
  Reports batches (bad_request e) = AllTaken env id known_large (length batches)
  Reports batches (unavailable x) =
      (0 < length batches) × (failure (env.answer (length batches - 1)) ≡ some x)
  Reports batches overloaded = Unit

  abbrev pub IsTruthful : List (List RecipientInsert) × Ingested O → Type 0
  IsTruthful r = AllTaken env id known_large (length r.0 - 1) × Reports r.0 r.1

  checked-IsTruthful :
      (s : Ingest) (result : List (List RecipientInsert) × Ingested O)
      → Watched s
      → (s.store_failed ≡ none → IsTruthful result)
      → IsTruthful (checked env id known_large s result)
  unfolding Reports
  checked-IsTruthful s result w k = elim (Bool-cases s.large_denied) [
    | inl e ↦ rw e (w.before, tt)
    | inr e ↦ elim (Option-cases s.store_failed) [
      | inl f ↦ rw (e, f) (k f)
      | inr (x, f) ↦ rw (e, f) (w.before, w.refused x f)
    ]
  ]

  finish_ingest-IsTruthful :
      (p : O) (s : Ingest)
      → Watched s
      → s.store_failed ≡ none
      → IsTruthful (finish_ingest env id known_large p s)
  unfolding Reports
  finish_ingest-IsTruthful p s w f =
      let one_less : length (s.sent ++ (s.batch ∷ [])) - 1 ≡ length s.sent =
        omega (arith, length-snoc s.sent s.batch) in
      elim (finish_cases env id known_large p s) [
        | inl (g, eq) ↦ rw eq (w.before, w.clear f)
        | inr (inl (g, t, eq)) ↦ rw eq (
          rw one_less (w.clear f),
          rw (length-snoc s.sent s.batch)
              (AllTaken-suc env id known_large (length s.sent) (w.clear f) t),
        )
        | inr (inr (x, t, eq)) ↦
            rw eq
              (rw one_less (w.clear f), (omega (arith, length-snoc s.sent s.batch), rw one_less t))
      ]

  settle-IsTruthful :
      (r : Walk Ingest O) → Always Watched r → IsTruthful (settle env id known_large r)
  unfolding Reports
  settle-IsTruthful (next p s) w = checked-IsTruthful s _ w (finish_ingest-IsTruthful p s w)
  settle-IsTruthful (halt e s) w = checked-IsTruthful s _ w (λ f. (w.before, w.clear f))

  -- Whatever the body, the permits and the writer's answers: the writer took every batch but the last
  -- that was sent, so none follows a refused one; where the request is accepted or called a bad one, it
  -- took the last as well; and where the store is reported, the error is the answer to the last.
  pub ingest_payload-IsTruthful :
      (doc : Document O) → IsTruthful (ingest_payload env id known_large doc)
  unfolding ingest_payload
  ingest_payload-IsTruthful doc = settle-IsTruthful _ (parse_envelope-Watched doc)

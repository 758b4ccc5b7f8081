-- ===== src/Http/Accepts.antt =====
-- Which requests are accepted (`ingest_payload` of
-- crates/telegram-bulk-delivery/src/http/api.rs over `parse_envelope` of api_model.rs).
use telegram_bot_delivery_en.Base.{
  ℕ, suc, ◌+◌, ◌%◌, ◌^◌, ◌≤◌, ◌<◌, ◌≡◌, refl, ap, ◌∙◌, inl, inr, Bool, true, false, not, ◌&&◌, ◌||◌,
  List, [], ◌∷◌, ◌++◌, none, ltb, ◌==◌, nat_eq, length, All, arith,
}
use telegram_bot_delivery_en.Domain.{BotId}
use telegram_bot_delivery_en.Store.Accept.{RecipientInsert}
use telegram_bot_delivery_en.Http.Envelope.{
  Value, object, shared_params, patches, Seen, Walk, next, halt, and_then, visit_element, visit_seq,
  read_parameters, visit_member, visit_map, end, parse_envelope, flattened, end,
}
use telegram_bot_delivery_en.Http.Ingest.{
  IngestEnv, Ingest, Ingested, accepted, failure, flush_full, crosses, receive, settle,
  nothing_read, ingest_payload,
}
use telegram_bot_delivery_en.Http.Batches.{flush_full-cases, finish_cases, checked-clear}

abbrev pub as_values : {O : Type 0} → List O → List (Value O)
as_values [] = []
as_values (p ∷ ps) = object p ∷ as_values ps

-- The walk goes on, and this holds then.
abbrev Reaches : {S A : Type 0} → (A → S → Type 0) → Walk S A → Type 0
Reaches Q (next a s) = Q a s
Reaches Q (halt e s) = ⊥

Reaches-and_then :
    {S A B : Type 0} (P : A → S → Type 0) (Q : B → S → Type 0) (w : Walk S A) (f : A → S → Walk S B)
    → Reaches P w
    → ((a : A) (s : S) → P a s → Reaches Q (f a s))
    → Reaches Q (and_then w f)
Reaches-and_then P Q (next a s) f h k = k a s h
Reaches-and_then P Q (halt e s) f h k = h

Reaches-weaken :
    {S A : Type 0} (P Q : A → S → Type 0) (w : Walk S A)
    → Reaches P w
    → ((a : A) (s : S) → P a s → Q a s)
    → Reaches Q w
Reaches-weaken P Q (next a s) h k = k a s h
Reaches-weaken P Q (halt e s) h k = h

module _ {O : Type 0} (env : IngestEnv O) (id : BotId) (known_large : Bool)
    (writes : (i : ℕ) → failure (env.answer i) ≡ none)
    (permits : known_large || (env.large_body_free && env.large_ingest_free) ≡ true) where
  abbrev Fine : Ingest → Type 0
  Fine s = (s.store_failed ≡ none) × (s.large_denied ≡ false)

  flush_full-Fine : (s : Ingest) → Fine s → Fine (flush_full env id known_large s)
  flush_full-Fine s h = elim (flush_full-cases env id known_large s) [
    | inl (f, eq) ↦ rw eq h
    | inr (f, inl (g, eq)) ↦ rw eq (writes (length s.sent), h.1)
    | inr (f, inr (x, g, eq)) ↦ cc
  ]

  not_denied :
      (idx : ℕ)
      → (crosses env id known_large idx && not (env.large_body_free && env.large_ingest_free))
        ≡ false
  not_denied idx = ground arith

  receive-Fine :
      (idx : ℕ) (p : O) (s : Ingest)
      → Fine s
      → Reaches (λ _ s'. Fine s') (receive env id known_large idx p s)
  unfolding receive
  receive-Fine idx p s h = rw (not_denied idx, receive) (flush_full-Fine _ h)

  visit_element-Fine :
      (p : O) (n : ℕ) (s : Ingest)
      → n < env.limits.max_recipients
      → env.json_of.encoded_len p ≤ env.limits.patch_limit
      → Fine s
      → Reaches
          (λ n' s'. (n' ≡ suc n) × Fine s')
          (visit_element env.json_of env.limits (receive env id known_large) (object p) n s)
  unfolding visit_element
  visit_element-Fine p n s lt le h =
      let e : not (ltb n env.limits.max_recipients) ≡ false = ground arith in
      let f : ltb env.limits.patch_limit (env.json_of.encoded_len p) ≡ false = ground arith in
      rw (e, f, visit_element)
        (Reaches-and_then _ _ (receive env id known_large (n % 2 ^ 32) p s) _
          (receive-Fine (n % 2 ^ 32) p s h) (λ _ s' k. (refl, k)))

  visit_seq-Fine :
      (ps : List O) (n : ℕ) (s : Ingest)
      → n + length ps ≤ env.limits.max_recipients
      → All (λ p. env.json_of.encoded_len p ≤ env.limits.patch_limit) ps
      → Fine s
      → Reaches
          (λ n' s'. (n' ≡ n + length ps) × Fine s')
          (visit_seq env.json_of env.limits (receive env id known_large) (as_values ps) n s)
  unfolding visit_seq
  visit_seq-Fine [] n s le small h = (omega arith, h)
  visit_seq-Fine (p ∷ ps) n s le small h =
      Reaches-and_then _ _
        (visit_element env.json_of env.limits (receive env id known_large) (object p) n s) _
        (visit_element-Fine p n s (omega arith) small.0 h)
        (λ n' s' k.
          Reaches-weaken _ _
            (visit_seq env.json_of env.limits (receive env id known_large) (as_values ps) n' s')
            (visit_seq-Fine ps n' s' (omega (arith, k.0)) small.1 k.1)
            (λ m t j. (omega (arith, k.0, j.0), j.1)))

  abbrev as_accepted :
      List (List RecipientInsert) → Ingest → O → List (List RecipientInsert) × Ingested O
  as_accepted batches s p = (batches, accepted p s.total s.unknown_permits)

  settle-accepted :
      (w : Walk Ingest O) (q : O)
      → Reaches (λ p s. (p ≡ q) × Fine s) w
      → (batches : List (List RecipientInsert)) × (n : ℕ) × (held : Bool) × (settle env id
            known_large w
          ≡ (batches, accepted q n held))
  settle-accepted (halt e s) q h = elim h [ ]
  settle-accepted (next p s) q (e, (f, g)) = elim (finish_cases env id known_large p s) [
    | inl (_, eq) ↦ (
      s.sent,
      s.total,
      s.unknown_permits,
      (checked-clear env id known_large s _ g f ∙ eq ∙ ap (as_accepted s.sent s) e),
    )
    | inr (inl (_, _, eq)) ↦ (
      s.sent ++ (s.batch ∷ []),
      s.total,
      s.unknown_permits,
      (checked-clear env id known_large s _ g f
          ∙ eq
          ∙ ap (as_accepted (s.sent ++ (s.batch ∷ [])) s) e),
    )
    | inr (inr (x, t, eq)) ↦ cc (writes (length s.sent))
  ]

  abbrev Found : O → List O → Seen O → Ingest → Type 0
  Found q ps seen s =
      (seen.params ≡ q) × (seen.recipients_seen ≡ true) × (seen.count ≡ length ps) × Fine s

  Found-ends :
      (q : O) (ps : List O)
      → 0 < length ps
      → (seen : Seen O) (s : Ingest) → Found q ps seen s
      → Reaches
          (λ p s'. (p ≡ q) × Fine s')
          (visit_map env.json_of env.limits (receive env id known_large) [] seen s)
  unfolding visit_map
  Found-ends q ps more seen s (e, r, c, fine) =
      let f : (not seen.recipients_seen || (seen.count == 0)) ≡ false = ground arith in
      rw (f, visit_map) (e, fine)

  flattened-Reaches :
      (Q : O → Ingest → Type 0) (w : Walk Ingest O)
      → Reaches Q w
      → Reaches Q (flattened env.json_of env.limits (receive env id known_large) w)
  flattened-Reaches Q (next p s) h = h
  flattened-Reaches Q (halt e s) h = h

  parse_envelope-Fine :
      (q : O) (ps : List O)
      → env.json_of.encoded_len q ≤ env.limits.shared_limit
      → All (λ p. env.json_of.encoded_len p ≤ env.limits.patch_limit) ps
      → 0 < length ps
      → length ps ≤ env.limits.max_recipients
      → Reaches
          (λ p s. (p ≡ q) × Fine s)
          (parse_envelope env.json_of env.limits
            (receive env id known_large)
            (record {
              members = shared_params (object q) ∷ patches (as_values ps) ∷ [];
              trailing = none;
            })
            nothing_read)
  unfolding parse_envelope visit_map visit_member read_parameters
  parse_envelope-Fine q ps small smalls more le =
      let e : ltb env.limits.shared_limit (env.json_of.encoded_len q) ≡ false = ground arith in
      rw e (
        flattened-Reaches (λ p s. (p ≡ q) × Fine s) _
          (Reaches-and_then (λ p s. (p ≡ q) × Fine s) _ _
            (end env.json_of env.limits (receive env id known_large) none)
            (Reaches-and_then (Found q ps) _ _
              (visit_map env.json_of env.limits (receive env id known_large) [])
              (Reaches-and_then (λ n s. (n ≡ 0 + length ps) × Fine s) _ _
                (λ n s.
                  next
                    (record { params = q; params_seen = true; recipients_seen = true; count = n })
                    s)
                (visit_seq-Fine ps 0 nothing_read (omega arith) smalls (refl, refl))
                (λ n s k. (refl, refl, omega (arith, k.0), k.1)))
              (λ seen s k. Found-ends q ps more seen s k))
            (λ p s k. k)))

-- A request whose members are parameters and a list of recipients, all objects within their limits,
-- at least one and at most the allowed number of them, is accepted with the parameters it names,
-- where nothing follows the envelope, the writer takes every batch, and the request is known to be
-- large or both permits for large requests are free.
pub ingest_payload-accepts :
    {O : Type 0} (env : IngestEnv O) (id : BotId) (known_large : Bool) (q : O) (ps : List O)
    → ((i : ℕ) → failure (env.answer i) ≡ none)
    → (known_large || (env.large_body_free && env.large_ingest_free)) ≡ true
    → env.json_of.encoded_len q ≤ env.limits.shared_limit
    → All (λ p. env.json_of.encoded_len p ≤ env.limits.patch_limit) ps
    → 0 < length ps
    → length ps ≤ env.limits.max_recipients
    → (batches : List (List RecipientInsert)) × (n : ℕ) × (held : Bool) × (ingest_payload env id
          known_large
          (record {
            members = shared_params (object q) ∷ patches (as_values ps) ∷ [];
            trailing = none;
          })
        ≡ (batches, accepted q n held))
unfolding ingest_payload parse_envelope visit_map visit_member read_parameters
ingest_payload-accepts env id known_large q ps writes permits small smalls more le =
    settle-accepted env id known_large writes permits _ q
      (parse_envelope-Fine env id known_large writes permits q ps small smalls more le)

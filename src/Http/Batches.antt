-- ===== src/Http/Batches.antt =====
-- The batches that `ingest_payload` of crates/telegram-bulk-delivery/src/http/api.rs sends, against
-- the recipients of the document.
use telegram_bot_delivery_en.Base.{
  ℕ, suc, ◌+◌, ◌%◌, ◌^◌, ◌≤◌, ◌<◌, ◌≡◌, refl, sym, ap, ◌∙◌, inl, inr, Bool, true, false, not, ◌&&◌,
  List, [], ◌∷◌, ◌++◌, none, some, ◌==◌, nat_eq, length, Option-cases, ◌⊎◌, All, All-append,
  Bool-cases, arith,
}
use telegram_bot_delivery_en.Domain.{BotId}
use telegram_bot_delivery_en.Store.Accept.{RecipientInsert}
use telegram_bot_delivery_en.Store.Tables.{StoreError}
use telegram_bot_delivery_en.Http.Envelope.{
  Value, object, other, malformed, Member, shared_params, patches, ignored, malformed_member, Walk,
  next, halt, and_then,
}
use telegram_bot_delivery_en.Http.Ingest.{
  IngestEnv, Ingest, Ingested, accepted, unavailable, failure, row_of, flush_full, crosses, receive,
  finish_ingest, checked,
}

abbrev pub values_in : {O : Type 0} → Member O → List (Value O)
values_in (patches vs) = vs
values_in (shared_params v) = []
values_in ignored = []
values_in (malformed_member e) = []

abbrev pub values_of : {O : Type 0} → List (Member O) → List (Value O)
values_of [] = []
values_of (m ∷ ms) = values_in m ++ values_of ms

abbrev pub objects : {O : Type 0} → List (Value O) → List O
objects [] = []
objects (object p ∷ vs) = p ∷ objects vs
objects (other ∷ vs) = objects vs
objects (malformed e ∷ vs) = objects vs

abbrev pub concat : {A : Type 0} → List (List A) → List A
concat [] = []
concat (xs ∷ xss) = xs ++ concat xss

pub List-cases : {A : Type 0} (xs : List A) → (xs ≡ []) ⊎ ((y : A) × (ys : List A) × (xs ≡ y ∷ ys))
List-cases [] = inl refl
List-cases (y ∷ ys) = inr (y, ys, refl)

pub length-snoc : {A : Type 0} (xs : List A) (x : A) → length (xs ++ (x ∷ [])) ≡ suc (length xs)
length-snoc [] x = refl
length-snoc (y ∷ xs) x = ap suc (length-snoc xs x)

pub from_zero : {n m : ℕ} → n ≡ m → n ≡ 0 + m
from_zero e = omega arith

pub mod_small : (n : ℕ) → n < 2 ^ 32 → n % 2 ^ 32 ≡ n
mod_small n lt = omega arith

module _ {A : Type 0} where
  pub append_assoc : (xs ys zs : List A) → (xs ++ ys) ++ zs ≡ xs ++ (ys ++ zs)
  append_assoc [] ys zs = refl
  append_assoc (x ∷ xs) ys zs = ap (λ r. x ∷ r) (append_assoc xs ys zs)

  pub append_nil : (xs : List A) → xs ++ [] ≡ xs
  append_nil [] = refl
  append_nil (x ∷ xs) = ap (λ r. x ∷ r) (append_nil xs)

  pub concat_snoc :
      (xss : List (List A)) (xs : List A) → concat (xss ++ (xs ∷ [])) ≡ concat xss ++ xs
  concat_snoc [] xs = append_nil xs
  concat_snoc (ys ∷ xss) xs =
      ap (λ r. ys ++ r) (concat_snoc xss xs) ∙ sym (append_assoc ys (concat xss) xs)

pub objects-append :
    {O : Type 0} (vs ws : List (Value O)) → objects (vs ++ ws) ≡ objects vs ++ objects ws
objects-append [] ws = refl
objects-append (object p ∷ vs) ws = ap (λ r. p ∷ r) (objects-append vs ws)
objects-append (other ∷ vs) ws = objects-append vs ws
objects-append (malformed e ∷ vs) ws = objects-append vs ws

-- What holds of a walk's value and state where it goes on.
abbrev pub After : {S A : Type 0} → (A → S → Type 0) → Walk S A → Type 0
After Q (next a s) = Q a s
After Q (halt e s) = Unit

pub After-and_then :
    {S A B : Type 0} (P : A → S → Type 0) (Q : B → S → Type 0) (w : Walk S A) (f : A → S → Walk S B)
    → After P w
    → ((a : A) (s : S) → P a s → After Q (f a s))
    → After Q (and_then w f)
After-and_then P Q (next a s) f h k = k a s h
After-and_then P Q (halt e s) f h k = tt

module _ {O : Type 0} (env : IngestEnv O) (id : BotId) (known_large : Bool) where
  abbrev pub rows_from : ℕ → List O → List RecipientInsert
  rows_from idx [] = []
  rows_from idx (p ∷ ps) = row_of env id known_large idx p ∷ rows_from (suc idx) ps

  rows_from-snoc :
      (idx : ℕ) (ps : List O) (p : O)
      → rows_from idx (ps ++ (p ∷ []))
        ≡ rows_from idx ps ++ (row_of env id known_large (idx + length ps) p ∷ [])
  rows_from-snoc idx [] p = ap (λ k. row_of env id known_large k p ∷ []) (omega arith)
  rows_from-snoc idx (q ∷ ps) p =
      ap (λ r. row_of env id known_large idx q ∷ r)
        (rows_from-snoc (suc idx) ps p
          ∙ ap (λ k. rows_from (suc idx) ps ++ (row_of env id known_large k p ∷ [])) (omega arith))

  -- The writer took each of the first so many batches.
  abbrev pub AllTaken : ℕ → Type 0
  AllTaken n = (i : ℕ) → i < n → failure (env.answer i) ≡ none

  -- The batches sent and the one in the making are the rows of the recipients read so far.
  pub record Covers (rows : List RecipientInsert) (s : Ingest) : Type 0 where
    pub covered : concat s.sent ++ s.batch ≡ rows
    pub full : All (λ b. length b ≡ 1000) s.sent
    pub taken : AllTaken (length s.sent)

  pub record Stage (n : ℕ) (vs : List (Value O)) (s : Ingest) : Type 0 where
    pub counted : n ≡ length vs
    pub all_objects : length (objects vs) ≡ length vs
    pub bounded : n ≤ env.limits.max_recipients
    pub small : length s.batch < 1000
    pub totalled : s.total ≡ n
    pub covers : s.store_failed ≡ none → Covers (rows_from 0 (objects vs)) s

  pub AllTaken-suc : (n : ℕ) → AllTaken n → failure (env.answer n) ≡ none → AllTaken (suc n)
  AllTaken-suc n h e i lt = elim (Bool-cases (i == n)) [
    | inl eq ↦ ap (λ k. failure (env.answer k)) (ground arith) ∙ e
    | inr ne ↦ h i (ground arith)
  ]

  pub flush_full-cases :
      (s : Ingest)
      → ((length s.batch == 1000) ≡ false) × (flush_full env id known_large s ≡ s)
        ⊎ (((length s.batch == 1000) ≡ true)
            × (((s.store_failed ≡ none)
                  × (flush_full env id known_large s ≡ record s {
                    batch = [];
                    store_failed = failure (env.answer (length s.sent));
                    sent = s.sent ++ (s.batch ∷ []);
                  }))
                ⊎ ((x : StoreError) × (s.store_failed ≡ some x)
                    × (flush_full env id known_large s ≡ record s { batch = [] }))))
  unfolding flush_full
  flush_full-cases s = elim (Bool-cases (length s.batch == 1000)) [
    | inr f ↦ inl (f, rw (f, flush_full) refl)
    | inl f ↦ inr (
      f,
      elim (Option-cases s.store_failed) [
        | inl g ↦ inl (g, rw (f, g, flush_full) refl)
        | inr (x, g) ↦ inr (x, g, simp (f, g, flush_full) refl)
      ],
    )
  ]

  flush_full-small :
      (s : Ingest)
      → length s.batch ≤ 1000
      → (length (flush_full env id known_large s).batch < 1000)
        × ((flush_full env id known_large s).total ≡ s.total)
  flush_full-small s le = elim (flush_full-cases s) [
    | inl (f, eq) ↦ rw eq (ground arith, refl)
    | inr (f, inl (g, eq)) ↦ rw eq (omega arith, refl)
    | inr (f, inr (x, g, eq)) ↦ rw eq (omega arith, refl)
  ]

  flush_full-Covers :
      (rows : List RecipientInsert) (s : Ingest)
      → (s.store_failed ≡ none → Covers rows s)
      → (flush_full env id known_large s).store_failed ≡ none
      → Covers rows (flush_full env id known_large s)
  flush_full-Covers rows s h e = elim (flush_full-cases s) [
    | inl (f, eq) ↦ rw eq (h (ap (λ r. r.store_failed) (sym eq) ∙ e))
    | inr (f, inl (g, eq)) ↦
        let c = h g in
        rw eq (record {
          covered = append_nil _ ∙ concat_snoc s.sent s.batch ∙ c.covered;
          full = All-append (λ b. length b ≡ 1000) s.sent _ c.full (ground arith, tt);
          taken =
              rw (length-snoc s.sent s.batch)
                (AllTaken-suc (length s.sent) c.taken (ap (λ r. r.store_failed) (sym eq) ∙ e));
        })
    | inr (f, inr (x, g, eq)) ↦ cc
  ]

  add_row-Covers :
      (ps : List O) (n : ℕ) (p : O) (s : Ingest) (total : ℕ) (held : Bool)
      → n ≡ length ps
      → Covers (rows_from 0 ps) s
      → Covers (rows_from 0 (ps ++ (p ∷ []))) (record s {
        batch = s.batch ++ (row_of env id known_large n p ∷ []);
        total = total;
        unknown_permits = held;
      })
  add_row-Covers ps n p s total held e c = record {
    covered =
        sym (append_assoc (concat s.sent) s.batch _)
        ∙ ap (λ r. r ++ (row_of env id known_large n p ∷ [])) c.covered
        ∙ ap (λ k. rows_from 0 ps ++ (row_of env id known_large k p ∷ [])) (from_zero e)
        ∙ sym (rows_from-snoc 0 ps p);
    full = c.full;
    taken = c.taken;
  }

  pub receive-Stage :
      (n : ℕ) (vs : List (Value O)) (p : O) (s : Ingest)
      → env.limits.max_recipients < 2 ^ 32
      → n < env.limits.max_recipients
      → Stage n vs s
      → After
          (λ _ s'. Stage (suc n) (vs ++ (object p ∷ [])) s')
          (receive env id known_large (n % 2 ^ 32) p s)
  unfolding receive
  receive-Stage n vs p s max lt h =
      elim (Bool-cases (
        crosses env id known_large (n % 2 ^ 32)
        && not (env.large_body_free && env.large_ingest_free))) [
          | inl f ↦ rw (f, receive) tt
          | inr f ↦
              rw (f, receive)
                (record {
                  counted = omega (arith, h.counted, length-snoc vs (object p));
                  all_objects =
                      rw
                        (
                          objects-append vs (object p ∷ []),
                          length-snoc (objects vs) p,
                          length-snoc vs (object p),
                        )
                        (omega (arith, h.all_objects));
                  bounded = omega arith;
                  small =
                      (flush_full-small _ (
                        rw (length-snoc s.batch (row_of env id known_large (n % 2 ^ 32) p))
                          (omega (arith, h.small)))).0;
                  totalled =
                      (flush_full-small _ (
                        rw (length-snoc s.batch (row_of env id known_large (n % 2 ^ 32) p))
                          (omega (arith, h.small)))).1
                      ∙ omega arith;
                  covers = flush_full-Covers _ _ (λ g.
                      rw (objects-append vs (object p ∷ []), mod_small n (omega arith))
                        (add_row-Covers (objects vs) n p s _ _ (h.counted ∙ sym h.all_objects)
                          (h.covers g)));
                })
        ]

  pub finish_cases :
      (p : O) (s : Ingest)
      → ((s.batch ≡ [])
          × (finish_ingest env id known_large p s ≡ (s.sent, accepted p s.total s.unknown_permits)))
        ⊎ (((0 < length s.batch)
              × (failure (env.answer (length s.sent)) ≡ none)
              × (finish_ingest env id known_large p s
                  ≡ (s.sent ++ (s.batch ∷ []), accepted p s.total s.unknown_permits)))
            ⊎ ((x : StoreError) × (failure (env.answer (length s.sent)) ≡ some x)
                × (finish_ingest env id known_large p s
                    ≡ (s.sent ++ (s.batch ∷ []), unavailable x))))
  unfolding finish_ingest
  finish_cases p s = elim (List-cases s.batch) [
    | inl e ↦ inl (e, simp (e, finish_ingest) refl)
    | inr (r, rs, e) ↦ elim (Option-cases (failure (env.answer (length s.sent)))) [
      | inl f ↦ inr (inl (rw e (omega arith), f, simp (e, f, finish_ingest) refl))
      | inr (x, f) ↦ inr (inr (x, f, simp (e, f, finish_ingest) refl))
    ]
  ]

  pub checked-clear :
      (s : Ingest) (result : List (List RecipientInsert) × Ingested O)
      → s.large_denied ≡ false
      → s.store_failed ≡ none
      → checked env id known_large s result ≡ result
  checked-clear s result f g = rw (f, g) refl

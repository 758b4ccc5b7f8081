-- ===== src/Webhook/Splitting.antt =====
-- The pages of `page_bodies` (crates/telegram-bulk-delivery/src/webhook.rs): every row is on one page, in
-- order, and no body is over the limit while it has results.
use telegram_bot_delivery_en.Base.{
  ℕ, zero, suc, ◌+◌, ◌≤◌, ◌<◌, ◌≡◌, refl, sym, ap, ◌∙◌, String, false, List, [], ◌∷◌, ◌++◌, arith,
  length, All, All-append, Bool-cases, inl, inr,
}
use telegram_bot_delivery_en.Domain.{JobId, EventId}
use telegram_bot_delivery_en.Webhook.Pages.{
  Bytes, ResultRow, Envelope, Encoder, envelope_reserve_bytes, row_len, opens_page, fill,
  split_pages, shrink, bodies_from, page_bodies,
}

abbrev pub concat : List (List ResultRow) → List ResultRow
concat [] = []
concat (x ∷ xs) = x ++ concat xs

append_assoc : {A : Type 0} (x y z : List A) → (x ++ y) ++ z ≡ x ++ (y ++ z)
append_assoc [] y z = refl
append_assoc (a ∷ x) y z = ap (λ l. a ∷ l) (append_assoc x y z)

append_nil : {A : Type 0} (x : List A) → x ++ [] ≡ x
append_nil [] = refl
append_nil (a ∷ x) = ap (λ l. a ∷ l) (append_nil x)

concat-append : (x y : List (List ResultRow)) → concat (x ++ y) ≡ concat x ++ concat y
concat-append [] y = refl
concat-append (a ∷ x) y =
    ap (λ l. a ++ l) (concat-append x y) ∙ sym (append_assoc a (concat x) (concat y))

module _ (enc : Encoder) (max_page_bytes : ℕ) where
  concat-fill :
      (full : List (List ResultRow)) (current : List ResultRow) (size : ℕ) (rows : List ResultRow)
      → concat (fill enc max_page_bytes full current size rows) ≡ concat full ++ (current ++ rows)
  unfolding fill
  concat-fill full current size [] = concat-append full (current ∷ [])
  concat-fill full current size (r ∷ rows) =
      elim (Bool-cases (opens_page enc max_page_bytes r current size)) [
        | inl e ↦ rw e (
            concat-fill (full ++ (current ∷ [])) (r ∷ []) (0 + (row_len enc max_page_bytes r + 1))
              rows
            ∙ (ap (λ l. l ++ (r ∷ rows)) (concat-append full (current ∷ []))
                ∙ (append_assoc (concat full) (current ++ []) (r ∷ rows)
                    ∙ ap (λ l. concat full ++ (l ++ (r ∷ rows))) (append_nil current))))
        | inr e ↦ rw e (
            concat-fill full (current ++ (r ∷ [])) (size + (row_len enc max_page_bytes r + 1)) rows
            ∙ ap (λ l. concat full ++ l) (append_assoc current (r ∷ []) rows))
      ]

  -- The pages hold every successful row once, in the order of the rows.
  pub concat-split_pages :
      (rows : List ResultRow) → concat (split_pages enc max_page_bytes rows) ≡ rows
  unfolding split_pages
  concat-split_pages rows = concat-fill [] [] 0 rows

  -- The bytes of a page's rows, each with its comma.
  abbrev pub weight : List ResultRow → ℕ
  weight [] = 0
  weight (r ∷ rows) = row_len enc max_page_bytes r + 1 + weight rows

  weight-append : (x y : List ResultRow) → weight (x ++ y) ≡ weight x + weight y
  weight-append [] y = omega arith
  weight-append (r ∷ x) y = omega (arith, weight-append x y)

  abbrev pub IsLight : List ResultRow → Type 0
  IsLight page = weight page + envelope_reserve_bytes ≤ max_page_bytes + 1

  abbrev pub RowFits : ResultRow → Type 0
  RowFits r = row_len enc max_page_bytes r + envelope_reserve_bytes ≤ max_page_bytes

  joins :
      (r : ResultRow) (current : List ResultRow) (size : ℕ)
      → RowFits r
      → size ≡ weight current
      → opens_page enc max_page_bytes r current size ≡ false
      → IsLight (current ++ (r ∷ []))
  unfolding opens_page
  joins r [] size fits w e = omega arith
  joins r (x ∷ current) size fits w e = ground (arith, weight-append (x ∷ current) (r ∷ []))

  fill-IsLight :
      (full : List (List ResultRow)) (current : List ResultRow) (size : ℕ) (rows : List ResultRow)
      → All IsLight full
      → IsLight current
      → size ≡ weight current
      → All RowFits rows
      → All IsLight (fill enc max_page_bytes full current size rows)
  unfolding fill
  fill-IsLight full current size [] a l w h = All-append IsLight full (current ∷ []) a (l, tt)
  fill-IsLight full current size (r ∷ rows) a l w h =
      elim (Bool-cases (opens_page enc max_page_bytes r current size)) [
        | inl e ↦ rw e (
            fill-IsLight (full ++ (current ∷ [])) (r ∷ []) (0 + (row_len enc max_page_bytes r + 1))
              rows (All-append IsLight full (current ∷ []) a (l, tt))
              (let fits = h.0 in omega arith) (omega arith) h.1)
        | inr e ↦ rw e (
            fill-IsLight full (current ++ (r ∷ [])) (size + (row_len enc max_page_bytes r + 1)) rows
              a (joins r current size h.0 w e) (omega (arith, weight-append current (r ∷ []))) h.1)
      ]

  pub split_pages-IsLight :
      (rows : List ResultRow)
      → envelope_reserve_bytes ≤ max_page_bytes
      → All RowFits rows
      → All IsLight (split_pages enc max_page_bytes rows)
  unfolding split_pages
  split_pages-IsLight rows room h = fill-IsLight [] [] 0 rows tt (omega arith) refl h

  shrink-fits :
      (env : List ResultRow → Envelope) (results : List ResultRow) (fuel : ℕ)
      → length (enc.envelope_bytes (env results)) ≤ max_page_bytes
      → shrink enc max_page_bytes fuel env results ≡ enc.envelope_bytes (env results)
  unfolding shrink
  shrink-fits env results zero h = refl
  shrink-fits env results (suc fuel) h = ground arith

  -- The bodies with nothing dropped.
  abbrev pub whole_bodies : ℕ → (ℕ → List ResultRow → Envelope) → List (List ResultRow) → List Bytes
  whole_bodies idx env [] = []
  whole_bodies idx env (page ∷ pages) =
      enc.envelope_bytes (env idx page) ∷ whole_bodies (suc idx) env pages

  -- What is relied on of the encoder: the fields beside the results stay below the reserve, and each
  -- row costs its bytes and a comma.
  abbrev pub FitsReserve : (ℕ → List ResultRow → Envelope) → Type 0
  FitsReserve env =
      (idx : ℕ) (results : List ResultRow)
      → length (enc.envelope_bytes (env idx results)) < envelope_reserve_bytes + weight results

  bodies_from-whole :
      (env : ℕ → List ResultRow → Envelope) (pages : List (List ResultRow)) (idx : ℕ)
      → FitsReserve env
      → All IsLight pages
      → (bodies_from enc max_page_bytes idx env pages ≡ whole_bodies idx env pages)
        × All (λ b. length b ≤ max_page_bytes) (bodies_from enc max_page_bytes idx env pages)
  unfolding bodies_from
  bodies_from-whole env [] idx law light = (refl, tt)
  bodies_from-whole env (page ∷ pages) idx law light =
      let fits : length (enc.envelope_bytes (env idx page)) ≤ max_page_bytes =
        let here = law idx page in let l = light.0 in omega arith in
      let same = shrink-fits (env idx) page (length page) fits in
      let rest = bodies_from-whole env pages (suc idx) law light.1 in
      (rw (same, rest.0) refl, (rw same fits, rest.1))

-- The envelope of page `idx` out of `pages`.
abbrev pub envelope_of :
    JobId → EventId → String → ℕ → ℕ → ℕ → ℕ → ℕ → ℕ → List ResultRow → Envelope
envelope_of job_id event_id job_state total succeeded failed ambiguous pages idx results = record {
  job_id = job_id;
  event_id = event_id;
  state = job_state;
  total = total;
  succeeded = succeeded;
  failed = failed;
  ambiguous = ambiguous;
  page = idx;
  page_count = pages;
  results = results;
}

-- Where each row leaves room for the reserve and the encoder keeps an envelope's own fields below it:
-- the pages put together are the rows in their order, the bodies are the encoded pages with no row
-- dropped, and no body is over the limit.
pub page_bodies_complete :
    (enc : Encoder) (max_page_bytes : ℕ) (id : JobId) (event : EventId) (state : String)
    (total succeeded failed ambiguous : ℕ) (rows : List ResultRow)
    → envelope_reserve_bytes ≤ max_page_bytes
    → All (RowFits enc max_page_bytes) rows
    → FitsReserve enc max_page_bytes (
        envelope_of id event state total succeeded failed ambiguous
          (length (split_pages enc max_page_bytes rows)))
    → (concat (split_pages enc max_page_bytes rows) ≡ rows)
      × (page_bodies enc max_page_bytes id event state total succeeded failed ambiguous rows
          ≡ whole_bodies enc max_page_bytes 0
              (envelope_of id event state total succeeded failed ambiguous
                (length (split_pages enc max_page_bytes rows)))
              (split_pages enc max_page_bytes rows))
      × All
          (λ b. length b ≤ max_page_bytes)
          (page_bodies enc max_page_bytes id event state total succeeded failed ambiguous rows)
unfolding page_bodies
page_bodies_complete enc max_page_bytes id event state total succeeded failed ambiguous rows room
      fits law =
    let pages = split_pages enc max_page_bytes rows in
    let (whole, small) =
      bodies_from-whole enc max_page_bytes
        (envelope_of id event state total succeeded failed ambiguous (length pages)) pages 0 law
        (split_pages-IsLight enc max_page_bytes rows room fits) in
    (concat-split_pages enc max_page_bytes rows, whole, small)

-- ===== src/Store/Reader/Paging.antt =====
-- Pages of results: `results` of crates/telegram-bulk-delivery/src/http/api.rs over the `Results`
-- query of crates/telegram-bulk-delivery/src/store/reader.rs, and a client that follows the cursor.
use telegram_bot_delivery_en.Base.{
  ℕ, zero, suc, ◌+◌, ◌%◌, ◌^◌, ◌<◌, min, max, ◌≡◌, refl, sym, ◌∙◌, ap, ◌&&◌, List, [], ◌∷◌, ◌++◌,
  Option, none, some, All, All-map, keep_where, length, take, map, any, inl, inr, arith, nat_eq,
  string_eq, Option-cases, ◌-◌,
}
use telegram_bot_delivery_en.Domain.{BotId, JobId}
use telegram_bot_delivery_en.Store.Tables.{Recipient, Db, is_job}
use telegram_bot_delivery_en.Store.Sql.{sorted}
use telegram_bot_delivery_en.Store.Ordering.{by_key, Unique, sorted-Rises, sorted-keep_where}
use telegram_bot_delivery_en.Store.Reader.Walking.{
  last, from, walk, walk-all, keep_where-both, keep_where-all,
}
use telegram_bot_delivery_en.Store.Reader.Rows.{ResultItem}
use telegram_bot_delivery_en.Store.Reader.Queries.{is_visible, is_result, result_item, read_results}

-- The limit of one page, and the cursor after it.
unfoldable pub page_limit : Option ℕ → ℕ
page_limit none = 100
page_limit (some n) = min 1000 (max 1 n)

unfoldable pub next_cursor : Option ResultItem → Option ℕ
next_cursor none = none
next_cursor (some item) = some ((item.idx + 1) % 2 ^ 32)

abbrev pub first_cursor : Option ℕ → ℕ
first_cursor none = 0
first_cursor (some c) = c

unfoldable pub results_page : BotId → JobId → Option ℕ → Option ℕ → Db → List ResultItem × Option ℕ
unfolding page_limit next_cursor
results_page bot id cursor limit db =
    let items = read_results bot id (first_cursor cursor) (page_limit limit) db in
    (items, next_cursor (last items))

abbrev pub and_rest : (ℕ → List ResultItem) → List ResultItem × Option ℕ → List ResultItem
and_rest rest (items, none) = items
and_rest rest (items, some c) = items ++ rest c

-- A client that asks for pages until one is empty, with fuel.
unfoldable pub all_results : ℕ → BotId → JobId → Option ℕ → Option ℕ → Db → List ResultItem
unfolding results_page
all_results zero bot id cursor limit db = []
all_results (suc fuel) bot id cursor limit db =
    and_rest (λ c. all_results fuel bot id (some c) limit db) (results_page bot id cursor limit db)

-- The recipients of a job that the bot may see.
unfoldable pub visible_rows : BotId → JobId → Db → List Recipient
visible_rows bot id db =
    keep_where (λ r. any (λ j. is_job r.job_id j && is_visible bot id j) db.jobs) db.recipients

last-map {ℓ κ} :
    {A : Type ℓ} {B : Type κ} (f : A → B) (xs : List A) {x : A}
    → last xs ≡ some x
    → last (map f xs) ≡ some (f x)
last-map f [] h = cc
last-map f (x ∷ []) h = ground arith
last-map f (x ∷ y ∷ xs) h = last-map f (y ∷ xs) h

read_results-rows :
    (bot : BotId) (id : JobId) (c n : ℕ) (db : Db)
    → read_results bot id c n db
      ≡ map result_item (
          take n (
            keep_where
              (from (λ r. r.idx) c)
              (sorted (by_key (λ r. r.idx)) (visible_rows bot id db))))
unfolding read_results is_result visible_rows
read_results-rows bot id c n db =
    ap (λ rows. map result_item (take n rows))
      (ap (sorted (by_key (λ r. r.idx))) (
          keep_where-both (λ r. any (λ j. is_job r.job_id j && is_visible bot id j) db.jobs)
            (from (λ r. r.idx) c) db.recipients)
        ∙ sorted-keep_where (λ r. r.idx) (from (λ r. r.idx) c) (visible_rows bot id db))

map-append {ℓ κ} :
    {A : Type ℓ} {B : Type κ} (f : A → B) (xs ys : List A) → map f (xs ++ ys) ≡ map f xs ++ map f ys
map-append f [] ys = refl
map-append f (x ∷ xs) ys = ap (λ zs. f x ∷ zs) (map-append f xs ys)

last-none {ℓ κ} :
    {A : Type ℓ} {B : Type κ} (f : A → B) (xs : List A) → last xs ≡ none → last (map f xs) ≡ none
last-none f [] h = refl
last-none f (x ∷ []) h = cc
last-none f (x ∷ y ∷ xs) h = last-none f (y ∷ xs) h

-- The client walks over the rows of the job in their order.
all_results-walk :
    (fuel : ℕ) (bot : BotId) (id : JobId) (c : Option ℕ) (limit : Option ℕ) (db : Db)
    → all_results fuel bot id c limit db
      ≡ map result_item (
          walk
            (λ r. r.idx)
            (page_limit limit)
            fuel
            (sorted (by_key (λ r. r.idx)) (visible_rows bot id db))
            (first_cursor c))
unfolding all_results results_page result_item
all_results-walk zero bot id c limit db = refl
all_results-walk (suc fuel) bot id c limit db =
    let n = page_limit limit in
    let rows = sorted (by_key (λ (r : Recipient). r.idx)) (visible_rows bot id db) in
    let page = take n (keep_where (from (λ (r : Recipient). r.idx) (first_cursor c)) rows) in
    let here = read_results-rows bot id (first_cursor c) n db in
    elim (Option-cases (last page)) [
      | inl e ↦ rw (all_results, here, last-none result_item page e, next_cursor, e) refl
      | inr (end, e) ↦
          let ih = all_results-walk fuel bot id (some ((end.idx + 1) % 2 ^ 32)) limit db in
          rw (all_results, here, last-map result_item page e, next_cursor, e)
            (ap (λ zs. map result_item page ++ zs) ih
              ∙ sym (
                  map-append result_item page
                    (walk (λ r. r.idx) n fuel rows ((end.idx + 1) % 2 ^ 32))))
    ]

page_limit-pos : (limit : Option ℕ) → (n : ℕ) × (page_limit limit ≡ suc n)
unfolding page_limit
page_limit-pos none = (99, refl)
page_limit-pos (some n) = (min 1000 (max 1 n) - 1, omega arith)

-- The recipients of a visible job have indices of their own, each below 2^32 - 1. A client that
-- starts without a cursor and follows `next_cursor` until a page is empty gets each recipient of
-- the job exactly once, in the order of the indices, whatever limit it asks for; as many pages as
-- recipients, and one more, are enough.
pub all_results_complete :
    (fuel : ℕ) (bot : BotId) (id : JobId) (limit : Option ℕ) (db : Db)
    → Unique (λ r. r.idx) (visible_rows bot id db)
    → All (λ r. r.idx + 1 < 2 ^ 32) (sorted (by_key (λ r. r.idx)) (visible_rows bot id db))
    → length (sorted (by_key (λ r. r.idx)) (visible_rows bot id db)) < fuel
    → all_results fuel bot id none limit db
      ≡ map result_item (sorted (by_key (λ r. r.idx)) (visible_rows bot id db))
all_results_complete fuel bot id limit db one small enough =
    let rows = sorted (by_key (λ (r : Recipient). r.idx)) (visible_rows bot id db) in
    let every : keep_where (from (λ (r : Recipient). r.idx) 0) rows ≡ rows =
      keep_where-all _ rows (All-map _ _ rows (λ r p. ground arith) small) in
    let (n, q) = page_limit-pos limit in
    all_results-walk fuel bot id none limit db
    ∙ ap (map result_item) (
        rw q (
          walk-all (λ r. r.idx) n fuel 0 rows (sorted-Rises (λ r. r.idx) _ one) small
            (rw every enough))
        ∙ every)

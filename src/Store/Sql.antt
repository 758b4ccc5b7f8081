-- ===== src/Store/Sql.antt =====
-- The few SQL expressions that several statements share.
use telegram_bot_delivery_en.Base.{
  ℕ, String, Bool, true, false, ◌&&◌, ◌||◌, List, [], ◌∷◌, ◌++◌, Option, none, some, ℤ, pos, ◌-ℤ◌,
  ◌+◌, ltb, ltb_ℤ, leb_ℤ, eqb_ℤ, max_ℤ, ◌==◌, nat_eq, string_eq, if◌then◌else◌, any, update_where,
  count_where,
}
use Prim.Native.String.{compare}
use Prim.Native.Nat.{Ordering}
use telegram_bot_delivery_en.Domain.{JobId, JobState, RecipientState, recipient_state_eq}
use telegram_bot_delivery_en.Store.Tables.{Recipient, RateSample, of_job}

-- `coalesce(a, b)`.
abbrev pub coalesce {ℓ} : {A : Type ℓ} → Option A → Option A → Option A
coalesce none b = b
coalesce (some a) b = some a

-- `CASE WHEN b THEN 1 ELSE 0 END`.
abbrev pub unit_if : Bool → ℤ
unit_if b = if b then pos 1 else pos 0

-- `max(n-1,0)`.
abbrev pub less_one : ℤ → ℤ
less_one n = max_ℤ (n -ℤ pos 1) (pos 0)

-- `a<=now` for a column that may be NULL.
abbrev pub due : Option ℤ → ℤ → Bool
due none now = false
due (some at) now = leb_ℤ at now

-- `a=?` for a text column that may be NULL.
abbrev pub text_is : Option String → String → Bool
text_is none t = false
text_is (some s) t = s == t

-- `state IN ('queued','running')` for a job, `state IN ('queued','delayed')` for a recipient.
abbrev pub is_active : JobState → Bool
is_active JobState.queued = true
is_active JobState.running = true
is_active _ = false

abbrev pub is_waiting : RecipientState → Bool
is_waiting RecipientState.queued = true
is_waiting RecipientState.delayed = true
is_waiting _ = false

abbrev pub is_terminal : RecipientState → Bool
is_terminal RecipientState.succeeded = true
is_terminal RecipientState.failed = true
is_terminal RecipientState.ambiguous = true
is_terminal _ = false

-- `sum(state=s)` over a job's recipients.
abbrev pub in_state : JobId → RecipientState → Recipient → Bool
in_state id s r = of_job id r && r.state == s

abbrev pub tally : JobId → RecipientState → List Recipient → ℕ
tally id s = count_where (in_state id s)

abbrev pub str_ltb : String → String → Bool
str_ltb s t = elim (compare s t) [ Ordering.lt ↦ true | _ ↦ false ]

-- `ORDER BY not_before_unix, job_id, idx`.
abbrev pub row_before : Recipient → Recipient → Bool
row_before r s =
    ltb_ℤ r.not_before_unix s.not_before_unix
    || (eqb_ℤ r.not_before_unix s.not_before_unix
        && (str_ltb r.job_id s.job_id || (r.job_id == s.job_id && ltb r.idx s.idx)))

-- `ORDER BY … LIMIT 1`.
unfoldable pub least {ℓ} : {A : Type ℓ} → (A → A → Bool) → List A → Option A
least before [] = none
least before (x ∷ xs) = elim (least before xs) [
  | none ↦ some x
  | some y ↦ some (if before y x then y else x)
]

-- `ORDER BY`.
unfoldable pub insert_sorted {ℓ} : {A : Type ℓ} → (A → A → Bool) → A → List A → List A
insert_sorted before x [] = x ∷ []
insert_sorted before x (y ∷ ys) =
    let rest = insert_sorted before x ys in if before y x then y ∷ rest else x ∷ y ∷ ys

unfoldable pub sorted {ℓ} : {A : Type ℓ} → (A → A → Bool) → List A → List A
unfolding insert_sorted
sorted before [] = []
sorted before (x ∷ xs) = insert_sorted before x (sorted before xs)

-- `INSERT INTO rate_samples … ON CONFLICT DO UPDATE SET sent=sent+1`.
abbrev sample_is : JobId → ℤ → RateSample → Bool
sample_is id window s = s.job_id == id && eqb_ℤ s.window_start_unix window

unfoldable pub count_rate : JobId → ℤ → List RateSample → List RateSample
count_rate id window samples =
    if any (sample_is id window) samples
    then update_where (sample_is id window) (λ s. record s { sent = s.sent + 1 }) samples
    else samples ++ (record { job_id = id; window_start_unix = window; sent = 1 } ∷ [])

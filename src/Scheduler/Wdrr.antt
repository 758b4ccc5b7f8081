-- ===== src/Scheduler/Wdrr.antt =====
-- The fairness scheduler, `Wdrr` of crates/telegram-bulk-delivery/src/scheduler/fairness.rs. The maps and
-- sets are lists without repeats, the heap of wakes a list in the order in which it pops.
pub mod Grants
pub mod Keeping
pub mod Turning
pub mod Steps
use telegram_bot_delivery_en.Base.{
  ℕ, zero, suc, ◌+◌, ◌-◌, min, max, Bool, true, false, not, ◌&&◌, ◌||◌, List, [], ◌∷◌, ◌++◌, Option,
  none, some, ltb, leb, ◌==◌, nat_eq, if◌then◌else◌, any, update_where, keep_where, find_where,
  length,
}
use telegram_bot_delivery_en.Domain.{BotId}

abbrev pub per_bot_concurrency : ℕ
per_bot_concurrency = 4

-- An entry of the map, with its key.
pub record Entry : Type 0 where
  pub bot : BotId
  pub weight : ℕ
  pub deficit : ℕ
  pub inflight : ℕ

pub record Wdrr : Type 0 where
  pub ring : List BotId
  pub entries : List Entry
  pub present : List BotId
  pub wakes : List (ℕ × BotId)
  pub deficit_cap : ℕ

abbrev pub new_wdrr : Wdrr
new_wdrr = record { ring = []; entries = []; present = []; wakes = []; deficit_cap = 64 }

abbrev pub is_entry : BotId → Entry → Bool
is_entry b e = e.bot == b

abbrev pub is_bot : BotId → BotId → Bool
is_bot b c = c == b

abbrev pub is_wake_of : BotId → ℕ × BotId → Bool
is_wake_of b w = w.1 == b

abbrev pub is_sleeping : BotId → Wdrr → Bool
is_sleeping b q = any (is_wake_of b) q.wakes

abbrev pub contains : BotId → Wdrr → Bool
contains b q = any (is_bot b) q.present

abbrev pub inflight_of : Option Entry → ℕ
inflight_of none = 0
inflight_of (some e) = e.inflight

-- `Wdrr::inflight`.
abbrev pub inflight_at : BotId → Wdrr → ℕ
inflight_at b q = inflight_of (find_where (is_entry b) q.entries)

abbrev pub clamp_weight : ℕ → ℕ
clamp_weight w = min (max w 1) 16

abbrev pub put_entry : BotId → ℕ → List Entry → List Entry
put_entry b weight entries =
    if any (is_entry b) entries
    then update_where (is_entry b) (λ e. record e { weight = clamp_weight weight }) entries
    else entries
      ++ (record { bot = b; weight = clamp_weight weight; deficit = 0; inflight = 0 } ∷ [])

-- Whether a bot may be admitted, and the set insertion that decides it.
abbrev pub admits : BotId → Wdrr → Bool
admits b q =
    not (is_sleeping b q) && ltb (inflight_at b q) per_bot_concurrency && not (contains b q)

unfoldable pub upsert_ready : BotId → ℕ → Wdrr → Wdrr
upsert_ready b weight q =
    let q' = record q { entries = put_entry b weight q.entries } in
    if admits b q'
    then record q' {
      present = b ∷ q.present;
      ring = if any (is_entry b) q.entries then b ∷ q.ring else q.ring ++ (b ∷ []);
    }
    else q'

unfoldable pub remove : BotId → Wdrr → Wdrr
remove b q = record q {
  present = keep_where (λ c. not (is_bot b c)) q.present;
  ring = keep_where (λ c. not (is_bot b c)) q.ring;
}

unfoldable pub readmit : BotId → Wdrr → Wdrr
readmit b q =
    if any (is_entry b) q.entries && admits b q
    then record q { present = b ∷ q.present; ring = q.ring ++ (b ∷ []) }
    else q

-- The order of the heap: by time, then by bot.
abbrev pub wakes_before : ℕ × BotId → ℕ × BotId → Bool
wakes_before w v = ltb w.0 v.0 || (w.0 == v.0 && leb w.1 v.1)

unfoldable pub push_wake : ℕ × BotId → List (ℕ × BotId) → List (ℕ × BotId)
push_wake w [] = w ∷ []
push_wake w (v ∷ vs) =
    let rest = push_wake w vs in if wakes_before w v then w ∷ v ∷ vs else v ∷ rest

unfoldable pub sleep_until : BotId → ℕ → Wdrr → Wdrr
unfolding remove
sleep_until b at q = record (remove b q) { wakes = push_wake (at, b) q.wakes }

-- The loop over the heap, with the bots found due so far.
unfoldable pub pop_due : ℕ → List (ℕ × BotId) → List BotId → List (ℕ × BotId) × List BotId
pop_due now [] found = ([], found)
pop_due now (w ∷ ws) found =
    let rest = pop_due now ws (
      if not (any (is_wake_of w.1) ws) && not (any (is_bot w.1) found)
      then found ++ (w.1 ∷ [])
      else found) in
    if leb w.0 now then rest else (w ∷ ws, found)

unfoldable pub wake_due : ℕ → Wdrr → Wdrr × List BotId
wake_due now q = let (left, found) = pop_due now q.wakes [] in (record q { wakes = left }, found)

-- A bot's deficit grows by its weight, up to the cap; u16 arithmetic saturates at 65535.
abbrev pub charge : ℕ → Entry → Entry
charge cap e = record e { deficit = min (min (e.deficit + e.weight) 65535) cap }

abbrev pub spend : Entry → Entry
spend e = record e { deficit = e.deficit - 1; inflight = e.inflight + 1 }

abbrev pub can_run : Entry → Bool
can_run e = ltb e.inflight per_bot_concurrency && ltb 0 e.deficit

-- The loop of `grant`, on the number of bots that the ring had.
unfoldable pub scan : ℕ → Wdrr → Wdrr × Option BotId
scan zero q = (q, none)
scan (suc n) q = elim q.ring [
  | [] ↦ (q, none)
  | b ∷ rest ↦
      let skipped = scan n (record q { ring = rest }) in
      let turned = record q {
        ring = rest ++ (b ∷ []);
        entries = update_where (is_entry b) (charge q.deficit_cap) q.entries;
      } in
      let passed = scan n turned in
      if not (contains b q) then skipped else elim (find_where (is_entry b) q.entries) [
        | none ↦ (record q { ring = rest }, none)
        | some e ↦
            if can_run (charge q.deficit_cap e)
            then (
              record turned { entries = update_where (is_entry b) spend turned.entries },
              some b,
            )
            else passed
      ]
]

unfoldable pub grant : Wdrr → Wdrr × Option BotId
grant q = scan (length q.ring) q

unfoldable pub complete : BotId → Wdrr → Wdrr
complete b q = record q {
  entries = update_where (is_entry b) (λ e. record e { inflight = e.inflight - 1 }) q.entries;
}

unfoldable pub reconcile : List (BotId × ℕ) → Wdrr → Wdrr
reconcile [] q = q
reconcile ((b, w) ∷ ready) q = reconcile ready (upsert_ready b w q)

-- ===== src/Base/Maps.antt =====
-- Hash maps as association lists: a key is looked up, put, removed and counted.
use Prim.Native.Nat.{suc}
use mathlib.Core.Path.{◌≡◌, refl, subst}
use mathlib.Core.Logic.{◌↔◌, inl, inr}
use mathlib.Core.Bool.{Bool, true, false, ◌&&◌}
use mathlib.Core.List.{List, [], ◌∷◌}
use mathlib.Core.Option.{Option, none, some}
use native.Mathlib.Omega.{arith}
use telegram_bot_delivery_en.Base.Tests.{
  if◌then◌else◌, Comparable, ◌==◌, eq_of_test, test_self, Bool-cases,
}
use telegram_bot_delivery_en.Base.Lists.{length, All}

abbrev pub is_some {ℓ} : {A : Type ℓ} → Option A → Bool
is_some (some _) = true
is_some none = false

module _ {ℓ κ} {K : Type ℓ} {V : Type κ} ⦃c : Comparable K⦄ where
  abbrev pub map_get : K → List (K × V) → Option V
  map_get k [] = none
  map_get k (e ∷ es) = if e.0 == k then some e.1 else map_get k es

  abbrev pub contains_key : K → List (K × V) → Bool
  contains_key k es = is_some (map_get k es)

  -- `insert`, and a write through `get_mut`.
  abbrev pub map_put : K → V → List (K × V) → List (K × V)
  map_put k v [] = (k, v) ∷ []
  map_put k v (e ∷ es) = if e.0 == k then (k, v) ∷ es else e ∷ map_put k v es

module _ {ℓ κ} {K : Type ℓ} {V : Type κ} ⦃c : Comparable K⦄ where
  pub map_get-map_put : (k : K) (v : V) (es : List (K × V)) → map_get k (map_put k v es) ≡ some v
  map_get-map_put k v [] = rw (test_self k) refl
  map_get-map_put k v (e ∷ es) = elim (Bool-cases (e.0 == k)) [
    | inl h ↦ rw (h, test_self k) refl
    | inr h ↦ rw (h, h) (map_get-map_put k v es)
  ]

  pub map_get-map_put_other :
      (j k : K) (v : V) (es : List (K × V))
      → (k == j) ≡ false
      → map_get j (map_put k v es) ≡ map_get j es
  map_get-map_put_other j k v [] n = rw n refl
  map_get-map_put_other j k v (e ∷ es) n = elim (Bool-cases (e.0 == k)) [
    | inl h ↦ let q : e.0 ≡ k = eq_of_test e.0 k h in rw (h, q, n) refl
    | inr h ↦ rw (h, map_get-map_put_other j k v es n) refl
  ]

  -- Writing a key that is there keeps the number of entries; a new key adds one.
  pub length-map_put :
      (k : K) (v : V) (es : List (K × V))
      → length (map_put k v es) ≡ (if contains_key k es then length es else suc (length es))
  length-map_put k v [] = refl
  length-map_put k v (e ∷ es) = elim (Bool-cases (e.0 == k)) [
    | inl h ↦ rw h refl
    | inr h ↦ rw h (ground (arith, length-map_put k v es))
  ]

  pub All-map_put {μ} :
      (P : V → Type μ) (k : K) (v : V) (es : List (K × V))
      → P v
      → All (λ e. P e.1) es
      → All (λ e. P e.1) (map_put k v es)
  All-map_put P k v [] p a = (p, tt)
  All-map_put P k v (e ∷ es) p a = elim (Bool-cases (e.0 == k)) [
    | inl h ↦ rw h (p, a.1)
    | inr h ↦ rw h (a.0, All-map_put P k v es p a.1)
  ]

  pub All-map_get {μ} :
      (P : V → Type μ) (k : K) (es : List (K × V)) {v : V}
      → map_get k es ≡ some v
      → All (λ e. P e.1) es
      → P v
  All-map_get P k [] h a = cc
  All-map_get P k (e ∷ es) {v} h a = elim (Bool-cases (e.0 == k)) [
    | inl q ↦ let same : e.1 ≡ v = ground arith in subst P same a.0
    | inr q ↦ All-map_get P k es (ground arith) a.1
  ]

abbrev pub same_pair {ℓ κ} :
    {A : Type ℓ} {B : Type κ} ⦃a : Comparable A⦄ ⦃b : Comparable B⦄ → A × B → A × B → Bool
same_pair p q = p.0 == q.0 && p.1 == q.1

pub same_pair_iff {ℓ κ} :
    {A : Type ℓ} {B : Type κ} ⦃a : Comparable A⦄ ⦃b : Comparable B⦄
    → (p q : A × B) → (same_pair p q ≡ true) ↔ (p ≡ q)
same_pair_iff ⦃a = a⦄ ⦃b = b⦄ p q = ground (arith, a.same_iff p.0 q.0, b.same_iff p.1 q.1)

instance abbrev pub pair_eq {ℓ κ} :
    {A : Type ℓ} {B : Type κ} ⦃a : Comparable A⦄ ⦃b : Comparable B⦄ → Comparable (A × B)
pair_eq = record { same_iff = same_pair_iff; same = same_pair }

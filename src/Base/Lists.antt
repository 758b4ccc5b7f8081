-- ===== src/Base/Lists.antt =====
-- Lists as tables: rows are counted, changed and kept by a Boolean test, as SQL's WHERE does.
use Prim.Native.Nat.{ℕ, zero, suc, ◌+◌, ◌≤◌, ◌<◌}
use mathlib.Core.Path.{◌≡◌, refl, subst}
use mathlib.Core.Bool.{Bool, true, false, ◌&&◌, ◌||◌}
use mathlib.Core.List.{List, [], ◌∷◌, ◌++◌}
use mathlib.Core.Logic.{inl, inr}
use mathlib.Core.Option.{Option, none, some}
use native.Mathlib.Omega.{arith}
use telegram_bot_delivery_en.Base.Tests.{if◌then◌else◌, Bool-cases}

module _ {ℓ} {A : Type ℓ} where
  abbrev pub length : List A → ℕ
  length [] = 0
  length (x ∷ xs) = suc (length xs)

  abbrev pub any : (A → Bool) → List A → Bool
  any p [] = false
  any p (x ∷ xs) = p x || any p xs

  abbrev pub count_where : (A → Bool) → List A → ℕ
  count_where p [] = 0
  count_where p (x ∷ xs) = (if p x then 1 else 0) + count_where p xs

  -- `UPDATE … SET … WHERE p`.
  abbrev pub update_where : (A → Bool) → (A → A) → List A → List A
  update_where p f [] = []
  update_where p f (x ∷ xs) = (if p x then f x else x) ∷ update_where p f xs

  -- `SELECT … WHERE p`, and `retain`.
  abbrev pub keep_where : (A → Bool) → List A → List A
  keep_where p [] = []
  keep_where p (x ∷ xs) = let rest = keep_where p xs in if p x then x ∷ rest else rest

  abbrev pub find_where : (A → Bool) → List A → Option A
  find_where p [] = none
  find_where p (x ∷ xs) = if p x then some x else find_where p xs

  abbrev pub All {κ} : (A → Type κ) → List A → Type κ
  All P [] = Unit
  All P (x ∷ xs) = P x × All P xs

  abbrev pub take : ℕ → List A → List A
  take zero xs = []
  take (suc n) [] = []
  take (suc n) (x ∷ xs) = x ∷ take n xs

module _ {ℓ} {A : Type ℓ} where
  pub length-append : (xs ys : List A) → length (xs ++ ys) ≡ length xs + length ys
  length-append [] ys = omega arith
  length-append (x ∷ xs) ys = omega (arith, length-append xs ys)

  pub length-keep_where : (p : A → Bool) (xs : List A) → length (keep_where p xs) ≤ length xs
  length-keep_where p [] = omega arith
  length-keep_where p (x ∷ xs) = ground (arith, length-keep_where p xs)

  -- The books of an update: what the changed rows leave and what they join.
  pub count_where-update_where :
      (q p : A → Bool) (f : A → A) (xs : List A)
      → count_where q (update_where p f xs) + count_where (λ x. p x && q x) xs
        ≡ count_where q xs + count_where (λ x. p x && q (f x)) xs
  count_where-update_where q p f [] = omega arith
  count_where-update_where q p f (x ∷ xs) = ground (arith, count_where-update_where q p f xs)

  -- The same where the rows that change are alike for `q`, before and after.
  pub count_where-update_alike :
      (q p : A → Bool) (f : A → A) (b c : Bool) (xs : List A)
      → ((x : A) → p x ≡ true → q x ≡ b)
      → ((x : A) → p x ≡ true → q (f x) ≡ c)
      → count_where q (update_where p f xs) + (if b then count_where p xs else 0)
        ≡ count_where q xs + (if c then count_where p xs else 0)
  count_where-update_alike q p f b c [] h k = ground arith
  count_where-update_alike q p f b c (x ∷ xs) h k =
      ground (arith, h x, k x, count_where-update_alike q p f b c xs h k)

  pub count_where-le :
      (p q : A → Bool) (xs : List A)
      → ((x : A) → p x ≡ true → q x ≡ true)
      → count_where p xs ≤ count_where q xs
  count_where-le p q [] h = omega arith
  count_where-le p q (x ∷ xs) h = ground (arith, h x, count_where-le p q xs h)

  pub count_where-eq :
      (p q : A → Bool) (xs : List A) → ((x : A) → p x ≡ q x) → count_where p xs ≡ count_where q xs
  count_where-eq p q [] h = refl
  count_where-eq p q (x ∷ xs) h = ground (arith, h x, count_where-eq p q xs h)

  pub count_where-none :
      (p : A → Bool) (xs : List A) → ((x : A) → p x ≡ false) → count_where p xs ≡ 0
  count_where-none p [] h = refl
  count_where-none p (x ∷ xs) h = ground (arith, h x, count_where-none p xs h)

  pub count-absent : (p : A → Bool) (xs : List A) → any p xs ≡ false → count_where p xs ≡ 0
  count-absent p [] h = refl
  count-absent p (x ∷ xs) h = ground (arith, count-absent p xs)

  pub count_where-append :
      (p : A → Bool) (xs ys : List A)
      → count_where p (xs ++ ys) ≡ count_where p xs + count_where p ys
  count_where-append p [] ys = omega arith
  count_where-append p (x ∷ xs) ys = omega (arith, count_where-append p xs ys)

  pub count_where-keep_where :
      (p q : A → Bool) (xs : List A)
      → count_where p (keep_where q xs) ≡ count_where (λ x. q x && p x) xs
  count_where-keep_where p q [] = refl
  count_where-keep_where p q (x ∷ xs) = ground (arith, count_where-keep_where p q xs)

  pub count_where-find_where :
      (p : A → Bool) (xs : List A) {x : A} → find_where p xs ≡ some x → 0 < count_where p xs
  count_where-find_where p [] h = cc
  count_where-find_where p (y ∷ xs) {x} h = ground (arith, count_where-find_where p xs {x = x})

  pub find_where-true : (p : A → Bool) (xs : List A) {x : A} → find_where p xs ≡ some x → p x ≡ true
  find_where-true p [] h = cc
  find_where-true p (y ∷ xs) {x} h = ground (arith, find_where-true p xs {x = x})

-- What holds of each row goes through an update and a selection.
module _ {ℓ κ μ} {A : Type ℓ} (P : A → Type κ) (Q : A → Type μ) where
  pub All-map : (xs : List A) → ((x : A) → P x → Q x) → All P xs → All Q xs
  All-map [] h a = tt
  All-map (x ∷ xs) h a = (h x a.0, All-map xs h a.1)

  if_cases :
      (p : A → Bool) (f : A → A)
      → ((x : A) → p x ≡ true → P x → Q (f x))
      → ((x : A) → p x ≡ false → P x → Q x)
      → (x : A) → P x
      → Q (if p x then f x else x)
  if_cases p f hit miss x a = elim (Bool-cases (p x)) [
    | inl e ↦ rw e (hit x e a)
    | inr e ↦ rw e (miss x e a)
  ]

  pub All-update_where :
      (p : A → Bool) (f : A → A) (xs : List A)
      → ((x : A) → p x ≡ true → P x → Q (f x))
      → ((x : A) → p x ≡ false → P x → Q x)
      → All P xs
      → All Q (update_where p f xs)
  All-update_where p f [] hit miss a = tt
  All-update_where p f (x ∷ xs) hit miss a =
      (if_cases p f hit miss x a.0, All-update_where p f xs hit miss a.1)

module _ {ℓ κ} {A : Type ℓ} (P : A → Type κ) where
  pub All-keep_where : (p : A → Bool) (xs : List A) → All P xs → All P (keep_where p xs)
  All-keep_where p [] a = tt
  All-keep_where p (x ∷ xs) a = elim (Bool-cases (p x)) [
    | inl e ↦ rw e (a.0, All-keep_where p xs a.1)
    | inr e ↦ rw e (All-keep_where p xs a.1)
  ]

  pub All-find_where :
      (p : A → Bool) (xs : List A) {x : A} → find_where p xs ≡ some x → All P xs → P x
  All-find_where p [] h a = cc
  All-find_where p (y ∷ xs) {x} h a = elim (Bool-cases (p y)) [
    | inl e ↦ let q : y ≡ x = ground arith in subst P q a.0
    | inr e ↦ All-find_where p xs (ground arith) a.1
  ]

  pub All-append : (xs ys : List A) → All P xs → All P ys → All P (xs ++ ys)
  All-append [] ys a b = b
  All-append (x ∷ xs) ys a b = (a.0, All-append xs ys a.1 b)

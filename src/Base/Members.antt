-- ===== src/Base/Members.antt =====
-- Membership in a table, and what a unique key says of its one row.
use Prim.Native.Nat.{◌≤◌, ◌<◌}
use mathlib.Core.Path.{◌≡◌, refl, ap, sym, subst, ◌∙◌}
use mathlib.Core.Bool.{Bool, true, ◌&&◌}
use mathlib.Core.List.{List, [], ◌∷◌, map, Memᴰ}
use mathlib.Core.Logic.{◌⊎◌, inl, inr}
use native.Mathlib.Omega.{arith}
use telegram_bot_delivery_en.Base.Tests.{if◌then◌else◌, Bool-cases}
use telegram_bot_delivery_en.Base.Lists.{any, count_where, update_where, keep_where, All}

module _ {ℓ} {A : Type ℓ} where
  pub any-Memᴰ : (p : A → Bool) (xs : List A) → any p xs ≡ true → (x : A) × Memᴰ x xs × (p x ≡ true)
  any-Memᴰ p [] h = cc
  any-Memᴰ p (x ∷ xs) h = elim (Bool-cases (p x)) [
    | inl e ↦ (x, Memᴰ.head refl, e)
    | inr e ↦ let (y, m, t) = any-Memᴰ p xs (ground arith) in (y, Memᴰ.tail m, t)
  ]

  Memᴰ-cases : {x y : A} {ys : List A} → Memᴰ x (y ∷ ys) → (x ≡ y) ⊎ Memᴰ x ys
  Memᴰ-cases (Memᴰ.head e) = inl e
  Memᴰ-cases (Memᴰ.tail m) = inr m

  pub keep_where-Memᴰ :
      (p : A → Bool) (xs : List A) {x : A} → Memᴰ x (keep_where p xs) → Memᴰ x xs × (p x ≡ true)
  keep_where-Memᴰ p [] m = elim m [ ]
  keep_where-Memᴰ p (y ∷ xs) {x} m =
      let at : Bool → Type ℓ = λ b. Memᴰ x (if b then y ∷ keep_where p xs else keep_where p xs) in
      elim (Bool-cases (p y)) [
        | inl e ↦ elim (Memᴰ-cases (subst at e m)) [
          | inl q ↦ (Memᴰ.head q, rw q e)
          | inr m' ↦ let (old, t) = keep_where-Memᴰ p xs m' in (Memᴰ.tail old, t)
        ]
        | inr e ↦ let (old, t) = keep_where-Memᴰ p xs (subst at e m) in (Memᴰ.tail old, t)
      ]

  pub count_where-pos :
      (p : A → Bool) (xs : List A) {x : A} → Memᴰ x xs → p x ≡ true → 0 < count_where p xs
  count_where-pos p [] m h = elim m [ ]
  count_where-pos p (y ∷ xs) m h = elim (Memᴰ-cases m) [
    | inl e ↦ let here : p y ≡ true = ap p (sym e) ∙ h in ground arith
    | inr m' ↦ omega (arith, count_where-pos p xs m' h)
  ]

  pub All-of_none :
      (p q : A → Bool) (xs : List A) → count_where p xs ≡ 0 → All (λ x. p x ≡ true → q x ≡ true) xs
  All-of_none p q [] h = tt
  All-of_none p q (x ∷ xs) h = (λ e. ground arith, All-of_none p q xs (omega arith))

  -- Where one row passes a test at most, what the row passes holds of all that pass it.
  pub All-of_unique :
      (p q : A → Bool) (xs : List A) {x : A}
      → Memᴰ x xs
      → p x ≡ true
      → q x ≡ true
      → count_where p xs ≤ 1
      → All (λ y. p y ≡ true → q y ≡ true) xs
  All-of_unique p q [] m hp hq one = elim m [ ]
  All-of_unique p q (y ∷ xs) m hp hq one = elim (Memᴰ-cases m) [
    | inl e ↦
        let here : p y ≡ true = ap p (sym e) ∙ hp in
        let there : q y ≡ true = ap q (sym e) ∙ hq in
        (λ _. there, All-of_none p q xs (ground arith))
    | inr m' ↦
        let rest = count_where-pos p xs m' hp in
        (λ e. absurd (ground arith), All-of_unique p q xs m' hp hq (ground arith))
  ]

  pub update_where-narrow :
      (p q : A → Bool) (f : A → A) (xs : List A)
      → All (λ x. p x ≡ true → q x ≡ true) xs
      → update_where p f xs ≡ update_where (λ x. p x && q x) f xs
  update_where-narrow p q f [] a = refl
  update_where-narrow p q f (x ∷ xs) a = ground (arith, a.0, update_where-narrow p q f xs a.1)

  pub count_where-narrow :
      (p q : A → Bool) (xs : List A)
      → All (λ x. p x ≡ true → q x ≡ true) xs
      → count_where p xs ≡ count_where (λ x. p x && q x) xs
  count_where-narrow p q [] a = refl
  count_where-narrow p q (x ∷ xs) a = ground (arith, a.0, count_where-narrow p q xs a.1)

  pub update_where-none :
      (p : A → Bool) (f : A → A) (xs : List A) → count_where p xs ≡ 0 → update_where p f xs ≡ xs
  update_where-none p f [] h = refl
  update_where-none p f (x ∷ xs) h = ground (arith, update_where-none p f xs)

  -- An update that a test does not see.
  pub count_where-update_same :
      (q p : A → Bool) (f : A → A) (xs : List A)
      → ((x : A) → q (f x) ≡ q x)
      → count_where q (update_where p f xs) ≡ count_where q xs
  count_where-update_same q p f [] h = refl
  count_where-update_same q p f (x ∷ xs) h = ground (arith, h x, count_where-update_same q p f xs h)

module _ {ℓ κ μ} {A : Type ℓ} (P : A → Type κ) (Q : A → Type μ) where
  pub All-both : (xs : List A) → All P xs → All Q xs → All (λ x. P x × Q x) xs
  All-both [] a b = tt
  All-both (x ∷ xs) a b = ((a.0, b.0), All-both xs a.1 b.1)

-- Ids that a query gathers.
module _ {ℓ κ} {A : Type ℓ} {B : Type κ} where
  pub any-map : (q : B → Bool) (f : A → B) (xs : List A) → any q (map f xs) ≡ any (λ x. q (f x)) xs
  any-map q f [] = refl
  any-map q f (x ∷ xs) = ground (arith, any-map q f xs)

  pub any-map-keep_where :
      (q : B → Bool) (f : A → B) (p : A → Bool) (xs : List A)
      → any q (map f (keep_where p xs)) ≡ any (λ x. q (f x) && p x) xs
  any-map-keep_where q f p [] = refl
  any-map-keep_where q f p (x ∷ xs) = elim (Bool-cases (p x)) [
    | inl e ↦ rw e (ground (arith, any-map-keep_where q f p xs))
    | inr e ↦ rw e (ground (arith, any-map-keep_where q f p xs))
  ]

module _ {ℓ} {A : Type ℓ} where
  pub count_where-any : (p : A → Bool) (xs : List A) → any p xs ≡ true → 0 < count_where p xs
  count_where-any p [] h = cc
  count_where-any p (x ∷ xs) h = ground (arith, count_where-any p xs)

  pub any_of_member :
      (p : A → Bool) (xs : List A) {x : A} → Memᴰ x xs → p x ≡ true → any p xs ≡ true
  any_of_member p [] m h = elim m [ ]
  any_of_member p (y ∷ xs) m h = elim (Memᴰ-cases m) [
    | inl e ↦ let here : p y ≡ true = ap p (sym e) ∙ h in ground arith
    | inr m' ↦ ground (arith, any_of_member p xs m' h)
  ]

  pub All-Memᴰ : (Q : A → Type 0) (xs : List A) → All Q xs → {x : A} → Memᴰ x xs → Q x
  All-Memᴰ Q [] a m = elim m [ ]
  All-Memᴰ Q (y ∷ xs) a m = elim (Memᴰ-cases m) [
    | inl e ↦ subst Q (sym e) a.0
    | inr m' ↦ All-Memᴰ Q xs a.1 m'
  ]

  pub All-members : (Q : A → Type 0) (xs : List A) → ((x : A) → Memᴰ x xs → Q x) → All Q xs
  All-members Q [] h = tt
  All-members Q (x ∷ xs) h = (h x (Memᴰ.head refl), All-members Q xs (λ y m. h y (Memᴰ.tail m)))

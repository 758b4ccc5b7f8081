-- ===== src/Store/Reader/Walking.antt =====
-- A list that is read by pages, each from the key after the last row of the page before.
use telegram_bot_delivery_en.Base.{
  ℕ, zero, suc, ◌+◌, ◌%◌, ◌^◌, ◌≤◌, ◌<◌, ◌≡◌, refl, ◌⊎◌, sym, subst, ◌∙◌, ap, Bool, true, false,
  ◌&&◌, List, [], ◌∷◌, ◌++◌, Option, none, some, leb, All, All-map, All-keep_where, keep_where,
  length, take, inl, inr, arith, Bool-cases,
}
use telegram_bot_delivery_en.Store.Ordering.{Rises}

abbrev pub last {ℓ} : {A : Type ℓ} → List A → Option A
last [] = none
last (x ∷ []) = some x
last (x ∷ y ∷ xs) = last (y ∷ xs)

abbrev pub drop {ℓ} : {A : Type ℓ} → ℕ → List A → List A
drop zero xs = xs
drop (suc n) [] = []
drop (suc n) (x ∷ xs) = drop n xs

module _ {ℓ} {A : Type ℓ} where
  List-cases : (xs : List A) → (xs ≡ []) ⊎ ((y : A) × (ys : List A) × (xs ≡ y ∷ ys))
  List-cases [] = inl refl
  List-cases (x ∷ xs) = inr (x, xs, refl)

  take-drop : (n : ℕ) (xs : List A) → take n xs ++ drop n xs ≡ xs
  take-drop zero xs = refl
  take-drop (suc n) [] = refl
  take-drop (suc n) (x ∷ xs) = ap (λ ys. x ∷ ys) (take-drop n xs)

  length-drop : (n : ℕ) (x : A) (xs : List A) → length (drop (suc n) (x ∷ xs)) ≤ length xs
  length-drop zero x xs = omega arith
  length-drop (suc n) x [] = omega arith
  length-drop (suc n) x (y ∷ xs) = omega (arith, length-drop n y xs)

  pub keep_where-all :
      (p : A → Bool) (xs : List A) → All (λ x. p x ≡ true) xs → keep_where p xs ≡ xs
  keep_where-all p [] h = refl
  keep_where-all p (x ∷ xs) h = rw (h.0, keep_where-all p xs h.1) refl

  keep_where-true : (p : A → Bool) (xs : List A) → All (λ x. p x ≡ true) (keep_where p xs)
  keep_where-true p [] = tt
  keep_where-true p (x ∷ xs) = elim (Bool-cases (p x)) [
    | inl e ↦ rw (e, e) (refl, keep_where-true p xs)
    | inr e ↦ rw e (keep_where-true p xs)
  ]

  keep_where-within :
      (p q : A → Bool) (xs : List A)
      → ((x : A) → q x ≡ true → p x ≡ true)
      → keep_where q (keep_where p xs) ≡ keep_where q xs
  keep_where-within p q [] h = refl
  keep_where-within p q (x ∷ xs) h = elim (Bool-cases (p x)) [
    | inl e ↦ rw (e, keep_where-within p q xs h) refl
    | inr e ↦
        let no_q : q x ≡ false = ground (arith, h x) in rw (e, no_q) (keep_where-within p q xs h)
  ]

  pub keep_where-both :
      (p q : A → Bool) (xs : List A)
      → keep_where (λ x. p x && q x) xs ≡ keep_where q (keep_where p xs)
  keep_where-both p q [] = refl
  keep_where-both p q (x ∷ xs) = elim (Bool-cases (p x)) [
    | inl e ↦ rw (e, keep_where-both p q xs) refl
    | inr e ↦ rw e (keep_where-both p q xs)
  ]

  module _ (key : A → ℕ) where
    abbrev pub from : ℕ → A → Bool
    from c x = leb c (key x)

    Rises-keep_where : (p : A → Bool) (xs : List A) → Rises key xs → Rises key (keep_where p xs)
    unfolding Rises
    Rises-keep_where p [] h = tt
    Rises-keep_where p (x ∷ xs) h = elim (Bool-cases (p x)) [
      | inl e ↦ rw e (All-keep_where _ p xs h.0, Rises-keep_where p xs h.1)
      | inr e ↦ rw e (Rises-keep_where p xs h.1)
    ]

    -- A page ends in a row of the list, and the rows from the next key on are those after the page.
    turn :
        (n : ℕ) (x : A) (xs : List A)
        → Rises key (x ∷ xs)
        → (end : A) × (last (take (suc n) (x ∷ xs)) ≡ some end)
          × (keep_where (from (key end + 1)) (x ∷ xs) ≡ drop (suc n) (x ∷ xs))
          × (key x ≤ key end)
          × ((m : ℕ) → All (λ y. key y + 1 < m) (x ∷ xs) → key end + 1 < m)
    unfolding Rises
    turn zero x xs h =
        let out : from (key x + 1) x ≡ false = ground arith in
        (
          x,
          refl,
          rw out (keep_where-all _ xs (All-map _ _ xs (λ y p. ground arith) h.0)),
          omega arith,
          λ m a. a.0,
        )
    turn (suc n) x [] h =
        let out : from (key x + 1) x ≡ false = ground arith in
        (x, refl, rw out refl, omega arith, λ m a. a.0)
    turn (suc n) x (y ∷ xs) h =
        let (end, e, k, le, fits) = turn n y xs h.1 in
        let out : from (key end + 1) x ≡ false = ground (arith, h.0.0) in
        (end, e, rw out k, omega (arith, h.0.0), λ m a. fits m a.1)

    abbrev pub follow : (ℕ → List A) → List A → Option A → List A
    follow next page none = page
    follow next page (some end) = page ++ next ((key end + 1) % 2 ^ 32)

    -- Following the cursor page by page, with fuel.
    abbrev pub walk : ℕ → ℕ → List A → ℕ → List A
    walk n zero xs c = []
    walk n (suc fuel) xs c =
        let page = take n (keep_where (from c) xs) in follow (walk n fuel xs) page (last page)

    walk-step :
        (n fuel c : ℕ) (xs : List A) (y : A) (ys : List A)
        → Rises key xs
        → All (λ x. key x + 1 < 2 ^ 32) xs
        → keep_where (from c) xs ≡ y ∷ ys
        → ((c' : ℕ)
            → length (keep_where (from c') xs) ≤ length ys
            → walk (suc n) fuel xs c' ≡ keep_where (from c') xs)
        → walk (suc n) (suc fuel) xs c ≡ keep_where (from c) xs
    walk-step n fuel c xs y ys rises small e rest =
        let here = subst (Rises key) e (Rises-keep_where (from c) xs rises) in
        let (end, l, k, le, fits) = turn n y ys here in
        let later : from c y ≡ true = (subst (All _) e (keep_where-true (from c) xs)).0 in
        let next : keep_where (from (key end + 1)) xs ≡ drop (suc n) (y ∷ ys) =
          sym (keep_where-within (from c) (from (key end + 1)) xs (λ z q. ground arith))
          ∙ ap (keep_where (from (key end + 1))) e
          ∙ k in
        let bound = fits (2 ^ 32) (subst (All _) e (All-keep_where _ (from c) xs small)) in
        let wrap : (key end + 1) % 2 ^ 32 ≡ key end + 1 = omega (arith, bound) in
        let fewer = length-drop n y ys in
        let more = rest (key end + 1) (rw next fewer) in
        rw (e, l, wrap, more, next) (ap (λ zs. y ∷ zs) (take-drop n ys))

    pub walk-all :
        (n fuel c : ℕ) (xs : List A)
        → Rises key xs
        → All (λ x. key x + 1 < 2 ^ 32) xs
        → length (keep_where (from c) xs) < fuel
        → walk (suc n) fuel xs c ≡ keep_where (from c) xs
    walk-all n zero c xs rises small enough = absurd (omega arith)
    walk-all n (suc fuel) c xs rises small enough = elim (List-cases (keep_where (from c) xs)) [
      | inl e ↦ rw e refl
      | inr (y, ys, e) ↦
          walk-step n fuel c xs y ys rises small e
            (λ c' le. walk-all n fuel c' xs rises small (ground (arith, ap length e, le)))
    ]

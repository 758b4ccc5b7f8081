-- ===== src/Store/Ordering.antt =====
-- `ORDER BY` on a number (`sorted`): what is selected before it and after it is the same, and its
-- rows ascend where the number is a key.
use telegram_bot_delivery_en.Base.{
  ℕ, ◌+◌, ◌≤◌, ◌<◌, ◌≡◌, refl, sym, Bool, false, List, [], ◌∷◌, ltb, nat_beq, if◌then◌else◌, All,
  All-map, All-keep_where, keep_where, count_where, inl, inr, arith, Bool-cases,
}
use telegram_bot_delivery_en.Store.Sql.{sorted, insert_sorted}

module _ {ℓ} {A : Type ℓ} (key : A → ℕ) where
  abbrev pub by_key : A → A → Bool
  by_key x y = ltb (key x) (key y)

  abbrev pub Above : ℕ → List A → Type 0
  Above n = All (λ y. n ≤ key y)

  -- The keys do not fall, and the keys rise.
  unfoldable pub Ascends : List A → Type 0
  Ascends [] = Unit
  Ascends (x ∷ xs) = Above (key x) xs × Ascends xs

  unfoldable pub Rises : List A → Type 0
  Rises [] = Unit
  Rises (x ∷ xs) = All (λ y. key x < key y) xs × Rises xs

  insert-Above :
      (n : ℕ) (x : A) (ys : List A) → n ≤ key x → Above n ys → Above n (insert_sorted by_key x ys)
  unfolding insert_sorted
  insert-Above n x [] h a = (h, tt)
  insert-Above n x (y ∷ ys) h a = elim (Bool-cases (by_key y x)) [
    | inl e ↦ rw e (a.0, insert-Above n x ys h a.1)
    | inr e ↦ rw e (h, a)
  ]

  insert-Ascends : (x : A) (ys : List A) → Ascends ys → Ascends (insert_sorted by_key x ys)
  unfolding insert_sorted Ascends
  insert-Ascends x [] h = (tt, tt)
  insert-Ascends x (y ∷ ys) h = elim (Bool-cases (by_key y x)) [
    | inl e ↦ rw e (insert-Above (key y) x ys (ground arith) h.0, insert-Ascends x ys h.1)
    | inr e ↦
        let below : key x ≤ key y = ground arith in
        rw e ((below, All-map _ _ ys (λ z p. omega arith) h.0), h)
  ]

  pub sorted-Ascends : (xs : List A) → Ascends (sorted by_key xs)
  unfolding sorted Ascends
  sorted-Ascends [] = tt
  sorted-Ascends (x ∷ xs) = insert-Ascends x (sorted by_key xs) (sorted-Ascends xs)

  insert-first : (x : A) (ys : List A) → Above (key x) ys → insert_sorted by_key x ys ≡ x ∷ ys
  unfolding insert_sorted
  insert-first x [] a = refl
  insert-first x (y ∷ ys) a = let e : by_key y x ≡ false = ground arith in rw e refl

  keep_where-insert :
      (p : A → Bool) (x : A) (ys : List A)
      → Ascends ys
      → keep_where p (insert_sorted by_key x ys)
        ≡ (if p x then insert_sorted by_key x (keep_where p ys) else keep_where p ys)
  unfolding insert_sorted Ascends
  keep_where-insert p x [] h = ground arith
  keep_where-insert p x (y ∷ ys) h = elim (Bool-cases (by_key y x)) [
    | inl e ↦
        let ih = keep_where-insert p x ys h.1 in
        elim (Bool-cases (p y)) [
          | inl b ↦ elim (Bool-cases (p x)) [
            | inl c ↦ rw (e, b, ih, c, e) refl
            | inr c ↦ rw (e, b, ih, c) refl
          ]
          | inr b ↦ elim (Bool-cases (p x)) [
            | inl c ↦ rw (e, b, ih, c) refl
            | inr c ↦ rw (e, b, ih, c) refl
          ]
        ]
    | inr e ↦
        let below : key x ≤ key y = ground arith in
        let above : Above (key x) (y ∷ ys) = (below, All-map _ _ ys (λ z q. omega arith) h.0) in
        elim (Bool-cases (p x)) [
          | inl c ↦
              rw (e, c)
                (sym (insert-first x (keep_where p (y ∷ ys)) (All-keep_where _ p (y ∷ ys) above)))
          | inr c ↦ rw (e, c) refl
        ]
  ]

  pub sorted-keep_where :
      (p : A → Bool) (xs : List A)
      → sorted by_key (keep_where p xs) ≡ keep_where p (sorted by_key xs)
  unfolding sorted
  sorted-keep_where p [] = refl
  sorted-keep_where p (x ∷ xs) =
      let moved = keep_where-insert p x (sorted by_key xs) (sorted-Ascends xs) in
      elim (Bool-cases (p x)) [
        | inl c ↦ rw (c, moved, c, sorted-keep_where p xs) refl
        | inr c ↦ rw (c, moved, c) (sorted-keep_where p xs)
      ]

  count-insert :
      (q : A → Bool) (x : A) (ys : List A)
      → count_where q (insert_sorted by_key x ys) ≡ (if q x then 1 else 0) + count_where q ys
  unfolding insert_sorted
  count-insert q x [] = refl
  count-insert q x (y ∷ ys) = ground (arith, count-insert q x ys)

  pub count-sorted :
      (q : A → Bool) (xs : List A) → count_where q (sorted by_key xs) ≡ count_where q xs
  unfolding sorted
  count-sorted q [] = refl
  count-sorted q (x ∷ xs) = omega (arith, count-insert q x (sorted by_key xs), count-sorted q xs)

  -- The number is a key: it names one row at most.
  unfoldable pub Unique : List A → Type 0
  Unique xs = (n : ℕ) → count_where (λ x. nat_beq (key x) n) xs ≤ 1

  others :
      (n : ℕ) (ys : List A)
      → Above n ys
      → count_where (λ y. nat_beq (key y) n) ys ≡ 0
      → All (λ y. n < key y) ys
  others n [] a h = tt
  others n (y ∷ ys) a h = (ground (arith, a.0), others n ys a.1 (ground arith))

  Ascends-Rises :
      (xs : List A)
      → ((n : ℕ) → count_where (λ x. nat_beq (key x) n) xs ≤ 1)
      → Ascends xs
      → Rises xs
  unfolding Ascends Rises
  Ascends-Rises [] one h = tt
  Ascends-Rises (x ∷ xs) one h = (
    others (key x) xs h.0 (ground (arith, one (key x))),
    Ascends-Rises xs (λ n. ground (arith, one n)) h.1,
  )

  pub sorted-Rises : (xs : List A) → Unique xs → Rises (sorted by_key xs)
  unfolding Unique
  sorted-Rises xs one =
      Ascends-Rises (sorted by_key xs)
        (λ n. omega (arith, count-sorted (λ x. nat_beq (key x) n) xs, one n)) (sorted-Ascends xs)

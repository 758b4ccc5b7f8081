-- ===== src/Meta/Naming.antt =====
-- Names of the catalog (`method` and `is_non_bulk` of crates/telegram-api-meta/src/lib.rs).
use telegram_bot_delivery_en.Base.{
  ℕ, ◌≡◌, refl, sym, ◌∙◌, String, Bool, true, false, not, ◌&&◌, List, [], ◌∷◌, some, arith, nat_eq,
  any, find_where, All, All-both, All-map, Bool-cases, eq_of_test, inl, inr,
}
use telegram_bot_delivery_en.Meta.Spec.{MethodSpec}
use telegram_bot_delivery_en.Meta.Catalog.{methods}
use telegram_bot_delivery_en.Meta.Lookup.{
  eq_ignore_ascii_case, folded, codes_beq, method, is_non_bulk,
}

codes_eq : (x y : List ℕ) → codes_beq x y ≡ true → x ≡ y
codes_eq [] [] h = refl
codes_eq [] (b ∷ y) h = cc
codes_eq (a ∷ x) [] h = cc
codes_eq (a ∷ x) (b ∷ y) h =
    let head : a ≡ b = eq_of_test a b (ground arith) in
    let tail : x ≡ y = codes_eq x y (ground arith) in cc

codes_self : (x : List ℕ) → codes_beq x x ≡ true
codes_self [] = refl
codes_self (a ∷ x) = ground (arith, codes_self x)

-- No later entry of a list has the name of an earlier one, whatever the case of its letters.
distinct_names : List MethodSpec → Bool
distinct_names [] = true
distinct_names (m ∷ ms) =
    not (any (λ k. eq_ignore_ascii_case m.name k.name) ms) && distinct_names ms

no_alias : List MethodSpec → Bool
no_alias [] = true
no_alias (m ∷ ms) = not (is_non_bulk m.name) && no_alias ms

methods-distinct : distinct_names methods ≡ true
unfolding distinct_names
methods-distinct = refl

methods-no_alias : no_alias methods ≡ true
unfolding no_alias is_non_bulk
methods-no_alias = refl

-- A name that two names are equal to makes them equal.
same_name :
    (m k name : String)
    → eq_ignore_ascii_case m name ≡ true
    → eq_ignore_ascii_case k name ≡ true
    → eq_ignore_ascii_case m k ≡ true
same_name m k name h h' =
    rw (codes_eq (folded m) (folded name) h ∙ sym (codes_eq (folded k) (folded name) h'))
      (codes_self (folded k))

abbrev Means : List MethodSpec → MethodSpec → Type 0
Means ms m =
    (name : String)
    → eq_ignore_ascii_case m.name name ≡ true
    → find_where (λ k. eq_ignore_ascii_case k.name name) ms ≡ some m

apart :
    (x : MethodSpec) (ms : List MethodSpec)
    → any (λ k. eq_ignore_ascii_case x.name k.name) ms ≡ false
    → All (λ k. eq_ignore_ascii_case x.name k.name ≡ false) ms
apart x [] h = tt
apart x (k ∷ ms) h = (ground arith, apart x ms (ground arith))

skip_head :
    (x m : MethodSpec) (ms : List MethodSpec)
    → eq_ignore_ascii_case x.name m.name ≡ false
    → Means ms m
    → Means (x ∷ ms) m
skip_head x m ms away means name h = elim (Bool-cases (eq_ignore_ascii_case x.name name)) [
  | inl e ↦ absurd (cc (same_name x.name m.name name e h, away))
  | inr e ↦ rw e (means name h)
]

distinct-Means : (ms : List MethodSpec) → distinct_names ms ≡ true → All (Means ms) ms
unfolding distinct_names
distinct-Means [] h = tt
distinct-Means (x ∷ ms) h = (
  λ name e. rw e refl,
  All-map (λ m. (eq_ignore_ascii_case x.name m.name ≡ false) × Means ms m) (Means (x ∷ ms)) ms
      (λ m b. skip_head x m ms b.0 b.1)
      (All-both (λ m. eq_ignore_ascii_case x.name m.name ≡ false) (Means ms) ms
        (apart x ms (ground arith)) (distinct-Means ms (ground arith))),
)

bulk_only : (ms : List MethodSpec) → no_alias ms ≡ true → All (λ m. is_non_bulk m.name ≡ false) ms
unfolding no_alias
bulk_only [] h = tt
bulk_only (m ∷ ms) h = (ground arith, bulk_only ms (ground arith))

non_bulk_by_name :
    (m name : String)
    → eq_ignore_ascii_case m name ≡ true
    → is_non_bulk m ≡ false
    → is_non_bulk name ≡ false
unfolding is_non_bulk
non_bulk_by_name m name h e = rw (sym (codes_eq (folded m) (folded name) h)) e

-- Every method of the catalog is found by its name in any case of its letters, no other entry takes
-- its place, and no spelling of it is a method that bulk delivery refuses.
pub method-catalog :
    All
      (λ m.
        (name : String)
        → eq_ignore_ascii_case m.name name ≡ true
        → (method name ≡ some m) × (is_non_bulk name ≡ false))
      methods
unfolding method
method-catalog =
    All-map (λ m. Means methods m × (is_non_bulk m.name ≡ false))
      (λ m.
        (name : String)
        → eq_ignore_ascii_case m.name name ≡ true
        → (method name ≡ some m) × (is_non_bulk name ≡ false))
      methods (λ m b name h. (b.0 name h, non_bulk_by_name m.name name h b.1))
      (All-both (Means methods) (λ m. is_non_bulk m.name ≡ false) methods
        (distinct-Means methods methods-distinct) (bulk_only methods methods-no_alias))

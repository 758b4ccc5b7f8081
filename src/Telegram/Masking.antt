-- ===== src/Telegram/Masking.antt =====
-- Masking of Telegram's descriptions (`sanitize_desc` of
-- crates/telegram-bulk-delivery/src/telegram/classify.rs): runs of five digits or more, which may be
-- the ids of chats and users, are replaced.
use Prim.Native.Char.{Char, code}
use telegram_bot_delivery_en.Base.{
  ℕ, zero, suc, ◌+◌, ◌≤◌, ◌≡◌, refl, ap, subst, String, Bool, true, false, ◌&&◌, List, [], ◌∷◌,
  ◌++◌, leb, ltb, if◌then◌else◌, length, take, All, All-append, inl, inr, Bool-cases, arith,
}

abbrev pub chars : String → List Char
chars String.[] = []
chars (String.◌∷◌ c s) = c ∷ chars s

abbrev pub of_chars : List Char → String
of_chars [] = String.[]
of_chars (c ∷ cs) = String.◌∷◌ c (of_chars cs)

abbrev pub is_ascii_digit : Char → Bool
is_ascii_digit c = leb b'0' (code c) && leb (code c) b'9'

unfoldable pub flush : List Char → List Char
flush digits = if leb 5 (length digits) then chars "<n>" else digits

-- The digits since the last other character, and the rest.
unfoldable pub mask_from : List Char → List Char → List Char
unfolding flush
mask_from digits [] = flush digits
mask_from digits (c ∷ cs) =
    let more = mask_from (digits ++ (c ∷ [])) cs in
    let fresh = mask_from [] cs in if is_ascii_digit c then more else flush digits ++ c ∷ fresh

unfoldable pub sanitize_chars : List Char → List Char
unfolding mask_from
sanitize_chars cs = take 200 (mask_from [] cs)

unfoldable pub sanitize_desc : String → String
unfolding sanitize_chars
sanitize_desc s = of_chars (sanitize_chars (chars s))

-- No five digits in a row, after `k` digits before.
unfoldable pub short_runs : ℕ → List Char → Bool
short_runs k [] = true
short_runs k (c ∷ cs) =
    if is_ascii_digit c then ltb k 4 && short_runs (suc k) cs else short_runs 0 cs

short_runs-digits :
    (k : ℕ) (ds cs : List Char)
    → All (λ d. is_ascii_digit d ≡ true) ds
    → k + length ds ≤ 4
    → short_runs (k + length ds) cs ≡ true
    → short_runs k (ds ++ cs) ≡ true
unfolding short_runs
short_runs-digits k [] cs digits few h = let z : k + 0 ≡ k = omega arith in rw z at h
short_runs-digits k (d ∷ ds) cs digits few h =
    let z : k + suc (length ds) ≡ suc k + length ds = omega arith in
    let rest = short_runs-digits (suc k) ds cs digits.1 (omega arith) (rw z at h) in
    rw digits.0 (ground (arith, rest))

flush-short_runs :
    (ds cs : List Char)
    → All (λ d. is_ascii_digit d ≡ true) ds
    → ((k : ℕ) → k ≤ 4 → short_runs k cs ≡ true)
    → short_runs 0 (flush ds ++ cs) ≡ true
unfolding flush short_runs
flush-short_runs ds cs digits h = elim (Bool-cases (leb 5 (length ds))) [
  | inl e ↦ rw e (h 0 (omega arith))
  | inr e ↦ rw e (short_runs-digits 0 ds cs digits (ground arith) (h _ (ground arith)))
]

append_nil : (xs : List Char) → xs ++ [] ≡ xs
append_nil [] = refl
append_nil (x ∷ xs) = ap (λ ys. x ∷ ys) (append_nil xs)

-- A character that is no digit begins the count again.
other :
    (k : ℕ) (c : Char) (cs : List Char)
    → is_ascii_digit c ≡ false
    → short_runs 0 cs ≡ true
    → short_runs k (c ∷ cs) ≡ true
unfolding short_runs
other k c cs e h = rw e h

mask_from-short_runs :
    (ds cs : List Char)
    → All (λ d. is_ascii_digit d ≡ true) ds
    → short_runs 0 (mask_from ds cs) ≡ true
unfolding mask_from short_runs
mask_from-short_runs ds [] digits =
    subst (λ xs. short_runs 0 xs ≡ true) (append_nil (flush ds))
      (flush-short_runs ds [] digits (λ k le. refl))
mask_from-short_runs ds (c ∷ cs) digits = elim (Bool-cases (is_ascii_digit c)) [
  | inl e ↦
      rw e (mask_from-short_runs (ds ++ (c ∷ [])) cs (All-append _ ds (c ∷ []) digits (e, tt)))
  | inr e ↦ rw e (
      flush-short_runs ds (c ∷ mask_from [] cs) digits
        (λ k le. other k c (mask_from [] cs) e (mask_from-short_runs [] cs tt)))
]

short_runs-take :
    (n k : ℕ) (cs : List Char) → short_runs k cs ≡ true → short_runs k (take n cs) ≡ true
unfolding short_runs
short_runs-take zero k cs h = refl
short_runs-take (suc n) k [] h = refl
short_runs-take (suc n) k (c ∷ cs) h = elim (Bool-cases (is_ascii_digit c)) [
  | inl e ↦ rw e (ground (arith, short_runs-take n (suc k) cs))
  | inr e ↦ rw e (short_runs-take n 0 cs (rw e at h))
]

length-take_le : (n : ℕ) (cs : List Char) → length (take n cs) ≤ n
length-take_le zero cs = omega arith
length-take_le (suc n) [] = omega arith
length-take_le (suc n) (c ∷ cs) = omega (arith, length-take_le n cs)

-- A description that is kept has at most 200 characters, and no five digits in a row.
pub sanitize_chars-masked :
    (cs : List Char)
    → (short_runs 0 (sanitize_chars cs) ≡ true) × (length (sanitize_chars cs) ≤ 200)
unfolding sanitize_chars
sanitize_chars-masked cs = (
  short_runs-take 200 0 (mask_from [] cs) (mask_from-short_runs [] cs tt),
  length-take_le 200 (mask_from [] cs),
)

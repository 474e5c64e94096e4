-- ===== src/Semver/Identifiers.antt =====
-- mort/project.py: two numeric identifiers without leading zeros are the same if their numbers are.
use mort.Base.{
  ℕ, suc, ◌+◌, ◌*◌, ◌≤◌, ◌<◌, ◌≡◌, ◌≢◌, ◌⊎◌, inl, inr, refl, ap₂, sym, ◌∙◌, true, false, [], ◌∷◌,
  ◌==◌, leb, length, Text, arith, and-eq-true, Bool-cases,
}
use mort.Lexer.Cursor.{is_digit}
use mort.Lexer.Number.{digits, digit_value}
use mort.Semver.Version.{all_digits, is_numeric, leading_zero}

digit_value-digit : (c : ℕ) → is_digit c ≡ true → digit_value c + 48 ≡ c
digit_value-digit c h = ground arith

digit_small : (c : ℕ) → is_digit c ≡ true → c ≤ 57
digit_small c h = ground arith

-- Of texts of one length, the number decides the digits and what was read before them.
same_length :
    (a b : ℕ) (xs ys : Text)
    → all_digits xs ≡ true
    → all_digits ys ≡ true
    → length xs ≡ length ys
    → digits 10 a xs ≡ digits 10 b ys
    → (a ≡ b) × (xs ≡ ys)
unfolding digits all_digits
same_length a b [] [] h k l e = (e, refl)
same_length a b [] (y ∷ ys) h k l e = absurd (omega (arith, l))
same_length a b (x ∷ xs) [] h k l e = absurd (omega (arith, l))
same_length a b (x ∷ xs) (y ∷ ys) h k l e =
    let hs = and-eq-true (is_digit x) (all_digits xs) h in
    let ks = and-eq-true (is_digit y) (all_digits ys) k in
    let r =
      same_length (a * 10 + digit_value x) (b * 10 + digit_value y) xs ys hs.1 ks.1
        (omega (arith, l)) e in
    (
      omega (
        arith,
        r.0,
        digit_value-digit x hs.0,
        digit_value-digit y ks.0,
        digit_small x hs.0,
        digit_small y ks.0,
      ),
      ap₂ (λ c cs. c ∷ cs)
          (omega (
            arith,
            r.0,
            digit_value-digit x hs.0,
            digit_value-digit y ks.0,
            digit_small x hs.0,
            digit_small y ks.0,
          ))
          r.1,
    )

digits_split :
    (y : ℕ) (ys : Text) → all_digits (y ∷ ys) ≡ true → (is_digit y ≡ true) × (all_digits ys ≡ true)
unfolding all_digits
digits_split y ys k = and-eq-true (is_digit y) (all_digits ys) k

digits_step : (b y : ℕ) (ys : Text) → digits 10 b (y ∷ ys) ≡ digits 10 (b * 10 + digit_value y) ys
unfolding digits
digits_step b y ys = refl

at_most : (a b : ℕ) → leb a b ≡ true → a ≤ b
at_most a b h = ground arith

more_than : (a b : ℕ) → leb a b ≡ false → b ≤ a
more_than a b h = ground arith

just_one : (a b : ℕ) → leb a b ≡ false → a ≤ suc b → a ≡ suc b
just_one a b h l = ground arith

above_48 : (y : ℕ) → is_digit y ≡ true → (y == 48) ≡ false → 49 ≤ y
above_48 y d h = ground arith

empty_shorter : (n : ℕ) (ys : Text) → ys ≡ [] → leb (suc n) (length ys) ≡ true → ⊥
empty_shorter n [] h q = ground arith
empty_shorter n (y ∷ ys) h q = absurd (cc h)

-- What was read before counts, where no fewer digits follow.
longer-ne :
    (b : ℕ) (xs ys : Text)
    → 0 < b
    → all_digits xs ≡ true
    → all_digits ys ≡ true
    → length xs ≤ length ys
    → digits 10 0 xs ≢ digits 10 b ys
longer-ne b xs [] p h k l e =
    absurd (omega (arith, (same_length 0 b xs [] h k (omega (arith, l)) e).0))
longer-ne b xs (y ∷ ys) p h k l e = elim (Bool-cases (leb (length xs) (length ys))) [
  | inl q ↦
      longer-ne (b * 10 + digit_value y) xs ys (omega (arith, p)) h (digits_split y ys k).1
        (at_most (length xs) (length ys) q) (e ∙ digits_step b y ys)
  | inr q ↦ absurd (
      omega
        (arith, p, (same_length 0 b xs (y ∷ ys) h k (just_one (length xs) (length ys) q l) e).0))
]

-- A numeric identifier without leading zeros: zero alone, or a digit above zero first.
starts_above :
    (y : ℕ) (ys : Text)
    → is_digit y ≡ true
    → leading_zero (y ∷ ys) ≡ false
    → (ys ≡ []) ⊎ (0 < digit_value y)
starts_above y [] d h = inl refl
starts_above y (z ∷ zs) d h = inr (omega (arith, digit_value-digit y d, above_48 y d h))

not_longer-eq :
    (xs ys : Text)
    → is_numeric xs ≡ true
    → is_numeric ys ≡ true
    → leading_zero ys ≡ false
    → length xs ≤ length ys
    → digits 10 0 xs ≡ digits 10 0 ys
    → xs ≡ ys
not_longer-eq [] ys h k z l e = absurd (cc h)
not_longer-eq (x ∷ xs) [] h k z l e = absurd (omega (arith, l))
not_longer-eq (x ∷ xs) (y ∷ ys) h k z l e = elim (Bool-cases (leb (suc (length xs)) (length ys))) [
  | inl q ↦ elim (starts_above y ys (digits_split y ys k).0 z) [
    | inl n ↦ absurd (empty_shorter (length xs) ys n q)
    | inr p ↦ absurd (
        longer-ne (0 * 10 + digit_value y) (x ∷ xs) ys (omega (arith, p)) h (digits_split y ys k).1
          (at_most (suc (length xs)) (length ys) q) (e ∙ digits_step 0 y ys))
  ]
  | inr q ↦ (same_length 0 0 (x ∷ xs) (y ∷ ys) h k (just_one (suc (length xs)) (length ys) q l) e).1
]

-- Numeric identifiers without leading zeros are the same if their numbers are.
pub same_number-eq :
    (xs ys : Text)
    → is_numeric xs ≡ true
    → is_numeric ys ≡ true
    → leading_zero xs ≡ false
    → leading_zero ys ≡ false
    → digits 10 0 xs ≡ digits 10 0 ys
    → xs ≡ ys
same_number-eq xs ys h k y z e = elim (Bool-cases (leb (length xs) (length ys))) [
  | inl q ↦ not_longer-eq xs ys h k z (at_most (length xs) (length ys) q) e
  | inr q ↦ sym (not_longer-eq ys xs k h y (more_than (length xs) (length ys) q) (sym e))
]

-- ===== src/Lexer/Number/Decimals.antt =====
-- mort/lexer.py, `Lexer._number`: decimal integer literals, with separators and of any length.
use mort.Base.{
  ℕ, ◌+◌, ◌*◌, ◌^◌, ◌≤◌, ◌<◌, ◌≡◌, refl, ap, ◌∙◌, Bool, true, false, ◌&&◌, ◌||◌, [], ◌∷◌, ◌++◌,
  Option, ◌==◌, ltb, length, get_or, Text, elem, remove, All, arith,
}
use mort.Base.Result.{ok, raise, ◌>>=◌}
use mort.Lexer.Cursor.{Cursor, scan_on, is_digit, is_letter, Unicode}
use mort.Errors.{value_error}
use mort.Lexer.Number.{
  Scanned, make, digits, digit_value, int_decimal, max_str_digits, is_separator, bad_separators,
  decimal_rest, is_dot, number,
}
use native.Mathlib.Nat.{pow-suc, add-zero, mul-one}
use Prim.Native.Nat.pow
use mort.Lexer.Progress.{line_after, col_after}
use mort.Token.{TokenType, int}

abbrev pub here : Text → ℕ → ℕ → Cursor
here s l k = record { rest = s; line = l; col = k }

-- The scanning loop reads the longest front whose characters pass its test.
pub scan_on-front :
    (test : ℕ → Bool) (s rest : Text) (l k : ℕ)
    → All (λ c. test c ≡ true) s
    → test (get_or rest 0 0) ≡ false
    → scan_on test (s ++ rest) l k ≡ (s, here rest (line_after s l) (col_after s k))
unfolding scan_on
scan_on-front test [] [] l k h e = refl
scan_on-front test [] (c ∷ cs) l k h e = rw e
scan_on-front test (x ∷ s) rest l k (t, h) e = rw (t, scan_on-front test s rest _ _ h e)

abbrev is_decimal : ℕ → Bool
is_decimal c = is_digit c || is_separator c

-- The text `s` is the whole literal: it begins with a digit, holds digits and separators, and the
-- source goes on with what is no part of a number.
pub record IsLiteral (u : Unicode) (s rest : Text) : Type 0 where
  pub starts_digit : is_digit (get_or s 0 0) ≡ true
  pub all_decimal : All (λ c. is_digit c || is_separator c ≡ true) s
  pub separated : bad_separators s ≡ false
  pub not_alnum : u.is_alnum (get_or rest 0 0) ≡ false
  pub not_separator : (get_or rest 0 0 == b'_') ≡ false
  pub no_fraction : (get_or rest 0 0 == b'.' && is_digit (get_or rest 1 0)) ≡ false

no_letter :
    (c a b : ℕ)
    → is_letter c ≡ false
    → is_letter a ≡ true
    → is_letter b ≡ true
    → elem c (a ∷ (b ∷ [])) ≡ false
no_letter c a b h p q = ground arith

and-false : (b c : Bool) → c ≡ false → (b && c) ≡ false
and-false b c h = ground arith

not_longer : (n : ℕ) → n ≤ max_str_digits → ltb max_str_digits n ≡ false
not_longer n h = ground arith

longer : (n : ℕ) → max_str_digits < n → ltb max_str_digits n ≡ true
longer n h = ground arith

-- The number that digits spell: each times the base to its place.
abbrev pub place_value : ℕ → Text → ℕ
place_value base [] = 0
place_value base (c ∷ cs) = digit_value c * base ^ length cs + place_value base cs

digits-place_value :
    (base acc : ℕ) (s : Text) → digits base acc s ≡ acc * base ^ length s + place_value base s
unfolding digits
digits-place_value base acc [] = simp (pow.zero, mul-one, add-zero)
digits-place_value base acc (c ∷ cs) =
    digits-place_value base (acc * base + digit_value c) cs ∙ rw pow-suc (omega arith)

digits-eq-place_value : (base : ℕ) (s : Text) → digits base 0 s ≡ place_value base s
digits-eq-place_value base s = digits-place_value base 0 s ∙ omega arith

module _ (u : Unicode) where
  not_letter : (c : ℕ) → u.is_alnum c ≡ false → is_letter c ≡ false
  not_letter c h = ground (arith, u.is_alnum_ascii c)

  not_digit : (c : ℕ) → u.is_alnum c ≡ false → is_digit c ≡ false
  not_digit c h = ground (arith, u.is_alnum_ascii c)

  not_alpha : (c : ℕ) → u.is_alnum c ≡ false → u.is_alpha c ≡ false
  not_alpha c h = ground (arith, u.is_alnum_of_alpha c)

  module _ (s rest : Text) (i : IsLiteral u s rest) where
    second_not_letter :
        (a : Text) → All (λ c. is_decimal c ≡ true) a → is_letter (get_or (a ++ rest) 0 0) ≡ false
    second_not_letter [] h = not_letter _ i.not_alnum
    second_not_letter (x ∷ a) h = ground (arith, h.0)

    decimal_rest-literal :
        (l k line col : ℕ)
        → decimal_rest u s (here rest l k) line col ≡ (
            int_decimal (remove b'_' s) >>= λ n.
            ok (make TokenType.int (int n) line col, here rest l k))
    unfolding decimal_rest
    decimal_rest-literal l k line col =
        rw (i.separated, i.no_fraction, i.not_separator, not_alpha _ i.not_alnum)
          (rw (no_letter _ b'e' b'E' (not_letter _ i.not_alnum) refl refl))

  no_prefix :
      (x a b : ℕ) (s rest : Text)
      → IsLiteral u (x ∷ s) rest
      → is_letter a ≡ true
      → is_letter b ≡ true
      → (x == b'0' && elem (get_or (s ++ rest) 0 0) (a ∷ (b ∷ []))) ≡ false
  no_prefix x a b s rest i p q =
      and-false (x == b'0') _
        (no_letter _ a b (second_not_letter (x ∷ s) rest i s i.all_decimal.1) p q)

  -- The token that a literal gives.
  abbrev integer_token : Text → Text → ℕ → ℕ → ℕ → ℕ → Scanned
  integer_token s rest l k line col = int_decimal (remove b'_' s) >>= λ n.
      ok (make TokenType.int (int n) line col, here rest (line_after s l) (col_after s k))

  number-literal :
      (last : Option TokenType) (s rest : Text) (l k line col : ℕ)
      → is_dot last ≡ false
      → IsLiteral u s rest
      → number u last (here (s ++ rest) l k) line col ≡ integer_token s rest l k line col
  unfolding number
  number-literal last [] rest l k line col d i = absurd (cc i.starts_digit)
  number-literal last (x ∷ s) rest l k line col d i =
      rw
        (
          d,
          no_prefix x b'x' b'X' s rest i refl refl,
          no_prefix x b'b' b'B' s rest i refl refl,
          no_prefix x b'o' b'O' s rest i refl refl,
        )
        (ap (λ (r : Text × Cursor). decimal_rest u r.0 r.1 line col)
            (scan_on-front is_decimal (x ∷ s) rest l k i.all_decimal
              (rw (not_digit _ i.not_alnum, i.not_separator)))
          ∙ decimal_rest-literal (x ∷ s) rest i _ _ line col)

  -- A decimal literal that is not behind a dot, of at most 4300 digits, gives an integer token: the
  -- number that its digits spell when the separators are taken out; the cursor is behind the literal.
  pub number_decimal :
      (last : Option TokenType) (s rest : Text) (l k line col : ℕ)
      → is_dot last ≡ false
      → IsLiteral u s rest
      → length (remove b'_' s) ≤ max_str_digits
      → number u last (here (s ++ rest) l k) line col
        ≡ ok (
          make TokenType.int (int (place_value 10 (remove b'_' s))) line col,
          here rest (line_after s l) (col_after s k),
        )
  unfolding int_decimal
  number_decimal last s rest l k line col d i h =
      number-literal last s rest l k line col d i ∙ rw (not_longer _ h, digits-eq-place_value)

  -- A decimal literal that is not behind a dot, of more than 4300 digits, makes the lexer raise the
  -- ValueError of `int()`, which is no MortError.
  pub number_overflow :
      (last : Option TokenType) (s rest : Text) (l k line col : ℕ)
      → is_dot last ≡ false
      → IsLiteral u s rest
      → max_str_digits < length (remove b'_' s)
      → number u last (here (s ++ rest) l k) line col ≡ raise value_error
  unfolding int_decimal
  number_overflow last s rest l k line col d i h =
      number-literal last s rest l k line col d i ∙ rw (longer _ h)

-- ===== src/Lexer/Progress/Numbers.antt =====
-- mort/lexer.py, `Lexer._number`: it ends in an integer or a finite float, one character on at least.
use mort.Base.{
  ℕ, ◌+◌, ◌≡◌, refl, Bool, true, false, not, ◌&&◌, ◌||◌, [], ◌∷◌, ◌++◌, Option, ◌==◌, ltb, leb, suc,
  length, Text, codes, elem, remove, arith, Bool-cases, inl, inr, and-eq-true,
}
use mort.Base.Result.{ok, ◌>>=◌}
use mort.Lexer.Cursor.{Cursor, peek, scan, is_digit, Unicode}
use mort.Errors.{Message}
use mort.Lexer.Number.{
  Scanned, int_decimal, bad_separators, is_finite, decimal, ends_badly, tuple_index, hex_digits,
  radix_digits, sign, exponent, exponent_digits, finish_float, fraction_literal, decimal_rest,
  skip_two, is_dot, number, is_separator, is_hex, is_empty,
}
use mort.Lexer.Progress.Fits.{Placed, integer, floating}
use mort.Lexer.Progress.{
  Reads, Ensures, holds, refused, too_long, Ensures-weaken, Ensures-stay, Ensures-move, Ensures-if,
  Ensures-bind, advance-Ensures, scan-Reads, scan-Reads_one, skip_two-Reads, ne-nil_of_peek,
  Reads-refl,
}
use mort.Token.{TokenType, Token}

abbrev pub Any {ℓ} : {A : Type ℓ} → A → Type 0
Any a = Unit

digit_ne_zero : (x : ℕ) → is_digit x ≡ true → (x == 0) ≡ false
digit_ne_zero x h = ground arith

-- `int()` of the text, at a cursor: the value of a token, or a ValueError.
int_decimal-Ensures :
    {c d : Cursor} {n : ℕ} (s : Text) (line col : ℕ)
    → Reads c n d
    → Ensures (Placed line col) c n (
        int_decimal s >>= λ n.
        ok (record { type = TokenType.int; value = mort.Token.int n; line = line; col = col }, d))
unfolding int_decimal
int_decimal-Ensures s line col r = elim (Bool-cases (ltb 4300 (length s))) [
  | inl e ↦ rw e too_long
  | inr e ↦ rw e (holds (record { line_is = refl; col_is = refl; fits = integer _ }) r)
]

pub not-false : (b : Bool) → not b ≡ false → b ≡ true
not-false true h = refl
not-false false h = cc

-- A character of a text without NUL is not NUL.
letter_ne_zero : (x a b : ℕ) → elem x (suc a ∷ (suc b ∷ [])) ≡ true → (x == 0) ≡ false
letter_ne_zero x a b h = ground arith

sign-Ensures : (c : Cursor) → Ensures Any c 0 (sign c)
unfolding sign
sign-Ensures c =
    Ensures-if (elem (peek c 0) (codes "+-"))
      (λ h. Ensures-weaken (omega arith) (
        Ensures-bind 0 _ (advance-Ensures c (ne-nil_of_peek c (letter_ne_zero _ _ _ h)))
          λ x c' _ _. Ensures-stay c' tt))
      (λ _. Ensures-stay c tt)

exponent_digits-Ensures :
    (s : Text) (c : Cursor) (line col : ℕ) → Ensures Any c 0 (exponent_digits s c line col)
exponent_digits-Ensures s c line col =
    Ensures-if (is_digit (peek c 0)) (λ _. holds tt (scan-Reads is_digit c)) (λ _. refused)

exponent-Ensures :
    (s : Text) (c : Cursor) (line col : ℕ)
    → elem (peek c 0) (codes "eE") ≡ true
    → Ensures Any c 1 (exponent s c line col)
unfolding exponent
exponent-Ensures s c line col h =
    Ensures-bind 0 _ (advance-Ensures c (ne-nil_of_peek c (letter_ne_zero _ _ _ h))) λ e c1 _ _.
      Ensures-bind 0 _ (sign-Ensures c1)
        λ marked c2 _ _. exponent_digits-Ensures (s ++ (e ∷ marked)) c2 line col

-- Behind a prefix of two characters.
prefixed :
    {line col : ℕ} (c : Cursor) {f : Cursor → Scanned}
    → (peek c 1 == 0) ≡ false
    → ((d : Cursor) → Ensures (Placed line col) d 0 (f d))
    → Ensures (Placed line col) c 1 (skip_two c >>= f)
prefixed c h k =
    let (d, e, r) = skip_two-Reads c h in rw e (Ensures-weaken (omega arith) (Ensures-move r (k d)))

module _ (u : Unicode) where
  tuple_index-Ensures :
      (c : Cursor) (line col : ℕ)
      → is_digit (peek c 0) ≡ true
      → Ensures (Placed line col) c 1 (tuple_index u c line col)
  unfolding tuple_index
  tuple_index-Ensures c line col h =
      let s = scan is_digit c in
      Ensures-if (u.is_alpha (peek s.1 0) || peek s.1 0 == b'_') (λ _. refused)
        (λ _.
          int_decimal-Ensures s.0 line col
            (scan-Reads_one is_digit c (ne-nil_of_peek c (digit_ne_zero _ h)) h))

  hex_digits-Ensures :
      (c : Cursor) (line col : ℕ) → Ensures (Placed line col) c 0 (hex_digits u c line col)
  unfolding hex_digits
  hex_digits-Ensures c line col =
      let s = scan (λ x. is_hex x || is_separator x) c in
      Ensures-if (is_empty s.0 || bad_separators s.0) (λ _. refused)
        (λ _.
          Ensures-if (ends_badly u s.1) (λ _. refused)
            (λ _.
              holds (record { line_is = refl; col_is = refl; fits = integer _ }) (scan-Reads _ c)))

  radix_digits-Ensures :
      (base : ℕ) (m : Message) (c : Cursor) (line col : ℕ)
      → Ensures (Placed line col) c 0 (radix_digits u base m c line col)
  unfolding radix_digits
  radix_digits-Ensures base m c line col =
      let s = scan (λ x. (leb b'0' x && ltb x (b'0' + base)) || is_separator x) c in
      Ensures-if (is_empty s.0 || bad_separators s.0 || ends_badly u s.1) (λ _. refused)
        (λ _. holds (record { line_is = refl; col_is = refl; fits = integer _ }) (scan-Reads _ c))

  finish_float-Ensures :
      (s : Text) (c : Cursor) (line col : ℕ)
      → Ensures (Placed line col) c 0 (finish_float u s c line col)
  unfolding finish_float
  finish_float-Ensures s c line col =
      Ensures-if (ends_badly u c) (λ _. refused)
        (λ _.
          Ensures-if (not (is_finite (decimal (remove b'_' s)))) (λ _. refused)
            (λ h.
              Ensures-stay c
                (record { line_is = refl; col_is = refl; fits = floating _ (not-false _ h) })))

  fraction_literal-Ensures :
      (s : Text) (c : Cursor) (line col : ℕ)
      → (peek c 0 == b'.') ≡ true
      → Ensures (Placed line col) c 1 (fraction_literal u s c line col)
  unfolding fraction_literal
  fraction_literal-Ensures s c line col h =
      Ensures-bind 0 _ (advance-Ensures c (ne-nil_of_peek c (ground arith))) λ point c1 _ _.
        let d = scan is_digit c1 in
        let s1 = s ++ (point ∷ d.0) in
        Ensures-move (scan-Reads is_digit c1) (
          Ensures-bind {P = Any} 0 _
            (Ensures-if (elem (peek d.1 0) (codes "eE"))
              (λ e. Ensures-weaken (omega arith) (exponent-Ensures s1 d.1 line col e))
              (λ _. Ensures-stay d.1 tt))
            λ s2 c2 _ _. finish_float-Ensures s2 c2 line col)

  decimal_rest-Ensures :
      (s : Text) (c : Cursor) (line col : ℕ)
      → Ensures (Placed line col) c 0 (decimal_rest u s c line col)
  unfolding decimal_rest
  decimal_rest-Ensures s c line col =
      Ensures-if (bad_separators s) (λ _. refused)
        (λ _.
          Ensures-if (peek c 0 == b'.' && is_digit (peek c 1))
            (λ h.
              Ensures-weaken (omega arith)
                (fraction_literal-Ensures s c line col (and-eq-true _ _ h).0))
            (λ _.
              Ensures-if (elem (peek c 0) (codes "eE"))
                (λ e. Ensures-weaken (omega arith) (
                  Ensures-bind 0 _ (exponent-Ensures s c line col e)
                    λ s' c' _ _. finish_float-Ensures s' c' line col))
                (λ _.
                  Ensures-if (u.is_alpha (peek c 0) || peek c 0 == b'_') (λ _. refused)
                    (λ _. int_decimal-Ensures (remove b'_' s) line col (Reads-refl c)))))

  -- `_number` at a digit ends in a number token, at least one character on.
  pub number-Ensures :
      (last : Option TokenType) (c : Cursor) (line col : ℕ)
      → is_digit (peek c 0) ≡ true
      → Ensures (Placed line col) c 1 (number u last c line col)
  unfolding number
  number-Ensures last c line col h =
      Ensures-if (is_dot last) (λ _. tuple_index-Ensures c line col h)
        (λ _.
          Ensures-if (peek c 0 == b'0' && elem (peek c 1) (codes "xX"))
            (λ e.
              prefixed c (letter_ne_zero _ 119 87 (and-eq-true (peek c 0 == b'0') _ e).1)
                λ d. hex_digits-Ensures d line col)
            (λ _.
              Ensures-if (peek c 0 == b'0' && elem (peek c 1) (codes "bB"))
                (λ e.
                  prefixed c (letter_ne_zero _ 97 65 (and-eq-true (peek c 0 == b'0') _ e).1)
                    λ d. radix_digits-Ensures 2 _ d line col)
                (λ _.
                  Ensures-if (peek c 0 == b'0' && elem (peek c 1) (codes "oO"))
                    (λ e.
                      prefixed c (letter_ne_zero _ 110 78 (and-eq-true (peek c 0 == b'0') _ e).1)
                        λ d. radix_digits-Ensures 8 _ d line col)
                    (λ _.
                      let s = scan (λ x. is_digit x || is_separator x) c in
                      Ensures-move
                        (scan-Reads_one (λ x. is_digit x || is_separator x) c
                          (ne-nil_of_peek c (digit_ne_zero _ h)) (rw h))
                        (decimal_rest-Ensures s.0 s.1 line col)))))

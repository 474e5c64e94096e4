-- ===== src/Lexer/Progress/Symbols.antt =====
-- mort/lexer.py, `Lexer._symbol`: it ends in an operator, one character on at least.
use mort.Base.{
  ℕ, ◌≡◌, ◌≢◌, refl, Bool, true, false, not, ◌&&◌, [], ◌∷◌, ◌==◌, Option, none, some, Text, lookup,
  all_keys-lookup, inl, inr, arith,
}
use mort.Lexer.Cursor.{Cursor, peek}
use mort.Lexer.Progress.Fits.{Placed, fixed}
use mort.Lexer.Progress.{
  Ensures, holds, refused, Ensures-weaken, Ensures-stay, Ensures-bind, advance-Ensures,
  skip_two-Reads, ne-nil_of_peek, Reads-weaken,
}
use mort.Token.{TokenType}
use mort.Lexer.Symbol.{
  one, two, three, one_symbol, two_symbol, three_symbol, symbol, one_char, two_char, three_char,
}

-- No key of the tables holds NUL behind its first character.
abbrev tail_full : Text → Bool
tail_full [] = true
tail_full (c ∷ s) = full s
  where
    full : Text → Bool
    full [] = true
    full (d ∷ t) = not (d == 0) && full t

pub three_full :
    (c a b : ℕ) {t : TokenType}
    → lookup (c ∷ (a ∷ (b ∷ []))) three_char ≡ some t
    → ((a == 0) ≡ false) × ((b == 0) ≡ false)
three_full c a b e =
    ground (arith, all_keys-lookup tail_full (c ∷ (a ∷ (b ∷ []))) three_char refl e)

pub two_full :
    (c a : ℕ) {t : TokenType} → lookup (c ∷ (a ∷ [])) two_char ≡ some t → (a == 0) ≡ false
two_full c a e = ground (arith, all_keys-lookup tail_full (c ∷ (a ∷ [])) two_char refl e)

one_symbol-Ensures :
    (found : Option TokenType) (c : ℕ) (c1 : Cursor) (line col : ℕ)
    → lookup (one c) one_char ≡ found
    → Ensures (Placed line col) c1 0 (one_symbol found c c1 line col)
unfolding one_symbol
one_symbol-Ensures (some t) c c1 line col e =
    Ensures-stay c1 (record { line_is = refl; col_is = refl; fits = fixed _ t (inr (inr (inr e))) })
one_symbol-Ensures none c c1 line col e = refused

two_symbol-Ensures :
    (found : Option TokenType) (c : ℕ) (c1 : Cursor) (line col : ℕ)
    → lookup (two c c1) two_char ≡ found
    → Ensures (Placed line col) c1 0 (two_symbol found c c1 line col)
unfolding two_symbol
two_symbol-Ensures (some t) c c1 line col e = Ensures-weaken (omega arith) (
    Ensures-bind 0 _ (advance-Ensures c1 (ne-nil_of_peek c1 (two_full c (peek c1 0) e))) λ x c2 _ _.
      Ensures-stay c2
        (record { line_is = refl; col_is = refl; fits = fixed _ t (inr (inr (inl e))) }))
two_symbol-Ensures none c c1 line col e =
    one_symbol-Ensures (lookup (one c) one_char) c c1 line col refl

three_symbol-Ensures :
    (found : Option TokenType) (c : ℕ) (c1 : Cursor) (line col : ℕ)
    → lookup (three c c1) three_char ≡ found
    → Ensures (Placed line col) c1 0 (three_symbol found c c1 line col)
unfolding three_symbol
three_symbol-Ensures (some t) c c1 line col e =
    let (d, skipped, r) = skip_two-Reads c1 (three_full c (peek c1 0) (peek c1 1) e).1 in
    rw skipped (
      holds (record { line_is = refl; col_is = refl; fits = fixed _ t (inr (inl e)) })
        (Reads-weaken (omega arith) r))
three_symbol-Ensures none c c1 line col e =
    two_symbol-Ensures (lookup (two c c1) two_char) c c1 line col refl

-- `_symbol` at a character ends in an operator of the tables.
pub symbol-Ensures :
    (c : Cursor) (line col : ℕ) → c.rest ≢ [] → Ensures (Placed line col) c 1 (symbol c line col)
unfolding symbol
symbol-Ensures c line col h =
    Ensures-bind 0 _ (advance-Ensures c h)
      λ x c1 _ _. three_symbol-Ensures (lookup (three x c1) three_char) x c1 line col refl

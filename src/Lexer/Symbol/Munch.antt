-- ===== src/Lexer/Symbol/Munch.antt =====
-- mort/lexer.py, `Lexer._symbol`: the operator that it takes is the longest that begins the source.
use mort.Base.{
  ℕ, ◌≤◌, ◌≡◌, ◌≢◌, refl, true, false, [], ◌∷◌, ◌++◌, Option, none, some, ◌==◌, length, get_or,
  Text, lookup, all_keys-lookup, starts, ◌⊎◌, inl, inr, arith, Bool-cases,
}
use mort.Base.Result.{ok, raise}
use mort.Lexer.Cursor.{Cursor}
use mort.Errors.{mort_error, unexpected_character}
use mort.Lexer.Number.{Scanned}
use mort.Lexer.Symbol.{one_char, two_char, three_char, one_symbol, two_symbol, three_symbol, symbol}
use mort.Lexer.Progress.Symbols.{two_full, three_full}
use mort.Token.{TokenType, Token, str}

-- The text `w` is an operator of one of the tables, of type `t`.
abbrev pub IsOperator : Text → TokenType → Type 0
IsOperator w t =
    (lookup w three_char ≡ some t) ⊎ (lookup w two_char ≡ some t) ⊎ (lookup w one_char ≡ some t)

three_length : (w : Text) {t : TokenType} → lookup w three_char ≡ some t → length w ≡ 3
three_length w e = ground (arith, all_keys-lookup (λ s. length s == 3) w three_char refl e)

two_length : (w : Text) {t : TokenType} → lookup w two_char ≡ some t → length w ≡ 2
two_length w e = ground (arith, all_keys-lookup (λ s. length s == 2) w two_char refl e)

one_length : (w : Text) {t : TokenType} → lookup w one_char ≡ some t → length w ≡ 1
one_length w e = ground (arith, all_keys-lookup (λ s. length s == 1) w one_char refl e)

operator-le-three : (w : Text) (t : TokenType) → IsOperator w t → length w ≤ 3
operator-le-three w t (inl e) = omega (arith, three_length w e)
operator-le-three w t (inr (inl e)) = omega (arith, two_length w e)
operator-le-three w t (inr (inr e)) = omega (arith, one_length w e)

-- A front of the source of one, two or three characters is the text that `_symbol` tries.
front_one : (w : Text) (x : ℕ) (s : Text) → length w ≡ 1 → starts w (x ∷ s) ≡ true → w ≡ x ∷ []
front_one [] x s n h = cc
front_one (a ∷ []) x s n h = ground arith
front_one (a ∷ (b ∷ w)) x s n h = absurd (omega arith)

front_two :
    (w : Text) (x : ℕ) (s : Text)
    → length w ≡ 2
    → starts w (x ∷ s) ≡ true
    → w ≡ x ∷ (get_or s 0 0 ∷ [])
front_two [] x s n h = cc
front_two (a ∷ []) x s n h = absurd (omega arith)
front_two (a ∷ (b ∷ [])) x [] n h = ground arith
front_two (a ∷ (b ∷ [])) x (y ∷ s) n h = ground arith
front_two (a ∷ (b ∷ (c ∷ w))) x s n h = absurd (omega arith)

front_three :
    (w : Text) (x : ℕ) (s : Text)
    → length w ≡ 3
    → starts w (x ∷ s) ≡ true
    → w ≡ x ∷ (get_or s 0 0 ∷ (get_or s 1 0 ∷ []))
front_three [] x s n h = cc
front_three (a ∷ []) x s n h = absurd (omega arith)
front_three (a ∷ (b ∷ [])) x s n h = absurd (omega arith)
front_three (a ∷ (b ∷ (c ∷ []))) x [] n h = ground arith
front_three (a ∷ (b ∷ (c ∷ []))) x (y ∷ []) n h = ground arith
front_three (a ∷ (b ∷ (c ∷ []))) x (y ∷ (z ∷ s)) n h = ground arith
front_three (a ∷ (b ∷ (c ∷ (d ∷ w)))) x s n h = absurd (omega arith)

abbrev here : Text → ℕ → ℕ → Cursor
here s l k = record { rest = s; line = l; col = k }

-- What `_symbol` makes of a source: its longest operator, or an error if it begins with none.
pub data Munches (src : Text) : Scanned → Type 0 where
  takes :
      (s : Text) (t : Token) (d : Cursor)
      → t.value ≡ str s
      → IsOperator s t.type
      → src ≡ s ++ d.rest
      → ((w : Text) (k : TokenType) → IsOperator w k → starts w src ≡ true → length w ≤ length s)
      → Munches src (ok (t, d))
  refuses :
      {x line col : ℕ}
      → ((w : Text) (k : TokenType) → IsOperator w k → starts w src ≡ false)
      → Munches src (
          raise (mort_error (record { msg = unexpected_character x; line = line; col = some col })))

abbrev two_of : ℕ → Text → Text
two_of x s = x ∷ (get_or s 0 0 ∷ [])

abbrev three_of : ℕ → Text → Text
three_of x s = x ∷ (get_or s 0 0 ∷ (get_or s 1 0 ∷ []))

-- An operator of two or three characters that is found is there: NUL is in no table.
takes_two :
    (x : ℕ) (s : Text) (l k line col : ℕ) {t : TokenType}
    → lookup (two_of x s) two_char ≡ some t
    → ((w : Text) (k : TokenType) → IsOperator w k → starts w (x ∷ s) ≡ true → length w ≤ 2)
    → Munches (x ∷ s) (two_symbol (some t) x (here s l k) line col)
unfolding two_symbol
takes_two x [] l k line col e most = absurd (cc (two_full x 0 e))
takes_two x (y ∷ s) l k line col e most = takes (x ∷ (y ∷ [])) _ _ refl (inr (inl e)) refl most

takes_three :
    (x : ℕ) (s : Text) (l k line col : ℕ) {t : TokenType}
    → lookup (three_of x s) three_char ≡ some t
    → Munches (x ∷ s) (three_symbol (some t) x (here s l k) line col)
unfolding three_symbol
takes_three x [] l k line col e = absurd (cc (three_full x 0 0 e).0)
takes_three x (y ∷ []) l k line col e = absurd (cc (three_full x y 0 e).1)
takes_three x (y ∷ (z ∷ s)) l k line col e =
    takes (x ∷ (y ∷ (z ∷ []))) _ _ refl (inl e) refl (λ w k o _. operator-le-three w k o)

-- No operator of three characters begins the source, and then none of two.
module _ (x : ℕ) (s : Text) (no3 : lookup (three_of x s) three_char ≡ none) where
  at_most_two : (w : Text) (k : TokenType) → IsOperator w k → starts w (x ∷ s) ≡ true → length w ≤ 2
  at_most_two w k (inl e) h = absurd (cc (rw (front_three w x s (three_length w e) h) at e))
  at_most_two w k (inr (inl e)) h = omega (arith, two_length w e)
  at_most_two w k (inr (inr e)) h = omega (arith, one_length w e)

  module _ (no2 : lookup (two_of x s) two_char ≡ none) where
    at_most_one :
        (w : Text) (k : TokenType) → IsOperator w k → starts w (x ∷ s) ≡ true → length w ≤ 1
    at_most_one w k (inl e) h = absurd (cc (rw (front_three w x s (three_length w e) h) at e))
    at_most_one w k (inr (inl e)) h = absurd (cc (rw (front_two w x s (two_length w e) h) at e))
    at_most_one w k (inr (inr e)) h = omega (arith, one_length w e)

    none_fits :
        lookup (x ∷ []) one_char ≡ none
        → (w : Text) (k : TokenType) → IsOperator w k
        → starts w (x ∷ s) ≡ false
    none_fits no1 w k o = elim (Bool-cases (starts w (x ∷ s))) [
      | inl h ↦ absurd (refute o h)
      | inr h ↦ h
    ]
      where
        refute : IsOperator w k → starts w (x ∷ s) ≡ true → ⊥
        refute (inl e) h = cc (rw (front_three w x s (three_length w e) h) at e)
        refute (inr (inl e)) h = cc (rw (front_two w x s (two_length w e) h) at e)
        refute (inr (inr e)) h = cc (rw (front_one w x s (one_length w e) h) at e)

    one_symbol-Munches :
        (l k line col : ℕ) (found : Option TokenType)
        → lookup (x ∷ []) one_char ≡ found
        → Munches (x ∷ s) (one_symbol found x (here s l k) line col)
    unfolding one_symbol
    one_symbol-Munches l k line col (some t) e =
        takes (x ∷ []) _ (here s l k) refl (inr (inr e)) refl at_most_one
    one_symbol-Munches l k line col none e = refuses (none_fits e)

  two_symbol-Munches :
      (l k line col : ℕ) (found : Option TokenType)
      → lookup (two_of x s) two_char ≡ found
      → Munches (x ∷ s) (two_symbol found x (here s l k) line col)
  unfolding two_symbol
  two_symbol-Munches l k line col (some t) e = takes_two x s l k line col e at_most_two
  two_symbol-Munches l k line col none e = one_symbol-Munches e l k line col _ refl

three_symbol-Munches :
    (x : ℕ) (s : Text) (l k line col : ℕ) (found : Option TokenType)
    → lookup (three_of x s) three_char ≡ found
    → Munches (x ∷ s) (three_symbol found x (here s l k) line col)
unfolding three_symbol
three_symbol-Munches x s l k line col (some t) e = takes_three x s l k line col e
three_symbol-Munches x s l k line col none e = two_symbol-Munches x s e l k line col _ refl

symbol_on-Munches :
    (s : Text) (l k line col : ℕ) → s ≢ [] → Munches s (symbol (here s l k) line col)
unfolding symbol
symbol_on-Munches [] l k line col h = absurd (h refl)
symbol_on-Munches (x ∷ s) l k line col h = three_symbol-Munches x s _ _ line col _ refl

-- At a cursor that is not at the end, `_symbol` takes an operator `s` of the tables that the source
-- begins with, such that no operator that the source begins with is longer, and moves behind it; or it
-- refuses a source that begins with no operator.
pub symbol-Munches : (c : Cursor) (line col : ℕ) → c.rest ≢ [] → Munches c.rest (symbol c line col)
symbol-Munches c = symbol_on-Munches c.rest c.line c.col

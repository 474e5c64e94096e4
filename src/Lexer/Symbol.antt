-- ===== src/Lexer/Symbol.antt =====
-- mort/lexer.py, `Lexer._symbol` and its tables.
pub mod Munch
use mort.Base.{ℕ, List, [], ◌∷◌, Option, none, some, Text, codes, lookup}
use mort.Base.Result.{Result, ok, ◌>>=◌, ◌>>◌}
use mort.Lexer.Cursor.{Cursor, peek, advance}
use mort.Errors.{Exception, fail, unexpected_character}
use mort.Lexer.Number.{Scanned, make, skip_two}
use mort.Token.{
  TokenType, str, arrow, fat_arrow, dot_dot, eq, ne, le, ge, and, or, shl, shr, plus_assign,
  minus_assign, star_assign, slash_assign, percent_assign, amp_assign, pipe_assign, caret_assign,
  shl_assign, shr_assign, dot_dot_eq, lparen, rparen, lbrace, rbrace, comma, semi, colon, dot, amp,
  lbracket, rbracket, assign, plus, minus, star, slash, percent, lt, gt, bang, pipe, caret, tilde,
}

-- `_TWO_CHAR`
abbrev pub two_char : List (Text × TokenType)
two_char =
    (codes "->", arrow)
    ∷ (codes "=>", fat_arrow)
    ∷ (codes "..", dot_dot)
    ∷ (codes "==", eq)
    ∷ (codes "!=", ne)
    ∷ (codes "<=", le)
    ∷ (codes ">=", ge)
    ∷ (codes "&&", and)
    ∷ (codes "||", or)
    ∷ (codes "<<", shl)
    ∷ (codes ">>", shr)
    ∷ (codes "+=", plus_assign)
    ∷ (codes "-=", minus_assign)
    ∷ (codes "*=", star_assign)
    ∷ (codes "/=", slash_assign)
    ∷ (codes "%=", percent_assign)
    ∷ (codes "&=", amp_assign)
    ∷ (codes "|=", pipe_assign)
    ∷ (codes "^=", caret_assign)
    ∷ []

-- `_THREE_CHAR`
abbrev pub three_char : List (Text × TokenType)
three_char = (codes "<<=", shl_assign) ∷ (codes ">>=", shr_assign) ∷ (codes "..=", dot_dot_eq) ∷ []

-- `_ONE_CHAR`
abbrev pub one_char : List (Text × TokenType)
one_char =
    (codes "(", lparen)
    ∷ (codes ")", rparen)
    ∷ (codes "{", lbrace)
    ∷ (codes "}", rbrace)
    ∷ (codes ",", comma)
    ∷ (codes ";", semi)
    ∷ (codes ":", colon)
    ∷ (codes ".", dot)
    ∷ (codes "&", amp)
    ∷ (codes "[", lbracket)
    ∷ (codes "]", rbracket)
    ∷ (codes "=", assign)
    ∷ (codes "+", plus)
    ∷ (codes "-", minus)
    ∷ (codes "*", star)
    ∷ (codes "/", slash)
    ∷ (codes "%", percent)
    ∷ (codes "<", lt)
    ∷ (codes ">", gt)
    ∷ (codes "!", bang)
    ∷ (codes "|", pipe)
    ∷ (codes "^", caret)
    ∷ (codes "~", tilde)
    ∷ []

-- The texts tried behind the character `c`: of one, two and three characters.
abbrev pub one : ℕ → Text
one c = c ∷ []

abbrev pub two : ℕ → Cursor → Text
two c c1 = c ∷ (peek c1 0 ∷ [])

abbrev pub three : ℕ → Cursor → Text
three c c1 = c ∷ (peek c1 0 ∷ (peek c1 1 ∷ []))

-- What follows the look in each table, with what was found there: first `_THREE_CHAR`.
unfoldable pub one_symbol : Option TokenType → ℕ → Cursor → ℕ → ℕ → Scanned
one_symbol (some t) c c1 line col = ok (make t (str (one c)) line col, c1)
one_symbol none c c1 line col = fail (unexpected_character c) line col

unfoldable pub two_symbol : Option TokenType → ℕ → Cursor → ℕ → ℕ → Scanned
unfolding one_symbol
two_symbol (some t) c c1 line col = do
  (x, c2) ← advance c1
  ok (make t (str (two c c1)) line col, c2)
two_symbol none c c1 line col = one_symbol (lookup (one c) one_char) c c1 line col

unfoldable pub three_symbol : Option TokenType → ℕ → Cursor → ℕ → ℕ → Scanned
unfolding two_symbol
three_symbol (some t) c c1 line col = do
  c3 ← skip_two c1
  ok (make t (str (three c c1)) line col, c3)
three_symbol none c c1 line col = two_symbol (lookup (two c c1) two_char) c c1 line col

-- `_symbol(line, col)`
unfoldable pub symbol : Cursor → ℕ → ℕ → Scanned
unfolding three_symbol
symbol cursor line col = do
  (c, c1) ← advance cursor
  three_symbol (lookup (three c c1) three_char) c c1 line col

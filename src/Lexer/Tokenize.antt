-- ===== src/Lexer/Tokenize.antt =====
-- mort/lexer.py, `Lexer.__init__` and `Lexer.tokenize`.
pub mod Position
pub mod Lexemes
pub mod Sound
use mort.Base.{
  ℕ, zero, suc, ◌+◌, Bool, true, false, ◌&&◌, ◌||◌, List, [], ◌∷◌, ◌++◌, Option, none, some, ◌==◌,
  if◌then◌else◌, length, get_last?, Text, codes, elem,
}
use mort.Base.Result.{Result, ok, out_of_fuel, ◌>>=◌, ◌>>◌}
use mort.Lexer.Comment.{line_comment, block_comment}
use mort.Lexer.Cursor.{Cursor, peek, advance, is_digit, Unicode}
use mort.Errors.{Exception}
use mort.Lexer.Literal.{char, string, identifier}
use mort.Lexer.Number.{Scanned, make, number}
use mort.Lexer.Symbol.{symbol}
use mort.Token.{TokenType, Token, nothing, eof}

-- The lexer's state: the cursor, and the tokens so far.
pub record Lexer : Type 0 where
  pub cursor : Cursor
  pub tokens : List Token

abbrev pub initial : Text → Lexer
initial src = record { cursor = record { rest = src; line = 1; col = 1 }; tokens = [] }

-- `self.tokens[-1].type`, if there are tokens.
abbrev pub last_type : List Token → Option TokenType
last_type ts = elim (get_last? ts) [ some t ↦ some t.type | none ↦ none ]

-- `_add`, behind a handler.
abbrev pub add : Lexer → Scanned → Result Exception Lexer
add lx r = do (t, c) ← r; ok (record { cursor = c; tokens = lx.tokens ++ t ∷ [] })

abbrev pub move : Lexer → Cursor → Lexer
move lx c = record { cursor = c; tokens = lx.tokens }

module _ (u : Unicode) where
  -- The handler of a token that begins with `c`, at the cursor `at`.
  unfoldable pub token_at : ℕ → Option TokenType → Cursor → Scanned
  token_at c last at =
      if c == b'"'
      then string at at.line at.col
      else if c == b'\''
      then char at at.line at.col
      else if is_digit c
      then number u last at at.line at.col
      else if u.is_alpha c || c == b'_'
      then identifier u at at.line at.col
      else symbol at at.line at.col

  -- One round of the loop of `tokenize`, at the character `c`.
  unfoldable pub step : ℕ → Lexer → Result Exception Lexer
  unfolding token_at
  step c lx =
      if elem c (codes " \t\r\n")
      then (do (x, c1) ← advance lx.cursor; ok (move lx c1))
      else if c == b'/' && peek lx.cursor 1 == b'/'
      then ok (move lx (line_comment lx.cursor))
      else if c == b'/' && peek lx.cursor 1 == b'*'
      then (do (x, c1) ← block_comment lx.cursor; ok (move lx c1))
      else add lx (token_at c (last_type lx.tokens) lx.cursor)

  -- The test of `while self.i < len(self.src)` and the round behind it, which `again` follows; at the
  -- end, the end-of-file token.
  abbrev pub round :
      (Lexer → Result Exception (List Token)) → Text → Lexer → Result Exception (List Token)
  round again [] lx = ok (lx.tokens ++ make eof nothing lx.cursor.line lx.cursor.col ∷ [])
  round again (c ∷ cs) lx = step c lx >>= again

  unfoldable pub run : ℕ → Lexer → Result Exception (List Token)
  run zero lx = out_of_fuel
  run (suc fuel) lx = round (run fuel) lx.cursor.rest lx

  -- `Lexer(src).tokenize()`; each round reads a character at least.
  unfoldable pub tokenize : Text → Result Exception (List Token)
  unfolding run
  tokenize src = run (suc (length src)) (initial src)

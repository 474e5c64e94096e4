-- ===== src/Lexer/Literal.antt =====
-- mort/lexer.py, `Lexer._char`, `Lexer._string` and `Lexer._ident`.
pub mod Quoted
use mort.Base.{
  ℕ, ◌+◌, ◌*◌, Bool, true, false, not, ◌&&◌, ◌||◌, List, [], ◌∷◌, ◌++◌, Option, none, some, ◌==◌,
  ltb, leb, if◌then◌else◌, Text, codes, elem, lookup,
}
use mort.Base.Result.{Result, ok, raise, out_of_fuel, ◌>>=◌, ◌>>◌}
use mort.Lexer.Cursor.{Cursor, peek, advance, scan, Unicode, next_line, next_col}
use mort.Errors.{
  Exception, fail, empty_char, invalid_hex_escape, unknown_escape, not_one_byte, outside_u8,
  unterminated_string,
}
use mort.Lexer.Number.{Scanned, make, is_hex, digit_value}
use mort.Token.{TokenType, Value, int, str, keywords, ident}

-- The table `escapes`.
unfoldable pub escape_value : ℕ → Option ℕ
escape_value c =
    if c == b'n'
    then some 10
    else if c == b'r'
    then some 13
    else if c == b't'
    then some 9
    else if c == b'0'
    then some 0
    else if c == b'\\'
    then some 92
    else if c == b'\''
    then some 39
    else if c == b'"'
    then some 34
    else none

-- Two hexadecimal digits.
unfoldable pub hex_escape : Cursor → ℕ → ℕ → Result Exception (ℕ × Cursor)
hex_escape c line col =
    if not (is_hex (peek c 0)) || not (is_hex (peek c 1))
    then fail invalid_hex_escape line col
    else do
      (high, c1) ← advance c
      (low, c2) ← advance c1
      ok (digit_value high * 16 + digit_value low, c2)

-- Behind the backslash and the character `escape`.
unfoldable pub escaped : ℕ → Cursor → ℕ → ℕ → Result Exception (ℕ × Cursor)
unfolding hex_escape escape_value
escaped escape c line col =
    if escape == b'x' then hex_escape c line col else elim (escape_value escape) [
      | some v ↦ ok (v, c)
      | none ↦ fail (unknown_escape escape) line col
    ]

-- Behind the backslash.
unfoldable pub escape_at : Cursor → ℕ → ℕ → Result Exception (ℕ × Cursor)
unfolding escaped
escape_at c line col =
    if elem (peek c 0) (0 ∷ (b'\n' ∷ []))
    then fail empty_char line col
    else do (escape, c1) ← advance c; escaped escape c1 line col

-- The character behind the opening quote.
unfoldable pub char_value : Cursor → ℕ → ℕ → Result Exception (ℕ × Cursor)
unfolding escape_at
char_value c line col =
    if elem (peek c 0) (0 ∷ (b'\n' ∷ (b'\'' ∷ [])))
    then fail empty_char line col
    else if peek c 0 == b'\\'
    then (do (slash, c1) ← advance c; escape_at c1 line col)
    else advance c

-- At the closing quote.
unfoldable pub close_char : ℕ → Cursor → ℕ → ℕ → Scanned
close_char value c line col = do
  (quote, c1) ← advance c
  (if ltb 255 value
      then fail outside_u8 line col
      else ok (make TokenType.char (int value) line col, c1))

-- `_char(line, col)`
unfoldable pub char : Cursor → ℕ → ℕ → Scanned
unfolding char_value close_char
char c line col = do
  (quote, c1) ← advance c
  (value, c2) ← char_value c1 line col
  if not (peek c2 0 == b'\'') then fail not_one_byte line col else close_char value c2 line col

-- `raw += ...`, ahead of what the rest of the loop reads.
abbrev pub prepend : Text → Result Exception (Text × Cursor) → Result Exception (Text × Cursor)
prepend s r = do (raw, end) ← r; ok (s ++ raw, end)

-- The loop of `_string` behind the opening quote, over the source from the cursor on: the raw text up
-- to the closing quote, and the cursor behind it. `l` and `k` are the cursor's line and column.
unfoldable pub string_body : Text → ℕ → ℕ → ℕ → ℕ → Result Exception (Text × Cursor)
string_body [] l k line col = fail unterminated_string line col
string_body (c ∷ []) l k line col =
    if c == b'"'
    then ok ([], record { rest = []; line = next_line c l; col = next_col c k })
    else fail unterminated_string line col
string_body (c ∷ (d ∷ ds)) l k line col =
    let l1 = next_line c l in
    let k1 = next_col c k in
    let pair = prepend (c ∷ (d ∷ [])) (string_body ds (next_line d l1) (next_col d k1) line col) in
    let one = prepend (c ∷ []) (string_body (d ∷ ds) l1 k1 line col) in
    if c == 0 || c == b'\n'
    then fail unterminated_string line col
    else if c == b'\\'
    then (if d == 0 then fail unterminated_string line col else pair)
    else if c == b'"'
    then ok ([], record { rest = d ∷ ds; line = next_line c l; col = next_col c k })
    else one

-- `_string(line, col)`
unfoldable pub string : Cursor → ℕ → ℕ → Scanned
unfolding string_body
string c line col = do
  (quote, c1) ← advance c
  (raw, end) ← string_body c1.rest c1.line c1.col line col
  ok (make TokenType.string (str raw) line col, end)

-- `KEYWORDS.get(s, T.IDENT)`
unfoldable pub ident_type : Text → TokenType
ident_type s = elim (lookup s keywords) [ some t ↦ t | none ↦ ident ]

module _ (u : Unicode) where
  abbrev pub is_ident : ℕ → Bool
  is_ident c = u.is_alnum c || c == b'_'

  -- `_ident(line, col)`
  unfoldable pub identifier : Cursor → ℕ → ℕ → Scanned
  unfolding ident_type
  identifier c line col =
      let s = scan is_ident c in ok (make (ident_type s.0) (str s.0) line col, s.1)

-- ===== src/Lexer/Progress/Fits.antt =====
-- mort/lexer.py, `Lexer._add`: which value stands with which type of token.
use mort.Base.{ℕ, ◌≤◌, ◌≡◌, ◌≢◌, ◌⊎◌, true, false, [], ◌∷◌, none, some, Text, lookup, ◌==◌}
use mort.Lexer.Number.{is_finite}
use mort.Lexer.Symbol.{one_char, two_char, three_char}
use mort.Token.{TokenType, Token, Decimal, Value, nothing, int, float, str, keywords, ident, eof}

-- The words and operators with a type of their own.
abbrev pub Spells : Text → TokenType → Type 0
Spells s t =
    (lookup s keywords ≡ some t)
    ⊎ (lookup s three_char ≡ some t)
    ⊎ (lookup s two_char ≡ some t)
    ⊎ (lookup s one_char ≡ some t)

-- The inner text of a string literal as the source has it: escape pairs, and characters that are no
-- NUL, newline, backslash or quote.
pub data IsRaw : Text → Type 0 where
  nil : IsRaw []
  plain :
      {c : ℕ} {s : Text}
      → (c == 0) ≡ false
      → (c == b'\n') ≡ false
      → (c == b'\\') ≡ false
      → (c == b'"') ≡ false
      → IsRaw s
      → IsRaw (c ∷ s)
  pair : {b c : ℕ} {s : Text} → b ≡ b'\\' → (c == 0) ≡ false → IsRaw s → IsRaw (b ∷ (c ∷ s))

-- The value that a token of each type holds.
pub data Fits : TokenType → Value → Type 0 where
  integer : (n : ℕ) → Fits TokenType.int (int n)
  floating : (d : Decimal) → is_finite d ≡ true → Fits TokenType.float (float d)
  byte : (n : ℕ) → n ≤ 255 → Fits TokenType.char (int n)
  quoted : (s : Text) → IsRaw s → Fits TokenType.string (str s)
  name : (s : Text) → s ≢ [] → lookup s keywords ≡ none → Fits ident (str s)
  fixed : (s : Text) (t : TokenType) → Spells s t → Fits t (str s)
  end : Fits eof nothing

-- A token made at a line and column, with a value that fits its type.
pub record Placed (line col : ℕ) (t : Token) : Type 0 where
  pub line_is : t.line ≡ line
  pub col_is : t.col ≡ col
  pub fits : Fits t.type t.value

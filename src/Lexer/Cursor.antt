-- ===== src/Lexer/Cursor.antt =====
-- mort/lexer.py, `Lexer._peek`, `Lexer._advance` and the scanning loops. The state `src`, `i`,
-- `line`, `col` is a cursor that keeps `rest`, the part of `src` from `i` on.
use mort.Base.{
  ℕ, ◌+◌, ◌≡◌, Bool, true, [], ◌∷◌, ◌==◌, ◌&&◌, ◌||◌, leb, if◌then◌else◌, get_or, Text, refl,
}
use mort.Base.Result.{Result, ok, raise}
use mort.Errors.{Exception, index_error}

pub record Cursor : Type 0 where
  pub rest : Text
  pub line : ℕ
  pub col : ℕ

-- `_peek(offset)`: NUL behind the end.
abbrev pub peek : Cursor → ℕ → ℕ
peek c offset = get_or c.rest offset 0

abbrev pub next_line : ℕ → ℕ → ℕ
next_line c line = if c == b'\n' then line + 1 else line

abbrev pub next_col : ℕ → ℕ → ℕ
next_col c col = if c == b'\n' then 1 else col + 1

-- The cursor with the character `c` read, and `rest` behind it.
abbrev pub step_over : ℕ → Text → ℕ → ℕ → Cursor
step_over c rest line col = record { rest = rest; line = next_line c line; col = next_col c col }

abbrev pub advance_on : Text → ℕ → ℕ → Result Exception (ℕ × Cursor)
advance_on [] line col = raise index_error
advance_on (c ∷ cs) line col = ok (c, step_over c cs line col)

-- `_advance()`
abbrev pub advance : Cursor → Result Exception (ℕ × Cursor)
advance c = advance_on c.rest c.line c.col

-- `while test(self._peek()): s += self._advance()`, for a test that fails on NUL: what was read, and
-- the cursor behind it.
unfoldable pub scan_on : (ℕ → Bool) → Text → ℕ → ℕ → Text × Cursor
scan_on test [] line col = ([], record { rest = []; line = line; col = col })
scan_on test (c ∷ cs) line col =
    let more = scan_on test cs (next_line c line) (next_col c col) in
    if test c then (c ∷ more.0, more.1) else ([], record { rest = c ∷ cs; line = line; col = col })

abbrev pub scan : (ℕ → Bool) → Cursor → Text × Cursor
scan test c = scan_on test c.rest c.line c.col

-- `_is_digit`
abbrev pub is_digit : ℕ → Bool
is_digit c = leb b'0' c && leb c b'9'

abbrev pub is_letter : ℕ → Bool
is_letter c = (leb b'a' c && leb c b'z') || (leb b'A' c && leb c b'Z')

-- Python's tables for `str.isalpha` and `str.isalnum`, with what the lexer relies on: on ASCII they
-- are the letters, and the letters and digits; and a letter is alphanumeric.
pub record Unicode : Type 0 where
  pub is_alpha : ℕ → Bool
  pub is_alnum : ℕ → Bool
  pub is_alpha_ascii : (c : ℕ) → leb c 127 ≡ true → is_alpha c ≡ is_letter c
  pub is_alnum_ascii : (c : ℕ) → leb c 127 ≡ true → is_alnum c ≡ (is_letter c || is_digit c)
  pub is_alnum_of_alpha : (c : ℕ) → is_alpha c ≡ true → is_alnum c ≡ true

pub ascii_letter_alnum : (c : ℕ) → is_letter c ≡ true → (is_letter c || is_digit c) ≡ true
ascii_letter_alnum c h = rw h

-- The tables of a Python that knew ASCII only.
abbrev pub ascii : Unicode
ascii = record {
  is_alpha = λ c. is_letter c;
  is_alnum = λ c. is_letter c || is_digit c;
  is_alpha_ascii = λ c h. refl;
  is_alnum_ascii = λ c h. refl;
  is_alnum_of_alpha = ascii_letter_alnum;
}

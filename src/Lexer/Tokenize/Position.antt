-- ===== src/Lexer/Tokenize/Position.antt =====
-- mort/lexer.py, `Lexer._advance`: the line and column behind a text, described without the loop.
use mort.Base.{
  ℕ, ◌+◌, ◌≡◌, ◌≢◌, refl, [], ◌∷◌, ◌==◌, if◌then◌else◌, length, Text, arith, Bool-cases, inl, inr,
}
use mort.Lexer.Cursor.{next_line, next_col}
use mort.Lexer.Progress.{line_after, col_after}

-- How many newlines a text has.
abbrev pub newlines : Text → ℕ
newlines [] = 0
newlines (c ∷ cs) = (if c == b'\n' then 1 else 0) + newlines cs

-- What follows the last newline of a text, all of it if there is none.
abbrev pub last_line : Text → Text
last_line [] = []
last_line (c ∷ cs) = let rest = last_line cs in if newlines (c ∷ cs) == 0 then c ∷ cs else rest

pub line_after-eq : (s : Text) (l : ℕ) → line_after s l ≡ l + newlines s
line_after-eq [] l = omega arith
line_after-eq (c ∷ cs) l = ground (arith, line_after-eq cs (next_line c l))

last_line_flat : (s : Text) → newlines s ≡ 0 → last_line s ≡ s
last_line_flat [] h = refl
last_line_flat (c ∷ cs) h = ground arith

col_after_flat : (s : Text) (k : ℕ) → newlines s ≡ 0 → col_after s k ≡ k + length s
col_after_flat [] k h = omega arith
col_after_flat (c ∷ cs) k h = ground (arith, col_after_flat cs (next_col c k))

col_after_broken : (s : Text) (k : ℕ) → newlines s ≢ 0 → col_after s k ≡ 1 + length (last_line s)
col_after_broken [] k h = absurd (h refl)
col_after_broken (c ∷ cs) k h = elim (Bool-cases (newlines cs == 0)) [
  | inl e ↦ ground (arith, col_after_flat cs 1, last_line_flat cs)
  | inr e ↦ ground (arith, col_after_broken cs (next_col c k))
]

-- From column 1, the column is one more than the length of the last line.
pub col_after-eq : (s : Text) → col_after s 1 ≡ 1 + length (last_line s)
col_after-eq s = elim (Bool-cases (newlines s == 0)) [
  | inl e ↦ ground (arith, col_after_flat s 1, last_line_flat s)
  | inr e ↦ ground (arith, col_after_broken s 1)
]

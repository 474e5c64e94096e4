-- ===== src/Lexer/Comment.antt =====
-- mort/lexer.py, `Lexer._block_comment` and the line comment of `Lexer.tokenize`.
pub mod Nesting
use mort.Base.{ℕ, zero, suc, Bool, not, ◌&&◌, [], ◌∷◌, ◌==◌, if◌then◌else◌, Text}
use mort.Base.Result.{Result, ok, ◌>>=◌, ◌>>◌}
use mort.Lexer.Cursor.{Cursor, scan, next_line, next_col}
use mort.Lexer.Number.{skip_two}
use mort.Errors.{Exception, fail, unterminated_comment}

abbrev pub opens : ℕ → ℕ → Bool
opens c d = c == b'/' && d == b'*'

abbrev pub closes : ℕ → ℕ → Bool
closes c d = c == b'*' && d == b'/'

-- The loop of `_block_comment` at a nesting depth, over the source from the cursor on; `l` and `k` are
-- the cursor's line and column, `line` and `col` those of the comment.
unfoldable pub comment_body : ℕ → Text → ℕ → ℕ → ℕ → ℕ → Result Exception (Unit {0} × Cursor)
comment_body zero rest l k line col = ok (tt, record { rest = rest; line = l; col = k })
comment_body (suc depth) [] l k line col = fail unterminated_comment line col
comment_body (suc depth) (c ∷ []) l k line col = fail unterminated_comment line col
comment_body (suc depth) (c ∷ (d ∷ ds)) l k line col =
    let l2 = next_line d (next_line c l) in
    let k2 = next_col d (next_col c k) in
    let deeper = comment_body (suc (suc depth)) ds l2 k2 line col in
    let shallower = comment_body depth ds l2 k2 line col in
    let inside = comment_body (suc depth) (d ∷ ds) (next_line c l) (next_col c k) line col in
    if opens c d then deeper else if closes c d then shallower else inside

-- `_block_comment()`
unfoldable pub block_comment : Cursor → Result Exception (Unit {0} × Cursor)
unfolding comment_body
block_comment c = do c2 ← skip_two c; comment_body 1 c2.rest c2.line c2.col c.line c.col

-- `while self.i < len(self.src) and self._peek() != "\n": self._advance()`
unfoldable pub line_comment : Cursor → Cursor
line_comment c = (scan (λ x. not (x == b'\n')) c).1

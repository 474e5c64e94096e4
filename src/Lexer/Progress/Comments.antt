-- ===== src/Lexer/Progress/Comments.antt =====
-- mort/lexer.py, `Lexer._block_comment` and the line comment: how far they move.
use mort.Base.{ℕ, zero, suc, ◌≡◌, refl, true, false, not, [], ◌∷◌, ◌==◌, Text, arith}
use mort.Lexer.Comment.{opens, closes, comment_body, block_comment, line_comment}
use mort.Lexer.Cursor.{Cursor, peek, next_line, next_col}
use mort.Lexer.Progress.Numbers.{Any}
use mort.Lexer.Progress.{
  Reads, Ensures, refused, Ensures-weaken, Ensures-stay, Ensures-move, Ensures-if, scan-Reads_one,
  ne-nil_of_peek, skip_two-Reads,
}

abbrev here : Text → ℕ → ℕ → Cursor
here s l k = record { rest = s; line = l; col = k }

read_two :
    (c d : ℕ) (s : Text) (l k : ℕ)
    → Reads
        (here (c ∷ (d ∷ s)) l k)
        0
        (here s (next_line d (next_line c l)) (next_col d (next_col c k)))
read_two c d s l k = record {
  read = c ∷ (d ∷ []);
  long = omega arith;
  splits = refl;
  line_is = refl;
  col_is = refl;
}

read_one :
    (c : ℕ) (s : Text) (l k : ℕ)
    → Reads (here (c ∷ s) l k) 0 (here s (next_line c l) (next_col c k))
read_one c s l k = record {
  read = c ∷ [];
  long = omega arith;
  splits = refl;
  line_is = refl;
  col_is = refl;
}

comment_body-Ensures :
    (s : Text) (depth l k line col : ℕ)
    → Ensures Any (here s l k) 0 (comment_body depth s l k line col)
unfolding comment_body
comment_body-Ensures s zero l k line col = Ensures-stay _ tt
comment_body-Ensures [] (suc depth) l k line col = refused
comment_body-Ensures (c ∷ []) (suc depth) l k line col = refused
comment_body-Ensures (c ∷ (d ∷ ds)) (suc depth) l k line col =
    Ensures-if (opens c d)
      (λ _.
        Ensures-move (read_two c d ds l k) (comment_body-Ensures ds (suc (suc depth)) _ _ line col))
      (λ _.
        Ensures-if (closes c d)
          (λ _. Ensures-move (read_two c d ds l k) (comment_body-Ensures ds depth _ _ line col))
          (λ _.
            Ensures-move (read_one c (d ∷ ds) l k)
              (comment_body-Ensures (d ∷ ds) (suc depth) _ _ line col)))

-- `_block_comment` at its opening moves on over the comment, or refuses it.
pub block_comment-Ensures :
    (c : Cursor) → (peek c 1 == 0) ≡ false → Ensures Any c 1 (block_comment c)
unfolding block_comment
block_comment-Ensures c h =
    let (d, e, r) = skip_two-Reads c h in
    rw e (
      Ensures-weaken (omega arith)
        (Ensures-move r (comment_body-Ensures d.rest 1 d.line d.col c.line c.col)))

-- A line comment moves on over its slashes.
pub line_comment-Reads : (c : Cursor) → (peek c 0 == b'/') ≡ true → Reads c 1 (line_comment c)
unfolding line_comment
line_comment-Reads c h =
    scan-Reads_one (λ x. not (x == b'\n')) c (ne-nil_of_peek c (ground arith)) (ground arith)

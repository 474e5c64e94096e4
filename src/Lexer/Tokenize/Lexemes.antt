-- ===== src/Lexer/Tokenize/Lexemes.antt =====
-- mort/lexer.py, `Lexer.tokenize`: a source as the blanks and the tokens that it consists of.
use mort.Base.{
  ℕ, ◌+◌, ◌≡◌, ◌≢◌, refl, ap, sym, subst, ◌∙◌, Bool, true, false, not, ◌&&◌, List, [], ◌∷◌, ◌++◌,
  append_assoc, ◌==◌, if◌then◌else◌, length, get_or, Text, codes, elem, arith,
}
use mort.Base.Result.{Result, ok}
use mort.Errors.{Exception}
use mort.Lexer.Comment.{block_comment, line_comment}
use mort.Lexer.Comment.Nesting.{
  IsNested, IsClosed, opening, closing, here, block_comment_iff, block_comment_nested,
}
use mort.Lexer.Cursor.{Cursor, scan_on, next_line, next_col}
use mort.Lexer.Progress.{Reads, line_after, col_after}
use mort.Lexer.Progress.Fits.{Fits}
use mort.Lexer.Tokenize.Position.{newlines, last_line}
use mort.Token.{Token, nothing, eof}

-- A piece of the source without a token, with what follows it: a white space, a line comment up to the next newline
-- or the end, or a block comment in which comments are well nested.
pub data Blank : Text → Text → Type 0 where
  white : {c : ℕ} {rest : Text} → elem c (codes " \t\r\n") ≡ true → Blank (c ∷ []) rest
  line :
      {s rest : Text}
      → elem b'\n' s ≡ false
      → get_or rest 0 b'\n' ≡ b'\n'
      → Blank (b'/' ∷ (b'/' ∷ s)) rest
  block : {b rest : Text} → IsNested b → Blank (opening ++ (b ++ closing)) rest

-- The text begins with no white space and no mark of a comment.
pub record IsVisible (s : Text) : Type 0 where
  pub no_white : elem (get_or s 0 0) (codes " \t\r\n") ≡ false
  pub no_line : (get_or s 0 0 == b'/' && get_or s 1 0 == b'/') ≡ false
  pub no_block : (get_or s 0 0 == b'/' && get_or s 1 0 == b'*') ≡ false

-- The token has the line and the column behind the text `before`: one more than the newlines there, and one more than
-- the characters since the last newline.
pub record IsBehind (before : Text) (t : Token) : Type 0 where
  pub line_is : t.line ≡ 1 + newlines before
  pub col_is : t.col ≡ 1 + length (last_line before)

-- Behind `before`, the text consists of blanks and of the tokens in their order, each read from a piece of one
-- character or more that begins where the token says, and ends where the end-of-file token says.
pub data Lexemes : Text → Text → List Token → Type 0 where
  finished :
      {before : Text} {end : Token}
      → end.type ≡ eof
      → end.value ≡ nothing
      → IsBehind before end
      → Lexemes before [] (end ∷ [])
  blank :
      {before text : Text} {ts : List Token} (s rest : Text)
      → text ≡ s ++ rest
      → Blank s rest
      → Lexemes (before ++ s) rest ts
      → Lexemes before text ts
  token :
      {before text : Text} {t : Token} {ts : List Token} (s rest : Text)
      → text ≡ s ++ rest
      → s ≢ []
      → IsVisible text
      → IsBehind before t
      → Fits t.type t.value
      → Lexemes (before ++ s) rest ts
      → Lexemes before text (t ∷ ts)

-- A blank was read between two cursors.
pub record Skips (c d : Cursor) : Type 0 where
  pub reads : Reads c 1 d
  pub is_blank : Blank reads.read d.rest

-- What the loop of a line comment leaves and reads.
record IsLine (s : Text) (l k : ℕ) (read : Text) (d : Cursor) : Type 0 where
  splits : s ≡ read ++ d.rest
  no_newline : elem b'\n' read ≡ false
  stops : get_or d.rest 0 b'\n' ≡ b'\n'
  line_is : d.line ≡ line_after read l
  col_is : d.col ≡ col_after read k

scan-IsLine :
    (s : Text) (l k : ℕ)
    → IsLine s l k
        (scan_on (λ x. not (x == b'\n')) s l k).0
        (scan_on (λ x. not (x == b'\n')) s l k).1
unfolding scan_on
scan-IsLine [] l k = record {
  splits = refl;
  no_newline = refl;
  stops = refl;
  line_is = refl;
  col_is = refl;
}
scan-IsLine (c ∷ cs) l k = by_test (c == b'\n') refl (scan-IsLine cs (next_line c l) (next_col c k))
  where
    more : Text × Cursor
    more = scan_on (λ x. not (x == b'\n')) cs (next_line c l) (next_col c k)

    stop : Text × Cursor
    stop = ([], here (c ∷ cs) l k)

    newline : (c == b'\n') ≡ true → c ≡ b'\n'
    newline e = ground (arith, e)

    not_in : (s : Text) → (c == b'\n') ≡ false → elem b'\n' s ≡ false → elem b'\n' (c ∷ s) ≡ false
    not_in s e h = ground arith

    by_test :
        (b : Bool)
        → (c == b'\n') ≡ b
        → IsLine cs (next_line c l) (next_col c k) more.0 more.1
        → IsLine
            (c ∷ cs)
            l
            k
            (if not b then (c ∷ more.0, more.1) else stop).0
            (if not b then (c ∷ more.0, more.1) else stop).1
    by_test true e i = record {
      splits = refl;
      no_newline = refl;
      stops = newline e;
      line_is = refl;
      col_is = refl;
    }
    by_test false e i = record {
      splits = ap (◌∷◌ c) i.splits;
      no_newline = not_in more.0 e i.no_newline;
      stops = i.stops;
      line_is = i.line_is;
      col_is = i.col_is;
    }

pub line_comment-Skips :
    (s : Text) (l k : ℕ)
    → Skips (here (b'/' ∷ (b'/' ∷ s)) l k) (line_comment (here (b'/' ∷ (b'/' ∷ s)) l k))
unfolding line_comment scan_on
line_comment-Skips s l k =
    let i = scan-IsLine s l (k + 1 + 1) in
    record {
      reads = record {
        read = b'/' ∷ (b'/' ∷ (scan_on (λ x. not (x == b'\n')) s l (k + 1 + 1)).0);
        long = omega arith;
        splits = ap (λ t. b'/' ∷ (b'/' ∷ t)) i.splits;
        line_is = i.line_is;
        col_is = i.col_is;
      };
      is_blank = line i.no_newline i.stops;
    }

-- A block comment is read up to its closing mark, if it is not refused.
pub block_comment-Skips :
    (s : Text) (l k : ℕ) (d : Cursor)
    → block_comment (here (opening ++ s) l k) ≡ ok (tt, d)
    → Skips (here (opening ++ s) l k) d
block_comment-Skips s l k d e = of_closed ((block_comment_iff s d.rest l k).0 (d, e, refl))
  where
    of_closed : IsClosed s d.rest → Skips (here (opening ++ s) l k) d
    of_closed (b, n, splits) =
        let read : block_comment (here (opening ++ s) l k)
            ≡ ok (
              tt,
              here d.rest (line_after (b ++ closing) l) (col_after (b ++ closing) (k + 1 + 1)),
            ) =
          rw splits (block_comment_nested b d.rest l k n) in
        let both : ◌≡◌ {A = Result Exception (Unit {0} × Cursor)} (ok (tt, d)) (
            ok (
              tt,
              here d.rest (line_after (b ++ closing) l) (col_after (b ++ closing) (k + 1 + 1)),
            )) =
          sym e ∙ read in
        let ends : d
            ≡ here d.rest (line_after (b ++ closing) l) (col_after (b ++ closing) (k + 1 + 1)) =
          cc both in
        record {
          reads = record {
            read = opening ++ (b ++ closing);
            long = omega arith;
            splits = ap (λ t. opening ++ t) (splits ∙ sym (append_assoc b closing d.rest));
            line_is = ap (λ c. c.line) ends;
            col_is = ap (λ c. c.col) ends;
          };
          is_blank = block n;
        }

abbrev pub begins : Text → ℕ → ℕ → Bool
begins s x y = get_or s 0 0 == x && get_or s 1 0 == y

line_mark : (s : Text) → begins s b'/' b'/' ≡ true → (t : Text) × (b'/' ∷ (b'/' ∷ t) ≡ s)
line_mark [] h = cc
line_mark (c ∷ []) h = absurd (ground arith)
line_mark (c ∷ (d ∷ t)) h = (t, ground arith)

block_mark : (s : Text) → begins s b'/' b'*' ≡ true → (t : Text) × (opening ++ t ≡ s)
block_mark [] h = cc
block_mark (c ∷ []) h = absurd (ground arith)
block_mark (c ∷ (d ∷ t)) h = (t, ground arith)

-- The two comments at a cursor that is at their mark.
pub line_comment_mark : (c : Cursor) → begins c.rest b'/' b'/' ≡ true → Skips c (line_comment c)
line_comment_mark c h =
    let (t, e) = line_mark c.rest h in
    subst (λ s. Skips (here s c.line c.col) (line_comment (here s c.line c.col))) e
      (line_comment-Skips t c.line c.col)

pub block_comment_mark :
    (c d : Cursor) → begins c.rest b'/' b'*' ≡ true → block_comment c ≡ ok (tt, d) → Skips c d
block_comment_mark c d h =
    let (t, e) = block_mark c.rest h in
    subst (λ s. block_comment (here s c.line c.col) ≡ ok (tt, d) → Skips (here s c.line c.col) d) e
      (block_comment-Skips t c.line c.col d)

-- A white space is read.
pub white-Skips :
    (c : ℕ) (cs : Text) (l k : ℕ)
    → elem c (codes " \t\r\n") ≡ true
    → Skips (here (c ∷ cs) l k) (here cs (next_line c l) (next_col c k))
white-Skips c cs l k h = record {
  reads = record {
    read = c ∷ [];
    long = omega arith;
    splits = refl;
    line_is = refl;
    col_is = refl;
  };
  is_blank = white h;
}

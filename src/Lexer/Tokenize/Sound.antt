-- ===== src/Lexer/Tokenize/Sound.antt =====
-- mort/lexer.py, `Lexer.tokenize`: the loop ends, and each token stands where it says.
use mort.Base.{
  ℕ, zero, suc, ◌<◌, ◌≤◌, ◌≡◌, ◌≢◌, refl, ap, sym, subst, ◌∙◌, Bool, true, false, ◌&&◌, ◌||◌, List,
  [], ◌∷◌, ◌++◌, append_assoc, Option, ◌==◌, if◌then◌else◌, length, length-append, Text, codes,
  elem, arith, get_or,
}
use mort.Base.Result.{Result, ok, raise, out_of_fuel, ◌>>=◌}
use mort.Lexer.Cursor.{Cursor, advance, peek, is_digit, Unicode}
use mort.Errors.{Exception, MortError, mort_error, value_error, index_error}
use mort.Lexer.Number.{make}
use mort.Lexer.Progress.Comments.{block_comment-Ensures}
use mort.Lexer.Progress.Fits.{Fits, Placed}
use mort.Lexer.Progress.Literals.{string-Ensures, char-Ensures, identifier-Ensures}
use mort.Lexer.Progress.Numbers.{number-Ensures}
use mort.Lexer.Progress.Symbols.{symbol-Ensures}
use mort.Lexer.Progress.{
  Reads, Ensures, holds, refused, too_long, Ensures-if, line_after, col_after, line_after-append,
  col_after-append,
}
use mort.Lexer.Tokenize.{Lexer, initial, add, move, round, token_at, step, run, tokenize}
use mort.Lexer.Tokenize.Position.{line_after-eq, col_after-eq}
use mort.Lexer.Tokenize.Lexemes.{
  Lexemes, finished, blank, token, IsVisible, IsBehind, Skips, begins, line_comment_mark,
  block_comment_mark, white-Skips,
}
use mort.Lexer.Comment.{block_comment}
use mort.Lexer.Comment.Nesting.{here}
use mort.Lexer.Progress.Numbers.{Any}
use mort.Token.{TokenType, Token, nothing, eof}

-- What a round of the loop ends in: it reads a blank, or a token that it adds.
data Steps (lx : Lexer) : Result Exception Lexer → Type 0 where
  skipped : {c : Cursor} → Skips lx.cursor c → Steps lx (ok (move lx c))
  took :
      {t : Token} {c : Cursor}
      → Reads lx.cursor 1 c
      → IsVisible lx.cursor.rest
      → Placed lx.cursor.line lx.cursor.col t
      → Steps lx (ok (record { cursor = c; tokens = lx.tokens ++ t ∷ [] }))
  stopped : {e : MortError} → Steps lx (raise (mort_error e))
  overflowed : Steps lx (raise value_error)

Steps-add :
    (lx : Lexer) {r : Result Exception (Token × Cursor)}
    → IsVisible lx.cursor.rest
    → Ensures (Placed lx.cursor.line lx.cursor.col) lx.cursor 1 r
    → Steps lx (add lx r)
Steps-add lx v (holds p m) = took m v p
Steps-add lx v refused = stopped
Steps-add lx v too_long = overflowed

Steps-block :
    (lx : Lexer) (r : Result Exception (Unit {0} × Cursor))
    → begins lx.cursor.rest b'/' b'*' ≡ true
    → block_comment lx.cursor ≡ r
    → Ensures Any lx.cursor 1 r
    → Steps lx (r >>= λ (x, c). ok (move lx c))
Steps-block lx (ok (tt, d)) h e (holds p m) = skipped (block_comment_mark lx.cursor d h e)
Steps-block lx _ h e refused = stopped
Steps-block lx _ h e too_long = overflowed

Steps-white_at :
    (s : Text) (l k : ℕ) (ts : List Token)
    → elem (get_or s 0 0) (codes " \t\r\n") ≡ true
    → s ≢ []
    → Steps
        (record { cursor = here s l k; tokens = ts })
        (advance (here s l k) >>= λ (x, c).
          ok (move (record { cursor = here s l k; tokens = ts }) c))
Steps-white_at [] l k ts h n = absurd (n refl)
Steps-white_at (c ∷ cs) l k ts h n = skipped (white-Skips c cs l k h)

Steps-white :
    (lx : Lexer)
    → elem (peek lx.cursor 0) (codes " \t\r\n") ≡ true
    → lx.cursor.rest ≢ []
    → Steps lx (advance lx.cursor >>= λ (x, c). ok (move lx c))
Steps-white lx h n = Steps-white_at lx.cursor.rest lx.cursor.line lx.cursor.col lx.tokens h n

Steps-if :
    {lx : Lexer} (b : Bool) {x y : Result Exception Lexer}
    → (b ≡ true → Steps lx x)
    → (b ≡ false → Steps lx y)
    → Steps lx (if b then x else y)
Steps-if true x y = x refl
Steps-if false x y = y refl

module _ (u : Unicode) where
  token_at-Ensures :
      (last : Option TokenType) (c : Cursor)
      → c.rest ≢ []
      → Ensures (Placed c.line c.col) c 1 (token_at u (peek c 0) last c)
  unfolding token_at
  token_at-Ensures last c h =
      Ensures-if (peek c 0 == b'"') (λ e. string-Ensures c _ _ (ground arith))
        (λ _.
          Ensures-if (peek c 0 == b'\'') (λ e. char-Ensures c _ _ (ground arith))
            (λ _.
              Ensures-if (is_digit (peek c 0)) (λ e. number-Ensures u last c _ _ e)
                (λ _.
                  Ensures-if (u.is_alpha (peek c 0) || peek c 0 == b'_')
                    (λ e. identifier-Ensures u c _ _ e) (λ _. symbol-Ensures c _ _ h))))

  step-Steps : (lx : Lexer) → lx.cursor.rest ≢ [] → Steps lx (step u (peek lx.cursor 0) lx)
  unfolding step
  step-Steps lx h =
      Steps-if (elem (peek lx.cursor 0) (codes " \t\r\n")) (λ e. Steps-white lx e h)
        (λ w.
          Steps-if (peek lx.cursor 0 == b'/' && peek lx.cursor 1 == b'/')
            (λ e. skipped (line_comment_mark lx.cursor e))
            (λ l.
              Steps-if (peek lx.cursor 0 == b'/' && peek lx.cursor 1 == b'*')
                (λ e. Steps-block lx _ e refl (block_comment-Ensures lx.cursor (ground arith)))
                (λ b.
                  Steps-add lx (record { no_white = w; no_line = l; no_block = b })
                    (token_at-Ensures _ lx.cursor h))))

  step_here-Steps :
      (lx : Lexer) {c : ℕ} {cs : Text} → lx.cursor.rest ≡ c ∷ cs → Steps lx (step u c lx)
  step_here-Steps lx e =
      subst (λ x. Steps lx (step u x lx)) (ap (λ s. get_or s 0 0) e) (step-Steps lx (λ n. cc))

-- What `tokenize` ends in: tokens of which the whole source consists, a MortError, or the ValueError of `int()`.
pub data Lexed (src : Text) : Result Exception (List Token) → Type 0 where
  lexed : {ts : List Token} → Lexemes [] src ts → Lexed src (ok ts)
  rejected : {e : MortError} → Lexed src (raise (mort_error e))
  overflow : Lexed src (raise value_error)

-- What the loop ends in, behind the text `before`.
data Goes (before : Text) (lx : Lexer) : Result Exception (List Token) → Type 0 where
  goes :
      (ts : List Token) → Lexemes before lx.cursor.rest ts → Goes before lx (ok (lx.tokens ++ ts))
  rejected : {e : MortError} → Goes before lx (raise (mort_error e))
  overflow : Goes before lx (raise value_error)

-- The cursor has the line and the column behind the text.
record IsAt (before : Text) (c : Cursor) : Type 0 where
  line_is : c.line ≡ line_after before 1
  col_is : c.col ≡ col_after before 1

Reads-IsAt :
    {before : Text} {c d : Cursor} → IsAt before c → (r : Reads c 1 d) → IsAt (before ++ r.read) d
Reads-IsAt i r = record {
  line_is = rw (line_after-append, ← i.line_is) r.line_is;
  col_is = rw (col_after-append, ← i.col_is) r.col_is;
}

IsAt-IsBehind :
    {before : Text} {c : Cursor} {t : Token}
    → IsAt before c
    → t.line ≡ c.line
    → t.col ≡ c.col
    → IsBehind before t
IsAt-IsBehind {before} i l k = record {
  line_is = l ∙ i.line_is ∙ line_after-eq before 1;
  col_is = k ∙ i.col_is ∙ col_after-eq before;
}

Reads-shorter : {c d : Cursor} → Reads c 1 d → length d.rest < length c.rest
Reads-shorter {c} {d} r = omega (arith, ap length r.splits, length-append r.read d.rest, r.long)

long-ne-nil : (s : Text) → 1 ≤ length s → s ≢ []
long-ne-nil [] h = absurd (omega arith)
long-ne-nil (c ∷ cs) h = cc

-- A blank in front, a token in front.
Goes-blank :
    {before : Text} {lx : Lexer} {c : Cursor} {r : Result Exception (List Token)}
    (k : Skips lx.cursor c)
    → Goes (before ++ k.reads.read) (move lx c) r
    → Goes before lx r
Goes-blank {c = c} k (goes ts l) = goes ts (blank k.reads.read c.rest k.reads.splits k.is_blank l)
Goes-blank k Goes.rejected = Goes.rejected
Goes-blank k Goes.overflow = Goes.overflow

Goes-token :
    {before : Text} {lx : Lexer} {c : Cursor} {t : Token} {r : Result Exception (List Token)}
    (m : Reads lx.cursor 1 c)
    → IsVisible lx.cursor.rest
    → IsBehind before t
    → Fits t.type t.value
    → Goes (before ++ m.read) (record { cursor = c; tokens = lx.tokens ++ t ∷ [] }) r
    → Goes before lx r
Goes-token {before} {lx} {c} {t} m v b f (goes ts l) =
    subst (λ z. Goes before lx (ok z)) (sym (append_assoc lx.tokens (t ∷ []) ts))
      (goes (t ∷ ts) (token m.read c.rest m.splits (long-ne-nil m.read m.long) v b f l))
Goes-token m v b f Goes.rejected = Goes.rejected
Goes-token m v b f Goes.overflow = Goes.overflow

Steps-Goes :
    {before : Text} {lx : Lexer} {r : Result Exception Lexer}
    (go : Lexer → Result Exception (List Token))
    → IsAt before lx.cursor
    → Steps lx r
    → ((next : Text) (lx' : Lexer)
        → length lx'.cursor.rest < length lx.cursor.rest
        → IsAt next lx'.cursor
        → Goes next lx' (go lx'))
    → Goes before lx (r >>= go)
Steps-Goes go i (skipped k) f = Goes-blank k (f _ _ (Reads-shorter k.reads) (Reads-IsAt i k.reads))
Steps-Goes go i (took m v p) f =
    Goes-token m v (IsAt-IsBehind i p.line_is p.col_is) p.fits
      (f _ _ (Reads-shorter m) (Reads-IsAt i m))
Steps-Goes go i stopped f = Goes.rejected
Steps-Goes go i overflowed f = Goes.overflow

module _ (u : Unicode) where
  round-Goes :
      (go : Lexer → Result Exception (List Token)) (s before : Text) (lx : Lexer)
      → IsAt before lx.cursor
      → lx.cursor.rest ≡ s
      → ((next : Text) (lx' : Lexer)
          → length lx'.cursor.rest < length lx.cursor.rest
          → IsAt next lx'.cursor
          → Goes next lx' (go lx'))
      → Goes before lx (round u go s lx)
  round-Goes go [] before lx i e k = goes (make eof nothing lx.cursor.line lx.cursor.col ∷ []) (
      subst (λ z. Lexemes before z (make eof nothing lx.cursor.line lx.cursor.col ∷ [])) (sym e)
        (finished refl refl (IsAt-IsBehind i refl refl)))
  round-Goes go (c ∷ cs) before lx i e k = Steps-Goes go i (step_here-Steps u lx e) k

  run-Goes :
      (fuel : ℕ) (before : Text) (lx : Lexer)
      → length lx.cursor.rest < fuel
      → IsAt before lx.cursor
      → Goes before lx (run u fuel lx)
  unfolding run
  run-Goes zero before lx h i = absurd (omega arith)
  run-Goes (suc fuel) before lx h i =
      round-Goes (run u fuel) lx.cursor.rest before lx i refl
        λ next lx' shorter at. run-Goes fuel next lx' (omega (arith, shorter)) at

Goes-Lexed :
    {src : Text} {r : Result Exception (List Token)} → Goes [] (initial src) r → Lexed src r
Goes-Lexed (goes ts l) = lexed l
Goes-Lexed Goes.rejected = Lexed.rejected
Goes-Lexed Goes.overflow = Lexed.overflow

-- On every source the lexer comes to an end: with a MortError, with the ValueError of `int()` on too many digits, or
-- with tokens and an end-of-file token; never with an IndexError. The source then consists of white spaces, line
-- comments up to their newline or the end, well-nested block comments, and one piece of one character or more for each
-- token, in the order of the tokens. A token's piece begins with no white space and no mark of a comment, and the
-- token has the line and the column at which its piece begins: one more than the newlines before it, and one more than
-- the characters since the last of them. Its value fits its type (an integer, a finite float, a byte, a raw text, a
-- name that is no keyword, or the text of the keyword or operator). The end-of-file token has the line and the column
-- behind the whole source.
pub tokenize-Lexed : (u : Unicode) (src : Text) → Lexed src (tokenize u src)
unfolding tokenize
tokenize-Lexed u src = Goes-Lexed (
    run-Goes u (suc (length src)) [] (initial src) (omega arith)
      (record { line_is = refl; col_is = refl }))

-- For every source the fuel of the model is enough: the loop of `tokenize` ends.
pub tokenize-ne-out_of_fuel : (u : Unicode) (src : Text) → tokenize u src ≢ out_of_fuel
tokenize-ne-out_of_fuel u src = ends (tokenize-Lexed u src)
  where
    ends : {r : Result Exception (List Token)} → Lexed src r → r ≢ out_of_fuel
    ends (lexed l) = cc
    ends Lexed.rejected = cc
    ends Lexed.overflow = cc

-- For every source, no access of the lexer is behind the end of the source.
pub tokenize-ne-index_error : (u : Unicode) (src : Text) → tokenize u src ≢ raise index_error
tokenize-ne-index_error u src = ends (tokenize-Lexed u src)
  where
    ends : {r : Result Exception (List Token)} → Lexed src r → r ≢ raise index_error
    ends (lexed l) = cc
    ends Lexed.rejected = cc
    ends Lexed.overflow = cc

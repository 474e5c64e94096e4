-- ===== src/Lexer/Literal/Quoted.antt =====
-- mort/lexer.py, `Lexer._string`: the raw text of a string literal is what stands between its quotes.
use mort.Base.{ℕ, ◌≡◌, ap, ap₂, ◌∙◌, subst, [], ◌∷◌, ◌++◌, Text}
use mort.Base.Result.{Result, ok, raise}
use mort.Lexer.Cursor.{Cursor}
use mort.Errors.{Exception}
use mort.Lexer.Literal.{string}
use mort.Lexer.Number.{Scanned, make}
use mort.Lexer.Progress.Fits.{IsRaw}
use mort.Token.{TokenType, Token, str}

abbrev pub here : Text → ℕ → ℕ → Cursor
here s l k = record { rest = s; line = l; col = k }

abbrev Read : Type 0
Read = Result Exception (Text × Cursor)

-- What the loop reads: a raw text that a quote follows.
data Quotes (s : Text) : Read → Type 0 where
  quotes :
      {raw : Text} {d : Cursor} → IsRaw raw → s ≡ raw ++ (b'"' ∷ d.rest) → Quotes s (ok (raw, d))
  fails : {e : Exception} → Quotes s (raise e)

-- What a handler leaves, and the text that its token holds.
abbrev pub Gives : Scanned → Text → Text → Type 0
Gives r raw rest =
    (t : Token) × (d : Cursor) × (r ≡ ok (t, d)) × (t.value ≡ str raw) × (d.rest ≡ rest)

Quotes-ok :
    {s raw : Text} {d : Cursor} {r : Read}
    → Quotes s r
    → r ≡ ok (raw, d)
    → IsRaw raw × (s ≡ raw ++ (b'"' ∷ d.rest))
Quotes-ok (quotes {raw = raw'} {d = d'} p e) h =
    (subst IsRaw (ap text h) p, e ∙ ap₂ (λ t u. t ++ (b'"' ∷ u)) (ap text h) (ap left h))
  where
    text : Read → Text
    text (ok (t, c)) = t
    text _ = []

    left : Read → Text
    left (ok (t, c)) = c.rest
    left _ = []
Quotes-ok fails h = cc

-- Behind the loop.
abbrev hold : ℕ → ℕ → Text × Cursor → Scanned
hold line col (raw, end) = ok (make TokenType.string (str raw) line col, end)

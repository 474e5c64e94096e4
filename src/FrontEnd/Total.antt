-- ===== src/FrontEnd/Total.antt =====
-- mortc.py and mort/lsp.py: the front end ends on every source.
use mort.Base.{List, [], ◌∷◌, Text}
use mort.Base.Result
use mort.Base.Result.{Result}
use mort.Errors.{Exception}
use mort.FrontEnd.{front_end}
use mort.Lexer.Cursor.{Unicode}
use mort.Lexer.Tokenize.{tokenize}
use mort.Lexer.Tokenize.Lexemes.{Lexemes, finished, blank, token}
use mort.Lexer.Tokenize.Sound.{Lexed, lexed, tokenize-Lexed}
use mort.Parser.Progress.{HasEof}
use mort.Parser.Progress.Program.{Parsed, parse-Parsed, too_many_digits}
use mort.Parser.Program.{parse}
use mort.Token.{Token}

cons-HasEof : (t : Token) (ts : List Token) → HasEof ts → HasEof (t ∷ ts)
cons-HasEof t [] h = absurd h
cons-HasEof t (u ∷ us) h = h

Lexemes-HasEof : {before text : Text} {ts : List Token} → Lexemes before text ts → HasEof ts
Lexemes-HasEof (finished type_is value_is behind) = type_is
Lexemes-HasEof (blank s rest splits is_blank l) = Lexemes-HasEof l
Lexemes-HasEof (token {t = t} {ts} s rest splits nonempty visible behind fits l) =
    cons-HasEof t ts (Lexemes-HasEof l)

-- On every source the front end ends with a program, a MortError, or the ValueError of a number of too
-- many digits; it never fails with an IndexError.
pub front_end-Parsed : (u : Unicode) (src : Text) → Parsed (front_end u src)
unfolding front_end
front_end-Parsed u src = outcome (tokenize u src) (tokenize-Lexed u src)
  where
    outcome : (r : Result Exception (List Token)) → Lexed src r → Parsed (Result.◌>>=◌ r parse)
    outcome _ (lexed {ts} l) = parse-Parsed ts (Lexemes-HasEof l)
    outcome _ (Lexed.rejected {e}) = Parsed.rejected e
    outcome _ Lexed.overflow = too_many_digits

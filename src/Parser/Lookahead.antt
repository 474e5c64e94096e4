-- ===== src/Parser/Lookahead.antt =====
-- mort/parser.py, `_looks_like_call_type_args`, `_looks_like_struct_lit`, `_looks_like_generic_qualifier`.
use mort.Base.{ℕ, zero, suc, Bool, true, false, not, ◌&&◌, List, [], ◌∷◌, if◌then◌else◌}
use mort.Base.Result
use mort.Base.Result.{Result, ok, raise}
use mort.Errors.{Exception, index_error}
use mort.Parser.State.{Parse, pure, ◌>>=◌, peek}
use mort.Token.{TokenType, Token, ◌is◌, one_of, lt, gt, shr, semi, eof, ident, lparen, lbrace, dot}

-- Whether the next token, of those behind the current one, is of the type `follow`.
abbrev pub next_is : TokenType → List Token → Result Exception Bool
next_is follow [] = raise index_error
next_is follow (t ∷ ts) = ok (t.type is follow)

-- One round of a scan over nested angles: it goes on at a depth, or ends.
pub data Round : Type 0 where
  go : ℕ → Round
  stop : Result Exception Bool → Round

-- `>` at a depth, and `>>`. Behind the first token, `<`, the depth is 1 at least.
abbrev pub close_one : TokenType → ℕ → List Token → Round
close_one follow zero ts = go zero
close_one follow (suc zero) ts = stop (next_is follow ts)
close_one follow (suc (suc d)) ts = go (suc d)

abbrev pub close_two : TokenType → ℕ → List Token → Round
close_two follow zero ts = stop (ok false)
close_two follow (suc zero) ts = stop (ok false)
close_two follow (suc (suc zero)) ts = stop (next_is follow ts)
close_two follow (suc (suc (suc d))) ts = go (suc d)

-- `shifts` says whether the scan knows `>>`.
abbrev pub round : TokenType → Bool → ℕ → TokenType → List Token → Round
round follow shifts depth t ts =
    if t is lt
    then go (suc depth)
    else if t is gt
    then close_one follow depth ts
    else if shifts && t is shr
    then close_two follow depth ts
    else if one_of t (semi ∷ (eof ∷ []))
    then stop (ok false)
    else go depth

unfoldable pub angles : TokenType → Bool → ℕ → List Token → Result Exception Bool
angles follow shifts depth [] = ok false
angles follow shifts depth (t ∷ ts) = elim (round follow shifts depth t.type ts) [
  | go d ↦ angles follow shifts d ts
  | stop r ↦ r
]

abbrev pub answer : Result Exception Bool → Parse Bool
answer r p = Result.◌>>=◌ r λ b. ok (b, p)

abbrev pub behind_first : List Token → List Token
behind_first [] = []
behind_first (t ∷ ts) = ts

-- `_looks_like_call_type_args()`
unfoldable pub looks_like_call_type_args : Parse Bool
looks_like_call_type_args p = answer (angles lparen true 0 p.toks) p

-- `_looks_like_struct_lit()`
unfoldable pub looks_like_struct_lit : Parse Bool
looks_like_struct_lit = do
  t ← peek 0
  if not (t.type is ident) then pure false else (do
    n ← peek 1
    if not (n.type is lt)
        then pure (n.type is lbrace)
        else (λ p. answer (angles lbrace false 0 (behind_first p.toks)) p))

-- `_looks_like_generic_qualifier()`
unfoldable pub looks_like_generic_qualifier : Parse Bool
looks_like_generic_qualifier = do
  t ← peek 0
  if not (t.type is ident) then pure false else (do
    n ← peek 1
    if not (n.type is lt)
        then pure false
        else (λ p. answer (angles dot true 0 (behind_first p.toks)) p))

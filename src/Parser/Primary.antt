-- ===== src/Parser/Primary.antt =====
-- mort/parser.py: `_primary`, over the production `unary` of the operands inside it.
use mort.Ast.{
  Expr, Exprs, Inits, int_lit, float_lit, char_lit, null_lit, bool_lit, str_lit, var, struct_lit,
  tuple_lit, array_lit, array_repeat, no_exprs, more_exprs, no_inits, more_inits,
}
use mort.Base.{ℕ, ltb, Bool, true, false, not, ◌&&◌, List, [], ◌∷◌, if◌then◌else◌, length, Text}
use mort.Base.Result
use mort.Base.Result.{ok, out_of_fuel}
use mort.Errors.{short_tuple, unexpected_token, empty_array}
use mort.Parser.Levels.{logic_or}
use mort.Parser.Lookahead.{
  looks_like_call_type_args, looks_like_struct_lit, looks_like_generic_qualifier,
}
use mort.Parser.Loops.{fuel, commas_until, fields}
use mort.Parser.State.{
  Parse, pure, ◌>>=◌, ◌>>◌, fail_at, fail_showing, peek, at, advance, expect, expect_name, text_of,
}
use mort.Parser.Types.{type_name}
use mort.Token.{
  TokenType, Token, ◌is◌, lt, lparen, rparen, lbracket, rbracket, lbrace, rbrace, comma, colon,
  semi, kw_null, kw_true, kw_false, ident,
}

-- The lists of the tree.
abbrev pub to_exprs : List Expr → Exprs
to_exprs [] = no_exprs
to_exprs (e ∷ es) = more_exprs e (to_exprs es)

abbrev pub to_inits : List (Text × Expr) → Inits
to_inits [] = no_inits
to_inits ((name, e) ∷ es) = more_inits name e (to_inits es)

-- `self._no_struct_lit = flag` around `m`, with the old value put back behind it.
unfoldable pub with_flag : {A : Type 0} → Bool → Parse A → Parse A
with_flag flag m p =
    Result.◌>>=◌ (m (record { toks = p.toks; no_struct_lit = flag }))
      λ (e, q). ok (e, record { toks = q.toks; no_struct_lit = p.no_struct_lit })

-- `null`, which names a function before a call.
unfoldable pub null_literal : Token → Parse Expr
null_literal t = do
  advance
  c ← at lparen
  if c then pure (var (text_of t.value) t.line) else (do
    angle ← at lt
    generic ← if angle then looks_like_call_type_args else pure false
    if generic then pure (var (text_of t.value) t.line) else pure (null_lit t.line))

module _ (unary : Parse Expr) where
  -- Behind the first element of `[e, ...]` or `[e; n]`.
  unfoldable pub array_rest : ℕ → Expr → Parse Expr
  array_rest line first = do
    s ← at semi
    if s
        then (do
          advance
          n ← expect TokenType.int "an array repeat count"
          expect rbracket "']'"
          pure (array_repeat first n.value line))
        else (do
          elements ← λ p. commas_until (logic_or unary) rbracket (fuel p) (first ∷ []) p
          expect rbracket "']'"
          pure (array_lit (to_exprs elements) line))

  -- `_array_lit()`
  unfoldable pub array_literal : Parse Expr
  array_literal = do
    t ← advance
    c ← at rbracket
    if c then fail_at empty_array t.line else (do first ← logic_or unary; array_rest t.line first)

  unfoldable pub init : Parse (Text × Expr)
  init = do name ← expect_name "field name"; expect colon "':'"; e ← logic_or unary; pure (name, e)

  -- `_struct_lit()`
  unfoldable pub struct_literal : Parse Expr
  struct_literal = do
    name ← type_name
    t ← expect lbrace "'{'"
    inits ← λ p. fields init (fuel p) [] p
    expect rbrace "'}'"
    pure (struct_lit name (to_inits inits) t.line)

  -- An identifier: a struct literal, a generic qualifier, or a variable.
  unfoldable pub named : Token → Parse Expr
  named t = do
    literal ← looks_like_struct_lit
    allowed ← λ p. ok (not p.no_struct_lit, p)
    if literal && allowed then struct_literal else (do
      generic ← looks_like_generic_qualifier
      if generic
          then (do name ← type_name; pure (var name t.line))
          else (do advance; pure (var (text_of t.value) t.line)))

  -- Between parentheses, where struct literals are allowed again.
  unfoldable pub inside : ℕ → Parse Expr
  inside line = do
    first ← logic_or unary
    c ← at comma
    if c
        then (do
          elements ← λ p. commas_until (logic_or unary) rparen (fuel p) (first ∷ []) p
          if ltb (length elements) 2
              then fail_at short_tuple line
              else pure (tuple_lit (to_exprs elements) line))
        else pure first

  unfoldable pub parenthesised : Parse Expr
  parenthesised = do t ← advance; e ← with_flag false (inside t.line); expect rparen "')'"; pure e

  -- `_primary()`
  unfoldable pub primary : Parse Expr
  primary = do
    t ← peek 0
    if t.type is TokenType.int
        then (do advance; pure (int_lit t.value t.line))
        else if t.type is TokenType.float
        then (do advance; pure (float_lit t.value t.line))
        else if t.type is TokenType.char
        then (do advance; pure (char_lit t.value t.line))
        else if t.type is kw_null
        then null_literal t
        else if t.type is kw_true
        then (do advance; pure (bool_lit true t.line))
        else if t.type is kw_false
        then (do advance; pure (bool_lit false t.line))
        else if t.type is TokenType.string
        then (do advance; pure (str_lit t.value t.line))
        else if t.type is lbracket
        then array_literal
        else if t.type is ident
        then named t
        else if t.type is lparen
        then parenthesised
        else fail_showing unexpected_token t.value t.line

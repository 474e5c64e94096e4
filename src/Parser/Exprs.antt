-- ===== src/Parser/Exprs.antt =====
-- mort/parser.py: `_expression`, `_unary` and `_postfix`. Each production takes the production
-- `unary` of the operands inside it; `unary_in` ties the knot, with a unit of fuel for each operand inside
-- an operand.
use mort.Ast.{Expr, var, call, try, move, field_access, index}
use mort.Base.{
  ℕ, zero, suc, false, List, [], ◌∷◌, ◌++◌, Option, none, some, if◌then◌else◌, Text, codes,
}
use mort.Base.Result.{out_of_fuel}
use mort.Errors.{type_arguments_need_name, call_needs_name}
use mort.Parser.Levels.{logic_or}
use mort.Parser.Lookahead.{looks_like_call_type_args}
use mort.Parser.Loops.{fuel, one_or_more, arguments}
use mort.Parser.Primary.{to_exprs, primary}
use mort.Parser.State.{
  Parse, pure, ◌>>=◌, ◌>>◌, fail_at, peek, at, advance, expect, expect_name, expect_type_close,
  text_of, show_value,
}
use mort.Parser.Types.{type_name}
use mort.Token.{
  TokenType, Token, ◌is◌, one_of, amp, lt, minus, star, bang, tilde, kw_try, kw_move, lparen,
  rparen, lbracket, rbracket, dot,
}

-- `_qualified_name(expr)`
abbrev pub qualified_name : Expr → Option Text
qualified_name (var name line) = some name
qualified_name (field_access obj field line) = elim (qualified_name obj) [
  | some base ↦ some (base ++ (codes "." ++ field))
  | none ↦ none
]
qualified_name _ = none

-- `str` of what follows a dot: a tuple index or a field name.
unfoldable pub member : Parse Text
member = do
  c ← at TokenType.int
  if c then (do t ← advance; show_value t.value) else expect_name "field name"

module _ (unary : Parse Expr) where
  -- The arguments of a call and its closing parenthesis.
  unfoldable pub call_arguments : Parse (List Expr)
  call_arguments = do args ← arguments (logic_or unary) rparen; expect rparen "')'"; pure args

  -- `f<T>(...)`, at the angle.
  unfoldable pub generic_call : Option Text → Parse Expr
  generic_call none = do t ← peek 0; fail_at type_arguments_need_name t.line
  generic_call (some name) = do
    advance
    type_args ← one_or_more type_name
    expect_type_close
    lp ← expect lparen "'('"
    args ← call_arguments
    pure (call name (to_exprs args) lp.line type_args)

  -- `f(...)`, at the parenthesis.
  unfoldable pub plain_call : Option Text → Parse Expr
  plain_call none = do t ← peek 0; fail_at call_needs_name t.line
  plain_call (some name) = do
    lp ← advance
    args ← call_arguments
    pure (call name (to_exprs args) lp.line [])

  -- One round of the loop of `_postfix` at the token `t`, with what goes on after it.
  unfoldable pub suffix_at : (Expr → Parse Expr) → Expr → Token → Parse Expr
  suffix_at again e t =
      if t.type is lparen
      then (do e' ← plain_call (qualified_name e); again e')
      else if t.type is dot
      then (do advance; name ← member; again (field_access e name t.line))
      else if t.type is lbracket
      then (do advance; i ← logic_or unary; expect rbracket "']'"; again (index e i t.line))
      else pure e

  unfoldable pub suffix : (Expr → Parse Expr) → Expr → Parse Expr
  suffix again e = do
    angle ← at lt
    generic ← if angle then looks_like_call_type_args else pure false
    t ← peek 0
    if generic then (do e' ← generic_call (qualified_name e); again e') else suffix_at again e t

  unfoldable pub suffixes : ℕ → Expr → Parse Expr
  suffixes zero e p = out_of_fuel
  suffixes (suc n) e p = suffix (suffixes n) e p

  -- `_postfix()`
  unfoldable pub postfix : Parse Expr
  postfix = do e ← primary unary; λ p. suffixes (fuel p) e p

  unfoldable pub unary_step : Parse Expr
  unary_step = do
    t ← peek 0
    if one_of t.type (bang ∷ minus ∷ amp ∷ star ∷ tilde ∷ [])
        then (do
          advance
          e ← unary
          pure (Expr.unary (if t.type is amp then codes "&" else text_of t.value) e t.line))
        else if t.type is kw_try
        then (do advance; e ← unary; pure (try e t.line))
        else if t.type is kw_move
        then (do advance; e ← unary; pure (move e t.line))
        else postfix

-- `_unary()`
unfoldable pub unary_in : ℕ → Parse Expr
unary_in zero p = out_of_fuel
unary_in (suc n) p = unary_step (unary_in n) p

-- `_expression()`
unfoldable pub expression : Parse Expr
expression p = logic_or (unary_in (fuel p)) p

-- ===== src/Parser/Stmts.antt =====
-- mort/parser.py: the statements that hold no block, and the parts of those that do.
use mort.Ast.{
  Expr, var, unary, field_access, index, Stmt, let_stmt, assign, return, expr_stmt, asm, defer,
}
use mort.Base.{
  ℕ, Bool, true, false, ◌&&◌, List, [], ◌∷◌, Option, none, some, if◌then◌else◌, Text, codes,
  text_eq,
}
use mort.Errors.{invalid_target}
use mort.Parser.Exprs.{expression}
use mort.Parser.Primary.{with_flag}
use mort.Parser.State.{
  Parse, pure, ◌>>=◌, ◌>>◌, fail_at, peek, at, advance, expect, expect_name, text_of,
}
use mort.Parser.Types.{type_name}
use mort.Token.{
  TokenType, ◌is◌, assign as assign_tok, plus_assign, minus_assign, star_assign, slash_assign,
  percent_assign, amp_assign, pipe_assign, caret_assign, shl_assign, shr_assign, colon, semi,
  lparen, rparen, dot_dot, dot_dot_eq, ident,
}

-- `ASSIGNMENT_OPS`
abbrev pub assignment_ops : List (TokenType × Text)
assignment_ops =
    (assign_tok, codes "=")
    ∷ (plus_assign, codes "+=")
    ∷ (minus_assign, codes "-=")
    ∷ (star_assign, codes "*=")
    ∷ (slash_assign, codes "/=")
    ∷ (percent_assign, codes "%=")
    ∷ (amp_assign, codes "&=")
    ∷ (pipe_assign, codes "|=")
    ∷ (caret_assign, codes "^=")
    ∷ (shl_assign, codes "<<=")
    ∷ (shr_assign, codes ">>=")
    ∷ []

-- `ASSIGNMENT_OPS.get(t)`
abbrev pub assignment_op : List (TokenType × Text) → TokenType → Option Text
assignment_op [] t = none
assignment_op ((k, s) ∷ ops) t = if t is k then some s else assignment_op ops t

-- `_is_lvalue(e)`
abbrev pub is_lvalue : Expr → Bool
is_lvalue (var name line) = true
is_lvalue (unary op e line) = text_eq op (codes "*")
is_lvalue (field_access e name line) = true
is_lvalue (index e i line) = true
is_lvalue _ = false

-- `: type`, if it is there.
unfoldable pub annotation : Parse (Option Text)
annotation = do c ← at colon; if c then (do advance; t ← type_name; pure (some t)) else pure none

-- `_let_stmt(mutable)`
unfoldable pub let_statement : Bool → Parse Stmt
let_statement mutable = do
  t ← advance
  name ← expect_name "variable name"
  decl ← annotation
  expect assign_tok "'='"
  e ← expression
  expect semi "';'"
  pure (let_stmt name decl e t.line mutable)

-- `_return_stmt()`
unfoldable pub return_statement : Parse Stmt
return_statement = do
  t ← advance
  c ← at semi
  e ← if c then pure none else (do e ← expression; pure (some e))
  expect semi "';'"
  pure (return e t.line)

-- `_condition()`
unfoldable pub condition : Parse Expr
condition = with_flag true expression

-- `_asm_stmt()`
unfoldable pub asm_statement : Parse Stmt
asm_statement = do
  t ← advance
  expect lparen "'('"
  s ← expect TokenType.string "an assembly string"
  expect rparen "')'"
  expect semi "';'"
  pure (asm s.value t.line)

-- `break;` and `continue;`
unfoldable pub jump : (ℕ → Stmt) → Parse Stmt
jump make = do t ← advance; expect semi "';'"; pure (make t.line)

unfoldable pub defer_statement : Parse Stmt
defer_statement = do t ← advance; e ← expression; expect semi "';'"; pure (defer e t.line)

-- Behind the expression `e`: the operator of an assignment and its value, or nothing.
unfoldable pub assign_or_expr : Expr → ℕ → Option Text → Parse Stmt
assign_or_expr e line none = do expect semi "';'"; pure (expr_stmt e line)
assign_or_expr e line (some op) = do
  advance
  if is_lvalue e
      then (do value ← expression; expect semi "';'"; pure (assign e value line op))
      else fail_at invalid_target line

-- `_expr_or_assign()`
unfoldable pub expr_or_assign : Parse Stmt
expr_or_assign = do
  t ← peek 0
  e ← expression
  o ← peek 0
  assign_or_expr e t.line (assignment_op assignment_ops o.type)

-- The range of a `for`: start, whether the end is included, and end.
unfoldable pub range_bounds : Parse (Expr × Bool × Expr)
range_bounds = do
  start ← expression
  c ← at dot_dot_eq
  if c
      then (do advance; end ← expression; pure (start, true, end))
      else (do expect dot_dot "'..'"; end ← expression; pure (start, false, end))

-- The range, with struct literals banned.
unfoldable pub range : Parse (Expr × Bool × Expr)
range = with_flag true range_bounds

-- The pattern of an arm: `_` is the wildcard.
unfoldable pub pattern_of : Parse (Option Expr)
pattern_of = do
  t ← peek 0
  if t.type is ident && text_eq (text_of t.value) (codes "_")
      then (do advance; pure none)
      else (do e ← expression; pure (some e))

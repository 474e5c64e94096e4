-- ===== src/Parser/Progress/Stmts.antt =====
-- mort/parser.py: the statements without blocks meet the postcondition.
use mort.Base.{
  or_left, ℕ, ◌≡◌, refl, sym, subst, Bool, true, false, not, ◌||◌, List, [], ◌∷◌, if◌then◌else◌,
  arith, Text, some,
}
use mort.Parser.Progress.{Moves}
use mort.Parser.Progress.Helpers.{expect-Moves, expect_name-Moves}
use mort.Parser.Progress.Rules.{knowing, relaxed, pure-Moves, fail-Moves, followed, and_then}
use mort.Parser.Progress.Tokens.{
  advance-Moves, peek-bind, peek-keep, at-bind, if-Moves, if_at, not_end,
}
use mort.Token.{
  TokenType, ◌is◌, assign as assign_tok, colon, semi, eof, lparen, rparen, dot_dot, dot_dot_eq,
}
use mort.Ast.{Expr, Stmt}
use mort.Parser.Progress.Exprs.{with_flag-Moves}
use mort.Parser.Progress.Postfix.{expression-Moves}
use mort.Parser.Progress.Types.{type_name-Moves}
use mort.Parser.Stmts.{
  assignment_ops, assignment_op, is_lvalue, annotation, let_statement, return_statement, condition,
  asm_statement, jump, defer_statement, assign_or_expr, expr_or_assign, range_bounds, range,
}

pub annotation-Moves : {n : ℕ} → Moves false 0 n annotation
unfolding annotation
annotation-Moves = at-bind colon refl λ a.
    if_at a
      (and_then (relaxed advance-Moves) λ _. and_then (relaxed type_name-Moves) λ _. pure-Moves _)
      (pure-Moves _)

pub let_statement-Moves : {n : ℕ} (mutable : Bool) → Moves true 1 n (let_statement mutable)
unfolding let_statement
let_statement-Moves mutable = followed advance-Moves λ _.
    and_then (relaxed (expect_name-Moves _)) λ _. and_then annotation-Moves λ _.
      and_then (relaxed (expect-Moves assign_tok _ refl)) λ _.
        and_then (relaxed expression-Moves)
          λ _. and_then (relaxed (expect-Moves semi _ refl)) λ _. pure-Moves _

pub return_statement-Moves : {n : ℕ} → Moves true 1 n return_statement
unfolding return_statement
return_statement-Moves = followed advance-Moves λ _. at-bind semi refl λ a. knowing (
    and_then (if-Moves a (pure-Moves _) (and_then (relaxed expression-Moves) λ _. pure-Moves _))
      λ _. and_then (relaxed (expect-Moves semi _ refl)) λ _. pure-Moves _)

pub condition-Moves : {n : ℕ} → Moves false 1 n condition
unfolding condition
condition-Moves = with_flag-Moves true expression-Moves

pub asm_statement-Moves : {n : ℕ} → Moves true 1 n asm_statement
unfolding asm_statement
asm_statement-Moves = followed advance-Moves λ _.
    and_then (relaxed (expect-Moves lparen _ refl)) λ _.
      and_then (relaxed (expect-Moves TokenType.string _ refl)) λ _.
        and_then (relaxed (expect-Moves rparen _ refl))
          λ _. and_then (relaxed (expect-Moves semi _ refl)) λ _. pure-Moves _

pub jump-Moves : {n : ℕ} (make : ℕ → Stmt) → Moves true 1 n (jump make)
unfolding jump
jump-Moves make =
    followed advance-Moves λ _. and_then (relaxed (expect-Moves semi _ refl)) λ _. pure-Moves _

pub defer_statement-Moves : {n : ℕ} → Moves true 1 n defer_statement
unfolding defer_statement
defer_statement-Moves = followed advance-Moves λ _.
    and_then (relaxed expression-Moves)
      λ _. and_then (relaxed (expect-Moves semi _ refl)) λ _. pure-Moves _

-- No operator of an assignment stands at the end of the file.
abbrev at_eof : List (TokenType × Text) → Bool
at_eof [] = false
at_eof ((k, s) ∷ ops) = k is eof || at_eof ops

by_operator :
    {n : ℕ} (e : Expr) (line : ℕ) (ops : List (TokenType × Text)) (t : TokenType)
    → at_eof ops ≡ false
    → Moves (not (t is eof)) 0 n (assign_or_expr e line (assignment_op ops t))
unfolding assign_or_expr
by_operator e line [] t h =
    and_then (relaxed (knowing (expect-Moves semi _ refl))) λ _. pure-Moves _
by_operator {n} e line ((k, s) ∷ ops) t h =
    by_test (t is k) refl (by_operator e line ops t (ground arith))
  where
    by_test :
        (a : Bool)
        → (t is k) ≡ a
        → Moves (not (t is eof)) 0 n (assign_or_expr e line (assignment_op ops t))
        → Moves
            (not (t is eof))
            0
            n
            (assign_or_expr e line (if a then some s else assignment_op ops t))
    by_test true q r =
        subst (λ u. Moves (not u) 0 n (assign_or_expr e line (some s)))
          (sym (not_end t k q (or_left (k is eof) (at_eof ops) h)))
          (and_then (relaxed advance-Moves) λ _.
            if-Moves (is_lvalue e)
              (and_then (relaxed expression-Moves)
                λ _. and_then (relaxed (expect-Moves semi _ refl)) λ _. pure-Moves _)
              (fail-Moves _ _))
    by_test false q r = r

pub expr_or_assign-Moves : {n : ℕ} → Moves false 1 n expr_or_assign
unfolding expr_or_assign
expr_or_assign-Moves = peek-keep λ t.
    followed expression-Moves λ e. peek-bind λ o. by_operator e t.line assignment_ops o.type refl

pub range-Moves : {n : ℕ} → Moves false 0 n range
unfolding range range_bounds
range-Moves = with_flag-Moves true (
    and_then (relaxed expression-Moves) λ _. at-bind dot_dot_eq refl λ a.
      if_at a
        (and_then (relaxed advance-Moves)
          λ _. and_then (relaxed expression-Moves) λ _. pure-Moves _)
        (and_then (relaxed (expect-Moves dot_dot _ refl))
          λ _. and_then (relaxed expression-Moves) λ _. pure-Moves _))

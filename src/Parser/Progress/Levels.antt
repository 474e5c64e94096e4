-- ===== src/Parser/Progress/Levels.antt =====
-- mort/parser.py: `_cast` and the binary operators meet the postcondition.
use mort.Base.{ℕ, zero, suc, ◌≤◌, ◌<◌, ◌≡◌, refl, false, List, arith, Text}
use mort.Parser.Progress.{Moves}
use mort.Parser.Progress.Rules.{
  fewer, relaxed, fewer_after, fuelled, same, pure-Moves, followed, and_then,
}
use mort.Parser.Progress.Tokens.{advance-Moves, at-bind, at_any-bind, if_at}
use mort.Ast.{Expr}
use mort.Parser.Levels.{
  operations, left_assoc, casts, cast_level, factor, term, shift, comparison, equality, bitand,
  bitxor, bitor, logic_and, logic_or,
}
use mort.Parser.Progress.Types.{type_name-Moves}
use mort.Parser.State.{Parse}
use mort.Token.{TokenType, Token, one_of, eof, kw_as}

module _ (ops : List TokenType) (op_text : Token → Text) {operand : Parse Expr} {n : ℕ}
    (no_eof : one_of eof ops ≡ false) (eats : Moves false 1 n operand) where
  operations-Moves :
      (k m : ℕ) (x : Expr) → m ≤ n → m < k → Moves false 0 m (operations ops op_text operand k x)
  unfolding operations
  operations-Moves zero m x h l = absurd (omega arith)
  operations-Moves (suc k) m x h l =
      same _ _ (λ p. refl)
        (at_any-bind ops no_eof λ a.
          if_at a
            (relaxed (
              fewer_after advance-Moves λ j lj t.
                and_then (relaxed (fewer (omega arith) eats))
                  λ y. operations-Moves k j _ (omega arith) (omega arith)))
            (pure-Moves _))

  pub left_assoc-Moves : Moves false 1 n (left_assoc ops op_text operand)
  unfolding left_assoc
  left_assoc-Moves =
      followed eats
        λ x. fuelled (λ k. operations ops op_text operand k x) λ k m h l. operations-Moves k m _ h l

module _ {unary : Parse Expr} {n : ℕ} (eats : Moves false 1 n unary) where
  casts-Moves : (k m : ℕ) (x : Expr) → m ≤ n → m < k → Moves false 0 m (casts unary k x)
  unfolding casts
  casts-Moves zero m x h l = absurd (omega arith)
  casts-Moves (suc k) m x h l =
      same _ _ (λ p. refl)
        (at-bind kw_as refl λ a.
          if_at a
            (relaxed (
              fewer_after advance-Moves λ j lj t.
                and_then (relaxed type_name-Moves)
                  λ y. casts-Moves k j _ (omega arith) (omega arith)))
            (pure-Moves _))

  cast_level-Moves : Moves false 1 n (cast_level unary)
  unfolding cast_level
  cast_level-Moves =
      followed eats λ x. fuelled (λ k. casts unary k x) λ k m h l. casts-Moves k m _ h l

  comparison-Moves : Moves false 1 n (comparison unary)
  unfolding comparison shift term factor
  comparison-Moves = left_assoc-Moves _ _ refl (
      left_assoc-Moves _ _ refl
        (left_assoc-Moves _ _ refl (left_assoc-Moves _ _ refl cast_level-Moves)))

  -- Every level of the operators, up to the loosest.
  pub logic_or-Moves : Moves false 1 n (logic_or unary)
  unfolding logic_or logic_and bitor bitxor bitand equality
  logic_or-Moves = left_assoc-Moves _ _ refl (
      left_assoc-Moves _ _ refl (
        left_assoc-Moves _ _ refl (
          left_assoc-Moves _ _ refl
            (left_assoc-Moves _ _ refl (left_assoc-Moves _ _ refl comparison-Moves)))))

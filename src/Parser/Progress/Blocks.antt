-- ===== src/Parser/Progress/Blocks.antt =====
-- mort/parser.py: the statements with blocks, and blocks, meet the postcondition.
use mort.Base.{ℕ, zero, suc, ◌≤◌, ◌<◌, refl, true, false, arith, text_eq, codes}
use mort.Parser.Progress.{Moves}
use mort.Parser.Progress.Helpers.{expect-Moves, expect_name-Moves}
use mort.Parser.Progress.Loops.{repeat-Moves}
use mort.Parser.Progress.Rules.{
  fewer, knowing, relaxed, none_left, fewer_after, fuelled, fuelled_eats, same, pure-Moves, after,
  followed, and_then,
}
use mort.Parser.Progress.Tokens.{
  advance-Moves, peek-bind, peek-keep, at-bind, at_end-bind, if-Moves, if_at, if_is, if_is_and,
}
use mort.Token.{
  lbrace, rbrace, kw_let, kw_const, kw_return, kw_if, kw_else, kw_while, kw_loop, kw_for, kw_in,
  kw_asm, kw_break, kw_continue, kw_match, kw_defer, ident, fat_arrow, comma,
}
use mort.Ast.{Stmt}
use mort.Parser.Progress.Postfix.{expression-Moves}
use mort.Parser.Progress.Stmts.{
  annotation-Moves, let_statement-Moves, return_statement-Moves, condition-Moves,
  asm_statement-Moves, jump-Moves, defer_statement-Moves, expr_or_assign-Moves, range-Moves,
}
use mort.Parser.State.{Parse, text_of}
use mort.Parser.Stmts.{pattern_of}
use mort.Parser.Blocks.{
  if_statement, while_statement, loop_statement, for_statement, arms, match_statement, statement,
  block_step, block_in, block_stmt,
}

module _ {block_at : Parse Stmt} {n : ℕ} (eats : Moves false 1 n block_at) where
  if_statement-Moves : (k m : ℕ) → m ≤ n → m < k → Moves true 1 m (if_statement block_at k)
  unfolding if_statement
  if_statement-Moves zero m h l = absurd (omega arith)
  if_statement-Moves (suc k) m h l =
      same _ _ (λ p. refl)
        (fewer_after advance-Moves λ j lj t. and_then (relaxed condition-Moves) λ _.
          and_then (relaxed (fewer (omega arith) eats)) λ _. at-bind kw_else refl λ a.
            and_then
              (if_at a
                (and_then (relaxed advance-Moves) λ _. at-bind kw_if refl λ again.
                  and_then
                    (if_at again (relaxed (if_statement-Moves k j (omega arith) (omega arith)))
                      (relaxed (fewer (omega arith) eats)))
                    λ _. pure-Moves _)
                (pure-Moves _))
              λ _. pure-Moves _)

  while_statement-Moves : Moves true 1 n (while_statement block_at)
  unfolding while_statement
  while_statement-Moves =
      followed advance-Moves
        λ _. and_then (relaxed condition-Moves) λ _. and_then (relaxed eats) λ _. pure-Moves _

  loop_statement-Moves : Moves true 1 n (loop_statement block_at)
  unfolding loop_statement
  loop_statement-Moves = followed advance-Moves λ _. and_then (relaxed eats) λ _. pure-Moves _

  for_statement-Moves : Moves true 1 n (for_statement block_at)
  unfolding for_statement
  for_statement-Moves = followed advance-Moves λ _. and_then (relaxed (expect_name-Moves _)) λ _.
      and_then annotation-Moves λ _.
        and_then (relaxed (expect-Moves kw_in _ refl))
          λ _. and_then range-Moves λ _. and_then (relaxed eats) λ _. pure-Moves _

  pattern_of-Moves : Moves false 1 n (pattern_of)
  unfolding pattern_of
  pattern_of-Moves = peek-bind λ t.
      if_is_and t.type ident (text_eq (text_of t.value) (codes "_")) refl
        (followed advance-Moves λ _. pure-Moves _)
        (knowing (followed expression-Moves λ _. pure-Moves _))

  arms-Moves : (k m : ℕ) → m ≤ n → m < k → Moves false 0 m (arms block_at k)
  unfolding arms
  arms-Moves zero m h l = absurd (omega arith)
  arms-Moves (suc k) m h l =
      same _ _ (λ p. refl)
        (at_end-bind _ λ stop. if-Moves stop (pure-Moves _) (
          peek-keep λ t. relaxed (
            fewer_after (fewer h pattern_of-Moves) λ j lj x.
              and_then (relaxed (expect-Moves fat_arrow _ refl)) λ _.
                and_then (relaxed (fewer (omega arith) eats)) λ _. at-bind comma refl λ a.
                  if_at a
                    (and_then (relaxed advance-Moves)
                      λ _. and_then (arms-Moves k j (omega arith) (omega arith)) λ _. pure-Moves _)
                    (and_then (arms-Moves k j (omega arith) (omega arith)) λ _. pure-Moves _))))

  match_statement-Moves : Moves true 1 n (match_statement block_at)
  unfolding match_statement
  match_statement-Moves = followed advance-Moves λ _. and_then (relaxed condition-Moves) λ _.
      and_then (relaxed (expect-Moves lbrace _ refl)) λ _.
        and_then (fuelled (λ k. arms block_at k) λ k m h l. arms-Moves k m h l)
          λ _. and_then (relaxed (expect-Moves rbrace _ refl)) λ _. pure-Moves _

  statement-Moves : Moves false 1 n (statement block_at)
  unfolding statement
  statement-Moves = peek-bind λ t. if_is t.type kw_let refl (let_statement-Moves true) (
      if_is t.type kw_const refl (let_statement-Moves false) (
        if_is t.type kw_return refl return_statement-Moves (
          if_is t.type kw_if refl
            (fuelled_eats (λ k. if_statement block_at k) λ k m h l. if_statement-Moves k m h l)
            (if_is t.type kw_while refl while_statement-Moves (
              if_is t.type kw_loop refl loop_statement-Moves (
                if_is t.type kw_for refl for_statement-Moves (
                  if_is t.type kw_asm refl asm_statement-Moves (
                    if_is t.type kw_break refl (jump-Moves _) (
                      if_is t.type kw_continue refl (jump-Moves _) (
                        if_is t.type kw_match refl match_statement-Moves (
                          if_is t.type kw_defer refl defer_statement-Moves (
                            if_is t.type lbrace refl (knowing eats)
                              (knowing expr_or_assign-Moves)))))))))))))

  block_step-Moves : Moves false 1 (suc n) (block_step block_at)
  unfolding block_step
  block_step-Moves = peek-keep λ t. after (expect-Moves lbrace _ refl) λ _.
      and_then (repeat-Moves statement-Moves _)
        λ _. and_then (relaxed (expect-Moves rbrace _ refl)) λ _. pure-Moves _

block_in-Moves : (k n : ℕ) → n < k → Moves false 1 n (block_in k)
unfolding block_in
block_in-Moves zero n l = absurd (omega arith)
block_in-Moves (suc k) zero l = none_left
block_in-Moves (suc k) (suc n) l =
    same _ _ (λ p. refl) (block_step-Moves (block_in-Moves k n (omega arith)))

pub block_stmt-Moves : {n : ℕ} → Moves false 1 n block_stmt
unfolding block_stmt
block_stmt-Moves = same _ _ (λ p. refl) (fuelled_eats block_in λ k m _ l. block_in-Moves k m l)

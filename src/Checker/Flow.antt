-- ===== src/Checker/Flow.antt =====
-- mort/typechecker.py: `_block_always_returns` and `_block_breaks_current_loop`.
use mort.Ast.{
  Expr, bool_lit, Stmt, return, if_stmt, while, block, break, match_stmt, Else, else_stmt, Stmts,
  no_stmts, more_stmts, Arms, no_arms, more_arms,
}
use mort.Base.{ℕ, Bool, true, false, not, ◌&&◌, ◌||◌}

-- `isinstance(cond, BoolLit) and cond.value`
abbrev pub is_true : Expr → Bool
is_true (bool_lit b n) = b
is_true _ = false

-- Whether a statement can break the loop around it. A body that is no block, and an `else` that is neither a
-- block nor an `if`, do not come from the parser, and have no statements here.
unfoldable mutual
  pub statement_breaks : Stmt → Bool
  statement_breaks (break n) = true
  statement_breaks (block ss n) = block_breaks ss
  statement_breaks (if_stmt c (block ss m) els n) = block_breaks ss || else_breaks els
  statement_breaks (match_stmt e arms n) = any_arm_breaks arms
  statement_breaks _ = false

  pub else_breaks : Else → Bool
  else_breaks (else_stmt (block ss n)) = block_breaks ss
  else_breaks (else_stmt (if_stmt c (block ss m) els n)) = block_breaks ss || else_breaks els
  else_breaks _ = false

  pub any_arm_breaks : Arms → Bool
  any_arm_breaks no_arms = false
  any_arm_breaks (more_arms p (block ss m) n arms) = block_breaks ss || any_arm_breaks arms
  any_arm_breaks (more_arms p _ n arms) = any_arm_breaks arms

  pub block_breaks : Stmts → Bool
  block_breaks no_stmts = false
  block_breaks (more_stmts s ss) = statement_breaks s || block_breaks ss

-- Whether no run goes past a statement; `exhaustive` is the mark that the checker leaves on a `match`.
module _ (exhaustive : Expr → Arms → ℕ → Bool) where
  unfoldable mutual
    pub statement_returns : Stmt → Bool
    statement_returns (return e n) = true
    statement_returns (block ss n) = block_returns ss
    statement_returns (if_stmt c (block ss m) els n) = block_returns ss && else_returns els
    statement_returns (match_stmt e arms n) = exhaustive e arms n && all_arms_return arms
    statement_returns (while c (block ss m) n) = is_true c && not (block_breaks ss)
    statement_returns _ = false

    pub else_returns : Else → Bool
    else_returns (else_stmt (block ss n)) = block_returns ss
    else_returns (else_stmt (if_stmt c (block ss m) els n)) = block_returns ss && else_returns els
    else_returns _ = false

    pub all_arms_return : Arms → Bool
    all_arms_return no_arms = true
    all_arms_return (more_arms p (block ss m) n arms) = block_returns ss && all_arms_return arms
    all_arms_return (more_arms p _ n arms) = false

    pub block_returns : Stmts → Bool
    block_returns no_stmts = false
    block_returns (more_stmts s ss) = statement_returns s || block_returns ss

  -- `_block_always_returns`
  abbrev pub block_always_returns : Stmt → Bool
  block_always_returns (block ss n) = block_returns ss
  block_always_returns _ = false

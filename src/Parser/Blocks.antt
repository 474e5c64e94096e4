-- ===== src/Parser/Blocks.antt =====
-- mort/parser.py: the statements that hold blocks, and blocks. Each production takes the production `block_at` for the blocks inside it;
-- `block_in` ties the knot, with a unit of fuel for each block inside a block.
use mort.Ast.{
  bool_lit, Stmt, Stmts, Arms, if_stmt, while, for, block, break, continue, match_stmt, no_else,
  else_stmt, no_stmts, more_stmts, no_arms, more_arms,
}
use mort.Base.{ℕ, zero, suc, true, false, List, [], ◌∷◌, if◌then◌else◌}
use mort.Base.Result.{out_of_fuel}
use mort.Parser.Loops.{fuel, repeat}
use mort.Parser.State.{Parse, pure, ◌>>=◌, ◌>>◌, peek, at, at_any, advance, expect, expect_name}
use mort.Parser.Stmts.{
  annotation, let_statement, return_statement, condition, asm_statement, jump, defer_statement,
  expr_or_assign, range, pattern_of,
}
use mort.Token.{
  ◌is◌, lbrace, rbrace, eof, kw_let, kw_const, kw_return, kw_if, kw_else, kw_while, kw_loop, kw_for,
  kw_in, kw_asm, kw_break, kw_continue, kw_match, kw_defer, fat_arrow, comma,
}

abbrev pub to_stmts : List Stmt → Stmts
to_stmts [] = no_stmts
to_stmts (s ∷ ss) = more_stmts s (to_stmts ss)

module _ (block_at : Parse Stmt) where
  -- `_if_stmt()` at `if`; the chain of `else if` takes a unit of fuel for each.
  unfoldable pub if_statement : ℕ → Parse Stmt
  if_statement zero p = out_of_fuel
  if_statement (suc n) p =
      (do
        t ← advance
        cond ← condition
        then_block ← block_at
        c ← at kw_else
        els ←
            if c
            then (do
              advance
              again ← at kw_if
              s ← if again then if_statement n else block_at
              pure (else_stmt s))
            else pure no_else
        pure (if_stmt cond then_block els t.line))
        p

  -- `_while_stmt()`, and `loop`.
  unfoldable pub while_statement : Parse Stmt
  while_statement = do t ← advance; cond ← condition; body ← block_at; pure (while cond body t.line)

  unfoldable pub loop_statement : Parse Stmt
  loop_statement = do t ← advance; body ← block_at; pure (while (bool_lit true t.line) body t.line)

  -- `_for_stmt()`
  unfoldable pub for_statement : Parse Stmt
  for_statement = do
    t ← advance
    name ← expect_name "a loop variable"
    decl ← annotation
    expect kw_in "'in'"
    r ← range
    body ← block_at
    pure (for name decl r.0 r.2 body t.line r.1)

  -- The arms, up to `}`: a comma may follow each.
  unfoldable pub arms : ℕ → Parse Arms
  arms zero p = out_of_fuel
  arms (suc n) p =
      (do
        stop ← at_any (rbrace ∷ (eof ∷ []))
        if stop then pure no_arms else (do
          t ← peek 0
          pattern' ← pattern_of
          expect fat_arrow "'=>'"
          body ← block_at
          c ← at comma
          if c
              then (do advance; rest ← arms n; pure (more_arms pattern' body t.line rest))
              else (do rest ← arms n; pure (more_arms pattern' body t.line rest))))
        p

  -- `_match_stmt()`
  unfoldable pub match_statement : Parse Stmt
  match_statement = do
    t ← advance
    e ← condition
    expect lbrace "'{'"
    as_arms ← λ p. arms (fuel p) p
    expect rbrace "'}'"
    pure (match_stmt e as_arms t.line)

  -- `_stmt()`
  unfoldable pub statement : Parse Stmt
  statement = do
    t ← peek 0
    if t.type is kw_let
        then let_statement true
        else if t.type is kw_const
        then let_statement false
        else if t.type is kw_return
        then return_statement
        else if t.type is kw_if
        then (λ p. if_statement (fuel p) p)
        else if t.type is kw_while
        then while_statement
        else if t.type is kw_loop
        then loop_statement
        else if t.type is kw_for
        then for_statement
        else if t.type is kw_asm
        then asm_statement
        else if t.type is kw_break
        then jump break
        else if t.type is kw_continue
        then jump continue
        else if t.type is kw_match
        then match_statement
        else if t.type is kw_defer
        then defer_statement
        else if t.type is lbrace
        then block_at
        else expr_or_assign

  unfoldable pub block_step : Parse Stmt
  block_step = do
    t ← peek 0
    expect lbrace "'{'"
    stmts ← λ p. repeat statement (fuel p) [] p
    expect rbrace "'}'"
    pure (block (to_stmts stmts) t.line)

-- `_block()`
unfoldable pub block_in : ℕ → Parse Stmt
block_in zero p = out_of_fuel
block_in (suc n) p = block_step (block_in n) p

unfoldable pub block_stmt : Parse Stmt
block_stmt p = block_in (fuel p) p

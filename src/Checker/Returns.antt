-- ===== src/Checker/Returns.antt =====
-- mort/typechecker.py: what `_block_always_returns` says of the runs.
use mort.Ast.{
  Expr, Stmt, let_stmt, assign, return, if_stmt, while, for, block, expr_stmt, asm, break, continue,
  defer, match_stmt, Else, Stmts, Arms,
}
use mort.Base.{ℕ, Bool, true, false, not, ◌&&◌, ◌||◌, ◌≡◌, refl, or_left, or_right, arith}
use mort.Checker.Flow.{
  statement_breaks, else_breaks, any_arm_breaks, block_breaks, statement_returns, else_returns,
  all_arms_return, block_returns, block_always_returns,
}
use mort.Checker.Runs.{
  Completion, normal, returned, broke, continued, IsPlain, Stops, Runs, plain, tries, returns,
  breaks, continues, inner, then, otherwise, while_ends, while_again, while_breaks, while_returns,
  for_ends, for_returns, arm, no_arm, RunsElse, missing, else_block, else_if, RunsArm, this, later,
  RunsAll, done, next, stops, is_loose, else_loose, arms_loose, any_loose,
}

abbrev NotBroke : Completion → Type 0
NotBroke broke = ⊥
NotBroke _ = Unit

and_left : (a b : Bool) → (a && b) ≡ true → a ≡ true
and_left a b h = ground arith

and_right : (a b : Bool) → (a && b) ≡ true → b ≡ true
and_right a b h = ground arith

-- One of two tests holds.
by_test : {C : Type 0} (a b : Bool) → (a || b) ≡ true → (a ≡ true → C) → (b ≡ true → C) → C
by_test true b h f g = f refl
by_test false b h f g = g h

module _ (exhaustive : Expr → Arms → ℕ → Bool) where
  -- A statement that cannot break the loop does not.
  mutual
    unfolding statement_breaks

    statement-NotBroke :
        {s : Stmt} {k : Completion} → Runs exhaustive s k → statement_breaks s ≡ false → NotBroke k
    statement-NotBroke (plain p) h = tt
    statement-NotBroke (tries p) h = tt
    statement-NotBroke returns h = tt
    statement-NotBroke breaks h = absurd (cc h)
    statement-NotBroke continues h = tt
    statement-NotBroke (inner r) h = block-NotBroke r h
    statement-NotBroke (then r) h = block-NotBroke r (or_left _ _ h)
    statement-NotBroke (otherwise r) h = else-NotBroke r (or_right _ _ h)
    statement-NotBroke (while_ends e) h = tt
    statement-NotBroke (while_again r g t) h = statement-NotBroke t h
    statement-NotBroke (while_breaks r) h = tt
    statement-NotBroke (while_returns r) h = tt
    statement-NotBroke for_ends h = tt
    statement-NotBroke (for_returns r) h = tt
    statement-NotBroke (arm r) h = arms-NotBroke r h
    statement-NotBroke (no_arm e) h = tt

    else-NotBroke :
        {els : Else} {k : Completion}
        → RunsElse exhaustive els k
        → else_breaks els ≡ false
        → NotBroke k
    else-NotBroke missing h = tt
    else-NotBroke (else_block r) h = block-NotBroke r h
    else-NotBroke (else_if r) h = statement-NotBroke r h

    arms-NotBroke :
        {arms : Arms} {k : Completion}
        → RunsArm exhaustive arms k
        → any_arm_breaks arms ≡ false
        → NotBroke k
    arms-NotBroke (this r) h = block-NotBroke r (or_left _ _ h)
    arms-NotBroke (later r) h = arms-NotBroke r (or_right _ _ h)

    block-NotBroke :
        {ss : Stmts} {k : Completion}
        → RunsAll exhaustive ss k
        → block_breaks ss ≡ false
        → NotBroke k
    block-NotBroke done h = tt
    block-NotBroke (next r t) h = block-NotBroke t (or_right _ _ h)
    block-NotBroke (stops r p) h = statement-NotBroke r (or_left _ _ h)

  plain-falls : (s : Stmt) → IsPlain s → statement_returns exhaustive s ≡ true → ⊥
  unfolding statement_returns
  plain-falls (let_stmt x t e n m) p h = cc h
  plain-falls (assign q e n op) p h = cc h
  plain-falls (expr_stmt e n) p h = cc h
  plain-falls (asm v n) p h = cc h
  plain-falls (defer e n) p h = cc h
  plain-falls (return e n) p h = p
  plain-falls (if_stmt c t els n) p h = p
  plain-falls (while c b n) p h = p
  plain-falls (for x t a b s n i) p h = p
  plain-falls (block ss n) p h = p
  plain-falls (break n) p h = p
  plain-falls (continue n) p h = p
  plain-falls (match_stmt e arms n) p h = p

  unbroken : (a b : Bool) → (a && not b) ≡ true → b ≡ false
  unbroken a b h = ground arith

  exhausted : (a b : Bool) → a ≡ false → (a && b) ≡ true → ⊥
  exhausted a b h k = ground arith

  -- A statement that always returns does not end normally.
  mutual
    unfolding statement_returns

    statement-Stops :
        {s : Stmt} {k : Completion}
        → Runs exhaustive s k
        → statement_returns exhaustive s ≡ true
        → Stops k
    statement-Stops {s = s} (plain p) h = absurd (plain-falls s p h)
    statement-Stops (tries p) h = tt
    statement-Stops returns h = tt
    statement-Stops breaks h = tt
    statement-Stops continues h = tt
    statement-Stops (inner r) h = block-Stops r h
    statement-Stops (then r) h = block-Stops r (and_left _ _ h)
    statement-Stops (otherwise r) h = else-Stops r (and_right _ _ h)
    statement-Stops (while_ends e) h = absurd (exhausted _ _ e h)
    statement-Stops (while_again r g t) h = statement-Stops t h
    statement-Stops (while_breaks r) h = absurd (block-NotBroke r (unbroken _ _ h))
    statement-Stops (while_returns r) h = tt
    statement-Stops for_ends h = absurd (cc h)
    statement-Stops (for_returns r) h = tt
    statement-Stops (arm r) h = arms-Stops r (and_right _ _ h)
    statement-Stops (no_arm e) h = absurd (exhausted _ _ e h)

    else-Stops :
        {els : Else} {k : Completion}
        → RunsElse exhaustive els k
        → else_returns exhaustive els ≡ true
        → Stops k
    else-Stops missing h = absurd (cc h)
    else-Stops (else_block r) h = block-Stops r h
    else-Stops (else_if r) h = statement-Stops r h

    arms-Stops :
        {arms : Arms} {k : Completion}
        → RunsArm exhaustive arms k
        → all_arms_return exhaustive arms ≡ true
        → Stops k
    arms-Stops (this r) h = block-Stops r (and_left _ _ h)
    arms-Stops (later r) h = arms-Stops r (and_right _ _ h)

    block-Stops :
        {ss : Stmts} {k : Completion}
        → RunsAll exhaustive ss k
        → block_returns exhaustive ss ≡ true
        → Stops k
    block-Stops done h = absurd (cc h)
    block-Stops (next {s = s} {ss = ss} r t) h =
        by_test (statement_returns exhaustive s) (block_returns exhaustive ss) h
          (λ e. absurd (statement-Stops r e)) (block-Stops t)
    block-Stops (stops r p) h = p

  abbrev Ended : Completion → Type 0
  Ended broke = ⊥
  Ended continued = ⊥
  Ended _ = Unit

  -- Without loose breaks and continues, a run ends normally or with a return.
  mutual
    unfolding is_loose

    statement-Ended :
        {s : Stmt} {k : Completion} → Runs exhaustive s k → is_loose s ≡ false → Ended k
    statement-Ended (plain p) h = tt
    statement-Ended (tries p) h = tt
    statement-Ended returns h = tt
    statement-Ended breaks h = absurd (cc h)
    statement-Ended continues h = absurd (cc h)
    statement-Ended (inner r) h = block-Ended r h
    statement-Ended (then r) h = block-Ended r (or_left _ _ h)
    statement-Ended (otherwise r) h = else-Ended r (or_right _ _ h)
    statement-Ended (while_ends e) h = tt
    statement-Ended (while_again r g t) h = statement-Ended t h
    statement-Ended (while_breaks r) h = tt
    statement-Ended (while_returns r) h = tt
    statement-Ended for_ends h = tt
    statement-Ended (for_returns r) h = tt
    statement-Ended (arm r) h = arms-Ended r h
    statement-Ended (no_arm e) h = tt

    else-Ended :
        {els : Else} {k : Completion} → RunsElse exhaustive els k → else_loose els ≡ false → Ended k
    else-Ended missing h = tt
    else-Ended (else_block r) h = block-Ended r h
    else-Ended (else_if r) h = statement-Ended r h

    arms-Ended :
        {arms : Arms} {k : Completion}
        → RunsArm exhaustive arms k
        → arms_loose arms ≡ false
        → Ended k
    arms-Ended (this r) h = block-Ended r (or_left _ _ h)
    arms-Ended (later r) h = arms-Ended r (or_right _ _ h)

    block-Ended :
        {ss : Stmts} {k : Completion} → RunsAll exhaustive ss k → any_loose ss ≡ false → Ended k
    block-Ended done h = tt
    block-Ended (next r t) h = block-Ended t (or_right _ _ h)
    block-Ended (stops r p) h = statement-Ended r (or_left _ _ h)

  returned_of : (k : Completion) → Stops k → Ended k → k ≡ returned
  returned_of normal p q = absurd p
  returned_of returned p q = refl
  returned_of broke p q = absurd q
  returned_of continued p q = absurd q

  -- If `_block_always_returns` accepts a block in which each `break` and `continue` belongs to a loop, every run
  -- of the block that ends, ends with a return.
  pub block_always_returns-returned :
      (body : Stmt) (k : Completion)
      → block_always_returns exhaustive body ≡ true
      → is_loose body ≡ false
      → Runs exhaustive body k
      → k ≡ returned
  unfolding is_loose statement_returns
  block_always_returns-returned (block ss n) k h l r =
      returned_of k (statement-Stops r h) (statement-Ended r l)
  block_always_returns-returned _ k h l r = absurd (cc h)

-- ===== src/Checker/Runs.antt =====
-- The runs of statements, as the check of returns in mort/typechecker.py sees them.
use mort.Ast.{
  Expr, Stmt, let_stmt, assign, return, if_stmt, while, for, block, expr_stmt, asm, break, continue,
  defer, match_stmt, Else, no_else, else_stmt, Stmts, no_stmts, more_stmts, Arms, no_arms,
  more_arms,
}
use mort.Base.{ℕ, Bool, true, false, ◌||◌, ◌≡◌}
use mort.Checker.Flow.{is_true}

-- How a run of a statement ends.
pub data Completion : Type 0 where
  normal returned broke continued : Completion

-- The statements that hold no other and only go on.
abbrev pub IsPlain : Stmt → Type 0
IsPlain (let_stmt x t e n m) = Unit
IsPlain (assign p e n op) = Unit
IsPlain (expr_stmt e n) = Unit
IsPlain (asm v n) = Unit
IsPlain (defer e n) = Unit
IsPlain _ = ⊥

-- The statements with an expression that a `try` can leave.
abbrev pub HasExpr : Stmt → Type 0
HasExpr (let_stmt x t e n m) = Unit
HasExpr (assign p e n op) = Unit
HasExpr (expr_stmt e n) = Unit
HasExpr (if_stmt c t els n) = Unit
HasExpr (while c b n) = Unit
HasExpr (for x t a b s n i) = Unit
HasExpr (match_stmt e arms n) = Unit
HasExpr _ = ⊥

-- After these a loop goes to its next round.
abbrev pub GoesOn : Completion → Type 0
GoesOn normal = Unit
GoesOn continued = Unit
GoesOn _ = ⊥

abbrev pub Stops : Completion → Type 0
Stops normal = ⊥
Stops _ = Unit

-- The runs that end. A condition can have either value, unless it is the literal `true`; an expression can
-- leave the function by a `try`; a match that is marked as exhaustive takes one of its arms; a `for` ends in
-- any case, since its range does. Bodies are blocks, as the parser makes them.
module _ (exhaustive : Expr → Arms → ℕ → Bool) where
  mutual
    pub data Runs : Stmt → Completion → Type 0 where
      plain : {s : Stmt} → IsPlain s → Runs s normal
      tries : {s : Stmt} → HasExpr s → Runs s returned
      returns : {e : _} {n : ℕ} → Runs (return e n) returned
      breaks : {n : ℕ} → Runs (break n) broke
      continues : {n : ℕ} → Runs (continue n) continued
      inner : {ss : Stmts} {n : ℕ} {k : Completion} → RunsAll ss k → Runs (block ss n) k
      then :
          {c : Expr} {ss : Stmts} {m n : ℕ} {els : Else} {k : Completion}
          → RunsAll ss k
          → Runs (if_stmt c (block ss m) els n) k
      otherwise :
          {c : Expr} {ss : Stmts} {m n : ℕ} {els : Else} {k : Completion}
          → RunsElse els k
          → Runs (if_stmt c (block ss m) els n) k
      while_ends :
          {c : Expr} {ss : Stmts} {m n : ℕ}
          → is_true c ≡ false
          → Runs (while c (block ss m) n) normal
      while_again :
          {c : Expr} {ss : Stmts} {m n : ℕ} {j k : Completion}
          → RunsAll ss j
          → GoesOn j
          → Runs (while c (block ss m) n) k
          → Runs (while c (block ss m) n) k
      while_breaks :
          {c : Expr} {ss : Stmts} {m n : ℕ}
          → RunsAll ss broke
          → Runs (while c (block ss m) n) normal
      while_returns :
          {c : Expr} {ss : Stmts} {m n : ℕ}
          → RunsAll ss returned
          → Runs (while c (block ss m) n) returned
      for_ends :
          {x : _} {t : _} {a b : Expr} {body : Stmt} {n : ℕ} {i : Bool}
          → Runs (for x t a b body n i) normal
      for_returns :
          {x : _} {t : _} {a b : Expr} {ss : Stmts} {m n : ℕ} {i : Bool}
          → RunsAll ss returned
          → Runs (for x t a b (block ss m) n i) returned
      arm :
          {e : Expr} {arms : Arms} {n : ℕ} {k : Completion}
          → RunsArm arms k
          → Runs (match_stmt e arms n) k
      no_arm :
          {e : Expr} {arms : Arms} {n : ℕ}
          → exhaustive e arms n ≡ false
          → Runs (match_stmt e arms n) normal

    pub data RunsElse : Else → Completion → Type 0 where
      missing : RunsElse no_else normal
      else_block :
          {ss : Stmts} {n : ℕ} {k : Completion} → RunsAll ss k → RunsElse (else_stmt (block ss n)) k
      else_if :
          {c : Expr} {ss : Stmts} {m n : ℕ} {els : Else} {k : Completion}
          → Runs (if_stmt c (block ss m) els n) k
          → RunsElse (else_stmt (if_stmt c (block ss m) els n)) k

    pub data RunsArm : Arms → Completion → Type 0 where
      this :
          {p : _} {ss : Stmts} {m n : ℕ} {arms : Arms} {k : Completion}
          → RunsAll ss k
          → RunsArm (more_arms p (block ss m) n arms) k
      later :
          {p : _} {ss : Stmts} {m n : ℕ} {arms : Arms} {k : Completion}
          → RunsArm arms k
          → RunsArm (more_arms p (block ss m) n arms) k

    pub data RunsAll : Stmts → Completion → Type 0 where
      done : RunsAll no_stmts normal
      next :
          {s : Stmt} {ss : Stmts} {k : Completion}
          → Runs s normal
          → RunsAll ss k
          → RunsAll (more_stmts s ss) k
      stops :
          {s : Stmt} {ss : Stmts} {k : Completion}
          → Runs s k
          → Stops k
          → RunsAll (more_stmts s ss) k

-- Whether a statement has a `break` or a `continue` that belongs to no loop in it.
unfoldable mutual
  pub is_loose : Stmt → Bool
  is_loose (break n) = true
  is_loose (continue n) = true
  is_loose (block ss n) = any_loose ss
  is_loose (if_stmt c (block ss m) els n) = any_loose ss || else_loose els
  is_loose (match_stmt e arms n) = arms_loose arms
  is_loose _ = false

  pub else_loose : Else → Bool
  else_loose (else_stmt (block ss n)) = any_loose ss
  else_loose (else_stmt (if_stmt c (block ss m) els n)) = any_loose ss || else_loose els
  else_loose _ = false

  pub arms_loose : Arms → Bool
  arms_loose no_arms = false
  arms_loose (more_arms p (block ss m) n arms) = any_loose ss || arms_loose arms
  arms_loose (more_arms p _ n arms) = arms_loose arms

  pub any_loose : Stmts → Bool
  any_loose no_stmts = false
  any_loose (more_stmts s ss) = is_loose s || any_loose ss

-- ===== src/Parser/Progress/Postfix.antt =====
-- mort/parser.py: `_expression`, `_unary` and `_postfix` meet the postcondition.
use mort.Base.{ℕ, zero, suc, ◌≤◌, ◌<◌, refl, Bool, true, false, not, [], ◌∷◌, if◌then◌else◌, arith}
use mort.Parser.Progress.{Moves}
use mort.Parser.Progress.Helpers.{expect-Moves}
use mort.Parser.Progress.Rules.{
  fewer, knowing, relaxed, none_left, fewer_after, fuelled, fuelled_eats, same, pure-Moves, after,
  and_then, pure-bind, known,
}
use mort.Parser.Progress.Tokens.{
  advance-Moves, peek-bind, peek-keep, at-bind, if-Moves, if_is, if_one_of,
}
use mort.Ast.{Expr}
use mort.Parser.Exprs.{
  qualified_name, generic_call, suffix_at, suffix, suffixes, postfix, unary_step, unary_in,
  expression,
}
use mort.Parser.Levels.{logic_or}
use mort.Parser.Lookahead.{looks_like_call_type_args}
use mort.Parser.Progress.Exprs.{member-Moves, primary-Moves, generic_call-Moves, plain_call-Moves}
use mort.Parser.Progress.Levels.{logic_or-Moves}
use mort.Parser.Progress.Lookahead.{call-Looked, look-bind}
use mort.Parser.State.{Parse, pure, ◌>>=◌, peek}
use mort.Token.{
  Token, ◌is◌, eof, bang, minus, amp, star, tilde, kw_try, kw_move, lparen, lbracket, rbracket, dot,
  lt,
}

module _ {unary : Parse Expr} {n : ℕ} (eats : Moves false 1 n unary) where
  -- A round of the loop reads a token, and what follows it is read on fewer.
  module _ {k : ℕ} (again : Expr → Parse Expr) (bound : k ≤ suc n)
      (goes_on : (j : ℕ) → j < k → (e : Expr) → Moves false 0 j (again e)) where
    suffix_at-Moves :
        (e : Expr) (t : Token) → Moves (not (t.type is eof)) 0 k (suffix_at unary again e t)
    unfolding suffix_at
    suffix_at-Moves e t =
        if_is t.type lparen refl
          (relaxed (fewer_after (fewer bound (plain_call-Moves eats _)) λ j l e'. goes_on j l e'))
          (if_is t.type dot refl
            (relaxed (fewer_after advance-Moves λ j l _. and_then member-Moves λ x. goes_on j l _))
            (if_is t.type lbracket refl
              (relaxed (
                fewer_after advance-Moves λ j l _.
                  and_then (relaxed (fewer (omega arith) (logic_or-Moves eats)))
                    λ i. and_then (relaxed (expect-Moves rbracket _ refl)) λ _. goes_on j l _))
              (pure-Moves _)))

    suffix-Moves : (e : Expr) → Moves false 0 k (suffix unary again e)
    unfolding suffix
    suffix-Moves e = at-bind lt refl λ angle. by_angle angle
      where
        by_angle :
            (angle : Bool)
            → Moves angle 0 k (
                (if angle then looks_like_call_type_args else pure false) >>= λ generic.
                peek 0 >>= λ t.
                if generic
                then (do e' ← generic_call unary (qualified_name e); again e')
                else suffix_at unary again e t)
        by_angle true = look-bind call-Looked λ generic. peek-keep λ t.
            if-Moves generic
              (relaxed
                (fewer_after (fewer bound (generic_call-Moves eats _)) λ j l e'. goes_on j l e'))
              (known (suffix_at-Moves e t))
        by_angle false = pure-bind false _ (peek-bind λ t. suffix_at-Moves e t)

  suffixes-Moves : (k m : ℕ) (e : Expr) → m ≤ n → m < k → Moves false 0 m (suffixes unary k e)
  unfolding suffixes
  suffixes-Moves zero m e h l = absurd (omega arith)
  suffixes-Moves (suc k) m e h l =
      same _ _ (λ p. refl)
        (suffix-Moves (suffixes unary k) (omega arith)
          (λ j lj e'. suffixes-Moves k j e' (omega arith) (omega arith)) e)

  postfix-Moves : Moves false 1 (suc n) (postfix unary)
  unfolding postfix
  postfix-Moves =
      after (primary-Moves eats)
        λ e. fuelled (λ k. suffixes unary k e) λ k m h l. suffixes-Moves k m e h l

  unary_step-Moves : Moves false 1 (suc n) (unary_step unary)
  unfolding unary_step
  unary_step-Moves = peek-bind λ t.
      if_one_of t.type (bang ∷ (minus ∷ (amp ∷ (star ∷ (tilde ∷ []))))) refl
        (after advance-Moves λ _. and_then (relaxed eats) λ _. pure-Moves _)
        (if_is t.type kw_try refl
          (after advance-Moves λ _. and_then (relaxed eats) λ _. pure-Moves _)
          (if_is t.type kw_move refl
            (after advance-Moves λ _. and_then (relaxed eats) λ _. pure-Moves _)
            (knowing postfix-Moves)))

unary_in-Moves : (k n : ℕ) → n < k → Moves false 1 n (unary_in k)
unfolding unary_in
unary_in-Moves zero n l = absurd (omega arith)
unary_in-Moves (suc k) zero l = none_left
unary_in-Moves (suc k) (suc n) l =
    same _ _ (λ p. refl) (unary_step-Moves (unary_in-Moves k n (omega arith)))

pub expression-Moves : {n : ℕ} → Moves false 1 n expression
unfolding expression
expression-Moves =
    same _ _ (λ p. refl)
      (fuelled_eats (λ k. logic_or (unary_in k)) λ k m _ l. logic_or-Moves (unary_in-Moves k m l))

-- ===== src/Parser/Progress/Exprs.antt =====
-- mort/parser.py: `_primary` and the calls meet the postcondition.
use mort.Base.{ℕ, suc, refl, Bool, true, false, ◌&&◌, length, Text, Option, none, some, ltb}
use mort.Parser.Progress.{Moves}
use mort.Parser.Progress.Helpers.{
  expect-Moves, expect_name-Moves, expect_type_close-Moves, show_value-Moves,
}
use mort.Parser.Progress.Loops.{
  one_or_more-Moves, arguments-Moves, commas_until-Moves, fields-Moves,
}
use mort.Parser.Progress.Rules.{
  knowing, relaxed, pure-Moves, fail-Moves, fail_showing-Moves, after, followed, and_then,
}
use mort.Parser.Progress.Tokens.{
  advance-Moves, peek-bind, peek-keep, at-bind, if-Moves, if_at, if_is,
}
use mort.Ast.{Expr}
use mort.Base.Result
use mort.Base.Result.{Result, ok}
use mort.Errors.{Exception}
use mort.Parser.Exprs.{member, call_arguments, generic_call, plain_call}
use mort.Parser.Primary.{
  with_flag, array_rest, array_literal, init, struct_literal, named, inside, parenthesised,
  null_literal, primary,
}
use mort.Parser.Progress.{Within, Ends, holds, refused, too_long}
use mort.Parser.Progress.Levels.{logic_or-Moves}
use mort.Parser.Progress.Lookahead.{
  call-Looked, struct-Looked, generic-Looked, look-bind, looks-Moves, looked,
}
use mort.Parser.Progress.Types.{type_name-Moves}
use mort.Parser.State.{Parser, Parse, pure, ◌>>◌, advance}
use mort.Token.{
  TokenType, Token, lparen, rparen, lbracket, rbracket, lbrace, rbrace, comma, colon, semi, kw_null,
  kw_true, kw_false, ident, lt,
}

-- The flag is put back behind the production.
pub with_flag-Moves :
    {A : Type 0} {c : Bool} {d n : ℕ} (fl : Bool) {m : Parse A}
    → Moves c d n m
    → Moves c d n (with_flag fl m)
unfolding with_flag
with_flag-Moves {A} fl {m} r = record {
  run = λ b flag p l g w.
      put_back b flag p w
        (r.run b fl _ l g (record { short = w.short; ends = w.ends; flag_is = refl }));
}
  where
    put_back :
        {k : ℕ} (b : ℕ) (flag : Bool) (p : Parser) {r : Result Exception (A × Parser)}
        → Within k flag p
        → Ends b fl r
        → Ends b flag (
            Result.◌>>=◌ r
              λ (e, q). ok (e, record { toks = q.toks; no_struct_lit = p.no_struct_lit }))
    put_back b flag p w (holds v) =
        holds (record { short = v.short; ends = v.ends; flag_is = w.flag_is })
    put_back b flag p w refused = refused
    put_back b flag p w too_long = too_long

pub member-Moves : {n : ℕ} → Moves false 0 n member
unfolding member
member-Moves = at-bind TokenType.int refl λ a.
    if_at a (and_then (relaxed advance-Moves) λ _. show_value-Moves _)
      (relaxed (expect_name-Moves _))

-- Behind its first token an operand inside is read on fewer tokens.
module _ {unary : Parse Expr} {n : ℕ} (eats : Moves false 1 n unary) where
  array_rest-Moves : (line : ℕ) (x : Expr) → Moves false 0 n (array_rest unary line x)
  unfolding array_rest
  array_rest-Moves line x = at-bind semi refl λ a.
      if_at a
        (and_then (relaxed advance-Moves) λ _.
          and_then (relaxed (expect-Moves TokenType.int _ refl))
            λ _. and_then (relaxed (expect-Moves rbracket _ refl)) λ _. pure-Moves _)
        (and_then (commas_until-Moves (logic_or-Moves eats) rbracket _ refl)
          λ _. and_then (relaxed (expect-Moves rbracket _ refl)) λ _. pure-Moves _)

  array_literal-Moves : Moves true 1 (suc n) (array_literal unary)
  unfolding array_literal
  array_literal-Moves = after advance-Moves λ _. at-bind rbracket refl λ a. knowing (
      if-Moves a (fail-Moves _ _)
        (and_then (relaxed (logic_or-Moves eats)) λ x. array_rest-Moves _ x))

  init-Moves : Moves false 1 n (init unary)
  unfolding init
  init-Moves = followed (expect_name-Moves _) λ _.
      and_then (relaxed (expect-Moves colon _ refl))
        λ _. and_then (relaxed (logic_or-Moves eats)) λ _. pure-Moves _

  struct_literal-Moves : Moves false 1 (suc n) (struct_literal unary)
  unfolding struct_literal
  struct_literal-Moves = after type_name-Moves λ _.
      and_then (relaxed (expect-Moves lbrace _ refl)) λ _.
        and_then (fields-Moves init-Moves _)
          λ _. and_then (relaxed (expect-Moves rbrace _ refl)) λ _. pure-Moves _

  named-Moves : (t : Token) → Moves true 1 (suc n) (named unary t)
  unfolding named
  named-Moves t = look-bind struct-Looked λ a.
      look-bind (λ p h. looked)
        λ allowed. if-Moves (a && allowed) (knowing struct_literal-Moves) (
          look-bind generic-Looked λ generic.
            if-Moves generic (knowing (followed type_name-Moves λ _. pure-Moves _))
              (followed advance-Moves λ _. pure-Moves _))

  inside-Moves : (line : ℕ) → Moves false 0 n (inside unary line)
  unfolding inside
  inside-Moves line = and_then (relaxed (logic_or-Moves eats)) λ x. at-bind comma refl λ a.
      knowing (
        if-Moves a
          (and_then (commas_until-Moves (logic_or-Moves eats) rparen _ refl)
            λ xs. if-Moves (ltb (length xs) 2) (fail-Moves _ _) (pure-Moves _))
          (pure-Moves _))

  parenthesised-Moves : Moves true 1 (suc n) (parenthesised unary)
  unfolding parenthesised
  parenthesised-Moves = after advance-Moves λ t.
      and_then (with_flag-Moves false (inside-Moves _))
        λ _. and_then (relaxed (expect-Moves rparen _ refl)) λ _. pure-Moves _

  null_literal-Moves : (t : Token) → Moves true 1 (suc n) (null_literal t)
  unfolding null_literal
  null_literal-Moves t = after advance-Moves λ _. at-bind lparen refl λ a. knowing (
      if-Moves a (pure-Moves _) (
        at-bind lt refl λ angle. knowing (
          and_then (if-Moves angle (looks-Moves call-Looked) (pure-Moves _))
            λ generic. if-Moves generic (pure-Moves _) (pure-Moves _))))

  literal : (e : Expr) → Moves {A = Expr} true 1 (suc n) (advance >> pure e)
  literal e = after advance-Moves λ _. pure-Moves _

  pub primary-Moves : Moves false 1 (suc n) (primary unary)
  unfolding primary
  primary-Moves = peek-bind λ t. if_is t.type TokenType.int refl (literal _) (
      if_is t.type TokenType.float refl (literal _) (
        if_is t.type TokenType.char refl (literal _) (
          if_is t.type kw_null refl (null_literal-Moves _) (
            if_is t.type kw_true refl (literal _) (
              if_is t.type kw_false refl (literal _) (
                if_is t.type TokenType.string refl (literal _) (
                  if_is t.type lbracket refl array_literal-Moves (
                    if_is t.type ident refl (named-Moves _) (
                      if_is t.type lparen refl parenthesised-Moves
                        (fail_showing-Moves _ _ _))))))))))

  call_arguments-Moves : Moves false 0 n (call_arguments unary)
  unfolding call_arguments
  call_arguments-Moves =
      and_then (arguments-Moves (logic_or-Moves eats) rparen refl)
        λ _. and_then (relaxed (expect-Moves rparen _ refl)) λ _. pure-Moves _

  pub generic_call-Moves : (name : Option Text) → Moves true 1 (suc n) (generic_call unary name)
  unfolding generic_call
  generic_call-Moves none = peek-keep λ t. fail-Moves _ _
  generic_call-Moves (some name) = after advance-Moves λ _.
      and_then (relaxed (one_or_more-Moves type_name-Moves)) λ _.
        and_then expect_type_close-Moves λ _.
          and_then (relaxed (expect-Moves lparen _ refl))
            λ _. and_then call_arguments-Moves λ _. pure-Moves _

  pub plain_call-Moves : (name : Option Text) → Moves true 1 (suc n) (plain_call unary name)
  unfolding plain_call
  plain_call-Moves none = peek-keep λ t. fail-Moves _ _
  plain_call-Moves (some name) =
      after advance-Moves λ _. and_then call_arguments-Moves λ _. pure-Moves _

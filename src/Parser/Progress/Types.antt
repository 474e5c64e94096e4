-- ===== src/Parser/Progress/Types.antt =====
-- mort/parser.py: `_type_name` meets the postcondition.
use Prim.Native.String.{String}
use mort.Base.{ℕ, zero, suc, ◌<◌, refl, true, false, not, length, arith, Text, ltb}
use mort.Parser.Progress.{Moves}
use mort.Parser.Progress.Helpers.{expect-Moves, expect_type_close-Moves, show_value-Moves}
use mort.Parser.Progress.Loops.{one_or_more-Moves, arguments-Moves, commas_until-Moves}
use mort.Parser.Progress.Rules.{
  knowing, relaxed, none_left, fuelled_eats, same, pure-Moves, fail-Moves, fail_showing-Moves,
  after, and_then,
}
use mort.Parser.Progress.Tokens.{
  advance-Moves, peek-bind, at-bind, if-Moves, if_at, if_is, if_is_and,
}
use mort.Parser.State.{Parse, pure, ◌>>◌, advance, text_of}
use mort.Parser.Types.{
  among, fixed_types, function_type, tuple_elements, tuple_type, qualified, array_type,
  bracket_type, nominal_type, type_step, type_in, type_name,
}
use mort.Token.{
  TokenType, kw_fn, lparen, rparen, arrow, comma, star, kw_const, lbracket, rbracket, semi, kw_int,
  kw_bool, kw_void, ident, lt,
}

-- Behind its first token a type inside is read on fewer tokens.
module _ {type : Parse Text} {n : ℕ} (eats : Moves false 1 n type) where
  function_type-Moves : Moves true 1 (suc n) (function_type type)
  unfolding function_type
  function_type-Moves = after advance-Moves λ _.
      and_then (relaxed (expect-Moves lparen _ refl)) λ _.
        and_then (arguments-Moves eats rparen refl) λ _.
          and_then (relaxed (expect-Moves rparen _ refl)) λ _.
            and_then (relaxed (expect-Moves arrow _ refl))
              λ _. and_then (relaxed eats) λ _. pure-Moves _

  tuple_elements-Moves : (line : ℕ) (x : Text) → Moves false 0 n (tuple_elements type line x)
  unfolding tuple_elements
  tuple_elements-Moves line x = at-bind comma refl λ a. knowing (
      if-Moves (not a) (fail-Moves _ _) (
        and_then (commas_until-Moves eats rparen _ refl) λ xs.
          and_then (relaxed (expect-Moves rparen _ refl))
            λ _. if-Moves (ltb (length xs) 2) (fail-Moves _ _) (pure-Moves _)))

  tuple_type-Moves : Moves true 1 (suc n) (tuple_type type)
  unfolding tuple_type
  tuple_type-Moves = after advance-Moves λ t. and_then (relaxed eats) λ x. tuple_elements-Moves _ x

  qualified-Moves : (mark : String) → Moves false 0 n (qualified type mark)
  unfolding qualified
  qualified-Moves mark = at-bind kw_const refl λ a.
      if_at a (and_then (relaxed advance-Moves) λ _. and_then (relaxed eats) λ _. pure-Moves _)
        (and_then (relaxed eats) λ _. pure-Moves _)

  array_type-Moves : Moves false 0 n (array_type type)
  unfolding array_type
  array_type-Moves = and_then (relaxed eats) λ _. and_then (relaxed (expect-Moves semi _ refl)) λ _.
      and_then (relaxed (expect-Moves TokenType.int _ refl)) λ _.
        and_then (relaxed (expect-Moves rbracket _ refl))
          λ _. and_then (show_value-Moves _) λ _. pure-Moves _

  bracket_type-Moves : Moves true 1 (suc n) (bracket_type type)
  unfolding bracket_type
  bracket_type-Moves = after advance-Moves λ _.
      at-bind rbracket refl
        λ a. if_at a (and_then (relaxed advance-Moves) λ _. qualified-Moves _) array_type-Moves

  nominal_type-Moves : (name : Text) → Moves true 1 (suc n) (nominal_type type name)
  unfolding nominal_type
  nominal_type-Moves name = after advance-Moves λ _. at-bind lt refl λ a.
      if_at a
        (and_then (relaxed advance-Moves) λ _.
          and_then (relaxed (one_or_more-Moves eats))
            λ _. and_then expect_type_close-Moves λ _. pure-Moves _)
        (pure-Moves _)

  named_type : (x : Text) → Moves {A = Text} true 1 (suc n) (advance >> pure x)
  named_type x = after advance-Moves λ _. pure-Moves _

  type_step-Moves : Moves false 1 (suc n) (type_step type)
  unfolding type_step
  type_step-Moves = peek-bind λ t. if_is t.type kw_fn refl function_type-Moves (
      if_is t.type lparen refl tuple_type-Moves (
        if_is t.type star refl (after advance-Moves λ _. qualified-Moves _) (
          if_is t.type lbracket refl bracket_type-Moves (
            if_is t.type kw_int refl (named_type _) (
              if_is t.type kw_bool refl (named_type _) (
                if_is t.type kw_void refl (named_type _) (
                  if_is_and t.type ident (among (text_of t.value) fixed_types) refl (named_type _) (
                    if_is t.type ident refl (nominal_type-Moves _)
                      (fail_showing-Moves _ _ _)))))))))

type_in-Moves : (k n : ℕ) → n < k → Moves false 1 n (type_in k)
unfolding type_in
type_in-Moves zero n l = absurd (omega arith)
type_in-Moves (suc k) zero l = none_left
type_in-Moves (suc k) (suc n) l =
    same _ _ (λ p. refl) (type_step-Moves (type_in-Moves k n (omega arith)))

pub type_name-Moves : {n : ℕ} → Moves false 1 n type_name
unfolding type_name
type_name-Moves = same _ _ (λ p. refl) (fuelled_eats type_in λ k m _ l. type_in-Moves k m l)

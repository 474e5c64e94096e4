-- ===== src/Parser/Progress/Decls.antt =====
-- mort/parser.py: declarations meet the postcondition.
use mort.Base.{ℕ, zero, suc, ◌<◌, refl, Bool, true, false, List, [], ◌∷◌, arith, Text}
use mort.Parser.Progress.{Moves}
use mort.Parser.Progress.Helpers.{expect-Moves, expect_name-Moves}
use mort.Parser.Progress.Loops.{one_or_more-Moves, arguments-Moves, fields-Moves}
use mort.Parser.Progress.Rules.{
  relaxed, fewer_after, fuelled, same, pure-Moves, fail_showing-Moves, followed, and_then,
}
use mort.Parser.Progress.Tokens.{advance-Moves, peek-bind, peek-keep, at-bind, if_at, if_one_of}
use mort.Token.{
  TokenType, assign, colon, semi, dot, lt, gt, lparen, rparen, lbrace, rbrace, arrow, ident, kw_as,
  kw_null, kw_fn, kw_struct,
}
use mort.Parser.Decls.{
  dotted, module_path, module_decl, test_decl, import_alias, import_decl, generics, struct_field,
  struct_decl, type_alias_decl, variant, enum_decl, function_name, param, params, return_type,
  fn_decl, extern_fn_decl,
}
use mort.Parser.Progress.Blocks.{block_stmt-Moves}
use mort.Parser.Progress.Types.{type_name-Moves}

dotted-Moves : (k m : ℕ) (xs : List Text) → m < k → Moves false 0 m (dotted k xs)
unfolding dotted
dotted-Moves zero m xs l = absurd (omega arith)
dotted-Moves (suc k) m xs l =
    same _ _ (λ p. refl)
      (at-bind dot refl λ a.
        if_at a
          (relaxed (
            fewer_after advance-Moves λ j lj t.
              and_then (relaxed (expect_name-Moves _)) λ x. dotted-Moves k j _ (omega arith)))
          (pure-Moves _))

module_path-Moves : {n : ℕ} → Moves false 1 n module_path
unfolding module_path
module_path-Moves =
    followed (expect_name-Moves _)
      λ x. fuelled (λ k. dotted k (x ∷ [])) λ k m _ l. dotted-Moves k m _ l

pub module_decl-Moves : {n : ℕ} → Moves true 1 n module_decl
unfolding module_decl
module_decl-Moves = followed advance-Moves λ _.
    and_then (relaxed module_path-Moves)
      λ _. and_then (relaxed (expect-Moves semi _ refl)) λ _. pure-Moves _

pub test_decl-Moves : {n : ℕ} → Moves true 1 n test_decl
unfolding test_decl
test_decl-Moves = followed advance-Moves λ _.
    and_then (relaxed (expect-Moves TokenType.string _ refl))
      λ _. and_then (relaxed block_stmt-Moves) λ _. pure-Moves _

import_alias-Moves : {n : ℕ} → Moves false 0 n import_alias
unfolding import_alias
import_alias-Moves = at-bind kw_as refl λ a.
    if_at a
      (and_then (relaxed advance-Moves)
        λ _. and_then (relaxed (expect_name-Moves _)) λ _. pure-Moves _)
      (pure-Moves _)

pub import_decl-Moves : {n : ℕ} → Moves true 1 n import_decl
unfolding import_decl
import_decl-Moves = followed advance-Moves λ _. and_then (relaxed module_path-Moves) λ _.
    and_then import_alias-Moves λ _. and_then (relaxed (expect-Moves semi _ refl)) λ _. pure-Moves _

generics-Moves : {n : ℕ} → Moves false 0 n generics
unfolding generics
generics-Moves = at-bind lt refl λ a.
    if_at a
      (and_then (relaxed advance-Moves) λ _.
        and_then (relaxed (one_or_more-Moves (expect_name-Moves _)))
          λ _. and_then (relaxed (expect-Moves gt _ refl)) λ _. pure-Moves _)
      (pure-Moves _)

struct_field-Moves : {n : ℕ} → Moves false 1 n struct_field
unfolding struct_field
struct_field-Moves = followed (expect_name-Moves _) λ _.
    and_then (relaxed (expect-Moves colon _ refl))
      λ _. and_then (relaxed type_name-Moves) λ _. pure-Moves _

pub struct_decl-Moves : {n : ℕ} (resource : Bool) → Moves false 1 n (struct_decl resource)
unfolding struct_decl
struct_decl-Moves resource = peek-keep λ t. followed (expect-Moves kw_struct _ refl) λ _.
    and_then (relaxed (expect_name-Moves _)) λ _. and_then generics-Moves λ _.
      and_then (relaxed (expect-Moves lbrace _ refl)) λ _.
        and_then (fields-Moves struct_field-Moves _)
          λ _. and_then (relaxed (expect-Moves rbrace _ refl)) λ _. pure-Moves _

pub type_alias_decl-Moves : {n : ℕ} → Moves true 1 n type_alias_decl
unfolding type_alias_decl
type_alias_decl-Moves = followed advance-Moves λ _. and_then (relaxed (expect_name-Moves _)) λ _.
    and_then (relaxed (expect-Moves assign _ refl)) λ _.
      and_then (relaxed type_name-Moves)
        λ _. and_then (relaxed (expect-Moves semi _ refl)) λ _. pure-Moves _

variant-Moves : {n : ℕ} → Moves false 1 n variant
unfolding variant
variant-Moves = followed (expect_name-Moves _) λ _. at-bind lparen refl λ a.
    if_at a
      (and_then (relaxed advance-Moves) λ _.
        and_then (relaxed (one_or_more-Moves type_name-Moves))
          λ _. and_then (relaxed (expect-Moves rparen _ refl)) λ _. pure-Moves _)
      (pure-Moves _)

pub enum_decl-Moves : {n : ℕ} → Moves true 1 n enum_decl
unfolding enum_decl
enum_decl-Moves = followed advance-Moves λ _. and_then (relaxed (expect_name-Moves _)) λ _.
    and_then generics-Moves λ _. and_then (relaxed (expect-Moves lbrace _ refl)) λ _.
      and_then (fields-Moves variant-Moves _)
        λ _. and_then (relaxed (expect-Moves rbrace _ refl)) λ _. pure-Moves _

function_name-Moves : {n : ℕ} → Moves false 1 n function_name
unfolding function_name
function_name-Moves = peek-bind λ t.
    if_one_of t.type (ident ∷ (kw_null ∷ [])) refl (followed advance-Moves λ _. pure-Moves _)
      (fail_showing-Moves _ _ _)

param-Moves : {n : ℕ} → Moves false 1 n param
unfolding param
param-Moves = followed (expect_name-Moves _) λ _.
    and_then (relaxed (expect-Moves colon _ refl))
      λ _. and_then (relaxed type_name-Moves) λ _. pure-Moves _

params-Moves : {n : ℕ} → Moves false 1 n params
unfolding params
params-Moves = followed (expect-Moves lparen _ refl) λ _.
    and_then (arguments-Moves param-Moves rparen refl)
      λ _. and_then (relaxed (expect-Moves rparen _ refl)) λ _. pure-Moves _

return_type-Moves : {n : ℕ} → Moves false 0 n return_type
unfolding return_type
return_type-Moves =
    at-bind arrow refl
      λ a. if_at a (and_then (relaxed advance-Moves) λ _. relaxed type_name-Moves) (pure-Moves _)

pub fn_decl-Moves : {n : ℕ} (public : Bool) → Moves false 1 n (fn_decl public)
unfolding fn_decl
fn_decl-Moves public = peek-keep λ t. followed (expect-Moves kw_fn _ refl) λ _.
    and_then (relaxed function_name-Moves) λ _. and_then generics-Moves λ _.
      and_then (relaxed params-Moves)
        λ _. and_then return_type-Moves λ _. and_then (relaxed block_stmt-Moves) λ _. pure-Moves _

pub extern_fn_decl-Moves : {n : ℕ} → Moves true 1 n extern_fn_decl
unfolding extern_fn_decl
extern_fn_decl-Moves = followed advance-Moves λ _.
    and_then (relaxed (expect-Moves kw_fn _ refl)) λ _. and_then (relaxed function_name-Moves) λ _.
      and_then (relaxed params-Moves) λ _.
        and_then return_type-Moves
          λ _. and_then (relaxed (expect-Moves semi _ refl)) λ _. pure-Moves _

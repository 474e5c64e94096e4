-- ===== src/Checker/Tests.antt =====
-- Types taken apart, blocks that return, and witnesses of the properties.
use mort.Semver.Range.{ascii, decimals}
use mort.Ast.{
  Expr, bool_lit, var, binary, unary, int_lit, Stmt, return, if_stmt, while, block, no_else, Stmts,
  no_stmts, more_stmts, Arms,
}
use mort.Base.Int.{ℤ, pos, negsuc, ◌-ℤ◌, ◌*ℤ◌}
use mort.Checker.Constants.{
  c_div, c_mod, const_value, binary_value, in_range, shift_left, shift_right,
}
use mort.Checker.Division.{Divides, c_mod-Divides}
use mort.Checker.Values.{const_value-ok}
use mort.Checker.Widths.{signed, ranges-conversions}
use mort.Token.{Value}
use mort.Base.{
  Option, ◌↔◌, ℕ, Bool, true, false, codes, ◌≡◌, ◌≢◌, refl, List, [], ◌∷◌, some, none, Text,
}
use mort.Base.Result.{ok, out_of_fuel}
use mort.Checker.Ends.{substitute_type-ne-out_of_fuel}
use mort.Checker.Flow.{block_always_returns, statement_returns, statement_breaks}
use mort.Checker.Pieces.{function_parts-print}
use mort.Checker.Replace.{replace, texts, AllNames, IsReadable}
use mort.Checker.Replaced.{substitute_type-print}
use mort.Checker.Returns.{block_always_returns-returned}
use mort.Checker.Runs.{returned, Runs, inner, stops, while_returns, then, returns, is_loose}
use mort.Checker.Substitute.{substitute_type}
use mort.Checker.Trees.{
  Tree, name, generic, ptr, function, tuple, nil, cons, print, print_all, IsType, IsSimple,
}
use mort.Checker.Types.{
  int_of, is_number, trim_left, trim_right, all_ascii, function_parts, tuple_parts, generic_parts,
  at_close, list_pieces, generic_pieces, at_first_angle,
}

-- The `>` of an arrow closes a bracket that was never opened, and the comma behind it splits nothing.
callback_lem :
    function_parts (codes "fn(fn(i32)->i32,bool)->i32")
    ≡ some (codes "fn(i32)->i32,bool" ∷ [], codes "i32")
unfolding function_parts at_close list_pieces
callback_lem = refl

-- A tuple whose first element is a function type is no tuple.
tuple_lem : tuple_parts (codes "(fn(i32)->i32,bool)") ≡ none
unfolding tuple_parts list_pieces
tuple_lem = refl

-- The comma of a tuple type splits the arguments of a generic type.
argument_lem :
    generic_parts (codes "Box<(i32,bool)>")
    ≡ some (codes "Box", codes "(i32" ∷ (codes "bool)" ∷ []))
unfolding generic_parts generic_pieces at_first_angle
argument_lem = refl

-- `fn(*const T,(T,bool))->Box<T>`
abbrev mapper : Tree
mapper =
    function
      (cons (ptr true (name (codes "T")))
        (cons (tuple (cons (name (codes "T")) (cons (name (codes "bool")) nil))) nil))
      (generic (codes "Box") (cons (name (codes "T")) nil))

abbrev t_is_i32 : List (Text × Tree)
t_is_i32 = (codes "T", name (codes "i32")) ∷ []

t_is_i32-AllNames : AllNames t_is_i32
t_is_i32-AllNames = ((refl, tt), tt)

mapper-IsType : IsType mapper
unfolding IsType
mapper-IsType = (
  ((refl, tt), (((refl, tt), (refl, (refl, (refl, (refl, tt)))), tt), tt)),
  ((refl, (refl, (refl, tt))), (refl, tt), tt),
)

mapper-IsReadable : IsReadable mapper
unfolding IsReadable IsSimple
mapper-IsReadable = (
  (tt, ((tt, (tt, (tt, tt))), tt)),
  (tt, (((tt, (tt, tt)), (tt, (tt, tt))), tt)),
  ((tt, tt), (tt, tt)),
)

-- What `int()` takes besides digits.
int_lem : int_of ascii (codes " -1_0\n") ≡ ok (negsuc 9)
unfolding int_of is_number decimals trim_left trim_right all_ascii
int_lem = refl

substitute_type-print_example :
    substitute_type ascii (print mapper) (texts t_is_i32) ≡ ok (print (replace t_is_i32 mapper))
substitute_type-print_example =
    substitute_type-print ascii t_is_i32 mapper t_is_i32-AllNames mapper-IsType mapper-IsReadable

function_parts-print_example :
    function_parts (print (function (cons (name (codes "i32")) nil) (name (codes "bool"))))
    ≡ some (print_all (cons (name (codes "i32")) nil), print (name (codes "bool")))
unfolding IsType IsSimple
function_parts-print_example =
    function_parts-print (cons (name (codes "i32")) nil) (name (codes "bool"))
      ((refl, (refl, (refl, tt))), tt) (tt, tt)

substitute_type-ne-out_of_fuel_example :
    substitute_type ascii (codes "[*T;8]") (texts t_is_i32) ≢ out_of_fuel
substitute_type-ne-out_of_fuel_example =
    substitute_type-ne-out_of_fuel ascii (codes "[*T;8]") (texts t_is_i32)

-- `{ while true { if done { return; } } }`
abbrev loop_body : Stmts
loop_body =
    more_stmts
      (if_stmt (var (codes "done") 2) (block (more_stmts (return none 2) no_stmts) 2) no_else 2)
      no_stmts

abbrev loop : Stmt
loop = block (more_stmts (while (bool_lit true 1) (block loop_body 1) 1) no_stmts) 1

abbrev never : Expr → Arms → ℕ → Bool
never e arms n = false

loop-Runs : Runs never loop returned
loop-Runs = inner (stops (while_returns (stops (then (stops returns tt)) tt)) tt)

loop_lem : block_always_returns never loop ≡ true
unfolding statement_returns statement_breaks
loop_lem = refl

loop_closed : is_loose loop ≡ false
unfolding is_loose
loop_closed = refl

block_always_returns-returned_example : returned ≡ returned
block_always_returns-returned_example =
    block_always_returns-returned never loop returned loop_lem loop_closed loop-Runs

-- `-7 / 2` and `-7 % 2`.
divided_lem : c_div (negsuc 6) (pos 2) ≡ ok (negsuc 2)
unfolding c_div
divided_lem = refl

rest_lem : c_mod (negsuc 6) (pos 2) ≡ ok (negsuc 0)
unfolding c_mod c_div ◌-ℤ◌ ◌*ℤ◌
rest_lem = refl

c_mod-Divides_example :
    (q r : ℤ) × (c_div (negsuc 6) (pos 2) ≡ ok q)
    × (c_mod (negsuc 6) (pos 2) ≡ ok r)
    × Divides (negsuc 6) (pos 2) q r
c_mod-Divides_example = c_mod-Divides (negsuc 6) (pos 2) refl

-- `~5 & 255`
abbrev masked : Expr
masked =
    binary (codes "&") (unary (codes "~") (int_lit (Value.int 5) 1) 1) (int_lit (Value.int 255) 1) 1

masked_lem : const_value masked ≡ ok (some (pos 250))
unfolding const_value binary_value
masked_lem = refl

-- `(1 << 66) >> 65`: the cap of the inner shift is taken as its value.
abbrev capped : Expr
capped =
    binary (codes ">>") (binary (codes "<<") (int_lit (Value.int 1) 1) (int_lit (Value.int 66) 1) 1)
      (int_lit (Value.int 65) 1) 1

capped_lem : const_value capped ≡ ok (some (pos 1))
unfolding const_value binary_value shift_left shift_right ◌*ℤ◌
capped_lem = refl

const_value-ok_example : (o : Option ℤ) × (const_value masked ≡ ok o)
const_value-ok_example = const_value-ok masked

ranges-conversions_example :
    in_range (negsuc 127, pos 127) (pos 128) ≡ true ↔ signed 128 256 (pos 128) ≡ pos 128
ranges-conversions_example =
    ranges-conversions (codes "i8") (negsuc 127, pos 127) (signed 128 256) refl refl (pos 128)

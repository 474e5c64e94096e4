-- ===== src/Checker/Substitute.antt =====
-- mort/typechecker.py, `substitute_type`: the parameters in a type replaced.
use mort.Base.{
  ℕ, zero, suc, List, [], ◌∷◌, ◌++◌, if◌then◌else◌, Text, codes, lookup, length, Option, none, some,
}
use mort.Base.Result.{Result, ok, out_of_fuel, ◌>>=◌}
use mort.Checker.Types.{
  Failure, is_ptr, is_const_ptr, pointee, is_slice, is_const_slice, slice_elem, is_array,
  array_parts, function_parts, tuple_parts, generic_parts, show_int,
}
use mort.Semver.Range.{Digits}
use mort.Parser.Types.{comma_join}

abbrev pub Mapping : Type 0
Mapping = List (Text × Text)

-- `[substitute_type(item, mapping) for item in items]`
abbrev pub substitute_all : (Text → Result Failure Text) → List Text → Result Failure (List Text)
substitute_all inner [] = ok []
substitute_all inner (t ∷ ts) = do x ← inner t; xs ← substitute_all inner ts; ok (x ∷ xs)

-- The branches, over the function `inner` for the types inside.
module _ (inner : Text → Result Failure Text) where
  abbrev pub named_of : Text → Option (Text × List Text) → Result Failure Text
  named_of t (some (base, args)) = do
    xs ← substitute_all inner args
    ok (base ++ (codes "<" ++ (comma_join xs ++ codes ">")))
  named_of t none = ok t

  abbrev pub tuple_of : Text → Option (List Text) → Result Failure Text
  tuple_of t (some elements) = do
    xs ← substitute_all inner elements
    ok (codes "(" ++ (comma_join xs ++ codes ")"))
  tuple_of t none = named_of t (generic_parts t)

  abbrev pub callable_of : Text → Option (List Text × Text) → Result Failure Text
  callable_of t (some (parameters, result)) = do
    xs ← substitute_all inner parameters
    r ← inner result
    ok (codes "fn(" ++ (comma_join xs ++ (codes ")->" ++ r)))
  callable_of t none = tuple_of t (tuple_parts t)

  unfoldable pub substitute_array : Digits → Text → Result Failure Text
  substitute_array u t = do
    (elem, count) ← array_parts u t
    x ← inner elem
    ok (codes "[" ++ (x ++ (codes ";" ++ (show_int count ++ codes "]"))))

  unfoldable pub substitute_shape : Digits → Text → Result Failure Text
  substitute_shape u t =
      if is_ptr t
      then (do
        x ← inner (pointee t)
        ok ((if is_const_ptr t then codes "*const " else codes "*") ++ x))
      else if is_slice t
      then (do
        x ← inner (slice_elem t)
        ok ((if is_const_slice t then codes "[]const " else codes "[]") ++ x))
      else if is_array t
      then substitute_array u t
      else callable_of t (function_parts t)

  abbrev pub mapped_or : Digits → Text → Option Text → Result Failure Text
  mapped_or u t (some v) = ok v
  mapped_or u t none = substitute_shape u t

  unfoldable pub substitute_step : Digits → Mapping → Text → Result Failure Text
  substitute_step u mapping t = mapped_or u t (lookup t mapping)

-- A unit of fuel for each type inside a type.
unfoldable pub substitute_in : Digits → ℕ → Mapping → Text → Result Failure Text
substitute_in u zero mapping t = out_of_fuel
substitute_in u (suc n) mapping t = substitute_step (substitute_in u n mapping) u mapping t

-- `substitute_type(t, mapping)`
unfoldable pub substitute_type : Digits → Text → Mapping → Result Failure Text
substitute_type u t mapping = substitute_in u (suc (length t)) mapping t

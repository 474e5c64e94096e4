-- ===== src/Checker/Ends.antt =====
-- mort/typechecker.py: `substitute_type` ends on every text.
use mort.Lexer.Number.{max_str_digits}
use mort.Base.{
  ltb, ◌||◌, ◌==◌, remove, ℕ, zero, suc, ◌+◌, ◌-◌, ◌<◌, ◌≤◌, Bool, true, false, not, ◌&&◌, ◌≡◌, ◌≢◌,
  refl, List, [], ◌∷◌, ◌++◌, if◌then◌else◌, Text, codes, lookup, Option, none, some, arith, starts,
  drop, length,
}
use mort.Base.Int.{ℤ, pos}
use mort.Semver.Range.{Digits, decimals}
use mort.Base.Result.{Result, ok, raise, out_of_fuel, ◌>>=◌}
use mort.Checker.Fuel.{
  Ends, returns, raises, Ends-bind, Within, one_more, generic_pieces-Within, split_type_list-Within,
  length-all_but_last, length-drop, BothBelow, nothing, both, at_close-BothBelow,
  at_first_angle-BothBelow, at_last_semicolon-BothBelow,
}
use mort.Checker.Substitute.{
  Mapping, substitute_all, named_of, tuple_of, callable_of, mapped_or, substitute_array,
  substitute_shape, substitute_step, substitute_in, substitute_type,
}
use mort.Checker.Types.{
  Failure, value_error, all_but_last, ends_with, is_ptr, is_const_ptr, is_slice, is_const_slice,
  is_array, int_of, at_last_semicolon, array_of, array_parts, generic_of, generic_parts,
  at_first_angle, split_type_list, at_close, function_of, function_parts, two_or_more, tuple_parts,
  show_int, trim_left, trim_right, blank_in, number_of, is_number, signed, generic_pieces,
}

number_of-Ends : (u : Digits) (s : Text) → Ends (number_of u s)
number_of-Ends u s =
    by_test (not (is_number u false s) || ltb max_str_digits (length (remove b'_' s)))
  where
    by_test : (b : Bool) → Ends (if b then raise value_error else ok (decimals u 0 (remove b'_' s)))
    by_test true = raises
    by_test false = returns

int_of-Ends : (u : Digits) (s : Text) → Ends (int_of u s)
unfolding int_of
int_of-Ends u s = by_sign (trim_right (blank_in s) (trim_left (blank_in s) s))
  where
    by_tests :
        (a b : Bool) {x y z : Result Failure ℤ}
        → Ends x
        → Ends y
        → Ends z
        → Ends (if a then x else if b then y else z)
    by_tests true b x y z = x
    by_tests false true x y z = y
    by_tests false false x y z = z

    by_sign : (t : Text) → Ends (signed u t)
    by_sign [] = raises
    by_sign (c ∷ cs) =
        by_tests (c == b'-') (c == b'+')
          (Ends-bind (number_of u cs) _ (number_of-Ends u cs) λ n _. returns)
          (Ends-bind (number_of u cs) _ (number_of-Ends u cs) λ n _. returns)
          (Ends-bind (number_of u (c ∷ cs)) _ (number_of-Ends u (c ∷ cs)) λ n _. returns)

module _ (u : Digits) (n : ℕ) (inner : Text → Result Failure Text)
    (ih : (t : Text) → length t < n → Ends (inner t)) where
  all-Ends : (k : ℕ) (ps : List Text) → k < n → Within k ps → Ends (substitute_all inner ps)
  all-Ends k [] h w = returns
  all-Ends k (p ∷ ps) h (one_more a w) =
      Ends-bind (inner p) _ (ih p (omega (arith, h, a)))
        λ x _. Ends-bind (substitute_all inner ps) _ (all-Ends k ps h w) λ xs _. returns

  named-Ends : (t : Text) → length t ≤ n → Ends (named_of inner t (generic_parts t))
  unfolding generic_parts
  named-Ends t h = by_test (ends_with b'>' t)
    where
      by_angle :
          (o : Option (Text × Text))
          → BothBelow (length t) o
          → Ends (named_of inner t (generic_of o))
      by_angle _ nothing = returns
      by_angle _ (both {a = base} {b = rest} a b) =
          Ends-bind (substitute_all inner (generic_pieces (pos 0) (all_but_last rest))) _
            (all-Ends (length (all_but_last rest)) _ (omega (arith, h, b, length-all_but_last rest))
              (generic_pieces-Within (pos 0) (all_but_last rest)))
            λ xs _. returns

      by_test :
          (b : Bool) → Ends (named_of inner t (if b then generic_of (at_first_angle t) else none))
      by_test false = returns
      by_test true = by_angle (at_first_angle t) (at_first_angle-BothBelow t)

  tuple-Ends : (t : Text) → length t ≤ n → Ends (tuple_of inner t (tuple_parts t))
  unfolding tuple_parts
  tuple-Ends [] h = named-Ends [] h
  tuple-Ends (c ∷ cs) h =
      by_test (starts (codes "(") (c ∷ cs) && ends_with b')' (c ∷ cs))
        (drop 1 (all_but_last (c ∷ cs)))
        (omega (arith, h, length-drop 1 (all_but_last (c ∷ cs)), length-all_but_last (c ∷ cs)))
    where
      by_pieces :
          (k : ℕ) (ps : List Text)
          → k < n
          → Within k ps
          → Ends (tuple_of inner (c ∷ cs) (two_or_more ps))
      by_pieces k [] p w = named-Ends (c ∷ cs) h
      by_pieces k (x ∷ []) p w = named-Ends (c ∷ cs) h
      by_pieces k (x ∷ (y ∷ ps)) p w =
          Ends-bind (substitute_all inner (x ∷ (y ∷ ps))) _ (all-Ends k _ p w) λ xs _. returns

      by_test :
          (b : Bool) (inside : Text)
          → length inside < n
          → Ends
              (tuple_of inner (c ∷ cs) (if b then two_or_more (split_type_list inside) else none))
      by_test false inside p = named-Ends (c ∷ cs) h
      by_test true inside p =
          by_pieces (length inside) (split_type_list inside) p (split_type_list-Within inside)

  callable-Ends : (t : Text) → length t ≤ n → Ends (callable_of inner t (function_parts t))
  unfolding function_parts
  callable-Ends t h = by_test (starts (codes "fn(") t)
    where
      by_arrow :
          (parameters rest : Text)
          → length parameters < n
          → length rest < n
          → (b : Bool)
          → Ends (
              callable_of inner t
                (if b then some (split_type_list parameters, drop 2 rest) else none))
      by_arrow parameters rest p q false = tuple-Ends t h
      by_arrow parameters rest p q true =
          Ends-bind (substitute_all inner (split_type_list parameters)) _
            (all-Ends (length parameters) _ p (split_type_list-Within parameters))
            λ xs _.
              Ends-bind (inner (drop 2 rest)) _
                (ih (drop 2 rest) (omega (arith, q, length-drop 2 rest))) λ r _. returns

      by_close :
          (o : Option (Text × Text))
          → BothBelow (length (drop 3 t)) o
          → Ends (callable_of inner t (function_of o))
      by_close _ nothing = tuple-Ends t h
      by_close _ (both {a = parameters} {b = rest} a b) =
          by_arrow parameters rest (omega (arith, h, a, length-drop 3 t))
            (omega (arith, h, b, length-drop 3 t)) (starts (codes "->") rest)

      by_test :
          (b : Bool)
          → Ends
              (callable_of inner t (if b then function_of (at_close (pos 1) (drop 3 t)) else none))
      by_test false = tuple-Ends t h
      by_test true = by_close (at_close (pos 1) (drop 3 t)) (at_close-BothBelow (pos 1) (drop 3 t))

  -- The parts of an array whose element type is short, or none.
  data Sized : Result Failure (Text × ℤ) → Type 0 where
    sized : {elem : Text} {k : ℤ} → length elem < n → Sized (ok (elem, k))
    unsized : {e : Failure} → Sized (raise e)

  size-Sized : (elem size : Text) → length elem < n → Sized (int_of u size >>= λ k. ok (elem, k))
  size-Sized elem size p = by_size (int_of u size) (int_of-Ends u size)
    where
      by_size : (r : Result Failure ℤ) → Ends r → Sized (r >>= λ k. ok (elem, k))
      by_size _ returns = sized p
      by_size _ raises = unsized

  array_of-Sized :
      (inside : Text) (o : Option (Text × Text))
      → length inside < n
      → BothBelow (length inside) o
      → Sized (array_of u inside o)
  array_of-Sized inside _ p nothing =
      size-Sized (all_but_last inside) inside (omega (arith, p, length-all_but_last inside))
  array_of-Sized inside _ p (both {a = elem} {b = size} a b) =
      size-Sized elem size (omega (arith, p, a))

  array-Ends : (c : ℕ) (cs : Text) → suc (length cs) ≤ n → Ends (substitute_array inner u (c ∷ cs))
  unfolding substitute_array array_parts
  array-Ends c cs h =
      by_inside (drop 1 (all_but_last (c ∷ cs)))
        (omega (arith, h, length-drop 1 (all_but_last (c ∷ cs)), length-all_but_last (c ∷ cs)))
    where
      by_parts :
          (r : Result Failure (Text × ℤ))
          → Sized r
          → Ends (
              mort.Base.Result.◌>>=◌ r λ (elem, count). inner elem >>= λ x.
              ok (codes "[" ++ (x ++ (codes ";" ++ (show_int count ++ codes "]")))))
      by_parts _ (sized {elem = elem} p) = Ends-bind (inner elem) _ (ih elem p) λ x _. returns
      by_parts _ unsized = raises

      by_inside :
          (inside : Text)
          → length inside < n
          → Ends (
              mort.Base.Result.◌>>=◌ (array_of u inside (at_last_semicolon inside)) λ (elem, count).
                inner elem >>= λ x.
                ok (codes "[" ++ (x ++ (codes ";" ++ (show_int count ++ codes "]")))))
      by_inside inside p =
          by_parts _ (
            array_of-Sized inside (at_last_semicolon inside) p (at_last_semicolon-BothBelow inside))

  shape-Ends : (t : Text) → length t ≤ n → Ends (substitute_shape inner u t)
  unfolding substitute_shape
  shape-Ends [] h = callable-Ends [] h
  shape-Ends (c ∷ cs) h =
      by_tests (is_ptr (c ∷ cs)) (is_const_ptr (c ∷ cs)) (is_slice (c ∷ cs))
        (is_const_slice (c ∷ cs)) (is_array (c ∷ cs))
    where
      by_tests :
          (a b d e f : Bool)
          → Ends (
              if a
              then (inner (if b then drop 7 (c ∷ cs) else drop 1 (c ∷ cs)) >>= λ x.
                  ok ((if b then codes "*const " else codes "*") ++ x))
              else if d
              then (inner (if e then drop 8 (c ∷ cs) else drop 2 (c ∷ cs)) >>= λ x.
                  ok ((if e then codes "[]const " else codes "[]") ++ x))
              else if f
              then substitute_array inner u (c ∷ cs)
              else callable_of inner (c ∷ cs) (function_parts (c ∷ cs)))
      by_tests true true d e f =
          Ends-bind (inner (drop 7 (c ∷ cs))) _ (ih _ (omega (arith, h, length-drop 7 (c ∷ cs))))
            λ x _. returns
      by_tests true false d e f = Ends-bind (inner cs) _ (ih _ (omega (arith, h))) λ x _. returns
      by_tests false b true true f =
          Ends-bind (inner (drop 8 (c ∷ cs))) _ (ih _ (omega (arith, h, length-drop 8 (c ∷ cs))))
            λ x _. returns
      by_tests false b true false f =
          Ends-bind (inner (drop 2 (c ∷ cs))) _ (ih _ (omega (arith, h, length-drop 2 (c ∷ cs))))
            λ x _. returns
      by_tests false b false e true = array-Ends c cs h
      by_tests false b false e false = callable-Ends (c ∷ cs) h

  step-Ends :
      (mapping : Mapping) (t : Text) → length t ≤ n → Ends (substitute_step inner u mapping t)
  unfolding substitute_step
  step-Ends mapping t h = by_lookup (lookup t mapping)
    where
      by_lookup : (o : Option Text) → Ends (mapped_or inner u t o)
      by_lookup (some v) = returns
      by_lookup none = shape-Ends t h

in-Ends :
    (u : Digits) (n : ℕ) (mapping : Mapping) (t : Text)
    → length t < n
    → Ends (substitute_in u n mapping t)
unfolding substitute_in
in-Ends u zero mapping t h = absurd (omega (arith, h))
in-Ends u (suc n) mapping t h =
    step-Ends u n (substitute_in u n mapping) (in-Ends u n mapping) mapping t (omega (arith, h))

ends_ne : (r : Result Failure Text) → Ends r → r ≢ out_of_fuel
ends_ne _ returns e = cc e
ends_ne _ raises e = cc e

-- For every text and every mapping, `substitute_type` ends with a text or with the ValueError of `int()`: the fuel is
-- enough.
pub substitute_type-ne-out_of_fuel :
    (u : Digits) (t : Text) (mapping : Mapping) → substitute_type u t mapping ≢ out_of_fuel
unfolding substitute_type
substitute_type-ne-out_of_fuel u t mapping =
    ends_ne _ (in-Ends u (suc (length t)) mapping t (omega arith))

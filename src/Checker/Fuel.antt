-- ===== src/Checker/Fuel.antt =====
-- mort/typechecker.py: `substitute_type` ends on every text.
use mort.Base.{
  ℕ, zero, suc, ◌-◌, ◌<◌, ◌≤◌, Bool, true, false, ◌&&◌, ◌≡◌, refl, List, [], ◌∷◌, if◌then◌else◌,
  ◌==◌, Text, Option, none, some, arith, drop, length,
}
use mort.Base.Int.{ℤ, pos, dec, is_zero}
use mort.Base.Result.{Result, ok, raise, out_of_fuel, ◌>>=◌}
use mort.Checker.Types.{
  Failure, all_but_last, depth_after, put_before, or_here, at_last_semicolon, cons_first,
  generic_pieces, at_first_angle, list_pieces, split_type_list, at_close,
}

-- A call that ends.
pub data Ends {A : Type 0} : Result Failure A → Type 0 where
  returns : {a : A} → Ends (ok a)
  raises : {e : Failure} → Ends (raise e)

pub Ends-bind :
    {A B : Type 0} (r : Result Failure A) (k : A → Result Failure B)
    → Ends r
    → ((a : A) → r ≡ ok a → Ends (k a))
    → Ends (r >>= k)
Ends-bind (ok a) k e h = h a refl
Ends-bind (raise x) k e h = raises
Ends-bind out_of_fuel k e h = elim e [ ]

-- No text of the list is longer.
pub data Within (k : ℕ) : List Text → Type 0 where
  none_longer : Within k []
  one_more : {p : Text} {ps : List Text} → length p ≤ k → Within k ps → Within k (p ∷ ps)

pub Within-wider : (j k : ℕ) (ps : List Text) → j ≤ k → Within j ps → Within k ps
Within-wider j k [] h w = none_longer
Within-wider j k (p ∷ ps) h (one_more a w) =
    one_more (omega (arith, h, a)) (Within-wider j k ps h w)

Within-cons_first : (k c : ℕ) (ps : List Text) → Within k ps → Within (suc k) (cons_first c ps)
Within-cons_first k c [] w = one_more (omega arith) none_longer
Within-cons_first k c (p ∷ ps) (one_more a w) =
    one_more (omega (arith, a)) (Within-wider k (suc k) ps (omega arith) w)

Within-next : (k : ℕ) (ps : List Text) → Within k ps → Within (suc k) ([] ∷ ps)
Within-next k ps w = one_more (omega arith) (Within-wider k (suc k) ps (omega arith) w)

Within-if :
    (k : ℕ) (b : Bool) (ps qs : List Text)
    → Within k ps
    → Within k qs
    → Within k (if b then ps else qs)
Within-if k true ps qs v w = v
Within-if k false ps qs v w = w

list_pieces-Within : (a b c : ℤ) (w : Text) → Within (length w) (list_pieces a b c w)
unfolding list_pieces
list_pieces-Within a b c [] = one_more (omega arith) none_longer
list_pieces-Within a b c (x ∷ xs) =
    let a' = depth_after b'<' b'>' x a in
    let b' = depth_after b'(' b')' x b in
    let c' = depth_after b'[' b']' x c in
    let rest = list_pieces-Within a' b' c' xs in
    Within-if (suc (length xs)) (x == b',' && (is_zero a && (is_zero b && is_zero c))) _ _
      (Within-next (length xs) (list_pieces a' b' c' xs) rest)
      (Within-cons_first (length xs) x (list_pieces a' b' c' xs) rest)

pub generic_pieces-Within : (a : ℤ) (w : Text) → Within (length w) (generic_pieces a w)
unfolding generic_pieces
generic_pieces-Within a [] = one_more (omega arith) none_longer
generic_pieces-Within a (x ∷ xs) =
    let a' = depth_after b'<' b'>' x a in
    let rest = generic_pieces-Within a' xs in
    Within-if (suc (length xs)) (x == b',' && is_zero a) _ _
      (Within-next (length xs) (generic_pieces a' xs) rest)
      (Within-cons_first (length xs) x (generic_pieces a' xs) rest)

pub split_type_list-Within : (w : Text) → Within (length w) (split_type_list w)
split_type_list-Within [] = none_longer
split_type_list-Within (c ∷ cs) = list_pieces-Within (pos 0) (pos 0) (pos 0) (c ∷ cs)

pub length-all_but_last : (w : Text) → length (all_but_last w) ≤ length w
length-all_but_last [] = omega arith
length-all_but_last (c ∷ []) = omega arith
length-all_but_last (c ∷ (d ∷ ds)) = omega (arith, length-all_but_last (d ∷ ds))

pub length-drop : (n : ℕ) (w : Text) → length (drop n w) ≡ length w - n
length-drop zero w = omega arith
length-drop (suc n) [] = omega arith
length-drop (suc n) (c ∷ cs) = omega (arith, length-drop n cs)

-- Two texts, both shorter than a bound.
pub data BothBelow (k : ℕ) : Option (Text × Text) → Type 0 where
  nothing : BothBelow k none
  both : {a b : Text} → length a < k → length b < k → BothBelow k (some (a, b))

put_before-BothBelow :
    (k c : ℕ) (o : Option (Text × Text)) → BothBelow k o → BothBelow (suc k) (put_before c o)
put_before-BothBelow k c _ nothing = nothing
put_before-BothBelow k c _ (both h i) = both (omega (arith, h)) (omega (arith, i))

at_head : (cs : Text) → BothBelow (suc (length cs)) (some ([], cs))
at_head cs = both (omega arith) (omega arith)

BothBelow-if :
    (k : ℕ) (b : Bool) (o p : Option (Text × Text))
    → BothBelow k o
    → BothBelow k p
    → BothBelow k (if b then o else p)
BothBelow-if k true o p h i = h
BothBelow-if k false o p h i = i

pub at_close-BothBelow : (d : ℤ) (w : Text) → BothBelow (length w) (at_close d w)
unfolding at_close
at_close-BothBelow d [] = nothing
at_close-BothBelow d (c ∷ cs) =
    let e = depth_after b'(' b')' c d in
    BothBelow-if (suc (length cs)) (c == b')' && is_zero (dec d)) _ _ (at_head cs)
      (put_before-BothBelow (length cs) c (at_close e cs) (at_close-BothBelow e cs))

pub at_first_angle-BothBelow : (w : Text) → BothBelow (length w) (at_first_angle w)
unfolding at_first_angle
at_first_angle-BothBelow [] = nothing
at_first_angle-BothBelow (c ∷ cs) =
    BothBelow-if (suc (length cs)) (c == b'<') _ _ (at_head cs)
      (put_before-BothBelow (length cs) c (at_first_angle cs) (at_first_angle-BothBelow cs))

pub at_last_semicolon-BothBelow : (w : Text) → BothBelow (length w) (at_last_semicolon w)
unfolding at_last_semicolon
at_last_semicolon-BothBelow [] = nothing
at_last_semicolon-BothBelow (c ∷ cs) =
    by_rest (at_last_semicolon cs) (at_last_semicolon-BothBelow cs)
  where
    by_rest :
        (o : Option (Text × Text))
        → BothBelow (length cs) o
        → BothBelow (suc (length cs)) (or_here c cs o)
    by_rest _ nothing = BothBelow-if (suc (length cs)) (c == b';') _ none (at_head cs) nothing
    by_rest _ (both h i) = both (omega (arith, h)) (omega (arith, i))

-- ===== src/Checker/Values.antt =====
-- mort/typechecker.py: `_const_value` raises nothing.
use mort.Ast.{Expr, unary, binary}
use mort.Base.{
  Bool, true, false, not, ◌&&◌, ◌||◌, if◌then◌else◌, ◌≡◌, refl, sym, subst, Text, text_eq, codes,
  Option, some, none, arith,
}
use mort.Base.Int.{ℤ, pos, negsuc, is_zero, ltb_ℤ}
use mort.Base.Result.{Result, ok, ◌>>=◌}
use mort.Checker.Division.{c_mod-Divides}
use mort.Checker.Constants.{
  Arithmetic, is_negative, c_div, c_mod, shift_left, shift_right, some_of, binary_value,
  with_values, const_value,
}

-- A call that raises nothing.
data Fine {A : Type 0} : Result Arithmetic A → Type 0 where
  fine : {a : A} → Fine (ok a)

Fine-of : {A : Type 0} (r : Result Arithmetic A) (a : A) → r ≡ ok a → Fine r
Fine-of r a e = subst Fine (sym e) fine

Fine-if :
    {A : Type 0} (b : Bool) (x y : Result Arithmetic A)
    → (b ≡ true → Fine x)
    → (b ≡ false → Fine y)
    → Fine (if b then x else y)
Fine-if true x y h k = h refl
Fine-if false x y h k = k refl

then-Fine :
    {A B : Type 0} (r : Result Arithmetic A) (k : A → Result Arithmetic B)
    → Fine r
    → ((a : A) → Fine (k a))
    → Fine (r >>= k)
then-Fine _ k (fine {a = a}) h = h a

guard_of : (a b : Bool) → (a && not b) ≡ true → b ≡ false
guard_of a b h = ground arith

c_div-Fine : (a b : ℤ) → is_zero b ≡ false → Fine (c_div a b)
c_div-Fine a b h = let (q, r, e, f, d) = c_mod-Divides a b h in Fine-of (c_div a b) q e

c_mod-Fine : (a b : ℤ) → is_zero b ≡ false → Fine (c_mod a b)
c_mod-Fine a b h = let (q, r, e, f, d) = c_mod-Divides a b h in Fine-of (c_mod a b) r f

shift_left-Fine : (a b : ℤ) → is_negative b ≡ false → Fine (shift_left a b)
unfolding shift_left
shift_left-Fine a (pos b) h = fine
shift_left-Fine a (negsuc b) h = absurd (cc h)

shift_right-Fine : (a b : ℤ) → is_negative b ≡ false → Fine (shift_right a b)
unfolding shift_right
shift_right-Fine (pos a) (pos b) h = fine
shift_right-Fine (negsuc a) (pos b) h = fine
shift_right-Fine a (negsuc b) h = absurd (cc h)

some_of-Fine : (r : Result Arithmetic ℤ) → Fine r → Fine (some_of r)
some_of-Fine r f = then-Fine r _ f λ v. fine

binary_value-Fine : (op : Text) (lv rv : ℤ) → Fine (binary_value op lv rv)
unfolding binary_value
binary_value-Fine op lv rv =
    Fine-if (text_eq op (codes "+")) _ _ (λ _. fine)
      λ _.
        Fine-if (text_eq op (codes "-")) _ _ (λ _. fine)
          λ _.
            Fine-if (text_eq op (codes "*")) _ _ (λ _. fine)
              λ _.
                Fine-if (text_eq op (codes "/") && not (is_zero rv)) _ _
                  (λ h. some_of-Fine _ (c_div-Fine lv rv (guard_of _ _ h)))
                  λ _.
                    Fine-if (text_eq op (codes "%") && not (is_zero rv)) _ _
                      (λ h. some_of-Fine _ (c_mod-Fine lv rv (guard_of _ _ h)))
                      λ _.
                        Fine-if (text_eq op (codes "&")) _ _ (λ _. fine)
                          λ _.
                            Fine-if (text_eq op (codes "|")) _ _ (λ _. fine)
                              λ _.
                                Fine-if (text_eq op (codes "^")) _ _ (λ _. fine)
                                  λ _.
                                    Fine-if (text_eq op (codes "<<") && not (is_negative rv)) _ _
                                      (λ h. shifts (guard_of _ _ h))
                                      λ _.
                                        Fine-if (text_eq op (codes ">>") && not (is_negative rv)) _
                                          _
                                          (λ h.
                                            some_of-Fine _
                                              (shift_right-Fine lv rv (guard_of _ _ h)))
                                          λ _. fine
  where
    shifts :
        is_negative rv ≡ false
        → Fine (
            if is_zero lv
            then ok (some (pos 0))
            else if ltb_ℤ (pos 64) rv
            then some_of (shift_left (pos 1) (pos 65))
            else some_of (shift_left lv rv))
    shifts h =
        Fine-if (is_zero lv) _ _ (λ _. fine)
          λ _.
            Fine-if (ltb_ℤ (pos 64) rv) _ _
              (λ _. some_of-Fine _ (shift_left-Fine (pos 1) (pos 65) refl))
              λ _. some_of-Fine _ (shift_left-Fine lv rv h)

with_values-Fine : (op : Text) (o p : Option ℤ) → Fine (with_values op o p)
with_values-Fine op (some lv) (some rv) = binary_value-Fine op lv rv
with_values-Fine op (some lv) none = fine
with_values-Fine op none p = fine

const_value-Fine : (e : Expr) → Fine (const_value e)
unfolding const_value
const_value-Fine (unary op e n) =
    Fine-if (text_eq op (codes "-") || text_eq op (codes "~")) _ _
      (λ _. then-Fine (const_value e) _ (const_value-Fine e) λ v. fine) (λ _. fine)
const_value-Fine (binary op l r n) =
    then-Fine (const_value l) _ (const_value-Fine l)
      λ lv. then-Fine (const_value r) _ (const_value-Fine r) λ rv. with_values-Fine op lv rv
const_value-Fine _ = fine

value_of_Fine : {A : Type 0} (r : Result Arithmetic A) → Fine r → (a : A) × (r ≡ ok a)
value_of_Fine _ (fine {a = a}) = (a, refl)

-- For every expression, `_const_value` gives a value or None: no division by zero and no negative shift raises.
pub const_value-ok : (e : Expr) → (o : Option ℤ) × (const_value e ≡ ok o)
const_value-ok e = value_of_Fine (const_value e) (const_value-Fine e)

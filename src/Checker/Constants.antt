-- ===== src/Checker/Constants.antt =====
-- mort/typechecker.py: `_const_value` and the ranges of the integer types.
use Prim.Native.Nat.{bit_and, bit_or, bit_xor}
use mort.Ast.{Expr, int_lit, char_lit, unary, binary}
use mort.Base.{
  ℕ, ◌-◌, ◌/◌, ◌^◌, Bool, true, false, not, ◌&&◌, ◌||◌, List, [], ◌∷◌, if◌then◌else◌, ◌==◌, Text,
  text_eq, codes, Option, some, none,
}
use mort.Base.Int.{ℤ, pos, negsuc, is_zero, ◌+ℤ◌, ◌-ℤ◌, ◌*ℤ◌, ltb_ℤ, leb_ℤ, negate, abs}
use mort.Base.Result.{Result, ok, raise, ◌>>=◌}
use mort.Token.{Value}

-- The exceptions of `//` and of shifts.
pub data Arithmetic : Type 0 where
  zero_division negative_shift : Arithmetic

abbrev pub is_negative : ℤ → Bool
is_negative (pos n) = false
is_negative (negsuc n) = true

-- `_c_div(a, b)`
unfoldable pub c_div : ℤ → ℤ → Result Arithmetic ℤ
c_div a b =
    if abs b == 0
    then raise zero_division
    else (let q = pos (abs a / abs b) in
        ok (
          if (is_negative a && not (is_negative b)) || (not (is_negative a) && is_negative b)
          then negate q
          else q))

-- `_c_mod(a, b)`
unfoldable pub c_mod : ℤ → ℤ → Result Arithmetic ℤ
c_mod a b = do q ← c_div a b; ok (a -ℤ q *ℤ b)

-- The bits of the first number that the second does not have.
abbrev pub bit_without : ℕ → ℕ → ℕ
bit_without a b = a - bit_and a b

-- `a & b`, `a | b` and `a ^ b`, where -(n + 1) has the bits of n inverted.
abbrev pub and_ℤ : ℤ → ℤ → ℤ
and_ℤ (pos a) (pos b) = pos (bit_and a b)
and_ℤ (pos a) (negsuc b) = pos (bit_without a b)
and_ℤ (negsuc a) (pos b) = pos (bit_without b a)
and_ℤ (negsuc a) (negsuc b) = negsuc (bit_or a b)

abbrev pub or_ℤ : ℤ → ℤ → ℤ
or_ℤ (pos a) (pos b) = pos (bit_or a b)
or_ℤ (pos a) (negsuc b) = negsuc (bit_without b a)
or_ℤ (negsuc a) (pos b) = negsuc (bit_without a b)
or_ℤ (negsuc a) (negsuc b) = negsuc (bit_and a b)

abbrev pub xor_ℤ : ℤ → ℤ → ℤ
xor_ℤ (pos a) (pos b) = pos (bit_xor a b)
xor_ℤ (pos a) (negsuc b) = negsuc (bit_xor a b)
xor_ℤ (negsuc a) (pos b) = negsuc (bit_xor a b)
xor_ℤ (negsuc a) (negsuc b) = pos (bit_xor a b)

-- `~a`
abbrev pub invert : ℤ → ℤ
invert (pos n) = negsuc n
invert (negsuc n) = pos n

-- `a << b` and `a >> b`
unfoldable pub shift_left : ℤ → ℤ → Result Arithmetic ℤ
shift_left a (pos b) = ok (a *ℤ pos (2 ^ b))
shift_left a (negsuc b) = raise negative_shift

unfoldable pub shift_right : ℤ → ℤ → Result Arithmetic ℤ
shift_right (pos a) (pos b) = ok (pos (a / 2 ^ b))
shift_right (negsuc a) (pos b) = ok (negsuc (a / 2 ^ b))
shift_right a (negsuc b) = raise negative_shift

abbrev pub some_of : Result Arithmetic ℤ → Result Arithmetic (Option ℤ)
some_of r = r >>= λ v. ok (some v)

-- The chain of tests on the operator, for two values.
unfoldable pub binary_value : Text → ℤ → ℤ → Result Arithmetic (Option ℤ)
binary_value op lv rv =
    if text_eq op (codes "+")
    then ok (some (lv +ℤ rv))
    else if text_eq op (codes "-")
    then ok (some (lv -ℤ rv))
    else if text_eq op (codes "*")
    then ok (some (lv *ℤ rv))
    else if text_eq op (codes "/") && not (is_zero rv)
    then some_of (c_div lv rv)
    else if text_eq op (codes "%") && not (is_zero rv)
    then some_of (c_mod lv rv)
    else if text_eq op (codes "&")
    then ok (some (and_ℤ lv rv))
    else if text_eq op (codes "|")
    then ok (some (or_ℤ lv rv))
    else if text_eq op (codes "^")
    then ok (some (xor_ℤ lv rv))
    else if text_eq op (codes "<<") && not (is_negative rv)
    then (if is_zero lv
        then ok (some (pos 0))
        else if ltb_ℤ (pos 64) rv
        then some_of (shift_left (pos 1) (pos 65))
        else some_of (shift_left lv rv))
    else if text_eq op (codes ">>") && not (is_negative rv)
    then some_of (shift_right lv rv)
    else ok none

abbrev pub with_values : Text → Option ℤ → Option ℤ → Result Arithmetic (Option ℤ)
with_values op (some lv) (some rv) = binary_value op lv rv
with_values op (some lv) none = ok none
with_values op none rv = ok none

abbrev pub unary_value : Text → Option ℤ → Option ℤ
unary_value op none = none
unary_value op (some v) = if text_eq op (codes "-") then some (negate v) else some (invert v)

abbrev pub literal_value : Value → Option ℤ
literal_value (Value.int n) = some (pos n)
literal_value _ = none

-- `_const_value(e)`
unfoldable pub const_value : Expr → Result Arithmetic (Option ℤ)
const_value (int_lit v n) = ok (literal_value v)
const_value (char_lit v n) = ok (literal_value v)
const_value (unary op e n) =
    let inner = const_value e in
    if text_eq op (codes "-") || text_eq op (codes "~")
    then (do v ← inner; ok (unary_value op v))
    else ok none
const_value (binary op left right n) = do
  lv ← const_value left
  rv ← const_value right
  with_values op lv rv
const_value _ = ok none

abbrev pub ranges : List (Text × (ℤ × ℤ))
ranges =
    (codes "i8", (negsuc 127, pos 127))
    ∷ ((codes "i16", (negsuc 32767, pos 32767))
        ∷ ((codes "i32", (negsuc 2147483647, pos 2147483647))
            ∷ ((codes "i64", (negsuc 9223372036854775807, pos 9223372036854775807))
                ∷ ((codes "u8", (pos 0, pos 255))
                    ∷ ((codes "u16", (pos 0, pos 65535))
                        ∷ ((codes "u32", (pos 0, pos 4294967295))
                            ∷ ((codes "u64", (pos 0, pos 18446744073709551615))
                                ∷ ((codes "c_char", (negsuc 127, pos 127))
                                    ∷ ((codes "c_uchar", (pos 0, pos 255))
                                        ∷ ((codes "c_short", (negsuc 32767, pos 32767))
                                            ∷ ((codes "c_ushort", (pos 0, pos 65535))
                                                ∷ ((
                                                  codes "c_int",
                                                  (negsuc 2147483647, pos 2147483647),
                                                )
                                                    ∷ ((codes "c_uint", (pos 0, pos 4294967295))
                                                        ∷ ((
                                                          codes "c_long",
                                                          (negsuc 2147483647, pos 2147483647),
                                                        )
                                                            ∷ ((
                                                            codes "c_ulong",
                                                            (pos 0, pos 4294967295),
                                                            )
                                                            ∷ ((
                                                            codes "c_size",
                                                            (pos 0, pos 18446744073709551615),
                                                            )
                                                            ∷ []))))))))))))))))

-- `lo <= value <= hi`, the test of `_coerce` on a literal
abbrev pub in_range : ℤ × ℤ → ℤ → Bool
in_range (lo, hi) v = leb_ℤ lo v && leb_ℤ v hi

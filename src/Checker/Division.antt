-- ===== src/Checker/Division.antt =====
-- mort/typechecker.py: `_c_div` and `_c_mod`.
use native.Mathlib.Nat.{div-add-mod, mod-lt, zero-lt-suc}
use mort.Base.{
  ℕ, zero, suc, ◌/◌, ◌%◌, ◌<◌, true, false, ◌==◌, ◌≡◌, refl, ap, sym, ◌∙◌, ◌⊎◌, arith, inl, inr,
}
use mort.Base.Int.{ℤ, pos, negsuc, is_zero, ◌+ℤ◌, ◌-ℤ◌, ◌*ℤ◌, negate, abs}
use mort.Base.Result.{ok}
use mort.Checker.Constants.{is_negative, c_div, c_mod}

quotient : ℤ → ℤ → ℤ
quotient (pos a) (pos b) = pos (a / b)
quotient (pos a) (negsuc b) = negate (pos (a / suc b))
quotient (negsuc a) (pos b) = negate (pos (suc a / b))
quotient (negsuc a) (negsuc b) = pos (suc a / suc b)

not_zero : (b : ℕ) → (suc b == 0) ≡ false
not_zero b = ground arith

c_div-quotient : (a b : ℤ) → is_zero b ≡ false → c_div a b ≡ ok (quotient a b)
unfolding c_div quotient
c_div-quotient (pos a) (pos zero) h = absurd (cc h)
c_div-quotient (pos a) (pos (suc b)) h = rw (not_zero b) refl
c_div-quotient (pos a) (negsuc b) h = rw (not_zero b) refl
c_div-quotient (negsuc a) (pos zero) h = absurd (cc h)
c_div-quotient (negsuc a) (pos (suc b)) h = rw (not_zero b) refl
c_div-quotient (negsuc a) (negsuc b) h = rw (not_zero b) refl

remainder : ℤ → ℤ → ℤ
remainder (pos a) b = pos (a % abs b)
remainder (negsuc a) b = negate (pos (suc a % abs b))

-- The product of the quotient and the divisor, and the remainder, in the parts of the numbers.
c_mod-remainder : (a b : ℤ) → is_zero b ≡ false → a -ℤ quotient a b *ℤ b ≡ remainder a b
unfolding ◌-ℤ◌ ◌*ℤ◌ quotient remainder
c_mod-remainder (pos a) (pos zero) h = absurd (cc h)
c_mod-remainder (pos a) (pos (suc b)) h = ground (arith, div-add-mod a (suc b))
c_mod-remainder (pos a) (negsuc b) h = ground (arith, div-add-mod a (suc b))
c_mod-remainder (negsuc a) (pos zero) h = absurd (cc h)
c_mod-remainder (negsuc a) (pos (suc b)) h = ground (arith, div-add-mod (suc a) (suc b))
c_mod-remainder (negsuc a) (negsuc b) h = ground (arith, div-add-mod (suc a) (suc b))

-- The quotient and the remainder of C: the quotient is cut towards zero, and the remainder is smaller than the
-- divisor, and is zero or has the sign of the dividend.
pub record Divides (a b q r : ℤ) : Type 0 where
  pub whole : q *ℤ b +ℤ r ≡ a
  pub cut : abs q ≡ abs a / abs b
  pub smaller : abs r < abs b
  pub signed : (r ≡ pos 0) ⊎ (is_negative r ≡ is_negative a)

quotient-abs : (a b : ℤ) → abs (quotient a b) ≡ abs a / abs b
unfolding quotient
quotient-abs (pos a) (pos b) = refl
quotient-abs (pos a) (negsuc b) = ground arith
quotient-abs (negsuc a) (pos b) = ground arith
quotient-abs (negsuc a) (negsuc b) = refl

remainder_smaller : (a b : ℤ) → is_zero b ≡ false → abs (remainder a b) < abs b
unfolding remainder
remainder_smaller a (pos zero) h = absurd (cc h)
remainder_smaller (pos a) (pos (suc b)) h = mod-lt a (zero-lt-suc b)
remainder_smaller (pos a) (negsuc b) h = mod-lt a (zero-lt-suc b)
remainder_smaller (negsuc a) (pos (suc b)) h = ground (arith, mod-lt (suc a) (zero-lt-suc b))
remainder_smaller (negsuc a) (negsuc b) h = ground (arith, mod-lt (suc a) (zero-lt-suc b))

remainder_signed :
    (a b : ℤ) → (remainder a b ≡ pos 0) ⊎ (is_negative (remainder a b) ≡ is_negative a)
unfolding remainder
remainder_signed (pos a) b = inr refl
remainder_signed (negsuc a) b = negated (suc a % abs b)
  where
    negated : (n : ℕ) → (negate (pos n) ≡ pos 0) ⊎ (is_negative (negate (pos n)) ≡ true)
    negated zero = inl refl
    negated (suc n) = inr (ground arith)

back : (a x : ℤ) → x +ℤ (a -ℤ x) ≡ a
unfolding ◌+ℤ◌ ◌-ℤ◌
back a x = ground arith

-- For a divisor that is not zero, `_c_div` and `_c_mod` give the quotient and the remainder of C.
pub c_mod-Divides :
    (a b : ℤ)
    → is_zero b ≡ false
    → (q r : ℤ) × (c_div a b ≡ ok q) × (c_mod a b ≡ ok r) × Divides a b q r
unfolding c_mod
c_mod-Divides a b h = (
  quotient a b,
  remainder a b,
  c_div-quotient a b h,
  rw (c_div-quotient a b h) (ap (λ x. ok x) (c_mod-remainder a b h)),
  record {
    whole =
        ap (λ x. quotient a b *ℤ b +ℤ x) (sym (c_mod-remainder a b h)) ∙ back a (quotient a b *ℤ b);
    cut = quotient-abs a b;
    smaller = remainder_smaller a b h;
    signed = remainder_signed a b;
  },
)

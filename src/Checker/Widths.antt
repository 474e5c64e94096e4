-- ===== src/Checker/Widths.antt =====
-- mort/typechecker.py: `INT_RANGES` against the values of C integers.
use mort.Base.{
  ℕ, ◌-◌, ◌%◌, ltb, Bool, true, false, ◌≡◌, ◌↔◌, refl, ap, List, [], ◌∷◌, if◌then◌else◌, Text,
  text_eq, codes, lookup, some, arith, subst,
}
use mort.Base.Int.{ℤ, pos, negsuc}
use mort.Checker.Constants.{ranges, in_range}

-- The number modulo 2^w, for `size` = 2^w.
abbrev residue : ℕ → ℤ → ℕ
residue size (pos n) = n % size
residue size (negsuc n) = size - 1 - n % size

-- The value of an unsigned integer with `size` values, and of one in two's complement.
abbrev pub unsigned : ℕ → ℤ → ℤ
unsigned size v = pos (residue size v)

abbrev pub signed : ℕ → ℕ → ℤ → ℤ
signed half size v =
    if ltb (residue size v) half then pos (residue size v) else negsuc (size - 1 - residue size v)

-- What a conversion to the type keeps of a number; `c_long` and `c_ulong` have 32 bits, as on Windows.
abbrev pub conversions : List (Text × (ℤ → ℤ))
conversions =
    (codes "i8", signed 128 256)
    ∷ ((codes "i16", signed 32768 65536)
        ∷ ((codes "i32", signed 2147483648 4294967296)
            ∷ ((codes "i64", signed 9223372036854775808 18446744073709551616)
                ∷ ((codes "u8", unsigned 256)
                    ∷ ((codes "u16", unsigned 65536)
                        ∷ ((codes "u32", unsigned 4294967296)
                            ∷ ((codes "u64", unsigned 18446744073709551616)
                                ∷ ((codes "c_char", signed 128 256)
                                    ∷ ((codes "c_uchar", unsigned 256)
                                        ∷ ((codes "c_short", signed 32768 65536)
                                            ∷ ((codes "c_ushort", unsigned 65536)
                                                ∷ ((codes "c_int", signed 2147483648 4294967296)
                                                    ∷ ((codes "c_uint", unsigned 4294967296)
                                                        ∷ ((
                                                          codes "c_long",
                                                          signed 2147483648 4294967296,
                                                        )
                                                            ∷ ((
                                                            codes "c_ulong",
                                                            unsigned 4294967296,
                                                            )
                                                            ∷ ((
                                                            codes "c_size",
                                                            unsigned 18446744073709551616,
                                                            )
                                                            ∷ []))))))))))))))))

-- A range has the numbers that a conversion keeps.
abbrev pub Keeps : ℤ × ℤ → (ℤ → ℤ) → Type 0
Keeps r f = (v : ℤ) → in_range r v ≡ true ↔ f v ≡ v

signed_8 : Keeps (negsuc 127, pos 127) (signed 128 256)
signed_8 v = ground arith

unsigned_8 : Keeps (pos 0, pos 255) (unsigned 256)
unsigned_8 v = ground arith

signed_16 : Keeps (negsuc 32767, pos 32767) (signed 32768 65536)
signed_16 v = ground arith

unsigned_16 : Keeps (pos 0, pos 65535) (unsigned 65536)
unsigned_16 v = ground arith

signed_32 : Keeps (negsuc 2147483647, pos 2147483647) (signed 2147483648 4294967296)
signed_32 v = ground arith

unsigned_32 : Keeps (pos 0, pos 4294967295) (unsigned 4294967296)
unsigned_32 v = ground arith

signed_64 :
    Keeps
      (negsuc 9223372036854775807, pos 9223372036854775807)
      (signed 9223372036854775808 18446744073709551616)
signed_64 v = ground arith

unsigned_64 : Keeps (pos 0, pos 18446744073709551615) (unsigned 18446744073709551616)
unsigned_64 v = ground arith

-- Two tables with the same keys, whose entries agree.
abbrev Agree : List (Text × (ℤ × ℤ)) → List (Text × (ℤ → ℤ)) → Type 0
Agree [] [] = Unit {0}
Agree [] (q ∷ qs) = ⊥
Agree (p ∷ ps) [] = ⊥
Agree ((t, r) ∷ ps) ((u, f) ∷ qs) = (t ≡ u) × Keeps r f × Agree ps qs

Agree-lookup :
    (ps : List (Text × (ℤ × ℤ))) (qs : List (Text × (ℤ → ℤ)))
    → Agree ps qs
    → (t : Text) (r : ℤ × ℤ) (f : ℤ → ℤ) → lookup t ps ≡ some r
    → lookup t qs ≡ some f
    → Keeps r f
Agree-lookup [] [] a t r f p q = absurd (cc p)
Agree-lookup [] (y ∷ qs) a t r f p q = absurd a
Agree-lookup (x ∷ ps) [] a t r f p q = absurd a
Agree-lookup ((u, s) ∷ ps) ((w, g) ∷ qs) a t r f p q =
    by_test (text_eq t u) (text_eq t w) p q (ap (text_eq t) a.0) a.1
      (λ p q. Agree-lookup ps qs a.2 t r f p q)
  where
    by_test :
        (b c : Bool)
        → (if b then some s else lookup t ps) ≡ some r
        → (if c then some g else lookup t qs) ≡ some f
        → b ≡ c
        → Keeps s g
        → (lookup t ps ≡ some r → lookup t qs ≡ some f → Keeps r f)
        → Keeps r f
    by_test true true p q e k h =
        subst (λ x. Keeps x f) (some_inj p) (subst (λ x. Keeps s x) (some_inj q) k)
      where
        some_inj : {A : Type 0} {x y : A} → some x ≡ some y → x ≡ y
        some_inj p = cc p
    by_test true false p q e k h = absurd (cc e)
    by_test false true p q e k h = absurd (cc e)
    by_test false false p q e k h = h p q

tables-Agree : Agree ranges conversions
tables-Agree = (
  refl,
  signed_8,
  (
    refl,
    signed_16,
    (
      refl,
      signed_32,
      (
        refl,
        signed_64,
        (
          refl,
          unsigned_8,
          (
            refl,
            unsigned_16,
            (
              refl,
              unsigned_32,
              (
                refl,
                unsigned_64,
                (
                  refl,
                  signed_8,
                  (
                    refl,
                    unsigned_8,
                    (
                      refl,
                      signed_16,
                      (
                        refl,
                        unsigned_16,
                        (
                          refl,
                          signed_32,
                          (
                            refl,
                            unsigned_32,
                            (refl, signed_32, (refl, unsigned_32, (refl, unsigned_64, tt))),
                          ),
                        ),
                      ),
                    ),
                  ),
                ),
              ),
            ),
          ),
        ),
      ),
    ),
  ),
)

-- A number is in the range of an integer type exactly if the conversion to the type keeps it.
pub ranges-conversions :
    (t : Text) (r : ℤ × ℤ) (f : ℤ → ℤ)
    → lookup t ranges ≡ some r
    → lookup t conversions ≡ some f
    → (v : ℤ) → in_range r v ≡ true ↔ f v ≡ v
ranges-conversions t r f p q v = Agree-lookup ranges conversions tables-Agree t r f p q v

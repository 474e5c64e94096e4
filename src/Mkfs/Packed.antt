-- ===== src/Mkfs/Packed.antt =====
-- kernel/mkfs.py: numbers packed and unpacked.
use mort.Base.{
  ℕ, ◌+◌, ◌*◌, ◌/◌, ◌%◌, ◌<◌, ltb, true, ◌≡◌, refl, ap₂, List, [], ◌∷◌, ◌++◌, length, All, arith,
}
use mort.Base.Result.{ok}
use mort.Mkfs.Bytes.{Bytes, u32, pack, numbers}

u32_value :
    (n : ℕ)
    → n < 4294967296
    → n % 256 + 256 * (n / 256 % 256) + 65536 * (n / 65536 % 256) + 16777216 * (n / 16777216 % 256)
      ≡ n
u32_value n h = omega (arith, h)

pub packed : List ℕ → Bytes
packed [] = []
packed (n ∷ ns) = u32 n ++ packed ns

abbrev pub Small : ℕ → Type 0
Small n = n < 4294967296

pub Small-test : (n : ℕ) → Small n → ltb n 4294967296 ≡ true
Small-test n h = ground arith

pub pack-packed : (ns : List ℕ) → All Small ns → pack ns ≡ ok (packed ns)
unfolding pack packed
pack-packed [] h = refl
pack-packed (n ∷ ns) h = rw (Small-test n h.0, pack-packed ns h.1) refl

pub length-packed : (ns : List ℕ) → length (packed ns) ≡ 4 * length ns
unfolding packed
length-packed [] = refl
length-packed (n ∷ ns) = omega (arith, length-packed ns)

-- Numbers that were packed are unpacked again.
pub numbers-packed : (ns : List ℕ) → All Small ns → numbers (length ns) (packed ns) ≡ ns
unfolding packed numbers
numbers-packed [] h = refl
numbers-packed (n ∷ ns) h = ap₂ (λ x xs. x ∷ xs) (u32_value n h.0) (numbers-packed ns h.1)

-- ===== src/Mkfs/Slices.antt =====
-- kernel/mkfs.py: a slice of a byte array in which another slice was assigned.
use mort.Base.{
  ℕ, zero, suc, ◌+◌, ◌-◌, ◌≤◌, ◌≡◌, refl, ap, sym, ◌∙◌, [], ◌∷◌, ◌++◌, length, length-append, take,
  drop, replicate, arith,
}
use mort.Mkfs.Bytes.{Bytes, slice, assign}

take-append : (n : ℕ) (xs ys : Bytes) → n ≤ length xs → take n (xs ++ ys) ≡ take n xs
take-append zero xs ys h = refl
take-append (suc n) [] ys h = absurd (omega (arith, h))
take-append (suc n) (x ∷ xs) ys h = ap (λ t. x ∷ t) (take-append n xs ys (omega (arith, h)))

drop-append : (n : ℕ) (xs ys : Bytes) → n ≤ length xs → drop n (xs ++ ys) ≡ drop n xs ++ ys
drop-append zero xs ys h = refl
drop-append (suc n) [] ys h = absurd (omega (arith, h))
drop-append (suc n) (x ∷ xs) ys h = drop-append n xs ys (omega (arith, h))

-- Behind the first part, in the second.
pub drop_past : (n m : ℕ) (xs ys : Bytes) → n ≡ length xs + m → drop n (xs ++ ys) ≡ drop m ys
drop_past n m [] ys h = ap (λ k. drop k ys) (omega (arith, h))
drop_past zero m (x ∷ xs) ys h = absurd (omega (arith, h))
drop_past (suc n) m (x ∷ xs) ys h = drop_past n m xs ys (omega (arith, h))

pub take-length : (xs ys : Bytes) → take (length xs) (xs ++ ys) ≡ xs
take-length [] ys = refl
take-length (x ∷ xs) ys = ap (λ t. x ∷ t) (take-length xs ys)

drop_nil : (n : ℕ) → drop {A = ℕ} n [] ≡ []
drop_nil zero = refl
drop_nil (suc n) = refl

drop-drop : (a b c : ℕ) (xs : Bytes) → c ≡ b + a → drop a (drop b xs) ≡ drop c xs
drop-drop a zero c xs h = ap (λ k. drop k xs) (omega (arith, h))
drop-drop a (suc b) c [] h = drop_nil a ∙ sym (drop_nil c)
drop-drop a (suc b) zero (x ∷ xs) h = absurd (omega (arith, h))
drop-drop a (suc b) (suc c) (x ∷ xs) h = drop-drop a b c xs (omega (arith, h))

pub length-take : (n : ℕ) (xs : Bytes) → n ≤ length xs → length (take n xs) ≡ n
length-take zero xs h = refl
length-take (suc n) [] h = absurd (omega (arith, h))
length-take (suc n) (x ∷ xs) h = omega (arith, length-take n xs (omega (arith, h)))

length-drop : (n : ℕ) (xs : Bytes) → length (drop n xs) ≡ length xs - n
length-drop zero xs = omega arith
length-drop (suc n) [] = omega arith
length-drop (suc n) (x ∷ xs) = omega (arith, length-drop n xs)

pub length-replicate : (n x : ℕ) → length (replicate n x) ≡ n
length-replicate zero x = refl
length-replicate (suc n) x = omega (arith, length-replicate n x)

-- A part of a start.
part_of_start :
    (a n y : ℕ) (xs : Bytes) → y + n ≤ a → take n (drop y (take a xs)) ≡ take n (drop y xs)
part_of_start a zero y xs h = refl
part_of_start zero (suc n) y xs h = absurd (omega (arith, h))
part_of_start (suc a) (suc n) y [] h = refl
part_of_start (suc a) (suc n) zero (x ∷ xs) h =
    ap (λ t. x ∷ t) (part_of_start a n zero xs (omega (arith, h)))
part_of_start (suc a) (suc n) (suc y) (x ∷ xs) h = part_of_start a (suc n) y xs (omega (arith, h))

module _ (image : Bytes) (a b : ℕ) (s : Bytes) (h : b ≡ a + length s) (k : b ≤ length image) where
  start_length : length (take a image) ≡ a
  start_length = length-take a image (omega (arith, h, k))

  pub length-assign : length (assign image a b s) ≡ length image
  unfolding assign
  length-assign = omega (
    arith,
    h,
    k,
    start_length,
    length-append (take a image) (s ++ drop (a + (b - a)) image),
    length-append s (drop (a + (b - a)) image),
    length-drop (a + (b - a)) image,
  )

  pub slice-assign : slice (assign image a b s) a b ≡ s
  unfolding assign
  slice-assign =
      ap (take (b - a)) (drop_past a 0 (take a image) _ (omega (arith, start_length)))
      ∙ (ap (λ n. take n (s ++ drop (a + (b - a)) image)) (omega (arith, h)) ∙ take-length s _)

  pub slice_before : (x y : ℕ) → y ≤ a → x ≤ y → slice (assign image a b s) x y ≡ slice image x y
  unfolding assign
  slice_before x y p q =
      ap (take (y - x)) (drop-append x (take a image) _ (omega (arith, start_length, p, q)))
      ∙ (take-append (y - x) (drop x (take a image)) _
            (omega (arith, start_length, p, q, length-drop x (take a image)))
          ∙ part_of_start a (y - x) x image (omega (arith, p, q)))

  pub slice_after : (x y : ℕ) → b ≤ x → slice (assign image a b s) x y ≡ slice image x y
  unfolding assign
  slice_after x y p = ap (take (y - x)) (
      drop_past x (x - a) (take a image) _ (omega (arith, start_length, p, h))
      ∙ (drop_past (x - a) (x - b) s _ (omega (arith, p, h))
          ∙ drop-drop (x - b) (a + (b - a)) x image (omega (arith, p, h))))

-- ===== src/Semver/Swap.antt =====
-- mort/project.py: `_compare_semver` of two versions in the one order and in the other.
use mort.Base.{
  or_left, or_right, ℕ, zero, suc, ◌+◌, ◌≡◌, ◌≢◌, ◌⊎◌, inl, inr, refl, ap, sym, ◌∙◌, Bool, true,
  false, not, ◌&&◌, ◌||◌, List, [], ◌∷◌, if◌then◌else◌, ◌==◌, ltb, Text, text_eq, text_eq→eq,
  text_eq_refl, arith, Bool-cases, length,
}
use mort.Base.Result.{Result, ok, raise}
use mort.Lexer.Number.{digits, max_str_digits}
use mort.Semver.Compare.{
  Sign, minus_one, same, one, text_lt, by_kind, compare_identifier, compare_identifiers,
  compare_prerelease, by_number, compare_semver,
}
use mort.Semver.Identifiers.{same_number-eq}
use mort.Semver.Version.{
  Failure, value_error, Version, int_of, is_numeric, leading_zero, any_leading_zero,
}

abbrev pub negated : Sign → Sign
negated minus_one = one
negated same = same
negated one = minus_one

-- Two comparisons that answer with opposite signs, or both fail in `int()`.
pub data Opposite : Result Failure Sign → Result Failure Sign → Type 0 where
  answers : (s : Sign) → Opposite (ok s) (ok (negated s))
  fails : Opposite (raise value_error) (raise value_error)

swap_if :
    (a b : Bool)
    → b ≡ not a
    → Opposite (ok (if a then minus_one else one)) (ok (if b then minus_one else one))
swap_if true true e = absurd (cc e)
swap_if true false e = answers minus_one
swap_if false true e = answers one
swap_if false false e = absurd (cc e)

text_lt-swap : (s t : Text) → text_eq s t ≡ false → text_lt t s ≡ not (text_lt s t)
unfolding text_lt
text_lt-swap [] [] h = absurd (cc h)
text_lt-swap [] (d ∷ ds) h = refl
text_lt-swap (c ∷ cs) [] h = refl
text_lt-swap (c ∷ cs) (d ∷ ds) h = ground (arith, text_lt-swap cs ds)

ltb-swap : (a b : ℕ) → a ≢ b → ltb b a ≡ not (ltb a b)
ltb-swap a b h = ground arith

-- The numbers of two numeric identifiers.
numbers-Opposite :
    (x y : Text)
    → digits 10 0 x ≢ digits 10 0 y
    → Opposite
        (mort.Base.Result.◌>>=◌
          (int_of x)
          λ a. mort.Base.Result.◌>>=◌ (int_of y) λ b. ok (if ltb a b then minus_one else one))
        (mort.Base.Result.◌>>=◌
          (int_of y)
          λ b. mort.Base.Result.◌>>=◌ (int_of x) λ a. ok (if ltb b a then minus_one else one))
unfolding int_of
numbers-Opposite x y h = by_tests (ltb max_str_digits (length x)) (ltb max_str_digits (length y))
  where
    by_tests :
        (s t : Bool)
        → Opposite
            (mort.Base.Result.◌>>=◌ (if s then raise value_error else ok (digits 10 0 x)) λ a.
              mort.Base.Result.◌>>=◌
                (if t then raise value_error else ok (digits 10 0 y))
                λ b. ok (if ltb a b then minus_one else one))
            (mort.Base.Result.◌>>=◌ (if t then raise value_error else ok (digits 10 0 y)) λ b.
              mort.Base.Result.◌>>=◌
                (if s then raise value_error else ok (digits 10 0 x))
                λ a. ok (if ltb b a then minus_one else one))
    by_tests true true = fails
    by_tests true false = fails
    by_tests false true = fails
    by_tests false false = swap_if _ _ (ltb-swap _ _ h)

text_ne : (x y : Text) → text_eq x y ≡ false → x ≢ y
text_ne x y h e = absurd (cc (sym (text_eq_refl y) ∙ rw e at h))

and_true : (a b : Bool) → a ≡ true → (a && b) ≡ false → b ≡ false
and_true true b e h = h
and_true false b e h = absurd (cc e)

-- Two identifiers that differ.
identifier-Opposite :
    (x y : Text)
    → text_eq x y ≡ false
    → (is_numeric x && leading_zero x) ≡ false
    → (is_numeric y && leading_zero y) ≡ false
    → Opposite (compare_identifier x y) (compare_identifier y x)
unfolding compare_identifier
identifier-Opposite x y h k l = by_tests (is_numeric x) (is_numeric y) refl refl
  where
    by_tests :
        (a b : Bool)
        → is_numeric x ≡ a
        → is_numeric y ≡ b
        → Opposite (by_kind a b x y) (by_kind b a y x)
    by_tests true true e f =
        numbers-Opposite x y
          (λ q. text_ne x y h (same_number-eq x y e f (and_true _ _ e k) (and_true _ _ f l) q))
    by_tests true false e f = answers minus_one
    by_tests false true e f = answers one
    by_tests false false e f = swap_if _ _ (text_lt-swap x y h)

text_eq_swap : (x y : Text) (a : Bool) → text_eq x y ≡ a → text_eq y x ≡ a
text_eq_swap x y true h = ap (λ z. text_eq z x) (sym (text_eq→eq x y h)) ∙ text_eq_refl x
text_eq_swap x y false h = elim (Bool-cases (text_eq y x)) [
  | inl e ↦ absurd (text_ne x y h (sym (text_eq→eq y x e)))
  | inr e ↦ e
]

identifiers-Opposite :
    (xs ys : List Text)
    → any_leading_zero xs ≡ false
    → any_leading_zero ys ≡ false
    → Opposite (compare_identifiers xs ys) (compare_identifiers ys xs)
unfolding compare_identifiers
identifiers-Opposite [] [] h k = answers same
identifiers-Opposite [] (y ∷ ys) h k = answers minus_one
identifiers-Opposite (x ∷ xs) [] h k = answers one
identifiers-Opposite (x ∷ xs) (y ∷ ys) h k =
    by_test (text_eq x y) (text_eq y x) refl (text_eq_swap x y _ refl) (
      identifiers-Opposite xs ys (or_right (is_numeric x && leading_zero x) _ h)
        (or_right (is_numeric y && leading_zero y) _ k))
  where
    by_test :
        (a b : Bool)
        → text_eq x y ≡ a
        → b ≡ a
        → Opposite (compare_identifiers xs ys) (compare_identifiers ys xs)
        → Opposite
            (if a then compare_identifiers xs ys else compare_identifier x y)
            (if b then compare_identifiers ys xs else compare_identifier y x)
    by_test true true e f r = r
    by_test true false e f r = absurd (cc f)
    by_test false true e f r = absurd (cc f)
    by_test false false e f r =
        identifier-Opposite x y e (or_left _ (any_leading_zero xs) h)
          (or_left _ (any_leading_zero ys) k)

prerelease-Opposite :
    (xs ys : List Text)
    → any_leading_zero xs ≡ false
    → any_leading_zero ys ≡ false
    → Opposite (compare_prerelease xs ys) (compare_prerelease ys xs)
prerelease-Opposite [] [] h k = answers same
prerelease-Opposite [] (y ∷ ys) h k = answers one
prerelease-Opposite (x ∷ xs) [] h k = answers minus_one
prerelease-Opposite (x ∷ xs) (y ∷ ys) h k = identifiers-Opposite (x ∷ xs) (y ∷ ys) h k

eq_swap : (a b : ℕ) → (b == a) ≡ (a == b)
eq_swap a b = ground arith

ne_of : (a b : ℕ) → (a == b) ≡ false → a ≢ b
ne_of a b h e = ground arith

number-Opposite :
    (a b : ℕ) (r t : Result Failure Sign)
    → Opposite r t
    → Opposite (by_number a b r) (by_number b a t)
number-Opposite a b r t o = by_test (a == b) (b == a) refl (eq_swap a b)
  where
    by_test :
        (e f : Bool)
        → (a == b) ≡ e
        → f ≡ e
        → Opposite
            (if e then r else ok (if ltb a b then minus_one else one))
            (if f then t else ok (if ltb b a then minus_one else one))
    by_test true true p q = o
    by_test true false p q = absurd (cc q)
    by_test false true p q = absurd (cc q)
    by_test false false p q = swap_if _ _ (ltb-swap a b (ne_of a b p))

-- Versions without leading zeros.
pub compare_semver-Opposite :
    (v w : Version)
    → any_leading_zero v.identifiers ≡ false
    → any_leading_zero w.identifiers ≡ false
    → Opposite (compare_semver v w) (compare_semver w v)
unfolding compare_semver
compare_semver-Opposite v w h k = number-Opposite v.major w.major _ _ (
    number-Opposite v.minor w.minor _ _
      (number-Opposite v.patch w.patch _ _ (prerelease-Opposite v.identifiers w.identifiers h k)))

-- ===== src/Semver/Order.antt =====
-- mort/project.py: `_compare_semver` answers along an order.
use mort.Base.{
  ℕ, ◌<◌, ltb, ◌≡◌, refl, sym, ◌∙◌, subst, Bool, true, false, List, [], ◌∷◌, ◌⊎◌, inl, inr,
  if◌then◌else◌, ◌==◌, Text, text_eq, text_eq→eq, text_eq_refl, arith, Bool-cases,
}
use mort.Base.Result.{Result, ok, raise}
use mort.Lexer.Number.{digits}
use mort.Semver.Compare.{
  Sign, minus_one, one, text_lt, by_kind, compare_identifier, compare_identifiers,
  compare_prerelease, by_number, compare_semver,
}
use mort.Semver.Version.{Failure, Version, int_of, is_numeric}

-- The answer is -1.
abbrev Below : Result Failure Sign → Type 0
Below r = r ≡ ok minus_one

text_lt_trans : (s t u : Text) → text_lt s t ≡ true → text_lt t u ≡ true → text_lt s u ≡ true
unfolding text_lt
text_lt_trans s t [] h k = cc
text_lt_trans s [] (e ∷ es) h k = cc
text_lt_trans [] (d ∷ ds) (e ∷ es) h k = refl
text_lt_trans (c ∷ cs) (d ∷ ds) (e ∷ es) h k = ground (arith, text_lt_trans cs ds es)

text_lt_irrefl : (s : Text) → text_lt s s ≡ false
unfolding text_lt
text_lt_irrefl [] = refl
text_lt_irrefl (c ∷ cs) = ground (arith, text_lt_irrefl cs)

minus_if : (b : Bool) → Below (ok (if b then minus_one else one)) → b ≡ true
minus_if true h = refl
minus_if false h = cc

-- What -1 says of two identifiers, by their kinds.
abbrev KindBelow : Bool → Bool → Text → Text → Type 0
KindBelow true true x y =
    (int_of x ≡ ok (digits 10 0 x))
    × (int_of y ≡ ok (digits 10 0 y))
    × (digits 10 0 x < digits 10 0 y)
KindBelow true false x y = Unit
KindBelow false true x y = ⊥
KindBelow false false x y = text_lt x y ≡ true

int_of-cases : (x : Text) → (int_of x ≡ ok (digits 10 0 x)) ⊎ (int_of x ≡ raise Failure.value_error)
unfolding int_of
int_of-cases x = ground arith

numbers-Below : (a b : ℕ) → Below (ok (if ltb a b then minus_one else one)) → a < b
numbers-Below a b h = ground arith

Below-numbers : (a b : ℕ) → a < b → Below (ok (if ltb a b then minus_one else one))
Below-numbers a b h = ground arith

kind_below : (a b : Bool) (x y : Text) → Below (by_kind a b x y) → KindBelow a b x y
kind_below true true x y h = elim (int_of-cases x) [
  | inl e ↦ elim (int_of-cases y) [
    | inl f ↦ (e, f, numbers-Below _ _ (rw (e, f) at h))
    | inr f ↦ cc (rw (e, f) at h)
  ]
  | inr e ↦ cc (rw e at h)
]
kind_below true false x y h = tt
kind_below false true x y h = cc
kind_below false false x y h = minus_if _ h

Below-kind : (a b : Bool) (x y : Text) → KindBelow a b x y → Below (by_kind a b x y)
Below-kind true true x y h = rw (h.0, h.1) (Below-numbers _ _ h.2)
Below-kind true false x y h = refl
Below-kind false true x y h = absurd h
Below-kind false false x y h = rw h refl

KindBelow-trans :
    (a b c : Bool) (x y z : Text) → KindBelow a b x y → KindBelow b c y z → KindBelow a c x z
KindBelow-trans true true true x y z h k = (h.0, k.1, omega (arith, h.2, k.2))
KindBelow-trans true true false x y z h k = tt
KindBelow-trans true false true x y z h k = absurd k
KindBelow-trans true false false x y z h k = tt
KindBelow-trans false true c x y z h k = absurd h
KindBelow-trans false false true x y z h k = absurd k
KindBelow-trans false false false x y z h k = text_lt_trans x y z h k

KindBelow-irrefl : (a : Bool) (x : Text) → KindBelow a a x x → ⊥
KindBelow-irrefl true x h = omega (arith, h.2)
KindBelow-irrefl false x h = absurd (cc (text_lt_irrefl x))

-- One identifier stands before another.
abbrev IdBelow : Text → Text → Type 0
IdBelow x y = KindBelow (is_numeric x) (is_numeric y) x y

differ : (x y : Text) → IdBelow x y → text_eq x y ≡ false
differ x y h = elim (Bool-cases (text_eq x y)) [
  | inl e ↦
      absurd (KindBelow-irrefl (is_numeric x) x (subst (IdBelow x) (sym (text_eq→eq x y e)) h))
  | inr e ↦ e
]

-- What -1 says of two lists: the heads decide, or the tails do.
cons-Below :
    (x y : Text) (xs ys : List Text)
    → Below (compare_identifiers (x ∷ xs) (y ∷ ys))
    → ((x ≡ y) × Below (compare_identifiers xs ys)) ⊎ IdBelow x y
unfolding compare_identifiers compare_identifier
cons-Below x y xs ys h = elim (Bool-cases (text_eq x y)) [
  | inl e ↦ inl (text_eq→eq x y e, rw e at h)
  | inr e ↦ inr (kind_below (is_numeric x) (is_numeric y) x y (rw e at h))
]

tails-Below :
    (x : Text) (xs ys : List Text)
    → Below (compare_identifiers xs ys)
    → Below (compare_identifiers (x ∷ xs) (x ∷ ys))
unfolding compare_identifiers
tails-Below x xs ys h = rw (text_eq_refl x) h

heads-Below :
    (x y : Text) (xs ys : List Text) → IdBelow x y → Below (compare_identifiers (x ∷ xs) (y ∷ ys))
unfolding compare_identifiers compare_identifier
heads-Below x y xs ys h = rw (differ x y h) (Below-kind (is_numeric x) (is_numeric y) x y h)

never-Below_nil : (x : Text) (xs : List Text) → Below (compare_identifiers (x ∷ xs) []) → ⊥
unfolding compare_identifiers
never-Below_nil x xs h = cc

nil-Below : (z : Text) (zs : List Text) → Below (compare_identifiers [] (z ∷ zs))
unfolding compare_identifiers
nil-Below z zs = refl

identifiers_trans :
    (xs ys zs : List Text)
    → Below (compare_identifiers xs ys)
    → Below (compare_identifiers ys zs)
    → Below (compare_identifiers xs zs)
identifiers_trans [] [] zs h k = k
identifiers_trans [] (y ∷ ys) [] h k = absurd (never-Below_nil y ys k)
identifiers_trans [] (y ∷ ys) (z ∷ zs) h k = nil-Below z zs
identifiers_trans (x ∷ xs) [] zs h k = absurd (never-Below_nil x xs h)
identifiers_trans (x ∷ xs) (y ∷ ys) [] h k = absurd (never-Below_nil y ys k)
identifiers_trans (x ∷ xs) (y ∷ ys) (z ∷ zs) h k = elim (cons-Below x y xs ys h) [
  | inl (e, p) ↦ elim (cons-Below y z ys zs k) [
    | inl (f, q) ↦
        subst (λ t. Below (compare_identifiers (x ∷ xs) (t ∷ zs))) (e ∙ f)
          (tails-Below x xs zs (identifiers_trans xs ys zs p q))
    | inr q ↦ heads-Below x z xs zs (subst (λ t. IdBelow t z) (sym e) q)
  ]
  | inr p ↦ elim (cons-Below y z ys zs k) [
    | inl (f, q) ↦ heads-Below x z xs zs (subst (IdBelow x) f p)
    | inr q ↦
        heads-Below x z xs zs
          (KindBelow-trans (is_numeric x) (is_numeric y) (is_numeric z) x y z p q)
  ]
]

Below-release_only :
    (x : Text) (xs zs : List Text)
    → Below (compare_prerelease [] zs)
    → Below (compare_prerelease (x ∷ xs) zs)
Below-release_only x xs [] k = refl
Below-release_only x xs (z ∷ zs) k = cc

prerelease_trans :
    (xs ys zs : List Text)
    → Below (compare_prerelease xs ys)
    → Below (compare_prerelease ys zs)
    → Below (compare_prerelease xs zs)
prerelease_trans [] [] zs h k = k
prerelease_trans [] (y ∷ ys) zs h k = cc
prerelease_trans (x ∷ xs) [] zs h k = Below-release_only x xs zs k
prerelease_trans (x ∷ xs) (y ∷ ys) [] h k = refl
prerelease_trans (x ∷ xs) (y ∷ ys) (z ∷ zs) h k = identifiers_trans (x ∷ xs) (y ∷ ys) (z ∷ zs) h k

eq_of : (a b : ℕ) → (a == b) ≡ true → a ≡ b
eq_of a b h = ground arith

ne_test : (a b : ℕ) → a < b → (a == b) ≡ false
ne_test a b h = ground arith

eq_test : (a : ℕ) → (a == a) ≡ true
eq_test a = ground arith

-- -1 by a number, or by what follows it.
number-Below :
    (a b : ℕ) (r : Result Failure Sign) → Below (by_number a b r) → (a < b) ⊎ ((a ≡ b) × Below r)
number-Below a b r h = elim (Bool-cases (a == b)) [
  | inl e ↦ inr (eq_of a b e, rw e at h)
  | inr e ↦ inl (numbers-Below a b (rw e at h))
]

Below-number : (a b : ℕ) (r : Result Failure Sign) → a < b → Below (by_number a b r)
Below-number a b r h = rw (ne_test a b h) (Below-numbers a b h)

Below-rest : (a : ℕ) (r : Result Failure Sign) → Below r → Below (by_number a a r)
Below-rest a r h = rw (eq_test a) h

number_trans :
    (a b c : ℕ) (r s t : Result Failure Sign)
    → (Below r → Below s → Below t)
    → Below (by_number a b r)
    → Below (by_number b c s)
    → Below (by_number a c t)
number_trans a b c r s t f h k = elim (number-Below a b r h) [
  | inl p ↦ elim (number-Below b c s k) [
    | inl q ↦ Below-number a c t (omega arith)
    | inr (e, q) ↦ Below-number a c t (omega (arith, e))
  ]
  | inr (e, p) ↦ elim (number-Below b c s k) [
    | inl q ↦ Below-number a c t (omega (arith, e))
    | inr (g, q) ↦ subst (λ x. Below (by_number a x t)) (e ∙ g) (Below-rest a t (f p q))
  ]
]

-- -1 is transitive.
pub compare_semver_trans :
    (u v w : Version)
    → compare_semver u v ≡ ok minus_one
    → compare_semver v w ≡ ok minus_one
    → compare_semver u w ≡ ok minus_one
unfolding compare_semver
compare_semver_trans u v w = number_trans u.major v.major w.major _ _ _ (
    number_trans u.minor v.minor w.minor _ _ _ (
      number_trans u.patch v.patch w.patch _ _ _
        (prerelease_trans u.identifiers v.identifiers w.identifiers)))

-- ===== src/Semver/Same.antt =====
-- mort/project.py: when `_compare_semver` gives 0.
use mort.Base.{
  ℕ, ltb, ◌≡◌, ◌≢◌, ◌↔◌, refl, ap₂, ◌∙◌, subst, Bool, true, false, List, [], ◌∷◌, if◌then◌else◌,
  ◌==◌, Text, text_eq, text_eq→eq, text_eq_refl, arith,
}
use mort.Base.Result.{Result, ok, raise, out_of_fuel, ◌>>=◌}
use mort.Semver.Compare.{
  Sign, minus_one, same, one, text_lt, by_kind, compare_identifier, compare_identifiers,
  compare_prerelease, by_number, compare_semver,
}
use mort.Semver.Version.{Failure, Version, int_of, is_numeric}

-- An outcome that is not 0.
abbrev Differs : Result Failure Sign → Type 0
Differs (ok same) = ⊥
Differs _ = Unit

Differs-ne : (r : Result Failure Sign) → Differs r → r ≢ ok same
Differs-ne r d e = subst Differs e d

Differs-bind :
    {A : Type 0} (r : Result Failure A) (k : A → Result Failure Sign)
    → ((a : A) → Differs (k a))
    → Differs (r >>= k)
Differs-bind (ok a) k h = h a
Differs-bind (raise e) k h = tt
Differs-bind out_of_fuel k h = tt

Differs-if : (a : Bool) → Differs (ok (if a then minus_one else one))
Differs-if true = tt
Differs-if false = tt

kind-Differs : (a b : Bool) (x y : Text) → Differs (by_kind a b x y)
kind-Differs true true x y =
    Differs-bind (int_of x) _ λ a. Differs-bind (int_of y) _ λ b. Differs-if (ltb a b)
kind-Differs true false x y = tt
kind-Differs false true x y = tt
kind-Differs false false x y = Differs-if (text_lt x y)

identifiers-same : (xs ys : List Text) → compare_identifiers xs ys ≡ ok same → xs ≡ ys
unfolding compare_identifiers compare_identifier
identifiers-same [] [] e = refl
identifiers-same [] (y ∷ ys) e = absurd (Differs-ne _ tt e)
identifiers-same (x ∷ xs) [] e = absurd (Differs-ne _ tt e)
identifiers-same (x ∷ xs) (y ∷ ys) e = by_test (text_eq x y) refl (identifiers-same xs ys) e
  where
    by_test :
        (a : Bool)
        → text_eq x y ≡ a
        → (compare_identifiers xs ys ≡ ok same → xs ≡ ys)
        → (if a then compare_identifiers xs ys else by_kind (is_numeric x) (is_numeric y) x y)
          ≡ ok same
        → x ∷ xs ≡ y ∷ ys
    by_test true h r e = ap₂ (λ c cs. c ∷ cs) (text_eq→eq x y h) (r e)
    by_test false h r e = absurd (Differs-ne _ (kind-Differs (is_numeric x) (is_numeric y) x y) e)

identifiers_refl : (xs : List Text) → compare_identifiers xs xs ≡ ok same
unfolding compare_identifiers
identifiers_refl [] = refl
identifiers_refl (x ∷ xs) = rw (text_eq_refl x) (identifiers_refl xs)

prerelease-same : (xs ys : List Text) → compare_prerelease xs ys ≡ ok same → xs ≡ ys
prerelease-same [] [] e = refl
prerelease-same [] (y ∷ ys) e = absurd (Differs-ne _ tt e)
prerelease-same (x ∷ xs) [] e = absurd (Differs-ne _ tt e)
prerelease-same (x ∷ xs) (y ∷ ys) e = identifiers-same (x ∷ xs) (y ∷ ys) e

prerelease_refl : (xs : List Text) → compare_prerelease xs xs ≡ ok same
prerelease_refl [] = refl
prerelease_refl (x ∷ xs) = identifiers_refl (x ∷ xs)

eq_of : (a b : ℕ) → (a == b) ≡ true → a ≡ b
eq_of a b h = ground arith

eq_refl : (a : ℕ) → (a == a) ≡ true
eq_refl a = ground arith

pub number-same :
    (a b : ℕ) (r : Result Failure Sign) → by_number a b r ≡ ok same → (a ≡ b) × (r ≡ ok same)
number-same a b r e = by_test (a == b) refl e
  where
    by_test :
        (t : Bool)
        → (a == b) ≡ t
        → (if t then r else ok (if ltb a b then minus_one else one)) ≡ ok same
        → (a ≡ b) × (r ≡ ok same)
    by_test true h e = (eq_of a b h, e)
    by_test false h e = absurd (Differs-ne _ (Differs-if (ltb a b)) e)

number_refl : (a : ℕ) (r : Result Failure Sign) → by_number a a r ≡ r
number_refl a r = rw (eq_refl a) refl

-- `_compare_semver` gives 0 for a version and itself, and for no two versions that differ.
pub compare_semver_iff : (v w : Version) → compare_semver v w ≡ ok same ↔ v ≡ w
unfolding compare_semver
compare_semver_iff v w = (to, from)
  where
    reflexive :
        (v : Version)
        → by_number v.major v.major (
            by_number v.minor v.minor
              (by_number v.patch v.patch (compare_prerelease v.identifiers v.identifiers)))
          ≡ ok same
    reflexive v =
        number_refl v.major _
        ∙ (number_refl v.minor _ ∙ (number_refl v.patch _ ∙ prerelease_refl v.identifiers))

    to : compare_semver v w ≡ ok same → v ≡ w
    to e =
        let a = number-same v.major w.major _ e in
        let b = number-same v.minor w.minor _ a.1 in
        let c = number-same v.patch w.patch _ b.1 in
        let d = prerelease-same v.identifiers w.identifiers c.1 in
        λ i. record { major = a.0 i; minor = b.0 i; patch = c.0 i; identifiers = d i }

    from : v ≡ w → compare_semver v w ≡ ok same
    from e = subst (λ x. compare_semver v x ≡ ok same) e (reflexive v)

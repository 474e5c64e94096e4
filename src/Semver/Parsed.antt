-- ===== src/Semver/Parsed.antt =====
-- mort/project.py: what `parse_semver` gives, and how `_compare_semver` compares it.
use mort.Base.{
  or_right, ◌≡◌, refl, ap, sym, ◌∙◌, Bool, true, false, not, ◌||◌, List, [], if◌then◌else◌, Text,
}
use mort.Base.Result.{Result, ok, raise, out_of_fuel, ◌>>=◌}
use mort.Semver.Compare.{compare_semver}
use mort.Semver.Swap.{Opposite, compare_semver-Opposite}
use mort.Semver.Version.{
  Failure, project_error, Version, int_of, match_number, match_dot, match_marked, match_end,
  any_leading_zero, parse_semver,
}

-- A version without leading zeros, or none.
data Gives : Result Failure Version → Type 0 where
  gives : {v : Version} → any_leading_zero v.identifiers ≡ false → Gives (ok v)
  fails : {e : Failure} → Gives (raise e)
  stuck : Gives out_of_fuel

Gives-bind :
    {A : Type 0} (r : Result Failure A) (k : A → Result Failure Version)
    → ((a : A) → Gives (k a))
    → Gives (r >>= k)
Gives-bind (ok a) k h = h a
Gives-bind (raise e) k h = fails
Gives-bind out_of_fuel k h = stuck

refused_or :
    (a : Bool) (x : Result Failure Version)
    → (a ≡ false → Gives x)
    → Gives (if a then raise project_error else x)
refused_or true x h = fails
refused_or false x h = h refl

parse_semver-Gives : (text : Text) → Gives (parse_semver text)
unfolding parse_semver
parse_semver-Gives text = Gives-bind (match_number text) _ λ (a, s1).
    Gives-bind (match_dot s1) _ λ s2. Gives-bind (match_number s2) _ λ (b, s3).
      Gives-bind (match_dot s3) _ λ s4. Gives-bind (match_number s4) _ λ (c, s5).
        Gives-bind (match_marked b'-' s5) _ λ (pre, s6).
          Gives-bind (match_marked b'+' s6) _ λ (build, s7).
            refused_or (not (match_end s7) || any_leading_zero pre) _ λ h.
              Gives-bind (int_of a) _ λ x. Gives-bind (int_of b) _ λ y.
                Gives-bind (int_of c) _
                  λ z. gives (or_right (not (match_end s7)) (any_leading_zero pre) h)

parsed_zeros :
    (r : Result Failure Version) (v : Version)
    → Gives r
    → r ≡ ok v
    → any_leading_zero v.identifiers ≡ false
parsed_zeros _ v (gives h) e = ap (λ x. any_leading_zero (identifiers_of x)) (sym e) ∙ h
  where
    identifiers_of : Result Failure Version → List Text
    identifiers_of (ok w) = w.identifiers
    identifiers_of (raise e) = []
    identifiers_of out_of_fuel = []
parsed_zeros _ v fails e = absurd (cc e)
parsed_zeros _ v stuck e = absurd (cc e)

-- For two versions that `parse_semver` gives, `_compare_semver` answers with opposite signs in the two
-- orders, or fails in `int()` in both.
pub parsed-Opposite :
    (s t : Text) (v w : Version)
    → parse_semver s ≡ ok v
    → parse_semver t ≡ ok w
    → Opposite (compare_semver v w) (compare_semver w v)
parsed-Opposite s t v w h k =
    compare_semver-Opposite v w (parsed_zeros _ v (parse_semver-Gives s) h)
      (parsed_zeros _ w (parse_semver-Gives t) k)

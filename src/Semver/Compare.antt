-- ===== src/Semver/Compare.antt =====
-- mort/project.py, `_compare_semver`.
use mort.Base.{ℕ, ltb, Bool, true, false, List, [], ◌∷◌, if◌then◌else◌, ◌==◌, Text, text_eq}
use mort.Base.Result.{Result, ok, ◌>>=◌}
use mort.Semver.Version.{Failure, Version, int_of, is_numeric}

-- -1, 0 and 1.
pub data Sign : Type 0 where
  minus_one same one : Sign

-- `left < right` of texts.
unfoldable pub text_lt : Text → Text → Bool
text_lt s [] = false
text_lt [] (d ∷ ds) = true
text_lt (c ∷ cs) (d ∷ ds) = if c == d then text_lt cs ds else ltb c d

-- Two identifiers that differ; `left_num` and `right_num` say which are numbers.
abbrev pub by_kind : Bool → Bool → Text → Text → Result Failure Sign
by_kind true true left right = do
  a ← int_of left
  b ← int_of right
  ok (if ltb a b then minus_one else one)
by_kind true false left right = ok minus_one
by_kind false true left right = ok one
by_kind false false left right = ok (if text_lt left right then minus_one else one)

unfoldable pub compare_identifier : Text → Text → Result Failure Sign
compare_identifier left right = by_kind (is_numeric left) (is_numeric right) left right

-- The loop over both lists, and the difference of their lengths behind it.
unfoldable pub compare_identifiers : List Text → List Text → Result Failure Sign
compare_identifiers [] [] = ok same
compare_identifiers [] (y ∷ ys) = ok minus_one
compare_identifiers (x ∷ xs) [] = ok one
compare_identifiers (x ∷ xs) (y ∷ ys) =
    let rest = compare_identifiers xs ys in if text_eq x y then rest else compare_identifier x y

-- A version without identifiers stands behind one that has some.
abbrev pub compare_prerelease : List Text → List Text → Result Failure Sign
compare_prerelease [] [] = ok same
compare_prerelease [] (y ∷ ys) = ok one
compare_prerelease (x ∷ xs) [] = ok minus_one
compare_prerelease (x ∷ xs) (y ∷ ys) = compare_identifiers (x ∷ xs) (y ∷ ys)

abbrev pub by_number : ℕ → ℕ → Result Failure Sign → Result Failure Sign
by_number a b next = if a == b then next else ok (if ltb a b then minus_one else one)

unfoldable pub compare_semver : Version → Version → Result Failure Sign
compare_semver left right = by_number left.major right.major (
    by_number left.minor right.minor
      (by_number left.patch right.patch (compare_prerelease left.identifiers right.identifiers)))

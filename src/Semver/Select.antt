-- ===== src/Semver/Select.antt =====
-- mort/project.py, `select_semver`: the greatest version in a range.
use mort.Base.{Bool, true, false, List, [], ◌∷◌, Text}
use mort.Base.Result.{Result, ok, raise, ◌>>=◌}
use mort.Semver.Compare.{Sign, one, compare_semver}
use mort.Semver.Range.{Digits, semver_satisfies}
use mort.Semver.Version.{Failure, project_error, parse_semver}

abbrev pub cons_if {ℓ} : {A : Type ℓ} → Bool → A → List A → List A
cons_if true x xs = x ∷ xs
cons_if false x xs = xs

-- The comparison of two texts that `cmp_to_key` is given.
unfoldable pub compare_texts : Text → Text → Result Failure Sign
compare_texts left right = do v ← parse_semver left; w ← parse_semver right; compare_semver v w

-- `max` keeps its first choice until an item compares greater.
unfoldable pub max_from : Text → List Text → Result Failure Text
max_from best [] = ok best
max_from best (s ∷ ss) = do c ← compare_texts s best; max_from (elim c [ one ↦ s | _ ↦ best ]) ss

abbrev pub max_of : List Text → Result Failure Text
max_of [] = raise project_error
max_of (s ∷ ss) = max_from s ss

module _ (u : Digits) where
  -- `[item for item in versions if semver_satisfies(item, constraint)]`
  unfoldable pub matches : List Text → Text → Result Failure (List Text)
  matches [] constraint = ok []
  matches (s ∷ ss) constraint = do
    b ← semver_satisfies u s constraint
    rest ← matches ss constraint
    ok (cons_if b s rest)

  unfoldable pub select_semver : List Text → Text → Result Failure Text
  select_semver versions constraint = do found ← matches versions constraint; max_of found

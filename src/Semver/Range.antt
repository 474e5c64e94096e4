-- ===== src/Semver/Range.antt =====
-- mort/project.py, `semver_satisfies`: whether a version lies in a range.
use mort.Base.{
  ℕ, ◌+◌, ◌-◌, ltb, leb, ◌≡◌, refl, Bool, true, false, not, ◌&&◌, ◌||◌, List, [], ◌∷◌,
  if◌then◌else◌, ◌==◌, Text, text_eq, codes, elem, Option, none, some, length, ◌*◌,
}
use mort.Base.Result.{Result, ok, raise, ◌>>=◌}
use mort.Formatter.Text.{strip}
use mort.Lexer.Number.{max_str_digits}
use mort.Semver.Compare.{Sign, minus_one, same, one, compare_semver}
use mort.Semver.Version.{
  Failure, project_error, value_error, attribute_error, Version, parse_semver, split_while,
  is_empty, extend_first,
}

-- Python's table of decimal digits, `\d` and `int()`; on ASCII they are the usual ones.
pub record Digits : Type 0 where
  pub value : ℕ → Option ℕ
  pub value_ascii :
      (c : ℕ) → leb c 127 ≡ true → value c ≡ (if leb 48 c && leb c 57 then some (c - 48) else none)

-- No digits but those of ASCII.
abbrev pub ascii : Digits
ascii = record {
  value = λ c. if leb 48 c && leb c 57 then some (c - 48) else none;
  value_ascii = λ c h. refl;
}

-- `s.split(sep)`, for a separator of one character.
unfoldable pub split_on : ℕ → Text → List Text
split_on sep [] = [] ∷ []
split_on sep (c ∷ cs) =
    let rest = split_on sep cs in if c == sep then [] ∷ rest else extend_first c rest

abbrev pub keep_filled : Text → List Text → List Text
keep_filled [] ss = ss
keep_filled (c ∷ cs) ss = (c ∷ cs) ∷ ss

-- `[item.strip() for item in items if item.strip()]`
unfoldable pub strip_items : List Text → List Text
strip_items [] = []
strip_items (s ∷ ss) = keep_filled (strip s) (strip_items ss)

-- Below `lower`, or not below `upper`, is outside.
unfoldable pub within : Version → Version → Version → Result Failure Bool
within v lower upper = do
  a ← compare_semver v lower
  elim a [
    | minus_one ↦ ok false
    | _ ↦ do b ← compare_semver v upper; ok (elim b [ minus_one ↦ true | _ ↦ false ])
  ]

abbrev pub release : ℕ → ℕ → ℕ → Version
release a b c = record { major = a; minor = b; patch = c; identifiers = [] }

-- The first version behind the range `^lower`, and behind `~lower`.
unfoldable pub caret_upper : Version → Version
caret_upper lower =
    if ltb 0 lower.major
    then release (lower.major + 1) 0 0
    else if ltb 0 lower.minor
    then release 0 (lower.minor + 1) 0
    else release 0 0 (lower.patch + 1)

abbrev pub tilde_upper : Version → Version
tilde_upper lower = release lower.major (lower.minor + 1) 0

-- `<`, `<=`, `=`, `>=` and `>`.
pub data Operator : Type 0 where
  lt le eq ge gt : Operator

abbrev pub holds_for : Operator → Sign → Bool
holds_for lt minus_one = true
holds_for lt same = false
holds_for lt one = false
holds_for le minus_one = true
holds_for le same = true
holds_for le one = false
holds_for eq minus_one = false
holds_for eq same = true
holds_for eq one = false
holds_for ge minus_one = false
holds_for ge same = true
holds_for ge one = true
holds_for gt minus_one = false
holds_for gt same = false
holds_for gt one = true

-- `^(>=|<=|>|<|=)?(.+)$`: the longest operator that leaves a text behind it.
abbrev pub operator_of : Text → Operator × Text
operator_of [] = (eq, [])
operator_of (c ∷ []) = (eq, c ∷ [])
operator_of (c ∷ (d ∷ [])) =
    if c == b'>'
    then (gt, d ∷ [])
    else if c == b'<'
    then (lt, d ∷ [])
    else if c == b'='
    then (eq, d ∷ [])
    else (eq, c ∷ (d ∷ []))
operator_of (c ∷ (d ∷ (e ∷ es))) =
    if c == b'>' && d == b'='
    then (ge, e ∷ es)
    else if c == b'<' && d == b'='
    then (le, e ∷ es)
    else if c == b'>'
    then (gt, d ∷ (e ∷ es))
    else if c == b'<'
    then (lt, d ∷ (e ∷ es))
    else if c == b'='
    then (eq, d ∷ (e ∷ es))
    else (eq, c ∷ (d ∷ (e ∷ es)))

-- An empty clause and one with a newline in it match no comparison.
unfoldable pub comparison : Version → Text → Result Failure Bool
comparison v clause = if is_empty clause || elem 10 clause then raise attribute_error else (do
  target ← parse_semver (operator_of clause).1
  relation ← compare_semver v target
  ok (holds_for (operator_of clause).0 relation))

module _ (u : Digits) where
  abbrev pub is_decimal : ℕ → Bool
  is_decimal c = elim (u.value c) [ some d ↦ true | none ↦ false ]

  abbrev pub digit_of : ℕ → ℕ
  digit_of c = elim (u.value c) [ some d ↦ d | none ↦ 0 ]

  -- `int(s)` of a text that `\d+` matches.
  unfoldable pub decimals : ℕ → Text → ℕ
  decimals acc [] = acc
  decimals acc (c ∷ cs) = decimals (acc * 10 + digit_of c) cs

  unfoldable pub int_decimals : Text → Result Failure ℕ
  int_decimals s = if ltb max_str_digits (length s) then raise value_error else ok (decimals 0 s)

  abbrev pub is_star : Text → Bool
  is_star [] = false
  is_star (c ∷ []) = c == b'x' || (c == b'X' || c == b'*')
  is_star (c ∷ (d ∷ ds)) = false

  -- Behind the first number: `.x`, or a second number and `.x`.
  abbrev pub second_part : Text → Option (Option Text)
  second_part [] = none
  second_part (c ∷ cs) =
      if not (c == b'.')
      then none
      else if is_star cs
      then some none
      else (let run = split_while is_decimal cs in
          elim run.1 [
            | [] ↦ none
            | d ∷ ds ↦
                if not (is_empty run.0) && d == b'.' && is_star ds then some (some run.0) else none
          ])

  -- `^(\d+)(?:\.(\d+))?\.(?:x|X|\*)$`
  unfoldable pub match_wildcard : Text → Option (Text × Option Text)
  match_wildcard s =
      let run = split_while is_decimal s in
      if is_empty run.0
      then none
      else elim (second_part run.1) [ none ↦ none | some b ↦ some (run.0, b) ]

  unfoldable pub wildcard : Version → Text → Option Text → Result Failure Bool
  wildcard v a b = do
    major ← int_decimals a
    if not (v.major == major)
        then ok false
        else elim b [ none ↦ ok true | some t ↦ do minor ← int_decimals t; ok (v.minor == minor) ]

  unfoldable pub other_clause : Version → Text → Result Failure Bool
  other_clause v clause = elim (match_wildcard clause) [
    | some (a, b) ↦ wildcard v a b
    | none ↦ comparison v clause
  ]

  -- One round of the loop over the clauses.
  unfoldable pub clause_holds : Version → Text → Result Failure Bool
  clause_holds v [] = other_clause v []
  clause_holds v (c ∷ cs) =
      if c == b'^'
      then (do lower ← parse_semver cs; within v lower (caret_upper lower))
      else if c == b'~'
      then (do lower ← parse_semver cs; within v lower (tilde_upper lower))
      else other_clause v (c ∷ cs)

  unfoldable pub all_hold : Version → List Text → Result Failure Bool
  all_hold v [] = ok true
  all_hold v (c ∷ cs) = do b ← clause_holds v c; elim b [ true ↦ all_hold v cs | false ↦ ok false ]

  -- The clauses of a constraint, if it does not accept all.
  abbrev pub with_clauses : Version → List Text → Result Failure Bool
  with_clauses v [] = raise project_error
  with_clauses v (c ∷ cs) = all_hold v (c ∷ cs)

  unfoldable pub satisfies_parsed : Version → Text → Result Failure Bool
  satisfies_parsed v constraint =
      if is_empty constraint || text_eq constraint (codes "*")
      then ok true
      else with_clauses v (strip_items (split_on b',' constraint))

  -- `semver_satisfies(version, constraint)`
  unfoldable pub semver_satisfies : Text → Text → Result Failure Bool
  semver_satisfies version constraint = do
    v ← parse_semver version
    satisfies_parsed v (strip constraint)

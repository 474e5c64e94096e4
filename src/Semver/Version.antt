-- ===== src/Semver/Version.antt =====
-- mort/project.py, `parse_semver` with its regular expression.
use mort.Base.{
  ℕ, ltb, Bool, true, false, not, ◌&&◌, ◌||◌, List, [], ◌∷◌, if◌then◌else◌, ◌==◌, length, Text,
}
use mort.Base.Result.{Result, ok, raise, ◌>>=◌}
use mort.Lexer.Cursor.{is_digit, is_letter}
use mort.Lexer.Number.{digits, max_str_digits}

-- `ProjectError`, the `ValueError` of `int()` on too many digits, and the `AttributeError` of a match
-- that is None.
pub data Failure : Type 0 where
  project_error : Failure
  value_error : Failure
  attribute_error : Failure

-- The tuple that `parse_semver` returns.
pub record Version : Type 0 where
  pub major : ℕ
  pub minor : ℕ
  pub patch : ℕ
  pub identifiers : List Text

-- `int(s)` of decimal digits.
unfoldable pub int_of : Text → Result Failure ℕ
int_of s = if ltb max_str_digits (length s) then raise value_error else ok (digits 10 0 s)

-- The longest start of a text whose characters pass the test, and what follows it.
unfoldable pub split_while : (ℕ → Bool) → Text → Text × Text
split_while test [] = ([], [])
split_while test (c ∷ cs) =
    let rest = split_while test cs in if test c then (c ∷ rest.0, rest.1) else ([], c ∷ cs)

-- `0|[1-9][0-9]*`
unfoldable pub match_number : Text → Result Failure (Text × Text)
match_number [] = raise project_error
match_number (c ∷ cs) =
    let rest = split_while is_digit cs in
    if c == b'0'
    then ok (c ∷ [], cs)
    else if is_digit c
    then ok (c ∷ rest.0, rest.1)
    else raise project_error

-- `\.`
abbrev pub match_dot : Text → Result Failure Text
match_dot [] = raise project_error
match_dot (c ∷ cs) = if c == b'.' then ok cs else raise project_error

-- `[0-9A-Za-z-]`, or the dot between identifiers.
abbrev pub is_identifier : ℕ → Bool
is_identifier c = is_digit c || (is_letter c || c == b'-')

abbrev pub is_identifier_or_dot : ℕ → Bool
is_identifier_or_dot c = is_identifier c || c == b'.'

abbrev pub extend_first : ℕ → List Text → List Text
extend_first c [] = (c ∷ []) ∷ []
extend_first c (s ∷ ss) = (c ∷ s) ∷ ss

-- `s.split(".")`
unfoldable pub split_dots : Text → List Text
split_dots [] = [] ∷ []
split_dots (c ∷ cs) =
    let rest = split_dots cs in if c == b'.' then [] ∷ rest else extend_first c rest

abbrev pub is_empty : Text → Bool
is_empty [] = true
is_empty (c ∷ cs) = false

abbrev pub any_empty : List Text → Bool
any_empty [] = false
any_empty (s ∷ ss) = is_empty s || any_empty ss

-- The identifiers behind a mark, and what follows them.
unfoldable pub match_identifiers : Text → Result Failure (List Text × Text)
match_identifiers s =
    let run = split_while is_identifier_or_dot s in
    let parts = split_dots run.0 in
    if any_empty parts then raise project_error else ok (parts, run.1)

-- `(?:-...)?` and `(?:\+...)?`; where the identifiers do not match, nothing else does.
unfoldable pub match_marked : ℕ → Text → Result Failure (List Text × Text)
match_marked mark [] = ok ([], [])
match_marked mark (c ∷ cs) = if c == mark then match_identifiers cs else ok ([], c ∷ cs)

-- `$`, which a newline at the end may follow.
abbrev pub match_end : Text → Bool
match_end [] = true
match_end (c ∷ []) = c == 10
match_end (c ∷ (d ∷ ds)) = false

-- `s.isdigit()`, on the characters that the expression lets through.
unfoldable pub all_digits : Text → Bool
all_digits [] = true
all_digits (c ∷ cs) = is_digit c && all_digits cs

abbrev pub is_numeric : Text → Bool
is_numeric s = not (is_empty s) && all_digits s

abbrev pub leading_zero : Text → Bool
leading_zero [] = false
leading_zero (c ∷ []) = false
leading_zero (c ∷ (d ∷ ds)) = c == b'0'

abbrev pub any_leading_zero : List Text → Bool
any_leading_zero [] = false
any_leading_zero (s ∷ ss) = (is_numeric s && leading_zero s) || any_leading_zero ss

unfoldable pub parse_semver : Text → Result Failure Version
parse_semver text = do
  (a, s1) ← match_number text
  s2 ← match_dot s1
  (b, s3) ← match_number s2
  s4 ← match_dot s3
  (c, s5) ← match_number s4
  (pre, s6) ← match_marked b'-' s5
  (build, s7) ← match_marked b'+' s6
  if not (match_end s7) || any_leading_zero pre then raise project_error else (do
    major ← int_of a
    minor ← int_of b
    patch ← int_of c
    ok (record { major = major; minor = minor; patch = patch; identifiers = pre }))

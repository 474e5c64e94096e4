-- ===== src/Checker/Types.antt =====
-- mort/typechecker.py: types as texts, and the functions that take them apart.
use mort.Base.{
  ℕ, zero, suc, remove, leb, ltb, Bool, true, false, not, ◌&&◌, ◌||◌, List, [], ◌∷◌, if◌then◌else◌,
  ◌==◌, Text, codes, starts, length, drop, Option, none, some,
}
use mort.Base.Int.{ℤ, pos, negsuc, inc, dec, is_zero}
use mort.Base.Result.{Result, ok, raise, ◌>>=◌}
use mort.Lexer.Number.{max_str_digits}
use mort.Parser.State.{decimal_digits}
use mort.Formatter.Text.{is_space}
use mort.Semver.Range.{Digits, decimals}

-- The ValueError of `int()`.
pub data Failure : Type 0 where
  value_error : Failure

abbrev pub is_empty : Text → Bool
is_empty [] = true
is_empty (c ∷ cs) = false

-- `t[:-1]`
abbrev pub all_but_last : Text → Text
all_but_last [] = []
all_but_last (c ∷ []) = []
all_but_last (c ∷ (d ∷ ds)) = c ∷ all_but_last (d ∷ ds)

-- `t.endswith(c)`
abbrev pub ends_with : ℕ → Text → Bool
ends_with x [] = false
ends_with x (c ∷ []) = c == x
ends_with x (c ∷ (d ∷ ds)) = ends_with x (d ∷ ds)

abbrev pub is_ptr : Text → Bool
is_ptr t = starts (codes "*") t

abbrev pub is_const_ptr : Text → Bool
is_const_ptr t = starts (codes "*const ") t

abbrev pub pointee : Text → Text
pointee t = if is_const_ptr t then drop 7 t else drop 1 t

abbrev pub is_slice : Text → Bool
is_slice t = starts (codes "[]") t

abbrev pub is_array : Text → Bool
is_array t = starts (codes "[") t && not (is_slice t)

abbrev pub is_const_slice : Text → Bool
is_const_slice t = starts (codes "[]const ") t

abbrev pub slice_elem : Text → Text
slice_elem t = if is_const_slice t then drop 8 t else drop 2 t

-- Decimal digits, with an underscore at most between two of them; `after` says whether a digit stands before.
unfoldable pub is_number : Digits → Bool → Text → Bool
is_number u after [] = after
is_number u after (c ∷ cs) = elim (u.value c) [
  | some d ↦ is_number u true cs
  | none ↦ (c == b'_' && after) && is_number u false cs
]

abbrev pub number_of : Digits → Text → Result Failure ℕ
number_of u s =
    if not (is_number u false s) || ltb max_str_digits (length (remove b'_' s))
    then raise value_error
    else ok (decimals u 0 (remove b'_' s))

abbrev pub negated : ℕ → ℤ
negated zero = pos 0
negated (suc n) = negsuc n

-- Behind the white space: a sign, or none, and the number.
abbrev pub signed : Digits → Text → Result Failure ℤ
signed u [] = raise value_error
signed u (c ∷ cs) =
    if c == b'-'
    then (do n ← number_of u cs; ok (negated n))
    else if c == b'+'
    then (do n ← number_of u cs; ok (pos n))
    else (do n ← number_of u (c ∷ cs); ok (pos n))

unfoldable pub trim_left : (ℕ → Bool) → Text → Text
trim_left blank [] = []
trim_left blank (c ∷ cs) = let rest = trim_left blank cs in if blank c then rest else c ∷ cs

abbrev pub cons_unless : Bool → ℕ → Text → Text
cons_unless b c [] = if b then [] else c ∷ []
cons_unless b c (d ∷ ds) = c ∷ (d ∷ ds)

unfoldable pub trim_right : (ℕ → Bool) → Text → Text
trim_right blank [] = []
trim_right blank (c ∷ cs) = cons_unless (blank c) c (trim_right blank cs)

unfoldable pub all_ascii : Text → Bool
all_ascii [] = true
all_ascii (c ∷ cs) = leb c 127 && all_ascii cs

-- The white space around a number: that of C in a text of ASCII, that of `str.isspace` in another.
abbrev pub blank_in : Text → ℕ → Bool
blank_in s c = if all_ascii s then (leb 9 c && leb c 13) || c == 32 else is_space c

-- `int(s)`
unfoldable pub int_of : Digits → Text → Result Failure ℤ
int_of u s = signed u (trim_right (blank_in s) (trim_left (blank_in s) s))

-- A character before the first of two texts.
abbrev pub put_before : ℕ → Option (Text × Text) → Option (Text × Text)
put_before c (some (a, b)) = some (c ∷ a, b)
put_before c none = none

-- What stands before and behind the last `;`.
abbrev pub or_here : ℕ → Text → Option (Text × Text) → Option (Text × Text)
or_here c cs (some (a, b)) = some (c ∷ a, b)
or_here c cs none = if c == b';' then some ([], cs) else none

unfoldable pub at_last_semicolon : Text → Option (Text × Text)
at_last_semicolon [] = none
at_last_semicolon (c ∷ cs) = or_here c cs (at_last_semicolon cs)

-- Without a `;`, `inner[:-1]` and the whole.
abbrev pub array_of : Digits → Text → Option (Text × Text) → Result Failure (Text × ℤ)
array_of u inner (some (a, b)) = do n ← int_of u b; ok (a, n)
array_of u inner none = do n ← int_of u inner; ok (all_but_last inner, n)

unfoldable pub array_parts : Digits → Text → Result Failure (Text × ℤ)
array_parts u t = let inner = drop 1 (all_but_last t) in array_of u inner (at_last_semicolon inner)

abbrev pub cons_first : ℕ → List Text → List Text
cons_first c [] = (c ∷ []) ∷ []
cons_first c (p ∷ ps) = (c ∷ p) ∷ ps

-- A depth behind a character that can open or close a bracket.
abbrev pub depth_after : ℕ → ℕ → ℕ → ℤ → ℤ
depth_after opening closing c depth =
    if c == opening then inc depth else if c == closing then dec depth else depth

-- The loop of `generic_parts`: pieces between commas at depth 0.
unfoldable pub generic_pieces : ℤ → Text → List Text
generic_pieces depth [] = [] ∷ []
generic_pieces depth (c ∷ cs) =
    let rest = generic_pieces (depth_after b'<' b'>' c depth) cs in
    if c == b',' && is_zero depth then [] ∷ rest else cons_first c rest

-- What stands before and behind the first `<`.
unfoldable pub at_first_angle : Text → Option (Text × Text)
at_first_angle [] = none
at_first_angle (c ∷ cs) = if c == b'<' then some ([], cs) else put_before c (at_first_angle cs)

abbrev pub generic_of : Option (Text × Text) → Option (Text × List Text)
generic_of (some (base, rest)) = some (base, generic_pieces (pos 0) (all_but_last rest))
generic_of none = none

unfoldable pub generic_parts : Text → Option (Text × List Text)
generic_parts t = if ends_with b'>' t then generic_of (at_first_angle t) else none

-- The loop of `_split_type_list` with its three depths.
unfoldable pub list_pieces : ℤ → ℤ → ℤ → Text → List Text
list_pieces angle paren bracket [] = [] ∷ []
list_pieces angle paren bracket (c ∷ cs) =
    let rest =
      list_pieces (depth_after b'<' b'>' c angle) (depth_after b'(' b')' c paren)
        (depth_after b'[' b']' c bracket) cs in
    if c == b',' && (is_zero angle && (is_zero paren && is_zero bracket))
    then [] ∷ rest
    else cons_first c rest

abbrev pub split_type_list : Text → List Text
split_type_list [] = []
split_type_list (c ∷ cs) = list_pieces (pos 0) (pos 0) (pos 0) (c ∷ cs)

-- What stands before and behind the parenthesis that closes depth 1.
unfoldable pub at_close : ℤ → Text → Option (Text × Text)
at_close depth [] = none
at_close depth (c ∷ cs) =
    let rest = at_close (depth_after b'(' b')' c depth) cs in
    if c == b')' && is_zero (dec depth) then some ([], cs) else put_before c rest

abbrev pub function_of : Option (Text × Text) → Option (List Text × Text)
function_of (some (parameters, rest)) =
    if starts (codes "->") rest then some (split_type_list parameters, drop 2 rest) else none
function_of none = none

unfoldable pub function_parts : Text → Option (List Text × Text)
function_parts t =
    if starts (codes "fn(") t then function_of (at_close (pos 1) (drop 3 t)) else none

abbrev pub two_or_more : List Text → Option (List Text)
two_or_more [] = none
two_or_more (p ∷ []) = none
two_or_more (p ∷ (q ∷ ps)) = some (p ∷ (q ∷ ps))

unfoldable pub tuple_parts : Text → Option (List Text)
tuple_parts t =
    if starts (codes "(") t && ends_with b')' t
    then two_or_more (split_type_list (drop 1 (all_but_last t)))
    else none

-- `f"{n}"`
unfoldable pub show : ℕ → Text
show n = decimal_digits max_str_digits n []

abbrev pub show_int : ℤ → Text
show_int (pos n) = show n
show_int (negsuc n) = b'-' ∷ show (suc n)

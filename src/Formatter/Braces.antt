-- ===== src/Formatter/Braces.antt =====
-- mort/formatter.py, `_brace_delta`.
use mort.Base.{
  ℕ, ◌+◌, ◌-◌, Bool, true, false, ◌&&◌, ◌||◌, [], ◌∷◌, Option, none, some, if◌then◌else◌, ◌==◌,
  Text,
}

-- The variables of the loop.
pub record Scan : Type 0 where
  pub opens : ℕ
  pub closes : ℕ
  pub quote : Option ℕ
  pub escaped : Bool
  pub block_depth : ℕ

-- What a round does: it ends the loop, or goes on behind one or two characters.
pub data Round : Type 0 where
  stop : Scan → Round
  one : Scan → Round
  two : Scan → Round

abbrev pub is_slash_star : ℕ → Option ℕ → Bool
is_slash_star c (some d) = c == b'/' && d == b'*'
is_slash_star c none = false

abbrev pub is_star_slash : ℕ → Option ℕ → Bool
is_star_slash c (some d) = c == b'*' && d == b'/'
is_star_slash c none = false

abbrev pub is_slash_slash : ℕ → Option ℕ → Bool
is_slash_slash c (some d) = c == b'/' && d == b'/'
is_slash_slash c none = false

-- Inside a block comment.
abbrev pub in_comment : ℕ → Option ℕ → Scan → Round
in_comment c following s =
    if is_slash_star c following
    then two (record s { block_depth = s.block_depth + 1 })
    else if is_star_slash c following
    then two (record s { block_depth = s.block_depth - 1 })
    else one s

-- Inside a literal that `q` closes.
abbrev pub in_literal : ℕ → ℕ → Scan → Scan
in_literal q c s =
    if s.escaped
    then record s { escaped = false }
    else if c == b'\\'
    then record s { escaped = true }
    else if c == q
    then record s { quote = none }
    else s

abbrev pub in_code : ℕ → Option ℕ → Scan → Round
in_code c following s =
    if is_slash_slash c following
    then stop s
    else if is_slash_star c following
    then two (record s { block_depth = 1 })
    else if c == b'"' || c == b'\''
    then one (record s { quote = some c })
    else if c == b'{'
    then one (record s { opens = s.opens + 1 })
    else if c == b'}'
    then one (record s { closes = s.closes + 1 })
    else one s

abbrev pub outside_comment : Option ℕ → ℕ → Option ℕ → Scan → Round
outside_comment (some q) c following s = one (in_literal q c s)
outside_comment none c following s = in_code c following s

abbrev pub round : ℕ → Option ℕ → Scan → Round
round c following s =
    if s.block_depth == 0 then outside_comment s.quote c following s else in_comment c following s

abbrev pub following_of : Text → Option ℕ
following_of [] = none
following_of (d ∷ ds) = some d

-- `while index < len(line)`; `skip` passes over the second of two characters.
unfoldable pub scan : Bool → Scan → Text → Scan
scan skip s [] = s
scan true s (c ∷ cs) = scan false s cs
scan false s (c ∷ cs) = elim (round c (following_of cs) s) [
  | stop s' ↦ s'
  | one s' ↦ scan false s' cs
  | two s' ↦ scan true s' cs
]

-- `_brace_delta(line, block_depth)`
unfoldable pub brace_delta : Text → ℕ → Scan
brace_delta line block_depth =
    scan false
      (record { opens = 0; closes = 0; quote = none; escaped = false; block_depth = block_depth })
      line

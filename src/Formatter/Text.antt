-- ===== src/Formatter/Text.antt =====
-- mort/formatter.py: `str.splitlines`, `str.strip`, `str.isspace` and `"\n".join` of Python, on code points.
use mort.Base.{
  ℕ, Bool, false, ◌&&◌, ◌||◌, List, [], ◌∷◌, ◌++◌, if◌then◌else◌, ◌==◌, leb, Text, elem,
}

-- The line boundaries: `\n \r \v \f`, the separators 28 to 30, NEL, and the line and paragraph separators.
abbrev pub line_breaks : Text
line_breaks = 10 ∷ 13 ∷ 11 ∷ 12 ∷ 28 ∷ 29 ∷ 30 ∷ 133 ∷ 8232 ∷ 8233 ∷ []

unfoldable pub is_break : ℕ → Bool
is_break c = elem c line_breaks

-- `c.isspace()`
abbrev pub spaces : Text
spaces = 9 ∷ 31 ∷ 32 ∷ 160 ∷ 5760 ∷ 8239 ∷ 8287 ∷ 12288 ∷ []

unfoldable pub is_space : ℕ → Bool
is_space c = is_break c || (elem c spaces || (leb 8192 c && leb c 8202))

-- A character before the lines of what follows it.
abbrev pub prepend : ℕ → List Text → List Text
prepend c [] = (c ∷ []) ∷ []
prepend c (l ∷ ls) = (c ∷ l) ∷ ls

-- `after_cr`: the last character was `\r`, which with `\n` is one boundary.
unfoldable pub lines_in : Bool → Text → List Text
lines_in after_cr [] = []
lines_in after_cr (c ∷ cs) =
    let rest = lines_in (c == 13) cs in
    if after_cr && c == 10 then rest else if is_break c then [] ∷ rest else prepend c rest

unfoldable pub splitlines : Text → List Text
splitlines s = lines_in false s

unfoldable pub lstrip : Text → Text
lstrip [] = []
lstrip (c ∷ cs) = let rest = lstrip cs in if is_space c then rest else c ∷ cs

abbrev pub cons_unless_blank : ℕ → Text → Text
cons_unless_blank c [] = if is_space c then [] else c ∷ []
cons_unless_blank c (d ∷ ds) = c ∷ (d ∷ ds)

unfoldable pub rstrip : Text → Text
rstrip [] = []
rstrip (c ∷ cs) = cons_unless_blank c (rstrip cs)

unfoldable pub strip : Text → Text
strip s = rstrip (lstrip s)

-- `"\n".join(lines) + "\n"`
unfoldable pub unlines : List Text → Text
unlines [] = 10 ∷ []
unlines (l ∷ []) = l ++ 10 ∷ []
unlines (l ∷ (m ∷ ms)) = l ++ (10 ∷ unlines (m ∷ ms))

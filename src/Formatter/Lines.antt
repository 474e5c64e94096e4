-- ===== src/Formatter/Lines.antt =====
-- mort/formatter.py: what `splitlines` and `"\n".join` do to each other.
use mort.Base.{
  ℕ, ◌≡◌, refl, ap, ◌∙◌, Bool, true, false, ◌&&◌, List, [], ◌∷◌, ◌++◌, if◌then◌else◌, ◌==◌, Text,
  All, arith,
}
use mort.Formatter.Text.{is_break, prepend, lines_in, splitlines, unlines}

-- A line has no boundary in it.
abbrev pub IsLine : Text → Type 0
IsLine l = All (λ c. is_break c ≡ false) l

not_cr : (c : ℕ) → is_break c ≡ false → (c == 13) ≡ false
unfolding is_break
not_cr c h = ground arith

break_10 : is_break 10 ≡ true
unfolding is_break
break_10 = refl

-- The first line of a text, and the lines behind its boundary.
lines_in-line : (l r : Text) → IsLine l → lines_in false (l ++ 10 ∷ r) ≡ l ∷ lines_in false r
unfolding lines_in
lines_in-line [] r h = rw break_10 refl
lines_in-line (c ∷ l) r h = rw (h.0, not_cr c h.0, lines_in-line l r h.1) refl

prepend-lines :
    (c : ℕ) (ls : List Text) → is_break c ≡ false → All IsLine ls → All IsLine (prepend c ls)
prepend-lines c [] h k = ((h, tt), tt)
prepend-lines c (l ∷ ls) h k = ((h, k.0), k.1)

-- Every line of a source is one.
pub lines_in-IsLine : (after_cr : Bool) (s : Text) → All IsLine (lines_in after_cr s)
unfolding lines_in
lines_in-IsLine after_cr [] = tt
lines_in-IsLine after_cr (c ∷ s) =
    by_test (after_cr && c == 10) (is_break c) refl _ (lines_in-IsLine (c == 13) s)
  where
    by_test :
        (a b : Bool)
        → is_break c ≡ b
        → (ls : List Text) → All IsLine ls
        → All IsLine (if a then ls else if b then [] ∷ ls else prepend c ls)
    by_test true b e ls h = h
    by_test false true e ls h = (tt, h)
    by_test false false e ls h = prepend-lines c ls e h

lines_none : lines_in false [] ≡ []
unfolding lines_in
lines_none = refl

-- `splitlines` gives back the lines that were joined; no lines give one empty line.
pub splitlines-unlines :
    (l : Text) (ls : List Text) → All IsLine (l ∷ ls) → splitlines (unlines (l ∷ ls)) ≡ l ∷ ls
unfolding splitlines unlines
splitlines-unlines l [] h = lines_in-line l [] h.0 ∙ rw lines_none refl
splitlines-unlines l (m ∷ ms) h =
    lines_in-line l (unlines (m ∷ ms)) h.0 ∙ ap (λ x. l ∷ x) (splitlines-unlines m ms h.1)

pub splitlines-unlines_nil : splitlines (unlines []) ≡ [] ∷ []
unfolding splitlines unlines lines_in is_break
splitlines-unlines_nil = refl

pub splitlines-IsLine : (s : Text) → All IsLine (splitlines s)
unfolding splitlines
splitlines-IsLine s = lines_in-IsLine false s

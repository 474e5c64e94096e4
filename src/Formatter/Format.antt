-- ===== src/Formatter/Format.antt =====
-- mort/formatter.py, `format_source`.
use mort.Base.{
  ℕ, suc, ◌+◌, ◌-◌, Bool, true, false, not, ◌&&◌, List, [], ◌∷◌, ◌++◌, if◌then◌else◌, ◌==◌, ◌*◌,
  Text, replicate,
}
use mort.Formatter.Braces.{brace_delta}
use mort.Formatter.Text.{splitlines, strip, is_space, unlines}

-- The variables of the loop.
pub record State : Type 0 where
  pub output : List Text
  pub depth : ℕ
  pub block_depth : ℕ
  pub blank : Bool

-- `for char in text`: the closing braces that the line begins with.
unfoldable pub leading_closes : Text → ℕ
leading_closes [] = 0
leading_closes (c ∷ cs) =
    let rest = leading_closes cs in if c == b'}' then suc rest else if is_space c then rest else 0

abbrev pub is_empty {ℓ} : {A : Type ℓ} → List A → Bool
is_empty [] = true
is_empty (x ∷ xs) = false

-- `"    " * depth + text`
abbrev pub indented : ℕ → Text → Text
indented depth text = replicate (4 * depth) 32 ++ text

-- One round, at a line that is blank.
abbrev pub blank_line : State → State
blank_line st = record st {
  output = if not (is_empty st.output) && not st.blank then st.output ++ [] ∷ [] else st.output;
  blank = true;
}

-- The depth of the line `text`: less by its leading closing braces, outside a comment.
unfoldable pub line_depth : State → Text → ℕ
line_depth st text = st.depth - (if st.block_depth == 0 then leading_closes text else 0)

-- One round, at the line `text`. Depths below 0 are cut to 0, as ℕ does.
abbrev pub code_line : State → Text → State
code_line st text =
    let s = brace_delta text st.block_depth in
    record {
      output = st.output ++ indented (line_depth st text) text ∷ [];
      depth = st.depth + s.opens - s.closes;
      block_depth = s.block_depth;
      blank = false;
    }

abbrev pub line_round : State → Text → State
line_round st [] = blank_line st
line_round st (c ∷ cs) = code_line st (c ∷ cs)

-- `for raw in source.splitlines()`
unfoldable pub rounds : State → List Text → State
rounds st [] = st
rounds st (raw ∷ raws) = rounds (line_round st (strip raw)) raws

abbrev pub cons_unless_empty : Text → List Text → List Text
cons_unless_empty [] [] = []
cons_unless_empty (c ∷ cs) [] = (c ∷ cs) ∷ []
cons_unless_empty l (m ∷ ms) = l ∷ (m ∷ ms)

-- `while output and not output[-1]: output.pop()`
unfoldable pub pop_blank : List Text → List Text
pop_blank [] = []
pop_blank (l ∷ ls) = cons_unless_empty l (pop_blank ls)

abbrev pub start : State
start = record { output = []; depth = 0; block_depth = 0; blank = false }

unfoldable pub format_source : Text → Text
format_source source = unlines (pop_blank (rounds start (splitlines source)).output)

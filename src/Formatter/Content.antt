-- ===== src/Formatter/Content.antt =====
-- mort/formatter.py: `format_source` keeps the text of every line that is not blank.
use mort.Base.{
  ◌≡◌, refl, ap, sym, ◌∙◌, Bool, true, false, not, ◌&&◌, List, [], ◌∷◌, ◌++◌, if◌then◌else◌, Text,
  All, All-append, append-nil, append_assoc, replicate,
}
use mort.Formatter.Format.{
  State, blank_line, line_round, rounds, pop_blank, cons_unless_empty, start, format_source,
  indented, is_empty, line_depth,
}
use mort.Formatter.Lines.{IsLine, lines_in-IsLine, splitlines-unlines, splitlines-unlines_nil}
use mort.Formatter.Strip.{strip-stripped, strip_nil, strip-IsLine, replicate-IsLine}
use mort.Formatter.Text.{lines_in, splitlines, strip, unlines}

abbrev pub keep : Text → List Text → List Text
keep [] ls = ls
keep (c ∷ cs) ls = (c ∷ cs) ∷ ls

-- The lines that are not blank, without the white space around them.
abbrev pub contents : List Text → List Text
contents [] = []
contents (l ∷ ls) = keep (strip l) (contents ls)

keep-append : (t : Text) (ls ms : List Text) → keep t (ls ++ ms) ≡ keep t ls ++ ms
keep-append [] ls ms = refl
keep-append (c ∷ cs) ls ms = refl

contents-append : (ls ms : List Text) → contents (ls ++ ms) ≡ contents ls ++ contents ms
contents-append [] ms = refl
contents-append (l ∷ ls) ms =
    ap (keep (strip l)) (contents-append ls ms) ∙ keep-append (strip l) (contents ls) (contents ms)

keep_nil : (t : Text) (ls : List Text) → keep t [] ++ ls ≡ keep t ls
keep_nil [] ls = refl
keep_nil (c ∷ cs) ls = refl

module _ (st : State) where
  blank-contents : contents (blank_line st).output ≡ contents st.output
  blank-contents = by_test (not (is_empty st.output) && not st.blank)
    where
      by_test :
          (b : Bool) → contents (if b then st.output ++ [] ∷ [] else st.output) ≡ contents st.output
      by_test true =
          contents-append st.output ([] ∷ []) ∙ (rw strip_nil (append-nil (contents st.output)))
      by_test false = refl

  -- A round adds the text of its line.
  round-contents :
      (raw t : Text)
      → strip raw ≡ t
      → contents (line_round st t).output ≡ contents st.output ++ keep t []
  round-contents raw [] e = blank-contents ∙ sym (append-nil (contents st.output))
  round-contents raw (c ∷ cs) e =
      contents-append st.output (indented (line_depth st (c ∷ cs)) (c ∷ cs) ∷ [])
      ∙ ap (λ t. contents st.output ++ keep t []) (strip-stripped _ raw (c ∷ cs) e)

rounds-contents :
    (st : State) (raws : List Text)
    → contents (rounds st raws).output ≡ contents st.output ++ contents raws
unfolding rounds
rounds-contents st [] = sym (append-nil (contents st.output))
rounds-contents st (raw ∷ raws) =
    rounds-contents (line_round st (strip raw)) raws
    ∙ (ap (λ x. x ++ contents raws) (round-contents st raw (strip raw) refl)
        ∙ (append_assoc (contents st.output) (keep (strip raw) []) (contents raws)
            ∙ ap (λ x. contents st.output ++ x) (keep_nil (strip raw) (contents raws))))

pop-contents : (ls : List Text) → contents (pop_blank ls) ≡ contents ls
unfolding pop_blank
pop-contents [] = refl
pop-contents (l ∷ ls) = on l (pop_blank ls) ∙ ap (keep (strip l)) (pop-contents ls)
  where
    on :
        (l : Text) (ms : List Text)
        → contents (cons_unless_empty l ms) ≡ keep (strip l) (contents ms)
    on [] [] = rw strip_nil refl
    on (c ∷ cs) [] = refl
    on l (m ∷ ms) = refl

-- Every line that is put out is one.
round-IsLine :
    (st : State) (t : Text) → IsLine t → All IsLine st.output → All IsLine (line_round st t).output
round-IsLine st [] h k = by_test (not (is_empty st.output) && not st.blank)
  where
    by_test : (b : Bool) → All IsLine (if b then st.output ++ [] ∷ [] else st.output)
    by_test true = All-append IsLine st.output ([] ∷ []) k (tt, tt)
    by_test false = k
round-IsLine st (c ∷ cs) h k =
    All-append IsLine st.output _ k
      (All-append _ (replicate _ 32) (c ∷ cs) (replicate-IsLine _) h, tt)

pub rounds-IsLine :
    (st : State) (raws : List Text)
    → All IsLine raws
    → All IsLine st.output
    → All IsLine (rounds st raws).output
unfolding rounds
rounds-IsLine st [] h k = k
rounds-IsLine st (raw ∷ raws) h k =
    rounds-IsLine (line_round st (strip raw)) raws h.1
      (round-IsLine st (strip raw) (strip-IsLine raw h.0) k)

pub pop-IsLine : (ls : List Text) → All IsLine ls → All IsLine (pop_blank ls)
unfolding pop_blank
pop-IsLine [] h = tt
pop-IsLine (l ∷ ls) h = on l (pop_blank ls) h.0 (pop-IsLine ls h.1)
  where
    on :
        (l : Text) (ms : List Text) → IsLine l → All IsLine ms → All IsLine (cons_unless_empty l ms)
    on [] [] h k = tt
    on (c ∷ cs) [] h k = (h, tt)
    on l (m ∷ ms) h k = (h, k)

splitlines-contents :
    (ls : List Text) → All IsLine ls → contents (splitlines (unlines ls)) ≡ contents ls
splitlines-contents [] h = rw splitlines-unlines_nil (rw strip_nil refl)
splitlines-contents (l ∷ ls) h = ap contents (splitlines-unlines l ls h)

-- For every source, `format_source` gives a text with the same lines, in order, as far as they are not
-- blank and without the white space around them.
pub format_source-contents :
    (source : Text) → contents (splitlines (format_source source)) ≡ contents (splitlines source)
unfolding format_source splitlines
format_source-contents source =
    splitlines-contents _ (pop-IsLine _ (rounds-IsLine start _ (lines_in-IsLine false source) tt))
    ∙ (pop-contents _ ∙ rounds-contents start (lines_in false source))

-- ===== src/Formatter/Layout.antt =====
-- mort/formatter.py: how the lines that `format_source` gives are laid out.
use mort.Base.{
  ℕ, ◌≡◌, ◌⊎◌, inl, inr, refl, sym, ◌∙◌, subst, Bool, true, false, not, ◌&&◌, List, [], ◌∷◌, ◌++◌,
  if◌then◌else◌, Text, All, All-append, codes,
}
use mort.Formatter.Content.{rounds-IsLine, pop-IsLine}
use mort.Formatter.Format.{
  State, blank_line, code_line, line_round, rounds, pop_blank, start, format_source, indented,
  is_empty, line_depth,
}
use mort.Formatter.Idempotent.{indented-is_empty}
use mort.Formatter.Lines.{IsLine, splitlines-IsLine, splitlines-unlines}
use mort.Formatter.Pop.{
  IsTrimmed, NoDouble, first_blank, last_blank, IsTidy, pop-IsTrimmed, pop-NoDouble,
  pop-first_blank, pop-last_blank,
}
use mort.Formatter.Strip.{rstrip-replicate, rstrip-stripped, rstrip_nil}
use mort.Formatter.Text.{splitlines, strip, unlines}

last_blank-snoc : (ls : List Text) (l : Text) → last_blank (ls ++ l ∷ []) ≡ is_empty l
last_blank-snoc [] l = refl
last_blank-snoc (x ∷ []) l = refl
last_blank-snoc (x ∷ (y ∷ ys)) l = last_blank-snoc (y ∷ ys) l

NoDouble-snoc :
    (ls : List Text) (l : Text)
    → NoDouble ls
    → (last_blank ls && is_empty l) ≡ false
    → NoDouble (ls ++ l ∷ [])
NoDouble-snoc [] l h k = tt
NoDouble-snoc (x ∷ []) l h k = (k, tt)
NoDouble-snoc (x ∷ (y ∷ ys)) l h k = (h.0, NoDouble-snoc (y ∷ ys) l h.1 k)

first_blank-snoc :
    (ls : List Text) (l : Text)
    → first_blank ls ≡ false
    → (is_empty ls && is_empty l) ≡ false
    → first_blank (ls ++ l ∷ []) ≡ false
first_blank-snoc [] l h k = k
first_blank-snoc (x ∷ xs) l h k = h

-- The state between two rounds.
record IsBetween (st : State) : Type 0 where
  trimmed : All IsTrimmed st.output
  single : NoDouble st.output
  begins : first_blank st.output ≡ false
  ends : st.blank ≡ false → last_blank st.output ≡ false

and_false : (a : Bool) → (a && false) ≡ false
and_false true = refl
and_false false = refl

module _ (st : State) (i : IsBetween st) where
  blank-IsBetween : IsBetween (blank_line st)
  blank-IsBetween = by_test (is_empty st.output) st.blank refl refl
    where
      unchanged : IsBetween (record st { blank = true })
      unchanged = record {
        trimmed = i.trimmed;
        single = i.single;
        begins = i.begins;
        ends = λ e. absurd (cc e);
      }

      by_test :
          (e k : Bool)
          → is_empty st.output ≡ e
          → st.blank ≡ k
          → IsBetween (record st {
            output = if not e && not k then st.output ++ [] ∷ [] else st.output;
            blank = true;
          })
      by_test true k e f = unchanged
      by_test false true e f = unchanged
      by_test false false e f = record {
        trimmed = All-append IsTrimmed st.output ([] ∷ []) i.trimmed (rstrip_nil, tt);
        single = NoDouble-snoc st.output [] i.single (rw (i.ends f) refl);
        begins = first_blank-snoc st.output [] i.begins (rw e refl);
        ends = λ q. absurd (cc q);
      }

  code-IsBetween :
      (raw : Text) (c : ℕ) (cs : Text) → strip raw ≡ c ∷ cs → IsBetween (code_line st (c ∷ cs))
  code-IsBetween raw c cs e = record {
    trimmed =
        All-append IsTrimmed st.output (put ∷ []) i.trimmed
          (rstrip-replicate _ c cs (rstrip-stripped raw (c ∷ cs) e), tt);
    single = NoDouble-snoc st.output put i.single (rw not_blank (and_false _));
    begins = first_blank-snoc st.output put i.begins (rw not_blank (and_false _));
    ends = λ q. last_blank-snoc st.output put ∙ not_blank;
  }
    where
      put : Text
      put = indented (line_depth st (c ∷ cs)) (c ∷ cs)

      not_blank : is_empty put ≡ false
      not_blank = indented-is_empty _ c cs

round-IsBetween :
    (st : State) (raw t : Text) → strip raw ≡ t → IsBetween st → IsBetween (line_round st t)
round-IsBetween st raw [] e i = blank-IsBetween st i
round-IsBetween st raw (c ∷ cs) e i = code-IsBetween st i raw c cs e

rounds-IsBetween : (st : State) (raws : List Text) → IsBetween st → IsBetween (rounds st raws)
unfolding rounds
rounds-IsBetween st [] i = i
rounds-IsBetween st (raw ∷ raws) i =
    rounds-IsBetween (line_round st (strip raw)) raws (round-IsBetween st raw (strip raw) refl i)

pop-IsTidy : (st : State) → IsBetween st → IsTidy (pop_blank st.output)
pop-IsTidy st i = record {
  trimmed = pop-IsTrimmed st.output i.trimmed;
  single = pop-NoDouble st.output i.single;
  begins = pop-first_blank st.output i.begins;
  ends = pop-last_blank st.output;
}

start-IsBetween : IsBetween start
start-IsBetween = record { trimmed = tt; single = tt; begins = refl; ends = λ q. refl }

unlines_nil : unlines [] ≡ codes "\n"
unfolding unlines
unlines_nil = refl

-- For every source, `format_source` gives a single newline, or a text whose lines have no white space at
-- their ends, whose first and last lines are not blank, and in which no two blank lines follow each other.
pub format_source-IsTidy :
    (source : Text)
    → (format_source source ≡ codes "\n") ⊎ IsTidy (splitlines (format_source source))
unfolding format_source
format_source-IsTidy source =
    by_lines (pop_blank (rounds start (splitlines source)).output)
      (pop-IsLine _ (rounds-IsLine start _ (splitlines-IsLine source) tt))
      (pop-IsTidy _ (rounds-IsBetween start (splitlines source) start-IsBetween))
  where
    by_lines :
        (ls : List Text)
        → All IsLine ls
        → IsTidy ls
        → (unlines ls ≡ codes "\n") ⊎ IsTidy (splitlines (unlines ls))
    by_lines [] h t = inl unlines_nil
    by_lines (l ∷ ls) h t = inr (subst IsTidy (sym (splitlines-unlines l ls h)) t)

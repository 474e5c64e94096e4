-- ===== src/Formatter/Idempotent.antt =====
-- mort/formatter.py: formatting what is formatted changes nothing.
use mort.Base.{
  ℕ, zero, suc, ◌≡◌, ◌⊎◌, inl, inr, refl, ap, sym, ◌∙◌, subst, Bool, true, false, not, ◌&&◌, List,
  [], ◌∷◌, ◌++◌, if◌then◌else◌, Text, All, replicate,
}
use mort.Formatter.Content.{rounds-IsLine, pop-IsLine}
use mort.Formatter.Format.{
  State, blank_line, code_line, line_round, rounds, pop_blank, cons_unless_empty, start,
  format_source, indented, is_empty, line_depth,
}
use mort.Formatter.Lines.{IsLine, splitlines-IsLine, splitlines-unlines, splitlines-unlines_nil}
use mort.Formatter.Strip.{strip-stripped, strip_nil}
use mort.Formatter.Text.{splitlines, strip, unlines}

rounds-snoc :
    (st : State) (ls : List Text) (l : Text)
    → rounds st (ls ++ l ∷ []) ≡ line_round (rounds st ls) (strip l)
unfolding rounds
rounds-snoc st [] l = refl
rounds-snoc st (x ∷ xs) l = rounds-snoc (line_round st (strip x)) xs l

pop-blank_line : (ls : List Text) → pop_blank (ls ++ [] ∷ []) ≡ pop_blank ls
unfolding pop_blank
pop-blank_line [] = refl
pop-blank_line (l ∷ ls) = ap (cons_unless_empty l) (pop-blank_line ls)

pop-code_line :
    (ls : List Text) (x : Text) → is_empty x ≡ false → pop_blank (ls ++ x ∷ []) ≡ ls ++ x ∷ []
unfolding pop_blank
pop-code_line [] [] h = absurd (cc h)
pop-code_line [] (c ∷ cs) h = refl
pop-code_line (l ∷ ls) x h = rw (pop-code_line ls x h) (kept l ls)
  where
    kept : (l : Text) (ls : List Text) → cons_unless_empty l (ls ++ x ∷ []) ≡ l ∷ (ls ++ x ∷ [])
    kept l [] = refl
    kept l (m ∷ ms) = refl

pop_twice : (ls : List Text) → pop_blank (pop_blank ls) ≡ pop_blank ls
unfolding pop_blank
pop_twice [] = refl
pop_twice (l ∷ ls) = on l (pop_blank ls) (pop_twice ls)
  where
    on :
        (l : Text) (ms : List Text)
        → pop_blank ms ≡ ms
        → pop_blank (cons_unless_empty l ms) ≡ cons_unless_empty l ms
    on [] [] h = refl
    on (c ∷ cs) [] h = refl
    on l (m ∷ ms) h = ap (cons_unless_empty l) h

pub indented-is_empty : (n : ℕ) (c : ℕ) (cs : Text) → is_empty (replicate n 32 ++ c ∷ cs) ≡ false
indented-is_empty zero c cs = refl
indented-is_empty (suc n) c cs = refl

-- The state `b`, of a run over what the run to `a` put out, agrees with `a`.
record Agrees (a b : State) : Type 0 where
  output_is : b.output ≡ a.output
  depth_is : b.depth ≡ a.depth
  block_depth_is : b.block_depth ≡ a.block_depth
  blank_is : (a.output ≡ []) ⊎ (b.blank ≡ a.blank)

record IsStable (a : State) : Type 0 where
  agrees : Agrees a (rounds start a.output)
  popped : (rounds start (pop_blank a.output)).output ≡ pop_blank a.output

module _ {a b : State} (h : Agrees a b) where
  blank-Agrees : Agrees (blank_line a) (blank_line b)
  blank-Agrees = record {
    output_is = by_cases h.blank_is;
    depth_is = h.depth_is;
    block_depth_is = h.block_depth_is;
    blank_is = inr refl;
  }
    where
      by_cases :
          (a.output ≡ []) ⊎ (b.blank ≡ a.blank) → (blank_line b).output ≡ (blank_line a).output
      by_cases (inl e) = rw (h.output_is, e) refl
      by_cases (inr e) = rw (h.output_is, e) refl

  code-Agrees : (t : Text) → Agrees (code_line a t) (code_line b t)
  unfolding line_depth
  code-Agrees t = record {
    output_is = rw (h.output_is, h.depth_is, h.block_depth_is) refl;
    depth_is = rw (h.depth_is, h.block_depth_is) refl;
    block_depth_is = rw h.block_depth_is refl;
    blank_is = inr refl;
  }

is_empty-eq : (ls : List Text) → is_empty ls ≡ true → ls ≡ []
is_empty-eq [] h = refl
is_empty-eq (l ∷ ls) h = absurd (cc h)

-- A round keeps the state stable.
module _ (a : State) (s : IsStable a) where
  blank-IsStable : IsStable (blank_line a)
  blank-IsStable = by_test (is_empty a.output) a.blank refl refl
    where
      Goal : Bool → Type 0
      Goal c =
          IsStable (record a { output = if c then a.output ++ [] ∷ [] else a.output; blank = true })

      same_output :
          (a.output ≡ []) ⊎ ((rounds start a.output).blank ≡ true)
          → IsStable (record a { blank = true })
      same_output k = record {
        agrees = record {
          output_is = s.agrees.output_is;
          depth_is = s.agrees.depth_is;
          block_depth_is = s.agrees.block_depth_is;
          blank_is = k;
        };
        popped = s.popped;
      }

      by_test : (e k : Bool) → is_empty a.output ≡ e → a.blank ≡ k → Goal (not e && not k)
      by_test true k e f = same_output (inl (is_empty-eq a.output e))
      by_test false true e f =
          same_output (elim s.agrees.blank_is [ inl q ↦ inl q | inr q ↦ inr (q ∙ f) ])
      by_test false false e f = record {
        agrees =
            subst (λ x. Agrees (record a { output = a.output ++ [] ∷ []; blank = true }) x)
              (sym
                (rounds-snoc start a.output [] ∙ ap (line_round (rounds start a.output)) strip_nil))
              appended;
        popped =
            ap (λ x. (rounds start x).output) (pop-blank_line a.output)
            ∙ (s.popped ∙ sym (pop-blank_line a.output));
      }
        where
          condition : (not (is_empty a.output) && not a.blank) ≡ true
          condition = rw (e, f) refl

          appended :
              Agrees
                (record a { output = a.output ++ [] ∷ []; blank = true })
                (blank_line (rounds start a.output))
          appended =
              subst
                (λ c.
                  Agrees
                    (record a {
                      output = if c then a.output ++ [] ∷ [] else a.output;
                      blank = true;
                    })
                    (blank_line (rounds start a.output)))
                condition (blank-Agrees s.agrees)

  code-IsStable :
      (raw : Text) (c : ℕ) (cs : Text) → strip raw ≡ c ∷ cs → IsStable (code_line a (c ∷ cs))
  code-IsStable raw c cs e = record { agrees = agrees'; popped = popped' }
    where
      put : Text
      put = indented (line_depth a (c ∷ cs)) (c ∷ cs)

      agrees' : Agrees (code_line a (c ∷ cs)) (rounds start (a.output ++ put ∷ []))
      agrees' =
          subst (λ x. Agrees (code_line a (c ∷ cs)) x)
            (sym (
              rounds-snoc start a.output put
              ∙ ap (line_round (rounds start a.output)) (strip-stripped _ raw (c ∷ cs) e)))
            (code-Agrees s.agrees (c ∷ cs))

      popped' :
          (rounds start (pop_blank (a.output ++ put ∷ []))).output
          ≡ pop_blank (a.output ++ put ∷ [])
      popped' = rw (pop-code_line a.output put (indented-is_empty _ c cs)) agrees'.output_is

round-IsStable : (a : State) (raw t : Text) → strip raw ≡ t → IsStable a → IsStable (line_round a t)
round-IsStable a raw [] e s = blank-IsStable a s
round-IsStable a raw (c ∷ cs) e s = code-IsStable a s raw c cs e

rounds-IsStable : (a : State) (raws : List Text) → IsStable a → IsStable (rounds a raws)
unfolding rounds
rounds-IsStable a [] s = s
rounds-IsStable a (raw ∷ raws) s =
    rounds-IsStable (line_round a (strip raw)) raws (round-IsStable a raw (strip raw) refl s)

start-IsStable : IsStable start
unfolding rounds pop_blank
start-IsStable = record {
  agrees = record { output_is = refl; depth_is = refl; block_depth_is = refl; blank_is = inl refl };
  popped = refl;
}

nothing_left : pop_blank (rounds start ([] ∷ [])).output ≡ []
unfolding rounds pop_blank
nothing_left = rw strip_nil refl

-- The lines of what was put out, formatted again.
again :
    (ls : List Text)
    → All IsLine ls
    → (rounds start ls).output ≡ ls
    → pop_blank ls ≡ ls
    → format_source (unlines ls) ≡ unlines ls
unfolding format_source
again [] h e k =
    ap (λ x. unlines (pop_blank (rounds start x).output)) splitlines-unlines_nil
    ∙ ap unlines nothing_left
again (l ∷ ls) h e k =
    ap (λ x. unlines (pop_blank (rounds start x).output)) (splitlines-unlines l ls h)
    ∙ (ap (λ x. unlines (pop_blank x)) e ∙ ap unlines k)

-- For every source, formatting what `format_source` gives changes nothing.
pub format_source_twice :
    (source : Text) → format_source (format_source source) ≡ format_source source
unfolding format_source
format_source_twice source =
    again _ (pop-IsLine _ (rounds-IsLine start _ (splitlines-IsLine source) tt))
      (rounds-IsStable start (splitlines source) start-IsStable).popped (pop_twice _)

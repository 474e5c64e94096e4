-- ===== src/Formatter/Pop.antt =====
-- mort/formatter.py: tidy lines, and what popping the blank lines at the end keeps of them.
use mort.Base.{
  ◌≡◌, ◌⊎◌, inl, inr, refl, ap, sym, ◌∙◌, subst, Bool, false, ◌&&◌, List, [], ◌∷◌, Text, All,
}
use mort.Formatter.Format.{pop_blank, cons_unless_empty, is_empty}
use mort.Formatter.Text.{rstrip}

-- No white space ends the line.
abbrev pub IsTrimmed : Text → Type 0
IsTrimmed l = rstrip l ≡ l

-- Of two lines next to each other one is not blank.
abbrev pub NoDouble : List Text → Type 0
NoDouble [] = Unit
NoDouble (l ∷ []) = Unit
NoDouble (l ∷ (m ∷ ms)) = ((is_empty l && is_empty m) ≡ false) × NoDouble (m ∷ ms)

abbrev pub first_blank : List Text → Bool
first_blank [] = false
first_blank (l ∷ ls) = is_empty l

abbrev pub last_blank : List Text → Bool
last_blank [] = false
last_blank (l ∷ []) = is_empty l
last_blank (l ∷ (m ∷ ms)) = last_blank (m ∷ ms)

-- Lines without white space at their ends, and without blank lines at the begin, at the end or in a row.
pub record IsTidy (ls : List Text) : Type 0 where
  pub trimmed : All IsTrimmed ls
  pub single : NoDouble ls
  pub begins : first_blank ls ≡ false
  pub ends : last_blank ls ≡ false

-- What is left of the lines begins as they do, if anything is left.
pop-head :
    (l : Text) (ls : List Text)
    → (pop_blank (l ∷ ls) ≡ []) ⊎ (pop_blank (l ∷ ls) ≡ l ∷ pop_blank ls)
unfolding pop_blank
pop-head l ls = on l (pop_blank ls)
  where
    on :
        (l : Text) (ms : List Text)
        → (cons_unless_empty l ms ≡ []) ⊎ (cons_unless_empty l ms ≡ l ∷ ms)
    on [] [] = inl refl
    on (c ∷ cs) [] = inr refl
    on l (m ∷ ms) = inr refl

pub pop-IsTrimmed : (ls : List Text) → All IsTrimmed ls → All IsTrimmed (pop_blank ls)
unfolding pop_blank
pop-IsTrimmed [] h = tt
pop-IsTrimmed (l ∷ ls) h = on l (pop_blank ls) h.0 (pop-IsTrimmed ls h.1)
  where
    on :
        (l : Text) (ms : List Text)
        → IsTrimmed l
        → All IsTrimmed ms
        → All IsTrimmed (cons_unless_empty l ms)
    on [] [] h k = tt
    on (c ∷ cs) [] h k = (h, tt)
    on l (m ∷ ms) h k = (h, k)

alone : (l : Text) → NoDouble (cons_unless_empty l [])
alone [] = tt
alone (c ∷ cs) = tt

pub pop-NoDouble : (ls : List Text) → NoDouble ls → NoDouble (pop_blank ls)
unfolding pop_blank
pop-NoDouble [] h = tt
pop-NoDouble (l ∷ []) h = alone l
pop-NoDouble (l ∷ (m ∷ ms)) h = on (pop_blank (m ∷ ms)) (pop-head m ms) (pop-NoDouble (m ∷ ms) h.1)
  where
    on :
        (r : List Text)
        → (r ≡ []) ⊎ (r ≡ m ∷ pop_blank ms)
        → NoDouble r
        → NoDouble (cons_unless_empty l r)
    on r (inl e) k = subst (λ x. NoDouble (cons_unless_empty l x)) (sym e) (alone l)
    on r (inr e) k = subst (λ x. NoDouble (cons_unless_empty l x)) (sym e) (h.0, subst NoDouble e k)

pop_nil : pop_blank [] ≡ []
unfolding pop_blank
pop_nil = refl

pub pop-first_blank : (ls : List Text) → first_blank ls ≡ false → first_blank (pop_blank ls) ≡ false
pop-first_blank [] h = ap first_blank pop_nil
pop-first_blank (l ∷ ls) h = elim (pop-head l ls) [
  | inl e ↦ ap first_blank e
  | inr e ↦ ap first_blank e ∙ h
]

pub pop-last_blank : (ls : List Text) → last_blank (pop_blank ls) ≡ false
unfolding pop_blank
pop-last_blank [] = refl
pop-last_blank (l ∷ ls) = on l (pop_blank ls) (pop-last_blank ls)
  where
    on :
        (l : Text) (ms : List Text)
        → last_blank ms ≡ false
        → last_blank (cons_unless_empty l ms) ≡ false
    on [] [] h = refl
    on (c ∷ cs) [] h = refl
    on l (m ∷ ms) h = h

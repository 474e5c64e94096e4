-- ===== src/Formatter/Strip.antt =====
-- mort/formatter.py: what `strip` does to what is stripped, and to an indented text.
use mort.Base.{
  ℕ, zero, suc, ◌≡◌, refl, ap, sym, ◌∙◌, Bool, true, false, [], ◌∷◌, ◌++◌, if◌then◌else◌, Text,
  replicate,
}
use mort.Formatter.Lines.{IsLine}
use mort.Formatter.Text.{is_space, is_break, lstrip, rstrip, strip, cons_unless_blank}

-- `rstrip` keeps a first character that is no space.
cons_kept : (c : ℕ) (r : Text) → is_space c ≡ false → cons_unless_blank c r ≡ c ∷ r
cons_kept c [] h = rw h refl
cons_kept c (d ∷ ds) h = refl

rstrip_twice : (s : Text) → rstrip (rstrip s) ≡ rstrip s
unfolding rstrip
rstrip_twice [] = refl
rstrip_twice (c ∷ cs) = on (rstrip cs) (rstrip_twice cs)
  where
    on : (r : Text) → rstrip r ≡ r → rstrip (cons_unless_blank c r) ≡ cons_unless_blank c r
    on [] h = by_test (is_space c) refl
      where
        by_test :
            (b : Bool)
            → is_space c ≡ b
            → rstrip (if b then [] else c ∷ []) ≡ (if b then [] else c ∷ [])
        by_test true e = refl
        by_test false e = rw e refl
    on (d ∷ ds) h = rw h refl

lstrip-rstrip : (s : Text) → lstrip (rstrip (lstrip s)) ≡ rstrip (lstrip s)
unfolding lstrip rstrip
lstrip-rstrip [] = refl
lstrip-rstrip (c ∷ cs) = by_test (is_space c) refl (lstrip-rstrip cs)
  where
    by_test :
        (b : Bool)
        → is_space c ≡ b
        → lstrip (rstrip (lstrip cs)) ≡ rstrip (lstrip cs)
        → lstrip (rstrip (if b then lstrip cs else c ∷ cs))
          ≡ rstrip (if b then lstrip cs else c ∷ cs)
    by_test true e h = h
    by_test false e h = rw (cons_kept c (rstrip cs) e, e) refl

strip_twice : (s : Text) → strip (strip s) ≡ strip s
unfolding strip
strip_twice s = rw (lstrip-rstrip s) (rstrip_twice (lstrip s))

space_32 : is_space 32 ≡ true
unfolding is_space is_break
space_32 = refl

lstrip-replicate : (n : ℕ) (s : Text) → lstrip (replicate n 32 ++ s) ≡ lstrip s
unfolding lstrip
lstrip-replicate zero s = refl
lstrip-replicate (suc n) s = rw space_32 (lstrip-replicate n s)

-- An indented text is stripped to what the text is.
strip-replicate : (n : ℕ) (s : Text) → strip (replicate n 32 ++ s) ≡ strip s
unfolding strip
strip-replicate n s = ap rstrip (lstrip-replicate n s)

pub rstrip_nil : rstrip [] ≡ []
unfolding rstrip
rstrip_nil = refl

pub rstrip-stripped : (raw t : Text) → strip raw ≡ t → rstrip t ≡ t
unfolding strip
rstrip-stripped raw t e = ap rstrip (sym e) ∙ (rstrip_twice (lstrip raw) ∙ e)

-- A text that is indented ends as it does.
pub rstrip-replicate :
    (n c : ℕ) (cs : Text)
    → rstrip (c ∷ cs) ≡ c ∷ cs
    → rstrip (replicate n 32 ++ c ∷ cs) ≡ replicate n 32 ++ c ∷ cs
unfolding rstrip
rstrip-replicate zero c cs h = h
rstrip-replicate (suc n) c cs h = rw (rstrip-replicate n c cs h) (kept n)
  where
    kept :
        (n : ℕ) → cons_unless_blank 32 (replicate n 32 ++ c ∷ cs) ≡ 32 ∷ (replicate n 32 ++ c ∷ cs)
    kept zero = refl
    kept (suc n) = refl

-- A stripped text is what its indented text is stripped to.
pub strip-stripped : (n : ℕ) (raw t : Text) → strip raw ≡ t → strip (replicate n 32 ++ t) ≡ t
strip-stripped n raw t e = strip-replicate n t ∙ (ap strip (sym e) ∙ (strip_twice raw ∙ e))

pub strip_nil : strip [] ≡ []
unfolding strip lstrip rstrip
strip_nil = refl

lstrip-IsLine : (s : Text) → IsLine s → IsLine (lstrip s)
unfolding lstrip
lstrip-IsLine [] h = tt
lstrip-IsLine (c ∷ cs) h = by_test (is_space c) (lstrip-IsLine cs h.1)
  where
    by_test : (b : Bool) → IsLine (lstrip cs) → IsLine (if b then lstrip cs else c ∷ cs)
    by_test true k = k
    by_test false k = h

rstrip-IsLine : (s : Text) → IsLine s → IsLine (rstrip s)
unfolding rstrip
rstrip-IsLine [] h = tt
rstrip-IsLine (c ∷ cs) h = on (rstrip cs) (rstrip-IsLine cs h.1)
  where
    on : (r : Text) → IsLine r → IsLine (cons_unless_blank c r)
    on [] k = by_test (is_space c)
      where
        by_test : (b : Bool) → IsLine (if b then [] else c ∷ [])
        by_test true = tt
        by_test false = (h.0, tt)
    on (d ∷ ds) k = (h.0, k)

pub strip-IsLine : (s : Text) → IsLine s → IsLine (strip s)
unfolding strip
strip-IsLine s h = rstrip-IsLine (lstrip s) (lstrip-IsLine s h)

pub replicate-IsLine : (n : ℕ) → IsLine (replicate n 32)
unfolding is_break
replicate-IsLine zero = tt
replicate-IsLine (suc n) = (refl, replicate-IsLine n)

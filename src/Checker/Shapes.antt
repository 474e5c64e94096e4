-- ===== src/Checker/Shapes.antt =====
-- mort/typechecker.py: the tests on the first characters of the text of a type.
use mort.Base.{
  ℕ, Bool, true, false, ◌&&◌, ◌≡◌, refl, ap, sym, ◌∙◌, subst, [], ◌∷◌, ◌++◌, append-nil, ◌==◌, Text,
  codes, none, arith, starts, All,
}
use mort.Checker.Pieces.{name-All}
use mort.Checker.Trees.{
  Tree, name, generic, ptr, slice, array, function, tuple, nil, cons, print, is_mark, IsName,
  IsType,
}
use mort.Checker.Types.{ends_with, generic_parts}

-- A text whose first part has no mark does not start with a text whose first mark is another.
no_start :
    (q : Text) (m : ℕ) (ms w rest : Text)
    → All (λ c. is_mark c ≡ false) q
    → is_mark m ≡ true
    → All (λ c. is_mark c ≡ false) w
    → (starts (m ∷ ms) rest ≡ false)
    → ((c : ℕ) → is_mark c ≡ false → starts (c ∷ []) rest ≡ false)
    → starts (q ++ (m ∷ ms)) (w ++ rest) ≡ false
no_start [] m ms [] rest p k a f g = f
no_start [] m ms (c ∷ w) rest p k a f g = rw (differ m c k a.0) refl
  where
    differ : (m c : ℕ) → is_mark m ≡ true → is_mark c ≡ false → (m == c) ≡ false
    differ m c h k = ground arith
no_start (d ∷ q) m ms [] [] p k a f g = refl
no_start (d ∷ q) m ms [] (x ∷ rest) p k a f g = by_head (d == x) (g d p.0)
  where
    by_head : (b : Bool) → (b && true) ≡ false → (b && starts (q ++ (m ∷ ms)) rest) ≡ false
    by_head true h = cc h
    by_head false h = refl
no_start (d ∷ q) m ms (c ∷ w) rest p k a f g =
    rw (no_start q m ms w rest p.1 k a.1 f g) (and_false (d == c))
  where
    and_false : (b : Bool) → (b && false) ≡ false
    and_false true = refl
    and_false false = refl

-- In front of a name: the end of the text, or the `<` of a generic type.
abbrev AfterName : Text → Type 0
AfterName [] = Unit {0}
AfterName (c ∷ cs) = c ≡ b'<'

not_angle : (c d : ℕ) → d ≡ b'<' → is_mark c ≡ false → (c == d) ≡ false
not_angle c d e h = ground arith

no_head :
    (rest : Text) → AfterName rest → (c : ℕ) → is_mark c ≡ false → starts (c ∷ []) rest ≡ false
no_head [] a c h = refl
no_head (d ∷ ds) a c h = rw (not_angle c d a h) refl

-- A name, or a generic type, does not start with what has another mark in it.
named_start :
    (q : Text) (m : ℕ) (ms x rest : Text)
    → All (λ c. is_mark c ≡ false) q
    → is_mark m ≡ true
    → (m == b'<') ≡ false
    → IsName x
    → AfterName rest
    → starts (q ++ (m ∷ ms)) (x ++ rest) ≡ false
named_start q m ms x rest p k l n a =
    no_start q m ms x rest p k (name-All x n) (other_head rest a) (no_head rest a)
  where
    other_head : (rest : Text) → AfterName rest → starts (m ∷ ms) rest ≡ false
    other_head [] a = refl
    other_head (d ∷ ds) a = rw (a, l) refl

pub not_const : (t : Tree) → IsType t → starts (codes "const ") (print t) ≡ false
unfolding print IsType
not_const (name x) h =
    ap (starts (codes "const ")) (sym (append-nil x))
    ∙ named_start (codes "const") 32 [] x [] (refl, (refl, (refl, (refl, (refl, tt))))) refl refl h
        tt
not_const (generic x nil) h = absurd h
not_const (generic x (cons t ts)) h =
    named_start (codes "const") 32 [] x _ (refl, (refl, (refl, (refl, (refl, tt))))) refl refl h.0
      refl
not_const (ptr q t) h = refl
not_const (slice q t) h = refl
not_const (array t n) h = refl
not_const (function ts r) h = refl
not_const (tuple ts) h = refl

-- The tests that a name and a generic type fail.
pub record IsPlain (w : Text) : Type 0 where
  pub no_ptr : starts (codes "*") w ≡ false
  pub no_slice : starts (codes "[]") w ≡ false
  pub no_array : starts (codes "[") w ≡ false
  pub no_function : starts (codes "fn(") w ≡ false
  pub no_tuple : starts (codes "(") w ≡ false

IsPlain-named : (x rest : Text) → IsName x → AfterName rest → IsPlain (x ++ rest)
IsPlain-named x rest n a = record {
  no_ptr = named_start [] b'*' [] x rest tt refl refl n a;
  no_slice = named_start [] b'[' (codes "]") x rest tt refl refl n a;
  no_array = named_start [] b'[' [] x rest tt refl refl n a;
  no_function = named_start (codes "fn") b'(' [] x rest (refl, (refl, tt)) refl refl n a;
  no_tuple = named_start [] b'(' [] x rest tt refl refl n a;
}

pub name-IsPlain : (x : Text) → IsName x → IsPlain x
name-IsPlain x n = subst IsPlain (append-nil x) (IsPlain-named x [] n tt)

pub generic-IsPlain : (x rest : Text) → IsName x → IsPlain (x ++ (b'<' ∷ rest))
generic-IsPlain x rest n = IsPlain-named x (b'<' ∷ rest) n refl

-- A name is no generic type.
pub name-generic_parts : (x : Text) → IsName x → generic_parts x ≡ none
unfolding generic_parts
name-generic_parts x n = rw (no_end x (name-All x n)) refl
  where
    no_end : (x : Text) → All (λ c. is_mark c ≡ false) x → ends_with b'>' x ≡ false
    no_end [] h = refl
    no_end (c ∷ []) h = ground (arith, h.0)
    no_end (c ∷ (d ∷ ds)) h = no_end (d ∷ ds) h.1

-- The text of a type does not begin with `]`.
pub not_bracket : (t : Tree) (rest : Text) → IsType t → starts (codes "]") (print t ++ rest) ≡ false
unfolding print IsType
not_bracket (name []) rest h = absurd h
not_bracket (name (c ∷ cs)) rest h = ground (arith, h.0)
not_bracket (generic x nil) rest h = absurd h
not_bracket (generic [] (cons t ts)) rest h = absurd h.0
not_bracket (generic (c ∷ cs) (cons t ts)) rest h = ground (arith, h.0.0)
not_bracket (ptr q t) rest h = refl
not_bracket (slice q t) rest h = refl
not_bracket (array t n) rest h = refl
not_bracket (function ts r) rest h = refl
not_bracket (tuple ts) rest h = refl

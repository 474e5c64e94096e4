-- ===== src/Checker/Trees.antt =====
-- Types as trees, and the texts that mort/parser.py makes of them.
use mort.Base.{
  ℕ, zero, suc, ◌+◌, ◌<◌, ◌^◌, Bool, true, false, ◌≡◌, List, [], ◌∷◌, ◌++◌, Text, codes, elem, All,
  ltb, ◌%◌, ◌/◌, arith, Bool-cases, inl, inr,
}
use mort.Lexer.Cursor.{is_digit}
use mort.Lexer.Number.{max_str_digits}
use mort.Parser.State.{decimal_digits}
use mort.Checker.Types.{show}
use mort.Parser.Types.{comma_join}

mutual
  pub data Tree : Type 0 where
    name : Text → Tree
    generic : Text → Trees → Tree
    ptr slice : Bool → Tree → Tree
    array : Tree → ℕ → Tree
    function : Trees → Tree → Tree
    tuple : Trees → Tree

  pub data Trees : Type 0 where
    nil : Trees
    cons : Tree → Trees → Trees

abbrev pub qualifier : Bool → Text
qualifier true = codes "const "
qualifier false = []

unfoldable mutual
  pub print : Tree → Text
  print (name x) = x
  print (generic x ts) = x ++ (codes "<" ++ (comma_join (print_all ts) ++ codes ">"))
  print (ptr c t) = codes "*" ++ (qualifier c ++ print t)
  print (slice c t) = codes "[]" ++ (qualifier c ++ print t)
  print (array t n) = codes "[" ++ (print t ++ (codes ";" ++ (show n ++ codes "]")))
  print (function ts r) = codes "fn(" ++ (comma_join (print_all ts) ++ (codes ")->" ++ print r))
  print (tuple ts) = codes "(" ++ (comma_join (print_all ts) ++ codes ")")

  pub print_all : Trees → List Text
  print_all nil = []
  print_all (cons t ts) = print t ∷ print_all ts

-- A character that no name has.
abbrev pub is_mark : ℕ → Bool
is_mark c = elem c (codes "*[]()<>,; -")

abbrev pub IsName : Text → Type 0
IsName [] = ⊥
IsName (c ∷ cs) = All (λ x. is_mark x ≡ false) (c ∷ cs)

abbrev pub IsSize : ℕ → Type 0
IsSize n = n < 10 ^ 4300

-- Names are names, a generic type has arguments, a tuple two elements or more.
unfoldable mutual
  pub IsType : Tree → Type 0
  IsType (name x) = IsName x
  IsType (generic x nil) = ⊥
  IsType (generic x (cons t ts)) = IsName x × IsType t × AllTypes ts
  IsType (ptr c t) = IsType t
  IsType (slice c t) = IsType t
  IsType (array t n) = IsType t × IsSize n
  IsType (function ts r) = AllTypes ts × IsType r
  IsType (tuple nil) = ⊥
  IsType (tuple (cons t nil)) = ⊥
  IsType (tuple (cons t (cons u ts))) = IsType t × IsType u × AllTypes ts

  pub AllTypes : Trees → Type 0
  AllTypes nil = Unit
  AllTypes (cons t ts) = IsType t × AllTypes ts

-- A type with no function type in it, and with tuples only where `tuples` holds.
module _ (tuples : Type 0) where
  unfoldable mutual
    pub IsSimple : Tree → Type 0
    IsSimple (name x) = Unit
    IsSimple (generic x ts) = AllSimple ts
    IsSimple (ptr c t) = IsSimple t
    IsSimple (slice c t) = IsSimple t
    IsSimple (array t n) = IsSimple t
    IsSimple (function ts r) = ⊥
    IsSimple (tuple ts) = tuples × AllSimple ts

    pub AllSimple : Trees → Type 0
    AllSimple nil = Unit
    AllSimple (cons t ts) = IsSimple t × AllSimple ts

digits_range : (n : ℕ) → is_digit (n % 10 + 48) ≡ true
digits_range n = ground arith

decimal_digits-All :
    (fuel n : ℕ) (acc : Text)
    → All (λ c. is_digit c ≡ true) acc
    → All (λ c. is_digit c ≡ true) (decimal_digits fuel n acc)
decimal_digits-All zero n acc h = h
decimal_digits-All (suc fuel) n acc h = elim (Bool-cases (ltb n 10)) [
  | inl e ↦ rw e (digits_range n, h)
  | inr e ↦ rw e (decimal_digits-All fuel (n / 10) _ (digits_range n, h))
]

pub show-All : (n : ℕ) → All (λ c. is_digit c ≡ true) (show n)
unfolding show
show-All n = decimal_digits-All max_str_digits n [] tt

-- ===== src/Checker/Replace.antt =====
-- Types as trees: the parameters replaced, and the trees whose texts mort/typechecker.py can take apart.
use mort.Base.{List, [], ◌∷◌, Text, lookup, Option, none, some}
use mort.Checker.Substitute.{Mapping}
use mort.Checker.Trees.{
  Tree, name, generic, ptr, slice, array, function, tuple, Trees, nil, cons, print, IsName,
  AllSimple,
}

abbrev pub tree_or : Tree → Option Tree → Tree
tree_or t (some u) = u
tree_or t none = t

-- The tree of each parameter, and its text.
abbrev pub texts : List (Text × Tree) → Mapping
texts [] = []
texts ((x, t) ∷ m) = (x, print t) ∷ texts m

abbrev pub AllNames : List (Text × Tree) → Type 0
AllNames [] = Unit {0}
AllNames ((x, t) ∷ m) = IsName x × AllNames m

module _ (m : List (Text × Tree)) where
  unfoldable mutual
    pub replace : Tree → Tree
    replace (name x) = tree_or (name x) (lookup x m)
    replace (generic x ts) = generic x (replace_all ts)
    replace (ptr c t) = ptr c (replace t)
    replace (slice c t) = slice c (replace t)
    replace (array t n) = array (replace t) n
    replace (function ts r) = function (replace_all ts) (replace r)
    replace (tuple ts) = tuple (replace_all ts)

    pub replace_all : Trees → Trees
    replace_all nil = nil
    replace_all (cons t ts) = cons (replace t) (replace_all ts)

-- Parameters of functions and elements of tuples hold no function type, arguments of generic types neither
-- those nor tuple types.
unfoldable mutual
  pub IsReadable : Tree → Type 0
  IsReadable (name x) = Unit
  IsReadable (generic x ts) = AllSimple ⊥ ts × AllReadable ts
  IsReadable (ptr c t) = IsReadable t
  IsReadable (slice c t) = IsReadable t
  IsReadable (array t n) = IsReadable t
  IsReadable (function ts r) = AllSimple (Unit {0}) ts × AllReadable ts × IsReadable r
  IsReadable (tuple ts) = AllSimple (Unit {0}) ts × AllReadable ts

  pub AllReadable : Trees → Type 0
  AllReadable nil = Unit
  AllReadable (cons t ts) = IsReadable t × AllReadable ts

-- ===== src/Checker/Pieces.antt =====
-- mort/typechecker.py: `_split_type_list`, `function_parts`, `tuple_parts` and `generic_parts` on the texts of
-- types.
use mort.Base.{
  ℕ, suc, true, false, ◌&&◌, ◌≡◌, refl, ap, sym, ◌∙◌, List, [], ◌∷◌, ◌++◌, append-nil, append_assoc,
  ◌==◌, Text, codes, Option, some, arith, All,
}
use mort.Base.Int.{pos, is_zero}
use mort.Checker.Reader.{prepend, Reader, print-reads, print_all-reads}
use mort.Checker.Trees.{
  Tree, name, generic, ptr, slice, array, function, tuple, Trees, nil, cons, print, print_all,
  is_mark, IsName, IsType, AllTypes, IsSimple, AllSimple,
}
use mort.Checker.Types.{
  cons_first, list_pieces, split_type_list, at_close, put_before, function_of, function_parts,
  tuple_parts, two_or_more, generic_pieces, generic_parts, at_first_angle, all_but_last, ends_with,
}
use mort.Parser.State.{join}
use mort.Parser.Types.{comma_join}

-- The three depths of `_split_type_list`.
abbrev Depths : Type 0
Depths = ℕ × (ℕ × ℕ)

abbrev pieces_at : Depths → Text → List Text
pieces_at (a, (b, c)) w = list_pieces (pos a) (pos b) (pos c) w

list_reader : Reader pieces_at cons_first (Unit {0})
unfolding list_pieces
list_reader = record {
  in_angle = λ (a, (b, c)). (suc a, (b, c));
  in_paren = λ (a, (b, c)). (a, (suc b, c));
  in_bracket = λ (a, (b, c)). (a, (b, suc c));
  Inside = λ (a, (b, c)). (is_zero (pos a) && (is_zero (pos b) && is_zero (pos c))) ≡ false;
  other = λ (a, (b, c)) x cs h. ground arith;
  comma = λ (a, (b, c)) cs h. rw h refl;
  open_angle = λ d cs. refl;
  close_angle = λ d cs. refl;
  open_paren = λ d cs. refl;
  close_paren = λ d cs. refl;
  open_bracket = λ d cs. refl;
  close_bracket = λ d cs. refl;
  angle_inside = λ d. refl;
  paren_inside = λ _ (a, (b, c)). ground arith;
}

prepend_first : (w : Text) (ps : List Text) → prepend pieces_at cons_first w ([] ∷ ps) ≡ w ∷ ps
prepend_first [] ps = refl
prepend_first (c ∷ cs) ps = rw (prepend_first cs ps) refl

list_pieces-print_all :
    (t : Tree) (ts : Trees)
    → AllTypes (cons t ts)
    → AllSimple (Unit {0}) (cons t ts)
    → list_pieces (pos 0) (pos 0) (pos 0) (comma_join (print_all (cons t ts)))
      ≡ print_all (cons t ts)
unfolding print list_pieces IsType IsSimple join
list_pieces-print_all t nil h k =
    ap (pieces_at (0, (0, 0))) (sym (append-nil (print t)))
    ∙ (print-reads pieces_at cons_first Unit list_reader (0, (0, 0)) t [] h.0 k.0
        ∙ prepend_first (print t) [])
list_pieces-print_all t (cons u ts) h k =
    print-reads pieces_at cons_first Unit list_reader (0, (0, 0)) t
      (b',' ∷ comma_join (print_all (cons u ts))) h.0 k.0
    ∙ (prepend_first (print t) _ ∙ ap (λ ps. print t ∷ ps) (list_pieces-print_all u ts h.1 k.1))

-- No type has an empty text.
pub print-cons : (t : Tree) → IsType t → (c : ℕ) × (cs : Text) × (print t ≡ c ∷ cs)
unfolding print IsType
print-cons (name []) h = absurd h
print-cons (name (c ∷ cs)) h = (c, cs, refl)
print-cons (generic x nil) h = absurd h
print-cons (generic [] (cons t ts)) h = absurd h.0
print-cons (generic (c ∷ cs) (cons t ts)) h = (c, _, refl)
print-cons (ptr q t) h = (_, _, refl)
print-cons (slice q t) h = (_, _, refl)
print-cons (array t n) h = (_, _, refl)
print-cons (function ts r) h = (_, _, refl)
print-cons (tuple ts) h = (_, _, refl)

split_filled :
    (w : Text) (c : ℕ) (cs : Text)
    → w ≡ c ∷ cs
    → split_type_list w ≡ list_pieces (pos 0) (pos 0) (pos 0) w
split_filled w c cs e = rw e refl

-- The list of types that `_split_type_list` splits is the one that was joined.
pub split_type_list-print_all :
    (ts : Trees)
    → AllTypes ts
    → AllSimple (Unit {0}) ts
    → split_type_list (comma_join (print_all ts)) ≡ print_all ts
unfolding print IsType join
split_type_list-print_all nil h k = refl
split_type_list-print_all (cons t nil) h k =
    let (c, cs, e) = print-cons t h.0 in
    split_filled (print t) c cs e ∙ list_pieces-print_all t nil h k
split_type_list-print_all (cons t (cons u ts)) h k =
    let (c, cs, e) = print-cons t h.0 in
    split_filled (print t ++ (b',' ∷ comma_join (print_all (cons u ts)))) c _
      (ap (λ w. w ++ (b',' ∷ comma_join (print_all (cons u ts)))) e)
    ∙ list_pieces-print_all t (cons u ts) h k

close_at : ℕ → Text → Option (Text × Text)
close_at n w = at_close (pos (suc n)) w

close_reader : Reader close_at put_before (Unit {0})
unfolding at_close close_at
close_reader = record {
  in_angle = λ n. n;
  in_paren = suc;
  in_bracket = λ n. n;
  Inside = λ n. Unit;
  other = λ n x cs h. ground arith;
  comma = λ n cs h. refl;
  open_angle = λ d cs. refl;
  close_angle = λ d cs. refl;
  open_paren = λ d cs. refl;
  close_paren = λ d cs. refl;
  open_bracket = λ d cs. refl;
  close_bracket = λ d cs. refl;
  angle_inside = λ d. tt;
  paren_inside = λ _ d. tt;
}

prepend-some : (w rest : Text) → prepend close_at put_before w (some ([], rest)) ≡ some (w, rest)
prepend-some [] rest = refl
prepend-some (c ∷ cs) rest = rw (prepend-some cs rest) refl

-- The parts of a function type whose parameters hold no function type.
pub function_parts-print :
    (ts : Trees) (r : Tree)
    → AllTypes ts
    → AllSimple (Unit {0}) ts
    → function_parts (print (function ts r)) ≡ some (print_all ts, print r)
unfolding print function_parts at_close close_at close_reader
function_parts-print ts r h k =
    ap function_of (
      print_all-reads close_at put_before Unit close_reader 0 ts (codes ")->" ++ print r) tt h k
      ∙ prepend-some (comma_join (print_all ts)) (codes "->" ++ print r))
    ∙ ap (λ ps. some (ps, print r)) (split_type_list-print_all ts h k)

pub ends_with-last : (c : ℕ) (w : Text) → ends_with c (w ++ (c ∷ [])) ≡ true
ends_with-last c [] = ground arith
ends_with-last c (d ∷ []) = ends_with-last c []
ends_with-last c (d ∷ (e ∷ es)) = ends_with-last c (e ∷ es)

pub all_but_last-last : (c : ℕ) (w : Text) → all_but_last (w ++ (c ∷ [])) ≡ w
all_but_last-last c [] = refl
all_but_last-last c (d ∷ []) = refl
all_but_last-last c (d ∷ (e ∷ es)) = ap (λ t. d ∷ t) (all_but_last-last c (e ∷ es))

-- The elements of a tuple type that hold no function type.
pub tuple_parts-print :
    (t u : Tree) (ts : Trees)
    → AllTypes (cons t (cons u ts))
    → AllSimple (Unit {0}) (cons t (cons u ts))
    → tuple_parts (print (tuple (cons t (cons u ts)))) ≡ some (print_all (cons t (cons u ts)))
unfolding print tuple_parts
tuple_parts-print t u ts h k =
    let j = comma_join (print_all (cons t (cons u ts))) in
    rw (ends_with-last b')' (b'(' ∷ j), all_but_last-last b')' (b'(' ∷ j))
      (ap two_or_more (split_type_list-print_all (cons t (cons u ts)) h k))

angle_at : ℕ → Text → List Text
angle_at n w = generic_pieces (pos n) w

generic_reader : Reader angle_at cons_first ⊥
unfolding generic_pieces angle_at
generic_reader = record {
  in_angle = suc;
  in_paren = λ n. n;
  in_bracket = λ n. n;
  Inside = λ n. is_zero (pos n) ≡ false;
  other = λ n x cs h. ground arith;
  comma = λ n cs h. rw h refl;
  open_angle = λ d cs. refl;
  close_angle = λ d cs. refl;
  open_paren = λ d cs. refl;
  close_paren = λ d cs. refl;
  open_bracket = λ d cs. refl;
  close_bracket = λ d cs. refl;
  angle_inside = λ d. refl;
  paren_inside = λ a d. absurd a;
}

first_piece : (w : Text) (ps : List Text) → prepend angle_at cons_first w ([] ∷ ps) ≡ w ∷ ps
first_piece [] ps = refl
first_piece (c ∷ cs) ps = rw (first_piece cs ps) refl

generic_pieces-print_all :
    (t : Tree) (ts : Trees)
    → AllTypes (cons t ts)
    → AllSimple ⊥ (cons t ts)
    → generic_pieces (pos 0) (comma_join (print_all (cons t ts))) ≡ print_all (cons t ts)
unfolding print generic_pieces IsType IsSimple join angle_at
generic_pieces-print_all t nil h k =
    ap (angle_at 0) (sym (append-nil (print t)))
    ∙ (print-reads angle_at cons_first ⊥ generic_reader 0 t [] h.0 k.0 ∙ first_piece (print t) [])
generic_pieces-print_all t (cons u ts) h k =
    print-reads angle_at cons_first ⊥ generic_reader 0 t (b',' ∷ comma_join (print_all (cons u ts)))
      h.0 k.0
    ∙ (first_piece (print t) _ ∙ ap (λ ps. print t ∷ ps) (generic_pieces-print_all u ts h.1 k.1))

at_first_angle-front :
    (x rest : Text)
    → All (λ c. is_mark c ≡ false) x
    → at_first_angle (x ++ (b'<' ∷ rest)) ≡ some (x, rest)
unfolding at_first_angle
at_first_angle-front [] rest h = refl
at_first_angle-front (c ∷ cs) rest h = rw (no_angle c h.0, at_first_angle-front cs rest h.1) refl
  where
    no_angle : (c : ℕ) → is_mark c ≡ false → (c == b'<') ≡ false
    no_angle c h = ground arith

pub name-All : (x : Text) → IsName x → All (λ c. is_mark c ≡ false) x
name-All [] h = absurd h
name-All (c ∷ cs) h = h

-- The base and the arguments of a generic type whose arguments hold no function type and no tuple type.
pub generic_parts-print :
    (x : Text) (t : Tree) (ts : Trees)
    → IsName x
    → AllTypes (cons t ts)
    → AllSimple ⊥ (cons t ts)
    → generic_parts (print (generic x (cons t ts))) ≡ some (x, print_all (cons t ts))
unfolding print generic_parts
generic_parts-print x t ts n h k =
    let j = comma_join (print_all (cons t ts)) in
    rw
      (
        sym (append_assoc x (b'<' ∷ j) (codes ">")),
        ends_with-last b'>' (x ++ (b'<' ∷ j)),
        append_assoc x (b'<' ∷ j) (codes ">"),
        at_first_angle-front x (j ++ codes ">") (name-All x n),
        all_but_last-last b'>' j,
      )
      (ap (λ ps. some (x, ps)) (generic_pieces-print_all t ts h k))

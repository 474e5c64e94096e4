-- ===== src/Checker/Reader.antt =====
-- mort/typechecker.py: the loops that read the text of a type and count its brackets.
use mort.Base.{
  ℕ, Bool, ◌≡◌, refl, ap, sym, ◌∙◌, true, false, [], ◌∷◌, ◌++◌, append_assoc, Text, codes, elem,
  All, arith,
}
use mort.Checker.Trees.{
  Tree, name, generic, ptr, slice, array, function, tuple, Trees, nil, cons, qualifier, print,
  print_all, is_mark, IsName, IsType, AllTypes, IsSimple, AllSimple, show-All,
}
use mort.Checker.Types.{show}
use mort.Lexer.Cursor.{is_digit}
use mort.Parser.State.{join}
use mort.Parser.Types.{comma_join}

-- What the loops look at.
abbrev pub is_bracket : ℕ → Bool
is_bracket c = elem c (codes "<>()[],")

-- A loop: its states, its results, and the result with a character in front.
module _ {S R : Type 0} (read : S → Text → R) (put : ℕ → R → R) where
  abbrev pub prepend : Text → R → R
  prepend [] r = r
  prepend (c ∷ cs) r = put c (prepend cs r)

  prepend-append : (u v : Text) (r : R) → prepend (u ++ v) r ≡ prepend u (prepend v r)
  prepend-append [] v r = refl
  prepend-append (c ∷ cs) v r = ap (put c) (prepend-append cs v r)

  -- The loop goes over a text from one state to the other, and only copies it.
  pub record Moves (d e : S) (w : Text) : Type 0 where
    pub moves : (rest : Text) → read d (w ++ rest) ≡ prepend w (read e rest)

  then_moves : {d e f : S} {u v : Text} → Moves d e u → Moves e f v → Moves d f (u ++ v)
  then_moves {d = d} {f = f} {u = u} {v = v} p q = record {
    moves = λ rest.
        ap (read d) (append_assoc u v rest)
        ∙ (p.moves (v ++ rest)
            ∙ (ap (prepend u) (q.moves rest) ∙ sym (prepend-append u v (read f rest))));
  }

  stays : {d : S} → Moves d d []
  stays = record { moves = λ rest. refl }

  -- What a loop does at each bracket. It can count each kind, and takes a comma as it is where `Inside` holds.
  pub record Reader (tuples : Type 0) : Type 1 where
    pub in_angle : S → S
    pub in_paren : S → S
    pub in_bracket : S → S
    pub Inside : S → Type 0
    pub other :
        (d : S) (c : ℕ) (cs : Text) → is_bracket c ≡ false → read d (c ∷ cs) ≡ put c (read d cs)
    pub comma : (d : S) (cs : Text) → Inside d → read d (b',' ∷ cs) ≡ put b',' (read d cs)
    pub open_angle : (d : S) (cs : Text) → read d (b'<' ∷ cs) ≡ put b'<' (read (in_angle d) cs)
    pub close_angle : (d : S) (cs : Text) → read (in_angle d) (b'>' ∷ cs) ≡ put b'>' (read d cs)
    pub open_paren : (d : S) (cs : Text) → read d (b'(' ∷ cs) ≡ put b'(' (read (in_paren d) cs)
    pub close_paren : (d : S) (cs : Text) → read (in_paren d) (b')' ∷ cs) ≡ put b')' (read d cs)
    pub open_bracket : (d : S) (cs : Text) → read d (b'[' ∷ cs) ≡ put b'[' (read (in_bracket d) cs)
    pub close_bracket : (d : S) (cs : Text) → read (in_bracket d) (b']' ∷ cs) ≡ put b']' (read d cs)
    pub angle_inside : (d : S) → Inside (in_angle d)
    pub paren_inside : tuples → (d : S) → Inside (in_paren d)

  module _ (tuples : Type 0) (r : Reader tuples) where
    one :
        {d e : S} (c : ℕ) → ((cs : Text) → read d (c ∷ cs) ≡ put c (read e cs)) → Moves d e (c ∷ [])
    one c f = record { moves = f }

    plain-moves : (d : S) (w : Text) → All (λ c. is_bracket c ≡ false) w → Moves d d w
    plain-moves d [] h = stays
    plain-moves d (c ∷ cs) h = record {
      moves = λ rest. r.other d c (cs ++ rest) h.0 ∙ ap (put c) ((plain-moves d cs h.1).moves rest);
    }

    name-moves : (d : S) (x : Text) → IsName x → Moves d d x
    name-moves d [] h = absurd h
    name-moves d (c ∷ cs) h = plain-moves d (c ∷ cs) (plain_of (c ∷ cs) h)
      where
        plain_of : (w : Text) → All (λ x. is_mark x ≡ false) w → All (λ c. is_bracket c ≡ false) w
        plain_of [] h = tt
        plain_of (c ∷ cs) h = (ground (arith, h.0), plain_of cs h.1)

    show-moves : (d : S) (n : ℕ) → Moves d d (show n)
    show-moves d n = plain-moves d (show n) (plain_of (show n) (show-All n))
      where
        plain_of : (w : Text) → All (λ x. is_digit x ≡ true) w → All (λ c. is_bracket c ≡ false) w
        plain_of [] h = tt
        plain_of (c ∷ cs) h = (ground (arith, h.0), plain_of cs h.1)

    qualifier-moves : (d : S) (q : Bool) → Moves d d (qualifier q)
    qualifier-moves d false = stays
    qualifier-moves d true =
        plain-moves d (codes "const ") (refl, (refl, (refl, (refl, (refl, (refl, tt))))))

    -- The text of a type is copied in every state.
    mutual
      unfolding print IsType IsSimple join

      print-moves : (d : S) (t : Tree) → IsType t → IsSimple tuples t → Moves d d (print t)
      print-moves d (name x) h k = name-moves d x h
      print-moves d (generic x nil) h k = absurd h
      print-moves d (generic x (cons t ts)) h k = then_moves (name-moves d x h.0) (
          then_moves (one b'<' (r.open_angle d)) (
            then_moves (print_all-moves (r.in_angle d) (cons t ts) (r.angle_inside d) (h.1, h.2) k)
              (one b'>' (r.close_angle d))))
      print-moves d (ptr q t) h k =
          then_moves (plain-moves d (codes "*") (refl, tt))
            (then_moves (qualifier-moves d q) (print-moves d t h k))
      print-moves d (slice q t) h k =
          then_moves (then_moves (one b'[' (r.open_bracket d)) (one b']' (r.close_bracket d)))
            (then_moves (qualifier-moves d q) (print-moves d t h k))
      print-moves d (array t n) h k = then_moves (one b'[' (r.open_bracket d)) (
          then_moves (print-moves (r.in_bracket d) t h.0 k) (
            then_moves (plain-moves (r.in_bracket d) (codes ";") (refl, tt))
              (then_moves (show-moves (r.in_bracket d) n) (one b']' (r.close_bracket d)))))
      print-moves d (function ts u) h k = absurd k
      print-moves d (tuple nil) h k = absurd h
      print-moves d (tuple (cons t nil)) h k = absurd h
      print-moves d (tuple (cons t (cons u ts))) h k = then_moves (one b'(' (r.open_paren d)) (
          then_moves
            (print_all-moves (r.in_paren d) (cons t (cons u ts)) (r.paren_inside k.0 d)
              (h.0, (h.1, h.2)) k.1)
            (one b')' (r.close_paren d)))

      print_all-moves :
          (d : S) (ts : Trees)
          → r.Inside d
          → AllTypes ts
          → AllSimple tuples ts
          → Moves d d (comma_join (print_all ts))
      print_all-moves d nil i h k = stays
      print_all-moves d (cons t nil) i h k = print-moves d t h.0 k.0
      print_all-moves d (cons t (cons u ts)) i h k =
          then_moves (print-moves d t h.0 k.0)
            (then_moves (one b',' (λ cs. r.comma d cs i)) (print_all-moves d (cons u ts) i h.1 k.1))

    -- The same with what follows.
    pub print-reads :
        (d : S) (t : Tree) (rest : Text)
        → IsType t
        → IsSimple tuples t
        → read d (print t ++ rest) ≡ prepend (print t) (read d rest)
    print-reads d t rest h k = (print-moves d t h k).moves rest

    pub print_all-reads :
        (d : S) (ts : Trees) (rest : Text)
        → r.Inside d
        → AllTypes ts
        → AllSimple tuples ts
        → read d (comma_join (print_all ts) ++ rest)
          ≡ prepend (comma_join (print_all ts)) (read d rest)
    print_all-reads d ts rest i h k = (print_all-moves d ts i h k).moves rest

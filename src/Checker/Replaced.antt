-- ===== src/Checker/Replaced.antt =====
-- mort/typechecker.py: `substitute_type` on the text of a type.
use mort.Base.{
  ℕ, zero, suc, ◌<◌, true, false, ◌≡◌, refl, ap, sym, ◌∙◌, subst, List, [], ◌∷◌, ◌++◌, Text,
  text_eq, text_eq→eq, codes, lookup, none, arith, All, Bool-cases, inl, inr, length, length-append,
}
use mort.Base.Result.{Result, ok}
use mort.Checker.Pieces.{function_parts-print, tuple_parts-print, generic_parts-print, name-All}
use mort.Checker.Replace.{tree_or, texts, AllNames, replace, replace_all, IsReadable, AllReadable}
use mort.Checker.Shapes.{
  not_const, IsPlain, name-IsPlain, generic-IsPlain, name-generic_parts, not_bracket,
}
use mort.Checker.Sizes.{array_parts-print}
use mort.Checker.Substitute.{
  substitute_all, named_of, tuple_of, callable_of, mapped_or, substitute_array, substitute_shape,
  substitute_step, substitute_in, substitute_type,
}
use mort.Checker.Trees.{
  Tree, name, generic, ptr, slice, array, function, tuple, Trees, nil, cons, print, print_all,
  is_mark, IsName, IsType, AllTypes,
}
use mort.Checker.Types.{Failure, function_parts, tuple_parts, generic_parts, show}
use mort.Semver.Range.{Digits}
use mort.Parser.State.{join}
use mort.Parser.Types.{comma_join}

-- A text with a mark in it is no parameter.
lookup-none :
    (w : Text) (m : List (Text × Tree))
    → AllNames m
    → (All (λ c. is_mark c ≡ false) w → ⊥)
    → lookup w (texts m) ≡ none
lookup-none w [] a h = refl
lookup-none w ((x, t) ∷ m) a h = elim (Bool-cases (text_eq w x)) [
  | inl e ↦
      absurd (h (subst (All (λ c. is_mark c ≡ false)) (sym (text_eq→eq w x e)) (name-All x a.0)))
  | inr e ↦ rw e (lookup-none w m a.1 h)
]

All-behind : (u v : Text) → All (λ c. is_mark c ≡ false) (u ++ v) → All (λ c. is_mark c ≡ false) v
All-behind [] v h = h
All-behind (c ∷ cs) v h = All-behind cs v h.1

-- What fails the tests on the first characters is a name or a generic type.
plain_shape :
    (u : Digits) (inner : Text → Result Failure Text) (w : Text)
    → IsPlain w
    → substitute_shape inner u w ≡ named_of inner w (generic_parts w)
unfolding substitute_shape function_parts tuple_parts
plain_shape u inner w p = rw (p.no_ptr, p.no_slice, p.no_array, p.no_function, p.no_tuple) refl

-- The texts of the types in a list are shorter than a bound.
abbrev AllWithin : ℕ → Trees → Type 0
AllWithin n nil = Unit {0}
AllWithin n (cons t ts) = (length (print t) < n) × AllWithin n ts

join-AllWithin : (n : ℕ) (ts : Trees) → length (comma_join (print_all ts)) < n → AllWithin n ts
unfolding print join
join-AllWithin n nil h = tt
join-AllWithin n (cons t nil) h = (h, tt)
join-AllWithin n (cons t (cons u ts)) h =
    let j = comma_join (print_all (cons u ts)) in
    (
      omega (arith, h, length-append (print t) (b',' ∷ j)),
      join-AllWithin n (cons u ts) (omega (arith, h, length-append (print t) (b',' ∷ j))),
    )

module _ (u : Digits) (m : List (Text × Tree)) (names : AllNames m) (n : ℕ)
    (inner : Text → Result Failure Text) where
  -- The function for the types inside replaces the parameters of shorter types.
  abbrev Replaces : Type 0
  Replaces =
      (t : Tree)
      → IsType t
      → IsReadable t
      → length (print t) < n
      → inner (print t) ≡ ok (print (replace m t))

  module _ (ih : Replaces) where
    all_replaced :
        (ts : Trees)
        → AllTypes ts
        → AllReadable ts
        → AllWithin n ts
        → substitute_all inner (print_all ts) ≡ ok (print_all (replace_all m ts))
    unfolding print replace IsType IsReadable
    all_replaced nil h r w = refl
    all_replaced (cons t ts) h r w = rw (ih t h.0 r.0 w.0, all_replaced ts h.1 r.1 w.1) refl

    pub name_replaced :
        (x : Text)
        → IsName x
        → substitute_step inner u (texts m) x ≡ ok (print (replace m (name x)))
    unfolding substitute_step substitute_shape replace print
    name_replaced x h = by_lookup m
      where
        plain : substitute_shape inner u x ≡ ok x
        plain =
            plain_shape u inner x (name-IsPlain x h)
            ∙ ap (named_of inner x) (name-generic_parts x h)

        by_lookup :
            (m : List (Text × Tree))
            → mapped_or inner u x (lookup x (texts m)) ≡ ok (print (tree_or (name x) (lookup x m)))
        by_lookup [] = plain
        by_lookup ((y, t) ∷ m) = elim (Bool-cases (text_eq x y)) [
          | inl e ↦ rw e refl
          | inr e ↦ rw e (by_lookup m)
        ]

    -- A type that is no parameter is replaced by its shape.
    by_shape :
        (w v : Text)
        → (All (λ c. is_mark c ≡ false) w → ⊥)
        → substitute_shape inner u w ≡ ok v
        → substitute_step inner u (texts m) w ≡ ok v
    unfolding substitute_step
    by_shape w v h e = ap (mapped_or inner u w) (lookup-none w m names h) ∙ e

    pub step_replaced :
        (t : Tree)
        → IsType t
        → IsReadable t
        → length (print t) < suc n
        → substitute_step inner u (texts m) (print t) ≡ ok (print (replace m t))
    unfolding print replace IsType IsReadable substitute_shape substitute_array function_parts
        tuple_parts
    step_replaced (name x) h r w = name_replaced x h
    step_replaced (generic x nil) h r w = absurd h
    step_replaced (generic x (cons t ts)) h r w =
        let j = comma_join (print_all (cons t ts)) in
        by_shape _ _ (λ a. cc (All-behind x _ a).0)
          (plain_shape u inner _ (generic-IsPlain x (j ++ codes ">") h.0)
            ∙ (ap (named_of inner (x ++ (b'<' ∷ (j ++ codes ">"))))
                  (generic_parts-print x t ts h.0 (h.1, h.2) r.0)
                ∙ rw
                    (all_replaced (cons t ts) (h.1, h.2) r.1
                      (join-AllWithin n (cons t ts) (
                        omega (
                          arith,
                          w,
                          length-append x (b'<' ∷ (j ++ codes ">")),
                          length-append j (codes ">"),
                        ))))
                    refl))
    step_replaced (ptr true t) h r w =
        by_shape _ _ (λ a. cc a.0) (rw (ih t h r (omega (arith, w))) refl)
    step_replaced (ptr false t) h r w =
        by_shape _ _ (λ a. cc a.0) (rw (not_const t h, ih t h r (omega (arith, w))) refl)
    step_replaced (slice true t) h r w =
        by_shape _ _ (λ a. cc a.0) (rw (ih t h r (omega (arith, w))) refl)
    step_replaced (slice false t) h r w =
        by_shape _ _ (λ a. cc a.0) (rw (not_const t h, ih t h r (omega (arith, w))) refl)
    step_replaced (array t k) h r w =
        by_shape _ _ (λ a. cc a.0)
          (rw
            (
              not_bracket t (b';' ∷ (show k ++ codes "]")) h.0,
              array_parts-print u t k h.1,
              ih t h.0 r (omega (arith, w, length-append (print t) (b';' ∷ (show k ++ codes "]")))),
            )
            refl)
    step_replaced (function ts v) h r w =
        by_shape _ _ (λ a. cc a.1.1.0)
          (let j = comma_join (print_all ts) in
            ap (callable_of inner (print (function ts v))) (function_parts-print ts v h.0 r.0)
            ∙ rw
                (
                  all_replaced ts h.0 r.1 (
                      join-AllWithin n ts
                        (omega (arith, w, length-append j (codes ")->" ++ print v)))),
                  ih v h.1 r.2 (omega (arith, w, length-append j (codes ")->" ++ print v))),
                )
                refl)
    step_replaced (tuple nil) h r w = absurd h
    step_replaced (tuple (cons t nil)) h r w = absurd h
    step_replaced (tuple (cons t (cons v ts))) h r w =
        by_shape _ _ (λ a. cc a.0)
          (let j = comma_join (print_all (cons t (cons v ts))) in
            ap (tuple_of inner (print (tuple (cons t (cons v ts)))))
              (tuple_parts-print t v ts (h.0, (h.1, h.2)) r.0)
            ∙ rw
                (all_replaced (cons t (cons v ts)) (h.0, (h.1, h.2)) r.1
                  (join-AllWithin n (cons t (cons v ts))
                    (omega (arith, w, length-append j (codes ")")))))
                refl)

in_replaced :
    (u : Digits) (m : List (Text × Tree)) (names : AllNames m) (n : ℕ) (t : Tree)
    → IsType t
    → IsReadable t
    → length (print t) < n
    → substitute_in u n (texts m) (print t) ≡ ok (print (replace m t))
unfolding substitute_in
in_replaced u m names zero t h r w = absurd (omega (arith, w))
in_replaced u m names (suc n) t h r w =
    step_replaced u m names n (substitute_in u n (texts m)) (in_replaced u m names n) t h r w

-- On the text of a type in which parameters of function types and elements of tuple types hold no function type
-- and arguments of generic types hold neither those nor tuple types, `substitute_type` gives the text of the type
-- with its parameters replaced.
pub substitute_type-print :
    (u : Digits) (m : List (Text × Tree)) (t : Tree)
    → AllNames m
    → IsType t
    → IsReadable t
    → substitute_type u (print t) (texts m) ≡ ok (print (replace m t))
unfolding substitute_type
substitute_type-print u m t names h r =
    in_replaced u m names (suc (length (print t))) t h r (omega arith)

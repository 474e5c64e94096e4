-- ===== src/Registry/Payload.antt =====
-- mort/registry_security.py: payloads of entries, and the hash before them that they name.
use mort.Base.{
  Bool, true, false, ◌&&◌, ◌≡◌, refl, sym, ◌∙◌, subst, if◌then◌else◌, Text, text_eq, text_eq→eq,
  codes, arith,
}
use mort.Registry.Json.{
  Json, text, object, Fields, end, field, get, has, all_in, without, is_text, same,
}
use mort.Registry.Guards.{text_same}

-- Two names differ, so that leaving one out keeps what the other names.
get-without :
    (name left : Text) (fs : Fields)
    → text_eq name left ≡ false
    → get name (without left fs) ≡ get name fs
unfolding get without
get-without name left end h = refl
get-without name left (field k v fs) h =
    by_tests (text_eq k left) (text_eq name k) refl refl (get-without name left fs h)
  where
    by_tests :
        (a b : Bool)
        → text_eq k left ≡ a
        → text_eq name k ≡ b
        → get name (without left fs) ≡ get name fs
        → get name (if a then without left fs else field k v (without left fs))
          ≡ (if b then v else get name fs)
    by_tests true true x y i =
        let e : k ≡ left = text_eq→eq k left x in
        let f : name ≡ k = text_eq→eq name k y in
        absurd (cc (subst (λ z. text_eq name z ≡ true) e y, h))
    by_tests true false x y i = i
    by_tests false true x y i = rw y refl
    by_tests false false x y i = rw y i

-- What one dict has as a text, a dict that is the same has too.
same-get :
    (name t : Text) (fs gs : Fields)
    → all_in fs gs ≡ true
    → is_text (get name fs) t ≡ true
    → is_text (get name gs) t ≡ true
unfolding all_in get same
same-get name t end gs h i = absurd (cc i)
same-get name t (field k v fs) gs h i = by_test (text_eq name k) refl i (same-get name t fs gs)
  where
    parts : (a b c : Bool) → (a && (b && c)) ≡ true → (b ≡ true) × (c ≡ true)
    parts a b c e = ground arith

    same_text : (a b : Json) → is_text a t ≡ true → same a b ≡ true → is_text b t ≡ true
    same_text (text a) (text b) x y = subst (λ z. text_eq z t ≡ true) (text_eq→eq a b y) x
    same_text (text a) _ x y = absurd (cc y)
    same_text _ b x y = absurd (cc x)

    by_test :
        (b : Bool)
        → text_eq name k ≡ b
        → is_text (if b then v else get name fs) t ≡ true
        → (all_in fs gs ≡ true → is_text (get name fs) t ≡ true → is_text (get name gs) t ≡ true)
        → is_text (get name gs) t ≡ true
    by_test true e x rest =
        let here : is_text (get k gs) t ≡ true =
          same_text v (get k gs) x (parts (has k gs) (same v (get k gs)) (all_in fs gs) h).0 in
        subst (λ z. is_text (get z gs) t ≡ true) (sym (text_eq→eq name k e)) here
    by_test false e x rest = rest (parts (has k gs) (same v (get k gs)) (all_in fs gs) h).1 x

abbrev pub payload : Fields → Json
payload entry = object (without (codes "entry_hash") entry)

-- Payloads that are the same name the same hash before them.
pub payload-previous :
    (f g : Fields) (s t : Text)
    → same (payload f) (payload g) ≡ true
    → is_text (get (codes "previous_hash") f) s ≡ true
    → is_text (get (codes "previous_hash") g) t ≡ true
    → s ≡ t
unfolding same
payload-previous f g s t h x y =
    let kept : (fs : Fields)
        → get (codes "previous_hash") (without (codes "entry_hash") fs)
          ≡ get (codes "previous_hash") fs =
      λ fs. get-without (codes "previous_hash") (codes "entry_hash") fs refl in
    let x2 : is_text (get (codes "previous_hash") (without (codes "entry_hash") f)) s ≡ true =
      subst (λ z. is_text z s ≡ true) (sym (kept f)) x in
    let x3 =
      same-get (codes "previous_hash") s (without (codes "entry_hash") f)
        (without (codes "entry_hash") g) (second _ _ h) x2 in
    let x4 : is_text (get (codes "previous_hash") g) s ≡ true =
      subst (λ z. is_text z s ≡ true) (kept g) x3 in
    of_text (
      sym (text_same s (get (codes "previous_hash") g) x4)
      ∙ text_same t (get (codes "previous_hash") g) y)
  where
    second : (a b : Bool) → (a && b) ≡ true → b ≡ true
    second a b e = ground arith

    of_text : text s ≡ text t → s ≡ t
    of_text e = cc e

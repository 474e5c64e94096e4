-- ===== src/Semver/Maximum.antt =====
-- mort/project.py: what `select_semver` chooses.
use mathlib.Core.List.{Memᴰ}
use mathlib.Core.List.Memᴰ.{head, tail}
use mort.Base.{
  ◌≡◌, refl, ap, sym, ◌∙◌, subst, Bool, true, false, List, [], ◌∷◌, ◌⊎◌, inl, inr, Text, All,
}
use mort.Base.Result.{Result, ok, raise, out_of_fuel, bind-ok}
use mort.Semver.Compare.{Sign, minus_one, same, one, compare_semver}
use mort.Semver.Order.{compare_semver_trans}
use mort.Semver.Parsed.{parsed-Opposite}
use mort.Semver.Range.{Digits, semver_satisfies}
use mort.Semver.Same.{compare_semver_iff}
use mort.Semver.Select.{cons_if, compare_texts, max_from, matches, max_of, select_semver}
use mort.Semver.Swap.{Opposite, answers, fails}
use mort.Semver.Version.{Failure, Version, parse_semver}

-- Both texts are versions, and the first is not behind the second.
pub AtMost : Text → Text → Type 0
AtMost s t =
    (v : Version) × (w : Version) × (parse_semver s ≡ ok v)
    × (parse_semver t ≡ ok w)
    × ((compare_semver v w ≡ ok minus_one) ⊎ (v ≡ w))

value_or : Version → Result Failure Version → Version
value_or d (ok v) = v
value_or d (raise e) = d
value_or d out_of_fuel = d

-- A text has one version.
one_version : (r : Result Failure Version) (v w : Version) → r ≡ ok v → r ≡ ok w → v ≡ w
unfolding value_or
one_version r v w h k = ap (value_or v) (sym h ∙ k)

below_or_same :
    (u v w : Version)
    → (compare_semver u v ≡ ok minus_one) ⊎ (u ≡ v)
    → (compare_semver v w ≡ ok minus_one) ⊎ (v ≡ w)
    → (compare_semver u w ≡ ok minus_one) ⊎ (u ≡ w)
below_or_same u v w (inl h) (inl k) = inl (compare_semver_trans u v w h k)
below_or_same u v w (inl h) (inr e) = inl (subst (λ x. compare_semver u x ≡ ok minus_one) e h)
below_or_same u v w (inr e) (inl k) = inl (subst (λ x. compare_semver x w ≡ ok minus_one) (sym e) k)
below_or_same u v w (inr e) (inr f) = inr (e ∙ f)

AtMost-trans : (s t r : Text) → AtMost s t → AtMost t r → AtMost s r
unfolding AtMost
AtMost-trans s t r (u, v, p, q, h) (v', w, p', q', k) =
    let e = one_version (parse_semver t) v' v p' q in
    (
      u,
      w,
      p,
      q',
      below_or_same u v w h (subst (λ x. (compare_semver x w ≡ ok minus_one) ⊎ (x ≡ w)) e k),
    )

swapped_one : (a b : Result Failure Sign) → Opposite a b → a ≡ ok one → b ≡ ok minus_one
swapped_one _ _ (answers minus_one) e = absurd (cc e)
swapped_one _ _ (answers same) e = absurd (cc e)
swapped_one _ _ (answers one) e = refl
swapped_one _ _ fails e = absurd (cc e)

-- What an answer of the comparison says of the two texts.
abbrev Ordered : Sign → Text → Text → Type 0
Ordered one s t = AtMost t s
Ordered minus_one s t = AtMost s t
Ordered same s t = AtMost s t

compare_texts-Ordered :
    (s t : Text) (c : Sign) → compare_texts s t ≡ ok c → (Ordered c s t) × AtMost s s × AtMost t t
unfolding compare_texts AtMost
compare_texts-Ordered s t c h =
    let a = bind-ok (parse_semver s) _ c h in
    let b = bind-ok (parse_semver t) _ c a.2 in
    let v = a.0 in
    let w = b.0 in
    let p = a.1 in
    let q = b.1 in (by_sign c v w p q b.2, (v, v, p, p, inr refl), (w, w, q, q, inr refl))
  where
    by_sign :
        (c : Sign) (v w : Version)
        → parse_semver s ≡ ok v
        → parse_semver t ≡ ok w
        → compare_semver v w ≡ ok c
        → Ordered c s t
    by_sign one v w p q e = (w, v, q, p, inl (swapped_one _ _ (parsed-Opposite s t v w p q) e))
    by_sign same v w p q e = (v, w, p, q, inr ((compare_semver_iff v w).0 e))
    by_sign minus_one v w p q e = (v, w, p, q, inl e)

abbrev later : Sign → Text → Text → Text
later c s best = elim c [ one ↦ s | _ ↦ best ]

-- The text that the loop keeps is not before the old one, and not before the new one.
later-AtMost :
    (c : Sign) (s best : Text)
    → Ordered c s best
    → AtMost s s
    → AtMost best best
    → AtMost s (later c s best) × AtMost best (later c s best)
later-AtMost one s best o p q = (p, o)
later-AtMost same s best o p q = (o, q)
later-AtMost minus_one s best o p q = (o, q)

past_second : (b s r : Text) (ss : List Text) → Memᴰ r (b ∷ ss) → Memᴰ r (b ∷ (s ∷ ss))
past_second b s r ss (head e) = head e
past_second b s r ss (tail m) = tail (tail m)

later-Mem :
    (c : Sign) (s best r : Text) (ss : List Text)
    → Memᴰ r (later c s best ∷ ss)
    → Memᴰ r (best ∷ (s ∷ ss))
later-Mem one s best r ss m = tail m
later-Mem same s best r ss m = past_second best s r ss m
later-Mem minus_one s best r ss m = past_second best s r ss m

-- The text that `max` gives is one of the list, and no other of it is behind.
max_from-Greatest :
    (best r : Text) (ss : List Text)
    → AtMost best best
    → max_from best ss ≡ ok r
    → Memᴰ r (best ∷ ss) × AtMost best r × All (λ s. AtMost s r) ss
unfolding max_from
max_from-Greatest best r [] p h = by_eq (cc h)
  where
    by_eq : best ≡ r → Memᴰ r (best ∷ []) × AtMost best r × Unit {0}
    by_eq e = (head (sym e), subst (λ t. AtMost best t) e p, tt)
max_from-Greatest best r (s ∷ ss) p h =
    let (c, e, k) = bind-ok (compare_texts s best) _ r h in
    let (o, q, _) = compare_texts-Ordered s best c e in
    let (x, y) = later-AtMost c s best o q p in
    let (m, z, rest) = max_from-Greatest (later c s best) r ss (later_refl c s best q p) k in
    (later-Mem c s best r ss m, AtMost-trans best _ r y z, (AtMost-trans s _ r x z, rest))
  where
    later_refl :
        (c : Sign) (s best : Text)
        → AtMost s s
        → AtMost best best
        → AtMost (later c s best) (later c s best)
    later_refl one s best q p = q
    later_refl same s best q p = p
    later_refl minus_one s best q p = p

module _ (u : Digits) where
  -- The first list's items that lie in the range, in their order, are the second.
  data Filtered (constraint : Text) : List Text → List Text → Type 0 where
    empty : Filtered constraint [] []
    keep :
        {s : Text} {ss found : List Text}
        → semver_satisfies u s constraint ≡ ok true
        → Filtered constraint ss found
        → Filtered constraint (s ∷ ss) (s ∷ found)
    drop :
        {s : Text} {ss found : List Text}
        → semver_satisfies u s constraint ≡ ok false
        → Filtered constraint ss found
        → Filtered constraint (s ∷ ss) found

  matches-Filtered :
      (constraint : Text) (ss found : List Text)
      → matches u ss constraint ≡ ok found
      → Filtered constraint ss found
  unfolding matches
  matches-Filtered constraint [] found h = by_eq found (cc h)
    where
      by_eq : (found : List Text) → [] ≡ found → Filtered constraint [] found
      by_eq found e = subst (Filtered constraint []) e empty
  matches-Filtered constraint (s ∷ ss) found h =
      let (b, e, k) = bind-ok (semver_satisfies u s constraint) _ found h in
      let (rest, f, g) = bind-ok (matches u ss constraint) _ found k in
      subst (Filtered constraint (s ∷ ss)) (cc g)
        (by_test b rest e (matches-Filtered constraint ss rest f))
    where
      by_test :
          (b : Bool) (rest : List Text)
          → semver_satisfies u s constraint ≡ ok b
          → Filtered constraint ss rest
          → Filtered constraint (s ∷ ss) (cons_if b s rest)
      by_test true rest e r = keep e r
      by_test false rest e r = drop e r

  satisfied-AtMost : (s constraint : Text) → semver_satisfies u s constraint ≡ ok true → AtMost s s
  unfolding semver_satisfies AtMost
  satisfied-AtMost s constraint h =
      let (v, e, k) = bind-ok (parse_semver s) _ true h in (v, v, e, e, inr refl)

  -- What holds of the text chosen among those in the range.
  pub Chosen : Text → Text → List Text → Type 0
  Chosen constraint r versions =
      (semver_satisfies u r constraint ≡ ok true)
      × Memᴰ r versions
      × All (λ s. semver_satisfies u s constraint ≡ ok true → AtMost s r) versions

  found-satisfied :
      {constraint : Text} {versions found : List Text}
      → Filtered constraint versions found
      → (r : Text) → Memᴰ r found
      → (semver_satisfies u r constraint ≡ ok true) × Memᴰ r versions
  found-satisfied empty r m = elim m [ ]
  found-satisfied {constraint} (keep e f) r (head p) =
      (subst (λ t. semver_satisfies u t constraint ≡ ok true) (sym p) e, head p)
  found-satisfied (keep e f) r (tail m) = let (h, n) = found-satisfied f r m in (h, tail n)
  found-satisfied (drop e f) r m = let (h, n) = found-satisfied f r m in (h, tail n)

  found-All :
      {constraint : Text} {versions found : List Text}
      → Filtered constraint versions found
      → (r : Text) → All (λ s. AtMost s r) found
      → All (λ s. semver_satisfies u s constraint ≡ ok true → AtMost s r) versions
  found-All empty r a = tt
  found-All (keep e f) r a = (λ _. a.0, found-All f r a.1)
  found-All (drop e f) r a = (λ h. absurd (cc h), found-All f r a)

  -- `select_semver` gives a text of the list that lies in the range, and each other text of the list
  -- that lies in it is a version equal to it or before it.
  pub select_semver-Chosen :
      (versions : List Text) (constraint r : Text)
      → select_semver u versions constraint ≡ ok r
      → Chosen constraint r versions
  unfolding select_semver Chosen
  select_semver-Chosen versions constraint r h =
      let (found, e, k) = bind-ok (matches u versions constraint) _ r h in
      from_found found (matches-Filtered constraint versions found e) k
    where
      from_found :
          (found : List Text)
          → Filtered constraint versions found
          → max_of found ≡ ok r
          → (semver_satisfies u r constraint ≡ ok true)
            × Memᴰ r versions
            × All (λ s. semver_satisfies u s constraint ≡ ok true → AtMost s r) versions
      from_found [] f k = absurd (cc k)
      from_found (s ∷ ss) f k =
          let (g, _) = found-satisfied f s (head refl) in
          let (m, a, b) = max_from-Greatest s r ss (satisfied-AtMost s constraint g) k in
          let (h, n) = found-satisfied f r m in (h, n, found-All f r (a, b))

-- ===== src/Mkfs/Spec.antt =====
-- kernel/mkfs.py: a spec of the command line that has a name.
use mort.Base.{
  ℕ, suc, ◌≤◌, ltb, ◌==◌, ◌≡◌, refl, ap, ◌∙◌, [], ◌∷◌, ◌++◌, length, arith, Text, some, none, elem,
  true, false,
}
use mort.Mkfs.Seeds.{rfind, split_at, split_spec, or_basename, parse_add}
use mort.Mkfs.Slices.{take-length, drop_past}

rfind-none : (c : ℕ) (s : Text) → elem c s ≡ false → rfind c s ≡ none
unfolding rfind
rfind-none c [] h = refl
rfind-none c (d ∷ ds) h = ground (arith, rfind-none c ds)

same_char : (c : ℕ) → (c == c) ≡ true
same_char c = ground arith

-- The last separator stands behind the first part.
rfind_last : (c : ℕ) (s t : Text) → elem c t ≡ false → rfind c (s ++ (c ∷ t)) ≡ some (length s)
unfolding rfind
rfind_last c [] t h = rw (rfind-none c t h, same_char c) refl
rfind_last c (d ∷ ds) t h = rw (rfind_last c ds t h) refl

long : (n : ℕ) → 2 ≤ n → ltb 1 n ≡ true
long n h = ground arith

split_spec-split :
    (host t : Text)
    → 2 ≤ length host
    → elem b':' t ≡ false
    → split_spec (host ++ (b':' ∷ t)) ≡ (host, t)
split_spec-split host t h k =
    ap (split_at (host ++ (b':' ∷ t))) (rfind_last b':' host t k)
    ∙ rw
        (
          long (length host) h,
          take-length host (b':' ∷ t),
          drop_past (suc (length host)) 1 host (b':' ∷ t) (omega arith),
        )
        refl

-- A host of two or more characters, a colon and a name without colon are split into the host and the name.
pub parse_add-split :
    (host : Text) (c : ℕ) (cs : Text)
    → 2 ≤ length host
    → elem b':' (c ∷ cs) ≡ false
    → parse_add (host ++ (b':' ∷ (c ∷ cs))) ≡ (host, c ∷ cs)
unfolding parse_add
parse_add-split host c cs h k =
    ap (λ p. (p.0, or_basename p.0 p.1)) (split_spec-split host (c ∷ cs) h k)

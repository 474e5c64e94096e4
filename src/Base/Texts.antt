-- ===== src/Base/Texts.antt =====
-- A Python `str` as the list of its code points.
use Prim.Native.Char.{code}
use Prim.Native.Nat.{ℕ}
use Prim.Native.String.{String}
use mathlib.Core.Path.{◌≡◌, refl}
use mathlib.Core.Bool.{Bool, true, false, ◌&&◌, ◌||◌}
use mathlib.Core.List.{List, [], ◌∷◌}
use mathlib.Core.Option.{Option, none, some}
use mathlib.Core.Logic.{inl, inr}
use native.Mathlib.Omega.{arith}
use mort.Base.Tests.{◌==◌, if◌then◌else◌, Bool-cases, and-eq-true}

abbrev pub Text : Type 0
Text = List ℕ

abbrev pub codes : String → Text
codes String.[] = []
codes (String.◌∷◌ c s) = code c ∷ codes s

-- `s == t`
abbrev pub text_eq : Text → Text → Bool
text_eq [] [] = true
text_eq [] (y ∷ ys) = false
text_eq (x ∷ xs) [] = false
text_eq (x ∷ xs) (y ∷ ys) = x == y && text_eq xs ys

-- `c in s`, for one character
abbrev pub elem : ℕ → Text → Bool
elem c [] = false
elem c (x ∷ xs) = c == x || elem c xs

-- `s.replace(c, "")`, for one character
abbrev pub remove : ℕ → Text → Text
remove c [] = []
remove c (x ∷ xs) = let rest = remove c xs in if c == x then rest else x ∷ rest

pub text_eq→eq : (s t : Text) → text_eq s t ≡ true → s ≡ t
text_eq→eq [] [] h = refl
text_eq→eq [] (y ∷ ys) h = ground arith
text_eq→eq (x ∷ xs) [] h = ground arith
text_eq→eq (x ∷ xs) (y ∷ ys) h = ground (arith, text_eq→eq xs ys)

pub text_eq_refl : (s : Text) → text_eq s s ≡ true
text_eq_refl [] = refl
text_eq_refl (x ∷ xs) = ground (arith, text_eq_refl xs)

-- A dictionary with text keys, as the list of its items in order.
abbrev pub lookup {ℓ} : {V : Type ℓ} → Text → List (Text × V) → Option V
lookup k [] = none
lookup k ((j, v) ∷ m) = if text_eq k j then some v else lookup k m

-- A test of every key.
abbrev pub all_keys {ℓ} : {V : Type ℓ} → (Text → Bool) → List (Text × V) → Bool
all_keys test [] = true
all_keys test ((j, v) ∷ m) = test j && all_keys test m

pub all_keys-lookup {ℓ} :
    {V : Type ℓ} (test : Text → Bool) (k : Text) {v : V} (m : List (Text × V))
    → all_keys test m ≡ true
    → lookup k m ≡ some v
    → test k ≡ true
all_keys-lookup test k [] h e = cc
all_keys-lookup test k ((j, w) ∷ m) h e = elim (Bool-cases (text_eq k j)) [
  | inl same ↦ rw (text_eq→eq k j same) (and-eq-true _ _ h).0
  | inr other ↦ all_keys-lookup test k m (and-eq-true (test j) _ h).1 (rw other at e)
]

-- `s.startswith(w)`
abbrev pub starts : Text → Text → Bool
starts [] s = true
starts (x ∷ xs) [] = false
starts (x ∷ xs) (y ∷ ys) = x == y && starts xs ys

-- ===== src/Registry/Json.antt =====
-- mort/registry_security.py: JSON values as Python has them, without numbers that have a fraction.
use mort.Base.{
  ℕ, suc, Bool, true, false, ◌&&◌, ◌||◌, List, [], ◌∷◌, if◌then◌else◌, ◌==◌, Text, text_eq,
}
use mort.Base.Int.{ℤ, pos, negsuc}

mutual
  pub data Json : Type 0 where
    null : Json
    bool : Bool → Json
    int : ℤ → Json
    text : Text → Json
    array : Items → Json
    object : Fields → Json

  pub data Items : Type 0 where
    nil : Items
    cons : Json → Items → Items

  -- The fields of a dict, each name once.
  pub data Fields : Type 0 where
    end : Fields
    field : Text → Json → Fields → Fields

-- `entry.get(name)`, with `None` as null.
unfoldable pub get : Text → Fields → Json
get name end = null
get name (field k v fs) = let rest = get name fs in if text_eq name k then v else rest

unfoldable pub has : Text → Fields → Bool
has name end = false
has name (field k v fs) = text_eq name k || has name fs

unfoldable pub count : Fields → ℕ
count end = 0
count (field k v fs) = suc (count fs)

unfoldable pub has_all : List Text → Fields → Bool
has_all [] fs = true
has_all (k ∷ ks) fs = has k fs && has_all ks fs

unfoldable pub names_in : Fields → List Text → Bool
names_in end ks = true
names_in (field k v fs) ks = is_name k ks && names_in fs ks
  where
    is_name : Text → List Text → Bool
    is_name k [] = false
    is_name k (j ∷ js) = text_eq k j || is_name k js

-- `set(entry) == {...}`
unfoldable pub has_exactly : Fields → List Text → Bool
has_exactly fs ks = has_all ks fs && names_in fs ks

-- `{key: value for key, value in entry.items() if key != name}`
unfoldable pub without : Text → Fields → Fields
without name end = end
without name (field k v fs) =
    let rest = without name fs in if text_eq k name then rest else field k v rest

abbrev pub is_text : Json → Text → Bool
is_text (text s) t = text_eq s t
is_text _ t = false

abbrev pub same_int : ℤ → ℤ → Bool
same_int (pos a) (pos b) = a == b
same_int (negsuc a) (negsuc b) = a == b
same_int _ _ = false

-- The number that a bool is in a comparison.
abbrev pub as_int : Bool → ℤ
as_int true = pos 1
as_int false = pos 0

-- `a == b` of Python: a bool is a number, and the order of the fields of a dict does not matter.
unfoldable mutual
  pub same : Json → Json → Bool
  same null null = true
  same (bool a) (bool b) = same_int (as_int a) (as_int b)
  same (bool a) (int b) = same_int (as_int a) b
  same (int a) (bool b) = same_int a (as_int b)
  same (int a) (int b) = same_int a b
  same (text a) (text b) = text_eq a b
  same (array xs) (array ys) = same_items xs ys
  same (object fs) (object gs) = count fs == count gs && all_in fs gs
  same _ _ = false

  pub same_items : Items → Items → Bool
  same_items nil nil = true
  same_items nil (cons y ys) = false
  same_items (cons x xs) nil = false
  same_items (cons x xs) (cons y ys) = same x y && same_items xs ys

  pub all_in : Fields → Fields → Bool
  all_in end gs = true
  all_in (field k v fs) gs = has k gs && (same v (get k gs) && all_in fs gs)

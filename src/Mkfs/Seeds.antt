-- ===== src/Mkfs/Seeds.antt =====
-- kernel/mkfs.py: the files that seed an image, read and validated.
use mort.Base.{
  ℕ, suc, ltb, leb, Bool, true, false, not, ◌&&◌, ◌||◌, List, [], ◌∷◌, ◌++◌, if◌then◌else◌, ◌==◌,
  Text, text_eq, length, take, drop, Option, none, some,
}
use mort.Base.Result.{Result, ok, raise, ◌>>=◌}
use mort.Mkfs.Bytes.{Bytes, Exit, bad_name, duplicate_name, cannot_read, too_big}

abbrev pub max_name : ℕ
max_name = 23

abbrev pub max_size : ℕ
max_size = 65536

-- `spec.rfind(":")`, none where it is -1
unfoldable pub rfind : ℕ → Text → Option ℕ
rfind c [] = none
rfind c (d ∷ ds) = elim (rfind c ds) [
  | some i ↦ some (suc i)
  | none ↦ if d == c then some 0 else none
]

-- `os.path.basename`, where the separator is a slash
unfoldable pub basename : Text → Text
basename path = elim (rfind b'/' path) [ some i ↦ drop (suc i) path | none ↦ path ]

-- Host and name of a spec, before the name's default.
abbrev pub split_at : Text → Option ℕ → Text × Text
split_at spec none = (spec, [])
split_at spec (some i) = if ltb 1 i then (take i spec, drop (suc i) spec) else (spec, [])

abbrev pub split_spec : Text → Text × Text
split_spec spec = split_at spec (rfind b':' spec)

abbrev pub or_basename : Text → Text → Text
or_basename host [] = basename host
or_basename host (c ∷ cs) = c ∷ cs

unfoldable pub parse_add : Text → Text × Text
parse_add spec = let (host, name) = split_spec spec in (host, or_basename host name)

-- A spec of the command line, or a pair.
pub data Spec : Type 0 where
  text : Text → Spec
  pair : Text → Text → Spec

abbrev pub host_and_name : Spec → Text × Text
host_and_name (text spec) = parse_add spec
host_and_name (pair host name) = (host, name)

-- `name.isascii()` and `name.isprintable()`
unfoldable pub all_printable : Text → Bool
all_printable [] = true
all_printable (c ∷ cs) = (leb 32 c && leb c 126) && all_printable cs

abbrev pub is_empty : Text → Bool
is_empty [] = true
is_empty (c ∷ cs) = false

unfoldable pub good_name : Text → Bool
good_name name = not (is_empty name) && (leb (length name) max_name && all_printable name)

unfoldable pub is_seen : Text → List Text → Bool
is_seen name [] = false
is_seen name (s ∷ ss) = text_eq name s || is_seen name ss

abbrev pub cons_line : ℕ → Bytes → Bytes
cons_line c [] = c ∷ []
cons_line c (d ∷ ds) = if c == 13 && d == 10 then d ∷ ds else c ∷ (d ∷ ds)

-- `content.replace(b"\r\n", b"\n")`
unfoldable pub to_lf : Bytes → Bytes
to_lf [] = []
to_lf (c ∷ []) = c ∷ []
to_lf (c ∷ (d ∷ ds)) = let rest = to_lf (d ∷ ds) in if c == 13 && d == 10 then rest else c ∷ rest

abbrev pub File : Type 0
File = Text × Bytes

abbrev pub normalized : Bool → Bytes → Bytes
normalized true content = to_lf content
normalized false content = content

module _ (read : Text → Option Bytes) where
  -- One round of the loop over the specs; `read` is the host's files.
  unfoldable pub seed_file : List Text → Spec → Bool → Result Exit File
  seed_file seen spec normalize =
      let (host, name) = host_and_name spec in
      if not (good_name name)
      then raise bad_name
      else if is_seen name seen
      then raise duplicate_name
      else elim (read host) [
        | none ↦ raise cannot_read
        | some bytes ↦
            if ltb max_size (length (normalized normalize bytes))
            then raise too_big
            else ok (name, normalized normalize bytes)
      ]

  unfoldable pub seed_files : List Text → List (Spec × Bool) → Result Exit (List File)
  seed_files seen [] = ok []
  seed_files seen ((spec, normalize) ∷ specs) = do
    file ← seed_file seen spec normalize
    files ← seed_files (file.0 ∷ seen) specs
    ok (file ∷ files)

abbrev pub marked_as : Bool → List Spec → List (Spec × Bool)
marked_as normalize [] = []
marked_as normalize (s ∷ ss) = (s, normalize) ∷ marked_as normalize ss

-- `[(s, True) for s in adds] + [(s, False) for s in bins]`
abbrev pub all_specs : List Spec → List Spec → List (Spec × Bool)
all_specs adds bins = marked_as true adds ++ marked_as false bins

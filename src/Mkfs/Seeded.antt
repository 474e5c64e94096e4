-- ===== src/Mkfs/Seeded.antt =====
-- kernel/mkfs.py: the files that pass the validation of `make`.
use mort.Base.{
  ℕ, zero, suc, ◌+◌, ◌≤◌, ◌<◌, ◌==◌, get_or, ltb, leb, ◌≡◌, ◌≢◌, refl, ap, sym, ◌∙◌, subst, Bool,
  true, false, not, ◌&&◌, ◌||◌, ◌⊎◌, inl, inr, List, [], ◌∷◌, length, All, arith, Text, text_eq,
  Bool-cases, Option, none, some, or_left, or_right, if◌then◌else◌,
}
use mort.Base.Result.{Result, ok, raise, out_of_fuel, ◌>>=◌, bind-ok}
use mort.Mkfs.Bytes.{Bytes, Exit, bad_name, duplicate_name, cannot_read, too_big}
use mort.Mkfs.Layout.{Fits}
use mort.Mkfs.Seeds.{
  Spec, File, good_name, is_seen, host_and_name, normalized, to_lf, seed_file, seed_files, max_size,
}

-- A file with a name of 1 to 23 printable characters of ASCII, and content that an extent holds.
pub record Named (name : Text) (content : Bytes) : Type 0 where
  pub good : good_name name ≡ true
  pub fits : Fits (name, content)

-- No name is in the list or stands twice.
abbrev pub Distinct : List Text → List File → Type 0
Distinct seen [] = Unit {0}
Distinct seen ((name, content) ∷ files) = (is_seen name seen ≡ false) × Distinct (name ∷ seen) files

abbrev pub AllNamed : List File → Type 0
AllNamed [] = Unit {0}
AllNamed ((name, content) ∷ files) = Named name content × AllNamed files

-- The bytes with each carriage return that a newline follows left out.
pub data IsLf : Bytes → Bytes → Type 0 where
  nil : IsLf [] []
  crlf : {bytes content : Bytes} → IsLf (10 ∷ bytes) content → IsLf (13 ∷ (10 ∷ bytes)) content
  other :
      {c : ℕ} {bytes content : Bytes}
      → (c == 13 && get_or bytes 0 0 == 10) ≡ false
      → IsLf bytes content
      → IsLf (c ∷ bytes) (c ∷ content)

-- The bytes of a host file as they are stored.
pub data IsContent : Bool → Bytes → Bytes → Type 0 where
  text_file : {bytes content : Bytes} → IsLf bytes content → IsContent true bytes content
  binary : {bytes : Bytes} → IsContent false bytes bytes

-- The file of a spec: its name, and what the host has under its path.
pub record From (read : Text → Option Bytes) (normalize : Bool) (spec : Spec) (name : Text)
    (content : Bytes) : Type 0 where
  pub bytes : Bytes
  pub name_is : name ≡ (host_and_name spec).1
  pub read_is : read (host_and_name spec).0 ≡ some bytes
  pub is_content : IsContent normalize bytes content

-- One file for each spec, in their order.
pub data AllFrom (read : Text → Option Bytes) : List (Spec × Bool) → List File → Type 0 where
  none_left : AllFrom read [] []
  next :
      {spec : Spec} {normalize : Bool} {name : Text} {content : Bytes} {specs : List (Spec × Bool)}
      {files : List File}
      → From read normalize spec name content
      → AllFrom read specs files
      → AllFrom read ((spec, normalize) ∷ specs) ((name, content) ∷ files)

-- Why a spec is refused, with the names before it: its name, its path, or its content; or a spec behind it.
pub data Refused (read : Text → Option Bytes) : List Text → List (Spec × Bool) → Exit → Type 0 where
  misnamed :
      {seen : List Text} {spec : Spec} {normalize : Bool} {specs : List (Spec × Bool)}
      → good_name (host_and_name spec).1 ≡ false
      → Refused read seen ((spec, normalize) ∷ specs) bad_name
  twice :
      {seen : List Text} {spec : Spec} {normalize : Bool} {specs : List (Spec × Bool)}
      → is_seen (host_and_name spec).1 seen ≡ true
      → Refused read seen ((spec, normalize) ∷ specs) duplicate_name
  unreadable :
      {seen : List Text} {spec : Spec} {normalize : Bool} {specs : List (Spec × Bool)}
      → read (host_and_name spec).0 ≡ none
      → Refused read seen ((spec, normalize) ∷ specs) cannot_read
  large :
      {seen : List Text} {spec : Spec} {normalize : Bool} {specs : List (Spec × Bool)}
      {content : Bytes}
      → From read normalize spec (host_and_name spec).1 content
      → 65536 < length content
      → Refused read seen ((spec, normalize) ∷ specs) too_big
  later :
      {seen : List Text} {spec : Spec} {normalize : Bool} {specs : List (Spec × Bool)} {e : Exit}
      → Refused read ((host_and_name spec).1 ∷ seen) specs e
      → Refused read seen ((spec, normalize) ∷ specs) e

good-length : (name : Text) → good_name name ≡ true → length name ≤ 23
unfolding good_name
good-length name h = ground arith

Small-test : (n : ℕ) → ltb max_size n ≡ false → n ≤ 65536
Small-test n h = ground arith

Large-test : (n : ℕ) → ltb max_size n ≡ true → 65536 < n
Large-test n h = ground arith

to_lf-IsLf : (bytes : Bytes) → IsLf bytes (to_lf bytes)
unfolding to_lf
to_lf-IsLf [] = nil
to_lf-IsLf (c ∷ []) = other (ground arith) nil
to_lf-IsLf (c ∷ (d ∷ ds)) = by_test (c == 13 && d == 10) refl (to_lf-IsLf (d ∷ ds))
  where
    both : (c == 13 && d == 10) ≡ true → 13 ∷ (10 ∷ ds) ≡ c ∷ (d ∷ ds)
    both e = ground (arith, e)

    tail : (c == 13 && d == 10) ≡ true → d ∷ ds ≡ 10 ∷ ds
    tail e = ground (arith, e)

    by_test :
        (b : Bool)
        → (c == 13 && d == 10) ≡ b
        → IsLf (d ∷ ds) (to_lf (d ∷ ds))
        → IsLf (c ∷ (d ∷ ds)) (if b then to_lf (d ∷ ds) else c ∷ to_lf (d ∷ ds))
    by_test true e l =
        subst (λ z. IsLf z (to_lf (d ∷ ds))) (both e)
          (crlf (subst (λ z. IsLf z (to_lf (d ∷ ds))) (tail e) l))
    by_test false e l = other e l

normalized-IsContent :
    (normalize : Bool) (bytes : Bytes) → IsContent normalize bytes (normalized normalize bytes)
normalized-IsContent true bytes = text_file (to_lf-IsLf bytes)
normalized-IsContent false bytes = binary

module _ (read : Text → Option Bytes) where
  data Seed (seen : List Text) (spec : Spec) (normalize : Bool) : Result Exit File → Type 0 where
    seed :
        {name : Text} {content : Bytes}
        → Named name content
        → is_seen name seen ≡ false
        → From read normalize spec name content
        → Seed seen spec normalize (ok (name, content))
    no_seed :
        {e : Exit}
        → ((specs : List (Spec × Bool)) → Refused read seen ((spec, normalize) ∷ specs) e)
        → Seed seen spec normalize (raise e)

  seed_file-Seed :
      (seen : List Text) (spec : Spec) (normalize : Bool)
      → Seed seen spec normalize (seed_file read seen spec normalize)
  unfolding seed_file
  seed_file-Seed seen spec normalize =
      by_tests (good_name (host_and_name spec).1) refl (is_seen (host_and_name spec).1 seen) refl
        (read (host_and_name spec).0) refl
    where
      by_size :
          (content : Bytes) (b : Bool)
          → ltb max_size (length content) ≡ b
          → good_name (host_and_name spec).1 ≡ true
          → is_seen (host_and_name spec).1 seen ≡ false
          → From read normalize spec (host_and_name spec).1 content
          → Seed seen spec normalize
              (if b then raise too_big else ok ((host_and_name spec).1, content))
      by_size content true e h k f = no_seed (λ specs. large f (Large-test (length content) e))
      by_size content false e h k f =
          seed
            (record {
              good = h;
              fits = (good-length (host_and_name spec).1 h, Small-test (length content) e);
            })
            k f

      by_tests :
          (a : Bool)
          → good_name (host_and_name spec).1 ≡ a
          → (b : Bool) → is_seen (host_and_name spec).1 seen ≡ b
          → (c : Option Bytes) → read (host_and_name spec).0 ≡ c
          → Seed seen spec normalize (
              if not a then raise bad_name else if b then raise duplicate_name else elim c [
                | none ↦ raise cannot_read
                | some bytes ↦
                    if ltb max_size (length (normalized normalize bytes))
                    then raise too_big
                    else ok ((host_and_name spec).1, normalized normalize bytes)
              ])
      by_tests false h b k c r = no_seed (λ specs. misnamed h)
      by_tests true h true k c r = no_seed (λ specs. twice k)
      by_tests true h false k none r = no_seed (λ specs. unreadable r)
      by_tests true h false k (some bytes) r =
          by_size (normalized normalize bytes) _ refl h k (record {
            bytes = bytes;
            name_is = refl;
            read_is = r;
            is_content = normalized-IsContent normalize bytes;
          })

  -- The files are those of the specs, all fit, and their names differ; or a spec is refused.
  pub data Seeds (seen : List Text) (specs : List (Spec × Bool))
      : Result Exit (List File) → Type 0 where
    seeds :
        {files : List File}
        → AllFrom read specs files
        → AllNamed files
        → Distinct seen files
        → Seeds seen specs (ok files)
    no_seeds : {e : Exit} → Refused read seen specs e → Seeds seen specs (raise e)

  pub seed_files-Seeds :
      (seen : List Text) (specs : List (Spec × Bool))
      → Seeds seen specs (seed_files read seen specs)
  unfolding seed_files
  seed_files-Seeds seen [] = seeds none_left tt tt
  seed_files-Seeds seen ((spec, normalize) ∷ specs) =
      by_seed (seed_file read seen spec normalize) (seed_file-Seed seen spec normalize)
        (λ known. seed_files-Seeds known specs)
    where
      by_rest :
          (name : Text) (content : Bytes) (r : Result Exit (List File))
          → Named name content
          → is_seen name seen ≡ false
          → From read normalize spec name content
          → Seeds (name ∷ seen) specs r
          → Seeds seen
              ((spec, normalize) ∷ specs)
              (mort.Base.Result.◌>>=◌ r λ files. ok ((name, content) ∷ files))
      by_rest name content _ n d f (seeds g a b) = seeds (next f g) (n, a) (d, b)
      by_rest name content _ n d f (no_seeds {e} i) =
          no_seeds (later (subst (λ z. Refused read (z ∷ seen) specs e) f.name_is i))

      by_seed :
          (r : Result Exit File)
          → Seed seen spec normalize r
          → ((known : List Text) → Seeds known specs (seed_files read known specs))
          → Seeds seen ((spec, normalize) ∷ specs) (
              mort.Base.Result.◌>>=◌ r λ file.
                mort.Base.Result.◌>>=◌
                  (seed_files read (file.0 ∷ seen) specs)
                  λ files. ok (file ∷ files))
      by_seed _ (seed {name} {content} n d f) others =
          by_rest name content _ n d f (others (name ∷ seen))
      by_seed _ (no_seed i) others = no_seeds (i specs)

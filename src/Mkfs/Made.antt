-- ===== src/Mkfs/Made.antt =====
-- kernel/mkfs.py: what `make` gives.
use mort.Base.{
  ℕ, zero, suc, ◌+◌, ◌-◌, ◌*◌, ◌/◌, ◌≤◌, ◌<◌, ltb, ◌≡◌, refl, ap, ap₂, length-append, ◌++◌, sym,
  ◌∙◌, subst, Bool, true, false, List, [], ◌∷◌, length, All, arith, Text, Option, if◌then◌else◌,
  Bool-cases, ◌⊎◌, inl, inr,
}
use mort.Base.Result.{Result, ok, raise, out_of_fuel, ◌>>=◌, ◌>>◌, bind-ok}
use mort.Mkfs.Bytes.{Bytes, Exit, bad_size, too_many, no_room, struct_error}
use mort.Mkfs.Checked.{self_check-Stored}
use mort.Mkfs.Image.{assemble, self_check, make, sector, max_files, data_start, extent_sectors}
use mort.Mkfs.Layout.{Fits, sector_of}
use mort.Mkfs.Packed.{Small}
use mort.Mkfs.Seeded.{
  AllNamed, Distinct, From, AllFrom, none_left, next, Refused, Seeds, seeds, no_seeds,
  seed_files-Seeds,
}
use mort.Mkfs.Seeds.{Spec, File, seed_files, marked_as, all_specs}
use mort.Mkfs.Stored.{
  Stored, Ready, assembled, assemble-overflow, assemble-assembled, assembled-Stored,
}

-- One file for each spec, all read as text files or all as binaries.
pub data Each (read : Text → Option Bytes) (normalize : Bool) : List Spec → List File → Type 0 where
  no_more : Each read normalize [] []
  one :
      {spec : Spec} {name : Text} {content : Bytes} {specs : List Spec} {files : List File}
      → From read normalize spec name content
      → Each read normalize specs files
      → Each read normalize (spec ∷ specs) ((name, content) ∷ files)

-- An image that holds the files of the specs, the text files first, with names that are good and differ; an exit with
-- a message of the validation, and its reason; or the exception of `struct.pack` for a size of 2 TiB or more.
pub data Outcome (read : Text → Option Bytes) (size_mib : ℕ) (adds bins : List Spec)
    : Result Exit (Bytes × List File) → Type 0 where
  wrote :
      {image : Bytes} (texts binaries : List File)
      → Each read true adds texts
      → Each read false bins binaries
      → Stored image (size_mib * 2048) (texts ++ binaries)
      → AllNamed (texts ++ binaries)
      → Distinct [] (texts ++ binaries)
      → Outcome read size_mib adds bins (ok (image, texts ++ binaries))
  no_size : size_mib ≡ 0 → Outcome read size_mib adds bins (raise bad_size)
  refused :
      {e : Exit}
      → Refused read [] (marked_as true adds ++ marked_as false bins) e
      → Outcome read size_mib adds bins (raise e)
  crowded_table : 64 < length adds + length bins → Outcome read size_mib adds bins (raise too_many)
  crowded_disk :
      size_mib * 2048 < 16 + 128 * (length adds + length bins)
      → Outcome read size_mib adds bins (raise no_room)
  unpackable : 4294967296 ≤ size_mib * 2048 → Outcome read size_mib adds bins (raise struct_error)

AllNamed-Fits : (files : List File) → AllNamed files → All Fits files
AllNamed-Fits [] a = tt
AllNamed-Fits ((name, content) ∷ files) a = (a.0.fits, AllNamed-Fits files a.1)

AllFrom-Each :
    {read : Text → Option Bytes} (normalize : Bool) (specs : List Spec) (files : List File)
    → AllFrom read (marked_as normalize specs) files
    → Each read normalize specs files
AllFrom-Each normalize [] _ none_left = no_more
AllFrom-Each normalize (s ∷ ss) _ (next {files = files} f g) =
    one f (AllFrom-Each normalize ss files g)

-- The files of both lists of specs are those of the first and those of the second.
record Parts (read : Text → Option Bytes) (adds bins : List Spec) (files : List File) : Type 0 where
  texts : List File
  binaries : List File
  files_are : texts ++ binaries ≡ files
  of_adds : Each read true adds texts
  of_bins : Each read false bins binaries

AllFrom-Parts :
    {read : Text → Option Bytes} (adds bins : List Spec) (files : List File)
    → AllFrom read (all_specs adds bins) files
    → Parts read adds bins files
AllFrom-Parts [] bins files g = record {
  texts = [];
  binaries = files;
  files_are = refl;
  of_adds = no_more;
  of_bins = AllFrom-Each false bins files g;
}
AllFrom-Parts (s ∷ ss) bins _ (next {name = name} {content} {files = files} f g) =
    let p = AllFrom-Parts ss bins files g in
    record {
      texts = (name, content) ∷ p.texts;
      binaries = p.binaries;
      files_are = ap (◌∷◌ (name, content)) p.files_are;
      of_adds = one f p.of_adds;
      of_bins = p.of_bins;
    }

length-AllFrom :
    {read : Text → Option Bytes} {specs : List (Spec × Bool)} {files : List File}
    → AllFrom read specs files
    → length files ≡ length specs
length-AllFrom none_left = refl
length-AllFrom (next f g) = ap suc (length-AllFrom g)

length-marked_as : (normalize : Bool) (ss : List Spec) → length (marked_as normalize ss) ≡ length ss
length-marked_as normalize [] = refl
length-marked_as normalize (s ∷ ss) = ap suc (length-marked_as normalize ss)

length-all_specs :
    (adds bins : List Spec) → length (all_specs adds bins) ≡ length adds + length bins
length-all_specs adds bins =
    length-append (marked_as true adds) (marked_as false bins)
    ∙ ap₂ (λ m n. m + n) (length-marked_as true adds) (length-marked_as false bins)

assembled-Outcome :
    (read : Text → Option Bytes) (size_mib : ℕ) (adds bins : List Spec) (files : List File)
    → AllFrom read (all_specs adds bins) files
    → 1 ≤ size_mib
    → AllNamed files
    → Distinct [] files
    → length files ≤ 64
    → sector_of (length files) ≤ size_mib * 2048
    → Outcome read size_mib adds bins (
        mort.Base.Result.◌>>=◌ (assemble (size_mib * 2048) files) λ image.
          mort.Base.Result.◌>>◌ (self_check image (size_mib * 2048) files) (ok (image, files)))
assembled-Outcome read size_mib adds bins files g p a d few room =
    elim (Bool-cases (ltb (size_mib * 2048) 4294967296)) [
      | inl e ↦
          let v : Ready (size_mib * 2048) files = record {
            all_fit = AllNamed-Fits files a;
            few = few;
            room = room;
            small = small_of _ e;
          } in
          let s = assembled-Stored (size_mib * 2048) files v in
          rw
            (
              assemble-assembled (size_mib * 2048) files v,
              self_check-Stored (assembled (size_mib * 2048) files) (size_mib * 2048) files v
                  (omega (arith, p, s.size)) s,
            )
            (wrote_parts (assembled (size_mib * 2048) files) (AllFrom-Parts adds bins files g) s a
              d)
      | inr e ↦
          rw (assemble-overflow (size_mib * 2048) files (AllNamed-Fits files a) few e)
            (unpackable (large_of _ e))
    ]
  where
    small_of : (n : ℕ) → ltb n 4294967296 ≡ true → Small n
    small_of n e = ground arith

    large_of : (n : ℕ) → ltb n 4294967296 ≡ false → 4294967296 ≤ n
    large_of n e = ground arith

    wrote_parts :
        (image : Bytes) (p : Parts read adds bins files)
        → Stored image (size_mib * 2048) files
        → AllNamed files
        → Distinct [] files
        → Outcome read size_mib adds bins (ok (image, files))
    wrote_parts image p =
        subst
          (λ z.
            Stored image (size_mib * 2048) z
            → AllNamed z
            → Distinct [] z
            → Outcome read size_mib adds bins (ok (image, z)))
          p.files_are (wrote p.texts p.binaries p.of_adds p.of_bins)

-- For every size, every two lists of specs and every content of the host's files, `make` gives an image that
-- `_self_check` accepts, exits with a message of the validation, or ends in the exception of `struct.pack`: never in
-- a failure of the check. The image has the size asked for and holds a file for each spec, those of `adds` before
-- those of `bins`, with names that are good and differ: the bytes that the host has under the spec's path, in a file
-- of `adds` with each carriage return before a newline left out. The validation exits for a size of 0, for a spec
-- whose name is not good or was seen, or whose path the host cannot read or has a file of more than 65536 bytes
-- under, for more than 64 specs, or for more files than the disk has room for; the exception is for a disk of 2^32
-- sectors or more.
pub make-Outcome :
    (read : Text → Option Bytes) (size_mib : ℕ) (adds bins : List Spec)
    → Outcome read size_mib adds bins (make read size_mib adds bins)
unfolding make
make-Outcome read size_mib adds bins =
    by_size (ltb size_mib 1) refl (size_mib * 1024 * 1024 / sector) (omega arith)
  where
    omega_size : ltb size_mib 1 ≡ false → 1 ≤ size_mib
    omega_size e = ground arith

    zero_of : ltb size_mib 1 ≡ true → size_mib ≡ 0
    zero_of e = ground arith

    many_of :
        (n : ℕ)
        → ltb max_files n ≡ true
        → n ≡ length adds + length bins
        → 64 < length adds + length bins
    many_of n h e = ground (arith, h, e)

    full_of :
        (n : ℕ)
        → ltb (size_mib * 2048) (data_start + extent_sectors * n) ≡ true
        → n ≡ length adds + length bins
        → size_mib * 2048 < 16 + 128 * (length adds + length bins)
    full_of n h e = ground (arith, h, e)

    few_of : (n : ℕ) → ltb max_files n ≡ false → n ≤ 64
    few_of n h = ground arith

    room_of :
        (n : ℕ)
        → ltb (size_mib * 2048) (data_start + extent_sectors * n) ≡ false
        → sector_of n ≤ size_mib * 2048
    room_of n h = ground arith

    by_room :
        (files : List File)
        → AllFrom read (all_specs adds bins) files
        → AllNamed files
        → Distinct [] files
        → 1 ≤ size_mib
        → (x : Bool) → ltb max_files (length files) ≡ x
        → (y : Bool) → ltb (size_mib * 2048) (data_start + extent_sectors * length files) ≡ y
        → Outcome read size_mib adds bins (
            if x
            then raise too_many
            else if y
            then raise no_room
            else (mort.Base.Result.◌>>=◌ (assemble (size_mib * 2048) files) λ image.
                mort.Base.Result.◌>>◌
                  (self_check image (size_mib * 2048) files)
                  (ok (image, files))))
    by_room files g a d p true h y k =
        crowded_table (many_of (length files) h (length-AllFrom g ∙ length-all_specs adds bins))
    by_room files g a d p false h true k =
        crowded_disk (full_of (length files) k (length-AllFrom g ∙ length-all_specs adds bins))
    by_room files g a d p false h false k =
        assembled-Outcome read size_mib adds bins files g p a d (few_of _ h) (room_of _ k)

    by_files :
        (r : Result Exit (List File))
        → Seeds read [] (all_specs adds bins) r
        → 1 ≤ size_mib
        → Outcome read size_mib adds bins (
            mort.Base.Result.◌>>=◌ r λ files.
              if ltb max_files (length files)
              then raise too_many
              else if ltb (size_mib * 2048) (data_start + extent_sectors * length files)
              then raise no_room
              else (mort.Base.Result.◌>>=◌ (assemble (size_mib * 2048) files) λ image.
                  mort.Base.Result.◌>>◌
                    (self_check image (size_mib * 2048) files)
                    (ok (image, files))))
    by_files _ (no_seeds i) p = refused i
    by_files _ (seeds {files} g a d) p =
        by_room files g a d p (ltb max_files (length files)) refl
          (ltb (size_mib * 2048) (data_start + extent_sectors * length files)) refl

    by_size :
        (b : Bool)
        → ltb size_mib 1 ≡ b
        → (total : ℕ) → total ≡ size_mib * 2048
        → Outcome read size_mib adds bins (
            if b
            then raise bad_size
            else (mort.Base.Result.◌>>=◌ (seed_files read [] (all_specs adds bins)) λ files.
                if ltb max_files (length files)
                then raise too_many
                else if ltb total (data_start + extent_sectors * length files)
                then raise no_room
                else (mort.Base.Result.◌>>=◌ (assemble total files) λ image.
                    mort.Base.Result.◌>>◌ (self_check image total files) (ok (image, files)))))
    by_size true e total t = no_size (zero_of e)
    by_size false e total t =
        rw t (by_files _ (seed_files-Seeds read [] (all_specs adds bins)) (omega_size e))

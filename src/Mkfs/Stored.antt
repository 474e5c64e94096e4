-- ===== src/Mkfs/Stored.antt =====
-- kernel/mkfs.py: the image that `make` assembles.
use mort.Base.{
  ℕ, ◌+◌, ◌*◌, ◌≤◌, ◌<◌, ◌≡◌, refl, ap, ◌∙◌, List, [], ◌∷◌, inl, inr, length, ltb, false, replicate,
  All, arith, Text,
}
use mort.Base.Result.{ok, raise}
use mort.Mkfs.Bytes.{Bytes, struct_error, slice, assign, pack}
use mort.Mkfs.Image.{
  padded, entry_at, write_files, assemble, data_start, extent_sectors, sector, magic, version,
}
use mort.Mkfs.Layout.{
  sector_of, byte_of, fields_of, Fits, fields-Small, place, place_all, Untouched, length-place,
  placed_name, placed_fields, placed_content, place-Untouched,
}
use mort.Mkfs.Packed.{packed, length-packed, pack-packed, Small, Small-test}
use mort.Mkfs.Seeds.{File}
use mort.Mkfs.Slices.{length-assign, slice-assign, slice_after, length-replicate}

-- An image holds a file at the place with the number `i`.
pub record At (image : Bytes) (i : ℕ) (name : Text) (content : Bytes) : Type 0 where
  pub fits : Fits (name, content)
  pub at_name : slice image (entry_at i) (entry_at i + 24) ≡ padded name
  pub at_fields :
      slice image (entry_at i + 24) (entry_at i + 40) ≡ packed (fields_of i (name, content))
  pub at_content : slice image (byte_of i) (byte_of i + length content) ≡ content

abbrev pub Holds : Bytes → ℕ → List File → Type 0
Holds image i [] = Unit {0}
Holds image i ((name, content) ∷ files) = At image i name content × Holds image (i + 1) files

pub length-place_all :
    (i : ℕ) (files : List File) (image : Bytes)
    → All Fits files
    → i + length files ≤ 64
    → byte_of (i + length files) ≤ length image
    → length (place_all i files image) ≡ length image
unfolding place_all
length-place_all i [] image f h r = refl
length-place_all i ((name, content) ∷ files) image f h r =
    let here = length-place i name content image f.0 (omega (arith, h)) (omega (arith, r)) in
    length-place_all (i + 1) files _ f.1 (omega (arith, h)) (omega (arith, r, here)) ∙ here

later_Untouched : (i x y : ℕ) → Untouched i x y → Untouched (i + 1) x y
later_Untouched i x y (inl p) = inl (omega (arith, p))
later_Untouched i x y (inr (p, q)) = inr (p, omega (arith, q))

place_all-Untouched :
    (i : ℕ) (files : List File) (image : Bytes)
    → All Fits files
    → i + length files ≤ 64
    → byte_of (i + length files) ≤ length image
    → (x y : ℕ) → x ≤ y
    → Untouched i x y
    → slice (place_all i files image) x y ≡ slice image x y
unfolding place_all
place_all-Untouched i [] image f h r x y p u = refl
place_all-Untouched i ((name, content) ∷ files) image f h r x y p u =
    let here = length-place i name content image f.0 (omega (arith, h)) (omega (arith, r)) in
    place_all-Untouched (i + 1) files _ f.1 (omega (arith, h)) (omega (arith, r, here)) x y p
      (later_Untouched i x y u)
    ∙ place-Untouched i name content image f.0 (omega (arith, h)) (omega (arith, r)) x y p u

place_all-Holds :
    (i : ℕ) (files : List File) (image : Bytes)
    → All Fits files
    → i + length files ≤ 64
    → byte_of (i + length files) ≤ length image
    → Holds (place_all i files image) i files
unfolding place_all
place_all-Holds i [] image f h r = tt
place_all-Holds i ((name, content) ∷ files) image f h r =
    let p : i < 64 = omega (arith, h) in
    let q : byte_of (i + 1) ≤ length image = omega (arith, r) in
    let here = length-place i name content image f.0 p q in
    let h' : i + 1 + length files ≤ 64 = omega (arith, h) in
    let r' : byte_of (i + 1 + length files) ≤ length (place i (name, content) image) =
      omega (arith, r, here) in
    let keeps = place_all-Untouched (i + 1) files (place i (name, content) image) f.1 h' r' in
    (
      record {
        fits = f.0;
        at_name =
            keeps _ _ (omega arith) (inl (omega arith)) ∙ placed_name i name content image f.0 p q;
        at_fields =
            keeps _ _ (omega arith) (inl (omega arith))
            ∙ placed_fields i name content image f.0 p q;
        at_content =
            keeps _ _ (omega arith) (inr (omega arith, omega (arith, f.0.1)))
            ∙ placed_content i name content image f.0 p q;
      },
      place_all-Holds (i + 1) files _ f.1 h' r',
    )

write_files-place_all :
    (i : ℕ) (files : List File) (image : Bytes)
    → All Fits files
    → i + length files ≤ 64
    → write_files i (sector_of i) files image
      ≡ ok (sector_of (i + length files), place_all i files image)
unfolding write_files place_all place
write_files-place_all i [] image f h = ap (λ n. ok (sector_of n, image)) (omega arith)
write_files-place_all i ((name, content) ∷ files) image f h =
    rw
      (pack-packed (fields_of i (name, content))
        (fields-Small i (name, content) f.0 (omega (arith, h))))
      (ap (λ n. write_files (i + 1) n files (place i (name, content) image)) (next_sector i)
        ∙ (write_files-place_all (i + 1) files (place i (name, content) image) f.1
              (omega (arith, h))
            ∙ ap (λ n. ok (sector_of n, place_all (i + 1) files (place i (name, content) image)))
                (omega arith)))
  where
    next_sector : (i : ℕ) → sector_of i + extent_sectors ≡ sector_of (i + 1)
    next_sector i = omega arith

abbrev pub block_of : ℕ → List File → List ℕ
block_of total files =
    magic ∷ (version ∷ (length files ∷ (sector_of (length files) ∷ (total ∷ []))))

-- The conditions that `make` checks before it assembles.
pub record Ready (total : ℕ) (files : List File) : Type 0 where
  pub all_fit : All Fits files
  pub few : length files ≤ 64
  pub room : sector_of (length files) ≤ total
  pub small : Small total

pub block-Small :
    (total : ℕ) (files : List File) → Ready total files → All Small (block_of total files)
block-Small total files v =
    (omega arith, (omega arith, (omega (arith, v.few), (omega (arith, v.few), (v.small, tt)))))

-- An image of the size, with the superblock and the files.
pub record Stored (image : Bytes) (total : ℕ) (files : List File) : Type 0 where
  pub size : length image ≡ total * sector
  pub at_block : slice image 0 20 ≡ packed (block_of total files)
  pub holds : Holds image 0 files

-- The superblock is written before all that the files have.
keep-Holds :
    (image : Bytes) (s : Bytes) (i : ℕ) (files : List File)
    → 20 ≡ 0 + length s
    → 20 ≤ length image
    → Holds image i files
    → Holds (assign image 0 20 s) i files
keep-Holds image s i [] h k a = tt
keep-Holds image s i ((name, content) ∷ files) h k a = (
  record {
    fits = a.0.fits;
    at_name = slice_after image 0 20 s h k _ _ (omega arith) ∙ a.0.at_name;
    at_fields = slice_after image 0 20 s h k _ _ (omega arith) ∙ a.0.at_fields;
    at_content = slice_after image 0 20 s h k _ _ (omega arith) ∙ a.0.at_content;
  },
  keep-Holds image s (i + 1) files h k a.1,
)

unfoldable pub assembled : ℕ → List File → Bytes
assembled total files =
    assign (place_all 0 files (replicate (total * sector) 0)) 0 20 (packed (block_of total files))

written :
    (files : List File) (image : Bytes)
    → All Fits files
    → length files ≤ 64
    → write_files 0 data_start files image ≡ ok (sector_of (length files), place_all 0 files image)
written files image f h =
    write_files-place_all 0 files image f (omega (arith, h))
    ∙ ap (λ n. ok (sector_of n, place_all 0 files image)) (omega arith)

pub assemble-assembled :
    (total : ℕ) (files : List File)
    → Ready total files
    → assemble total files ≡ ok (assembled total files)
unfolding assemble assembled
assemble-assembled total files v =
    rw
      (
        written files (replicate (total * sector) 0) v.all_fit v.few,
        pack-packed (block_of total files) (block-Small total files v),
      )
      refl

pub assembled-Stored :
    (total : ℕ) (files : List File) → Ready total files → Stored (assembled total files) total files
unfolding assembled
assembled-Stored total files v =
    let zeros : Bytes = replicate (total * sector) 0 in
    let few : 0 + length files ≤ 64 = omega (arith, v.few) in
    let p : byte_of (0 + length files) ≤ length zeros =
      omega (arith, v.room, length-replicate (total * sector) 0) in
    let q : length (place_all 0 files zeros) ≡ length zeros =
      length-place_all 0 files zeros v.all_fit few p in
    let h : 20 ≡ 0 + length (packed (block_of total files)) =
      omega (arith, length-packed (block_of total files)) in
    let k : 20 ≤ length (place_all 0 files zeros) = omega (arith, p, q) in
    record {
      size = length-assign _ 0 20 _ h k ∙ (q ∙ length-replicate (total * sector) 0);
      at_block = slice-assign _ 0 20 _ h k;
      holds = keep-Holds _ _ 0 files h k (place_all-Holds 0 files zeros v.all_fit few p);
    }

-- A number of sectors that has more than 32 bits does not fit into the superblock.
pub assemble-overflow :
    (total : ℕ) (files : List File)
    → All Fits files
    → length files ≤ 64
    → ltb total 4294967296 ≡ false
    → assemble total files ≡ raise struct_error
unfolding assemble pack
assemble-overflow total files f few h =
    rw
      (
        written files (replicate (total * sector) 0) f few,
        Small-test (length files) (omega (arith, few)),
        Small-test (sector_of (length files)) (omega (arith, few)),
        h,
      )
      refl

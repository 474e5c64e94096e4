-- ===== src/Mkfs/ReadBack.antt =====
-- kernel/mkfs.py: an image as the kernel reads it (`fs_init`, and the loops over the table of kernel/kmain.mx).
use mort.Base.{
  ℕ, zero, suc, ◌+◌, ◌-◌, ◌*◌, ◌≤◌, ◌<◌, ◌==◌, ◌≡◌, refl, ap, ap₂, sym, ◌∙◌, subst, true, List, [],
  ◌∷◌, ◌++◌, length, get_or, replicate, arith, Text, if◌then◌else◌, Option, some, none, ◌&&◌,
}
use mort.Base.Result.{Result, ok, ◌>>=◌}
use mort.Mkfs.Bytes.{Bytes, Exit, slice, numbers}
use mort.Mkfs.Image.{assemble, magic, sector, entry_at}
use mort.Mkfs.Unused.{unused_fields}
use mort.Mkfs.Layout.{sector_of, fields_of, fields-Small}
use mort.Mkfs.Packed.{numbers-packed}
use mort.Mkfs.Seeded.{AllNamed}
use mort.Mkfs.Seeds.{File, good_name, all_printable}
use mort.Mkfs.Stored.{
  At, Holds, Stored, Ready, block_of, block-Small, assembled, assemble-assembled, assembled-Stored,
}

unfoldable pub until_nul : Bytes → Text
until_nul [] = []
until_nul (c ∷ cs) = let rest = until_nul cs in if c == 0 then [] else c ∷ rest

-- The fields of entry `i`: used, size, start sector, sectors.
unfoldable pub entry_fields : Bytes → ℕ → List ℕ
entry_fields image i = numbers 4 (slice image (entry_at i + 24) (entry_at i + 40))

unfoldable pub file_at : Bytes → ℕ → File
file_at image i =
    let fields = entry_fields image i in
    let start = get_or fields 2 0 * sector in
    (
      until_nul (slice image (entry_at i) (entry_at i + 24)),
      slice image start (start + get_or fields 1 0),
    )

-- The loop over the table, from entry `i` on: the entries whose field `used` is 1.
unfoldable pub used_files : Bytes → ℕ → ℕ → List File
used_files image i zero = []
used_files image i (suc n) =
    let rest = used_files image (i + 1) n in
    if get_or (entry_fields image i) 0 0 == 1 then file_at image i ∷ rest else rest

unfoldable pub block_fields : Bytes → List ℕ
block_fields image = numbers 5 (slice image 0 20)

-- None where the magic number or the version is another.
unfoldable pub read_image : Bytes → Option (List File)
read_image image =
    if get_or (block_fields image) 0 0 == magic && get_or (block_fields image) 1 0 == 1
    then some (used_files image 0 64)
    else none

-- The files, and the number of files that the superblock has.
abbrev pub contents : Bytes → Option (List File) × ℕ
contents image = (read_image image, get_or (block_fields image) 2 0)

until_nul-replicate : (n : ℕ) → until_nul (replicate n 0) ≡ []
unfolding until_nul
until_nul-replicate zero = refl
until_nul-replicate (suc n) = refl

until_nul-name :
    (name : Text) (n : ℕ) → all_printable name ≡ true → until_nul (name ++ replicate n 0) ≡ name
unfolding until_nul all_printable
until_nul-name [] n h = until_nul-replicate n
until_nul-name (c ∷ cs) n h = ground (arith, until_nul-name cs n)

good-printable : (name : Text) → good_name name ≡ true → all_printable name ≡ true
unfolding good_name
good-printable name h = ground arith

entry_fields-At :
    (image : Bytes) (i : ℕ) (name : Text) (content : Bytes)
    → i < 64
    → At image i name content
    → entry_fields image i ≡ fields_of i (name, content)
unfolding entry_fields
entry_fields-At image i name content h a =
    ap (numbers 4) a.at_fields
    ∙ numbers-packed (fields_of i (name, content)) (fields-Small i (name, content) a.fits h)

file_at-At :
    (image : Bytes) (i : ℕ) (name : Text) (content : Bytes)
    → i < 64
    → good_name name ≡ true
    → At image i name content
    → file_at image i ≡ (name, content)
unfolding file_at
file_at-At image i name content h g a =
    rw
      (
        entry_fields-At image i name content h a,
        a.at_name,
        a.at_content,
        until_nul-name name (24 - length name) (good-printable name g),
      )
      refl

-- The loop gives the files if the entries behind them are not used.
used_files-Holds :
    (image : Bytes) (i n : ℕ) (files : List File)
    → i + n ≡ 64
    → length files ≤ n
    → AllNamed files
    → Holds image i files
    → ((j : ℕ) → i + length files ≤ j → j < 64 → get_or (entry_fields image j) 0 0 ≡ 0)
    → used_files image i n ≡ files
unfolding used_files
used_files-Holds image i zero [] e h g a u = refl
used_files-Holds image i zero (file ∷ files) e h g a u = absurd (omega (arith, h))
used_files-Holds image i (suc n) [] e h g a u = rw (u i (omega arith) (omega (arith, e))) (
    used_files-Holds image (i + 1) n [] (omega (arith, e)) (omega arith) tt tt
      (λ j p q. u j (omega (arith, p)) q))
used_files-Holds image i (suc n) ((name, content) ∷ files) e h g a u =
    rw (entry_fields-At image i name content (omega (arith, e)) a.0) (
      ap₂ (λ x xs. x ∷ xs) (file_at-At image i name content (omega (arith, e)) g.0.good a.0)
        (used_files-Holds image (i + 1) n files (omega (arith, e)) (omega (arith, h)) g.1 a.1
          (λ j p q. u j (omega (arith, p)) q)))

unused :
    (total : ℕ) (files : List File)
    → Ready total files
    → (i : ℕ) → length files ≤ i
    → i < 64
    → get_or (entry_fields (assembled total files) i) 0 0 ≡ 0
unfolding entry_fields numbers
unused total files v i h k =
    ap (λ z. get_or (numbers 4 (slice (assembled total files) (entry_at i + 24) z)) 0 0)
      (omega arith)
    ∙ ap (λ bs. get_or (numbers 4 bs) 0 0) (unused_fields total files v i h k)

block_fields-Stored :
    (image : Bytes) (total : ℕ) (files : List File)
    → Ready total files
    → Stored image total files
    → block_fields image ≡ block_of total files
unfolding block_fields
block_fields-Stored image total files v s =
    ap (numbers 5) s.at_block ∙ numbers-packed (block_of total files) (block-Small total files v)

-- The image that `make` assembles of files with good names, read as the kernel does, gives the files back, in their
-- order: its magic number and version are right, and of the 64 entries of the table those with the field `used` are
-- the entries of the files. Its superblock has their number.
pub read_image-assemble :
    (total : ℕ) (files : List File)
    → Ready total files
    → AllNamed files
    → (assemble total files >>= λ image. ok (contents image)) ≡ ok (some files, length files)
unfolding read_image
read_image-assemble total files v g =
    let s = assembled-Stored total files v in
    rw
      (
        assemble-assembled total files v,
        block_fields-Stored (assembled total files) total files v s,
      )
      (ap (λ fs. ok (some fs, length files))
        (used_files-Holds (assembled total files) 0 64 files refl v.few g s.holds
          (λ j p q. unused total files v j (omega (arith, p)) q)))

Holds-At :
    (image : Bytes) (k i m : ℕ) (files : List File)
    → Holds image k files
    → i < length files
    → m ≡ k + i
    → (name : Text) × (content : Bytes) × At image m name content
Holds-At image k i m [] a h e = absurd (omega (arith, h))
Holds-At image k zero m ((name, content) ∷ files) a h e =
    (name, content, subst (λ n. At image n name content) (omega (arith, e)) a.0)
Holds-At image k (suc i) m ((name, content) ∷ files) a h e =
    Holds-At image (k + 1) i m files a.1 (omega (arith, h)) (omega (arith, e))

-- Entries `i` and `j` have extents that hold their sizes, the first behind the table and in front of the
-- second, and the second in front of the free sectors, which begin inside the image.
pub Apart : Bytes → ℕ → ℕ → ℕ → Type 0
Apart image total i j =
    (s t a b free : ℕ) × (entry_fields image i ≡ 1 ∷ (s ∷ (a ∷ (128 ∷ []))))
    × (entry_fields image j ≡ 1 ∷ (t ∷ (b ∷ (128 ∷ []))))
    × (get_or (block_fields image) 3 0 ≡ free)
    × (s ≤ 128 * sector)
    × (t ≤ 128 * sector)
    × (16 ≤ a)
    × (a + 128 ≤ b)
    × (b + 128 ≤ free)
    × (free * sector ≤ length image)

-- In the image that `make` assembles, the extents of two files are as large as the files need, lie behind the
-- table and inside the image, and do not overlap.
pub assemble-Apart :
    (total : ℕ) (files : List File) (image : Bytes)
    → Ready total files
    → assemble total files ≡ ok image
    → (i j : ℕ) → i < j
    → j < length files
    → Apart image total i j
unfolding Apart
assemble-Apart total files image v e i j h k =
    subst (λ x. Apart x total i j) (same_image (sym (assemble-assembled total files v) ∙ e)) apart
  where
    same_image : {x y : Bytes} → ◌≡◌ {A = Result Exit Bytes} (ok x) (ok y) → x ≡ y
    same_image p = cc p

    stored : Stored (assembled total files) total files
    stored = assembled-Stored total files v

    apart : Apart (assembled total files) total i j
    apart =
        let (name, content, x) =
          Holds-At (assembled total files) 0 i i files stored.holds (omega (arith, h, k))
            (omega arith) in
        let (other, bytes, y) =
          Holds-At (assembled total files) 0 j j files stored.holds k (omega arith) in
        (
          length content,
          length bytes,
          sector_of i,
          sector_of j,
          sector_of (length files),
          entry_fields-At (assembled total files) i name content (omega (arith, h, k, v.few)) x,
          entry_fields-At (assembled total files) j other bytes (omega (arith, k, v.few)) y,
          ap (λ ns. get_or ns 3 0)
              (block_fields-Stored (assembled total files) total files v stored),
          omega (arith, x.fits.1),
          omega (arith, y.fits.1),
          omega arith,
          omega (arith, h),
          omega (arith, k),
          omega (arith, v.room, stored.size),
        )

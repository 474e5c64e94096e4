-- ===== src/Mkfs/Image.antt =====
-- kernel/mkfs.py: the image assembled, and checked as it is read back.
use mort.Base.{
  ℕ, ◌+◌, ◌-◌, ◌*◌, ◌/◌, ltb, Bool, true, false, List, [], ◌∷◌, ◌++◌, if◌then◌else◌, ◌==◌, Text,
  text_eq, length, get_or, replicate, Option,
}
use mort.Base.Result.{Result, ok, raise, ◌>>=◌, ◌>>◌}
use mort.Mkfs.Bytes.{
  Bytes, Exit, bad_size, too_many, no_room, wrong_length, wrong_magic, wrong_version, wrong_count,
  wrong_next, wrong_total, wrong_name, wrong_fields, wrong_content, slice, assign, pack,
  unpack_from,
}
use mort.Mkfs.Seeds.{Spec, File, seed_files, all_specs}

abbrev pub sector : ℕ
sector = 512

abbrev pub magic : ℕ
magic = 827541069

abbrev pub version : ℕ
version = 1

abbrev pub max_files : ℕ
max_files = 64

abbrev pub extent_sectors : ℕ
extent_sectors = 128

abbrev pub data_start : ℕ
data_start = 16

abbrev pub table_offset : ℕ
table_offset = 512

abbrev pub entry_size : ℕ
entry_size = 64

-- `name.encode("ascii").ljust(24, b"\x00")`
abbrev pub padded : Text → Bytes
padded name = name ++ replicate (24 - length name) 0

abbrev pub entry_at : ℕ → ℕ
entry_at i = table_offset + i * entry_size

-- The loop over the files, from file `i` on.
unfoldable pub write_files : ℕ → ℕ → List File → Bytes → Result Exit (ℕ × Bytes)
write_files i next_free [] image = ok (next_free, image)
write_files i next_free ((name, content) ∷ files) image = do
  fields ← pack (1 ∷ (length content ∷ (next_free ∷ (extent_sectors ∷ []))))
  write_files (i + 1) (next_free + extent_sectors) files (
      assign
        (assign (assign image (entry_at i) (entry_at i + 24) (padded name)) (entry_at i + 24)
          (entry_at i + 40) fields)
        (next_free * sector) (next_free * sector + length content) content)

unfoldable pub assemble : ℕ → List File → Result Exit Bytes
assemble total files = do
  (next_free, image) ← write_files 0 data_start files (replicate (total * sector) 0)
  block ← pack (magic ∷ (version ∷ (length files ∷ (next_free ∷ (total ∷ [])))))
  ok (assign image 0 20 block)

abbrev pub require : Bool → Exit → Result Exit (Unit {0})
require true e = ok tt
require false e = raise e

abbrev pub same_bytes : Bytes → Bytes → Bool
same_bytes xs ys = text_eq xs ys

-- One round of the loop over the table.
unfoldable pub check_entry : Bytes → ℕ → File → Result Exit (Unit {0})
check_entry bytes i (name, content) = do
  require (same_bytes (slice bytes (entry_at i) (entry_at i + 24)) (padded name)) wrong_name
  fields ← unpack_from 4 bytes (entry_at i + 24)
  require
      (same_bytes fields
        (1 ∷ (length content ∷ ((data_start + i * extent_sectors) ∷ (extent_sectors ∷ [])))))
      wrong_fields
  require
      (same_bytes
        (slice bytes (get_or fields 2 0 * sector) (get_or fields 2 0 * sector + get_or fields 1 0))
        content)
      wrong_content

unfoldable pub check_entries : Bytes → ℕ → List File → Result Exit (Unit {0})
check_entries bytes i [] = ok tt
check_entries bytes i (file ∷ files) = do
  check_entry bytes i file
  check_entries bytes (i + 1) files

-- The superblock as it is read back.
unfoldable pub check_block : List ℕ → ℕ → List File → Result Exit (Unit {0})
check_block block total files = do
  require (get_or block 0 0 == magic) wrong_magic
  require (get_or block 1 0 == version) wrong_version
  require (get_or block 2 0 == length files) wrong_count
  require (get_or block 3 0 == data_start + extent_sectors * length files) wrong_next
  require (get_or block 4 0 == total) wrong_total

-- `_self_check`, where `bytes` is what the file holds.
unfoldable pub self_check : Bytes → ℕ → List File → Result Exit (Unit {0})
self_check bytes total files = do
  require (length bytes == total * sector) wrong_length
  block ← unpack_from 5 bytes 0
  check_block block total files
  check_entries bytes 0 files

-- The image that is written, and its files. A size below 1 is 0 here.
unfoldable pub make :
    (Text → Option Bytes) → ℕ → List Spec → List Spec → Result Exit (Bytes × List File)
make read size_mib adds bins =
    let total = size_mib * 1024 * 1024 / sector in
    if ltb size_mib 1 then raise bad_size else (do
      files ← seed_files read [] (all_specs adds bins)
      if ltb max_files (length files)
          then raise too_many
          else if ltb total (data_start + extent_sectors * length files)
          then raise no_room
          else (do image ← assemble total files; self_check image total files; ok (image, files)))

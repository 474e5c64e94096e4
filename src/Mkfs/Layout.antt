-- ===== src/Mkfs/Layout.antt =====
-- kernel/mkfs.py: where the loop over the files writes, and what it leaves.
use mort.Base.{
  ℕ, ◌+◌, ◌-◌, ◌*◌, ◌≤◌, ◌<◌, ◌≡◌, refl, ◌∙◌, List, [], ◌∷◌, ◌⊎◌, inl, inr, length, length-append,
  replicate, All, arith, Text,
}
use mort.Mkfs.Bytes.{Bytes, slice, assign}
use mort.Mkfs.Image.{padded, entry_at, data_start, extent_sectors, sector}
use mort.Mkfs.Packed.{packed, length-packed, Small}
use mort.Mkfs.Seeds.{File}
use mort.Mkfs.Slices.{length-assign, slice-assign, slice_before, slice_after, length-replicate}

-- The number of the first sector of file `i`, and its first byte.
abbrev pub sector_of : ℕ → ℕ
sector_of i = data_start + i * extent_sectors

abbrev pub byte_of : ℕ → ℕ
byte_of i = sector_of i * sector

abbrev pub fields_of : ℕ → File → List ℕ
fields_of i (name, content) = 1 ∷ (length content ∷ (sector_of i ∷ (extent_sectors ∷ [])))

-- A file that an entry and an extent can hold.
abbrev pub Fits : File → Type 0
Fits (name, content) = (length name ≤ 23) × (length content ≤ 65536)

pub fields-Small : (i : ℕ) (file : File) → Fits file → i < 64 → All Small (fields_of i file)
fields-Small i file (p, q) h =
    (omega arith, (omega (arith, q), (omega (arith, h), (omega arith, tt))))

unfoldable pub place : ℕ → File → Bytes → Bytes
place i (name, content) image =
    assign
      (assign (assign image (entry_at i) (entry_at i + 24) (padded name)) (entry_at i + 24)
        (entry_at i + 40) (packed (fields_of i (name, content))))
      (byte_of i) (byte_of i + length content) content

unfoldable pub place_all : ℕ → List File → Bytes → Bytes
place_all i [] image = image
place_all i (file ∷ files) image = place_all (i + 1) files (place i file image)

length-padded : (name : Text) → length name ≤ 23 → length (padded name) ≡ 24
length-padded name h = omega (
  arith,
  h,
  length-append name (replicate (24 - length name) 0),
  length-replicate (24 - length name) 0,
)

-- The bytes that file `i` leaves: before its entry, or behind the table and before its extent.
abbrev pub Untouched : ℕ → ℕ → ℕ → Type 0
Untouched i x y = (y ≤ entry_at i) ⊎ ((4608 ≤ x) × (y ≤ byte_of i))

module _ (i : ℕ) (name : Text) (content : Bytes) (image : Bytes) (f : Fits (name, content))
    (h : i < 64) (r : byte_of (i + 1) ≤ length image) where
  one : Bytes
  one = assign image (entry_at i) (entry_at i + 24) (padded name)

  two : Bytes
  two = assign one (entry_at i + 24) (entry_at i + 40) (packed (fields_of i (name, content)))

  name_end : entry_at i + 24 ≡ entry_at i + length (padded name)
  name_end = omega (arith, length-padded name f.0)

  fields_end : entry_at i + 40 ≡ entry_at i + 24 + length (packed (fields_of i (name, content)))
  fields_end = omega (arith, length-packed (fields_of i (name, content)))

  length-one : length one ≡ length image
  unfolding one
  length-one = length-assign image _ _ (padded name) name_end (omega (arith, h, r))

  length-two : length two ≡ length image
  unfolding two
  length-two = length-assign one _ _ _ fields_end (omega (arith, h, r, length-one)) ∙ length-one

  content_room : byte_of i + length content ≤ length two
  content_room = omega (arith, h, r, f.1, length-two)

  pub length-place : length (place i (name, content) image) ≡ length image
  unfolding place one two
  length-place = length-assign two _ _ content refl content_room ∙ length-two

  pub placed_name :
      slice (place i (name, content) image) (entry_at i) (entry_at i + 24) ≡ padded name
  unfolding place one two
  placed_name =
      slice_before two _ _ content refl content_room (entry_at i) (entry_at i + 24)
        (omega (arith, h)) (omega arith)
      ∙ (slice_before one _ _ _ fields_end (omega (arith, h, r, length-one)) (entry_at i)
            (entry_at i + 24) (omega arith) (omega arith)
          ∙ slice-assign image _ _ (padded name) name_end (omega (arith, h, r)))

  pub placed_fields :
      slice (place i (name, content) image) (entry_at i + 24) (entry_at i + 40)
      ≡ packed (fields_of i (name, content))
  unfolding place one two
  placed_fields =
      slice_before two _ _ content refl content_room (entry_at i + 24) (entry_at i + 40)
        (omega (arith, h)) (omega arith)
      ∙ slice-assign one _ _ _ fields_end (omega (arith, h, r, length-one))

  pub placed_content :
      slice (place i (name, content) image) (byte_of i) (byte_of i + length content) ≡ content
  unfolding place one two
  placed_content = slice-assign two _ _ content refl content_room

  -- What is behind the entry and before the extent.
  pub place-Beyond :
      (x y : ℕ)
      → x ≤ y
      → entry_at i + 40 ≤ x
      → y ≤ byte_of i
      → slice (place i (name, content) image) x y ≡ slice image x y
  unfolding place one two
  place-Beyond x y p q s =
      slice_before two _ _ content refl content_room x y s p
      ∙ (slice_after one _ _ _ fields_end (omega (arith, h, r, length-one)) x y (omega (arith, q))
          ∙ slice_after image _ _ _ name_end (omega (arith, h, r)) x y (omega (arith, q)))

  pub place-Untouched :
      (x y : ℕ)
      → x ≤ y
      → Untouched i x y
      → slice (place i (name, content) image) x y ≡ slice image x y
  unfolding place one two
  place-Untouched x y p (inl q) =
      slice_before two _ _ content refl content_room x y (omega (arith, h, q)) p
      ∙ (slice_before one _ _ _ fields_end (omega (arith, h, r, length-one)) x y (omega (arith, q))
            p
          ∙ slice_before image _ _ _ name_end (omega (arith, h, r)) x y q p)
  place-Untouched x y p (inr (q, s)) = place-Beyond x y p (omega (arith, h, q)) s

-- ===== src/Mkfs/Checked.antt =====
-- kernel/mkfs.py: `_self_check` of an image that holds its files.
use mort.Base.{
  ℕ, ◌+◌, ◌*◌, ◌≤◌, ◌<◌, ltb, true, false, ◌==◌, ◌≡◌, refl, ap, sym, ◌∙◌, List, [], ◌∷◌, length,
  All, arith, Text, text_eq_refl,
}
use mort.Base.Result.{ok}
use mort.Mkfs.Bytes.{Bytes, slice, numbers, unpack_from}
use mort.Mkfs.Image.{padded, entry_at, check_entry, check_entries, check_block, self_check, sector}
use mort.Mkfs.Layout.{fields_of, fields-Small}
use mort.Mkfs.Packed.{packed, numbers-packed, Small}
use mort.Mkfs.Seeds.{File}
use mort.Mkfs.Stored.{At, Holds, Stored, Ready, block_of, block-Small}

eq_refl : (a : ℕ) → (a == a) ≡ true
eq_refl a = ground arith

inside : (a b : ℕ) → b ≤ a → ltb a b ≡ false
inside a b h = ground arith

-- Numbers that were packed at a place are read there.
unpack_from-packed :
    (ns : List ℕ) (bytes : Bytes) (x y : ℕ)
    → All Small ns
    → y ≡ x + 4 * length ns
    → y ≤ length bytes
    → slice bytes x y ≡ packed ns
    → unpack_from (length ns) bytes x ≡ ok ns
unfolding unpack_from
unpack_from-packed ns bytes x y s e h p =
    rw (inside (length bytes) (x + 4 * length ns) (omega (arith, e, h))) (
      ap (λ t. ok (numbers (length ns) t)) (ap (λ z. slice bytes x z) (sym e) ∙ p)
      ∙ ap (λ t. ok t) (numbers-packed ns s))

check_entry-At :
    (bytes : Bytes) (i : ℕ) (name : Text) (content : Bytes)
    → i < 64
    → entry_at i + 40 ≤ length bytes
    → At bytes i name content
    → check_entry bytes i (name, content) ≡ ok tt
unfolding check_entry
check_entry-At bytes i name content h r a =
    rw
      (
        a.at_name,
        text_eq_refl (padded name),
        unpack_from-packed (fields_of i (name, content)) bytes (entry_at i + 24) (entry_at i + 40)
            (fields-Small i (name, content) a.fits h) (omega arith) r a.at_fields,
        text_eq_refl (fields_of i (name, content)),
        a.at_content,
        text_eq_refl content,
      )
      refl

check_entries-Holds :
    (bytes : Bytes) (i : ℕ) (files : List File)
    → i + length files ≤ 64
    → entry_at 64 ≤ length bytes
    → Holds bytes i files
    → check_entries bytes i files ≡ ok tt
unfolding check_entries
check_entries-Holds bytes i [] h r a = refl
check_entries-Holds bytes i ((name, content) ∷ files) h r a =
    rw (check_entry-At bytes i name content (omega (arith, h)) (omega (arith, h, r)) a.0)
      (check_entries-Holds bytes (i + 1) files (omega (arith, h)) r a.1)

check_block-block_of :
    (total : ℕ) (files : List File) → check_block (block_of total files) total files ≡ ok tt
unfolding check_block
check_block-block_of total files =
    rw (eq_refl (length files), eq_refl total, next_test (length files)) refl
  where
    next_test : (n : ℕ) → (16 + n * 128 == 16 + 128 * n) ≡ true
    next_test n = ground arith

-- The check accepts an image with its files.
pub self_check-Stored :
    (bytes : Bytes) (total : ℕ) (files : List File)
    → Ready total files
    → entry_at 64 ≤ length bytes
    → Stored bytes total files
    → self_check bytes total files ≡ ok tt
unfolding self_check
self_check-Stored bytes total files v r a =
    rw
      (
        a.size,
        eq_refl (total * sector),
        unpack_from-packed (block_of total files) bytes 0 20 (block-Small total files v) refl
            (omega (arith, r)) a.at_block,
        check_block-block_of total files,
      )
      (check_entries-Holds bytes 0 files (omega (arith, v.few)) r a.holds)

-- ===== src/Mkfs/Unused.antt =====
-- kernel/mkfs.py: the entries of the table behind those of the files are left at zero.
use mort.Base.{
  ℕ, zero, suc, ◌+◌, ◌-◌, ◌*◌, ◌≤◌, ◌<◌, ◌≡◌, refl, ap, ◌∙◌, List, [], ◌∷◌, length, take, drop,
  replicate, All, arith,
}
use mort.Mkfs.Bytes.{Bytes, slice}
use mort.Mkfs.Image.{entry_at, sector}
use mort.Mkfs.Layout.{byte_of, Fits, place_all, length-place, place-Beyond}
use mort.Mkfs.Packed.{packed, length-packed}
use mort.Mkfs.Seeds.{File}
use mort.Mkfs.Slices.{slice_after, length-replicate}
use mort.Mkfs.Stored.{Ready, assembled, block_of, length-place_all}

place_all-Beyond :
    (i : ℕ) (files : List File) (image : Bytes)
    → All Fits files
    → i + length files ≤ 64
    → byte_of (i + length files) ≤ length image
    → (x y : ℕ) → x ≤ y
    → entry_at (i + length files) ≤ x
    → y ≤ 4608
    → slice (place_all i files image) x y ≡ slice image x y
unfolding place_all
place_all-Beyond i [] image f h r x y p q s = refl
place_all-Beyond i ((name, content) ∷ files) image f h r x y p q s =
    let here = length-place i name content image f.0 (omega (arith, h)) (omega (arith, r)) in
    place_all-Beyond (i + 1) files _ f.1 (omega (arith, h)) (omega (arith, r, here)) x y p
      (omega (arith, q)) s
    ∙ place-Beyond i name content image f.0 (omega (arith, h)) (omega (arith, r)) x y p
        (omega (arith, q)) (omega (arith, s))

drop-replicate : (k n m c : ℕ) → n ≡ k + m → drop k (replicate n c) ≡ replicate m c
drop-replicate zero n m c h = ap (λ z. replicate z c) (omega (arith, h))
drop-replicate (suc k) zero m c h = absurd (omega (arith, h))
drop-replicate (suc k) (suc n) m c h = drop-replicate k n m c (omega (arith, h))

take-replicate : (k n c : ℕ) → k ≤ n → take k (replicate n c) ≡ replicate k c
take-replicate zero n c h = refl
take-replicate (suc k) zero c h = absurd (omega (arith, h))
take-replicate (suc k) (suc n) c h = ap (◌∷◌ c) (take-replicate k n c (omega (arith, h)))

slice-replicate : (n x k : ℕ) → x + k ≤ n → slice (replicate n 0) x (x + k) ≡ replicate k 0
slice-replicate n x k h =
    ap (take (x + k - x)) (drop-replicate x n (n - x) 0 (omega (arith, h)))
    ∙ take-replicate (x + k - x) (n - x) 0 (omega (arith, h))
    ∙ ap (λ m. replicate m 0) (omega arith)

-- The fields of an entry behind the files: the 16 bytes from its 24th on.
pub unused_fields :
    (total : ℕ) (files : List File)
    → Ready total files
    → (i : ℕ) → length files ≤ i
    → i < 64
    → slice (assembled total files) (entry_at i + 24) (entry_at i + 24 + 16) ≡ replicate 16 0
unfolding assembled
unused_fields total files v i h k =
    let zeros : Bytes = replicate (total * sector) 0 in
    let few : 0 + length files ≤ 64 = omega (arith, v.few) in
    let p : byte_of (0 + length files) ≤ length zeros =
      omega (arith, v.room, length-replicate (total * sector) 0) in
    let q : length (place_all 0 files zeros) ≡ length zeros =
      length-place_all 0 files zeros v.all_fit few p in
    slice_after (place_all 0 files zeros) 0 20 (packed (block_of total files))
      (omega (arith, length-packed (block_of total files))) (omega (arith, p, q)) _ _ (omega arith)
    ∙ place_all-Beyond 0 files zeros v.all_fit few p _ _ (omega arith) (omega (arith, h))
        (omega (arith, k))
    ∙ slice-replicate (total * sector) (entry_at i + 24) 16 (omega (arith, k, v.room))

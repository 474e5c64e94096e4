-- ===== src/Mkfs/Tests.antt =====
-- Disk images of two files, and witnesses of the properties.
use mort.Base.{codes, ◌≡◌, ◌++◌, refl, List, [], ◌∷◌, Text, Option, some, none, arith}
use mort.Base.Result.{ok, ◌>>=◌}
use mort.Mkfs.Bytes.{Bytes, pack, unpack_from, numbers}
use mort.Mkfs.Image.{assemble, make}
use mort.Mkfs.Made.{Outcome, make-Outcome}
use mort.Mkfs.ReadBack.{contents, read_image-assemble, Apart, assemble-Apart}
use mort.Mkfs.Seeded.{AllNamed}
use mort.Mkfs.Seeds.{File, text, pair, parse_add, rfind, basename, good_name, all_printable, to_lf}
use mort.Mkfs.Spec.{parse_add-split}
use mort.Mkfs.Stored.{Ready, assembled, assemble-assembled}

-- A drive letter is no separator.
drive_lem : parse_add (codes "C:/notes/a.txt") ≡ (codes "C:/notes/a.txt", codes "a.txt")
unfolding parse_add rfind basename
drive_lem = refl

-- The bytes of two numbers, and the numbers read back.
pack_lem : (pack (70000 ∷ (3 ∷ [])) >>= λ bytes. unpack_from 2 bytes 0) ≡ ok (70000 ∷ (3 ∷ []))
unfolding pack unpack_from numbers
pack_lem = refl

-- Two returns before a newline leave one.
to_lf_lem : to_lf (97 ∷ (13 ∷ (13 ∷ (10 ∷ (98 ∷ []))))) ≡ 97 ∷ (13 ∷ (10 ∷ (98 ∷ [])))
unfolding to_lf
to_lf_lem = refl

abbrev two_files : List File
two_files = (codes "a.txt", 104 ∷ (105 ∷ (10 ∷ []))) ∷ ((codes "app.bin", 0 ∷ (255 ∷ [])) ∷ [])

two_files-Ready : Ready 300 two_files
two_files-Ready = record {
  all_fit = ((omega arith, omega arith), ((omega arith, omega arith), tt));
  few = omega arith;
  room = omega arith;
  small = omega arith;
}

two_files-AllNamed : AllNamed two_files
unfolding good_name all_printable
two_files-AllNamed = (
  record { good = refl; fits = (omega arith, omega arith) },
  (record { good = refl; fits = (omega arith, omega arith) }, tt),
)

abbrev host_files : Text → Option Bytes
host_files [] = none
host_files (c ∷ cs) = some (codes "print(1)\r\n")

make-Outcome_example :
    Outcome host_files 1
      (text (codes "boot.ml:init") ∷ [])
      (pair (codes "x") (codes "x.bin") ∷ [])
      (make host_files 1 (text (codes "boot.ml:init") ∷ []) (pair (codes "x") (codes "x.bin") ∷ []))
make-Outcome_example =
    make-Outcome host_files 1 (text (codes "boot.ml:init") ∷ [])
      (pair (codes "x") (codes "x.bin") ∷ [])

read_image-assemble_example :
    (assemble 300 two_files >>= λ image. ok (contents image)) ≡ ok (some two_files, 2)
read_image-assemble_example = read_image-assemble 300 two_files two_files-Ready two_files-AllNamed

assemble-Apart_example : Apart (assembled 300 two_files) 300 0 1
assemble-Apart_example =
    assemble-Apart 300 two_files (assembled 300 two_files) two_files-Ready
      (assemble-assembled 300 two_files two_files-Ready) 0 1 (omega arith) (omega arith)

parse_add-split_example :
    parse_add (codes "C:/a.txt" ++ (b':' ∷ codes "notes")) ≡ (codes "C:/a.txt", codes "notes")
parse_add-split_example = parse_add-split (codes "C:/a.txt") b'n' (codes "otes") (omega arith) refl

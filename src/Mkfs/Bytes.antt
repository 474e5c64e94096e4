-- ===== src/Mkfs/Bytes.antt =====
-- kernel/mkfs.py: the byte arrays and the `struct` formats that it uses.
use mort.Base.{
  ℕ, zero, suc, ◌+◌, ◌-◌, ◌*◌, ◌/◌, ◌%◌, ltb, List, [], ◌∷◌, ◌++◌, if◌then◌else◌, length, take,
  drop,
}
use mort.Base.Result.{Result, ok, raise, ◌>>=◌}

-- `sys.exit` with its messages, and `struct.error`.
pub data Exit : Type 0 where
  bad_size bad_name duplicate_name cannot_read too_big too_many no_room struct_error : Exit
  wrong_length wrong_magic wrong_version wrong_count wrong_next wrong_total : Exit
  wrong_name wrong_fields wrong_content : Exit

-- A bytes object; each item is below 256.
abbrev pub Bytes : Type 0
Bytes = List ℕ

-- `bytes[a:b]`
abbrev pub slice : Bytes → ℕ → ℕ → Bytes
slice bytes a b = take (b - a) (drop a bytes)

-- `image[a:b] = s`
unfoldable pub assign : Bytes → ℕ → ℕ → Bytes → Bytes
assign image a b s = take a image ++ (s ++ drop (a + (b - a)) image)

abbrev pub u32 : ℕ → Bytes
u32 n = n % 256 ∷ (n / 256 % 256 ∷ (n / 65536 % 256 ∷ (n / 16777216 % 256 ∷ [])))

-- `struct.pack("<I...I", ...)`
unfoldable pub pack : List ℕ → Result Exit Bytes
pack [] = ok []
pack (n ∷ ns) =
    if ltb n 4294967296 then (do rest ← pack ns; ok (u32 n ++ rest)) else raise struct_error

unfoldable pub numbers : ℕ → Bytes → List ℕ
numbers zero bs = []
numbers (suc k) (a ∷ (b ∷ (c ∷ (d ∷ bs)))) = (a + 256 * b + 65536 * c + 16777216 * d) ∷ numbers k bs
numbers (suc k) _ = []

-- `struct.unpack_from("<I...I", data, offset)`, with `count` times I
unfoldable pub unpack_from : ℕ → Bytes → ℕ → Result Exit (List ℕ)
unpack_from count bytes offset =
    if ltb (length bytes) (offset + 4 * count)
    then raise struct_error
    else ok (numbers count (slice bytes offset (offset + 4 * count)))

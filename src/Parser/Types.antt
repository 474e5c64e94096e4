-- ===== src/Parser/Types.antt =====
-- mort/parser.py, `_type_name`: a type is read as its text.
use Prim.Native.String.{String}
use mort.Base.{
  ℕ, zero, suc, ltb, Bool, false, not, ◌&&◌, ◌||◌, List, [], ◌∷◌, ◌++◌, if◌then◌else◌, length, Text,
  codes, text_eq,
}
use mort.Base.Result.{out_of_fuel}
use mort.Errors.{short_tuple_type, expected}
use mort.Parser.Loops.{fuel, one_or_more, arguments, commas_until}
use mort.Parser.State.{
  Parse, pure, ◌>>=◌, ◌>>◌, fail_at, fail_showing, peek, at, advance, expect, expect_type_close,
  text_of, show_value, join,
}
use mort.Token.{
  TokenType, ◌is◌, kw_fn, lparen, rparen, arrow, comma, star, kw_const, lbracket, rbracket, semi,
  kw_int, kw_bool, kw_void, ident, lt,
}

abbrev pub comma_join : List Text → Text
comma_join xs = join (codes ",") xs

-- `s in xs`
abbrev pub among : Text → List Text → Bool
among s [] = false
among s (x ∷ xs) = text_eq s x || among s xs

-- `FIXED_INT_TYPES | FLOAT_TYPES`
abbrev pub fixed_types : List Text
fixed_types =
    codes "i8"
    ∷ codes "i16"
    ∷ codes "i32"
    ∷ codes "i64"
    ∷ codes "u8"
    ∷ codes "u16"
    ∷ codes "u32"
    ∷ codes "u64"
    ∷ codes "c_char"
    ∷ codes "c_uchar"
    ∷ codes "c_short"
    ∷ codes "c_ushort"
    ∷ codes "c_int"
    ∷ codes "c_uint"
    ∷ codes "c_long"
    ∷ codes "c_ulong"
    ∷ codes "c_size"
    ∷ codes "f32"
    ∷ codes "f64"
    ∷ []

-- The alternatives, over the production `type` for the types inside.
module _ (type : Parse Text) where
  unfoldable pub function_type : Parse Text
  function_type = do
    advance
    expect lparen "'('"
    parameters ← arguments type rparen
    expect rparen "')'"
    expect arrow "'->'"
    result ← type
    pure (codes "fn(" ++ (comma_join parameters ++ (codes ")->" ++ result)))

  unfoldable pub tuple_elements : ℕ → Text → Parse Text
  tuple_elements line first = do
    c ← at comma
    if not c then fail_at short_tuple_type line else (do
      elements ← λ p. commas_until type rparen (fuel p) (first ∷ []) p
      expect rparen "')'"
      if ltb (length elements) 2
          then fail_at short_tuple_type line
          else pure (codes "(" ++ (comma_join elements ++ codes ")")))

  unfoldable pub tuple_type : Parse Text
  tuple_type = do t ← advance; first ← type; tuple_elements t.line first

  -- Behind `*` and `[]`: `const`, if it is there, and the type.
  unfoldable pub qualified : String → Parse Text
  qualified mark = do
    c ← at kw_const
    if c
        then (do advance; t ← type; pure (codes mark ++ (codes "const " ++ t)))
        else (do t ← type; pure (codes mark ++ t))

  unfoldable pub array_type : Parse Text
  array_type = do
    elem ← type
    expect semi "';'"
    n ← expect TokenType.int "an array size"
    expect rbracket "']'"
    size ← show_value n.value
    pure (codes "[" ++ (elem ++ (codes ";" ++ (size ++ codes "]"))))

  unfoldable pub bracket_type : Parse Text
  bracket_type = do advance; c ← at rbracket; if c then (do advance; qualified "[]") else array_type

  unfoldable pub nominal_type : Text → Parse Text
  nominal_type name = do
    advance
    c ← at lt
    if c
        then (do
          advance
          args ← one_or_more type
          expect_type_close
          pure (name ++ (codes "<" ++ (comma_join args ++ codes ">"))))
        else pure name

  unfoldable pub type_step : Parse Text
  type_step = do
    t ← peek 0
    if t.type is kw_fn
        then function_type
        else if t.type is lparen
        then tuple_type
        else if t.type is star
        then (do advance; qualified "*")
        else if t.type is lbracket
        then bracket_type
        else if t.type is kw_int
        then (do advance; pure (codes "i64"))
        else if t.type is kw_bool
        then (do advance; pure (codes "bool"))
        else if t.type is kw_void
        then (do advance; pure (codes "void"))
        else if t.type is ident && among (text_of t.value) fixed_types
        then (do advance; pure (text_of t.value))
        else if t.type is ident
        then nominal_type (text_of t.value)
        else fail_showing (expected "a type") t.value t.line

-- `_type_name()`, a unit of fuel for each type inside a type.
unfoldable pub type_in : ℕ → Parse Text
type_in zero p = out_of_fuel
type_in (suc n) p = type_step (type_in n) p

unfoldable pub type_name : Parse Text
type_name p = type_in (fuel p) p

-- ===== src/Lexer/Number.antt =====
-- mort/lexer.py, `Lexer._number`: the tuple index behind a dot, hexadecimal, binary and octal
-- literals, floating-point literals, and decimal integers.
pub mod Decimals
use mort.Base.{
  ℕ, zero, suc, ◌+◌, ◌-◌, ◌*◌, ◌^◌, Bool, true, false, not, ◌&&◌, ◌||◌, List, [], ◌∷◌, ◌++◌, Option,
  none, some, ◌==◌, ltb, leb, if◌then◌else◌, length, Text, codes, elem, remove,
}
use mort.Base.Result.{Result, ok, raise, ◌>>=◌, ◌>>◌}
use mort.Lexer.Cursor.{Cursor, peek, advance, scan, is_digit, Unicode}
use mort.Errors.{
  Exception, Message, value_error, fail, tuple_index_not_decimal, invalid_hex_prefix, invalid_hex,
  invalid_binary, invalid_octal, invalid_separator, invalid_exponent, invalid_float,
  float_out_of_range, invalid_number,
}
use mort.Token.{TokenType, Decimal, Value, Token, int, float, dot}

-- What a handler gives: the token that it adds, and the cursor behind it.
abbrev pub Scanned : Type 0
Scanned = Result Exception (Token × Cursor)

abbrev pub make : TokenType → Value → ℕ → ℕ → Token
make type value line col = record { type = type; value = value; line = line; col = col }

abbrev pub is_hex : ℕ → Bool
is_hex c = is_digit c || (leb b'a' c && leb c b'f') || (leb b'A' c && leb c b'F')

-- The value of a digit of any base up to 16.
abbrev pub digit_value : ℕ → ℕ
digit_value c = if leb c b'9' then c - b'0' else if leb c b'F' then c - 55 else c - 87

-- The number that the digits spell behind those read before, `int(s, base)` from 0.
unfoldable pub digits : ℕ → ℕ → Text → ℕ
digits base acc [] = acc
digits base acc (c ∷ cs) = digits base (acc * base + digit_value c) cs

-- `sys.int_info.default_max_str_digits`: `int()` refuses more decimal digits.
abbrev pub max_str_digits : ℕ
max_str_digits = 4300

-- `int(s)` of decimal digits
unfoldable pub int_decimal : Text → Result Exception ℕ
int_decimal s = if ltb max_str_digits (length s) then raise value_error else ok (digits 10 0 s)

abbrev pub is_separator : ℕ → Bool
is_separator c = c == b'_'

-- `s.startswith("_")`, `s.endswith("_")`, `"__" in s`
abbrev pub starts_separator : Text → Bool
starts_separator [] = false
starts_separator (c ∷ cs) = is_separator c

abbrev pub ends_separator : Text → Bool
ends_separator [] = false
ends_separator (c ∷ []) = is_separator c
ends_separator (c ∷ (d ∷ ds)) = ends_separator (d ∷ ds)

abbrev pub double_separator : Text → Bool
double_separator [] = false
double_separator (c ∷ []) = false
double_separator (c ∷ (d ∷ ds)) = (is_separator c && is_separator d) || double_separator (d ∷ ds)

unfoldable pub bad_separators : Text → Bool
bad_separators s = starts_separator s || ends_separator s || double_separator s

abbrev pub is_empty : Text → Bool
is_empty [] = true
is_empty (c ∷ cs) = false

-- The longest front of a text that passes a test, and what follows it.
unfoldable pub span : (ℕ → Bool) → Text → Text × Text
span test [] = ([], [])
span test (c ∷ cs) =
    let more = span test cs in if test c then (c ∷ more.0, more.1) else ([], c ∷ cs)

-- The parts of a floating-point text that `float()` reads: fraction, and signed exponent.
fraction : Text → Text × Text
unfolding span
fraction (c ∷ cs) = if c == b'.' then span is_digit cs else ([], c ∷ cs)
fraction [] = ([], [])

signed : Text → Bool × ℕ
unfolding digits
signed (c ∷ cs) =
    if c == b'-'
    then (true, digits 10 0 cs)
    else if c == b'+'
    then (false, digits 10 0 cs)
    else (false, digits 10 0 (c ∷ cs))
signed [] = (false, 0)

exponent_part : Text → Bool × ℕ
unfolding signed
exponent_part (c ∷ cs) = signed cs
exponent_part [] = (false, 0)

-- The number that `float(s)` rounds.
unfoldable pub decimal : Text → Decimal
unfolding span fraction exponent_part digits
decimal s =
    let whole = span is_digit s in
    let part = fraction whole.1 in
    let power = exponent_part part.1 in
    record {
      mantissa = digits 10 0 (whole.0 ++ part.0);
      scale = length part.0;
      negative = power.0;
      exponent = power.1;
    }

-- `math.isfinite(float(s))`: a number from (2^54 - 1) * 2^970 on rounds to infinity.
unfoldable pub is_finite : Decimal → Bool
is_finite d =
    let bound = (2 ^ 54 - 1) * 2 ^ 970 in
    if d.negative
    then ltb d.mantissa (bound * 10 ^ (d.scale + d.exponent))
    else ltb (d.mantissa * 10 ^ d.exponent) (bound * 10 ^ d.scale)

-- A sign under the cursor, if there is one.
unfoldable pub sign : Cursor → Result Exception (Text × Cursor)
sign c =
    if elem (peek c 0) (codes "+-") then (do (x, c') ← advance c; ok (x ∷ [], c')) else ok ([], c)

abbrev pub exponent_digits : Text → Cursor → ℕ → ℕ → Result Exception (Text × Cursor)
exponent_digits s c line col =
    let d = scan is_digit c in
    if is_digit (peek c 0) then ok (s ++ d.0, d.1) else fail invalid_exponent line col

-- The `e` or `E` under the cursor, a sign if there is one, and at least one digit.
unfoldable pub exponent : Text → Cursor → ℕ → ℕ → Result Exception (Text × Cursor)
unfolding sign
exponent s c line col = do
  (e, c1) ← advance c
  (marked, c2) ← sign c1
  exponent_digits (s ++ (e ∷ marked)) c2 line col

-- Two characters of a prefix are read before the digits.
abbrev pub skip_two : Cursor → Result Exception Cursor
skip_two c = do (a, c1) ← advance c; (b, c2) ← advance c1; ok c2

abbrev pub is_dot : Option TokenType → Bool
is_dot (some dot) = true
is_dot _ = false

module _ (u : Unicode) where
  abbrev pub ends_badly : Cursor → Bool
  ends_badly c = u.is_alnum (peek c 0) || peek c 0 == b'_'

  -- Behind a dot: digits alone, a tuple index.
  unfoldable pub tuple_index : Cursor → ℕ → ℕ → Scanned
  tuple_index c line col =
      let s = scan is_digit c in
      if u.is_alpha (peek s.1 0) || peek s.1 0 == b'_'
      then fail tuple_index_not_decimal line col
      else do n ← int_decimal s.0; ok (make TokenType.int (int n) line col, s.1)

  unfoldable pub hex_digits : Cursor → ℕ → ℕ → Scanned
  unfolding bad_separators
  hex_digits c line col =
      let s = scan (λ x. is_hex x || is_separator x) c in
      if is_empty s.0 || bad_separators s.0
      then fail invalid_hex_prefix line col
      else if ends_badly s.1
      then fail invalid_hex line col
      else ok (make TokenType.int (int (digits 16 0 (remove b'_' s.0))) line col, s.1)

  -- Binary and octal digits, below `base`, 2 or 8.
  unfoldable pub radix_digits : ℕ → Message → Cursor → ℕ → ℕ → Scanned
  unfolding bad_separators
  radix_digits base message c line col =
      let s = scan (λ x. (leb b'0' x && ltb x (b'0' + base)) || is_separator x) c in
      if is_empty s.0 || bad_separators s.0 || ends_badly s.1
      then fail message line col
      else ok (make TokenType.int (int (digits base 0 (remove b'_' s.0))) line col, s.1)

  -- What both kinds of floating-point literal do with their text.
  unfoldable pub finish_float : Text → Cursor → ℕ → ℕ → Scanned
  finish_float s c line col =
      if ends_badly c
      then fail invalid_float line col
      else if not (is_finite (decimal (remove b'_' s)))
      then fail float_out_of_range line col
      else ok (make TokenType.float (float (decimal (remove b'_' s))) line col, c)

  -- From the dot on, behind the whole part `s`.
  unfoldable pub fraction_literal : Text → Cursor → ℕ → ℕ → Scanned
  unfolding exponent finish_float
  fraction_literal s c line col = do
    (point, c1) ← advance c
    let d = scan is_digit c1
    let s1 = s ++ (point ∷ d.0)
    (s2, c2) ← if elem (peek d.1 0) (codes "eE") then exponent s1 d.1 line col else ok (s1, d.1)
    finish_float s2 c2 line col

  -- Behind the digits and separators `s` of a decimal literal.
  unfoldable pub decimal_rest : Text → Cursor → ℕ → ℕ → Scanned
  unfolding bad_separators fraction_literal exponent finish_float int_decimal
  decimal_rest s c line col =
      if bad_separators s
      then fail invalid_separator line col
      else if peek c 0 == b'.' && is_digit (peek c 1)
      then fraction_literal s c line col
      else if elem (peek c 0) (codes "eE")
      then (do (s', c') ← exponent s c line col; finish_float s' c' line col)
      else if u.is_alpha (peek c 0) || peek c 0 == b'_'
      then fail (invalid_number (s ++ peek c 0 ∷ [])) line col
      else (do n ← int_decimal (remove b'_' s); ok (make TokenType.int (int n) line col, c))

  -- `_number(line, col)`, where `last` is the type of the last token, if there is one.
  unfoldable pub number : Option TokenType → Cursor → ℕ → ℕ → Scanned
  unfolding tuple_index hex_digits radix_digits decimal_rest
  number last c line col =
      if is_dot last
      then tuple_index c line col
      else if peek c 0 == b'0' && elem (peek c 1) (codes "xX")
      then (do c2 ← skip_two c; hex_digits c2 line col)
      else if peek c 0 == b'0' && elem (peek c 1) (codes "bB")
      then (do c2 ← skip_two c; radix_digits 2 invalid_binary c2 line col)
      else if peek c 0 == b'0' && elem (peek c 1) (codes "oO")
      then (do c2 ← skip_two c; radix_digits 8 invalid_octal c2 line col)
      else let s = scan (λ x. is_digit x || is_separator x) c in decimal_rest s.0 s.1 line col

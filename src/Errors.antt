-- ===== src/Errors.antt =====
-- mort/errors.py (`MortError.__init__`) and the `raise` statements of mort/lexer.py and mort/parser.py.
use Prim.Native.String.{String}
use mort.Base.{ℕ, Option, none, some, Text}
use mort.Base.Result.{Result, raise}
use mort.Token.{Value}

-- The message of each `raise MortError(...)`, with what it interpolates.
pub data Message : Type 0 where
  tuple_index_not_decimal : Message
  invalid_hex_prefix invalid_hex invalid_binary invalid_octal : Message
  invalid_separator : Message
  invalid_exponent invalid_float float_out_of_range : Message
  invalid_number : Text → Message
  unterminated_comment : Message
  empty_char invalid_hex_escape : Message
  unknown_escape : ℕ → Message
  not_one_byte outside_u8 : Message
  unterminated_string : Message
  unexpected_character : ℕ → Message
  expected : String → Value → Message
  module_not_first pub_needs_function resource_needs_struct : Message
  short_tuple_type short_tuple : Message
  invalid_target : Message
  type_arguments_need_name call_needs_name : Message
  unexpected_token : Value → Message
  empty_array : Message

-- `MortError(msg, line, col)`, where the parser gives no column.
pub record MortError : Type 0 where
  pub msg : Message
  pub line : ℕ
  pub col : Option ℕ

-- `IndexError` of an access behind the end of a list or text, and `ValueError` of `int()`, `str()` or `repr()` on
-- more digits than Python converts, are exceptions that the compiler does not mean to raise.
pub data Exception : Type 0 where
  mort_error : MortError → Exception
  index_error : Exception
  value_error : Exception

-- `raise MortError(msg, line, col)`, as the lexer does.
abbrev pub fail {ℓ} : {A : Type ℓ} → Message → ℕ → ℕ → Result Exception A
fail m line col = raise (mort_error (record { msg = m; line = line; col = some col }))

-- `raise MortError(msg, line)`, as the parser does.
abbrev pub reject {ℓ} : {A : Type ℓ} → Message → ℕ → Result Exception A
reject m line = raise (mort_error (record { msg = m; line = line; col = none }))

-- ===== src/Token.antt =====
-- mort/tokens.py: the kinds of token (the enumeration `T`; a keyword that has no KW_ there gets `kw_`,
-- since `let`, `in`, `true` and others are taken), the keyword table, and tokens.
use mort.Base.{ℕ, Bool, false, ◌||◌, List, [], ◌∷◌, ◌==◌, Text, codes}

pub data TokenType : Type 0 where
  int float char string ident kw_let kw_fn kw_return kw_if kw_else kw_while kw_loop : TokenType
  kw_for kw_in kw_true kw_false kw_int kw_bool kw_as kw_struct kw_asm kw_extern : TokenType
  kw_break kw_continue kw_void kw_import kw_enum kw_match kw_const kw_test kw_module : TokenType
  kw_pub kw_defer kw_try kw_type kw_null kw_resource kw_move lparen rparen lbrace : TokenType
  rbrace comma semi colon arrow fat_arrow dot dot_dot dot_dot_eq amp lbracket rbracket : TokenType
  assign plus_assign minus_assign star_assign slash_assign percent_assign amp_assign : TokenType
  pipe_assign caret_assign shl_assign shr_assign plus minus star slash percent eq ne : TokenType
  lt gt le ge and or bang pipe caret tilde shl shr eof : TokenType

-- A floating-point literal as the number that its digits spell, mantissa / 10 ^ scale times ten to
-- the exponent, which is minus `exponent` if `negative`. `float()` rounds it to a double.
pub record Decimal : Type 0 where
  pub mantissa : ℕ
  pub scale : ℕ
  pub negative : Bool
  pub exponent : ℕ

-- What `Token.value` holds: `None`, an `int`, a `float` or a `str`.
pub data Value : Type 0 where
  nothing : Value
  int : ℕ → Value
  float : Decimal → Value
  str : Text → Value

pub record Token : Type 0 where
  pub type : TokenType
  pub value : Value
  pub line : ℕ
  pub col : ℕ

-- `KEYWORDS`, in its order.
abbrev pub keywords : List (Text × TokenType)
keywords =
    (codes "let", kw_let)
    ∷ (codes "fn", kw_fn)
    ∷ (codes "return", kw_return)
    ∷ (codes "if", kw_if)
    ∷ (codes "else", kw_else)
    ∷ (codes "while", kw_while)
    ∷ (codes "loop", kw_loop)
    ∷ (codes "for", kw_for)
    ∷ (codes "in", kw_in)
    ∷ (codes "true", kw_true)
    ∷ (codes "false", kw_false)
    ∷ (codes "int", kw_int)
    ∷ (codes "bool", kw_bool)
    ∷ (codes "as", kw_as)
    ∷ (codes "struct", kw_struct)
    ∷ (codes "asm", kw_asm)
    ∷ (codes "extern", kw_extern)
    ∷ (codes "break", kw_break)
    ∷ (codes "continue", kw_continue)
    ∷ (codes "void", kw_void)
    ∷ (codes "import", kw_import)
    ∷ (codes "enum", kw_enum)
    ∷ (codes "match", kw_match)
    ∷ (codes "const", kw_const)
    ∷ (codes "test", kw_test)
    ∷ (codes "module", kw_module)
    ∷ (codes "pub", kw_pub)
    ∷ (codes "defer", kw_defer)
    ∷ (codes "try", kw_try)
    ∷ (codes "type", kw_type)
    ∷ (codes "null", kw_null)
    ∷ (codes "resource", kw_resource)
    ∷ (codes "move", kw_move)
    ∷ []

-- The number that `auto()` gives to each kind; two kinds are the same if their numbers are.
abbrev pub tag : TokenType → ℕ
tag int = 1
tag float = 2
tag char = 3
tag string = 4
tag ident = 5
tag kw_let = 6
tag kw_fn = 7
tag kw_return = 8
tag kw_if = 9
tag kw_else = 10
tag kw_while = 11
tag kw_loop = 12
tag kw_for = 13
tag kw_in = 14
tag kw_true = 15
tag kw_false = 16
tag kw_int = 17
tag kw_bool = 18
tag kw_as = 19
tag kw_struct = 20
tag kw_asm = 21
tag kw_extern = 22
tag kw_break = 23
tag kw_continue = 24
tag kw_void = 25
tag kw_import = 26
tag kw_enum = 27
tag kw_match = 28
tag kw_const = 29
tag kw_test = 30
tag kw_module = 31
tag kw_pub = 32
tag kw_defer = 33
tag kw_try = 34
tag kw_type = 35
tag kw_null = 36
tag kw_resource = 37
tag kw_move = 38
tag lparen = 39
tag rparen = 40
tag lbrace = 41
tag rbrace = 42
tag comma = 43
tag semi = 44
tag colon = 45
tag arrow = 46
tag fat_arrow = 47
tag dot = 48
tag dot_dot = 49
tag dot_dot_eq = 50
tag amp = 51
tag lbracket = 52
tag rbracket = 53
tag assign = 54
tag plus_assign = 55
tag minus_assign = 56
tag star_assign = 57
tag slash_assign = 58
tag percent_assign = 59
tag amp_assign = 60
tag pipe_assign = 61
tag caret_assign = 62
tag shl_assign = 63
tag shr_assign = 64
tag plus = 65
tag minus = 66
tag star = 67
tag slash = 68
tag percent = 69
tag eq = 70
tag ne = 71
tag lt = 72
tag gt = 73
tag le = 74
tag ge = 75
tag and = 76
tag or = 77
tag bang = 78
tag pipe = 79
tag caret = 80
tag tilde = 81
tag shl = 82
tag shr = 83
tag eof = 84

infix 50 ◌is◌
abbrev pub ◌is◌ : TokenType → TokenType → Bool
a is b = tag a == tag b

-- `type in (...)`
abbrev pub one_of : TokenType → List TokenType → Bool
one_of t [] = false
one_of t (k ∷ ks) = t is k || one_of t ks

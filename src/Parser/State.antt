-- ===== src/Parser/State.antt =====
-- mort/parser.py, `Parser.__init__` and the token helpers. The state keeps the tokens from `self.i` on.
use Prim.Native.String.{String}
use mort.Base.{
  ℕ, zero, suc, ◌+◌, ◌/◌, ◌%◌, ◌^◌, Bool, false, List, [], ◌∷◌, ◌++◌, ltb, leb, if◌then◌else◌, Text,
  codes,
}
use mort.Base.Result
use mort.Base.Result.{Result, ok, raise}
use mort.Errors.{Exception, Message, expected, index_error, value_error, reject}
use mort.Token.{TokenType, Token, Value, ◌is◌, one_of, str, shr, ge, gt, assign}

-- The tokens from the current one on, and `_no_struct_lit`.
pub record Parser : Type 0 where
  pub toks : List Token
  pub no_struct_lit : Bool

-- A method of the parser that returns an `A`.
abbrev pub Parse {ℓ} : Type ℓ → Type ℓ
Parse A = Parser → Result Exception (A × Parser)

unfoldable pub pure {ℓ} : {A : Type ℓ} → A → Parse A
pure a p = ok (a, p)

module _ {ℓ κ} {A : Type ℓ} {B : Type κ} where
  infixl 5 ◌>>=◌ ◌>>◌
  unfoldable pub ◌>>=◌ : Parse A → (A → Parse B) → Parse B
  ◌>>=◌ m k p = Result.◌>>=◌ (m p) λ (a, q). k a q

  abbrev pub ◌>>◌ : Parse A → Parse B → Parse B
  m >> k = m >>= λ _. k

-- `raise MortError(msg, line)`
unfoldable pub fail_at {ℓ} : {A : Type ℓ} → Message → ℕ → Parse A
fail_at m line p = reject m line

-- Whether `repr` of a token's value raises ValueError: an integer of more than 4300 decimal digits, which
-- a literal of another base can spell.
abbrev pub is_long : Value → Bool
is_long (Value.int n) = leb (10 ^ 4300) n
is_long _ = false

-- `raise MortError(msg, line)` with `value!r` in the message
unfoldable pub fail_showing {ℓ} : {A : Type ℓ} → (Value → Message) → Value → ℕ → Parse A
fail_showing m v line p = if is_long v then raise value_error else reject (m v) line

-- `xs[offset]`, an IndexError behind the end.
abbrev pub nth : List Token → ℕ → Result Exception Token
nth [] offset = raise index_error
nth (t ∷ ts) zero = ok t
nth (t ∷ ts) (suc n) = nth ts n

-- `_peek(offset)`
unfoldable pub peek : ℕ → Parse Token
peek offset p = Result.◌>>=◌ (nth p.toks offset) λ t. ok (t, p)

abbrev pub rest_of : List Token → Bool → Result Exception (Token × Parser)
rest_of [] flag = raise index_error
rest_of (t ∷ ts) flag = ok (t, record { toks = ts; no_struct_lit = flag })

-- `_advance()`
unfoldable pub advance : Parse Token
advance p = rest_of p.toks p.no_struct_lit

-- `_at(type)`
unfoldable pub at : TokenType → Parse Bool
at k = do t ← peek 0; pure (t.type is k)

-- `self._peek().type in (...)`
unfoldable pub at_any : List TokenType → Parse Bool
at_any ks = do t ← peek 0; pure (one_of t.type ks)

-- `_expect(type, what)`
unfoldable pub expect : TokenType → String → Parse Token
expect k what = do
  t ← peek 0
  if t.type is k then advance else fail_showing (expected what) t.value t.line

-- The text that a token holds; the lexer gives one to identifiers, keywords and operators.
abbrev pub text_of : Value → Text
text_of (str s) = s
text_of _ = []

-- `_expect(T.IDENT, what).value`
unfoldable pub expect_name : String → Parse Text
expect_name what = do t ← expect TokenType.ident what; pure (text_of t.value)

abbrev pub renamed : TokenType → Text → Token → Token
renamed k s t = record { type = k; value = str s; line = t.line; col = t.col + 1 }

-- The current token becomes another one, a column on.
unfoldable pub replace : TokenType → Text → Parse (Unit {0})
replace k s p = elim p.toks [
  | [] ↦ raise index_error
  | t ∷ ts ↦ ok (tt, record { toks = renamed k s t ∷ ts; no_struct_lit = p.no_struct_lit })
]

abbrev pub closing : Token → Token
closing t = record { type = gt; value = str (codes ">"); line = t.line; col = t.col }

-- `_expect_type_close()`: of `>>` and `>=` it takes the first character and leaves the second.
unfoldable pub expect_type_close : Parse Token
expect_type_close = do
  t ← peek 0
  if t.type is shr
      then (do x ← replace gt (codes ">"); pure (closing t))
      else if t.type is ge
      then (do x ← replace assign (codes "="); pure (closing t))
      else expect gt "'>'"

-- `str(n)`: the decimal digits, one for each unit of fuel.
abbrev pub decimal_digits : ℕ → ℕ → Text → Text
decimal_digits zero n acc = acc
decimal_digits (suc fuel) n acc =
    let acc' = (n % 10 + b'0') ∷ acc in
    let more = decimal_digits fuel (n / 10) acc' in if ltb n 10 then acc' else more

-- A ValueError for more digits than Python converts.
unfoldable pub show : ℕ → Parse Text
show n p = if leb (10 ^ 4300) n then raise value_error else ok (decimal_digits 4300 n [], p)

-- `str(value)` of the value of an integer token.
unfoldable pub show_value : Value → Parse Text
show_value (Value.int n) = show n
show_value v = pure (text_of v)

-- `sep.join(parts)`
unfoldable pub join : Text → List Text → Text
join sep [] = []
join sep (s ∷ []) = s
join sep (s ∷ (t ∷ ts)) = s ++ (sep ++ join sep (t ∷ ts))

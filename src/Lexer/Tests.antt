-- ===== src/Lexer/Tests.antt =====
-- The lexer run on small sources, and its theorems at inputs that meet their hypotheses.
use mort.Base.{
  ℕ, ◌≡◌, ◌≢◌, ◌↔◌, refl, [], ◌∷◌, ◌++◌, codes, Text, none, replicate, arith, length, remove, All,
  ◌≤◌, ◌||◌, zero, suc, ap, true, false,
}
use mort.Base.Result.{ok, raise, out_of_fuel}
use mort.Lexer.Comment.Nesting.{IsClosed, block_comment_iff, opening}
use mort.Lexer.Comment.{block_comment, line_comment}
use mort.Lexer.Cursor.{Cursor, ascii, scan_on, is_digit}
use mort.Errors.{value_error, index_error}
use mort.Lexer.Literal.{char, string, identifier}
use mort.Lexer.Number.Decimals.{IsLiteral, number_decimal, number_overflow, here}
use mort.Lexer.Number.{
  number, make, digits, bad_separators, is_separator, ends_separator, double_separator,
  max_str_digits,
}
use mort.Lexer.Symbol.Munch.{Munches, symbol-Munches}
use mort.Lexer.Symbol.{symbol}
use mort.Lexer.Tokenize.Sound.{
  Lexed, tokenize-Lexed, tokenize-ne-out_of_fuel, tokenize-ne-index_error,
}
use mort.Lexer.Tokenize.{tokenize, step}
use mort.Token.{
  Token, TokenType, Value, int, str, nothing, kw_let, ident, assign, semi, shl_assign, dot, eof,
}

abbrev token : TokenType → Value → ℕ → ℕ → Token
token t v l k = record { type = t; value = v; line = l; col = k }

abbrev source : Text
source = codes "let x = 0x_1; /* a /* b */ c */\n t.0.1 <<= 'a' // end"

good :
    tokenize ascii (codes "let x = 0x1F; /* a /* b */ c */\n t.0.1 <<= 'a' // end")
    ≡ ok (
        token kw_let (str (codes "let")) 1 1
        ∷ token ident (str (codes "x")) 1 5
        ∷ token assign (str (codes "=")) 1 7
        ∷ token TokenType.int (int 31) 1 9
        ∷ token semi (str (codes ";")) 1 13
        ∷ token ident (str (codes "t")) 2 2
        ∷ token dot (str (codes ".")) 2 3
        ∷ token TokenType.int (int 0) 2 4
        ∷ token dot (str (codes ".")) 2 5
        ∷ token TokenType.int (int 1) 2 6
        ∷ token shl_assign (str (codes "<<=")) 2 8
        ∷ token TokenType.char (int 97) 2 12
        ∷ token eof nothing 2 22
        ∷ [])
unfolding tokenize step number scan_on char string identifier block_comment line_comment symbol
    digits
good = refl

tokenize-Lexed_example : Lexed source (tokenize ascii source)
tokenize-Lexed_example = tokenize-Lexed ascii source

tokenize-ne-out_of_fuel_example : tokenize ascii source ≢ out_of_fuel
tokenize-ne-out_of_fuel_example = tokenize-ne-out_of_fuel ascii source

tokenize-ne-index_error_example : tokenize ascii (codes "\"a\\") ≢ raise index_error
tokenize-ne-index_error_example = tokenize-ne-index_error ascii (codes "\"a\\")

symbol-Munches_example : Munches (codes "<<=1") (symbol (here (codes "<<=1") 1 1) 1 1)
symbol-Munches_example = symbol-Munches (here (codes "<<=1") 1 1) 1 1 cc

block_comment_iff_example :
    ((d : Cursor) × (block_comment (here (opening ++ codes "a/*b*/c*/ x") 1 1) ≡ ok (tt, d))
      × (d.rest ≡ codes " x"))
    ↔ IsClosed (codes "a/*b*/c*/ x") (codes " x")
block_comment_iff_example = block_comment_iff (codes "a/*b*/c*/ x") (codes " x") 1 1

thousand-IsLiteral : IsLiteral ascii (codes "1_000") (codes "; x")
unfolding bad_separators
thousand-IsLiteral = record {
  starts_digit = refl;
  all_decimal = (refl, (refl, (refl, (refl, (refl, tt)))));
  separated = refl;
  not_alnum = refl;
  not_separator = refl;
  no_fraction = refl;
}

number_decimal_example :
    number ascii none (here (codes "1_000; x") 1 1) 1 1
    ≡ ok (make TokenType.int (int 1000) 1 1, here (codes "; x") 1 6)
number_decimal_example =
    number_decimal ascii none (codes "1_000") (codes "; x") 1 1 1 1 refl thousand-IsLiteral
      (omega arith)

-- A literal of sevens, as long as wanted.
abbrev sevens : ℕ → Text
sevens n = replicate n b'7'

sevens_decimal : (n : ℕ) → All (λ c. is_digit c || is_separator c ≡ true) (sevens n)
sevens_decimal zero = tt
sevens_decimal (suc n) = (refl, sevens_decimal n)

sevens_end : (n : ℕ) → ends_separator (b'7' ∷ sevens n) ≡ false
sevens_end zero = refl
sevens_end (suc n) = sevens_end n

sevens_double : (n : ℕ) → double_separator (b'7' ∷ sevens n) ≡ false
sevens_double zero = refl
sevens_double (suc n) = sevens_double n

sevens-IsLiteral : (n : ℕ) → IsLiteral ascii (sevens (suc n)) (codes ";")
unfolding bad_separators
sevens-IsLiteral n = record {
  starts_digit = refl;
  all_decimal = sevens_decimal (suc n);
  separated = rw (sevens_end n, sevens_double n);
  not_alnum = refl;
  not_separator = refl;
  no_fraction = refl;
}

length-sevens : (n : ℕ) → length (remove b'_' (sevens n)) ≡ n
length-sevens zero = refl
length-sevens (suc n) = ap suc (length-sevens n)

sevens_overflow :
    (n : ℕ)
    → max_str_digits ≤ n
    → number ascii none (here (sevens (suc n) ++ codes ";") 1 1) 1 1 ≡ raise value_error
sevens_overflow n h =
    number_overflow ascii none (sevens (suc n)) (codes ";") 1 1 1 1 refl (sevens-IsLiteral n)
      (omega (arith, length-sevens (suc n)))

number_overflow_example :
    number ascii none (here (sevens 5000 ++ codes ";") 1 1) 1 1 ≡ raise value_error
number_overflow_example =
    number_overflow ascii none (sevens 5000) (codes ";") 1 1 1 1 refl (sevens-IsLiteral 4999)
      (rw (length-sevens 5000) (omega arith))

-- ===== src/Parser/Progress/Helpers.antt =====
-- mort/parser.py: the token helpers meet the postcondition.
use Prim.Native.String.{String}
use mort.Base.{ℕ, ◌≡◌, refl, Bool, true, false, List, [], ◌∷◌, if◌then◌else◌, Text, leb, ◌^◌}
use mort.Base.Result.{ok, raise}
use mort.Errors.{value_error}
use mort.Parser.Progress.{NotAtEnd, Within, Ends, holds, too_long, Moves}
use mort.Parser.Progress.Rules.{
  knowing, relaxed, pure-Moves, fail_showing-Moves, followed, and_then,
}
use mort.Parser.Progress.Tokens.{advance-Moves, peek-bind, if_is}
use mort.Parser.State.{
  Parser, expect, expect_name, replace, expect_type_close, show, show_value, decimal_digits,
}
use mort.Token.{TokenType, Token, Value, shr, ge, ◌is◌, eof}

pub expect-Moves :
    {n : ℕ} (k : TokenType) (what : String) → (k is eof) ≡ false → Moves false 1 n (expect k what)
unfolding expect
expect-Moves k what e = peek-bind λ t. if_is _ _ e advance-Moves (fail_showing-Moves _ _ _)

pub expect_name-Moves : {n : ℕ} (what : String) → Moves false 1 n (expect_name what)
unfolding expect_name
expect_name-Moves what = followed (expect-Moves _ _ refl) λ t. pure-Moves _

-- The token becomes another one and stays.
replace_on :
    {b : ℕ} {flag : Bool} (k : TokenType) (x : Text) (ts : List Token) (fl : Bool)
    → NotAtEnd ts
    → Within b flag (record { toks = ts; no_struct_lit = fl })
    → Ends b flag (replace k x (record { toks = ts; no_struct_lit = fl }))
unfolding replace
replace_on k x [] fl h w = absurd h
replace_on k x (t ∷ []) fl h w = absurd h
replace_on k x (t ∷ (u ∷ us)) fl h w =
    holds (record { short = w.short; ends = w.ends; flag_is = w.flag_is })

replace-Moves : {n : ℕ} (k : TokenType) (x : Text) → Moves true 0 n (replace k x)
replace-Moves k x = record {
  run = λ b flag p l g w. replace_on k x p.toks p.no_struct_lit (g refl) w;
}

pub expect_type_close-Moves : {n : ℕ} → Moves false 0 n expect_type_close
unfolding expect_type_close
expect_type_close-Moves = peek-bind λ t.
    if_is _ shr refl (and_then (replace-Moves _ _) λ _. pure-Moves _) (
      if_is _ ge refl (and_then (replace-Moves _ _) λ _. pure-Moves _)
        (knowing (relaxed (expect-Moves _ _ refl))))

show_on : {b : ℕ} {flag : Bool} (x : ℕ) (p : Parser) → Within b flag p → Ends b flag (show x p)
unfolding show
show_on {b} {flag} x p w = by_test (leb (10 ^ 4300) x)
  where
    by_test :
        (a : Bool) → Ends b flag (if a then raise value_error else ok (decimal_digits 4300 x [], p))
    by_test true = too_long
    by_test false = holds w

pub show_value-Moves : {n : ℕ} (v : Value) → Moves false 0 n (show_value v)
unfolding show_value
show_value-Moves (Value.int x) = record { run = λ b flag p l g w. show_on x p w }
show_value-Moves v = pure-Moves _

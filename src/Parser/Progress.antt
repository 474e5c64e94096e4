-- ===== src/Parser/Progress.antt =====
-- mort/parser.py: how the productions move. `Ends` is the postcondition of a production: it leaves at
-- most so many tokens, the last of them still the end of the file, and the flag `_no_struct_lit` as it
-- was; or it raises a MortError or the ValueError of `str()`.
pub mod Rules
pub mod Tokens
pub mod Helpers
pub mod Loops
pub mod Lookahead
pub mod Types
pub mod Levels
pub mod Exprs
pub mod Postfix
pub mod Stmts
pub mod Blocks
pub mod Decls
pub mod Program
pub mod Contract
use mort.Base.{
  ℕ, zero, suc, ◌+◌, ◌≤◌, ◌≡◌, refl, ap, Bool, true, false, List, [], ◌∷◌, if◌then◌else◌, length,
  arith, ◌==◌,
}
use mort.Base.Result
use mort.Base.Result.{Result, ok, raise, out_of_fuel}
use mort.Errors.{Exception, MortError, Message, mort_error, value_error}
use mort.Parser.State.{Parser, Parse, pure, ◌>>=◌, peek, at, at_any, advance, fail_at, rest_of}
use mort.Token.{TokenType, Token, ◌is◌, one_of, tag, eof}

-- The last token is the end of the file.
abbrev pub HasEof : List Token → Type 0
HasEof [] = ⊥
HasEof (t ∷ []) = t.type ≡ eof
HasEof (t ∷ (u ∷ us)) = HasEof (u ∷ us)

-- There are tokens behind the current one.
abbrev pub NotAtEnd : List Token → Type 0
NotAtEnd [] = ⊥
NotAtEnd (t ∷ ts) = HasEof ts

-- A state with at most `b` tokens left.
pub record Within (b : ℕ) (flag : Bool) (p : Parser) : Type 0 where
  pub short : length p.toks ≤ b
  pub ends : HasEof p.toks
  pub flag_is : p.no_struct_lit ≡ flag

pub data Ends {ℓ} {A : Type ℓ} (b : ℕ) (flag : Bool) : Result Exception (A × Parser) → Type ℓ where
  holds : {a : A} {q : Parser} → Within b flag q → Ends b flag (ok (a, q))
  refused : {e : MortError} → Ends b flag (raise (mort_error e))
  too_long : Ends b flag (raise value_error)

pub Within-weaken : {b c : ℕ} {flag : Bool} {p : Parser} → b ≤ c → Within b flag p → Within c flag p
Within-weaken h w = record { short = omega (arith, w.short); ends = w.ends; flag_is = w.flag_is }

pub Within-suc : {b : ℕ} {flag : Bool} {p : Parser} → Within b flag p → Within (suc b) flag p
Within-suc w = Within-weaken (omega arith) w

pub Ends-weaken {ℓ} :
    {A : Type ℓ} {b c : ℕ} {flag : Bool} {r : Result Exception (A × Parser)}
    → b ≤ c
    → Ends b flag r
    → Ends c flag r
Ends-weaken h (holds w) = holds (Within-weaken h w)
Ends-weaken h refused = refused
Ends-weaken h too_long = too_long

abbrev pub above : ℕ → ℕ → ℕ
above zero b = b
above (suc d) b = suc (above d b)

-- The production `m`, on at most `n` tokens, meets the postcondition and reads `d` tokens at least, given
-- that there are tokens behind the current one if `c` is true.
pub record Moves {ℓ} {A : Type ℓ} (c : Bool) (d n : ℕ) (m : Parse A) : Type ℓ where
  pub run :
      (b : ℕ) (flag : Bool) (p : Parser)
      → above d b ≤ n
      → (c ≡ true → NotAtEnd p.toks)
      → Within (above d b) flag p
      → Ends b flag (m p)

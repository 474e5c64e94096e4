-- ===== src/Parser/Progress/Program.antt =====
-- mort/parser.py: `parse` ends on every list of tokens that the end of the file closes.
use mort.Base.{ℕ, zero, suc, ◌<◌, refl, Bool, true, false, not, List, length, arith}
use mort.Parser.Progress.{Moves}
use mort.Parser.Progress.Rules.{
  knowing, relaxed, fewer_after, same, pure-Moves, fail-Moves, followed, and_then,
}
use mort.Parser.Progress.Tokens.{advance-Moves, peek-bind, peek-keep, at-bind, if-Moves, if_is}
use mort.Token.{
  TokenType, Token, ◌is◌, eof, eof, kw_fn, kw_struct, kw_let, kw_const, kw_import, kw_enum, kw_type,
  kw_test, kw_module, kw_pub, kw_resource, kw_extern,
}
use mort.Ast.{Program}
use mort.Base.Result
use mort.Base.Result.{Result, ok, raise, out_of_fuel}
use mort.Errors.{Exception, MortError, mort_error, value_error}
use mort.Parser.Progress.{HasEof, Ends, holds, refused, too_long}
use mort.Parser.Progress.Decls.{
  module_decl-Moves, test_decl-Moves, import_decl-Moves, struct_decl-Moves, type_alias_decl-Moves,
  enum_decl-Moves, fn_decl-Moves, extern_fn_decl-Moves,
}
use mort.Parser.Progress.Stmts.{let_statement-Moves}
use mort.Parser.Program.{
  empty_program, is_empty_program, module_first, public_function, resource_struct, declaration,
  program, parse,
}
use mort.Parser.State.{Parser}

module _ {n : ℕ} (g : Program) where
  module_first-Moves : Moves true 1 n (module_first g)
  unfolding module_first
  module_first-Moves =
      if-Moves (is_empty_program g) (followed module_decl-Moves λ _. pure-Moves _)
        (peek-keep λ t. fail-Moves _ _)

  public_function-Moves : Moves true 1 n (public_function g)
  unfolding public_function
  public_function-Moves = followed advance-Moves λ t. at-bind kw_fn refl λ a.
      knowing (if-Moves a (and_then (relaxed (fn_decl-Moves _)) λ _. pure-Moves _) (fail-Moves _ _))

  resource_struct-Moves : Moves true 1 n (resource_struct g)
  unfolding resource_struct
  resource_struct-Moves = followed advance-Moves λ t. at-bind kw_struct refl λ a.
      knowing
        (if-Moves a (and_then (relaxed (struct_decl-Moves _)) λ _. pure-Moves _) (fail-Moves _ _))

  declaration-Moves : (t : TokenType) → Moves (not (t is eof)) 1 n (declaration t g)
  unfolding declaration
  declaration-Moves t = if_is t kw_module refl module_first-Moves (
      if_is t kw_import refl (followed import_decl-Moves λ _. pure-Moves _) (
        if_is t kw_pub refl public_function-Moves (
          if_is t kw_resource refl resource_struct-Moves (
            if_is t kw_struct refl (knowing (followed (struct_decl-Moves _) λ _. pure-Moves _)) (
              if_is t kw_enum refl (followed enum_decl-Moves λ _. pure-Moves _) (
                if_is t kw_type refl (followed type_alias_decl-Moves λ _. pure-Moves _) (
                  if_is t kw_test refl (followed test_decl-Moves λ _. pure-Moves _) (
                    if_is t kw_let refl (followed (let_statement-Moves _) λ _. pure-Moves _) (
                      if_is t kw_const refl (followed (let_statement-Moves _) λ _. pure-Moves _) (
                        if_is t kw_extern refl (followed extern_fn_decl-Moves λ _. pure-Moves _)
                          (knowing (followed (fn_decl-Moves _) λ _. pure-Moves _))))))))))))

program-Moves : (k m : ℕ) (g : Program) → m < k → Moves false 0 m (program k g)
unfolding program
program-Moves zero m g l = absurd (omega arith)
program-Moves (suc k) m g l =
    same _ _ (λ p. refl)
      (peek-bind λ t. if-Moves (t.type is eof) (pure-Moves _) (
        relaxed
          (fewer_after (declaration-Moves g t.type) λ j lj g'. program-Moves k j g' (omega arith))))

-- The outcomes that the parser means to have, and the ValueError of `str()` on a long number.
pub data Parsed : Result Exception Program → Type 0 where
  parsed : (g : Program) → Parsed (ok g)
  rejected : (e : MortError) → Parsed (raise (mort_error e))
  too_many_digits : Parsed (raise value_error)

-- For every list of tokens that ends with the end of the file, `parse` gives a program, a MortError, or
-- the ValueError of `str()`: it ends, and it reads behind no end of the list.
pub parse-Parsed : (tokens : List Token) → HasEof tokens → Parsed (parse tokens)
unfolding parse
parse-Parsed tokens h = outcome {b = length tokens} {flag = false} _ (
    (program-Moves (suc (length tokens)) (length tokens) empty_program (omega arith)).run _ false _
      (omega arith) (λ e. absurd (cc e)) (record { short = omega arith; ends = h; flag_is = refl }))
  where
    outcome :
        {b : ℕ} {flag : Bool} (r : Result Exception (Program × Parser))
        → Ends b flag r
        → Parsed (Result.◌>>=◌ r λ (g, p). ok g)
    outcome _ (holds {a} w) = parsed a
    outcome _ (refused {e}) = rejected e
    outcome _ too_long = too_many_digits

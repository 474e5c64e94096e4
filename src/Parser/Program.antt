-- ===== src/Parser/Program.antt =====
-- mort/parser.py, `parse`: the loop over declarations.
use mort.Ast.{Program}
use mort.Base.{
  ℕ, zero, suc, Bool, true, false, ◌&&◌, List, [], ◌∷◌, ◌++◌, Option, none, some, if◌then◌else◌,
}
use mort.Base.Result
use mort.Base.Result.{ok, out_of_fuel}
use mort.Errors.{Exception, module_not_first, pub_needs_function, resource_needs_struct}
use mort.Parser.Decls.{
  module_decl, test_decl, import_decl, struct_decl, type_alias_decl, enum_decl, fn_decl,
  extern_fn_decl,
}
use mort.Parser.Loops.{fuel}
use mort.Parser.State.{Parser, Parse, pure, ◌>>=◌, fail_at, peek, at, advance}
use mort.Parser.Stmts.{let_statement}
use mort.Token.{
  TokenType, Token, ◌is◌, eof, kw_fn, kw_struct, kw_let, kw_const, kw_import, kw_enum, kw_type,
  kw_test, kw_module, kw_pub, kw_resource, kw_extern,
}

abbrev pub empty_program : Program
empty_program = record {
  funcs = [];
  structs = [];
  globals = [];
  externs = [];
  imports = [];
  enums = [];
  tests = [];
  module_name = none;
  aliases = [];
}

-- Nothing is declared yet, `not (module_name is not None or funcs or ...)`.
abbrev pub is_nil {ℓ} : {A : Type ℓ} → List A → Bool
is_nil [] = true
is_nil (x ∷ xs) = false

abbrev pub is_none {ℓ} : {A : Type ℓ} → Option A → Bool
is_none none = true
is_none (some a) = false

unfoldable pub is_empty_program : Program → Bool
is_empty_program g =
    is_none g.module_name
    && is_nil g.funcs
    && is_nil g.structs
    && is_nil g.globals
    && is_nil g.externs
    && is_nil g.imports
    && is_nil g.enums
    && is_nil g.tests
    && is_nil g.aliases

unfoldable pub module_first : Program → Parse Program
module_first g =
    if is_empty_program g
    then (do name ← module_decl; pure (record g { module_name = some name }))
    else (do t ← peek 0; fail_at module_not_first t.line)

unfoldable pub public_function : Program → Parse Program
public_function g = do
  t ← advance
  c ← at kw_fn
  if c
      then (do f ← fn_decl true; pure (record g { funcs = g.funcs ++ f ∷ [] }))
      else fail_at pub_needs_function t.line

unfoldable pub resource_struct : Program → Parse Program
resource_struct g = do
  t ← advance
  c ← at kw_struct
  if c
      then (do s ← struct_decl true; pure (record g { structs = g.structs ++ s ∷ [] }))
      else fail_at resource_needs_struct t.line

-- One round of the loop of `parse`, at a token of the type `t`.
unfoldable pub declaration : TokenType → Program → Parse Program
declaration t g =
    if t is kw_module
    then module_first g
    else if t is kw_import
    then (do d ← import_decl; pure (record g { imports = g.imports ++ d ∷ [] }))
    else if t is kw_pub
    then public_function g
    else if t is kw_resource
    then resource_struct g
    else if t is kw_struct
    then (do d ← struct_decl false; pure (record g { structs = g.structs ++ d ∷ [] }))
    else if t is kw_enum
    then (do d ← enum_decl; pure (record g { enums = g.enums ++ d ∷ [] }))
    else if t is kw_type
    then (do d ← type_alias_decl; pure (record g { aliases = g.aliases ++ d ∷ [] }))
    else if t is kw_test
    then (do d ← test_decl; pure (record g { tests = g.tests ++ d ∷ [] }))
    else if t is kw_let
    then (do d ← let_statement true; pure (record g { globals = g.globals ++ d ∷ [] }))
    else if t is kw_const
    then (do d ← let_statement false; pure (record g { globals = g.globals ++ d ∷ [] }))
    else if t is kw_extern
    then (do d ← extern_fn_decl; pure (record g { externs = g.externs ++ d ∷ [] }))
    else (do f ← fn_decl false; pure (record g { funcs = g.funcs ++ f ∷ [] }))

-- `while not self._at(T.EOF)`
unfoldable pub program : ℕ → Program → Parse Program
program zero g p = out_of_fuel
program (suc n) g p =
    (do t ← peek 0; if t.type is eof then pure g else (do g' ← declaration t.type g; program n g'))
      p

-- `Parser(tokens).parse()`
unfoldable pub parse : List Token → Result.Result Exception Program
parse tokens =
    let start : Parser = record { toks = tokens; no_struct_lit = false } in
    Result.◌>>=◌ (program (fuel start) empty_program start) λ (g, p). ok g

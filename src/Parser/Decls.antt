-- ===== src/Parser/Decls.antt =====
-- mort/parser.py: declarations.
use mort.Ast.{
  Param, StructField, StructDecl, TypeAliasDecl, FnDecl, EnumVariant, EnumDecl, ExternFnDecl,
  TestDecl, ImportDecl,
}
use mort.Base.{
  ℕ, zero, suc, Bool, List, [], ◌∷◌, ◌++◌, Option, none, some, if◌then◌else◌, Text, codes,
}
use mort.Base.Result.{out_of_fuel}
use mort.Errors.{expected}
use mort.Parser.Loops.{fuel, one_or_more, arguments, fields}
use mort.Parser.State.{
  Parse, pure, ◌>>=◌, ◌>>◌, fail_showing, peek, at, advance, expect, expect_name, text_of, join,
}
use mort.Parser.Blocks.{block_stmt}
use mort.Parser.Types.{type_name}
use mort.Token.{
  TokenType, one_of, assign, colon, semi, dot, lt, gt, lparen, rparen, lbrace, rbrace, arrow, ident,
  kw_as, kw_null, kw_fn, kw_struct,
}

-- `while self._at(T.DOT): ...` of a module path.
unfoldable pub dotted : ℕ → List Text → Parse (List Text)
dotted zero parts p = out_of_fuel
dotted (suc n) parts p =
    (do
      c ← at dot
      if c
          then (do advance; s ← expect_name "module name"; dotted n (parts ++ s ∷ []))
          else pure parts)
      p

unfoldable pub module_path : Parse (List Text)
module_path = do s ← expect_name "module name"; λ p. dotted (fuel p) (s ∷ []) p

-- `_module_decl()`
unfoldable pub module_decl : Parse Text
module_decl = do advance; parts ← module_path; expect semi "';'"; pure (join (codes ".") parts)

-- `_test_decl()`
unfoldable pub test_decl : Parse TestDecl
test_decl = do
  t ← advance
  name ← expect TokenType.string "test name"
  body ← block_stmt
  pure (record { name = name.value; body = body; line = t.line })

unfoldable pub import_alias : Parse (Option Text)
import_alias = do
  c ← at kw_as
  if c then (do advance; s ← expect_name "import alias"; pure (some s)) else pure none

-- `_import_decl()`
unfoldable pub import_decl : Parse ImportDecl
import_decl = do
  t ← advance
  parts ← module_path
  alias ← import_alias
  expect semi "';'"
  pure (record { parts = parts; line = t.line; alias = alias })

-- `<T, ...>`, if it is there.
unfoldable pub generics : Parse (List Text)
generics = do
  c ← at lt
  if c
      then (do
        advance
        names ← one_or_more (expect_name "generic parameter")
        expect gt "'>'"
        pure names)
      else pure []

unfoldable pub struct_field : Parse StructField
struct_field = do
  name ← expect_name "field name"
  expect colon "':'"
  t ← type_name
  pure (record { name = name; typ = t })

-- `_struct_decl(resource)`
unfoldable pub struct_decl : Bool → Parse StructDecl
struct_decl resource = do
  t ← peek 0
  expect kw_struct "'struct'"
  name ← expect_name "struct name"
  params ← generics
  expect lbrace "'{'"
  fs ← λ p. fields struct_field (fuel p) [] p
  expect rbrace "'}'"
  pure (record {
    name = name;
    fields = fs;
    line = t.line;
    generic_params = params;
    resource = resource;
  })

-- `_type_alias_decl()`
unfoldable pub type_alias_decl : Parse TypeAliasDecl
type_alias_decl = do
  t ← advance
  name ← expect_name "type alias name"
  expect assign "'='"
  target ← type_name
  expect semi "';'"
  pure (record { name = name; target = target; line = t.line })

unfoldable pub variant : Parse EnumVariant
variant = do
  name ← expect_name "variant name"
  c ← at lparen
  if c
      then (do
        advance
        types ← one_or_more type_name
        expect rparen "')'"
        pure (record { name = name; payload_types = types }))
      else pure (record { name = name; payload_types = [] })

-- `_enum_decl()`
unfoldable pub enum_decl : Parse EnumDecl
enum_decl = do
  t ← advance
  name ← expect_name "enum name"
  params ← generics
  expect lbrace "'{'"
  vs ← λ p. fields variant (fuel p) [] p
  expect rbrace "'}'"
  pure (record { name = name; variants = vs; line = t.line; generic_params = params })

-- `_function_name()`
unfoldable pub function_name : Parse Text
function_name = do
  t ← peek 0
  if one_of t.type (ident ∷ (kw_null ∷ []))
      then (do advance; pure (text_of t.value))
      else fail_showing (expected "function name") t.value t.line

-- `_param()`
unfoldable pub param : Parse Param
param = do
  name ← expect_name "parameter name"
  expect colon "':'"
  t ← type_name
  pure (record { name = name; typ = t })

unfoldable pub params : Parse (List Param)
params = do expect lparen "'('"; ps ← arguments param rparen; expect rparen "')'"; pure ps

unfoldable pub return_type : Parse Text
return_type = do c ← at arrow; if c then (do advance; type_name) else pure (codes "void")

-- `_fn_decl()`, which is not public until `parse` marks it.
unfoldable pub fn_decl : Bool → Parse FnDecl
fn_decl public = do
  t ← peek 0
  expect kw_fn "'fn'"
  name ← function_name
  gs ← generics
  ps ← params
  ret ← return_type
  body ← block_stmt
  pure (record {
    name = name;
    params = ps;
    ret = ret;
    body = body;
    line = t.line;
    generic_params = gs;
    public = public;
  })

-- `_extern_fn_decl()`
unfoldable pub extern_fn_decl : Parse ExternFnDecl
extern_fn_decl = do
  t ← advance
  expect kw_fn "'fn'"
  name ← function_name
  ps ← params
  ret ← return_type
  expect semi "';'"
  pure (record { name = name; params = ps; ret = ret; line = t.line })

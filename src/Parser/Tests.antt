-- ===== src/Parser/Tests.antt =====
-- The parser run on tokens, and witnesses of its properties.
use mort.Ast.{var, binary}
use mort.Base.{List, [], ◌∷◌, refl, Text, codes, true, ◌≡◌}
use mort.Base.Result.{ok}
use mort.Parser.Exprs.{expression, unary_in, unary_step, postfix, suffixes, suffix, suffix_at}
use mort.Parser.Levels.{
  logic_or, logic_and, bitor, bitxor, bitand, equality, comparison, shift, term, factor, cast_level,
  casts, left_assoc, operations,
}
use mort.Parser.Lookahead.{looks_like_struct_lit, looks_like_generic_qualifier}
use mort.Parser.Primary.{primary, named}
use mort.Parser.Progress.{Ends}
use mort.Parser.Progress.Contract.{productions-Ends}
use mort.Parser.Progress.Program.{Parsed, parse-Parsed}
use mort.Parser.Program.{parse}
use mort.Parser.State.{Parser, peek, at, at_any, advance, pure, ◌>>=◌}
use mort.Parser.Blocks.{block_stmt}
use mort.Parser.Types.{type_name}
use mort.Token.{
  TokenType, Token, str, nothing, ident, plus, star, eof, kw_fn, lparen, rparen, lbrace, rbrace,
}

abbrev token : TokenType → Text → Token
token k s = record { type = k; value = str s; line = 1; col = 1 }

abbrev end : Token
end = record { type = eof; value = nothing; line = 1; col = 9 }

-- `a + b * c`
abbrev operators : List Token
operators =
    token ident (codes "a")
    ∷ (token plus (codes "+")
        ∷ (token ident (codes "b")
            ∷ (token star (codes "*") ∷ (token ident (codes "c") ∷ (end ∷ [])))))

-- `fn f() {}`
abbrev function : List Token
function =
    token kw_fn (codes "fn")
    ∷ (token ident (codes "f")
        ∷ (token lparen (codes "(")
            ∷ (token rparen (codes ")")
                ∷ (token lbrace (codes "{") ∷ (token rbrace (codes "}") ∷ (end ∷ []))))))

abbrev start : Parser
start = record { toks = operators; no_struct_lit = true }

productions-Ends_example :
    Ends 5 true (type_name start) × Ends 5 true (expression start) × Ends 5 true (block_stmt start)
productions-Ends_example = productions-Ends 5 start refl refl

parse-Parsed_example : Parsed (parse function)
parse-Parsed_example = parse-Parsed function refl

-- `*` binds before `+`.
operators_lem :
    expression start
    ≡ ok (
      binary
          (codes "+")
          (var (codes "a") 1)
          (binary (codes "*") (var (codes "b") 1) (var (codes "c") 1) 1)
          1,
      record { toks = end ∷ []; no_struct_lit = true },
    )
unfolding expression unary_in unary_step postfix suffixes suffix suffix_at primary named logic_or
    logic_and bitor bitxor bitand equality comparison shift term factor cast_level casts left_assoc
    operations peek at at_any advance pure ◌>>=◌ looks_like_struct_lit looks_like_generic_qualifier
operators_lem = refl

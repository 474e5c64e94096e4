-- ===== src/Parser/Levels.antt =====
-- mort/parser.py: `_cast` and the binary operators, from `_factor` up to `_logic_or`, over the production
-- `unary` of their operands.
use Prim.Native.String.{String}
use mort.Ast.{Expr, binary, cast}
use mort.Base.{ℕ, zero, suc, List, [], ◌∷◌, if◌then◌else◌, Text, codes}
use mort.Base.Result.{out_of_fuel}
use mort.Parser.Loops.{fuel}
use mort.Parser.State.{Parse, pure, ◌>>=◌, at, at_any, advance, text_of}
use mort.Parser.Types.{type_name}
use mort.Token.{
  TokenType, Token, or, and, pipe, caret, amp, eq, ne, lt, gt, le, ge, shl, shr, plus, minus, star,
  slash, percent, kw_as,
}

-- How an operator is named: by a fixed text, or by the text of its token.
abbrev pub fixed_op : String → Token → Text
fixed_op s t = codes s

abbrev pub token_op : Token → Text
token_op t = text_of t.value

module _ (ops : List TokenType) (op_text : Token → Text) (operand : Parse Expr) where
  -- `while self._peek().type in ops: ...`, to the left.
  unfoldable pub operations : ℕ → Expr → Parse Expr
  operations zero left p = out_of_fuel
  operations (suc n) left p =
      (do
        more ← at_any ops
        if more
            then (do
              op ← advance
              right ← operand
              operations n (binary (op_text op) left right op.line))
            else pure left)
        p

  unfoldable pub left_assoc : Parse Expr
  left_assoc = do left ← operand; λ p. operations (fuel p) left p

module _ (unary : Parse Expr) where
  -- `while self._at(T.AS): ...`
  unfoldable pub casts : ℕ → Expr → Parse Expr
  casts zero e p = out_of_fuel
  casts (suc n) e p =
      (do
        c ← at kw_as
        if c then (do t ← advance; typ ← type_name; casts n (cast e typ t.line)) else pure e)
        p

  unfoldable pub cast_level : Parse Expr
  cast_level = do e ← unary; λ p. casts (fuel p) e p

  -- `_factor` to `_logic_or`, from the tightest level to the loosest.
  unfoldable pub factor : Parse Expr
  factor = left_assoc (star ∷ slash ∷ percent ∷ []) token_op cast_level

  unfoldable pub term : Parse Expr
  term = left_assoc (plus ∷ minus ∷ []) token_op factor

  unfoldable pub shift : Parse Expr
  shift = left_assoc (shl ∷ shr ∷ []) token_op term

  unfoldable pub comparison : Parse Expr
  comparison = left_assoc (lt ∷ gt ∷ le ∷ ge ∷ []) token_op shift

  unfoldable pub equality : Parse Expr
  equality = left_assoc (eq ∷ ne ∷ []) token_op comparison

  unfoldable pub bitand : Parse Expr
  bitand = left_assoc (amp ∷ []) (fixed_op "&") equality

  unfoldable pub bitxor : Parse Expr
  bitxor = left_assoc (caret ∷ []) (fixed_op "^") bitand

  unfoldable pub bitor : Parse Expr
  bitor = left_assoc (pipe ∷ []) (fixed_op "|") bitxor

  unfoldable pub logic_and : Parse Expr
  logic_and = left_assoc (and ∷ []) (fixed_op "&&") bitor

  unfoldable pub logic_or : Parse Expr
  logic_or = left_assoc (or ∷ []) (fixed_op "||") logic_and

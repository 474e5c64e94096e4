-- ===== src/Parser/Progress/Contract.antt =====
-- mort/parser.py: what the productions for types, expressions and blocks leave behind.
use mort.Base.{ℕ, suc, ◌≡◌, refl, length, arith, false}
use mort.Parser.Exprs.{expression}
use mort.Parser.Progress.{HasEof, Ends, Moves}
use mort.Parser.Progress.Blocks.{block_stmt-Moves}
use mort.Parser.Progress.Postfix.{expression-Moves}
use mort.Parser.Progress.Types.{type_name-Moves}
use mort.Parser.State.{Parser, Parse}
use mort.Parser.Blocks.{block_stmt}
use mort.Parser.Types.{type_name}

Moves-Ends :
    {A : Type 0} {m : Parse A} (b : ℕ) (p : Parser)
    → Moves false 1 (suc b) m
    → length p.toks ≡ suc b
    → HasEof p.toks
    → Ends b p.no_struct_lit (m p)
Moves-Ends b p r l h =
    r.run b p.no_struct_lit p (omega arith) (λ e. absurd (cc e))
      (record { short = omega arith; ends = h; flag_is = refl })

-- With `suc b` tokens left, the last of them the end of the file, each of `_type_name`, `_expression` and
-- `_block` raises a MortError or the ValueError of `str()`, or it reads a token at least, keeps the end of
-- the file as the last token, and leaves `_no_struct_lit` as it was.
pub productions-Ends :
    (b : ℕ) (p : Parser)
    → length p.toks ≡ suc b
    → HasEof p.toks
    → Ends b p.no_struct_lit (type_name p)
      × Ends b p.no_struct_lit (expression p)
      × Ends b p.no_struct_lit (block_stmt p)
productions-Ends b p l h = (
  Moves-Ends b p type_name-Moves l h,
  Moves-Ends b p expression-Moves l h,
  Moves-Ends b p block_stmt-Moves l h,
)

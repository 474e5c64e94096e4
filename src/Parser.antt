-- ===== src/Parser.antt =====
-- mort/parser.py: the modules of the parser. State has the tokens, the helpers and the monad, Loops the
-- loops that the productions share, Lookahead the scans ahead, and Types, Levels, Exprs, Stmts, Decls
-- and Program the productions.
pub mod State
pub mod Loops
pub mod Lookahead
pub mod Types
pub mod Levels
pub mod Primary
pub mod Exprs
pub mod Stmts
pub mod Blocks
pub mod Decls
pub mod Program
pub mod Progress
mod Tests

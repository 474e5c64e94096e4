-- ===== src/Lexer.antt =====
-- mort/lexer.py: the modules of the lexer. Cursor has the position and the
-- scanning loops; Number, Literal, Comment and Symbol are the handlers, and Tokenize the main loop.
-- Progress has the postcondition that every handler meets, and its proof for each.
pub mod Cursor
pub mod Number
pub mod Literal
pub mod Comment
pub mod Symbol
pub mod Tokenize
pub mod Progress
mod Tests

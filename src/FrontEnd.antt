-- ===== src/FrontEnd.antt =====
-- mortc.py and mort/lsp.py: the front end, which lexes a source and parses the tokens.
pub mod Total
mod Tests
use mort.Ast.{Program}
use mort.Base.{Text}
use mort.Base.Result
use mort.Base.Result.{Result}
use mort.Errors.{Exception}
use mort.Lexer.Cursor.{Unicode}
use mort.Lexer.Tokenize.{tokenize}
use mort.Parser.Program.{parse}

-- `Parser(Lexer(src).tokenize()).parse()`, the front end of the compiler and of the editor server.
unfoldable pub front_end : Unicode → Text → Result Exception Program
front_end u src = Result.◌>>=◌ (tokenize u src) parse

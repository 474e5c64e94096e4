-- ===== src/FrontEnd/Tests.antt =====
-- The front end run on a source, and witnesses of its properties.
use mort.Base.{Text, codes}
use mort.Lexer.Cursor.{ascii}
use mort.FrontEnd.{front_end}
use mort.FrontEnd.Total.{front_end-Parsed}
use mort.Parser.Progress.Program.{Parsed}

abbrev source : Text
source = codes "fn f(a: i64) -> i64 { return a + 2 * g<i64>(a); }"

front_end-Parsed_example : Parsed (front_end ascii source)
front_end-Parsed_example = front_end-Parsed ascii source

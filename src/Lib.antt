-- ===== src/Lib.antt =====
-- Mort compiles .mx sources to C. Modelled here are its front end, from the text of a source to the tree
-- of the program, a part of its type checker, its formatter, the semantic versions of its package manager, and the tool that makes disk
-- images for its kernel.
--
-- Parts and files.
-- Token: mort/tokens.py, the kinds of token, the keywords, and tokens.
-- Errors: mort/errors.py, MortError, and the other exceptions that the front end can raise.
-- Lexer and its modules: mort/lexer.py. Lexer/Cursor is the position (`_peek`, `_advance`) and the
-- scanning loops, Lexer/Number is `_number`, Lexer/Literal is `_char`, `_string` and `_ident`,
-- Lexer/Comment is `_block_comment` and the line comment, Lexer/Symbol is `_symbol` with its tables,
-- and Lexer/Tokenize is `tokenize`. Lexer/Progress has the postcondition that each handler meets; the
-- other modules below a part prove what is said of it.
-- Ast: mort/mort_ast.py, the nodes of the tree that the parser makes.
-- Parser and its modules: mort/parser.py. Parser/State has the state and the token helpers (`_peek`, `_at`,
-- `_advance`, `_expect`, `_expect_type_close`), Parser/Loops the loops over items that the productions
-- share, Parser/Lookahead the scans ahead, Parser/Types `_type_name`, Parser/Levels `_cast` and the binary
-- operators, Parser/Primary `_primary`, Parser/Exprs `_unary` and `_postfix`, Parser/Stmts the statements
-- that hold no block, Parser/Blocks the others, Parser/Decls the declarations, and Parser/Program `parse`. Parser/Progress has the postcondition of a production, its rules,
-- and a lemma for each production.
-- FrontEnd: `Parser(Lexer(src).tokenize()).parse()` of mortc.py and mort/lsp.py.
-- Formatter and its modules: mort/formatter.py. Formatter/Braces is `_brace_delta`, Formatter/Format is
-- `format_source`, and Formatter/Text has the methods of Python's str that they use.
-- Semver and its modules: mort/project.py. Semver/Version is `parse_semver`, whose regular expression is
-- matched from the left, Semver/Compare is `_compare_semver`, Semver/Range is `semver_satisfies`, and
-- Semver/Select is `select_semver`.
-- Mkfs and its modules: kernel/mkfs.py. Mkfs/Bytes has the slices and the `struct` formats, Mkfs/Seeds is
-- `_parse_add` and the loop of `make` over the specs, Mkfs/Image is the rest of `make` and `_self_check`, and
-- Mkfs/ReadBack reads an image as the kernel does: it checks the magic number and the version, and takes the
-- used entries of the 64 of the table. Memory has no bound.
-- Checker and its modules: mort/typechecker.py. Checker/Types has the functions from `is_ptr` to `tuple_parts`,
-- Checker/Substitute is `substitute_type`, Checker/Constants has `_const_value` and `INT_RANGES`, and Checker/Flow is `_block_always_returns` and
-- `_block_breaks_current_loop`. Checker/Trees has types as trees with the texts that the parser makes of them,
-- Checker/Reader what the loops over such a text have in common, and Checker/Runs the runs of statements.
-- Registry and its modules: mort/registry_security.py. Registry/Json has JSON values, Registry/Records the keys and
-- the records that were checked before the log, and Registry/Log the loop of
-- `verify_registry` over the transparency log, the comparisons behind it, and `verify_append_only`. Registry/Checkpoint
-- has `_verify` and the checkpoint.
--
-- How the code is modelled.
-- A Python str is the list of its code points. A call returns its value, an exception, or, for a loop
-- that takes fuel, `out_of_fuel`, which has no counterpart in the code. The state of the lexer is a
-- cursor (the rest of the source, the line, the column) and the tokens so far. A handler returns the
-- token that it adds and the new cursor. `tokenize` takes one unit of fuel for each round of its loop and
-- has one more than the source has characters, which is enough since each round reads one at least.
-- A floating-point literal is kept as the decimal number that it spells; whether `float()` makes it
-- infinite is decided exactly. `int()` of more than 4300 decimal digits raises, as in Python from 3.10.7, and so do
-- `str()` and `repr()` of a number that has more.
-- The state of the parser is the tokens from the current one on, and the flag `_no_struct_lit`; a method is a
-- function from the state to its result and the next state. A loop takes a unit of fuel for each round, and
-- so do types inside types, operands inside operands and blocks inside blocks; each begins with one unit more
-- than there are tokens, which is enough since a round or a nesting reads a token at least. A production takes
-- the production inside it as an argument, and `type_in`, `unary_in` and `block_in` close the recursion.
-- `text_of` is the text of a token's value, and is empty for a value that is none; the lexer gives a text to
-- every identifier, keyword and operator. Python's limit on the depth of recursion is not modelled.
-- The formatter goes over the lines by structural recursion; a difference that Python cuts to 0 with `max`
-- is the subtraction of natural numbers.
-- The files of the host are a function from paths to contents, paths are those of POSIX, and a file that was
-- written is read back as it was written. An image is a list of bytes.
-- `substitute_type` takes one unit of fuel for each type inside a type, and begins with one more than the text
-- has characters, which is enough since the text of a type inside is shorter.
--
-- Parameters. Python's tables of letters and alphanumeric characters are the record `Unicode`, with the
-- laws that they are the usual ones on ASCII and that a letter is alphanumeric. The table of decimal digits
-- that `\d` and `int()` use is the record `Digits`, with the law that it is the usual one on ASCII. `sha256_json` is
-- the parameter `digest`, `canonical_json` is `canonical`, `base64.b64decode` is `b64decode`, and `check` is the check of a
-- signature. The publishers and the records that `verify_registry` has checked before the log are parameters too.
--
-- Not modelled: the pass of the type checker over the tree, the C code generator, the drivers, the rest of the package manager,
-- the publishers and the records of the registry,
-- and the editor server.
pub mod Base
pub mod Token
pub mod Errors
pub mod Lexer
pub mod Ast
pub mod Parser
pub mod FrontEnd
pub mod Formatter
pub mod Semver
pub mod Mkfs
pub mod Checker
pub mod Registry

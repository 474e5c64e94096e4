-- ===== src/Formatter/Tests.antt =====
-- The formatter run on a source, and witnesses of its properties.
use mort.Base.{Text, codes, ◌≡◌, ◌⊎◌, refl}
use mort.Formatter.Content.{contents, format_source-contents}
use mort.Formatter.Idempotent.{format_source_twice}
use mort.Formatter.Format.{rounds, pop_blank, format_source, leading_closes, line_depth}
use mort.Formatter.Braces.{scan, brace_delta}
use mort.Formatter.Layout.{format_source-IsTidy}
use mort.Formatter.Pop.{IsTidy}
use mort.Formatter.Text.{splitlines, strip, unlines, lines_in, lstrip, rstrip, is_space, is_break}

abbrev source : Text
source = codes "fn f() {\nlet s = \"}\"; // {\n}  \n\n\n/* { */ }"

formatted : Text
formatted = format_source source

formatted_lem : format_source source ≡ codes "fn f() {\n    let s = \"}\"; // {\n}\n\n/* { */ }\n"
unfolding format_source rounds pop_blank unlines splitlines lines_in strip lstrip rstrip is_space
    is_break brace_delta scan leading_closes line_depth
formatted_lem = refl

format_source-contents_example :
    contents (splitlines (format_source source)) ≡ contents (splitlines source)
format_source-contents_example = format_source-contents source

format_source_twice_example : format_source (format_source source) ≡ format_source source
format_source_twice_example = format_source_twice source

format_source-IsTidy_example :
    (format_source source ≡ codes "\n") ⊎ IsTidy (splitlines (format_source source))
format_source-IsTidy_example = format_source-IsTidy source

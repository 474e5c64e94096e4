-- ===== src/Semver/Tests.antt =====
-- Versions parsed and compared, and witnesses of the properties.
use mort.Base.{codes, ◌≡◌, ◌↔◌, refl, [], ◌∷◌, List, Text}
use mort.Semver.Range.{
  ascii, semver_satisfies, satisfies_parsed, split_on, strip_items, within, caret_upper, comparison,
  decimals, int_decimals, match_wildcard, wildcard, other_clause, clause_holds, all_hold,
}
use mort.Semver.Select.{compare_texts, max_from, matches, select_semver}
use mort.Semver.Maximum.{Chosen, select_semver-Chosen}
use mort.Base.Result.{ok}
use mort.Lexer.Number.{digits}
use mort.Formatter.Text.{strip, lstrip, rstrip, is_space, is_break}
use mort.Semver.Compare.{
  text_lt, minus_one, same, compare_semver, compare_identifiers, compare_identifier,
}
use mort.Semver.Same.{compare_semver_iff}
use mort.Semver.Parsed.{parsed-Opposite}
use mort.Semver.Swap.{Opposite}
use mort.Semver.Version.{
  Version, int_of, split_while, match_number, split_dots, match_identifiers, match_marked,
  all_digits, parse_semver,
}

abbrev alpha : Version
alpha = record { major = 1; minor = 0; patch = 0; identifiers = codes "alpha" ∷ (codes "2" ∷ []) }

abbrev beta : Version
beta = record { major = 1; minor = 0; patch = 0; identifiers = codes "alpha" ∷ (codes "10" ∷ []) }

alpha_lem : parse_semver (codes "1.0.0-alpha.2+build") ≡ ok alpha
unfolding parse_semver int_of split_while match_number split_dots match_identifiers match_marked
    all_digits digits
alpha_lem = refl

-- `$` lets a newline at the end through.
newline_lem : parse_semver (codes "1.0.0-alpha.2\n") ≡ ok alpha
unfolding parse_semver int_of split_while match_number split_dots match_identifiers match_marked
    all_digits digits
newline_lem = refl

beta_lem : parse_semver (codes "1.0.0-alpha.10") ≡ ok beta
unfolding parse_semver int_of split_while match_number split_dots match_identifiers match_marked
    all_digits digits
beta_lem = refl

compare_lem : compare_semver alpha beta ≡ ok minus_one
unfolding compare_semver compare_identifiers compare_identifier int_of all_digits digits
compare_lem = refl

parsed-Opposite_example : Opposite (compare_semver alpha beta) (compare_semver beta alpha)
parsed-Opposite_example =
    parsed-Opposite (codes "1.0.0-alpha.2+build") (codes "1.0.0-alpha.10") alpha beta alpha_lem
      beta_lem

compare_semver_iff_example : compare_semver alpha beta ≡ ok same ↔ alpha ≡ beta
compare_semver_iff_example = compare_semver_iff alpha beta

abbrev published : List Text
published = codes "1.4.0" ∷ (codes "2.0.0" ∷ (codes "1.10.2" ∷ (codes "1.2.0" ∷ [])))

selected_lem : select_semver ascii published (codes "^1.3.0, <1.11.0") ≡ ok (codes "1.10.2")
unfolding parse_semver int_of split_while match_number split_dots match_identifiers match_marked
    all_digits digits semver_satisfies satisfies_parsed split_on strip_items within caret_upper
    comparison decimals int_decimals match_wildcard wildcard other_clause clause_holds all_hold
    compare_texts max_from matches select_semver compare_semver compare_identifiers
    compare_identifier strip lstrip rstrip is_space text_lt is_break
selected_lem = refl

select_semver-Chosen_example : Chosen ascii (codes "^1.3.0, <1.11.0") (codes "1.10.2") published
select_semver-Chosen_example =
    select_semver-Chosen ascii published (codes "^1.3.0, <1.11.0") (codes "1.10.2") selected_lem

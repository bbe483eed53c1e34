-- ===== src/FormatParser/Tests.antt =====
-- Format strings, and an example of the round trip.
use log.Prelude.{
  ℕ, ◌+◌, ◌-◌, ◌*◌, ◌≡◌, refl, Bool, List, [], ◌∷◌, some, none, ◌≢◌, ◌≤◌, length, arith, leb, ◌&&◌,
  if◌then◌else◌,
}
use log.FormatParser.{
  Description, parsed, failed, invalid_placeholder, too_big_placeholder, unsupported_placeholder,
  find, loop, parse_format,
}
use log.FormatParser.Meaning.{Token, char, placed, print, meaning, expand}
use log.FormatParser.Termination.{parse_format_total}
use log.FormatParser.RoundTrip.{parse_format-print}

abbrev isdigit : ℕ → Bool
isdigit c = leb 48 c && leb c 57

-- Decimal digits, as long as there are any.
abbrev digits : ℕ → List ℕ → ℕ × List ℕ
digits n [] = (n, [])
digits n (c ∷ cs) = if isdigit c then digits (10 * n + (c - 48)) cs else (n, c ∷ cs)

-- "a%%" and the twelfth argument
abbrev tokens : List Token
tokens = char 97 ∷ char 37 ∷ placed 12 49 (50 ∷ []) ∷ []

parse_format-print_example :
    (d : Description) × (parse_format isdigit (digits 0) (print tokens) ≡ some (parsed d))
    × ((args : ℕ → List ℕ) → expand args d ≡ meaning args tokens)
parse_format-print_example =
    parse_format-print isdigit (digits 0) tokens
      (tt, (tt, ((omega arith, omega arith, refl, refl, refl, λ rest. refl), tt))) (omega arith)

errors :
    (parse_format isdigit (digits 0) (97 ∷ 37 ∷ 98 ∷ [])
      ≡ some (failed (unsupported_placeholder 1)))
    × (parse_format isdigit (digits 0) (37 ∷ 49 ∷ 98 ∷ []) ≡ some (failed (invalid_placeholder 0)))
    × (parse_format isdigit (digits 0) (37 ∷ 49 ∷ 48 ∷ 48 ∷ 49 ∷ 37 ∷ [])
        ≡ some (failed (too_big_placeholder 0)))
unfolding parse_format loop find
errors = (refl, refl, refl)

digits_shrink : (n : ℕ) (cs : List ℕ) → length (digits n cs).1 ≤ length cs
digits_shrink n [] = omega arith
digits_shrink n (c ∷ cs) = ground (arith, digits_shrink (10 * n + (c - 48)) cs)

parse_format_total_example : parse_format isdigit (digits 0) (97 ∷ 37 ∷ 98 ∷ []) ≢ none
parse_format_total_example =
    parse_format_total isdigit (digits 0) (digits_shrink 0) (97 ∷ 37 ∷ 98 ∷ [])

-- ===== src/FormatParser.antt =====
-- src/format_parser.cpp: the parser of format strings, over the element types of
-- include/boost/log/detail/format.hpp.
--
-- Characters are numbers. `isdigit` of the encoding and the number parser of Boost.Spirit are
-- parameters: `parse_uint` is `qi::parse(pp, end, qi::uint_, n)` with `n` at 0, and gives `n` and
-- what is left between `pp` and `end`.
pub mod Meaning
pub mod RoundTrip
pub mod Termination
mod Tests
use log.Prelude.{
  ℕ, zero, suc, ◌+◌, ◌-◌, ◌%◌, Bool, true, false, not, ◌&&◌, List, [], ◌∷◌, ◌++◌, Option, none,
  some, ltb, ◌==◌, if◌then◌else◌, length,
}

-- `format_element`
pub data Element : Type 0 where
  literal : ℕ → ℕ → Element
  positional_argument : ℕ → Element

-- `format_description`
pub record Description : Type 0 where
  pub literal_chars : List ℕ
  pub format_elements : List Element

-- What is thrown, with `position_info`.
pub data ParseError : Type 0 where
  invalid_placeholder too_big_placeholder unsupported_placeholder : ℕ → ParseError

pub data Parsed : Type 0 where
  parsed : Description → Parsed
  failed : ParseError → Parsed

-- The variables of the loop.
pub record Parser : Type 0 where
  pub descr : Description
  pub open descr use *
  pub literal_start_pos : ℕ

abbrev pub percent : ℕ
percent = 37

-- `std::find(begin, end, '%')`: what is before it, and the rest.
unfoldable pub find : List ℕ → List ℕ × List ℕ
find [] = ([], [])
find (c ∷ cs) = if c == percent then ([], c ∷ cs) else (c ∷ (find cs).0, (find cs).1)

-- `descr.literal_chars.append(...)`
abbrev pub append : Parser → List ℕ → Parser
append st cs = record st { descr = record (st.descr) { literal_chars = st.literal_chars ++ cs } }

abbrev pub add_element : Parser → Element → Parser
add_element st e = record st {
  descr = record (st.descr) { format_elements = st.format_elements ++ e ∷ [] };
}

-- `static_cast< unsigned int >`, with 32 bits.
abbrev pub uint_range : ℕ
uint_range = 4294967296

abbrev pub to_uint : ℕ → ℕ
to_uint n = n % uint_range

-- The literal characters since the last element become one, as far as `unsigned int` counts them.
abbrev pub end_literal : Parser → Parser
end_literal st =
    let n = to_uint (length st.literal_chars) in
    if ltb st.literal_start_pos n
    then record (add_element st (literal st.literal_start_pos (n - st.literal_start_pos))) {
      literal_start_pos = n;
    }
    else st

abbrev pub fresh : Parser
fresh = record {
  descr = record { literal_chars = []; format_elements = [] };
  literal_start_pos = 0;
}

module _ (isdigit : ℕ → Bool) (parse_uint : List ℕ → ℕ × List ℕ) where
  module _ (rest : List ℕ → Parser → Option Parsed) (pos : ℕ) where
    -- The character behind the number.
    abbrev pub closing : ℕ → List ℕ → Parser → Option Parsed
    closing n [] st = some (failed (invalid_placeholder pos))
    closing n (d ∷ pp) st =
        if d == percent
        then (if ltb 1000 n
            then some (failed (too_big_placeholder pos))
            else rest pp (add_element st (positional_argument (n - 1))))
        else some (failed (invalid_placeholder pos))

    abbrev pub number : ℕ × List ℕ → Parser → Option Parsed
    number (n, pp) st = if n == 0 then some (failed (invalid_placeholder pos)) else closing n pp st

    -- A placeholder that begins with `c`.
    abbrev pub placeholder : ℕ → List ℕ → Parser → Option Parsed
    placeholder c q st =
        if isdigit c && not (c == 48)
        then number (parse_uint (c ∷ q)) st
        else some (failed (unsupported_placeholder pos))

    -- What is done at `p`, where a percent character was found or the end.
    abbrev pub at_percent : List ℕ → Parser → Option Parsed
    at_percent [] st = rest [] st
    at_percent (p ∷ []) st = rest [] (append st (percent ∷ []))
    at_percent (p ∷ c ∷ q) st =
        if c == percent then rest q (append st (percent ∷ [])) else placeholder c q (end_literal st)

  -- The loop; `n` is `end - original_begin`.
  unfoldable pub loop : ℕ → ℕ → List ℕ → Parser → Option Parsed
  loop zero n cs st = none
  loop (suc fuel) n [] st = some (parsed (end_literal st).descr)
  loop (suc fuel) n (c ∷ cs) st =
      let found = find (c ∷ cs) in
      at_percent (λ q st'. loop fuel n q st') (to_uint (n - length found.1)) found.1
        (append st found.0)

  -- `parse_format`. `none` would be a loop that does not end.
  unfoldable pub parse_format : List ℕ → Option Parsed
  parse_format cs = loop (length cs + 2) (length cs) cs fresh

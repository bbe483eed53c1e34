-- ===== src/FormatParser/Termination.antt =====
-- The loop of `parse_format` ends.
use log.Prelude.{
  ℕ, zero, suc, ◌+◌, ◌≤◌, ◌<◌, ◌≢◌, Bool, true, false, not, ◌&&◌, List, [], ◌∷◌, Option, none, some,
  arith, length, ltb, ◌==◌, if◌then◌else◌,
}
use log.FormatParser.{
  Parsed, Parser, percent, find, closing, number, at_percent, loop, fresh, parse_format,
}

length-find : (cs : List ℕ) → length (find cs).1 ≤ length cs
unfolding find
length-find [] = omega arith
length-find (c ∷ cs) = ground (arith, length-find cs)

some-ne-none : {A : Type 0} (a : A) → some a ≢ none
some-ne-none a e = absurd (cc)

either-ne-none :
    {A : Type 0} (b : Bool) (x y : Option A) → x ≢ none → y ≢ none → (if b then x else y) ≢ none
either-ne-none true x y h k = h
either-ne-none false x y h k = k

module _ (isdigit : ℕ → Bool) (parse_uint : List ℕ → ℕ × List ℕ)
    (shrinks : (cs : List ℕ) → length (parse_uint cs).1 ≤ length cs) where
  module _ (rest : List ℕ → Parser → Option Parsed) (pos m : ℕ)
      (total : (q : List ℕ) (st : Parser) → length q < m → rest q st ≢ none) where
    closing-total :
        (n : ℕ) (pp : List ℕ) (st : Parser)
        → length pp ≤ m
        → closing isdigit parse_uint rest pos n pp st ≢ none
    closing-total n [] st h = some-ne-none _
    closing-total n (d ∷ pp) st h =
        either-ne-none (d == percent) _ _
          (either-ne-none (ltb 1000 n) _ _ (some-ne-none _) (total pp _ (omega arith)))
          (some-ne-none _)

    number-total :
        (r : ℕ × List ℕ) (st : Parser)
        → length r.1 ≤ m
        → number isdigit parse_uint rest pos r st ≢ none
    number-total (n, pp) st h =
        either-ne-none (n == 0) _ _ (some-ne-none _) (closing-total n pp st h)

    at_percent-total :
        (p : List ℕ) (st : Parser)
        → length p ≤ m
        → 0 < m
        → at_percent isdigit parse_uint rest pos p st ≢ none
    at_percent-total [] st h some_left = total [] st (omega arith)
    at_percent-total (p ∷ []) st h some_left = total [] _ (omega arith)
    at_percent-total (p ∷ c ∷ q) st h some_left =
        either-ne-none (c == percent) _ _ (total q _ (omega arith)) (
          either-ne-none (isdigit c && not (c == 48)) _ _
            (number-total (parse_uint (c ∷ q)) _ (omega (arith, shrinks (c ∷ q)))) (some-ne-none _))

  loop-total :
      (fuel n : ℕ) (cs : List ℕ) (st : Parser)
      → length cs < fuel
      → loop isdigit parse_uint fuel n cs st ≢ none
  unfolding loop
  loop-total zero n cs st h = absurd (omega arith)
  loop-total (suc fuel) n [] st h = some-ne-none _
  loop-total (suc fuel) n (c ∷ cs) st h =
      at_percent-total (λ q st'. loop isdigit parse_uint fuel n q st') _ (length (c ∷ cs))
        (λ q st' k. loop-total fuel n q st' (omega (arith, h, k))) (find (c ∷ cs)).1 _
        (length-find (c ∷ cs)) (omega arith)

  -- The parser of numbers leaves no more than it was given. Then `parse_format` comes to an end on
  -- every string, with a description or an error.
  pub parse_format_total : (cs : List ℕ) → parse_format isdigit parse_uint cs ≢ none
  unfolding parse_format
  parse_format_total cs = loop-total (length cs + 2) (length cs) cs fresh (omega arith)

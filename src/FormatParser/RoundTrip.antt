-- ===== src/FormatParser/RoundTrip.antt =====
-- A format string that is printed from characters and placeholders means what was printed.
use log.Prelude.{
  ℕ, zero, suc, ◌+◌, ◌-◌, ◌≤◌, ◌<◌, ◌≡◌, refl, sym, ap, ◌∙◌, Bool, true, false, List, [], ◌∷◌, ◌++◌,
  some, arith, ltb, ◌==◌, length, length-append, Bool-cases, inl, inr, ==_iff,
}
use mathlib.Core.List.{append-nil, append_assoc}
use log.FormatParser.{
  uint_range, to_uint, positional_argument, Description, parsed, Parser, percent, find, append,
  add_element, end_literal, at_percent, loop, fresh, parse_format,
}
use log.FormatParser.Meaning.{
  Token, char, placed, print, meaning, expand, so_far, Sound, append-Sound, so_far-append,
  end_literal-Ended, end_literal-chars, placed-Sound, so_far-placed,
}

module _ (isdigit : ℕ → Bool) (parse_uint : List ℕ → ℕ × List ℕ) where
  -- A placeholder is written with digits that the number parser reads, up to the percent
  -- character, as a number from 1 to 1000; the first digit is not 0.
  abbrev pub Readable : Token → Type 0
  Readable (char c) = Unit {0}
  Readable (placed n c ds) =
      (1 ≤ n)
      × (n ≤ 1000)
      × (isdigit c ≡ true)
      × (c == 48 ≡ false)
      × (c == percent ≡ false)
      × ((rest : List ℕ) → parse_uint (c ∷ ds ++ percent ∷ rest) ≡ (n, percent ∷ rest))

  find-char :
      (c : ℕ) (cs : List ℕ) → c == percent ≡ false → find (c ∷ cs) ≡ (c ∷ (find cs).0, (find cs).1)
  unfolding find
  find-char c cs e = rw e refl

  loop-char :
      (fuel n c : ℕ) (cs : List ℕ) (st : Parser)
      → c == percent ≡ false
      → loop isdigit parse_uint (suc (suc fuel)) n (c ∷ cs) st
        ≡ loop isdigit parse_uint (suc (suc fuel)) n cs (append st (c ∷ []))
  unfolding loop find
  loop-char fuel n c [] st e = rw (find-char c [] e) refl
  loop-char fuel n c (d ∷ ds) st e = rw (find-char c (d ∷ ds) e) (
      ap
        (λ l.
          at_percent isdigit parse_uint (λ q st'. loop isdigit parse_uint (suc fuel) n q st')
            (to_uint (n - length (find (d ∷ ds)).1)) (find (d ∷ ds)).1
            (record st { descr = record (st.descr) { literal_chars = l } }))
        (sym (append_assoc st.literal_chars (c ∷ []) (find (d ∷ ds)).0)))

  loop-percent :
      (fuel n : ℕ) (cs : List ℕ) (st : Parser)
      → loop isdigit parse_uint (suc fuel) n (percent ∷ percent ∷ cs) st
        ≡ loop isdigit parse_uint fuel n cs (append (append st []) (percent ∷ []))
  unfolding loop find
  loop-percent fuel n cs st = refl

  loop-placed :
      (fuel m n c : ℕ) (ds cs : List ℕ) (st : Parser)
      → Readable (placed n c ds)
      → loop isdigit parse_uint (suc fuel) m (percent ∷ c ∷ ds ++ percent ∷ cs) st
        ≡ loop isdigit parse_uint fuel m cs
            (add_element (end_literal (append st [])) (positional_argument (n - 1)))
  unfolding loop find
  loop-placed fuel m n c ds cs st (low, high, digit, not_zero, not_percent, reads) =
      let some_number : n == 0 ≡ false = ground arith in
      let small : ltb 1000 n ≡ false = ground arith in
      rw (not_percent, digit, not_zero, reads cs, some_number, small) refl

  -- The loop reads the printed tokens to the end, and adds their meaning.
  abbrev Reads : List Token → ℕ → ℕ → Parser → Type 0
  Reads ts fuel n st =
      (d : Description) × (loop isdigit parse_uint fuel n (print ts) st ≡ some (parsed d))
      × ((args : ℕ → List ℕ) → expand args d ≡ so_far args st ++ meaning args ts)

  abbrev pub AllReadable : List Token → Type 0
  AllReadable [] = Unit {0}
  AllReadable (t ∷ ts) = Readable t × AllReadable ts

  shorter_percent :
      (st : Parser) (c : ℕ) (ts : List Token)
      → c == percent ≡ true
      → length st.literal_chars + length (print (char c ∷ ts)) < uint_range
      → length (append (append st []) (percent ∷ [])).literal_chars + length (print ts) < uint_range
  shorter_percent st c ts e short =
      let plain = rw e at short in
      omega (
        arith,
        plain,
        length-append (st.literal_chars ++ []) (percent ∷ []),
        length-append st.literal_chars [],
      )

  shorter_char :
      (st : Parser) (c : ℕ) (ts : List Token)
      → c == percent ≡ false
      → length st.literal_chars + length (print (char c ∷ ts)) < uint_range
      → length (append st (c ∷ [])).literal_chars + length (print ts) < uint_range
  shorter_char st c ts e short =
      let plain = rw e at short in omega (arith, plain, length-append st.literal_chars (c ∷ []))

  shorter_placed :
      (st : Parser) (k c : ℕ) (ds : List ℕ) (ts : List Token)
      → length st.literal_chars + length (print (placed k c ds ∷ ts)) < uint_range
      → (length (append st []).literal_chars < uint_range)
        × (length (end_literal (append st [])).literal_chars + length (print ts) < uint_range)
  shorter_placed st k c ds ts short = (
    omega (arith, short, length-append st.literal_chars []),
    omega (
      arith,
      short,
      length-append st.literal_chars [],
      length-append (ds ++ percent ∷ []) (print ts),
      end_literal-chars (append st []),
    ),
  )

  loop-Reads :
      (ts : List Token) (fuel n : ℕ) (st : Parser)
      → AllReadable ts
      → Sound st
      → length st.literal_chars + length (print ts) < uint_range
      → length ts + 2 ≤ fuel
      → Reads ts fuel n st
  unfolding loop
  loop-Reads ts zero n st r h short enough = absurd (omega arith)
  loop-Reads [] (suc fuel) n st r h short enough =
      let e = end_literal-Ended st (omega (arith, short)) h in
      ((end_literal st).descr, refl, λ args. e.same args ∙ sym (append-nil (so_far args st)))
  loop-Reads (char c ∷ ts) (suc zero) n st r h short enough = absurd (omega arith)
  loop-Reads (char c ∷ ts) (suc (suc fuel)) n st (_, r) h short enough =
      elim (Bool-cases (c == percent)) [
        | inl e ↦
            let same : c ≡ percent = (==_iff c percent).0 e in
            let st' = append (append st []) (percent ∷ []) in
            let sound = append-Sound (append st []) (percent ∷ []) (append-Sound st [] h) in
            let fewer : length st'.literal_chars + length (print ts) < uint_range =
              shorter_percent st c ts e short in
            let (d, f, m) = loop-Reads ts (suc fuel) n st' r sound fewer (omega arith) in
            rw same (
              d,
              loop-percent (suc fuel) n (print ts) st ∙ f,
              λ args.
                  m args
                  ∙ ap (λ l. l ++ meaning args ts)
                      (so_far-append args (append st []) (percent ∷ []) (append-Sound st [] h)
                        ∙ ap (λ l. l ++ percent ∷ [])
                            (so_far-append args st [] h ∙ append-nil (so_far args st)))
                  ∙ append_assoc (so_far args st) (percent ∷ []) (meaning args ts),
            )
        | inr e ↦
            let (d, f, m) =
              loop-Reads ts (suc (suc fuel)) n (append st (c ∷ [])) r (append-Sound st (c ∷ []) h)
                (shorter_char st c ts e short) (omega arith) in
            rw e (
              d,
              loop-char fuel n c (print ts) st e ∙ f,
              λ args.
                  m args
                  ∙ ap (λ l. l ++ meaning args ts) (so_far-append args st (c ∷ []) h)
                  ∙ append_assoc (so_far args st) (c ∷ []) (meaning args ts),
            )
      ]
  loop-Reads (placed k c ds ∷ ts) (suc fuel) n st (good, r) h short enough =
      let few = shorter_placed st k c ds ts short in
      let ended = end_literal-Ended (append st []) few.0 (append-Sound st [] h) in
      let st' = end_literal (append st []) in
      let (d, f, m) =
        loop-Reads ts fuel n (add_element st' (positional_argument (k - 1))) r
          (placed-Sound st' (k - 1) ended.sound) few.1 (omega arith) in
      let text : (ds ++ percent ∷ []) ++ print ts ≡ ds ++ percent ∷ print ts =
        append_assoc ds (percent ∷ []) (print ts) in
      (
        d,
        ap (λ l. loop isdigit parse_uint (suc fuel) n (percent ∷ c ∷ l) st) text
            ∙ loop-placed fuel n k c ds (print ts) st good
            ∙ f,
        λ args.
            m args
            ∙ ap (λ l. l ++ meaning args ts)
                (so_far-placed args st' (k - 1) ended.nothing_left
                  ∙ ap (λ l. l ++ args (k - 1))
                      (ended.same args ∙ so_far-append args st [] h ∙ append-nil (so_far args st)))
            ∙ append_assoc (so_far args st) (args (k - 1)) (meaning args ts),
      )

  length-print : (ts : List Token) → length ts ≤ length (print ts)
  length-print [] = omega arith
  length-print (char c ∷ ts) = elim (Bool-cases (c == percent)) [
    | inl e ↦ rw e (omega (arith, length-print ts))
    | inr e ↦ rw e (omega (arith, length-print ts))
  ]
  length-print (placed k c ds ∷ ts) =
      omega (arith, length-append (ds ++ percent ∷ []) (print ts), length-print ts)

  -- Every format string of less than 2^32 characters, in which `unsigned int` can count, that is
  -- written from characters (a percent character doubled) and placeholders with readable numbers
  -- is parsed without an error, and the description stands for those characters and the arguments
  -- of those numbers, in order, whatever the arguments are.
  pub parse_format-print :
      (ts : List Token)
      → AllReadable ts
      → length (print ts) < uint_range
      → (d : Description) × (parse_format isdigit parse_uint (print ts) ≡ some (parsed d))
        × ((args : ℕ → List ℕ) → expand args d ≡ meaning args ts)
  unfolding parse_format
  parse_format-print ts r short =
      loop-Reads ts (length (print ts) + 2) (length (print ts)) fresh r
        (record { start = omega arith; within = tt }) (omega (arith, short))
        (omega (arith, length-print ts))

-- ===== src/FormatParser/Meaning.antt =====
-- What format strings and their descriptions stand for, and what the steps of the parser keep of it.
use log.Prelude.{
  ℕ, zero, suc, ◌+◌, ◌-◌, ◌≤◌, ◌<◌, ◌≡◌, refl, sym, ap, ◌∙◌, Bool, true, false, List, [], ◌∷◌, ◌++◌,
  arith, ltb, ◌==◌, if◌then◌else◌, length, length-append, length-drop, take, drop,
}
use mathlib.Core.List.{append-nil, append_assoc}
use log.FormatParser.{
  uint_range, to_uint, Element, literal, positional_argument, Description, Parser, percent, append,
  add_element, end_literal,
}

-- A character, or a placeholder with its number and the digits that it is written with.
pub data Token : Type 0 where
  char : ℕ → Token
  placed : ℕ → ℕ → List ℕ → Token

abbrev pub print_token : Token → List ℕ
print_token (char c) = if c == percent then percent ∷ percent ∷ [] else c ∷ []
print_token (placed n c ds) = percent ∷ c ∷ ds ++ percent ∷ []

abbrev pub print : List Token → List ℕ
print [] = []
print (t ∷ ts) = print_token t ++ print ts

-- What the tokens stand for, given the arguments.
abbrev pub meaning : (ℕ → List ℕ) → List Token → List ℕ
meaning args [] = []
meaning args (char c ∷ ts) = c ∷ meaning args ts
meaning args (placed n c ds ∷ ts) = args (n - 1) ++ meaning args ts

-- What a description stands for: the elements, one after another.
abbrev pub element : List ℕ → (ℕ → List ℕ) → Element → List ℕ
element chars args (literal start len) = take len (drop start chars)
element chars args (positional_argument n) = args n

abbrev pub elements : List ℕ → (ℕ → List ℕ) → List Element → List ℕ
elements chars args [] = []
elements chars args (e ∷ es) = element chars args e ++ elements chars args es

abbrev pub expand : (ℕ → List ℕ) → Description → List ℕ
expand args d = elements d.literal_chars args d.format_elements

-- Literals that lie before a position.
abbrev pub Before : ℕ → List Element → Type 0
Before n [] = Unit {0}
Before n (literal start len ∷ es) = (start + len ≤ n) × Before n es
Before n (positional_argument k ∷ es) = Before n es

pub record Sound (st : Parser) : Type 0 where
  pub start : st.literal_start_pos ≤ length st.literal_chars
  pub within : Before st.literal_start_pos st.format_elements

-- What has been read so far stands for.
abbrev pub so_far : (ℕ → List ℕ) → Parser → List ℕ
so_far args st = expand args st.descr ++ drop st.literal_start_pos st.literal_chars

take-drop-append :
    (len start : ℕ) (xs ys : List ℕ)
    → start + len ≤ length xs
    → take len (drop start (xs ++ ys)) ≡ take len (drop start xs)
take-drop-append zero start xs ys h = refl
take-drop-append (suc len) zero [] ys h = absurd (omega arith)
take-drop-append (suc len) zero (x ∷ xs) ys h =
    ap (λ l. x ∷ l) (take-drop-append len zero xs ys (omega arith))
take-drop-append (suc len) (suc start) [] ys h = absurd (omega arith)
take-drop-append (suc len) (suc start) (x ∷ xs) ys h =
    take-drop-append (suc len) start xs ys (omega arith)

drop-append :
    (start : ℕ) (xs ys : List ℕ) → start ≤ length xs → drop start (xs ++ ys) ≡ drop start xs ++ ys
drop-append zero xs ys h = refl
drop-append (suc start) [] ys h = absurd (omega arith)
drop-append (suc start) (x ∷ xs) ys h = drop-append start xs ys (omega arith)

elements-more :
    (n : ℕ) (xs ys : List ℕ) (args : ℕ → List ℕ) (es : List Element)
    → Before n es
    → n ≤ length xs
    → elements (xs ++ ys) args es ≡ elements xs args es
elements-more n xs ys args [] b h = refl
elements-more n xs ys args (literal start len ∷ es) (k, b) h =
    rw (take-drop-append len start xs ys (omega arith), elements-more n xs ys args es b h) refl
elements-more n xs ys args (positional_argument m ∷ es) b h =
    rw (elements-more n xs ys args es b h) refl

elements-append :
    (xs : List ℕ) (args : ℕ → List ℕ) (es : List Element) (e : Element)
    → elements xs args (es ++ e ∷ []) ≡ elements xs args es ++ element xs args e
elements-append xs args [] e = append-nil (element xs args e)
elements-append xs args (d ∷ es) e =
    rw (elements-append xs args es e) (sym (append_assoc (element xs args d) _ _))

Before-append :
    (n m : ℕ) (es : List Element) (e : Element)
    → n ≤ m
    → Before n es
    → Before m (e ∷ [])
    → Before m (es ++ e ∷ [])
Before-append n m [] e h b c = c
Before-append n m (literal start len ∷ es) e h (k, b) c =
    (omega arith, Before-append n m es e h b c)
Before-append n m (positional_argument i ∷ es) e h b c = Before-append n m es e h b c

take_all : (n : ℕ) (xs : List ℕ) → length xs ≤ n → take n xs ≡ xs
take_all zero [] h = refl
take_all zero (x ∷ xs) h = absurd (omega arith)
take_all (suc n) [] h = refl
take_all (suc n) (x ∷ xs) h = ap (λ l. x ∷ l) (take_all n xs (omega arith))

pub append-Sound : (st : Parser) (cs : List ℕ) → Sound st → Sound (append st cs)
append-Sound st cs h = record {
  start = omega (arith, h.start, length-append st.literal_chars cs);
  within = h.within;
}

pub so_far-append :
    (args : ℕ → List ℕ) (st : Parser) (cs : List ℕ)
    → Sound st
    → so_far args (append st cs) ≡ so_far args st ++ cs
so_far-append args st cs h =
    rw
      (
        elements-more st.literal_start_pos st.literal_chars cs args st.format_elements h.within
            h.start,
        drop-append st.literal_start_pos st.literal_chars cs h.start,
      )
      (sym (append_assoc (expand args st.descr) _ cs))

drop_end : (n : ℕ) (xs : List ℕ) → length xs ≤ n → drop n xs ≡ []
drop_end zero [] h = refl
drop_end zero (x ∷ xs) h = absurd (omega arith)
drop_end (suc n) [] h = refl
drop_end (suc n) (x ∷ xs) h = drop_end n xs (omega arith)

-- What `end_literal` keeps: nothing is left outside the elements, and nothing is lost.
pub record Ended (st t : Parser) : Type 0 where
  pub sound : Sound t
  pub nothing_left : drop t.literal_start_pos t.literal_chars ≡ []
  pub same : (args : ℕ → List ℕ) → expand args t.descr ≡ so_far args st

pub end_literal-chars :
    (st : Parser) → length (end_literal st).literal_chars ≡ length st.literal_chars
end_literal-chars st = go (ltb st.literal_start_pos (to_uint (length st.literal_chars)))
  where
    go :
        (b : Bool)
        → length
            (if b
              then record (add_element st (
                  literal st.literal_start_pos
                    (to_uint (length st.literal_chars) - st.literal_start_pos))) {
                      literal_start_pos = to_uint (length st.literal_chars);
                    }
              else st).literal_chars
          ≡ length st.literal_chars
    go true = refl
    go false = refl

pub end_literal-Ended :
    (st : Parser) → length st.literal_chars < uint_range → Sound st → Ended st (end_literal st)
end_literal-Ended st short h =
    go (to_uint (length xs)) (ltb start (to_uint (length xs))) (omega (arith, short)) refl
  where
    start : ℕ
    start = st.literal_start_pos

    xs : List ℕ
    xs = st.literal_chars

    go :
        (n : ℕ) (b : Bool)
        → n ≡ length xs
        → ltb start n ≡ b
        → Ended st (
            if b
            then record (add_element st (literal start (n - start))) { literal_start_pos = n }
            else st)
    go n true whole e = record {
      sound = record {
        start = omega (arith, whole);
        within =
            Before-append start n st.format_elements _ (omega (arith, h.start, whole)) h.within
              (omega (arith, h.start, whole), tt);
      };
      nothing_left = drop_end n xs (omega (arith, whole));
      same = λ args.
          elements-append xs args st.format_elements (literal start (n - start))
          ∙ ap (λ l. expand args st.descr ++ l)
              (take_all (n - start) (drop start xs) (omega (arith, length-drop start xs, whole)));
    }
    go n false whole e =
        let none_left : drop start xs ≡ [] = drop_end start xs (ground (arith, e, whole)) in
        record {
          sound = h;
          nothing_left = none_left;
          same = λ args. rw none_left (sym (append-nil (expand args st.descr)));
        }

-- A placeholder behind a literal that has been ended.
pub placed-Sound : (st : Parser) (k : ℕ) → Sound st → Sound (add_element st (positional_argument k))
placed-Sound st k h = record {
  start = h.start;
  within =
      Before-append st.literal_start_pos st.literal_start_pos st.format_elements _ (omega arith)
        h.within tt;
}

pub so_far-placed :
    (args : ℕ → List ℕ) (st : Parser) (k : ℕ)
    → drop st.literal_start_pos st.literal_chars ≡ []
    → so_far args (add_element st (positional_argument k)) ≡ expand args st.descr ++ args k
so_far-placed args st k e =
    rw (e, elements-append st.literal_chars args st.format_elements (positional_argument k))
      (append-nil (expand args st.descr ++ args k))

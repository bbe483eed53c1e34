-- ===== src/Core/Pushing/Counting.antt =====
-- Setting sinks aside and shuffling them in `push_record_move` loses none.
use log.Prelude.{
  ℕ, zero, suc, ◌+◌, ◌%◌, ◌≡◌, refl, List, [], ◌∷◌, arith, length, length-append, count,
  count-append,
}
use log.Core.Env.{Env}
use log.Core.Pushing.{swap_in, last_first, under_head, swap_out, shuffle_from, random_shuffle}

count-under_head : (a x : ℕ) (l : List ℕ) → count a (under_head x l) ≡ count a (x ∷ l)
count-under_head a x [] = refl
count-under_head a x (l ∷ r) = omega arith

length-under_head : (x : ℕ) (l : List ℕ) → length (under_head x l) ≡ suc (length l)
length-under_head x [] = refl
length-under_head x (l ∷ r) = refl

count-last_first : (a x : ℕ) (xs : List ℕ) → count a (last_first x xs) ≡ count a (x ∷ xs)
unfolding last_first
count-last_first a x [] = refl
count-last_first a x (y ∷ ys) =
    omega (arith, count-under_head a x (last_first y ys), count-last_first a y ys)

length-last_first : (x : ℕ) (xs : List ℕ) → length (last_first x xs) ≡ suc (length xs)
unfolding last_first
length-last_first x [] = refl
length-last_first x (y ∷ ys) =
    omega (arith, length-under_head x (last_first y ys), length-last_first y ys)

pub count-swap_out : (a : ℕ) (xs : List ℕ) → count a (swap_out xs) ≡ count a xs
unfolding swap_out
count-swap_out a [] = refl
count-swap_out a (x ∷ xs) = count-last_first a x xs

pub length-swap_out : (xs : List ℕ) → length (swap_out xs) ≡ length xs
unfolding swap_out
length-swap_out [] = refl
length-swap_out (x ∷ xs) = length-last_first x xs

count-swap_in : (a : ℕ) (ys : List ℕ) (x j : ℕ) → count a (swap_in ys x j) ≡ count a (x ∷ ys)
unfolding swap_in
count-swap_in a [] x j = refl
count-swap_in a (y ∷ ys) x zero = omega (arith, count-append a ys (y ∷ []))
count-swap_in a (y ∷ ys) x (suc j) = omega (arith, count-swap_in a ys x j)

length-swap_in : (ys : List ℕ) (x j : ℕ) → length (swap_in ys x j) ≡ suc (length ys)
unfolding swap_in
length-swap_in [] x j = refl
length-swap_in (y ∷ ys) x zero = omega (arith, length-append ys (y ∷ []))
length-swap_in (y ∷ ys) x (suc j) = omega (arith, length-swap_in ys x j)

module _ (env : Env) where
  count-shuffle_from :
      (a : ℕ) (front xs : List ℕ) (w : env.World)
      → count a (shuffle_from env front xs w).0 ≡ count a front + count a xs
  unfolding shuffle_from
  count-shuffle_from a front [] w = omega arith
  count-shuffle_from a front (x ∷ xs) w =
      let j = (env.rng w).0 % (length front + 1) in
      omega (
        arith,
        count-shuffle_from a (swap_in front x j) xs (env.rng w).1,
        count-swap_in a front x j,
      )

  length-shuffle_from :
      (front xs : List ℕ) (w : env.World)
      → length (shuffle_from env front xs w).0 ≡ length front + length xs
  unfolding shuffle_from
  length-shuffle_from front [] w = omega arith
  length-shuffle_from front (x ∷ xs) w =
      let j = (env.rng w).0 % (length front + 1) in
      omega
        (arith, length-shuffle_from (swap_in front x j) xs (env.rng w).1, length-swap_in front x j)

  -- `random_shuffle` only permutes: every sink occurs as often as before, whatever the generator.
  pub count-random_shuffle :
      (a : ℕ) (xs : List ℕ) (w : env.World) → count a (random_shuffle env xs w).0 ≡ count a xs
  unfolding random_shuffle
  count-random_shuffle a [] w = refl
  count-random_shuffle a (x ∷ xs) w = omega (arith, count-shuffle_from a (x ∷ []) xs w)

  pub length-random_shuffle :
      (xs : List ℕ) (w : env.World) → length (random_shuffle env xs w).0 ≡ length xs
  unfolding random_shuffle
  length-random_shuffle [] w = refl
  length-random_shuffle (x ∷ xs) w = omega (arith, length-shuffle_from (x ∷ []) xs w)

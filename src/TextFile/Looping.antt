-- ===== src/TextFile/Looping.antt =====
-- The loop that opens a file comes to an end (src/text_file_backend.cpp).
use mathlib.Core.Path.{subst}
use log.Prelude.{
  ℕ, zero, suc, ◌<◌, ◌≤◌, ◌≡◌, refl, ap, ◌∙◌, sym, Bool, true, false, Option, none, some, ◌==◌,
  ◌&&◌, arith,
}
use log.TextFile.{
  FileEnv, Backend, counter_range, next_counter, Done, fresh_name, choose_name, Round, ends,
  goes_on, round, follow, open_loop,
}
use log.TextFile.Rounds.{steps_left, steps_less, steps_some, Ready, After, after_open_lem}

module _ {World : Type 0} (env : FileEnv World) where
  abbrev pub Opens : Backend → ℕ → ℕ → Option (Done World) → Type 0
  Opens start size last none = ⊥
  Opens start size last (some r) = Ready env start size last r

  module _ (start : Backend) (size last : ℕ) (last_fits : last < counter_range) where
    follow_lem :
        (c : Backend) (r : Round World) (rest : Backend → World → Option (Done World))
        → After env start size last c r
        → ((b : Backend) (w : World)
            → After env start size last c (goes_on b w)
            → Opens start size last (rest b w))
        → Opens start size last (follow env r rest)
    follow_lem c (ends r) rest h next = h
    follow_lem c (goes_on b w) rest h next = next b w h

    counted :
        (b : Backend) (w : World)
        → b.counter_is_last_used ≡ true
        → b.is_first_file ≡ false
        → (choose_name env b none w).0.file_counter ≡ next_counter b.file_counter
    counted b w u f =
        subst
          (λ x.
            (fresh_name x
              (b.is_first_file && b.appends && env.is_kept (env.generate b.file_counter w) w)
              b).file_counter
            ≡ next_counter b.file_counter)
          (sym u)
          (subst
            (λ y.
              (fresh_name true (y && b.appends && env.is_kept (env.generate b.file_counter w) w)
                b).file_counter
              ≡ next_counter b.file_counter)
            (sym f) refl)

    used_after :
        (b : Backend) (w : World) → (choose_name env b none w).0.counter_is_last_used ≡ true
    used_after b w =
        go b.counter_is_last_used
          (b.is_first_file && b.appends && env.is_kept (env.generate b.file_counter w) w) refl
      where
        go :
            (u stays : Bool)
            → b.counter_is_last_used ≡ u
            → (fresh_name u stays b).counter_is_last_used ≡ true
        go true true e = e
        go true false e = e
        go false stays e = refl

    counter_fits :
        (b : Backend) (previous : Option ℕ) (w : World)
        → b.file_counter < counter_range
        → (choose_name env b previous w).0.file_counter < counter_range
    counter_fits b (some name) w h = h
    counter_fits b none w h =
        go b.counter_is_last_used
          (b.is_first_file && b.appends && env.is_kept (env.generate b.file_counter w) w)
      where
        go : (u stays : Bool) → (fresh_name u stays b).file_counter < counter_range
        go true true = h
        go true false = omega arith
        go false stays = h

    round-After :
        (b : Backend) (previous : Option ℕ) (w : World)
        → After env start size last
            (choose_name env b previous w).0
            (round env b size last previous w)
    unfolding round
    round-After b previous w =
        let n = choose_name env b previous w in
        after_open_lem env start n.0 size last n.1 w (env.open_file n.1 w) refl

    -- With the counter going on in every round.
    loop_counting :
        (fuel : ℕ) (b : Backend) (w : World)
        → b.counter_is_last_used ≡ true
        → b.is_first_file ≡ false
        → b.file_counter < counter_range
        → (b.file_counter == last) ≡ false
        → steps_left last b.file_counter ≤ fuel
        → Opens start size last (open_loop env fuel b size last none w)
    unfolding open_loop
    loop_counting zero b w u f h d enough =
        absurd (omega (arith, enough, steps_some last b.file_counter h last_fits d))
    loop_counting (suc fuel) b w u f h d enough =
        follow_lem (choose_name env b none w).0 (round env b size last none w) _
          (round-After b none w)
          (λ b' w' (same, used, first, other).
            let e : b'.file_counter ≡ next_counter b.file_counter = same ∙ counted b w u f in
            let less = steps_less last b.file_counter h last_fits d in
            loop_counting fuel b' w' (used ∙ used_after b w) first
              (omega (arith, same, counter_fits b none w h)) (ap (λ n. n == last) same ∙ other)
              (omega (arith, ap (steps_left last) e, less, enough)))

    -- With the counter in use after the round.
    loop_used :
        (fuel : ℕ) (b : Backend) (previous : Option ℕ) (w : World)
        → (choose_name env b previous w).0.counter_is_last_used ≡ true
        → b.file_counter < counter_range
        → counter_range ≤ fuel
        → Opens start size last (open_loop env (suc fuel) b size last previous w)
    unfolding open_loop
    loop_used fuel b previous w u h enough =
        follow_lem (choose_name env b previous w).0 (round env b size last previous w) _
          (round-After b previous w)
          (λ b' w' (same, used, first, other).
            loop_counting fuel b' w' (used ∙ u) first
              (omega (arith, same, counter_fits b previous w h)) (ap (λ n. n == last) same ∙ other)
              (omega (arith, enough)))

    pub loop_start :
        (fuel : ℕ) (b : Backend) (previous : Option ℕ) (w : World)
        → b.file_counter < counter_range
        → counter_range ≤ fuel
        → Opens start size last (open_loop env (suc (suc fuel)) b size last previous w)
    unfolding open_loop
    loop_start fuel b previous w h enough =
        follow_lem (choose_name env b previous w).0 (round env b size last previous w) _
          (round-After b previous w)
          (λ b' w' (same, used, first, other).
            loop_used fuel b' none w' (used_after b' w')
              (omega (arith, same, counter_fits b previous w h)) enough)

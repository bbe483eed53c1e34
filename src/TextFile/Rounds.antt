-- ===== src/TextFile/Rounds.antt =====
-- One round of the loop that opens a file (src/text_file_backend.cpp).
use log.Prelude.{
  ℕ, suc, ◌+◌, ◌-◌, ◌%◌, ◌<◌, ◌≡◌, refl, ap, sym, Bool, true, false, not, Option, none, some, ◌==◌,
  ◌&&◌, ltb, ◌⊎◌, inl, inr, Bool-cases, arith, ==_iff,
}
use log.TextFile.{
  FileEnv, Backend, counter_range, next_counter, fills, Done, close_file, after_move, moved_to,
  rotate_file, run_handler, Round, ends, goes_on, after_rotation, after_open,
}

-- How often the counter can go on before it is the last one.
abbrev pub steps_left : ℕ → ℕ → ℕ
steps_left last n = (last + counter_range - n) % counter_range

pub steps_less :
    (last n : ℕ)
    → n < counter_range
    → last < counter_range
    → (n == last) ≡ false
    → suc (steps_left last (next_counter n)) ≡ steps_left last n
steps_less last n h k d = ground (arith, h, k, d)

pub steps_some :
    (last n : ℕ)
    → n < counter_range
    → last < counter_range
    → (n == last) ≡ false
    → 0 < steps_left last n
steps_some last n h k d = omega (arith, steps_less last n h k d)

one_fails : (x y z : Bool) → (x && y && not z) ≡ false → (x ≡ false) ⊎ ((y ≡ false) ⊎ (z ≡ true))
one_fails false y z h = inl refl
one_fails true false z h = inr (inl refl)
one_fails true true true h = inr (inr refl)
one_fails true true false h = absurd (cc)

last_holds : (x y z : Bool) → (x && y && not z) ≡ true → z ≡ false
last_holds x y false h = refl
last_holds false y true h = absurd (cc)
last_holds true false true h = absurd (cc)
last_holds true true true h = absurd (cc)

module _ {World : Type 0} (env : FileEnv World) where
  -- The world and the count behind the open handler, if there is one.
  abbrev pub behind_handler : World → ℕ → Option (World → World × ℕ) → World × ℕ
  behind_handler w position none = (w, position)
  behind_handler w position (some handler) = handler w

  -- The file of the backend was opened and the open handler run. `open_file` had told a position: 0,
  -- or one from which the message does not fill the file, or else the counter has gone round.
  abbrev pub Newly : ℕ → ℕ → Backend → World → Type 0
  Newly size last b w =
      (before after : World) × (position : ℕ) × (env.open_file b.file_name before
        ≡ (after, some position))
      × ((w, b.characters_written) ≡ behind_handler after position env.after_handler)
      × ((position ≡ 0) ⊎ ((fills b position size ≡ false) ⊎ (b.file_counter ≡ last)))

  -- The file that was open at the start is still open, and the message does not fill it.
  abbrev pub Still : Backend → ℕ → Backend → Type 0
  Still start size b = (b ≡ start) × (fills b b.characters_written size ≡ false)

  abbrev pub Ready : Backend → ℕ → ℕ → Done World → Type 0
  Ready start size last (b, w, false) = Unit {0}
  Ready start size last (b, w, true) =
      (b.is_open ≡ true) × (Newly size last b w ⊎ Still start size b)

  abbrev pub After : Backend → ℕ → ℕ → Backend → Round World → Type 0
  After start size last b (ends r) = Ready start size last r
  After start size last b (goes_on b' w') =
      (b'.file_counter ≡ b.file_counter)
      × (b'.counter_is_last_used ≡ b.counter_is_last_used)
      × (b'.is_first_file ≡ false)
      × ((b.file_counter == last) ≡ false)

  moved_to-state :
      (b : Backend) (name : ℕ) (w : World) (o : Option (ℕ → World → ℕ))
      → (moved_to env b name w o).0 ≡ b
  moved_to-state b name w none = refl
  moved_to-state b name w (some target) = elim (Bool-cases (target b.file_counter w == name)) [
    | inl k ↦ rw k refl
    | inr k ↦ rw k (go (env.move_file name (target b.file_counter w) w))
  ]
    where
      go : (r : World × Bool) → (after_move env b (target b.file_counter w) r).0 ≡ b
      go (w, true) = refl
      go (w, false) = refl

  pub rotate_file-state :
      (h : Bool) (b : Backend) (w : World) → (rotate_file env h b w).0 ≡ (close_file env h b w).0
  unfolding rotate_file
  rotate_file-state h b w =
      elim (Bool-cases (env.is_regular_file b.file_name (close_file env h b w).1)) [
        | inl k ↦ rw k (
            moved_to-state (close_file env h b w).0 b.file_name (close_file env h b w).1
              env.target_generator)
        | inr k ↦ rw k refl
      ]

  -- The file is open: the loop ends, or rotates it and goes on.
  pub after_open_lem :
      (start b : Backend) (size last name : ℕ) (w : World) (r : World × Option ℕ)
      → env.open_file name w ≡ r
      → After start size last b (after_open env b size last name r)
  after_open_lem start b size last name w (w', none) opened = tt
  after_open_lem start b size last name w (w', some position) opened =
      elim (Bool-cases (ltb 0 position && fills b position size && not (b.file_counter == last))) [
        | inl k ↦ rw k (rotated k (rotate_file env false b' w') (rotate_file-state false b' w'))
        | inr k ↦ rw k (handled env.after_handler refl (why k))
      ]
    where
      b' : Backend
      b' = record b {
        file_name = name;
        is_open = true;
        is_first_file = false;
        characters_written = position;
      }

      why :
          (ltb 0 position && fills b position size && not (b.file_counter == last)) ≡ false
          → (position ≡ 0) ⊎ ((fills b position size ≡ false) ⊎ (b.file_counter ≡ last))
      why k = elim (one_fails (ltb 0 position) (fills b position size) (b.file_counter == last) k) [
        | inl a ↦ inl (ground (arith, a))
        | inr (inl a) ↦ inr (inl a)
        | inr (inr a) ↦ inr (inr ((==_iff b.file_counter last).0 a))
      ]

      rotated :
          (ltb 0 position && fills b position size && not (b.file_counter == last)) ≡ true
          → (r : Done World) → r.0 ≡ (close_file env false b' w').0
          → After start size last b (after_rotation env r)
      rotated k (c, w, true) e = (
        ap (λ x. x.file_counter) e,
        ap (λ x. x.counter_is_last_used) e,
        ap (λ x. x.is_first_file) e,
        last_holds (ltb 0 position) (fills b position size) (b.file_counter == last) k,
      )
      rotated k (c, w, false) e = tt

      handled :
          (o : Option (World → World × ℕ))
          → env.after_handler ≡ o
          → (position ≡ 0) ⊎ ((fills b position size ≡ false) ⊎ (b.file_counter ≡ last))
          → Ready start size last (run_handler env b' w' o)
      handled none e h =
          (refl, inl (w, w', position, opened, sym (ap (behind_handler w' position) e), h))
      handled (some handler) e h =
          (refl, inl (w, w', position, opened, sym (ap (behind_handler w' position) e), h))

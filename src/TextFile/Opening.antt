-- ===== src/TextFile/Opening.antt =====
-- The file that a message is written to (src/text_file_backend.cpp).
use mathlib.Core.Path.{subst}
use log.Prelude.{
  ℕ, ◌<◌, ◌≡◌, refl, ap, sym, Bool, true, false, Option, none, some, if◌then◌else◌, inl, inr,
  Bool-cases, arith,
}
use log.TextFile.{
  FileEnv, Backend, counter_range, previous_counter, fills, Done, close_file, stored, rotate_file,
  open_loop, ensure_open, open_after, rotate_by_time, rotate_if_due, prepare, then_write,
  write_message, consume,
}
use log.TextFile.Rounds.{Ready, rotate_file-state}
use log.TextFile.Looping.{Opens, loop_start}

module _ {World : Type 0} (env : FileEnv World) where
  previous_fits : (n : ℕ) → previous_counter n < counter_range
  previous_fits n = omega arith

  ensure_closed :
      (start b : Backend) (size : ℕ) (previous : Option ℕ) (w : World) (counter : ℕ)
      → b.file_counter ≡ counter
      → counter < counter_range
      → b.is_open ≡ false
      → Opens env start size (previous_counter counter) (ensure_open env b size previous w)
  ensure_closed start b size previous w counter same h closed =
      subst (λ n. Opens env start size (previous_counter n) (ensure_open env b size previous w))
        same
        (subst
          (λ x. Opens env start size (previous_counter b.file_counter) (
            if x
            then some (b, w, true)
            else open_loop env 4294967298 b size (previous_counter b.file_counter) previous w))
          (sym closed)
          (loop_start env start size (previous_counter b.file_counter)
            (previous_fits b.file_counter) 4294967296 b previous w (omega (arith, same, h))
            (omega arith)))

  open_after_closed :
      (start : Backend) (size counter : ℕ) (r : Done World)
      → r.0.file_counter ≡ counter
      → counter < counter_range
      → r.0.is_open ≡ false
      → Opens env start size (previous_counter counter) (open_after env size r)
  open_after_closed start size counter (b, w, true) same h closed =
      ensure_closed start b size none w counter same h closed
  open_after_closed start size counter (b, w, false) same h closed = tt

  rotated-Opens :
      (b : Backend) (size : ℕ) (w : World)
      → b.file_counter < counter_range
      → Opens env b size
          (previous_counter b.file_counter)
          (open_after env size (rotate_file env true b w))
  rotated-Opens b size w h =
      let e = rotate_file-state env true b w in
      open_after_closed b size b.file_counter (rotate_file env true b w)
        (ap (λ c. c.file_counter) e) h (ap (λ c. c.is_open) e)

  due-Opens :
      (b : Backend) (size : ℕ) (w : World)
      → b.file_counter < counter_range
      → Opens env b size
          (previous_counter b.file_counter)
          (open_after env size (rotate_if_due env b size w))
  due-Opens b size w h = go b.is_open refl
    where
      last : ℕ
      last = previous_counter b.file_counter

      timed :
          (r : World × Bool)
          → b.is_open ≡ true
          → fills b b.characters_written size ≡ false
          → Opens env b size last (open_after env size (rotate_by_time env b r))
      timed (w, true) e f = rotated-Opens b size w h
      timed (w, false) e f =
          subst
            (λ x.
              Opens env b size last
                (if x then some (b, w, true) else open_loop env 4294967298 b size last none w))
            (sym e) (e, inr (refl, f))

      sized :
          (x : Bool)
          → b.is_open ≡ true
          → fills b b.characters_written size ≡ x
          → Opens env b size last (
              open_after env size (
                if x
                then rotate_file env true b w
                else rotate_by_time env b (env.time_to_rotate w)))
      sized true e f = rotated-Opens b size w h
      sized false e f = timed (env.time_to_rotate w) e f

      go :
          (x : Bool)
          → b.is_open ≡ x
          → Opens env b size last (open_after env size (rotate_if_due env b size w))
      go true e =
          subst
            (λ x. Opens env b size last (
              open_after env size (
                if x
                then (if fills b b.characters_written size
                    then rotate_file env true b w
                    else rotate_by_time env b (env.time_to_rotate w))
                else (b, w, true))))
            (sym e) (sized (fills b b.characters_written size) e refl)
      go false e =
          subst
            (λ x. Opens env b size last (
              open_after env size (
                if x
                then (if fills b b.characters_written size
                    then rotate_file env true b w
                    else rotate_by_time env b (env.time_to_rotate w))
                else (b, w, true))))
            (sym e) (ensure_closed b b size none w b.file_counter refl h e)

  prepare_lem :
      (b : Backend) (size : ℕ) (w : World)
      → b.file_counter < counter_range
      → Opens env b size (previous_counter b.file_counter) (prepare env b size w)
  unfolding prepare
  prepare_lem b size w h = elim (Bool-cases (env.good w)) [
    | inl c ↦ rw c (due-Opens b size w h)
    | inr c ↦
        let r = close_file env true b w in
        rw c (elim (Bool-cases (env.is_empty_file b.file_name r.1)) [
          | inl d ↦
              rw d (ensure_closed b r.0 size (some b.file_name) r.1 b.file_counter refl h refl)
          | inr d ↦ rw d (
              open_after_closed b size b.file_counter (stored env r.0 (env.collect b.file_name r.1))
                refl h refl)
        ])
  ]

  -- If the counter has 32 bits, `consume` comes to an end: what it does before it writes ends with an
  -- exception, or with an open file that the message then is written to. In the latter case, it is
  -- the file that was open at the start, nothing in the backend has changed and the message does not
  -- bring the file to the size for rotation; or it is one that was opened, and the position that
  -- opening told was 0, or the message does not bring the file from there to the size for rotation,
  -- or the counter has gone through all its values. For an opened file, what counts as written
  -- before the message is what the open handler leaves, or that position if there is none.
  pub consume_lem :
      (b : Backend) (size : ℕ) (ends_line : Bool) (w : World)
      → b.file_counter < counter_range
      → (r : Done World) × (prepare env b size w ≡ some r)
        × Ready env b size (previous_counter b.file_counter) r
        × (consume env b size ends_line w ≡ some (write_message env size ends_line r))
  unfolding consume
  consume_lem b size ends_line w h = go (prepare env b size w) refl (prepare_lem b size w h)
    where
      go :
          (o : Option (Done World))
          → prepare env b size w ≡ o
          → Opens env b size (previous_counter b.file_counter) o
          → (r : Done World) × (o ≡ some r)
            × Ready env b size (previous_counter b.file_counter) r
            × (then_write env size ends_line o ≡ some (write_message env size ends_line r))
      go none e k = absurd k
      go (some r) e k = (r, refl, k, refl)

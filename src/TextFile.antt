-- ===== src/TextFile.antt =====
-- The text file backend, which opens, writes and rotates log files: src/text_file_backend.cpp.
--
-- Names of files are numbers, 0 for the empty path. What the backend asks of the file stream, the
-- file system, the clock, the collector and the handlers is a parameter: functions of a world that
-- they may change, where `none`, and `false` beside a world, are exceptions.
pub mod Rounds
pub mod Looping
pub mod Opening
mod Tests
use log.Prelude.{
  ℕ, zero, suc, ◌+◌, ◌-◌, ◌%◌, Bool, true, false, not, Option, none, some, ◌==◌, ◌||◌, ◌&&◌, ltb,
  leb, if◌then◌else◌,
}
use log.FileCollector.{add64}

-- `generate` makes a name from the counter; `is_kept` says that the last file may be appended to:
-- that the collector has it, or that there is one. `open_file` makes the directory and opens the
-- file, and tells the position, or `none` where one of them fails, which may leave a stream that is
-- no longer good; `after_handler` is the position that an open handler leaves.
pub record FileEnv (World : Type 0) : Type 0 where
  pub good : World → Bool
  pub is_empty_file : ℕ → World → Bool
  pub time_to_rotate : World → World × Bool
  pub generate : ℕ → World → ℕ
  pub is_kept : ℕ → World → Bool
  pub open_file : ℕ → World → World × Option ℕ
  pub after_handler : Option (World → World × ℕ)
  pub call_close_handler : World → World
  pub close : World → World
  pub is_regular_file : ℕ → World → Bool
  pub target_generator : Option (ℕ → World → ℕ)
  pub move_file : ℕ → ℕ → World → World × Bool
  pub collect : ℕ → World → World × Bool
  pub write : ℕ → World → World
  pub put_newline : World → World
  pub flush : World → World

-- `auto_newline_mode`
pub data NewlineMode : Type 0 where
  disabled_auto_newline always_insert insert_if_missing : NewlineMode

-- The members of `text_file_backend::implementation` that its functions change, and its settings.
pub record Backend : Type 0 where
  pub file_counter : ℕ
  pub file_name : ℕ
  pub is_open : Bool
  pub characters_written : ℕ
  pub counter_is_last_used : Bool
  pub is_first_file : Bool
  pub rotation_size : ℕ
  pub appends : Bool
  pub newline_mode : NewlineMode
  pub auto_flush : Bool

-- `unsigned int`, with 32 bits.
abbrev pub counter_range : ℕ
counter_range = 4294967296

abbrev pub next_counter : ℕ → ℕ
next_counter n = (n + 1) % counter_range

abbrev pub previous_counter : ℕ → ℕ
previous_counter n = (n + 4294967295) % counter_range

-- A file that a message of a size would fill.
abbrev pub fills : Backend → ℕ → ℕ → Bool
fills b written size = leb b.rotation_size (add64 written size)

-- The state and the world left, and whether the function returns.
abbrev pub Done : Type 0 → Type 0
Done World = Backend × World × Bool

-- What follows the opening of a file: the loop ends, or goes on.
pub data Round (World : Type 0) : Type 0 where
  ends : Done World → Round World
  goes_on : Backend → World → Round World

-- The name of the file to open, and the counter with its flags.
abbrev pub fresh_name : Bool → Bool → Backend → Backend
fresh_name true stays b =
    if stays then b else record b { file_counter = next_counter b.file_counter }
fresh_name false stays b = record b { counter_is_last_used = true }

module _ {World : Type 0} (env : FileEnv World) where
  -- `close_file`; the close handler is left out where `consume` swaps it away.
  abbrev pub close_file : Bool → Backend → World → Backend × World
  close_file with_handler b w = (
    record b { is_open = false; characters_written = 0; file_name = 0 },
    if b.is_open then env.close (if with_handler then env.call_close_handler w else w) else w,
  )

  abbrev pub stored : Backend → World × Bool → Done World
  stored b r = (b, r.0, r.1)

  abbrev pub after_move : Backend → ℕ → World × Bool → Done World
  after_move b name (w, true) = stored b (env.collect name w)
  after_move b name (w, false) = (b, w, false)

  -- The file's way to its target name and to the collector.
  abbrev pub moved_to : Backend → ℕ → World → Option (ℕ → World → ℕ) → Done World
  moved_to b name w none = stored b (env.collect name w)
  moved_to b name w (some target) =
      let new_name = target b.file_counter w in
      if new_name == name
      then stored b (env.collect name w)
      else after_move b new_name (env.move_file name new_name w)

  unfoldable pub rotate_file : Bool → Backend → World → Done World
  rotate_file with_handler b w =
      let r = close_file with_handler b w in
      if env.is_regular_file b.file_name r.1
      then moved_to r.0 b.file_name r.1 env.target_generator
      else (r.0, r.1, true)

  -- The loop that opens a file. `previous` is the name of an empty file to be used again, and
  -- `last_file_counter` where the counter has gone round. `none` is a loop that does not end.
  abbrev pub choose_name : Backend → Option ℕ → World → Backend × ℕ
  choose_name b (some name) w = (b, name)
  choose_name b none w =
      let stays = b.is_first_file && b.appends && env.is_kept (env.generate b.file_counter w) w in
      let b' = fresh_name b.counter_is_last_used stays b in (b', env.generate b'.file_counter w)

  abbrev pub run_handler : Backend → World → Option (World → World × ℕ) → Done World
  run_handler b w none = (b, w, true)
  run_handler b w (some handler) =
      let r = handler w in (record b { characters_written = r.1 }, r.0, true)

  abbrev pub after_rotation : Done World → Round World
  after_rotation (b, w, true) = goes_on b w
  after_rotation (b, w, false) = ends (b, w, false)

  abbrev pub after_open : Backend → ℕ → ℕ → ℕ → World × Option ℕ → Round World
  after_open b size last_file_counter name (w', none) = ends (b, w', false)
  after_open b size last_file_counter name (w', some position) =
      let b' = record b {
        file_name = name;
        is_open = true;
        is_first_file = false;
        characters_written = position;
      } in
      if ltb 0 position && fills b position size && not (b.file_counter == last_file_counter)
      then after_rotation (rotate_file false b' w')
      else ends (run_handler b' w' env.after_handler)

  unfoldable pub round : Backend → ℕ → ℕ → Option ℕ → World → Round World
  round b size last_file_counter previous w =
      let n = choose_name b previous w in
      after_open n.0 size last_file_counter n.1 (env.open_file n.1 w)

  abbrev pub follow : Round World → (Backend → World → Option (Done World)) → Option (Done World)
  follow (ends r) rest = some r
  follow (goes_on b w) rest = rest b w

  unfoldable pub open_loop : ℕ → Backend → ℕ → ℕ → Option ℕ → World → Option (Done World)
  open_loop zero b size last_file_counter previous w = none
  open_loop (suc fuel) b size last_file_counter previous w =
      follow (round b size last_file_counter previous w)
        (λ b' w'. open_loop fuel b' size last_file_counter none w')

  abbrev pub ensure_open : Backend → ℕ → Option ℕ → World → Option (Done World)
  ensure_open b size previous w =
      if b.is_open
      then some (b, w, true)
      else open_loop 4294967298 b size (previous_counter b.file_counter) previous w

  abbrev pub open_after : ℕ → Done World → Option (Done World)
  open_after size (b, w, true) = ensure_open b size none w
  open_after size (b, w, false) = some (b, w, false)

  -- A stream that cannot be written to: its file is used again if it is empty, or else stored.
  abbrev pub renew : Backend → ℕ → World → Option (Done World)
  renew b size w =
      let r = close_file true b w in
      if env.is_empty_file b.file_name r.1
      then ensure_open r.0 size (some b.file_name) r.1
      else open_after size (stored r.0 (env.collect b.file_name r.1))

  -- The rotation of an open file by size or time.
  abbrev pub rotate_by_time : Backend → World × Bool → Done World
  rotate_by_time b (w, due) = if due then rotate_file true b w else (b, w, true)

  abbrev pub rotate_if_due : Backend → ℕ → World → Done World
  rotate_if_due b size w =
      if b.is_open
      then (if fills b b.characters_written size
          then rotate_file true b w
          else rotate_by_time b (env.time_to_rotate w))
      else (b, w, true)

  -- The part of `consume` before the message is written.
  unfoldable pub prepare : Backend → ℕ → World → Option (Done World)
  prepare b size w = if env.good w then open_after size (rotate_if_due b size w) else renew b size w

  -- Whether a newline is put behind the message.
  abbrev pub needs_newline : NewlineMode → Bool → Bool
  needs_newline disabled_auto_newline ends_line = false
  needs_newline always_insert ends_line = true
  needs_newline insert_if_missing ends_line = not ends_line

  abbrev pub end_line : Bool → Backend → World → Backend × World
  end_line false b w = (b, w)
  end_line true b w =
      (record b { characters_written = add64 b.characters_written 1 }, env.put_newline w)

  abbrev pub write_message : ℕ → Bool → Done World → Done World
  write_message size ends_line (b, w, false) = (b, w, false)
  write_message size ends_line (b, w, true) =
      let b' = record b { characters_written = add64 b.characters_written size } in
      let r = end_line (needs_newline b.newline_mode ends_line) b' (env.write size w) in
      (r.0, if b.auto_flush then env.flush r.1 else r.1, true)

  abbrev pub then_write : ℕ → Bool → Option (Done World) → Option (Done World)
  then_write size ends_line none = none
  then_write size ends_line (some r) = some (write_message size ends_line r)

  unfoldable pub consume : Backend → ℕ → Bool → World → Option (Done World)
  consume b size ends_line w = then_write size ends_line (prepare b size w)

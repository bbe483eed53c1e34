-- ===== src/TextFile/Tests.antt =====
-- A text file backend at work, and an example of its theorem.
use log.Prelude.{ℕ, ◌+◌, ◌≡◌, refl, true, false, none, some, ◌==◌, if◌then◌else◌, arith}
use log.TextFile.{
  FileEnv, Backend, always_insert, insert_if_missing, previous_counter, Done, prepare, consume,
  write_message, open_loop, round, rotate_file,
}
use log.TextFile.Rounds.{Ready}
use log.TextFile.Opening.{consume_lem}

-- Names are counters and a hundred. The file 106 has 99 characters before it is opened; the world
-- counts files stored.
abbrev disk : FileEnv ℕ
disk = record {
  good = λ w. true;
  is_empty_file = λ name w. false;
  time_to_rotate = λ w. (w, false);
  generate = λ counter w. counter + 100;
  is_kept = λ name w. false;
  open_file = λ name w. (w, some (if name == 106 then 99 else 0));
  after_handler = none;
  call_close_handler = λ w. w;
  close = λ w. w;
  is_regular_file = λ name w. true;
  target_generator = none;
  move_file = λ from to w. (w, true);
  collect = λ name w. (w + 1, true);
  write = λ size w. w;
  put_newline = λ w. w;
  flush = λ w. w;
}

abbrev backend : Backend
backend = record {
  file_counter = 5;
  file_name = 105;
  is_open = true;
  characters_written = 95;
  counter_is_last_used = true;
  is_first_file = false;
  rotation_size = 100;
  appends = true;
  newline_mode = insert_if_missing;
  auto_flush = true;
}

-- A short message goes to the open file. For a longer one this file is stored, and so is the next,
-- which was there with 99 characters.
writes :
    (consume disk backend 4 true 0 ≡ some (record backend { characters_written = 99 }, 0, true))
    × (consume disk backend 10 false 0
        ≡ some (
          record backend { file_counter = 7; file_name = 107; characters_written = 11 },
          2,
          true,
        ))
    × (consume disk (record backend { newline_mode = always_insert }) 4 true 0
        ≡ some (record backend { newline_mode = always_insert; characters_written = 100 }, 0, true))
unfolding consume prepare open_loop round rotate_file
writes = (refl, refl, refl)

consume_lem_example :
    (r : Done ℕ) × (prepare disk backend 10 0 ≡ some r)
    × Ready disk backend 10 (previous_counter 5) r
    × (consume disk backend 10 false 0 ≡ some (write_message disk 10 false r))
consume_lem_example = consume_lem disk backend 10 false 0 (omega arith)

-- ===== src/FileCollector/Tests.antt =====
-- A collector at work, and examples of its theorems.
use mathlib.Core.List.Permᴰ
use log.Prelude.{
  ℕ, ◌+◌, ◌≡◌, refl, true, false, [], ◌∷◌, some, arith, ◌==◌, if◌then◌else◌, none, List,
}
use log.FileCollector.{
  FileSystem, FileInfo, Collector, store_file, store_locked, update, erase_old, erase_file,
  free_name,
}
use log.FileCollector.Accounting.{Accounted}
use log.FileCollector.Scanning.{
  Directory, scan_for_files, scan_matching, scan_all, no_scan, later_counter, scan_entry,
}
use log.FileCollector.History.{Call, stores, scans, updates, call_all, Scanned, call_all-Accounted}
use log.FileCollector.Limits.{IsReliable, Kept, store_locked_lem}

-- Every file has ten bytes, and the world counts removals. Paths from 100 on are in the storage.
abbrev disk : FileSystem ℕ
disk = record {
  last_write_time = λ path w. some path;
  file_size = λ path w. some 10;
  is_in_storage_dir = λ path w. some (path == 101);
  exists = λ path w. some (path == 102);
  equivalent = λ path other w. path == other;
  is_regular_file = λ path w. true;
  remove = λ path w. (w + 1, true);
  available = λ w. some 1000;
  create_directories = λ w. some w;
  move_file = λ from to w. (w, true);
  stored_name = λ path. if path == 101 then 101 else path + 100;
  alternative_name = λ path n. path + 1000 + n;
}

abbrev three : Collector
three = record {
  max_size = 35;
  min_free_space = 0;
  max_files = 5;
  files =
      record { size = 10; time_stamp = 1; path = 101 }
      ∷ record { size = 10; time_stamp = 2; path = 108 }
      ∷ record { size = 10; time_stamp = 3; path = 109 }
      ∷ [];
  total_size = 30;
}

abbrev new_file : FileInfo
new_file = record { size = 10; time_stamp = 7; path = 107 }

-- The oldest file goes for a file from elsewhere; a file of the storage replaces its own entry; a
-- name in use is changed.
store_runs :
    (store_file disk three 7 0 ≡ (
      record three {
        files =
            record { size = 10; time_stamp = 2; path = 108 }
            ∷ record { size = 10; time_stamp = 3; path = 109 }
            ∷ record { size = 10; time_stamp = 7; path = 107 }
            ∷ [];
      },
      1,
      true,
    ))
    × ((store_file disk three 101 0).1 ≡ 0)
    × ((store_file disk three 101 0).0.total_size ≡ 30)
    × (free_name disk 2 5 0 0 ≡ some 1002)
    × ((update three 40 5 3).max_files ≡ 3)
    × ((update three 40 5 3).min_free_space ≡ 5)
unfolding store_file store_locked erase_old erase_file update
store_runs = (refl, refl, refl, refl, refl, refl)

-- Four more files are in the storage, three of them with counters in their names.
abbrev storage : Directory ℕ
storage = record {
  is_directory = λ w. some true;
  entries = λ w. some (101 ∷ 120 ∷ 121 ∷ 122 ∷ 123 ∷ [], true);
  is_same_file = λ path other w. some (path == other);
  match_pattern = λ path. (true, if path == 123 then none else some (path + 4294967174));
  sort = λ l. l;
}

-- The counters are 4294967294, 4294967295 and 0: the last one is the latest.
scan_run :
    ((scan_for_files disk storage three scan_matching 0).1.found_count ≡ 4)
    × ((scan_for_files disk storage three scan_matching 0).0.total_size ≡ 70)
    × (later_counter (some 0) (some 4294967295) ≡ some 0)
    × ((scan_for_files disk storage three no_scan 0).1.found_count ≡ 0)
unfolding scan_for_files scan_entry
scan_run = (refl, refl, refl, refl)

-- The iterator throws behind two entries, or `equivalent` does: the collector stays as it is.
broken_scans :
    (scan_for_files disk
        (record storage { entries = λ w. some (120 ∷ 121 ∷ [], false) })
        three
        scan_all
        0
      ≡ (three, record { found_count = 0; last_file_counter = none }, false))
    × (scan_for_files disk (record storage { is_same_file = λ path other w. none }) three scan_all 0
        ≡ (three, record { found_count = 0; last_file_counter = none }, false))
unfolding scan_for_files scan_entry
broken_scans = (refl, refl)

abbrev calls : List Call
calls = scans scan_all ∷ updates 65 0 4 ∷ stores 7 ∷ stores 101 ∷ []

call_all-Accounted_example :
    Accounted (call_all disk storage (three, 0) calls).0
    × Scanned (call_all disk storage (three, 0) calls).0 (
        scan_for_files disk storage
          (call_all disk storage (three, 0) calls).0
          scan_all
          (call_all disk storage (three, 0) calls).1)
call_all-Accounted_example =
    call_all-Accounted disk storage (λ path w n e. let h : n ≡ 10 = cc in omega (arith, h))
      (λ l. Permᴰ.refl l) three 0 calls scan_all
      (refl, (omega arith, (omega arith, (omega arith, tt))))

disk-IsReliable : IsReliable disk
disk-IsReliable = record {
  removes = λ path w. refl;
  tells_space = λ w. (1000, refl);
  moves = λ from to w. refl;
}

store_locked_lem_example :
    Kept three new_file three.files (store_locked disk three new_file 7 false 0)
store_locked_lem_example = store_locked_lem disk disk-IsReliable three new_file 7 false 0

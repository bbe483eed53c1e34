-- ===== src/FileCollector/Scanning.antt =====
-- The scan for files that are in the storage already: `file_collector::scan_for_files` in
-- src/text_file_backend.cpp.
use log.Prelude.{
  ℕ, ◌+◌, ◌-◌, ◌%◌, Bool, true, false, List, [], ◌∷◌, ◌++◌, Option, none, some, ltb, if◌then◌else◌,
}
use log.FileCollector.{FileSystem, FileInfo, Collector, add64}

-- `scan_method`
pub data ScanMethod : Type 0 where
  no_scan scan_matching scan_all : ScanMethod

-- The directory: whether it is one; the entries that a `directory_iterator` gives, with whether it
-- then comes to the end or throws; `equivalent` without an error code; `match_pattern` on an entry,
-- with the counter in its name; and `std::list::sort` by the time stamps. `none` is an exception:
-- where the directory's path is made, where the iterator is, or of `equivalent`.
pub record Directory (World : Type 0) : Type 0 where
  pub is_directory : World → Option Bool
  pub entries : World → Option (List ℕ × Bool)
  pub is_same_file : ℕ → ℕ → World → Option Bool
  pub match_pattern : ℕ → Bool × Option ℕ
  pub sort : List FileInfo → List FileInfo

-- `scan_result`
pub record ScanResult : Type 0 where
  pub found_count : ℕ
  pub last_file_counter : Option ℕ

-- The local variables of the scan.
pub record Scan : Type 0 where
  pub found : List FileInfo
  pub total : ℕ
  pub result : ScanResult

abbrev pub no_result : ScanResult
no_result = record { found_count = 0; last_file_counter = none }

abbrev pub fresh_scan : Scan
fresh_scan = record { found = []; total = 0; result = no_result }

-- A 32-bit counter that is not behind another one.
abbrev pub is_later : ℕ → ℕ → Bool
is_later n last = ltb ((n + 4294967296 - last) % 4294967296) 2147483648

abbrev pub later_counter : Option ℕ → Option ℕ → Option ℕ
later_counter none last = last
later_counter (some n) none = some n
later_counter (some n) (some last) = if is_later n last then some n else some last

-- `std::find_if` over the files; `none` is an exception of the test.
abbrev pub or_later : Option Bool → Option Bool → Option Bool
or_later none later = none
or_later (some true) later = some true
or_later (some false) later = later

abbrev pub is_listed : (ℕ → Option Bool) → List FileInfo → Option Bool
is_listed same [] = some false
is_listed same (f ∷ files) = or_later (same f.path) (is_listed same files)

-- The counter in a name, where the names are matched.
abbrev pub name_test : ScanMethod → Bool × Option ℕ → Bool × Option ℕ
name_test scan_matching m = m
name_test scan_all m = (true, none)
name_test no_scan m = (true, none)

abbrev pub add_found : Scan → FileInfo → Option ℕ → Scan
add_found s info counter = record s {
  found = s.found ++ info ∷ [];
  total = add64 s.total info.size;
  result = record {
    found_count = s.result.found_count + 1;
    last_file_counter = later_counter counter s.result.last_file_counter;
  };
}

abbrev pub measure_found : Scan → ℕ → Option ℕ → Option ℕ → Option ℕ → Option Scan
measure_found s path counter none time = none
measure_found s path counter (some size) none = none
measure_found s path counter (some size) (some time) =
    some (add_found s (record { size = size; time_stamp = time; path = path }) counter)

module _ {World : Type 0} (fs : FileSystem World) (dir : Directory World) where
  -- A regular file, behind the search for it among the files; `m` is what `name_test` gives.
  abbrev pub if_new : Scan → ℕ → Bool × Option ℕ → World → Option Bool → Option Scan
  if_new s path m w none = none
  if_new s path m w (some true) = some s
  if_new s path m w (some false) =
      if m.0
      then measure_found s path m.1 (fs.file_size path w) (fs.last_write_time path w)
      else some s

  -- One entry; `none` is an exception.
  unfoldable pub scan_entry : Collector → ScanMethod → World → Scan → ℕ → Option Scan
  scan_entry c method w s path =
      if fs.is_regular_file path w
      then if_new s path (name_test method (dir.match_pattern path)) w
          (is_listed (λ other. dir.is_same_file other path w) c.files)
      else some s

  abbrev pub scan_on : (ℕ → Scan → Option Scan) → List ℕ → Option Scan → Option Scan
  scan_on step paths none = none
  scan_on step [] (some s) = some s
  scan_on step (path ∷ paths) (some s) = scan_on step paths (step path s)

  -- The loop over the entries; where the iterator throws, what was found is lost.
  abbrev pub at_end : Bool → Option Scan → Option Scan
  at_end true o = o
  at_end false o = none

  abbrev pub scan_entries : (ℕ → Scan → Option Scan) → Option (List ℕ × Bool) → Option Scan
  scan_entries step none = none
  scan_entries step (some (paths, ends)) = at_end ends (scan_on step paths (some fresh_scan))

  -- The list and the total size with what was found; an exception leaves them alone.
  abbrev pub with_found : Collector → Option Scan → Collector × ScanResult × Bool
  with_found c none = (c, no_result, false)
  with_found c (some s) = (
    record c { files = dir.sort (c.files ++ s.found); total_size = add64 c.total_size s.total },
    s.result,
    true,
  )

  abbrev pub scan_if : Collector → ScanMethod → World → Option Bool → Collector × ScanResult × Bool
  scan_if c method w none = (c, no_result, false)
  scan_if c method w (some false) = (c, no_result, true)
  scan_if c method w (some true) =
      with_found c (scan_entries (λ path s. scan_entry c method w s path) (dir.entries w))

  abbrev pub scan_directory : Collector → ScanMethod → World → Collector × ScanResult × Bool
  scan_directory c method w = scan_if c method w (dir.is_directory w)

  unfoldable pub scan_for_files : Collector → ScanMethod → World → Collector × ScanResult × Bool
  scan_for_files c no_scan w = (c, no_result, true)
  scan_for_files c scan_matching w = scan_directory c scan_matching w
  scan_for_files c scan_all w = scan_directory c scan_all w

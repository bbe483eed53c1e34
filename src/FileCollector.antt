-- ===== src/FileCollector.antt =====
-- The collector of rotated log files: `file_collector` in src/text_file_backend.cpp.
--
-- Paths are numbers. The file system is a parameter: functions of a world that its calls may
-- change; `none`, and `false` where a world is given back, are exceptions.
pub mod Accounting
pub mod Limits
pub mod Scanning
pub mod History
mod Tests
use log.Prelude.{
  ℕ, zero, suc, ◌+◌, ◌-◌, ◌%◌, Bool, true, false, not, List, [], ◌∷◌, ◌++◌, Option, none, some,
  ◌==◌, ◌||◌, ◌&&◌, ltb, leb, if◌then◌else◌, length,
}

-- What the collector asks of the file system. `equivalent` is the overload with an error code, which
-- is not read and leaves `false`, and `is_regular_file` a status with one. `stored_name` is a file's path in the storage, and
-- `alternative_name` the one with a number put in by `file_counter_formatter`.
pub record FileSystem (World : Type 0) : Type 0 where
  pub last_write_time : ℕ → World → Option ℕ
  pub file_size : ℕ → World → Option ℕ
  pub is_in_storage_dir : ℕ → World → Option Bool
  pub exists : ℕ → World → Option Bool
  pub equivalent : ℕ → ℕ → World → Bool
  pub is_regular_file : ℕ → World → Bool
  pub remove : ℕ → World → World × Bool
  pub available : World → Option ℕ
  pub create_directories : World → Option World
  pub move_file : ℕ → ℕ → World → World × Bool
  pub stored_name : ℕ → ℕ
  pub alternative_name : ℕ → ℕ → ℕ

-- `file_info`
pub record FileInfo : Type 0 where
  pub size : ℕ
  pub time_stamp : ℕ
  pub path : ℕ

-- `file_collector`; the files are in the order of the list.
pub record Collector : Type 0 where
  pub max_size : ℕ
  pub min_free_space : ℕ
  pub max_files : ℕ
  pub files : List FileInfo
  pub total_size : ℕ

-- `uintmax_t`, with 64 bits.
abbrev pub uintmax_range : ℕ
uintmax_range = 18446744073709551616

abbrev pub add64 : ℕ → ℕ → ℕ
add64 a b = (a + b) % uintmax_range

abbrev pub sub64 : ℕ → ℕ → ℕ
sub64 a b = (a + uintmax_range - b) % uintmax_range

-- `update`
abbrev pub lesser : ℕ → ℕ → ℕ
lesser a b = if ltb b a then b else a

abbrev pub greater : ℕ → ℕ → ℕ
greater a b = if ltb a b then b else a

unfoldable pub update : Collector → ℕ → ℕ → ℕ → Collector
update c max_size min_free_space max_files = record c {
  max_size = lesser c.max_size max_size;
  min_free_space = greater c.min_free_space min_free_space;
  max_files = lesser c.max_files max_files;
}

-- The limits exceeded before a file of a size is stored.
abbrev pub exceeded : Collector → ℕ → ℕ → ℕ → ℕ → Bool
exceeded c new_size total free_space count =
    ltb c.max_size (add64 total new_size)
    || (not (c.min_free_space == 0) && ltb free_space c.min_free_space)
    || leb c.max_files count

-- `m_Files.push_back(info); m_TotalSize += info.m_Size;`
abbrev pub add_file : Collector → FileInfo → Collector
add_file c info = record c {
  files = c.files ++ info ∷ [];
  total_size = add64 c.total_size info.size;
}

-- What the body of the erasing loop does with one file: whether its entry goes, the total size, the
-- free space and the world.
pub record Erasure (World : Type 0) : Type 0 where
  pub gone : Bool
  pub total : ℕ
  pub free_space : ℕ
  pub world : World

module _ {World : Type 0} (fs : FileSystem World) where
  -- The loop that drops an old entry of the file to be stored.
  abbrev pub drop_entry : ℕ → List FileInfo → ℕ → World → List FileInfo × ℕ
  drop_entry path [] total w = ([], total)
  drop_entry path (f ∷ files) total w =
      let rest = drop_entry path files total w in
      if fs.equivalent f.path path w then (files, sub64 total f.size) else (f ∷ rest.0, rest.1)

  -- Behind `filesystem::remove`.
  abbrev pub after_space : FileInfo → ℕ → ℕ → World → Option ℕ → Erasure World
  after_space f total free_space w none = record {
    gone = false;
    total = total;
    free_space = free_space;
    world = w;
  }
  after_space f total free_space w (some a) = record {
    gone = true;
    total = sub64 total f.size;
    free_space = a;
    world = w;
  }

  abbrev pub after_remove : Collector → FileInfo → ℕ → ℕ → World × Bool → Erasure World
  after_remove c f total free_space (w, false) = record {
    gone = false;
    total = total;
    free_space = free_space;
    world = w;
  }
  after_remove c f total free_space (w, true) =
      after_space f total free_space w
        (if c.min_free_space == 0 then some free_space else fs.available w)

  unfoldable pub erase_file : Collector → FileInfo → ℕ → ℕ → World → Erasure World
  erase_file c f total free_space w =
      if fs.is_regular_file f.path w
      then after_remove c f total free_space (fs.remove f.path w)
      else record { gone = true; total = sub64 total f.size; free_space = free_space; world = w }

  -- The erasing loop, with the entries that it has passed: the entries left, the total size and the
  -- world.
  unfoldable pub erase_old :
      Collector → ℕ → List FileInfo → List FileInfo → ℕ → ℕ → World → List FileInfo × ℕ × World
  erase_old c new_size passed [] total free_space w = (passed, total, w)
  erase_old c new_size passed (f ∷ files) total free_space w =
      let e = erase_file c f total free_space w in
      let rest =
        erase_old c new_size (if e.gone then passed else passed ++ f ∷ []) files e.total
          e.free_space e.world in
      if exceeded c new_size total free_space (length passed + suc (length files))
      then rest
      else (passed ++ f ∷ files, total, w)

  -- The collector and the world left, and whether `store_file` returns.
  abbrev pub Stored : Type 0
  Stored = Collector × World × Bool

  abbrev pub moved : Collector → FileInfo → World × Bool → Stored
  moved c info (w, true) = (add_file c info, w, true)
  moved c info (w, false) = (c, w, false)

  -- Behind the loop: `src_path` is moved, unless it is in the storage already.
  abbrev pub complete_store : Collector → FileInfo → ℕ → Bool → World → Stored
  complete_store c info src_path is_in_target_dir w =
      if is_in_target_dir
      then (add_file c info, w, true)
      else moved c info (fs.move_file src_path info.path w)

  abbrev pub with_free_space : Collector → FileInfo → ℕ → Bool → World → Option ℕ → Stored
  with_free_space c info src_path is_in_target_dir w none = (c, w, false)
  with_free_space c info src_path is_in_target_dir w (some free_space) =
      let r = erase_old c info.size [] c.files c.total_size free_space w in
      complete_store (record c { files = r.0; total_size = r.1 }) info src_path is_in_target_dir r.2

  -- The part under the collector's mutex.
  unfoldable pub store_locked : Collector → FileInfo → ℕ → Bool → World → Stored
  store_locked c info src_path is_in_target_dir w =
      let d =
        if is_in_target_dir
        then drop_entry info.path c.files c.total_size w
        else (c.files, c.total_size) in
      with_free_space (record c { files = d.0; total_size = d.1 }) info src_path is_in_target_dir w
        (if c.min_free_space == 0 then some 0 else fs.available w)

  -- The search for a name that is not in use; `none` is an exception.
  abbrev pub taken_or : Option Bool → ℕ → Option ℕ → Option ℕ
  taken_or none path next = none
  taken_or (some false) path next = some path
  taken_or (some true) path next = next

  abbrev pub free_name : ℕ → ℕ → ℕ → World → Option ℕ
  free_name src_path zero n w = none
  free_name src_path (suc tries) n w =
      let next = free_name src_path tries (n + 1) w in
      taken_or (fs.exists (fs.alternative_name src_path n) w) (fs.alternative_name src_path n) next

  -- The path in the storage for a file that is not there yet; 2^32 numbers are tried.
  abbrev pub target_name : ℕ → World → Option ℕ
  target_name src_path w =
      taken_or (fs.exists (fs.stored_name src_path) w) (fs.stored_name src_path)
        (free_name src_path 4294967296 0 w)

  abbrev pub with_directories : Collector → FileInfo → ℕ → World → Option World → Stored
  with_directories c info src_path w none = (c, w, false)
  with_directories c info src_path w (some w') = store_locked c info src_path false w'

  abbrev pub named : Collector → FileInfo → ℕ → World → Option ℕ → Stored
  named c info src_path w none = (c, w, false)
  named c info src_path w (some path) =
      with_directories c (record info { path = path }) src_path w (fs.create_directories w)

  abbrev pub place_file : Collector → FileInfo → ℕ → World → Option Bool → Stored
  place_file c info src_path w none = (c, w, false)
  place_file c info src_path w (some true) = store_locked c info src_path true w
  place_file c info src_path w (some false) = named c info src_path w (target_name src_path w)

  abbrev pub measured : Collector → ℕ → World → Option ℕ → Option ℕ → Stored
  measured c src_path w none size = (c, w, false)
  measured c src_path w (some time) none = (c, w, false)
  measured c src_path w (some time) (some size) =
      place_file c (record { size = size; time_stamp = time; path = fs.stored_name src_path })
        src_path w (fs.is_in_storage_dir src_path w)

  unfoldable pub store_file : Collector → ℕ → World → Stored
  store_file c src_path w =
      measured c src_path w (fs.last_write_time src_path w) (fs.file_size src_path w)

-- ===== src/FileCollector/History.antt =====
-- Calls of a collector in any sequence (src/text_file_backend.cpp).
use mathlib.Core.Path.{subst}
use mathlib.Core.List.{Permᴰ}
use log.Prelude.{
  ℕ, suc, ◌+◌, ◌%◌, ◌<◌, ◌≡◌, refl, ap, ◌∙◌, sym, Bool, true, false, List, [], ◌∷◌, ◌++◌, Option,
  none, some, arith, if◌then◌else◌, inl, inr, Bool-cases, length, length-append,
}
use log.FileCollector.{FileSystem, FileInfo, Collector, uintmax_range, store_file, update}
use log.FileCollector.Scanning.{
  ScanMethod, no_scan, scan_matching, scan_all, Directory, ScanResult, Scan, if_new, at_end,
  scan_entries, scan_if, fresh_scan, is_listed, name_test, add_found, measure_found, scan_entry,
  scan_on, with_found, scan_directory, scan_for_files,
}
use log.FileCollector.Accounting.{
  sizes, Small, Adds, Accounted, add_size, sizes-append, Small-append, store_file-Accounted,
}

-- Reordering a list of files.
sizes-Perm : {xs ys : List FileInfo} → Permᴰ xs ys → sizes xs ≡ sizes ys
sizes-Perm Permᴰ.nil = refl
sizes-Perm (Permᴰ.cons {a = a} {b = b} e d) = omega (arith, ap (λ f. f.size) e, sizes-Perm d)
sizes-Perm (Permᴰ.swap e f) = omega (arith, ap (λ f. f.size) e, ap (λ f. f.size) f)
sizes-Perm (Permᴰ.trans d e) = sizes-Perm d ∙ sizes-Perm e

Small-Perm : {xs ys : List FileInfo} → Permᴰ xs ys → Small ys → Small xs
Small-Perm Permᴰ.nil h = h
Small-Perm (Permᴰ.cons e d) (h, hs) =
    (subst (λ f. f.size < uintmax_range) (sym e) h, Small-Perm d hs)
Small-Perm (Permᴰ.swap e f) (h, (k, hs)) = (
  subst (λ f. f.size < uintmax_range) (sym e) k,
  (subst (λ f. f.size < uintmax_range) (sym f) h, hs),
)
Small-Perm (Permᴰ.trans d e) h = Small-Perm d (Small-Perm e h)

length-Perm : {xs ys : List FileInfo} → Permᴰ xs ys → length xs ≡ length ys
length-Perm Permᴰ.nil = refl
length-Perm (Permᴰ.cons e d) = ap suc (length-Perm d)
length-Perm (Permᴰ.swap e f) = refl
length-Perm (Permᴰ.trans d e) = length-Perm d ∙ length-Perm e

-- The calls that change a collector.
pub data Call : Type 0 where
  stores : ℕ → Call
  scans : ScanMethod → Call
  updates : ℕ → ℕ → ℕ → Call

-- What a scan has found so far adds up.
abbrev Tallied : Option Scan → Type 0
Tallied none = Unit {0}
Tallied (some s) = Adds s.found s.total × (s.result.found_count ≡ length s.found)

-- The list is longer by as many files as are reported.
abbrev pub Scanned : Collector → Collector × ScanResult × Bool → Type 0
Scanned c (c', r, returned) = Accounted c' × (length c'.files ≡ length c.files + r.found_count)

module _ {World : Type 0} (fs : FileSystem World) (dir : Directory World) where
  unfoldable pub call : Collector × World → Call → Collector × World
  call (c, w) (stores path) = let r = store_file fs c path w in (r.0, r.1)
  call (c, w) (scans method) = ((scan_for_files fs dir c method w).0, w)
  call (c, w) (updates max_size min_free_space max_files) =
      (update c max_size min_free_space max_files, w)

  abbrev pub call_all : Collector × World → List Call → Collector × World
  call_all s [] = s
  call_all s (a ∷ calls) = call_all (call s a) calls

module _ {World : Type 0} (fs : FileSystem World) (dir : Directory World)
    (fits : (path : ℕ) (w : World) (n : ℕ) → fs.file_size path w ≡ some n → n < uintmax_range)
    (sorts : (l : List FileInfo) → Permᴰ (dir.sort l) l) where
  add_found-Tallied :
      (s : Scan) (info : FileInfo) (counter : Option ℕ)
      → info.size < uintmax_range
      → Tallied (some s)
      → Tallied (some (add_found s info counter))
  add_found-Tallied s info counter k ((e, h), n) = (
    (
      add_size info.size (sizes s.found) s.total e
          ∙ ap (λ x. x % uintmax_range) (omega (arith, sizes-append s.found (info ∷ []))),
      Small-append s.found (info ∷ []) h (k, tt),
    ),
    omega (arith, n, length-append s.found (info ∷ [])),
  )

  scan_entry-Tallied :
      (c : Collector) (method : ScanMethod) (w : World) (s : Scan) (path : ℕ)
      → Tallied (some s)
      → Tallied (scan_entry fs dir c method w s path)
  unfolding scan_entry
  scan_entry-Tallied c method w s path h = elim (Bool-cases (fs.is_regular_file path w)) [
    | inl k ↦ rw k (new (is_listed (λ other. dir.is_same_file other path w) c.files))
    | inr k ↦ rw k h
  ]
    where
      go :
          (size time : Option ℕ)
          → fs.file_size path w ≡ size
          → Tallied (measure_found s path (name_test method (dir.match_pattern path)).1 size time)
      go none time e = tt
      go (some size) none e = tt
      go (some size) (some time) e =
          add_found-Tallied s (record { size = size; time_stamp = time; path = path })
            (name_test method (dir.match_pattern path)).1 (fits path w size e) h

      matched :
          (b : Bool)
          → Tallied (
              if b
              then measure_found s path
                  (name_test method (dir.match_pattern path)).1
                  (fs.file_size path w)
                  (fs.last_write_time path w)
              else some s)
      matched true = go (fs.file_size path w) (fs.last_write_time path w) refl
      matched false = h

      new :
          (o : Option Bool)
          → Tallied (if_new fs dir s path (name_test method (dir.match_pattern path)) w o)
      new none = tt
      new (some true) = h
      new (some false) = matched (name_test method (dir.match_pattern path)).0

  scan_on-Tallied :
      (c : Collector) (method : ScanMethod) (w : World) (paths : List ℕ) (o : Option Scan)
      → Tallied o
      → Tallied (scan_on fs dir (λ path s. scan_entry fs dir c method w s path) paths o)
  scan_on-Tallied c method w paths none h = tt
  scan_on-Tallied c method w [] (some s) h = h
  scan_on-Tallied c method w (path ∷ paths) (some s) h =
      scan_on-Tallied c method w paths (scan_entry fs dir c method w s path)
        (scan_entry-Tallied c method w s path h)

  with_found-Scanned :
      (c : Collector) (o : Option Scan)
      → Accounted c
      → Tallied o
      → Scanned c (with_found fs dir c o)
  with_found-Scanned c none h t = (h, omega arith)
  with_found-Scanned c (some s) (e, h) ((f, k), n) =
      let d = sorts (c.files ++ s.found) in
      (
        (
          omega (arith, e, f, sizes-Perm d, sizes-append c.files s.found),
          Small-Perm d (Small-append c.files s.found h k),
        ),
        omega (arith, n, length-Perm d, length-append c.files s.found),
      )

  scan_for_files-Scanned :
      (c : Collector) (method : ScanMethod) (w : World)
      → Accounted c
      → Scanned c (scan_for_files fs dir c method w)
  unfolding scan_for_files
  scan_for_files-Scanned c method w h = go method
    where
      ended : (ends : Bool) (o : Option Scan) → Tallied o → Tallied (at_end fs dir ends o)
      ended true o t = t
      ended false o t = tt

      entered :
          (method : ScanMethod) (o : Option (List ℕ × Bool))
          → Tallied (scan_entries fs dir (λ path s. scan_entry fs dir c method w s path) o)
      entered method none = tt
      entered method (some (paths, ends)) =
          ended ends _ (scan_on-Tallied c method w paths (some fresh_scan) ((refl, tt), refl))

      checked : (method : ScanMethod) (o : Option Bool) → Scanned c (scan_if fs dir c method w o)
      checked method none = (h, omega arith)
      checked method (some false) = (h, omega arith)
      checked method (some true) = with_found-Scanned c _ h (entered method (dir.entries w))

      scanned : (method : ScanMethod) → Scanned c (scan_directory fs dir c method w)
      scanned method = checked method (dir.is_directory w)

      go : (method : ScanMethod) → Scanned c (scan_for_files fs dir c method w)
      go no_scan = (h, omega arith)
      go scan_matching = scanned scan_matching
      go scan_all = scanned scan_all

  call-Accounted :
      (s : Collector × World) (a : Call) → Accounted s.0 → Accounted (call fs dir s a).0
  unfolding call update
  call-Accounted (c, w) (stores path) h = store_file-Accounted fs c path w fits h
  call-Accounted (c, w) (scans method) h = (scan_for_files-Scanned c method w h).0
  call-Accounted (c, w) (updates a b d) h = h

  -- If file sizes fit 64 bits and sorting a list permutes it, then whatever files are stored, whatever
  -- scans are made and limits set, in any sequence and whatever call of the file system throws, in
  -- a scan also where the directory's iterator is made or goes on, the collector's total size stays
  -- that of the files it lists, in 64 bits; and a scan after that lists as many more files as it
  -- reports.
  pub call_all-Accounted :
      (c : Collector) (w : World) (calls : List Call) (method : ScanMethod)
      → Accounted c
      → Accounted (call_all fs dir (c, w) calls).0
        × Scanned (call_all fs dir (c, w) calls).0 (
            scan_for_files fs dir
              (call_all fs dir (c, w) calls).0
              method
              (call_all fs dir (c, w) calls).1)
  call_all-Accounted c w calls method h =
      let d = go (c, w) calls h in
      (
        d,
        scan_for_files-Scanned (call_all fs dir (c, w) calls).0 method
            (call_all fs dir (c, w) calls).1 d,
      )
    where
      go :
          (s : Collector × World) (calls : List Call)
          → Accounted s.0
          → Accounted (call_all fs dir s calls).0
      go s [] h = h
      go s (a ∷ calls) h = go (call fs dir s a) calls (call-Accounted s a h)

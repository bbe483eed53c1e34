-- ===== src/FileCollector/Limits.antt =====
-- The limits after a file is stored, where the file system throws nothing
-- (src/text_file_backend.cpp).
use log.Prelude.{
  ℕ, suc, ◌+◌, ◌<◌, ◌≤◌, ◌≡◌, refl, ap, Bool, true, false, List, [], ◌∷◌, ◌++◌, Option, none, some,
  arith, ◌==◌, ◌||◌, ◌⊎◌, inl, inr, Bool-cases, if◌then◌else◌, length, length-append, not, ◌&&◌,
  ltb, leb,
}
use log.FileCollector.{
  FileSystem, FileInfo, Collector, add64, exceeded, drop_entry, after_space, after_remove,
  erase_file, erase_old, moved, complete_store, with_free_space, store_locked,
}

-- A file system whose calls do what they are asked to.
pub record IsReliable {World : Type 0} (fs : FileSystem World) : Type 0 where
  pub removes : (path : ℕ) (w : World) → (fs.remove path w).1 ≡ true
  pub tells_space : (w : World) → (a : ℕ) × (fs.available w ≡ some a)
  pub moves : (from to : ℕ) (w : World) → (fs.move_file from to w).1 ≡ true

-- The list and the total size when the loop ends: the older files are gone, and either all are, or
-- one more file keeps the limits.
pub record Trimmed (c : Collector) (new_size : ℕ) (old kept : List FileInfo) (total : ℕ)
    : Type 0 where
  pub oldest_gone : (gone : List FileInfo) × (old ≡ gone ++ kept)
  pub in_limits : (kept ≡ []) ⊎ ((add64 total new_size ≤ c.max_size) × (length kept < c.max_files))

-- What storing a file leaves of a list of older ones.
abbrev pub Kept :
    {World : Type 0} → Collector → FileInfo → List FileInfo → Collector × World × Bool → Type 0
Kept c info old (c', w', returned) =
    (gone : List FileInfo) × (kept : List FileInfo) × (returned ≡ true)
    × (c'.files ≡ kept ++ info ∷ [])
    × (old ≡ gone ++ kept)
    × ((kept ≡ []) ⊎ ((c'.total_size ≤ c.max_size) × (length c'.files ≤ c.max_files)))

not_exceeded :
    (c : Collector) (new_size total free_space count : ℕ)
    → exceeded c new_size total free_space count ≡ false
    → (add64 total new_size ≤ c.max_size) × (count < c.max_files)
not_exceeded c new_size total free_space count h =
    go (ltb c.max_size (add64 total new_size))
      (not (c.min_free_space == 0) && ltb free_space c.min_free_space) (leb c.max_files count) refl
      refl h
  where
    go :
        (x y z : Bool)
        → ltb c.max_size (add64 total new_size) ≡ x
        → leb c.max_files count ≡ z
        → (x || y || z) ≡ false
        → (add64 total new_size ≤ c.max_size) × (count < c.max_files)
    go true y z e f h = absurd (cc)
    go false true z e f h = absurd (cc)
    go false false true e f h = absurd (cc)
    go false false false e f h = (ground (arith, e), ground (arith, f))

module _ {World : Type 0} (fs : FileSystem World) (reliable : IsReliable fs) where
  erase_file-gone :
      (c : Collector) (f : FileInfo) (total free_space : ℕ) (w : World)
      → (erase_file fs c f total free_space w).gone ≡ true
  unfolding erase_file
  erase_file-gone c f total free_space w = elim (Bool-cases (fs.is_regular_file f.path w)) [
    | inl k ↦ rw k (removed (fs.remove f.path w) (reliable.removes f.path w))
    | inr k ↦ rw k refl
  ]
    where
      spaced :
          (w : World) (o : Option ℕ)
          → ((a : ℕ) × (o ≡ some a))
          → (after_space fs f total free_space w o).gone ≡ true
      spaced w none (a, e) = absurd (cc)
      spaced w (some a) e = refl

      asked :
          (b : Bool) (w : World)
          → (a : ℕ) × ((if b then some free_space else fs.available w) ≡ some a)
      asked true w = (free_space, refl)
      asked false w = reliable.tells_space w

      removed :
          (r : World × Bool) → r.1 ≡ true → (after_remove fs c f total free_space r).gone ≡ true
      removed (w, false) e = absurd (cc)
      removed (w, true) e = spaced w _ (asked (c.min_free_space == 0) w)

  erase_old-Trimmed :
      (c : Collector) (new_size : ℕ) (files : List FileInfo) (total free_space : ℕ) (w : World)
      → Trimmed c new_size files
          (erase_old fs c new_size [] files total free_space w).0
          (erase_old fs c new_size [] files total free_space w).1
  unfolding erase_old
  erase_old-Trimmed c new_size [] total free_space w = record {
    oldest_gone = ([], refl);
    in_limits = inl refl;
  }
  erase_old-Trimmed c new_size (f ∷ files) total free_space w =
      elim (Bool-cases (exceeded c new_size total free_space (0 + suc (length files)))) [
        | inr k ↦
            let (a, b) = not_exceeded c new_size total free_space (0 + suc (length files)) k in
            rw k (record { oldest_gone = ([], refl); in_limits = inr (a, omega (arith, b)) })
        | inl k ↦
            rw (k, erase_file-gone c f total free_space w)
              (after_first (
                erase_old-Trimmed c new_size files (erase_file fs c f total free_space w).total
                  (erase_file fs c f total free_space w).free_space
                  (erase_file fs c f total free_space w).world))
      ]
    where
      after_first :
          {kept : List FileInfo} {left : ℕ}
          → Trimmed c new_size files kept left
          → Trimmed c new_size (f ∷ files) kept left
      after_first t =
          let (gone, e) = t.oldest_gone in
          record { oldest_gone = (f ∷ gone, ap (λ l. f ∷ l) e); in_limits = t.in_limits }

  finish_lem :
      (c : Collector) (info : FileInfo) (src_path : ℕ) (b : Bool) (old : List FileInfo) (w : World)
      → Trimmed c info.size old c.files c.total_size
      → Kept c info old (complete_store fs c info src_path b w)
  finish_lem c info src_path b old w t = go b
    where
      full : length (c.files ++ info ∷ []) ≡ length c.files + 1
      full = length-append c.files (info ∷ [])

      in_limits :
          (c.files ≡ [])
            ⊎ ((add64 c.total_size info.size ≤ c.max_size) × (length c.files < c.max_files))
          → (c.files ≡ [])
            ⊎ ((add64 c.total_size info.size ≤ c.max_size)
                × (length (c.files ++ info ∷ []) ≤ c.max_files))
      in_limits (inl e) = inl e
      in_limits (inr (a, h)) = inr (a, omega (arith, h, full))

      through : (r : World × Bool) → r.1 ≡ true → Kept c info old (moved fs c info r)
      through (w, false) e = absurd (cc)
      through (w, true) e =
          (t.oldest_gone.0, c.files, refl, refl, t.oldest_gone.1, in_limits t.in_limits)

      go : (b : Bool) → Kept c info old (complete_store fs c info src_path b w)
      go true = (t.oldest_gone.0, c.files, refl, refl, t.oldest_gone.1, in_limits t.in_limits)
      go false = through (fs.move_file src_path info.path w) (reliable.moves src_path info.path w)

  with_free_space_lem :
      (c : Collector) (info : FileInfo) (src_path : ℕ) (b : Bool) (w : World) (o : Option ℕ)
      → ((a : ℕ) × (o ≡ some a))
      → Kept c info c.files (with_free_space fs c info src_path b w o)
  with_free_space_lem c info src_path b w none (a, e) = absurd (cc)
  with_free_space_lem c info src_path b w (some a) e =
      let r = erase_old fs c info.size [] c.files c.total_size a w in
      let t = erase_old-Trimmed c info.size c.files c.total_size a w in
      finish_lem (record c { files = r.0; total_size = r.1 }) info src_path b c.files r.2
        (record { oldest_gone = t.oldest_gone; in_limits = t.in_limits })

  -- On a file system that does what it is asked, a file is stored: its entry comes last, behind the
  -- entries that were there, from some point on, and either it is the only one, or the total size
  -- and the number of files are within the limits. A file written in the storage itself has its old
  -- entry dropped first.
  pub store_locked_lem :
      (c : Collector) (info : FileInfo) (src_path : ℕ) (in_target_dir : Bool) (w : World)
      → Kept c info
          (if in_target_dir then (drop_entry fs info.path c.files c.total_size w).0 else c.files)
          (store_locked fs c info src_path in_target_dir w)
  unfolding store_locked
  store_locked_lem c info src_path in_target_dir w = go in_target_dir
    where
      asked : (b : Bool) → (a : ℕ) × ((if b then some 0 else fs.available w) ≡ some a)
      asked true = (0, refl)
      asked false = reliable.tells_space w

      go :
          (b : Bool)
          → Kept c info
              (if b then (drop_entry fs info.path c.files c.total_size w).0 else c.files)
              (store_locked fs c info src_path b w)
      go true =
          let d = drop_entry fs info.path c.files c.total_size w in
          with_free_space_lem (record c { files = d.0; total_size = d.1 }) info src_path true w _
            (asked (c.min_free_space == 0))
      go false = with_free_space_lem c info src_path false w _ (asked (c.min_free_space == 0))

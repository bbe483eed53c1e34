-- ===== src/FileCollector/Accounting.antt =====
-- The total size that a collector keeps is that of its files (src/text_file_backend.cpp).
use mathlib.Core.Path.{subst}
use mathlib.Core.List.{append_assoc, append-nil}
use log.Prelude.{
  ℕ, suc, ◌+◌, ◌%◌, ◌<◌, ◌≡◌, refl, ap, ◌∙◌, sym, Bool, true, false, List, [], ◌∷◌, ◌++◌, Option,
  none, some, arith, inl, inr, Bool-cases, if◌then◌else◌, length,
}
use log.FileCollector.{
  FileSystem, FileInfo, Collector, uintmax_range, add64, sub64, exceeded, Erasure, drop_entry,
  after_space, after_remove, erase_file, erase_old, add_file, moved, complete_store,
  with_free_space, store_locked, with_directories, named, place_file, measured, store_file,
  target_name,
}

abbrev pub sizes : List FileInfo → ℕ
sizes [] = 0
sizes (f ∷ files) = f.size + sizes files

abbrev pub Small : List FileInfo → Type 0
Small [] = Unit {0}
Small (f ∷ files) = (f.size < uintmax_range) × Small files

-- Files and their total size, in 64 bits.
abbrev pub Adds : List FileInfo → ℕ → Type 0
Adds files total = (total ≡ sizes files % uintmax_range) × Small files

abbrev pub Accounted : Collector → Type 0
Accounted c = Adds c.files c.total_size

pub add_size : (s r total : ℕ) → total ≡ r % uintmax_range → add64 total s ≡ (r + s) % uintmax_range
add_size s r total e = omega (arith, e)

sub_size :
    (s r total : ℕ)
    → s < uintmax_range
    → total ≡ (s + r) % uintmax_range
    → sub64 total s ≡ r % uintmax_range
sub_size s r total h e = omega (arith, h, e)

pub sizes-append : (xs ys : List FileInfo) → sizes (xs ++ ys) ≡ sizes xs + sizes ys
sizes-append [] ys = omega arith
sizes-append (x ∷ xs) ys = omega (arith, sizes-append xs ys)

pub Small-append : (xs ys : List FileInfo) → Small xs → Small ys → Small (xs ++ ys)
Small-append [] ys h k = k
Small-append (x ∷ xs) ys (h, hs) k = (h, Small-append xs ys hs k)

Small-left : (xs ys : List FileInfo) → Small (xs ++ ys) → Small xs
Small-left [] ys h = tt
Small-left (x ∷ xs) ys (h, hs) = (h, Small-left xs ys hs)

Small-right : (xs ys : List FileInfo) → Small (xs ++ ys) → Small ys
Small-right [] ys h = h
Small-right (x ∷ xs) ys (h, hs) = Small-right xs ys hs

Adds-middle :
    (passed files : List FileInfo) (f : FileInfo) (total : ℕ)
    → Adds (passed ++ f ∷ files) total
    → Adds (passed ++ files) (sub64 total f.size)
Adds-middle passed files f total (e, h) =
    let (k, ks) = Small-right passed (f ∷ files) h in
    (
      sub_size f.size (sizes (passed ++ files)) total k (
          e
          ∙ ap (λ x. x % uintmax_range)
              (omega (arith, sizes-append passed (f ∷ files), sizes-append passed files))),
      Small-append passed files (Small-left passed (f ∷ files) h) ks,
    )

add_file-Accounted :
    (c : Collector) (info : FileInfo)
    → Accounted c
    → info.size < uintmax_range
    → Accounted (add_file c info)
add_file-Accounted c info (e, h) k = (
  add_size info.size (sizes c.files) c.total_size e
      ∙ ap (λ x. x % uintmax_range) (omega (arith, sizes-append c.files (info ∷ []))),
  Small-append c.files (info ∷ []) h (k, tt),
)

module _ {World : Type 0} (fs : FileSystem World) where
  erase_file-total :
      (c : Collector) (f : FileInfo) (total free_space : ℕ) (w : World)
      → (erase_file fs c f total free_space w).total
        ≡ (if (erase_file fs c f total free_space w).gone then sub64 total f.size else total)
  unfolding erase_file
  erase_file-total c f total free_space w = elim (Bool-cases (fs.is_regular_file f.path w)) [
    | inl k ↦ rw k (removed (fs.remove f.path w))
    | inr k ↦ rw k refl
  ]
    where
      spaced :
          (w : World) (o : Option ℕ)
          → (after_space fs f total free_space w o).total
            ≡ (if (after_space fs f total free_space w o).gone then sub64 total f.size else total)
      spaced w none = refl
      spaced w (some a) = refl

      removed :
          (r : World × Bool)
          → (after_remove fs c f total free_space r).total
            ≡ (if (after_remove fs c f total free_space r).gone then sub64 total f.size else total)
      removed (w, false) = refl
      removed (w, true) = spaced w _

  pub erase_old-Adds :
      (c : Collector) (new_size : ℕ) (passed files : List FileInfo) (total free_space : ℕ)
      (w : World)
      → Adds (passed ++ files) total
      → Adds
          (erase_old fs c new_size passed files total free_space w).0
          (erase_old fs c new_size passed files total free_space w).1
  unfolding erase_old
  erase_old-Adds c new_size passed [] total free_space w h =
      subst (λ l. Adds l total) (append-nil passed) h
  erase_old-Adds c new_size passed (f ∷ files) total free_space w h =
      elim (Bool-cases
        (exceeded c new_size total free_space (length passed + suc (length files)))) [
          | inr k ↦ rw k h
          | inl k ↦ rw k (
              erase_old-Adds c new_size (if e.gone then passed else passed ++ f ∷ []) files e.total
                e.free_space e.world
                (next e.gone e.total (erase_file-total c f total free_space w)))
        ]
    where
      e : Erasure World
      e = erase_file fs c f total free_space w

      next :
          (gone : Bool) (t : ℕ)
          → t ≡ (if gone then sub64 total f.size else total)
          → Adds ((if gone then passed else passed ++ f ∷ []) ++ files) t
      next true t same = rw same (Adds-middle passed files f total h)
      next false t same = rw (same, append_assoc passed (f ∷ []) files) h

  drop_entry-Adds :
      (path : ℕ) (files : List FileInfo) (total : ℕ) (w : World)
      → Adds files total
      → Adds (drop_entry fs path files total w).0 (drop_entry fs path files total w).1
  drop_entry-Adds path files total w h = (go files [] h)
    where
      go :
          (l passed : List FileInfo)
          → Adds (passed ++ l) total
          → Adds (passed ++ (drop_entry fs path l total w).0) (drop_entry fs path l total w).1
      go [] passed h = h
      go (f ∷ l) passed h = elim (Bool-cases (fs.equivalent f.path path w)) [
        | inl k ↦ rw k (Adds-middle passed l f total h)
        | inr k ↦ rw k (
            subst (λ x. Adds x (drop_entry fs path l total w).1)
              (append_assoc passed (f ∷ []) (drop_entry fs path l total w).0)
              (go l (passed ++ f ∷ [])
                (subst (λ x. Adds x total) (sym (append_assoc passed (f ∷ []) l)) h)))
      ]

  complete_store-Accounted :
      (c : Collector) (info : FileInfo) (src_path : ℕ) (b : Bool) (w : World)
      → Accounted c
      → info.size < uintmax_range
      → Accounted (complete_store fs c info src_path b w).0
  complete_store-Accounted c info src_path true w h k = add_file-Accounted c info h k
  complete_store-Accounted c info src_path false w h k = go (fs.move_file src_path info.path w)
    where
      go : (r : World × Bool) → Accounted (moved fs c info r).0
      go (w, true) = add_file-Accounted c info h k
      go (w, false) = h

  store_locked-Accounted :
      (c : Collector) (info : FileInfo) (src_path : ℕ) (b : Bool) (w : World)
      → Accounted c
      → info.size < uintmax_range
      → Accounted (store_locked fs c info src_path b w).0
  unfolding store_locked
  store_locked-Accounted c info src_path b w h k = spaced b _
    where
      left : Bool → List FileInfo × ℕ
      left b = if b then drop_entry fs info.path c.files c.total_size w else (c.files, c.total_size)

      left-Adds : (b : Bool) → Adds (left b).0 (left b).1
      left-Adds true = drop_entry-Adds info.path c.files c.total_size w h
      left-Adds false = h

      spaced :
          (b : Bool) (o : Option ℕ)
          → Accounted
              (with_free_space fs
                (record c { files = (left b).0; total_size = (left b).1 })
                info
                src_path
                b
                w
                o).0
      spaced b none = left-Adds b
      spaced b (some free_space) =
          complete_store-Accounted _ info src_path b _
            (erase_old-Adds (record c { files = (left b).0; total_size = (left b).1 }) info.size []
              (left b).0 (left b).1 free_space w (left-Adds b))
            k

  -- If file sizes fit 64 bits, `store_file` keeps the total size that of the listed files, in 64 bits,
  -- on every branch and whatever call of the file system throws.
  pub store_file-Accounted :
      (c : Collector) (src_path : ℕ) (w : World)
      → ((path : ℕ) (w : World) (n : ℕ) → fs.file_size path w ≡ some n → n < uintmax_range)
      → Accounted c
      → Accounted (store_file fs c src_path w).0
  unfolding store_file
  store_file-Accounted c src_path w fits h =
      go (fs.last_write_time src_path w) (fs.file_size src_path w) refl
    where
      go :
          (time size : Option ℕ)
          → fs.file_size src_path w ≡ size
          → Accounted (measured fs c src_path w time size).0
      go none size e = h
      go (some time) none e = h
      go (some time) (some size) e = place (fs.is_in_storage_dir src_path w)
        where
          info : FileInfo
          info = record { size = size; time_stamp = time; path = fs.stored_name src_path }

          name : (o : Option ℕ) → Accounted (named fs c info src_path w o).0
          name none = h
          name (some path) = created (fs.create_directories w)
            where
              created :
                  (o : Option World)
                  → Accounted (with_directories fs c (record info { path = path }) src_path w o).0
              created none = h
              created (some w') =
                  store_locked-Accounted c (record info { path = path }) src_path false w' h
                    (fits src_path w size e)

          place : (o : Option Bool) → Accounted (place_file fs c info src_path w o).0
          place none = h
          place (some true) =
              store_locked-Accounted c info src_path true w h (fits src_path w size e)
          place (some false) = name (target_name fs src_path w)

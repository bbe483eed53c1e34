-- ===== src/Attributes/Nodes/Mapping.antt =====
-- A sound table as a map from identifiers: what `insert`, `erase`, `clear` and the copy
-- constructor of src/attribute_set_impl.hpp do to it, one by one and in any sequence.
use mathlib.Core.Path.{fun_ext}
use log.Prelude.{
  ℕ, suc, ◌+◌, ◌≡◌, refl, ap, ◌∙◌, sym, Bool, true, false, List, [], ◌∷◌, Option, none, some, arith,
  ◌==◌, inl, inr, Bool-cases, if◌then◌else◌, ==_iff, length,
}
use log.Attributes.Nodes.{value_at, Table, insert, find, erase, erase_key, copy, empty, size}
use log.Attributes.Nodes.Grouped.{ends}
use log.Attributes.Nodes.Grouped.Inserting.{value_at-put, length-put}
use log.Attributes.Nodes.Finding.{find_lem}
use log.Attributes.Nodes.Inserted.{Sound, located, insert_node_lem}
use log.Attributes.Nodes.Erased.{value_at-unlink, length-unlink, erase-Sound}
use log.Attributes.Nodes.Copying.{copy_lem}

-- A map with an entry for a key that has none, and without the entry of a key.
abbrev pub or_else : {A : Type 0} → Option A → Option A → Option A
or_else none o = o
or_else (some a) o = some a

abbrev pub add_entry : {A : Type 0} → ℕ → A → (ℕ → Option A) → ℕ → Option A
add_entry key v m k = if k == key then or_else (m key) (some v) else m k

abbrev pub remove_entry : {A : Type 0} → ℕ → (ℕ → Option A) → ℕ → Option A
remove_entry key m k = if k == key then none else m k

abbrev pub is_none : {A : Type 0} → Option A → Bool
is_none none = true
is_none (some a) = false

-- The calls that change an `attribute_set`, or replace it by a copy of itself.
pub data Request (A : Type 0) : Type 0 where
  add : ℕ → A → Request A
  remove : ℕ → Request A
  clear : Request A
  duplicate : Request A

module _ {A : Type 0} where
  unfoldable pub serve : Table A → Request A → Table A
  serve t (add key v) = (insert t key v).0
  serve t (remove key) = (erase_key t key).0
  serve t clear = empty
  serve t duplicate = copy t

  abbrev pub serve_all : Table A → List (Request A) → Table A
  serve_all t [] = t
  serve_all t (r ∷ rs) = serve_all (serve t r) rs

  -- The same of a map.
  abbrev pub expected : (ℕ → Option A) → Request A → ℕ → Option A
  expected m (add key v) = add_entry key v m
  expected m (remove key) = remove_entry key m
  expected m clear = λ k. none
  expected m duplicate = m

  abbrev pub expected_all : (ℕ → Option A) → List (Request A) → ℕ → Option A
  expected_all m [] = m
  expected_all m (r ∷ rs) = expected_all (expected m r) rs

  look : (t : Table A) → Sound t → (k : ℕ) → find t k ≡ value_at t.nodes k
  look t s k = find_lem k t s.grouped s.linked

  entry_kept :
      (m : ℕ → Option A) (key : ℕ) (o : Option A)
      → m key ≡ o
      → (k : ℕ) → m k ≡ (if k == key then o else m k)
  entry_kept m key o h k = elim (Bool-cases (k == key)) [
    | inl c ↦ rw (c, (==_iff k key).0 c) h
    | inr c ↦ rw c refl
  ]

  -- In a sound table, `insert` of a key that is found changes nothing and says so; of another key
  -- it adds an entry, which then is the only one that `find` answers differently, and one to the
  -- size. The table stays sound.
  pub insert_lem :
      (t : Table A) (key : ℕ) (v : A)
      → Sound t
      → Sound (insert t key v).0
        × ((k : ℕ) → find (insert t key v).0 k ≡ add_entry key v (find t) k)
        × ((insert t key v).1 ≡ is_none (find t key))
        × (size (insert t key v).0 ≡ (if is_none (find t key) then suc (size t) else size t))
  unfolding insert
  insert_lem t key v s = rw (look t s key) (elim (located key t s) [
    | inl (c, (u, h)) ↦
        rw (c, h) (s, entry_kept (find t) key (some u) (look t s key ∙ h), refl, refl)
    | inr (c, h) ↦
        let (same, s') = insert_node_lem key v t s h in
        rw (c, h)
          (
            s',
            λ k.
                look _ s' k
                ∙ ap (λ l. value_at l k) same
                ∙ value_at-put key v t.nodes k h
                ∙ sym (ap (λ r. if k == key then some v else r) (look t s k)),
            refl,
            ap length same ∙ length-put key v t.nodes,
          )
  ])

  -- In a sound table, `erase` of a key takes the entry away and gives 1 where there is one, and
  -- gives 0 and changes nothing where there is none. The table stays sound.
  pub erase_key_lem :
      (t : Table A) (key : ℕ)
      → Sound t
      → Sound (erase_key t key).0
        × ((k : ℕ) → find (erase_key t key).0 k ≡ remove_entry key (find t) k)
        × ((erase_key t key).1 ≡ (if is_none (find t key) then 0 else 1))
        × (size (erase_key t key).0 + (erase_key t key).1 ≡ size t)
  unfolding erase_key erase
  erase_key_lem t key s = rw (look t s key) (elim (located key t s) [
    | inl (c, (u, h)) ↦
        let s' = erase-Sound t key u s h in
        rw (c, h)
          (
            s',
            λ k.
                look _ s' k
                ∙ value_at-unlink t.nodes key k s.grouped
                ∙ sym (ap (λ r. if k == key then none else r) (look t s k)),
            refl,
            omega (arith, length-unlink t.nodes key u h),
          )
    | inr (c, h) ↦ rw (c, h) (s, entry_kept (find t) key none (look t s key ∙ h), refl, omega arith)
  ])

  pub empty-Sound : Sound {A = A} empty
  unfolding ends
  empty-Sound = record { grouped = tt; linked = λ b. refl }

  serve_lem :
      (t : Table A) (r : Request A)
      → Sound t
      → Sound (serve t r) × ((k : ℕ) → find (serve t r) k ≡ expected (find t) r k)
  unfolding serve
  serve_lem t (add key v) s = let (a, b, _, _) = insert_lem t key v s in (a, b)
  serve_lem t (remove key) s = let (a, b, _, _) = erase_key_lem t key s in (a, b)
  serve_lem t clear s = (empty-Sound, look empty empty-Sound)
  serve_lem t duplicate s =
      let (a, b) = copy_lem t s in
      (b, λ k. look (copy t) b k ∙ ap (λ l. value_at l k) a ∙ sym (look t s k))

  -- After any sequence of calls on a sound table, the table is sound, and every key is found as in
  -- the map that the same sequence of insertions, removals and clearings leaves.
  pub serve_all_lem :
      (t : Table A) (rs : List (Request A))
      → Sound t
      → Sound (serve_all t rs) × ((k : ℕ) → find (serve_all t rs) k ≡ expected_all (find t) rs k)
  serve_all_lem t [] s = (s, λ k. refl)
  serve_all_lem t (r ∷ rs) s =
      let (a, b) = serve_lem t r s in
      let (c, d) = serve_all_lem (serve t r) rs a in
      (c, λ k. d k ∙ ap (λ m. expected_all m rs k) (fun_ext b))

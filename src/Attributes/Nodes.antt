-- ===== src/Attributes/Nodes.antt =====
-- The list of nodes with its hash table: `attribute_set::implementation` in
-- src/attribute_set_impl.hpp.
--
-- A node is an attribute's identifier with what is stored, and a pointer to a node is its
-- identifier, since no identifier occurs twice. `none` is a null pointer.
pub mod Grouped
pub mod Finding
pub mod Placing
pub mod Splicing
pub mod Inserted
pub mod Erasing
pub mod Shrinking
pub mod Copying
pub mod Erased
pub mod Mapping
use Prim.Native.Nat.{bit_and}
use log.Prelude.{
  ℕ, Bool, true, false, List, [], ◌∷◌, ◌++◌, Option, none, some, ltb, leb, ◌==◌, ◌||◌, ◌&&◌,
  if◌then◌else◌, length,
}

-- `bucket`: its first and its last node.
abbrev pub Bucket : Type 0
Bucket = Option (ℕ × ℕ)

-- The index that `get_bucket` takes.
unfoldable pub bucket_index : ℕ → ℕ
bucket_index id = bit_and id 15

module _ {A : Type 0} where
  -- The nodes from a pointer on.
  abbrev pub from : ℕ → List (ℕ × A) → List (ℕ × A)
  from p [] = []
  from p (n ∷ ns) = if n.0 == p then n ∷ ns else from p ns

  -- What the node at a pointer holds.
  abbrev pub value_at : List (ℕ × A) → ℕ → Option A
  value_at [] p = none
  value_at (n ∷ ns) p = if n.0 == p then some n.1 else value_at ns p

  -- The loop of `find_in_bucket`, over the nodes from `b.first` on. Running over the end of the
  -- list would be `none`.
  abbrev pub walk : ℕ → ℕ → List (ℕ × A) → Option ℕ
  walk key last [] = none
  walk key last (n ∷ ns) =
      let rest = walk key last ns in if (n.0 == last) || leb key n.0 then some n.0 else rest

  -- `m_Nodes.insert(it, *n)` with `it` at a node, and behind it.
  abbrev pub link_before : ℕ → ℕ × A → List (ℕ × A) → List (ℕ × A)
  link_before p x [] = x ∷ []
  link_before p x (n ∷ ns) = if n.0 == p then x ∷ n ∷ ns else n ∷ link_before p x ns

  abbrev pub link_after : ℕ → ℕ × A → List (ℕ × A) → List (ℕ × A)
  link_after p x [] = x ∷ []
  link_after p x (n ∷ ns) = if n.0 == p then n ∷ x ∷ ns else n ∷ link_after p x ns

  abbrev pub unlink : ℕ → List (ℕ × A) → List (ℕ × A)
  unlink p [] = []
  unlink p (n ∷ ns) = if n.0 == p then ns else n ∷ unlink p ns

  abbrev pub head_id : ℕ → List (ℕ × A) → ℕ
  head_id p [] = p
  head_id p (n ∷ ns) = n.0

  -- `node_traits::get_next` and `get_previous`; at an end the pointer stays.
  abbrev pub next_of : ℕ → List (ℕ × A) → ℕ
  next_of p [] = p
  next_of p (n ∷ ns) = if n.0 == p then head_id p ns else next_of p ns

  abbrev pub previous_of : ℕ → List (ℕ × A) → ℕ
  previous_of p [] = p
  previous_of p (n ∷ ns) = if head_id p ns == p then n.0 else previous_of p ns

-- `m_Nodes` and `m_Buckets`.
pub record Table (A : Type 0) : Type 0 where
  pub nodes : List (ℕ × A)
  pub buckets : ℕ → Bucket

abbrev pub set_bucket : (ℕ → Bucket) → ℕ → Bucket → ℕ → Bucket
set_bucket buckets i b j = if j == i then b else buckets j

-- Whether a pointer is at a node with this identifier.
abbrev pub is_at : Option ℕ → ℕ → Bool
is_at none key = false
is_at (some p) key = p == key

-- A bucket with a node put behind its last one.
abbrev pub extend : ℕ → Bucket → Bucket
extend key none = some (key, key)
extend key (some (first, last)) = some (first, key)

module _ {A : Type 0} where
  unfoldable pub find_in_bucket : List (ℕ × A) → ℕ → Bucket → Option ℕ
  find_in_bucket ns key none = none
  find_in_bucket ns key (some (first, last)) = walk key last (from first ns)

  abbrev pub put_bucket : Table A → ℕ → Bucket → List (ℕ × A) → Table A
  put_bucket t key b ns = record { nodes = ns; buckets = set_bucket t.buckets (bucket_index key) b }

  -- Where a new node goes, and what becomes of its bucket. A bucket that is not empty always has a
  -- place for the node.
  unfoldable pub insert_node : Table A → ℕ → A → Bucket → Option ℕ → Table A
  insert_node t key v none p = put_bucket t key (some (key, key)) (t.nodes ++ (key, v) ∷ [])
  insert_node t key v (some (first, last)) none = t
  insert_node t key v (some (first, last)) (some p) =
      if (p == last) && ltb p key
      then put_bucket t key (some (first, key)) (link_after p (key, v) t.nodes)
      else (if p == first
          then put_bucket t key (some (key, last)) (link_before p (key, v) t.nodes)
          else put_bucket t key (some (first, last)) (link_before p (key, v) t.nodes))

  unfoldable pub insert : Table A → ℕ → A → Table A × Bool
  insert t key v =
      let b = t.buckets (bucket_index key) in
      let p = find_in_bucket t.nodes key b in
      if is_at p key then (t, false) else (insert_node t key v b p, true)

  unfoldable pub find : Table A → ℕ → Option A
  find t key =
      let p = find_in_bucket t.nodes key (t.buckets (bucket_index key)) in
      if is_at p key then value_at t.nodes key else none

  -- The boundaries of a bucket without one of its nodes.
  unfoldable pub shrink : List (ℕ × A) → ℕ → Bucket → Bucket
  shrink ns p none = none
  shrink ns p (some (first, last)) =
      if p == first
      then (if p == last then none else some (next_of first ns, last))
      else (if p == last then some (first, previous_of last ns) else some (first, last))

  -- `erase` of the iterator at a node.
  unfoldable pub erase : Table A → ℕ → Table A
  erase t p = put_bucket t p (shrink t.nodes p (t.buckets (bucket_index p))) (unlink p t.nodes)

  -- `attribute_set::erase` of a key, with the number of attributes erased.
  unfoldable pub erase_key : Table A → ℕ → Table A × ℕ
  erase_key t key =
      let p = find_in_bucket t.nodes key (t.buckets (bucket_index key)) in
      if is_at p key then (erase t key, 1) else (t, 0)

  abbrev pub size : Table A → ℕ
  size t = length t.nodes

  -- The table of the default constructor, and of `clear`.
  abbrev pub empty : Table A
  empty = record { nodes = []; buckets = λ _. none }

  -- One round of the copy constructor.
  unfoldable pub push_back : Table A → ℕ × A → Table A
  push_back t n = put_bucket t n.0 (extend n.0 (t.buckets (bucket_index n.0))) (t.nodes ++ n ∷ [])

  unfoldable pub copy_nodes : Table A → List (ℕ × A) → Table A
  copy_nodes t [] = t
  copy_nodes t (n ∷ ns) = copy_nodes (push_back t n) ns

  -- The copy constructor.
  abbrev pub copy : Table A → Table A
  copy that = copy_nodes empty that.nodes

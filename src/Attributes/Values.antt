-- ===== src/Attributes/Values.antt =====
-- Sets of attribute values: `attribute_value_set::implementation` in src/attribute_value_set.cpp.
--
-- `m_Nodes` and `m_Buckets` are those of the attribute sets, with values for attributes. Of the
-- storage behind the object, what counts is how many nodes it has left. An attribute's `get_value`
-- is a parameter: a function that may change the world it reads, and that does not throw.
pub mod Adding
pub mod Freezing
pub mod Frozen
pub mod Room
pub mod Calls
use log.Prelude.{
  ℕ, suc, ◌+◌, ◌-◌, Bool, true, false, List, [], ◌∷◌, Option, none, some, ◌==◌, if◌then◌else◌,
  length,
}
use log.Attributes.Nodes.{
  Bucket, bucket_index, value_at, Table, is_at, find_in_bucket, insert_node, find, size, empty,
  push_back,
}

pub record ValueSet (A V : Type 0) : Type 0 where
  pub source_attributes : Option (Table A)
  pub thread_attributes : Option (Table A)
  pub global_attributes : Option (Table A)
  -- `m_Nodes` and `m_Buckets`
  pub values : Table V
  -- The nodes from `m_pEnd` to `m_pEOS`.
  pub room : ℕ
  -- The nodes that were allocated one by one.
  pub dynamic_nodes : ℕ

module _ {A : Type 0} where
  -- What a set of attributes has for a key; a null pointer has nothing.
  abbrev pub attribute_in : Option (Table A) → ℕ → Option A
  attribute_in none key = none
  attribute_in (some attrs) key = find attrs key

  -- The first of three.
  abbrev pub first_of : Option A → Option A → Option A → Option A
  first_of (some a) b c = some a
  first_of none (some b) c = some b
  first_of none none c = c

module _ {A V : Type 0} where
  -- The storage of one more node: `m_pEnd++`, or `new`.
  abbrev pub allocate_node : ValueSet A V → ValueSet A V
  allocate_node s = record s {
    room = if s.room == 0 then s.room else s.room - 1;
    dynamic_nodes = if s.room == 0 then s.dynamic_nodes + 1 else s.dynamic_nodes;
  }

  unfoldable pub add_node : ValueSet A V → ℕ → V → Bucket → Option ℕ → ValueSet A V
  add_node s key v b place = record (allocate_node s) {
    values = insert_node s.values key v b place;
  }

  abbrev pub place_of : ValueSet A V → ℕ → Option ℕ
  place_of s key = find_in_bucket s.values.nodes key (s.values.buckets (bucket_index key))

  -- An element with a value that is there.
  abbrev pub add_value : ValueSet A V → ℕ → V → ValueSet A V
  add_value s key v = add_node s key v (s.values.buckets (bucket_index key)) (place_of s key)

  unfoldable pub insert : ValueSet A V → ℕ → V → ValueSet A V × Bool
  insert s key v = if is_at (place_of s key) key then (s, false) else (add_value s key v, true)

  -- One round of `copy_nodes_from`, and its loop.
  abbrev pub copy_node : ValueSet A V → ℕ × V → ValueSet A V
  copy_node s n = record s { values = push_back s.values n; room = s.room - 1 }

  abbrev pub copy_nodes_from : ValueSet A V → List (ℕ × V) → ValueSet A V
  copy_nodes_from s [] = s
  copy_nodes_from s (n ∷ ns) = copy_nodes_from (copy_node s n) ns

  abbrev pub create : ℕ → Option (Table A) → Option (Table A) → Option (Table A) → ValueSet A V
  create element_count source_attrs thread_attrs global_attrs = record {
    source_attributes = source_attrs;
    thread_attributes = thread_attrs;
    global_attributes = global_attrs;
    values = empty;
    room = element_count;
    dynamic_nodes = 0;
  }

  -- `create` from three attribute sets, from a set of values that is given up, and from nothing.
  abbrev pub create_from_sets : Table A → Table A → Table A → ℕ → ValueSet A V
  create_from_sets source_attrs thread_attrs global_attrs reserve_count =
      create (size source_attrs + size thread_attrs + size global_attrs + reserve_count)
        (some source_attrs) (some thread_attrs) (some global_attrs)

  abbrev pub create_moved : ValueSet A V → Table A → Table A → ValueSet A V
  create_moved source_attrs thread_attrs global_attrs = record source_attrs {
    thread_attributes = some thread_attrs;
    global_attributes = some global_attrs;
  }

  abbrev pub create_empty : ℕ → ValueSet A V
  create_empty reserve_count = create reserve_count none none none

module _ {A V World : Type 0} (get_value : A → World → V × World) where
  -- `freeze_node`, with the attribute that it takes the value of.
  unfoldable pub acquire : ValueSet A V → ℕ → Option A → World → ValueSet A V × Option V × World
  acquire s key none w = (s, none, w)
  acquire s key (some a) w = let r = get_value a w in (add_value s key r.0, some r.0, r.1)

  abbrev pub freeze_node : ValueSet A V → ℕ → World → ValueSet A V × Option V × World
  freeze_node s key w =
      acquire s key
        (first_of (attribute_in s.source_attributes key) (attribute_in s.thread_attributes key)
          (attribute_in s.global_attributes key))
        w

  -- `find`; `none` is the end of the list.
  unfoldable pub find_value : ValueSet A V → ℕ → World → ValueSet A V × Option V × World
  find_value s key w =
      if is_at (place_of s key) key
      then (s, value_at s.values.nodes key, w)
      else freeze_node s key w

  -- One round of `freeze_nodes_from`, and its loop.
  unfoldable pub freeze_one : ValueSet A V → ℕ × A → World → ValueSet A V × World
  freeze_one s n w =
      let r = get_value n.1 w in
      if is_at (place_of s n.0) n.0 then (s, w) else (add_value s n.0 r.0, r.1)

  abbrev pub freeze_nodes_from : ValueSet A V → List (ℕ × A) → World → ValueSet A V × World
  freeze_nodes_from s [] w = (s, w)
  freeze_nodes_from s (n ∷ ns) w = let r = freeze_one s n w in freeze_nodes_from r.0 ns r.1

  abbrev pub freeze_set : Option (Table A) → ValueSet A V → World → ValueSet A V × World
  freeze_set none s w = (s, w)
  freeze_set (some attrs) s w = freeze_nodes_from s attrs.nodes w

  abbrev pub freeze_source : ValueSet A V → World → ValueSet A V × World
  freeze_source s w =
      let r = freeze_set s.source_attributes s w in (record r.0 { source_attributes = none }, r.1)

  abbrev pub freeze_thread : ValueSet A V → World → ValueSet A V × World
  freeze_thread s w =
      let r = freeze_set s.thread_attributes s w in (record r.0 { thread_attributes = none }, r.1)

  abbrev pub freeze_global : ValueSet A V → World → ValueSet A V × World
  freeze_global s w =
      let r = freeze_set s.global_attributes s w in (record r.0 { global_attributes = none }, r.1)

  unfoldable pub freeze : ValueSet A V → World → ValueSet A V × World
  freeze s w =
      let r = freeze_source s w in let r' = freeze_thread r.0 r.1 in freeze_global r'.0 r'.1

  -- `size`, with the set that it leaves frozen.
  abbrev pub frozen_size : ValueSet A V → World → ValueSet A V × ℕ × World
  frozen_size s w = let r = freeze s w in (r.0, size r.0.values, r.1)

  -- The copy, with the original that it leaves frozen.
  unfoldable pub copy_values : ValueSet A V → World → ValueSet A V × ValueSet A V × World
  copy_values that w =
      let r = frozen_size that w in (copy_nodes_from (create_empty r.1) r.0.values.nodes, r.0, r.2)

  -- `create` from a set of values and two attribute sets, with the first that it leaves frozen.
  unfoldable pub create_from_values :
      ValueSet A V → Table A → Table A → ℕ → World → ValueSet A V × ValueSet A V × World
  create_from_values source_attrs thread_attrs global_attrs reserve_count w =
      let r = frozen_size source_attrs w in
      (
        copy_nodes_from
            (create (r.1 + size thread_attrs + size global_attrs + reserve_count) none
              (some thread_attrs) (some global_attrs))
            r.0.values.nodes,
        r.0,
        r.2,
      )

-- ===== src/Attributes/Values/Room.antt =====
-- The storage of a set of values is enough for what `create` counts: src/attribute_value_set.cpp.
use log.Prelude.{ℕ, ◌+◌, ◌-◌, ◌≡◌, refl, ap, ◌∙◌, List, [], ◌∷◌, Option, none, some, arith, length}
use log.Attributes.Nodes.{Table, size, copy_nodes, empty}
use log.Attributes.Nodes.Copying.{copy_nodes_linked}
use log.Attributes.Nodes.Grouped.{ends}
use log.Attributes.Values.{ValueSet, freeze, copy_nodes_from, copy_node, copy_values, create_empty}
use log.Attributes.Values.Adding.{IsSound}

abbrev pub size_of : {A : Type 0} → Option (Table A) → ℕ
size_of none = 0
size_of (some attrs) = size attrs

module _ {A V : Type 0} where
  -- The copied nodes are those of a copied table, and each takes a node of the storage.
  copy_nodes_from_lem :
      (s : ValueSet A V) (ns : List (ℕ × V))
      → ((copy_nodes_from s ns).values ≡ copy_nodes s.values ns)
        × ((copy_nodes_from s ns).room ≡ s.room - length ns)
        × ((copy_nodes_from s ns).dynamic_nodes ≡ s.dynamic_nodes)
  unfolding copy_nodes
  copy_nodes_from_lem s [] = (refl, omega arith, refl)
  copy_nodes_from_lem s (n ∷ ns) =
      let (a, b, c) = copy_nodes_from_lem (copy_node s n) ns in (a, omega (arith, b), c)

module _ {A V World : Type 0} (get_value : A → World → V × World) where
  -- A copy has the values of the original, which the copying freezes, in their order. It is sound
  -- if the original then is, and its storage is used up by them exactly.
  pub copy_values_lem :
      (that : ValueSet A V) (w : World)
      → IsSound (copy_values get_value that w).1
      → IsSound (copy_values get_value that w).0
        × ((copy_values get_value that w).0.values.nodes ≡ (freeze get_value that w).0.values.nodes)
        × ((copy_values get_value that w).0.room ≡ 0)
        × ((copy_values get_value that w).0.dynamic_nodes ≡ 0)
  unfolding copy_values ends
  copy_values_lem that w d =
      let r = freeze get_value that w in
      let (a, b, c) =
        copy_nodes_from_lem (create_empty {A = A} (size r.0.values)) r.0.values.nodes in
      let (e, f) = copy_nodes_linked empty r.0.values.nodes (λ k. refl) in
      (
        rw a (record { grouped = rw e d.grouped; linked = f }),
        ap (λ t. t.nodes) a ∙ e,
        omega (arith, b),
        c,
      )

  abbrev needed : ValueSet A V → ℕ
  needed s = size_of s.source_attributes + size_of s.thread_attributes + size_of s.global_attributes

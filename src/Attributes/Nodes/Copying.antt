-- ===== src/Attributes/Nodes/Copying.antt =====
-- A copied list has the ends of its buckets: the copy constructor in src/attribute_set_impl.hpp
-- and `copy_nodes_from` in src/attribute_value_set.cpp.
use mathlib.Core.List.{append-nil, append_assoc}
use log.Prelude.{
  ℕ, ◌≡◌, refl, ap, ◌∙◌, sym, false, List, [], ◌∷◌, ◌++◌, none, some, arith, ◌==◌, inl, inr,
  Bool-cases, ==_iff,
}
use log.Attributes.Nodes.{Bucket, bucket_index, Table, extend, push_back, copy_nodes, copy, empty}
use log.Attributes.Nodes.Grouped.{ends, last_of, ends_here, ends_there}
use log.Attributes.Nodes.Inserted.{Sound}

last_of-extend : (x key : ℕ) (b : Bucket) → last_of x (extend key b) ≡ key
last_of-extend x key none = refl
last_of-extend x key (some (first, last)) = refl

extend-some :
    (x key : ℕ) (b : Bucket) → ◌≡◌ {A = Bucket} (some (x, key)) (extend key (some (x, last_of x b)))
extend-some x key b = refl

module _ {A : Type 0} where
  -- A node behind the last one of the list.
  ends-append_own :
      (ns : List (ℕ × A)) (n : ℕ × A)
      → ends (bucket_index n.0) (ns ++ n ∷ []) ≡ extend n.0 (ends (bucket_index n.0) ns)
  unfolding ends
  ends-append_own [] n = ends_here (bucket_index n.0) n [] refl
  ends-append_own (m ∷ ms) n = elim (Bool-cases (bucket_index m.0 == bucket_index n.0)) [
    | inl c ↦ rw c (
        ap (λ r. some (m.0, last_of m.0 r)) (ends-append_own ms n)
        ∙ ap (λ r. some (m.0, r)) (last_of-extend m.0 n.0 (ends (bucket_index n.0) ms)))
    | inr c ↦ rw c (ends-append_own ms n)
  ]

  ends-append_other :
      (b : ℕ) (ns : List (ℕ × A)) (n : ℕ × A)
      → (bucket_index n.0 == b) ≡ false
      → ends b (ns ++ n ∷ []) ≡ ends b ns
  unfolding ends
  ends-append_other b [] n h = ends_there b n [] h
  ends-append_other b (m ∷ ms) n h = rw (ends-append_other b ms n h) refl

  push_back_linked :
      (t : Table A) (n : ℕ × A)
      → ((b : ℕ) → t.buckets b ≡ ends b t.nodes)
      → (b : ℕ) → (push_back t n).buckets b ≡ ends b (push_back t n).nodes
  unfolding push_back
  push_back_linked t n h b = elim (Bool-cases (b == bucket_index n.0)) [
    | inl c ↦
        rw (c, (==_iff b (bucket_index n.0)).0 c, h (bucket_index n.0))
          (sym (ends-append_own t.nodes n))
    | inr c ↦
        let d : (bucket_index n.0 == b) ≡ false = ground (arith, c) in
        rw c (h b ∙ sym (ends-append_other b t.nodes n d))
  ]

  pub copy_nodes_linked :
      (t : Table A) (ns : List (ℕ × A))
      → ((b : ℕ) → t.buckets b ≡ ends b t.nodes)
      → ((copy_nodes t ns).nodes ≡ t.nodes ++ ns)
        × ((b : ℕ) → (copy_nodes t ns).buckets b ≡ ends b (copy_nodes t ns).nodes)
  unfolding copy_nodes push_back
  copy_nodes_linked t [] h = (sym (append-nil t.nodes), h)
  copy_nodes_linked t (n ∷ ns) h =
      let (a, b) = copy_nodes_linked (push_back t n) ns (push_back_linked t n h) in
      (a ∙ append_assoc t.nodes (n ∷ []) ns, b)

  -- The copy of a sound table is sound and has the nodes in their order.
  pub copy_lem : (t : Table A) → Sound t → ((copy t).nodes ≡ t.nodes) × Sound (copy t)
  unfolding ends
  copy_lem t s =
      let (a, b) = copy_nodes_linked empty t.nodes (λ c. refl) in
      (a, record { grouped = rw a s.grouped; linked = b })

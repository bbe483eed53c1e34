-- ===== src/Attributes/Nodes/Inserted.antt =====
-- Tables whose buckets are the ends of their parts of the list, and `insert` on them: the two
-- functions that share `insert_node`'s text in src/attribute_set_impl.hpp and
-- src/attribute_value_set.cpp.
use log.Prelude.{
  ℕ, ◌≡◌, ◌≢◌, refl, ap, ◌∙◌, sym, true, false, List, [], ◌∷◌, ◌++◌, none, some, arith, ltb, ◌==◌,
  ◌&&◌, ◌⊎◌, inl, inr, Bool-cases, ==_iff,
}
use log.Attributes.Nodes.{
  Bucket, bucket_index, value_at, Table, is_at, find_in_bucket, insert_node, put_bucket,
}
use log.Attributes.Nodes.Grouped.{ends, Grouped, absent, ends_here, ends_there}
use log.Attributes.Nodes.Grouped.Inserting.{put, put-Grouped, ends-put_other}
use log.Attributes.Nodes.Finding.{find_in_bucket-Found}
use log.Attributes.Nodes.Placing.{spliced, new_ends}
use log.Attributes.Nodes.Splicing.{find_in_bucket-Placed}

-- Nodes of a bucket together and ordered, and every bucket with its first and last node.
pub record Sound {A : Type 0} (t : Table A) : Type 0 where
  pub grouped : Grouped t.nodes
  pub linked : (b : ℕ) → t.buckets b ≡ ends b t.nodes

module _ {A : Type 0} (key : ℕ) where
  -- The search gives the node of the key or one that another key has.
  pub located :
      (t : Table A)
      → Sound t
      → ((is_at (find_in_bucket t.nodes key (t.buckets (bucket_index key))) key ≡ true)
          × ((u : A) × (value_at t.nodes key ≡ some u)))
        ⊎ ((is_at (find_in_bucket t.nodes key (t.buckets (bucket_index key))) key ≡ false)
            × (value_at t.nodes key ≡ none))
  unfolding find_in_bucket
  located t s = rw (s.linked (bucket_index key)) (go (ends (bucket_index key) t.nodes) refl)
    where
      go :
          (b : Bucket)
          → ends (bucket_index key) t.nodes ≡ b
          → ((is_at (find_in_bucket t.nodes key b) key ≡ true)
              × ((u : A) × (value_at t.nodes key ≡ some u)))
            ⊎ ((is_at (find_in_bucket t.nodes key b) key ≡ false) × (value_at t.nodes key ≡ none))
      go none e = inr (refl, absent t.nodes key e)
      go (some (first, last)) e =
          let (p, u, f, at, c) = find_in_bucket-Found key t.nodes first last s.grouped e in
          rw f (choose p u at c)
        where
          choose :
              (p : ℕ) (u : A)
              → value_at t.nodes p ≡ some u
              → (p ≡ key) ⊎ ((value_at t.nodes key ≡ none) × (p ≢ key))
              → (((p == key) ≡ true) × ((w : A) × (value_at t.nodes key ≡ some w)))
                ⊎ (((p == key) ≡ false) × (value_at t.nodes key ≡ none))
          choose p u at (inl same) =
              inl (ground (arith, same), (u, ap (value_at t.nodes) (sym same) ∙ at))
          choose p u at (inr (h, other)) = inr (ground (arith, other), h)

module _ {A : Type 0} (key : ℕ) (v : A) where
  -- A node of a bucket that is empty so far.
  append_put :
      (ns : List (ℕ × A)) → ends (bucket_index key) ns ≡ none → ns ++ (key, v) ∷ [] ≡ put key v ns
  unfolding put
  append_put [] h = refl
  append_put (n ∷ ns) h = elim (Bool-cases (bucket_index n.0 == bucket_index key)) [
    | inl c ↦ absurd (cc (sym h ∙ ends_here (bucket_index key) n ns ((==_iff _ _).0 c)))
    | inr c ↦
        rw c (ap (λ l. n ∷ l) (append_put ns (sym (ends_there (bucket_index key) n ns c) ∙ h)))
  ]

  ends-put_first :
      (ns : List (ℕ × A))
      → ends (bucket_index key) ns ≡ none
      → ends (bucket_index key) (put key v ns) ≡ some (key, key)
  unfolding put ends
  ends-put_first [] h = ends_here (bucket_index key) (key, v) [] refl
  ends-put_first (n ∷ ns) h = elim (Bool-cases (bucket_index n.0 == bucket_index key)) [
    | inl c ↦ absurd (cc (sym h ∙ ends_here (bucket_index key) n ns ((==_iff _ _).0 c)))
    | inr c ↦ rw c (
        ends_there (bucket_index key) n (put key v ns) c
        ∙ ends-put_first ns (sym (ends_there (bucket_index key) n ns c) ∙ h))
  ]

  put_bucket-Sound :
      (t : Table A) (b : Bucket) (ns : List (ℕ × A))
      → Sound t
      → value_at t.nodes key ≡ none
      → ns ≡ put key v t.nodes
      → ends (bucket_index key) (put key v t.nodes) ≡ b
      → Sound (put_bucket t key b ns)
  put_bucket-Sound t b ns s h e f = record {
    grouped = rw e (put-Grouped key v t.nodes s.grouped h);
    linked = λ c. elim (Bool-cases (c == bucket_index key)) [
      | inl k ↦ rw (k, e, (==_iff c (bucket_index key)).0 k) (sym f)
      | inr k ↦
          rw (k, e)
            (s.linked c ∙ sym (ends-put_other key v c t.nodes (λ x. absurd (ground (arith, x, k)))))
    ];
  }

  insert_node-some :
      (t : Table A) (first last p : ℕ)
      → insert_node t key v (some (first, last)) (some p)
        ≡ put_bucket t key (some (new_ends key v first last p)) (spliced key v t.nodes p last)
  unfolding insert_node
  insert_node-some t first last p = elim (Bool-cases ((p == last) && ltb p key)) [
    | inl k ↦ rw k refl
    | inr k ↦ rw k (elim (Bool-cases (p == first)) [ inl c ↦ rw c refl | inr c ↦ rw c refl ])
  ]

  -- A new node goes to its place, and the table stays sound.
  pub insert_node_lem :
      (t : Table A)
      → Sound t
      → value_at t.nodes key ≡ none
      → ((insert_node t key v
            (t.buckets (bucket_index key))
            (find_in_bucket t.nodes key (t.buckets (bucket_index key)))).nodes
          ≡ put key v t.nodes)
        × Sound (
            insert_node t key v
              (t.buckets (bucket_index key))
              (find_in_bucket t.nodes key (t.buckets (bucket_index key))))
  unfolding insert_node find_in_bucket
  insert_node_lem t s h =
      rw (s.linked (bucket_index key)) (go (ends (bucket_index key) t.nodes) refl)
    where
      go :
          (b : Bucket)
          → ends (bucket_index key) t.nodes ≡ b
          → ((insert_node t key v b (find_in_bucket t.nodes key b)).nodes ≡ put key v t.nodes)
            × Sound (insert_node t key v b (find_in_bucket t.nodes key b))
      go none e = (
        append_put t.nodes e,
        put_bucket-Sound t (some (key, key)) _ s h (append_put t.nodes e)
            (ends-put_first t.nodes e),
      )
      go (some (first, last)) e =
          let (p, _, f, _, _) = find_in_bucket-Found key t.nodes first last s.grouped e in
          let (same, at) = find_in_bucket-Placed key v t.nodes first last p s.grouped e h f in
          rw (f, insert_node-some t first last p) (same, put_bucket-Sound t _ _ s h same at)

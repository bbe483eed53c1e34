-- ===== src/Attributes/Values/Adding.antt =====
-- One more element in a set of values, and the search that may add it: `insert_node`, `insert`,
-- `find` and `freeze_node` in src/attribute_value_set.cpp.
use mathlib.Core.Path.{subst}
use log.Prelude.{
  ℕ, ◌≡◌, refl, ap, ◌∙◌, sym, true, Option, none, some, ◌==◌, inl, inr, Bool-cases, if◌then◌else◌,
  ==_iff,
}
use log.Attributes.Nodes.{value_at}
use log.Attributes.Nodes.Grouped.Inserting.{put, value_at-put}
use log.Attributes.Nodes.Inserted.{Sound, located, insert_node_lem}
use log.Attributes.Nodes.Mapping.{is_none, add_entry}
use log.Attributes.Values.{
  ValueSet, attribute_in, first_of, add_node, add_value, insert, acquire, find_value,
}

pub same_entry :
    {V : Type 0} (m : ℕ → Option V) (key : ℕ) (o : Option V)
    → m key ≡ o
    → (k : ℕ) → m k ≡ (if k == key then o else m k)
same_entry m key o h k = elim (Bool-cases (k == key)) [
  | inl c ↦ rw (c, (==_iff k key).0 c) h
  | inr c ↦ rw c refl
]

module _ {A V : Type 0} where
  -- The values acquired so far.
  abbrev pub acquired : ValueSet A V → ℕ → Option V
  acquired s key = value_at s.values.nodes key

  -- What the attribute sets that are not frozen yet have.
  abbrev pub offered : ValueSet A V → ℕ → Option A
  offered s key =
      first_of (attribute_in s.source_attributes key) (attribute_in s.thread_attributes key)
        (attribute_in s.global_attributes key)

  abbrev pub IsSound : ValueSet A V → Type 0
  IsSound s = Sound s.values

  pub add_value_lem :
      (s : ValueSet A V) (key : ℕ) (v : V)
      → IsSound s
      → acquired s key ≡ none
      → IsSound (add_value s key v) × ((add_value s key v).values.nodes ≡ put key v s.values.nodes)
  unfolding add_node
  add_value_lem s key v d h = let (a, b) = insert_node_lem key v s.values d h in (b, a)

  pub acquired-add_value :
      (s : ValueSet A V) (key : ℕ) (v : V)
      → IsSound s
      → acquired s key ≡ none
      → (k : ℕ) → acquired (add_value s key v) k ≡ (if k == key then some v else acquired s k)
  acquired-add_value s key v d h k =
      ap (λ l. value_at l k) (add_value_lem s key v d h).1 ∙ value_at-put key v s.values.nodes k h

  -- `insert` of a key whose value is there changes nothing and says so; of another key it adds the
  -- value, which then is the only entry that differs. The set stays sound.
  pub insert-acquired :
      (s : ValueSet A V) (key : ℕ) (v : V)
      → IsSound s
      → IsSound (insert s key v).0
        × ((k : ℕ) → acquired (insert s key v).0 k ≡ add_entry key v (acquired s) k)
        × ((insert s key v).1 ≡ is_none (acquired s key))
  unfolding insert
  insert-acquired s key v d = elim (located key s.values d) [
    | inl (c, (u, h)) ↦ rw (c, h) (d, same_entry (acquired s) key (some u) h, refl)
    | inr (c, h) ↦ rw (c, h) ((add_value_lem s key v d h).0, acquired-add_value s key v d h, refl)
  ]

module _ {A V World : Type 0} (get_value : A → World → V × World) where
  -- What a search has to give for a value acquired before, an attribute, or neither.
  abbrev pub value_of : Option V → Option A → World → Option V × World
  value_of (some v) a w = (some v, w)
  value_of none (some a) w = let r = get_value a w in (some r.0, r.1)
  value_of none none w = (none, w)

  abbrev pub looked_up : ValueSet A V → ℕ → World → Option V × World
  looked_up s key w = let r = find_value get_value s key w in (r.1, r.2)

  acquire_lem :
      (s : ValueSet A V) (key : ℕ) (o : Option A) (w : World)
      → IsSound s
      → acquired s key ≡ none
      → IsSound (acquire get_value s key o w).0
        × (((acquire get_value s key o w).1, (acquire get_value s key o w).2) ≡ value_of none o w)
        × ((k : ℕ)
            → acquired (acquire get_value s key o w).0 k
              ≡ (if k == key then (acquire get_value s key o w).1 else acquired s k))
  unfolding acquire
  acquire_lem s key none w d h = (d, refl, same_entry (acquired s) key none h)
  acquire_lem s key (some a) w d h =
      let v = (get_value a w).0 in
      ((add_value_lem s key v d h).0, refl, acquired-add_value s key v d h)

  -- Where attributes do not throw when they are asked for their values: `find` in a sound set gives
  -- the value acquired before, or else that of the first attribute with the key, of
  -- the source, the thread and the global set in this order; where there is neither, the end. What
  -- it gives is acquired afterwards, and the values of the other keys are as before.
  pub find_value_lem :
      (s : ValueSet A V) (key : ℕ) (w : World)
      → IsSound s
      → IsSound (find_value get_value s key w).0
        × (looked_up s key w ≡ value_of (acquired s key) (offered s key) w)
        × ((k : ℕ)
            → acquired (find_value get_value s key w).0 k
              ≡ (if k == key then (find_value get_value s key w).1 else acquired s k))
  unfolding find_value
  find_value_lem s key w d = elim (located key s.values d) [
    | inl (c, (u, h)) ↦ rw (c, h) (d, refl, same_entry (acquired s) key (some u) h)
    | inr (c, h) ↦ rw (c, h) (acquire_lem s key (offered s key) w d h)
  ]

  find_acquired :
      (s : ValueSet A V) (key : ℕ) (v : V) (w : World)
      → IsSound s
      → acquired s key ≡ some v
      → find_value get_value s key w ≡ (s, some v, w)
  unfolding find_value
  find_acquired s key v w d h = elim (located key s.values d) [
    | inl (c, _) ↦ rw (c, h) refl
    | inr (_, k) ↦ absurd (cc (sym h ∙ k))
  ]

  find_offered :
      (s : ValueSet A V) (key : ℕ) (o : Option A) (w : World)
      → IsSound s
      → acquired s key ≡ none
      → offered s key ≡ o
      → find_value get_value s key w ≡ acquire get_value s key o w
  unfolding find_value
  find_offered s key o w d h e = elim (located key s.values d) [
    | inl (_, (u, k)) ↦ absurd (cc (sym h ∙ k))
    | inr (c, _) ↦ rw (c, e) refl
  ]

  -- Where attributes do not throw when they are asked for their values: a second search for a key in
  -- a sound set gives the same, and reads no attribute.
  pub find_value_twice :
      (s : ValueSet A V) (key : ℕ) (w w' : World)
      → IsSound s
      → find_value get_value (find_value get_value s key w).0 key w'
        ≡ ((find_value get_value s key w).0, (find_value get_value s key w).1, w')
  unfolding acquire
  find_value_twice s key w w' d = go (acquired s key) (offered s key) refl refl
    where
      Twice : ValueSet A V × Option V × World → Type 0
      Twice r = find_value get_value r.0 key w' ≡ (r.0, r.1, w')

      go :
          (v : Option V) (o : Option A)
          → acquired s key ≡ v
          → offered s key ≡ o
          → Twice (find_value get_value s key w)
      go (some v) o h e =
          subst Twice (sym (find_acquired s key v w d h)) (find_acquired s key v w' d h)
      go none none h e =
          subst Twice (sym (find_offered s key none w d h e)) (find_offered s key none w' d h e)
      go none (some a) h e =
          let v = (get_value a w).0 in
          let here : (key == key) ≡ true = (==_iff key key).1 refl in
          let pick : (if key == key then some v else acquired s key) ≡ some v = rw here refl in
          subst Twice (sym (find_offered s key (some a) w d h e)) (
            find_acquired (add_value s key v) key v w' (add_value_lem s key v d h).0
              (acquired-add_value s key v d h key ∙ pick))

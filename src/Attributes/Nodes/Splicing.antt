-- ===== src/Attributes/Nodes/Splicing.antt =====
-- In the whole list, through the ends of the bucket, `insert_node` puts a new node at its place.
use mathlib.Core.Path.{subst}
use log.Prelude.{
  ℕ, ◌≡◌, refl, ap, ◌∙◌, sym, true, false, List, [], ◌∷◌, Option, none, some, arith, ltb, ◌==◌,
  ◌&&◌, inl, inr, Bool-cases, if◌then◌else◌, ==_iff,
}
use log.Attributes.Nodes.{bucket_index, value_at, from, walk}
use log.Attributes.Nodes.Grouped.{ends, Grouped, ends_index, ends_split, ends_there}
use log.Attributes.Nodes.Grouped.Inserting.{put, put_in}
use log.Attributes.Nodes.Finding.{Found, walk-Found, from-first}
use log.Attributes.Nodes.Placing.{spliced, new_ends, Placed, walk-Placed}

module _ {A : Type 0} (key : ℕ) (v : A) where
  -- The node found is one of the bucket.
  walk_index :
      (ns : List (ℕ × A)) (first last p : ℕ)
      → Grouped ns
      → ends (bucket_index key) ns ≡ some (first, last)
      → walk key last (from first ns) ≡ some p
      → bucket_index p ≡ bucket_index key
  walk_index ns first last p g e w =
      let (n, rest, f, k, g', e', _) = from-first key ns first last g e in
      let i : bucket_index n.0 ≡ bucket_index key =
        ap bucket_index k ∙ ends_index (bucket_index key) ns first last e in
      go n rest (walk key last (n ∷ rest)) (walk-Found key n rest last g' i e')
        (ap (walk key last) (sym f) ∙ w)
    where
      go :
          (n : ℕ × A) (rest : List (ℕ × A)) (r : Option ℕ)
          → Found key n rest last r
          → r ≡ some p
          → bucket_index p ≡ bucket_index key
      go n rest none h e = absurd h
      go n rest (some q) (_, i, _, _) e = let same : q ≡ p = cc in ap bucket_index (sym same) ∙ i

  -- A node of another bucket.
  other_bucket :
      (a b : ℕ)
      → (bucket_index a == bucket_index key) ≡ false
      → bucket_index b ≡ bucket_index key
      → (a == b) ≡ false
  other_bucket a b c i = elim (Bool-cases (a == b)) [
    | inl h ↦ absurd (ground (arith, ap bucket_index ((==_iff a b).0 h)))
    | inr h ↦ h
  ]

  -- The whole list, through the bucket's ends.
  pub find_in_bucket-Placed :
      (ns : List (ℕ × A)) (first last p : ℕ)
      → Grouped ns
      → ends (bucket_index key) ns ≡ some (first, last)
      → value_at ns key ≡ none
      → walk key last (from first ns) ≡ some p
      → (spliced key v ns p last ≡ put key v ns)
        × (ends (bucket_index key) (put key v ns) ≡ some (new_ends key v first last p))
  unfolding put
  find_in_bucket-Placed [] first last p g e h w = absurd (cc)
  find_in_bucket-Placed (n ∷ ns) first last p (l, g) e h w =
      elim (Bool-cases (bucket_index n.0 == bucket_index key)) [
        | inl c ↦ here c ((==_iff _ _).0 c)
        | inr c ↦ there c (sym (ends_there (bucket_index key) n ns c) ∙ e) (
            find_in_bucket-Placed ns first last p g
              (sym (ends_there (bucket_index key) n ns c) ∙ e))
      ]
    where
      from_here : (n.0 == first) ≡ true → from first (n ∷ ns) ≡ n ∷ ns
      from_here t = rw t refl

      here :
          (bucket_index n.0 == bucket_index key) ≡ true
          → bucket_index n.0 ≡ bucket_index key
          → (spliced key v (n ∷ ns) p last ≡ (
              if bucket_index n.0 == bucket_index key then put_in key v n ns else n ∷ put key v ns))
            × (ends (bucket_index key) (
                  if bucket_index n.0 == bucket_index key
                  then put_in key v n ns
                  else n ∷ put key v ns)
                ≡ some (new_ends key v first last p))
      here c i =
          let x : first ≡ n.0 = (ends_split (bucket_index key) n ns first last i e).0 in
          let t : (n.0 == first) ≡ true = ground (arith, x) in
          let e' = e ∙ ap (λ y. some (y, last)) x in
          let f : walk key last (n ∷ ns) ≡ some p = ap (walk key last) (sym (from_here t)) ∙ w in
          let (a, b) =
            subst (Placed key v n ns last) f (walk-Placed key v n ns last (l, g) i e' h) in
          rw c (a, b ∙ ap (λ y. some (new_ends key v y last p)) (sym x))

      from_there : (n.0 == first) ≡ false → from first (n ∷ ns) ≡ from first ns
      from_there t = rw t refl

      value_there : (n.0 == key) ≡ false → value_at ns key ≡ value_at (n ∷ ns) key
      value_there t = rw t refl

      spliced_there :
          (n.0 == p) ≡ false → spliced key v (n ∷ ns) p last ≡ n ∷ spliced key v ns p last
      spliced_there t =
          rw t
            (elim (Bool-cases ((p == last) && ltb p key)) [ inl u ↦ rw u refl | inr u ↦ rw u refl ])

      there :
          (bucket_index n.0 == bucket_index key) ≡ false
          → ends (bucket_index key) ns ≡ some (first, last)
          → (value_at ns key ≡ none
              → walk key last (from first ns) ≡ some p
              → (spliced key v ns p last ≡ put key v ns)
                × (ends (bucket_index key) (put key v ns) ≡ some (new_ends key v first last p)))
          → (spliced key v (n ∷ ns) p last ≡ (
              if bucket_index n.0 == bucket_index key then put_in key v n ns else n ∷ put key v ns))
            × (ends (bucket_index key) (
                  if bucket_index n.0 == bucket_index key
                  then put_in key v n ns
                  else n ∷ put key v ns)
                ≡ some (new_ends key v first last p))
      there c f rec =
          let t : (n.0 == first) ≡ false =
            other_bucket n.0 first c (ends_index (bucket_index key) ns first last f) in
          let w' : walk key last (from first ns) ≡ some p =
            ap (walk key last) (sym (from_there t)) ∙ w in
          let u : (n.0 == p) ≡ false = other_bucket n.0 p c (walk_index ns first last p g f w') in
          let k : (n.0 == key) ≡ false = other_bucket n.0 key c refl in
          let (a, b) = rec (value_there k ∙ h) w' in
          rw c (
            spliced_there u ∙ ap (λ l. n ∷ l) a,
            ends_there (bucket_index key) n (put key v ns) c ∙ b,
          )

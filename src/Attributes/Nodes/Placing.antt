-- ===== src/Attributes/Nodes/Placing.antt =====
-- Within its bucket, `insert_node` puts a new node at its place and keeps the ends of the bucket.
use Prim.Native.Nat.{compare, Ordering}
use log.Prelude.{
  ℕ, ◌<◌, ◌≡◌, refl, ap, ◌∙◌, sym, true, false, List, [], ◌∷◌, Option, none, some, arith, ltb, leb,
  ◌==◌, ◌||◌, ◌&&◌, inl, inr, Bool-cases, if◌then◌else◌, ==_iff,
}
use log.Attributes.Nodes.{Bucket, bucket_index, value_at, walk, link_before, link_after}
use log.Attributes.Nodes.Grouped.{
  last_of, ends, Grouped, ends_behind, ends_le, ends_split, ends_here, lt_of_Leads,
}
use log.Attributes.Nodes.Grouped.Inserting.{put_in}
use log.Attributes.Nodes.Finding.{continues, Found, walk-Found, next_in_bucket}

module _ {A : Type 0} (key : ℕ) (v : A) where
  -- The list and the bucket that `insert_node` leaves, with the new node at pointer `p`.
  abbrev pub spliced : List (ℕ × A) → ℕ → ℕ → List (ℕ × A)
  spliced ns p last =
      if (p == last) && ltb p key then link_after p (key, v) ns else link_before p (key, v) ns

  abbrev pub new_ends : ℕ → ℕ → ℕ → ℕ × ℕ
  new_ends first last p =
      if (p == last) && ltb p key
      then (first, key)
      else (if p == first then (key, last) else (first, last))

  abbrev pub Placed : ℕ × A → List (ℕ × A) → ℕ → Option ℕ → Type 0
  Placed n ns last none = ⊥
  Placed n ns last (some p) =
      (spliced (n ∷ ns) p last ≡ put_in key v n ns)
      × (ends (bucket_index key) (put_in key v n ns) ≡ some (new_ends n.0 last p))

  Placed-first :
      (n : ℕ × A) (ns : List (ℕ × A)) (last : ℕ)
      → key < n.0
      → ends (bucket_index key) (n ∷ ns) ≡ some (n.0, last)
      → Placed n ns last (some n.0)
  unfolding put_in
  Placed-first n ns last lt e =
      let a : ((n.0 == last) && ltb n.0 key) ≡ false = ground arith in
      let b : (n.0 == n.0) ≡ true = ground arith in
      let c : ltb key n.0 ≡ true = ground arith in rw (a, b) (go ns c e)
    where
      go :
          (ns : List (ℕ × A))
          → ltb key n.0 ≡ true
          → ends (bucket_index key) (n ∷ ns) ≡ some (n.0, last)
          → ((key, v) ∷ n ∷ ns ≡ put_in key v n ns)
            × (ends (bucket_index key) (put_in key v n ns) ≡ some (key, last))
      go [] c e = rw c (
        refl,
        ends_here (bucket_index key) (key, v) (n ∷ []) refl ∙ ap (λ r. some (key, last_of key r)) e,
      )
      go (m ∷ ms) c e = rw c (
        refl,
        ends_here (bucket_index key) (key, v) (n ∷ m ∷ ms) refl
            ∙ ap (λ r. some (key, last_of key r)) e,
      )

  Placed-last :
      (n : ℕ × A) (ns : List (ℕ × A)) (last : ℕ)
      → n.0 < key
      → n.0 ≡ last
      → Grouped (n ∷ ns)
      → bucket_index n.0 ≡ bucket_index key
      → ends (bucket_index key) (n ∷ ns) ≡ some (n.0, last)
      → Placed n ns last (some n.0)
  unfolding put_in
  Placed-last n ns last lt same g i e =
      let a : ((n.0 == last) && ltb n.0 key) ≡ true = ground arith in
      let b : (n.0 == n.0) ≡ true = ground arith in
      rw (a, b)
        (
          go ns (alone same),
          ap (ends (bucket_index key)) (sym (go ns (alone same)))
              ∙ ends_here (bucket_index key) n ((key, v) ∷ ns) i
              ∙ ap (λ r. some (n.0, last_of n.0 r)) (ends_here (bucket_index key) (key, v) ns refl)
              ∙ ap (λ r. some (n.0, last_of key r)) (alone same),
        )
    where
      alone : n.0 ≡ last → ends (bucket_index key) ns ≡ none
      alone same = elim (ends_split (bucket_index key) n ns n.0 last i e).1 [
        | inl (h, _) ↦ h
        | inr (a, h) ↦ absurd (
            omega (
              arith,
              same,
              ends_le (bucket_index key) ns a last g.1 h,
              ends_behind n ns a last g (ap (λ c. ends c ns) i ∙ h),
            ))
      ]

      go :
          (ns : List (ℕ × A))
          → ends (bucket_index key) ns ≡ none
          → n ∷ (key, v) ∷ ns ≡ put_in key v n ns
      go [] h = let c : ltb key n.0 ≡ false = ground arith in rw c refl
      go (m ∷ ms) h =
          let c : ltb key n.0 ≡ false = ground arith in
          elim (Bool-cases (bucket_index m.0 == bucket_index key)) [
            | inl d ↦ absurd (cc (sym h ∙ ends_here (bucket_index key) m ms ((==_iff _ _).0 d)))
            | inr d ↦ rw (c, d) refl
          ]

  -- Where the search goes on.
  Placed-next :
      (n m : ℕ × A) (ms : List (ℕ × A)) (last p : ℕ)
      → n.0 < key
      → n.0 < p
      → bucket_index n.0 ≡ bucket_index key
      → bucket_index m.0 ≡ bucket_index key
      → Placed m ms last (some p)
      → Placed n (m ∷ ms) last (some p)
  unfolding put_in
  Placed-next n m ms last p lt le i j (s, e) =
      let c : ltb key n.0 ≡ false = ground arith in
      let d : (bucket_index m.0 == bucket_index key) ≡ true = ground arith in
      let a : (n.0 == p) ≡ false = ground arith in
      let b : (p == n.0) ≡ false = ground arith in
      rw (c, d, a, b)
        (
          spliced_next ∙ ap (λ l. n ∷ l) s,
          ends_here (bucket_index key) n (put_in key v m ms) i
              ∙ ap (λ r. some (n.0, last_of n.0 r)) e
              ∙ ends_next,
        )
    where
      spliced_next :
          (if (p == last) && ltb p key
            then n ∷ link_after p (key, v) (m ∷ ms)
            else n ∷ link_before p (key, v) (m ∷ ms))
          ≡ n ∷ spliced (m ∷ ms) p last
      spliced_next = elim (Bool-cases ((p == last) && ltb p key)) [
        | inl t ↦ rw t refl
        | inr t ↦ rw t refl
      ]

      ends_next :
          ◌≡◌ {A = Bucket}
            (some (n.0, last_of n.0 (some (new_ends m.0 last p))))
            (some (if (p == last) && ltb p key then (n.0, key) else (n.0, last)))
      ends_next = elim (Bool-cases ((p == last) && ltb p key)) [
        | inl t ↦ rw t refl
        | inr t ↦ rw t (elim (Bool-cases (p == m.0)) [ inl u ↦ rw u refl | inr u ↦ rw u refl ])
      ]

  walk_stops :
      (n : ℕ × A) (ns : List (ℕ × A)) (last : ℕ)
      → ((n.0 == last) || leb key n.0) ≡ true
      → Grouped (n ∷ ns)
      → bucket_index n.0 ≡ bucket_index key
      → ends (bucket_index key) (n ∷ ns) ≡ some (n.0, last)
      → value_at (n ∷ ns) key ≡ none
      → Placed n ns last (some n.0)
  walk_stops n ns last t g i e h = choose (compare key n.0) refl
    where
      choose : (o : Ordering) → compare key n.0 ≡ o → Placed n ns last (some n.0)
      choose Ordering.lt c = Placed-first n ns last (ground (arith, c)) e
      choose Ordering.eq c = absurd (ground (arith, c, h))
      choose Ordering.gt c = Placed-last n ns last (ground (arith, c)) (ground (arith, c, t)) g i e

  pub walk-Placed :
      (n : ℕ × A) (ns : List (ℕ × A)) (last : ℕ)
      → Grouped (n ∷ ns)
      → bucket_index n.0 ≡ bucket_index key
      → ends (bucket_index key) (n ∷ ns) ≡ some (n.0, last)
      → value_at (n ∷ ns) key ≡ none
      → Placed n ns last (walk key last (n ∷ ns))
  unfolding ends
  walk-Placed n [] last g i e h = elim (Bool-cases ((n.0 == last) || leb key n.0)) [
    | inl t ↦ rw t (walk_stops n [] last t g i e h)
    | inr t ↦ absurd (cc ((continues key n [] last i e t).1))
  ]
  walk-Placed n (m ∷ ms) last (l, g) i e h = elim (Bool-cases ((n.0 == last) || leb key n.0)) [
    | inl t ↦ rw t (walk_stops n (m ∷ ms) last t (l, g) i e h)
    | inr t ↦
        let (j, f) = next_in_bucket key n m ms last l i e t in
        rw t (
          go (walk key last (m ∷ ms)) t (lt_of_Leads n m ms l (i ∙ sym j)) j
            (walk-Found key m ms last g j f) (walk-Placed m ms last g j f (ground (arith, h))))
  ]
    where
      go :
          (r : Option ℕ)
          → ((n.0 == last) || leb key n.0) ≡ false
          → n.0 < m.0
          → bucket_index m.0 ≡ bucket_index key
          → Found key m ms last r
          → Placed m ms last r
          → Placed n (m ∷ ms) last r
      go none t lt j f h = h
      go (some p) t lt j f h =
          Placed-next n m ms last p (ground (arith, t)) (omega (arith, lt, f.0)) i j h

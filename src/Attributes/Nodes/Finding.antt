-- ===== src/Attributes/Nodes/Finding.antt =====
-- The search within a bucket, and where `insert_node` puts a new node.
use Prim.Native.Nat.{compare, Ordering}
use log.Prelude.{
  ℕ, ◌<◌, ◌≤◌, ◌≡◌, ◌≢◌, refl, ap, ◌∙◌, sym, true, false, List, [], ◌∷◌, Option, none, some, arith,
  leb, ◌==◌, ◌||◌, ◌⊎◌, inl, inr, Bool-cases, if◌then◌else◌, ==_iff,
}
use log.Attributes.Nodes.{Bucket, bucket_index, value_at, from, walk, find_in_bucket, find, Table}
use log.Attributes.Nodes.Grouped.{
  ends, Leads, Grouped, absent, absent_behind, ends_index, ends_behind, ends_le, ends_split,
  ends_there, lt_of_Leads,
}

module _ {A : Type 0} (key : ℕ) where
  -- What the search in a bucket from `n` to `last` gives: a node of the bucket not before `n`,
  -- that has the key if any has.
  abbrev pub Found : ℕ × A → List (ℕ × A) → ℕ → Option ℕ → Type 0
  Found n ns last none = ⊥
  Found n ns last (some p) =
      (n.0 ≤ p)
      × (bucket_index p ≡ bucket_index key)
      × ((u : A) × (value_at (n ∷ ns) p ≡ some u))
      × ((p ≡ key) ⊎ ((value_at (n ∷ ns) key ≡ none) × ((key < p) ⊎ ((p ≡ last) × (last < key)))))

  -- Where the search stops at its first node.
  stops :
      (n : ℕ × A) (ns : List (ℕ × A)) (last : ℕ)
      → Grouped (n ∷ ns)
      → bucket_index n.0 ≡ bucket_index key
      → ends (bucket_index key) (n ∷ ns) ≡ some (n.0, last)
      → ((n.0 == last) || leb key n.0) ≡ true
      → Found n ns last (some n.0)
  stops n ns last g e f t = (omega arith, e, (n.1, ground arith), choose (compare key n.0) refl)
    where
      alone : n.0 ≡ last → ends (bucket_index key) ns ≡ none
      alone same = elim (ends_split (bucket_index key) n ns n.0 last e f).1 [
        | inl (h, _) ↦ h
        | inr (a, h) ↦ absurd (
            omega (
              arith,
              same,
              ends_le (bucket_index key) ns a last g.1 h,
              ends_behind n ns a last g (ap (λ c. ends c ns) e ∙ h),
            ))
      ]

      choose :
          (o : Ordering)
          → compare key n.0 ≡ o
          → (n.0 ≡ key)
            ⊎ ((value_at (n ∷ ns) key ≡ none) × ((key < n.0) ⊎ ((n.0 ≡ last) × (last < key))))
      choose Ordering.eq c = inl (ground (arith, c))
      choose Ordering.lt c =
          inr (ground (arith, c, absent_behind n ns key g e), inl (ground (arith, c)))
      choose Ordering.gt c =
          let same : n.0 ≡ last = ground (arith, c, t) in
          inr (ground (arith, c, absent ns key (alone same)), inr (same, ground (arith, c, same)))

  -- Where it does not, the bucket goes on.
  pub continues :
      (n : ℕ × A) (ns : List (ℕ × A)) (last : ℕ)
      → bucket_index n.0 ≡ bucket_index key
      → ends (bucket_index key) (n ∷ ns) ≡ some (n.0, last)
      → ((n.0 == last) || leb key n.0) ≡ false
      → (a : ℕ) × (ends (bucket_index key) ns ≡ some (a, last))
  continues n ns last e f t = elim (ends_split (bucket_index key) n ns n.0 last e f).1 [
    | inl (_, h) ↦ absurd (ground (arith, h, t))
    | inr (a, h) ↦ (a, h)
  ]

  pub next_in_bucket :
      (n m : ℕ × A) (ms : List (ℕ × A)) (last : ℕ)
      → Leads n (m ∷ ms)
      → bucket_index n.0 ≡ bucket_index key
      → ends (bucket_index key) (n ∷ m ∷ ms) ≡ some (n.0, last)
      → ((n.0 == last) || leb key n.0) ≡ false
      → (bucket_index m.0 ≡ bucket_index key)
        × (ends (bucket_index key) (m ∷ ms) ≡ some (m.0, last))
  next_in_bucket n m ms last l e f t =
      let (a, h) = continues n (m ∷ ms) last e f t in
      let same = index a h l in
      (same, h ∙ ap (λ x. some (x, last)) (ends_split (bucket_index key) m ms a last same h).0)
    where
      index :
          (a : ℕ)
          → ends (bucket_index key) (m ∷ ms) ≡ some (a, last)
          → Leads n (m ∷ ms)
          → bucket_index m.0 ≡ bucket_index key
      index a h (inl (k, _)) = sym k ∙ e
      index a h (inr k) = absurd (cc (sym h ∙ ap (λ b. ends b (m ∷ ms)) (sym e) ∙ k))

  pub walk-Found :
      (n : ℕ × A) (ns : List (ℕ × A)) (last : ℕ)
      → Grouped (n ∷ ns)
      → bucket_index n.0 ≡ bucket_index key
      → ends (bucket_index key) (n ∷ ns) ≡ some (n.0, last)
      → Found n ns last (walk key last (n ∷ ns))
  unfolding ends
  walk-Found n [] last g e f = elim (Bool-cases ((n.0 == last) || leb key n.0)) [
    | inl t ↦ rw t (stops n [] last g e f t)
    | inr t ↦ absurd (cc ((continues n [] last e f t).1))
  ]
  walk-Found n (m ∷ ms) last (l, g) e f = elim (Bool-cases ((n.0 == last) || leb key n.0)) [
    | inl t ↦ rw t (stops n (m ∷ ms) last (l, g) e f t)
    | inr t ↦
        let (same, h) = next_in_bucket n m ms last l e f t in
        rw t (goes_on (walk key last (m ∷ ms)) t same (walk-Found m ms last g same h))
  ]
    where
      goes_on :
          (r : Option ℕ)
          → ((n.0 == last) || leb key n.0) ≡ false
          → bucket_index m.0 ≡ bucket_index key
          → Found m ms last r
          → Found n (m ∷ ms) last r
      goes_on none t s h = h
      goes_on (some p) t s (le, i, (u, at), h) =
          let lt : n.0 < m.0 = lt_of_Leads n m ms l (e ∙ sym s) in
          (omega (arith, le, lt), i, (u, ground (arith, at, le, lt)), more h)
        where
          more :
              (p ≡ key)
                ⊎ ((value_at (m ∷ ms) key ≡ none) × ((key < p) ⊎ ((p ≡ last) × (last < key))))
              → (p ≡ key)
                ⊎ ((value_at (n ∷ m ∷ ms) key ≡ none) × ((key < p) ⊎ ((p ≡ last) × (last < key))))
          more (inl h) = inl h
          more (inr (h, k)) = inr (ground (arith, h, t), k)

  -- The nodes from the first one of the bucket on.
  pub from-first :
      (ns : List (ℕ × A)) (first last : ℕ)
      → Grouped ns
      → ends (bucket_index key) ns ≡ some (first, last)
      → (n : ℕ × A) × (rest : List (ℕ × A)) × (from first ns ≡ n ∷ rest)
        × (n.0 ≡ first)
        × Grouped (n ∷ rest)
        × (ends (bucket_index key) (n ∷ rest) ≡ some (n.0, last))
        × ((p : ℕ) → bucket_index p ≡ bucket_index key → value_at ns p ≡ value_at (n ∷ rest) p)
  unfolding ends
  from-first [] first last g e = absurd (cc)
  from-first (n ∷ ns) first last (l, g) e =
      elim (Bool-cases (bucket_index n.0 == bucket_index key)) [
        | inl c ↦
            let same : bucket_index n.0 ≡ bucket_index key = (==_iff _ _).0 c in
            let (x, _) = ends_split (bucket_index key) n ns first last same e in
            let t : (n.0 == first) ≡ true = ground (arith, x) in
            (n, ns, rw t refl, sym x, (l, g), e ∙ ap (λ y. some (y, last)) x, λ p _. refl)
        | inr c ↦
            let h : ends (bucket_index key) ns ≡ some (first, last) =
              sym (ends_there (bucket_index key) n ns c) ∙ e in
            let (m, rest, f, k, g', e', same) = from-first ns first last g h in
            let i = ends_index (bucket_index key) ns first last h in
            let t : (n.0 == first) ≡ false = ne_test n.0 first c i in
            (
              m,
              rest,
              rw t f,
              k,
              g',
              e',
              λ p j. let u : (n.0 == p) ≡ false = ne_test n.0 p c j in rw u (same p j),
            )
      ]
    where
      ne_test :
          (a b : ℕ)
          → (bucket_index a == bucket_index key) ≡ false
          → bucket_index b ≡ bucket_index key
          → (a == b) ≡ false
      ne_test a b c i = elim (Bool-cases (a == b)) [
        | inl h ↦ absurd (ground (arith, ap bucket_index ((==_iff a b).0 h)))
        | inr h ↦ h
      ]

  -- The search in the whole list, through the bucket's ends.
  pub find_in_bucket-Found :
      (ns : List (ℕ × A)) (first last : ℕ)
      → Grouped ns
      → ends (bucket_index key) ns ≡ some (first, last)
      → (p : ℕ) × (u : A) × (find_in_bucket ns key (some (first, last)) ≡ some p)
        × (value_at ns p ≡ some u)
        × ((p ≡ key) ⊎ ((value_at ns key ≡ none) × (p ≢ key)))
  unfolding find_in_bucket
  find_in_bucket-Found ns first last g e =
      let (n, rest, f, k, g', e', same) = from-first ns first last g e in
      let i : bucket_index n.0 ≡ bucket_index key =
        ap bucket_index k ∙ ends_index (bucket_index key) ns first last e in
      rw f (go n rest same (walk key last (n ∷ rest)) (walk-Found n rest last g' i e'))
    where
      go :
          (n : ℕ × A) (rest : List (ℕ × A))
          → ((p : ℕ) → bucket_index p ≡ bucket_index key → value_at ns p ≡ value_at (n ∷ rest) p)
          → (r : Option ℕ) → Found n rest last r
          → (p : ℕ) × (u : A) × (r ≡ some p)
            × (value_at ns p ≡ some u)
            × ((p ≡ key) ⊎ ((value_at ns key ≡ none) × (p ≢ key)))
      go n rest same none h = absurd h
      go n rest same (some p) (_, i, (u, at), h) = (
        p,
        u,
        refl,
        same p i ∙ at,
        elim h [
          | inl x ↦ inl x
          | inr (x, y) ↦ inr (
            same key refl ∙ x,
            λ z. elim y [
              | inl lt ↦ absurd (omega (arith, z, lt))
              | inr (w, lt) ↦ absurd (omega (arith, z, w, lt))
            ],
          )
        ],
      )

  -- `find` is a lookup in the list of nodes.
  pub find_lem :
      (t : Table A)
      → Grouped t.nodes
      → ((b : ℕ) → t.buckets b ≡ ends b t.nodes)
      → find t key ≡ value_at t.nodes key
  unfolding find find_in_bucket
  find_lem t g linked = go (ends (bucket_index key) t.nodes) refl
    where
      go : (r : Bucket) → ends (bucket_index key) t.nodes ≡ r → find t key ≡ value_at t.nodes key
      go none h = rw (linked (bucket_index key) ∙ h, find) (sym (absent t.nodes key h))
      go (some (first, last)) h =
          let (p, u, f, at, c) = find_in_bucket-Found t.nodes first last g h in
          rw (linked (bucket_index key) ∙ h, find) (rw f (at_key p c))
        where
          at_key :
              (p : ℕ)
              → (p ≡ key) ⊎ ((value_at t.nodes key ≡ none) × (p ≢ key))
              → (if p == key then value_at t.nodes key else none) ≡ value_at t.nodes key
          at_key p (inl z) = let e : (p == key) ≡ true = ground arith in rw e refl
          at_key p (inr (x, z)) = let e : (p == key) ≡ false = ground arith in rw e (sym x)

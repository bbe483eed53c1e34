-- ===== src/Attributes/Nodes/Grouped.antt =====
-- Lists in which the nodes of a bucket stand together in the order of their identifiers.
pub mod Inserting
use log.Prelude.{
  ℕ, ◌<◌, ◌≤◌, ◌≡◌, refl, ap, sym, ◌∙◌, Bool, true, false, List, [], ◌∷◌, ◌++◌, Option, none, some,
  arith, ltb, leb, ◌==◌, ◌⊎◌, inl, inr, Bool-cases, if◌then◌else◌, length, ==_iff,
}
use log.Attributes.Nodes.{Bucket, bucket_index, value_at, unlink}

abbrev pub last_of : ℕ → Bucket → ℕ
last_of p none = p
last_of p (some (first, last)) = last

module _ {A : Type 0} where
  -- The first and the last node of a bucket.
  unfoldable pub ends : ℕ → List (ℕ × A) → Bucket
  ends b [] = none
  ends b (n ∷ ns) =
      let rest = ends b ns in if bucket_index n.0 == b then some (n.0, last_of n.0 rest) else rest

  -- A node before others: the next one is a greater one of its bucket, or there is none.
  abbrev pub Leads : ℕ × A → List (ℕ × A) → Type 0
  Leads n [] = Unit {0}
  Leads n (m ∷ ms) =
      ((bucket_index n.0 ≡ bucket_index m.0) × (n.0 < m.0))
      ⊎ (ends (bucket_index n.0) (m ∷ ms) ≡ none)

  abbrev pub Grouped : List (ℕ × A) → Type 0
  Grouped [] = Unit {0}
  Grouped (n ∷ ns) = Leads n ns × Grouped ns

  pub absent :
      (ns : List (ℕ × A)) (key : ℕ) → ends (bucket_index key) ns ≡ none → value_at ns key ≡ none
  unfolding ends
  absent [] key h = refl
  absent (n ∷ ns) key h = ground (arith, absent ns key)

  -- Behind a greater node of the bucket, an identifier does not occur.
  pub absent_behind :
      (n : ℕ × A) (ns : List (ℕ × A)) (key : ℕ)
      → Grouped (n ∷ ns)
      → bucket_index n.0 ≡ bucket_index key
      → key < n.0
      → value_at ns key ≡ none
  unfolding ends
  absent_behind n [] key g same less = refl
  absent_behind n (m ∷ ms) key (inl (e, lt), g) same less = ground (arith, absent_behind m ms key g)
  absent_behind n (m ∷ ms) key (inr e, g) same less =
      absent (m ∷ ms) key (ap (λ b. ends b (m ∷ ms)) (sym same) ∙ e)

  -- The ends of a bucket are its nodes.
  pub ends_index :
      (b : ℕ) (ns : List (ℕ × A)) (first last : ℕ)
      → ends b ns ≡ some (first, last)
      → bucket_index first ≡ b
  unfolding ends
  ends_index b [] first last e = absurd (cc)
  ends_index b (n ∷ ns) first last e = ground (arith, ends_index b ns first last)

  pub ends_here :
      (b : ℕ) (n : ℕ × A) (ns : List (ℕ × A))
      → bucket_index n.0 ≡ b
      → ends b (n ∷ ns) ≡ some (n.0, last_of n.0 (ends b ns))
  unfolding ends
  ends_here b n ns e = let t : (bucket_index n.0 == b) ≡ true = ground arith in rw t refl

  pub ends_there :
      (b : ℕ) (n : ℕ × A) (ns : List (ℕ × A))
      → (bucket_index n.0 == b) ≡ false
      → ends b (n ∷ ns) ≡ ends b ns
  unfolding ends
  ends_there b n ns e = rw e refl

  -- What the rest of a list has of the bucket of the node before it.
  pub ends_behind :
      (n : ℕ × A) (ns : List (ℕ × A)) (first last : ℕ)
      → Grouped (n ∷ ns)
      → ends (bucket_index n.0) ns ≡ some (first, last)
      → n.0 < first
  unfolding ends
  ends_behind n [] first last g e = absurd (cc)
  ends_behind n (m ∷ ms) first last (inl (f, lt), g) e =
      let h = sym e ∙ ends_here (bucket_index n.0) m ms (sym f) in
      let same : first ≡ m.0 = cc in omega (arith, same, lt)
  ends_behind n (m ∷ ms) first last (inr f, g) e = absurd (cc)

  -- The ends of a bucket whose first node is `n`.
  pub ends_split :
      (b : ℕ) (n : ℕ × A) (ns : List (ℕ × A)) (first last : ℕ)
      → bucket_index n.0 ≡ b
      → ends b (n ∷ ns) ≡ some (first, last)
      → (first ≡ n.0)
        × (((ends b ns ≡ none) × (last ≡ n.0)) ⊎ ((f : ℕ) × (ends b ns ≡ some (f, last))))
  ends_split b n ns first last c e = go (ends b ns) (sym e ∙ ends_here b n ns c)
    where
      go :
          (r : Bucket)
          → ◌≡◌ {A = Bucket} (some (first, last)) (some (n.0, last_of n.0 r))
          → (first ≡ n.0) × (((r ≡ none) × (last ≡ n.0)) ⊎ ((f : ℕ) × (r ≡ some (f, last))))
      go none k = (cc, inl (refl, cc))
      go (some (f, z)) k = (cc, inr (f, cc))

  pub ends_le :
      (b : ℕ) (ns : List (ℕ × A)) (first last : ℕ)
      → Grouped ns
      → ends b ns ≡ some (first, last)
      → first ≤ last
  unfolding ends
  ends_le b [] first last g e = absurd (cc)
  ends_le b (n ∷ ns) first last (l, g) e = elim (Bool-cases (bucket_index n.0 == b)) [
    | inr c ↦ ends_le b ns first last g (sym (ends_there b n ns c) ∙ e)
    | inl c ↦
        let same : bucket_index n.0 ≡ b = (==_iff _ _).0 c in
        let (x, rest) = ends_split b n ns first last same e in
        elim rest [
          | inl (_, y) ↦ omega (arith, x, y)
          | inr (f, h) ↦ omega (
            arith,
            x,
            ends_le b ns f last g h,
            ends_behind n ns f last (l, g) (ap (λ a. ends a ns) same ∙ h),
          )
        ]
  ]

  -- The next node, where it is of the same bucket.
  pub lt_of_Leads :
      (n m : ℕ × A) (ms : List (ℕ × A))
      → Leads n (m ∷ ms)
      → bucket_index n.0 ≡ bucket_index m.0
      → n.0 < m.0
  unfolding ends
  lt_of_Leads n m ms (inl (_, lt)) e = lt
  lt_of_Leads n m ms (inr none_left) e = absurd (ground (arith, none_left))

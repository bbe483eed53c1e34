-- ===== src/Attributes/Nodes/Grouped/Inserting.antt =====
-- A new node at its place in a grouped list.
use log.Prelude.{
  ℕ, suc, ◌<◌, ◌≡◌, ◌≢◌, refl, ap, ◌∙◌, sym, true, false, List, [], ◌∷◌, none, some, arith, ltb,
  ◌==◌, inl, inr, Bool-cases, if◌then◌else◌, length,
}
use log.Attributes.Nodes.{bucket_index, value_at}
use log.Attributes.Nodes.Grouped.{ends, Leads, Grouped, lt_of_Leads}

module _ {A : Type 0} (key : ℕ) (v : A) where
  -- In a bucket whose nodes begin with `n`.
  unfoldable pub put_in : ℕ × A → List (ℕ × A) → List (ℕ × A)
  put_in n [] = if ltb key n.0 then (key, v) ∷ n ∷ [] else n ∷ (key, v) ∷ []
  put_in n (m ∷ ms) =
      let rest = put_in m ms in
      if ltb key n.0
      then (key, v) ∷ n ∷ m ∷ ms
      else (if bucket_index m.0 == bucket_index key then n ∷ rest else n ∷ (key, v) ∷ m ∷ ms)

  unfoldable pub put : List (ℕ × A) → List (ℕ × A)
  put [] = (key, v) ∷ []
  put (n ∷ ns) =
      let rest = put ns in if bucket_index n.0 == bucket_index key then put_in n ns else n ∷ rest

  -- What is found afterwards.
  value_at-put_in :
      (n : ℕ × A) (ns : List (ℕ × A)) (k : ℕ)
      → value_at (n ∷ ns) key ≡ none
      → value_at (put_in n ns) k ≡ (if k == key then some v else value_at (n ∷ ns) k)
  unfolding put_in
  value_at-put_in n [] k h = ground arith
  value_at-put_in n (m ∷ ms) k h = ground (arith, value_at-put_in m ms k)

  pub value_at-put :
      (ns : List (ℕ × A)) (k : ℕ)
      → value_at ns key ≡ none
      → value_at (put ns) k ≡ (if k == key then some v else value_at ns k)
  unfolding put
  value_at-put [] k h = ground arith
  value_at-put (n ∷ ns) k h = ground (arith, value_at-put_in n ns k, value_at-put ns k)

  length-put_in : (n : ℕ × A) (ns : List (ℕ × A)) → length (put_in n ns) ≡ suc (suc (length ns))
  unfolding put_in
  length-put_in n [] = ground arith
  length-put_in n (m ∷ ms) = ground (arith, length-put_in m ms)

  pub length-put : (ns : List (ℕ × A)) → length (put ns) ≡ suc (length ns)
  unfolding put
  length-put [] = refl
  length-put (n ∷ ns) = ground (arith, length-put_in n ns, length-put ns)

  -- The other buckets are as before.
  ends-put_in_other :
      (b : ℕ) (n : ℕ × A) (ns : List (ℕ × A))
      → bucket_index key ≢ b
      → ends b (put_in n ns) ≡ ends b (n ∷ ns)
  unfolding put_in ends
  ends-put_in_other b n [] h = ground arith
  ends-put_in_other b n (m ∷ ms) h = ground (arith, ends-put_in_other b m ms h)

  pub ends-put_other :
      (b : ℕ) (ns : List (ℕ × A)) → bucket_index key ≢ b → ends b (put ns) ≡ ends b ns
  unfolding put ends
  ends-put_other b [] h = ground arith
  ends-put_other b (n ∷ ns) h = ground (arith, ends-put_in_other b n ns h, ends-put_other b ns h)

  -- A node before two of its bucket that it is less than.
  Leads-put_in :
      (n m : ℕ × A) (ms : List (ℕ × A))
      → bucket_index n.0 ≡ bucket_index key
      → bucket_index m.0 ≡ bucket_index key
      → n.0 < m.0
      → n.0 < key
      → Leads n (put_in m ms)
  unfolding put_in
  Leads-put_in n m [] e f lt lt' = elim (Bool-cases (ltb key m.0)) [
    | inl c ↦ rw c (inl (e, lt'))
    | inr c ↦ rw c (inl (e ∙ sym f, lt))
  ]
  Leads-put_in n m (o ∷ os) e f lt lt' = elim (Bool-cases (ltb key m.0)) [
    | inl c ↦ rw c (inl (e, lt'))
    | inr c ↦ rw c (elim (Bool-cases (bucket_index o.0 == bucket_index key)) [
      | inl d ↦ rw d (inl (e ∙ sym f, lt))
      | inr d ↦ rw d (inl (e ∙ sym f, lt))
    ])
  ]

  put_in-Grouped :
      (n : ℕ × A) (ns : List (ℕ × A))
      → Grouped (n ∷ ns)
      → bucket_index n.0 ≡ bucket_index key
      → value_at (n ∷ ns) key ≡ none
      → Grouped (put_in n ns)
  unfolding put_in
  put_in-Grouped n [] g e h = elim (Bool-cases (ltb key n.0)) [
    | inl lt ↦ rw lt (inl (sym e, ground arith), g)
    | inr ge ↦ rw ge (inl (e, ground arith), (tt, tt))
  ]
  put_in-Grouped n (m ∷ ms) (l, g) e h = elim (Bool-cases (ltb key n.0)) [
    | inl lt ↦ rw lt (inl (sym e, ground arith), (l, g))
    | inr ge ↦ rw ge (elim (Bool-cases (bucket_index m.0 == bucket_index key)) [
      | inl same ↦
          let f : bucket_index m.0 ≡ bucket_index key = ground arith in
          rw same (
            Leads-put_in n m ms e f (lt_of_Leads n m ms l (e ∙ sym f)) (ground arith),
            put_in-Grouped m ms g f (ground arith),
          )
      | inr other ↦ rw other (inl (e, ground arith), (inr (ends-gap n m ms l e other), g))
    ])
  ]
    where
      ends-gap :
          (n m : ℕ × A) (ms : List (ℕ × A))
          → Leads n (m ∷ ms)
          → bucket_index n.0 ≡ bucket_index key
          → (bucket_index m.0 == bucket_index key) ≡ false
          → ends (bucket_index key) (m ∷ ms) ≡ none
      ends-gap n m ms (inl (same, _)) e other = absurd (ground arith)
      ends-gap n m ms (inr none_left) e other = ap (λ b. ends b (m ∷ ms)) (sym e) ∙ none_left

  Leads-put :
      (n : ℕ × A) (ns : List (ℕ × A))
      → Leads n ns
      → (bucket_index n.0 == bucket_index key) ≡ false
      → Leads n (put ns)
  unfolding put ends
  Leads-put n [] l d = inr (ends-put_other (bucket_index n.0) [] (λ e. absurd (ground arith)))
  Leads-put n (m ∷ ms) l d = elim (Bool-cases (bucket_index m.0 == bucket_index key)) [
    | inl c ↦ rw c (behind l c)
    | inr c ↦ rw c (kept l c)
  ]
    where
      other : bucket_index key ≢ bucket_index n.0
      other e = absurd (ground arith)

      behind :
          Leads n (m ∷ ms) → (bucket_index m.0 == bucket_index key) ≡ true → Leads n (put_in m ms)
      behind (inl (e, _)) c = absurd (ground arith)
      behind (inr e) c =
          Leads_none (put_in m ms) (ends-put_in_other (bucket_index n.0) m ms other ∙ e)
        where
          Leads_none : (l : List (ℕ × A)) → ends (bucket_index n.0) l ≡ none → Leads n l
          Leads_none [] e = tt
          Leads_none (x ∷ xs) e = inr e

      kept :
          Leads n (m ∷ ms) → (bucket_index m.0 == bucket_index key) ≡ false → Leads n (m ∷ put ms)
      kept (inl (e, lt)) c = inl (e, lt)
      kept (inr e) c = inr (ground (arith, ends-put_other (bucket_index n.0) ms other, e))

  pub put-Grouped : (ns : List (ℕ × A)) → Grouped ns → value_at ns key ≡ none → Grouped (put ns)
  unfolding put
  put-Grouped [] g h = (tt, tt)
  put-Grouped (n ∷ ns) (l, g) h = elim (Bool-cases (bucket_index n.0 == bucket_index key)) [
    | inl c ↦ rw c (put_in-Grouped n ns (l, g) (ground arith) h)
    | inr c ↦ rw c (Leads-put n ns l c, put-Grouped ns g (ground arith))
  ]

-- ===== src/Attributes/Nodes/Shrinking.antt =====
-- The boundaries of a bucket that a node is taken out of: `erase` in src/attribute_set_impl.hpp.
use log.Prelude.{
  ℕ, ◌≡◌, ◌≢◌, refl, ap, ◌∙◌, sym, true, false, List, [], ◌∷◌, some, arith, ◌==◌, inl, inr,
  Bool-cases, ==_iff,
}
use log.Attributes.Nodes.{Bucket, bucket_index, value_at, unlink, shrink, head_id, previous_of}
use log.Attributes.Nodes.Grouped.{
  ends, last_of, Grouped, absent, ends_index, ends_behind, ends_le, ends_split, ends_here,
  ends_there,
}
use log.Attributes.Nodes.Erasing.{head_ends}

pub ==_false : (a b : ℕ) → a ≢ b → (a == b) ≡ false
==_false a b h = elim (Bool-cases (a == b)) [ inl c ↦ absurd (h ((==_iff a b).0 c)) | inr c ↦ c ]

ne_of : (a b : ℕ) → (a == b) ≡ false → a ≢ b
ne_of a b t z = absurd (ground (arith, z, t))

-- Pointers to nodes of different buckets.
apart :
    (p a b : ℕ)
    → (bucket_index a == bucket_index p) ≡ false
    → bucket_index b ≡ bucket_index p
    → a ≢ b
apart p a b c i z = ne_of _ _ c (ap bucket_index z ∙ i)

module _ {A : Type 0} (p : ℕ) where
  previous_skips :
      (n : ℕ × A) (ns : List (ℕ × A)) (last : ℕ)
      → head_id last ns ≢ last
      → previous_of last (n ∷ ns) ≡ previous_of last ns
  previous_skips n ns last h = let t = ==_false _ _ h in rw t refl

  -- A node of another bucket in front.
  shrink_there :
      (n : ℕ × A) (ns : List (ℕ × A)) (first last : ℕ)
      → n.0 ≢ first
      → ends (bucket_index p) ns ≡ some (first, last)
      → shrink ns p (some (first, last)) ≡ shrink (n ∷ ns) p (some (first, last))
  unfolding shrink ends
  shrink_there n ns first last h e =
      let t : (n.0 == first) ≡ false = ==_false n.0 first h in
      elim (Bool-cases (p == first)) [
        | inl c ↦ rw (c, t) refl
        | inr c ↦ elim (Bool-cases (p == last)) [
          | inl d ↦
              rw (c, d)
                (ap (λ x. some (first, x)) (sym (previous_skips n ns last (other ns e c d))))
          | inr d ↦ rw (c, d) refl
        ]
      ]
    where
      other :
          (ns : List (ℕ × A))
          → ends (bucket_index p) ns ≡ some (first, last)
          → (p == first) ≡ false
          → (p == last) ≡ true
          → head_id last ns ≢ last
      other [] e c d k = absurd (cc)
      other (m ∷ ms) e c d k =
          let same : m.0 ≡ p = ground (arith, k, d) in
          let x = (ends_split (bucket_index p) m ms first last (ap bucket_index same) e).0 in
          absurd (ground (arith, x, same, c))

  -- The bucket's nodes begin here, with the one taken out.
  shrink_first :
      (n : ℕ × A) (ns : List (ℕ × A)) (last : ℕ)
      → Grouped (n ∷ ns)
      → n.0 ≡ p
      → ends (bucket_index n.0) (n ∷ ns) ≡ some (n.0, last)
      → ends (bucket_index n.0) ns ≡ shrink (n ∷ ns) p (some (n.0, last))
  unfolding shrink
  shrink_first n ns last (l, g) same e =
      let c : (p == n.0) ≡ true = ground (arith, same) in
      elim (ends_split (bucket_index n.0) n ns n.0 last refl e).1 [
        | inl (h, k) ↦ let d : (p == last) ≡ true = ground (arith, same, k) in rw (c, d) h
        | inr (f, h) ↦
            let lt = ends_behind n ns f last (l, g) h in
            let le = ends_le (bucket_index n.0) ns f last g h in
            let d : (p == last) ≡ false =
              ==_false p last (λ z. absurd (omega (arith, z, lt, le, same))) in
            let b : (n.0 == n.0) ≡ true = (==_iff _ _).1 refl in
            rw (c, d, b) (h ∙ ap (λ x. some (x, last)) (sym (head_ends n ns f last n.0 l h)))
      ]

  -- The bucket's nodes begin here, with another one than the one taken out.
  shrink_next :
      (n : ℕ × A) (ns : List (ℕ × A)) (first last : ℕ)
      → Grouped (n ∷ ns)
      → n.0 ≢ p
      → ends (bucket_index n.0) ns ≡ some (first, last)
      → ◌≡◌ {A = Bucket}
          (some (n.0, last_of n.0 (shrink ns p (some (first, last)))))
          (shrink (n ∷ ns) p (some (n.0, last)))
  unfolding shrink
  shrink_next n ns first last (l, g) other e =
      let a : (p == n.0) ≡ false = ==_false p n.0 (λ z. other (sym z)) in
      let lt = ends_behind n ns first last (l, g) e in
      let le = ends_le (bucket_index n.0) ns first last g e in
      let head : head_id last ns ≡ first = head_ends n ns first last last l e in
      elim (Bool-cases (p == first)) [
        | inl c ↦ elim (Bool-cases (p == last)) [
          | inl d ↦
              let k : (head_id last ns == last) ≡ true = ground (arith, c, d, head) in
              rw (a, c, d, k) refl
          | inr d ↦ rw (a, c, d) refl
        ]
        | inr c ↦ elim (Bool-cases (p == last)) [
          | inl d ↦
              let k : head_id last ns ≢ last = λ z. absurd (ground (arith, c, d, head, z)) in
              rw (a, c, d) (ap (λ x. some (n.0, x)) (sym (previous_skips n ns last k)))
          | inr d ↦ rw (a, c, d) refl
        ]
      ]

  -- The ends of its bucket after a node is taken out.
  pub ends-unlink_own :
      (ns : List (ℕ × A)) (first last : ℕ) (u : A)
      → Grouped ns
      → value_at ns p ≡ some u
      → ends (bucket_index p) ns ≡ some (first, last)
      → ends (bucket_index p) (unlink p ns) ≡ shrink ns p (some (first, last))
  ends-unlink_own [] first last u g at e = absurd (cc)
  ends-unlink_own (n ∷ ns) first last u (l, g) at e =
      elim (Bool-cases (bucket_index n.0 == bucket_index p)) [
        | inr c ↦
            let f = sym (ends_there (bucket_index p) n ns c) ∙ e in
            let t = ==_false n.0 p (apart p n.0 p c refl) in
            let i = ends_index (bucket_index p) ns first last f in
            let s : n.0 ≢ first = apart p n.0 first c i in
            rw t (
              ends_there (bucket_index p) n (unlink p ns) c
              ∙ ends-unlink_own ns first last u g (value_behind t ∙ at) f
              ∙ shrink_there n ns first last s f)
        | inl c ↦ here ((==_iff _ _).0 c) (λ f. ends-unlink_own ns f last u g)
      ]
    where
      value_behind : (n.0 == p) ≡ false → value_at ns p ≡ value_at (n ∷ ns) p
      value_behind t = rw t refl

      here :
          bucket_index n.0 ≡ bucket_index p
          → ((f : ℕ)
              → value_at ns p ≡ some u
              → ends (bucket_index p) ns ≡ some (f, last)
              → ends (bucket_index p) (unlink p ns) ≡ shrink ns p (some (f, last)))
          → ends (bucket_index p) (unlink p (n ∷ ns)) ≡ shrink (n ∷ ns) p (some (first, last))
      here c rec =
          let (x, split) = ends_split (bucket_index p) n ns first last c e in
          let e' = ap (λ b. ends b (n ∷ ns)) c ∙ e ∙ ap (λ y. some (y, last)) x in
          rw x (elim (Bool-cases (n.0 == p)) [
            | inl t ↦
                rw t (
                  ap (λ b. ends b ns) (sym c) ∙ shrink_first n ns last (l, g) ((==_iff _ _).0 t) e')
            | inr t ↦ elim split [
              | inl (h, _) ↦ absurd (cc (sym at ∙ sym (value_behind t) ∙ absent ns p h))
              | inr (f, h) ↦ rw t (
                  ends_here (bucket_index p) n (unlink p ns) c
                  ∙ ap (λ r. some (n.0, last_of n.0 r)) (rec f (value_behind t ∙ at) h)
                  ∙ shrink_next n ns f last (l, g) (ne_of n.0 p t) (ap (λ b. ends b ns) c ∙ h))
            ]
          ])

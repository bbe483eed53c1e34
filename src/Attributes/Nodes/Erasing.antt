-- ===== src/Attributes/Nodes/Erasing.antt =====
-- A node taken out of a sound table: `erase` in src/attribute_set_impl.hpp.
use log.Prelude.{
  ℕ, ◌≡◌, ◌≢◌, refl, ap, ◌∙◌, sym, false, List, [], ◌∷◌, none, some, arith, ◌==◌, inl, inr,
  Bool-cases, ==_iff,
}
use log.Attributes.Nodes.{bucket_index, unlink, head_id}
use log.Attributes.Nodes.Grouped.{ends, Leads, Grouped, ends_split, ends_here, ends_there}

module _ {A : Type 0} (p : ℕ) where
  -- Another bucket keeps its ends, and an empty one stays empty.
  pub ends-unlink_other :
      (b : ℕ) (ns : List (ℕ × A)) → bucket_index p ≢ b → ends b (unlink p ns) ≡ ends b ns
  unfolding ends
  ends-unlink_other b [] h = refl
  ends-unlink_other b (n ∷ ns) h = elim (Bool-cases (n.0 == p)) [
    | inl c ↦ let d : (bucket_index n.0 == b) ≡ false = ne_test ((==_iff _ _).0 c) in rw (c, d) refl
    | inr c ↦ rw (c, ends-unlink_other b ns h) refl
  ]
    where
      ne_test : n.0 ≡ p → (bucket_index n.0 == b) ≡ false
      ne_test e = elim (Bool-cases (bucket_index n.0 == b)) [
        | inl k ↦ absurd (h (ap bucket_index (sym e) ∙ (==_iff _ _).0 k))
        | inr k ↦ k
      ]

  ends-none_tail :
      (b : ℕ) (n : ℕ × A) (ns : List (ℕ × A))
      → ends b (n ∷ ns) ≡ none
      → ((bucket_index n.0 == b) ≡ false) × (ends b ns ≡ none)
  ends-none_tail b n ns h = elim (Bool-cases (bucket_index n.0 == b)) [
    | inl c ↦ absurd (cc (sym h ∙ ends_here b n ns ((==_iff _ _).0 c)))
    | inr c ↦ (c, sym (ends_there b n ns c) ∙ h)
  ]

  ends-unlink-none : (b : ℕ) (ns : List (ℕ × A)) → ends b ns ≡ none → ends b (unlink p ns) ≡ none
  ends-unlink-none b [] h = h
  ends-unlink-none b (n ∷ ns) h =
      let (k, t) = ends-none_tail b n ns h in
      elim (Bool-cases (n.0 == p)) [
        | inl c ↦ rw c t
        | inr c ↦ rw c (ends_there b n (unlink p ns) k ∙ ends-unlink-none b ns t)
      ]

  -- A node that leads others leads the rest of them.
  Leads-tail : (n m : ℕ × A) (ms : List (ℕ × A)) → Leads n (m ∷ ms) → Leads m ms → Leads n ms
  Leads-tail n m [] l k = tt
  Leads-tail n m (o ∷ os) (inl (e, lt)) (inl (f, lt')) = inl (e ∙ f, omega (arith, lt, lt'))
  Leads-tail n m (o ∷ os) (inl (e, lt)) (inr h) = inr (ap (λ b. ends b (o ∷ os)) e ∙ h)
  Leads-tail n m (o ∷ os) (inr h) k = inr (ends-none_tail (bucket_index n.0) m (o ∷ os) h).1

  Leads-unlink : (n : ℕ × A) (ns : List (ℕ × A)) → Leads n ns → Grouped ns → Leads n (unlink p ns)
  Leads-unlink n [] l g = tt
  Leads-unlink n (m ∷ ms) l (k, g) = elim (Bool-cases (m.0 == p)) [
    | inl c ↦ rw c (Leads-tail n m ms l k)
    | inr c ↦ rw c (kept l)
  ]
    where
      kept : Leads n (m ∷ ms) → Leads n (m ∷ unlink p ms)
      kept (inl (e, lt)) = inl (e, lt)
      kept (inr h) =
          let (d, t) = ends-none_tail (bucket_index n.0) m ms h in
          inr (
            ends_there (bucket_index n.0) m (unlink p ms) d
            ∙ ends-unlink-none (bucket_index n.0) ms t)

  pub unlink-Grouped : (ns : List (ℕ × A)) → Grouped ns → Grouped (unlink p ns)
  unlink-Grouped [] g = tt
  unlink-Grouped (n ∷ ns) (l, g) = elim (Bool-cases (n.0 == p)) [
    | inl c ↦ rw c g
    | inr c ↦ rw c (Leads-unlink n ns l g, unlink-Grouped ns g)
  ]

module _ {A : Type 0} where
  -- Behind a node of a bucket, the bucket's next node is the next in the list.
  pub head_ends :
      (n : ℕ × A) (ns : List (ℕ × A)) (first last x : ℕ)
      → Leads n ns
      → ends (bucket_index n.0) ns ≡ some (first, last)
      → head_id x ns ≡ first
  unfolding ends
  head_ends n [] first last x l e = absurd (cc)
  head_ends n (m ∷ ms) first last x (inl (e, lt)) f =
      sym (ends_split (bucket_index n.0) m ms first last (sym e) f).0
  head_ends n (m ∷ ms) first last x (inr h) f = absurd (cc (sym h ∙ f))

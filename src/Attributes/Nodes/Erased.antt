-- ===== src/Attributes/Nodes/Erased.antt =====
-- What the list and the buckets are after `erase` in src/attribute_set_impl.hpp.
use log.Prelude.{
  ℕ, suc, ◌≡◌, refl, ap, ◌∙◌, sym, false, List, [], ◌∷◌, Option, none, some, arith, ◌==◌, inl, inr,
  Bool-cases, if◌then◌else◌, ==_iff, length,
}
use log.Attributes.Nodes.{Bucket, bucket_index, value_at, Table, erase, unlink, shrink}
use log.Attributes.Nodes.Grouped.{ends, Grouped, absent, absent_behind}
use log.Attributes.Nodes.Inserted.{Sound}
use log.Attributes.Nodes.Erasing.{unlink-Grouped, ends-unlink_other}
use log.Attributes.Nodes.Shrinking.{ends-unlink_own}

module _ {A : Type 0} where
  no_twin : (n : ℕ × A) (ns : List (ℕ × A)) → Grouped (n ∷ ns) → value_at ns n.0 ≡ none
  no_twin n [] g = refl
  no_twin n (m ∷ ms) (inl (e, lt), g) = ground (arith, lt, absent_behind m ms n.0 g (sym e) lt)
  no_twin n (m ∷ ms) (inr e, g) = absent (m ∷ ms) n.0 e

  value_taken :
      (q p k : ℕ) (u : A) (r : Option A)
      → q ≡ p
      → (q ≡ k → r ≡ none)
      → r ≡ (if k == p then none else if q == k then some u else r)
  value_taken q p k u r same twin = ground arith

  value_kept :
      (q p k : ℕ) (u : A) (r r' : Option A)
      → (q == p) ≡ false
      → r' ≡ (if k == p then none else r)
      → (if q == k then some u else r') ≡ (if k == p then none else if q == k then some u else r)
  value_kept q p k u r r' other h = ground (arith, h)

  pub value_at-unlink :
      (ns : List (ℕ × A)) (p k : ℕ)
      → Grouped ns
      → value_at (unlink p ns) k ≡ (if k == p then none else value_at ns k)
  value_at-unlink [] p k g = ground arith
  value_at-unlink (n ∷ ns) p k (l, g) = elim (Bool-cases (n.0 == p)) [
    | inl c ↦ rw c (
        value_taken n.0 p k n.1 (value_at ns k) ((==_iff _ _).0 c)
          (λ e. ap (value_at ns) (sym e) ∙ no_twin n ns (l, g)))
    | inr c ↦ rw c (value_kept n.0 p k n.1 (value_at ns k) _ c (value_at-unlink ns p k g))
  ]

  pub length-unlink :
      (ns : List (ℕ × A)) (p : ℕ) (u : A)
      → value_at ns p ≡ some u
      → suc (length (unlink p ns)) ≡ length ns
  length-unlink [] p u h = absurd (cc)
  length-unlink (n ∷ ns) p u h = ground (arith, length-unlink ns p u)

  shrink_buckets :
      (t : Table A) (key : ℕ) (u : A)
      → Sound t
      → value_at t.nodes key ≡ some u
      → ends (bucket_index key) (unlink key t.nodes)
        ≡ shrink t.nodes key (t.buckets (bucket_index key))
  shrink_buckets t key u s h =
      rw (s.linked (bucket_index key)) (go (ends (bucket_index key) t.nodes) refl)
    where
      go :
          (b : Bucket)
          → ends (bucket_index key) t.nodes ≡ b
          → ends (bucket_index key) (unlink key t.nodes) ≡ shrink t.nodes key b
      go none e = absurd (cc (sym h ∙ absent t.nodes key e))
      go (some (first, last)) e = ends-unlink_own key t.nodes first last u s.grouped h e

  pub erase-Sound :
      (t : Table A) (key : ℕ) (u : A)
      → Sound t
      → value_at t.nodes key ≡ some u
      → Sound (erase t key)
  unfolding erase
  erase-Sound t key u s h = record {
    grouped = unlink-Grouped key t.nodes s.grouped;
    linked = λ b. elim (Bool-cases (b == bucket_index key)) [
      | inl c ↦ rw (c, (==_iff b (bucket_index key)).0 c) (sym (shrink_buckets t key u s h))
      | inr c ↦
          rw c (
            s.linked b ∙ sym (ends-unlink_other key b t.nodes (λ e. absurd (ground (arith, c, e)))))
    ];
  }

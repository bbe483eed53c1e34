-- ===== src/Attributes/Values/Freezing.antt =====
-- The values of all attributes of three sets: `freeze_nodes_from` and `freeze` in
-- src/attribute_value_set.cpp.
use mathlib.Core.Path.{subst}
use log.Prelude.{
  ℕ, ◌≡◌, refl, ap, ◌∙◌, sym, true, false, List, [], ◌∷◌, Option, none, some, arith, ◌==◌, inl, inr,
  Bool-cases, if◌then◌else◌, ==_iff,
}
use log.Attributes.Nodes.{Table, value_at}
use log.Attributes.Nodes.Finding.{find_lem}
use log.Attributes.Nodes.Inserted.{Sound, located}
use log.Attributes.Nodes.Mapping.{or_else}
use log.Attributes.Values.{
  ValueSet, attribute_in, add_value, freeze_one, freeze_nodes_from, freeze_set,
}
use log.Attributes.Values.Adding.{acquired, IsSound, add_value_lem, acquired-add_value}

-- A set that is not there, or is sound.
abbrev pub IsSoundSet : {A : Type 0} → Option (Table A) → Type 0
IsSoundSet none = Unit {0}
IsSoundSet (some attrs) = Sound attrs

module _ {A V World : Type 0} (get_value : A → World → V × World) where
  -- What becomes of a key: a value acquired before stays, or else the attribute gives one, in
  -- whatever world that was; a key with neither has none.
  abbrev pub Settled : Option V → Option A → Option V → Type 0
  Settled (some v) a new = new ≡ some v
  Settled none (some a) new = (w : World) × (new ≡ some (get_value a w).0)
  Settled none none new = new ≡ none

  pub Settled-then :
      (old mid new : Option V) (a b : Option A)
      → Settled old a mid
      → Settled mid b new
      → Settled old (or_else a b) new
  Settled-then (some v) mid new a b h k = subst (λ m. Settled m b new) h k
  Settled-then none mid new (some a) b (w, h) k = (w, subst (λ m. Settled m b new) h k)
  Settled-then none mid new none b h k = subst (λ m. Settled m b new) h k

  Settled-by_none : (old new : Option V) → new ≡ old → Settled old none new
  Settled-by_none none new h = h
  Settled-by_none (some v) new h = h

  freeze_one_lem :
      (s : ValueSet A V) (n : ℕ × A) (w : World)
      → IsSound s
      → IsSound (freeze_one get_value s n w).0
        × ((k : ℕ)
            → Settled
                (acquired s k)
                (if n.0 == k then some n.1 else none)
                (acquired (freeze_one get_value s n w).0 k))
  unfolding freeze_one
  freeze_one_lem s n w d = elim (located n.0 s.values d) [
    | inl (c, (u, h)) ↦ rw c (d, λ k. there u h k)
    | inr (c, h) ↦ rw c ((add_value_lem s n.0 (get_value n.1 w).0 d h).0, λ k. new h k)
  ]
    where
      there :
          (u : V)
          → acquired s n.0 ≡ some u
          → (k : ℕ) → Settled (acquired s k) (if n.0 == k then some n.1 else none) (acquired s k)
      there u h k = elim (Bool-cases (n.0 == k)) [
        | inl c ↦ let e = ap (acquired s) (sym ((==_iff n.0 k).0 c)) ∙ h in rw (c, e) refl
        | inr c ↦ rw c (Settled-by_none (acquired s k) (acquired s k) refl)
      ]

      new :
          acquired s n.0 ≡ none
          → (k : ℕ)
          → Settled
              (acquired s k)
              (if n.0 == k then some n.1 else none)
              (acquired (add_value s n.0 (get_value n.1 w).0) k)
      new h k = elim (Bool-cases (n.0 == k)) [
        | inl c ↦
            let e = ap (acquired s) (sym ((==_iff n.0 k).0 c)) ∙ h in
            let c' : (k == n.0) ≡ true = ground (arith, c) in
            let pick : (if k == n.0 then some (get_value n.1 w).0 else acquired s k)
                ≡ some (get_value n.1 w).0 =
              rw c' refl in
            rw (c, e) (w, acquired-add_value s n.0 (get_value n.1 w).0 d h k ∙ pick)
        | inr c ↦
            let c' : (k == n.0) ≡ false = ground (arith, c) in
            let pick : (if k == n.0 then some (get_value n.1 w).0 else acquired s k)
                ≡ acquired s k =
              rw c' refl in
            rw c (
              Settled-by_none (acquired s k) _
                (acquired-add_value s n.0 (get_value n.1 w).0 d h k ∙ pick))
      ]

  or_else-value_at :
      (n : ℕ × A) (ns : List (ℕ × A)) (k : ℕ)
      → or_else (if n.0 == k then some n.1 else none) (value_at ns k) ≡ value_at (n ∷ ns) k
  or_else-value_at n ns k = elim (Bool-cases (n.0 == k)) [ inl c ↦ rw c refl | inr c ↦ rw c refl ]

  pub freeze_nodes_from_lem :
      (s : ValueSet A V) (ns : List (ℕ × A)) (w : World)
      → IsSound s
      → IsSound (freeze_nodes_from get_value s ns w).0
        × ((k : ℕ)
            → Settled
                (acquired s k)
                (value_at ns k)
                (acquired (freeze_nodes_from get_value s ns w).0 k))
  freeze_nodes_from_lem s [] w d = (d, λ k. Settled-by_none (acquired s k) _ refl)
  freeze_nodes_from_lem s (n ∷ ns) w d =
      let (d', a) = freeze_one_lem s n w d in
      let (d'', b) =
        freeze_nodes_from_lem (freeze_one get_value s n w).0 ns (freeze_one get_value s n w).1 d' in
      (
        d'',
        λ k.
            subst
              (λ o.
                Settled (acquired s k) o (acquired (freeze_nodes_from get_value s (n ∷ ns) w).0 k))
              (or_else-value_at n ns k)
              (Settled-then (acquired s k) _ _ (if n.0 == k then some n.1 else none) (value_at ns k)
                (a k) (b k)),
      )

  pub freeze_set_lem :
      (attrs : Option (Table A)) (s : ValueSet A V) (w : World)
      → IsSoundSet attrs
      → IsSound s
      → IsSound (freeze_set get_value attrs s w).0
        × ((k : ℕ)
            → Settled
                (acquired s k)
                (attribute_in attrs k)
                (acquired (freeze_set get_value attrs s w).0 k))
  freeze_set_lem none s w d e = (e, λ k. Settled-by_none (acquired s k) _ refl)
  freeze_set_lem (some attrs) s w d e =
      let (a, b) = freeze_nodes_from_lem s attrs.nodes w e in
      (a, λ k. rw (find_lem k attrs d.grouped d.linked) (b k))

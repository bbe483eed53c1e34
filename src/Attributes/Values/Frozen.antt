-- ===== src/Attributes/Values/Frozen.antt =====
-- A set of values after `freeze`, and its copies: src/attribute_value_set.cpp.
use mathlib.Core.Path.{subst}
use log.Prelude.{
  ℕ, ◌≡◌, refl, ap, ◌∙◌, sym, List, [], ◌∷◌, Option, none, some, inl, inr, Bool-cases,
}
use log.Attributes.Nodes.{Table, is_at}
use log.Attributes.Nodes.Mapping.{or_else}
use log.Attributes.Values.{
  ValueSet, attribute_in, first_of, add_node, place_of, freeze_one, freeze_nodes_from, freeze_set,
  freeze_source, freeze_thread, freeze,
}
use log.Attributes.Values.Adding.{acquired, offered, IsSound}
use log.Attributes.Values.Freezing.{IsSoundSet, Settled, Settled-then, freeze_set_lem}

module _ {A V : Type 0} where
  -- The pointers to the attribute sets.
  abbrev pub sets_of : ValueSet A V → Option (Table A) × Option (Table A) × Option (Table A)
  sets_of s = (s.source_attributes, s.thread_attributes, s.global_attributes)

module _ {A V World : Type 0} (get_value : A → World → V × World) where
  freeze_one-sets :
      (s : ValueSet A V) (n : ℕ × A) (w : World)
      → sets_of (freeze_one get_value s n w).0 ≡ sets_of s
  unfolding freeze_one add_node
  freeze_one-sets s n w = elim (Bool-cases (is_at (place_of s n.0) n.0)) [
    | inl c ↦ rw c refl
    | inr c ↦ rw c refl
  ]

  freeze_nodes_from-sets :
      (s : ValueSet A V) (ns : List (ℕ × A)) (w : World)
      → sets_of (freeze_nodes_from get_value s ns w).0 ≡ sets_of s
  freeze_nodes_from-sets s [] w = refl
  freeze_nodes_from-sets s (n ∷ ns) w =
      freeze_nodes_from-sets (freeze_one get_value s n w).0 ns (freeze_one get_value s n w).1
      ∙ freeze_one-sets s n w

  pub freeze_set-sets :
      (attrs : Option (Table A)) (s : ValueSet A V) (w : World)
      → sets_of (freeze_set get_value attrs s w).0 ≡ sets_of s
  freeze_set-sets none s w = refl
  freeze_set-sets (some attrs) s w = freeze_nodes_from-sets s attrs.nodes w

  first_of-or_else : (a b c : Option A) → or_else a (or_else b c) ≡ first_of a b c
  first_of-or_else (some a) b c = refl
  first_of-or_else none (some b) c = refl
  first_of-or_else none none c = refl

  -- `freeze` of a sound set with sound attribute sets, whose attributes do not throw when they are
  -- asked for their values: every key's value stays, or else is one that
  -- the first attribute with the key gave, of the source, the thread and the global set in this
  -- order; a key with neither has none. No attribute set is left, and the set stays sound.
  pub freeze_lem :
      (s : ValueSet A V) (w : World)
      → IsSound s
      → IsSoundSet s.source_attributes
      → IsSoundSet s.thread_attributes
      → IsSoundSet s.global_attributes
      → IsSound (freeze get_value s w).0
        × ((k : ℕ)
            → Settled get_value (acquired s k) (offered s k) (acquired (freeze get_value s w).0 k))
        × (sets_of (freeze get_value s w).0 ≡ (none, none, none))
  unfolding freeze
  freeze_lem s w d a b c =
      let r = freeze_source get_value s w in
      let (d1, x) = freeze_set_lem get_value s.source_attributes s w a d in
      let e1 = freeze_set-sets s.source_attributes s w in
      let thread : r.0.thread_attributes ≡ s.thread_attributes = ap (λ q. q.1) e1 in
      let (d2, y) =
        freeze_set_lem get_value r.0.thread_attributes r.0 r.1 (subst IsSoundSet (sym thread) b)
          d1 in
      let r' = freeze_thread get_value r.0 r.1 in
      let e2 = freeze_set-sets r.0.thread_attributes r.0 r.1 in
      let global : r'.0.global_attributes ≡ s.global_attributes =
        ap (λ q. q.2) e2 ∙ ap (λ q. q.2) e1 in
      let (d3, z) =
        freeze_set_lem get_value r'.0.global_attributes r'.0 r'.1 (subst IsSoundSet (sym global) c)
          d2 in
      let e3 = freeze_set-sets r'.0.global_attributes r'.0 r'.1 in
      (
        d3,
        λ k.
            let y' =
              subst (λ o. Settled get_value (acquired r.0 k) (attribute_in o k) (acquired r'.0 k))
                thread (y k) in
            let z' =
              subst
                (λ o.
                  Settled get_value (acquired r'.0 k) (attribute_in o k)
                    (acquired (freeze get_value s w).0 k))
                global (z k) in
            subst (λ o. Settled get_value (acquired s k) o (acquired (freeze get_value s w).0 k))
              (first_of-or_else (attribute_in s.source_attributes k)
                (attribute_in s.thread_attributes k) (attribute_in s.global_attributes k))
              (Settled-then get_value _ _ _ (attribute_in s.source_attributes k) _ (x k)
                (Settled-then get_value _ _ _ (attribute_in s.thread_attributes k) _ y' z')),
        ap (λ q. (q.0, q.1, none)) e3 ∙ ap (λ q. (q.0, none, none)) e2,
      )

-- ===== src/Attributes/Values/Calls.antt =====
-- Calls of a set of values in any sequence: what was seen once does not change
-- (src/attribute_value_set.cpp).
use mathlib.Core.Path.{subst}
use log.Prelude.{
  ℕ, ◌≡◌, refl, ap, ◌∙◌, sym, List, [], ◌∷◌, Option, none, some, ◌==◌, inl, inr, Bool-cases,
  if◌then◌else◌, ==_iff,
}
use log.Attributes.Nodes.{is_at}
use log.Attributes.Nodes.Mapping.{or_else}
use log.Attributes.Values.{ValueSet, add_node, place_of, insert, acquire, find_value, freeze}
use log.Attributes.Values.Adding.{
  acquired, offered, IsSound, insert-acquired, find_value_lem, value_of,
}
use log.Attributes.Values.Freezing.{IsSoundSet, Settled}
use log.Attributes.Values.Frozen.{sets_of, freeze_lem}

pub data Call (V : Type 0) : Type 0 where
  look : ℕ → Call V
  put : ℕ → V → Call V
  freeze_all : Call V

module _ {A V : Type 0} where
  -- A sound set of sound attribute sets.
  pub record IsWellFormed (s : ValueSet A V) : Type 0 where
    pub values_sound : IsSound s
    pub source_sound : IsSoundSet s.source_attributes
    pub thread_sound : IsSoundSet s.thread_attributes
    pub global_sound : IsSoundSet s.global_attributes

  with_sets :
      (s s' : ValueSet A V) → sets_of s' ≡ sets_of s → IsWellFormed s → IsSound s' → IsWellFormed s'
  with_sets s s' e f d = record {
    values_sound = d;
    source_sound = subst IsSoundSet (ap (λ q. q.0) (sym e)) f.source_sound;
    thread_sound = subst IsSoundSet (ap (λ q. q.1) (sym e)) f.thread_sound;
    global_sound = subst IsSoundSet (ap (λ q. q.2) (sym e)) f.global_sound;
  }

  abbrev pub Keeps : ValueSet A V → ValueSet A V → Type 0
  Keeps s s' = (k : ℕ) (v : V) → acquired s k ≡ some v → acquired s' k ≡ some v

module _ {A V World : Type 0} (get_value : A → World → V × World) where
  unfoldable pub call : ValueSet A V × World → Call V → ValueSet A V × World
  call (s, w) (look key) = let r = find_value get_value s key w in (r.0, r.2)
  call (s, w) (put key v) = ((insert s key v).0, w)
  call (s, w) freeze_all = freeze get_value s w

  abbrev pub call_all : ValueSet A V × World → List (Call V) → ValueSet A V × World
  call_all s [] = s
  call_all s (c ∷ cs) = call_all (call s c) cs

  acquire-sets :
      (s : ValueSet A V) (key : ℕ) (o : Option A) (w : World)
      → sets_of (acquire get_value s key o w).0 ≡ sets_of s
  unfolding acquire add_node
  acquire-sets s key none w = refl
  acquire-sets s key (some a) w = refl

  find_value-sets :
      (s : ValueSet A V) (key : ℕ) (w : World)
      → sets_of (find_value get_value s key w).0 ≡ sets_of s
  unfolding find_value
  find_value-sets s key w = elim (Bool-cases (is_at (place_of s key) key)) [
    | inl c ↦ rw c refl
    | inr c ↦ rw c (acquire-sets s key (offered s key) w)
  ]

  insert-sets : (s : ValueSet A V) (key : ℕ) (v : V) → sets_of (insert s key v).0 ≡ sets_of s
  unfolding insert add_node
  insert-sets s key v = elim (Bool-cases (is_at (place_of s key) key)) [
    | inl c ↦ rw c refl
    | inr c ↦ rw c refl
  ]

  keeps_by :
      (key : ℕ) (old new : ℕ → Option V) (o : Option V)
      → ((v : V) → old key ≡ some v → o ≡ some v)
      → ((k : ℕ) → new k ≡ (if k == key then o else old k))
      → (k : ℕ) (v : V) → old k ≡ some v
      → new k ≡ some v
  keeps_by key old new o same e k v h = elim (Bool-cases (k == key)) [
    | inl c ↦ e k ∙ rw c (same v (ap old (sym ((==_iff k key).0 c)) ∙ h))
    | inr c ↦ e k ∙ rw c h
  ]

  call_lem :
      (s : ValueSet A V) (w : World) (c : Call V)
      → IsWellFormed s
      → IsWellFormed (call (s, w) c).0 × Keeps s (call (s, w) c).0
  unfolding call
  call_lem s w (look key) f =
      let (d, e, g) = find_value_lem get_value s key w f.values_sound in
      (
        with_sets s _ (find_value-sets s key w) f d,
        keeps_by key (acquired s) _ (find_value get_value s key w).1
            (λ v h. ap (λ r. r.0) e ∙ ap (λ o. (value_of get_value o (offered s key) w).0) h) g,
      )
  call_lem s w (put key v) f =
      let (d, e, _) = insert-acquired s key v f.values_sound in
      (
        with_sets s _ (insert-sets s key v) f d,
        keeps_by key (acquired s) _ (or_else (acquired s key) (some v))
            (λ u h. ap (λ o. or_else o (some v)) h) e,
      )
  call_lem s w freeze_all f =
      let (d, e, g) =
        freeze_lem get_value s w f.values_sound f.source_sound f.thread_sound f.global_sound in
      (
        record {
          values_sound = d;
          source_sound = subst IsSoundSet (ap (λ q. q.0) (sym g)) tt;
          thread_sound = subst IsSoundSet (ap (λ q. q.1) (sym g)) tt;
          global_sound = subst IsSoundSet (ap (λ q. q.2) (sym g)) tt;
        },
        λ k v h.
            let at = acquired (freeze get_value s w).0 k in
            subst (λ o. Settled get_value o (offered s k) at) h (e k),
      )

  -- Through any sequence of searches, insertions and freezings of a sound set with sound attribute
  -- sets, whose attributes do not throw when they are asked for their values, it and they stay sound, and a value that is acquired at the beginning is still the value
  -- of its key at the end.
  pub call_all_lem :
      (s : ValueSet A V) (w : World) (cs : List (Call V))
      → IsWellFormed s
      → IsWellFormed (call_all (s, w) cs).0 × Keeps s (call_all (s, w) cs).0
  call_all_lem s w [] f = (f, λ k v h. h)
  call_all_lem s w (c ∷ cs) f =
      let (g, x) = call_lem s w c f in
      let r = call (s, w) c in
      let (g', y) = call_all_lem r.0 r.1 cs g in (g', λ k v h. y k v (x k v h))

-- ===== src/Core/Sinks/Registry.antt =====
-- The list of sinks as a set: what a history of `add_sink`, `remove_sink` and `remove_all_sinks`
-- leaves registered.
use mathlib.Core.Path.{fun_ext}
use log.Prelude.{
  ℕ, ◌≡◌, refl, ◌∙◌, ap, Bool, false, not, List, [], ◌∷◌, ◌++◌, arith, ◌==◌, ◌||◌, ◌&&◌,
}
use log.Core.Env.{Env}
use log.Core.Sinks.{Core, contains, erase, add_sink, remove_sink, remove_all_sinks}

pub data Change : Type 0 where
  adds removes : ℕ → Change
  removes_all : Change

-- No sink is registered twice.
abbrev pub Distinct : List ℕ → Type 0
Distinct [] = Unit {0}
Distinct (x ∷ xs) = (contains xs x ≡ false) × Distinct xs

contains-append : (xs : List ℕ) (s t : ℕ) → contains (xs ++ s ∷ []) t ≡ (contains xs t || s == t)
unfolding contains
contains-append [] s t = ground arith
contains-append (x ∷ xs) s t = ground (arith, contains-append xs s t)

append-Distinct :
    (xs : List ℕ) (s : ℕ) → Distinct xs → contains xs s ≡ false → Distinct (xs ++ s ∷ [])
unfolding contains
append-Distinct [] s d h = (refl, tt)
append-Distinct (x ∷ xs) s (e, d) h =
    (ground (arith, contains-append xs s x), append-Distinct xs s d (ground arith))

contains-erase :
    (xs : List ℕ) (s t : ℕ)
    → Distinct xs
    → contains (erase xs s) t ≡ (contains xs t && not (s == t))
unfolding contains erase
contains-erase [] s t d = refl
contains-erase (x ∷ xs) s t (e, d) = ground (arith, contains-erase xs s t d)

erase-Distinct : (xs : List ℕ) (s : ℕ) → Distinct xs → Distinct (erase xs s)
unfolding contains erase
erase-Distinct [] s d = tt
erase-Distinct (x ∷ xs) s (e, d) = ground (arith, contains-erase xs s x d, erase-Distinct xs s d)

module _ {env : Env} {G : Type 0} where
  pub change : Core env G → Change → Core env G
  change c (adds s) = add_sink c s
  change c (removes s) = remove_sink c s
  change c removes_all = remove_all_sinks c

  pub changes : Core env G → List Change → Core env G
  changes c [] = c
  changes c (h ∷ hs) = changes (change c h) hs

-- The set that a history leaves.
abbrev pub spec_change : (ℕ → Bool) → Change → ℕ → Bool
spec_change member (adds s) t = member t || s == t
spec_change member (removes s) t = member t && not (s == t)
spec_change member removes_all t = false

abbrev pub spec_changes : (ℕ → Bool) → List Change → ℕ → Bool
spec_changes member [] = member
spec_changes member (h ∷ hs) = spec_changes (spec_change member h) hs

module _ {env : Env} {G : Type 0} where
  change_lem :
      (c : Core env G) (h : Change) (t : ℕ)
      → Distinct c.sinks
      → contains (change c h).sinks t ≡ spec_change (contains c.sinks) h t
  unfolding change add_sink remove_sink remove_all_sinks contains
  change_lem c (adds s) t d = ground (arith, contains-append c.sinks s t)
  change_lem c (removes s) t d = ground (arith, contains-erase c.sinks s t d)
  change_lem c removes_all t d = refl

  change-Distinct : (c : Core env G) (h : Change) → Distinct c.sinks → Distinct (change c h).sinks
  unfolding change add_sink remove_sink remove_all_sinks
  change-Distinct c (adds s) d = ground (arith, append-Distinct c.sinks s)
  change-Distinct c (removes s) d = ground (arith, erase-Distinct c.sinks s d)
  change-Distinct c removes_all d = tt

  -- From a list without duplicates, the list of sinks behaves as a set: no history of `add_sink`, `remove_sink` and
  -- `remove_all_sinks` registers a sink twice, and a sink is registered afterwards exactly if the
  -- same history of insertions into a set and deletions from it leaves it there.
  pub changes_refine :
      (c : Core env G) (hs : List Change)
      → Distinct c.sinks
      → Distinct (changes c hs).sinks
        × ((t : ℕ) → contains (changes c hs).sinks t ≡ spec_changes (contains c.sinks) hs t)
  unfolding changes
  changes_refine c [] d = (d, λ t. refl)
  changes_refine c (h ∷ hs) d =
      let (kept, same) = changes_refine (change c h) hs (change-Distinct c h d) in
      (kept, λ t. same t ∙ ap (λ f. spec_changes f hs t) (fun_ext (λ u. change_lem c h u d)))

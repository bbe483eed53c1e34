-- ===== src/Core/Opening/Exact.antt =====
-- The sinks that a record is opened for, where no filter throws.
use mathlib.Core.List.{append-nil, append_assoc}
use log.Prelude.{
  ℕ, ◌≡◌, ◌↔◌, refl, sym, ap, ◌∙◌, Bool, true, List, [], ◌∷◌, ◌++◌, Option, none, some, arith,
  length, ◌==◌, if◌then◌else◌, Bool-cases, inl, inr,
}
use log.Core.Env.{Env, Reply, returned, thrown, Handler, bind}
use log.Core.Sinks.{Core}
use log.Core.Opening.{
  Private, accept, current, apply_sink_filter, filter_sinks, freeze_values, targets, settle,
  ask_sinks, attempt, caught, open_record, done,
}

abbrev pub select : (ℕ → Bool) → List ℕ → List ℕ
select f [] = []
select f (s ∷ ss) = if f s then s ∷ select f ss else select f ss

empty : (l : List ℕ) → (length l == 0) ≡ true → l ≡ []
empty [] h = refl
empty (x ∷ l) h = absurd (ground arith)

module _ {env : Env} where
  -- The accepting sinks of what `open_record` gives.
  abbrev pub held : Option (Private env) → List ℕ
  held none = []
  held (some p) = p.accepting

  abbrev pub accepted : Reply (Option (Private env)) → List ℕ
  accepted (returned r) = held r
  accepted thrown = []

  held-accept :
      (impl : Option (Private env)) (v : env.Values) (n s : ℕ)
      → held (some (accept impl v n s)) ≡ held impl ++ s ∷ []
  held-accept none v n s = refl
  held-accept (some p) v n s = refl

  current-accept :
      (impl : Option (Private env)) (v : env.Values) (n s : ℕ)
      → current impl v ≡ v
      → current (some (accept impl v n s)) v ≡ v
  current-accept none v n s e = refl
  current-accept (some p) v n s e = e

  module _ (handler : Handler env) (v : env.Values) (accepts : ℕ → Bool)
      (quiet : (s : ℕ) (w : env.World) → env.will_consume s v w ≡ (returned (accepts s), w)) where
    one_lem :
        (s : ℕ) (impl : Option (Private env)) (n : ℕ) (w : env.World)
        → current impl v ≡ v
        → apply_sink_filter handler s impl v n w
          ≡ (returned (if accepts s then some (accept impl v n s) else impl), w)
    unfolding apply_sink_filter
    one_lem s impl n w e = rw e (ground (arith, quiet s w))

    loop_lem :
        (ss : List ℕ) (impl : Option (Private env)) (w : env.World)
        → current impl v ≡ v
        → (next : Option (Private env)) × (filter_sinks handler ss impl v w ≡ (returned next, w))
          × (held next ≡ held impl ++ select accepts ss)
          × (current next v ≡ v)
    unfolding filter_sinks bind
    loop_lem [] impl w e = (impl, refl, sym (append-nil (held impl)), e)
    loop_lem (s ∷ ss) impl w e = elim (Bool-cases (accepts s)) [
      | inl y ↦
          let (next, run, sinks, cur) =
            loop_lem ss (some (accept impl v (length (s ∷ ss)) s)) w
              (current-accept impl v _ s e) in
          (
            next,
            rw (one_lem s impl (length (s ∷ ss)) w e, y) run,
            rw y (
                sinks
                ∙ ap (λ l. l ++ select accepts ss) (held-accept impl v _ s)
                ∙ append_assoc (held impl) (s ∷ []) (select accepts ss)),
            cur,
          )
      | inr n ↦
          let (next, run, sinks, cur) = loop_lem ss impl w e in
          (next, rw (one_lem s impl (length (s ∷ ss)) w e, n) run, rw n sinks, cur)
    ]

  freeze_lem :
      (impl : Option (Private env)) (v : env.Values) (w : env.World)
      → current impl v ≡ v
      → ((w' : env.World) → (v' : env.Values) × ((env.freeze v w').0 ≡ returned v'))
      → (r : Option (Private env)) × ((freeze_values impl v w).0 ≡ done r)
        × (held r ≡ held impl)
        × ((r ≡ none) ↔ (held impl ≡ []))
  unfolding freeze_values
  freeze_lem none v w e thaws =
      let (v', f) = thaws w in (none, rw (f, freeze_values) refl, refl, ((λ _. refl), (λ _. refl)))
  freeze_lem (some p) v w e thaws = elim (Bool-cases (length p.accepting == 0)) [
    | inl z ↦
        (none, ground arith, sym (empty p.accepting z), ((λ _. empty p.accepting z), (λ _. refl)))
    | inr n ↦
        let (v', f) = thaws w in
        let g : (env.freeze p.values w).0 ≡ returned v' = rw e f in
        (
          some (record p { values = v' }),
          ground arith,
          refl,
          ((λ h. absurd (ground arith)), (λ h. absurd (ground (arith, ap length h)))),
        )
  ]

  module _ {G : Type 0} (c : Core env G) (v : env.Values) (accepts : ℕ → Bool) where
    -- With logging enabled and a global filter that passes the values, where the answer of each
    -- sink's filter on these values depends on the sink alone and changes nothing, and where
    -- freezing never throws, `open_record` returns a record for exactly the sinks that accept it,
    -- in the order of registration; the default sink is asked where no sink is
    -- registered, and no record is made where no sink accepts.
    pub open_record_exact :
        (w : env.World)
        → c.enabled ≡ true
        → (c.filter v w).0 ≡ returned true
        → ((s : ℕ) (w' : env.World) → env.will_consume s v w' ≡ (returned (accepts s), w'))
        → ((w' : env.World) → (v' : env.Values) × ((env.freeze v w').0 ≡ returned v'))
        → (r : Option (Private env)) × ((open_record c v true w).0 ≡ returned r)
          × (held r ≡ select accepts (targets c.sinks c.default_sink))
          × ((r ≡ none) ↔ (select accepts (targets c.sinks c.default_sink) ≡ []))
    unfolding open_record ask_sinks settle attempt caught
    open_record_exact w on passes quiet thaws =
        let w' = (c.filter v w).1 in
        let (next, run, sinks, cur) =
          loop_lem c.exception_handler v accepts quiet (targets c.sinks c.default_sink) none w'
            refl in
        let (r, frozen, same, nothing) = freeze_lem next v w' cur thaws in
        let asked : (ask_sinks c v w').0 ≡ done r = rw run frozen in
        let tried : (attempt c v true w).0 ≡ done r = ground arith in
        (
          r,
          ground arith,
          same ∙ sinks,
          ((λ e. sym sinks ∙ nothing.0 e), (λ e. nothing.1 (sinks ∙ e))),
        )

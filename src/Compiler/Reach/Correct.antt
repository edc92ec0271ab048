-- ===== src/Compiler/Reach/Correct.antt =====
-- What the walk returns is the set of the ids that transitions lead to from the entry.
use skill2workflow.Prelude.{
  ℕ, zero, suc, ◌*◌, length, String, ◌≡◌, Bool, true, ◌||◌, some, List, [], ◌∷◌, ◌++◌, arith, ◌==◌,
  ◌⊎◌, ◌↔◌, eq_iff, eq_refl, inl, inr, Bool-cases, Option-cases,
}
use skill2workflow.Texts.{elem, elem-append, elem-either}
use skill2workflow.Json.{Json, str, Fields, get_null}
use skill2workflow.Result.{ok}
use skill2workflow.Compiler.Tables.{Table, find}
use skill2workflow.Compiler.Nodes.{transition_keys}
use skill2workflow.Compiler.Reach.{known_target, push_targets, visit, search, reachable_nodes}
use skill2workflow.Compiler.Reach.Ends.{IsKnown, known_target-one}

module _ (nodes : Table Fields) where
  -- Under one of the keys, the node names an id of the map.
  abbrev pub Targets : Fields → List String → String → Type 0
  Targets node ks t =
      (k : String) × (elem k ks ≡ true) × (get_null k node ≡ str t) × IsKnown nodes t

  -- The ids that transitions lead to from the entry.
  pub data Reaches (entry : String) : String → Type 0 where
    at_entry : Reaches entry entry
    by_transition :
        {id t : String} {node : Fields}
        → Reaches entry id
        → find (str id) nodes ≡ some node
        → Targets node transition_keys t
        → Reaches entry t

  known_target-elem :
      (v : Json) (t : String) → v ≡ str t → IsKnown nodes t → elem t (known_target nodes v) ≡ true
  unfolding known_target elem
  known_target-elem v t e (node, p) = rw (e, known_target, p) (ground (arith, eq_refl t))

  elem-push_targets :
      (node : Fields) (ks stack : List String) (t : String)
      → elem t stack ≡ true
      → elem t (push_targets nodes node ks stack) ≡ true
  unfolding push_targets
  elem-push_targets node [] stack t h = h
  elem-push_targets node (k ∷ ks) stack t h =
      let here = known_target nodes (get_null k node) in
      elem-push_targets node ks (here ++ stack) t (ground (arith, elem-either t here stack))

  Targets-push_targets :
      (node : Fields) (ks stack : List String) (t : String)
      → Targets node ks t
      → elem t (push_targets nodes node ks stack) ≡ true
  unfolding push_targets elem
  Targets-push_targets node [] stack t (k, m, e, known) = cc
  Targets-push_targets node (j ∷ ks) stack t (k, m, e, known) =
      let here = known_target nodes (get_null j node) in
      elim (Bool-cases (j == k)) [
        | inl p ↦
            let same_key : j ≡ k = ground (arith, eq_iff j k) in
            let first = known_target-elem (get_null j node) t (rw same_key e) known in
            elem-push_targets node ks (here ++ stack) t (ground (arith, elem-either t here stack))
        | inr p ↦ Targets-push_targets node ks (here ++ stack) t (k, ground arith, e, known)
      ]

  push_targets-Targets :
      (node : Fields) (ks stack : List String) (t : String)
      → elem t (push_targets nodes node ks stack) ≡ true
      → Targets node ks t ⊎ (elem t stack ≡ true)
  unfolding push_targets elem
  push_targets-Targets node [] stack t h = inr h
  push_targets-Targets node (j ∷ ks) stack t h =
      let here = known_target nodes (get_null j node) in
      elim (push_targets-Targets node ks (here ++ stack) t h) [
        | inl (k, m, e, known) ↦ inl (k, ground arith, e, known)
        | inr p ↦ elim (elem-append t here stack p) [
          | inl q ↦
              let (e, known) = known_target-one nodes (get_null j node) t q in
              inl (j, ground (arith, eq_refl j), e, known)
          | inr q ↦ inr q
        ]
      ]

  module _ (entry : String) where
    abbrev held : List String → List String → String → Bool
    held seen stack t = elem t seen || elem t stack

    -- What a round of the walk keeps.
    record IsWalk (seen : List String) (stack : List String) : Type 0 where
      pub sound : (t : String) → held seen stack t ≡ true → Reaches entry t
      pub closed :
          (id t : String) (node : Fields)
          → elem id seen ≡ true
          → find (str id) nodes ≡ some node
          → Targets node transition_keys t
          → held seen stack t ≡ true
      pub started : held seen stack entry ≡ true

    pass_over :
        (id : String) (seen stack : List String)
        → elem id seen ≡ true
        → IsWalk seen (id ∷ stack)
        → IsWalk seen stack
    unfolding elem
    pass_over id seen stack p w =
        let drop : (t : String) → held seen (id ∷ stack) t ≡ held seen stack t =
          λ t. ground (arith, eq_iff id t) in
        record {
          sound = λ t h. w.sound t (rw (drop t) h);
          closed = λ k t node m f s. rw (← drop t) (w.closed k t node m f s);
          started = rw (← drop entry) w.started;
        }

    go_on :
        (id : String) (seen stack : List String) (node : Fields)
        → find (str id) nodes ≡ some node
        → IsWalk seen (id ∷ stack)
        → IsWalk (id ∷ seen) (push_targets nodes node transition_keys stack)
    unfolding elem
    go_on id seen stack node p w =
        let after = push_targets nodes node transition_keys stack in
        let keep : (t : String)
            → held seen (id ∷ stack) t ≡ true
            → held (id ∷ seen) after t ≡ true =
          λ t h. ground (arith, elem-push_targets node transition_keys stack t) in
        record {
          sound = λ t h. elim (Bool-cases (held seen (id ∷ stack) t)) [
            | inl q ↦ w.sound t q
            | inr q ↦ elim (push_targets-Targets node transition_keys stack t (ground arith)) [
              | inl s ↦ by_transition (w.sound id (ground (arith, eq_refl id))) p s
              | inr s ↦ w.sound t (ground arith)
            ]
          ];
          closed = λ k t other m f s. elim (Bool-cases (elem k seen)) [
            | inl q ↦ keep t (w.closed k t other q f s)
            | inr q ↦
                let e : id ≡ k = ground (arith, eq_iff id k) in
                let same_node : other ≡ node =
                  (let f' : find (str id) nodes ≡ some other = rw e f in cc) in
                let pushed =
                  Targets-push_targets node transition_keys stack t (rw (← same_node) s) in
                ground arith
          ];
          started = keep entry w.started;
        }

    search-IsWalk :
        (rounds : ℕ) (seen stack after : List String)
        → IsWalk seen stack
        → search nodes rounds seen stack ≡ ok after
        → IsWalk after []
    unfolding search visit
    search-IsWalk rounds seen [] after w h = (let e : seen ≡ after = cc in rw (← e) w)
    search-IsWalk zero seen (id ∷ stack) after w h = cc
    search-IsWalk (suc rounds) seen (id ∷ stack) after w h = elim (Bool-cases (elem id seen)) [
      | inl p ↦
          search-IsWalk rounds seen stack after (pass_over id seen stack p w)
            (rw (p, search, visit) at h)
      | inr p ↦ elim (Option-cases (find (str id) nodes)) [
        | inl q ↦ (let wrong = rw (p, q, search, visit) at h in cc)
        | inr (node, q) ↦
            search-IsWalk rounds (id ∷ seen) (push_targets nodes node transition_keys stack) after
              (go_on id seen stack node q w) (rw (p, q, search, visit) at h)
      ]
    ]

    start-IsWalk : IsWalk [] (entry ∷ [])
    unfolding elem
    start-IsWalk = record {
      sound = λ t h. let e : entry ≡ t = ground (arith, eq_iff entry t) in rw (← e) at_entry;
      closed = λ id t node m f s. cc;
      started = ground (arith, eq_refl entry);
    }

    complete :
        (seen : List String) → IsWalk seen [] → (t : String) → Reaches entry t → elem t seen ≡ true
    unfolding elem
    complete seen w _ at_entry = let h = w.started in ground arith
    complete seen w t (by_transition {id = id} {node = node} r f s) =
        let h = w.closed id t node (complete seen w id r) f s in ground arith

    -- What the walk returns are the ids that transitions between nodes of the map lead to from the
    -- entry, the entry among them.
    pub reachable_nodes-Reaches :
        (seen : List String)
        → reachable_nodes nodes entry ≡ ok seen
        → (t : String) → elem t seen ≡ true ↔ Reaches entry t
    unfolding reachable_nodes elem
    reachable_nodes-Reaches seen h t =
        let w = search-IsWalk (suc (3 * length nodes)) [] (entry ∷ []) seen start-IsWalk h in
        (λ m. w.sound t (ground arith), complete seen w t)

-- ===== src/Compiler/Reach/Ends.antt =====
-- The walk ends: the bound on its rounds is enough, and from an id of the map no lookup fails.
use skill2workflow.Prelude.{
  ℕ, zero, suc, ◌+◌, ◌*◌, ◌≤◌, ◌<◌, String, ◌≡◌, refl, true, false, some, List, [], ◌∷◌, ◌++◌,
  length, length-append, arith, ◌==◌, eq_iff, eq_refl, inl, inr, Bool-cases, Option-cases,
  if◌then◌else◌,
}
use skill2workflow.Texts.{elem, elem-append}
use skill2workflow.Json.{
  Json, null, bool, int, float, str, arr, obj, Fields, get_null, same, is_null, is_number, as_text,
  as_array, as_object,
}
use skill2workflow.Result.{ok}
use skill2workflow.Compiler.Tables.{Table, find}
use skill2workflow.Compiler.Nodes.{transition_keys}
use skill2workflow.Compiler.Reach.{known_target, push_targets, visit, search, reachable_nodes}

-- The keys that are texts and not yet in the set.
unfoldable unseen : Table Fields → List String → ℕ
unseen [] seen = 0
unseen ((str k, node) ∷ rest) seen =
    let others = unseen rest seen in if elem k seen then others else suc others
unseen (_ ∷ rest) seen = unseen rest seen

unseen-le-length : (nodes : Table Fields) (seen : List String) → unseen nodes seen ≤ length nodes
unfolding unseen
unseen-le-length [] seen = omega arith
unseen-le-length ((str k, node) ∷ rest) seen = ground (arith, unseen-le-length rest seen)
unseen-le-length ((null, node) ∷ rest) seen = omega (arith, unseen-le-length rest seen)
unseen-le-length ((bool b, node) ∷ rest) seen = omega (arith, unseen-le-length rest seen)
unseen-le-length ((int i, node) ∷ rest) seen = omega (arith, unseen-le-length rest seen)
unseen-le-length ((float x, node) ∷ rest) seen = omega (arith, unseen-le-length rest seen)
unseen-le-length ((arr xs, node) ∷ rest) seen = omega (arith, unseen-le-length rest seen)
unseen-le-length ((obj fs, node) ∷ rest) seen = omega (arith, unseen-le-length rest seen)

unseen-le :
    (nodes : Table Fields) (id : String) (seen : List String)
    → unseen nodes (id ∷ seen) ≤ unseen nodes seen
unfolding unseen elem
unseen-le [] id seen = omega arith
unseen-le ((str k, node) ∷ rest) id seen = ground (arith, unseen-le rest id seen)
unseen-le ((null, node) ∷ rest) id seen = unseen-le rest id seen
unseen-le ((bool b, node) ∷ rest) id seen = unseen-le rest id seen
unseen-le ((int i, node) ∷ rest) id seen = unseen-le rest id seen
unseen-le ((float x, node) ∷ rest) id seen = unseen-le rest id seen
unseen-le ((arr xs, node) ∷ rest) id seen = unseen-le rest id seen
unseen-le ((obj fs, node) ∷ rest) id seen = unseen-le rest id seen

-- A key that is there and new to the set is no longer counted.
unseen-lt :
    (nodes : Table Fields) (id : String) (seen : List String) (node : Fields)
    → find (str id) nodes ≡ some node
    → elem id seen ≡ false
    → unseen nodes (id ∷ seen) < unseen nodes seen
unfolding unseen elem find same is_null is_number as_text as_array as_object
unseen-lt [] id seen node p q = cc
unseen-lt ((str k, v) ∷ rest) id seen node p q =
    let ih = unseen-lt rest id seen node in
    let weak = unseen-le rest id seen in
    elim (Bool-cases (k == id)) [
      | inl e ↦ ground (arith, eq_iff k id, eq_iff id k, eq_refl id)
      | inr e ↦ let shorter = ih (rw (e, find) at p) q in ground (arith, eq_iff k id, eq_iff id k)
    ]
unseen-lt ((null, v) ∷ rest) id seen node p q = unseen-lt rest id seen node p q
unseen-lt ((bool true, v) ∷ rest) id seen node p q = unseen-lt rest id seen node p q
unseen-lt ((bool false, v) ∷ rest) id seen node p q = unseen-lt rest id seen node p q
unseen-lt ((int i, v) ∷ rest) id seen node p q = unseen-lt rest id seen node p q
unseen-lt ((float x, v) ∷ rest) id seen node p q = unseen-lt rest id seen node p q
unseen-lt ((arr xs, v) ∷ rest) id seen node p q = unseen-lt rest id seen node p q
unseen-lt ((obj fs, v) ∷ rest) id seen node p q = unseen-lt rest id seen node p q

module _ (nodes : Table Fields) where
  abbrev pub IsKnown : String → Type 0
  IsKnown t = (node : Fields) × (find (str t) nodes ≡ some node)

  abbrev pub AllKnown : List String → Type 0
  AllKnown stack = (t : String) → elem t stack ≡ true → IsKnown t

  pub known_target-one :
      (v : Json) (t : String) → elem t (known_target nodes v) ≡ true → (v ≡ str t) × IsKnown t
  unfolding known_target elem
  known_target-one (str s) t h = elim (Option-cases (find (str s) nodes)) [
    | inl p ↦ let odd : false ≡ true = rw (p, known_target) at h in cc
    | inr (node, p) ↦
        let e : s ≡ t = (let q = rw (p, known_target) at h in ground (arith, eq_iff s t)) in
        (rw e, (node, rw (← e) p))
  ]
  known_target-one null t h = cc
  known_target-one (bool b) t h = cc
  known_target-one (int i) t h = cc
  known_target-one (float x) t h = cc
  known_target-one (arr xs) t h = cc
  known_target-one (obj fs) t h = cc

  known_target-length : (v : Json) → length (known_target nodes v) ≤ 1
  unfolding known_target
  known_target-length (str s) = elim (Option-cases (find (str s) nodes)) [
    | inl p ↦ rw (p, known_target) (omega arith)
    | inr (node, p) ↦ rw (p, known_target) (omega arith)
  ]
  known_target-length null = omega arith
  known_target-length (bool b) = omega arith
  known_target-length (int i) = omega arith
  known_target-length (float x) = omega arith
  known_target-length (arr xs) = omega arith
  known_target-length (obj fs) = omega arith

  push_targets-length :
      (node : Fields) (ks stack : List String)
      → length (push_targets nodes node ks stack) ≤ length ks + length stack
  unfolding push_targets
  push_targets-length node [] stack = omega arith
  push_targets-length node (k ∷ ks) stack =
      let here = known_target nodes (get_null k node) in
      omega (
        arith,
        push_targets-length node ks (here ++ stack),
        known_target-length (get_null k node),
        length-append here stack,
      )

  push_targets-AllKnown :
      (node : Fields) (ks stack : List String)
      → AllKnown stack
      → AllKnown (push_targets nodes node ks stack)
  unfolding push_targets
  push_targets-AllKnown node [] stack known = known
  push_targets-AllKnown node (k ∷ ks) stack known =
      push_targets-AllKnown node ks (known_target nodes (get_null k node) ++ stack) (λ t h.
        elim (elem-append t (known_target nodes (get_null k node)) stack h) [
          | inl p ↦ (known_target-one (get_null k node) t p).1
          | inr p ↦ known t p
        ])

  search_ends :
      (rounds : ℕ) (seen stack : List String)
      → AllKnown stack
      → 3 * unseen nodes seen + length stack ≤ rounds
      → (after : List String) × (search nodes rounds seen stack ≡ ok after)
  unfolding search visit elem
  search_ends rounds seen [] known room = (seen, refl)
  search_ends zero seen (id ∷ stack) known room = ground arith
  search_ends (suc rounds) seen (id ∷ stack) known room =
      let later : AllKnown stack = λ t h. known t (ground arith) in
      elim (Bool-cases (elem id seen)) [
        | inl p ↦
            let (after, ends) = search_ends rounds seen stack later (omega arith) in
            (after, rw (p, search, visit) ends)
        | inr p ↦
            let (node, q) = known id (ground (arith, eq_refl id)) in
            let fewer = unseen-lt nodes id seen node q p in
            let bound = push_targets-length node transition_keys stack in
            let (after, ends) =
              search_ends rounds (id ∷ seen) (push_targets nodes node transition_keys stack)
                (push_targets-AllKnown node transition_keys stack later) (omega arith) in
            (after, rw (p, q, search, visit) ends)
      ]

  -- From an id of the map the walk returns: its bound on the rounds is enough, and it looks up no id
  -- that the map lacks.
  pub reachable_nodes_ends :
      (entry : String)
      → IsKnown entry
      → (seen : List String) × (reachable_nodes nodes entry ≡ ok seen)
  unfolding reachable_nodes elem
  reachable_nodes_ends entry (node, p) =
      search_ends (suc (3 * length nodes)) [] (entry ∷ [])
        (λ t h. (node, let e : entry ≡ t = ground (arith, eq_iff entry t) in rw (← e) p))
        (omega (arith, unseen-le-length nodes []))

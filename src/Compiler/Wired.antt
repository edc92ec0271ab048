-- ===== src/Compiler/Wired.antt =====
-- What a document without reports offers to the executor: the map of its nodes, and the targets of
-- their transitions.
use skill2workflow.Prelude.{
  ℕ, suc, String, ◌≡◌, refl, subst, ◌∙◌, Bool, true, false, none, List, [], ◌∷◌, arith, ◌==◌,
  eq_iff, ◌⊎◌, inl, inr, Bool-cases, Option-cases, if◌then◌else◌,
}
use skill2workflow.Texts.{elem}
use skill2workflow.Dict.{Dict, has}
use skill2workflow.Json.{
  Json, null, bool, int, float, str, arr, obj, Items, nil, cons, Fields, get_null, truthy, is_null,
}
use skill2workflow.Result.{ok, err, ◌>>=◌, >>=-eq-ok, ok-injective}
use skill2workflow.Issues.{
  key, index, Checks, report, none_found, when, ◌then◌, when-none, none-append, then-none,
}
use skill2workflow.Compiler.Tables.{Table, hashed, hashable, find, holds}
use skill2workflow.Compiler.Nodes.{
  Outside, transition_keys, node_path, is_terminal, declared_issues, missing_target, target_issues,
  terminal_issues, working_issues, validate_connector_binding, node_issues, nodes_issues,
}
use skill2workflow.Compiler.Policies.{validate_retry_policy, validate_node_timeout}
use skill2workflow.Compiler.Texted.{texted, find-is_text}

unfoldable pub all_objects : Items → Bool
all_objects nil = true
all_objects (cons (obj fs) rest) = all_objects rest
all_objects (cons _ rest) = false

-- A value that is among the items of a list.
pub data In (v : Json) : Items → Type 0 where
  here : {rest : Items} → In v (cons v rest)
  later : {w : Json} {rest : Items} → In v rest → In v (cons w rest)

-- Under each of the keys, nothing.
abbrev pub GoesNowhere : Fields → List String → Type 0
GoesNowhere node ks = (k : String) → elem k ks ≡ true → truthy (get_null k node) ≡ false

-- Under each of the keys, None or the id of a node.
abbrev pub GoesToNodes : Dict Fields → Fields → List String → Type 0
GoesToNodes nodes node ks =
    (k : String)
    → elem k ks ≡ true
    → (get_null k node ≡ null) ⊎ ((t : String) × (get_null k node ≡ str t) × (has t nodes ≡ true))

-- A node that ends the run has no transition; any other has on_success, and all its transitions lead
-- to nodes.
pub data Wired (nodes : Dict Fields) (node : Fields) : Type 0 where
  ends_run :
      is_terminal (get_null "type" node) ≡ ok true
      → GoesNowhere node transition_keys
      → Wired nodes node
  works :
      is_terminal (get_null "type" node) ≡ ok false
      → truthy (get_null "on_success" node) ≡ true
      → GoesToNodes nodes node transition_keys
      → Wired nodes node

terminal-GoesNowhere :
    (node : Fields) (i : ℕ) (ks : List String)
    → terminal_issues node i ks ≡ []
    → GoesNowhere node ks
unfolding terminal_issues elem
terminal-GoesNowhere node i [] h k m = cc
terminal-GoesNowhere node i (j ∷ ks) h k m =
    let (p, q) =
      none-append (when (truthy (get_null j node)) "terminal_transition_declared" (node_path i j))
        (terminal_issues node i ks) (rw h refl) in
    elim (Bool-cases (j == k)) [
      | inl e ↦
          let same_key : j ≡ k = ground (arith, eq_iff j k) in
          rw (← same_key)
            (when-none (truthy (get_null j node)) "terminal_transition_declared" (node_path i j) p)
      | inr e ↦ terminal-GoesNowhere node i ks q k (ground arith)
    ]

declared_lem :
    (node : Fields) (i : ℕ)
    → declared_issues node i ≡ []
    → truthy (get_null "on_success" node) ≡ true
unfolding declared_issues when
declared_lem node i h = ground arith

not_object-none {ℓ} :
    {A : Type ℓ} (i : ℕ) (others : Checks)
    → (ok (report "node_not_object" (key "nodes" ∷ index i ∷ [])) then others) ≡ none_found
    → A
not_object-none i (ok xs) h = cc
not_object-none i (err e) h = cc

module _ (nodes : Dict Fields) where
  -- missing_target of a value that is there and not None
  missing-absent :
      (v : Json)
      → find v (texted nodes) ≡ none
      → missing_target (texted nodes) v ≡ ok false
      → v ≡ null
  unfolding missing_target holds hashed is_null hashable
  missing-absent null p h = refl
  missing-absent (bool b) p h = (let wrong : ok true ≡ ok false = rw (p, holds) at h in cc)
  missing-absent (int i) p h = (let wrong : ok true ≡ ok false = rw (p, holds) at h in cc)
  missing-absent (float x) p h = (let wrong : ok true ≡ ok false = rw (p, holds) at h in cc)
  missing-absent (str s) p h = (let wrong : ok true ≡ ok false = rw (p, holds) at h in cc)
  missing-absent (arr xs) p h = cc
  missing-absent (obj fs) p h = cc

  present_target :
      (v : Json)
      → missing_target (texted nodes) v ≡ ok false
      → (v ≡ null) ⊎ ((t : String) × (v ≡ str t) × (has t nodes ≡ true))
  unfolding has
  present_target v h = elim (Option-cases (find v (texted nodes))) [
    | inl p ↦ inl (missing-absent v p h)
    | inr (node, p) ↦ let (t, e, q) = find-is_text v nodes node p in inr (t, e, rw (q, has) refl)
  ]

  target-GoesToNodes :
      (node : Fields) (i : ℕ) (ks : List String)
      → target_issues (texted nodes) node i ks ≡ none_found
      → GoesToNodes nodes node ks
  unfolding target_issues elem
  target-GoesToNodes node i [] h k m = cc
  target-GoesToNodes node i (j ∷ ks) h k m =
      let (p, q) = then-none _ (target_issues (texted nodes) node i ks) h in
      let (missing, r, s) = >>=-eq-ok (missing_target (texted nodes) (get_null j node)) _ p in
      let e = when-none missing _ _ (ok-injective s) in
      elim (Bool-cases (j == k)) [
        | inl u ↦
            let same_key : j ≡ k = ground (arith, eq_iff j k) in
            subst
              (λ x.
                (get_null x node ≡ null)
                ⊎ ((t : String) × (get_null x node ≡ str t) × (has t nodes ≡ true)))
              same_key (present_target (get_null j node) (rw e at r))
        | inr u ↦ target-GoesToNodes node i ks q k (ground arith)
      ]

  module _ (out : Outside) where
    working_lem :
        (node : Fields) (i : ℕ)
        → working_issues out (texted nodes) node i ≡ none_found
        → (truthy (get_null "on_success" node) ≡ true) × GoesToNodes nodes node transition_keys
    unfolding working_issues declared_issues
    working_lem node i h =
        let retry = ok (validate_retry_policy (get_null "retry" node) (node_path i "retry")) in
        let binding = validate_connector_binding out node i in
        let targets = target_issues (texted nodes) node i transition_keys in
        let (declared, more) =
          then-none (ok (declared_issues node i)) (retry then (binding then targets)) h in
        let (_, rest) = then-none retry (binding then targets) more in
        let (_, last) = then-none binding targets rest in
        (
          declared_lem node i (ok-injective declared),
          target-GoesToNodes node i transition_keys last,
        )

    node-Wired :
        (node : Fields) (i : ℕ)
        → node_issues out (texted nodes) node i ≡ none_found
        → Wired nodes node
    unfolding node_issues
    node-Wired node i h =
        let working = working_issues out (texted nodes) node i in
        let ending = ok (terminal_issues node i transition_keys) in
        let body = λ (terminal : Bool). if terminal then ending else working in
        let kind = is_terminal (get_null "type" node) in
        let (_, after) = then-none (ok (validate_node_timeout node i)) (kind >>= body) h in
        let (terminal, t, r) = >>=-eq-ok kind body after in
        elim (Bool-cases terminal) [
          | inl e ↦
              let ended : ending ≡ none_found = rw e at r in
              ends_run (t ∙ rw e refl)
                (terminal-GoesNowhere node i transition_keys (ok-injective ended))
          | inr e ↦
              let (start, targets) = working_lem node i (rw e at r) in
              works (t ∙ rw e refl) start targets
        ]

    pub nodes-Wired :
        (items : Items) (i : ℕ) (node : Fields)
        → nodes_issues out (texted nodes) items i ≡ none_found
        → In (obj node) items
        → Wired nodes node
    unfolding nodes_issues
    nodes-Wired nil i node h m = elim m [ ]
    nodes-Wired (cons (obj fs) rest) i node h here =
        node-Wired fs i
          (then-none (node_issues out (texted nodes) fs i)
            (nodes_issues out (texted nodes) rest (suc i)) h).0
    nodes-Wired (cons (obj fs) rest) i node h (later m) =
        nodes-Wired rest (suc i) node
          (then-none (node_issues out (texted nodes) fs i)
            (nodes_issues out (texted nodes) rest (suc i)) h).1
          m
    nodes-Wired (cons null rest) i node h m =
        not_object-none i (nodes_issues out (texted nodes) rest (suc i)) h
    nodes-Wired (cons (bool b) rest) i node h m =
        not_object-none i (nodes_issues out (texted nodes) rest (suc i)) h
    nodes-Wired (cons (int n) rest) i node h m =
        not_object-none i (nodes_issues out (texted nodes) rest (suc i)) h
    nodes-Wired (cons (float x) rest) i node h m =
        not_object-none i (nodes_issues out (texted nodes) rest (suc i)) h
    nodes-Wired (cons (str t) rest) i node h m =
        not_object-none i (nodes_issues out (texted nodes) rest (suc i)) h
    nodes-Wired (cons (arr xs) rest) i node h m =
        not_object-none i (nodes_issues out (texted nodes) rest (suc i)) h

-- For any table, since the targets do not matter here.
pub nodes-all_objects :
    (out : Outside) (table : Table Fields) (items : Items) (i : ℕ)
    → nodes_issues out table items i ≡ none_found
    → all_objects items ≡ true
unfolding nodes_issues all_objects
nodes-all_objects out table nil i h = refl
nodes-all_objects out table (cons (obj fs) rest) i h =
    nodes-all_objects out table rest (suc i)
      (then-none (node_issues out table fs i) (nodes_issues out table rest (suc i)) h).1
nodes-all_objects out table (cons null rest) i h =
    not_object-none i (nodes_issues out table rest (suc i)) h
nodes-all_objects out table (cons (bool b) rest) i h =
    not_object-none i (nodes_issues out table rest (suc i)) h
nodes-all_objects out table (cons (int n) rest) i h =
    not_object-none i (nodes_issues out table rest (suc i)) h
nodes-all_objects out table (cons (float x) rest) i h =
    not_object-none i (nodes_issues out table rest (suc i)) h
nodes-all_objects out table (cons (str t) rest) i h =
    not_object-none i (nodes_issues out table rest (suc i)) h
nodes-all_objects out table (cons (arr xs) rest) i h =
    not_object-none i (nodes_issues out table rest (suc i)) h

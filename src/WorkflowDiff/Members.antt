-- ===== src/WorkflowDiff/Members.antt =====
-- What the three lists of a comparison of nodes or of edges hold.

use skill2workflow.Prelude.{
  String, ◌≡◌, refl, Bool, true, false, not, ◌&&◌, Option, none, some, [], ◌∷◌, arith, eq_iff, ◌==◌,
  ◌↔◌, ◌∙◌, ap, Option-cases, inl, inr, if◌then◌else◌,
}
use skill2workflow.Dict.{Dict, lookup, has, insert, lookup-insert}
use skill2workflow.Json.{
  Json, str, arr, obj, Items, nil, cons, Fields, end, field, get_null, as_object, as_text, same,
}
use skill2workflow.Texts.{elem, sorted, elem-sorted}
use skill2workflow.WorkflowDiff.{
  without_keys, canonical_without, add_named, keys_where, item_changed, named_item_changes,
  named_item_map,
}

elem-keys_where :
    (k : String) (p : String → Bool) (m : Dict Fields) → elem k (keys_where p m) ≡ (has k m && p k)
unfolding elem keys_where has lookup
elem-keys_where k p [] = refl
elem-keys_where k p ((j, v) ∷ m) = let ih = elem-keys_where k p m in ground (arith, eq_iff j k)

-- The fields of an item but its id.
abbrev pub drop_id : Fields → Fields
drop_id end = end
drop_id (field k v rest) = if k == "id" then drop_id rest else field k v (drop_id rest)

abbrev is_text : String → Json → Bool
is_text k (str s) = s == k
is_text k _ = false

abbrev named_one : String → Json → Option Fields
named_one k (obj fs) = if is_text k (get_null "id" fs) then some fs else none
named_one k _ = none

abbrev or_before : Option Fields → Option Fields → Option Fields
or_before (some fs) o = some fs
or_before none o = o

or_before-none : (o : Option Fields) → or_before o none ≡ o
or_before-none none = refl
or_before-none (some x) = refl

abbrev last_named : String → Items → Option Fields
last_named k nil = none
last_named k (cons item rest) = or_before (last_named k rest) (named_one k item)

-- The last object of a list whose id is a given text.
abbrev pub item_named : String → Json → Option Fields
item_named k (arr items) = last_named k items
item_named k _ = none

without_keys-id : (fs : Fields) → without_keys ("id" ∷ []) fs ≡ drop_id fs
unfolding without_keys elem
without_keys-id end = refl
without_keys-id (field k v rest) =
    let ih = without_keys-id rest in ground (arith, eq_iff k "id", eq_iff "id" k)

or_else_this :
    (found this o : Option Fields)
    → or_before found (or_before this o) ≡ or_before (or_before found this) o
or_else_this none this o = refl
or_else_this (some x) this o = refl

if_before :
    (b : Bool) (fs : Fields) (o : Option Fields)
    → (if b then some fs else o) ≡ or_before (if b then some fs else none) o
if_before true fs o = refl
if_before false fs o = refl

-- What one more object does to a map, by its id.
lookup-one :
    (k : String) (fs : Fields) (rest : Items) (m : Dict Fields) (id : Json)
    → get_null "id" fs ≡ id
    → ((m : Dict Fields) → lookup k (add_named rest m) ≡ or_before (last_named k rest) (lookup k m))
    → lookup k (add_named (cons (obj fs) rest) m)
      ≡ or_before
          (last_named k rest)
          (or_before (if is_text k id then some fs else none) (lookup k m))
unfolding add_named as_object as_text
lookup-one k fs rest m (str s) e ih =
    rw (e, add_named)
      (rw (ih (insert s fs m), lookup-insert s k fs m)
        (ap (or_before (last_named k rest)) (if_before (s == k) fs (lookup k m))))
lookup-one k fs rest m _ e ih = rw (e, add_named) (ih m)

lookup-add_named :
    (k : String) (items : Items) (m : Dict Fields)
    → lookup k (add_named items m) ≡ or_before (last_named k items) (lookup k m)
unfolding add_named as_object
lookup-add_named k nil m = refl
lookup-add_named k (cons (obj fs) rest) m =
    lookup-one k fs rest m (get_null "id" fs) refl (λ n. lookup-add_named k rest n)
    ∙ or_else_this (last_named k rest) (named_one k (obj fs)) (lookup k m)
lookup-add_named k (cons _ rest) m =
    lookup-add_named k rest m ∙ or_else_this (last_named k rest) none (lookup k m)

lookup-named_item_map : (k : String) (v : Json) → lookup k (named_item_map v) ≡ item_named k v
unfolding named_item_map lookup
lookup-named_item_map k (arr items) =
    lookup-add_named k items [] ∙ or_before-none (last_named k items)
lookup-named_item_map k _ = refl

only_in :
    (x y : Option Fields) (listed : Bool)
    → listed ≡ elim x [ none ↦ false | some a ↦ elim y [ none ↦ true | some b ↦ false ] ]
    → (listed ≡ true) ↔ (a : Fields) × (x ≡ some a) × (y ≡ none)
only_in none y listed e = (λ h. cc, λ (a, p, q). cc)
only_in (some a) none listed e = (λ h. (a, refl, refl), λ h. e)
only_in (some a) (some b) listed e = (λ h. cc, λ (c, p, q). cc)

both_differ :
    (x y : Option Fields) (listed : Bool)
    → listed ≡ elim x [
      | none ↦ false
      | some a ↦ elim y [ none ↦ false | some b ↦ not (same (obj (drop_id a)) (obj (drop_id b))) ]
    ]
    → (listed ≡ true)
      ↔ (a : Fields) × (b : Fields) × (x ≡ some a)
        × (y ≡ some b)
        × (same (obj (drop_id a)) (obj (drop_id b)) ≡ false)
both_differ none y listed e = (λ h. cc, λ (a, b, p, q, d). cc)
both_differ (some a) none listed e = (λ h. cc, λ (c, b, p, q, d). cc)
both_differ (some a) (some b) listed e =
    (λ h. (a, b, refl, refl, ground arith), λ (c, d, p, q, r). ground arith)

module _ (from to : Json) (k : String) where
  elem-only :
      elem k (sorted (keys_where (λ j. not (has j (named_item_map to))) (named_item_map from)))
      ≡ elim (item_named k from) [
        | none ↦ false
        | some a ↦ elim (item_named k to) [ none ↦ true | some b ↦ false ]
      ]
  unfolding has
  elem-only =
      elem-sorted k (keys_where (λ j. not (has j (named_item_map to))) (named_item_map from))
      ∙ elem-keys_where k (λ j. not (has j (named_item_map to))) (named_item_map from)
      ∙ rw (lookup-named_item_map k from, lookup-named_item_map k to, has)
          (ground (arith, Option-cases (item_named k from), Option-cases (item_named k to)))

  elem-differ : elem k (named_item_changes from to).changed ≡ elim (item_named k from) [
    | none ↦ false
    | some a ↦ elim (item_named k to) [
      | none ↦ false
      | some b ↦ not (same (obj (drop_id a)) (obj (drop_id b)))
    ]
  ]
  unfolding has item_changed named_item_changes canonical_without
  elem-differ =
      let old = named_item_map from in
      let new = named_item_map to in
      elem-sorted k (keys_where (item_changed old new) old)
      ∙ elem-keys_where k (item_changed old new) old
      ∙ elim (Option-cases (item_named k from)) [
        | inl p ↦ rw (lookup-named_item_map k from ∙ p, has, p) refl
        | inr (a, p) ↦ elim (Option-cases (item_named k to)) [
          | inl q ↦
              rw
                (
                  lookup-named_item_map k from ∙ p,
                  has,
                  item_changed,
                  lookup-named_item_map k to ∙ q,
                  p,
                  q,
                )
                refl
          | inr (b, q) ↦
              rw
                (
                  lookup-named_item_map k from ∙ p,
                  has,
                  item_changed,
                  lookup-named_item_map k to ∙ q,
                  p,
                  q,
                )
                (rw (without_keys-id a, without_keys-id b) refl)
        ]
      ]

-- A key is listed as added exactly when the new list names an item by it and the old one does not,
-- as removed the other way round, and as changed exactly when both name an item by it and the two
-- differ in something but the id. Of two items with one id in a list, the later one counts.
pub named_item_changes_lem :
    (from to : Json) (k : String)
    → let old = item_named k from in
      let new = item_named k to in
      let c = named_item_changes from to in
      ((elem k c.added ≡ true) ↔ (b : Fields) × (new ≡ some b) × (old ≡ none))
      × ((elem k c.removed ≡ true) ↔ (a : Fields) × (old ≡ some a) × (new ≡ none))
      × ((elem k c.changed ≡ true) ↔ (
          (a : Fields) × (b : Fields) × (old ≡ some a)
          × (new ≡ some b)
          × (same (obj (drop_id a)) (obj (drop_id b)) ≡ false)))
unfolding named_item_changes
named_item_changes_lem from to k =
    let c = named_item_changes from to in
    (
      only_in (item_named k to) (item_named k from) (elem k c.added) (elem-only to from k),
      only_in (item_named k from) (item_named k to) (elem k c.removed) (elem-only from to k),
      both_differ (item_named k from) (item_named k to) (elem k c.changed) (elem-differ from to k),
    )

-- ===== src/Examples/DiffTests.antt =====
-- An instance of the theorem on the comparison of nodes.
use skill2workflow.Prelude.{◌≡◌, none, some, true, false, ◌↔◌}
use skill2workflow.Json.{Json, str, arr, obj, nil, cons, Fields, end, field, same}
use skill2workflow.Texts.{elem}
use skill2workflow.WorkflowDiff.{named_item_changes}
use skill2workflow.WorkflowDiff.Members.{drop_id, item_named, named_item_changes_lem}

abbrev old_nodes : Json
old_nodes = arr (
    cons (obj (field "id" (str "b") (field "type" (str "step") end)))
      (cons (obj (field "id" (str "c") end)) nil))

abbrev new_nodes : Json
new_nodes = arr (
    cons (obj (field "id" (str "b") (field "type" (str "end") end)))
      (cons (obj (field "id" (str "a") end)) nil))

named_item_changes_lem_example :
    let old = item_named "b" old_nodes in
    let new = item_named "b" new_nodes in
    let c = named_item_changes old_nodes new_nodes in
    ((elem "b" c.added ≡ true) ↔ (b : Fields) × (new ≡ some b) × (old ≡ none))
    × ((elem "b" c.removed ≡ true) ↔ (a : Fields) × (old ≡ some a) × (new ≡ none))
    × ((elem "b" c.changed ≡ true)
        ↔ (a : Fields) × (b : Fields) × (old ≡ some a)
          × (new ≡ some b)
          × (same (obj (drop_id a)) (obj (drop_id b)) ≡ false))
named_item_changes_lem_example = named_item_changes_lem old_nodes new_nodes "b"

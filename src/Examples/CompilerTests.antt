-- ===== src/Examples/CompilerTests.antt =====
-- Instances of the theorems on the validator of workflows.
use skill2workflow.Prelude.{inr, String, ◌≡◌, refl, true, false, none, some, List, [], ◌∷◌, ◌↔◌}
use skill2workflow.Texts.{elem}
use skill2workflow.Dict.{Dict, lookup, has}
use skill2workflow.Json.{
  Json, str, arr, obj, Items, nil, cons, Fields, end, field, get_null, as_text,
}
use skill2workflow.Result.{ok}
use skill2workflow.Issues.{none_found}
use skill2workflow.Executor.Session.{pure, modify, ◌>>◌, node_map, save}
use skill2workflow.Executor.Transition.{go_to}
use skill2workflow.Compiler.Tables.{find}
use skill2workflow.Compiler.Nodes.{Outside, is_terminal}
use skill2workflow.Compiler.Reach.{reachable_nodes}
use skill2workflow.Compiler.Reach.Ends.{reachable_nodes_ends}
use skill2workflow.Compiler.Reach.Correct.{Reaches, reachable_nodes-Reaches}
use skill2workflow.Compiler.Validate.{validate_workflow_structured}
use skill2workflow.Compiler.Texted.{texted}
use skill2workflow.Compiler.Wired.{Wired}
use skill2workflow.Compiler.Runs.{validated_entry, validated_node, validated_go_to}
use skill2workflow.Examples.Sample.{sample_env}

abbrev outside : Outside
outside = record { encoded_size = λ v. some 900; url_of = λ s. none; text_of = λ v. "" }

abbrev draft_node : Fields
draft_node =
    field "id" (str "draft") (field "type" (str "step") (field "on_success" (str "done") end))

abbrev done_node : Fields
done_node = field "id" (str "done") (field "type" (str "end") end)

abbrev edge : Json
edge = obj (field "id" (str "e1") (field "from" (str "draft") (field "to" (str "done") end)))

abbrev two_nodes : Fields
two_nodes = field "schema_version" (str "0.1.0") (
    field "workflow" (obj end) (
      field "entry" (str "draft") (
        field "nodes" (arr (cons (obj draft_node) (cons (obj done_node) nil)))
          (field "edges" (arr (cons edge nil)) end))))

abbrev two_indexed : Dict Fields
two_indexed = ("draft", draft_node) ∷ ("done", done_node) ∷ []

two_nodes_pass : validate_workflow_structured outside (obj two_nodes) ≡ none_found
unfolding validate_workflow_structured skill2workflow.Json.contains get_null
    skill2workflow.Json.get_or skill2workflow.Json.same as_text skill2workflow.Json.is_null elem
    skill2workflow.Issues.when skill2workflow.Json.truthy
two_nodes_pass = refl

two_nodes_indexed : node_map two_nodes ≡ ok two_indexed
unfolding node_map skill2workflow.Json.get skill2workflow.Dict.insert
two_nodes_indexed = refl

draft_found : lookup "draft" two_indexed ≡ some draft_node
unfolding lookup
draft_found = refl

draft_works : is_terminal (get_null "type" draft_node) ≡ ok false
unfolding is_terminal get_null skill2workflow.Json.same as_text
draft_works = refl

validated_entry_example :
    (nodes : Dict Fields) × (entry : String) × (node_map two_nodes ≡ ok nodes)
    × (get_null "entry" two_nodes ≡ str entry)
    × (has entry nodes ≡ true)
validated_entry_example = validated_entry outside two_nodes two_nodes_pass

validated_node_example :
    Wired two_indexed draft_node
    × ((entry : String) × (get_null "entry" two_nodes ≡ str entry)
        × Reaches (texted two_indexed) entry "draft")
validated_node_example =
    validated_node outside two_nodes two_indexed "draft" draft_node two_nodes_pass two_nodes_indexed
      draft_found

validated_go_to_example :
    (next : String) × (get_null "on_success" draft_node ≡ str next)
    × (has next two_indexed ≡ true)
    × (go_to sample_env draft_node "draft" two_indexed "lost"
          (as_text (get_null "on_success" draft_node))
        ≡ (do modify (λ r. record r { current_node = next }); save sample_env; pure false))
unfolding elem
validated_go_to_example =
    validated_go_to outside two_nodes two_indexed "draft" draft_node sample_env "lost" "on_success"
      two_nodes_pass two_nodes_indexed draft_found refl (inr (refl, draft_works))

two_found : find (str "draft") (texted two_indexed) ≡ some draft_node
unfolding find texted skill2workflow.Json.same as_text
two_found = refl

reachable_nodes_ends_example :
    (seen : List String) × (reachable_nodes (texted two_indexed) "draft" ≡ ok seen)
reachable_nodes_ends_example =
    reachable_nodes_ends (texted two_indexed) "draft" (draft_node, two_found)

two_seen : reachable_nodes (texted two_indexed) "draft" ≡ ok ("done" ∷ "draft" ∷ [])
unfolding reachable_nodes texted elem skill2workflow.Json.same as_text get_null
two_seen = refl

reachable_nodes-Reaches_example :
    elem "done" ("done" ∷ "draft" ∷ []) ≡ true ↔ Reaches (texted two_indexed) "draft" "done"
reachable_nodes-Reaches_example =
    reachable_nodes-Reaches (texted two_indexed) "draft" ("done" ∷ "draft" ∷ []) two_seen "done"

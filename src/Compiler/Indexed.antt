-- ===== src/Compiler/Indexed.antt =====
-- The validator's map of the nodes, when its keys are texts, is the map that the executor makes.
use skill2workflow.Prelude.{
  String, ◌≡◌, refl, sym, ap, ◌∙◌, Bool, true, false, Option, none, some, List, [], ◌∷◌, arith,
  ◌==◌, eq_iff, ◌⊎◌, inl, inr, Bool-cases, Option-cases,
}
use skill2workflow.Texts.{elem}
use skill2workflow.Dict.{Dict, lookup, has, insert, lookup-insert}
use skill2workflow.Json.{
  Json, null, bool, int, float, str, arr, obj, Items, nil, cons, Fields, get, get_null,
}
use skill2workflow.Result.{ok, err, key_error, type_error, >>=-eq-ok, ok-injective}
use skill2workflow.Executor.Session.{index_nodes}
use skill2workflow.Compiler.Tables.{Table, hashed, store}
use skill2workflow.Compiler.Validate.{map_nodes, has_unreached}
use skill2workflow.Compiler.Texted.{all_text, texted, store-texted, all_text-store}
use skill2workflow.Compiler.Wired.{all_objects, In, here, later}

hashed-eq : {A : Type 0} (v : Json) (a : A) (b : A) → hashed v a ≡ ok b → a ≡ b
unfolding hashed
hashed-eq v a b h = ground arith

-- Keys that were stored stay keys, so texts at the end were texts before.
all_text-map_nodes :
    (items : Items) (table nodes : Table Fields)
    → map_nodes items table ≡ ok nodes
    → all_text nodes ≡ true
    → all_text table ≡ true
unfolding map_nodes
all_text-map_nodes nil table nodes h t = (let e : table ≡ nodes = ok-injective h in rw e t)
all_text-map_nodes (cons (obj fs) rest) table nodes h t =
    let (more, p, q) =
      >>=-eq-ok (hashed (get_null "id" fs) (store (get_null "id" fs) fs table)) (map_nodes rest)
        h in
    let stored = hashed-eq (get_null "id" fs) (store (get_null "id" fs) fs table) more p in
    let ih = all_text-map_nodes rest more nodes q t in
    (all_text-store (get_null "id" fs) fs table (rw stored ih)).0
all_text-map_nodes (cons null rest) table nodes h t = all_text-map_nodes rest table nodes h t
all_text-map_nodes (cons (bool b) rest) table nodes h t = all_text-map_nodes rest table nodes h t
all_text-map_nodes (cons (int i) rest) table nodes h t = all_text-map_nodes rest table nodes h t
all_text-map_nodes (cons (float x) rest) table nodes h t = all_text-map_nodes rest table nodes h t
all_text-map_nodes (cons (str s) rest) table nodes h t = all_text-map_nodes rest table nodes h t
all_text-map_nodes (cons (arr xs) rest) table nodes h t = all_text-map_nodes rest table nodes h t

get-text : (fs : Fields) (t : String) → get_null "id" fs ≡ str t → get "id" fs ≡ some (str t)
unfolding get_null
get-text fs t h = elim (Option-cases (get "id" fs)) [
  | inl p ↦ (let wrong : null ≡ str t = rw (p, get_null) at h in cc)
  | inr (v, p) ↦ (let e : v ≡ str t = rw (p, get_null) at h in rw (p, e) refl)
]

index-step :
    (fs : Fields) (rest : Items) (m found : Dict Fields) (name : String)
    → get "id" fs ≡ some (str name)
    → index_nodes rest (insert name fs m) ≡ ok found
    → index_nodes (cons (obj fs) rest) m ≡ ok found
unfolding index_nodes
index-step fs rest m found name e h = rw (e, index_nodes) h

-- By what `get` gives for the id.
index-back :
    (fs : Fields) (rest : Items) (m found : Dict Fields) (id : Option Json)
    → get "id" fs ≡ id
    → index_nodes (cons (obj fs) rest) m ≡ ok found
    → (name : String) × (index_nodes rest (insert name fs m) ≡ ok found)
unfolding index_nodes
index-back fs rest m found (some (str t)) e h = (t, rw (e, index_nodes) at h)
index-back fs rest m found none e h =
    (let wrong : err (key_error "id") ≡ ok found = rw (e, index_nodes) at h in cc)
index-back fs rest m found (some null) e h =
    (let wrong : err type_error ≡ ok found = rw (e, index_nodes) at h in cc)
index-back fs rest m found (some (bool b)) e h =
    (let wrong : err type_error ≡ ok found = rw (e, index_nodes) at h in cc)
index-back fs rest m found (some (int i)) e h =
    (let wrong : err type_error ≡ ok found = rw (e, index_nodes) at h in cc)
index-back fs rest m found (some (float x)) e h =
    (let wrong : err type_error ≡ ok found = rw (e, index_nodes) at h in cc)
index-back fs rest m found (some (arr xs)) e h =
    (let wrong : err type_error ≡ ok found = rw (e, index_nodes) at h in cc)
index-back fs rest m found (some (obj gs)) e h =
    (let wrong : err type_error ≡ ok found = rw (e, index_nodes) at h in cc)

pub map_nodes-index_nodes :
    (items : Items) (m : Dict Fields) (nodes : Table Fields)
    → all_objects items ≡ true
    → map_nodes items (texted m) ≡ ok nodes
    → all_text nodes ≡ true
    → (found : Dict Fields) × (index_nodes items m ≡ ok found) × (nodes ≡ texted found)
unfolding map_nodes index_nodes all_objects
map_nodes-index_nodes nil m nodes a h t = (m, refl, sym (ok-injective h))
map_nodes-index_nodes (cons (obj fs) rest) m nodes a h t =
    let id = get_null "id" fs in
    let (more, p, q) = >>=-eq-ok (hashed id (store id fs (texted m))) (map_nodes rest) h in
    let stored = hashed-eq id (store id fs (texted m)) more p in
    let before = all_text-map_nodes rest more nodes q t in
    let (_, (name, e)) = all_text-store id fs (texted m) (rw stored before) in
    let same_table : more ≡ texted (insert name fs m) =
      sym stored ∙ (rw e (store-texted name fs m)) in
    let (found, r, s) =
      map_nodes-index_nodes rest (insert name fs m) nodes a (rw same_table at q) t in
    (found, index-step fs rest m found name (get-text fs name e) r, s)
map_nodes-index_nodes (cons null rest) m nodes a h t = cc
map_nodes-index_nodes (cons (bool b) rest) m nodes a h t = cc
map_nodes-index_nodes (cons (int i) rest) m nodes a h t = cc
map_nodes-index_nodes (cons (float x) rest) m nodes a h t = cc
map_nodes-index_nodes (cons (str s) rest) m nodes a h t = cc
map_nodes-index_nodes (cons (arr xs) rest) m nodes a h t = cc

abbrev the_node : Fields → Option Fields → Fields
the_node other none = other
the_node other (some node) = node

lookup-insert-cases :
    (k id : String) (new node : Fields) (m : Dict Fields)
    → lookup id (insert k new m) ≡ some node
    → (node ≡ new) ⊎ (lookup id m ≡ some node)
lookup-insert-cases k id new node m h = elim (Bool-cases (k == id)) [
  | inl p ↦
      let found : some new ≡ some node = rw (lookup-insert k id new m, p) at h in
      inl (sym (ap (the_node new) found))
  | inr p ↦ inr (rw (lookup-insert k id new m, p) at h)
]

-- A node of the map is an item of the list.
pub index_nodes-In :
    (items : Items) (m found : Dict Fields) (id : String) (node : Fields)
    → index_nodes items m ≡ ok found
    → lookup id found ≡ some node
    → (lookup id m ≡ some node) ⊎ In (obj node) items
unfolding index_nodes
index_nodes-In nil m found id node h p = (let e : m ≡ found = ok-injective h in inl (rw e p))
index_nodes-In (cons (obj fs) rest) m found id node h p =
    let (name, q) = index-back fs rest m found (get "id" fs) refl h in
    elim (index_nodes-In rest (insert name fs m) found id node q p) [
      | inr i ↦ inr (later i)
      | inl l ↦ elim (lookup-insert-cases name id fs node m l) [
        | inl e ↦ inr (rw e here)
        | inr there ↦ inl there
      ]
    ]
index_nodes-In (cons null rest) m found id node h p = cc
index_nodes-In (cons (bool b) rest) m found id node h p = cc
index_nodes-In (cons (int i) rest) m found id node h p = cc
index_nodes-In (cons (float x) rest) m found id node h p = cc
index_nodes-In (cons (str s) rest) m found id node h p = cc
index_nodes-In (cons (arr xs) rest) m found id node h p = cc

pub unreached-all_text :
    (nodes : Table Fields) (seen : List String) (b : Bool)
    → has_unreached nodes seen ≡ ok b
    → all_text nodes ≡ true
unfolding has_unreached all_text
unreached-all_text [] seen b h = refl
unreached-all_text ((str s, node) ∷ rest) seen b h =
    let (others, p, q) = >>=-eq-ok (has_unreached rest seen) _ h in
    unreached-all_text rest seen others p
unreached-all_text ((null, node) ∷ rest) seen b h = cc
unreached-all_text ((bool b', node) ∷ rest) seen b h = cc
unreached-all_text ((int i, node) ∷ rest) seen b h = cc
unreached-all_text ((float x, node) ∷ rest) seen b h = cc
unreached-all_text ((arr xs, node) ∷ rest) seen b h = cc
unreached-all_text ((obj fs, node) ∷ rest) seen b h = cc

pub has-elem :
    (d : Dict Fields) (seen : List String) (id : String)
    → has_unreached (texted d) seen ≡ ok false
    → has id d ≡ true
    → elem id seen ≡ true
unfolding has_unreached texted has lookup
has-elem [] seen id h p = cc
has-elem ((s, node) ∷ rest) seen id h p =
    let (others, q, r) = >>=-eq-ok (has_unreached (texted rest) seen) _ h in
    let told = ok-injective r in
    let ih : others ≡ false → has id rest ≡ true → elem id seen ≡ true =
      λ e m. has-elem rest seen id (rw e at q) m in
    ground (arith, eq_iff s id)

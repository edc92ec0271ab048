-- ===== src/Json/Access.antt =====
-- Reading and writing the keys of a JSON object.
use skill2workflow.Prelude.{
  String, ◌≡◌, refl, Bool, true, false, Option, none, some, arith, ◌==◌, eq_iff, if◌then◌else◌,
}
use skill2workflow.Json.Values.{Json, null, str, obj, Fields, end, field}

-- d.get(k), where `none` is a missing key
unfoldable pub get : String → Fields → Option Json
get k end = none
get k (field j v fs) = if j == k then some v else get k fs

-- d.get(k), where a missing key is None
unfoldable pub get_null : String → Fields → Json
unfolding get
get_null k fs = elim (get k fs) [ none ↦ null | some v ↦ v ]

-- d.get(k, default)
unfoldable pub get_or : String → Json → Fields → Json
get_or k default fs = elim (get k fs) [ none ↦ default | some v ↦ v ]

-- k in d
unfoldable pub contains : String → Fields → Bool
unfolding get
contains k fs = elim (get k fs) [ none ↦ false | some v ↦ true ]

-- d[k] = v
unfoldable pub put : String → Json → Fields → Fields
put k v end = field k v end
put k v (field j w fs) = if j == k then field k v fs else field j w (put k v fs)

-- d.update(e), in the order of e
unfoldable pub update : Fields → Fields → Fields
unfolding put
update fs end = fs
update fs (field k v rest) = update (put k v fs) rest

-- the object in a value, if `isinstance(value, dict)`
unfoldable pub as_object : Json → Option Fields
as_object (obj fs) = some fs
as_object _ = none

-- the text in a value, if `isinstance(value, str)`
unfoldable pub as_text : Json → Option String
as_text (str s) = some s
as_text _ = none

-- A key of an object reads what was written under it, and any other key what it read before.
pub get-put :
    (key asked : String) (v : Json) (fs : Fields)
    → get asked (put key v fs) ≡ (if key == asked then some v else get asked fs)
unfolding put get
get-put key asked v end = refl
get-put key asked v (field name w rest) =
    let ih = get-put key asked v rest in
    ground (arith, eq_iff key asked, eq_iff name asked, eq_iff name key)

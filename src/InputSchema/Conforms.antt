-- ===== src/InputSchema/Conforms.antt =====
-- When a value keeps to a schema, as a relation.
use Prim.Native.String.{count}
use skill2workflow.Prelude.{String, ◌≡◌, ◌≢◌, Bool, true, false, none, some}
use skill2workflow.Json.{
  ℤ, Float, Json, null, bool, int, float, str, arr, obj, num, Items, nil, cons, Fields, end, field,
  get, get_null, get_or, contains, less, same, as_object, fits_float, is_finite,
}

-- A value that is `beyond` a bound is on its wrong side, which counts if the bound is a finite
-- number. A whole bound that is too great for a float bounds nothing: the check raises.
pub data NotBeyond : Json → Bool → Type 0 where
  whole_bound : {i : ℤ} → fits_float i ≡ true → NotBeyond (int i) false
  finite_bound : {x : Float} → is_finite x ≡ true → NotBeyond (float x) false
  infinite_bound : {x : Float} {beyond : Bool} → is_finite x ≡ false → NotBeyond (float x) beyond
  no_number :
      {bound : Json} {beyond : Bool}
      → ((i : ℤ) → bound ≢ int i)
      → ((x : Float) → bound ≢ float x)
      → NotBeyond bound beyond

-- The schema's type is one of the seven, and the value is of it.
pub data HasType : Json → Json → Type 0 where
  a_none : HasType (str "null") null
  a_truth : {b : Bool} → HasType (str "boolean") (bool b)
  an_integer : {i : ℤ} → HasType (str "integer") (int i)
  a_whole_number : {i : ℤ} → fits_float i ≡ true → HasType (str "number") (int i)
  a_finite_number : {x : Float} → is_finite x ≡ true → HasType (str "number") (float x)
  a_string : {s : String} → HasType (str "string") (str s)
  a_dict : {fs : Fields} → HasType (str "object") (obj fs)
  a_list : {values : Items} → HasType (str "array") (arr values)

-- Equal values of one kind: True is not 1, and 1 is not 1.0.
pub data Equals : Json → Json → Type 0 where
  nones : Equals null null
  truths : {a b : Bool} → same (bool a) (bool b) ≡ true → Equals (bool a) (bool b)
  integers : {a b : ℤ} → same (int a) (int b) ≡ true → Equals (int a) (int b)
  floats : {a b : Float} → same (float a) (float b) ≡ true → Equals (float a) (float b)
  strings : {a b : String} → same (str a) (str b) ≡ true → Equals (str a) (str b)
  lists : {a b : Items} → same (arr a) (arr b) ≡ true → Equals (arr a) (arr b)
  dicts : {a b : Fields} → same (obj a) (obj b) ≡ true → Equals (obj a) (obj b)

-- The value equals one of the candidates.
pub data IsAmong (v : Json) : Items → Type 0 where
  this_one : {c : Json} {rest : Items} → Equals v c → IsAmong v (cons c rest)
  another : {c : Json} {rest : Items} → IsAmong v rest → IsAmong v (cons c rest)

-- Each name is a text and the name of a property that is given.
pub data AllGiven (given : Fields) : Items → Type 0 where
  no_names : AllGiven given nil
  one_name :
      {name : String} {rest : Items}
      → contains name given ≡ true
      → AllGiven given rest
      → AllGiven given (cons (str name) rest)

mutual
  pub data Conforms : Json → Json → Type 0 where
    unchecked : {schema v : Json} → as_object schema ≡ none → Conforms schema v
    conforms :
        {fs : Fields} {v : Json}
        → HasType (get_null "type" fs) v
        → ((candidates : Items) → get_null "enum" fs ≡ arr candidates → IsAmong v candidates)
        → HasShape fs v
        → Conforms (obj fs) v

  pub data HasShape : Fields → Json → Type 0 where
    an_object :
        {fs given properties : Fields}
        → get_or "properties" (obj end) fs ≡ obj properties
        → ((names : Items) → get_or "required" (arr nil) fs ≡ arr names → AllGiven given names)
        → (get_or "additionalProperties" (bool true) fs ≡ bool false
            → (name : String) → contains name given ≡ true
            → contains name properties ≡ true)
        → Properties properties given
        → HasShape fs (obj given)
    an_open_object :
        {fs given : Fields}
        → as_object (get_or "properties" (obj end) fs) ≡ none
        → HasShape fs (obj given)
    an_array :
        {fs : Fields} {values : Items}
        → Values (get_null "items" fs) values
        → HasShape fs (arr values)
    a_text :
        {fs : Fields} {s : String}
        → ((lo : ℤ) → get_null "minLength" fs ≡ int lo → less (num (count s)) (int lo) ≡ false)
        → ((hi : ℤ) → get_null "maxLength" fs ≡ int hi → less (int hi) (num (count s)) ≡ false)
        → HasShape fs (str s)
    a_whole :
        {fs : Fields} {i : ℤ}
        → NotBeyond (get_null "minimum" fs) (less (int i) (get_null "minimum" fs))
        → NotBeyond (get_null "maximum" fs) (less (get_null "maximum" fs) (int i))
        → HasShape fs (int i)
    a_float :
        {fs : Fields} {x : Float}
        → NotBeyond (get_null "minimum" fs) (less (float x) (get_null "minimum" fs))
        → NotBeyond (get_null "maximum" fs) (less (get_null "maximum" fs) (float x))
        → HasShape fs (float x)
    a_bool : {fs : Fields} {b : Bool} → HasShape fs (bool b)
    a_null : {fs : Fields} → HasShape fs null

  -- Each property that the value has keeps to the property's schema.
  pub data Properties : Fields → Fields → Type 0 where
    no_more : {given : Fields} → Properties end given
    absent :
        {name : String} {schema : Json} {rest given : Fields}
        → get name given ≡ none
        → Properties rest given
        → Properties (field name schema rest) given
    present :
        {name : String} {schema v : Json} {rest given : Fields}
        → get name given ≡ some v
        → Conforms schema v
        → Properties rest given
        → Properties (field name schema rest) given

  -- Each item keeps to the schema.
  pub data Values : Json → Items → Type 0 where
    none_left : {schema : Json} → Values schema nil
    one_more :
        {schema v : Json} {rest : Items}
        → Conforms schema v
        → Values schema rest
        → Values schema (cons v rest)

-- ===== src/PyJson.antt =====
-- crates/rqx/src/py_json.rs: the `json=` argument, encoded from Python objects. Objects stand on a
-- heap, since they can be shared and cyclic: `Heap` gives the object at an address. `F64` is Rust's
-- `f64`.
pub mod Depth
pub mod Numbers
use rqx.Base.{
  ℕ, zero, suc, ◌+◌, ◌^◌, Text, text, text_eq, list_beq, nat_eq, ◌==◌, ◌++◌, Bool, true, false,
  ◌||◌, Option, none, some, List, [], ◌∷◌, any, length, ltb, leb, nat_beq, if◌then◌else◌,
}
use rqx.Base.Int.{ℤ, pos, negsuc}
use rqx.Exceptions.{PyErr, PyResult, py_ok, py_err, new_err}
use rqx.Exceptions.Classes

-- `serde_json::Number`
pub data Number (F64 : Type 0) : Type 0 where
  int64 : ℤ → Number F64
  uint64 : ℕ → Number F64
  float64 : F64 → Number F64

-- `serde_json::Value`, whose maps keep the order of insertion
mutual
  pub data Value (F64 : Type 0) : Type 0 where
    null : Value F64
    bool : Bool → Value F64
    number : Number F64 → Value F64
    string : Text → Value F64
    array : Values F64 → Value F64
    object : Members F64 → Value F64

  pub data Values (F64 : Type 0) : Type 0 where
    no_values : Values F64
    value : Value F64 → Values F64 → Values F64

  pub data Members (F64 : Type 0) : Type 0 where
    no_members : Members F64
    member : Text → Value F64 → Members F64 → Members F64

pub data PyObject (F64 : Type 0) : Type 0 where
  py_none : PyObject F64
  py_bool : Bool → PyObject F64
  py_int : ℤ → PyObject F64
  py_float : F64 → PyObject F64
  py_string : Text → PyObject F64
  py_dict : List (ℕ × ℕ) → PyObject F64
  py_list py_tuple : List ℕ → PyObject F64
  -- an object of another type, by the type's name
  py_other : Text → PyObject F64

-- Rust's `f64`, serde_json and Python's `str`, as far as the encoder uses them
pub record Floats : Type 1 where
  pub F64 : Type 0
  -- `Number::from_f64`
  pub from_f64 : F64 → Option F64
  pub is_nan : F64 → Bool
  pub is_positive : F64 → Bool
  -- `to_cow` of a `str`, which fails on lone surrogates, and of the `str()` of a number
  pub to_cow : Text → PyResult Text
  pub str_float : F64 → PyResult Text
  pub str_int : ℤ → PyResult Text

-- the containers on the current path
abbrev pub EncodePath : Type 0
EncodePath = List ℕ

abbrev pub max_depth : ℕ
max_depth = 1000

unfoldable pub enter : EncodePath → ℕ → PyResult EncodePath
enter path address =
    if any (nat_beq address) path
    then py_err (new_err Classes.value_error (text "Circular reference detected"))
    else if leb max_depth (length path)
    then py_err (
        new_err Classes.recursion_error
          (text "maximum recursion depth exceeded while encoding a JSON object"))
    else py_ok (address ∷ path)

-- `Map::insert`
abbrev pub insert_member : {F64 : Type 0} → Text → Value F64 → Members F64 → Members F64
insert_member key v no_members = member key v no_members
insert_member key v (member k w rest) =
    if k == key then member k v rest else member k w (insert_member key v rest)

-- An `i64` holds it, or else a `u64`.
unfoldable pub encode_int : {F64 : Type 0} → ℤ → PyResult (Number F64)
encode_int (pos n) =
    if ltb n (2 ^ 63)
    then py_ok (int64 (pos n))
    else if ltb n (2 ^ 64)
    then py_ok (uint64 n)
    else py_err (
        new_err Classes.overflow_error
          (text "Python int too large to encode as JSON (64-bit limit)"))
encode_int (negsuc n) =
    if ltb n (2 ^ 63)
    then py_ok (int64 (negsuc n))
    else py_err (
        new_err Classes.overflow_error
          (text "Python int too large to encode as JSON (64-bit limit)"))

-- the outcome of a call on fuel: `none` means that the fuel ran out
abbrev pub Encoded : Type 0 → Type 0
Encoded A = Option (PyResult A)

unfoldable pub encoded_then : {A B : Type 0} → Encoded A → (A → Encoded B) → Encoded B
encoded_then none f = none
encoded_then (some (py_err e)) f = some (py_err e)
encoded_then (some (py_ok a)) f = f a

abbrev bad_key : Text → PyResult Text
bad_key name =
    py_err
      (new_err Classes.type_error (text "keys must be str, int, float, bool or None, not " ++ name))

module _ (P : Floats) where
  open P use {F64, from_f64, is_nan, is_positive, to_cow, str_float, str_int}

  unfoldable pub encode_float : F64 → PyResult (Number F64)
  encode_float v = elim (from_f64 v) [
    | some n ↦ py_ok (float64 n)
    | none ↦
        let spelling =
          if is_nan v then text "nan" else if is_positive v then text "inf" else text "-inf" in
        py_err (
          new_err Classes.value_error
            (text "Out of range float values are not JSON compliant: " ++ spelling))
  ]

  abbrev float_key : F64 → PyResult (Number F64) → PyResult Text
  float_key v (py_ok n) = str_float v
  float_key v (py_err e) = py_err e

  unfoldable pub encode_key : PyObject F64 → PyResult Text
  unfolding encode_float
  encode_key (py_string s) = to_cow s
  encode_key py_none = py_ok (text "null")
  encode_key (py_bool true) = py_ok (text "true")
  encode_key (py_bool false) = py_ok (text "false")
  encode_key (py_float v) = float_key v (encode_float v)
  encode_key (py_int i) = str_int i
  encode_key (py_dict items) = bad_key (text "dict")
  encode_key (py_list items) = bad_key (text "list")
  encode_key (py_tuple items) = bad_key (text "tuple")
  encode_key (py_other name) = bad_key name

  abbrev pub of_number : PyResult (Number F64) → Encoded (Value F64)
  of_number (py_ok n) = some (py_ok (number n))
  of_number (py_err e) = some (py_err e)

  abbrev pub of_text : PyResult Text → Encoded (Value F64)
  of_text (py_ok s) = some (py_ok (string s))
  of_text (py_err e) = some (py_err e)

  module _ (heap : ℕ → PyObject F64) where
    -- the items of a list or a tuple
    unfoldable pub encode_items : (ℕ → Encoded (Value F64)) → List ℕ → Encoded (Values F64)
    encode_items encode [] = some (py_ok no_values)
    encode_items encode (a ∷ rest) =
        encoded_then (encode a)
          (λ v. encoded_then (encode_items encode rest) (λ vs. some (py_ok (value v vs))))

    -- the entries of a dict, into the map so far
    unfoldable pub encode_entries :
        (ℕ → Encoded (Value F64)) → List (ℕ × ℕ) → Members F64 → Encoded (Members F64)
    encode_entries encode [] map = some (py_ok map)
    encode_entries encode ((k, a) ∷ rest) map =
        encoded_then (some (encode_key (heap k))) (λ key.
          encoded_then (encode a) (λ v. encode_entries encode rest (insert_member key v map)))

    -- the body of `JsonBody::encode`, over its recursive calls; leaving a container restores the path,
    -- which the caller still has
    unfoldable pub encode_object :
        (EncodePath → ℕ → Encoded (Value F64)) → EncodePath → ℕ → PyObject F64 → Encoded (Value F64)
    encode_object encode path a py_none = some (py_ok null)
    encode_object encode path a (py_bool b) = some (py_ok (bool b))
    encode_object encode path a (py_int i) = of_number (encode_int i)
    encode_object encode path a (py_float v) = of_number (encode_float v)
    encode_object encode path a (py_string s) = of_text (to_cow s)
    encode_object encode path a (py_dict entries) = encoded_then (some (enter path a)) (λ inner.
        encoded_then (encode_entries (encode inner) entries no_members)
          (λ map. some (py_ok (object map))))
    encode_object encode path a (py_list items) =
        encoded_then (some (enter path a)) (λ inner.
          encoded_then (encode_items (encode inner) items) (λ vs. some (py_ok (array vs))))
    encode_object encode path a (py_tuple items) =
        encoded_then (some (enter path a)) (λ inner.
          encoded_then (encode_items (encode inner) items) (λ vs. some (py_ok (array vs))))
    encode_object encode path a (py_other name) = some (
        py_err (
          new_err Classes.type_error
            (text "Object of type " ++ name ++ text " is not JSON serializable")))

    unfoldable pub encode : ℕ → EncodePath → ℕ → Encoded (Value F64)
    encode zero path a = none
    encode (suc fuel) path a = encode_object (λ inner b. encode fuel inner b) path a (heap a)

    -- `extract`, on as many nested calls as the depth limit allows
    unfoldable pub json_body : ℕ → Encoded (Value F64)
    json_body a = encode (suc max_depth) [] a

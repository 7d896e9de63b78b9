-- ===== src/QueryParams/Binding.antt =====
-- crates/rqx/src/query_params.rs: the `params=` argument, and `rqx.QueryParams`. Python's objects are
-- those of PyJson, on a heap; `PyStrings` is what Python answers about them.
pub mod Protocol
pub mod Extraction
use rqx.Base.Int.{ℤ, pos, negsuc}
use rqx.Base.{
  ℕ, ◌^◌, Text, text, ◌++◌, Bool, true, false, not, List, [], ◌∷◌, map, length, Option, none, some,
  ltb, if◌then◌else◌,
}
use rqx.Exceptions.{PyErr, PyResult, py_ok, py_err, new_err}
use rqx.Exceptions.Classes
use rqx.PyJson.{
  PyObject, py_none, py_bool, py_int, py_float, py_string, py_dict, py_list, py_tuple, py_other,
}
use rqx.QueryParams.{
  Pair, QueryPairs, FormUrlencoded, ScalarValue, bool, string, int, scalar, empty, is_empty,
  contains, get, get_list, keys, first_items, set, add, remove, merge, parse, display, from_items,
}
use rqx.QueryParams.Equality.{eq, sorted}

-- `PyString::to_cow`, which fails on lone surrogates, `str()` of a number, and the decoding of bytes
pub record PyStrings (F64 : Type 0) : Type 0 where
  pub to_cow : Text → PyResult Text
  pub str_int : ℤ → PyResult Text
  pub str_float : F64 → PyResult Text
  pub from_utf8_lossy : List ℕ → Text
  -- `Display` of an `f64`, which no parameter reaches: a Python float is sent as its `str()`
  pub display_float : F64 → Text

-- `?`
infixl 5 ◌⟫=◌
abbrev pub ◌⟫=◌ : {A B : Type 0} → PyResult A → (A → PyResult B) → PyResult B
py_ok a ⟫= f = f a
py_err e ⟫= f = py_err e

-- what an iterable gives, item by item; an item is a pair, or the error of getting one
abbrev pub Items : Type 0
Items = List (PyResult (ℕ × ℕ))

-- the argument, by the first of the tests of `extract` that it passes
pub data Params : Type 0 where
  query_params : QueryPairs → Params
  str : Text → Params
  bytes : List ℕ → Params
  dict : List (ℕ × ℕ) → Params
  -- what calling `items` and iterating over its result gives
  has_items : PyResult Items → Params
  iterable : Items → Params
  -- of another type, by its name
  unfit : Text → Params

abbrev pub fits_i64 : ℤ → Bool
fits_i64 (pos n) = ltb n (2 ^ 63)
fits_i64 (negsuc n) = ltb n (2 ^ 63)

module _ {F64 : Type 0} where
  unfoldable pub type_name : PyObject F64 → Text
  type_name py_none = text "NoneType"
  type_name (py_bool b) = text "bool"
  type_name (py_int n) = text "int"
  type_name (py_float v) = text "float"
  type_name (py_string s) = text "str"
  type_name (py_dict entries) = text "dict"
  type_name (py_list items) = text "list"
  type_name (py_tuple items) = text "tuple"
  type_name (py_other name) = name

  abbrev pub unfit_value : PyObject F64 → PyResult (Option (ScalarValue F64))
  unfit_value o = py_err (
      new_err Classes.type_error
        (text "params values must be str, int, float, bool, or None, got " ++ type_name o))

  module _ (S : PyStrings F64) (heap : ℕ → PyObject F64) where
    -- `scalar`, over `PyScalarValue`
    unfoldable pub scalar_value : PyObject F64 → PyResult (Option (ScalarValue F64))
    scalar_value py_none = py_ok none
    scalar_value (py_bool b) = py_ok (some (bool b))
    scalar_value (py_string s) = PyStrings.to_cow S s ⟫= λ t. py_ok (some (string t))
    scalar_value (py_int n) =
        if fits_i64 n
        then py_ok (some (int n))
        else PyStrings.str_int S n ⟫= λ t. py_ok (some (string t))
    scalar_value (py_float v) = PyStrings.str_float S v ⟫= λ t. py_ok (some (string t))
    scalar_value (py_dict entries) = unfit_value (py_dict entries)
    scalar_value (py_list items) = unfit_value (py_list items)
    scalar_value (py_tuple items) = unfit_value (py_tuple items)
    scalar_value (py_other name) = unfit_value (py_other name)

    -- `key`
    unfoldable pub key_text : PyObject F64 → PyResult Text
    key_text (py_string s) = PyStrings.to_cow S s
    key_text o =
        py_err (new_err Classes.type_error (text "params keys must be str, got " ++ type_name o))

    unfoldable pub scalar_values : List ℕ → PyResult (List (Option (ScalarValue F64)))
    scalar_values [] = py_ok []
    scalar_values (a ∷ rest) =
        scalar_value (heap a) ⟫= λ v. (scalar_values rest ⟫= λ vs. py_ok (v ∷ vs))

    -- `values`
    unfoldable pub param_values : PyObject F64 → PyResult (List (Option (ScalarValue F64)))
    param_values (py_list items) = scalar_values items
    param_values (py_tuple items) = scalar_values items
    param_values o = scalar_value o ⟫= λ v. py_ok (v ∷ [])

    -- the loop of `RequestQueryParams::from_items`
    unfoldable pub item_values : Items → PyResult (List (Text × List (Option (ScalarValue F64))))
    item_values [] = py_ok []
    item_values (item ∷ items) = item ⟫= λ (k, v).
        (key_text (heap k) ⟫= λ key.
        (param_values (heap v) ⟫= λ vs. (item_values items ⟫= λ rest. py_ok ((key, vs) ∷ rest))))

    unfoldable pub params_from_items : Items → PyResult QueryPairs
    params_from_items items =
        item_values items ⟫= λ pairs. py_ok (from_items (PyStrings.display_float S) pairs)

    -- `RequestQueryParams::extract`
    unfoldable pub extract : FormUrlencoded → Params → PyResult QueryPairs
    extract form (query_params q) = py_ok q
    extract form (str s) = PyStrings.to_cow S s ⟫= λ t. py_ok (parse form t)
    extract form (bytes b) = py_ok (parse form (PyStrings.from_utf8_lossy S b))
    extract form (dict entries) = params_from_items (map py_ok entries)
    extract form (has_items got) = got ⟫= λ items. params_from_items items
    extract form (iterable items) = params_from_items items
    extract form (unfit name) = py_err (
        new_err Classes.type_error
          (text "params must be a mapping, a sequence of pairs, str, or bytes, got " ++ name))

-- `PyQueryParams::py_new`, over its converted arguments
unfoldable pub py_new : Option QueryPairs → Option QueryPairs → QueryPairs
py_new (some params) kwargs = params
py_new none (some kwargs) = kwargs
py_new none none = empty

-- `get`, with its default
unfoldable pub py_get {ℓ} : {A : Type ℓ} → (Text → A) → QueryPairs → Text → Option A → Option A
py_get to_py q key default = elim (get q key) [ some v ↦ some (to_py v) | none ↦ default ]

unfoldable pub values : QueryPairs → List Text
values q = map (λ p. p.1) (first_items q)

unfoldable pub multi_items : QueryPairs → List Pair
multi_items q = q.pairs

module _ {F64 : Type 0} (display_float : F64 → Text) where
  unfoldable pub py_set : QueryPairs → Text → Option (ScalarValue F64) → QueryPairs
  py_set q key value = set q key (scalar display_float value)

  unfoldable pub py_add : QueryPairs → Text → Option (ScalarValue F64) → QueryPairs
  py_add q key value = add q key (scalar display_float value)

unfoldable pub py_merge : QueryPairs → Option QueryPairs → QueryPairs
py_merge q none = q
py_merge q (some other) = merge q other

abbrev immutable : {A : Type 0} → Text → PyResult A
immutable action = py_err (
    new_err Classes.runtime_error (
      text "QueryParams are immutable since 0.18.0. Use `q = q."
      ++ action
      ++ text "` to create an updated copy."))

unfoldable pub update : {A : Type 0} → QueryPairs → PyResult A
update q = immutable (text "merge(...)")

unfoldable pub setitem : {A : Type 0} → QueryPairs → Text → PyResult A
setitem q key = immutable (text "set(key, value)")

unfoldable pub item_or_error : Text → Option Text → PyResult Text
item_or_error key (some v) = py_ok v
item_or_error key none = py_err (new_err Classes.key_error key)

-- `__getitem__`
unfoldable pub getitem : QueryPairs → Text → PyResult Text
getitem q key = item_or_error key (get q key)

unfoldable pub len : QueryPairs → ℕ
len q = length (keys q)

-- `__bool__`
unfoldable pub truth : QueryPairs → Bool
truth q = not (is_empty q)

unfoldable pub repr : FormUrlencoded → QueryPairs → Text
repr form q = text "QueryParams('" ++ display form q ++ text "')"

-- `__eq__`: an object of another type is unequal
unfoldable pub py_eq : QueryPairs → Option QueryPairs → Bool
py_eq q none = false
py_eq q (some r) = eq q r

-- `__hash__`, with `DefaultHasher` as a parameter, over `Hash for QueryPairs`
unfoldable pub py_hash : (List Pair → ℕ) → QueryPairs → ℕ
py_hash hasher q = hasher (sorted q)

-- ===== src/Headers/Python.antt =====
-- crates/rqx/src/headers.rs and request_headers.rs: `rqx.Headers` and the `headers=` argument.
use rqx.Base.{ℕ, Text, text, ◌++◌, Bool, false, Option, some, List, [], ◌∷◌, map}
use rqx.Error.{Result, ok, err}
use rqx.Exceptions.{PyErr, to_err, core, PyResult, py_ok, py_err, new_err, of_core}
use rqx.Exceptions.Classes
use rqx.PyJson.{PyObject, py_string}
use rqx.QueryParams.Binding.{PyStrings, ◌⟫=◌, Items, type_name}
use rqx.Headers.{HeaderLibrary, get_joined_values_for_key, set_item, delete_item, try_from_pairs}

-- `PyHeaders`: a call, what it answers, and the map after it
pub data Call : Type 0 where
  getitem contains delitem : Text → Call
  setitem : Text → Text → Call
  get : Text → Option Text → Call

pub data Answer : Type 0 where
  gives : Text → Answer
  maybe : Option Text → Answer
  says : Bool → Answer
  nothing : Answer
  raises : PyErr → Answer

unfoldable pub reading : Result Text → Answer
reading (ok s) = gives s
reading (err e) = raises (to_err (core e))

-- `ok().or(default)`
unfoldable pub or_default : Result Text → Option Text → Option Text
or_default (ok s) default = some s
or_default (err e) default = default

module _ (L : HeaderLibrary) where
  open L use {HeaderMap, contains_key, map_beq, debug_map}

  unfoldable pub written : HeaderMap → Result HeaderMap → Answer × HeaderMap
  written m (ok m') = (nothing, m')
  written m (err e) = (raises (to_err (core e)), m)

  unfoldable pub deleted : Result (Unit {0}) × HeaderMap → Answer × HeaderMap
  deleted (ok u, m) = (nothing, m)
  deleted (err e, m) = (raises (to_err (core e)), m)

  unfoldable pub perform : Call → HeaderMap → Answer × HeaderMap
  perform (getitem key) m = (reading (get_joined_values_for_key L m key), m)
  perform (contains key) m = (says (contains_key m key), m)
  perform (delitem key) m = deleted (delete_item L m key)
  perform (setitem key value) m = written m (set_item L m key value)
  perform (get key default) m = (maybe (or_default (get_joined_values_for_key L m key) default), m)

  -- `__eq__`, with the other object as `extract::<RequestHeaders>` gives it
  unfoldable pub headers_eq : HeaderMap → PyResult HeaderMap → Bool
  headers_eq m (py_ok other) = map_beq m other
  headers_eq m (py_err e) = false

  unfoldable pub headers_repr : HeaderMap → Text
  headers_repr m = text "Headers(" ++ debug_map m ++ text ")"

  -- the argument, by the first of the tests of `extract` that it passes
  pub data HeadersArgument : Type 0 where
    headers : HeaderMap → HeadersArgument
    dict : List (ℕ × ℕ) → HeadersArgument
    has_items : PyResult Items → HeadersArgument
    unfit : Text → HeadersArgument

  module _ {F64 : Type 0} (S : PyStrings F64) (heap : ℕ → PyObject F64) where
    -- `RequestHeaders::text`
    unfoldable pub header_text : PyObject F64 → Text → PyResult Text
    header_text (py_string s) role = PyStrings.to_cow S s
    header_text o role = py_err (
        new_err Classes.type_error
          (text "header " ++ role ++ text "s must be str, got " ++ type_name o))

    unfoldable pub item_pairs : Items → PyResult (List (Text × Text))
    item_pairs [] = py_ok []
    item_pairs (item ∷ items) = item ⟫= λ (n, v).
        (header_text (heap n) (text "name") ⟫= λ name.
        (header_text (heap v) (text "value") ⟫= λ value.
        (item_pairs items ⟫= λ rest. py_ok ((name, value) ∷ rest))))

    -- `RequestHeaders::from_items`
    unfoldable pub headers_from_items : Items → PyResult HeaderMap
    headers_from_items items = item_pairs items ⟫= λ pairs. of_core (try_from_pairs L pairs)

    -- `RequestHeaders::extract`
    unfoldable pub extract_headers : HeadersArgument → PyResult HeaderMap
    extract_headers (headers m) = py_ok m
    extract_headers (dict pairs) = headers_from_items (map py_ok pairs)
    extract_headers (has_items got) = got ⟫= λ items. headers_from_items items
    extract_headers (unfit name) =
        py_err (
          new_err Classes.type_error
            (text "headers must be a mapping or rqx.Headers, got " ++ name))

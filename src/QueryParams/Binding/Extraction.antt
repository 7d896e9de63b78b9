-- ===== src/QueryParams/Binding/Extraction.antt =====
-- What a `params=` argument sends: the values of every key, in order, whatever form it is given in.
use rqx.Base.{
  some, true, false, Bool, ℕ, Text, text, text_eq, ◌==◌, List, [], ◌∷◌, ◌++◌, map, Option,
  if◌then◌else◌, ◌≡◌, refl, sym, ap, fun_ext, ◌∙◌, arith, append-nil, append_assoc,
}
use rqx.Exceptions.{PyResult, py_ok, py_err, new_err}
use rqx.Exceptions.Classes
use rqx.Base.Int.{display_i32}
use rqx.PyJson.{
  py_none, py_bool, py_int, py_float, py_string, py_dict, py_list, py_tuple, py_other, PyObject,
}
use rqx.QueryParams.{
  display_scalar, string, int, QueryPairs, FormUrlencoded, ScalarValue, empty, get_list, push,
  scalar, push_values, push_items, from_items,
}
use rqx.QueryParams.Push.{get_list-push, get_list-parse}
use rqx.QueryParams.Push.{values as pair_values}
use rqx.QueryParams.Binding.{
  scalar_value, scalar_values, fits_i64, type_name, PyStrings, ◌⟫=◌, Items, Params, query_params,
  str, bytes, dict, has_items, iterable, unfit, key_text, param_values, item_values,
  params_from_items, extract,
}

bind_assoc :
    {A B C : Type 0} (r : PyResult A) (f : A → PyResult B) (g : B → PyResult C)
    → ((r ⟫= f) ⟫= g) ≡ (r ⟫= λ a. (f a ⟫= g))
bind_assoc (py_ok a) f g = refl
bind_assoc (py_err e) f g = refl

bind_ok : {A : Type 0} (r : PyResult A) → (r ⟫= py_ok) ≡ r
bind_ok (py_ok a) = refl
bind_ok (py_err e) = refl

module _ {F64 : Type 0} (display_float : F64 → Text) (j : Text) where
  -- The texts that the entries of a key send.
  given : List (Text × List (Option (ScalarValue F64))) → List Text
  given [] = []
  given ((key, values) ∷ items) =
      if key == j then map (scalar display_float) values ++ given items else given items

  get_list-push_values :
      (q : QueryPairs) (key : Text) (values : List (Option (ScalarValue F64)))
      → get_list (push_values display_float q key values) j
        ≡ (if key == j then get_list q j ++ map (scalar display_float) values else get_list q j)
  unfolding push_values
  get_list-push_values q key [] = ground (arith, append-nil (get_list q j))
  get_list-push_values q key (value ∷ values) = ground (
    arith,
    get_list-push_values (push q key (scalar display_float value)) key values,
    get_list-push q key (scalar display_float value) j,
    append_assoc (get_list q j) (scalar display_float value ∷ [])
        (map (scalar display_float) values),
  )

  get_list-push_items :
      (q : QueryPairs) (items : List (Text × List (Option (ScalarValue F64))))
      → get_list (push_items display_float q items) j ≡ get_list q j ++ given items
  unfolding push_items given
  get_list-push_items q [] = sym (append-nil (get_list q j))
  get_list-push_items q ((key, values) ∷ items) = ground (
    arith,
    get_list-push_items (push_values display_float q key values) items,
    get_list-push_values q key values,
    append_assoc (get_list q j) (map (scalar display_float) values) (given items),
  )

module _ {F64 : Type 0} (S : PyStrings F64) (heap : ℕ → PyObject F64) (j : Text) where
  abbrev shown : Option (ScalarValue F64) → Text
  shown = scalar (PyStrings.display_float S)

  abbrev pub unsendable : {A : Type 0} → Text → PyResult A
  unsendable name = py_err (
      new_err Classes.type_error
        (text "params values must be str, int, float, bool, or None, got " ++ name))

  -- The text that a Python value is sent as: `None` as nothing, a truth value in lower case, a number
  -- in decimal, which is what `str()` gives of a float or of an int past 64 bits.
  abbrev pub value_text : PyObject F64 → PyResult Text
  value_text py_none = py_ok []
  value_text (py_bool true) = py_ok (text "true")
  value_text (py_bool false) = py_ok (text "false")
  value_text (py_string s) = PyStrings.to_cow S s
  value_text (py_int n) = if fits_i64 n then py_ok (display_i32 n) else PyStrings.str_int S n
  value_text (py_float v) = PyStrings.str_float S v
  value_text (py_dict entries) = unsendable (text "dict")
  value_text (py_list items) = unsendable (text "list")
  value_text (py_tuple items) = unsendable (text "tuple")
  value_text (py_other name) = unsendable name

  abbrev pub value_texts : List ℕ → PyResult (List Text)
  value_texts [] = py_ok []
  value_texts (a ∷ rest) = value_text (heap a) ⟫= λ t. (value_texts rest ⟫= λ ts. py_ok (t ∷ ts))

  -- the texts that one entry sends: those of every element of a list or a tuple
  abbrev pub entry_texts : PyObject F64 → PyResult (List Text)
  entry_texts (py_list items) = value_texts items
  entry_texts (py_tuple items) = value_texts items
  entry_texts o = value_text o ⟫= λ t. py_ok (t ∷ [])

  abbrev pub unfit_key : Text → PyResult Text
  unfit_key name =
      py_err (new_err Classes.type_error (text "params keys must be str, got " ++ name))

  -- a key is a `str`
  abbrev pub entry_key : PyObject F64 → PyResult Text
  entry_key (py_string s) = PyStrings.to_cow S s
  entry_key py_none = unfit_key (text "NoneType")
  entry_key (py_bool b) = unfit_key (text "bool")
  entry_key (py_int n) = unfit_key (text "int")
  entry_key (py_float v) = unfit_key (text "float")
  entry_key (py_dict entries) = unfit_key (text "dict")
  entry_key (py_list items) = unfit_key (text "list")
  entry_key (py_tuple items) = unfit_key (text "tuple")
  entry_key (py_other name) = unfit_key name

  -- What the entries of key `j` send, entry by entry; the first error of any entry ends it.
  unfoldable pub sent_by_items : Items → PyResult (List Text)
  sent_by_items [] = py_ok []
  sent_by_items (item ∷ items) = item ⟫= λ (k, v).
      (entry_key (heap k) ⟫= λ key.
      (entry_texts (heap v) ⟫= λ ts.
      (sent_by_items items ⟫= λ rest. py_ok (if key == j then ts ++ rest else rest))))

  unfoldable pub sent : FormUrlencoded → Params → PyResult (List Text)
  sent form (query_params q) = py_ok (get_list q j)
  sent form (str s) = PyStrings.to_cow S s ⟫= λ t. py_ok (pair_values j (form.parse_pairs t))
  sent form (bytes b) = py_ok (pair_values j (form.parse_pairs (PyStrings.from_utf8_lossy S b)))
  sent form (dict entries) = sent_by_items (map py_ok entries)
  sent form (has_items got) = got ⟫= sent_by_items
  sent form (iterable items) = sent_by_items items
  sent form (unfit name) = py_err (
      new_err Classes.type_error
        (text "params must be a mapping, a sequence of pairs, str, or bytes, got " ++ name))

  -- a result, with its values shown
  abbrev map_shown : PyResult (List (Option (ScalarValue F64))) → PyResult (List Text)
  map_shown r = r ⟫= λ vs. py_ok (map shown vs)

  shown-scalar_value :
      (o : PyObject F64) → (scalar_value S heap o ⟫= λ v. py_ok (shown v)) ≡ value_text o
  unfolding scalar_value scalar type_name display_scalar
  shown-scalar_value py_none = refl
  shown-scalar_value (py_bool true) = refl
  shown-scalar_value (py_bool false) = refl
  shown-scalar_value (py_string s) =
      bind_assoc (PyStrings.to_cow S s) _ _ ∙ bind_ok (PyStrings.to_cow S s)
  shown-scalar_value (py_int n) = by_width (fits_i64 n)
    where
      by_width :
          (b : Bool)
          → ((if b
                then py_ok (some (int n))
                else (PyStrings.str_int S n ⟫= λ t. py_ok (some (string t))))
              ⟫= λ v. py_ok (shown v))
            ≡ (if b then py_ok (display_i32 n) else PyStrings.str_int S n)
      by_width true = refl
      by_width false = bind_assoc (PyStrings.str_int S n) _ _ ∙ bind_ok (PyStrings.str_int S n)
  shown-scalar_value (py_float v) =
      bind_assoc (PyStrings.str_float S v) _ _ ∙ bind_ok (PyStrings.str_float S v)
  shown-scalar_value (py_dict entries) = refl
  shown-scalar_value (py_list items) = refl
  shown-scalar_value (py_tuple items) = refl
  shown-scalar_value (py_other name) = refl

  shown-scalar_values :
      (items : List ℕ) → map_shown (scalar_values S heap items) ≡ value_texts items
  unfolding scalar_values
  shown-scalar_values [] = refl
  shown-scalar_values (a ∷ rest) =
      by_first (scalar_value S heap (heap a)) (scalar_values S heap rest)
      ∙ rw (shown-scalar_value (heap a)) (rw (shown-scalar_values rest) refl)
    where
      by_first :
          (r : PyResult (Option (ScalarValue F64))) (q : PyResult (List (Option (ScalarValue F64))))
          → map_shown (r ⟫= λ v. (q ⟫= λ vs. py_ok (v ∷ vs)))
            ≡ ((r ⟫= λ v. py_ok (shown v)) ⟫= λ t. (map_shown q ⟫= λ ts. py_ok (t ∷ ts)))
      by_first (py_err e) q = refl
      by_first (py_ok v) (py_err e) = refl
      by_first (py_ok v) (py_ok vs) = refl

  -- an entry of one value
  one_shown :
      (o : PyObject F64)
      → map_shown (scalar_value S heap o ⟫= λ v. py_ok (v ∷ []))
        ≡ (value_text o ⟫= λ t. py_ok (t ∷ []))
  one_shown o =
      by_value (scalar_value S heap o) ∙ ap (λ r. r ⟫= λ t. py_ok (t ∷ [])) (shown-scalar_value o)
    where
      by_value :
          (r : PyResult (Option (ScalarValue F64)))
          → map_shown (r ⟫= λ v. py_ok (v ∷ []))
            ≡ ((r ⟫= λ v. py_ok (shown v)) ⟫= λ t. py_ok (t ∷ []))
      by_value (py_ok v) = refl
      by_value (py_err e) = refl

  shown-param_values : (o : PyObject F64) → map_shown (param_values S heap o) ≡ entry_texts o
  unfolding param_values scalar_value type_name
  shown-param_values (py_list items) = shown-scalar_values items
  shown-param_values (py_tuple items) = shown-scalar_values items
  shown-param_values py_none = one_shown py_none
  shown-param_values (py_bool b) = one_shown (py_bool b)
  shown-param_values (py_int n) = one_shown (py_int n)
  shown-param_values (py_float v) = one_shown (py_float v)
  shown-param_values (py_string s) = one_shown (py_string s)
  shown-param_values (py_dict entries) = refl
  shown-param_values (py_other name) = refl

  key_text-entry_key : (o : PyObject F64) → key_text S heap o ≡ entry_key o
  unfolding key_text type_name
  key_text-entry_key py_none = refl
  key_text-entry_key (py_bool b) = refl
  key_text-entry_key (py_int n) = refl
  key_text-entry_key (py_float v) = refl
  key_text-entry_key (py_string s) = refl
  key_text-entry_key (py_dict entries) = refl
  key_text-entry_key (py_list items) = refl
  key_text-entry_key (py_tuple items) = refl
  key_text-entry_key (py_other name) = refl

  item_values-sent :
      (items : Items)
      → (item_values S heap items ⟫= λ pairs. py_ok (given (PyStrings.display_float S) j pairs))
        ≡ sent_by_items items
  unfolding item_values sent_by_items given
  item_values-sent [] = refl
  item_values-sent (py_err e ∷ items) = refl
  item_values-sent (py_ok (k, v) ∷ items) =
      by_key (key_text S heap (heap k)) (param_values S heap (heap v)) (item_values S heap items)
        (sent_by_items items) (item_values-sent items)
      ∙ rw (shown-param_values (heap v)) (rw (key_text-entry_key (heap k)) refl)
    where
      by_key :
          (key : PyResult Text) (vs : PyResult (List (Option (ScalarValue F64))))
          (rest : PyResult (List (Text × List (Option (ScalarValue F64)))))
          (more : PyResult (List Text))
          → (rest ⟫= λ pairs. py_ok (given (PyStrings.display_float S) j pairs)) ≡ more
          → ((key ⟫= λ k'. (vs ⟫= λ vs'. (rest ⟫= λ r. py_ok ((k', vs') ∷ r)))) ⟫= λ pairs.
              py_ok (given (PyStrings.display_float S) j pairs))
            ≡ (key ⟫= λ k'.
                (map_shown vs ⟫= λ ts. (more ⟫= λ m. py_ok (if k' == j then ts ++ m else m))))
      by_key (py_err e) vs rest more h = refl
      by_key (py_ok k') (py_err e) rest more h = refl
      by_key (py_ok k') (py_ok vs') (py_err e) more h = rw (← h) refl
      by_key (py_ok k') (py_ok vs') (py_ok r) more h = rw (← h) refl

  params_from_items-sent :
      (items : Items)
      → (params_from_items S heap items ⟫= λ q. py_ok (get_list q j)) ≡ sent_by_items items
  unfolding params_from_items from_items get_list
  params_from_items-sent items =
      bind_assoc (item_values S heap items) _ _
      ∙ ap (λ f. item_values S heap items ⟫= f)
          (fun_ext
            λ pairs. ap py_ok (get_list-push_items (PyStrings.display_float S) j empty pairs))
      ∙ item_values-sent items

  -- Whatever is given for `params=`, the values of every key are those that its entries send, in
  -- order: a `str` or `bytes` by its parsed pairs; an entry of a mapping or a sequence of pairs under a
  -- key that is a `str`, as the text of its value, or those of every element of a list or tuple (`None`
  -- as an empty text, a truth value in lower case, a number in decimal). What cannot be sent raises the
  -- error of the first such entry.
  pub extract-sent :
      (form : FormUrlencoded) (params : Params)
      → (extract S heap form params ⟫= λ q. py_ok (get_list q j)) ≡ sent form params
  unfolding extract sent
  extract-sent form (query_params q) = refl
  extract-sent form (str s) =
      bind_assoc (PyStrings.to_cow S s) _ _
      ∙ ap (λ f. PyStrings.to_cow S s ⟫= f) (fun_ext λ t. ap py_ok (get_list-parse form t j))
  extract-sent form (bytes b) = ap py_ok (get_list-parse form (PyStrings.from_utf8_lossy S b) j)
  extract-sent form (dict entries) = params_from_items-sent (map py_ok entries)
  extract-sent form (has_items got) =
      bind_assoc got _ _ ∙ ap (λ f. got ⟫= f) (fun_ext params_from_items-sent)
  extract-sent form (iterable items) = params_from_items-sent items
  extract-sent form (unfit name) = refl

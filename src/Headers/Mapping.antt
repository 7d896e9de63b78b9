-- ===== src/Headers/Mapping.antt =====
-- `rqx.Headers` against a plain mapping from names to lists of values.
use rqx.Base.{
  Text, text, ◌++◌, Bool, true, false, not, Option, none, some, List, [], ◌∷◌, map, is_empty,
  if◌then◌else◌, ◌≡◌, refl, sym, ap, ◌∙◌, ◌⊎◌, inl, inr,
}
use rqx.Error.{Result}
use rqx.Exceptions.{core_err, to_err, new_err}
use rqx.Exceptions.Classes
use rqx.Url.Library.{Tried, fine, failing}
use rqx.Headers.{
  HeaderLibrary, HeaderLaws, is_name, same_name, shown, join_texts, joined_or_missing,
  get_joined_values_for_key, names, set_named, set_value, set_result, set_item, removed_or_missing,
  delete_item, too_many,
}
use rqx.Headers.Python.{
  Call, getitem, contains, delitem, setitem, get, Answer, gives, maybe, says, nothing, raises,
  reading, written, deleted, or_default, perform,
}

abbrev pub key_error : Text → Answer
key_error key = raises (new_err Classes.key_error key)

abbrev pub IsValueError : Answer → Type 0
IsValueError a = (message : Text) × (a ≡ raises (new_err Classes.value_error message))

module _ (L : HeaderLibrary) where
  open L use {HeaderMap, HeaderName, HeaderValue, parse_name, parse_value, get_all, remove_entry}

  abbrev pub View : Type 0
  View = Text → List Text

  -- the values of each name, as the methods show them
  abbrev pub view : HeaderMap → View
  view m j = map (shown L) (get_all m j)

  abbrev pub value_text : Tried HeaderValue → Text
  value_text (fine v) = shown L v
  value_text (failing e) = []

  abbrev pub shown_text : Text → Text
  shown_text value = value_text (parse_value value)

  -- `http` takes the name and the value
  abbrev pub IsTaken : Text → Text → Type 0
  IsTaken key value =
      ((n : HeaderName) × (parse_name key ≡ fine n))
      × ((v : HeaderValue) × (parse_value value ≡ fine v))

  -- the map has no room for them
  abbrev pub IsFull : HeaderMap → Text → Text → Type 0
  IsFull m key value =
      (n : HeaderName) × (v : HeaderValue) × (x : Text) × (parse_name key ≡ fine n)
      × (parse_value value ≡ fine v)
      × (HeaderLibrary.try_insert L m n v ≡ failing x)

  -- the name, the value or the size is not what `http` takes
  abbrev pub IsRejected : HeaderMap → Text → Text → Type 0
  IsRejected m key value =
      ((x : Text) × (parse_name key ≡ failing x))
      ⊎ (((x : Text) × (parse_value value ≡ failing x)) ⊎ IsFull m key value)

  -- What a call does to a mapping of names to lists of values.
  -- `rejected` says what setting a value is refused for.
  abbrev pub Implements : (Text → Text → Type 0) → Call → View → Answer → View → Type 0
  Implements rejected (getitem key) w a w' =
      (a ≡ elim (w key) [ [] ↦ key_error key | v ∷ vs ↦ gives (join_texts (v ∷ vs)) ]) × (w' ≡ w)
  Implements rejected (contains key) w a w' = (a ≡ says (not (is_empty (w key)))) × (w' ≡ w)
  Implements rejected (get key default) w a w' =
      (a ≡ elim (w key) [ [] ↦ maybe default | v ∷ vs ↦ maybe (some (join_texts (v ∷ vs))) ])
      × (w' ≡ w)
  Implements rejected (setitem key value) w a w' =
      (IsTaken key value
        × (a ≡ nothing)
        × ((j : Text) → w' j ≡ (if same_name L key j then shown_text value ∷ [] else w j)))
      ⊎ (rejected key value × IsValueError a × (w' ≡ w))
  Implements rejected (delitem key) w a w' =
      (a ≡ elim (w key) [ [] ↦ key_error key | v ∷ vs ↦ nothing ])
      × ((j : Text) → w' j ≡ (if same_name L key j then [] else w j))

  by_reading :
      (key : Text) (vs : List Text)
      → reading (joined_or_missing key vs)
        ≡ elim vs [ [] ↦ key_error key | v ∷ ws ↦ gives (join_texts (v ∷ ws)) ]
  unfolding reading joined_or_missing core_err to_err
  by_reading key [] = refl
  by_reading key (v ∷ vs) = refl

  by_default :
      (key : Text) (default : Option Text) (vs : List Text)
      → maybe (or_default (joined_or_missing key vs) default)
        ≡ elim vs [ [] ↦ maybe default | v ∷ ws ↦ maybe (some (join_texts (v ∷ ws))) ]
  unfolding or_default joined_or_missing
  by_default key default [] = refl
  by_default key default (v ∷ vs) = refl

  not_empty-map : (vs : List HeaderValue) → is_empty vs ≡ is_empty (map (shown L) vs)
  not_empty-map [] = refl
  not_empty-map (v ∷ vs) = refl

  module _ (laws : HeaderLaws L) where
    insert-view :
        (m m' : HeaderMap) (key : Text) (n : HeaderName) (v : HeaderValue)
        → parse_name key ≡ fine n
        → HeaderLibrary.try_insert L m n v ≡ fine m'
        → (j : Text) → view m' j ≡ (if same_name L key j then shown L v ∷ [] else view m j)
    insert-view m m' key n v e f j =
        rw (laws.get_all_insert m m' n v j f) (by_test (is_name L n j))
        ∙ ap (λ r. if names L r j then shown L v ∷ [] else view m j) (sym e)
      where
        by_test :
            (b : Bool)
            → map (shown L) (if b then v ∷ [] else get_all m j)
              ≡ (if b then shown L v ∷ [] else view m j)
        by_test true = refl
        by_test false = refl

    setitem-Implements :
        (m : HeaderMap) (key value : Text)
        → let (a, m') = written L m (set_item L m key value) in
          Implements (IsRejected m) (setitem key value) (view m) a (view m')
    unfolding set_item set_named set_value set_result written core_err to_err
    setitem-Implements m key value = by_name (parse_name key) refl
      where
        Goal : Result HeaderMap → Type 0
        Goal r =
            let (a, m') = written L m r in
            Implements (IsRejected m) (setitem key value) (view m) a (view m')

        by_map :
            (n : HeaderName) (v : HeaderValue) (r : Tried HeaderMap)
            → parse_name key ≡ fine n
            → parse_value value ≡ fine v
            → HeaderLibrary.try_insert L m n v ≡ r
            → Goal (set_result L r)
        by_map n v (fine m') e f g = inl (
          ((n, e), (v, f)),
          refl,
          λ j.
              insert-view m m' key n v e g j
              ∙ ap (λ r. if same_name L key j then value_text r ∷ [] else view m j) (sym f),
        )
        by_map n v (failing x) e f g = inr (inr (inr (n, v, x, e, f, g)), (too_many x, refl), refl)

        by_value :
            (n : HeaderName) (r : Tried HeaderValue)
            → parse_name key ≡ fine n
            → parse_value value ≡ r
            → Goal (set_value L m n r)
        by_value n (fine v) e f = by_map n v (HeaderLibrary.try_insert L m n v) e f refl
        by_value n (failing x) e f =
            inr (inr (inl (x, f)), (text "invalid header value " ++ x, refl), refl)

        by_name : (r : Tried HeaderName) → parse_name key ≡ r → Goal (set_named L m value r)
        by_name (fine n) e = by_value n (parse_value value) e refl
        by_name (failing x) e = inr (inl (x, e), (text "invalid header name " ++ x, refl), refl)

    abbrev answer_of : Text → Option HeaderValue → Answer
    answer_of key none = key_error key
    answer_of key (some v) = nothing

    -- what `remove` gave decides the answer, and its map is kept
    deleted-entry :
        (key : Text) (o : Option HeaderValue) (m' : HeaderMap)
        → deleted L (removed_or_missing L key (o, m')) ≡ (answer_of key o, m')
    unfolding removed_or_missing deleted core_err to_err
    deleted-entry key none m' = refl
    deleted-entry key (some v) m' = refl

    by_first :
        (key : Text) (vs : List HeaderValue)
        → answer_of key (elim vs [ [] ↦ none | v ∷ ws ↦ some v ])
          ≡ elim (map (shown L) vs) [ [] ↦ key_error key | v ∷ ws ↦ nothing ]
    by_first key [] = refl
    by_first key (v ∷ vs) = refl

    delitem-Implements :
        (m : HeaderMap) (key : Text)
        → let (a, m') = deleted L (delete_item L m key) in
          Implements (IsRejected m) (delitem key) (view m) a (view m')
    unfolding delete_item
    delitem-Implements m key =
        let whole = deleted-entry key (remove_entry m key).0 (remove_entry m key).1 in
        (
          ap (λ p. p.0) whole
              ∙ ap (answer_of key) (laws.removed m key)
              ∙ by_first key (get_all m key),
          λ j.
              ap (λ p. view p.1 j) whole
              ∙ ap (map (shown L)) (laws.get_all_remove m key j)
              ∙ by_test (same_name L key j) (get_all m j),
        )
      where
        by_test :
            (b : Bool) (vs : List HeaderValue)
            → map (shown L) (if b then [] else vs) ≡ (if b then [] else map (shown L) vs)
        by_test true vs = refl
        by_test false vs = refl

    -- Every call of `rqx.Headers` does to the values of each name what it would do to a mapping of
    -- names to lists of values: `[]` joins a name's values; setting one replaces them all, under
    -- whatever spelling of the name, where `http` takes the name and the value and has room for them,
    -- and otherwise (a name, a value or a size that `http` refuses) is a ValueError that changes nothing.
    pub perform-Implements :
        (call : Call) (m : HeaderMap)
        → let (a, m') = perform L call m in Implements (IsRejected m) call (view m) a (view m')
    unfolding perform get_joined_values_for_key
    perform-Implements (getitem key) m = (by_reading key (view m key), refl)
    perform-Implements (contains key) m = (
      ap (λ b. says b) (laws.contains_values m key ∙ ap not (not_empty-map (get_all m key))),
      refl,
    )
    perform-Implements (delitem key) m = delitem-Implements m key
    perform-Implements (setitem key value) m = setitem-Implements m key value
    perform-Implements (get key default) m = (by_default key default (view m key), refl)

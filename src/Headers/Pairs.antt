-- ===== src/Headers/Pairs.antt =====
-- The headers that a list of pairs makes, as `try_from_pairs` of crates/rqx-core/src/headers.rs
-- builds them.
use rqx.Base.{
  Text, Bool, true, false, List, [], ◌∷◌, ◌++◌, map, if◌then◌else◌, ◌≡◌, refl, sym, ap, ◌∙◌, arith,
  append-nil, append_assoc,
}
use rqx.Error.{Result, ok, err, invalid_argument, ◌>>=◌}
use rqx.Url.Library.{Tried, fine, failing}
use rqx.Headers.{
  HeaderLibrary, HeaderLaws, is_name, names, same_name, shown, append_value, append_named,
  append_pairs, try_from_pairs, too_many, invalid_name, invalid_value,
}
use rqx.Headers.Mapping.{view, value_text, shown_text}

module _ (L : HeaderLibrary) where
  open L use {HeaderMap, HeaderName, HeaderValue, parse_name, parse_value, get_all, try_append}

  -- The values of a name's pairs, as they are shown.
  pub texts_of : Text → List (Text × Text) → List Text
  texts_of j [] = []
  texts_of j ((key, value) ∷ pairs) =
      if same_name L key j then shown_text L value ∷ texts_of j pairs else texts_of j pairs

  pub data PairsPost (before : Text → List Text) (pairs : List (Text × Text))
      : Result HeaderMap → Type 0 where
    taken :
        (m : HeaderMap)
        → ((j : Text) → view L m j ≡ before j ++ texts_of j pairs)
        → PairsPost before pairs (ok m)
    refused : (message : Text) → PairsPost before pairs (err (invalid_argument message))

  map-snoc :
      (vs : List HeaderValue) (v : HeaderValue)
      → map (shown L) (vs ++ v ∷ []) ≡ map (shown L) vs ++ shown L v ∷ []
  map-snoc [] v = refl
  map-snoc (w ∷ vs) v = ap (λ ts. shown L w ∷ ts) (map-snoc vs v)

  module _ (laws : HeaderLaws L) where
    append-view :
        (m m' : HeaderMap) (n : HeaderName) (v : HeaderValue) (j : Text)
        → try_append m n v ≡ fine m'
        → view L m' j ≡ (if is_name L n j then view L m j ++ shown L v ∷ [] else view L m j)
    append-view m m' n v j e =
        ap (map (shown L)) (laws.get_all_append m m' n v j e) ∙ by_test (is_name L n j)
      where
        by_test :
            (b : Bool)
            → map (shown L) (if b then get_all m j ++ v ∷ [] else get_all m j)
              ≡ (if b then view L m j ++ shown L v ∷ [] else view L m j)
        by_test true = map-snoc (get_all m j) v
        by_test false = refl

    append_named-PairsPost :
        (m : HeaderMap) (key value : Text)
        → PairsPost (view L m) ((key, value) ∷ []) (append_named L m key value (parse_name key))
    unfolding append_named append_value texts_of
    append_named-PairsPost m key value = by_name (parse_name key) refl
      where
        Goal : Result HeaderMap → Type 0
        Goal r = PairsPost (view L m) ((key, value) ∷ []) r

        by_test :
            (b : Bool) (before : List Text) (t u : Text)
            → t ≡ u
            → (if b then before ++ t ∷ [] else before) ≡ before ++ (if b then u ∷ [] else [])
        by_test true before t u h = ap (λ x. before ++ x ∷ []) h
        by_test false before t u h = sym (append-nil before)

        by_map :
            (n : HeaderName) (v : HeaderValue) (r : Tried HeaderMap)
            → parse_name key ≡ fine n
            → parse_value value ≡ fine v
            → try_append m n v ≡ r
            → Goal (elim r [ failing e ↦ err (invalid_argument (too_many e)) | fine m' ↦ ok m' ])
        by_map n v (failing x) e f g = refused (too_many x)
        by_map n v (fine m') e f g = taken m' (λ j.
            append-view m m' n v j g
            ∙ by_test (is_name L n j) (view L m j) (shown L v) (shown_text L value)
                (ap (value_text L) (sym f))
            ∙ ap (λ r. view L m j ++ (if names L r j then shown_text L value ∷ [] else [])) (sym e))

        by_value :
            (n : HeaderName) (r : Tried HeaderValue)
            → parse_name key ≡ fine n
            → parse_value value ≡ r
            → Goal (append_value L m value n r)
        by_value n (failing x) e f = refused (invalid_value L value x)
        by_value n (fine v) e f = by_map n v (try_append m n v) e f refl

        by_name : (r : Tried HeaderName) → parse_name key ≡ r → Goal (append_named L m key value r)
        by_name (failing x) e = refused (invalid_name L key x)
        by_name (fine n) e = by_value n (parse_value value) e refl

    append_pairs-PairsPost :
        (m : HeaderMap) (pairs : List (Text × Text))
        → PairsPost (view L m) pairs (append_pairs L m pairs)
    unfolding append_pairs texts_of
    append_pairs-PairsPost m [] = taken m (λ j. sym (append-nil (view L m j)))
    append_pairs-PairsPost m ((key, value) ∷ pairs) =
        by_first (append_named L m key value (parse_name key)) (append_named-PairsPost m key value)
          (λ m'. append_pairs-PairsPost m' pairs)
      where
        by_rest :
            (m' : HeaderMap) (r : Result HeaderMap)
            → ((j : Text) → view L m' j ≡ view L m j ++ texts_of j ((key, value) ∷ []))
            → PairsPost (view L m') pairs r
            → PairsPost (view L m) ((key, value) ∷ pairs) r
        by_rest m' r first (taken m'' rest) = taken m'' (λ j.
            rest j
            ∙ ap (λ ts. ts ++ texts_of j pairs) (first j)
            ∙ append_assoc (view L m j) (texts_of j ((key, value) ∷ [])) (texts_of j pairs)
            ∙ ap (λ ts. view L m j ++ ts) (ground arith))
        by_rest m' r first (refused message) = refused message

        by_first :
            (r : Result HeaderMap)
            → PairsPost (view L m) ((key, value) ∷ []) r
            → ((m' : HeaderMap) → PairsPost (view L m') pairs (append_pairs L m' pairs))
            → PairsPost (view L m) ((key, value) ∷ pairs) (r >>= λ m'. append_pairs L m' pairs)
        by_first r (taken m' first) rest = by_rest m' (append_pairs L m' pairs) first (rest m')
        by_first r (refused message) rest = refused message

    -- Headers made of pairs have, under every spelling of a name, the values of that name's pairs in
    -- order; the only other outcome is an error that is raised as a ValueError.
    pub try_from_pairs-PairsPost :
        (pairs : List (Text × Text)) → PairsPost (λ j. []) pairs (try_from_pairs L pairs)
    unfolding try_from_pairs
    try_from_pairs-PairsPost pairs =
        by_start (append_pairs L (HeaderLibrary.empty_map L) pairs)
          (append_pairs-PairsPost (HeaderLibrary.empty_map L) pairs)
      where
        by_start :
            (r : Result HeaderMap)
            → PairsPost (view L (HeaderLibrary.empty_map L)) pairs r
            → PairsPost (λ j. []) pairs r
        by_start r (taken m h) =
            taken m
              (λ j. h j ∙ ap (λ vs. map (shown L) vs ++ texts_of j pairs) (laws.get_all_empty j))
        by_start r (refused message) = refused message

-- ===== src/Url/Copies.antt =====
-- The copies of a reference with other parameters, crates/rqx-core/src/url/reference.rs, where the
-- reference has no host.
use rqx.Base.{
  Text, false, Option, none, List, some, [], ◌∷◌, ◌++◌, contains_char, ◌≡◌, refl, ap, ◌∙◌, arith,
}
use rqx.Error.{Result, ok}
use rqx.QueryParams.{
  Pair, QueryPairs, FormUrlencoded, display, parse, ScalarValue, scalar, set, add, remove, merge,
}
use rqx.Response.{unwrap_or}
use rqx.Url.Marks.{question, hash, split_reference, marked, composed_text}
use rqx.Url.Library.{UrlLibrary, relative_without_base, fine}
use rqx.Url.Reference.{
  UrlReference, relative, username, password, port, parse_reference, parse_relative, compose,
  scheme, encoded_host, encoded_path, query, fragment,
}
use rqx.Url.Joining.{
  params, with_params, copy_set_param, copy_add_param, copy_remove_param, copy_merge_params,
}
use rqx.Url.Splitting.{written, split_reference-composed_text}

unwrap_or-written : (part : Text) → unwrap_or (written part) [] ≡ part
unwrap_or-written [] = refl
unwrap_or-written (c ∷ part) = refl

module _ (L : UrlLibrary) where
  open L use {
    Relative, parse_url, parse_uri, relative_path, relative_query, relative_fragment, authority_str,
  }

  abbrev pub parts : Relative → Text × (Option Text × Option Text)
  parts r = (relative_path r, (relative_query r, relative_fragment r))

  parse_reference-relative :
      (s : Text) (r : Relative)
      → parse_url s ≡ relative_without_base
      → parse_uri s ≡ fine r
      → parse_reference L s ≡ ok (relative r)
  unfolding parse_reference parse_relative
  parse_reference-relative s r unparsed read = ground arith

module _ (L : UrlLibrary) (form : FormUrlencoded) (reference : UrlReference L) where
  open L use {Relative, parse_url, parse_uri, authority_str}

  -- the text of the reference with other parameters
  unfoldable pub copied_text : QueryPairs → Text
  copied_text pairs =
      encoded_path L reference
      ++ marked question (display form pairs)
      ++ marked hash (fragment L reference)

  -- `result` is a relative reference with the path and the fragment of `reference`, and `pairs` for
  -- its parameters, as far as a query can tell them
  unfoldable pub IsCopy : QueryPairs → Result (UrlReference L) → Type 0
  IsCopy pairs result =
      (copied : UrlReference L) × ((result ≡ ok copied)
        × ((params L form copied ≡ parse form (display form pairs))
            × ((encoded_path L copied ≡ encoded_path L reference)
                × ((fragment L copied ≡ fragment L reference) × (scheme L copied ≡ [])))))

  module _ (no_host : encoded_host L reference ≡ [])
      (path_question : contains_char question (encoded_path L reference) ≡ false)
      (path_hash : contains_char hash (encoded_path L reference) ≡ false)
      (escapes_hash : (ps : List Pair) → contains_char hash (form.serialize ps) ≡ false)
      (next : QueryPairs → Relative)
      (no_scheme : (pairs : QueryPairs) → parse_url (copied_text pairs) ≡ relative_without_base)
      (reads : (pairs : QueryPairs) → parse_uri (copied_text pairs) ≡ fine (next pairs))
      (no_authority : (pairs : QueryPairs) → authority_str (next pairs) ≡ none)
      (splits : (s : Text) (r : Relative)
        → parse_uri s ≡ fine r
        → authority_str r ≡ none
        → parts L r ≡ split_reference s) where
    parts_lem :
        (pairs : QueryPairs)
        → parts L (next pairs) ≡ (
          encoded_path L reference,
          (written (display form pairs), written (fragment L reference)),
        )
    unfolding composed_text copied_text display
    parts_lem pairs =
        splits (copied_text pairs) (next pairs) (reads pairs) (no_authority pairs)
        ∙ split_reference-composed_text [] [] [] none (encoded_path L reference)
            (display form pairs) (fragment L reference) path_question path_hash
            (escapes_hash pairs.pairs)

    with_params-ok :
        (pairs : QueryPairs) → with_params L form reference pairs ≡ ok (relative (next pairs))
    unfolding with_params compose composed_text copied_text
    with_params-ok pairs =
        ap
          (λ host. parse_reference L (
            composed_text (scheme L reference) (username L reference) (password L reference) host
              (port L reference) (encoded_path L reference) (display form pairs)
              (fragment L reference)))
          no_host
        ∙ parse_reference-relative L (copied_text pairs) (next pairs) (no_scheme pairs)
            (reads pairs)

    with_params-IsCopy : (pairs : QueryPairs) → IsCopy pairs (with_params L form reference pairs)
    unfolding IsCopy params query encoded_path fragment scheme
    with_params-IsCopy pairs =
        let split = parts_lem pairs in
        (
          relative (next pairs),
          (
            with_params-ok pairs,
            (
              ap (λ p. parse form (unwrap_or p.1.0 [])) split
                  ∙ ap (parse form) (unwrap_or-written (display form pairs)),
              (
                ap (λ p. p.0) split,
                (
                  ap (λ p. unwrap_or p.1.1 []) split ∙ unwrap_or-written (fragment L reference),
                  refl,
                ),
              ),
            ),
          ),
        )

    -- For a reference whose host is empty and whose path has no ? or #, if form_urlencoded
    -- writes no #, and if the parsers take the text with other parameters for a relative
    -- reference without an authority, split where the first ? and # are: copy_set_param,
    -- copy_add_param, copy_remove_param and copy_merge_params return, without an error, a
    -- reference with the same path and fragment and without a scheme, whose parameters are what
    -- form_urlencoded reads of the edited ones as it wrote them; copy_merge_params of no
    -- parameters returns the reference itself.
    pub copies_lem :
        {F : Type 0} (display_float : F → Text) (key : Text) (value : Option (ScalarValue F))
        (other : QueryPairs)
        → IsCopy
            (set (params L form reference) key (scalar display_float value))
            (copy_set_param L form display_float reference key value)
          × (IsCopy
                (add (params L form reference) key (scalar display_float value))
                (copy_add_param L form display_float reference key value)
              × (IsCopy
                    (remove (params L form reference) key)
                    (copy_remove_param L form reference key)
                  × (IsCopy
                        (merge (params L form reference) other)
                        (copy_merge_params L form reference (some other))
                      × (copy_merge_params L form reference none ≡ ok reference))))
    unfolding copy_set_param copy_add_param copy_remove_param copy_merge_params
    copies_lem display_float key value other =
        let held = params L form reference in
        let added = scalar display_float value in
        (
          with_params-IsCopy (set held key added),
          (
            with_params-IsCopy (add held key added),
            (with_params-IsCopy (remove held key), (with_params-IsCopy (merge held other), refl)),
          ),
        )

-- ===== src/Tests/Addresses.antt =====
-- The theorem on the copies of a reference, at a reference without a host.
use rqx.Base.{
  ℕ, Text, text, nat_eq, ◌==◌, ◌+◌, ◌-◌, false, none, some, List, [], ◌∷◌, ◌++◌, if◌then◌else◌,
  contains_char, ◌≡◌, refl, sym, ap, arith,
}
use rqx.Error.{ok}
use rqx.QueryParams.{Pair, FormUrlencoded, string, scalar, set, add, remove, merge}
use rqx.Url.Library.{UrlLibrary, Tried, relative_without_base, fine, failing}
use rqx.Url.Marks.{question, hash, split_reference}
use rqx.Url.Reference.{UrlReference, relative, encoded_host, encoded_path}
use rqx.Url.Joining.{params, copy_set_param, copy_add_param, copy_remove_param, copy_merge_params}
use rqx.Url.Splitting.{contains_char-append}
use rqx.Url.Copies.{parts, copied_text, IsCopy, copies_lem}
use rqx.Tests.{a, b, query}
use rqx.Tests.Requests.{urls}

-- every text is a relative reference
abbrev addresses : UrlLibrary
addresses = record urls {
  parse_url = λ s. relative_without_base;
  relative_path = λ r. (split_reference r).0;
  relative_query = λ r. (split_reference r).1.0;
  relative_fragment = λ r. (split_reference r).1.1;
}

-- the pairs as `key=value&`, a code point 64 higher than it is
abbrev escaped : Text → Text
escaped [] = []
escaped (c ∷ s) = (c + 64) ∷ escaped s

abbrev written_pairs : List Pair → Text
written_pairs [] = []
written_pairs ((key, value) ∷ ps) = escaped key ++ b'=' ∷ (escaped value ++ b'&' ∷ written_pairs ps)

abbrev read_char : ℕ → List Pair → List Pair
read_char c [] = if c == b'&' then ([], []) ∷ [] else []
read_char c ((key, value) ∷ ps) =
    if c == b'&'
    then ([], []) ∷ (key, value) ∷ ps
    else if c == b'='
    then ([], key) ∷ ps
    else ((c - 64) ∷ key, value) ∷ ps

abbrev read_pairs : Text → List Pair
read_pairs [] = []
read_pairs (c ∷ s) = read_char c (read_pairs s)

abbrev shifted : FormUrlencoded
shifted = record { parse_pairs = read_pairs; serialize = written_pairs }

hash-escaped : (s : Text) → contains_char hash (escaped s) ≡ false
hash-escaped [] = refl
hash-escaped (c ∷ s) = ground (arith, hash-escaped s)

hash-written_pairs : (ps : List Pair) → contains_char hash (written_pairs ps) ≡ false
hash-written_pairs [] = refl
hash-written_pairs ((key, value) ∷ ps) =
    contains_char-append hash (escaped key) (b'=' ∷ (escaped value ++ b'&' ∷ written_pairs ps))
      (hash-escaped key)
      (contains_char-append hash (escaped value) (b'&' ∷ written_pairs ps) (hash-escaped value)
        (hash-written_pairs ps))

abbrev inside : Tried Text → Text
inside (fine s) = s
inside (failing e) = e

splits_lem :
    (s r : Text)
    → fine s ≡ fine r
    → UrlLibrary.authority_str addresses r ≡ none
    → parts addresses r ≡ split_reference s
splits_lem s r same absent = sym (ap (λ t. split_reference (inside t)) same)

-- /a?b=1#c
abbrev address : UrlReference addresses
address = relative (text "/a?b=1#c")

no_host : encoded_host addresses address ≡ []
unfolding encoded_host
no_host = refl

path_question : contains_char question (encoded_path addresses address) ≡ false
unfolding encoded_path split_reference text
path_question = refl

path_hash : contains_char hash (encoded_path addresses address) ≡ false
unfolding encoded_path split_reference text
path_hash = refl

copies_lem_example :
    let held = params addresses shifted address in
    IsCopy addresses shifted address
      (set held a (scalar (λ (s : Text). s) (some (string b))))
      (copy_set_param addresses shifted (λ (s : Text). s) address a (some (string b)))
    × (IsCopy addresses shifted address
          (add held a (scalar (λ (s : Text). s) (some (string b))))
          (copy_add_param addresses shifted (λ (s : Text). s) address a (some (string b)))
        × (IsCopy addresses shifted address
              (remove held a)
              (copy_remove_param addresses shifted address a)
            × (IsCopy addresses shifted address
                  (merge held query)
                  (copy_merge_params addresses shifted address (some query))
                × (copy_merge_params addresses shifted address none ≡ ok address))))
copies_lem_example =
    copies_lem addresses shifted address no_host path_question path_hash hash-written_pairs
      (copied_text addresses shifted address) (λ pairs. refl) (λ pairs. refl) (λ pairs. refl)
      splits_lem (λ (s : Text). s) a (some (string b)) query

-- ===== src/Tests/Arguments.antt =====
-- The theorems on the arguments that Python gives: parameters, headers, options and credentials.
use rqx.Base.{
  ℕ, Text, text_eq, text_beq_iff, nat_eq, ◌==◌, true, false, not, Option, none, some, List, [], ◌∷◌,
  ◌++◌, is_empty, ◌≡◌, ◌↔◌, refl, sym, ap, arith, if◌then◌else◌, display_nat,
}
use rqx.Base.Int.{pos}
use mathlib.Core.List.{Perm}
use rqx.Exceptions.{py_ok}
use rqx.PyJson.{PyObject, py_none, py_bool, py_int, py_string, py_list}
use rqx.QueryParams.{Pair, get_list}
use rqx.QueryParams.Binding.{PyStrings, ◌⟫=◌, iterable, extract, py_eq, py_hash}
use rqx.QueryParams.Binding.Protocol.{IsMapping, mapping_lem, py_eq-py_hash}
use rqx.QueryParams.Binding.Extraction.{sent, extract-sent}
use rqx.Headers.{HeaderLibrary, HeaderLaws, try_from_pairs}
use rqx.Headers.Python.{setitem, perform}
use rqx.Headers.Mapping.{Implements, IsRejected, view, perform-Implements}
use rqx.Headers.Pairs.{PairsPost, try_from_pairs-PairsPost}
use rqx.Url.Library.{fine}
use rqx.Tests.{a, b, query, patch, form}

-- text that is as it should be
abbrev pub strings : PyStrings ℕ
strings = record {
  to_cow = py_ok;
  str_int = λ n. py_ok [];
  str_float = λ v. py_ok (display_nat v);
  from_utf8_lossy = λ bytes. bytes;
  display_float = display_nat;
}

-- {"a": [True, None], "b": 2}
abbrev heap : ℕ → PyObject ℕ
heap i =
    if i == 0
    then py_string a
    else if i == 1
    then py_list (2 ∷ 3 ∷ [])
    else if i == 2
    then py_bool true
    else if i == 3
    then py_none
    else if i == 4
    then py_string b
    else py_int (pos 2)

extract-sent_example :
    (extract strings heap form (iterable (py_ok (0, 1) ∷ py_ok (4, 5) ∷ [])) ⟫= λ q.
    py_ok (get_list q a))
    ≡ sent strings heap a form (iterable (py_ok (0, 1) ∷ py_ok (4, 5) ∷ []))
extract-sent_example =
    extract-sent strings heap a form (iterable (py_ok (0, 1) ∷ py_ok (4, 5) ∷ []))

mapping_lem_example : IsMapping query
mapping_lem_example = mapping_lem query

abbrev hasher : List Pair → ℕ
hasher [] = 0
hasher (p ∷ ps) = 1

py_eq-py_hash_example :
    ((py_eq query (some patch) ≡ true) ↔ Perm query.pairs patch.pairs)
    × (py_eq query (some patch) ≡ true → py_hash hasher query ≡ py_hash hasher patch)
py_eq-py_hash_example = py_eq-py_hash hasher query patch

abbrev first_value : List Text → Option Text
first_value [] = none
first_value (v ∷ vs) = some v

-- maps as functions from names to values
abbrev header_maps : HeaderLibrary
header_maps = record {
  HeaderMap = Text → List Text;
  HeaderName = Text;
  HeaderValue = Text;
  empty_map = λ j. [];
  parse_name = fine;
  name_str = λ n. n;
  parse_value = fine;
  to_str = some;
  get_all = λ m j. m j;
  contains_key = λ m j. not (is_empty (m j));
  try_append = λ m n v. fine (λ j. if n == j then m j ++ v ∷ [] else m j);
  try_insert = λ m n v. fine (λ j. if n == j then v ∷ [] else m j);
  remove_entry = λ m key. (first_value (m key), λ j. if key == j then [] else m j);
  keys_len = λ m. 0;
  map_keys = λ m. [];
  entries = λ m. [];
  map_beq = λ m n. false;
  debug = λ s. s;
  debug_map = λ m. [];
}

fine_inj : {A : Type 0} {x y : A} → fine x ≡ fine y → x ≡ y
fine_inj e = ground arith

header_maps-HeaderLaws : HeaderLaws header_maps
header_maps-HeaderLaws = record {
  get_all_empty = λ j. refl;
  get_all_append = λ m m' n v j e. ap (λ f. f j) (sym (fine_inj e));
  get_all_insert = λ m m' n v j e. ap (λ f. f j) (sym (fine_inj e));
  removed = λ m key. by_values (m key);
  get_all_remove = λ m key j. refl;
  get_all_same = λ m key j e. ap m ((text_beq_iff key j).0 e);
  contains_values = λ m key. refl;
}
  where
    by_values : (vs : List Text) → first_value vs ≡ elim vs [ [] ↦ none | v ∷ ws ↦ some v ]
    by_values [] = refl
    by_values (v ∷ vs) = refl

abbrev one_header : Text → List Text
one_header j = if a == j then b ∷ [] else []

perform-Implements_example :
    let (answer, after) = perform header_maps (setitem a a) one_header in
    Implements header_maps
      (IsRejected header_maps one_header)
      (setitem a a)
      (view header_maps one_header)
      answer
      (view header_maps after)
perform-Implements_example =
    perform-Implements header_maps header_maps-HeaderLaws (setitem a a) one_header

try_from_pairs-PairsPost_example :
    PairsPost header_maps
      (λ j. [])
      ((a, b) ∷ (a, a) ∷ [])
      (try_from_pairs header_maps ((a, b) ∷ (a, a) ∷ []))
try_from_pairs-PairsPost_example =
    try_from_pairs-PairsPost header_maps header_maps-HeaderLaws ((a, b) ∷ (a, a) ∷ [])

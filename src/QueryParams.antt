-- ===== src/QueryParams.antt =====
-- crates/rqx-core/src/query_params.rs: `QueryPairs`, the multi-map behind `rqx.QueryParams`.
-- `form_urlencoded` is a parameter where it is called (`parse`, `display`).
pub mod Equality
pub mod Push
pub mod Edit
pub mod Merge
pub mod Keys
pub mod Binding
use rqx.Base.Int.{ℤ, display_i32}
use rqx.Base.{
  ℕ, zero, suc, ◌+◌, Text, text, text_eq, ◌==◌, Bool, true, false, not, List, [], ◌∷◌, ◌++◌, map,
  Option, none, some, if◌then◌else◌, find?, any, filter, take, drop,
}

abbrev pub Pair : Type 0
Pair = Text × Text

pub record QueryPairs : Type 0 where
  pub pairs : List Pair

abbrev pub empty : QueryPairs
empty = record { pairs = [] }

-- The keys that match, as the closures of the source test them.
abbrev pub has_key : Text → Pair → Bool
has_key key (k, _) = k == key

-- A match further on comes before one at the head.
abbrev pub earlier : Option ℕ → Bool → Option ℕ
earlier (some i) here = some (suc i)
earlier none true = some zero
earlier none false = none

-- `Iterator::rposition`: the last index at which the test holds
pub rposition {ℓ} : {A : Type ℓ} → (A → Bool) → List A → Option ℕ
rposition p [] = none
rposition p (x ∷ xs) = earlier (rposition p xs) (p x)

-- `Vec::insert`; `push` calls it at an index within the list only
pub insert {ℓ} : {A : Type ℓ} → List A → ℕ → A → List A
insert xs i x = take i xs ++ x ∷ drop i xs

pub place : Option ℕ → List Pair → Pair → List Pair
unfolding insert
place (some last) ps p = insert ps (last + 1) p
place none ps p = ps ++ p ∷ []

pub push_pairs : List Pair → Text → Text → List Pair
unfolding rposition place
push_pairs ps key value = place (rposition (has_key key) ps) ps (key, value)

pub push : QueryPairs → Text → Text → QueryPairs
unfolding push_pairs
push q key value = record { pairs = push_pairs q.pairs key value }

pub is_empty : QueryPairs → Bool
is_empty q = elim q.pairs [ [] ↦ true | _ ∷ _ ↦ false ]

pub contains : QueryPairs → Text → Bool
contains q key = any (has_key key) q.pairs

pub get : QueryPairs → Text → Option Text
get q key = elim (find? (has_key key) q.pairs) [ none ↦ none | some (_, v) ↦ some v ]

pub get_list : QueryPairs → Text → List Text
get_list q key = map (λ p. p.1) (filter (has_key key) q.pairs)

-- the loop of `keys`, with the keys found so far
pub keys_loop : List Text → List Pair → List Text
keys_loop keys [] = keys
keys_loop keys ((key, _) ∷ ps) =
    keys_loop (if any (λ k. k == key) keys then keys else keys ++ key ∷ []) ps

pub keys : QueryPairs → List Text
unfolding keys_loop
keys q = keys_loop [] q.pairs

or_default : Option Text → Text
or_default none = []
or_default (some v) = v

pub first_items : QueryPairs → List Pair
unfolding keys get or_default
first_items q = map (λ key. (key, or_default (get q key))) (keys q)

-- the loop of `set`, with `out` and `replaced`
pub set_loop : Text → Text → List Pair → List Pair → Bool → List Pair
set_loop key value [] out replaced = if replaced then out else out ++ (key, value) ∷ []
set_loop key value ((k, v) ∷ ps) out replaced = elim (k == key) [
  | false ↦ set_loop key value ps (out ++ (k, v) ∷ []) replaced
  | true ↦ elim replaced [
    | false ↦ set_loop key value ps (out ++ (key, value) ∷ []) true
    | true ↦ set_loop key value ps out true
  ]
]

pub set : QueryPairs → Text → Text → QueryPairs
unfolding set_loop
set q key value = record { pairs = set_loop key value q.pairs [] false }

pub add : QueryPairs → Text → Text → QueryPairs
unfolding push
add q key value = push q key value

pub remove : QueryPairs → Text → QueryPairs
remove q key = record { pairs = filter (λ p. not (has_key key p)) q.pairs }

-- the first loop of `merge`, with `out` and `taken`
pub merge_loop : QueryPairs → List Pair → List Pair → List Text → List Pair × List Text
unfolding contains get_list
merge_loop other [] out taken = (out, taken)
merge_loop other ((key, value) ∷ ps) out taken = elim (contains other key) [
  | false ↦ merge_loop other ps (out ++ (key, value) ∷ []) taken
  | true ↦ elim (any (λ k. k == key) taken) [
    | false ↦
        merge_loop other ps (out ++ map (λ v. (key, v)) (get_list other key)) (taken ++ key ∷ [])
    | true ↦ merge_loop other ps out taken
  ]
]

-- the second loop of `merge`
pub merge_rest : List Text → List Pair → List Pair → List Pair
merge_rest taken [] out = out
merge_rest taken ((key, value) ∷ ps) out =
    merge_rest taken ps (if not (any (λ k. k == key) taken) then out ++ (key, value) ∷ [] else out)

pub merge : QueryPairs → QueryPairs → QueryPairs
unfolding merge_loop merge_rest
merge q other =
    let (out, taken) = merge_loop other q.pairs [] [] in
    record { pairs = merge_rest taken other.pairs out }

-- what the code takes of `url::form_urlencoded`: the parser's pairs, and the serializer's text
-- after `append_pair` of each pair in turn
pub record FormUrlencoded : Type 0 where
  pub parse_pairs : Text → List Pair
  pub serialize : List Pair → Text

-- the loop of `parse`, and that of `from_items` for one key
pub push_all : QueryPairs → List Pair → QueryPairs
unfolding push
push_all q [] = q
push_all q ((key, value) ∷ ps) = push_all (push q key value) ps

pub parse : FormUrlencoded → Text → QueryPairs
unfolding push_all
parse form query = push_all empty (form.parse_pairs query)

-- `Display for QueryPairs`
unfoldable pub display : FormUrlencoded → QueryPairs → Text
display form q = form.serialize q.pairs

-- `F` is `f64`, which is printed by `display_float`.
pub data ScalarValue (F : Type 0) : Type 0 where
  bool : Bool → ScalarValue F
  string : Text → ScalarValue F
  int : ℤ → ScalarValue F
  float : F → ScalarValue F

module _ {F : Type 0} (display_float : F → Text) where
  pub display_scalar : ScalarValue F → Text
  display_scalar (bool true) = text "true"
  display_scalar (bool false) = text "false"
  display_scalar (string v) = v
  display_scalar (int v) = display_i32 v
  display_scalar (float v) = display_float v

  pub scalar : Option (ScalarValue F) → Text
  unfolding display_scalar
  scalar (some v) = display_scalar v
  scalar none = []

  push_values : QueryPairs → Text → List (Option (ScalarValue F)) → QueryPairs
  unfolding push scalar
  push_values q key [] = q
  push_values q key (value ∷ values) = push_values (push q key (scalar value)) key values

  push_items : QueryPairs → List (Text × List (Option (ScalarValue F))) → QueryPairs
  unfolding push_values
  push_items q [] = q
  push_items q ((key, values) ∷ items) = push_items (push_values q key values) items

  pub from_items : List (Text × List (Option (ScalarValue F))) → QueryPairs
  unfolding push_items
  from_items items = push_items empty items

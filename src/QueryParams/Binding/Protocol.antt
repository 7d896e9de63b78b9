-- ===== src/QueryParams/Binding/Protocol.antt =====
-- `rqx.QueryParams` as a Python mapping, and the hash against `==`.
use mathlib.Core.List.{Perm}
use rqx.Base.{
  ℕ, suc, true≢false, Text, text_eq, text_beq_refl, true, false, List, [], ◌∷◌, map, any, length,
  some, ◌≡◌, ◌↔◌, refl, sym, ap, ap₂, ◌∙◌, arith, list_beq_iff,
}
use rqx.Exceptions.{PyResult, py_ok, py_err, new_err}
use rqx.Exceptions.Classes
use rqx.QueryParams.{
  Pair, QueryPairs, has_key, contains, get, get_list, keys, first_items, is_empty, or_default,
}
use rqx.QueryParams.Push.{values as pair_values}
use rqx.QueryParams.Keys.{Distinct, has, first, keys_lem, get-get_list}
use rqx.QueryParams.Equality.{eq, eq-perm, sorted, pair_eq}
use rqx.QueryParams.Binding.{item_or_error, getitem, values, len, truth, py_eq, py_hash}

-- the value of a key: the first of its list
abbrev pub ValueOf : QueryPairs → Text → PyResult Text → Type 0
ValueOf q key answer =
    answer
    ≡ elim (get_list q key) [ [] ↦ py_err (new_err Classes.key_error key) | v ∷ vs ↦ py_ok v ]

-- What Python expects of a mapping.
pub record IsMapping (q : QueryPairs) : Type 0 where
  pub keys_once : Distinct (keys q)
  pub in_keys : (key : Text) → contains q key ≡ has key (keys q)
  pub in_list : (key : Text) → (contains q key ≡ false) ↔ (get_list q key ≡ [])
  pub item : (key : Text) → ValueOf q key (getitem q key)
  pub item_keys : map (λ p. p.0) (first_items q) ≡ keys q
  pub item_values : map py_ok (values q) ≡ map (getitem q) (keys q)
  pub counted : (len q ≡ length (first_items q)) × (len q ≡ length (values q))
  pub empty_is_false : (truth q ≡ false) ↔ (len q ≡ 0)

getitem-ValueOf : (q : QueryPairs) (key : Text) → ValueOf q key (getitem q key)
unfolding getitem item_or_error
getitem-ValueOf q key = ap (item_or_error key) (get-get_list q key) ∙ by_list (get_list q key)
  where
    by_list :
        (vs : List Text)
        → item_or_error key (first vs)
          ≡ elim vs [ [] ↦ py_err (new_err Classes.key_error key) | v ∷ ws ↦ py_ok v ]
    by_list [] = refl
    by_list (v ∷ vs) = refl

-- A key is there exactly if it has values.
contains-get_list : (q : QueryPairs) (key : Text) → (contains q key ≡ false) ↔ (get_list q key ≡ [])
unfolding contains get_list
contains-get_list q key = by_pairs q.pairs
  where
    by_pairs : (ps : List Pair) → (any (has_key key) ps ≡ false) ↔ (pair_values key ps ≡ [])
    by_pairs [] = ground arith
    by_pairs (p ∷ ps) = ground (arith, by_pairs ps)

map-map :
    {A B C : Type 0} (f : A → B) (g : B → C) (xs : List A)
    → map g (map f xs) ≡ map (λ x. g (f x)) xs
map-map f g [] = refl
map-map f g (x ∷ xs) = ap (λ ys. g (f x) ∷ ys) (map-map f g xs)

map-id : {A : Type 0} (xs : List A) → map (λ x. x) xs ≡ xs
map-id [] = refl
map-id (x ∷ xs) = ap (λ ys. x ∷ ys) (map-id xs)

length-map : {A B : Type 0} (f : A → B) (xs : List A) → length (map f xs) ≡ length xs
length-map f [] = refl
length-map f (x ∷ xs) = ap suc (length-map f xs)

-- Two functions that agree on the members of a list.
map-members :
    {B : Type 0} (f g : Text → B) (xs : List Text)
    → ((x : Text) → has x xs ≡ true → f x ≡ g x)
    → map f xs ≡ map g xs
map-members f g [] h = refl
map-members f g (x ∷ xs) h =
    ap₂ (λ y ys. y ∷ ys) (h x (rw (text_beq_refl x) refl))
      (map-members f g xs (λ y m. h y (ground (arith, m))))

item-get :
    (q : QueryPairs) (key : Text)
    → contains q key ≡ true
    → py_ok (or_default (get q key)) ≡ getitem q key
unfolding getitem item_or_error or_default
item-get q key h =
    ap (λ o. py_ok (or_default o)) (get-get_list q key)
    ∙ by_list (get_list q key) (λ e. sym ((contains-get_list q key).1 e) ∙ h)
    ∙ ap (item_or_error key) (sym (get-get_list q key))
  where
    by_list :
        (vs : List Text)
        → (vs ≡ [] → false ≡ true)
        → py_ok (or_default (first vs)) ≡ item_or_error key (first vs)
    by_list [] absent = absurd (true≢false (sym (absent refl)))
    by_list (v ∷ vs) absent = refl

has-empty : (key : Text) (ks : List Text) → length ks ≡ 0 → has key ks ≡ false
has-empty key [] h = refl
has-empty key (k ∷ ks) h = absurd (omega arith)

truth-len : (q : QueryPairs) → (truth q ≡ false) ↔ (len q ≡ 0)
unfolding truth len is_empty keys
truth-len q = by_pairs q.pairs
  where
    by_pairs :
        (ps : List Pair)
        → let r : QueryPairs = record { pairs = ps } in (truth r ≡ false) ↔ (len r ≡ 0)
    by_pairs [] = (λ h. refl, λ h. refl)
    by_pairs ((k, v) ∷ ps) =
        let r : QueryPairs = record { pairs = (k, v) ∷ ps } in
        let there : contains r k ≡ true = unfold contains in rw (text_beq_refl k) refl in
        (
          λ h. absurd (true≢false h),
          λ h. absurd (true≢false (sym there ∙ sym ((keys_lem r).1 k) ∙ has-empty k (keys r) h)),
        )

-- `QueryParams` is a mapping: `keys` has each key once, `in`, `get_list` and `[]` agree on which keys
-- there are and `[]` gives the first value, `items` and `values` follow `keys`, `len` counts them and
-- `bool` tests for none.
pub mapping_lem : (q : QueryPairs) → IsMapping q
unfolding first_items values len truth is_empty
mapping_lem q = record {
  keys_once = (keys_lem q).0;
  in_keys = λ key. sym ((keys_lem q).1 key);
  in_list = contains-get_list q;
  item = getitem-ValueOf q;
  item_keys = map-map _ _ (keys q) ∙ map-id (keys q);
  item_values =
      map-map _ _ (map _ (keys q))
      ∙ map-map _ _ (keys q)
      ∙ map-members _ _ (keys q) (λ key m. item-get q key (sym ((keys_lem q).1 key) ∙ m));
  counted = (
    sym (length-map _ (keys q)),
    sym (length-map _ (keys q)) ∙ sym (length-map _ (map _ (keys q))),
  );
  empty_is_false = truth-len q;
}

-- Query parameters with the same pairs, in whatever order, are equal and have one hash, and equal
-- ones have one hash.
pub py_eq-py_hash :
    (hasher : List Pair → ℕ) (q r : QueryPairs)
    → ((py_eq q (some r) ≡ true) ↔ Perm q.pairs r.pairs)
      × (py_eq q (some r) ≡ true → py_hash hasher q ≡ py_hash hasher r)
unfolding py_eq py_hash
py_eq-py_hash hasher q r =
    (eq-perm q r, λ h. ap hasher ((list_beq_iff (sorted q) (sorted r)).0 (unfold eq in h)))

-- ===== src/QueryParams/Push.antt =====
-- `QueryPairs::push`, with `parse`, `add` and `from_items` that call it: what a key's values become,
-- and that pairs of one key stay together.
use native.Mathlib.Numerals.{add-one}
use rqx.Base.{
  ℕ, suc, Text, text_eq, text_beq_iff, text_beq_refl, Bool-cases, inl, inr, ◌==◌, Bool, true, false,
  List, [], ◌∷◌, ◌++◌, map, Option, none, some, if◌then◌else◌, any, filter, ◌≡◌, refl, append-nil,
  append_assoc, ◌||◌, arith,
}
use rqx.QueryParams.{
  Pair, QueryPairs, FormUrlencoded, parse, has_key, rposition, insert, push_pairs, place, earlier,
  push, get_list, empty, push_all,
}

abbrev pub values : Text → List Pair → List Text
values key ps = map (λ p. p.1) (filter (has_key key) ps)

abbrev placed : Option ℕ → Bool → Pair → List Pair → Pair → List Pair
placed (some i) here p ps x = p ∷ place (some i) ps x
placed none true p ps x = p ∷ x ∷ ps
placed none false p ps x = p ∷ place none ps x

place-cons :
    (o : Option ℕ) (here : Bool) (p : Pair) (ps : List Pair) (x : Pair)
    → place (earlier o here) (p ∷ ps) x ≡ placed o here p ps x
unfolding place insert
place-cons (some i) here p ps x = rw (add-one i, add-one (suc i))
place-cons none true p ps x = refl
place-cons none false p ps x = refl

-- No match, no value.
values-none : (key : Text) (ps : List Pair) → rposition (has_key key) ps ≡ none → values key ps ≡ []
unfolding rposition
values-none key [] h = refl
values-none key (p ∷ ps) h = ground (arith, values-none key ps)

pub values-append :
    (j : Text) (xs ys : List Pair) → values j (xs ++ ys) ≡ values j xs ++ values j ys
values-append j [] ys = refl
values-append j (x ∷ xs) ys = ground (arith, values-append j xs ys)

module _ (key value j : Text) where
  -- A pushed value goes behind those that its key has, and every other key keeps its own.
  values-push_pairs :
      (ps : List Pair)
      → values j (push_pairs ps key value)
        ≡ (if key == j then values j ps ++ value ∷ [] else values j ps)
  unfolding push_pairs rposition
  values-push_pairs [] = unfold place in ground arith
  values-push_pairs ((k, v) ∷ ps) = rw place-cons (
      ground (
        arith,
        values-push_pairs ps,
        values-none key ps,
        text_beq_iff k key,
        text_beq_iff key j,
        text_beq_iff k j,
      ))

abbrev pub heads : Text → List Pair → Bool
heads key [] = false
heads key (p ∷ ps) = has_key key p

push_pairs-place :
    (key value : Text) (ps : List Pair) {o : Option ℕ}
    → rposition (has_key key) ps ≡ o
    → push_pairs ps key value ≡ place o ps (key, value)
unfolding push_pairs
push_pairs-place key value ps e = rw e

-- The pairs of a key stand together.
abbrev pub IsGrouped : List Pair → Type 0
IsGrouped [] = Unit {0}
IsGrouped ((k, v) ∷ ps) = (any (has_key k) ps ≡ true → heads k ps ≡ true) × IsGrouped ps

any-rposition :
    (key : Text) (ps : List Pair) {o : Option ℕ}
    → rposition (has_key key) ps ≡ o
    → any (has_key key) ps ≡ elim o [ none ↦ false | some _ ↦ true ]
unfolding rposition
any-rposition key [] h = ground arith
any-rposition key (p ∷ ps) h = ground (arith, any-rposition key ps refl)

module _ (key value k : Text) where
  any-push_pairs :
      (ps : List Pair)
      → any (has_key k) (push_pairs ps key value) ≡ (any (has_key k) ps || key == k)
  unfolding push_pairs rposition
  any-push_pairs [] = unfold place in ground arith
  any-push_pairs (p ∷ ps) = rw place-cons (ground (arith, any-push_pairs ps))

  heads-push_pairs :
      (p : Pair) (ps : List Pair) → heads k (push_pairs (p ∷ ps) key value) ≡ has_key k p
  unfolding push_pairs rposition
  heads-push_pairs p ps = rw place-cons (ground arith)

-- A pair that led its key's group leads it after the push.
leads-push_pairs :
    (key value k : Text) (ps : List Pair)
    → (any (has_key k) ps ≡ true → heads k ps ≡ true)
    → (k ≡ key → any (has_key key) ps ≡ true)
    → any (has_key k) (push_pairs ps key value) ≡ true
    → heads k (push_pairs ps key value) ≡ true
leads-push_pairs key value k [] lead own h =
    ground (arith, any-push_pairs key value k [], text_beq_iff key k)
leads-push_pairs key value k (p ∷ ps) lead own h = ground (
  arith,
  any-push_pairs key value k (p ∷ ps),
  heads-push_pairs key value k p ps,
  text_beq_iff key k,
)

placed-IsGrouped :
    (key value k v : Text) (ps : List Pair) (o : Option ℕ)
    → rposition (has_key key) ps ≡ o
    → (any (has_key k) ps ≡ true → heads k ps ≡ true)
    → IsGrouped ps
    → IsGrouped (push_pairs ps key value)
    → IsGrouped (placed o (k == key) (k, v) ps (key, value))
placed-IsGrouped key value k v ps (some i) e lead g g' = (
  rw (push_pairs-place key value ps e) at
      (leads-push_pairs key value k ps lead λ _. any-rposition key ps e),
  rw (push_pairs-place key value ps e) at g',
)
placed-IsGrouped key value k v ps none e lead g g' = elim (Bool-cases (k == key)) [
  | inl same ↦ rw same (
    λ _. rw (← (text_beq_iff k key).0 same) (text_beq_refl k),
    (λ h. cc (any-rposition key ps e), g),
  )
  | inr other ↦ rw other (
    rw (push_pairs-place key value ps e) at
        (leads-push_pairs key value k ps lead λ same. cc ((text_beq_iff k key).1 same)),
    rw (push_pairs-place key value ps e) at g',
  )
]

push_pairs-IsGrouped :
    (key value : Text) (ps : List Pair) → IsGrouped ps → IsGrouped (push_pairs ps key value)
unfolding push_pairs rposition
push_pairs-IsGrouped key value [] g = unfold place in ground arith
push_pairs-IsGrouped key value ((k, v) ∷ ps) g =
    rw place-cons
      (placed-IsGrouped key value k v ps _ refl g.0 g.1 (push_pairs-IsGrouped key value ps g.1))

-- What `push` does to the values of each key.
pub get_list-push :
    (q : QueryPairs) (key value j : Text)
    → get_list (push q key value) j
      ≡ (if key == j then get_list q j ++ value ∷ [] else get_list q j)
unfolding get_list push
get_list-push q key value j = values-push_pairs key value j q.pairs

pub push_all-IsGrouped :
    (q : QueryPairs) (ps : List Pair) → IsGrouped q.pairs → IsGrouped (push_all q ps).pairs
unfolding push_all
push_all-IsGrouped q [] g = g
push_all-IsGrouped q ((key, value) ∷ ps) g =
    push_all-IsGrouped (push q key value) ps
      (unfold push in push_pairs-IsGrouped key value q.pairs g)

-- A parsed query keeps the pairs of a key together.
pub parse-IsGrouped : (form : FormUrlencoded) (query : Text) → IsGrouped (parse form query).pairs
unfolding parse
parse-IsGrouped form query = push_all-IsGrouped empty (form.parse_pairs query) tt

-- The values of a key in a list of pairs that are pushed in turn, behind those that are there.
pub get_list-push_all :
    (q : QueryPairs) (ps : List Pair) (j : Text)
    → get_list (push_all q ps) j ≡ get_list q j ++ values j ps
unfolding push_all
get_list-push_all q [] j = rw append-nil
get_list-push_all q ((key, value) ∷ ps) j =
    rw (get_list-push_all (push q key value) ps j, get_list-push)
      (ground (arith, append_assoc (get_list q j) (value ∷ []) (values j ps)))

-- A parsed query gives each key the values that the text gives it, in the order of the text.
pub get_list-parse :
    (form : FormUrlencoded) (query j : Text)
    → get_list (parse form query) j ≡ values j (form.parse_pairs query)
unfolding parse
get_list-parse form query j = rw get_list-push_all (unfold get_list in refl)

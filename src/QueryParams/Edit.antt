-- ===== src/QueryParams/Edit.antt =====
-- `QueryPairs::set`, `remove` and `push`, which `add` calls: what becomes of each key's values.
use rqx.Base.{
  Text, text_eq, text_beq_iff, ◌==◌, Bool, true, false, not, List, [], ◌∷◌, ◌++◌, if◌then◌else◌,
  filter, ◌≡◌, append-nil, append_assoc, arith,
}
use rqx.QueryParams.{Pair, QueryPairs, has_key, get_list, set_loop, set, add, remove}
use rqx.QueryParams.Push.{values, get_list-push}

module _ (key value : Text) where
  -- The loop writes to `out` alone, and goes on from it.
  set_loop-out :
      (ps out : List Pair) (replaced : Bool)
      → set_loop key value ps out replaced ≡ out ++ set_loop key value ps [] replaced
  unfolding set_loop
  set_loop-out [] out replaced = ground (arith, append-nil out)
  set_loop-out ((k, v) ∷ ps) out replaced = ground (
    arith,
    set_loop-out ps (out ++ (k, v) ∷ []) replaced,
    set_loop-out ps ((k, v) ∷ []) replaced,
    set_loop-out ps (out ++ (key, value) ∷ []) true,
    set_loop-out ps ((key, value) ∷ []) true,
    set_loop-out ps out true,
    append_assoc out ((k, v) ∷ []) (set_loop key value ps [] replaced),
    append_assoc out ((key, value) ∷ []) (set_loop key value ps [] true),
  )

module _ (key value j : Text) where
  -- After the replacement the loop drops what is left of the key.
  values-set_loop-replaced :
      (ps : List Pair)
      → values j (set_loop key value ps [] true) ≡ (if key == j then [] else values j ps)
  unfolding set_loop
  values-set_loop-replaced [] = ground arith
  values-set_loop-replaced ((k, v) ∷ ps) = ground (
    arith,
    values-set_loop-replaced ps,
    set_loop-out key value ps ((k, v) ∷ []) true,
    text_beq_iff k key,
    text_beq_iff key j,
    text_beq_iff k j,
  )

  values-set_loop :
      (ps : List Pair)
      → values j (set_loop key value ps [] false) ≡ (if key == j then value ∷ [] else values j ps)
  unfolding set_loop
  values-set_loop [] = ground arith
  values-set_loop ((k, v) ∷ ps) = ground (
    arith,
    values-set_loop ps,
    values-set_loop-replaced ps,
    set_loop-out key value ps ((k, v) ∷ []) false,
    set_loop-out key value ps ((key, value) ∷ []) true,
    text_beq_iff k key,
    text_beq_iff key j,
    text_beq_iff k j,
  )

  values-remove :
      (ps : List Pair)
      → values j (filter (λ p. not (has_key key p)) ps) ≡ (if key == j then [] else values j ps)
  values-remove [] = ground arith
  values-remove ((k, v) ∷ ps) =
      ground (arith, values-remove ps, text_beq_iff k key, text_beq_iff key j, text_beq_iff k j)

-- What `set` does to the values of each key.
pub get_list-set :
    (q : QueryPairs) (key value j : Text)
    → get_list (set q key value) j ≡ (if key == j then value ∷ [] else get_list q j)
unfolding get_list set
get_list-set q key value j = values-set_loop key value j q.pairs

-- What `remove` does to the values of each key.
pub get_list-remove :
    (q : QueryPairs) (key j : Text)
    → get_list (remove q key) j ≡ (if key == j then [] else get_list q j)
unfolding get_list remove
get_list-remove q key j = values-remove key [] j q.pairs

-- An added value goes behind those that its key has, a set one replaces them all, a removed key has
-- none left, and every other key keeps its values.
pub edits_lem :
    (q : QueryPairs) (key value j : Text)
    → (get_list (add q key value) j
        ≡ (if key == j then get_list q j ++ value ∷ [] else get_list q j))
      × (get_list (set q key value) j ≡ (if key == j then value ∷ [] else get_list q j))
      × (get_list (remove q key) j ≡ (if key == j then [] else get_list q j))
unfolding add
edits_lem q key value j =
    (get_list-push q key value j, get_list-set q key value j, get_list-remove q key j)

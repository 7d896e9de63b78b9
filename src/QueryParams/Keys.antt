-- ===== src/QueryParams/Keys.antt =====
-- The keys of `QueryPairs`: `keys`, `contains`, `get` and `first_items` against the pairs.
use rqx.Base.{
  Text, text_eq, text_beq_iff, ◌==◌, Bool, false, List, [], ◌∷◌, ◌++◌, if◌then◌else◌, any,
  any-append, find?, ◌≡◌, refl, ◌||◌, arith, Option, none, some,
}
use rqx.QueryParams.{Pair, QueryPairs, has_key, get_list, get, contains, keys_loop, keys}
use rqx.QueryParams.Push.{values}

abbrev pub has : Text → List Text → Bool
has key = any (λ k. k == key)

-- The first value, if there is one.
abbrev pub first : List Text → Option Text
first [] = none
first (v ∷ vs) = some v

first-values :
    (key : Text) (ps : List Pair)
    → (elim (find? (has_key key) ps) [ none ↦ none | some (_, v) ↦ some v ]) ≡ first (values key ps)
first-values key [] = refl
first-values key (p ∷ ps) = ground (arith, first-values key ps)

-- `get` is the first value of the key's list.
pub get-get_list : (q : QueryPairs) (key : Text) → get q key ≡ first (get_list q key)
unfolding get get_list
get-get_list q key = first-values key q.pairs

-- No key twice.
abbrev pub Distinct : List Text → Type 0
Distinct [] = Unit {0}
Distinct (k ∷ ks) = (has k ks ≡ false) × Distinct ks

Distinct-snoc :
    (k : Text) (ks : List Text) → has k ks ≡ false → Distinct ks → Distinct (ks ++ k ∷ [])
Distinct-snoc k [] h d = (refl, tt)
Distinct-snoc k (x ∷ ks) h d = ground (
  arith,
  Distinct-snoc k ks,
  any-append (λ y. y == x) ks (k ∷ []),
  text_beq_iff k x,
  text_beq_iff x k,
)

keys_loop-Distinct :
    (ps : List Pair) (seen : List Text) → Distinct seen → Distinct (keys_loop seen ps)
unfolding keys_loop
keys_loop-Distinct [] seen d = d
keys_loop-Distinct ((k, v) ∷ ps) seen d =
    keys_loop-Distinct ps (if has k seen then seen else seen ++ k ∷ [])
      (ground (arith, Distinct-snoc k seen))

has-keys_loop :
    (j : Text) (ps : List Pair) (seen : List Text)
    → has j (keys_loop seen ps) ≡ (has j seen || any (has_key j) ps)
unfolding keys_loop
has-keys_loop j [] seen = ground arith
has-keys_loop j ((k, v) ∷ ps) seen = ground (
  arith,
  has-keys_loop j ps (if has k seen then seen else seen ++ k ∷ []),
  any-append (λ y. y == j) seen (k ∷ []),
  text_beq_iff k j,
)

-- `keys` lists each key of the pairs once, and nothing else.
pub keys_lem : (q : QueryPairs) → Distinct (keys q) × ((j : Text) → has j (keys q) ≡ contains q j)
unfolding keys contains
keys_lem q = (keys_loop-Distinct q.pairs [] tt, λ j. has-keys_loop j q.pairs [])

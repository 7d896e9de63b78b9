-- ===== src/QueryParams/Merge.antt =====
-- `QueryPairs::merge`: for a key that `other` has, its values and no others; for any other key,
-- the receiver's.
use rqx.Base.{
  Text, text_eq, text_beq_iff, ◌==◌, Bool, false, not, List, [], ◌∷◌, ◌++◌, map, if◌then◌else◌, any,
  any-append, ◌≡◌, refl, append-nil, append_assoc, ◌&&◌, ◌||◌, arith, ◌∙◌, Bool-cases, inl, inr,
}
use rqx.QueryParams.{Pair, QueryPairs, has_key, get_list, contains, merge_loop, merge_rest, merge}
use rqx.QueryParams.Push.{values, values-append}

abbrev has : Text → List Text → Bool
has key = any (λ k. k == key)

module _ (j : Text) where
  -- The values of `j` among pairs that all have the key `key`.
  values-map :
      (key : Text) (vs : List Text)
      → values j (map (λ v. (key, v)) vs) ≡ (if key == j then vs else [])
  values-map key [] = ground arith
  values-map key (v ∷ vs) = ground (arith, values-map key vs)

  values-absent : (ps : List Pair) → any (has_key j) ps ≡ false → values j ps ≡ []
  values-absent [] h = refl
  values-absent (p ∷ ps) h = ground (arith, values-absent ps)

  -- The second loop adds the values of the keys that the first did not take.
  values-merge_rest :
      (taken : List Text) (ps out : List Pair)
      → values j (merge_rest taken ps out)
        ≡ values j out ++ (if has j taken then [] else values j ps)
  unfolding merge_rest
  values-merge_rest taken [] out = ground (arith, append-nil (values j out))
  values-merge_rest taken ((k, v) ∷ ps) out = elim (Bool-cases (has k taken)) [
    | inl seen ↦ rw seen (ground (arith, values-merge_rest taken ps out, text_beq_iff k j))
    | inr new ↦ rw new (
        ground (
          arith,
          values-merge_rest taken ps (out ++ (k, v) ∷ []),
          values-append j out ((k, v) ∷ []),
          append_assoc (values j out) (v ∷ []) (values j ps),
          append-nil (values j out),
          text_beq_iff k j,
        ))
  ]

  has-snoc :
      (key : Text) (taken : List Text) → has j (taken ++ key ∷ []) ≡ (has j taken || key == j)
  has-snoc key taken = ground (arith, any-append (λ k. k == j) taken (key ∷ []))

  -- The first loop takes the keys that both have.
  has-merge_loop :
      (other : QueryPairs) (ps out : List Pair) (taken : List Text)
      → has j (merge_loop other ps out taken).1
        ≡ (has j taken || (contains other j && any (has_key j) ps))
  unfolding merge_loop
  has-merge_loop other [] out taken = ground arith
  has-merge_loop other ((k, v) ∷ ps) out taken = ground (
    arith,
    has-merge_loop other ps (out ++ (k, v) ∷ []) taken,
    has-merge_loop other ps (out ++ map (λ v. (k, v)) (get_list other k)) (taken ++ k ∷ []),
    has-merge_loop other ps out taken,
    has-snoc k taken,
    text_beq_iff k j,
  )

  abbrev merged : QueryPairs → List Pair → List Text → List Text
  merged other ps taken =
      if contains other j
      then (if has j taken || not (any (has_key j) ps) then [] else get_list other j)
      else values j ps

  values-merge_loop :
      (other : QueryPairs) (ps out : List Pair) (taken : List Text)
      → values j (merge_loop other ps out taken).0 ≡ values j out ++ merged other ps taken
  unfolding merge_loop
  values-merge_loop other [] out taken = ground (arith, append-nil (values j out))
  values-merge_loop other ((k, v) ∷ ps) out taken = ground (
    arith,
    values-merge_loop other ps (out ++ (k, v) ∷ []) taken,
    values-merge_loop other ps (out ++ map (λ v. (k, v)) (get_list other k)) (taken ++ k ∷ []),
    values-merge_loop other ps out taken,
    values-append j out ((k, v) ∷ []),
    values-append j out (map (λ v. (k, v)) (get_list other k)),
    values-map k (get_list other k),
    has-snoc k taken,
    append_assoc (values j out) (v ∷ []) (merged other ps taken),
    append_assoc (values j out) (get_list other k) (merged other ps (taken ++ k ∷ [])),
    append-nil (values j out),
    append-nil (get_list other k),
    text_beq_iff k j,
  )

-- The values of a key after a merge: those of `other` if it carries the key, else the receiver's.
pub get_list-merge :
    (q other : QueryPairs) (j : Text)
    → get_list (merge q other) j ≡ (if contains other j then get_list other j else get_list q j)
unfolding merge
get_list-merge q other j =
    let (out, taken) = merge_loop other q.pairs [] [] in
    values-merge_rest j taken other.pairs out
    ∙ rw (values-merge_loop j other q.pairs [] [], has-merge_loop j other q.pairs [] [])
        (ground (
          arith,
          values-absent j other.pairs,
          append-nil (values j other.pairs),
          append-nil (values j q.pairs),
        ))

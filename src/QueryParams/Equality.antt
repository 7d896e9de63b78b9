-- ===== src/QueryParams/Equality.antt =====
-- `sorted` and `PartialEq for QueryPairs`: two maps are equal exactly if they hold the same pairs, as
-- often, in whatever order.
mod Order
use mathlib.Core.List.{Perm, Permᴰ}
use mathlib.Core.List.Perm
use mathlib.Core.Logic.{∥∥₁_elim}
use native.Mathlib.Nat.{ℕ_set}
use rqx.Base.{
  ℕ, Eq, Text, text_eq, text_beq_iff, ◌==◌, Bool, true, false, List, [], ◌∷◌, if◌then◌else◌, ltb,
  list_beq, list_beq_iff, ◌≡◌, refl, ap₂, sym, subst, ◌∙◌, ◌&&◌, ◌↔◌, arith, Bool-cases, inl, inr,
  nat_eq,
}
use rqx.QueryParams.{Pair, QueryPairs}
use Order.{pair_leb, pair_leb_total, pair_leb_trans, pair_leb_antisymm}

-- one step of a stable sort
sort_insert : Pair → List Pair → List Pair
sort_insert p [] = p ∷ []
sort_insert p (q ∷ qs) = if pair_leb p q then p ∷ q ∷ qs else q ∷ sort_insert p qs

-- `Vec::sort`
sort : List Pair → List Pair
sort [] = []
sort (p ∷ ps) = sort_insert p (sort ps)

pub sorted : QueryPairs → List Pair
unfolding sort sort_insert
sorted q = sort q.pairs

abbrev pub pair_beq : Pair → Pair → Bool
pair_beq (a, b) (c, d) = a == c && b == d

pub pair_beq_iff : (p q : Pair) → (pair_beq p q ≡ true) ↔ (p ≡ q)
pair_beq_iff (a, b) (c, d) = ground (arith, text_beq_iff a c, text_beq_iff b d)

instance abbrev pub pair_eq : Eq Pair
pair_eq = record { equals = pair_beq; equals_iff = pair_beq_iff }

-- `==` on the sorted pairs
unfoldable pub eq : QueryPairs → QueryPairs → Bool
eq q r = list_beq (sorted q) (sorted r)

sort_insert-perm : (p : Pair) (ps : List Pair) → Perm (sort_insert p ps) (p ∷ ps)
unfolding sort_insert
sort_insert-perm p [] = Perm.refl (p ∷ [])
sort_insert-perm p (q ∷ qs) = elim (Bool-cases (pair_leb p q)) [
  | inl h ↦ rw h (Perm.refl (p ∷ q ∷ qs))
  | inr h ↦ rw h (Perm.trans (Perm.cons q (sort_insert-perm p qs)) (Perm.swap p q qs))
]

sort-perm : (ps : List Pair) → Perm (sort ps) ps
unfolding sort
sort-perm [] = Perm.refl []
sort-perm (p ∷ ps) = Perm.trans (sort_insert-perm p (sort ps)) (Perm.cons p (sort-perm ps))

-- The order in which two pairs are put in does not show.
sort_insert_comm :
    (p q : Pair) (ps : List Pair)
    → sort_insert p (sort_insert q ps) ≡ sort_insert q (sort_insert p ps)
unfolding sort_insert
sort_insert_comm p q [] = ground (arith, pair_leb_total p q, pair_leb_antisymm p q)
sort_insert_comm p q (x ∷ ps) = ground (
  arith,
  sort_insert_comm p q ps,
  pair_leb_total p q,
  pair_leb_antisymm p q,
  pair_leb_total p x,
  pair_leb_total q x,
  pair_leb_trans p x q,
  pair_leb_trans q x p,
  pair_leb_trans p q x,
  pair_leb_trans q p x,
)

sort-Permᴰ : {ps qs : List Pair} → Permᴰ ps qs → sort ps ≡ sort qs
unfolding sort
sort-Permᴰ Permᴰ.nil = refl
sort-Permᴰ (Permᴰ.cons {l₁ = xs} {l₂ = ys} e h) = ap₂ sort_insert e (sort-Permᴰ h)
sort-Permᴰ (Permᴰ.swap {a = a} {b = b} {l = xs} e f) =
    sort_insert_comm a b (sort xs) ∙ ap₂ (λ p q. sort_insert p (sort_insert q (sort xs))) f e
sort-Permᴰ (Permᴰ.trans g h) = sort-Permᴰ g ∙ sort-Permᴰ h

-- `==` holds exactly between maps whose pairs are the same up to their order.
pub eq-perm : (q r : QueryPairs) → (eq q r ≡ true) ↔ Perm q.pairs r.pairs
unfolding eq sorted
eq-perm q r = (
  λ h.
      let same = (list_beq_iff (sort q.pairs) (sort r.pairs)).0 h in
      Perm.trans (Perm.symm (sort-perm q.pairs))
        (subst (λ l. Perm l r.pairs) (sym same) (sort-perm r.pairs)),
  λ h. (list_beq_iff (sort q.pairs) (sort r.pairs)).1 (∥∥₁_elim h (hlevel ℕ_set) sort-Permᴰ),
)

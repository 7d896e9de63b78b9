-- ===== src/QueryParams/Equality/Order.antt =====
-- The order of `(String, String)`: lexicographic, by code points, as Rust orders the UTF-8 bytes.
use rqx.Base.{
  Text, text_eq, text_beq_iff, ◌==◌, Bool, true, false, [], ◌∷◌, if◌then◌else◌, ltb, ◌≡◌, refl,
  arith, nat_eq, ◌⊎◌, inl, inr,
}
use rqx.QueryParams.{Pair}

text_leb : Text → Text → Bool
text_leb [] t = true
text_leb (x ∷ s) [] = false
text_leb (x ∷ s) (y ∷ t) = if x == y then text_leb s t else ltb x y

text_leb_total : (s t : Text) → (text_leb s t ≡ true) ⊎ (text_leb t s ≡ true)
unfolding text_leb
text_leb_total [] t = inl refl
text_leb_total (x ∷ s) [] = inr refl
text_leb_total (x ∷ s) (y ∷ t) = ground (arith, text_leb_total s t)

text_leb_antisymm : (s t : Text) → text_leb s t ≡ true → text_leb t s ≡ true → s ≡ t
unfolding text_leb
text_leb_antisymm [] [] h k = refl
text_leb_antisymm [] (y ∷ t) h k = cc
text_leb_antisymm (x ∷ s) [] h k = cc
text_leb_antisymm (x ∷ s) (y ∷ t) h k = ground (arith, text_leb_antisymm s t)

text_leb_trans : (s t u : Text) → text_leb s t ≡ true → text_leb t u ≡ true → text_leb s u ≡ true
unfolding text_leb
text_leb_trans [] t u h k = refl
text_leb_trans (x ∷ s) [] u h k = cc
text_leb_trans (x ∷ s) (y ∷ t) [] h k = cc
text_leb_trans (x ∷ s) (y ∷ t) (z ∷ u) h k = ground (arith, text_leb_trans s t u)

pub pair_leb : Pair → Pair → Bool
unfolding text_leb
pair_leb (a, b) (c, d) = if a == c then text_leb b d else text_leb a c

pub pair_leb_total : (p q : Pair) → (pair_leb p q ≡ true) ⊎ (pair_leb q p ≡ true)
unfolding pair_leb
pair_leb_total (a, b) (c, d) =
    ground (arith, text_beq_iff a c, text_beq_iff c a, text_leb_total a c, text_leb_total b d)

pub pair_leb_antisymm : (p q : Pair) → pair_leb p q ≡ true → pair_leb q p ≡ true → p ≡ q
unfolding pair_leb
pair_leb_antisymm (a, b) (c, d) h k =
    ground (arith, text_beq_iff a c, text_beq_iff c a, text_leb_antisymm a c, text_leb_antisymm b d)

pub pair_leb_trans :
    (p q r : Pair) → pair_leb p q ≡ true → pair_leb q r ≡ true → pair_leb p r ≡ true
unfolding pair_leb
pair_leb_trans (a, b) (c, d) (e, f) h k = ground (
  arith,
  text_beq_iff a c,
  text_beq_iff c e,
  text_beq_iff a e,
  text_leb_trans a c e,
  text_leb_trans b d f,
  text_leb_antisymm a c,
  text_leb_antisymm c e,
)

-- ===== src/Streaming/Iterator/Regrouped.antt =====
-- What an iterator over bytes or over characters gives: what it reads, cut into pieces of the size
-- asked for.
use rqx.Base.{
  ℕ, zero, suc, ◌<◌, List, [], ◌∷◌, ◌++◌, Option, none, some, length, length-append, ◌≡◌, ◌≢◌, refl,
  sym, subst, ◌∙◌, ap, arith,
}
use rqx.Error.{Result, ok}
use rqx.Streaming.Chunking.Bytes.{IsFull, IsShort}
use rqx.Streaming.Iterator.Rounds.{collect_items, collect_items-more, collect_items-stop}

-- `bytes` cut into pieces: each is full but the last, which is what remains.
pub data Regrouped (size : Option ℕ) : List (List ℕ) → List ℕ → Type 0 where
  done : Regrouped size [] []
  last : (p : List ℕ) → p ≢ [] → IsShort size p → Regrouped size (p ∷ []) p
  full :
      (p : List ℕ) {rest all : List ℕ} {ps : List (List ℕ)}
      → IsFull size p
      → all ≡ p ++ rest
      → Regrouped size ps rest
      → Regrouped size (p ∷ ps) all

length_pos : (p : List ℕ) → p ≢ [] → 0 < length p
length_pos [] n = absurd (n refl)
length_pos (b ∷ p) n = omega arith

full_pos : (size : Option ℕ) (p : List ℕ) → size ≢ some 0 → IsFull size p → 0 < length p
full_pos none [] pos f = absurd (f refl)
full_pos none (b ∷ p) pos f = omega arith
full_pos (some zero) p pos f = absurd (pos refl)
full_pos (some (suc n)) p pos f = omega arith

Regrouped-nil :
    {size : Option ℕ} {ps : List (List ℕ)} {all : List ℕ}
    → Regrouped size ps all
    → size ≢ some 0
    → all ≡ []
    → ps ≡ []
Regrouped-nil done pos e = refl
Regrouped-nil (last p n s) pos e = absurd (n e)
Regrouped-nil {size} (full p {rest = rest} f a r) pos e =
    absurd (omega (arith, full_pos size p pos f, length-append p rest, ap length (sym a ∙ e)))

module _ {I : Type 0} (size : Option ℕ) (Live : I → List ℕ → Type 0) where
  -- The outcome of a call on an iterator that has `all` still to give, where `Live` says so of the
  -- iterator.
  pub data Outcome (all : List ℕ) (o : Option (Result (Option (List ℕ)) × I)) : Type 0 where
    gives_full :
        (p rest : List ℕ) (it : I)
        → o ≡ some (ok (some p), it)
        → IsFull size p
        → all ≡ p ++ rest
        → Live it rest
        → Outcome all o
    gives_last :
        (it : I)
        → o ≡ some (ok (some all), it)
        → all ≢ []
        → IsShort size all
        → Live it []
        → Outcome all o
    stops : (it : I) → o ≡ some (ok none, it) → all ≡ [] → Outcome all o

module _ {I : Type 0} (size : Option ℕ) (next : I → Option (Result (Option (List ℕ)) × I))
    (Live : I → List ℕ → Type 0)
    (step : (it : I) (all : List ℕ) → Live it all → Outcome size Live all (next it)) where
  pub collect_items-Regrouped :
      (rounds : ℕ) (it : I) (all : List ℕ)
      → Live it all
      → length all < rounds
      → size ≢ some 0
      → (ps : List (List ℕ)) × (collect_items next rounds it ≡ some ps) × Regrouped size ps all
  collect_items-Regrouped zero it all h more pos = absurd (omega arith)
  collect_items-Regrouped (suc rounds) it all h more pos = elim (step it all h) [
    | gives_full p rest it' e f a live ↦
        let smaller : length rest < rounds =
          omega (arith, ap length a, length-append p rest, full_pos size p pos f) in
        let (ps, c, r) = collect_items-Regrouped rounds it' rest live smaller pos in
        (p ∷ ps, collect_items-more next rounds e c, full p f a r)
    | gives_last it' e n short live ↦
        let smaller : 0 < rounds = omega (arith, length_pos all n) in
        let (ps, c, r) = collect_items-Regrouped rounds it' [] live smaller pos in
        let over : ps ≡ [] = Regrouped-nil r pos refl in
        (all ∷ [], collect_items-more next rounds e (c ∙ ap some over), last all n short)
    | stops it' e n ↦ ([], collect_items-stop next rounds e, subst (Regrouped size []) (sym n) done)
  ]

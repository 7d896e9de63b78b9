-- ===== src/Streaming/Iterator/Rounds.antt =====
-- crates/rqx/src/stream.rs: the shape that the loops of the text and the line iterators share, over
-- the state `I` of an iterator that yields items of `A`.
use rqx.Base.{ℕ, zero, suc, Bool, List, [], ◌∷◌, Option, none, some, ◌≡◌, refl}
use rqx.Error.{Result, ok, err}

-- What one round of the loop does: it returns, or goes round again.
pub data Round (I A : Type 0) : Type 0 where
  returns : Result (Option A) → I → Round I A
  again : I → Round I A

module _ {I A : Type 0} (round : Bool → I → Round I A) (closings : ℕ → Bool) where
  -- The loop, on fuel: `none` means that the fuel ran out. `closings` says of each round whether
  -- another task closes the response while the round waits on the network.
  unfoldable pub run_rounds : ℕ → I → Option (Result (Option A) × I)
  run_rounds zero it = none
  run_rounds (suc fuel) it = elim (round (closings fuel) it) [
    | returns r it' ↦ some (r, it')
    | again it' ↦ run_rounds fuel it'
  ]

module _ {I A : Type 0} (next : I → Option (Result (Option A) × I)) where
  -- A Python loop over an iterator: its items up to the end. `none` means that the fuel ran out or
  -- that a read failed.
  unfoldable pub collect_items : ℕ → I → Option (List A)
  collect_items zero it = none
  collect_items (suc rounds) it = elim (next it) [
    | none ↦ none
    | some (err e, _) ↦ none
    | some (ok none, _) ↦ some []
    | some (ok (some p), it') ↦ elim (collect_items rounds it') [
      | none ↦ none
      | some ps ↦ some (p ∷ ps)
    ]
  ]

  pub collect_items-more :
      (rounds : ℕ) {it it' : I} {p : A} {ps : List A}
      → next it ≡ some (ok (some p), it')
      → collect_items rounds it' ≡ some ps
      → collect_items (suc rounds) it ≡ some (p ∷ ps)
  unfolding collect_items
  collect_items-more rounds e c = rw (e, collect_items) (rw (c, collect_items) refl)

  pub collect_items-stop :
      (rounds : ℕ) {it it' : I}
      → next it ≡ some (ok none, it')
      → collect_items (suc rounds) it ≡ some []
  unfolding collect_items
  collect_items-stop rounds e = rw (e, collect_items)

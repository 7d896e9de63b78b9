-- ===== src/Runtime/Updates.antt =====
-- One entry of a family is replaced.
use rqx.Base.{ℕ, ◌≡◌, ◌≢◌, refl, inl, inr, Bool-cases, nat_beq, nat_beq_iff, true≢false, sym, ◌∙◌}
use rqx.Runtime.{update}

module _ {ℓ} {A : Type ℓ} where
  pub update-same : (f : ℕ → A) (j : ℕ) (a : A) → update f j a j ≡ a
  update-same f j a = rw ((nat_beq_iff j j).1 refl) refl

  pub update-other : (f : ℕ → A) (j : ℕ) (a : A) (i : ℕ) → i ≢ j → update f j a i ≡ f i
  update-other f j a i apart = elim (Bool-cases (nat_beq i j)) [
    | inl e ↦ absurd (apart ((nat_beq_iff i j).0 e))
    | inr e ↦ rw e refl
  ]

-- two addresses are the same or not
pub data Same (i j : ℕ) : Type 0 where
  same : i ≡ j → Same i j
  apart : i ≢ j → Same i j

pub same? : (i j : ℕ) → Same i j
same? i j = elim (Bool-cases (nat_beq i j)) [
  | inl e ↦ same ((nat_beq_iff i j).0 e)
  | inr e ↦ apart (λ f. absurd (true≢false (sym ((nat_beq_iff i j).1 f) ∙ e)))
]

-- ===== src/Network/Counting.antt =====
-- How many requests a computation of Network sends, and what its value satisfies.
use rqx.Base.{
  ℕ, suc, ◌+◌, ◌≤◌, Bool, true, false, if◌then◌else◌, [], ◌∷◌, ◌≡◌, refl, subst, ◌∙◌, arith,
}
use rqx.Platform.{Platform}
use rqx.Network.{
  looked, drew, slept, drained, acquired, released, sent, stored, Trace, raised, panicked, starved,
  Answer, returned, failed, M, resume, ◌>>=◌,
}

module _ {P : Platform} where
  -- the requests that went out
  abbrev pub sends : Trace P → ℕ
  sends [] = 0
  sends (looked ∷ tr) = sends tr
  sends (drew ∷ tr) = sends tr
  sends (slept time ∷ tr) = sends tr
  sends (drained resp ∷ tr) = sends tr
  sends (acquired ∷ tr) = sends tr
  sends (released ∷ tr) = sends tr
  sends (sent request ∷ tr) = suc (sends tr)
  sends (stored cookies ∷ tr) = sends tr

  -- one more than `n` requests, or at most that if the computation fails
  abbrev pub Counted : {A : Type 0} → ℕ → Answer A × Trace P → Type 0
  Counted n (returned a, tr) = sends tr ≡ suc n
  Counted n (failed e, tr) = sends tr ≤ suc n

  -- not out of fuel, and a value satisfies `Q`
  abbrev pub Holds : {A : Type 0} → (A → Type 0) → Answer A × Trace P → Type 0
  Holds Q (returned a, tr) = Q a
  Holds Q (failed starved, tr) = ⊥
  Holds Q (failed panicked, tr) = Unit {0}
  Holds Q (failed (raised e), tr) = Unit {0}

  abbrev pub Quiet : {A : Type 0} → M P A → Type 0
  Quiet m = (tr : Trace P) → sends (m tr).1 ≡ sends tr

  abbrev pub Once : {A : Type 0} → M P A → Type 0
  Once m = (tr : Trace P) → Counted (sends tr) (m tr)

  abbrev pub Yields : {A : Type 0} → M P A → (A → Type 0) → Type 0
  Yields m Q = (tr : Trace P) → Holds Q (m tr)

  resume-Quiet :
      {A B : Type 0} (f : A → M P B) (n : ℕ) (res : Answer A × Trace P)
      → ((a : A) → Quiet (f a))
      → sends res.1 ≡ n
      → sends (resume f res).1 ≡ n
  resume-Quiet f n (returned a, tr) q h = q a tr ∙ h
  resume-Quiet f n (failed e, tr) q h = h

  pub bind-Quiet :
      {A B : Type 0} (m : M P A) (f : A → M P B)
      → Quiet m
      → ((a : A) → Quiet (f a))
      → Quiet (m >>= f)
  unfolding ◌>>=◌
  bind-Quiet m f p q tr = resume-Quiet f (sends tr) (m tr) q (p tr)

  Counted-of : {A : Type 0} (n : ℕ) (res : Answer A × Trace P) → sends res.1 ≡ suc n → Counted n res
  Counted-of n (returned a, tr) h = h
  Counted-of n (failed e, tr) h = omega arith

  resume-Once :
      {A B : Type 0} (f : A → M P B) (n : ℕ) (res : Answer A × Trace P)
      → ((a : A) → Once (f a))
      → sends res.1 ≡ n
      → Counted n (resume f res)
  resume-Once f n (returned a, tr) q h = subst (λ k. Counted k (f a tr)) h (q a tr)
  resume-Once f n (failed e, tr) q h = omega arith

  pub bind-Once :
      {A B : Type 0} (m : M P A) (f : A → M P B) → Quiet m → ((a : A) → Once (f a)) → Once (m >>= f)
  unfolding ◌>>=◌
  bind-Once m f p q tr = resume-Once f (sends tr) (m tr) q (p tr)

  resume_after :
      {A B : Type 0} (f : A → M P B) (n : ℕ) (res : Answer A × Trace P)
      → ((a : A) → Quiet (f a))
      → Counted n res
      → Counted n (resume f res)
  resume_after f n (returned a, tr) q h = Counted-of n (f a tr) (q a tr ∙ h)
  resume_after f n (failed e, tr) q h = h

  pub Once-bind :
      {A B : Type 0} (m : M P A) (f : A → M P B) → Once m → ((a : A) → Quiet (f a)) → Once (m >>= f)
  unfolding ◌>>=◌
  Once-bind m f p q tr = resume_after f (sends tr) (m tr) q (p tr)

  -- never out of fuel
  abbrev pub Alive : {A : Type 0} → M P A → Type 0
  Alive m = Yields m (λ a. Unit {0})

  resume-Yields :
      {A B : Type 0} (f : A → M P B) (Q : B → Type 0) (res : Answer A × Trace P)
      → Holds (λ a. Unit {0}) res
      → ((a : A) → Yields (f a) Q)
      → Holds Q (resume f res)
  resume-Yields f Q (returned a, tr) h q = q a tr
  resume-Yields f Q (failed starved, tr) h q = h
  resume-Yields f Q (failed panicked, tr) h q = tt
  resume-Yields f Q (failed (raised e), tr) h q = tt

  pub bind-Yields :
      {A B : Type 0} (m : M P A) (f : A → M P B) (Q : B → Type 0)
      → Alive m
      → ((a : A) → Yields (f a) Q)
      → Yields (m >>= f) Q
  unfolding ◌>>=◌
  bind-Yields m f Q p q tr = resume-Yields f Q (m tr) (p tr) q

  -- at most `k` requests, never out of fuel, and a value satisfies `Q`
  abbrev pub Within : {A : Type 0} → ℕ → (A → Type 0) → M P A → Type 0
  Within k Q m = (tr : Trace P) → (sends (m tr).1 ≤ sends tr + k) × Holds Q (m tr)

  resume-Within :
      {A B : Type 0} (n k l : ℕ) (Q : A → Type 0) (R : B → Type 0) (f : A → M P B)
      (res : Answer A × Trace P)
      → (sends res.1 ≤ n + k) × Holds Q res
      → ((a : A) → Q a → Within l R (f a))
      → (sends (resume f res).1 ≤ n + (k + l)) × Holds R (resume f res)
  resume-Within n k l Q R f (returned a, tr) h q =
      let g = q a h.1 tr in (omega (arith, g.0, h.0), g.1)
  resume-Within n k l Q R f (failed starved, tr) h q = absurd h.1
  resume-Within n k l Q R f (failed panicked, tr) h q = (omega (arith, h.0), tt)
  resume-Within n k l Q R f (failed (raised e), tr) h q = (omega (arith, h.0), tt)

  pub bind-Within :
      {A B : Type 0} (k l : ℕ) (Q : A → Type 0) (R : B → Type 0) (m : M P A) (f : A → M P B)
      → Within k Q m
      → ((a : A) → Q a → Within l R (f a))
      → Within (k + l) R (m >>= f)
  unfolding ◌>>=◌
  bind-Within k l Q R m f p q tr = resume-Within (sends tr) k l Q R f (m tr) (p tr) q

  pub if-Within :
      {A : Type 0} (k : ℕ) (Q : A → Type 0) (b : Bool) (m l : M P A)
      → (b ≡ true → Within k Q m)
      → (b ≡ false → Within k Q l)
      → Within k Q (if b then m else l)
  if-Within k Q true m l p q = p refl
  if-Within k Q false m l p q = q refl

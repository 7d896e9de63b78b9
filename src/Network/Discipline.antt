-- ===== src/Network/Discipline.antt =====
-- A property of the computations of Network that is kept by the ways in which they are put together.
use rqx.Base.{ℕ, Bool, true, false, Option, none, some, if◌then◌else◌}
use rqx.Error.{RqxCoreError}
use rqx.Platform.{Platform}
use rqx.Network.{
  Trace, Answer, returned, failed, raised, resume, Env, slept, drained, Unit₁, M, pure, fail, raise,
  panicked, starved, emit, ok_or, ◌>>=◌, now, draw, sleep,
}

-- `Allowed` are the errors that a computation with the property may raise.
pub record Discipline {P : Platform} (Good : (A : Type 0) → M P A → Type 0)
    (Allowed : RqxCoreError → Type 0) : Type 1 where
  pub returns : {A : Type 0} (a : A) → Good A (pure a)
  pub raises : {A : Type 0} (e : RqxCoreError) → Allowed e → Good A (raise e)
  pub panics : {A : Type 0} → Good A (fail panicked)
  pub starves : {A : Type 0} → Good A (fail starved)
  pub binds :
      {A B : Type 0} (m : M P A) (f : A → M P B)
      → Good A m
      → ((a : A) → Good B (f a))
      → Good B (m >>= f)
  pub looks : (E : Env P) → Good ℕ (now E)
  pub draws : (E : Env P) → Good (Platform.F32 P) (draw E)
  pub sleeps : (time : ℕ) → Good Unit₁ (emit (slept time))
  pub drains : (old : Platform.Response P) → Good Unit₁ (emit (drained old))

module _ {P : Platform} (Good : (A : Type 0) → M P A → Type 0) (Allowed : RqxCoreError → Type 0)
    (D : Discipline Good Allowed) where
  pub if-Good :
      {A : Type 0} (b : Bool) (m l : M P A) → Good A m → Good A l → Good A (if b then m else l)
  if-Good true m l p q = p
  if-Good false m l p q = q

  pub ok_or-Good :
      {A : Type 0} (o : Option A) (e : RqxCoreError) → Allowed e → Good A (ok_or {P = P} o e)
  ok_or-Good none e a = D.raises e a
  ok_or-Good (some x) e a = D.returns x

  pub sleep-Good : (x : Platform.F32 P) → Good Unit₁ (sleep P x)
  unfolding sleep
  sleep-Good x = elim-Good (Platform.from_secs32 P x)
    where
      elim-Good :
          (o : Option ℕ)
          → Good Unit₁
              (elim o as (λ k. M P Unit₁) [ none ↦ fail panicked | some time ↦ emit (slept time) ])
      elim-Good none = D.panics
      elim-Good (some time) = D.sleeps time

-- a failure is a panic, or the fuel's, or an error that satisfies `Q`
abbrev pub FailsAs :
    {P : Platform} {A : Type 0} → (RqxCoreError → Type 0) → Answer A × Trace P → Type 0
FailsAs Q (returned a, tr) = Unit {0}
FailsAs Q (failed (raised e), tr) = Q e
FailsAs Q (failed panicked, tr) = Unit {0}
FailsAs Q (failed starved, tr) = Unit {0}

-- the errors of a computation satisfy `Q`
pub record Raises {P : Platform} {A : Type 0} (Q : RqxCoreError → Type 0) (m : M P A) : Type 0 where
  pub failure : (tr : Trace P) → FailsAs Q (m tr)

module _ {P : Platform} (Q : RqxCoreError → Type 0) where
  resume-FailsAs :
      {A B : Type 0} (f : A → M P B) (res : Answer A × Trace P)
      → ((a : A) → Raises Q (f a))
      → FailsAs Q res
      → FailsAs Q (resume f res)
  resume-FailsAs f (returned a, tr) q h = let r = q a in r.failure tr
  resume-FailsAs f (failed (raised e), tr) q h = h
  resume-FailsAs f (failed panicked, tr) q h = tt
  resume-FailsAs f (failed starved, tr) q h = tt

  pub Raises-Discipline : Discipline {P = P} (λ A m. Raises Q m) Q
  unfolding now draw ◌>>=◌
  Raises-Discipline = record {
    returns = λ a. record { failure = λ tr. tt };
    raises = λ e h. record { failure = λ tr. h };
    panics = record { failure = λ tr. tt };
    starves = record { failure = λ tr. tt };
    binds = λ m f p q. record { failure = λ tr. resume-FailsAs f (m tr) q (p.failure tr) };
    looks = λ E. record { failure = λ tr. tt };
    draws = λ E. record { failure = λ tr. tt };
    sleeps = λ time. record { failure = λ tr. tt };
    drains = λ old. record { failure = λ tr. tt };
  }

weaken-FailsAs :
    {P : Platform} {A : Type 0} (Q R : RqxCoreError → Type 0) (res : Answer A × Trace P)
    → ((e : RqxCoreError) → Q e → R e)
    → FailsAs Q res
    → FailsAs R res
weaken-FailsAs Q R (returned a, tr) f h = tt
weaken-FailsAs Q R (failed (raised e), tr) f h = f e h
weaken-FailsAs Q R (failed panicked, tr) f h = tt
weaken-FailsAs Q R (failed starved, tr) f h = tt

pub weaken-Raises :
    {P : Platform} {A : Type 0} (Q R : RqxCoreError → Type 0) (m : M P A)
    → ((e : RqxCoreError) → Q e → R e)
    → Raises Q m
    → Raises R m
weaken-Raises Q R m f h = record { failure = λ tr. weaken-FailsAs Q R (m tr) f (h.failure tr) }

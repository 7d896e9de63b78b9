-- ===== src/Transport/Permits.antt =====
-- The connection permits of crates/rqx-core/src/transport.rs: held while a request is out, and given
-- back however it ends.
use rqx.Base.{zero, suc, ℕ, suc, ◌-◌, ◌<◌, Option, some, [], ◌∷◌, ◌≡◌, refl, ◌∙◌, arith}
use rqx.Platform.{Platform, HttpRequest}
use rqx.Network.{
  Env, looked, drew, slept, drained, acquired, released, sent, stored, Trace, Answer, returned,
  failed, M, resume, ◌>>=◌, now, draw, call,
}
use rqx.Network.Discipline.{Discipline}
use rqx.Transport.Traversal.{send-Good}
use rqx.Retry.{Retry}
use rqx.Transport.{execute, send}

module _ {P : Platform} where
  -- the permits that are held after the events
  abbrev pub permits : Trace P → ℕ
  permits [] = 0
  permits (acquired ∷ tr) = suc (permits tr)
  permits (released ∷ tr) = permits tr - 1
  permits (looked ∷ tr) = permits tr
  permits (drew ∷ tr) = permits tr
  permits (slept time ∷ tr) = permits tr
  permits (drained resp ∷ tr) = permits tr
  permits (sent request ∷ tr) = permits tr
  permits (stored cookies ∷ tr) = permits tr

  -- every request went out under a permit
  abbrev pub IsGuarded : Trace P → Type 0
  IsGuarded [] = Unit {0}
  IsGuarded (sent request ∷ tr) = (0 < permits tr) × IsGuarded tr
  IsGuarded (acquired ∷ tr) = IsGuarded tr
  IsGuarded (released ∷ tr) = IsGuarded tr
  IsGuarded (looked ∷ tr) = IsGuarded tr
  IsGuarded (drew ∷ tr) = IsGuarded tr
  IsGuarded (slept time ∷ tr) = IsGuarded tr
  IsGuarded (drained resp ∷ tr) = IsGuarded tr
  IsGuarded (stored cookies ∷ tr) = IsGuarded tr

  -- the permits are as before, and new requests went out under one
  abbrev pub Safe : Trace P → Trace P → Type 0
  Safe before later = (permits later ≡ permits before) × (IsGuarded before → IsGuarded later)

  record IsSafe {A : Type 0} (m : M P A) : Type 0 where
    pub safe : (tr : Trace P) → Safe tr (m tr).1

  resume-Safe :
      {A B : Type 0} (f : A → M P B) (tr : Trace P) (res : Answer A × Trace P)
      → ((a : A) → IsSafe (f a))
      → Safe tr res.1
      → Safe tr (resume f res).1
  resume-Safe f tr (returned a, later) q h =
      let s = q a in let g = s.safe later in (g.0 ∙ h.0, λ guarded. g.1 (h.1 guarded))
  resume-Safe f tr (failed e, later) q h = h

  bind-IsSafe :
      {A B : Type 0} (m : M P A) (f : A → M P B)
      → IsSafe m
      → ((a : A) → IsSafe (f a))
      → IsSafe (m >>= f)
  unfolding ◌>>=◌
  bind-IsSafe m f p q = record { safe = λ tr. resume-Safe f tr (m tr) q (p.safe tr) }

  nothing : (m : Trace P) → Safe m m
  nothing tr = (refl, λ g. g)

  IsSafe-Discipline : Discipline {P = P} (λ A m. IsSafe m) (λ e. Unit {0})
  unfolding now draw
  IsSafe-Discipline = record {
    returns = λ a. record { safe = nothing };
    raises = λ e allowed. record { safe = nothing };
    panics = record { safe = nothing };
    starves = record { safe = nothing };
    binds = bind-IsSafe;
    looks = λ E. record { safe = λ tr. (refl, λ g. g) };
    draws = λ E. record { safe = λ tr. (refl, λ g. g) };
    sleeps = λ time. record { safe = λ tr. (refl, λ g. g) };
    drains = λ old. record { safe = λ tr. (refl, λ g. g) };
  }

  execute-IsSafe :
      (E : Env P) (max_connections : ℕ) (request : HttpRequest P)
      → IsSafe (execute E (some max_connections) request)
  unfolding execute call ◌>>=◌
  execute-IsSafe E zero request = record { safe = nothing }
  execute-IsSafe E (suc n) request = record { safe = λ tr. (omega arith, λ g. (omega arith, g)) }

  -- With a limit of connections, every request of `send` goes out under a permit, and however it
  -- ends (an answer, an error or a panic), it holds as many permits as before.
  pub send-Safe :
      (E : Env P) (max_connections : ℕ) (retries : Option (Retry P)) (request : HttpRequest P)
      (tr : Trace P)
      → Safe tr (send E (some max_connections) retries request tr).1
  send-Safe E max_connections retries request tr =
      let s =
        send-Good (λ A m. IsSafe m) (λ e. Unit {0}) IsSafe-Discipline
          (record { of_network = λ e. tt; of_request = λ m. tt; of_retries = λ m. tt }) E
          (some max_connections) (execute-IsSafe E max_connections) retries request in
      s.safe tr

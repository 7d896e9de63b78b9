-- ===== src/Client/Cookies.antt =====
-- The cookie jar of crates/rqx-core/src/client.rs.
use rqx.Base.{
  ℕ, ◌-◌, Text, Bool, true, false, [], ◌∷◌, ◌++◌, is_empty, if◌then◌else◌, ◌≡◌, refl, sym,
  true≢false,
}
use rqx.Base.Dict.{Dict, extend}
use rqx.Platform.{Platform, HttpRequest}
use rqx.Network.{
  Env, Trace, Answer, returned, failed, Unit₁, unit, M, pure, resume, emit, stored, ◌>>=◌, ◌>>◌,
  now, looked,
}
use rqx.Response.{PendingResponse}
use rqx.Client.{Client, jar, accumulate_cookies, send_request}

extend_nothing :
    (before cookies : Dict Text) → is_empty cookies ≡ true → before ≡ extend before cookies
unfolding extend
extend_nothing before [] e = refl
extend_nothing before (c ∷ cookies) e = absurd (true≢false (sym e))

module _ {P : Platform} where
  -- the answer's cookies are what the jar took last; an answer is all that this is about
  abbrev pub LastInJar : Dict Text → Answer (PendingResponse P) × Trace P → Type 0
  LastInJar before (returned p, tr) =
      (earlier : Trace P) × ((since : Trace P) × (tr ≡ since ++ earlier))
      × (jar before tr ≡ extend (jar before earlier) p.parts.cookies)
  LastInJar before (failed e, tr) = Unit {0}

  module _ (E : Env P) where
    abbrev last_steps : ℕ → PendingResponse P → M P (PendingResponse P)
    last_steps start pending = do
      accumulate_cookies pending.parts.cookies
      time ← now E
      pure (record pending { parts = record pending.parts { elapsed = time - start } })

    last_split :
        (before : Dict Text) (start : ℕ) (p : PendingResponse P) (tr : Trace P) (b : Bool)
        → is_empty p.parts.cookies ≡ b
        → LastInJar before (
            resume {A = Unit₁}
              (λ a. now E >>= λ time.
                pure (record p { parts = record p.parts { elapsed = time - start } }))
              ((if b then pure unit else emit (stored p.parts.cookies)) tr))
    unfolding now ◌>>=◌ jar
    last_split before start p tr true e =
        (tr, (looked ∷ [], refl), extend_nothing (jar before tr) p.parts.cookies e)
    last_split before start p tr false e = (tr, (looked ∷ stored p.parts.cookies ∷ [], refl), refl)

    last_steps-LastInJar :
        (before : Dict Text) (start : ℕ) (res : Answer (PendingResponse P) × Trace P)
        → LastInJar before (resume (last_steps start) res)
    unfolding accumulate_cookies ◌>>=◌
    last_steps-LastInJar before start (returned p, tr) =
        last_split before start p tr (is_empty p.parts.cookies) refl
    last_steps-LastInJar before start (failed e, tr) = tt

    -- When `Client::send` gives an answer, the jar is the jar of an earlier moment extended by all the
    -- cookies of that answer, whether or not redirects are followed.
    pub send_request-LastInJar :
        (client : Client P) (request : HttpRequest P) (follow : Bool) (before : Dict Text)
        (tr : Trace P)
        → LastInJar before (send_request E client request follow tr)
    unfolding send_request now ◌>>=◌
    send_request-LastInJar client request follow before tr =
        last_steps-LastInJar before (Env.clock E tr) _

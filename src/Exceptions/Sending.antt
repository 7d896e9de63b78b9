-- ===== src/Exceptions/Sending.antt =====
-- The exceptions that sending a request can raise.
use rqx.Base.{ℕ, zero, suc, max, Text, Bool, Option, none, some, List, is_empty, leb, refl}
use rqx.Base.Dict.{Dict}
use rqx.Platform.{Platform, HttpRequest}
use rqx.Network.{Env, Trace, M, Answer, pure, ◌>>=◌, call}
use rqx.Network.Discipline.{FailsAs, Raises, Raises-Discipline, Discipline, if-Good, ok_or-Good}
use rqx.Response.{PendingResponse}
use rqx.Redirect.{redirect_target}
use rqx.Client.{
  Client, Hops, Hop, arrived, onward, add_u32, is_redirection, first_hop, accumulate_cookies,
  give_up, advance, arrive, hop_once, redirect_loop, follow_redirects, send_request,
}
use rqx.Transport.{execute, send}
use rqx.Transport.Traversal.{Raised, send-Good}
use rqx.Exceptions.{core_err}
use rqx.Exceptions.Network.{IsHttpError, request→http, from_net-IsClass}
use rqx.Exceptions.Classes.{itself, first_base, bases}

-- the failures of a computation are raised as HTTPErrors
abbrev pub FailsAsHttp : {P : Platform} {A : Type 0} → Answer A × Trace P → Type 0
FailsAsHttp res = FailsAs IsHttpError res

module _ {P : Platform} where
  abbrev pub RaisesHttp : {A : Type 0} → M P A → Type 0
  RaisesHttp m = Raises IsHttpError m

  abbrev RaisesHttp-Discipline : Discipline {P = P} (λ A m. RaisesHttp m) IsHttpError
  RaisesHttp-Discipline = Raises-Discipline IsHttpError

  Raised-IsHttpError : Raised P IsHttpError
  unfolding core_err bases
  Raised-IsHttpError = record {
    of_network = λ e. request→http (from_net-IsClass P e).0;
    of_request = λ message. first_base refl itself;
    of_retries = λ message. first_base refl itself;
  }

  execute-RaisesHttp :
      (E : Env P) (semaphore : Option ℕ) (request : HttpRequest P)
      → RaisesHttp (execute E semaphore request)
  unfolding execute call ◌>>=◌
  execute-RaisesHttp E none request = record { failure = λ tr. tt }
  execute-RaisesHttp E (some zero) request = record { failure = λ tr. tt }
  execute-RaisesHttp E (some (suc n)) request = record { failure = λ tr. tt }

  accumulate_cookies-RaisesHttp :
      (cookies : Dict Text) → RaisesHttp (accumulate_cookies {P = P} cookies)
  unfolding accumulate_cookies
  accumulate_cookies-RaisesHttp cookies =
      if-Good (λ A m. RaisesHttp m) IsHttpError RaisesHttp-Discipline (is_empty cookies) _ _
        (record { failure = λ tr. tt }) (record { failure = λ tr. tt })

  module _ (E : Env P) (client : Client P) where
    abbrev D : Discipline {P = P} (λ A m. RaisesHttp m) IsHttpError
    D = RaisesHttp-Discipline

    give_up-RaisesHttp : (answer : PendingResponse P) → RaisesHttp (give_up E client answer)
    unfolding give_up core_err bases
    give_up-RaisesHttp answer =
        if-Good (λ A m. RaisesHttp m) IsHttpError D client.redirects.raise_on_exceeded _ _
          (D.raises _ (first_base refl (first_base refl itself))) (D.returns _)

    advance-RaisesHttp :
        (h : Hops P) (hop : PendingResponse P) (retries : ℕ)
        (history : List (Text × Platform.F64 P))
        → RaisesHttp (advance E client h hop retries history)
    unfolding advance redirect_target core_err bases
    advance-RaisesHttp h hop retries history =
        D.binds _ _
          (ok_or-Good (λ A m. RaisesHttp m) IsHttpError D _ _
            (first_base refl (first_base refl (first_base refl (first_base refl itself)))))
          (λ location. D.binds _ _ (D.drains hop.response) (λ u.
            D.binds _ _
              (ok_or-Good (λ A m. RaisesHttp m) IsHttpError D _ _ (first_base refl itself))
              (λ url. D.returns _)))

    arrive-RaisesHttp : (h : Hops P) (hop : PendingResponse P) → RaisesHttp (arrive E client h hop)
    unfolding arrive
    arrive-RaisesHttp h hop =
        if-Good (λ A m. RaisesHttp m) IsHttpError D (is_redirection hop.parts.status_code) _ _
          (D.binds _ _ (accumulate_cookies-RaisesHttp hop.parts.cookies) (λ u.
            if-Good (λ A m. RaisesHttp m) IsHttpError D
              (leb client.redirects.max_redirects (add_u32 h.redirects_used 1)) _ _
              (give_up-RaisesHttp _) (advance-RaisesHttp h hop _ _)))
          (D.returns _)

    send-RaisesHttp :
        (request : HttpRequest P) → RaisesHttp (send E client.semaphore client.retries request)
    send-RaisesHttp request =
        send-Good (λ A m. RaisesHttp m) IsHttpError D Raised-IsHttpError E client.semaphore
          (execute-RaisesHttp E client.semaphore) client.retries request

    hop_once-RaisesHttp : (h : Hops P) → RaisesHttp (hop_once E client h)
    unfolding hop_once core_err bases
    hop_once-RaisesHttp h =
        D.binds _ _ (ok_or-Good (λ A m. RaisesHttp m) IsHttpError D _ _ (first_base refl itself))
          (λ outgoing. D.binds _ _ (send-RaisesHttp outgoing) (λ hop. arrive-RaisesHttp h hop))

    step-RaisesHttp :
        (fuel : ℕ) (step : Hop P)
        → ((h : Hops P) → RaisesHttp (redirect_loop E client fuel h))
        → RaisesHttp {A = PendingResponse P} (elim step as (λ x. M P (PendingResponse P)) [
          | arrived p ↦ pure p
          | onward next ↦ redirect_loop E client fuel next
        ])
    step-RaisesHttp fuel (arrived p) go = D.returns p
    step-RaisesHttp fuel (onward next) go = go next

    redirect_loop-RaisesHttp : (fuel : ℕ) (h : Hops P) → RaisesHttp (redirect_loop E client fuel h)
    unfolding redirect_loop
    redirect_loop-RaisesHttp zero h = D.starves
    redirect_loop-RaisesHttp (suc fuel) h =
        D.binds _ _ (hop_once-RaisesHttp h)
          (λ step. step-RaisesHttp fuel step (redirect_loop-RaisesHttp fuel))

    pub send_request-RaisesHttp :
        (request : HttpRequest P) (follow : Bool)
        → RaisesHttp (send_request E client request follow)
    unfolding send_request follow_redirects
    send_request-RaisesHttp request follow =
        let answered =
          if-Good (λ A m. RaisesHttp m) IsHttpError D follow _ _
            (redirect_loop-RaisesHttp (max 1 client.redirects.max_redirects) (first_hop request))
            (send-RaisesHttp request) in
        D.binds _ _ (D.looks E) (λ start. D.binds _ _ answered (λ pending.
          D.binds _ _ (accumulate_cookies-RaisesHttp pending.parts.cookies)
            (λ u. D.binds _ _ (D.looks E) (λ time. D.returns _))))

    -- Every error that `Client::send` ends in, whatever the network does and with any policy of
    -- retries and redirects, is raised as a subclass of HTTPError.
    pub send_request-FailsAsHttp :
        (request : HttpRequest P) (follow : Bool) (tr : Trace P)
        → FailsAsHttp (send_request E client request follow tr)
    send_request-FailsAsHttp request follow tr =
        let whole = send_request-RaisesHttp request follow in whole.failure tr

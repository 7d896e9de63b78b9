-- ===== src/Exceptions/Network.antt =====
-- The exceptions that an error of the network is raised as.
use rqx.Base.{
  sym, ◌≡◌, true≢false, Text, Bool, true, false, ◌||◌, Option, none, some, any, if◌then◌else◌, refl,
}
use rqx.Base.Int.{ℤ}
use rqx.Error.{
  RqxCoreError, connect_timeout, read_timeout, connect_error, read_error, remote_protocol_error,
  proxy_error, decoding_error, too_many_redirects, request_error,
}
use rqx.Error.Convert.{from_net, from_hyper, first_hyper, tunnel_refused}
use rqx.Platform.{Platform, HyperError}
use rqx.Exceptions.{core_err}
use rqx.Exceptions.Classes
use rqx.Exceptions.Classes.{ExceptionClass, IsSubclass, itself, first_base, second_base, bases}

-- caught by `except RequestError`, or by `except HTTPError`
abbrev pub IsRequestError : RqxCoreError → Type 0
IsRequestError e = IsSubclass (core_err e).class Classes.request_error

abbrev pub IsHttpError : RqxCoreError → Type 0
IsHttpError e = IsSubclass (core_err e).class Classes.http_error

IsSubclass-trans : {a b c : ExceptionClass} → IsSubclass a b → IsSubclass b c → IsSubclass a c
IsSubclass-trans itself t = t
IsSubclass-trans (first_base e s) t = first_base e (IsSubclass-trans s t)
IsSubclass-trans (second_base e s) t = second_base e (IsSubclass-trans s t)

pub request→http :
    {c : ExceptionClass} → IsSubclass c Classes.request_error → IsSubclass c Classes.http_error
unfolding bases
request→http s = IsSubclass-trans s (first_base refl itself)

transport→request :
    {c : ExceptionClass} → IsSubclass c Classes.transport_error → IsSubclass c Classes.request_error
unfolding bases
transport→request s = IsSubclass-trans s (first_base refl itself)

-- the errors that a `reqwest::Error` becomes
abbrev pub IsClass : ExceptionClass → RqxCoreError → Type 0
IsClass c e = IsSubclass (core_err e).class c

IsClass-timeout :
    (connecting : Bool) (message : Text)
    → IsClass Classes.timeout_exception
        (if connecting then connect_timeout message else read_timeout message)
unfolding core_err bases
IsClass-timeout true message = first_base refl itself
IsClass-timeout false message = first_base refl itself

timeout→request :
    {c : ExceptionClass}
    → IsSubclass c Classes.timeout_exception
    → IsSubclass c Classes.request_error
unfolding bases
timeout→request s = transport→request (IsSubclass-trans s (first_base refl itself))

IsClass-connect :
    (refused : Bool) (message : Text)
    → IsClass Classes.transport_error
        (if refused then proxy_error message else connect_error message)
unfolding core_err bases
IsClass-connect true message = first_base refl itself
IsClass-connect false message = first_base refl (first_base refl itself)

broken-IsClass :
    (broken : Bool) (code : Option ℤ) (message : Text)
    → IsClass Classes.transport_error (
        if broken
        then remote_protocol_error message
        else elim code [ some k ↦ read_error message | none ↦ remote_protocol_error message ])
unfolding core_err bases
broken-IsClass true code message = first_base refl (first_base refl itself)
broken-IsClass false (some k) message = first_base refl (first_base refl itself)
broken-IsClass false none message = first_base refl (first_base refl itself)

from_hyper-IsClass :
    (h : HyperError) (message : Text) → IsClass Classes.transport_error (from_hyper h message)
from_hyper-IsClass h message =
    broken-IsClass (h.is_parse || h.is_incomplete_message) h.os_error message

-- what remains when neither the time nor the connection nor a redirect is at fault
other-IsRequestError :
    (hyper : Option HyperError) (decoding : Bool) (message other : Text)
    → IsRequestError (elim hyper [
      | some h ↦ from_hyper h message
      | none ↦ if decoding then decoding_error message else request_error other
    ])
unfolding core_err bases
other-IsRequestError (some h) decoding message other =
    transport→request (from_hyper-IsClass h message)
other-IsRequestError none true message other = first_base refl itself
other-IsRequestError none false message other = itself

-- what an error with a class of its own says
abbrev Classified : Bool → Bool → RqxCoreError → Type 0
Classified timeout connect e =
    IsRequestError e
    × (timeout ≡ true → IsClass Classes.timeout_exception e)
    × (timeout ≡ false → connect ≡ true → IsClass Classes.transport_error e)

choice-Classified :
    (timeout connect refused redirect : Bool) (message : Text) (other : RqxCoreError)
    → IsRequestError other
    → Classified timeout connect (
        if timeout
        then if connect then connect_timeout message else read_timeout message
        else if connect
        then if refused then proxy_error message else connect_error message
        else if redirect
        then too_many_redirects message
        else other)
unfolding core_err bases
choice-Classified true connect refused redirect message other r =
    let class = IsClass-timeout connect message in
    (timeout→request class, λ e. class, λ f. absurd (true≢false f))
choice-Classified false true refused redirect message other r =
    let class = IsClass-connect refused message in
    (transport→request class, λ f. absurd (true≢false (sym f)), λ e f. class)
choice-Classified false false refused true message other r =
    (first_base refl itself, λ f. absurd (true≢false (sym f)), λ e f. absurd (true≢false (sym f)))
choice-Classified false false refused false message other r =
    (r, λ f. absurd (true≢false (sym f)), λ e f. absurd (true≢false (sym f)))

module _ (P : Platform) where
  open P use {
    NetError, error_display, is_timeout, is_connect, is_redirect, is_body, is_decode, sources,
  }

  -- Every `reqwest::Error` is raised as a RequestError: as a TimeoutException where it is a timeout,
  -- and as a TransportError where it is a failure to connect.
  pub from_net-IsClass :
      (e : NetError)
      → IsClass Classes.request_error (from_net P e)
        × (is_timeout e ≡ true → IsClass Classes.timeout_exception (from_net P e))
        × (is_timeout e ≡ false
            → is_connect e ≡ true
            → IsClass Classes.transport_error (from_net P e))
  unfolding from_net
  from_net-IsClass e =
      choice-Classified (is_timeout e) (is_connect e) (any tunnel_refused (sources e))
        (is_redirect e) (error_display e) _
        (other-IsRequestError (first_hyper (sources e)) (is_body e || is_decode e) (error_display e)
          _)

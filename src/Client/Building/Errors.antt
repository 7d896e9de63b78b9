-- ===== src/Client/Building/Errors.antt =====
-- The exceptions that a whole request can raise.
use rqx.Base.{
  ℕ, Text, text, text_eq, ◌==◌, ◌||◌, Bool, true, false, Option, none, some, ◌≡◌, ◌⊎◌, refl, inl,
  inr, if◌then◌else◌,
}
use rqx.Error.{RqxCoreError, invalid_url, Result, ok, err}
use rqx.Exceptions.{core_err}
use rqx.Exceptions.Classes
use rqx.Exceptions.Classes.{IsSubclass, itself, first_base, bases}
use rqx.Exceptions.Network.{IsHttpError, request→http, from_net-IsClass}
use rqx.Exceptions.Sending.{send_request-RaisesHttp}
use rqx.Platform.{Platform}
use rqx.Network.{Env, Trace}
use rqx.Network.Discipline.{Discipline, FailsAs, Raises, Raises-Discipline, if-Good, weaken-Raises}
use rqx.QueryParams.{FormUrlencoded}
use rqx.Response.{PendingResponse}
use rqx.Url.BaseUrl.{merge_url, merge_with, join_base}
use rqx.Url.Library.{UrlLibrary, Tried, fine, failing}
use rqx.Url.Reference.{UrlReference, absolute, relative}
use rqx.Client.Building.{
  Reqwest, Request, Config, Outcome, done, broken, of_core, of_outcome, duration, build_at, build,
  read_body, request_buffered,
}

-- an HTTPError, or InvalidURL
abbrev pub IsRequestFailure : RqxCoreError → Type 0
IsRequestFailure e = IsHttpError e ⊎ ((core_err e).class ≡ Classes.invalid_url)

abbrev FailsWell : {A : Type 0} → Result A → Type 0
FailsWell (ok a) = Unit {0}
FailsWell (err e) = IsRequestFailure e

module _ (L : UrlLibrary) where
  open L use {Url, join_url}

  join_base-FailsWell :
      (base : UrlLibrary.Url L) (url : UrlReference L) → FailsWell (join_base L base url)
  unfolding join_base core_err
  join_base-FailsWell base url = by_join (join_url base _) _
    where
      by_join :
          (t : Tried Url) (message : Text → Text)
          → FailsWell (elim t as (λ k. Result Url) [
            | fine joined ↦ ok joined
            | failing e ↦ err (invalid_url (message e))
          ])
      by_join (fine joined) message = tt
      by_join (failing e) message = inr refl

  merge_with-FailsWell :
      (base : Option (UrlLibrary.Url L)) (url : UrlReference L) → FailsWell (merge_with L base url)
  unfolding core_err bases
  merge_with-FailsWell (some base) url = join_base-FailsWell base url
  merge_with-FailsWell none url = inl (first_base refl (first_base refl (first_base refl itself)))

  merge_url-FailsWell :
      (base : Option (UrlLibrary.Url L)) (url : UrlReference L) → FailsWell (merge_url L base url)
  unfolding merge_url
  merge_url-FailsWell base (absolute url) = by_authority (UrlLibrary.has_authority L url)
    where
      by_authority : (b : Bool) → FailsWell (if b then ok url else merge_with L base (absolute url))
      by_authority true = tt
      by_authority false = merge_with-FailsWell base (absolute url)
  merge_url-FailsWell base (relative reference) = merge_with-FailsWell base (relative reference)

module _ {P : Platform} {L : UrlLibrary} {Json : Type 0} (W : Reqwest P L Json) where
  abbrev D : Discipline {P = P} (λ A m. Raises IsRequestFailure m) IsRequestFailure
  D = Raises-Discipline IsRequestFailure

  of_core-Raises :
      {A : Type 0} (r : Result A) → FailsWell r → Raises IsRequestFailure (of_core P L Json W r)
  of_core-Raises (ok a) h = D.returns a
  of_core-Raises (err e) h = D.raises e h

  of_outcome-Raises :
      {A : Type 0} (o : Outcome A (Platform.NetError P))
      → Raises IsRequestFailure (of_outcome P L Json W o)
  of_outcome-Raises (done a) = D.returns a
  of_outcome-Raises (broken e) = D.raises _ (inl (request→http (from_net-IsClass P e).0))

  duration-Raises : (o : Option ℕ) → Raises IsRequestFailure (duration P L Json W o)
  duration-Raises none = D.panics
  duration-Raises (some time) = D.returns time

  module _ (codec : FormUrlencoded) (default_timeout : Platform.F64 P) where
    build-Raises :
        (config : Config P L Json) (request : Request P L Json)
        → Raises IsRequestFailure (build P L Json W codec default_timeout config request)
    unfolding build build_at core_err bases
    build-Raises config request =
        D.binds _ _ (of_core-Raises _ (merge_url-FailsWell L config.base_url request.url)) (λ url.
          if-Good (λ A m. Raises IsRequestFailure m) IsRequestFailure D
            (UrlLibrary.scheme_of L url == text "http"
              || UrlLibrary.scheme_of L url == text "https")
            _ _ (D.binds _ _ (duration-Raises _) (λ time. of_outcome-Raises _))
            (D.raises _ (inl (first_base refl (first_base refl (first_base refl itself))))))

    -- Every error that `Client::request` ends in, from the building of the request to the reading of
    -- the body, is raised as a subclass of HTTPError or as InvalidURL.
    pub request_buffered-FailsAs :
        (E : Env P) (config : Config P L Json) (request : Request P L Json) (tr : Trace P)
        → FailsAs IsRequestFailure
            (request_buffered P L Json W codec default_timeout E config request tr)
    unfolding request_buffered read_body
    request_buffered-FailsAs E config request tr =
        let read : (pending : PendingResponse P)
            → Raises IsRequestFailure (read_body P L Json W codec default_timeout pending) =
          λ pending. D.binds _ _ (of_outcome-Raises _) (λ bytes. D.returns _) in
        let whole : Raises IsRequestFailure
            (request_buffered P L Json W codec default_timeout E config request) =
          D.binds _ _ (build-Raises config request) (λ executable.
            D.binds _ _
              (weaken-Raises IsHttpError IsRequestFailure _ (λ e h. inl h)
                (send_request-RaisesHttp E config.client executable _))
              read) in
        whole.failure tr

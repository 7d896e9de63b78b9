-- ===== src/PyClient/Refusals.antt =====
-- The calls of crates/rqx/src/client.rs with arguments that contradict each other.
use rqx.Base.{◌∙◌, text, ℕ, ◌+◌, ◌≤◌, Text, Option, none, some, ◌≡◌, refl, ◌⊎◌, inl, inr, arith}
use rqx.Base.Dict.{Dict}
use rqx.Error.{Result, ok, err, invalid_argument}
use rqx.Exceptions.{PyResult, new_err, of_core, to_err, core_err}
use rqx.Exceptions.Classes
use rqx.HttpConfig.{Auth, new_auth}
use rqx.Network.{Env, Trace}
use rqx.Platform.{Platform}
use rqx.QueryParams.{FormUrlencoded}
use rqx.Client.Building.{RequestBody, Reqwest, Config, new_body}
use rqx.Streaming.Chunking.{ByteString}
use rqx.Url.Library.{UrlLibrary}
use rqx.PyClient.{await, BodylessArgs, bodyless, with_body, raises, Act, trying, CallArgs, auth_of}
use rqx.PyClient.Sync
use rqx.PyClient.Async
use rqx.PyClient.Agreement.{
  Method, request, get, options, head, delete, post, put, patch, sync_call, async_call,
  await-async_call,
}

abbrev pub given {ℓ} : {A : Type ℓ} → Option A → ℕ
given none = 0
given (some a) = 1

-- a result that is an InvalidArgument
pub data IsRefusal {ℓ} {A : Type ℓ} : Result A → Type ℓ where
  refusal : (message : Text) → IsRefusal (err (invalid_argument message))

new_body-IsRefusal :
    {Json : Type 0} (c : Option ByteString) (d : Option (Dict Text)) (j : Option Json)
    → 2 ≤ given c + given d + given j
    → IsRefusal (new_body c d j)
unfolding new_body
new_body-IsRefusal none none none h = absurd (omega arith)
new_body-IsRefusal (some c) none none h = absurd (omega arith)
new_body-IsRefusal none (some d) none h = absurd (omega arith)
new_body-IsRefusal none none (some j) h = absurd (omega arith)
new_body-IsRefusal (some c) (some d) j h = refusal _
new_body-IsRefusal (some c) none (some j) h = refusal _
new_body-IsRefusal none (some d) (some j) h = refusal _

-- Credentials are refused if both kinds are given, and taken otherwise.
auth_of-cases :
    (basic : Option (Text × Text)) (token : Option Text)
    → IsRefusal (auth_of basic token)
      ⊎ ((given basic + given token ≤ 1) × ((a : Option Auth) × (auth_of basic token ≡ ok a)))
unfolding new_auth
auth_of-cases none none = inr (omega arith, (none, refl))
auth_of-cases (some (u, p)) none = inr (omega arith, (_, refl))
auth_of-cases none (some t) = inr (omega arith, (_, refl))
auth_of-cases (some (u, p)) (some t) = inl (refusal _)

-- a call that raises a ValueError, with no event of its own
abbrev pub IsRefused : {P : Platform} {A : Type 0} → Act P A → Trace P → Type 0
IsRefused act tr = (message : Text) × (act tr ≡ (raises (new_err Classes.value_error message), tr))

module _ {P : Platform} where
  trying-IsRefused :
      {A B : Type 0} (r : Result A) (f : A → Act P B) (tr : Trace P)
      → IsRefusal r
      → IsRefused (trying (of_core r) f) tr
  unfolding core_err to_err
  trying-IsRefused r f tr (refusal message) = (message, refl)

  trying-ok :
      {A B : Type 0} (r : Result A) (f : A → Act P B) (tr : Trace P) (a : A)
      → r ≡ ok a
      → IsRefused (f a) tr
      → IsRefused (trying (of_core r) f) tr
  trying-ok r f tr a e h = rw e h

  module _ {L : UrlLibrary} {Json : Type 0} (W : Reqwest P L Json) where
    -- both kinds of credentials
    abbrev pub HasTwoAuths : BodylessArgs P L Json → Type 0
    HasTwoAuths args = 2 ≤ given args.auth + given args.auth_bearer

    -- a call of a method, or of `stream`
    pub data Attempt : Type 0 where
      calls : Method P L Json → Attempt
      streams : CallArgs P L Json → Attempt

    abbrev pub IsAmbiguous : CallArgs P L Json → Type 0
    IsAmbiguous args =
        HasTwoAuths args.common ⊎ (2 ≤ given args.content + given args.data_pairs + given args.json)

    -- The arguments contradict each other.
    abbrev pub Contradicts : Attempt → Type 0
    Contradicts (calls (request args)) = IsAmbiguous args
    Contradicts (calls (get args)) = HasTwoAuths args
    Contradicts (calls (options args)) = HasTwoAuths args
    Contradicts (calls (head args)) = HasTwoAuths args
    Contradicts (calls (delete args)) = HasTwoAuths args
    Contradicts (calls (post args)) =
        HasTwoAuths args.common ⊎ (2 ≤ given args.content + given args.data_pairs + given args.json)
    Contradicts (calls (put args)) =
        HasTwoAuths args.common ⊎ (2 ≤ given args.content + given args.data_pairs + given args.json)
    Contradicts (calls (patch args)) =
        HasTwoAuths args.common ⊎ (2 ≤ given args.content + given args.data_pairs + given args.json)
    Contradicts (streams args) = IsAmbiguous args

    -- what every call does first
    checks-IsRefused :
        {A : Type 0} (args : CallArgs P L Json) (f : Option Auth → RequestBody Json → Act P A)
        (tr : Trace P)
        → IsAmbiguous args
        → IsRefused
            (trying
              (of_core (auth_of args.common.auth args.common.auth_bearer))
              λ auth. trying (of_core (new_body args.content args.data_pairs args.json)) (f auth))
            tr
    checks-IsRefused args f tr ambiguous =
        elim (auth_of-cases args.common.auth args.common.auth_bearer) [
          | inl refused ↦ trying-IsRefused _ _ tr refused
          | inr (single, (a, e)) ↦ elim ambiguous [
            | inl both ↦ absurd (omega arith)
            | inr several ↦ trying-ok _ _ tr a e (
                trying-IsRefused (new_body args.content args.data_pairs args.json) _ tr
                  (new_body-IsRefusal args.content args.data_pairs args.json several))
          ]
        ]

    module _ (codec : FormUrlencoded) (default_timeout : Platform.F64 P) (config : Config P L Json)
        (E : Env P) (handle : PyResult (Unit {0})) where
      -- `Client` refuses, and so does `AsyncClient`, when it is called or awaited.
      abbrev pub IsRefusedBoth : Attempt → Trace P → Type 0
      IsRefusedBoth (calls method) tr =
          IsRefused (sync_call W codec default_timeout config E handle method) tr
          × IsRefused (await (async_call W codec default_timeout config E handle method)) tr
      IsRefusedBoth (streams args) tr =
          IsRefused (Sync.stream W codec default_timeout config args) tr
          × IsRefused (Async.stream W codec default_timeout config args) tr

      sync_call-IsRefused :
          (method : Method P L Json) (tr : Trace P)
          → Contradicts (calls method)
          → IsRefused (sync_call W codec default_timeout config E handle method) tr
      unfolding Sync.request Sync.get Sync.options Sync.head Sync.delete Sync.post Sync.put
          Sync.patch
      sync_call-IsRefused (request args) tr h = checks-IsRefused args _ tr h
      sync_call-IsRefused (get args) tr h =
          checks-IsRefused (bodyless P L Json (text "GET") args) _ tr (inl h)
      sync_call-IsRefused (options args) tr h =
          checks-IsRefused (bodyless P L Json (text "OPTIONS") args) _ tr (inl h)
      sync_call-IsRefused (head args) tr h =
          checks-IsRefused (bodyless P L Json (text "HEAD") args) _ tr (inl h)
      sync_call-IsRefused (delete args) tr h =
          checks-IsRefused (bodyless P L Json (text "DELETE") args) _ tr (inl h)
      sync_call-IsRefused (post args) tr h =
          checks-IsRefused (with_body P L Json (text "POST") args) _ tr h
      sync_call-IsRefused (put args) tr h =
          checks-IsRefused (with_body P L Json (text "PUT") args) _ tr h
      sync_call-IsRefused (patch args) tr h =
          checks-IsRefused (with_body P L Json (text "PATCH") args) _ tr h

      -- A call of any method of `Client` or `AsyncClient` that sends, and of `stream`, with basic and
      -- bearer credentials, or with more than one of `content=`, `data=` and `json=` where it takes
      -- them, raises a ValueError and does nothing.
      pub attempt-IsRefused :
          (attempt : Attempt) (tr : Trace P) → Contradicts attempt → IsRefusedBoth attempt tr
      unfolding Sync.stream Async.stream
      attempt-IsRefused (calls method) tr h =
          let (message, e) = sync_call-IsRefused method tr h in
          (
            (message, e),
            (message, await-async_call W codec default_timeout config E handle method tr ∙ e),
          )
      attempt-IsRefused (streams args) tr h =
          (checks-IsRefused args _ tr h, checks-IsRefused args _ tr h)

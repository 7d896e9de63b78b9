-- ===== src/PyClient/Agreement.antt =====
-- `Client` and `AsyncClient` against each other, and what both refuse.
use rqx.Base.{text, ◌≡◌, refl}
use rqx.Exceptions.{PyResult, py_ok, py_err, of_core}
use rqx.Network.{Env, Trace, M}
use rqx.Platform.{Platform}
use rqx.QueryParams.{FormUrlencoded}
use rqx.QueryParams.Binding.{◌⟫=◌}
use rqx.Client.Building.{
  Reqwest, Config, Buffered, Request, new_body, new_request, request_buffered,
}
use rqx.Url.Library.{UrlLibrary}
use rqx.PyClient.{
  Act, run, trying, block_on_inner, future_into_py, await, BodylessArgs, BodyArgs, CallArgs,
  bodyless, with_body, auth_of,
}
use rqx.PyClient.Sync
use rqx.PyClient.Async

pub data Method (P : Platform) (L : UrlLibrary) (Json : Type 0) : Type 0 where
  request : CallArgs P L Json → Method P L Json
  get options head delete : BodylessArgs P L Json → Method P L Json
  post put patch : BodyArgs P L Json → Method P L Json

module _ {P : Platform} where
  await-trying :
      {A B : Type 0} (r : PyResult A) (f : A → PyResult (Act P B)) (g : A → Act P B) (tr : Trace P)
      → ((a : A) → await (f a) tr ≡ g a tr)
      → await (r ⟫= f) tr ≡ trying r g tr
  await-trying (py_ok a) f g tr h = h a
  await-trying (py_err e) f g tr h = refl

  await-future_into_py :
      {A : Type 0} (handle : PyResult (Unit {0})) (m : M P A) (tr : Trace P)
      → await (future_into_py handle (run m)) tr ≡ block_on_inner handle m tr
  unfolding future_into_py block_on_inner
  await-future_into_py (py_ok u) m tr = refl
  await-future_into_py (py_err e) m tr = refl

module _ {P : Platform} {L : UrlLibrary} {Json : Type 0} (W : Reqwest P L Json) where
  module _ (codec : FormUrlencoded) (default_timeout : Platform.F64 P)
      (config : Config P L Json) where
    module _ (E : Env P) (handle : PyResult (Unit {0})) where
      abbrev pub sync_call : Method P L Json → Act P (Buffered P L Json)
      sync_call (request args) = Sync.request W codec default_timeout config E handle args
      sync_call (get args) = Sync.get W codec default_timeout config E handle args
      sync_call (options args) = Sync.options W codec default_timeout config E handle args
      sync_call (head args) = Sync.head W codec default_timeout config E handle args
      sync_call (delete args) = Sync.delete W codec default_timeout config E handle args
      sync_call (post args) = Sync.post W codec default_timeout config E handle args
      sync_call (put args) = Sync.put W codec default_timeout config E handle args
      sync_call (patch args) = Sync.patch W codec default_timeout config E handle args

      abbrev pub async_call : Method P L Json → PyResult (Act P (Buffered P L Json))
      async_call (request args) = Async.request W codec default_timeout config E handle args
      async_call (get args) = Async.get W codec default_timeout config E handle args
      async_call (options args) = Async.options W codec default_timeout config E handle args
      async_call (head args) = Async.head W codec default_timeout config E handle args
      async_call (delete args) = Async.delete W codec default_timeout config E handle args
      async_call (post args) = Async.post W codec default_timeout config E handle args
      async_call (put args) = Async.put W codec default_timeout config E handle args
      async_call (patch args) = Async.patch W codec default_timeout config E handle args

      await-request :
          (args : CallArgs P L Json) (tr : Trace P)
          → await (Async.request W codec default_timeout config E handle args) tr
            ≡ Sync.request W codec default_timeout config E handle args tr
      unfolding Sync.request Async.request
      await-request args tr =
          let sending : Request P L Json → M P (Buffered P L Json) =
            request_buffered P L Json W codec default_timeout E config in
          await-trying (of_core (auth_of args.common.auth args.common.auth_bearer)) _ _ tr λ auth.
            await-trying (of_core (new_body args.content args.data_pairs args.json)) _ _ tr λ body.
              await-trying (of_core (new_request P L Json W (Sync.request_of W args body auth)))
                (λ built. future_into_py handle (run (sending built)))
                (λ built. block_on_inner handle (sending built)) tr
                λ built. await-future_into_py handle (sending built) tr

      -- An awaited call of `AsyncClient` comes to what the call of `Client` with the same arguments
      -- comes to, with the same events: whether it returns, or raises before it sends or later.
      pub await-async_call :
          (method : Method P L Json) (tr : Trace P)
          → await (async_call method) tr ≡ sync_call method tr
      unfolding Sync.get Sync.options Sync.head Sync.delete Sync.post Sync.put Sync.patch Async.get
          Async.options Async.head Async.delete Async.post Async.put Async.patch
      await-async_call (request args) tr = await-request args tr
      await-async_call (get args) tr = await-request (bodyless P L Json (text "GET") args) tr
      await-async_call (options args) tr =
          await-request (bodyless P L Json (text "OPTIONS") args) tr
      await-async_call (head args) tr = await-request (bodyless P L Json (text "HEAD") args) tr
      await-async_call (delete args) tr = await-request (bodyless P L Json (text "DELETE") args) tr
      await-async_call (post args) tr = await-request (with_body P L Json (text "POST") args) tr
      await-async_call (put args) tr = await-request (with_body P L Json (text "PUT") args) tr
      await-async_call (patch args) tr = await-request (with_body P L Json (text "PATCH") args) tr

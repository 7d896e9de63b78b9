-- ===== src/PyClient/Options.antt =====
-- What the constructor of crates/rqx/src/client.rs makes of its options.
use rqx.Base.{Text, true, false, Option, none, some, ◌≡◌, ◌⊎◌}
use rqx.Exceptions.{PyErr, py_ok, py_err, new_err, of_core}
use rqx.Exceptions.Classes
use rqx.HttpConfig.{Auth, no_auth, bearer}
use rqx.Platform.{Platform}
use rqx.Redirect.{RedirectPolicy}
use rqx.Response.{unwrap_or}
use rqx.Url.BaseUrl.{new_base}
use rqx.Url.Library.{UrlLibrary}
use rqx.QueryParams.Binding.{PyStrings}
use rqx.Tls.{TlsLibrary}
use rqx.Transport.Configuration.{ClientLibrary, Transport, option_map}
use rqx.PyTransport.{PyMade, py_made, py_failed, py_panicked, each, timeout_of, no_timeout}
use rqx.PyTransport.Policy.{Honours}
use rqx.PyClient.Fresh.{IsFresh, FreshPost}
use rqx.PyClient.{ClientArgs, PyClient, is_conflicting}

abbrev pub auth_for : Option Text → Auth
auth_for none = no_auth
auth_for (some token) = bearer token

module _ {P : Platform} {L : UrlLibrary} {Json : Type 0} {T : TlsLibrary}
    (C : ClientLibrary P T) where
  -- A client that its options made.
  pub record FollowsOptions (S : PyStrings (Platform.F64 P)) (args : ClientArgs P L Json C)
      (c : PyClient P L Json C) : Type 0 where
    -- redirects
    pub follows : Honours args.follow_redirects c.config.client.redirects.follow
    pub limited : Honours args.max_redirects c.config.client.redirects.max_redirects
    pub policy : Honours args.redirects c.config.client.redirects
    -- the transport is the one that is given, and not given beside options of another, or a fresh one
    -- that has these options
    pub transport_is :
        (args.transport ≡ some c.transport)
        ⊎ ((args.transport ≡ none) × IsFresh C S args c.transport)
    pub alone : is_conflicting P L Json C args ≡ false
    -- what sending reads is the transport's
    pub slots : c.config.client.semaphore ≡ c.transport.semaphore
    pub retries : c.config.client.retries ≡ c.transport.config.retry_config
    pub auth_is : c.config.auth ≡ auth_for args.auth_bearer
    pub timeout_is :
        c.config.timeout ≡ unwrap_or (option_map (timeout_of P) args.timeout) (no_timeout P)
    pub base_is : each (λ url. of_core (new_base L url)) args.base_url ≡ py_ok c.config.base_url

  -- How a construction ends.
  pub data ClientPost (S : PyStrings (Platform.F64 P)) (args : ClientArgs P L Json C)
      : PyMade (PyClient P L Json C) → Type 0 where
    follows_options :
        (c : PyClient P L Json C) → FollowsOptions S args c → ClientPost S args (py_made c)
    bad_base :
        (e : PyErr)
        → each (λ url. of_core (new_base L url)) args.base_url ≡ py_err e
        → ClientPost S args (py_failed e)
    bad_policy :
        (message : Text)
        → ((policy : RedirectPolicy)
            → (Honours args.follow_redirects policy.follow
                × Honours args.max_redirects policy.max_redirects
                × Honours args.redirects policy)
            → ⊥)
        → ClientPost S args (py_failed (new_err Classes.rqx_error message))
    two_transports :
        (message : Text)
        → is_conflicting P L Json C args ≡ true
        → ClientPost S args (py_failed (new_err Classes.rqx_error message))
    -- the transport that is made for the client
    bad_transport :
        (e : PyErr)
        → args.transport ≡ none
        → FreshPost C S args (py_failed e)
        → ClientPost S args (py_failed e)
    bad_duration :
        args.transport ≡ none → FreshPost C S args py_panicked → ClientPost S args py_panicked

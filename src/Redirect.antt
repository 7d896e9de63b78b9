-- ===== src/Redirect.antt =====
-- crates/rqx-core/src/redirect.rs: the request that follows a redirect.
pub mod Credentials
use rqx.Base.{
  ℕ, Text, text, text_eq, list_beq, nat_eq, ◌==◌, Bool, true, false, ◌&&◌, ◌||◌, not, Option, none,
  some, List, [], ◌∷◌, ◌++◌, if◌then◌else◌,
}
use rqx.Error.{RqxCoreError, request_error}
use rqx.Platform.{Platform, HttpRequest}
use rqx.Network.{M, ok_or}
use rqx.Response.{unwrap_or}

pub record RedirectPolicy : Type 0 where
  pub follow : Bool
  pub max_redirects : ℕ
  pub raise_on_exceeded : Bool

-- `RedirectPolicy::default`
abbrev pub default_policy : RedirectPolicy
default_policy = record { follow = false; max_redirects = 20; raise_on_exceeded = true }

unfoldable pub with_defaults : Option Bool → Option ℕ → Option Bool → RedirectPolicy
with_defaults follow max_redirects raise_on_exceeded = record {
  follow = unwrap_or follow default_policy.follow;
  max_redirects = unwrap_or max_redirects default_policy.max_redirects;
  raise_on_exceeded = unwrap_or raise_on_exceeded default_policy.raise_on_exceeded;
}

abbrev pub authorization : Text
authorization = text "authorization"

abbrev pub cookie : Text
cookie = text "cookie"

abbrev pub content_length : Text
content_length = text "content-length"

abbrev pub content_type : Text
content_type = text "content-type"

abbrev pub transfer_encoding : Text
transfer_encoding = text "transfer-encoding"

unfoldable pub redirect_method : Text → ℕ → Text
redirect_method original status_code =
    if (status_code == 302 || status_code == 303) && not (original == text "HEAD")
    then text "GET"
    else if status_code == 301 && (original == text "POST")
    then text "GET"
    else original

abbrev pub is_port : ℕ → Option ℕ → Bool
is_port n none = false
is_port n (some port) = port == n

module _ (P : Platform) where
  open P use {Url, HeaderMap, remove_header, port_or_known_default, scheme, same_host, same_origin}

  -- port 80 of `http` to port 443 of `https`
  abbrev pub is_upgrade : Url → Url → Bool
  is_upgrade current next =
      is_port 80 (port_or_known_default current)
      && is_port 443 (port_or_known_default next)
      && (scheme current == text "http")
      && (scheme next == text "https")

  unfoldable pub keeps_authorization : Url → Url → Bool
  keeps_authorization current next =
      if is_upgrade current next then same_host current next else same_origin current next

  unfoldable pub redirect_target : Url → Text → M P Url
  redirect_target url location = ok_or (Platform.join P url location) (
      request_error
        (text "Error parsing url from redirect: " ++ Platform.join_error P url location))

  -- the headers that describe a body
  abbrev pub remove_content : HeaderMap → HeaderMap
  remove_content headers =
      remove_header (remove_header (remove_header headers content_length) content_type)
        transfer_encoding

  unfoldable pub redirected_request : HttpRequest P → ℕ → Url → HttpRequest P
  redirected_request request code url =
      let method = redirect_method request.method code in
      let changed = not (method == request.method) in
      let described = if changed then remove_content request.headers else request.headers in
      let anonymous = remove_header described cookie in
      record {
        method = method;
        url = url;
        headers =
            if keeps_authorization request.url url
            then anonymous
            else remove_header anonymous authorization;
        body = if changed then none else request.body;
      }

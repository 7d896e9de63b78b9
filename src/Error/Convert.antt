-- ===== src/Error/Convert.antt =====
-- crates/rqx-core/src/error.rs: which error of the core a `reqwest::Error` becomes.
use rqx.Base.{
  Text, text, text_eq, ◌==◌, Bool, Option, none, some, List, [], ◌∷◌, ◌||◌, ◌++◌, any,
  if◌then◌else◌,
}
use rqx.Error.{
  RqxCoreError, connect_timeout, read_timeout, connect_error, read_error, remote_protocol_error,
  proxy_error, decoding_error, too_many_redirects, request_error,
}
use rqx.Platform.{Platform, Source, HyperError}

-- `TUNNEL_REFUSED.contains`
abbrev pub tunnel_refused : Source → Bool
tunnel_refused s =
    (s.display == text "tunnel error: unsuccessful")
    || (s.display == text "tunnel error: proxy authorization required")

-- `find_map` of the first `hyper::Error`
abbrev pub first_hyper : List Source → Option HyperError
first_hyper [] = none
first_hyper (s ∷ rest) = elim (s.hyper) [ some h ↦ some h | none ↦ first_hyper rest ]

abbrev pub from_hyper : HyperError → Text → RqxCoreError
from_hyper h message =
    if h.is_parse || h.is_incomplete_message
    then remote_protocol_error message
    else elim (h.os_error) [ some code ↦ read_error message | none ↦ remote_protocol_error message ]

module _ (P : Platform) where
  open P use {
    NetError, error_display, is_timeout, is_connect, is_redirect, is_body, is_decode, sources,
  }

  -- `From<reqwest::Error>`
  unfoldable pub from_net : NetError → RqxCoreError
  from_net e =
      let message = error_display e in
      if is_timeout e
      then if is_connect e then connect_timeout message else read_timeout message
      else if is_connect e
      then if any tunnel_refused (sources e) then proxy_error message else connect_error message
      else if is_redirect e
      then too_many_redirects message
      else elim (first_hyper (sources e)) [
        | some h ↦ from_hyper h message
        | none ↦
            if is_body e || is_decode e
            then decoding_error message
            else request_error (text "request failed: " ++ message)
      ]

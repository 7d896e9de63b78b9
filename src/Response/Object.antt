-- ===== src/Response/Object.antt =====
-- crates/rqx/src/response.rs: `PyResponse`, whose `content`, `headers` and `url` are Python objects
-- made on first use. An object is its address; addresses are given out in order. `json` stands for the
-- JSON value, before `value_to_py` makes Python objects of it.
pub mod Steady
use rqx.Base.{ℕ, suc, ◌+◌, Text, text, Bool, true, false, Option, none, some, List, [], ◌∷◌}
use rqx.Error.{RqxCoreError, Result, ok, err}
use rqx.Exceptions.{PyErr, PyResult, to_err, core, of_core}
use rqx.Platform.{Platform}
use rqx.Response.{ResponseParts, status_error}
use rqx.Response.Body.{BufferedResponse, Decoders, encoding, response_text, response_json}

-- the response, and the address that the next object gets
pub record PyResponse (P : Platform) : Type 0 where
  pub inner : BufferedResponse P
  pub content_cache : Option ℕ
  pub headers_cache : Option ℕ
  pub url_cache : Option ℕ
  pub next : ℕ

-- `PyResponse::from`
unfoldable pub from_buffered : {P : Platform} → BufferedResponse P → ℕ → PyResponse P
from_buffered inner next = record {
  inner = inner;
  content_cache = none;
  headers_cache = none;
  url_cache = none;
  next = next;
}

pub data Call : Type 0 where
  content headers url encoding_name body_text json raise_for_status : Call
  set_encoding : Text → Call

pub data Answer (V : Type 0) : Type 0 where
  object : ℕ → Answer V
  shows : Text → Answer V
  parsed : PyResult V → Answer V
  nothing : Answer V
  -- `raise_for_status`: the response itself, or an error that has it as `.response`
  itself : Answer V
  raised : PyErr → Answer V

-- `PyOnceLock::get_or_init`: the object, and the next address
unfoldable pub get_or_init : Option ℕ → ℕ → ℕ × ℕ
get_or_init (some i) next = (i, next)
get_or_init none next = (next, suc next)

unfoldable pub verdict : {V : Type 0} → Option RqxCoreError → Answer V
verdict none = itself
verdict (some error) = raised (to_err (core error))

module _ {P : Platform} (D : Decoders) where
  unfoldable pub perform : Call → PyResponse P → Answer (Decoders.Value D) × PyResponse P
  perform content r =
      let (i, next) = get_or_init r.content_cache r.next in
      (object i, record r { content_cache = some i; next = next })
  perform headers r =
      let (i, next) = get_or_init r.headers_cache r.next in
      (object i, record r { headers_cache = some i; next = next })
  perform url r =
      let (i, next) = get_or_init r.url_cache r.next in
      (object i, record r { url_cache = some i; next = next })
  perform encoding_name r = (shows (encoding D r.inner.parts), r)
  perform body_text r = (shows (response_text D r.inner), r)
  perform json r = (parsed (of_core (response_json D r.inner)), r)
  perform raise_for_status r = (verdict (status_error r.inner.parts), r)
  perform (set_encoding label) r = (
    nothing,
    record r {
      inner = record (r.inner) {
        parts = record (r.inner.parts) { encoding_override = some label };
      };
    },
  )

  -- a sequence of calls
  unfoldable pub after_all : List Call → PyResponse P → PyResponse P
  after_all [] r = r
  after_all (call ∷ calls) r = after_all calls (perform call r).1

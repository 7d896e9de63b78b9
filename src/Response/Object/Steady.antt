-- ===== src/Response/Object/Steady.antt =====
-- What the calls of a response in crates/rqx/src/response.rs leave as it is.
use rqx.Base.{
  ℕ, Text, Bool, true, false, Option, none, some, List, [], ◌∷◌, ◌≡◌, refl, sym, ap, subst, ◌∙◌,
  if◌then◌else◌,
}
use rqx.Error.{http_status_error}
use rqx.Exceptions.{new_err, core_err, to_err}
use rqx.Exceptions.Classes
use rqx.Platform.{Platform}
use rqx.Response.{ResponseParts, status_error, status_message, is_success}
use rqx.Response.Body.{BufferedResponse, Decoders}
use rqx.Response.Object.{
  PyResponse, Call, content, headers, url, encoding_name, body_text, json, raise_for_status,
  set_encoding, object, itself, raised, get_or_init, verdict, perform, after_all,
}

-- the label that was set last
abbrev pub last_set : List Call → Option Text → Option Text
last_set [] label = label
last_set (set_encoding l ∷ calls) label = last_set calls (some l)
last_set (content ∷ calls) label = last_set calls label
last_set (headers ∷ calls) label = last_set calls label
last_set (url ∷ calls) label = last_set calls label
last_set (encoding_name ∷ calls) label = last_set calls label
last_set (body_text ∷ calls) label = last_set calls label
last_set (json ∷ calls) label = last_set calls label
last_set (raise_for_status ∷ calls) label = last_set calls label

-- an object that was given stays
abbrev pub Stays : Option ℕ → Option ℕ → Type 0
Stays none now = Unit {0}
Stays (some i) now = now ≡ some i

Stays-refl : (o : Option ℕ) → Stays o o
Stays-refl none = tt
Stays-refl (some i) = refl

Stays-get_or_init : (o : Option ℕ) (n : ℕ) → Stays o (some (get_or_init o n).0)
unfolding get_or_init
Stays-get_or_init none n = tt
Stays-get_or_init (some i) n = refl

Stays-trans : (o p q : Option ℕ) → Stays o p → Stays p q → Stays o q
Stays-trans none p q h k = tt
Stays-trans (some i) p q h k = subst (λ x. Stays x q) h k

answer-again :
    (o : Option ℕ) (n : ℕ) (now : Option ℕ) (later : ℕ)
    → Stays (some (get_or_init o n).0) now
    → (get_or_init now later).0 ≡ (get_or_init o n).0
unfolding get_or_init
answer-again o n now later e = ap (λ c. (get_or_init c later).0) e

last_set-cons :
    (call : Call) (calls : List Call) (label : Option Text)
    → last_set (call ∷ calls) label ≡ last_set calls (last_set (call ∷ []) label)
last_set-cons content calls label = refl
last_set-cons headers calls label = refl
last_set-cons url calls label = refl
last_set-cons encoding_name calls label = refl
last_set-cons body_text calls label = refl
last_set-cons json calls label = refl
last_set-cons raise_for_status calls label = refl
last_set-cons (set_encoding l) calls label = refl

module _ {P : Platform} where
  abbrev pub relabelled : BufferedResponse P → Option Text → BufferedResponse P
  relabelled b label = record b { parts = record (b.parts) { encoding_override = label } }

  record IsSteady (calls : List Call) (r r' : PyResponse P) : Type 0 where
    same_response : r'.inner ≡ relabelled r.inner (last_set calls r.inner.parts.encoding_override)
    same_content : Stays r.content_cache r'.content_cache
    same_headers : Stays r.headers_cache r'.headers_cache
    same_url : Stays r.url_cache r'.url_cache

  cons-IsSteady :
      (call : Call) (calls : List Call) (r s t : PyResponse P)
      → IsSteady (call ∷ []) r s
      → IsSteady calls s t
      → IsSteady (call ∷ calls) r t
  cons-IsSteady call calls r s t first rest = record {
    same_response =
        rest.same_response
        ∙ ap (λ b. relabelled b (last_set calls b.parts.encoding_override)) first.same_response
        ∙ ap (relabelled r.inner) (sym (last_set-cons call calls r.inner.parts.encoding_override));
    same_content = Stays-trans r.content_cache _ _ first.same_content rest.same_content;
    same_headers = Stays-trans r.headers_cache _ _ first.same_headers rest.same_headers;
    same_url = Stays-trans r.url_cache _ _ first.same_url rest.same_url;
  }

  module _ (D : Decoders) where
    -- a call that makes no object and sets no label
    unchanged :
        (call : Call) (r : PyResponse P)
        → last_set (call ∷ []) r.inner.parts.encoding_override ≡ r.inner.parts.encoding_override
        → IsSteady (call ∷ []) r r
    unchanged call r e = record {
      same_response = ap (relabelled r.inner) (sym e);
      same_content = Stays-refl r.content_cache;
      same_headers = Stays-refl r.headers_cache;
      same_url = Stays-refl r.url_cache;
    }

    perform-IsSteady :
        (call : Call) (r : PyResponse P) → IsSteady (call ∷ []) r (perform D call r).1
    unfolding perform
    perform-IsSteady content r = record {
      same_response = refl;
      same_content = Stays-get_or_init r.content_cache r.next;
      same_headers = Stays-refl r.headers_cache;
      same_url = Stays-refl r.url_cache;
    }
    perform-IsSteady headers r = record {
      same_response = refl;
      same_content = Stays-refl r.content_cache;
      same_headers = Stays-get_or_init r.headers_cache r.next;
      same_url = Stays-refl r.url_cache;
    }
    perform-IsSteady url r = record {
      same_response = refl;
      same_content = Stays-refl r.content_cache;
      same_headers = Stays-refl r.headers_cache;
      same_url = Stays-get_or_init r.url_cache r.next;
    }
    perform-IsSteady encoding_name r = unchanged encoding_name r refl
    perform-IsSteady body_text r = unchanged body_text r refl
    perform-IsSteady json r = unchanged json r refl
    perform-IsSteady raise_for_status r = unchanged raise_for_status r refl
    perform-IsSteady (set_encoding l) r = record {
      same_response = refl;
      same_content = Stays-refl r.content_cache;
      same_headers = Stays-refl r.headers_cache;
      same_url = Stays-refl r.url_cache;
    }

    after_all-IsSteady :
        (calls : List Call) (r : PyResponse P) → IsSteady calls r (after_all D calls r)
    unfolding after_all
    after_all-IsSteady [] r = record {
      same_response = refl;
      same_content = Stays-refl r.content_cache;
      same_headers = Stays-refl r.headers_cache;
      same_url = Stays-refl r.url_cache;
    }
    after_all-IsSteady (call ∷ calls) r =
        cons-IsSteady call calls r _ _ (perform-IsSteady call r)
          (after_all-IsSteady calls (perform D call r).1)

    -- What a response says after any calls.
    pub record SaysAgain (calls : List Call) (r : PyResponse P) : Type 0 where
      pub response_is :
          (after_all D calls r).inner
          ≡ relabelled r.inner (last_set calls r.inner.parts.encoding_override)
      -- reading one of the objects, then anything, then the same one
      pub content_again :
          (perform D content (after_all D (content ∷ calls) r)).0 ≡ (perform D content r).0
      pub headers_again :
          (perform D headers (after_all D (headers ∷ calls) r)).0 ≡ (perform D headers r).0
      pub url_again : (perform D url (after_all D (url ∷ calls) r)).0 ≡ (perform D url r).0
      pub verdict_is : (perform D raise_for_status (after_all D calls r)).0 ≡ (
          if is_success r.inner.parts
          then itself
          else raised (new_err Classes.http_status_error (status_message r.inner.parts)))

    verdict-status_error :
        (parts : ResponseParts P) (label : Option Text)
        → verdict {V = Decoders.Value D} (status_error (record parts { encoding_override = label }))
          ≡ (if is_success parts
              then itself
              else raised (new_err Classes.http_status_error (status_message parts)))
    unfolding verdict status_error is_success status_message core_err to_err
    verdict-status_error parts label = by_test (is_success parts)
      where
        by_test :
            (b : Bool)
            → verdict {V = Decoders.Value D}
                (if b then none else some (http_status_error (status_message parts)))
              ≡ (if b
                  then itself
                  else raised (new_err Classes.http_status_error (status_message parts)))
        by_test true = refl
        by_test false = refl

    -- Whatever is called on a response, its status, headers and body stay, its label is the one that
    -- was set last, `content`, `headers` and `url` each give the object that they gave before, and
    -- `raise_for_status` gives the response for a 2xx status and an HTTPStatusError for any other.
    pub response-SaysAgain : (calls : List Call) (r : PyResponse P) → SaysAgain calls r
    unfolding perform after_all
    response-SaysAgain calls r =
        let whole = after_all-IsSteady calls r in
        record {
          response_is = whole.same_response;
          content_again = ap object (
              answer-again r.content_cache r.next _ _
                (after_all-IsSteady calls (perform D content r).1).same_content);
          headers_again = ap object (
              answer-again r.headers_cache r.next _ _
                (after_all-IsSteady calls (perform D headers r).1).same_headers);
          url_again = ap object (
              answer-again r.url_cache r.next _ _
                (after_all-IsSteady calls (perform D url r).1).same_url);
          verdict_is =
              ap (λ b. verdict (status_error b.parts)) whole.same_response
              ∙ verdict-status_error r.inner.parts (last_set calls r.inner.parts.encoding_override);
        }

-- ===== src/Response.antt =====
-- crates/rqx-core/src/response.rs: a response whose body is not read yet.
pub mod Body
pub mod Object
use rqx.Base.{
  ℕ, ◌/◌, Text, text, text_eq, nat_eq, ◌==◌, display_nat, Bool, true, false, ◌&&◌, Option, none,
  some, List, [], ◌∷◌, ◌++◌, any, if◌then◌else◌, leb, ltb,
}
use rqx.Base.Dict.{Dict, extend}
use rqx.Error.{RqxCoreError, http_status_error}
use rqx.Platform.{Platform}

abbrev pub option_bind {ℓ κ} : {A : Type ℓ} {B : Type κ} → Option A → (A → Option B) → Option B
option_bind none f = none
option_bind (some a) f = f a

abbrev pub unwrap_or {ℓ} : {A : Type ℓ} → Option A → A → A
unwrap_or none d = d
unwrap_or (some a) d = a

abbrev pub is_some {ℓ} : {A : Type ℓ} → Option A → Bool
is_some none = false
is_some (some a) = true

pub record ResponseParts (P : Platform) : Type 0 where
  pub status_code : ℕ
  pub headers : Platform.HeaderMap P
  pub url : Platform.Url P
  pub elapsed : ℕ
  pub num_retries : ℕ
  pub retry_history : List (Text × Platform.F64 P)
  pub http_version : Text
  pub cookies : Dict Text
  pub encoding_override : Option Text

pub record PendingResponse (P : Platform) : Type 0 where
  pub parts : ResponseParts P
  pub response : Platform.Response P

-- the class of a status, by its hundreds
abbrev kind_name : ℕ → Text
kind_name hundreds =
    if hundreds == 1
    then text "Informational response"
    else if hundreds == 3
    then text "Redirect response"
    else if hundreds == 4
    then text "Client error"
    else if hundreds == 5
    then text "Server error"
    else text "Invalid status code"

abbrev redirect_codes : List ℕ
redirect_codes = 301 ∷ 302 ∷ 303 ∷ 307 ∷ 308 ∷ []

abbrev newline : Text
newline = 10 ∷ []

module _ (P : Platform) where
  -- `Headers::get_first` and `Headers::contains`
  unfoldable pub get_first : Platform.HeaderMap P → Text → Option Text
  get_first headers key = option_bind (Platform.get_header P headers key) (Platform.to_str P)

  unfoldable pub contains : Platform.HeaderMap P → Text → Bool
  contains headers key = is_some (Platform.get_header P headers key)

  -- `ResponseParts::from`
  unfoldable pub parts_of : Platform.Response P → ResponseParts P
  parts_of resp = record {
    status_code = Platform.status P resp;
    headers = Platform.response_headers P resp;
    url = Platform.response_url P resp;
    elapsed = 0;
    num_retries = 0;
    retry_history = [];
    http_version = Platform.version P resp;
    cookies = extend [] (Platform.response_cookies P resp);
    encoding_override = none;
  }

  -- `PendingResponse::new`
  unfoldable pub pending : Platform.Response P → PendingResponse P
  pending resp = record { parts = parts_of resp; response = resp }

module _ {P : Platform} where
  unfoldable pub with_retries :
      PendingResponse P → ℕ → List (Text × Platform.F64 P) → PendingResponse P
  with_retries p retries history = record p {
    parts = record p.parts { num_retries = retries; retry_history = history };
  }

  abbrev in_range : ℕ → ℕ → ResponseParts P → Bool
  in_range low high parts = leb low parts.status_code && ltb parts.status_code high

  unfoldable pub is_informational : ResponseParts P → Bool
  is_informational = in_range 100 200

  unfoldable pub is_success : ResponseParts P → Bool
  is_success = in_range 200 300

  unfoldable pub is_redirect : ResponseParts P → Bool
  is_redirect parts = in_range 300 400 parts && contains P parts.headers (text "location")

  unfoldable pub is_client_error : ResponseParts P → Bool
  is_client_error = in_range 400 500

  unfoldable pub is_server_error : ResponseParts P → Bool
  is_server_error = in_range 500 600

  unfoldable pub is_error : ResponseParts P → Bool
  is_error = in_range 400 600

  -- the line on the redirect's location
  abbrev location_line : ResponseParts P → Text
  location_line parts = elim (Platform.get_header P parts.headers (text "location")) [
    | some location ↦
        if any (λ c. c == parts.status_code) redirect_codes
        then text "Redirect location: '"
          ++ Platform.from_utf8_lossy P location
          ++ text "'"
          ++ newline
        else []
    | none ↦ []
  ]

  unfoldable pub status_message : ResponseParts P → Text
  status_message parts =
      let code = parts.status_code in
      let reason = unwrap_or (Platform.canonical_reason P code) [] in
      kind_name (code / 100)
      ++ text " '"
      ++ display_nat code
      ++ text " "
      ++ reason
      ++ text "' for url '"
      ++ Platform.display_url P parts.url
      ++ text "'"
      ++ newline
      ++ location_line parts
      ++ text
          "For more information check: https://developer.mozilla.org/en-US/docs/Web/HTTP/Status/"
      ++ display_nat code

  unfoldable pub status_error : ResponseParts P → Option RqxCoreError
  status_error parts =
      if is_success parts then none else some (http_status_error (status_message parts))

-- ===== src/Response/Body.antt =====
-- crates/rqx-core/src/response.rs: a buffered body as text and as JSON. The `mime`, `encoding_rs` and
-- `serde_json` crates are parameters (`Decoders`).
pub mod Encodings
pub mod JsonErrors
use rqx.Base.{
  ℕ, ◌+◌, ◌-◌, min, Text, text, text_eq, ◌==◌, display_nat, Bool, true, false, Option, none, some,
  List, [], ◌∷◌, ◌++◌, map, length, take, if◌then◌else◌, nat_eq, ◌⊎◌, inl, inr,
}
use rqx.Error.{RqxCoreError, JsonDecodeError, Result, ok, err, json_decode_error}
use rqx.Platform.{Platform}
use rqx.Response.{ResponseParts, get_first, option_bind, unwrap_or}

abbrev pub Bytes : Type 0
Bytes = List ℕ

-- a `serde_json::Error`
pub record SerdeError : Type 0 where
  pub line : ℕ
  pub column : ℕ
  pub display : Text

pub record Decoders : Type 1 where
  -- `Mime::from_str`, and `get_param` of `charset`
  pub Mime : Type 0
  pub parse_mime : Text → Option Mime
  pub get_charset : Mime → Option Text
  -- `encoding_rs`
  pub Encoding : Type 0
  pub utf8 : Encoding
  pub for_label : Text → Option Encoding
  pub encoding_name : Encoding → Text
  pub decode : Encoding → Bytes → Text
  -- `str::to_lowercase` and `String::from_utf8_lossy`
  pub to_lowercase : Text → Text
  pub utf8_lossy : Bytes → Text
  -- `serde_json::from_slice`
  pub Value : Type 0
  pub from_slice : Bytes → Value ⊎ SerdeError

-- `BufferedResponse`
pub record BufferedResponse (P : Platform) : Type 0 where
  pub parts : ResponseParts P
  pub body : Bytes

-- `str::strip_suffix`
unfoldable pub strip_suffix : Text → Text → Option Text
strip_suffix suffix [] = if suffix == [] then some [] else none
strip_suffix suffix (c ∷ s) =
    if suffix == (c ∷ s)
    then some []
    else elim (strip_suffix suffix s) [ none ↦ none | some r ↦ some (c ∷ r) ]

abbrev pub behind : ℕ → List Bytes → List Bytes
behind c [] = (c ∷ []) ∷ []
behind c (l ∷ ls) = (c ∷ l) ∷ ls

-- `slice::split` at the bytes `\n`
unfoldable pub split_newlines : Bytes → List Bytes
split_newlines [] = [] ∷ []
split_newlines (c ∷ s) = if c == 10 then [] ∷ split_newlines s else behind c (split_newlines s)

unfoldable pub sum : List ℕ → ℕ
sum [] = 0
sum (n ∷ ns) = n + sum ns

-- the start of the line, from its number
unfoldable pub line_start : Bytes → ℕ → ℕ
line_start body line = sum (map (λ l. length l + 1) (take (line - 1) (split_newlines body)))

unfoldable pub byte_offset : Bytes → SerdeError → ℕ
byte_offset body error =
    if error.line == 0
    then 0
    else min (line_start body error.line + (error.column - 1)) (length body)

-- the position that `Display for serde_json::Error` ends in
unfoldable pub position_text : SerdeError → Text
position_text error =
    text " at line " ++ display_nat error.line ++ text " column " ++ display_nat error.column

-- what `serde_json` says, without the position
unfoldable pub reason_of : SerdeError → Text
reason_of error = unwrap_or (strip_suffix (position_text error) error.display) error.display

module _ {P : Platform} (D : Decoders) where
  unfoldable pub content_type : ResponseParts P → Option Text
  content_type parts = get_first P parts.headers (text "content-type")

  unfoldable pub detect_encoding_from_headers : ResponseParts P → Option (Decoders.Encoding D)
  detect_encoding_from_headers parts = option_bind (content_type parts) λ content.
      option_bind (Decoders.parse_mime D content)
        λ mime. option_bind (Decoders.get_charset D mime) λ charset. Decoders.for_label D charset

  unfoldable pub encoding : ResponseParts P → Text
  encoding parts = elim parts.encoding_override [
    | some e ↦ e
    | none ↦ elim (detect_encoding_from_headers parts) [
      | some enc ↦ Decoders.to_lowercase D (Decoders.encoding_name D enc)
      | none ↦ text "utf-8"
    ]
  ]

  unfoldable pub resolved_encoding : ResponseParts P → Decoders.Encoding D
  resolved_encoding parts = elim parts.encoding_override [
    | some label ↦ unwrap_or (Decoders.for_label D label) (Decoders.utf8 D)
    | none ↦ unwrap_or (detect_encoding_from_headers parts) (Decoders.utf8 D)
  ]

  -- `ResponseParts::text`
  unfoldable pub parts_text : ResponseParts P → Bytes → Text
  parts_text parts body = Decoders.decode D (resolved_encoding parts) body

  unfoldable pub decode_message : ResponseParts P → Text → Text
  decode_message parts reason =
      text "response is not JSON (HTTP "
      ++ display_nat parts.status_code
      ++ text ", content-type: "
      ++ unwrap_or (content_type parts) (text "<none>")
      ++ text "): "
      ++ reason

  -- `ResponseParts::json_decode_error`
  unfoldable pub decode_error : ResponseParts P → Bytes → SerdeError → RqxCoreError
  decode_error parts body error = json_decode_error record {
    message = decode_message parts (reason_of error);
    doc = Decoders.utf8_lossy D body;
    position = length (Decoders.utf8_lossy D (take (byte_offset body error) body));
  }

  unfoldable pub json_result :
      ResponseParts P → Bytes → Decoders.Value D ⊎ SerdeError → Result (Decoders.Value D)
  json_result parts body (inl value) = ok value
  json_result parts body (inr e) = err (decode_error parts body e)

  -- `ResponseParts::json`
  unfoldable pub parts_json : ResponseParts P → Bytes → Result (Decoders.Value D)
  parts_json parts body = json_result parts body (Decoders.from_slice D body)

  -- `BufferedResponse::text` and `json`
  unfoldable pub response_text : BufferedResponse P → Text
  response_text response = parts_text response.parts response.body

  unfoldable pub response_json : BufferedResponse P → Result (Decoders.Value D)
  response_json response = parts_json response.parts response.body

-- ===== src/Tests/Bodies.antt =====
-- The theorems on response bodies, at a body that is not JSON.
use rqx.Base.{Text, text, some, [], ◌∷◌, ◌++◌, ◌≡◌, refl, inr}
use rqx.Error.{err, json_decode_error}
use rqx.Response.{ResponseParts, unwrap_or}
use rqx.Response.Body.{
  Bytes, SerdeError, Decoders, BufferedResponse, position_text, decode_message, encoding,
  response_text, response_json,
}
use rqx.Response.Body.Encodings.{NamesAreLabels, response_text-encoding}
use rqx.Response.Body.JsonErrors.{IsErrorAt, response_json-IsErrorAt}
use rqx.Response.Object.{content, set_encoding, from_buffered}
use rqx.Response.Object.Steady.{SaysAgain, response-SaysAgain}
use rqx.Sample.{sample}

abbrev reason : Text
reason = text "expected value"

-- `serde_json` at the `x` of the second line
abbrev second_line : SerdeError
second_line = record {
  line = 2;
  column = 3;
  display = reason ++ position_text (record { line = 2; column = 3; display = [] });
}

-- a decoder of one encoding, which finds every body wrong
abbrev decoders : Decoders
decoders = record {
  Mime = Text;
  parse_mime = some;
  get_charset = some;
  Encoding = Unit {0};
  utf8 = tt;
  for_label = λ label. some tt;
  encoding_name = λ e. text "UTF-8";
  decode = λ e bytes. bytes;
  to_lowercase = λ s. s;
  utf8_lossy = λ bytes. bytes;
  Value = Text;
  from_slice = λ bytes. inr second_line;
}

abbrev parts : ResponseParts sample
parts = record {
  status_code = 200;
  headers = (text "content-type", text "utf-8") ∷ [];
  url = text "http://a/";
  elapsed = 0;
  num_retries = 0;
  retry_history = [];
  http_version = text "HTTP/1.1";
  cookies = [];
  encoding_override = some (text "latin1");
}

-- `{`, a newline and two blanks
abbrev before : Bytes
before = 123 ∷ 10 ∷ 32 ∷ 32 ∷ []

abbrev rest : Bytes
rest = 120 ∷ 125 ∷ []

second_line-IsErrorAt : IsErrorAt before reason second_line
unfolding position_text
second_line-IsErrorAt = record { line_is = refl; column_is = refl; display_is = refl }

response_json-IsErrorAt_example :
    response_json decoders (record { parts = parts; body = before ++ rest })
    ≡ err (
        json_decode_error record {
          message = decode_message decoders parts reason;
          doc = before ++ rest;
          position = 4;
        })
response_json-IsErrorAt_example =
    response_json-IsErrorAt decoders parts before rest reason second_line second_line-IsErrorAt refl

decoders-NamesAreLabels : NamesAreLabels decoders
decoders-NamesAreLabels = record { own_label = λ e. refl; utf8_label = refl }

abbrev response : BufferedResponse sample
response = record { parts = parts; body = before ++ rest }

response_text-encoding_example :
    response_text decoders response
    ≡ Decoders.decode decoders
        (unwrap_or (Decoders.for_label decoders (encoding decoders parts)) (Decoders.utf8 decoders))
        (before ++ rest)
response_text-encoding_example = response_text-encoding decoders decoders-NamesAreLabels response

response-SaysAgain_example :
    SaysAgain decoders (set_encoding (text "utf-16") ∷ content ∷ []) (from_buffered response 7)
response-SaysAgain_example =
    response-SaysAgain decoders (set_encoding (text "utf-16") ∷ content ∷ [])
      (from_buffered response 7)

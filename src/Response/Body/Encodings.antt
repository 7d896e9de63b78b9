-- ===== src/Response/Body/Encodings.antt =====
-- The encoding that a response reports and the one in which its body is decoded.
use rqx.Base.{Text, text, Option, none, some, ◌≡◌, refl, ap}
use rqx.Platform.{Platform}
use rqx.Response.{ResponseParts, unwrap_or}
use rqx.Response.Body.{
  Decoders, BufferedResponse, encoding, resolved_encoding, detect_encoding_from_headers, parts_text,
  response_text,
}

-- what `encoding_rs` documents: an encoding's name, in any case, is a label of it
pub record NamesAreLabels (D : Decoders) : Type 0 where
  pub own_label :
      (e : Decoders.Encoding D)
      → Decoders.for_label D (Decoders.to_lowercase D (Decoders.encoding_name D e)) ≡ some e
  pub utf8_label : Decoders.for_label D (text "utf-8") ≡ some (Decoders.utf8 D)

module _ {P : Platform} (D : Decoders) (names : NamesAreLabels D) where
  encoding-resolved_encoding :
      (parts : ResponseParts P)
      → resolved_encoding D parts
        ≡ unwrap_or (Decoders.for_label D (encoding D parts)) (Decoders.utf8 D)
  unfolding encoding resolved_encoding
  encoding-resolved_encoding parts =
      by_override parts.encoding_override (detect_encoding_from_headers D parts)
    where
      by_override :
          (o : Option Text) (detected : Option (Decoders.Encoding D))
          → (elim o [
            | some label ↦ unwrap_or (Decoders.for_label D label) (Decoders.utf8 D)
            | none ↦ unwrap_or detected (Decoders.utf8 D)
          ])
            ≡ unwrap_or
                (Decoders.for_label D (elim o [
                  | some e ↦ e
                  | none ↦ elim detected [
                    | some enc ↦ Decoders.to_lowercase D (Decoders.encoding_name D enc)
                    | none ↦ text "utf-8"
                  ]
                ]))
                (Decoders.utf8 D)
      by_override (some label) detected = refl
      by_override none (some enc) = rw (NamesAreLabels.own_label names enc) refl
      by_override none none = rw (NamesAreLabels.utf8_label names) refl

  -- The body is decoded in the encoding that the response reports, whether it was set, stands in the
  -- headers or is the default, and in UTF-8 if what was set is the label of no encoding.
  pub response_text-encoding :
      (response : BufferedResponse P)
      → response_text D response
        ≡ Decoders.decode D
            (unwrap_or (Decoders.for_label D (encoding D response.parts)) (Decoders.utf8 D))
            response.body
  unfolding response_text parts_text
  response_text-encoding response =
      ap (λ e. Decoders.decode D e response.body) (encoding-resolved_encoding response.parts)

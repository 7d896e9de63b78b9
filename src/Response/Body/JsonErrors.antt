-- ===== src/Response/Body/JsonErrors.antt =====
-- Where `json_decode_error` says that the JSON stops.
use rqx.Base.{
  ℕ, zero, suc, ◌+◌, ◌-◌, Text, text_eq, text_beq_iff, text_beq_refl, ◌==◌, some, List, [], ◌∷◌,
  ◌++◌, map, length, take, length-append, if◌then◌else◌, nat_eq, ◌≡◌, ◌≢◌, refl, ap, ap₂, ◌∙◌, inr,
  arith,
}
use rqx.Error.{err, json_decode_error}
use rqx.Platform.{Platform}
use rqx.Response.{ResponseParts, unwrap_or}
use rqx.Response.Body.{
  Bytes, SerdeError, Decoders, strip_suffix, behind, split_newlines, sum, line_start, byte_offset,
  position_text, decode_message, reason_of, json_result, decode_error, parts_json, response_json,
}

-- The newlines of a text, and the bytes after the last one.
abbrev pub newlines : Bytes → ℕ
newlines [] = 0
newlines (c ∷ s) = if c == 10 then suc (newlines s) else newlines s

abbrev pub since : ℕ → Bytes → ℕ
since n [] = n
since n (c ∷ s) = if c == 10 then since 0 s else since (n + 1) s

-- The bytes of the first lines of a text, with their newlines.
abbrev lines_size : ℕ → List Bytes → ℕ
lines_size n ls = sum (map (λ l. length l + 1) (take n ls))

since-one_line : (n : ℕ) (s : Bytes) → newlines s ≡ 0 → since n s ≡ n + length s
since-one_line n [] h = omega arith
since-one_line n (c ∷ s) h = ground (arith, since-one_line (n + 1) s)

split_newlines-nonempty : (s : Bytes) → split_newlines s ≢ []
unfolding split_newlines
split_newlines-nonempty [] = λ e. ground arith
split_newlines-nonempty (c ∷ s) = λ e. ground arith

lines_size-behind :
    (c k : ℕ) (ls : List Bytes)
    → ls ≢ []
    → lines_size (suc k) (behind c ls) ≡ suc (lines_size (suc k) ls)
unfolding sum
lines_size-behind c k [] h = absurd (h refl)
lines_size-behind c k (l ∷ ls) h = omega arith

lines_size-since :
    (n k : ℕ) (p r : Bytes)
    → newlines p ≡ suc k
    → lines_size (suc k) (split_newlines (p ++ r)) + since n p ≡ length p
unfolding split_newlines sum
lines_size-since n k [] r h = absurd (omega arith)
lines_size-since n zero (c ∷ p) r h = ground (
  arith,
  since-one_line 0 p,
  lines_size-since (n + 1) zero p r,
  lines_size-behind c zero (split_newlines (p ++ r)) (split_newlines-nonempty (p ++ r)),
)
lines_size-since n (suc k) (c ∷ p) r h = ground (
  arith,
  lines_size-since 0 k p r,
  lines_size-since (n + 1) (suc k) p r,
  lines_size-behind c (suc k) (split_newlines (p ++ r)) (split_newlines-nonempty (p ++ r)),
)

-- an error that `serde_json` meets behind `before`, as it documents lines, columns and its text
pub record IsErrorAt (before : Bytes) (reason : Text) (e : SerdeError) : Type 0 where
  pub line_is : e.line ≡ newlines before + 1
  pub column_is : e.column ≡ since 0 before + 1
  pub display_is : e.display ≡ reason ++ position_text e

line_start-since :
    (p r : Bytes) (line : ℕ)
    → line ≡ newlines p + 1
    → line_start (p ++ r) line + since 0 p ≡ length p
unfolding line_start sum
line_start-since p r line h = by_count (newlines p) refl
  where
    by_count : (k : ℕ) → newlines p ≡ k → line_start (p ++ r) line + since 0 p ≡ length p
    by_count zero e =
        let first : line - 1 ≡ 0 = omega arith in rw first (omega (arith, since-one_line 0 p e))
    by_count (suc k) e =
        let later : line - 1 ≡ suc k = omega arith in rw later (lines_size-since 0 k p r e)

byte_offset-IsErrorAt :
    (before rest : Bytes) (reason : Text) (e : SerdeError)
    → IsErrorAt before reason e
    → byte_offset (before ++ rest) e ≡ length before
unfolding byte_offset
byte_offset-IsErrorAt before rest reason e at = ground (
  arith,
  line_start-since before rest e.line at.line_is,
  length-append before rest,
  at.line_is,
  at.column_is,
)

take-length : (xs ys : Bytes) → take (length xs) (xs ++ ys) ≡ xs
take-length [] ys = refl
take-length (x ∷ xs) ys = ap (λ t. x ∷ t) (take-length xs ys)

longer : (s t : Text) → s ≡ t → length s ≡ length t
longer s t e = ap length e

strip_suffix-append : (r suffix : Text) → strip_suffix suffix (r ++ suffix) ≡ some r
unfolding strip_suffix
strip_suffix-append [] [] = rw (text_beq_refl []) refl
strip_suffix-append [] (c ∷ s) = rw (text_beq_refl (c ∷ s)) refl
strip_suffix-append (c ∷ r) suffix = ground (
  arith,
  text_beq_iff suffix (c ∷ r ++ suffix),
  longer suffix (c ∷ r ++ suffix),
  length-append r suffix,
  strip_suffix-append r suffix,
)

reason_of-IsErrorAt :
    (before : Bytes) (reason : Text) (e : SerdeError)
    → IsErrorAt before reason e
    → reason_of e ≡ reason
unfolding reason_of
reason_of-IsErrorAt before reason e at =
    ap (λ t. unwrap_or (strip_suffix (position_text e) t) e.display) at.display_is
    ∙ ap (λ o. unwrap_or o e.display) (strip_suffix-append reason (position_text e))

module _ {P : Platform} (D : Decoders) where
  -- When `serde_json` stops at a byte of the body, on whatever line, `json` fails with its reason
  -- alone, and with the number of characters before that byte for a position.
  pub response_json-IsErrorAt :
      (parts : ResponseParts P) (before rest : Bytes) (reason : Text) (e : SerdeError)
      → IsErrorAt before reason e
      → Decoders.from_slice D (before ++ rest) ≡ inr e
      → response_json D (record { parts = parts; body = before ++ rest })
        ≡ err (
            json_decode_error record {
              message = decode_message D parts reason;
              doc = Decoders.utf8_lossy D (before ++ rest);
              position = length (Decoders.utf8_lossy D before);
            })
  unfolding response_json parts_json json_result decode_error
  response_json-IsErrorAt parts before rest reason e at fails =
      ap (json_result D parts (before ++ rest)) fails
      ∙ ap₂
          (λ said prefix. err (
            json_decode_error record {
              message = decode_message D parts said;
              doc = Decoders.utf8_lossy D (before ++ rest);
              position = length (Decoders.utf8_lossy D prefix);
            }))
          (reason_of-IsErrorAt before reason e at)
          (ap (λ n. take n (before ++ rest)) (byte_offset-IsErrorAt before rest reason e at)
            ∙ take-length before rest)

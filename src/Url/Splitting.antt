-- ===== src/Url/Splitting.antt =====
-- The text that `compose` of crates/rqx-core/src/url/reference.rs writes, against the split of
-- `encode_path`.
use rqx.Base.{
  ℕ, Text, false, Option, none, some, [], ◌∷◌, ◌++◌, if◌then◌else◌, is_empty, contains_char,
  split_once, append-nil, nat_eq, ◌≡◌, refl, ap, ◌∙◌, arith,
}
use rqx.Url.Marks.{question, hash, halves, whole_or, split_reference, marked, composed_text}

split_once-append :
    (k : ℕ) (s t : Text) → contains_char k s ≡ false → split_once k (s ++ k ∷ t) ≡ some (s, t)
split_once-append k [] t h = ground arith
split_once-append k (c ∷ s) t h = ground (arith, split_once-append k s t)

split_once-absent : (k : ℕ) (s : Text) → contains_char k s ≡ false → split_once k s ≡ none
split_once-absent k [] h = refl
split_once-absent k (c ∷ s) h = ground (arith, split_once-absent k s)

pub contains_char-append :
    (k : ℕ) (s t : Text)
    → contains_char k s ≡ false
    → contains_char k t ≡ false
    → contains_char k (s ++ t) ≡ false
contains_char-append k [] t h g = g
contains_char-append k (c ∷ s) t h g = ground (arith, contains_char-append k s t)

-- a part that is written, if it is not empty
abbrev pub written : Text → Option Text
written part = if is_empty part then none else some part

halves-marked :
    (k : ℕ) (s part : Text)
    → contains_char k s ≡ false
    → halves k (s ++ marked k part) ≡ (s, written part)
halves-marked k s [] h = ap (halves k) (append-nil s) ∙ ap (whole_or s) (split_once-absent k s h)
halves-marked k s (c ∷ part) h =
    ap (whole_or (s ++ k ∷ c ∷ part)) (split_once-append k s (c ∷ part) h)

hash-marked :
    (query : Text)
    → contains_char hash query ≡ false
    → contains_char hash (marked question query) ≡ false
hash-marked [] h = refl
hash-marked (c ∷ query) h = h

-- `encode_path` splits what `compose` wrote of a reference without a host into its path, its query
-- and its fragment again, where the path has no `?` or `#` and the query no `#`; an empty query or
-- fragment is absent.
pub split_reference-composed_text :
    (scheme username password : Text) (port : Option ℕ) (path query fragment : Text)
    → contains_char question path ≡ false
    → contains_char hash path ≡ false
    → contains_char hash query ≡ false
    → split_reference (composed_text scheme username password [] port path query fragment)
      ≡ (path, (written query, written fragment))
unfolding split_reference composed_text
split_reference-composed_text scheme username password port path query fragment q h g =
    let head = path ++ marked question query in
    let free = contains_char-append hash path (marked question query) h (hash-marked query g) in
    let outer : halves hash (path ++ marked question query ++ marked hash fragment)
        ≡ (head, written fragment) =
      halves-marked hash head fragment free in
    ap (λ p. ((halves question p.0).0, ((halves question p.0).1, p.1))) outer
    ∙ ap (λ p. (p.0, (p.1, written fragment))) (halves-marked question path query q)

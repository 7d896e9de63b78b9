-- ===== src/Url/Marks.antt =====
-- crates/rqx-core/src/url/reference.rs: the marks that split a reference into its parts, and the text
-- that `compose` writes from them.
use rqx.Base.{
  ℕ, Text, text, ◌==◌, display_nat, not, ◌&&◌, Option, none, some, [], ◌∷◌, ◌++◌, if◌then◌else◌,
  is_empty, strip_prefix, starts_with, split_once, nat_eq, text_eq,
}

abbrev pub colon : ℕ
colon = b':'

abbrev pub slash : ℕ
slash = b'/'

abbrev pub question : ℕ
question = b'?'

abbrev pub hash : ℕ
hash = b'#'

-- `s.trim_start_matches(pattern)` of a text that is not empty: every copy at the start is cut
abbrev pub trim_text : Text → Text → Text → Text
trim_text pattern [] s = s
trim_text pattern (k ∷ fuel) s = elim (strip_prefix pattern s) [
  | none ↦ s
  | some rest ↦ trim_text pattern fuel rest
]

-- `s.trim_end_matches` of one character
abbrev pub trim_end_matches : ℕ → Text → Text
trim_end_matches k [] = []
trim_end_matches k (c ∷ s) =
    let rest = trim_end_matches k s in if is_empty rest && (c == k) then [] else c ∷ rest

-- the parts before and after a mark
abbrev pub whole_or : Text → Option (Text × Text) → Text × Option Text
whole_or s none = (s, none)
whole_or s (some (before, rest)) = (before, some rest)

abbrev pub halves : ℕ → Text → Text × Option Text
halves k s = whole_or s (split_once k s)

-- path, query and fragment, as `encode_path` splits them
unfoldable pub split_reference : Text → Text × (Option Text × Option Text)
split_reference input =
    let (head, fragment) = halves hash input in
    let (path, query) = halves question head in (path, (query, fragment))

-- a part after its mark, if it is not empty
abbrev pub marked : ℕ → Text → Text
marked mark part = if is_empty part then [] else mark ∷ part

-- the authority that `compose` writes, with the mark before it
unfoldable pub compose_authority : Text → Text → Text → Text → Option ℕ → Text
compose_authority scheme username password host port =
    (if is_empty scheme then [] else scheme ++ colon ∷ [])
    ++ text "//"
    ++ userinfo
    ++ host
    ++ (elim port [ none ↦ [] | some n ↦ colon ∷ display_nat n ])
  where
    userinfo : Text
    userinfo =
        if is_empty username && is_empty password
        then []
        else username ++ marked colon password ++ text "@"

-- the text that `compose` hands to the parser
unfoldable pub composed_text : Text → Text → Text → Text → Option ℕ → Text → Text → Text → Text
composed_text scheme username password host port path query fragment =
    (if is_empty host
      then []
      else compose_authority scheme username password host port
        ++ (if not (is_empty path) && not (starts_with (slash ∷ []) path) then slash ∷ [] else []))
    ++ path
    ++ marked question query
    ++ marked hash fragment

-- ===== src/Base/Strings.antt =====
-- Rust's `String` and `&str` as the list of their code points, and the text functions that the
-- code calls.
use Prim.Native.Char.{code}
use Prim.Native.String.{String}
use Prim.Native.Nat.{ℕ, zero, suc, ◌+◌, ◌/◌, ◌%◌}
use mathlib.Core.Path.{◌≡◌, refl}
use mathlib.Core.Logic.{◌↔◌}
use mathlib.Core.Bool.{Bool, true, false}
use mathlib.Core.List.{List, [], ◌∷◌}
use mathlib.Core.Option.{Option, none, some}
use rqx.Base.Tests.{if◌then◌else◌, ltb}
use rqx.Base.Equality.{Eq, list_beq, list_beq_iff, nat_eq, ◌==◌}

abbrev pub Text : Type 0
Text = List ℕ

instance abbrev pub text_eq : Eq Text
text_eq = record { equals = list_beq; equals_iff = list_beq_iff }

pub text_beq_iff : (s t : Text) → ((s == t) ≡ true) ↔ (s ≡ t)
text_beq_iff s t = list_beq_iff s t

pub text_beq_refl : (s : Text) → (s == s) ≡ true
text_beq_refl s = (text_beq_iff s s).1 refl

-- A literal. Shut, so that proofs compare literals by the letters only where they open it.
unfoldable pub text : String → Text
text String.[] = []
text (String.◌∷◌ c s) = code c ∷ text s

-- `Display` of an unsigned number. The fuel is one more than the number, which has fewer digits.
digits : ℕ → ℕ → Text → Text
digits zero n acc = acc
digits (suc fuel) n acc =
    let rest = digits fuel (n / 10) ((b'0' + n % 10) ∷ acc) in
    if ltb n 10 then (b'0' + n) ∷ acc else rest

unfoldable pub display_nat : ℕ → Text
unfolding digits
display_nat n = digits (suc n) n []

-- `str::starts_with` and `str::strip_prefix`
abbrev pub strip_prefix : Text → Text → Option Text
strip_prefix [] s = some s
strip_prefix (p ∷ ps) [] = none
strip_prefix (p ∷ ps) (c ∷ s) = if p == c then strip_prefix ps s else none

abbrev pub starts_with : Text → Text → Bool
starts_with p s = elim (strip_prefix p s) [ none ↦ false | some _ ↦ true ]

-- `str::trim_start_matches` of one character
abbrev pub trim_start_matches : ℕ → Text → Text
trim_start_matches k [] = []
trim_start_matches k (c ∷ s) = if k == c then trim_start_matches k s else c ∷ s

-- `str::ends_with` of one character
abbrev pub ends_with : ℕ → Text → Bool
ends_with k [] = false
ends_with k (c ∷ []) = k == c
ends_with k (c ∷ d ∷ s) = ends_with k (d ∷ s)

abbrev pub contains_char : ℕ → Text → Bool
contains_char k [] = false
contains_char k (c ∷ s) = if k == c then true else contains_char k s

-- `str::split_once` at one character
abbrev pub split_once : ℕ → Text → Option (Text × Text)
split_once k [] = none
split_once k (c ∷ s) =
    if k == c
    then some ([], s)
    else elim (split_once k s) [ none ↦ none | some (a, b) ↦ some (c ∷ a, b) ]

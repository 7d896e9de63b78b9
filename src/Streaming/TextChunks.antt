-- ===== src/Streaming/TextChunks.antt =====
-- crates/rqx-core/src/streaming/chunking.rs: `TextChunker`. Offsets count characters here, bytes in
-- the source, where they stand at the boundaries of characters.
use rqx.Base.{
  ◌<◌, ℕ, zero, suc, ◌+◌, Text, Bool, true, false, List, [], ◌∷◌, ◌++◌, Option, none, some,
  if◌then◌else◌, ltb, length, is_empty, take, drop, append-nil, length-take, take-append-drop, ◌≡◌,
  refl, sym, ap, ◌∙◌, arith,
}

pub record TextChunker : Type 0 where
  pub size : Option ℕ
  pub pending : Text
  pub consumed : ℕ

unfoldable pub new_text : Option ℕ → TextChunker
new_text size = record { size = size; pending = []; consumed = 0 }

abbrev pub unread : TextChunker → Text
unread c = drop c.consumed c.pending

unfoldable pub feed_text : TextChunker → Text → TextChunker
feed_text c text =
    let kept = if ltb 0 c.consumed then unread c else c.pending in
    record c { pending = kept ++ text; consumed = 0 }

-- a piece of `size` characters, if that many are left; a size of 0 has no last character
abbrev pub next_piece : TextChunker → ℕ → Option Text × TextChunker
next_piece c zero = (none, c)
next_piece c (suc before) =
    if ltb before (length (unread c))
    then (some (take (suc before) (unread c)), record c { consumed = c.consumed + suc before })
    else (none, c)

abbrev pub next_by : Option ℕ → TextChunker → Option Text × TextChunker
next_by none c = (
  if is_empty (unread c) then none else some (unread c),
  record c { consumed = length c.pending },
)
next_by (some size) c = next_piece c size

unfoldable pub next_full_text : TextChunker → Option Text × TextChunker
next_full_text c = next_by c.size c

unfoldable pub flush_text : TextChunker → Option Text × TextChunker
flush_text c =
    let rest = unread c in
    (if is_empty rest then none else some rest, record c { pending = []; consumed = 0 })

-- the text of a call, if there is any
abbrev pub given : Option Text → Text
given none = []
given (some piece) = piece

-- a piece is of the size asked for
abbrev pub IsPiece : Option ℕ → Option Text → Type 0
IsPiece none piece = Unit {0}
IsPiece (some size) none = Unit {0}
IsPiece (some size) (some piece) = length piece ≡ size

-- a piece is withheld only where fewer characters are left than its size
abbrev pub IsEager : Option ℕ → Text → Option Text → Type 0
IsEager size left (some piece) = Unit {0}
IsEager none left none = left ≡ []
IsEager (some size) left none = 0 < size → length left < size

pub drop-length {ℓ} : {A : Type ℓ} (xs : List A) → drop (length xs) xs ≡ []
drop-length [] = refl
drop-length (x ∷ xs) = drop-length xs

drop-nil {ℓ} : {A : Type ℓ} (n : ℕ) → drop {A = A} n [] ≡ []
drop-nil zero = refl
drop-nil (suc n) = refl

pub given-some : (s : Text) → given (if is_empty s then none else some s) ≡ s
given-some [] = refl
given-some (c ∷ s) = refl

pub drop_add {ℓ} : {A : Type ℓ} (m n : ℕ) (xs : List A) → drop (m + n) xs ≡ drop n (drop m xs)
drop_add zero n xs = ap (λ k. drop k xs) (omega arith)
drop_add (suc m) n [] = drop-nil (suc m + n) ∙ sym (drop-nil n)
drop_add (suc m) n (x ∷ xs) =
    let carried : suc m + n ≡ suc (m + n) = omega arith in
    ap (λ k. drop k (x ∷ xs)) carried ∙ drop_add m n xs

pub kept_text : (n : ℕ) (s : Text) → (if ltb 0 n then drop n s else s) ≡ drop n s
kept_text zero s = refl
kept_text (suc n) s = ground arith

-- what a call gives and leaves
abbrev GivesPiece : TextChunker → Option ℕ → Option Text × TextChunker → Type 0
GivesPiece c size r =
    (given r.0 ++ unread r.1 ≡ unread c) × IsPiece size r.0 × IsEager size (unread c) r.0

piece_split :
    (c : TextChunker) (before : ℕ) (b : Bool)
    → ltb before (length (unread c)) ≡ b
    → GivesPiece c (some (suc before)) (
        if b
        then (some (take (suc before) (unread c)), record c { consumed = c.consumed + suc before })
        else (none, c))
piece_split c before true e = (
  ap (λ t. take (suc before) (unread c) ++ t) (drop_add c.consumed (suc before) c.pending)
      ∙ take-append-drop (suc before) (unread c),
  ground (arith, length-take (suc before) (unread c)),
  tt,
)
piece_split c before false e = (refl, tt, λ sized. ground arith)

all_given : (s : Text) → IsEager none s (if is_empty s then none else some s)
all_given [] = refl
all_given (c ∷ s) = tt

pub next_full_text-GivesPiece :
    (c : TextChunker) (size : Option ℕ) → c.size ≡ size → GivesPiece c size (next_by size c)
next_full_text-GivesPiece c none e = (
  ap (λ t. given (if is_empty (unread c) then none else some (unread c)) ++ t)
        (drop-length c.pending)
      ∙ append-nil _
      ∙ given-some (unread c),
  tt,
  all_given (unread c),
)
next_full_text-GivesPiece c (some zero) e = (refl, tt, λ sized. absurd (omega arith))
next_full_text-GivesPiece c (some (suc before)) e = piece_split c before _ refl

-- What is fed comes out again in order: `next_full` and `flush` give the front of what was unread and
-- leave the rest; a full piece has the size asked for, and `next_full` gives none only where fewer
-- characters are unread than that (or where the size asked for is 0), and without a size only where
-- nothing is unread; `feed` adds its text at the end, and `flush` leaves nothing.
pub unread-next_full_text :
    (c : TextChunker) (text : Text)
    → (given (next_full_text c).0 ++ unread (next_full_text c).1 ≡ unread c)
      × IsPiece c.size (next_full_text c).0
      × IsEager c.size (unread c) (next_full_text c).0
      × (unread (feed_text c text) ≡ unread c ++ text)
      × (given (flush_text c).0 ≡ unread c)
      × (unread (flush_text c).1 ≡ [])
unfolding next_full_text feed_text flush_text
unread-next_full_text c text =
    let next = next_full_text-GivesPiece c c.size refl in
    (
      next.0,
      next.1,
      next.2,
      ap (λ s. s ++ text) (kept_text c.consumed c.pending),
      given-some (unread c),
      refl,
    )

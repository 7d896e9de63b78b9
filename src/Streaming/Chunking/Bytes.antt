-- ===== src/Streaming/Chunking/Bytes.antt =====
-- What `ByteChunker` keeps: no byte is lost or moved, and a full piece has the size asked for.
use rqx.Base.{
  ℕ, zero, suc, ◌≤◌, ◌<◌, true, [], ◌∷◌, ◌++◌, Option, none, some, if◌then◌else◌, leb, min, length,
  length-append, length-take, take-append-drop, is_empty, take, drop, take-all, drop-all, ◌&&◌, ◌≡◌,
  refl, sym, subst, ◌∙◌, ap, ◌⊎◌, ◌≢◌, inl, inr, arith, append-nil, append_assoc, Bool-cases,
  Option-cases,
}
use rqx.Streaming.Chunking.{
  ByteString, ByteChunker, sub_usize, new, feed, complete, park, next_sized, next_unsized,
  next_full, flush,
}

-- The bytes that are held, in the order of the stream.
abbrev pub held : ByteChunker → ByteString
held c = c.carry ++ c.head

-- Between two calls: the carry is at most one piece, and where it is short of a piece the head is
-- not begun unless the carry is empty.
abbrev pub SizeFits : Option ℕ → ByteString → ByteString → Type 0
SizeFits none carry head = carry ≡ []
SizeFits (some size) carry head =
    (0 < size) × (length carry ≤ size) × ((length carry < size → carry ≡ [] ⊎ head ≡ []))

pub record IsValid (c : ByteChunker) : Type 0 where
  pub fits : SizeFits c.size c.carry c.head

-- What `next_full` leaves when it has no piece to give: all is in the carry, short of a piece.
abbrev pub IsShort : Option ℕ → ByteString → Type 0
IsShort none carry = carry ≡ []
IsShort (some size) carry = length carry < size

pub record IsDrained (c : ByteChunker) : Type 0 where
  pub no_head : c.head ≡ []
  pub short : IsShort c.size c.carry

pub new-IsValid : (size : Option ℕ) → size ≢ some 0 → IsValid (new size)
unfolding new
new-IsValid none h = record { fits = refl }
new-IsValid (some zero) h = absurd (h refl)
new-IsValid (some (suc n)) h = record { fits = (omega arith, omega arith, λ _. inl refl) }

pub is_empty→nil : (xs : ByteString) → is_empty xs ≡ true → xs ≡ []
is_empty→nil [] h = refl
is_empty→nil (x ∷ xs) h = cc

complete-lem :
    (size : ℕ) (c : ByteChunker) (bytes : ByteString)
    → length c.carry < size
    → let d = complete size c bytes in
      (held d ≡ c.carry ++ bytes)
      × (length d.carry ≤ size)
      × ((length d.carry < size → d.head ≡ []))
unfolding complete
complete-lem size c bytes h =
    let taken = min (sub_usize size (length c.carry)) (length bytes) in
    (
      append_assoc c.carry (take taken bytes) (drop taken bytes)
          ∙ ap (λ t. c.carry ++ t) (take-append-drop taken bytes),
      ground (arith, length-append c.carry (take taken bytes), length-take taken bytes),
      λ short.
          drop-all taken bytes
            (ground (arith, length-append c.carry (take taken bytes), length-take taken bytes)),
    )

-- Feeding a drained chunker adds the bytes at the end.
pub held-feed :
    (c : ByteChunker) (bytes : ByteString) → IsDrained c → held (feed c bytes) ≡ held c ++ bytes
unfolding feed
held-feed c bytes d = elim (Option-cases c.size) [
  | inl e ↦ rw (e, feed) (ground (arith, append-nil c.carry))
  | inr (size, e) ↦
      unfold complete in
      ground (arith, complete-lem size c bytes, append-nil c.carry, is_empty→nil c.carry)
]

abbrev chunker : Option ℕ → ByteString → ByteString → ByteChunker
chunker size carry head = record { size = size; carry = carry; head = head }

SizeFits-feed :
    (size : Option ℕ) (carry bytes : ByteString)
    → SizeFits size carry []
    → IsShort size carry
    → let d = feed (chunker size carry []) bytes in SizeFits size d.carry d.head
unfolding feed
SizeFits-feed none carry bytes v d = v
SizeFits-feed (some size) [] bytes v d = (omega arith, omega arith, λ _. inl refl)
SizeFits-feed (some size) (b ∷ carry) bytes v d =
    let c = chunker (some size) (b ∷ carry) [] in
    let (all, small, short) = complete-lem size c bytes d in (v.0, small, λ h. inr (short h))

pub size-feed : (c : ByteChunker) (bytes : ByteString) → (feed c bytes).size ≡ c.size
unfolding feed
size-feed c bytes = ground arith

pub feed-IsValid :
    (c : ByteChunker) (bytes : ByteString) → IsValid c → IsDrained c → IsValid (feed c bytes)
feed-IsValid c bytes v d = record {
  fits = rw size-feed (
      subst
        (λ h.
          SizeFits c.size (feed (chunker c.size c.carry h) bytes).carry
            (feed (chunker c.size c.carry h) bytes).head)
        (sym d.no_head)
        (SizeFits-feed c.size c.carry bytes
          (subst (λ h. SizeFits c.size c.carry h) d.no_head v.fits) d.short));
}

-- A piece that is full, as far as a size was asked for.
abbrev pub IsFull : Option ℕ → ByteString → Type 0
IsFull none piece = piece ≢ []
IsFull (some size) piece = length piece ≡ size

-- The outcome of `next_full`: the next full piece, or every byte kept and ready to be fed.
abbrev pub Gives : ByteChunker → Option ByteString × ByteChunker → Type 0
Gives c (some piece, d) =
    (held c ≡ piece ++ held d)
    × IsFull c.size piece
    × (d.size ≡ c.size)
    × SizeFits c.size d.carry d.head
Gives c (none, d) =
    (held c ≡ held d)
    × (d.head ≡ [])
    × IsShort c.size d.carry
    × (d.size ≡ c.size)
    × SizeFits c.size d.carry d.head

Gives-none :
    (carry head : ByteString)
    → carry ≡ []
    → Gives (chunker none carry head) (next_unsized (chunker none carry head))
unfolding next_unsized
Gives-none carry [] h = (refl, refl, h, refl, h)
Gives-none carry (b ∷ head) h =
    (ground (arith, append-nil (b ∷ head), append-nil carry), ground arith, refl, h)

-- A carry that is full is a piece by itself.
Gives-carry :
    (size : ℕ) (carry head : ByteString)
    → length carry ≡ size
    → 0 < size
    → Gives
        (chunker (some size) carry head)
        (some (take size carry), chunker (some size) (drop size carry) head)
Gives-carry size carry head e h =
    rw (take-all size carry (omega arith), drop-all size carry (omega arith))
      (refl, e, refl, (omega arith, omega arith, λ _. inl refl))

-- A head that holds a piece is split, if no piece is begun.
Gives-head :
    (size : ℕ) (head : ByteString)
    → size ≤ length head
    → 0 < size
    → Gives
        (chunker (some size) [] head)
        (some (take size head), chunker (some size) [] (drop size head))
Gives-head size head e h = (
  sym (take-append-drop size head),
  omega (arith, length-take size head),
  refl,
  (omega arith, omega arith, λ _. inl refl),
)

Gives-park :
    (size : ℕ) (carry head : ByteString)
    → 0 < size
    → length carry < size
    → (length head < size) ⊎ (carry ≢ [])
    → carry ≡ [] ⊎ head ≡ []
    → Gives (chunker (some size) carry head) (none, park (chunker (some size) carry head))
unfolding park
Gives-park size carry [] pos small short v =
    (refl, refl, small, refl, (omega arith, omega arith, λ _. inr refl))
Gives-park size [] (b ∷ head) pos small (inl short) v = (
  ap (λ t. b ∷ t) (sym (append-nil head)),
  refl,
  short,
  refl,
  (omega arith, omega arith, λ _. inr refl),
)
Gives-park size [] (b ∷ head) pos small (inr e) v = absurd (e refl)
Gives-park size (a ∷ carry) (b ∷ head) pos small short (inl e) = cc
Gives-park size (a ∷ carry) (b ∷ head) pos small short (inr e) = cc

Gives-some :
    (size : ℕ) (carry head : ByteString)
    → SizeFits (some size) carry head
    → Gives (chunker (some size) carry head) (next_sized size (chunker (some size) carry head))
unfolding next_sized
Gives-some size carry head (pos, small, alone) = elim (Bool-cases (leb size (length carry))) [
  | inl full ↦ rw full (Gives-carry size carry head (ground arith) pos)
  | inr part ↦ rw part (elim (Bool-cases (leb size (length head) && is_empty carry)) [
    | inl whole ↦
        let none_held : carry ≡ [] = is_empty→nil carry (ground arith) in
        rw whole (rw none_held (Gives-head size head (ground arith) pos))
    | inr rest ↦ rw rest (
        Gives-park size carry head pos (ground arith) (ground (arith, is_empty→nil carry))
          (alone (ground arith)))
  ])
]

Gives-sized :
    (size : Option ℕ) (carry head : ByteString)
    → SizeFits size carry head
    → Gives (chunker size carry head) (next_full (chunker size carry head))
unfolding next_full
Gives-sized none carry head v = Gives-none carry head v
Gives-sized (some size) carry head v = Gives-some size carry head v

-- `next_full` gives the next full piece, or keeps every byte and is ready to be fed.
pub next_full-Gives : (c : ByteChunker) → IsValid c → Gives c (next_full c)
next_full-Gives c v = Gives-sized c.size c.carry c.head v.fits

-- `flush` gives all that is held, if there is anything.
pub flush_lem :
    (c : ByteChunker)
    → (held (flush c).1 ≡ []) × ((flush c).0 ≡ (if is_empty (held c) then none else some (held c)))
unfolding flush
flush_lem c = (refl, refl)

pub IsValid-of_fits :
    (c : ByteChunker) {size : Option ℕ} → c.size ≡ size → SizeFits size c.carry c.head → IsValid c
IsValid-of_fits c e f = record { fits = rw e f }

pub SizeFits-nil :
    (size : Option ℕ) (carry head : ByteString) → SizeFits size carry head → SizeFits size [] []
SizeFits-nil none carry head f = refl
SizeFits-nil (some size) carry head f = (f.0, omega arith, λ _. inl refl)

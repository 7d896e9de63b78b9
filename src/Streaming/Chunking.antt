-- ===== src/Streaming/Chunking.antt =====
-- crates/rqx-core/src/streaming/chunking.rs: `ByteChunker`.
pub mod Bytes
use rqx.Base.{
  ℕ, ◌+◌, ◌-◌, ◌^◌, Bool, true, false, List, [], ◌∷◌, ◌++◌, Option, none, some, if◌then◌else◌, leb,
  min, length, is_empty, take, drop, ◌&&◌,
}

-- `Bytes` and `BytesMut`
abbrev pub ByteString : Type 0
ByteString = List ℕ

pub record ByteChunker : Type 0 where
  pub size : Option ℕ
  pub carry : ByteString
  pub head : ByteString

unfoldable pub new : Option ℕ → ByteChunker
new size = record { size = size; carry = []; head = [] }

-- `usize` subtraction as it runs in a release build: it wraps below zero
abbrev pub sub_usize : ℕ → ℕ → ℕ
sub_usize a b = if leb b a then a - b else a + 2 ^ 64 - b

-- `feed` with a size and a piece begun
complete : ℕ → ByteChunker → ByteString → ByteChunker
complete size c bytes =
    let taken = min (sub_usize size (length c.carry)) (length bytes) in
    record c { carry = c.carry ++ take taken bytes; head = drop taken bytes }

unfoldable pub feed : ByteChunker → ByteString → ByteChunker
unfolding complete
feed c bytes = elim c.size [
  | none ↦ record c { head = bytes }
  | some size ↦ if is_empty c.carry then record c { head = bytes } else complete size c bytes
]

-- Park the head so that the next chunk completes it.
park : ByteChunker → ByteChunker
park c = if is_empty c.head then c else record c { carry = c.carry ++ c.head; head = [] }

next_sized : ℕ → ByteChunker → Option ByteString × ByteChunker
unfolding park
next_sized size c =
    if leb size (length c.carry)
    then (some (take size c.carry), record c { carry = drop size c.carry })
    else if leb size (length c.head) && is_empty c.carry
    then (some (take size c.head), record c { head = drop size c.head })
    else (none, park c)

next_unsized : ByteChunker → Option ByteString × ByteChunker
next_unsized c = if is_empty c.head then (none, c) else (some c.head, record c { head = [] })

unfoldable pub next_full : ByteChunker → Option ByteString × ByteChunker
unfolding next_sized next_unsized
next_full c = elim c.size [ none ↦ next_unsized c | some size ↦ next_sized size c ]

unfoldable pub flush : ByteChunker → Option ByteString × ByteChunker
flush c =
    let rest = c.carry ++ c.head in
    (if is_empty rest then none else some rest, record c { carry = []; head = [] })

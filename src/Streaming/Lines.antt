-- ===== src/Streaming/Lines.antt =====
-- crates/rqx-core/src/streaming/decoding.rs: `LineDecoder`, which splits decoded text into lines
-- across chunk boundaries.
pub mod Split
use rqx.Base.{
  ℕ, Text, Bool, true, false, List, [], ◌∷◌, ◌++◌, Option, none, some, if◌then◌else◌, length,
  is_empty, ends_with, nat_beq, ◌||◌, ◌&&◌, not,
}

abbrev pub lf : ℕ
lf = 0x0a

abbrev pub cr : ℕ
cr = 0x0d

-- the characters at which Python's `str.splitlines()` breaks
pub is_line_break : ℕ → Bool
is_line_break c =
    nat_beq c lf
    || nat_beq c cr
    || nat_beq c 0x0b
    || nat_beq c 0x0c
    || nat_beq c 0x1c
    || nat_beq c 0x1d
    || nat_beq c 0x1e
    || nat_beq c 0x85
    || nat_beq c 0x2028
    || nat_beq c 0x2029

-- `if !current.is_empty() { lines.push(current) }`
abbrev pub tail_line : Text → List Text
tail_line current = if is_empty current then [] else current ∷ []

-- the loop of `split_lines`; `chars.peek()` is the second character of the pattern
pub split_loop : Text → Text → List Text
unfolding is_line_break
split_loop current [] = tail_line current
split_loop current (c ∷ []) = elim (is_line_break c) [
  | true ↦ current ∷ split_loop [] []
  | false ↦ split_loop (current ++ c ∷ []) []
]
split_loop current (c ∷ d ∷ rest) = elim (nat_beq c cr) [
  | true ↦ elim (nat_beq d lf) [
    | true ↦ current ∷ split_loop [] rest
    | false ↦ current ∷ split_loop [] (d ∷ rest)
  ]
  | false ↦ elim (is_line_break c) [
    | true ↦ current ∷ split_loop [] (d ∷ rest)
    | false ↦ split_loop (current ++ c ∷ []) (d ∷ rest)
  ]
]

pub split_lines : Text → List Text
unfolding split_loop
split_lines chars = split_loop [] chars

pub record LineDecoder : Type 0 where
  pub buffer : Text
  pub trailing_cr : Bool

abbrev pub new : LineDecoder
new = record { buffer = []; trailing_cr = false }

-- `String::pop`
abbrev pub pop : Text → Text
pop [] = []
pop (c ∷ []) = []
pop (c ∷ d ∷ s) = c ∷ pop (d ∷ s)

-- `chars().next_back().is_some_and(is_line_break)`
ends_in_break : Text → Bool
unfolding is_line_break
ends_in_break [] = false
ends_in_break (c ∷ []) = is_line_break c
ends_in_break (c ∷ d ∷ s) = ends_in_break (d ∷ s)

-- `lines.pop().unwrap()`, with the lines that are left
abbrev pop_line : List Text → List Text × Text
pop_line [] = ([], [])
pop_line (l ∷ []) = ([], l)
pop_line (l ∷ m ∷ ls) = let (ms, last) = pop_line (m ∷ ls) in (l ∷ ms, last)

-- A buffered partial line is the start of the first segment.
abbrev join_first : Text → List Text → List Text
join_first buffer [] = []
join_first buffer (l ∷ ls) = (buffer ++ l) ∷ ls

-- `feed` from the split on, for a text that is not empty
resume : LineDecoder → Bool → List Text → List Text × LineDecoder
resume d trailing_newline lines =
    if nat_beq (length lines) 1 && not trailing_newline
    then ([], record d { buffer = join_buffer d.buffer lines })
    else (let joined = if is_empty d.buffer then lines else join_first d.buffer lines in
        if trailing_newline
        then (joined, record d { buffer = [] })
        else (let (rest, last) = pop_line joined in (rest, record d { buffer = last })))
  where
    join_buffer : Text → List Text → Text
    join_buffer buffer [] = buffer
    join_buffer buffer (l ∷ ls) = buffer ++ l

-- the text of a call, with the `\r` that the last one deferred
abbrev pub deferred : LineDecoder → Text → Text
deferred d text = if d.trailing_cr then cr ∷ text else text

split_chunk : LineDecoder → Text → List Text × LineDecoder
unfolding resume split_lines ends_in_break
split_chunk d text =
    if is_empty text then ([], d) else resume d (ends_in_break text) (split_lines text)

pub feed : LineDecoder → Text → List Text × LineDecoder
unfolding split_chunk
feed d chunk =
    let text = deferred d chunk in
    if ends_with cr text
    then split_chunk (record d { trailing_cr = true }) (pop text)
    else split_chunk (record d { trailing_cr = false }) text

pub flush : LineDecoder → Option Text × LineDecoder
flush d =
    if is_empty d.buffer && not d.trailing_cr
    then (none, d)
    else (some d.buffer, record { buffer = []; trailing_cr = false })

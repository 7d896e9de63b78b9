-- ===== src/Streaming/Lines/Split.antt =====
-- Lines do not depend on where the network cuts the text.
use rqx.Base.{
  ℕ, Text, Bool, true, false, List, [], ◌∷◌, ◌++◌, none, some, if◌then◌else◌, length-append,
  is_empty, ends_with, nat_beq, nat_beq_iff, concat, ◌≡◌, ◌≢◌, refl, sym, ap, ap₂, ◌∙◌, inl, inr,
  arith, append-nil, append_assoc, Bool-cases,
}
use rqx.Streaming.Lines.{
  lf, cr, is_line_break, tail_line, split_loop, split_lines, LineDecoder, new, pop, ends_in_break,
  pop_line, resume, deferred, split_chunk, feed, flush,
}

-- The lines that a text completes after `current`, and the partial line that it leaves.
scan : Text → Text → List Text × Text
scan current [] = ([], current)
scan current (c ∷ []) = if is_line_break c then (current ∷ [], []) else ([], current ++ c ∷ [])
scan current (c ∷ d ∷ rest) = elim (nat_beq c cr) [
  | true ↦ elim (nat_beq d lf) [
    | true ↦ let (ls, p) = scan [] rest in (current ∷ ls, p)
    | false ↦ let (ls, p) = scan [] (d ∷ rest) in (current ∷ ls, p)
  ]
  | false ↦ elim (is_line_break c) [
    | true ↦ let (ls, p) = scan [] (d ∷ rest) in (current ∷ ls, p)
    | false ↦ scan (current ++ c ∷ []) (d ∷ rest)
  ]
]

abbrev starts_lf : Text → Bool
starts_lf [] = false
starts_lf (c ∷ s) = nat_beq c lf

-- A cut is safe unless it stands inside a `\r\n`.
abbrev IsSafe : Text → Text → Type 0
IsSafe t u = ends_with cr t ≡ true → starts_lf u ≡ false

IsSafe-tail : (d : ℕ) (t u : Text) → IsSafe (d ∷ t) u → IsSafe t u
IsSafe-tail d [] u safe = λ h. cc
IsSafe-tail d (e ∷ t) u safe = safe

split_loop-append :
    (current t u : Text)
    → IsSafe t u
    → split_loop current (t ++ u) ≡ (scan current t).0 ++ split_loop (scan current t).1 u
unfolding split_loop scan is_line_break
split_loop-append current [] u safe = refl
split_loop-append current (c ∷ []) [] safe = ground arith
split_loop-append current (c ∷ []) (e ∷ u) safe = ground (arith, nat_beq_iff cr c)
split_loop-append current (c ∷ d ∷ t) u safe = ground (
  arith,
  split_loop-append [] t u (IsSafe-tail d t u safe),
  split_loop-append [] (d ∷ t) u safe,
  split_loop-append (current ++ c ∷ []) (d ∷ t) u safe,
)

split_loop-scan :
    (current t : Text) → split_loop current t ≡ (scan current t).0 ++ tail_line (scan current t).1
split_loop-scan current t =
    ap (split_loop current) (sym (append-nil t))
    ∙ split_loop-append current t [] (λ _. refl)
    ∙ ap (λ ls. (scan current t).0 ++ ls) (unfold split_loop in refl)

-- Text in front joins the first line.
abbrev behind : Text → List Text × Text → List Text × Text
behind a ([], p) = ([], a ++ p)
behind a (l ∷ ls, p) = ((a ++ l) ∷ ls, p)

scan-behind : (a b t : Text) → scan (a ++ b) t ≡ behind a (scan b t)
unfolding scan is_line_break
scan-behind a b [] = refl
scan-behind a b (c ∷ []) = ground (arith, append_assoc a b (c ∷ []))
scan-behind a b (c ∷ d ∷ t) =
    ground (arith, append_assoc a b (c ∷ []), scan-behind a (b ++ c ∷ []) (d ∷ t))

is_empty-snoc : (s : Text) (c : ℕ) → is_empty (s ++ c ∷ []) ≡ false
is_empty-snoc [] c = refl
is_empty-snoc (d ∷ s) c = refl

-- A text that ends in a break leaves no partial line, and any other one does.
ends_in_break-scan :
    (current : Text) (c : ℕ) (t : Text) → is_empty (scan current (c ∷ t)).1 ≡ ends_in_break (c ∷ t)
unfolding scan is_line_break ends_in_break
ends_in_break-scan current c [] = ground (arith, is_empty-snoc current c)
ends_in_break-scan current c (d ∷ []) =
    ground (arith, ends_in_break-scan [] d [], ends_in_break-scan (current ++ c ∷ []) d [])
ends_in_break-scan current c (d ∷ e ∷ t) = ground (
  arith,
  ends_in_break-scan [] e t,
  ends_in_break-scan [] d (e ∷ t),
  ends_in_break-scan (current ++ c ∷ []) d (e ∷ t),
)

scan_complete :
    (current : Text) (c : ℕ) (t : Text)
    → ends_in_break (c ∷ t) ≡ true
    → (scan current (c ∷ t)).0 ≢ []
unfolding scan is_line_break ends_in_break
scan_complete current c [] h = ground arith
scan_complete current c (d ∷ t) h = ground (arith, scan_complete (current ++ c ∷ []) d t)

pop_line-snoc : (l p : Text) (ls : List Text) → pop_line (l ∷ ls ++ p ∷ []) ≡ (l ∷ ls, p)
pop_line-snoc l p [] = refl
pop_line-snoc l p (m ∷ ls) = ground (arith, pop_line-snoc m p ls)

resume-behind :
    (d : LineDecoder) (ls : List Text) (p : Text)
    → (p ≡ [] → ls ≢ [])
    → let (done, rest) = behind d.buffer (ls, p) in
      resume d (is_empty p) (ls ++ tail_line p) ≡ (done, record d { buffer = rest })
unfolding resume
resume-behind d [] [] h = absurd (h refl refl)
resume-behind d [] (x ∷ p) h = refl
resume-behind d (l ∷ ls) [] h = ground (arith, append-nil l, append-nil ls)
resume-behind d (l ∷ ls) (x ∷ p) h = ground (
  arith,
  length-append ls ((x ∷ p) ∷ []),
  pop_line-snoc l (x ∷ p) ls,
  pop_line-snoc (d.buffer ++ l) (x ∷ p) ls,
)

-- A call takes the buffered partial line on through its text.
split_chunk-scan :
    (d : LineDecoder) (text : Text)
    → let (done, rest) = scan d.buffer text in
      split_chunk d text ≡ (done, record d { buffer = rest })
unfolding split_chunk
split_chunk-scan d [] = unfold scan in refl
split_chunk-scan d (c ∷ t) =
    let (ls, p) = scan [] (c ∷ t) in
    let whole : scan d.buffer (c ∷ t) ≡ behind d.buffer (ls, p) =
      ap (λ b. scan b (c ∷ t)) (sym (append-nil d.buffer)) ∙ scan-behind d.buffer [] (c ∷ t) in
    let complete : p ≡ [] → ls ≢ [] =
      λ e. scan_complete [] c t (sym (ends_in_break-scan [] c t) ∙ ap is_empty e) in
    rw whole (
      ap₂ (resume d) (sym (ends_in_break-scan [] c t)) (split_loop-scan [] (c ∷ t))
      ∙ resume-behind d ls p complete)

pop-append : (t : Text) → ends_with cr t ≡ true → t ≡ pop t ++ cr ∷ []
pop-append [] h = cc
pop-append (c ∷ []) h = ap (λ (x : ℕ). x ∷ []) (sym ((nat_beq_iff cr c).0 h))
pop-append (c ∷ d ∷ t) h = ap (λ s. c ∷ s) (pop-append (d ∷ t) h)

deferred-append : (d : LineDecoder) (t u : Text) → deferred d (t ++ u) ≡ deferred d t ++ u
deferred-append d t u = ground arith

feed-scan :
    (d : LineDecoder) (chunk : Text) (ends : Bool)
    → ends_with cr (deferred d chunk) ≡ ends
    → let (done, rest) =
        scan d.buffer (if ends then pop (deferred d chunk) else deferred d chunk) in
      feed d chunk ≡ (done, record { buffer = rest; trailing_cr = ends })
unfolding feed
feed-scan d chunk true h =
    rw h (split_chunk-scan (record d { trailing_cr = true }) (pop (deferred d chunk)))
feed-scan d chunk false h =
    rw h (split_chunk-scan (record d { trailing_cr = false }) (deferred d chunk))

-- The lines of what is still to come, after a state.
abbrev pub pending : LineDecoder → Text → List Text
pending d text = split_loop d.buffer (deferred d text)

pending-feed :
    (d : LineDecoder) (chunk u : Text)
    → pending d (chunk ++ u) ≡ (feed d chunk).0 ++ pending (feed d chunk).1 u
pending-feed d chunk u = elim (Bool-cases (ends_with cr (deferred d chunk))) [
  | inl cut ↦
      let text = deferred d chunk in
      rw (feed-scan d chunk true cut) (
        ap (split_loop d.buffer) (
          deferred-append d chunk u
          ∙ ap (λ t. t ++ u) (pop-append text cut)
          ∙ append_assoc (pop text) (cr ∷ []) u)
        ∙ split_loop-append d.buffer (pop text) (cr ∷ u) (λ _. refl))
  | inr whole ↦ rw (feed-scan d chunk false whole) (
      ap (split_loop d.buffer) (deferred-append d chunk u)
      ∙ split_loop-append d.buffer (deferred d chunk) u (λ h. cc))
]

-- The lines that a sequence of chunks gives, call by call.
unfoldable pub feed_all : LineDecoder → List Text → List Text × LineDecoder
feed_all d [] = ([], d)
feed_all d (chunk ∷ chunks) =
    let (ls, d') = feed d chunk in let (ms, e) = feed_all d' chunks in (ls ++ ms, e)

abbrev pub flushed : LineDecoder → List Text
flushed d = elim (flush d).0 [ none ↦ [] | some l ↦ l ∷ [] ]

pending-flushed : (d : LineDecoder) → pending d [] ≡ flushed d
unfolding split_loop flush is_line_break
pending-flushed d = ground arith

pending-feed_all :
    (d : LineDecoder) (chunks : List Text)
    → pending d (concat chunks) ≡ (feed_all d chunks).0 ++ flushed (feed_all d chunks).1
unfolding feed_all
pending-feed_all d [] = pending-flushed d
pending-feed_all d (chunk ∷ chunks) =
    pending-feed d chunk (concat chunks)
    ∙ ap (λ t. (feed d chunk).0 ++ t) (pending-feed_all (feed d chunk).1 chunks)
    ∙ sym (append_assoc (feed d chunk).0 _ _)

-- The lines fed out over any chunks, with the flush at the end, are the lines of the whole text.
pub feed_all-split_lines :
    (chunks : List Text)
    → (feed_all new chunks).0 ++ flushed (feed_all new chunks).1 ≡ split_lines (concat chunks)
unfolding split_lines
feed_all-split_lines chunks = sym (pending-feed_all new chunks)

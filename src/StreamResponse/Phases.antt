-- ===== src/StreamResponse/Phases.antt =====
-- What a streamed response promises, whatever it is asked in whatever order: a machine of four phases,
-- which its operations implement.
use rqx.Base.{ℕ, zero, suc, Text, List, [], ◌∷◌, Option, none, some, ◌≡◌, refl, ap, ◌∙◌}
use rqx.Error.{RqxCoreError}
use rqx.Exceptions.{PyResult, py_ok, py_err, core_err}
use rqx.Exceptions.Classes
use rqx.Exceptions.Classes.{ExceptionClass}
use rqx.Streaming.Chunking.{ByteString}
use rqx.Streaming.LiveStream.{LiveStream, Chunk}
use rqx.StreamResponse.{
  Body, live, streaming, buffered, StreamResponse, Received, received, broken, close, start_stream,
  checked_chunk_size, iterator, iterate_bytes, iterate_text, iterate_lines, content, text_of,
  keep_bytes, read,
}

pub data Phase : Type 0 where
  unread streamed stored dropped : Phase

-- the calls
pub data Request : Type 0 where
  reading : Request
  iterating_bytes iterating_text : Option ℕ → Request
  iterating_lines getting_content getting_text closing : Request

-- how a call ends: it takes the body off the network, gives what is stored, closes, or raises
pub data Verdict : Type 0 where
  consumes gives closes : Verdict
  raises : ExceptionClass → Verdict

-- the phase after a call that hands out the body as it arrives
abbrev pub start : Phase → Verdict × Phase
start unread = (consumes, streamed)
start streamed = (raises Classes.stream_consumed, streamed)
start stored = (raises Classes.stream_consumed, stored)
start dropped = (raises Classes.stream_closed, dropped)

abbrev pub start_sized : Option ℕ → Phase → Verdict × Phase
start_sized (some zero) p = (raises Classes.value_error, p)
start_sized (some (suc n)) p = start p
start_sized none p = start p

-- a call that wants the stored body
abbrev pub give : Phase → Verdict × Phase
give unread = (raises Classes.response_not_read, unread)
give streamed = (raises Classes.response_not_read, streamed)
give stored = (gives, stored)
give dropped = (raises Classes.stream_closed, dropped)

-- `broken_by` is the class of the error that the network breaks the body with, if it does.
abbrev pub read_all : Phase → Option ExceptionClass → Verdict × Phase
read_all streamed broken_by = (raises Classes.stream_consumed, streamed)
read_all stored broken_by = (gives, stored)
read_all dropped broken_by = (raises Classes.stream_closed, dropped)
read_all unread none = (consumes, stored)
read_all unread (some c) = (raises c, dropped)

-- the machine
abbrev pub answer : Option ExceptionClass → Request → Phase → Verdict × Phase
answer broken_by reading p = read_all p broken_by
answer broken_by (iterating_bytes size) p = start_sized size p
answer broken_by (iterating_text size) p = start_sized size p
answer broken_by iterating_lines p = start p
answer broken_by getting_content p = give p
answer broken_by getting_text p = give p
answer broken_by closing p = (closes, dropped)

module _ {E : Type 0} where
  abbrev pub phase_of_body : Option (Body E) → Phase
  phase_of_body (some (live chunks)) = unread
  phase_of_body (some streaming) = streamed
  phase_of_body (some (buffered bytes)) = stored
  phase_of_body none = dropped

  abbrev pub phase : StreamResponse E → Phase
  phase r = phase_of_body r.body

  module _ (from_reqwest : E → RqxCoreError) (all_bytes : List (Chunk E) → Received E)
      (decode : ByteString → Text) where
    abbrev broke : Received E → Option ExceptionClass
    broke (received bytes) = none
    broke (broken e) = some (core_err (from_reqwest e)).class

    -- a result, as a verdict
    abbrev verdict : {A : Type 0} → Verdict → PyResult A → Verdict
    verdict v (py_ok a) = v
    verdict v (py_err e) = raises e.class

    -- A call of `read` takes the body off the network where it is live, and gives what is stored
    -- otherwise.
    abbrev read_verdict : Option (Body E) → Verdict
    read_verdict (some (live chunks)) = consumes
    read_verdict (some streaming) = gives
    read_verdict (some (buffered bytes)) = gives
    read_verdict none = gives

    -- a call, as the code answers it
    abbrev pub perform : {D : Type 0} → D → Request → StreamResponse E → Verdict × StreamResponse E
    perform d reading r =
        let (result, next) = read from_reqwest all_bytes r in
        (verdict (read_verdict r.body) result, next)
    perform d (iterating_bytes size) r =
        let (result, next) = iterate_bytes size r in (verdict consumes result, next)
    perform d (iterating_text size) r =
        let (result, next) = iterate_text d size r in (verdict consumes result, next)
    perform d iterating_lines r =
        let (result, next) = iterate_lines d r in (verdict consumes result, next)
    perform d getting_content r = (verdict gives (content r), r)
    perform d getting_text r = (verdict gives (text_of decode r), r)
    perform d closing r = (closes, close r)

    -- the body that the network had in store, or none that is live
    abbrev pub IsOf : List (Chunk E) → Option (Body E) → Type 0
    IsOf chunks (some (live others)) = others ≡ chunks
    IsOf chunks (some streaming) = Unit {0}
    IsOf chunks (some (buffered bytes)) = Unit {0}
    IsOf chunks none = Unit {0}

    abbrev pub Follows : {D : Type 0} → D → Request → List (Chunk E) → StreamResponse E → Type 0
    Follows d request chunks r =
        let (v, next) = perform d request r in
        ((v, phase next) ≡ answer (broke (all_bytes chunks)) request (phase r))
        × IsOf chunks next.body

    start-Follows :
        {I : Type 0} (make : LiveStream E → I) (chunks : List (Chunk E)) (body : Option (Body E))
        (handle : Option (LiveStream E))
        → IsOf chunks body
        → let (result, next) =
            iterator make (start_stream (record { body = body; handle = handle })) in
          ((verdict consumes result, phase next) ≡ start (phase_of_body body))
          × IsOf chunks next.body
    unfolding start_stream
    start-Follows make chunks (some (live others)) handle e = (refl, tt)
    start-Follows make chunks (some streaming) handle e = (refl, tt)
    start-Follows make chunks (some (buffered bytes)) handle e = (refl, tt)
    start-Follows make chunks none handle e = (refl, tt)

    keep_bytes-Follows :
        (chunks : List (Chunk E)) (r : StreamResponse E) (got : Received E)
        → let (result, next) = keep_bytes from_reqwest r got in
          ((verdict consumes result, phase next) ≡ read_all unread (broke got))
          × IsOf chunks next.body
    unfolding keep_bytes content
    keep_bytes-Follows chunks r (received bytes) = (refl, tt)
    keep_bytes-Follows chunks r (broken e) = (refl, tt)

    -- One call: the verdict and the next phase are the machine's.
    pub perform-Follows :
        {D : Type 0} (d : D) (request : Request) (chunks : List (Chunk E)) (body : Option (Body E))
        (handle : Option (LiveStream E))
        → IsOf chunks body
        → Follows d request chunks (record { body = body; handle = handle })
    unfolding read content text_of close start_stream iterate_bytes iterate_text iterate_lines
        checked_chunk_size
    perform-Follows d reading chunks (some (live others)) handle e =
        let kept = keep_bytes-Follows chunks _ (all_bytes others) in
        (kept.0 ∙ ap (λ c. read_all unread (broke (all_bytes c))) e, kept.1)
    perform-Follows d reading chunks (some streaming) handle e = (refl, tt)
    perform-Follows d reading chunks (some (buffered bytes)) handle e = (refl, tt)
    perform-Follows d reading chunks none handle e = (refl, tt)
    perform-Follows d (iterating_bytes none) chunks body handle e =
        start-Follows _ chunks body handle e
    perform-Follows d (iterating_bytes (some zero)) chunks body handle e = (refl, e)
    perform-Follows d (iterating_bytes (some (suc n))) chunks body handle e =
        start-Follows _ chunks body handle e
    perform-Follows d (iterating_text none) chunks body handle e =
        start-Follows _ chunks body handle e
    perform-Follows d (iterating_text (some zero)) chunks body handle e = (refl, e)
    perform-Follows d (iterating_text (some (suc n))) chunks body handle e =
        start-Follows _ chunks body handle e
    perform-Follows d iterating_lines chunks body handle e = start-Follows _ chunks body handle e
    perform-Follows d getting_content chunks (some (live others)) handle e = (refl, e)
    perform-Follows d getting_content chunks (some streaming) handle e = (refl, tt)
    perform-Follows d getting_content chunks (some (buffered bytes)) handle e = (refl, tt)
    perform-Follows d getting_content chunks none handle e = (refl, tt)
    perform-Follows d getting_text chunks (some (live others)) handle e = (refl, e)
    perform-Follows d getting_text chunks (some streaming) handle e = (refl, tt)
    perform-Follows d getting_text chunks (some (buffered bytes)) handle e = (refl, tt)
    perform-Follows d getting_text chunks none handle e = (refl, tt)
    perform-Follows d closing chunks (some (live others)) handle e = (refl, tt)
    perform-Follows d closing chunks (some streaming) handle e = (refl, tt)
    perform-Follows d closing chunks (some (buffered bytes)) handle e = (refl, tt)
    perform-Follows d closing chunks none handle e = (refl, tt)

    -- the verdicts of a sequence of calls, and the response after it
    unfoldable pub perform_all :
        {D : Type 0} → D → List Request → StreamResponse E → List Verdict × StreamResponse E
    perform_all d [] r = ([], r)
    perform_all d (request ∷ requests) r =
        let (v, next) = perform d request r in
        let (vs, last) = perform_all d requests next in (v ∷ vs, last)

    abbrev pub broken_by : List (Chunk E) → Option ExceptionClass
    broken_by chunks = broke (all_bytes chunks)

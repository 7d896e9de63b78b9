-- ===== src/Tests/Streams.antt =====
-- The theorems on iterators and streamed responses, at concrete inputs.
use rqx.Base.{
  ℕ, suc, length, ◌≤◌, Text, text, Bool, true, false, none, some, List, [], ◌∷◌, map, concat, ◌≡◌,
  refl, arith,
}
use rqx.Error.{stream_error, Result, ok}
use rqx.Exceptions.{py_ok, py_err, core_err}
use rqx.Exceptions.Classes
use rqx.Exceptions.Classes.{ExceptionClass}
use rqx.Exceptions.Network.{IsClass, from_net-IsClass}
use rqx.Exceptions.Sending.{FailsAsHttp, send_request-FailsAsHttp}
use rqx.Error.Convert.{from_net}
use rqx.Client.{send_request}
use rqx.Sample.{sample, unavailable, get_request}
use rqx.Platform.{Platform}
use rqx.Streaming.Chunking.{ByteString}
use rqx.Streaming.Lines.{split_lines}
use rqx.Streaming.LiveStream
use rqx.Streaming.LiveStream.{LiveStream, Chunk, bytes, close, closed_error}
use rqx.Streaming.Iterator.Rounds.{collect_items}
use rqx.Streaming.Iterator.Regrouped.{Regrouped}
use rqx.Streaming.Iterator.Pieces.{quiet}
use rqx.Streaming.Iterator.LineByLine.{new_lines, next_line}
use rqx.Streaming.Iterator.LineByLine.Whole.{decoded, collect-new_lines}
use rqx.Streaming.Iterator.TextPieces.{text_iterator, next_text}
use rqx.Streaming.Iterator.TextPieces.Whole.{collect-text_iterator}
use rqx.StreamResponse
use rqx.StreamResponse.{Body, buffered, StreamResponse, Received, received, from_pending, is_closed}
use rqx.StreamResponse.Phases.{
  unread, Request, reading, iterating_lines, getting_content, closing, phase, perform_all,
  broken_by,
}
use rqx.StreamResponse.Runs.{answer_all, perform_all-answer_all, consumptions, IsRefused}
use rqx.StreamResponse.Async.{Step, AsyncResponse, stay, pending_response, aclose}
use rqx.StreamResponse.Async.Closing.{Reach-close, close-undone}
use rqx.StreamContext.{StreamContext, new_context, exit_context, enter_context, begin, send_taken}
use rqx.StreamContext.Async.{AsyncContext, aenter, aexit, send_unsent, spawn, fill, aenter-aexit}
use rqx.StreamContext.Block.{perform_all-exit_context}
use rqx.HttpConfig.{take_unsent}
use rqx.Tests.{body, from_reqwest, two, two≢nought, client}

abbrev seed : ℕ
seed = 0

-- a decoder of ASCII, which counts its calls
abbrev ascii : ℕ → ByteString → Bool → Text × ℕ
ascii calls src last = (src, suc calls)

abbrev lines : List Text
lines = split_lines (concat (decoded ascii 0 body))

collect-new_lines_example :
    collect_items
      (next_line ascii from_reqwest quiet 5)
      (suc (length lines))
      (new_lines (LiveStream.new (map bytes body)) 0)
    ≡ some lines
collect-new_lines_example =
    collect-new_lines ascii from_reqwest 0 body 5 (suc (length lines)) (omega arith) (omega arith)

collect-text_iterator_example :
    (ps : List Text) × (collect_items
        (next_text ascii from_reqwest quiet 5)
        5
        (text_iterator (LiveStream.new (map bytes body)) 0 two)
      ≡ some ps)
    × Regrouped two ps (concat (decoded ascii 0 body))
unfolding decoded
collect-text_iterator_example =
    collect-text_iterator ascii from_reqwest 0 two body 5 5 two≢nought (omega arith) (omega arith)

abbrev closed : LiveStream Text
closed = record { stream = none; closed = true; close_signal = true }

abbrev opened : LiveStream Text
opened = LiveStream.new (map bytes body)

abbrev all_bytes : List (Chunk Text) → Received Text
all_bytes chunks = received (1 ∷ 2 ∷ [])

abbrev chunks : List (Chunk Text)
chunks = map bytes body

abbrev calls : List Request
calls = getting_content ∷ reading ∷ iterating_lines ∷ closing ∷ reading ∷ []

perform_all-answer_all_example :
    (
      (perform_all from_reqwest all_bytes (λ b. b) seed calls (from_pending chunks)).0,
      phase (perform_all from_reqwest all_bytes (λ b. b) seed calls (from_pending chunks)).1,
    )
    ≡ answer_all (broken_by from_reqwest all_bytes (λ b. b) chunks) calls unread
perform_all-answer_all_example =
    perform_all-answer_all from_reqwest all_bytes (λ b. b) seed calls chunks

abbrev pending : AsyncResponse Text
pending = pending_response chunks

abbrev taken : AsyncResponse Text
taken = record { shared = record { body = none; handle = none }; in_flight = chunks ∷ [] }

Reach-close_example : is_closed true (aclose pending).shared ≡ true
Reach-close_example = Reach-close pending (aclose pending) true refl stay

abbrev waiting_read : AsyncResponse Text
waiting_read = record { shared = record { body = none; handle = none }; in_flight = chunks ∷ [] }

close-undone_example :
    (v : AsyncResponse Text) × Step (aclose waiting_read) v
    × (is_closed true v.shared ≡ false)
    × (v.shared.body ≡ some (buffered (1 ∷ [])))
    × (v.in_flight ≡ [])
close-undone_example = close-undone waiting_read [] [] chunks (1 ∷ []) true refl

abbrev deliver : Text → Result (List (Chunk Text))
deliver url = ok chunks

abbrev context : StreamContext Text Text
context = new_context (text "http://a/")

abbrev fresh : StreamResponse Text
fresh = from_pending chunks

abbrev entered_context : StreamContext Text Text
entered_context = record { unsent = none; response = some fresh }

abbrev used : StreamResponse Text
used = (perform_all from_reqwest all_bytes (λ b. b) seed calls fresh).1

perform_all-exit_context_example :
    (consumptions (perform_all from_reqwest all_bytes (λ b. b) seed calls fresh).0 ≤ 1)
    × ((exit_context (record entered_context { response = some used })).0
        ≡ some (StreamResponse.close used))
    × IsRefused
        (perform_all from_reqwest all_bytes (λ b. b) seed calls (StreamResponse.close used)).0
    × ((enter_context deliver (exit_context (record entered_context { response = some used })).1).0
        ≡ py_err (
            core_err (
              stream_error (text "stream already started; call stream() again for a new request"))))
unfolding new_context enter_context send_taken take_unsent begin
perform_all-exit_context_example =
    perform_all-exit_context deliver from_reqwest all_bytes (λ b. b) seed context entered_context
      fresh calls calls refl

abbrev unentered : AsyncContext Text Text
unentered = record { unsent = some (text "http://a/"); response = none }

abbrev occupied : AsyncContext Text Text
occupied = record { unsent = none; response = some pending }

aenter-aexit_example :
    let (closed, last) = aexit (record occupied { response = some pending }) in
    (occupied.response ≡ some pending)
    × (closed ≡ some (aclose pending))
    × (is_closed true (aclose pending).shared ≡ true)
    × ((aexit last).0 ≡ none)
    × ((aenter deliver (py_ok tt) last).0
        ≡ py_err (
            core_err (
              stream_error (text "stream already started; call stream() again for a new request"))))
unfolding aenter send_unsent spawn fill take_unsent
aenter-aexit_example =
    aenter-aexit deliver (py_ok tt) unentered occupied pending pending (aclose pending) true refl
      refl stay

send_request-FailsAsHttp_example : FailsAsHttp (send_request unavailable client get_request true [])
send_request-FailsAsHttp_example = send_request-FailsAsHttp unavailable client get_request true []

abbrev refused : Text
refused = text "connection refused"

from_net-IsClass_example :
    IsClass Classes.request_error (from_net sample refused)
    × (Platform.is_timeout sample refused ≡ true
        → IsClass Classes.timeout_exception (from_net sample refused))
    × (Platform.is_timeout sample refused ≡ false
        → Platform.is_connect sample refused ≡ true
        → IsClass Classes.transport_error (from_net sample refused))
from_net-IsClass_example = from_net-IsClass sample refused

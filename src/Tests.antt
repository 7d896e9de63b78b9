-- ===== src/Tests.antt =====
-- The theorems at concrete inputs: query strings, response bodies and requests.
mod Streams
mod Processes
mod Json
mod Requests
mod Arguments
mod Bodies
mod Clients
mod Addresses
use rqx.Base.{
  ◌⊎◌, ℕ, ◌*◌, Text, text, text_eq, text_beq_iff, ◌==◌, Bool, true, false, Option, none, some, List,
  [], ◌∷◌, ◌++◌, map, if◌then◌else◌, list_beq, concat, ◌≡◌, ◌≢◌, ◌↔◌, refl, arith,
}
use rqx.Base.Int.{pos}
use rqx.Base.Dict.{Dict, lookup}
use rqx.Error.{RqxCoreError, err, request_error}
use rqx.QueryParams.{
  QueryPairs, FormUrlencoded, push, parse, get, get_list, set, add, remove, merge, keys, contains,
}
use rqx.QueryParams.Push.{get_list-push, get_list-parse, parse-IsGrouped, values, IsGrouped}
use rqx.QueryParams.Edit.{edits_lem}
use rqx.QueryParams.Merge.{get_list-merge}
use rqx.QueryParams.Keys.{get-get_list, keys_lem, Distinct, has, first}
use rqx.QueryParams.Equality.{eq, eq-perm}
use rqx.Streaming.Chunking.{ByteString}
use rqx.Streaming.Lines
use rqx.Streaming.Lines.{split_lines}
use mathlib.Core.List.{Perm}
use rqx.Streaming.Lines.Split.{feed_all, flushed, feed_all-split_lines}
use rqx.Streaming.LiveStream
use rqx.Streaming.LiveStream.{
  close, LiveStream, Chunk, bytes, mark_closed, closed_error, is_closed, next_chunk,
}
use rqx.Streaming.LiveStream.Closing.{
  reads, closes, All, delivered, to_come, run, run-close, next_chunk-interrupted, run-prefix,
}
use rqx.Streaming.Iterator.{iter_bytes, next}
use rqx.Streaming.Iterator.Rounds.{collect_items}
use rqx.Streaming.Iterator.Regrouped.{Regrouped}
use rqx.Streaming.Iterator.Pieces.{quiet, collect-iter_bytes}
use rqx.Url.Marks.{split_reference, composed_text}
use rqx.Url.Splitting.{written, split_reference-composed_text}
use rqx.Streaming.TextChunks.{
  IsEager, TextChunker, next_full_text, feed_text, flush_text, unread, given, IsPiece,
  unread-next_full_text,
}
use rqx.Platform.{Platform}
use rqx.Network.Counting.{Within}
use rqx.Retry.{Retry, connect, count, allows_another, allows_method}
use rqx.Retry.Budget.{no_tally, counts, bump, Fits, no_tally-Fits, count-bump}
use rqx.Transport.{send_with_retries, send}
use rqx.Transport.Permits.{Safe, send-Safe}
use rqx.Transport.Telemetry.{
  LoopPost, SinglePost, send_with_retries-LoopPost, send_with_retries-SinglePost,
}
use rqx.Redirect.{keeps_authorization, redirected_request, cookie, authorization}
use rqx.Redirect.Credentials.{IsTrusted, RemovesHeaders, redirected_request-credentials}
use rqx.Client.Cookies.{LastInJar, send_request-LastInJar}
use rqx.Client.{send_request, Client, follow_redirects}
use rqx.Client.Chain.{attempts, AnswerPost, follow_redirects-Within}
use rqx.Sample.{sample, strip, get_request, post_request, unavailable}

abbrev a : Text
a = text "a"

abbrev b : Text
b = text "b"

-- a=1&b=2&a=3
abbrev query : QueryPairs
query = record { pairs = (a, text "1") ∷ (a, text "3") ∷ (b, text "2") ∷ [] }

abbrev patch : QueryPairs
patch = record { pairs = (b, text "4") ∷ [] }

abbrev form : FormUrlencoded
form = record {
  parse_pairs = λ s. (a, text "1") ∷ (b, text "2") ∷ (a, text "3") ∷ [];
  serialize = λ ps. [];
}

edits_lem_example :
    (get_list (add query a b) a ≡ (if a == a then get_list query a ++ b ∷ [] else get_list query a))
    × (get_list (set query a b) a ≡ (if a == a then b ∷ [] else get_list query a))
    × (get_list (remove query a) a ≡ (if a == a then [] else get_list query a))
edits_lem_example = edits_lem query a b a

get_list-merge_example :
    get_list (merge query patch) b
    ≡ (if contains patch b then get_list patch b else get_list query b)
get_list-merge_example = get_list-merge query patch b

abbrev body : List ByteString
body = (1 ∷ 2 ∷ 3 ∷ []) ∷ [] ∷ (4 ∷ []) ∷ []

abbrev from_reqwest : Text → RqxCoreError
from_reqwest e = request_error e

abbrev two : Option ℕ
two = some 2

abbrev nought : Option ℕ
nought = some 0

two≢nought : two ≢ nought
two≢nought e = ground arith

collect-iter_bytes_example :
    (ps : List ByteString) × (collect_items
        (next from_reqwest quiet 5)
        5
        (iter_bytes (LiveStream.new (map bytes body)) (some 2))
      ≡ some ps)
    × Regrouped (some 2) ps (concat body)
collect-iter_bytes_example =
    collect-iter_bytes from_reqwest (some 2) body 5 5 two≢nought (omega arith) (omega arith)

feed_all-split_lines_example :
    (feed_all Lines.new ((97 ∷ 13 ∷ []) ∷ (10 ∷ 98 ∷ []) ∷ [])).0
      ++ flushed (feed_all Lines.new ((97 ∷ 13 ∷ []) ∷ (10 ∷ 98 ∷ []) ∷ [])).1
    ≡ split_lines (concat ((97 ∷ 13 ∷ []) ∷ (10 ∷ 98 ∷ []) ∷ []))
feed_all-split_lines_example = feed_all-split_lines ((97 ∷ 13 ∷ []) ∷ (10 ∷ 98 ∷ []) ∷ [])

abbrev live : LiveStream Text
live = record {
  stream = some (bytes (1 ∷ []) ∷ bytes (2 ∷ []) ∷ []);
  closed = false;
  close_signal = false;
}

abbrev shut : LiveStream Text
shut = record { stream = none; closed = true; close_signal = true }

run-close_example :
    All (λ r. r ≡ err closed_error) (run from_reqwest (close live) (reads false ∷ closes ∷ [])).0
    × ((locked : Bool)
        → is_closed locked (run from_reqwest (close live) (reads false ∷ closes ∷ [])).1 ≡ true)
run-close_example = run-close from_reqwest live (reads false ∷ closes ∷ [])

run-prefix_example :
    (rest : List ByteString) × (to_come live.stream
      ≡ delivered (run from_reqwest live (reads false ∷ closes ∷ [])).0 ++ rest)
run-prefix_example = run-prefix from_reqwest live (reads false ∷ closes ∷ [])

abbrev retry : Retry sample
retry = record {
  total = pos 2;
  connect = pos 2;
  read = pos 2;
  status = pos 2;
  backoff_factor = 0;
  backoff_max = 120;
  backoff_jitter = 0;
  status_forcelist = 503 ∷ [];
  allowed_methods = text "GET" ∷ [];
  respect_retry_after_header = true;
  raise_on_status = true;
  total_timeout = none;
}

count-bump_example :
    (count (counts no_tally) connect ≡ counts (bump no_tally connect))
    × Fits retry (bump no_tally connect)
count-bump_example =
    count-bump retry connect no_tally (omega arith) (no_tally-Fits retry)
      (unfold allows_another in refl)

send_with_retries-LoopPost_example :
    LoopPost retry
      (allows_method retry get_request.method)
      0
      0
      (send_with_retries unavailable none retry get_request [])
send_with_retries-LoopPost_example =
    send_with_retries-LoopPost unavailable none retry get_request [] (λ e. ground arith)
      (omega arith)

abbrev client : Client sample
client = record {
  semaphore = some 10;
  retries = some retry;
  redirects = record { follow = true; max_redirects = 20; raise_on_exceeded = true };
}

follow_redirects-Within_example :
    Within
      (20 * attempts client.retries)
      (AnswerPost unavailable client)
      (follow_redirects unavailable client get_request)
follow_redirects-Within_example =
    follow_redirects-Within unavailable client get_request (λ e. ground arith) (omega arith)
      (omega arith)

remove-lookup : (h : Dict Text) (name : Text) → lookup name (strip h name) ≡ none
unfolding lookup
remove-lookup [] name = refl
remove-lookup ((j, v) ∷ h) name = ground (arith, remove-lookup h name)

remove-others :
    (h : Dict Text) (name other : Text)
    → name ≢ other
    → lookup other (strip h name) ≡ lookup other h
unfolding lookup
remove-others [] name other apart = refl
remove-others ((j, v) ∷ h) name other apart =
    ground (arith, text_beq_iff j name, text_beq_iff j other, remove-others h name other apart)

sample-RemovesHeaders : RemovesHeaders sample
sample-RemovesHeaders = record { removed = remove-lookup; others = remove-others }

redirected_request-credentials_example :
    (Platform.get_header sample
        (redirected_request sample get_request 302 (text "http://b/")).headers
        cookie
      ≡ none)
    × ((IsTrusted sample get_request.url (text "http://b/")
          × (Platform.get_header sample
                (redirected_request sample get_request 302 (text "http://b/")).headers
                authorization
              ≡ Platform.get_header sample get_request.headers authorization))
        ⊎ ((IsTrusted sample get_request.url (text "http://b/") → ⊥)
            × (Platform.get_header sample
                  (redirected_request sample get_request 302 (text "http://b/")).headers
                  authorization
                ≡ none)))
redirected_request-credentials_example =
    redirected_request-credentials sample sample-RemovesHeaders get_request 302 (text "http://b/")

abbrev chunker : TextChunker
chunker = record { size = some 2; pending = 1 ∷ 2 ∷ 3 ∷ 4 ∷ []; consumed = 1 }

unread-next_full_text_example :
    (given (next_full_text chunker).0 ++ unread (next_full_text chunker).1 ≡ unread chunker)
    × IsPiece chunker.size (next_full_text chunker).0
    × IsEager chunker.size (unread chunker) (next_full_text chunker).0
    × (unread (feed_text chunker a) ≡ unread chunker ++ a)
    × (given (flush_text chunker).0 ≡ unread chunker)
    × (unread (flush_text chunker).1 ≡ [])
unread-next_full_text_example = unread-next_full_text chunker a

send-Safe_example : Safe [] (send unavailable (some 10) (some retry) get_request []).1
send-Safe_example = send-Safe unavailable 10 (some retry) get_request []

send_request-LastInJar_example :
    LastInJar ((a, b) ∷ []) (send_request unavailable client get_request true [])
send_request-LastInJar_example =
    send_request-LastInJar unavailable client get_request true ((a, b) ∷ []) []

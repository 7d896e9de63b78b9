-- ===== src/Lib.antt =====
-- Models of rqx, a Python HTTP client written in Rust, and the theorems on them.
--
-- The program has a core (crates/rqx-core/src) and a Python binding (crates/rqx/src). A request goes
-- through `Client::send`, which follows redirects when asked; each hop goes through
-- `Transport::send`, which retries it; the response comes back with its body unread, and is either
-- buffered or read piece by piece through a `LiveStream` that its iterators share.
--
--   Transport, Retry     crates/rqx-core/src/transport.rs and retry.rs: `Transport.send`, `send_raw`,
--                        `execute` and `send_with_retries`, whose loop body is `turn` (the timeout,
--                        the pause, the drain, the attempt and the reading of its reply); `Retry.count`
--                        is `RetryCounts::record`. Retry.Budget sets the counters against the limits.
--   Client, Redirect     client.rs and redirect.rs: `send_request` is `Client::send`, `hop_once` the
--                        body of the loop in `follow_redirects`; `redirected_request` builds the next
--                        hop's request.
--   Client.Building      request.rs, request_components/body.rs, and `Client::build`, `request` and
--                        `stream`; reqwest's builder is a parameter (`Reqwest`).
--   Network              what this asynchronous code does to the world. A computation reads the events
--                        so far and adds its own: the clock, sleeping, permits, requests, drained
--                        bodies, cookies stored in the jar. What the clock, the random numbers and the
--                        network answer is a function of the events, a parameter (`Env`).
--                        Network.Discipline and Transport.Traversal carry a property of computations
--                        through the whole of `send`.
--   Transport.Configuration, Tls
--                        the builder of reqwest's client and `Transport::new` in transport.rs, and
--                        http/tls.rs and http/proxy.rs with crates/rqx/src/http/tls.rs; the builder,
--                        the files and the parsers of certificates are parameters.
--   Response, Error      response.rs, and error.rs with the classification of a `reqwest::Error`
--                        (Error.Convert). Response.Body has the encodings, the JSON of a body and the
--                        position of a JSON error; Response.Object is crates/rqx/src/response.rs.
--   Headers              headers.rs, with crates/rqx/src/headers.rs and request_headers.rs
--                        (Headers.Python); `http::HeaderMap` is a parameter with its laws.
--   QueryParams          query_params.rs: the ordered multi-map, one function for each method;
--                        QueryParams.Binding is crates/rqx/src/query_params.rs, the `params=` argument
--                        and the mapping that Python sees.
--   PyClient, PyTransport
--                        crates/rqx/src/client.rs, transport.rs, redirect.rs and timeout.rs: both
--                        clients' constructor (`construct`, with Fresh for the transport that it
--                        makes), their calls (Sync and Async), and the options that pyo3 has
--                        converted.
--   Streaming            streaming/chunking.rs (Chunking, TextChunks), streaming/decoding.rs (Lines),
--                        streaming/live_stream.rs (LiveStream) and the iterators of
--                        crates/rqx/src/stream.rs (Iterator for bytes, with TextPieces and LineByLine
--                        below it), sync and async, whose `round` is one round of the loop in
--                        `__next__` and `__anext__`.
--   StreamResponse       crates/rqx/src/stream.rs and crates/rqx-core/src/streaming/body.rs: the body
--                        of a streamed response. Phases is the machine that its calls implement; in
--                        Async each constructor of `Step` is one critical section of a task.
--   StreamContext        crates/rqx/src/stream_context.rs: `enter_context` and `exit_context` are
--                        `__enter__` and `__exit__`, `aenter` and `aexit` the awaited ones.
--   Runtime              crates/rqx/src/runtime.rs: the threads' moves on `current`, `closed` and the
--                        slots, one relation each for `handle`, `build`, `retract` and `shutdown`.
--   Exceptions           crates/rqx/src/exceptions.rs: the class tree and the class of every error.
--   PyJson               crates/rqx/src/py_json.rs: the `json=` argument, encoded from a heap of
--                        Python objects.
--   Url                  url/reference.rs (Marks for the splitting of a text, Reference, Joining for
--                        `join` and the copies), url/components.rs (Components), url/base_url.rs and
--                        the client's `merge_url` (BaseUrl).
--   HttpConfig           auth.rs, timeout.rs, http/protocol.rs and the slot of streaming/context.rs.
--   Base                 the shared names: tests, lists, text, `i32` and dictionaries.
--   Platform             floating-point numbers and the `http`, `url` and `reqwest` crates, as a
--                        record of the types and functions that the core uses.
--   Sample, Tests        a small platform, and the theorems at concrete inputs.
--
-- Numbers are natural numbers; an `i32` is an integer whose increment wraps, a `u32` sum is taken
-- modulo 2 ^ 32, a subtraction on `usize` wraps as in a release build. Text is a list of code points.
-- A `HashMap` of cookies is an association list, a `HashSet` a list that is asked for membership.
--
-- Loops on fuel: the retry loop has one turn more than the total limit, the redirect loop
-- `max 1 max_redirects` turns, the JSON encoder one call more than its depth limit; the theorems on
-- them show that none runs out. The loops of the iterators take their fuel as an argument, and their
-- theorems say how much is enough. The loop of `Runtime::build` is a relation, so it has no fuel.
--
-- A limit of 0 connections is a semaphore that never gives a permit: `execute` then has no end, which is
-- the failure `starved`, as spent fuel is, and the theorems that promise an end exclude it. From any
-- other semaphore a permit is taken to come, as the requests that hold one end.
--
-- Not modelled: decoding of text, which is `encoding_rs`; cancellation of a request in flight; the
-- adapter of the runtime for pyo3-async-runtimes (`Bridge`); `value_to_py`, which makes Python objects
-- of a JSON value; the conversions that pyo3 does before a method of the clients runs; the remaining
-- Python wrappers (URLs, retries), whose methods hand each call on to the core, and the
-- representations of options (py_utils/repr.rs).
pub mod Base
pub mod Client
pub mod Error
pub mod Platform
pub mod Headers
pub mod HttpConfig
pub mod Exceptions
pub mod PyJson
pub mod Runtime
pub mod StreamResponse
pub mod StreamContext
pub mod Network
pub mod Response
pub mod Redirect
pub mod Retry
pub mod QueryParams
pub mod Sample
pub mod Streaming
pub mod Tests
pub mod Tls
pub mod PyTransport
pub mod PyClient
pub mod Transport
pub mod Url

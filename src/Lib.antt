-- ===== src/Lib.antt =====
-- Guardian LLM provider gateway: the way of a request through the proxy to a language model and back.
--
-- The program. A request reaches the proxy with an API key; `app/proxy/auth.py` finds the key's
-- entry, `app/proxy/scopes.py` says which routes the entry opens, `app/proxy/admission.py` bounds
-- the request's body, its rate and the depth of the queue, and `app/proxy/queue.py` makes it wait
-- for one of the local backend's slots. A request to a cloud model goes to the first candidate that
-- `app/proxy/failover.py` orders, and `app/proxy/ratelimit.py` tries it again on a 429.
-- `app/gateway/degeneration.py` cuts off an answer that repeats itself.
-- `app/upstream_url.py` and `app/destination_policy.py` bound where a request may be sent,
-- `app/proxy/anthropic_bridge.py` translates a streamed answer for Anthropic's clients,
-- `app/capture` writes what was said to a log, and `app/gateway/backend_death.py` reports the
-- deaths of the local backend.
--
-- The files.
--   Prelude    names of the libraries and helpers on lists, texts, options and results.
--   Dict       Python's dict as an association list in the order of insertion.
--   Value      a parsed JSON or YAML value, with `dict.get`, `isinstance` and truth.
--   QueueEntry the tracked request of queue.py; Queue its state and operations; Queue.Turn the
--              round of the wait loop, and the runs of the event loop; Queue.Payloads what is shown
--              of them. Invariant, Changes, Runs, Order, Progress, Lifecycle, Submission and Privacy
--              hold their proofs, Tests runs on concrete requests.
--   Scopes     the scopes of a key in scopes.py; Scopes.Routes the table of routes; Scopes.Mint the
--              minting of a key. Grants, Names, Envelope and Minting hold their proofs.
--   Admission  the limits of admission.py and their resolution; Admission.Refusals the typed
--              errors; Admission.RateLimiter the token bucket and its gate; Admission.Body the
--              middleware that bounds a body. Limits, Rates, RateBound, Bodies, Replay and
--              Enforcement hold their proofs.
--   Auth       the gate of every request in auth.py, over Scopes and Admission; Auth.Gate holds its
--              proofs.
--   Failover   the circuit breaker and the order of candidates in `app/proxy/failover.py`. Breaker
--              and Candidates hold its proofs.
--   RateLimit  the retries of a cloud request in `app/proxy/ratelimit.py`; RateLimit.Execution
--              its loop, on fuel: `max_retries` + 1, which is always enough. RateLimit.Ending says
--              how a request ends, and Retry holds the proofs.
--   AnthropicBridge  the streamed translation of OpenAI chunks to Anthropic events in
--              `app/proxy/anthropic_bridge.py`; AnthropicBridge.Stream has its parts, over the
--              record Translation of its local variables, and Generator its loop. Protocol states
--              what a client expects; Blocks, Invariant, Parts, Closing, ToolCalls, Messages and
--              Accepted prove that it gets it; Said, Content and Faithful compare what is said;
--              Interleaved is about thinking after text.
--   BackendDeath  the death signal of the caretaker in `app/gateway/backend_death.py`, and the crash
--              history of `app/engine/manager.py`. BackendDeath.Observer is the observer, Runs its runs
--              beside the other writers; Recorded, Newest, Polling, Remembered and Shown
--              hold its proofs.
--   Capture    the queue of capture events in `app/capture/sink.py`; Capture.Writer is the writer of
--              `app/capture/wal_writer.py` with its files, Retention what it removes, Runs the
--              requests, its loop and the drain. Files states what is to be on the disk; Lines,
--              Recovery, Kept, Ages, Retained, Orderly, Settings and Stored hold the proofs.
--   UpstreamUrl  the bound on the part of an upstream URL that a request gives, in
--              `app/upstream_url.py`. Decoding, Segments and Confined hold its proofs.
--   DestinationPolicy  the allowlist of outbound destinations in `app/destination_policy.py`;
--              DestinationPolicy.Checks has the check of a request. Structured, Approved, Required
--              and Outcome hold its proofs.
--   Degeneration  the detector of repetitions in `app/gateway/degeneration.py`. Slices, Counting,
--              Loops and Stream hold its proofs.
--
-- The names. Functions keep theirs, without a leading underscore and `_locked`. `wait_for_turn` is
-- one round of the loop and `run` a schedule of calls and rounds. `_check` of the token bucket is
-- `check_window`; the `__call__` of the body middleware is `limit_body`, that of the replayed receive
-- `replay_receive`; `_request_scope` is `enter_scope` and `leave_scope`, `_backoff_seconds` is
-- `backoff`, and `load_api_keys` with the lookup is `load_api_key`. The records InferenceQueue,
-- QueueEntry, RateLimiter (TokenBucketRateLimiter), HealthTracker (ProviderHealthTracker) and
-- RateLimitState (_RateLimitState) stand for the classes.
-- Of the bridge, `translate_openai_stream_to_anthropic` is `translate_stream`, and the rounds of
-- `_iter_with_pings` are the data type Read.
-- Of the capture, `_write_event_sync` is `write_line`, `_rotate_file_sync` with
-- `_recover_failed_rotation` is `rotate_file`, `_enforce_retention_sync` is `enforce_retention`, and the
-- parts of `_run` are `consume` and `finish_run`. What the disk does in a write, a rotation or a sweep is
-- an argument, Attempt, Rotation or Sweep. A completed file stands with what it holds uncompressed.
--
-- The state. A function that changes an object returns the new object beside its result; a raised
-- exception is a result of its own. The lock of the queue is never held across a suspension, so
-- calls and rounds of the wait loop are atomic and a run of the event loop is a list of them, each
-- with its time in milliseconds. Waking is a count of changes: the event is set and replaced.
--
-- Not modelled: logging, sleeping, the disk and the network. Times are natural numbers of
-- milliseconds, where the program has floats of seconds, and the tokens of a bucket are counted
-- in 1/60000, so that a millisecond refills a whole number of them; `datetime.fromisoformat`,
-- the percent-encodings of urllib.parse, `httpx.URL`, `urlsplit`, `ipaddress`, the resolver,
-- the fingerprint of a key and the seconds of a retry hint are parameters. An ASGI channel is
-- the list of the messages that it delivers, and a read that waits for more has no result. The
-- audit, the metrics and the texts of messages are left out.
mod Prelude
pub mod Dict
pub mod Value
pub mod QueueEntry
pub mod Queue
pub mod Scopes
pub mod Admission
pub mod Failover
pub mod RateLimit
pub mod Auth
pub mod Degeneration
pub mod AnthropicBridge
pub mod BackendDeath
pub mod Capture
pub mod UpstreamUrl
pub mod DestinationPolicy

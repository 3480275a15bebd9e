-- ===== src/Admission/Body.antt =====
-- app/proxy/admission.py: the bound on the body of a request, before a handler reads it.
use guardian_llmprovider_gat.Prelude.{
  ℕ, zero, suc, ◌+◌, ◌-◌, ◌*◌, String, Bool, true, false, not, ◌&&◌, ◌||◌, Option, none, some, List,
  [], ◌∷◌, ◌++◌, ltb, leb, ◌==◌, if◌then◌else◌, length, strip, lowers_to, str_eq,
}
use Prim.Native.Char.{code}
use guardian_llmprovider_gat.Admission.{body, AdmissionLimits}
use guardian_llmprovider_gat.Admission.Refusals.{Refusal, misconfigured, body_too_large}

-- Bytes as numbers; the header's names and values as texts of their Latin-1 characters.
abbrev pub Bytes : Type 0
Bytes = List ℕ

-- A message of the ASGI channel: a part of the body, or another, by its type.
pub data Message : Type 0 where
  http_request : Option Bytes → (more_body : Bool) → Message
  other_message : String → Message

-- `int` refuses a text of more digits.
abbrev max_digits : ℕ
max_digits = 4300

is_digit : ℕ → Bool
is_digit c = leb b'0' c && leb c b'9'

-- Digits, with single underscores between them: `between` says that an underscore may follow.
read_digits : (between : Bool) (value count : ℕ) → String → Option ℕ
read_digits between value count String.[] =
    if between && leb count max_digits then some value else none
read_digits between value count (String.◌∷◌ c s) =
    let digit = read_digits true (value * 10 + (code c - b'0')) (suc count) s in
    let gap = read_digits false value count s in
    if is_digit (code c) then digit else if between && code c == b'_' then gap else none

-- The value that is not below 0.
negated : Option ℕ → Option ℕ
negated (some zero) = some 0
negated _ = none

-- `int(value.strip())`, as the length that it declares: `none` for an error and below 0.
unfoldable pub content_length : String → Option ℕ
unfolding read_digits is_digit negated strip
content_length value = go (strip value)
  where
    go : String → Option ℕ
    go String.[] = none
    go (String.◌∷◌ c s) =
        if code c == b'-'
        then negated (read_digits false 0 0 s)
        else if code c == b'+'
        then read_digits false 0 0 s
        else read_digits false 0 0 (String.◌∷◌ c s)

-- The first `Content-Length` decides, readable or not.
unfoldable pub declared_length : List (String × String) → Option ℕ
unfolding content_length lowers_to
declared_length [] = none
declared_length ((name, value) ∷ headers) =
    if lowers_to name "content-length" then content_length value else declared_length headers

unfoldable pub has_transfer_encoding : List (String × String) → Bool
unfolding lowers_to
has_transfer_encoding [] = false
has_transfer_encoding ((name, value) ∷ headers) =
    lowers_to name "transfer-encoding" || has_transfer_encoding headers

pub record ReadBody : Type 0 where
  pub read : Bytes
  pub seen : ℕ
  pub overflow : Bool
  pub tail : List Message
  pub finished : Bool

abbrev pub or_empty : Option Bytes → Bytes
or_empty none = []
or_empty (some b) = b

-- The loop of `_read_bounded_body`, with what the channel has left: `none` while it waits for a
-- message that the channel does not have yet.
unfoldable pub read_bounded : ℕ → Bytes → ℕ → List Message → Option (ReadBody × List Message)
read_bounded limit_bytes buffer seen [] = none
read_bounded limit_bytes buffer seen (other_message t ∷ channel) = some (
  record {
    read = buffer;
    seen = seen;
    overflow = false;
    tail = other_message t ∷ [];
    finished = false;
  },
  channel,
)
read_bounded limit_bytes buffer seen (http_request part more_body ∷ channel) =
    let chunk = or_empty part in
    let seen' = seen + length chunk in
    let rest = read_bounded limit_bytes (buffer ++ chunk) seen' channel in
    if ltb limit_bytes seen'
    then some
        (record { read = []; seen = seen'; overflow = true; tail = []; finished = false }, channel)
    else if not more_body
    then some (
      record { read = buffer ++ chunk; seen = seen'; overflow = false; tail = []; finished = true },
      channel,
    )
    else rest

unfoldable pub read_bounded_body : ℕ → List Message → Option (ReadBody × List Message)
unfolding read_bounded
read_bounded_body limit_bytes channel = read_bounded limit_bytes [] 0 channel

pub record ReplayReceive : Type 0 where
  pub replayed : Bytes
  pub pending : List Message
  pub sent : Bool
  pub complete : Bool

abbrev pub replay_of : ReadBody → ReplayReceive
replay_of b = record { replayed = b.read; pending = b.tail; sent = false; complete = b.finished }

-- A call of the channel, as a handler makes it.
unfoldable pub receive : List Message → Option (Message × List Message)
receive [] = none
receive (m ∷ channel) = some (m, channel)

abbrev pass_on :
    ReplayReceive
    → Option (Message × List Message)
    → Option (Message × ReplayReceive × List Message)
pass_on r none = none
pass_on r (some (m, channel)) = some (m, r, channel)

-- `_ReplayReceive.__call__`
unfoldable pub replay_receive :
    ReplayReceive → List Message → Option (Message × ReplayReceive × List Message)
unfolding receive
replay_receive r channel =
    if not r.sent
    then some (http_request (some r.replayed) (not r.complete), record r { sent = true }, channel)
    else elim r.pending [
      | m ∷ ms ↦ some (m, record r { pending = ms }, channel)
      | [] ↦ pass_on r (receive channel)
    ]

-- What the middleware does with a request: it hands it on with the channel as it is, or with a
-- replay of the body, refuses it, or still waits for the body.
pub data Handling : Type 0 where
  handed_on : List Message → Handling
  replayed_on : ReplayReceive → List Message → Handling
  refused : Refusal → Handling
  waiting : Handling

abbrev pub is_over : ℕ → Option ℕ → Bool
is_over limit_bytes none = false
is_over limit_bytes (some n) = ltb limit_bytes n

unfoldable pub after_read : ℕ → Option (ReadBody × List Message) → Handling
after_read limit_bytes none = waiting
after_read limit_bytes (some (b, channel)) =
    if b.overflow
    then refused (body_too_large limit_bytes none (some b.seen))
    else replayed_on (replay_of b) channel

abbrev pub is_none : Option ℕ → Bool
is_none none = true
is_none (some n) = false

unfoldable pub bounded_call : ℕ → List (String × String) → List Message → Handling
unfolding declared_length has_transfer_encoding read_bounded_body after_read
bounded_call limit_bytes headers channel =
    let declared = declared_length headers in
    let chunked = has_transfer_encoding headers in
    if not chunked && is_over limit_bytes declared
    then refused (body_too_large limit_bytes declared none)
    else if chunked || is_none declared
    then after_read limit_bytes (read_bounded_body limit_bytes channel)
    else handed_on channel

-- `BodySizeLimitMiddleware.__call__`: `none` is the failure of the assertion that there is a bound.
unfoldable pub limit_body :
    AdmissionLimits → (type : String) → List (String × String) → List Message → Option Handling
unfolding bounded_call
limit_body limits type headers channel =
    if not (str_eq type "http")
    then some (handed_on channel)
    else elim (limits.invalid_reason body) [
      | some e ↦ some (refused (misconfigured body e))
      | none ↦ elim limits.max_body_bytes [
        | none ↦ none
        | some limit_bytes ↦ some (bounded_call limit_bytes headers channel)
      ]
    ]

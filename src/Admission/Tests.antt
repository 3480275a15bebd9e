-- ===== src/Admission/Tests.antt =====
-- The theorems about admission at concrete inputs.
use guardian_llmprovider_gat.Prelude.{
  ok, err, ℕ, ◌+◌, ◌*◌, ◌≤◌, max, String, ◌≡◌, ◌+◌, ◌-◌, ◌/◌, ◌↔◌, ◌⊎◌, refl, true, false, Option,
  none, some, List, [], ◌∷◌, arith, ltb, Result, strip, lowers_to,
}
use guardian_llmprovider_gat.Value.{Value, int, pos, text, mapping, Fields, field, get}
use guardian_llmprovider_gat.Dict.{lookup, insert, retain}
use guardian_llmprovider_gat.Admission.{
  queue_retry, Limit, queue_depth, rate, Reason, parse_limits, limit_value, body, coerce_bound,
  wrong_type,
}
use guardian_llmprovider_gat.Admission.Refusals.{
  check_queue_admission, queue_depth_error, retry_after, Refusal, misconfigured,
}
use guardian_llmprovider_gat.Admission.RateLimiter.{
  RateLimiter, new_limiter, check, enforce_rate_limit, one_token,
}
use guardian_llmprovider_gat.Admission.Body.{
  Message, http_request, other_message, ReadBody, read_bounded_body, bounded_call, declared_length,
  has_transfer_encoding, content_length, replayed_on,
}
use guardian_llmprovider_gat.Admission.Limits.{InForce, Asks, parse_limits-InForce}
use guardian_llmprovider_gat.Admission.RateBound.{allowed, rate_bound}
use guardian_llmprovider_gat.Admission.Bodies.{
  Sends, ends, continues, breaks, ReadOf, read_bounded_body-ReadOf,
}
use guardian_llmprovider_gat.Admission.Replay.{
  received, is_refused, judged_size, bounded_call-refuses, bounded_call-Sends,
}
use guardian_llmprovider_gat.Admission.Enforcement.{
  check_queue_admission-outcome, Misconfigured, Asked, enforce_rate_limit-outcome,
}

-- A depth of 8, and a rate that is no number.
abbrev section : Option Value
section = some (
    mapping (
      field "queue_max_depth" (int (pos 8)) (
        field "rate_limit" (mapping (field "requests_per_minute" (text "60") Fields.end))
          Fields.end)))

abbrev limits_of : Limit → Option ℕ × Option Reason
unfolding parse_limits get coerce_bound
limits_of l = (limit_value (parse_limits section) l, (parse_limits section).invalid_reason l)

section_limits :
    (limits_of queue_depth ≡ (some 8, none))
    × (limits_of body ≡ (some 33554432, none))
    × (limits_of rate ≡ (none, some wrong_type))
unfolding limits_of
section_limits = (refl, refl, refl)

parse_limits-InForce_example :
    (InForce (parse_limits section) queue_depth 8 ↔ Asks section queue_depth 8)
    × (((m : ℕ) × InForce (parse_limits section) queue_depth m)
        ⊎ ((e : Reason) × ((parse_limits section).invalid_reason queue_depth ≡ some e)))
parse_limits-InForce_example = parse_limits-InForce section queue_depth 8

-- A limiter of one request a second, with a burst of two.
abbrev exact_seconds : (missing per_second : ℕ) → ℕ
exact_seconds missing per_second = (missing + (per_second - 1)) / per_second

abbrev fresh : RateLimiter
fresh = new_limiter exact_seconds

abbrev slow : RateLimiter
slow = record fresh { requests_per_minute = 60; burst = 2 }

abbrev four : List (ℕ × String)
four = (0, "a") ∷ (10, "b") ∷ (20, "a") ∷ (500, "a") ∷ []

abbrev passed : RateLimiter → ℕ
unfolding check lookup insert retain
passed limiter = allowed "a" four limiter

two_pass : passed slow ≡ 2
unfolding passed
two_pass = refl

rate_bound_example :
    allowed "a" four slow * one_token ≤ 2 * one_token + 500 * max slow.requests_per_minute 1
rate_bound_example =
    rate_bound 0 500 "a" four slow
      (omega arith, (omega arith, (omega arith, (omega arith, omega arith))))

-- The limiter with an empty bucket for `a`.
abbrev empty : RateLimiter
empty = record slow { buckets = ("a", record { tokens = 0; updated_at = 500 }) ∷ [] }

refused_at_500 : (check 500 "a" empty).0 ≡ (false, 1)
unfolding passed
refused_at_500 = refl

enforce_rate_limit-outcome_example :
    (result : Result Refusal (Unit {0})) × (after : RateLimiter) × (enforce_rate_limit 0
        (parse_limits none)
        (some "a")
        fresh
      ≡ some (result, after))
    × (Misconfigured fresh after result ⊎ Asked 0 (parse_limits none) (some "a") fresh after result)
enforce_rate_limit-outcome_example = enforce_rate_limit-outcome 0 none (some "a") fresh

-- Two parts of a body, and one that breaks off.
abbrev parts : List Message
parts = http_request (some (1 ∷ 2 ∷ [])) true ∷ http_request (some (3 ∷ [])) false ∷ []

abbrev broken_off : List Message
broken_off = http_request (some (1 ∷ 2 ∷ [])) true ∷ other_message "http.disconnect" ∷ []

parts-Sends : Sends parts (1 ∷ 2 ∷ 3 ∷ []) true
parts-Sends = continues (some (1 ∷ 2 ∷ [])) _ (3 ∷ []) true (ends (some (3 ∷ [])) [])

broken_off-Sends : Sends broken_off (1 ∷ 2 ∷ []) false
broken_off-Sends = continues (some (1 ∷ 2 ∷ [])) _ [] false (breaks "http.disconnect" [])

read_bounded_body-ReadOf_example :
    (r : ReadBody) × (rest : List Message) × (read_bounded_body 2 parts ≡ some (r, rest))
    × ReadOf 2 (1 ∷ 2 ∷ 3 ∷ []) true r
read_bounded_body-ReadOf_example =
    read_bounded_body-ReadOf 2 parts (1 ∷ 2 ∷ 3 ∷ []) true parts-Sends

abbrev small : List (String × String)
small = ("content-length", " 1_0 ") ∷ ("Transfer-Encoding", "chunked") ∷ []

abbrev lengths : String → Option ℕ
unfolding content_length strip lowers_to declared_length has_transfer_encoding bounded_call
lengths t = content_length t

declared_lengths :
    (lengths " 1_0 " ≡ some 10)
    × (lengths "-1" ≡ none)
    × (lengths "-0" ≡ some 0)
    × (lengths "1__0" ≡ none)
unfolding lengths
declared_lengths = (refl, refl, refl, refl)

bounded_call-refuses_example :
    is_refused (bounded_call 2 small parts) ≡ ltb 2 (judged_size small (1 ∷ 2 ∷ 3 ∷ []))
bounded_call-refuses_example = bounded_call-refuses 2 small parts (1 ∷ 2 ∷ 3 ∷ []) true parts-Sends

broken_replay :
    bounded_call 2 [] broken_off
    ≡ replayed_on
        (record {
          replayed = 1 ∷ 2 ∷ [];
          pending = other_message "http.disconnect" ∷ [];
          sent = false;
          complete = false;
        })
        []
unfolding lengths
broken_replay = refl

bounded_call-Sends_example :
    Sends
      (received 2
        (record {
          replayed = 1 ∷ 2 ∷ [];
          pending = other_message "http.disconnect" ∷ [];
          sent = false;
          complete = false;
        })
        [])
      (1 ∷ 2 ∷ [])
      false
    × (2 ≤ 2)
bounded_call-Sends_example =
    bounded_call-Sends 2 0 [] broken_off [] (1 ∷ 2 ∷ []) false _ broken_off-Sends broken_replay

check_queue_admission-outcome_example :
    ((e : Reason) × (check_queue_admission (parse_limits section)
        ≡ err (misconfigured queue_depth e)))
    ⊎ ((n m : ℕ) × InForce (parse_limits section) queue_depth n
        × InForce (parse_limits section) queue_retry m
        × (check_queue_admission (parse_limits section) ≡ ok tt)
        × (retry_after (queue_depth_error (parse_limits section) (some 8) 8 1 "queue_full")
            ≡ some m))
check_queue_admission-outcome_example = check_queue_admission-outcome section (some 8) 8 1

-- ===== src/Admission/Refusals.antt =====
-- app/proxy/admission.py: the typed errors, and the refusal of a submission to the queue.
use guardian_llmprovider_gat.Prelude.{
  ℕ, String, Option, none, some, if◌then◌else◌, Result, ok, err, str_eq,
}
use guardian_llmprovider_gat.Admission.{Limit, queue_depth, Reason, AdmissionLimits}

-- The HTTP errors of the bounds: their status, body and `Retry-After`.
pub data Refusal : Type 0 where
  misconfigured : Limit → Reason → Refusal
  depth_unconfigured : Refusal
  queue_full : (max_depth length max_concurrent : ℕ) (retry_after_s : Option ℕ) → Refusal
  rate_limited : (requests_per_minute burst_size retry_after_s : ℕ) → Refusal
  body_too_large : (limit_bytes : ℕ) (declared observed : Option ℕ) → Refusal

abbrev pub http_status : Refusal → ℕ
http_status (rate_limited r b s) = 429
http_status (body_too_large l d o) = 413
http_status _ = 503

abbrev pub retry_after : Refusal → Option ℕ
retry_after (queue_full d l c s) = s
retry_after (rate_limited r b s) = some s
retry_after _ = none

unfoldable pub queue_full_retry_after : AdmissionLimits → Option ℕ
queue_full_retry_after limits = elim (limits.invalid_reason queue_depth) [
  | some e ↦ none
  | none ↦ limits.queue_full_retry_after_s
]

unfoldable pub check_queue_admission : AdmissionLimits → Result Refusal (Unit {0})
check_queue_admission limits = elim (limits.invalid_reason queue_depth) [
  | some e ↦ err (misconfigured queue_depth e)
  | none ↦ ok tt
]

abbrev or_zero : Option ℕ → ℕ
or_zero none = 0
or_zero (some n) = n

-- The refusal of a submission that raised `QueueDepthExceeded`, by its fields.
unfoldable pub queue_depth_error :
    AdmissionLimits → Option ℕ → (queue_length max_concurrent : ℕ) → String → Refusal
unfolding queue_full_retry_after
queue_depth_error limits max_depth length concurrent reason =
    if str_eq reason "admission_misconfigured"
    then elim (limits.invalid_reason queue_depth) [
      | some e ↦ misconfigured queue_depth e
      | none ↦ depth_unconfigured
    ]
    else queue_full (or_zero max_depth) length concurrent (queue_full_retry_after limits)

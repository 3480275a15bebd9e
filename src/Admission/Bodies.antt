-- ===== src/Admission/Bodies.antt =====
-- app/proxy/admission.py: proofs about `_read_bounded_body`.
use guardian_llmprovider_gat.Prelude.{
  append_assoc, append_nil, ℕ, ◌+◌, ◌≤◌, ◌<◌, String, ◌≡◌, ◌⊎◌, refl, sym, subst, Bool, true, false,
  Option, some, ltb→lt, List, [], ◌∷◌, ◌++◌, arith, Bool-cases, inl, inr, ltb, length,
  length-append,
}
use guardian_llmprovider_gat.Admission.Body.{
  Bytes, Message, http_request, other_message, ReadBody, read_bounded, read_bounded_body, or_empty,
}

-- The body that the messages of a channel make up, and whether they come to its end.
pub data Sends : List Message → Bytes → Bool → Type 0 where
  breaks : (t : String) (channel : List Message) → Sends (other_message t ∷ channel) [] false
  ends :
      (part : Option Bytes) (channel : List Message)
      → Sends (http_request part false ∷ channel) (or_empty part) true
  continues :
      (part : Option Bytes) (channel : List Message) (b : Bytes) (finished : Bool)
      → Sends channel b finished
      → Sends (http_request part true ∷ channel) (or_empty part ++ b) finished

-- What is read of a body of these bytes, under a bound.
abbrev pub ReadOf : ℕ → Bytes → Bool → ReadBody → Type 0
ReadOf limit_bytes b finished r =
    (length r.read ≤ limit_bytes)
    × (((length b ≤ limit_bytes)
          × (r.overflow ≡ false)
          × (r.read ≡ b)
          × (r.seen ≡ length b)
          × (r.finished ≡ finished))
        ⊎ ((limit_bytes < length b)
            × (r.overflow ≡ true)
            × (limit_bytes < r.seen)
            × (r.seen ≤ length b)))

abbrev pub crossing : ℕ → ReadBody
crossing seen = record { read = []; seen = seen; overflow = true; tail = []; finished = false }

abbrev pub kept : ℕ → Bytes → Bool → List Message → ReadBody
kept seen b finished tail = record {
  read = b;
  seen = seen;
  overflow = false;
  tail = tail;
  finished = finished;
}

-- The bound is passed with this part of the body.
crossing-ReadOf :
    (limit_bytes seen : ℕ) (b : Bytes) (finished : Bool)
    → limit_bytes < seen
    → seen ≤ length b
    → ReadOf limit_bytes b finished
        (record { read = []; seen = seen; overflow = true; tail = []; finished = false })
crossing-ReadOf limit_bytes seen b finished h k = (omega arith, inr (omega arith, refl, h, k))

kept-ReadOf :
    (limit_bytes seen : ℕ) (b : Bytes) (finished : Bool) (tail : List Message)
    → seen ≡ length b
    → seen ≤ limit_bytes
    → ReadOf limit_bytes b finished
        (record { read = b; seen = seen; overflow = false; tail = tail; finished = finished })
kept-ReadOf limit_bytes seen b finished tail e h =
    (omega arith, inl (omega arith, refl, refl, e, refl))

read_bounded-ReadOf :
    (limit_bytes : ℕ) (buffer : Bytes) (seen : ℕ) (channel : List Message) (b : Bytes)
    (finished : Bool)
    → seen ≡ length buffer
    → seen ≤ limit_bytes
    → Sends channel b finished
    → (r : ReadBody) × (rest : List Message) × (read_bounded limit_bytes buffer seen channel
        ≡ some (r, rest))
      × ReadOf limit_bytes (buffer ++ b) finished r
unfolding read_bounded
read_bounded-ReadOf limit_bytes buffer seen _ _ _ e h (breaks t channel) = (
  kept seen buffer false (other_message t ∷ []),
  channel,
  refl,
  subst (λ c. ReadOf limit_bytes c false (kept seen buffer false (other_message t ∷ [])))
      (sym (append_nil buffer))
      (kept-ReadOf limit_bytes seen buffer false (other_message t ∷ []) e h),
)
read_bounded-ReadOf limit_bytes buffer seen _ _ _ e h (ends part channel) =
    let chunk = or_empty part in
    let total : seen + length chunk ≡ length (buffer ++ chunk) =
      omega (arith, length-append buffer chunk) in
    elim (Bool-cases (ltb limit_bytes (seen + length chunk))) [
      | inl x ↦ (
        crossing (seen + length chunk),
        channel,
        rw x refl,
        crossing-ReadOf limit_bytes (seen + length chunk) (buffer ++ chunk) true (ltb→lt _ _ x)
            (omega arith),
      )
      | inr x ↦
          let within : seen + length chunk ≤ limit_bytes = ground arith in
          (
            kept (seen + length chunk) (buffer ++ chunk) true [],
            channel,
            rw x refl,
            kept-ReadOf limit_bytes (seen + length chunk) (buffer ++ chunk) true [] total within,
          )
    ]
read_bounded-ReadOf limit_bytes buffer seen _ _ finished e h (continues part channel b _ s) =
    let chunk = or_empty part in
    let total : seen + length chunk ≡ length (buffer ++ chunk) =
      omega (arith, length-append buffer chunk) in
    elim (Bool-cases (ltb limit_bytes (seen + length chunk))) [
      | inl x ↦ (
        crossing (seen + length chunk),
        channel,
        rw x refl,
        crossing-ReadOf limit_bytes (seen + length chunk) (buffer ++ (chunk ++ b)) finished
            (ltb→lt _ _ x)
            (omega (arith, length-append buffer (chunk ++ b), length-append chunk b)),
      )
      | inr x ↦
          let within : seen + length chunk ≤ limit_bytes = ground arith in
          let (r, rest, eq, q) =
            read_bounded-ReadOf limit_bytes (buffer ++ chunk) (seen + length chunk) channel b
              finished total within s in
          (
            r,
            rest,
            rw x eq,
            subst (λ c. ReadOf limit_bytes c finished r) (append_assoc buffer chunk b) q,
          )
    ]

-- The bound of a body, for each channel whose messages make up a body or break off: the read ends;
-- it never holds more bytes than the bound; a body within the bound is kept whole, counted exactly
-- and known to be complete or not; and a longer one is refused, with a count above the bound and
-- no larger than the body.
pub read_bounded_body-ReadOf :
    (limit_bytes : ℕ) (channel : List Message) (b : Bytes) (finished : Bool)
    → Sends channel b finished
    → (r : ReadBody) × (rest : List Message) × (read_bounded_body limit_bytes channel
        ≡ some (r, rest))
      × ReadOf limit_bytes b finished r
unfolding read_bounded_body
read_bounded_body-ReadOf limit_bytes channel b finished s =
    read_bounded-ReadOf limit_bytes [] 0 channel b finished refl (omega arith) s

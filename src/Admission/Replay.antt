-- ===== src/Admission/Replay.antt =====
-- app/proxy/admission.py: proofs about `BodySizeLimitMiddleware` and `_ReplayReceive`.
use guardian_llmprovider_gat.Prelude.{
  append_nil, ℕ, zero, suc, ◌+◌, ◌≤◌, String, ◌≡◌, ◌⊎◌, refl, subst, Bool, true, false, not, ◌&&◌,
  ◌||◌, Option, none, some, List, [], ◌∷◌, ◌++◌, arith, Bool-cases, Option-cases, inl, inr, ltb,
  if◌then◌else◌, length,
}
use guardian_llmprovider_gat.Admission.Body.{
  Bytes, Message, http_request, other_message, ReadBody, read_bounded, read_bounded_body, or_empty,
  ReplayReceive, replay_of, replay_receive, Handling, replayed_on, refused, bounded_call,
  after_read, declared_length, has_transfer_encoding, is_over, is_none,
}
use guardian_llmprovider_gat.Admission.Bodies.{
  Sends, ends, breaks, continues, ReadOf, kept, read_bounded_body-ReadOf,
}

abbrev pub is_refused : Handling → Bool
is_refused (refused e) = true
is_refused _ = false

-- The size that the bound is put to: of the declared length, if there is one that is readable and no
-- transfer encoding, and else of the body itself.
abbrev pub judged_size : List (String × String) → Bytes → ℕ
judged_size headers b =
    if has_transfer_encoding headers
    then length b
    else elim (declared_length headers) [ none ↦ length b | some n ↦ n ]

after_read-refuses :
    (limit_bytes : ℕ) (channel : List Message) (b : Bytes) (finished : Bool)
    → Sends channel b finished
    → is_refused (after_read limit_bytes (read_bounded_body limit_bytes channel))
      ≡ ltb limit_bytes (length b)
unfolding after_read
after_read-refuses limit_bytes channel b finished s =
    let (r, rest, e, q) = read_bounded_body-ReadOf limit_bytes channel b finished s in
    rw e (elim q.1 [ inl x ↦ rw x.1 (ground arith) | inr x ↦ rw x.1 (ground arith) ])

-- A request whose channel makes up a body or breaks off is refused exactly if its size is above the
-- bound: the declared length where one is readable and no transfer encoding is in play, and else
-- the bytes that come.
pub bounded_call-refuses :
    (limit_bytes : ℕ) (headers : List (String × String)) (channel : List Message) (b : Bytes)
    (finished : Bool)
    → Sends channel b finished
    → is_refused (bounded_call limit_bytes headers channel)
      ≡ ltb limit_bytes (judged_size headers b)
unfolding bounded_call
bounded_call-refuses limit_bytes headers channel b finished s =
    let a = after_read-refuses limit_bytes channel b finished s in
    elim (Bool-cases (has_transfer_encoding headers)) [
      | inl c ↦ rw c a
      | inr c ↦ elim (Option-cases (declared_length headers)) [
        | inl d ↦ rw (c, d) a
        | inr (n, d) ↦ rw (c, d) (ground arith)
      ]
    ]

-- The messages that a handler gets in so many calls of the replay.
more :
    (ReplayReceive → List Message → List Message)
    → Option (Message × ReplayReceive × List Message)
    → List Message
more rest none = []
more rest (some (m, r, channel)) = m ∷ rest r channel

unfoldable pub received : ℕ → ReplayReceive → List Message → List Message
unfolding more
received zero r channel = []
received (suc n) r channel = more (received n) (replay_receive r channel)

-- The end of a read within the bound: the body's, or a message of another type, kept for later.
abbrev Ended : ReadBody → Type 0
Ended r =
    ((r.finished ≡ true) × (r.tail ≡ []))
    ⊎ ((r.finished ≡ false) × (t : String) × (r.tail ≡ other_message t ∷ []))

read_bounded-Ended :
    (limit_bytes : ℕ) (buffer : Bytes) (seen : ℕ) (channel rest : List Message) (r : ReadBody)
    → read_bounded limit_bytes buffer seen channel ≡ some (r, rest)
    → r.overflow ≡ false
    → Ended r
unfolding read_bounded
read_bounded-Ended limit_bytes buffer seen [] rest r e o = cc
read_bounded-Ended limit_bytes buffer seen (other_message t ∷ channel) rest r e o =
    let same : kept seen buffer false (other_message t ∷ []) ≡ r = cc in
    subst Ended same (inr (refl, t, refl))
read_bounded-Ended limit_bytes buffer seen (http_request part false ∷ channel) rest r e o =
    let seen' = seen + length (or_empty part) in
    elim (Bool-cases (ltb limit_bytes seen')) [
      | inl x ↦ absurd (ground arith)
      | inr x ↦
          let same : kept seen' (buffer ++ or_empty part) true [] ≡ r = ground arith in
          subst Ended same (inl (refl, refl))
    ]
read_bounded-Ended limit_bytes buffer seen (http_request part true ∷ channel) rest r e o =
    let seen' = seen + length (or_empty part) in
    elim (Bool-cases (ltb limit_bytes seen')) [
      | inl x ↦ absurd (ground arith)
      | inr x ↦
          read_bounded-Ended limit_bytes (buffer ++ or_empty part) seen' channel rest r
            (ground arith) o
    ]

replay-Sends :
    (n : ℕ) (r : ReadBody) (rest : List Message)
    → Ended r
    → Sends (received (suc (suc n)) (replay_of r) rest) r.read r.finished
unfolding received replay_receive
replay-Sends n r rest (inl (f, t)) = rw (f, t) (ends (some r.read) _)
replay-Sends n r rest (inr (f, t, e)) =
    let later = received n (record (replay_of r) { pending = []; sent = true }) rest in
    let first = http_request (some r.read) true ∷ other_message t ∷ later in
    rw (f, e)
      (subst (λ b. Sends first b false) (append_nil r.read)
        (continues (some r.read) (other_message t ∷ later) [] false (breaks t later)))

replayed_on-after :
    (limit_bytes : ℕ) (o : Option (ReadBody × List Message)) (rest : List Message)
    (p : ReplayReceive)
    → after_read limit_bytes o ≡ replayed_on p rest
    → (r : ReadBody) × (o ≡ some (r, rest)) × (r.overflow ≡ false) × (replay_of r ≡ p)
unfolding after_read
replayed_on-after limit_bytes none rest p h = cc
replayed_on-after limit_bytes (some (r, channel)) rest p h = elim (Bool-cases r.overflow) [
  | inl x ↦ absurd (ground arith)
  | inr x ↦
      let same : replayed_on (replay_of r) channel ≡ replayed_on p rest = ground arith in
      (r, cc, x, cc)
]

-- What is replayed comes of a read that stayed within the bound.
replayed_on-read :
    (limit_bytes : ℕ) (headers : List (String × String)) (channel rest : List Message)
    (p : ReplayReceive)
    → bounded_call limit_bytes headers channel ≡ replayed_on p rest
    → after_read limit_bytes (read_bounded_body limit_bytes channel) ≡ replayed_on p rest
unfolding bounded_call
replayed_on-read limit_bytes headers channel rest p h =
    let declared = declared_length headers in
    let chunked = has_transfer_encoding headers in
    elim (Bool-cases (not chunked && is_over limit_bytes declared)) [
      | inl x ↦ absurd (ground arith)
      | inr x ↦ elim (Bool-cases (chunked || is_none declared)) [
        | inl y ↦ ground arith
        | inr y ↦ absurd (ground arith)
      ]
    ]

-- A handler that gets a replay and calls it twice or more reads the body that the channel sends,
-- complete or broken off as it is there, and no more bytes of it were held than the bound.
pub bounded_call-Sends :
    (limit_bytes n : ℕ) (headers : List (String × String)) (channel rest : List Message) (b : Bytes)
    (finished : Bool) (p : ReplayReceive)
    → Sends channel b finished
    → bounded_call limit_bytes headers channel ≡ replayed_on p rest
    → Sends (received (suc (suc n)) p rest) b finished × (length b ≤ limit_bytes)
unfolding read_bounded_body
bounded_call-Sends limit_bytes n headers channel rest b finished p s h =
    let (r, e, o, same) =
      replayed_on-after limit_bytes _ rest p
        (replayed_on-read limit_bytes headers channel rest p h) in
    let (r', rest', e', q) = read_bounded_body-ReadOf limit_bytes channel b finished s in
    let eq : r' ≡ r = cc in
    let kept_whole = subst (ReadOf limit_bytes b finished) eq q in
    let base = replay-Sends n r rest (read_bounded-Ended limit_bytes [] 0 channel rest r e o) in
    elim kept_whole.1 [
      | inl x ↦
          let calls = received (suc (suc n)) in
          let on_p = subst (λ a. Sends (calls a rest) r.read r.finished) same base in
          let of_b = subst (λ c. Sends (calls p rest) c r.finished) x.2 on_p in
          (subst (λ f. Sends (calls p rest) b f) x.4 of_b, x.0)
      | inr x ↦ absurd (ground (arith, x.1, o))
    ]

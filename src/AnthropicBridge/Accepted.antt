-- ===== src/AnthropicBridge/Accepted.antt =====
-- app/proxy/anthropic_bridge.py: a client accepts the whole message that a stream becomes.
use guardian_llmprovider_gat.Prelude.{
  ℕ, ◌≡◌, refl, ap, sym, ◌∙◌, String, Bool, true, false, Option, none, some, List, [], ◌∷◌, ◌++◌,
  All, arith, append_assoc,
}
use guardian_llmprovider_gat.Value.{Value, Fields, end}
use guardian_llmprovider_gat.AnthropicBridge.{
  Kind, signature_delta, Event, message_start, content_block_delta, content_block_stop,
  message_delta, message_stop, Emit, emit, followed, ◌>>=◌,
}
use guardian_llmprovider_gat.AnthropicBridge.Stream.{
  Runtime, Read, idle, line, failed, Translation, no_translation,
}
use guardian_llmprovider_gat.AnthropicBridge.Generator.{
  on_chunk, Parsed, skipped, done, parsed, read_line, translate_reads, close_events, sort_blocks,
  final_stop, ending, translate_stream,
}
use guardian_llmprovider_gat.AnthropicBridge.Blocks.{sort_blocks-Between}
use guardian_llmprovider_gat.AnthropicBridge.Protocol.{
  View, observe, observe_all, observe_all-append, observe_all-cons, then_observe, view, Follows,
  Follows->>=, Follows-none, Follows-raise,
}
use guardian_llmprovider_gat.AnthropicBridge.Parts.{Kept}
use guardian_llmprovider_gat.AnthropicBridge.Messages.{Suits, chunk_delta, on_chunk-Follows}

-- The delta that a read holds, or an empty one.
abbrev parsed_delta : Parsed → Fields
parsed_delta (parsed v) = chunk_delta v
parsed_delta _ = end

abbrev pub read_delta : Runtime → Read → Fields
read_delta rt (line l) = parsed_delta (read_line rt l)
read_delta rt _ = end

abbrev pub AllSuit : (strict before_text : Bool) → Runtime → List Read → Type 0
AllSuit strict before rt reads = All (λ r. Suits strict before (read_delta rt r)) reads

pub translate_reads-Follows :
    (strict before : Bool) (rt : Runtime) (reads : List Read) (s : Translation)
    → AllSuit strict before rt reads
    → Kept before s
    → Follows strict (Kept before) s (translate_reads rt reads s)
unfolding translate_reads observe_all observe
translate_reads-Follows strict before rt [] s all h = Follows-none strict (Kept before) s h
translate_reads-Follows strict before rt (idle ∷ reads) s all h =
    translate_reads-Follows strict before rt reads s all.1 h
translate_reads-Follows strict before rt (failed ∷ reads) s all h =
    Follows-raise strict (Kept before) s
translate_reads-Follows strict before rt (line l ∷ reads) s all h =
    go (read_line rt l) all.0 (λ t k. translate_reads-Follows strict before rt reads t all.1 k)
  where
    go :
        (p : Parsed)
        → Suits strict before (parsed_delta p)
        → ((t : Translation)
            → Kept before t
            → Follows strict (Kept before) t (translate_reads rt reads t))
        → Follows strict (Kept before) s (elim p [
          | skipped ↦ translate_reads rt reads s
          | done ↦ emit [] s
          | parsed v ↦ on_chunk rt v s >>= translate_reads rt reads
        ])
    go skipped suits rest = rest s h
    go done suits rest = Follows-none strict (Kept before) s h
    go (parsed v) suits rest =
        Follows->>= strict (Kept before) (Kept before) s (on_chunk rt v s)
          (translate_reads rt reads) (on_chunk-Follows strict before rt v s suits h) rest

-- `n` blocks were started, and these are open.
abbrev pub with_open : ℕ → List (ℕ × Kind) → View
with_open n blocks = record { started = n; open_blocks = blocks }

observe-first_stop :
    (strict : Bool) (n i : ℕ) (k : Kind) (blocks : List (ℕ × Kind))
    → observe strict (content_block_stop i) (with_open n ((i, k) ∷ blocks))
      ≡ some (with_open n blocks)
unfolding observe
observe-first_stop strict n i k blocks = ground arith

observe-first_signature :
    (strict : Bool) (n i : ℕ) (blocks : List (ℕ × Kind))
    → observe strict
        (content_block_delta i signature_delta)
        (with_open n ((i, Kind.thinking) ∷ blocks))
      ≡ some (with_open n ((i, Kind.thinking) ∷ blocks))
unfolding observe
observe-first_signature true n i blocks = ground arith
observe-first_signature false n i blocks = ground arith

-- Whatever is open is closed.
observe-close_events :
    (strict : Bool) (n : ℕ) (blocks : List (ℕ × Kind))
    → observe_all strict (close_events blocks) (with_open n blocks) ≡ some (with_open n [])
unfolding close_events observe_all
observe-close_events strict n [] = refl
observe-close_events strict n ((i, Kind.thinking) ∷ blocks) =
    observe_all-cons strict (content_block_delta i signature_delta)
      (content_block_stop i ∷ close_events blocks) (with_open n ((i, Kind.thinking) ∷ blocks))
      (with_open n ((i, Kind.thinking) ∷ blocks)) (some (with_open n []))
      (observe-first_signature strict n i blocks)
      (observe_all-cons strict (content_block_stop i) (close_events blocks)
        (with_open n ((i, Kind.thinking) ∷ blocks)) (with_open n blocks) (some (with_open n []))
        (observe-first_stop strict n i Kind.thinking blocks) (observe-close_events strict n blocks))
observe-close_events strict n ((i, Kind.text) ∷ blocks) =
    observe_all-cons strict (content_block_stop i) (close_events blocks)
      (with_open n ((i, Kind.text) ∷ blocks)) (with_open n blocks) (some (with_open n []))
      (observe-first_stop strict n i Kind.text blocks) (observe-close_events strict n blocks)
observe-close_events strict n ((i, Kind.tool_use) ∷ blocks) =
    observe_all-cons strict (content_block_stop i) (close_events blocks)
      (with_open n ((i, Kind.tool_use) ∷ blocks)) (with_open n blocks) (some (with_open n []))
      (observe-first_stop strict n i Kind.tool_use blocks) (observe-close_events strict n blocks)

-- The client accepts a message: after its start it follows every event; and if the generator comes to
-- its end, all blocks that were started are stopped when the final two events come.
abbrev pub Accepts : (strict : Bool) → (id model : String) → Emit (Unit {0}) → Type 0
Accepts strict id model (es, none) =
    (body : List Event) × (v : View) × (es ≡ message_start id model ∷ body)
    × (observe_all strict body (with_open 0 []) ≡ some v)
Accepts strict id model (es, some _) =
    (body : List Event) × (n : ℕ) × (reason : String) × (seq : Option String) × (input_tokens
      output_tokens : Value)
    × (es
        ≡ message_start id model
          ∷ (body ++ message_delta reason seq input_tokens output_tokens ∷ message_stop ∷ []))
    × (observe_all strict body (with_open 0 []) ≡ some (with_open n []))

whole_message :
    (strict : Bool) (id model : String) (seqs : List String) (m : Emit Translation)
    → Follows strict (Kept false) no_translation m
    → Accepts strict id model (
        followed (message_start id model ∷ []) m >>= λ s.
        emit (close_events (sort_blocks s.open_blocks) ++ ending seqs s) tt)
unfolding ending
whole_message strict id model seqs (es, none) (v, seen, lands) = (es, v, refl, seen)
whole_message strict id model seqs (es, some s) (v, seen, ((h, _), at)) =
    let closing = close_events (sort_blocks s.open_blocks) in
    let n = s.next_block_index in
    let stop = final_stop seqs s in
    let sorted = sort_blocks-Between 0 n s.open_blocks h.ordered in
    let closes : observe_all strict closing v ≡ some (with_open n []) =
      ap (observe_all strict closing) at
      ∙ ap (λ (bs : List (ℕ × Kind)). observe_all strict (close_events bs) (view s)) sorted
      ∙ observe-close_events strict n s.open_blocks in
    (
      es ++ closing,
      n,
      stop.0,
      stop.1,
      s.input_tokens,
      s.output_tokens,
      ap (λ (r : List Event). message_start id model ∷ r)
          (sym (append_assoc es closing (ending seqs s))),
      observe_all-append strict es closing (with_open 0 [])
          ∙ ap (then_observe (observe_all strict closing)) seen
          ∙ closes,
    )

nothing_open : Kept true no_translation
nothing_open = (record { ordered = omega arith; thinks = tt; texts = tt; calls = tt }, tt)

lenient : (rt : Runtime) (reads : List Read) → AllSuit false false rt reads
lenient rt [] = tt
lenient rt (r ∷ reads) = ((λ e. absurd (cc)), lenient rt reads)

-- Whatever the provider sends, in whatever order, the events of the translated stream are those of a
-- message: blocks are numbered from 0 in the order of their starts; text and tool deltas and
-- signatures name an open block of their kind, and thinking deltas a block that was started; only an
-- open block is stopped; and if the generator comes to its end, every block was stopped before the
-- final two events. This holds up to the exception if one is raised.
pub translate_stream-Accepts :
    (rt : Runtime) (id model : String) (seqs : List String) (reads : List Read)
    → Accepts false id model (translate_stream rt id model seqs reads)
unfolding translate_stream
translate_stream-Accepts rt id model seqs reads =
    whole_message false id model seqs (translate_reads rt reads no_translation) (
      translate_reads-Follows false false rt reads no_translation (lenient rt reads)
        (nothing_open.0, tt))

-- Thinking comes before text.
thinking_first :
    (rt : Runtime) (before after : List Read) (s : Translation)
    → AllSuit true true rt before
    → AllSuit true false rt after
    → Kept true s
    → Follows true (Kept false) s (translate_reads rt (before ++ after) s)
unfolding translate_reads observe_all observe
thinking_first rt [] after s b a h = translate_reads-Follows true false rt after s a (h.0, tt)
thinking_first rt (idle ∷ before) after s b a h = thinking_first rt before after s b.1 a h
thinking_first rt (failed ∷ before) after s b a h = Follows-raise true (Kept false) s
thinking_first rt (line l ∷ before) after s b a h =
    go (read_line rt l) b.0 (λ t k. thinking_first rt before after t b.1 a k)
  where
    go :
        (p : Parsed)
        → Suits true true (parsed_delta p)
        → ((t : Translation)
            → Kept true t
            → Follows true (Kept false) t (translate_reads rt (before ++ after) t))
        → Follows true (Kept false) s (elim p [
          | skipped ↦ translate_reads rt (before ++ after) s
          | done ↦ emit [] s
          | parsed v ↦ on_chunk rt v s >>= translate_reads rt (before ++ after)
        ])
    go skipped suits rest = rest s h
    go done suits rest = Follows-none true (Kept false) s (h.0, tt)
    go (parsed v) suits rest =
        Follows->>= true (Kept true) (Kept false) s (on_chunk rt v s)
          (translate_reads rt (before ++ after)) (on_chunk-Follows true true rt v s suits h) rest

-- If the provider sends thinking first, that is, no chunk with text comes before a chunk with thinking
-- or in it, then a thinking delta names an open thinking block too.
pub translate_stream-Accepts_strict :
    (rt : Runtime) (id model : String) (seqs : List String) (before after : List Read)
    → AllSuit true true rt before
    → AllSuit true false rt after
    → Accepts true id model (translate_stream rt id model seqs (before ++ after))
unfolding translate_stream
translate_stream-Accepts_strict rt id model seqs before after b a =
    whole_message true id model seqs (translate_reads rt (before ++ after) no_translation)
      (thinking_first rt before after no_translation b a nothing_open)

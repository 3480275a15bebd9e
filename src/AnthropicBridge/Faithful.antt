-- ===== src/AnthropicBridge/Faithful.antt =====
-- app/proxy/anthropic_bridge.py: a streamed message says what the provider said.
use guardian_llmprovider_gat.Prelude.{
  ℕ, ◌≡◌, refl, ap, ◌∙◌, String, Bool, true, false, List, [], ◌∷◌, ◌++◌, if◌then◌else◌,
}
use guardian_llmprovider_gat.Value.{Value, list, mapping, nil, cons, Fields, get, or_null, truthy}
use guardian_llmprovider_gat.AnthropicBridge.{
  or_default, Kind, message_start, ping, emit, raise, followed, ◌>>=◌,
}
use guardian_llmprovider_gat.AnthropicBridge.Stream.{
  Runtime, Read, idle, line, failed, Translation, no_translation, extract_usage, emit_reasoning,
  emit_text, emit_tool_calls, set_stop_reason,
}
use guardian_llmprovider_gat.AnthropicBridge.Generator.{
  delta_of, reasoning_of, content_of, tool_calls_of, on_choice, on_choices, on_chunk, Parsed,
  skipped, done, parsed, read_line, translate_reads, close_events, sort_blocks, ending,
  translate_stream,
}
use guardian_llmprovider_gat.AnthropicBridge.Messages.{chunk_delta, first_delta}
use guardian_llmprovider_gat.AnthropicBridge.Said.{
  Said, nothing, join, thinks, says, said_by, said_by-append, if_true, said_in_list, said_in_delta,
  after_line, said_in, Says, Says-followed, Says->>=, Says-last,
}
use guardian_llmprovider_gat.AnthropicBridge.Content.{
  extract_usage-Says, emit_reasoning-Says, emit_text-Says, emit_tool_calls-Says,
  set_stop_reason-Says,
}

on_choice-Says :
    (rt : Runtime) (choice : Fields) (s : Translation)
    → Says (said_in_delta (delta_of choice)) (on_choice rt choice s)
unfolding on_choice
on_choice-Says rt choice s =
    let delta = delta_of choice in
    let spoken = if_true says (content_of delta) in
    let called = said_in_list (tool_calls_of delta) in
    let finish = λ (s3 : Translation). set_stop_reason (or_null (get "finish_reason" choice)) s3 in
    let calls = λ (s2 : Translation). emit_tool_calls rt (tool_calls_of delta) s2 >>= finish in
    let texts = λ (s1 : Translation). emit_text (content_of delta) s1 >>= calls in
    Says->>= (if_true thinks (reasoning_of delta)) (join spoken called)
      (emit_reasoning (reasoning_of delta) s) texts (emit_reasoning-Says (reasoning_of delta) s)
      (λ s1.
        Says->>= spoken called (emit_text (content_of delta) s1) calls
          (emit_text-Says (content_of delta) s1)
          (λ s2.
            Says-last called (emit_tool_calls rt (tool_calls_of delta) s2) finish
              (emit_tool_calls-Says rt (tool_calls_of delta) s2)
              (λ s3. set_stop_reason-Says (or_null (get "finish_reason" choice)) s3)))

empty-Says :
    (b : Bool) (s : Translation) → Says {A = Translation} nothing (if b then raise else emit [] s)
unfolding said_by
empty-Says true s = tt
empty-Says false s = refl

on_choices-Says :
    (rt : Runtime) (v : Value) (s : Translation)
    → Says (said_in_delta (first_delta v)) (on_choices rt v s)
unfolding on_choices get truthy
on_choices-Says rt (list (cons (mapping choice) cs)) s = on_choice-Says rt choice s
on_choices-Says rt (list nil) s = empty-Says (truthy (list nil)) s
on_choices-Says rt (list (cons v vs)) s = empty-Says (truthy (list (cons v vs))) s
on_choices-Says rt v s = empty-Says (truthy v) s

on_chunk-Says :
    (rt : Runtime) (v : Value) (s : Translation)
    → Says (said_in_delta (chunk_delta v)) (on_chunk rt v s)
unfolding on_chunk
on_chunk-Says rt (mapping chunk) s =
    let choices = or_default (list nil) (get "choices" chunk) in
    Says->>= nothing (said_in_delta (first_delta choices))
      (extract_usage rt (or_null (get "usage" chunk)) s) (on_choices rt choices)
      (extract_usage-Says rt (or_null (get "usage" chunk)) s) (λ t. on_choices-Says rt choices t)
on_chunk-Says rt _ s = tt

-- A read that raises has no result to speak of.
translate_reads-Says :
    (rt : Runtime) (reads : List Read) (s : Translation)
    → Says (said_in rt reads) (translate_reads rt reads s)
unfolding translate_reads said_in said_by
translate_reads-Says rt [] s = refl
translate_reads-Says rt (idle ∷ reads) s =
    Says-followed nothing (said_in rt reads) (ping ∷ []) (translate_reads rt reads s) refl
      (translate_reads-Says rt reads s)
translate_reads-Says rt (failed ∷ reads) s = tt
translate_reads-Says rt (line l ∷ reads) s =
    go (read_line rt l) (λ t. translate_reads-Says rt reads t)
  where
    go :
        (p : Parsed)
        → ((t : Translation) → Says (said_in rt reads) (translate_reads rt reads t))
        → Says (after_line p (said_in rt reads)) (elim p [
          | skipped ↦ translate_reads rt reads s
          | done ↦ emit [] s
          | parsed v ↦ on_chunk rt v s >>= translate_reads rt reads
        ])
    go skipped rest = rest s
    go done rest = refl
    go (parsed v) rest =
        Says->>= (said_in_delta (chunk_delta v)) (said_in rt reads) (on_chunk rt v s)
          (translate_reads rt reads) (on_chunk-Says rt v s) rest

said_by-close_events : (blocks : List (ℕ × Kind)) → said_by (close_events blocks) ≡ nothing
unfolding said_by close_events
said_by-close_events [] = refl
said_by-close_events ((i, Kind.thinking) ∷ blocks) = said_by-close_events blocks
said_by-close_events ((i, Kind.text) ∷ blocks) = said_by-close_events blocks
said_by-close_events ((i, Kind.tool_use) ∷ blocks) = said_by-close_events blocks

ending-Says :
    (seqs : List String) (s : Translation)
    → said_by (close_events (sort_blocks s.open_blocks) ++ ending seqs s) ≡ nothing
unfolding said_by ending
ending-Says seqs s =
    let closing = close_events (sort_blocks s.open_blocks) in
    said_by-append closing (ending seqs s)
    ∙ ap (λ (x : Said). join x nothing) (said_by-close_events (sort_blocks s.open_blocks))

-- A streamed message says what the provider said: unless an exception is raised, the thinking deltas
-- carry the pieces of reasoning, the text deltas the pieces of content and the input deltas the
-- fragments of arguments of the chunks up to the end mark, all of those that are not empty, each once and
-- in their order.
pub translate_stream-Says :
    (rt : Runtime) (id model : String) (seqs : List String) (reads : List Read)
    → Says (said_in rt reads) (translate_stream rt id model seqs reads)
unfolding translate_stream said_by
translate_stream-Says rt id model seqs reads =
    let finish =
      λ (s : Translation). emit (close_events (sort_blocks s.open_blocks) ++ ending seqs s) tt in
    Says-last (said_in rt reads)
      (followed (message_start id model ∷ []) (translate_reads rt reads no_translation)) finish
      (Says-followed nothing (said_in rt reads) (message_start id model ∷ [])
        (translate_reads rt reads no_translation) refl
        (translate_reads-Says rt reads no_translation))
      (λ s. ending-Says seqs s)

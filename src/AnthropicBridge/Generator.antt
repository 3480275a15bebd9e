-- ===== src/AnthropicBridge/Generator.antt =====
-- app/proxy/anthropic_bridge.py: the loop of the streamed translation, and its end.
use Prim.Native.Char.{code}
use guardian_llmprovider_gat.Prelude.{
  ℕ, String, Option, none, some, List, [], ◌∷◌, ◌++◌, leb, ◌==◌, if◌then◌else◌, str_eq, strip,
}
use guardian_llmprovider_gat.Value.{
  Value, list, mapping, nil, cons, Fields, end, get, or_null, truthy,
}
use guardian_llmprovider_gat.AnthropicBridge.{
  or_default, or_value, dict_or_empty, find_stop_sequence, Kind, Event, message_start, ping,
  content_block_delta, content_block_stop, message_delta, message_stop, signature_delta, Emit, emit,
  raise, followed, ◌>>=◌,
}
use guardian_llmprovider_gat.AnthropicBridge.Stream.{
  Runtime, Read, idle, line, failed, Translation, no_translation, extract_usage, emit_reasoning,
  emit_text, emit_tool_calls, set_stop_reason,
}

abbrev pub delta_of : Fields → Fields
delta_of choice = dict_or_empty (or_default (mapping end) (get "delta" choice))

abbrev pub reasoning_of : Fields → Value
reasoning_of delta =
    or_value (or_null (get "reasoning_content" delta)) (or_null (get "reasoning" delta))

abbrev pub content_of : Fields → Value
content_of delta = or_null (get "content" delta)

abbrev pub tool_calls_of : Fields → Value
tool_calls_of delta = or_null (get "tool_calls" delta)

unfoldable pub on_choice : Runtime → Fields → Translation → Emit Translation
unfolding emit_reasoning emit_text emit_tool_calls set_stop_reason
on_choice rt choice s = do
  s1 ← emit_reasoning (reasoning_of (delta_of choice)) s
  s2 ← emit_text (content_of (delta_of choice)) s1
  s3 ← emit_tool_calls rt (tool_calls_of (delta_of choice)) s2
  set_stop_reason (or_null (get "finish_reason" choice)) s3

-- What `choices[0]` is, where `choices` is true: only a list has a first, and it must be a dict.
unfoldable pub on_choices : Runtime → Value → Translation → Emit Translation
unfolding on_choice
on_choices rt (list (cons (mapping choice) _)) s = on_choice rt choice s
on_choices rt choices s = if truthy choices then raise else emit [] s

unfoldable pub on_chunk : Runtime → Value → Translation → Emit Translation
unfolding extract_usage on_choices
on_chunk rt (mapping chunk) s =
    extract_usage rt (or_null (get "usage" chunk)) s
    >>= on_choices rt (or_default (list nil) (get "choices" chunk))
on_chunk rt _ s = raise

-- line[len(prefix):] if line.startswith(prefix)
unfoldable pub after_prefix : String → String → Option String
after_prefix String.[] s = some s
after_prefix (String.◌∷◌ c p) String.[] = none
after_prefix (String.◌∷◌ c p) (String.◌∷◌ d s) = if code c == code d then after_prefix p s else none

pub data Parsed : Type 0 where
  skipped : Parsed
  done : Parsed
  parsed : Value → Parsed

unfoldable pub read_line : Runtime → String → Parsed
unfolding after_prefix strip
read_line rt l = elim (after_prefix "data: " l) [
  | none ↦ skipped
  | some d ↦
      if str_eq (strip d) "[DONE]"
      then done
      else elim (rt.loads d) [ none ↦ skipped | some v ↦ parsed v ]
]

unfoldable pub translate_reads : Runtime → List Read → Translation → Emit Translation
unfolding read_line on_chunk
translate_reads rt [] s = emit [] s
translate_reads rt (idle ∷ reads) s = followed (ping ∷ []) (translate_reads rt reads s)
translate_reads rt (failed ∷ reads) s = raise
translate_reads rt (line l ∷ reads) s = elim (read_line rt l) [
  | skipped ↦ translate_reads rt reads s
  | done ↦ emit [] s
  | parsed v ↦ on_chunk rt v s >>= translate_reads rt reads
]

-- sorted(open_blocks.keys()), each with its kind
unfoldable pub insert_block : ℕ × Kind → List (ℕ × Kind) → List (ℕ × Kind)
insert_block (i, k) [] = (i, k) ∷ []
insert_block (i, k) ((j, l) ∷ blocks) =
    let rest = insert_block (i, k) blocks in
    if leb i j then (i, k) ∷ (j, l) ∷ blocks else (j, l) ∷ rest

unfoldable pub sort_blocks : List (ℕ × Kind) → List (ℕ × Kind)
unfolding insert_block
sort_blocks [] = []
sort_blocks (b ∷ blocks) = insert_block b (sort_blocks blocks)

unfoldable pub close_events : List (ℕ × Kind) → List Event
close_events [] = []
close_events ((i, Kind.thinking) ∷ blocks) =
    content_block_delta i signature_delta ∷ content_block_stop i ∷ close_events blocks
close_events ((i, _) ∷ blocks) = content_block_stop i ∷ close_events blocks

unfoldable pub final_stop : List String → Translation → String × Option String
unfolding find_stop_sequence
final_stop seqs s =
    if str_eq s.stop_reason "end_turn"
    then elim (find_stop_sequence seqs s.accumulated_text) [
      | none ↦ (s.stop_reason, none)
      | some seq ↦ ("stop_sequence", some seq)
    ]
    else (s.stop_reason, none)

unfoldable pub ending : List String → Translation → List Event
unfolding final_stop
ending seqs s =
    let (reason, seq) = final_stop seqs s in
    message_delta reason seq s.input_tokens s.output_tokens ∷ message_stop ∷ []

-- The whole generator. `id` is the message's, and an absent list of stop sequences is the empty one.
unfoldable pub translate_stream :
    Runtime → (id model : String) → List String → List Read → Emit (Unit {0})
unfolding translate_reads close_events sort_blocks ending
translate_stream rt id model seqs reads =
    emit (message_start id model ∷ []) no_translation >>= translate_reads rt reads >>= λ s.
    emit (close_events (sort_blocks s.open_blocks) ++ ending seqs s) tt

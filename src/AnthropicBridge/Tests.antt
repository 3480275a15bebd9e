-- ===== src/AnthropicBridge/Tests.antt =====
-- Runs of the translation of app/proxy/anthropic_bridge.py, and its theorems at concrete streams.
use guardian_llmprovider_gat.Prelude.{
  ◌≡◌, refl, String, Bool, true, false, Option, none, some, List, [], ◌∷◌, ◌++◌, if◌then◌else◌,
  str_eq, max, ◌==◌,
}
use guardian_llmprovider_gat.Value.{
  pos, Value, int, text, list, mapping, nil, cons, Fields, end, field, get, truthy,
}
use guardian_llmprovider_gat.AnthropicBridge.{
  thinking_block, text_block, tool_use_block, thinking_delta, signature_delta, text_delta,
  input_json_delta, Event, message_start, ping, content_block_start, content_block_delta,
  content_block_stop, message_delta, message_stop, event_data, provider_needs_anthropic_translation,
}
use guardian_llmprovider_gat.AnthropicBridge.Stream.{Runtime, Read, idle, line, failed}
use guardian_llmprovider_gat.AnthropicBridge.Generator.{parsed, read_line, translate_stream}
use guardian_llmprovider_gat.AnthropicBridge.Protocol.{observe_all}
use guardian_llmprovider_gat.AnthropicBridge.Accepted.{
  Accepts, AllSuit, with_open, translate_stream-Accepts, translate_stream-Accepts_strict,
}
use guardian_llmprovider_gat.AnthropicBridge.Said.{said_in, said_in_calls, Says}
use guardian_llmprovider_gat.AnthropicBridge.Faithful.{translate_stream-Says}
use guardian_llmprovider_gat.AnthropicBridge.Interleaved.{
  chunk_of, interleaved, interleaved-refused,
}

abbrev with_delta : Fields → Value
with_delta delta =
    mapping (field "choices" (list (cons (mapping (field "delta" (mapping delta) end)) nil)) end)

abbrev finish : String → Value
finish reason = mapping (
    field "choices" (list (cons (mapping (field "finish_reason" (text reason) end)) nil))
      (field "usage" (mapping (field "prompt_tokens" (int (pos 7)) end)) end))

abbrev tool_call : Value
tool_call = with_delta (
    field "tool_calls"
      (list (
        cons
          (mapping (
            field "id" (text "c1") (
              field "function"
                (mapping (field "name" (text "f") (field "arguments" (text "{}") end))) end)))
          nil))
      end)

abbrev decode : String → Option Value
decode t =
    if str_eq t "think"
    then some (chunk_of "reasoning_content" "hm")
    else if str_eq t "say"
    then some (chunk_of "content" "hi")
    else if str_eq t "call"
    then some tool_call
    else if str_eq t "end"
    then some (finish "stop")
    else none

abbrev larger_count : Value → Value → Option Value
larger_count (int (pos m)) (int (pos n)) = some (int (pos (max m n)))
larger_count _ _ = none

abbrev same_number : Value → Value → Bool
same_number (int (pos m)) (int (pos n)) = m == n
same_number _ _ = false

abbrev runtime : Runtime
runtime = record {
  loads = decode;
  larger = larger_count;
  same_key = same_number;
  call_id = λ n. text "call";
}

abbrev orderly : List Read
orderly = line "data: think" ∷ idle ∷ []

abbrev later : List Read
later =
    line "data: say"
    ∷ line "event: x"
    ∷ line "data: call"
    ∷ line "data: end"
    ∷ line "data: [DONE]"
    ∷ line "data: say"
    ∷ []

translate_orderly :
    (translate_stream runtime "m" "gpt" ("hi" ∷ []) (orderly ++ later)).0
    ≡ message_start "m" "gpt"
      ∷ content_block_start 0 thinking_block
      ∷ content_block_delta 0 (thinking_delta (text "hm"))
      ∷ ping
      ∷ content_block_delta 0 signature_delta
      ∷ content_block_stop 0
      ∷ content_block_start 1 text_block
      ∷ content_block_delta 1 (text_delta (text "hi"))
      ∷ content_block_stop 1
      ∷ content_block_start 2 (tool_use_block (text "c1") (text "f"))
      ∷ content_block_delta 2 (input_json_delta (text "{}"))
      ∷ content_block_stop 2
      ∷ message_delta "stop_sequence" (some "hi") (int (pos 7)) (int (pos 0))
      ∷ message_stop
      ∷ []
unfolding translate_stream truthy get
translate_orderly = refl

translate_failed : translate_stream runtime "m" "gpt" [] (line "data: say" ∷ failed ∷ []) ≡ (
  message_start "m" "gpt"
      ∷ content_block_start 0 text_block
      ∷ content_block_delta 0 (text_delta (text "hi"))
      ∷ [],
  none,
)
unfolding translate_stream truthy get
translate_failed = refl

data_of_stop :
    event_data (content_block_stop 4)
    ≡ mapping (field "type" (text "content_block_stop") (field "index" (int (pos 4)) end))
unfolding event_data
data_of_stop = refl

nvidia_needs_translation : provider_needs_anthropic_translation "nvidia" "messages" ≡ true
unfolding provider_needs_anthropic_translation
nvidia_needs_translation = refl

translate_stream-Accepts_example :
    Accepts false "m" "gpt" (translate_stream runtime "m" "gpt" [] (later ++ orderly))
translate_stream-Accepts_example = translate_stream-Accepts runtime "m" "gpt" [] (later ++ orderly)

orderly-suits : AllSuit true true runtime orderly
unfolding read_line truthy get
orderly-suits = (refl, (refl, tt))

later-suits : AllSuit true false runtime later
unfolding read_line truthy get
later-suits = (λ _. refl, (λ _. refl, (λ _. refl, (λ _. refl, (λ _. refl, (λ _. refl, tt))))))

translate_stream-Accepts_strict_example :
    Accepts true "m" "gpt" (translate_stream runtime "m" "gpt" [] (orderly ++ later))
translate_stream-Accepts_strict_example =
    translate_stream-Accepts_strict runtime "m" "gpt" [] orderly later orderly-suits later-suits

translate_stream-Says_example :
    Says
      (said_in runtime (orderly ++ later))
      (translate_stream runtime "m" "gpt" [] (orderly ++ later))
translate_stream-Says_example = translate_stream-Says runtime "m" "gpt" [] (orderly ++ later)

said_in-orderly :
    said_in runtime (orderly ++ later)
    ≡ record { thinking = text "hm" ∷ []; texts = text "hi" ∷ []; arguments = text "{}" ∷ [] }
unfolding said_in said_in_calls read_line truthy get
said_in-orderly = refl

think_line : read_line runtime "data: think" ≡ parsed (chunk_of "reasoning_content" "hm")
unfolding read_line
think_line = refl

say_line : read_line runtime "data: say" ≡ parsed (chunk_of "content" "hi")
unfolding read_line
say_line = refl

interleaved-refused_example :
    (rest : List Event) × ((translate_stream runtime "m" "gpt" []
        (line "data: think" ∷ line "data: say" ∷ line "data: think" ∷ [])).0
      ≡ message_start "m" "gpt" ∷ (interleaved "hm" "hi" "hm" ++ rest))
    × (observe_all true (interleaved "hm" "hi" "hm") (with_open 0 []) ≡ none)
interleaved-refused_example =
    interleaved-refused runtime "m" "gpt" [] "data: think" "data: say" "data: think" "hm" "hi" "hm"
      think_line say_line think_line refl refl refl

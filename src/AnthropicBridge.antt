-- ===== src/AnthropicBridge.antt =====
-- app/proxy/anthropic_bridge.py: the values that the translation reads, the events of a message that
-- is streamed, and code that may raise after some of them.
use guardian_llmprovider_gat.Prelude.{
  ℕ, String, Bool, true, false, ◌||◌, Option, none, some, List, [], ◌∷◌, ◌++◌, str_eq, contains,
  if◌then◌else◌,
}
use guardian_llmprovider_gat.Value.{
  ℤ, pos, Value, null, bool, int, list, mapping, Items, nil, Fields, end, field, get, truthy,
}
mod Stream
mod Generator
mod Blocks
mod Protocol
mod Invariant
mod Parts
mod Closing
mod ToolCalls
mod Messages
mod Accepted
mod Interleaved
mod Said
mod Content
mod Faithful
mod Tests

-- fields.get(key, default)
abbrev pub or_default : Value → Option Value → Value
or_default d none = d
or_default d (some v) = v

-- left or right
abbrev pub or_value : Value → Value → Value
or_value left right = if truthy left then left else right

-- The value if it is a dict, `{}` otherwise.
abbrev pub dict_or_empty : Value → Fields
dict_or_empty (mapping fs) = fs
dict_or_empty _ = end

abbrev pub is_hashable : Value → Bool
is_hashable (list xs) = false
is_hashable (mapping fs) = false
is_hashable _ = true

abbrev stop_reason_of : String → String
stop_reason_of finish =
    if str_eq finish "stop"
    then "end_turn"
    else if str_eq finish "length"
    then "max_tokens"
    else if str_eq finish "tool_calls" || str_eq finish "function_call"
    then "tool_use"
    else if str_eq finish "content_filter"
    then "refusal"
    else "end_turn"

-- stop_reason_map.get(finish_reason, "end_turn"): a value that cannot be hashed raises.
unfoldable pub map_stop_reason : Value → Option String
map_stop_reason (Value.text finish) = some (stop_reason_of finish)
map_stop_reason (list xs) = none
map_stop_reason (mapping fs) = none
map_stop_reason _ = some "end_turn"

-- s.endswith(suffix)
unfoldable pub ends_with : String → String → Bool
ends_with suffix String.[] = str_eq suffix ""
ends_with suffix (String.◌∷◌ c s) = str_eq (String.◌∷◌ c s) suffix || ends_with suffix s

-- The first sequence, if any, that is not empty and that the text ends with.
unfoldable pub find_stop_sequence : List String → String → Option String
unfolding ends_with
find_stop_sequence [] s = none
find_stop_sequence (seq ∷ seqs) s =
    let rest = find_stop_sequence seqs s in
    if str_eq seq "" then rest else if ends_with seq s then some seq else rest

unfoldable pub provider_needs_anthropic_translation : String → String → Bool
provider_needs_anthropic_translation provider_name path =
    if str_eq path "messages"
    then (if contains provider_name ("openrouter" ∷ []) then false else true)
    else false

pub data Kind : Type 0 where
  thinking text tool_use : Kind

pub data Block : Type 0 where
  thinking_block text_block : Block
  tool_use_block : (id name : Value) → Block

pub data Delta : Type 0 where
  thinking_delta : Value → Delta
  signature_delta : Delta
  text_delta : Value → Delta
  input_json_delta : Value → Delta

pub data Event : Type 0 where
  message_start : (id model : String) → Event
  ping : Event
  content_block_start : (index : ℕ) → Block → Event
  content_block_delta : (index : ℕ) → Delta → Event
  content_block_stop : (index : ℕ) → Event
  message_delta :
      (stop_reason : String) (stop_sequence : Option String) (input_tokens output_tokens : Value)
      → Event
  message_stop : Event

unfoldable pub event_type : Event → String
event_type (message_start id model) = "message_start"
event_type ping = "ping"
event_type (content_block_start i b) = "content_block_start"
event_type (content_block_delta i d) = "content_block_delta"
event_type (content_block_stop i) = "content_block_stop"
event_type (message_delta r s i o) = "message_delta"
event_type message_stop = "message_stop"

abbrev text_or_null : Option String → Value
text_or_null none = null
text_or_null (some s) = Value.text s

abbrev zero_tokens : Value
zero_tokens = int (pos 0)

abbrev block_data : Block → Value
block_data thinking_block =
    mapping (field "type" (Value.text "thinking") (field "thinking" (Value.text "") end))
block_data text_block =
    mapping (field "type" (Value.text "text") (field "text" (Value.text "") end))
block_data (tool_use_block id name) = mapping (
    field "type" (Value.text "tool_use")
      (field "id" id (field "name" name (field "input" (mapping end) end))))

abbrev delta_data : Delta → Value
delta_data (thinking_delta v) =
    mapping (field "type" (Value.text "thinking_delta") (field "thinking" v end))
delta_data signature_delta =
    mapping (field "type" (Value.text "signature_delta") (field "signature" (Value.text "") end))
delta_data (text_delta v) = mapping (field "type" (Value.text "text_delta") (field "text" v end))
delta_data (input_json_delta v) =
    mapping (field "type" (Value.text "input_json_delta") (field "partial_json" v end))

-- The fields of an event beside its type.
abbrev event_fields : Event → Fields
event_fields (message_start id model) =
    field "message"
      (mapping (
        field "id" (Value.text id) (
          field "type" (Value.text "message") (
            field "role" (Value.text "assistant") (
              field "model" (Value.text model) (
                field "content" (list nil) (
                  field "stop_reason" null (
                    field "stop_sequence" null (
                      field "usage"
                        (mapping (
                          field "input_tokens" zero_tokens (field "output_tokens" zero_tokens end)))
                        end)))))))))
      end
event_fields ping = end
event_fields (content_block_start i b) =
    field "index" (int (pos i)) (field "content_block" (block_data b) end)
event_fields (content_block_delta i d) =
    field "index" (int (pos i)) (field "delta" (delta_data d) end)
event_fields (content_block_stop i) = field "index" (int (pos i)) end
event_fields (message_delta r s i o) =
    field "delta"
      (mapping (field "stop_reason" (Value.text r) (field "stop_sequence" (text_or_null s) end)))
      (field "usage"
        (mapping (
          field "input_tokens" i (
            field "output_tokens" o (
              field "cache_creation_input_tokens" zero_tokens
                (field "cache_read_input_tokens" zero_tokens end)))))
        end)
event_fields message_stop = end

unfoldable pub event_data : Event → Value
unfolding event_type
event_data e = mapping (field "type" (Value.text (event_type e)) (event_fields e))

-- What was yielded, and the result: `none` once an exception was raised.
abbrev pub Emit : Type 0 → Type 0
Emit A = List Event × Option A

abbrev pub emit : {A : Type 0} → List Event → A → Emit A
emit es a = (es, some a)

abbrev pub raise : {A : Type 0} → Emit A
raise = ([], none)

abbrev pub followed : {A : Type 0} → List Event → Emit A → Emit A
followed es m = (es ++ m.0, m.1)

infixl 5 ◌>>=◌
abbrev pub ◌>>=◌ : {A B : Type 0} → Emit A → (A → Emit B) → Emit B
(es, none) >>= f = (es, none)
(es, some a) >>= f = followed es (f a)

-- ===== src/AnthropicBridge/Stream.antt =====
-- app/proxy/anthropic_bridge.py: the translation of a stream of OpenAI chunks to Anthropic events.
use Prim.Native.String.{◌++◌ as append_text}
use guardian_llmprovider_gat.Prelude.{
  ℕ, suc, String, Bool, true, false, Option, none, some, List, [], ◌∷◌, ◌++◌, ◌==◌, if◌then◌else◌,
  is_some,
}
use guardian_llmprovider_gat.Value.{
  pos, Value, int, text, list, mapping, Items, nil, cons, Fields, end, get, truthy,
}
use guardian_llmprovider_gat.AnthropicBridge.{
  or_default, dict_or_empty, is_hashable, map_stop_reason, Kind, Event, content_block_start,
  content_block_delta, content_block_stop, thinking_block, text_block, tool_use_block,
  thinking_delta, signature_delta, text_delta, input_json_delta, Emit, emit, raise, ◌>>=◌,
}

-- What the translation asks of Python: `json.loads` (`none` where it fails), `max` of two counts
-- (`none` where they cannot be compared; a float has no digits here), `==` of two keys of a dict, and
-- the fresh id of the tool call that becomes a block.
pub record Runtime : Type 0 where
  pub loads : String → Option Value
  pub larger : Value → Value → Option Value
  pub same_key : Value → Value → Bool
  pub call_id : ℕ → Value

-- What `_iter_with_pings` waits for: the interval passes, a line comes, or the upstream raises.
pub data Read : Type 0 where
  idle : Read
  line : String → Read
  failed : Read

pub record Translation : Type 0 where
  pub input_tokens : Value
  pub output_tokens : Value
  pub stop_reason : String
  pub open_blocks : List (ℕ × Kind)
  pub next_block_index : ℕ
  pub tool_call_index_map : List (Value × ℕ)
  pub thinking_block_idx : Option ℕ
  pub text_block_idx : Option ℕ
  pub accumulated_text : String

abbrev pub no_translation : Translation
no_translation = record {
  input_tokens = int (pos 0);
  output_tokens = int (pos 0);
  stop_reason = "end_turn";
  open_blocks = [];
  next_block_index = 0;
  tool_call_index_map = [];
  thinking_block_idx = none;
  text_block_idx = none;
  accumulated_text = "";
}

-- open_blocks.get(idx)
unfoldable pub kind_at : ℕ → List (ℕ × Kind) → Option Kind
kind_at i [] = none
kind_at i ((j, k) ∷ blocks) = if j == i then some k else kind_at i blocks

unfoldable pub close_block : ℕ → List (ℕ × Kind) → List (ℕ × Kind)
close_block i [] = []
close_block i ((j, k) ∷ blocks) =
    let rest = close_block i blocks in if j == i then blocks else (j, k) ∷ rest

abbrev pub opened : Kind → Translation → Translation
opened k s = record s {
  open_blocks = s.open_blocks ++ (s.next_block_index, k) ∷ [];
  next_block_index = suc s.next_block_index;
}

-- The larger count of each kind, of those so far and those of a `usage` dict.
unfoldable pub extract_usage : Runtime → Value → Translation → Emit Translation
extract_usage rt (mapping usage) s =
    let prompt =
      or_default (or_default (int (pos 0)) (get "input_tokens" usage))
        (get "prompt_tokens" usage) in
    let completion =
      or_default (or_default (int (pos 0)) (get "output_tokens" usage))
        (get "completion_tokens" usage) in
    elim (rt.larger s.input_tokens prompt) [
      | none ↦ raise
      | some i ↦ elim (rt.larger s.output_tokens completion) [
        | none ↦ raise
        | some o ↦ emit [] (record s { input_tokens = i; output_tokens = o })
      ]
    ]
extract_usage rt _ s = emit [] s

unfoldable pub reasoning_at : Option ℕ → Value → Translation → Emit Translation
reasoning_at none v s =
    let n = s.next_block_index in
    emit (content_block_start n thinking_block ∷ content_block_delta n (thinking_delta v) ∷ [])
      (record (opened Kind.thinking s) { thinking_block_idx = some n })
reasoning_at (some i) v s = emit (content_block_delta i (thinking_delta v) ∷ []) s

unfoldable pub emit_reasoning : Value → Translation → Emit Translation
unfolding reasoning_at
emit_reasoning v s = if truthy v then reasoning_at s.thinking_block_idx v s else emit [] s

unfoldable pub close_thinking_at : Option ℕ → Bool → Translation → Emit Translation
close_thinking_at none reset s = emit [] s
close_thinking_at (some i) reset s =
    if is_some (kind_at i s.open_blocks)
    then emit (content_block_delta i signature_delta ∷ content_block_stop i ∷ []) (record s {
      open_blocks = close_block i s.open_blocks;
      thinking_block_idx = if reset then none else some i;
    })
    else emit [] s

-- Close the thinking block if it is open; `reset` lets a later delta open another.
unfoldable pub close_thinking : Bool → Translation → Emit Translation
unfolding close_thinking_at kind_at close_block
close_thinking reset s = close_thinking_at s.thinking_block_idx reset s

unfoldable pub close_text_at : Option ℕ → Translation → Emit Translation
close_text_at none s = emit [] s
close_text_at (some i) s =
    if is_some (kind_at i s.open_blocks)
    then emit (content_block_stop i ∷ [])
        (record s { open_blocks = close_block i s.open_blocks; text_block_idx = none })
    else emit [] s

unfoldable pub close_text : Translation → Emit Translation
unfolding close_text_at kind_at close_block
close_text s = close_text_at s.text_block_idx s

unfoldable pub text_at : Option ℕ → Value → Translation → Emit Translation
text_at none v s =
    let n = s.next_block_index in
    emit (content_block_start n text_block ∷ content_block_delta n (text_delta v) ∷ [])
      (record (opened Kind.text s) { text_block_idx = some n })
text_at (some i) v s = emit (content_block_delta i (text_delta v) ∷ []) s

unfoldable pub put_text : Value → Translation → Emit Translation
unfolding text_at
put_text v s = text_at s.text_block_idx v s

-- accumulated_text += text_delta
unfoldable pub accumulate : Value → Translation → Emit Translation
accumulate (text t) s = emit [] (record s { accumulated_text = append_text s.accumulated_text t })
accumulate _ s = raise

unfoldable pub emit_text : Value → Translation → Emit Translation
unfolding close_thinking put_text accumulate
emit_text v s =
    if truthy v
    then (do s1 ← close_thinking false s; s2 ← put_text v s1; accumulate v s2)
    else emit [] s

unfoldable pub block_of_call : (Value → Value → Bool) → Value → List (Value × ℕ) → Option ℕ
block_of_call same index [] = none
block_of_call same index ((k, i) ∷ calls) =
    if same k index then some i else block_of_call same index calls

abbrev pub arguments_of : Fields → Value
arguments_of func = or_default (text "") (get "arguments" func)

abbrev pub fragment : ℕ → Value → List Event
fragment i v = if truthy v then content_block_delta i (input_json_delta v) ∷ [] else []

unfoldable pub tool_call_at :
    Option ℕ → Runtime → (index : Value) → (tc func : Fields) → Translation → Emit Translation
tool_call_at none rt index tc func s =
    let n = s.next_block_index in
    emit
      (content_block_start n (
          tool_use_block (or_default (rt.call_id n) (get "id" tc))
            (or_default (text "") (get "name" func)))
        ∷ fragment n (arguments_of func))
      (record (opened Kind.tool_use s) {
        tool_call_index_map = s.tool_call_index_map ++ (index, n) ∷ [];
      })
tool_call_at (some i) rt index tc func s = emit (fragment i (arguments_of func)) s

abbrev pub function_of : Fields → Fields
function_of tc = dict_or_empty (or_default (mapping end) (get "function" tc))

unfoldable pub emit_tool_call : Runtime → Fields → Translation → Emit Translation
unfolding tool_call_at block_of_call
emit_tool_call rt tc s =
    let index = or_default (int (pos 0)) (get "index" tc) in
    if is_hashable index
    then tool_call_at (block_of_call rt.same_key index s.tool_call_index_map) rt index tc
        (function_of tc) s
    else raise

unfoldable pub each_tool_call : Runtime → Items → Translation → Emit Translation
unfolding emit_tool_call
each_tool_call rt nil s = emit [] s
each_tool_call rt (cons (mapping tc) tcs) s = emit_tool_call rt tc s >>= each_tool_call rt tcs
each_tool_call rt (cons _ tcs) s = each_tool_call rt tcs s

-- `for tc in tool_calls`: the parts of a text and the keys of a dict are no dicts.
unfoldable pub tool_calls_in : Runtime → Value → Translation → Emit Translation
unfolding each_tool_call
tool_calls_in rt (list tcs) s = each_tool_call rt tcs s
tool_calls_in rt (text t) s = emit [] s
tool_calls_in rt (mapping fs) s = emit [] s
tool_calls_in rt _ s = raise

unfoldable pub emit_tool_calls : Runtime → Value → Translation → Emit Translation
unfolding close_text close_thinking tool_calls_in
emit_tool_calls rt v s =
    if truthy v
    then (do s1 ← close_text s; s2 ← close_thinking true s1; tool_calls_in rt v s2)
    else emit [] s

unfoldable pub set_stop_reason : Value → Translation → Emit Translation
unfolding map_stop_reason
set_stop_reason v s =
    if truthy v
    then elim (map_stop_reason v) [ none ↦ raise | some r ↦ emit [] (record s { stop_reason = r }) ]
    else emit [] s

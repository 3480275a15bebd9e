-- ===== src/AnthropicBridge/Interleaved.antt =====
-- app/proxy/anthropic_bridge.py: thinking that goes on after text.
use Prim.Native.String.{◌++◌ as append_text}
use guardian_llmprovider_gat.Prelude.{
  ◌≡◌, refl, String, true, false, none, some, List, [], ◌∷◌, ◌++◌, arith, str_eq,
}
use guardian_llmprovider_gat.Value.{Value, text, list, mapping, nil, cons, end, field, get, truthy}
use guardian_llmprovider_gat.AnthropicBridge.{
  Kind, thinking_block, text_block, thinking_delta, signature_delta, text_delta, Event,
  message_start, content_block_start, content_block_delta, content_block_stop,
}
use guardian_llmprovider_gat.AnthropicBridge.Stream.{Runtime, no_translation, line}
use guardian_llmprovider_gat.AnthropicBridge.Generator.{parsed, read_line, translate_stream, ending}
use guardian_llmprovider_gat.AnthropicBridge.Protocol.{observe_all}
use guardian_llmprovider_gat.AnthropicBridge.Accepted.{with_open}

-- A chunk whose delta has one text.
abbrev pub chunk_of : (key t : String) → Value
chunk_of key t = mapping (
    field "choices"
      (list (cons (mapping (field "delta" (mapping (field key (text t) end)) end)) nil)) end)

-- The events that thinking, text and more thinking become, after the start of the message.
abbrev pub interleaved : (first spoken more : String) → List Event
interleaved first spoken more =
    content_block_start 0 thinking_block
    ∷ content_block_delta 0 (thinking_delta (text first))
    ∷ content_block_delta 0 signature_delta
    ∷ content_block_stop 0
    ∷ content_block_start 1 text_block
    ∷ content_block_delta 1 (text_delta (text spoken))
    ∷ content_block_delta 0 (thinking_delta (text more))
    ∷ []

-- Where the provider sends thinking, then text, then thinking again, none of them empty, the second
-- thinking is sent for the block that was stopped before the text, which a strict client refuses.
pub interleaved-refused :
    (rt : Runtime) (id model : String) (seqs : List String) (l₁ l₂ l₃ first spoken more : String)
    → read_line rt l₁ ≡ parsed (chunk_of "reasoning_content" first)
    → read_line rt l₂ ≡ parsed (chunk_of "content" spoken)
    → read_line rt l₃ ≡ parsed (chunk_of "reasoning_content" more)
    → str_eq first "" ≡ false
    → str_eq spoken "" ≡ false
    → str_eq more "" ≡ false
    → (rest : List Event) × ((translate_stream rt id model seqs
          (line l₁ ∷ line l₂ ∷ line l₃ ∷ [])).0
        ≡ message_start id model ∷ (interleaved first spoken more ++ rest))
      × (observe_all true (interleaved first spoken more) (with_open 0 []) ≡ none)
unfolding translate_stream get truthy observe_all
interleaved-refused rt id model seqs l₁ l₂ l₃ first spoken more p q r a b c = (
  content_block_stop 1
      ∷ ending seqs (record no_translation {
        open_blocks = (1, Kind.text) ∷ [];
        next_block_index = 2;
        thinking_block_idx = some 0;
        text_block_idx = some 1;
        accumulated_text = append_text "" spoken;
      }),
  ground arith,
  refl,
)

-- ===== src/AnthropicBridge/Messages.antt =====
-- app/proxy/anthropic_bridge.py: proofs that a client accepts a translated stream.
use guardian_llmprovider_gat.Prelude.{
  ◌≡◌, refl, String, Bool, true, false, none, some, [], if◌then◌else◌,
}
use guardian_llmprovider_gat.Value.{
  pos, Value, int, list, mapping, nil, cons, Fields, end, get, or_null, truthy,
}
use guardian_llmprovider_gat.AnthropicBridge.{or_default, map_stop_reason, emit, raise, ◌>>=◌}
use guardian_llmprovider_gat.AnthropicBridge.Stream.{
  Runtime, Translation, extract_usage, emit_reasoning, emit_text, emit_tool_calls, set_stop_reason,
}
use guardian_llmprovider_gat.AnthropicBridge.Generator.{
  delta_of, reasoning_of, content_of, tool_calls_of, on_choice, on_choices, on_chunk,
}
use guardian_llmprovider_gat.AnthropicBridge.Protocol.{
  observe_all, view, Follows, Follows->>=, Follows-none, Follows-raise,
}
use guardian_llmprovider_gat.AnthropicBridge.Parts.{Kept, emit_reasoning-Follows}
use guardian_llmprovider_gat.AnthropicBridge.Closing.{emit_text-Follows}
use guardian_llmprovider_gat.AnthropicBridge.ToolCalls.{emit_tool_calls-Follows}

-- A change of what is no block.
same_blocks :
    (strict settled : Bool) (s : Translation) (i o : Value) (r : String)
    → Kept settled s
    → Follows strict
        (Kept settled)
        s
        (emit [] (record s { input_tokens = i; output_tokens = o; stop_reason = r }))
unfolding observe_all
same_blocks strict settled s i o r (h, more) = (
  view s,
  refl,
  (
    (record { ordered = h.ordered; thinks = h.thinks; texts = h.texts; calls = h.calls }, more),
    refl,
  ),
)

set_stop_reason-Follows :
    (strict settled : Bool) (v : Value) (s : Translation)
    → Kept settled s
    → Follows strict (Kept settled) s (set_stop_reason v s)
unfolding set_stop_reason
set_stop_reason-Follows strict settled v s h =
    elim (truthy v)
      as (λ b. Follows strict (Kept settled) s (
        if b
        then elim (map_stop_reason v) [
          | none ↦ raise
          | some r ↦ emit [] (record s { stop_reason = r })
        ]
        else emit [] s)) [
          | true ↦
              elim (map_stop_reason v)
                as (λ o.
                  Follows strict (Kept settled) s
                    (elim o [ none ↦ raise | some r ↦ emit [] (record s { stop_reason = r }) ])) [
                      | none ↦ Follows-raise strict (Kept settled) s
                      | some r ↦ same_blocks strict settled s s.input_tokens s.output_tokens r h
                    ]
          | false ↦ Follows-none strict (Kept settled) s h
        ]

extract_usage-Follows :
    (strict settled : Bool) (rt : Runtime) (v : Value) (s : Translation)
    → Kept settled s
    → Follows strict (Kept settled) s (extract_usage rt v s)
unfolding extract_usage
extract_usage-Follows strict settled rt (mapping usage) s h =
    let prompt =
      or_default (or_default (int (pos 0)) (get "input_tokens" usage))
        (get "prompt_tokens" usage) in
    let completion =
      or_default (or_default (int (pos 0)) (get "output_tokens" usage))
        (get "completion_tokens" usage) in
    elim (rt.larger s.input_tokens prompt)
      as (λ a. Follows strict (Kept settled) s (elim a [
        | none ↦ raise
        | some i ↦ elim (rt.larger s.output_tokens completion) [
          | none ↦ raise
          | some o ↦ emit [] (record s { input_tokens = i; output_tokens = o })
        ]
      ])) [
        | none ↦ Follows-raise strict (Kept settled) s
        | some i ↦
            elim (rt.larger s.output_tokens completion)
              as (λ c. Follows strict (Kept settled) s (elim c [
                | none ↦ raise
                | some o ↦ emit [] (record s { input_tokens = i; output_tokens = o })
              ])) [
                | none ↦ Follows-raise strict (Kept settled) s
                | some o ↦ same_blocks strict settled s i o s.stop_reason h
              ]
      ]
extract_usage-Follows strict settled rt _ s h = Follows-none strict (Kept settled) s h

-- What a chunk may hold for a client that is followed so far: `before_text` no text, and otherwise,
-- where the client is strict, no thinking.
abbrev pub Suits : (strict before_text : Bool) → Fields → Type 0
Suits strict true delta = truthy (content_of delta) ≡ false
Suits strict false delta = strict ≡ true → truthy (reasoning_of delta) ≡ false

reasoning-Follows :
    (strict : Bool) (v : Value) (s : Translation)
    → (strict ≡ true → truthy v ≡ false)
    → Kept false s
    → Follows strict (Kept false) s (emit_reasoning v s)
unfolding emit_reasoning
reasoning-Follows true v s quiet h = rw (quiet refl) (Follows-none true (Kept false) s h)
reasoning-Follows false v s quiet h = emit_reasoning-Follows false false v s (λ e. e) h

first_part :
    (strict before : Bool) (delta : Fields) (s : Translation)
    → Suits strict before delta
    → Kept before s
    → Follows strict (Kept before) s (emit_reasoning (reasoning_of delta) s)
first_part strict true delta s suits h =
    emit_reasoning-Follows strict true (reasoning_of delta) s (λ e. refl) h
first_part strict false delta s suits h = reasoning-Follows strict (reasoning_of delta) s suits h

text_part :
    (strict before : Bool) (delta : Fields) (s : Translation)
    → Suits strict before delta
    → Kept before s
    → Follows strict (Kept before) s (emit_text (content_of delta) s)
unfolding emit_text
text_part strict true delta s suits h = rw suits (Follows-none strict (Kept true) s h)
text_part strict false delta s suits h = emit_text-Follows strict (content_of delta) s h

on_choice-Follows :
    (strict before : Bool) (rt : Runtime) (choice : Fields) (s : Translation)
    → Suits strict before (delta_of choice)
    → Kept before s
    → Follows strict (Kept before) s (on_choice rt choice s)
unfolding on_choice
on_choice-Follows strict before rt choice s suits h =
    let delta = delta_of choice in
    let K = Kept before in
    let finish = λ (s3 : Translation). set_stop_reason (or_null (get "finish_reason" choice)) s3 in
    let calls = λ (s2 : Translation). emit_tool_calls rt (tool_calls_of delta) s2 >>= finish in
    let texts = λ (s1 : Translation). emit_text (content_of delta) s1 >>= calls in
    Follows->>= strict K K s (emit_reasoning (reasoning_of delta) s) texts
      (first_part strict before delta s suits h)
      (λ s1 h1.
        Follows->>= strict K K s1 (emit_text (content_of delta) s1) calls
          (text_part strict before delta s1 suits h1)
          (λ s2 h2.
            Follows->>= strict K K s2 (emit_tool_calls rt (tool_calls_of delta) s2) finish
              (emit_tool_calls-Follows strict before rt (tool_calls_of delta) s2 h2)
              (λ s3 h3.
                set_stop_reason-Follows strict before (or_null (get "finish_reason" choice)) s3
                  h3)))

-- The delta of the first choice, or an empty one.
abbrev pub first_delta : Value → Fields
first_delta (list (cons (mapping choice) _)) = delta_of choice
first_delta _ = end

abbrev pub chunk_delta : Value → Fields
chunk_delta (mapping chunk) = first_delta (or_default (list nil) (get "choices" chunk))
chunk_delta _ = end

falsy_or_raise :
    (strict before b : Bool) (s : Translation)
    → Kept before s
    → Follows strict (Kept before) s (if b then raise else emit [] s)
falsy_or_raise strict before true s h = Follows-raise strict (Kept before) s
falsy_or_raise strict before false s h = Follows-none strict (Kept before) s h

on_choices-Follows :
    (strict before : Bool) (rt : Runtime) (v : Value) (s : Translation)
    → Suits strict before (first_delta v)
    → Kept before s
    → Follows strict (Kept before) s (on_choices rt v s)
unfolding on_choices
on_choices-Follows strict before rt (list (cons (mapping choice) cs)) s suits h =
    on_choice-Follows strict before rt choice s suits h
on_choices-Follows strict before rt (list nil) s suits h =
    falsy_or_raise strict before (truthy (list nil)) s h
on_choices-Follows strict before rt (list (cons v vs)) s suits h =
    falsy_or_raise strict before (truthy (list (cons v vs))) s h
on_choices-Follows strict before rt v s suits h = falsy_or_raise strict before (truthy v) s h

pub on_chunk-Follows :
    (strict before : Bool) (rt : Runtime) (v : Value) (s : Translation)
    → Suits strict before (chunk_delta v)
    → Kept before s
    → Follows strict (Kept before) s (on_chunk rt v s)
unfolding on_chunk
on_chunk-Follows strict before rt (mapping chunk) s suits h =
    let choices = or_default (list nil) (get "choices" chunk) in
    Follows->>= strict (Kept before) (Kept before) s
      (extract_usage rt (or_null (get "usage" chunk)) s) (on_choices rt choices)
      (extract_usage-Follows strict before rt (or_null (get "usage" chunk)) s h)
      (λ t k. on_choices-Follows strict before rt choices t suits k)
on_chunk-Follows strict before rt _ s suits h = Follows-raise strict (Kept before) s

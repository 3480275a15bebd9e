-- ===== src/AnthropicBridge/Content.antt =====
-- app/proxy/anthropic_bridge.py: what each part of the translation of a chunk says.
use guardian_llmprovider_gat.Prelude.{
  ℕ, ◌≡◌, refl, Bool, true, false, Option, none, some, [], ◌∷◌, if◌then◌else◌, arith, Bool-cases,
  inl, inr,
}
use guardian_llmprovider_gat.Value.{
  pos, Value, int, text, list, mapping, Items, nil, cons, Fields, get, truthy,
}
use guardian_llmprovider_gat.AnthropicBridge.{
  or_default, is_hashable, input_json_delta, content_block_delta, Emit, emit, raise, ◌>>=◌,
}
use guardian_llmprovider_gat.AnthropicBridge.Stream.{
  Runtime, Translation, extract_usage, emit_reasoning, reasoning_at, close_thinking, close_text,
  put_text, text_at, accumulate, emit_text, block_of_call, fragment, arguments_of, function_of,
  tool_call_at, emit_tool_call, each_tool_call, tool_calls_in, emit_tool_calls, set_stop_reason,
}
use guardian_llmprovider_gat.AnthropicBridge.Said.{
  Said, nothing, thinks, says, argues, said_by, if_true, said_in_calls, said_in_list, Says,
  Says->>=,
}

pub extract_usage-Says :
    (rt : Runtime) (v : Value) (s : Translation) → Says nothing (extract_usage rt v s)
unfolding extract_usage said_by
extract_usage-Says rt (mapping usage) s =
    let prompt =
      or_default (or_default (int (pos 0)) (get "input_tokens" usage))
        (get "prompt_tokens" usage) in
    let completion =
      or_default (or_default (int (pos 0)) (get "output_tokens" usage))
        (get "completion_tokens" usage) in
    elim (rt.larger s.input_tokens prompt)
      as (λ a. Says {A = Translation} nothing (elim a [
        | none ↦ raise
        | some i ↦ elim (rt.larger s.output_tokens completion) [
          | none ↦ raise
          | some o ↦ emit [] (record s { input_tokens = i; output_tokens = o })
        ]
      ])) [
        | none ↦ tt
        | some i ↦
            elim (rt.larger s.output_tokens completion)
              as (λ c. Says {A = Translation} nothing (elim c [
                | none ↦ raise
                | some o ↦ emit [] (record s { input_tokens = i; output_tokens = o })
              ])) [ none ↦ tt | some o ↦ refl ]
      ]
extract_usage-Says rt _ s = refl

reasoning_at-Says :
    (o : Option ℕ) (v : Value) (s : Translation) → Says (thinks v) (reasoning_at o v s)
unfolding reasoning_at said_by
reasoning_at-Says none v s = refl
reasoning_at-Says (some i) v s = refl

if_true-Says :
    (f : Value → Said) (v : Value) (s : Translation) (m : Emit Translation)
    → Says (f v) m
    → Says (if_true f v) (if truthy v then m else emit [] s)
unfolding said_by
if_true-Says f v s m h =
    elim (truthy v) as (λ b. Says (if b then f v else nothing) (if b then m else emit [] s)) [
      | true ↦ h
      | false ↦ refl
    ]

pub emit_reasoning-Says :
    (v : Value) (s : Translation) → Says (if_true thinks v) (emit_reasoning v s)
unfolding emit_reasoning
emit_reasoning-Says v s =
    if_true-Says thinks v s (reasoning_at s.thinking_block_idx v s)
      (reasoning_at-Says s.thinking_block_idx v s)

close_thinking-Says : (reset : Bool) (s : Translation) → Says nothing (close_thinking reset s)
unfolding close_thinking said_by
close_thinking-Says reset s = ground arith

close_text-Says : (s : Translation) → Says nothing (close_text s)
unfolding close_text said_by
close_text-Says s = ground arith

text_at-Says : (o : Option ℕ) (v : Value) (s : Translation) → Says (says v) (text_at o v s)
unfolding text_at said_by
text_at-Says none v s = refl
text_at-Says (some i) v s = refl

put_text-Says : (v : Value) (s : Translation) → Says (says v) (put_text v s)
unfolding put_text
put_text-Says v s = text_at-Says s.text_block_idx v s

accumulate-Says : (v : Value) (s : Translation) → Says nothing (accumulate v s)
unfolding accumulate said_by
accumulate-Says (text t) s = refl
accumulate-Says _ s = tt

pub emit_text-Says : (v : Value) (s : Translation) → Says (if_true says v) (emit_text v s)
unfolding emit_text
emit_text-Says v s =
    let last = λ (s2 : Translation). accumulate v s2 in
    let rest = λ (s1 : Translation). put_text v s1 >>= last in
    if_true-Says says v s (close_thinking false s >>= rest) (
      Says->>= nothing (says v) (close_thinking false s) rest (close_thinking-Says false s) (λ s1.
        Says->>= (says v) nothing (put_text v s1) last (put_text-Says v s1)
          (λ s2. accumulate-Says v s2)))

said_by-fragment : (i : ℕ) (v : Value) → said_by (fragment i v) ≡ if_true argues v
unfolding said_by
said_by-fragment i v =
    elim (truthy v)
      as (λ b.
        said_by (if b then content_block_delta i (input_json_delta v) ∷ [] else [])
        ≡ (if b then argues v else nothing)) [ true ↦ refl | false ↦ refl ]

tool_call_at-Says :
    (o : Option ℕ) (rt : Runtime) (index : Value) (tc func : Fields) (s : Translation)
    → Says (if_true argues (arguments_of func)) (tool_call_at o rt index tc func s)
unfolding tool_call_at said_by
tool_call_at-Says none rt index tc func s = said_by-fragment s.next_block_index (arguments_of func)
tool_call_at-Says (some i) rt index tc func s = said_by-fragment i (arguments_of func)

pub emit_tool_call-Says :
    (rt : Runtime) (tc : Fields) (s : Translation)
    → Says (if_true argues (arguments_of (function_of tc))) (emit_tool_call rt tc s)
unfolding emit_tool_call
emit_tool_call-Says rt tc s =
    let index = or_default (int (pos 0)) (get "index" tc) in
    let at = block_of_call rt.same_key index s.tool_call_index_map in
    elim (is_hashable index)
      as (λ b.
        Says (if_true argues (arguments_of (function_of tc)))
          (if b then tool_call_at at rt index tc (function_of tc) s else raise)) [
            | true ↦ tool_call_at-Says at rt index tc (function_of tc) s
            | false ↦ tt
          ]

each_tool_call-Says :
    (rt : Runtime) (tcs : Items) (s : Translation)
    → Says (said_in_calls tcs) (each_tool_call rt tcs s)
unfolding each_tool_call said_in_calls said_by
each_tool_call-Says rt nil s = refl
each_tool_call-Says rt (cons (mapping tc) tcs) s =
    Says->>= (if_true argues (arguments_of (function_of tc))) (said_in_calls tcs)
      (emit_tool_call rt tc s) (each_tool_call rt tcs) (emit_tool_call-Says rt tc s)
      (λ t. each_tool_call-Says rt tcs t)
each_tool_call-Says rt (cons _ tcs) s = each_tool_call-Says rt tcs s

tool_calls_in-Says :
    (rt : Runtime) (v : Value) (s : Translation) → Says (said_in_list v) (tool_calls_in rt v s)
unfolding tool_calls_in said_by
tool_calls_in-Says rt (list tcs) s = each_tool_call-Says rt tcs s
tool_calls_in-Says rt (text t) s = refl
tool_calls_in-Says rt (mapping fs) s = refl
tool_calls_in-Says rt _ s = tt

-- Tool calls that are false in Python say nothing: a list is, only if it is empty.
said_in_falsy : (v : Value) → truthy v ≡ false → said_in_list v ≡ nothing
unfolding truthy said_in_calls
said_in_falsy (list nil) h = refl
said_in_falsy (list (cons x xs)) h = cc
said_in_falsy _ h = refl

pub emit_tool_calls-Says :
    (rt : Runtime) (v : Value) (s : Translation) → Says (said_in_list v) (emit_tool_calls rt v s)
unfolding emit_tool_calls said_by
emit_tool_calls-Says rt v s = elim (Bool-cases (truthy v)) [
  | inr no_calls ↦ rw (no_calls, said_in_falsy v no_calls) refl
  | inl calls ↦
      let last = λ (s2 : Translation). tool_calls_in rt v s2 in
      let rest = λ (s1 : Translation). close_thinking true s1 >>= last in
      rw calls (
        Says->>= nothing (said_in_list v) (close_text s) rest (close_text-Says s) (λ s1.
          Says->>= nothing (said_in_list v) (close_thinking true s1) last
            (close_thinking-Says true s1) (λ s2. tool_calls_in-Says rt v s2)))
]

pub set_stop_reason-Says : (v : Value) (s : Translation) → Says nothing (set_stop_reason v s)
unfolding set_stop_reason said_by
set_stop_reason-Says v s = ground arith

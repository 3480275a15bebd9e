-- ===== src/AnthropicBridge/ToolCalls.antt =====
-- app/proxy/anthropic_bridge.py: a client follows the tool calls of a chunk.
use guardian_llmprovider_gat.Prelude.{
  ℕ, ◌≡◌, refl, subst, sym, ◌∙◌, inl, inr, Bool, true, false, Option, none, some, List, [], ◌∷◌,
  ◌++◌, if◌then◌else◌, Bool-cases,
}
use guardian_llmprovider_gat.Value.{
  pos, Value, int, text, list, mapping, Items, nil, cons, Fields, get, truthy,
}
use guardian_llmprovider_gat.AnthropicBridge.{
  or_default, is_hashable, Kind, tool_use_block, input_json_delta, content_block_start,
  content_block_delta, emit, raise, ◌>>=◌,
}
use guardian_llmprovider_gat.AnthropicBridge.Stream.{
  Runtime, Translation, opened, close_text, close_thinking, block_of_call, fragment, arguments_of,
  function_of, tool_call_at, emit_tool_call, each_tool_call, tool_calls_in, emit_tool_calls,
}
use guardian_llmprovider_gat.AnthropicBridge.Protocol.{
  observe_all, observe_all-cons, view, Follows, Follows->>=, Follows-none, Follows-raise,
}
use guardian_llmprovider_gat.AnthropicBridge.Invariant.{
  IsOpen, IfSome, AreCalls, Inv-opened, IsOpen-new, IsOpen-opened, Settled,
}
use guardian_llmprovider_gat.AnthropicBridge.Parts.{
  IfTrue, Kept, observe-start, observe_delta-alone,
}
use guardian_llmprovider_gat.AnthropicBridge.Closing.{close_text-Follows, close_thinking-Follows}

AreCalls-snoc :
    (s : Translation) (v : Value) (n : ℕ) (calls : List (Value × ℕ))
    → AreCalls s calls
    → IsOpen Kind.tool_use n s
    → AreCalls s (calls ++ (v, n) ∷ [])
AreCalls-snoc s v n [] h o = (o, tt)
AreCalls-snoc s v n (c ∷ calls) h o = (h.0, AreCalls-snoc s v n calls h.1 o)

block_of_call-IsOpen :
    (s : Translation) (same : Value → Value → Bool) (index : Value) (calls : List (Value × ℕ))
    (i : ℕ)
    → AreCalls s calls
    → block_of_call same index calls ≡ some i
    → IsOpen Kind.tool_use i s
unfolding block_of_call
block_of_call-IsOpen s same index [] i h e = absurd (none_some e)
  where
    none_some : none ≡ some i → ⊥
    none_some p = cc
block_of_call-IsOpen s same index ((k, n) ∷ calls) i h e = elim (Bool-cases (same k index)) [
  | inl here ↦
      let at : some n ≡ some i = sym (rw here) ∙ e in
      subst (λ (m : ℕ). IsOpen Kind.tool_use m s) (cc) h.0
  | inr there ↦ block_of_call-IsOpen s same index calls i h.1 (rw there at e)
]

observe-fragment :
    (strict : Bool) (i : ℕ) (v : Value) (s : Translation)
    → IsOpen Kind.tool_use i s
    → observe_all strict (fragment i v) (view s) ≡ some (view s)
unfolding observe_all
observe-fragment strict i v s o =
    elim (truthy v)
      as (λ b.
        observe_all strict (if b then content_block_delta i (input_json_delta v) ∷ [] else [])
          (view s)
        ≡ some (view s)) [
          | true ↦ observe_delta-alone strict i (input_json_delta v) s o
          | false ↦ refl
        ]

Kept-call :
    (settled : Bool) (index : Value) (s : Translation)
    → Kept settled s
    → Kept settled (record (opened Kind.tool_use s) {
      tool_call_index_map = s.tool_call_index_map ++ (index, s.next_block_index) ∷ [];
    })
Kept-call settled index s (h, more) =
    let all = Inv-opened Kind.tool_use s h in
    let t = opened Kind.tool_use s in
    (
      record {
        ordered = all.ordered;
        thinks = all.thinks;
        texts = all.texts;
        calls =
            AreCalls-snoc t index s.next_block_index s.tool_call_index_map all.calls
              (IsOpen-new Kind.tool_use s h);
      },
      after settled more,
    )
  where
    still :
        (o : Option ℕ)
        → IfSome (λ n. IsOpen Kind.thinking n s) o
        → IfSome (λ n. IsOpen Kind.thinking n (opened Kind.tool_use s)) o
    still none t = tt
    still (some n) t = IsOpen-opened Kind.tool_use s Kind.thinking n t

    after : (b : Bool) → IfTrue b (Settled s) → IfTrue b (Settled (opened Kind.tool_use s))
    after true m = still s.thinking_block_idx m
    after false m = tt

tool_call_at-Follows :
    (strict settled : Bool) (o : Option ℕ) (rt : Runtime) (index : Value) (tc func : Fields)
    (s : Translation)
    → block_of_call rt.same_key index s.tool_call_index_map ≡ o
    → Kept settled s
    → Follows strict (Kept settled) s (tool_call_at o rt index tc func s)
unfolding tool_call_at
tool_call_at-Follows strict settled none rt index tc func s e h =
    let n = s.next_block_index in
    let t = opened Kind.tool_use s in
    let b =
      tool_use_block (or_default (rt.call_id n) (get "id" tc))
        (or_default (text "") (get "name" func)) in
    (
      view t,
      observe_all-cons strict (content_block_start n b) (fragment n (arguments_of func)) (view s)
          (view t) (some (view t)) (observe-start strict b s)
          (observe-fragment strict n (arguments_of func) t (IsOpen-new Kind.tool_use s h.0)),
      (Kept-call settled index s h, refl),
    )
tool_call_at-Follows strict settled (some i) rt index tc func s e h = (
  view s,
  observe-fragment strict i (arguments_of func) s
      (block_of_call-IsOpen s rt.same_key index s.tool_call_index_map i h.0.calls e),
  (h, refl),
)

emit_tool_call-Follows :
    (strict settled : Bool) (rt : Runtime) (tc : Fields) (s : Translation)
    → Kept settled s
    → Follows strict (Kept settled) s (emit_tool_call rt tc s)
unfolding emit_tool_call
emit_tool_call-Follows strict settled rt tc s h =
    let index = or_default (int (pos 0)) (get "index" tc) in
    elim (is_hashable index)
      as (λ b. Follows strict (Kept settled) s (
        if b
        then tool_call_at (block_of_call rt.same_key index s.tool_call_index_map) rt index tc
            (function_of tc) s
        else raise)) [
          | true ↦
              tool_call_at-Follows strict settled
                (block_of_call rt.same_key index s.tool_call_index_map) rt index tc (function_of tc)
                s refl h
          | false ↦ Follows-raise strict (Kept settled) s
        ]

each_tool_call-Follows :
    (strict settled : Bool) (rt : Runtime) (tcs : Items) (s : Translation)
    → Kept settled s
    → Follows strict (Kept settled) s (each_tool_call rt tcs s)
unfolding each_tool_call
each_tool_call-Follows strict settled rt nil s h = Follows-none strict (Kept settled) s h
each_tool_call-Follows strict settled rt (cons (mapping tc) tcs) s h =
    Follows->>= strict (Kept settled) (Kept settled) s (emit_tool_call rt tc s)
      (each_tool_call rt tcs) (emit_tool_call-Follows strict settled rt tc s h)
      (λ t k. each_tool_call-Follows strict settled rt tcs t k)
each_tool_call-Follows strict settled rt (cons _ tcs) s h =
    each_tool_call-Follows strict settled rt tcs s h

tool_calls_in-Follows :
    (strict settled : Bool) (rt : Runtime) (v : Value) (s : Translation)
    → Kept settled s
    → Follows strict (Kept settled) s (tool_calls_in rt v s)
unfolding tool_calls_in
tool_calls_in-Follows strict settled rt (list tcs) s h =
    each_tool_call-Follows strict settled rt tcs s h
tool_calls_in-Follows strict settled rt (text t) s h = Follows-none strict (Kept settled) s h
tool_calls_in-Follows strict settled rt (mapping fs) s h = Follows-none strict (Kept settled) s h
tool_calls_in-Follows strict settled rt _ s h = Follows-raise strict (Kept settled) s

pub emit_tool_calls-Follows :
    (strict settled : Bool) (rt : Runtime) (v : Value) (s : Translation)
    → Kept settled s
    → Follows strict (Kept settled) s (emit_tool_calls rt v s)
unfolding emit_tool_calls
emit_tool_calls-Follows strict settled rt v s h =
    elim (truthy v)
      as (λ b. Follows strict (Kept settled) s (
        if b
        then close_text s >>= (λ s1. close_thinking true s1 >>= (λ s2. tool_calls_in rt v s2))
        else emit [] s)) [
          | true ↦
              Follows->>= strict (Kept settled) (Kept settled) s (close_text s)
                (λ s1. close_thinking true s1 >>= (λ s2. tool_calls_in rt v s2))
                (close_text-Follows strict settled s h)
                (λ s1 h1.
                  Follows->>= strict (Kept settled) (Kept settled) s1 (close_thinking true s1)
                    (λ s2. tool_calls_in rt v s2) (close_thinking-Follows strict true settled s1 h1)
                    (λ s2 h2. tool_calls_in-Follows strict settled rt v s2 h2))
          | false ↦ Follows-none strict (Kept settled) s h
        ]

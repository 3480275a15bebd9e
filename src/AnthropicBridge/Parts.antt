-- ===== src/AnthropicBridge/Parts.antt =====
-- app/proxy/anthropic_bridge.py: a client follows each part of the translation of a chunk.
use guardian_llmprovider_gat.Prelude.{
  ℕ, ◌<◌, ◌≡◌, refl, subst, sym, inr, Bool, true, false, Option, none, some, [], ◌∷◌, if◌then◌else◌,
  arith,
}
use mathlib.Core.Bool.{false≢true}
use guardian_llmprovider_gat.Value.{Value, truthy}
use guardian_llmprovider_gat.AnthropicBridge.{
  Kind, Block, thinking_block, Delta, thinking_delta, signature_delta, text_delta, input_json_delta,
  content_block_start, content_block_delta, content_block_stop, emit,
}
use guardian_llmprovider_gat.AnthropicBridge.Stream.{
  Translation, kind_at, opened, emit_reasoning, reasoning_at,
}
use guardian_llmprovider_gat.AnthropicBridge.Protocol.{
  observe, observe_all, observe_all-cons, view, Follows, Follows-none, kind_of_block, kind_of_delta,
}
use guardian_llmprovider_gat.AnthropicBridge.Invariant.{
  IsOpen, WasOpen, IfSome, Inv, Inv-opened, IsOpen-new, closed, Settled,
}

-- What a part keeps: the invariant, and where `settled` that started thinking is open.
abbrev pub IfTrue : Bool → Type 0 → Type 0
IfTrue true A = A
IfTrue false A = Unit

abbrev pub Kept : (settled : Bool) → Translation → Type 0
Kept settled s = Inv s × IfTrue settled (Settled s)

pub observe-start :
    (strict : Bool) (b : Block) (s : Translation)
    → observe strict (content_block_start s.next_block_index b) (view s)
      ≡ some (view (opened (kind_of_block b) s))
unfolding observe
observe-start strict b s = ground arith

pub observe-delta :
    (strict : Bool) (i : ℕ) (d : Delta) (s : Translation)
    → IsOpen (kind_of_delta d) i s
    → observe strict (content_block_delta i d) (view s) ≡ some (view s)
unfolding observe
observe-delta true i (thinking_delta v) s h = rw h.1
observe-delta true i signature_delta s h = rw h.1
observe-delta true i (text_delta v) s h = rw h.1
observe-delta true i (input_json_delta v) s h = rw h.1
observe-delta false i (thinking_delta v) s h = ground arith
observe-delta false i signature_delta s h = rw h.1
observe-delta false i (text_delta v) s h = rw h.1
observe-delta false i (input_json_delta v) s h = rw h.1

pub observe-stop :
    (strict : Bool) (i : ℕ) (k : Kind) (s : Translation)
    → kind_at i s.open_blocks ≡ some k
    → observe strict (content_block_stop i) (view s) ≡ some (view (closed i s))
unfolding observe
observe-stop strict i k s h = rw h

-- A stop of the thinking block, with the signature before it.
pub observe-sign :
    (strict : Bool) (i : ℕ) (s : Translation)
    → IsOpen Kind.thinking i s
    → observe_all strict
        (content_block_delta i signature_delta ∷ content_block_stop i ∷ [])
        (view s)
      ≡ some (view (closed i s))
unfolding observe_all
observe-sign strict i s h =
    observe_all-cons strict (content_block_delta i signature_delta) (content_block_stop i ∷ [])
      (view s) (view s) (some (view (closed i s))) (observe-delta strict i signature_delta s h)
      (observe_all-cons strict (content_block_stop i) [] (view s) (view (closed i s))
        (some (view (closed i s))) (observe-stop strict i Kind.thinking s h.1) refl)

-- A start, and a delta of the new block.
pub observe-start-delta :
    (strict : Bool) (b : Block) (d : Delta) (s : Translation)
    → Inv s
    → kind_of_delta d ≡ kind_of_block b
    → observe_all strict
        (content_block_start s.next_block_index b ∷ content_block_delta s.next_block_index d ∷ [])
        (view s)
      ≡ some (view (opened (kind_of_block b) s))
unfolding observe_all
observe-start-delta strict b d s h e =
    let n = s.next_block_index in
    let t = opened (kind_of_block b) s in
    observe_all-cons strict (content_block_start n b) (content_block_delta n d ∷ []) (view s)
      (view t) (some (view t)) (observe-start strict b s)
      (observe_all-cons strict (content_block_delta n d) [] (view t) (view t) (some (view t))
        (observe-delta strict n d t
          (subst (λ (k : Kind). IsOpen k n t) (sym e) (IsOpen-new (kind_of_block b) s h)))
        refl)

pub observe_delta-alone :
    (strict : Bool) (i : ℕ) (d : Delta) (s : Translation)
    → IsOpen (kind_of_delta d) i s
    → observe_all strict (content_block_delta i d ∷ []) (view s) ≡ some (view s)
unfolding observe_all
observe_delta-alone strict i d s h =
    observe_all-cons strict (content_block_delta i d) [] (view s) (view s) (some (view s))
      (observe-delta strict i d s h) refl

-- Thinking for a block that was started, where the client is lenient.
observe_thinking-lenient :
    (i : ℕ) (v : Value) (s : Translation)
    → i < s.next_block_index
    → observe_all false (content_block_delta i (thinking_delta v) ∷ []) (view s) ≡ some (view s)
unfolding observe_all
observe_thinking-lenient i v s h = ground arith

Kept-think :
    (settled : Bool) (s : Translation)
    → Kept settled s
    → Kept settled
        (record (opened Kind.thinking s) { thinking_block_idx = some s.next_block_index })
Kept-think settled s (h, more) =
    let n = s.next_block_index in
    let new = IsOpen-new Kind.thinking s h in
    let all = Inv-opened Kind.thinking s h in
    (
      record {
        ordered = all.ordered;
        thinks = (new.0, inr new.1);
        texts = all.texts;
        calls = all.calls;
      },
      after settled new,
    )
  where
    after :
        (b : Bool)
        → IsOpen Kind.thinking s.next_block_index (opened Kind.thinking s)
        → IfTrue b (IsOpen Kind.thinking s.next_block_index (opened Kind.thinking s))
    after true o = o
    after false o = tt

reasoning_at-Follows :
    (strict settled : Bool) (o : Option ℕ) (v : Value) (s : Translation)
    → (strict ≡ true → settled ≡ true)
    → o ≡ s.thinking_block_idx
    → Kept settled s
    → Follows strict (Kept settled) s (reasoning_at o v s)
unfolding reasoning_at
reasoning_at-Follows strict settled none v s ok e h = (
  view (opened Kind.thinking s),
  observe-start-delta strict thinking_block (thinking_delta v) s h.0 refl,
  (Kept-think settled s h, refl),
)
reasoning_at-Follows true true (some i) v s ok e h = (
  view s,
  observe_delta-alone true i (thinking_delta v) s
      (subst (IfSome (λ n. IsOpen Kind.thinking n s)) (sym e) h.1),
  (h, refl),
)
reasoning_at-Follows true false (some i) v s ok e h = absurd (false≢true (ok refl))
reasoning_at-Follows false settled (some i) v s ok e h =
    let was : WasOpen Kind.thinking i s =
      subst (IfSome (λ n. WasOpen Kind.thinking n s)) (sym e) h.0.thinks in
    (view s, observe_thinking-lenient i v s was.0, (h, refl))

-- Where the client is strict, thinking is followed if what was started is open.
pub emit_reasoning-Follows :
    (strict settled : Bool) (v : Value) (s : Translation)
    → (strict ≡ true → settled ≡ true)
    → Kept settled s
    → Follows strict (Kept settled) s (emit_reasoning v s)
unfolding emit_reasoning
emit_reasoning-Follows strict settled v s ok h =
    elim (truthy v)
      as (λ b.
        Follows strict (Kept settled) s
          (if b then reasoning_at s.thinking_block_idx v s else emit [] s)) [
            | true ↦ reasoning_at-Follows strict settled s.thinking_block_idx v s ok refl h
            | false ↦ Follows-none strict (Kept settled) s h
          ]

-- ===== src/AnthropicBridge/Closing.antt =====
-- app/proxy/anthropic_bridge.py: a client follows the blocks that are closed, and the text deltas.
use guardian_llmprovider_gat.Prelude.{
  ℕ, ◌≡◌, refl, subst, sym, ◌∙◌, inl, inr, Bool, true, false, Option, none, some, [], ◌∷◌,
  if◌then◌else◌, Option-cases,
}
use guardian_llmprovider_gat.Value.{Value, truthy, text}
use guardian_llmprovider_gat.AnthropicBridge.{
  Kind, text_block, signature_delta, text_delta, content_block_delta, content_block_stop, emit,
  ◌>>=◌,
}
use guardian_llmprovider_gat.AnthropicBridge.Stream.{
  Translation, kind_at, opened, close_thinking, close_thinking_at, close_text, close_text_at,
  put_text, text_at, accumulate, emit_text,
}
use guardian_llmprovider_gat.AnthropicBridge.Blocks.{Between-close}
use guardian_llmprovider_gat.AnthropicBridge.Protocol.{
  observe_all, observe_all-cons, view, Follows, Follows->>=, Follows-none,
}
use guardian_llmprovider_gat.AnthropicBridge.Invariant.{
  IsOpen, WasOpen, IfSome, Inv-opened, IsOpen-new, IsOpen-closed, closed, Settled,
  Inv-close_thinking, thinks-closed, calls-closed,
}
use guardian_llmprovider_gat.AnthropicBridge.Parts.{
  IfTrue, Kept, observe-stop, observe-sign, observe-start-delta, observe_delta-alone,
}

abbrev without_thinking : Bool → ℕ → Translation → Translation
without_thinking reset i s = record (closed i s) {
  thinking_block_idx = if reset then none else some i;
}

-- Whether thinking is settled afterwards: always once the block is given up.
abbrev pub stays : (reset settled : Bool) → Bool
stays true settled = settled
stays false settled = false

Kept-weaken : (b : Bool) (s : Translation) → Kept b s → Kept false s
Kept-weaken b s h = (h.0, tt)

was_thinking :
    (i : ℕ) (k : Kind) (s : Translation)
    → WasOpen Kind.thinking i s
    → kind_at i s.open_blocks ≡ some k
    → kind_at i s.open_blocks ≡ some Kind.thinking
was_thinking i k s (below, inl e) at = cc
was_thinking i k s (below, inr e) at = e

close_open_thinking :
    (strict reset settled : Bool) (i : ℕ) (k : Kind) (s : Translation)
    → s.thinking_block_idx ≡ some i
    → kind_at i s.open_blocks ≡ some k
    → Kept settled s
    → Follows strict (Kept (stays reset settled)) s (
        emit
          (content_block_delta i signature_delta ∷ content_block_stop i ∷ [])
          (without_thinking reset i s))
close_open_thinking strict reset settled i k s e at h =
    let was : WasOpen Kind.thinking i s =
      subst (IfSome (λ n. WasOpen Kind.thinking n s)) e h.0.thinks in
    let thinking = was_thinking i k s was at in
    (
      view (closed i s),
      observe-sign strict i s (was.0, thinking),
      ((Inv-close_thinking reset i s h.0 e thinking, after reset settled), refl),
    )
  where
    after : (r b : Bool) → IfTrue (stays r b) (Settled (without_thinking r i s))
    after true true = tt
    after true false = tt
    after false b = tt

not_settled :
    (reset settled : Bool) (i : ℕ) (s : Translation)
    → s.thinking_block_idx ≡ some i
    → kind_at i s.open_blocks ≡ none
    → Kept settled s
    → Kept (stays reset settled) s
not_settled true true i s e at h =
    let o : IsOpen Kind.thinking i s = subst (IfSome (λ n. IsOpen Kind.thinking n s)) e h.1 in
    absurd (none_some (sym at ∙ o.1))
  where
    none_some : none ≡ some Kind.thinking → ⊥
    none_some p = cc
not_settled true false i s e at h = h
not_settled false settled i s e at h = (h.0, tt)

close_thinking_at-Follows :
    (strict reset settled : Bool) (o : Option ℕ) (s : Translation)
    → s.thinking_block_idx ≡ o
    → Kept settled s
    → Follows strict (Kept (stays reset settled)) s (close_thinking_at o reset s)
unfolding close_thinking_at
close_thinking_at-Follows strict true settled none s e h = Follows-none strict (Kept settled) s h
close_thinking_at-Follows strict false settled none s e h =
    Follows-none strict (Kept false) s (h.0, tt)
close_thinking_at-Follows strict reset settled (some i) s e h =
    elim (Option-cases (kind_at i s.open_blocks)) [
      | inl at ↦ rw at (
          Follows-none strict (Kept (stays reset settled)) s (not_settled reset settled i s e at h))
      | inr (k, at) ↦ rw at (close_open_thinking strict reset settled i k s e at h)
    ]

-- Thinking is closed, for good where `reset` is not set.
pub close_thinking-Follows :
    (strict reset settled : Bool) (s : Translation)
    → Kept settled s
    → Follows strict (Kept (stays reset settled)) s (close_thinking reset s)
unfolding close_thinking
close_thinking-Follows strict reset settled s h =
    close_thinking_at-Follows strict reset settled s.thinking_block_idx s refl h

Kept-close_text :
    (settled : Bool) (i : ℕ) (s : Translation)
    → kind_at i s.open_blocks ≡ some Kind.text
    → Kept settled s
    → Kept settled (record (closed i s) { text_block_idx = none })
Kept-close_text settled i s at (h, more) = (
  record {
    ordered = Between-close 0 s.next_block_index i s.open_blocks h.ordered;
    thinks = thinks-closed Kind.text i s h at s.thinking_block_idx h.thinks;
    texts = tt;
    calls = calls-closed Kind.text i s h at (cc) s.tool_call_index_map h.calls;
  },
  after settled more s.thinking_block_idx,
)
  where
    still :
        (o : Option ℕ)
        → IfSome (λ n. IsOpen Kind.thinking n s) o
        → IfSome (λ n. IsOpen Kind.thinking n (closed i s)) o
    still none t = tt
    still (some n) t = IsOpen-closed Kind.text i s h at Kind.thinking n (cc) t

    after :
        (b : Bool)
        → IfTrue b (Settled s)
        → Option ℕ
        → IfTrue b (IfSome (λ n. IsOpen Kind.thinking n (closed i s)) s.thinking_block_idx)
    after true m o = still s.thinking_block_idx m
    after false m o = tt

close_text_at-Follows :
    (strict settled : Bool) (o : Option ℕ) (s : Translation)
    → s.text_block_idx ≡ o
    → Kept settled s
    → Follows strict (Kept settled) s (close_text_at o s)
unfolding close_text_at observe_all
close_text_at-Follows strict settled none s e h = Follows-none strict (Kept settled) s h
close_text_at-Follows strict settled (some i) s e h =
    let o : IsOpen Kind.text i s = subst (IfSome (λ n. IsOpen Kind.text n s)) e h.0.texts in
    rw o.1 (
      view (closed i s),
      observe_all-cons strict (content_block_stop i) [] (view s) (view (closed i s))
          (some (view (closed i s))) (observe-stop strict i Kind.text s o.1) refl,
      (Kept-close_text settled i s o.1 h, refl),
    )

pub close_text-Follows :
    (strict settled : Bool) (s : Translation)
    → Kept settled s
    → Follows strict (Kept settled) s (close_text s)
unfolding close_text
close_text-Follows strict settled s h =
    close_text_at-Follows strict settled s.text_block_idx s refl h

text_at-Follows :
    (strict : Bool) (o : Option ℕ) (v : Value) (s : Translation)
    → s.text_block_idx ≡ o
    → Kept false s
    → Follows strict (Kept false) s (text_at o v s)
unfolding text_at
text_at-Follows strict none v s e (h, _) =
    let new = IsOpen-new Kind.text s h in
    let all = Inv-opened Kind.text s h in
    (
      view (opened Kind.text s),
      observe-start-delta strict text_block (text_delta v) s h refl,
      (
        (record { ordered = all.ordered; thinks = all.thinks; texts = new; calls = all.calls }, tt),
        refl,
      ),
    )
text_at-Follows strict (some i) v s e h = (
  view s,
  observe_delta-alone strict i (text_delta v) s
      (subst (IfSome (λ n. IsOpen Kind.text n s)) e h.0.texts),
  (h, refl),
)

put_text-Follows :
    (strict : Bool) (v : Value) (s : Translation)
    → Kept false s
    → Follows strict (Kept false) s (put_text v s)
unfolding put_text
put_text-Follows strict v s h = text_at-Follows strict s.text_block_idx v s refl h

accumulate-Follows :
    (strict : Bool) (v : Value) (s : Translation)
    → Kept false s
    → Follows strict (Kept false) s (accumulate v s)
unfolding accumulate observe_all
accumulate-Follows strict (text t) s (h, _) = (
  view s,
  refl,
  ((record { ordered = h.ordered; thinks = h.thinks; texts = h.texts; calls = h.calls }, tt), refl),
)
accumulate-Follows strict _ s h = (view s, refl, tt)

-- Text is followed whether or not thinking is settled, which it is no more afterwards.
pub emit_text-Follows :
    (strict : Bool) (v : Value) (s : Translation)
    → Kept false s
    → Follows strict (Kept false) s (emit_text v s)
unfolding emit_text
emit_text-Follows strict v s h =
    elim (truthy v)
      as (λ b. Follows strict (Kept false) s (
        if b
        then close_thinking false s >>= (λ s1. put_text v s1 >>= (λ s2. accumulate v s2))
        else emit [] s)) [
          | true ↦
              Follows->>= strict (Kept false) (Kept false) s (close_thinking false s)
                (λ s1. put_text v s1 >>= (λ s2. accumulate v s2))
                (close_thinking-Follows strict false false s h)
                (λ s1 h1.
                  Follows->>= strict (Kept false) (Kept false) s1 (put_text v s1)
                    (λ s2. accumulate v s2) (put_text-Follows strict v s1 h1)
                    (λ s2 h2. accumulate-Follows strict v s2 h2))
          | false ↦ Follows-none strict (Kept false) s h
        ]

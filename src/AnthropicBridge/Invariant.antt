-- ===== src/AnthropicBridge/Invariant.antt =====
-- app/proxy/anthropic_bridge.py: what the state of a translation keeps about its open blocks, and that
-- a client follows each part of the translation of a chunk.
use guardian_llmprovider_gat.Prelude.{
  ℕ, ◌<◌, ◌≡◌, ap, subst, ◌∙◌, ◌⊎◌, inl, inr, Bool, true, false, Option, none, some, List, [], ◌∷◌,
  if◌then◌else◌, arith, All,
}
use guardian_llmprovider_gat.Value.{Value}
use guardian_llmprovider_gat.AnthropicBridge.{Kind}
use guardian_llmprovider_gat.AnthropicBridge.Stream.{Translation, kind_at, close_block, opened}
use guardian_llmprovider_gat.AnthropicBridge.Blocks.{
  Between, Between-open, Between-close, kind_at-open, kind_at-opened, kind_at-close,
}

-- The block `i` was started, and is open with the kind `k`.
abbrev pub IsOpen : Kind → ℕ → Translation → Type 0
IsOpen k i s = (i < s.next_block_index) × (kind_at i s.open_blocks ≡ some k)

-- The block `i` was started, and if it is open it has the kind `k`.
abbrev pub WasOpen : Kind → ℕ → Translation → Type 0
WasOpen k i s =
    (i < s.next_block_index)
    × ((kind_at i s.open_blocks ≡ none) ⊎ (kind_at i s.open_blocks ≡ some k))

abbrev pub IfSome : (ℕ → Type 0) → Option ℕ → Type 0
IfSome P none = Unit
IfSome P (some i) = P i

abbrev pub AreCalls : Translation → List (Value × ℕ) → Type 0
AreCalls s calls = All (λ (c : Value × ℕ). IsOpen Kind.tool_use c.1 s) calls

pub record Inv (s : Translation) : Type 0 where
  pub ordered : Between 0 s.next_block_index s.open_blocks
  pub thinks : IfSome (λ i. WasOpen Kind.thinking i s) s.thinking_block_idx
  pub texts : IfSome (λ i. IsOpen Kind.text i s) s.text_block_idx
  pub calls : AreCalls s s.tool_call_index_map

module _ (k : Kind) (s : Translation) where
  pub IsOpen-opened : (l : Kind) (i : ℕ) → IsOpen l i s → IsOpen l i (opened k s)
  IsOpen-opened l i h = (omega arith, kind_at-open i s.next_block_index k s.open_blocks h.0 ∙ h.1)

  WasOpen-opened : (l : Kind) (i : ℕ) → WasOpen l i s → WasOpen l i (opened k s)
  WasOpen-opened l i (h, inl e) =
      (omega arith, inl (kind_at-open i s.next_block_index k s.open_blocks h ∙ e))
  WasOpen-opened l i (h, inr e) =
      (omega arith, inr (kind_at-open i s.next_block_index k s.open_blocks h ∙ e))

  pub thinks-opened :
      (o : Option ℕ)
      → IfSome (λ i. WasOpen Kind.thinking i s) o
      → IfSome (λ i. WasOpen Kind.thinking i (opened k s)) o
  thinks-opened none h = tt
  thinks-opened (some i) h = WasOpen-opened Kind.thinking i h

  pub texts-opened :
      (o : Option ℕ)
      → IfSome (λ i. IsOpen Kind.text i s) o
      → IfSome (λ i. IsOpen Kind.text i (opened k s)) o
  texts-opened none h = tt
  texts-opened (some i) h = IsOpen-opened Kind.text i h

  pub calls-opened : (calls : List (Value × ℕ)) → AreCalls s calls → AreCalls (opened k s) calls
  calls-opened [] h = tt
  calls-opened ((v, i) ∷ calls) h = (IsOpen-opened Kind.tool_use i h.0, calls-opened calls h.1)

  pub Inv-opened : Inv s → Inv (opened k s)
  Inv-opened h = record {
    ordered = Between-open 0 s.next_block_index k s.open_blocks h.ordered;
    thinks = thinks-opened s.thinking_block_idx h.thinks;
    texts = texts-opened s.text_block_idx h.texts;
    calls = calls-opened s.tool_call_index_map h.calls;
  }

  pub IsOpen-new : Inv s → IsOpen k s.next_block_index (opened k s)
  IsOpen-new h = (omega arith, kind_at-opened 0 s.next_block_index k s.open_blocks h.ordered)

abbrev pub closed : ℕ → Translation → Translation
closed j s = record s { open_blocks = close_block j s.open_blocks }

-- Closing the block `j`, which has the kind `k`.
module _ (k : Kind) (j : ℕ) (s : Translation) (h : Inv s)
    (at : kind_at j s.open_blocks ≡ some k) where
  pub IsOpen-closed : (l : Kind) (i : ℕ) → (k ≡ l → ⊥) → IsOpen l i s → IsOpen l i (closed j s)
  IsOpen-closed l i other o = ground (
    arith,
    kind_at-close 0 s.next_block_index i j s.open_blocks h.ordered,
    λ (e : j ≡ i). ap (λ (n : ℕ). kind_at n s.open_blocks) e,
    other,
  )

  WasOpen-closed : (l : Kind) (i : ℕ) → WasOpen l i s → WasOpen l i (closed j s)
  WasOpen-closed l i o =
      ground (arith, kind_at-close 0 s.next_block_index i j s.open_blocks h.ordered)

  pub texts-closed :
      (k ≡ Kind.text → ⊥)
      → (o : Option ℕ) → IfSome (λ i. IsOpen Kind.text i s) o
      → IfSome (λ i. IsOpen Kind.text i (closed j s)) o
  texts-closed other none t = tt
  texts-closed other (some i) t = IsOpen-closed Kind.text i other t

  pub thinks-closed :
      (o : Option ℕ)
      → IfSome (λ i. WasOpen Kind.thinking i s) o
      → IfSome (λ i. WasOpen Kind.thinking i (closed j s)) o
  thinks-closed none t = tt
  thinks-closed (some i) t = WasOpen-closed Kind.thinking i t

  pub calls-closed :
      (k ≡ Kind.tool_use → ⊥)
      → (calls : List (Value × ℕ)) → AreCalls s calls
      → AreCalls (closed j s) calls
  calls-closed other [] t = tt
  calls-closed other ((v, i) ∷ calls) t =
      (IsOpen-closed Kind.tool_use i other t.0, calls-closed other calls t.1)

-- The client of a strict reader also wants that thinking which was started is still open.
abbrev pub Settled : Translation → Type 0
Settled s = IfSome (λ i. IsOpen Kind.thinking i s) s.thinking_block_idx

abbrev pub Strict : Translation → Type 0
Strict s = Inv s × Settled s

pub Inv-reset : (s : Translation) → Inv s → Inv (record s { thinking_block_idx = none })
Inv-reset s h = record { ordered = h.ordered; thinks = tt; texts = h.texts; calls = h.calls }

pub Inv-close_thinking :
    (reset : Bool) (j : ℕ) (s : Translation)
    → Inv s
    → s.thinking_block_idx ≡ some j
    → kind_at j s.open_blocks ≡ some Kind.thinking
    → Inv (record (closed j s) { thinking_block_idx = if reset then none else some j })
Inv-close_thinking reset j s h e at = record {
  ordered = Between-close 0 s.next_block_index j s.open_blocks h.ordered;
  thinks = after reset;
  texts = texts-closed Kind.thinking j s h at (cc) s.text_block_idx h.texts;
  calls = calls-closed Kind.thinking j s h at (cc) s.tool_call_index_map h.calls;
}
  where
    was : IfSome (λ i. WasOpen Kind.thinking i (closed j s)) (some j)
    was =
        subst (IfSome (λ i. WasOpen Kind.thinking i (closed j s))) e
          (thinks-closed Kind.thinking j s h at s.thinking_block_idx h.thinks)

    after :
        (r : Bool) → IfSome (λ i. WasOpen Kind.thinking i (closed j s)) (if r then none else some j)
    after true = tt
    after false = was

-- ===== src/AnthropicBridge/Protocol.antt =====
-- app/proxy/anthropic_bridge.py: what a client of a streamed message expects of the order of its
-- events, and what the parts of a translation keep for it.
use guardian_llmprovider_gat.Prelude.{
  ℕ, suc, ◌≡◌, refl, ap, ◌∙◌, Bool, true, false, Option, none, some, List, [], ◌∷◌, ◌++◌, ltb, ◌==◌,
  if◌then◌else◌, is_some,
}
use guardian_llmprovider_gat.AnthropicBridge.{
  Kind, Block, thinking_block, text_block, tool_use_block, Delta, thinking_delta, signature_delta,
  text_delta, input_json_delta, Event, ping, content_block_start, content_block_delta,
  content_block_stop, Emit, ◌>>=◌,
}
use guardian_llmprovider_gat.AnthropicBridge.Stream.{Translation, kind_at, close_block}

-- What a client knows: how many blocks were started, and which are open, of which kind.
pub record View : Type 0 where
  pub started : ℕ
  pub open_blocks : List (ℕ × Kind)

abbrev pub kind_of_block : Block → Kind
kind_of_block thinking_block = Kind.thinking
kind_of_block text_block = Kind.text
kind_of_block (tool_use_block id name) = Kind.tool_use

abbrev pub kind_of_delta : Delta → Kind
kind_of_delta (thinking_delta v) = Kind.thinking
kind_of_delta signature_delta = Kind.thinking
kind_of_delta (text_delta v) = Kind.text
kind_of_delta (input_json_delta v) = Kind.tool_use

abbrev pub same_kind : Kind → Kind → Bool
same_kind Kind.thinking Kind.thinking = true
same_kind Kind.text Kind.text = true
same_kind Kind.tool_use Kind.tool_use = true
same_kind _ _ = false

abbrev pub fits : Kind → Option Kind → Bool
fits k none = false
fits k (some l) = same_kind k l

abbrev is_thinking : Delta → Bool
is_thinking (thinking_delta v) = true
is_thinking _ = false

-- A delta is for an open block of its kind. Where the client is not `strict`, thinking is welcome
-- for any block that was started.
abbrev pub delta_ok : (strict : Bool) → ℕ → Delta → View → Bool
delta_ok true i d v = fits (kind_of_delta d) (kind_at i v.open_blocks)
delta_ok false i (thinking_delta _) v = ltb i v.started
delta_ok false i d v = fits (kind_of_delta d) (kind_at i v.open_blocks)

-- The client's step for an event of the body: `none` refuses it. Blocks are numbered from 0 in the
-- order of their starts, and only an open one is stopped.
unfoldable pub observe : (strict : Bool) → Event → View → Option View
unfolding kind_at close_block
observe strict ping v = some v
observe strict (content_block_start i b) v =
    if i == v.started
    then some (record { started = suc i; open_blocks = v.open_blocks ++ (i, kind_of_block b) ∷ [] })
    else none
observe strict (content_block_delta i d) v = if delta_ok strict i d v then some v else none
observe strict (content_block_stop i) v =
    if is_some (kind_at i v.open_blocks)
    then some (record v { open_blocks = close_block i v.open_blocks })
    else none
observe strict _ v = none

abbrev pub then_observe : (View → Option View) → Option View → Option View
then_observe f none = none
then_observe f (some v) = f v

unfoldable pub observe_all : (strict : Bool) → List Event → View → Option View
unfolding observe
observe_all strict [] v = some v
observe_all strict (e ∷ es) v = then_observe (observe_all strict es) (observe strict e v)

pub observe_all-append :
    (strict : Bool) (es fs : List Event) (v : View)
    → observe_all strict (es ++ fs) v
      ≡ then_observe (observe_all strict fs) (observe_all strict es v)
unfolding observe_all
observe_all-append strict [] fs v = refl
observe_all-append strict (e ∷ es) fs v =
    elim (observe strict e v)
      as (λ o.
        then_observe (observe_all strict (es ++ fs)) o
        ≡ then_observe (observe_all strict fs) (then_observe (observe_all strict es) o)) [
          | none ↦ refl
          | some w ↦ observe_all-append strict es fs w
        ]

abbrev pub view : Translation → View
view s = record { started = s.next_block_index; open_blocks = s.open_blocks }

abbrev pub Lands : (Translation → Type 0) → View → Option Translation → Type 0
Lands P v none = Unit
Lands P v (some s) = P s × (v ≡ view s)

-- The client follows the events, and agrees with the state that they lead to.
abbrev pub Follows :
    (strict : Bool) → (Translation → Type 0) → Translation → Emit Translation → Type 0
Follows strict P s m = (v : View) × (observe_all strict m.0 (view s) ≡ some v) × Lands P v m.1

Lands-bind :
    (strict : Bool) (P Q : Translation → Type 0) (s : Translation) (es : List Event)
    (o : Option Translation) (f : Translation → Emit Translation)
    → Follows strict P s (es, o)
    → ((t : Translation) → P t → Follows strict Q t (f t))
    → Follows strict Q s ((es, o) >>= f)
Lands-bind strict P Q s es none f (v, seen, lands) h = (v, seen, tt)
Lands-bind strict P Q s es (some t) f (v, seen, lands) h =
    let (w, seen', lands') = h t lands.0 in
    (
      w,
      observe_all-append strict es (f t).0 (view s)
          ∙ ap (then_observe (observe_all strict (f t).0))
              (seen ∙ ap (λ (u : View). some u) lands.1)
          ∙ seen',
      lands',
    )

pub Follows->>= :
    (strict : Bool) (P Q : Translation → Type 0) (s : Translation) (m : Emit Translation)
    (f : Translation → Emit Translation)
    → Follows strict P s m
    → ((t : Translation) → P t → Follows strict Q t (f t))
    → Follows strict Q s (m >>= f)
Follows->>= strict P Q s (es, o) f m h = Lands-bind strict P Q s es o f m h

pub observe_all-cons :
    (strict : Bool) (e : Event) (es : List Event) (v w : View) (o : Option View)
    → observe strict e v ≡ some w
    → observe_all strict es w ≡ o
    → observe_all strict (e ∷ es) v ≡ o
unfolding observe_all
observe_all-cons strict e es v w o p q = ap (then_observe (observe_all strict es)) p ∙ q

pub Follows-none :
    (strict : Bool) (P : Translation → Type 0) (s : Translation)
    → P s
    → Follows strict P s ([], some s)
unfolding observe_all
Follows-none strict P s h = (view s, refl, (h, refl))

pub Follows-raise :
    (strict : Bool) (P : Translation → Type 0) (s : Translation) → Follows strict P s ([], none)
unfolding observe_all
Follows-raise strict P s = (view s, refl, tt)

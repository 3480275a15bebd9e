-- ===== src/AnthropicBridge/Blocks.antt =====
-- app/proxy/anthropic_bridge.py: lemmas on the blocks that are open.
use guardian_llmprovider_gat.Prelude.{
  ℕ, suc, ◌≤◌, ◌<◌, ◌≡◌, refl, ap, ◌∙◌, true, false, none, some, List, [], ◌∷◌, ◌++◌, ◌==◌,
  if◌then◌else◌, arith,
}
use guardian_llmprovider_gat.AnthropicBridge.{Kind}
use guardian_llmprovider_gat.AnthropicBridge.Stream.{kind_at, close_block}
use guardian_llmprovider_gat.AnthropicBridge.Generator.{insert_block, sort_blocks}

-- The indices go up, from `lo` on and below `hi`.
abbrev pub Between : ℕ → ℕ → List (ℕ × Kind) → Type 0
Between lo hi [] = lo ≤ hi
Between lo hi ((i, k) ∷ blocks) = (lo ≤ i) × Between (suc i) hi blocks

pub Between-le : (lo hi : ℕ) (xs : List (ℕ × Kind)) → Between lo hi xs → lo ≤ hi
Between-le lo hi [] b = b
Between-le lo hi ((i, k) ∷ xs) b = omega (arith, Between-le (suc i) hi xs b.1)

pub Between-lower :
    (lo mid hi : ℕ) (xs : List (ℕ × Kind)) → lo ≤ mid → Between mid hi xs → Between lo hi xs
Between-lower lo mid hi [] h b = omega arith
Between-lower lo mid hi ((i, k) ∷ xs) h b = (omega arith, b.1)

pub Between-open :
    (lo hi : ℕ) (k : Kind) (xs : List (ℕ × Kind))
    → Between lo hi xs
    → Between lo (suc hi) (xs ++ (hi, k) ∷ [])
Between-open lo hi k [] b = omega arith
Between-open lo hi k ((i, l) ∷ xs) b = (b.0, Between-open (suc i) hi k xs b.1)

pub Between-close :
    (lo hi j : ℕ) (xs : List (ℕ × Kind)) → Between lo hi xs → Between lo hi (close_block j xs)
unfolding close_block
Between-close lo hi j [] b = b
Between-close lo hi j ((i, k) ∷ xs) b =
    elim (i == j) as (λ t. Between lo hi (if t then xs else (i, k) ∷ close_block j xs)) [
      | true ↦ Between-lower lo (suc i) hi xs (omega arith) b.1
      | false ↦ (b.0, Between-close (suc i) hi j xs b.1)
    ]

pub kind_at-below :
    (lo hi j : ℕ) (xs : List (ℕ × Kind)) → Between lo hi xs → j < lo → kind_at j xs ≡ none
unfolding kind_at
kind_at-below lo hi j [] b h = refl
kind_at-below lo hi j ((i, k) ∷ xs) b h = ground (arith, kind_at-below (suc i) hi j xs b.1)

pub kind_at-above :
    (lo hi j : ℕ) (xs : List (ℕ × Kind)) → Between lo hi xs → hi ≤ j → kind_at j xs ≡ none
unfolding kind_at
kind_at-above lo hi j [] b h = refl
kind_at-above lo hi j ((i, k) ∷ xs) b h =
    ground (arith, kind_at-above (suc i) hi j xs b.1, Between-le (suc i) hi xs b.1)

-- What is open stays so when the block `hi` is opened.
pub kind_at-open :
    (j hi : ℕ) (k : Kind) (xs : List (ℕ × Kind))
    → j < hi
    → kind_at j (xs ++ (hi, k) ∷ []) ≡ kind_at j xs
unfolding kind_at
kind_at-open j hi k [] h = ground arith
kind_at-open j hi k ((i, l) ∷ xs) h = ground (arith, kind_at-open j hi k xs h)

pub kind_at-opened :
    (lo hi : ℕ) (k : Kind) (xs : List (ℕ × Kind))
    → Between lo hi xs
    → kind_at hi (xs ++ (hi, k) ∷ []) ≡ some k
unfolding kind_at
kind_at-opened lo hi k [] b = ground arith
kind_at-opened lo hi k ((i, l) ∷ xs) b =
    ground (arith, kind_at-opened (suc i) hi k xs b.1, Between-le (suc i) hi xs b.1)

pub kind_at-close :
    (lo hi j i : ℕ) (xs : List (ℕ × Kind))
    → Between lo hi xs
    → kind_at j (close_block i xs) ≡ (if i == j then none else kind_at j xs)
unfolding kind_at close_block
kind_at-close lo hi j i [] b = ground arith
kind_at-close lo hi j i ((m, k) ∷ xs) b =
    ground (arith, kind_at-close (suc m) hi j i xs b.1, kind_at-below (suc m) hi j xs b.1)

insert_block-first :
    (lo hi i : ℕ) (k : Kind) (xs : List (ℕ × Kind))
    → Between (suc i) hi xs
    → insert_block (i, k) xs ≡ (i, k) ∷ xs
unfolding insert_block
insert_block-first lo hi i k [] b = refl
insert_block-first lo hi i k ((j, l) ∷ xs) b = ground arith

-- They are open in their order already.
pub sort_blocks-Between :
    (lo hi : ℕ) (xs : List (ℕ × Kind)) → Between lo hi xs → sort_blocks xs ≡ xs
unfolding sort_blocks
sort_blocks-Between lo hi [] b = refl
sort_blocks-Between lo hi ((i, k) ∷ xs) b =
    ap (insert_block (i, k)) (sort_blocks-Between (suc i) hi xs b.1)
    ∙ insert_block-first lo hi i k xs b.1

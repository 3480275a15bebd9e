-- ===== src/Dict.antt =====
-- Python's `dict` with text keys, as an association list in the order of insertion.
use guardian_llmprovider_gat.Prelude.{
  String, ◌≡◌, refl, ap, Bool, Option, none, some, List, [], ◌∷◌, arith, str_eq, eq_iff,
  if◌then◌else◌,
}

abbrev pub Dict {ℓ} : Type ℓ → Type ℓ
Dict V = List (String × V)

module _ {ℓ} {V : Type ℓ} where
  -- d.get(k)
  unfoldable pub lookup : String → Dict V → Option V
  lookup k [] = none
  lookup k ((j, v) ∷ d) = if str_eq j k then some v else lookup k d

  -- d[k] = v, in place for a key that is there, at the end for a new one
  unfoldable pub insert : String → V → Dict V → Dict V
  insert k v [] = (k, v) ∷ []
  insert k v ((j, w) ∷ d) = if str_eq j k then (k, v) ∷ d else (j, w) ∷ insert k v d

  -- d.pop(k, None)
  unfoldable pub without : String → Dict V → Dict V
  without k [] = []
  without k ((j, v) ∷ d) = let rest = without k d in if str_eq j k then rest else (j, v) ∷ rest

  -- for k, v in list(d.items()): if not test(k, v): d.pop(k, None)
  unfoldable pub retain : (String → V → Bool) → Dict V → Dict V
  unfolding without
  retain test [] = []
  retain test ((j, v) ∷ d) =
      let rest = retain test d in if test j v then (j, v) ∷ rest else without j rest

  pub lookup-insert :
      (k j : String) (v : V) (d : Dict V)
      → lookup j (insert k v d) ≡ (if str_eq k j then some v else lookup j d)
  unfolding lookup insert
  lookup-insert k j v [] = refl
  lookup-insert k j v ((i, w) ∷ d) =
      ground (arith, eq_iff k j, eq_iff i k, eq_iff i j, lookup-insert k j v d)

  pub lookup-without :
      (k j : String) (d : Dict V)
      → lookup j (without k d) ≡ (if str_eq k j then none else lookup j d)
  unfolding lookup without
  lookup-without k j [] = ground arith
  lookup-without k j ((i, v) ∷ d) =
      ground (arith, lookup-without k j d, eq_iff i k, eq_iff i j, eq_iff k j)

  abbrev pub filtered : (String → V → Bool) → String → Option V → Option V
  filtered test k none = none
  filtered test k (some v) = if test k v then some v else none

  pub lookup-retain :
      (test : String → V → Bool) (k : String) (d : Dict V)
      → lookup k (retain test d) ≡ filtered test k (lookup k d)
  unfolding lookup retain
  lookup-retain test k [] = refl
  lookup-retain test k ((j, v) ∷ d) = ground (
    arith,
    lookup-retain test k d,
    lookup-without j k (retain test d),
    eq_iff j k,
    λ (e : j ≡ k). ap (λ (i : String). test i v) e,
  )

-- ===== src/Scopes/Names.antt =====
-- app/proxy/scopes.py: proofs about `parse_declared` on stored lists.
use guardian_llmprovider_gat.Prelude.{
  ◌≡◌, ◌≢◌, refl, sym, ap, fun_ext, ◌∙◌, Bool, true, false, ◌||◌, some, List, [], ◌∷◌, arith, strip,
  lowers_to,
}
use guardian_llmprovider_gat.Value.{Value, null, text, list, Items, nil, cons}
use guardian_llmprovider_gat.Scopes.{
  Scope, public, ScopeSet, same_scope, scope_by_value, scope_of_item, invalid_items, scope_set,
  declared_or_invalid, parse_declared, Declared, absent, scopes, invalid, malformed,
}
use guardian_llmprovider_gat.Scopes.Mint.{scope_name, scope_items, sorted_scopes, is_empty}

abbrev pub public_in : Declared → Bool
public_in (scopes set) = set public
public_in _ = false

elem : Scope → List Scope → Bool
elem s [] = false
elem s (t ∷ ts) = same_scope t s || elem s ts

has_public : List Scope → Bool
has_public [] = false
has_public (t ∷ ts) = same_scope t public || has_public ts

scope_of_item-name : (s : Scope) → s ≢ public → scope_of_item (text (scope_name s)) ≡ some s
unfolding scope_of_item scope_name strip lowers_to
scope_of_item-name public h = absurd (h refl)
scope_of_item-name _ h = refl

scope_items-valid : (ss : List Scope) → has_public ss ≡ false → invalid_items (scope_items ss) ≡ []
unfolding invalid_items scope_items has_public
scope_items-valid [] h = refl
scope_items-valid (public ∷ ss) h = cc
scope_items-valid (s ∷ ss) h = ground (arith, scope_of_item-name s, scope_items-valid ss)

scope_items-set :
    (ss : List Scope) (s : Scope) → has_public ss ≡ false → scope_set (scope_items ss) s ≡ elem s ss
unfolding scope_set scope_items elem has_public
scope_items-set [] s h = refl
scope_items-set (public ∷ ss) s h = cc
scope_items-set (t ∷ ss) s h = ground (arith, scope_of_item-name t, scope_items-set ss s)

elem-sorted : (set : ScopeSet) (s : Scope) → elem s (sorted_scopes set) ≡ set s
unfolding elem sorted_scopes
elem-sorted set public = ground arith
elem-sorted set _ = ground arith

public-sorted : (set : ScopeSet) → has_public (sorted_scopes set) ≡ set public
unfolding has_public sorted_scopes
public-sorted set = ground arith

-- A stored list of scopes reads back as the set that it was written from.
pub parse_declared-scope_items :
    (set : ScopeSet)
    → set public ≡ false
    → parse_declared (list (scope_items (sorted_scopes set))) ≡ scopes set
unfolding parse_declared declared_or_invalid
parse_declared-scope_items set h =
    let p = public-sorted set ∙ h in
    rw (scope_items-valid (sorted_scopes set) p)
      (ap scopes (fun_ext (λ s. scope_items-set (sorted_scopes set) s p ∙ elem-sorted set s)))

scope_set-public : (items : Items) → scope_set items public ≡ false
unfolding scope_set scope_of_item scope_by_value
scope_set-public nil = refl
scope_set-public (cons (text t) vs) = ground (arith, scope_set-public vs)
scope_set-public (cons _ vs) = scope_set-public vs

-- No list of scopes holds `public`.
parse_declared-public :
    (v : Value) (set : ScopeSet) → parse_declared v ≡ scopes set → set public ≡ false
unfolding parse_declared declared_or_invalid
parse_declared-public (list items) set h = go (invalid_items items) h
  where
    go : (vs : List Value) → declared_or_invalid items vs ≡ scopes set → set public ≡ false
    go [] e = ground (arith, scope_set-public items, ap (λ (d : Declared). public_in d) e)
    go (v ∷ vs) e = cc
parse_declared-public null set h = cc
parse_declared-public _ set h = cc

pub sorted-empty :
    (set : ScopeSet) (s : Scope) → is_empty (sorted_scopes set) ≡ true → set s ≡ false
unfolding elem
sorted-empty set s h = go (sorted_scopes set) refl h
  where
    go : (ss : List Scope) → sorted_scopes set ≡ ss → is_empty ss ≡ true → set s ≡ false
    go [] e x = sym (elem-sorted set s) ∙ ap (elem s) e
    go (t ∷ ts) e x = cc

pub parse_declared-no_public : (v : Value) → public_in (parse_declared v) ≡ false
parse_declared-no_public v = go (parse_declared v) refl
  where
    go : (d : Declared) → parse_declared v ≡ d → public_in d ≡ false
    go (scopes set) e = parse_declared-public v set e
    go absent e = refl
    go (invalid vs) e = refl
    go malformed e = refl

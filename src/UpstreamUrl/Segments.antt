-- ===== src/UpstreamUrl/Segments.antt =====
-- app/upstream_url.py: proofs about the dot segments of a path, as a server removes them.
use guardian_llmprovider_gat.Prelude.{
  ◌≡◌, refl, Bool, false, List, [], ◌∷◌, if◌then◌else◌, any, arith, ◌==◌,
}
use guardian_llmprovider_gat.UpstreamUrl.{Text, is_dots}

abbrev pub is_dot : Text → Bool
is_dot (a ∷ []) = a == b'.'
is_dot _ = false

abbrev pub up : List Text → List Text
up [] = []
up (s ∷ below) = below

-- The segments of a path, put one after the other on those that are below it: `.` is left out, and `..`
-- takes away the segment before it.
unfoldable pub resolve : List Text → (below : List Text) → List Text
resolve [] below = below
resolve (s ∷ ss) below =
    let here = resolve ss below in
    let there = resolve ss (up below) in
    let deeper = resolve ss (s ∷ below) in
    if is_dot s then here else if is_dots s then there else deeper

-- All segments stay, and so does all that is below them.
abbrev pub onto : List Text → (below : List Text) → List Text
onto [] below = below
onto (s ∷ ss) below = onto ss (s ∷ below)

dots-dot : (s : Text) → is_dots s ≡ false → is_dot s ≡ false
dots-dot [] h = refl
dots-dot (a ∷ []) h = h
dots-dot (a ∷ b ∷ cs) h = refl

pub resolve-plain :
    (ss below : List Text) → any is_dots ss ≡ false → resolve ss below ≡ onto ss below
unfolding resolve
resolve-plain [] below h = refl
resolve-plain (s ∷ ss) below h =
    let here : is_dots s ≡ false = ground arith in
    let rest : any is_dots ss ≡ false = ground arith in
    rw (dots-dot s here, here) (resolve-plain ss (s ∷ below) rest)

-- ===== src/Capture/Ages.antt =====
-- app/capture/wal_writer.py: proofs about the order in which the retention takes the completed files.
use guardian_llmprovider_gat.Prelude.{ℕ, ◌≤◌, List, [], ◌∷◌, leb, if-cases, All, arith}
use mathlib.Core.List.{Perm}
use mathlib.Core.List.Perm
use guardian_llmprovider_gat.Capture.Writer.{CompletedFile}
use guardian_llmprovider_gat.Capture.Retention.{insert_by_mtime, sort_by_mtime}

-- No file is older than the time.
abbrev pub AtLeast : (mtime : ℕ) → List CompletedFile → Type 0
AtLeast m fs = All (λ f. m ≤ f.mtime) fs

-- The files are in the order of their age, the oldest first.
abbrev pub Ordered : List CompletedFile → Type 0
Ordered [] = Unit
Ordered (f ∷ fs) = AtLeast f.mtime fs × Ordered fs

insert_by_mtime-Perm :
    (f : CompletedFile) (gs : List CompletedFile) → Perm (f ∷ gs) (insert_by_mtime f gs)
unfolding insert_by_mtime
insert_by_mtime-Perm f [] = Perm.refl (f ∷ [])
insert_by_mtime-Perm f (g ∷ gs) =
    if-cases (λ l. Perm (f ∷ g ∷ gs) l) (leb f.mtime g.mtime) _ _ (λ t. Perm.refl (f ∷ g ∷ gs))
      (λ t. Perm.trans (Perm.swap g f gs) (Perm.cons g (insert_by_mtime-Perm f gs)))

pub sort_by_mtime-Perm : (fs : List CompletedFile) → Perm fs (sort_by_mtime fs)
unfolding sort_by_mtime
sort_by_mtime-Perm [] = Perm.refl []
sort_by_mtime-Perm (f ∷ fs) =
    Perm.trans (Perm.cons f (sort_by_mtime-Perm fs)) (insert_by_mtime-Perm f (sort_by_mtime fs))

AtLeast-trans : (m n : ℕ) (fs : List CompletedFile) → m ≤ n → AtLeast n fs → AtLeast m fs
AtLeast-trans m n [] h k = tt
AtLeast-trans m n (f ∷ fs) h (k, ks) = (omega (arith, h, k), AtLeast-trans m n fs h ks)

insert_by_mtime-AtLeast :
    (m : ℕ) (f : CompletedFile) (gs : List CompletedFile)
    → m ≤ f.mtime
    → AtLeast m gs
    → AtLeast m (insert_by_mtime f gs)
unfolding insert_by_mtime
insert_by_mtime-AtLeast m f [] h k = (h, tt)
insert_by_mtime-AtLeast m f (g ∷ gs) h (k, ks) =
    if-cases (AtLeast m) (leb f.mtime g.mtime) _ _ (λ t. (h, (k, ks)))
      (λ t. (k, insert_by_mtime-AtLeast m f gs h ks))

insert_by_mtime-Ordered :
    (f : CompletedFile) (gs : List CompletedFile) → Ordered gs → Ordered (insert_by_mtime f gs)
unfolding insert_by_mtime
insert_by_mtime-Ordered f [] h = (tt, tt)
insert_by_mtime-Ordered f (g ∷ gs) (k, ks) =
    if-cases Ordered (leb f.mtime g.mtime) _ _
      (λ t.
        let older : f.mtime ≤ g.mtime = ground (arith, t) in
        ((older, AtLeast-trans f.mtime g.mtime gs older k), (k, ks)))
      (λ t. (
        insert_by_mtime-AtLeast g.mtime f gs (ground (arith, t)) k,
        insert_by_mtime-Ordered f gs ks,
      ))

pub sort_by_mtime-Ordered : (fs : List CompletedFile) → Ordered (sort_by_mtime fs)
unfolding sort_by_mtime
sort_by_mtime-Ordered [] = tt
sort_by_mtime-Ordered (f ∷ fs) =
    insert_by_mtime-Ordered f (sort_by_mtime fs) (sort_by_mtime-Ordered fs)

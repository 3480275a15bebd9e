-- ===== src/Capture/Recovery.antt =====
-- app/capture/wal_writer.py: proofs about rotations, what is recovered of one that fails, and the lines that it leaves.
use guardian_llmprovider_gat.Prelude.{
  ◌≡◌, refl, sym, ap, ◌∙◌, false, not, ◌&&◌, suc, List, [], ◌∷◌, ◌++◌, if◌then◌else◌, Bool-cases,
  inl, inr, append_assoc, append_nil, subst, if-cases, arith,
}
use guardian_llmprovider_gat.Capture.Writer.{
  Bytes, CaptureWalWriter, Rotation, CompletedFile, complete, count_rotated,
  recover_failed_rotation, close_active_file, finish_rotation, is_gzip_file,
}
use guardian_llmprovider_gat.Capture.Lines.{lines_of}
use guardian_llmprovider_gat.Capture.Files.{lines_in, on_disk, IsRecognised, WholeIf, Adds}

lines_in-append :
    (fs : List CompletedFile) (f : CompletedFile)
    → lines_in (fs ++ f ∷ []) ≡ lines_in fs ++ lines_of f.content
lines_in-append [] f = append_nil (lines_of f.content)
lines_in-append (g ∷ fs) f =
    ap (λ (ls : List Bytes). lines_of g.content ++ ls) (lines_in-append fs f)
    ∙ sym (append_assoc (lines_of g.content) (lines_in fs) (lines_of f.content))

completed-Adds :
    (r : Rotation) (w v : CaptureWalWriter)
    → v.completed ≡ (complete r w).completed
    → v.active ≡ []
    → v.is_open ≡ false
    → Adds w v []
unfolding lines_of
completed-Adds r w v c a o =
    let file : CompletedFile = record { content = w.active; mtime = r.mtime; size = r.size } in
    (
      ap (λ fs. lines_in fs ++ lines_of v.active) c
          ∙ ap (λ content. lines_in (complete r w).completed ++ lines_of content) a
          ∙ ap (λ (ls : List Bytes). ls ++ []) (lines_in-append w.completed file),
      subst (λ b. WholeIf b v.active) (sym o) tt,
    )

-- What a recovery does not take for a gzip file is what was moved, without compression.
moved_plain :
    (r : Rotation) (w : CaptureWalWriter)
    → r.compresses && r.seals ≡ false
    → IsRecognised r
    → is_gzip_file r.probes (if r.compresses then r.gzipped else w.active) ≡ false
    → (if r.compresses then r.gzipped else w.active) ≡ w.active
moved_plain r w u h t = elim (Bool-cases r.compresses) [
  | inl c ↦ absurd (ground arith)
  | inr c ↦ rw c refl
]

recovered-Adds :
    (r : Rotation) (w : CaptureWalWriter)
    → r.compresses && r.seals ≡ false
    → IsRecognised r
    → w.is_open ≡ false
    → Adds w (recover_failed_rotation r w) []
recovered-Adds r w u h o =
    let found = if r.compresses then r.gzipped else w.active in
    if-cases (λ v. Adds w v []) (is_gzip_file r.probes found) _ _
      (λ t.
        if-cases (λ v. Adds w v []) r.seals_again _ _
          (λ s. completed-Adds r w (count_rotated (complete r w)) refl refl o)
          (λ s. completed-Adds r w (complete r w) refl refl o))
      (λ t.
        if-cases (λ v. Adds w v []) r.restores _ _
          (λ s. (
            ap (λ content. lines_in w.completed ++ lines_of content) (moved_plain r w u h t)
                ∙ sym (append_nil (on_disk w)),
            subst (λ b. WholeIf b found) (sym o) tt,
          ))
          (λ s. completed-Adds r w (complete r w) refl refl o))

pub finished-Adds :
    (r : Rotation) (w : CaptureWalWriter)
    → IsRecognised r
    → Adds w (finish_rotation r (close_active_file w)) []
unfolding close_active_file
finished-Adds r w h =
    if-cases (λ v. Adds w v []) (not r.renames) _ _ (λ t. (sym (append_nil (on_disk w)), tt))
      (λ t.
        if-cases (λ v. Adds w v []) (r.compresses && r.seals) _ _
          (λ u.
            completed-Adds r w (count_rotated (complete r (close_active_file w))) refl refl refl)
          (λ u.
            recovered-Adds r
              (record (close_active_file w) { write_failures = suc w.write_failures }) u h refl))

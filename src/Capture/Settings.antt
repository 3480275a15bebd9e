-- ===== src/Capture/Settings.antt =====
-- app/capture/wal_writer.py: proofs that writes and rotations leave the configured retention as it is.
use guardian_llmprovider_gat.Prelude.{
  ℕ, ◌≡◌, refl, ◌∙◌, Bool, false, not, ◌&&◌, Option, none, some, [], ◌∷◌, ◌++◌, if◌then◌else◌,
  if-cases,
}
use guardian_llmprovider_gat.Capture.Writer.{
  Bytes, newline, CaptureWalWriter, Attempt, Rotation, open_active_file, opened_for, append_line,
  write_line, close_active_file, needs_rotation, finish_rotation, is_gzip_file, rotate_file,
  rotate_if_needed,
}

opened_for-retention_days :
    (now : ℕ) (a : Attempt) (w : CaptureWalWriter)
    → (opened_for now a w).retention_days ≡ w.retention_days
unfolding open_active_file
opened_for-retention_days now a w =
    let P = λ (v : CaptureWalWriter). v.retention_days ≡ w.retention_days in
    if-cases P w.is_open w (open_active_file now a w) (λ t. refl)
      (λ t. if-cases P a.opens _ _ (λ u. refl) (λ u. refl))

append_line-retention_days :
    (f : Option ℕ) (line : Bytes) (w : CaptureWalWriter)
    → (append_line f line w).1.retention_days ≡ w.retention_days
unfolding close_active_file
append_line-retention_days none line w = refl
append_line-retention_days (some n) line w = refl

pub written-retention_days :
    (now : ℕ) (a : Attempt) (line : Bytes) (w : CaptureWalWriter)
    → (write_line now a line w).1.retention_days ≡ w.retention_days
unfolding write_line
written-retention_days now a line w =
    let w' = opened_for now a w in
    let P = λ (r : Bool × CaptureWalWriter). r.1.retention_days ≡ w'.retention_days in
    if-cases P w'.is_open (append_line a.failed_after (line ++ newline ∷ []) w') (false, w')
      (λ t. append_line-retention_days a.failed_after (line ++ newline ∷ []) w') (λ t. refl)
    ∙ opened_for-retention_days now a w

finished-retention_days :
    (r : Rotation) (w : CaptureWalWriter) → (finish_rotation r w).retention_days ≡ w.retention_days
finished-retention_days r w =
    let P = λ (v : CaptureWalWriter). v.retention_days ≡ w.retention_days in
    if-cases P (not r.renames) _ _ (λ t. refl)
      (λ t.
        if-cases P (r.compresses && r.seals) _ _ (λ u. refl)
          (λ u.
            if-cases P (is_gzip_file r.probes (if r.compresses then r.gzipped else w.active)) _ _
              (λ v. if-cases P r.seals_again _ _ (λ x. refl) (λ x. refl))
              (λ v. if-cases P r.restores _ _ (λ x. refl) (λ x. refl))))

pub checked-retention_days :
    (now : ℕ) (r : Rotation) (w : CaptureWalWriter)
    → (rotate_if_needed now r w).retention_days ≡ w.retention_days
unfolding rotate_if_needed rotate_file close_active_file
checked-retention_days now r w =
    let P = λ (v : CaptureWalWriter). v.retention_days ≡ w.retention_days in
    if-cases P (needs_rotation now w) (rotate_file r w) w
      (λ t.
        if-cases P w.is_open _ w (λ u. finished-retention_days r (close_active_file w)) (λ u. refl))
      (λ t. refl)

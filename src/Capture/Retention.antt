-- ===== src/Capture/Retention.antt =====
-- app/capture/wal_writer.py: the retention, which removes completed files by their age and by a quota.
use guardian_llmprovider_gat.Prelude.{
  ℕ, ◌+◌, ◌-◌, ◌*◌, Bool, Option, none, some, List, [], ◌∷◌, ◌++◌, leb, ltb, if◌then◌else◌,
}
use guardian_llmprovider_gat.Capture.Writer.{CompletedFile, CaptureWalWriter}

-- What the clock and the disk do in a sweep: whether the directory can be listed, the time of day, and
-- which files can be removed.
pub record Sweep : Type 0 where
  pub lists : Bool
  pub time : ℕ
  pub removable : CompletedFile → Bool

-- The milliseconds of a day.
abbrev pub day : ℕ
day = 86400000

abbrev pub is_expired : (retention_days now : ℕ) → CompletedFile → Bool
is_expired retention_days now f = ltb (f.mtime + retention_days * day) now

-- Files of the same time keep their order.
unfoldable pub insert_by_mtime : CompletedFile → List CompletedFile → List CompletedFile
insert_by_mtime f [] = f ∷ []
insert_by_mtime f (g ∷ gs) = if leb f.mtime g.mtime then f ∷ g ∷ gs else g ∷ insert_by_mtime f gs

unfoldable pub sort_by_mtime : List CompletedFile → List CompletedFile
unfolding insert_by_mtime
sort_by_mtime [] = []
sort_by_mtime (f ∷ fs) = insert_by_mtime f (sort_by_mtime fs)

-- A file that cannot be removed stays, but does not count any more.
abbrev pub remove : Sweep → CompletedFile → List CompletedFile
remove s f = if s.removable f then [] else f ∷ []

unfoldable pub remove_expired :
    Sweep → (retention_days : ℕ) → List CompletedFile → List CompletedFile
remove_expired s days [] = []
remove_expired s days (f ∷ fs) =
    (if is_expired days s.time f then remove s f else []) ++ remove_expired s days fs

unfoldable pub survivors : Sweep → (retention_days : ℕ) → List CompletedFile → List CompletedFile
survivors s days [] = []
survivors s days (f ∷ fs) = (if is_expired days s.time f then [] else f ∷ []) ++ survivors s days fs

unfoldable pub total_size : List CompletedFile → ℕ
total_size [] = 0
total_size (f ∷ fs) = f.size + total_size fs

unfoldable pub remove_over :
    Sweep → (max_capture_bytes total : ℕ) → List CompletedFile → List CompletedFile
remove_over s limit total [] = []
remove_over s limit total (f ∷ fs) =
    if ltb limit total then remove s f ++ remove_over s limit (total - f.size) fs else f ∷ fs

abbrev pub within_quota : Sweep → (quota : Option ℕ) → List CompletedFile → List CompletedFile
within_quota s none fs = fs
within_quota s (some limit) fs = remove_over s limit (total_size fs) fs

abbrev pub enforce_on :
    Sweep → (retention_days quota : Option ℕ) → List CompletedFile → List CompletedFile
enforce_on s none quota fs = fs
enforce_on s (some days) quota fs =
    let units = sort_by_mtime fs in
    if s.lists
    then remove_expired s days units ++ within_quota s quota (survivors s days units)
    else fs

-- A directory keeps no order: the files that are left are put in the order of their age.
unfoldable pub enforce_retention : Sweep → CaptureWalWriter → CaptureWalWriter
unfolding sort_by_mtime remove_expired survivors total_size remove_over
enforce_retention s w = record w {
  completed = enforce_on s w.retention_days w.max_capture_bytes w.completed;
}

-- ===== src/Capture/Retained.antt =====
-- app/capture/wal_writer.py: proofs about the completed files that the retention leaves.
use guardian_llmprovider_gat.Prelude.{
  ℕ, ◌+◌, ◌-◌, ◌*◌, ◌≤◌, ◌<◌, ◌≡◌, ◌⊎◌, inl, inr, refl, ap, ◌∙◌, true, Option, none, some, List, [],
  ◌∷◌, ◌++◌, ltb, if-cases, Bool-cases, All, arith, subst,
}
use mathlib.Core.List.{Perm, perm_middle}
use mathlib.Core.List.Perm
use guardian_llmprovider_gat.Capture.Writer.{CompletedFile, CaptureWalWriter}
use guardian_llmprovider_gat.Capture.Retention.{
  Sweep, day, is_expired, sort_by_mtime, remove_expired, survivors, total_size, remove_over,
  within_quota, enforce_retention,
}
use guardian_llmprovider_gat.Capture.Ages.{
  AtLeast, Ordered, sort_by_mtime-Perm, sort_by_mtime-Ordered,
}

-- All bytes are within the quota, if there is one.
abbrev pub Within : (quota : Option ℕ) → List CompletedFile → Type 0
Within none fs = Unit
Within (some limit) fs = total_size fs ≤ limit

-- Files were dropped only as long as the quota was exceeded.
abbrev pub Needed : (quota : Option ℕ) → (dropped left : List CompletedFile) → Type 0
Needed none dropped left = dropped ≡ []
Needed (some limit) dropped left =
    (dropped ≡ [])
    ⊎ ((older : List CompletedFile) × (f : CompletedFile) × (dropped ≡ older ++ f ∷ [])
        × (limit < f.size + total_size left))

-- What a sweep leaves of the files that were there.
pub record Retains (days now : ℕ) (quota : Option ℕ) (before left : List CompletedFile)
    : Type 0 where
  pub expired : List CompletedFile
  pub dropped : List CompletedFile
  pub nothing_else : Perm before (expired ++ (dropped ++ left))
  pub all_expired : All (λ f. f.mtime + days * day < now) expired
  pub none_expired : All (λ f. now ≤ f.mtime + days * day) (dropped ++ left)
  pub by_age : Ordered (dropped ++ left)
  pub within : Within quota left
  pub needed : Needed quota dropped left

-- Every file that has expired goes, if files can be removed.
remove_expired-nil :
    (s : Sweep) (days : ℕ) (fs : List CompletedFile)
    → ((f : CompletedFile) → s.removable f ≡ true)
    → remove_expired s days fs ≡ []
unfolding remove_expired
remove_expired-nil s days [] h = refl
remove_expired-nil s days (f ∷ fs) h = elim (Bool-cases (is_expired days s.time f)) [
  | inl t ↦ rw (t, h f) (remove_expired-nil s days fs h)
  | inr t ↦ rw t (remove_expired-nil s days fs h)
]

survivors-AtLeast :
    (s : Sweep) (days m : ℕ) (fs : List CompletedFile)
    → AtLeast m fs
    → AtLeast m (survivors s days fs)
unfolding survivors
survivors-AtLeast s days m [] h = tt
survivors-AtLeast s days m (f ∷ fs) (h, hs) =
    if-cases (λ l. AtLeast m (l ++ survivors s days fs)) (is_expired days s.time f) [] (f ∷ [])
      (λ t. survivors-AtLeast s days m fs hs) (λ t. (h, survivors-AtLeast s days m fs hs))

survivors-Ordered :
    (s : Sweep) (days : ℕ) (fs : List CompletedFile) → Ordered fs → Ordered (survivors s days fs)
unfolding survivors
survivors-Ordered s days [] h = tt
survivors-Ordered s days (f ∷ fs) (h, hs) =
    if-cases (λ l. Ordered (l ++ survivors s days fs)) (is_expired days s.time f) [] (f ∷ [])
      (λ t. survivors-Ordered s days fs hs)
      (λ t. (survivors-AtLeast s days f.mtime fs h, survivors-Ordered s days fs hs))

survivors_fresh :
    (s : Sweep) (days : ℕ) (fs : List CompletedFile)
    → All (λ f. s.time ≤ f.mtime + days * day) (survivors s days fs)
unfolding survivors
survivors_fresh s days [] = tt
survivors_fresh s days (f ∷ fs) =
    if-cases (λ l. All (λ f. s.time ≤ f.mtime + days * day) (l ++ survivors s days fs))
      (is_expired days s.time f) [] (f ∷ []) (λ t. survivors_fresh s days fs)
      (λ t. (ground (arith, t), survivors_fresh s days fs))

survivors_others :
    (s : Sweep) (days : ℕ) (fs : List CompletedFile)
    → (expired : List CompletedFile) × Perm fs (expired ++ survivors s days fs)
      × All (λ f. f.mtime + days * day < s.time) expired
unfolding survivors
survivors_others s days [] = ([], Perm.refl [], tt)
survivors_others s days (f ∷ fs) =
    let (expired, p, all) = survivors_others s days fs in
    if-cases
      (λ l.
        (xs : List CompletedFile) × Perm (f ∷ fs) (xs ++ (l ++ survivors s days fs))
        × All (λ f. f.mtime + days * day < s.time) xs)
      (is_expired days s.time f) [] (f ∷ [])
      (λ t. (f ∷ expired, Perm.cons f p, (ground (arith, t), all)))
      (λ t. (
        expired,
        Perm.trans (Perm.cons f p) (Perm.symm (perm_middle expired (survivors s days fs))),
        all,
      ))

before-Needed :
    (limit : ℕ) (f : CompletedFile) (fs dropped left : List CompletedFile)
    → fs ≡ dropped ++ left
    → limit < f.size + total_size fs
    → Needed (some limit) dropped left
    → Needed (some limit) (f ∷ dropped) left
before-Needed limit f fs dropped left e h (inl n) =
    let same : fs ≡ left = e ∙ ap (λ (l : List CompletedFile). l ++ left) n in
    inr (
      [],
      f,
      ap (λ (l : List CompletedFile). f ∷ l) n,
      subst (λ l. limit < f.size + total_size l) same h,
    )
before-Needed limit f fs dropped left e h (inr (older, g, n, k)) =
    inr (f ∷ older, g, ap (λ (l : List CompletedFile). f ∷ l) n, k)

remove_over_lem :
    (s : Sweep) (limit total : ℕ) (fs : List CompletedFile)
    → ((f : CompletedFile) → s.removable f ≡ true)
    → total ≡ total_size fs
    → let left = remove_over s limit total fs in
      (dropped : List CompletedFile) × (fs ≡ dropped ++ left)
      × Within (some limit) left
      × Needed (some limit) dropped left
unfolding remove_over total_size
remove_over_lem s limit total [] h e = ([], refl, omega arith, inl refl)
remove_over_lem s limit total (f ∷ fs) h e = elim (Bool-cases (ltb limit total)) [
  | inr t ↦ rw t ([], refl, ground (arith, t, e), inl refl)
  | inl t ↦
      let (dropped, same, within, needed) =
        remove_over_lem s limit (total - f.size) fs h (omega arith) in
      rw (t, h f)
        (
          f ∷ dropped,
          ap (λ (l : List CompletedFile). f ∷ l) same,
          within,
          before-Needed limit f fs dropped (remove_over s limit (total - f.size) fs) same
              (ground (arith, t, e)) needed,
        )
]

within_quota_lem :
    (s : Sweep) (quota : Option ℕ) (fs : List CompletedFile)
    → ((f : CompletedFile) → s.removable f ≡ true)
    → let left = within_quota s quota fs in
      (dropped : List CompletedFile) × (fs ≡ dropped ++ left)
      × Within quota left
      × Needed quota dropped left
within_quota_lem s none fs h = ([], refl, tt, refl)
within_quota_lem s (some limit) fs h = remove_over_lem s limit (total_size fs) fs h refl

-- A sweep that can list the directory and remove files, with the retention on: it removes all completed
-- files that are older than `retention_days` and, if there is a quota, then the oldest of the others, no
-- more of them than it takes to bring what is left within the quota. What is left is as it was, and no file
-- left is older than one that was dropped for the quota.
pub enforce_retention-Retains :
    (s : Sweep) (w : CaptureWalWriter) (days : ℕ)
    → w.retention_days ≡ some days
    → s.lists ≡ true
    → ((f : CompletedFile) → s.removable f ≡ true)
    → Retains days s.time w.max_capture_bytes w.completed (enforce_retention s w).completed
unfolding enforce_retention
enforce_retention-Retains s w days on lists removable =
    let units = sort_by_mtime w.completed in
    let fresh = survivors s days units in
    let (expired, split, all) = survivors_others s days units in
    let (dropped, same, within, needed) = within_quota_lem s w.max_capture_bytes fresh removable in
    rw (on, lists, remove_expired-nil s days units removable)
      (record {
        expired = expired;
        dropped = dropped;
        nothing_else =
            Perm.trans (sort_by_mtime-Perm w.completed)
              (subst (λ l. Perm units (expired ++ l)) same split);
        all_expired = all;
        none_expired =
            subst (All (λ f. s.time ≤ f.mtime + days * day)) same (survivors_fresh s days units);
        by_age =
            subst Ordered same (survivors-Ordered s days units (sort_by_mtime-Ordered w.completed));
        within = within;
        needed = needed;
      })

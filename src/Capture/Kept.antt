-- ===== src/Capture/Kept.antt =====
-- app/capture/wal_writer.py: proofs about what the writer keeps on the disk when something fails.
use guardian_llmprovider_gat.Prelude.{
  ℕ, ◌≡◌, refl, sym, ap, ◌∙◌, Bool, true, false, not, ◌||◌, Option, none, some, List, [], ◌∷◌, ◌++◌,
  ◌==◌, if◌then◌else◌, Bool-cases, inl, inr, append_assoc, append_nil, All, subst, if-cases, arith,
}
use guardian_llmprovider_gat.Capture.Writer.{
  Bytes, newline, CaptureWalWriter, Attempt, Rotation, CompletedFile, open_active_file, opened_for,
  append_line, write_opened, write_line, close_active_file, needs_rotation, finish_rotation,
  rotate_file, rotate_if_needed, rotate, ends_line, first_bytes,
}
use guardian_llmprovider_gat.Capture.Lines.{
  lines_of, piece, IsRecord, lines_of-append, ends_line-terminated, lines_of-terminated,
  lines_of-record, lines_of-piece, ends_line-record,
}
use guardian_llmprovider_gat.Capture.Files.{
  Operation, written, checked, forced, closed, operate, operate_all, lines_in, on_disk, part_left,
  left_by, left_in, left_in_all, IsClean, IsRecognised, WholeIf, IsWhole, Adds,
}
use guardian_llmprovider_gat.Capture.Recovery.{finished-Adds}

opened-Adds :
    (now : ℕ) (a : Attempt) (w : CaptureWalWriter)
    → a.ends ≡ true
    → Adds w (open_active_file now a w) []
unfolding open_active_file
opened-Adds now a w h = elim (Bool-cases a.opens) [
  | inl t ↦
      rw (t, h)
        (
          ap (λ (ls : List Bytes). lines_in w.completed ++ ls) (lines_of-terminated w.active)
              ∙ sym (append_nil (on_disk w)),
          ends_line-terminated w.active,
        )
  | inr t ↦ rw t (sym (append_nil (on_disk w)), tt)
]

line-Adds :
    (fs : List CompletedFile) (content text : Bytes) (ls : List Bytes)
    → ends_line content ≡ true
    → lines_of text ≡ ls
    → lines_in fs ++ lines_of (content ++ text) ≡ (lines_in fs ++ lines_of content) ++ ls
line-Adds fs content text ls h e =
    ap (λ (xs : List Bytes). lines_in fs ++ xs) (lines_of-append content text h)
    ∙ sym (append_assoc (lines_in fs) (lines_of content) (lines_of text))
    ∙ ap (λ (xs : List Bytes). (lines_in fs ++ lines_of content) ++ xs) e

appended-Adds :
    (f : Option ℕ) (line : Bytes) (w : CaptureWalWriter)
    → IsRecord line
    → ends_line w.active ≡ true
    → w.is_open ≡ true
    → Adds w (append_line f (line ++ newline ∷ []) w).1 (part_left f line)
unfolding close_active_file
appended-Adds none line w h k e = (
  line-Adds w.completed w.active (line ++ newline ∷ []) (line ∷ []) k (lines_of-record line h),
  rw e (ends_line-record w.active line),
)
appended-Adds (some n) line w h k e =
    let text = first_bytes n (line ++ newline ∷ []) in
    (line-Adds w.completed w.active text (piece n line) k (lines_of-piece n line h), tt)

pub Adds-trans :
    (u v w : CaptureWalWriter) (xs ys : List Bytes)
    → Adds u v xs
    → Adds v w ys
    → Adds u w (xs ++ ys)
Adds-trans u v w xs ys (e, h) (f, k) =
    (f ∙ ap (λ (ls : List Bytes). ls ++ ys) e ∙ append_assoc (on_disk u) xs ys, k)

opened_for-Adds :
    (now : ℕ) (a : Attempt) (w : CaptureWalWriter)
    → a.ends ≡ true
    → IsWhole w
    → Adds w (opened_for now a w) []
opened_for-Adds now a w h k =
    if-cases (λ v. Adds w v []) w.is_open w (open_active_file now a w)
      (λ t. (sym (append_nil (on_disk w)), k)) (λ t. opened-Adds now a w h)

opened_for-is_open :
    (now : ℕ) (a : Attempt) (w : CaptureWalWriter)
    → (opened_for now a w).is_open ≡ w.is_open || a.opens
unfolding open_active_file
opened_for-is_open now a w =
    if-cases (λ (v : CaptureWalWriter). v.is_open ≡ w.is_open || a.opens) w.is_open w
      (open_active_file now a w) (λ t. ground (arith, t))
      (λ t.
        if-cases (λ (v : CaptureWalWriter). v.is_open ≡ w.is_open || a.opens) a.opens _ _
          (λ u. ground (arith, t, u)) (λ u. ground (arith, t, u)))

write_opened-Adds :
    (a : Attempt) (line : Bytes) (w : CaptureWalWriter)
    → IsRecord line
    → IsWhole w
    → Adds w (write_opened a line w).1 (if w.is_open then part_left a.failed_after line else [])
write_opened-Adds a line w h k = split w.is_open refl
  where
    split :
        (b : Bool)
        → w.is_open ≡ b
        → Adds w
            (if b then append_line a.failed_after (line ++ newline ∷ []) w else (false, w)).1
            (if b then part_left a.failed_after line else [])
    split true t = appended-Adds a.failed_after line w h (subst (λ b. WholeIf b w.active) t k) t
    split false t = (sym (append_nil (on_disk w)), k)

pub written-Adds :
    (now : ℕ) (a : Attempt) (line : Bytes) (w : CaptureWalWriter)
    → IsRecord line
    → a.ends ≡ true
    → IsWhole w
    → Adds w (write_line now a line w).1 (left_by w.is_open a line)
unfolding write_line
written-Adds now a line w h e k =
    let w' = opened_for now a w in
    let first = opened_for-Adds now a w e k in
    let (same, whole) = first in
    let second = write_opened-Adds a line w' h whole in
    let left = λ (b : Bool). if b then part_left a.failed_after line else [] in
    subst (λ b. Adds w (write_opened a line w').1 (left b)) (opened_for-is_open now a w)
      (Adds-trans w w' (write_opened a line w').1 [] (left w'.is_open) first second)

unchanged : (w : CaptureWalWriter) → IsWhole w → Adds w w []
unchanged w k = (sym (append_nil (on_disk w)), k)

rotated-Adds :
    (r : Rotation) (w : CaptureWalWriter) → IsRecognised r → IsWhole w → Adds w (rotate_file r w) []
unfolding rotate_file
rotated-Adds r w h k =
    if-cases (λ v. Adds w v []) w.is_open (finish_rotation r (close_active_file w)) w
      (λ t. finished-Adds r w h) (λ t. unchanged w k)

pub checked-Adds :
    (now : ℕ) (r : Rotation) (w : CaptureWalWriter)
    → IsRecognised r
    → IsWhole w
    → Adds w (rotate_if_needed now r w) []
unfolding rotate_if_needed
checked-Adds now r w h k =
    if-cases (λ v. Adds w v []) (needs_rotation now w) (rotate_file r w) w
      (λ t. rotated-Adds r w h k) (λ t. unchanged w k)

forced-Adds :
    (now : ℕ) (r : Rotation) (a : Attempt) (w : CaptureWalWriter)
    → IsRecognised r
    → a.ends ≡ true
    → IsWhole w
    → Adds w (rotate now r a w) []
unfolding rotate
forced-Adds now r a w known h k =
    let v = rotate_file r w in
    if-cases (λ u. Adds w u []) (not w.is_open || w.active_file_size == 0) w
      (open_active_file now a v) (λ t. unchanged w k)
      (λ t.
        Adds-trans w v (open_active_file now a v) [] [] (rotated-Adds r w known k)
          (opened-Adds now a v h))

closed-Adds : (w : CaptureWalWriter) → Adds w (close_active_file w) []
unfolding close_active_file
closed-Adds w = (sym (append_nil (on_disk w)), tt)

operate-Adds :
    (o : Operation) (w : CaptureWalWriter)
    → IsClean o
    → IsWhole w
    → Adds w (operate o w) (left_in o w)
unfolding operate
operate-Adds (written now a line) w (h, e) k = written-Adds now a line w h e k
operate-Adds (checked now r) w h k = checked-Adds now r w h k
operate-Adds (forced now r a) w (known, h) k = forced-Adds now r a w known h k
operate-Adds closed w h k = closed-Adds w

-- Through failed writes and failed rotations, the files hold, line by line and in the order of the writes,
-- every record whose write succeeded, and at most one partial line for each write that failed, and no
-- record is joined to another one. This holds between two sweeps of the retention, if records have no
-- newline, if a partial last record can be ended when the file is opened again, and if a file that a
-- rotation compressed but could not seal can be read and starts with the gzip magic. A compressed file that
-- cannot be read then is moved back to the active file, and later records are written behind its bytes.
pub operate_all-Adds :
    (os : List Operation) (w : CaptureWalWriter)
    → All IsClean os
    → IsWhole w
    → Adds w (operate_all os w) (left_in_all os w)
unfolding operate_all left_in_all
operate_all-Adds [] w h k = unchanged w k
operate_all-Adds (o ∷ os) w (h, hs) k =
    let first = operate-Adds o w h k in
    let (same, whole) = first in
    let rest = operate_all-Adds os (operate o w) hs whole in
    Adds-trans w (operate o w) (operate_all os (operate o w)) (left_in o w)
      (left_in_all os (operate o w)) first rest

-- ===== src/Capture/Writer.antt =====
-- app/capture/wal_writer.py: the writer of capture events, with its active file and the completed ones.
use guardian_llmprovider_gat.Prelude.{
  ℕ, zero, suc, ◌+◌, ◌-◌, max, Bool, true, false, not, ◌||◌, ◌&&◌, Option, none, some, List, [],
  ◌∷◌, ◌++◌, leb, ◌==◌, if◌then◌else◌, length,
}

abbrev pub Bytes : Type 0
Bytes = List ℕ

abbrev pub newline : ℕ
newline = 10

-- A rotated file: `content` is what it holds before it is compressed, and `size` the bytes that it takes
-- on the disk with its sidecar.
pub record CompletedFile : Type 0 where
  pub content : Bytes
  pub mtime : ℕ
  pub size : ℕ

-- Times are in milliseconds, those of the active file of the monotonic clock. `active` is what the active
-- file holds on the disk. `retention_days` is `none` if it is negative in the configuration, as the
-- quota `max_capture_bytes` is.
pub record CaptureWalWriter : Type 0 where
  pub max_file_bytes : ℕ
  pub max_file_age : ℕ
  pub retention_days : Option ℕ
  pub max_capture_bytes : Option ℕ
  pub active : Bytes
  pub completed : List CompletedFile
  pub is_open : Bool
  pub active_file_size : ℕ
  pub active_file_start : ℕ
  pub files_written : ℕ
  pub bytes_written : ℕ
  pub write_failures : ℕ
  pub files_rotated : ℕ

-- What the disk does in a write: the file can be opened, a partial record at its end can be ended, and
-- if `failed_after` is some number, an OSError comes after so many bytes of the line.
pub record Attempt : Type 0 where
  pub opens : Bool
  pub ends : Bool
  pub failed_after : Option ℕ

-- What the disk does in a rotation. The steps are the renaming, the compression to the bytes `gzipped`,
-- and the sidecar with the permissions; after a failure, the file can be probed for the gzip magic or not,
-- moved back or not, and the sidecar is written again or not. `mtime` and `size` are those of the
-- completed file.
pub record Rotation : Type 0 where
  pub renames : Bool
  pub compresses : Bool
  pub gzipped : Bytes
  pub seals : Bool
  pub probes : Bool
  pub restores : Bool
  pub seals_again : Bool
  pub mtime : ℕ
  pub size : ℕ

abbrev pub first_bytes : ℕ → Bytes → Bytes
first_bytes zero xs = []
first_bytes (suc n) [] = []
first_bytes (suc n) (x ∷ xs) = x ∷ first_bytes n xs

unfoldable pub ends_line : Bytes → Bool
ends_line [] = true
ends_line (b ∷ []) = b == newline
ends_line (b ∷ c ∷ bs) = ends_line (c ∷ bs)

-- A partial record that a failure left is ended before anything is added.
unfoldable pub terminate_partial_line : Bytes → Bytes
unfolding ends_line
terminate_partial_line content = if ends_line content then content else content ++ newline ∷ []

abbrev pub before_append : Attempt → Bytes → Bytes
before_append a content = if a.ends then terminate_partial_line content else content

unfoldable pub open_active_file : (now : ℕ) → Attempt → CaptureWalWriter → CaptureWalWriter
open_active_file now a w =
    if a.opens
    then record w {
      active = before_append a w.active;
      is_open = true;
      active_file_size = length (before_append a w.active);
      active_file_start = now;
    }
    else record w { is_open = false; write_failures = suc w.write_failures }

unfoldable pub close_active_file : CaptureWalWriter → CaptureWalWriter
close_active_file w = record w { is_open = false; active_file_size = 0; active_file_start = 0 }

abbrev pub append_line :
    (failed_after : Option ℕ) → Bytes → CaptureWalWriter → Bool × CaptureWalWriter
append_line none line w = (
  true,
  record w {
    active = w.active ++ line;
    active_file_size = w.active_file_size + length line;
    bytes_written = w.bytes_written + length line;
    files_written = max w.files_written 1;
  },
)
append_line (some n) line w = (
  false,
  close_active_file
      (record w { active = w.active ++ first_bytes n line; write_failures = suc w.write_failures }),
)

abbrev pub opened_for : (now : ℕ) → Attempt → CaptureWalWriter → CaptureWalWriter
opened_for now a w = if w.is_open then w else open_active_file now a w

abbrev pub write_opened : Attempt → (line : Bytes) → CaptureWalWriter → Bool × CaptureWalWriter
write_opened a line w =
    if w.is_open then append_line a.failed_after (line ++ newline ∷ []) w else (false, w)

-- The record `line` is the JSON text of an event, in UTF-8.
unfoldable pub write_line :
    (now : ℕ) → Attempt → (line : Bytes) → CaptureWalWriter → Bool × CaptureWalWriter
write_line now a line w = write_opened a line (opened_for now a w)

unfoldable pub needs_rotation : (now : ℕ) → CaptureWalWriter → Bool
needs_rotation now w =
    if not w.is_open || w.active_file_size == 0
    then false
    else leb w.max_file_bytes w.active_file_size || leb w.max_file_age (now - w.active_file_start)

abbrev pub has_magic : Bytes → Bool
has_magic [] = false
has_magic (b ∷ []) = false
has_magic (b ∷ c ∷ bs) = (b == 31) && (c == 139)

-- A file that cannot be read is not taken for a gzip file.
abbrev pub is_gzip_file : (probes : Bool) → Bytes → Bool
is_gzip_file probes content = probes && has_magic content

abbrev pub complete : Rotation → CaptureWalWriter → CaptureWalWriter
complete r w = record w {
  completed = w.completed ++ record { content = w.active; mtime = r.mtime; size = r.size } ∷ [];
  active = [];
}

abbrev pub count_rotated : CaptureWalWriter → CaptureWalWriter
count_rotated w = record w {
  files_rotated = suc w.files_rotated;
  files_written = suc w.files_written;
}

-- What is not taken for a gzip file is moved back to the active file: none is there after the renaming.
abbrev pub recover_failed_rotation : Rotation → CaptureWalWriter → CaptureWalWriter
recover_failed_rotation r w =
    let found = if r.compresses then r.gzipped else w.active in
    if is_gzip_file r.probes found
    then (if r.seals_again then count_rotated (complete r w) else complete r w)
    else if r.restores
    then record w { active = found }
    else complete r w

abbrev pub finish_rotation : Rotation → CaptureWalWriter → CaptureWalWriter
finish_rotation r w =
    if not r.renames
    then record w { write_failures = suc w.write_failures }
    else if r.compresses && r.seals
    then count_rotated (complete r w)
    else recover_failed_rotation r (record w { write_failures = suc w.write_failures })

unfoldable pub rotate_file : Rotation → CaptureWalWriter → CaptureWalWriter
unfolding close_active_file
rotate_file r w = if w.is_open then finish_rotation r (close_active_file w) else w

unfoldable pub rotate_if_needed : (now : ℕ) → Rotation → CaptureWalWriter → CaptureWalWriter
unfolding needs_rotation rotate_file
rotate_if_needed now r w = if needs_rotation now w then rotate_file r w else w

unfoldable pub rotate : (now : ℕ) → Rotation → Attempt → CaptureWalWriter → CaptureWalWriter
unfolding rotate_file open_active_file
rotate now r a w =
    if not w.is_open || w.active_file_size == 0 then w else open_active_file now a (rotate_file r w)

-- ===== src/Capture/Tests.antt =====
-- app/capture: runs on small inputs, and the theorems applied to them.
use guardian_llmprovider_gat.Prelude.{
  ℕ, ◌≡◌, refl, true, false, none, some, List, [], ◌∷◌, ◌++◌, length, map,
}
use guardian_llmprovider_gat.Value.{ℤ, pos, negsuc, end}
use guardian_llmprovider_gat.Capture.{CaptureEvent, try_put, new_sink, close, get_event}
use guardian_llmprovider_gat.Capture.Writer.{
  Bytes, CaptureWalWriter, CompletedFile, Attempt, Rotation, write_line, rotate_if_needed,
  close_active_file, open_active_file, terminate_partial_line,
}
use guardian_llmprovider_gat.Capture.Retention.{Sweep, enforce_retention}
use guardian_llmprovider_gat.Capture.Retained.{Retains, enforce_retention-Retains}
use guardian_llmprovider_gat.Capture.Lines.{IsRecord, lines_of}
use guardian_llmprovider_gat.Capture.Files.{
  Operation, operate, written, checked, closed, operate_all, left_in_all, on_disk, Adds,
}
use guardian_llmprovider_gat.Capture.Kept.{operate_all-Adds}
use guardian_llmprovider_gat.Capture.Runs.{
  Encoder, Timing, Step, offered, consumed, stopped, step, offer, consume, run, finish_run,
  new_capturing,
}
use guardian_llmprovider_gat.Capture.Orderly.{IsOrderly, run-IsOrderly}
use guardian_llmprovider_gat.Capture.Stored.{finish_run-on_disk}

-- A file with a partial record "ab" that a crash left.
abbrev after_crash : CaptureWalWriter
after_crash = record {
  max_file_bytes = 6;
  max_file_age = 1000;
  retention_days = none;
  max_capture_bytes = none;
  active = 97 ∷ 98 ∷ [];
  completed = [];
  is_open = false;
  active_file_size = 0;
  active_file_start = 0;
  files_written = 0;
  bytes_written = 0;
  write_failures = 0;
  files_rotated = 0;
}

abbrev good : Attempt
good = record { opens = true; ends = true; failed_after = none }

abbrev bad : Attempt
bad = record { opens = true; ends = true; failed_after = some 1 }

abbrev sound : Rotation
sound = record {
  renames = true;
  compresses = true;
  gzipped = 31 ∷ 139 ∷ [];
  seals = true;
  probes = true;
  restores = true;
  seals_again = true;
  mtime = 0;
  size = 2;
}

abbrev moved_back : Rotation
moved_back = record sound { compresses = false; seals = false }

abbrev unsealed : Rotation
unsealed = record sound { seals = false }

-- The compressed file gets no sidecar, and cannot be read after that.
abbrev unreadable : Rotation
unreadable = record sound { seals = false; probes = false }

abbrev first : Bytes
first = 99 ∷ 100 ∷ []

abbrev second : Bytes
second = 101 ∷ 102 ∷ []

abbrev operations : List Operation
operations =
    written 1 good first
    ∷ checked 2 moved_back
    ∷ written 3 bad second
    ∷ written 4 good second
    ∷ checked 5 unsealed
    ∷ closed
    ∷ []

on_disk_after :
    on_disk (operate_all operations after_crash) ≡ (97 ∷ 98 ∷ []) ∷ first ∷ (101 ∷ []) ∷ second ∷ []
unfolding operate_all operate close_active_file rotate_if_needed write_line open_active_file
    terminate_partial_line lines_of
on_disk_after = refl

-- The gzip bytes are moved back to the active file, the first record is in no line any more, and the next
-- one is written behind them.
gzip_moved_back :
    on_disk (
      operate_all
        (written 1 good first ∷ checked 2 unreadable ∷ written 3 good second ∷ [])
        after_crash)
    ≡ (31 ∷ 139 ∷ []) ∷ second ∷ []
unfolding operate_all operate close_active_file rotate_if_needed write_line open_active_file
    terminate_partial_line lines_of
gzip_moved_back = refl

abbrev all_removable : Sweep
all_removable = record { lists = true; time = 259200000; removable = λ f. true }

abbrev file : ℕ → ℕ → CompletedFile
file mtime size = record { content = []; mtime = mtime; size = size }

abbrev full : CaptureWalWriter
full = record after_crash {
  retention_days = some 1;
  max_capture_bytes = some 7;
  completed = file 1000 5 ∷ file 259000000 4 ∷ file 250000000 4 ∷ file 259100000 3 ∷ [];
}

-- The first file is older than a day, and the third is the oldest one over the quota.
retained :
    (enforce_retention all_removable full).completed ≡ file 259000000 4 ∷ file 259100000 3 ∷ []
unfolding enforce_retention
retained = refl

enforce_retention-Retains_example :
    Retains 1 259200000 (some 7) full.completed (enforce_retention all_removable full).completed
enforce_retention-Retains_example =
    enforce_retention-Retains all_removable full 1 refl refl (λ f. refl)

first-IsRecord : IsRecord first
first-IsRecord = (refl, (refl, tt))

second-IsRecord : IsRecord second
second-IsRecord = (refl, (refl, tt))

operate_all-Adds_example :
    Adds after_crash (operate_all operations after_crash) (left_in_all operations after_crash)
operate_all-Adds_example =
    operate_all-Adds operations after_crash
      (
        (first-IsRecord, refl),
        (refl, ((second-IsRecord, refl), ((second-IsRecord, refl), (refl, (tt, tt))))),
      )
      tt

abbrev event : ℤ → CaptureEvent
event priority = record { fields = end; priority = priority }

abbrev code : ℤ → Bytes
code (pos n) = 65 ∷ []
code (negsuc n) = 66 ∷ []

abbrev encode : Encoder
encode e = code e.priority

abbrev turn : Timing
turn = record {
  written_at = 1;
  attempt = good;
  checked_at = 2;
  rotation = sound;
  swept_at = 3;
  sweep = all_removable;
}

abbrev steps : List Step
steps =
    offered (event (pos 0))
    ∷ offered (event (negsuc 0))
    ∷ offered (event (pos 1))
    ∷ consumed turn
    ∷ offered (event (pos 2))
    ∷ stopped
    ∷ offered (event (pos 3))
    ∷ []

run-IsOrderly_example : IsOrderly (run encode steps (new_capturing 2 after_crash))
run-IsOrderly_example = run-IsOrderly encode steps 2 after_crash

code-IsRecord : (p : ℤ) → IsRecord (code p)
code-IsRecord (pos n) = (refl, tt)
code-IsRecord (negsuc n) = (refl, tt)

accepted_in_steps : length (run encode steps (new_capturing 2 after_crash)).accepted ≡ 3
unfolding run step offer try_put close consume get_event new_sink
accepted_in_steps = refl

finish_run-on_disk_example :
    on_disk
      (finish_run encode (λ e. turn) turn (run encode steps (new_capturing 2 after_crash))).writer
    ≡ on_disk after_crash ++ map encode (run encode steps (new_capturing 2 after_crash)).accepted
finish_run-on_disk_example =
    finish_run-on_disk encode steps 2 after_crash (λ e. turn) turn (λ e. code-IsRecord e.priority)
      (tt, (tt, (tt, (((refl, refl, refl), refl), (tt, (tt, (tt, tt))))))) (λ e. (refl, refl, refl))
      refl tt refl

-- ===== src/Capture/Files.antt =====
-- app/capture/wal_writer.py: what the calls of the writer are to leave on the disk when some of them fail.
use guardian_llmprovider_gat.Prelude.{
  ℕ, ◌≡◌, Bool, true, false, ◌||◌, not, Option, none, some, List, [], ◌∷◌, ◌++◌, if◌then◌else◌,
}
use guardian_llmprovider_gat.Capture.Writer.{
  Bytes, CompletedFile, CaptureWalWriter, Attempt, Rotation, write_line, close_active_file,
  rotate_if_needed, rotate, ends_line, is_gzip_file,
}
use guardian_llmprovider_gat.Capture.Lines.{lines_of, piece, IsRecord}

-- What the calls do to the files. `closed` is also a crash of the process with its restart.
pub data Operation : Type 0 where
  written : (now : ℕ) → Attempt → (line : Bytes) → Operation
  checked : (now : ℕ) → Rotation → Operation
  forced : (now : ℕ) → Rotation → Attempt → Operation
  closed : Operation

unfoldable pub operate : Operation → CaptureWalWriter → CaptureWalWriter
operate (written now a line) w = (write_line now a line w).1
operate (checked now r) w = rotate_if_needed now r w
operate (forced now r a) w = rotate now r a w
operate closed w = close_active_file w

unfoldable pub operate_all : List Operation → CaptureWalWriter → CaptureWalWriter
operate_all [] w = w
operate_all (o ∷ os) w = operate_all os (operate o w)

-- The lines that a reader of all files gets, in their order.
abbrev pub lines_in : List CompletedFile → List Bytes
lines_in [] = []
lines_in (f ∷ fs) = lines_of f.content ++ lines_in fs

abbrev pub on_disk : CaptureWalWriter → List Bytes
on_disk w = lines_in w.completed ++ lines_of w.active

abbrev pub part_left : Option ℕ → (line : Bytes) → List Bytes
part_left none line = line ∷ []
part_left (some n) line = piece n line

-- The lines that a write is to leave: the record, a part of it after a failure, or nothing if the file
-- was not open and did not open.
abbrev pub left_by : (is_open : Bool) → Attempt → (line : Bytes) → List Bytes
left_by is_open a line = if is_open || a.opens then part_left a.failed_after line else []

abbrev pub left_in : Operation → CaptureWalWriter → List Bytes
left_in (written now a line) w = left_by w.is_open a line
left_in (checked now r) w = []
left_in (forced now r a) w = []
left_in closed w = []

unfoldable pub left_in_all : List Operation → CaptureWalWriter → List Bytes
left_in_all [] w = []
left_in_all (o ∷ os) w = left_in o w ++ left_in_all os (operate o w)

-- If a compressed file is left without its sidecar, it can be read and starts with the gzip magic.
abbrev is_recognised : Rotation → Bool
is_recognised r = not r.compresses || r.seals || is_gzip_file r.probes r.gzipped

abbrev pub IsRecognised : Rotation → Type 0
IsRecognised r = is_recognised r ≡ true

-- The record has no newline, a partial record before it can be ended, and a rotation knows again what it
-- has compressed.
abbrev pub IsClean : Operation → Type 0
IsClean (written now a line) = IsRecord line × (a.ends ≡ true)
IsClean (checked now r) = IsRecognised r
IsClean (forced now r a) = IsRecognised r × (a.ends ≡ true)
IsClean closed = Unit

abbrev pub WholeIf : (is_open : Bool) → Bytes → Type 0
WholeIf true content = ends_line content ≡ true
WholeIf false content = Unit

-- An open file ends with a whole line.
abbrev pub IsWhole : CaptureWalWriter → Type 0
IsWhole w = WholeIf w.is_open w.active

-- From `w` to `w'`, the disk gets the lines `ls` and nothing else.
abbrev pub Adds : (w w' : CaptureWalWriter) (ls : List Bytes) → Type 0
Adds w w' ls = (on_disk w' ≡ on_disk w ++ ls) × IsWhole w'

-- ===== src/Capture/Stored.antt =====
-- app/capture/sink.py and app/capture/wal_writer.py: proofs that what is accepted gets to the disk.
use guardian_llmprovider_gat.Prelude.{
  ℕ, ◌≡◌, refl, sym, ap, ◌∙◌, Bool, true, false, if-cases, none, Option, some, List, [], ◌∷◌, ◌++◌,
  map, append_nil, All, subst,
}
use guardian_llmprovider_gat.Capture.{
  CaptureEvent, CaptureSink, try_put, get_event, drain_remaining,
}
use guardian_llmprovider_gat.Capture.Writer.{
  Bytes, CaptureWalWriter, Attempt, write_line, rotate_if_needed,
}
use guardian_llmprovider_gat.Capture.Retention.{Sweep, enforce_retention}
use guardian_llmprovider_gat.Capture.Settings.{written-retention_days, checked-retention_days}
use guardian_llmprovider_gat.Capture.Lines.{IsRecord}
use guardian_llmprovider_gat.Capture.Files.{
  on_disk, left_by, part_left, Adds, IsWhole, IsRecognised,
}
use guardian_llmprovider_gat.Capture.Kept.{Adds-trans, written-Adds, checked-Adds}
use guardian_llmprovider_gat.Capture.Runs.{
  Encoder, Timing, Capturing, note, offer, write_event, check_rotation, check_retention,
  consume_next, consume, Step, offered, consumed, stopped, step, run, write_all, finish_run,
  new_capturing,
}
use guardian_llmprovider_gat.Capture.Orderly.{run-IsOrderly, finish_run-handed}

-- A write meets no error of the disk.
abbrev pub IsSound : Attempt → Type 0
IsSound a = (a.opens ≡ true) × (a.ends ≡ true) × (a.failed_after ≡ none)

-- A turn of the loop writes without an error, and its rotation knows again what it has compressed.
abbrev pub IsSoundTurn : Timing → Type 0
IsSoundTurn t = IsSound t.attempt × IsRecognised t.rotation

abbrev pub SoundStep : Step → Type 0
SoundStep (offered e) = Unit
SoundStep (consumed t) = IsSoundTurn t
SoundStep stopped = Unit

module _ (encode : Encoder) (records : (e : CaptureEvent) → IsRecord (encode e))
    (w₀ : CaptureWalWriter) where
  -- The disk has what was on it, then the records of the events handed to the writer, and the retention is
  -- off.
  abbrev IsStored : CaptureWalWriter → List CaptureEvent → Type 0
  IsStored w handed = Adds w₀ w (map encode handed) × (w.retention_days ≡ none)

  map-snoc :
      (es : List CaptureEvent) (e : CaptureEvent)
      → map encode (es ++ e ∷ []) ≡ map encode es ++ encode e ∷ []
  map-snoc [] e = refl
  map-snoc (x ∷ es) e = ap (λ (ls : List Bytes). encode x ∷ ls) (map-snoc es e)

  left_by_sound : (b : Bool) (a : Attempt) (line : Bytes) → IsSound a → left_by b a line ≡ line ∷ []
  left_by_sound true a line (o, e, f) = ap (λ x. part_left x line) f
  left_by_sound false a line (o, e, f) = rw (o, f) refl

  written-IsStored :
      (t : Timing) (e : CaptureEvent) (w : CaptureWalWriter) (handed : List CaptureEvent)
      → IsSound t.attempt
      → IsStored w handed
      → IsStored (write_line t.written_at t.attempt (encode e) w).1 (handed ++ e ∷ [])
  written-IsStored t e w handed s h =
      let (opens, ends, fails) = s in
      let (before, off) = h in
      let (same, whole) = before in
      let w' = (write_line t.written_at t.attempt (encode e) w).1 in
      let added = written-Adds t.written_at t.attempt (encode e) w (records e) ends whole in
      let total = left_by_sound w.is_open t.attempt (encode e) s in
      (
        subst (λ ls. Adds w₀ w' ls)
            (ap (λ (ls : List Bytes). map encode handed ++ ls) total ∙ sym (map-snoc handed e))
            (Adds-trans w₀ w w' (map encode handed) (left_by w.is_open t.attempt (encode e)) before
              added),
        written-retention_days t.written_at t.attempt (encode e) w ∙ off,
      )

  checked-IsStored :
      (t : Timing) (w : CaptureWalWriter) (handed : List CaptureEvent)
      → IsRecognised t.rotation
      → IsStored w handed
      → IsStored (rotate_if_needed t.checked_at t.rotation w) handed
  checked-IsStored t w handed r h =
      let (before, off) = h in
      let (same, whole) = before in
      let w' = rotate_if_needed t.checked_at t.rotation w in
      let added = checked-Adds t.checked_at t.rotation w r whole in
      (
        subst (λ ls. Adds w₀ w' ls) (append_nil (map encode handed))
            (Adds-trans w₀ w w' (map encode handed) [] before added),
        checked-retention_days t.checked_at t.rotation w ∙ off,
      )

  enforced-IsStored :
      (s : Sweep) (w : CaptureWalWriter) (handed : List CaptureEvent)
      → IsStored w handed
      → IsStored (enforce_retention s w) handed
  unfolding enforce_retention
  enforced-IsStored s w handed (before, off) = (rw off before, off)

  swept-IsStored :
      (t : Timing) (c : Capturing)
      → IsStored c.writer c.handed
      → IsStored (check_retention t c).writer c.handed
  swept-IsStored t c h =
      if-cases (λ w. IsStored w c.handed) _ _ _
        (λ due. enforced-IsStored t.sweep c.writer c.handed h) (λ due. h)

  taken-IsStored :
      (t : Timing) (r : Option (Option CaptureEvent × CaptureSink)) (c : Capturing)
      → IsSoundTurn t
      → IsStored c.writer c.handed
      → IsStored (consume_next encode t r c).writer (consume_next encode t r c).handed
  taken-IsStored t none c s h = h
  taken-IsStored t (some (none, sink)) c s h = h
  taken-IsStored t (some (some e, sink)) c (s, r) h =
      let written = write_event encode t e (record c { sink = sink }) in
      swept-IsStored t (check_rotation t written) (
        checked-IsStored t written.writer written.handed r
          (written-IsStored t e c.writer c.handed s h))

  offer-IsStored :
      (e : CaptureEvent) (c : Capturing)
      → IsStored c.writer c.handed
      → IsStored (offer e c).writer (offer e c).handed
  unfolding offer
  offer-IsStored e c h = noted (try_put e c.sink)
    where
      noted : (r : Bool × CaptureSink) → IsStored (note e c r).writer (note e c r).handed
      noted (true, sink) = h
      noted (false, sink) = h

  step-IsStored :
      (s : Step) (c : Capturing)
      → SoundStep s
      → IsStored c.writer c.handed
      → IsStored (step encode s c).writer (step encode s c).handed
  unfolding step consume
  step-IsStored (offered e) c s h = offer-IsStored e c h
  step-IsStored (consumed t) c s h = taken-IsStored t (get_event c.sink) c s h
  step-IsStored stopped c s h = h

  run-IsStored :
      (ss : List Step) (c : Capturing)
      → All SoundStep ss
      → IsStored c.writer c.handed
      → IsStored (run encode ss c).writer (run encode ss c).handed
  unfolding run
  run-IsStored [] c s h = h
  run-IsStored (x ∷ ss) c (s, rest) h =
      run-IsStored ss (step encode x c) rest (step-IsStored x c s h)

  write_all-IsStored :
      (turn : CaptureEvent → Timing) (es : List CaptureEvent) (c : Capturing)
      → ((e : CaptureEvent) → IsSound (turn e).attempt)
      → IsStored c.writer c.handed
      → IsStored (write_all encode turn es c).writer (write_all encode turn es c).handed
  unfolding write_all
  write_all-IsStored turn [] c s h = h
  write_all-IsStored turn (e ∷ es) c s h =
      write_all-IsStored turn es (write_event encode (turn e) e c) s
        (written-IsStored (turn e) e c.writer c.handed (s e) h)

  finish_run-IsStored :
      (turn : CaptureEvent → Timing) (last : Timing) (c : Capturing)
      → ((e : CaptureEvent) → IsSound (turn e).attempt)
      → IsRecognised last.rotation
      → IsStored c.writer c.handed
      → IsStored (finish_run encode turn last c).writer (finish_run encode turn last c).handed
  unfolding finish_run
  finish_run-IsStored turn last c s r h =
      let (events, sink) = drain_remaining c.sink in
      let written = write_all encode turn events (record c { sink = sink }) in
      checked-IsStored last written.writer written.handed r
        (write_all-IsStored turn events (record c { sink = sink }) s h)

-- With a disk that takes every record and with the retention off (retention_days is negative): from the
-- start to the end of the drain, through rotations that succeed or fail, the files get exactly the records
-- of the events that the sink accepted, each once, on a line of its own and in the order of acceptance,
-- after what was there before. The encoder makes no newline, as json.dumps makes none, a file that is open
-- at the start ends with a whole line, and a file that a rotation compressed but could not seal can be read
-- and starts with the gzip magic.
pub finish_run-on_disk :
    (encode : Encoder) (ss : List Step) (n : ℕ) (w : CaptureWalWriter)
    (turn : CaptureEvent → Timing) (last : Timing)
    → ((e : CaptureEvent) → IsRecord (encode e))
    → All SoundStep ss
    → ((e : CaptureEvent) → IsSound (turn e).attempt)
    → IsRecognised last.rotation
    → IsWhole w
    → w.retention_days ≡ none
    → on_disk (finish_run encode turn last (run encode ss (new_capturing n w))).writer
      ≡ on_disk w ++ map encode (run encode ss (new_capturing n w)).accepted
finish_run-on_disk encode ss n w turn last records sound turns known whole off =
    let c = run encode ss (new_capturing n w) in
    let start : Adds w w [] = (sym (append_nil (on_disk w)), whole) in
    let stored = run-IsStored encode records w ss (new_capturing n w) sound (start, off) in
    let (kept, still_off) = finish_run-IsStored encode records w turn last c turns known stored in
    kept.0
    ∙ ap (λ es. on_disk w ++ map encode es)
        (finish_run-handed encode turn last c (run-IsOrderly encode ss n w))

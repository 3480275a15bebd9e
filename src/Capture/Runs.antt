-- ===== src/Capture/Runs.antt =====
-- app/capture/sink.py and app/capture/wal_writer.py: the requests that put events into the sink, the
-- loop of the writer that takes them out, and the drain at its end.
use guardian_llmprovider_gat.Prelude.{
  ℕ, ◌-◌, Bool, true, false, Option, none, some, List, [], ◌∷◌, ◌++◌, ltb, if◌then◌else◌,
}
use guardian_llmprovider_gat.Capture.{
  CaptureEvent, CaptureSink, new_sink, try_put, get_event, drain_remaining, close,
}
use guardian_llmprovider_gat.Capture.Writer.{
  Bytes, CaptureWalWriter, Attempt, Rotation, write_line, rotate_if_needed,
}
use guardian_llmprovider_gat.Capture.Retention.{Sweep, enforce_retention}

-- The JSON text of an event, with its HMAC if one is configured, in UTF-8.
abbrev pub Encoder : Type 0
Encoder = CaptureEvent → Bytes

-- What the clock and the disk do while one event is written, and the files are checked
-- after it.
pub record Timing : Type 0 where
  pub written_at : ℕ
  pub attempt : Attempt
  pub checked_at : ℕ
  pub rotation : Rotation
  pub swept_at : ℕ
  pub sweep : Sweep

-- The milliseconds between two sweeps of the retention.
abbrev retention_interval : ℕ
retention_interval = 60000

-- The sink and the writer, with logs of the events accepted and of those handed to the writer.
pub record Capturing : Type 0 where
  pub sink : CaptureSink
  pub writer : CaptureWalWriter
  pub last_retention_check : ℕ
  pub accepted : List CaptureEvent
  pub refused : List CaptureEvent
  pub handed : List CaptureEvent

abbrev pub note : CaptureEvent → Capturing → Bool × CaptureSink → Capturing
note e c (true, sink) = record c { sink = sink; accepted = c.accepted ++ e ∷ [] }
note e c (false, sink) = record c { sink = sink; refused = c.refused ++ e ∷ [] }

unfoldable pub offer : CaptureEvent → Capturing → Capturing
offer e c = note e c (try_put e c.sink)

abbrev pub write_event : Encoder → Timing → CaptureEvent → Capturing → Capturing
write_event encode t e c = record c {
  writer = (write_line t.written_at t.attempt (encode e) c.writer).1;
  handed = c.handed ++ e ∷ [];
}

abbrev pub check_rotation : Timing → Capturing → Capturing
check_rotation t c = record c { writer = rotate_if_needed t.checked_at t.rotation c.writer }

abbrev pub check_retention : Timing → Capturing → Capturing
check_retention t c =
    let due = ltb retention_interval (t.swept_at - c.last_retention_check) in
    record c {
      writer = if due then enforce_retention t.sweep c.writer else c.writer;
      last_retention_check = if due then t.swept_at else c.last_retention_check;
    }

abbrev pub consume_next :
    Encoder → Timing → Option (Option CaptureEvent × CaptureSink) → Capturing → Capturing
consume_next encode t none c = c
consume_next encode t (some (none, sink)) c = record c { sink = sink }
consume_next encode t (some (some e, sink)) c =
    check_retention t (check_rotation t (write_event encode t e (record c { sink = sink })))

-- One turn of the loop; it changes nothing while it waits.
unfoldable pub consume : Encoder → Timing → Capturing → Capturing
consume encode t c = consume_next encode t (get_event c.sink) c

pub data Step : Type 0 where
  offered : CaptureEvent → Step
  consumed : Timing → Step
  stopped : Step

unfoldable pub step : Encoder → Step → Capturing → Capturing
step encode (offered e) c = offer e c
step encode (consumed t) c = consume encode t c
step encode stopped c = record c { sink = close c.sink }

unfoldable pub run : Encoder → List Step → Capturing → Capturing
run encode [] c = c
run encode (s ∷ ss) c = run encode ss (step encode s c)

-- The events that the loop left are written, each in its turn; a turn is missing for none of them.
unfoldable pub write_all :
    Encoder → (turn : CaptureEvent → Timing) → List CaptureEvent → Capturing → Capturing
write_all encode turn [] c = c
write_all encode turn (e ∷ es) c = write_all encode turn es (write_event encode (turn e) e c)

-- The end of the loop: the drain, and the last rotation.
unfoldable pub finish_run :
    Encoder → (turn : CaptureEvent → Timing) → (last : Timing) → Capturing → Capturing
finish_run encode turn last c =
    let (events, sink) = drain_remaining c.sink in
    check_rotation last (write_all encode turn events (record c { sink = sink }))

abbrev pub new_capturing : (max_pending_events : ℕ) → CaptureWalWriter → Capturing
new_capturing n w = record {
  sink = new_sink n;
  writer = w;
  last_retention_check = 0;
  accepted = [];
  refused = [];
  handed = [];
}

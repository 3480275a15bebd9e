-- ===== src/Capture.antt =====
-- app/capture/sink.py: the bounded queue of capture events between the requests and the writer.
use guardian_llmprovider_gat.Prelude.{
  ℕ, zero, suc, ◌+◌, Bool, true, false, Option, none, some, List, [], ◌∷◌, ◌++◌, ltb, if◌then◌else◌,
  length, max,
}
use guardian_llmprovider_gat.Value.{ℤ, Fields}
mod Writer
mod Retention
mod Ages
mod Retained
mod Lines
mod Files
mod Recovery
mod Kept
mod Runs
mod Orderly
mod Settings
mod Stored
mod Tests

pub record CaptureEvent : Type 0 where
  pub fields : Fields
  pub priority : ℤ

-- `none` in the queue is the sentinel of `close`.
pub record CaptureSink : Type 0 where
  pub max_pending : ℕ
  pub queue : List (Option CaptureEvent)
  pub events_total : ℕ
  pub events_dropped_total : ℕ
  pub is_closed : Bool
  pub consumers : ℕ

unfoldable pub new_sink : (max_pending_events : ℕ) → CaptureSink
new_sink max_pending_events = record {
  max_pending = max max_pending_events 1;
  queue = [];
  events_total = 0;
  events_dropped_total = 0;
  is_closed = false;
  consumers = 0;
}

abbrev pub is_full : CaptureSink → Bool
is_full s = if ltb (length s.queue) s.max_pending then false else true

abbrev pub dropped : CaptureSink → CaptureSink
dropped s = record s { events_dropped_total = suc s.events_dropped_total }

unfoldable pub try_put : CaptureEvent → CaptureSink → Bool × CaptureSink
try_put e s =
    if s.is_closed
    then (false, dropped s)
    else if is_full s
    then (false, dropped s)
    else (true, record s { queue = s.queue ++ some e ∷ []; events_total = suc s.events_total })

-- `none` while it waits; the result `none` is the sentinel, or that the sink is closed and empty.
abbrev get_from :
    List (Option CaptureEvent) → CaptureSink → Option (Option CaptureEvent × CaptureSink)
get_from [] s = if s.is_closed then some (none, s) else none
get_from (item ∷ rest) s = some (item, record s { queue = rest })

unfoldable pub get_event : CaptureSink → Option (Option CaptureEvent × CaptureSink)
get_event s = get_from s.queue s

abbrev pub events_in : List (Option CaptureEvent) → List CaptureEvent
events_in [] = []
events_in (none ∷ items) = events_in items
events_in (some e ∷ items) = e ∷ events_in items

unfoldable pub drain_remaining : CaptureSink → List CaptureEvent × CaptureSink
drain_remaining s = (events_in s.queue, record s { queue = [] })

unfoldable pub close : CaptureSink → CaptureSink
close s = record s { is_closed = true; queue = if is_full s then s.queue else s.queue ++ none ∷ [] }

unfoldable pub register_consumer : CaptureSink → CaptureSink
register_consumer s = record s { consumers = suc s.consumers }

unfoldable pub unregister_consumer : CaptureSink → CaptureSink
unregister_consumer s = record s { consumers = pred s.consumers }
  where
    pred : ℕ → ℕ
    pred zero = zero
    pred (suc n) = n

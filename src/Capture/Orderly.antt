-- ===== src/Capture/Orderly.antt =====
-- app/capture/sink.py and app/capture/wal_writer.py: proofs that no event is lost between the two.
use guardian_llmprovider_gat.Prelude.{
  ℕ, suc, ◌≤◌, ◌≡◌, refl, sym, ap, ◌∙◌, true, false, Option, none, some, List, [], ◌∷◌, ◌++◌, arith,
  append_assoc, append_nil, length, length-append, if-cases, ltb→lt,
}
use guardian_llmprovider_gat.Capture.{
  CaptureEvent, CaptureSink, new_sink, is_full, dropped, try_put, get_event, get_from, events_in,
  drain_remaining, close,
}
use guardian_llmprovider_gat.Capture.Writer.{CaptureWalWriter}
use guardian_llmprovider_gat.Capture.Runs.{
  Encoder, Timing, Capturing, note, offer, write_event, consume_next, consume, Step, offered,
  consumed, stopped, step, run, write_all, finish_run, new_capturing,
}

-- Every event accepted was handed to the writer or is in the queue, each once and in their order, and the
-- counters of the sink count what was accepted and refused.
pub record IsOrderly (c : Capturing) : Type 0 where
  pub ordered : c.accepted ≡ c.handed ++ events_in c.sink.queue
  pub counted : c.sink.events_total ≡ length c.accepted
  pub drops_counted : c.sink.events_dropped_total ≡ length c.refused
  pub bounded : length c.sink.queue ≤ c.sink.max_pending

events_in-append :
    (xs ys : List (Option CaptureEvent)) → events_in (xs ++ ys) ≡ events_in xs ++ events_in ys
events_in-append [] ys = refl
events_in-append (none ∷ xs) ys = events_in-append xs ys
events_in-append (some e ∷ xs) ys = ap (λ (es : List CaptureEvent). e ∷ es) (events_in-append xs ys)

not_full : (s : CaptureSink) → is_full s ≡ false → suc (length s.queue) ≤ s.max_pending
not_full s h = ground (arith, ltb→lt (length s.queue) s.max_pending)

refused-IsOrderly :
    (e : CaptureEvent) (c : Capturing) → IsOrderly c → IsOrderly (note e c (false, dropped c.sink))
refused-IsOrderly e c h = record {
  ordered = h.ordered;
  counted = h.counted;
  drops_counted = omega (arith, h.drops_counted, length-append c.refused (e ∷ []));
  bounded = h.bounded;
}

offer-IsOrderly : (e : CaptureEvent) (c : Capturing) → IsOrderly c → IsOrderly (offer e c)
unfolding offer try_put
offer-IsOrderly e c h =
    if-cases (λ r. IsOrderly (note e c r)) c.sink.is_closed _ _ (λ t. refused-IsOrderly e c h)
      (λ t.
        if-cases (λ r. IsOrderly (note e c r)) (is_full c.sink) _ _ (λ u. refused-IsOrderly e c h)
          (λ u. record {
            ordered =
                ap (λ (es : List CaptureEvent). es ++ e ∷ []) h.ordered
                ∙ append_assoc c.handed (events_in c.sink.queue) (e ∷ [])
                ∙ ap (λ (es : List CaptureEvent). c.handed ++ es)
                    (sym (events_in-append c.sink.queue (some e ∷ [])));
            counted = omega (arith, h.counted, length-append c.accepted (e ∷ []));
            drops_counted = h.drops_counted;
            bounded = omega (arith, not_full c.sink u, length-append c.sink.queue (some e ∷ []));
          }))

taken-IsOrderly :
    (encode : Encoder) (t : Timing) (c : Capturing) (q : List (Option CaptureEvent))
    → c.sink.queue ≡ q
    → IsOrderly c
    → IsOrderly (consume_next encode t (get_from q c.sink) c)
taken-IsOrderly encode t c [] eq h =
    if-cases (λ r. IsOrderly (consume_next encode t r c)) c.sink.is_closed _ _ (λ u. h) (λ u. h)
taken-IsOrderly encode t c (none ∷ rest) eq h = record {
  ordered = h.ordered ∙ ap (λ q. c.handed ++ events_in q) eq;
  counted = h.counted;
  drops_counted = h.drops_counted;
  bounded = omega (arith, h.bounded, ap (λ (q : List (Option CaptureEvent)). length q) eq);
}
taken-IsOrderly encode t c (some e ∷ rest) eq h = record {
  ordered =
      h.ordered
      ∙ ap (λ q. c.handed ++ events_in q) eq
      ∙ sym (append_assoc c.handed (e ∷ []) (events_in rest));
  counted = h.counted;
  drops_counted = h.drops_counted;
  bounded = omega (arith, h.bounded, ap (λ (q : List (Option CaptureEvent)). length q) eq);
}

close-IsOrderly : (c : Capturing) → IsOrderly c → IsOrderly (record c { sink = close c.sink })
unfolding close
close-IsOrderly c h =
    let P = λ (q : List (Option CaptureEvent)).
      IsOrderly (record c { sink = record c.sink { is_closed = true; queue = q } }) in
    if-cases P (is_full c.sink) _ _
      (λ u. record {
        ordered = h.ordered;
        counted = h.counted;
        drops_counted = h.drops_counted;
        bounded = h.bounded;
      })
      (λ u. record {
        ordered =
            h.ordered
            ∙ ap (λ (es : List CaptureEvent). c.handed ++ es)
                (sym (append_nil (events_in c.sink.queue))
                  ∙ sym (events_in-append c.sink.queue (none ∷ [])));
        counted = h.counted;
        drops_counted = h.drops_counted;
        bounded = omega (arith, not_full c.sink u, length-append c.sink.queue (none ∷ []));
      })

step-IsOrderly :
    (encode : Encoder) (s : Step) (c : Capturing) → IsOrderly c → IsOrderly (step encode s c)
unfolding step consume get_event
step-IsOrderly encode (offered e) c h = offer-IsOrderly e c h
step-IsOrderly encode (consumed t) c h = taken-IsOrderly encode t c c.sink.queue refl h
step-IsOrderly encode stopped c h = close-IsOrderly c h

run_from-IsOrderly :
    (encode : Encoder) (ss : List Step) (c : Capturing) → IsOrderly c → IsOrderly (run encode ss c)
unfolding run
run_from-IsOrderly encode [] c h = h
run_from-IsOrderly encode (s ∷ ss) c h =
    run_from-IsOrderly encode ss (step encode s c) (step-IsOrderly encode s c h)

-- Whatever requests offer and however the loop takes turns, each event that the sink accepted was handed to
-- the writer or waits in the queue, once and in the order of acceptance; the counters tell exactly how many
-- were accepted and refused; and the queue is within its bound.
pub run-IsOrderly :
    (encode : Encoder) (ss : List Step) (n : ℕ) (w : CaptureWalWriter)
    → IsOrderly (run encode ss (new_capturing n w))
unfolding new_sink
run-IsOrderly encode ss n w =
    run_from-IsOrderly encode ss (new_capturing n w)
      (record { ordered = refl; counted = refl; drops_counted = refl; bounded = omega arith })

write_all-handed :
    (encode : Encoder) (turn : CaptureEvent → Timing) (es : List CaptureEvent) (c : Capturing)
    → ((write_all encode turn es c).handed ≡ c.handed ++ es)
      × ((write_all encode turn es c).accepted ≡ c.accepted)
unfolding write_all
write_all-handed encode turn [] c = (sym (append_nil c.handed), refl)
write_all-handed encode turn (e ∷ es) c =
    let (handed, accepted) = write_all-handed encode turn es (write_event encode (turn e) e c) in
    (handed ∙ append_assoc c.handed (e ∷ []) es, accepted)

-- After the drain, exactly what was accepted has been handed to the writer.
pub finish_run-handed :
    (encode : Encoder) (turn : CaptureEvent → Timing) (last : Timing) (c : Capturing)
    → IsOrderly c
    → ((finish_run encode turn last c).handed ≡ c.accepted)
unfolding finish_run drain_remaining
finish_run-handed encode turn last c h =
    let (handed, accepted) =
      write_all-handed encode turn (events_in c.sink.queue)
        (record c { sink = record c.sink { queue = [] } }) in
    handed ∙ sym h.ordered

-- ===== src/Queue/Order.antt =====
-- app/proxy/queue.py: proofs about the order of the waiting list.
use guardian_llmprovider_gat.Prelude.{
  ℕ, ◌≤◌, ◌<◌, String, ◌≡◌, refl, sym, ap, subst, ◌∙◌, true, Option, none, some, List, [], ◌∷◌,
  ◌++◌, arith, eq_iff, Bool-cases, Option-cases, inl, inr, contains, contains-count, count, remove,
  str_eq,
}
use guardian_llmprovider_gat.Dict.{lookup, insert, lookup-insert}
use guardian_llmprovider_gat.QueueEntry.{
  QueueEntry, Outcome, finish_entry, cancel_entry, start_entry,
}
use guardian_llmprovider_gat.Queue.{
  InferenceQueue, prune_history, finish_tracked, cancel_tracked, enqueue, new_queue,
}
use guardian_llmprovider_gat.Queue.Turn.{
  granted, Event, run, wait_for_turn, wait_entry, may_run, start, pop_front,
}
use guardian_llmprovider_gat.Queue.Invariant.{Inv, prune_fields, prune-Inv, lookup-prune}
use guardian_llmprovider_gat.Queue.Changes.{may_run-true}
use guardian_llmprovider_gat.Queue.Runs.{Closed, Timely, run_timely, Inv-Closed, new_queue-Inv}

abbrev arrival_of : Option QueueEntry → ℕ
arrival_of none = 0
arrival_of (some e) = e.enqueued_at

-- When the request under an id was queued.
abbrev pub arrival : InferenceQueue → String → ℕ
arrival q k = arrival_of (lookup k q.entries)

-- Arrivals along a list do not fall, and lie between two times.
abbrev Rising : (String → ℕ) → ℕ → List String → ℕ → Type 0
Rising f low [] high = low ≤ high
Rising f low (k ∷ ks) high = (low ≤ f k) × Rising f (f k) ks high

Rising-low :
    (f : String → ℕ) (a b : ℕ) (ks : List String) (high : ℕ)
    → a ≤ b
    → Rising f b ks high
    → Rising f a ks high
Rising-low f a b [] high h r = omega arith
Rising-low f a b (k ∷ ks) high h r = (omega arith, r.1)

Rising-high :
    (f : String → ℕ) (low : ℕ) (ks : List String) (a b : ℕ)
    → a ≤ b
    → Rising f low ks a
    → Rising f low ks b
Rising-high f low [] a b h r = omega arith
Rising-high f low (k ∷ ks) a b h r = (r.0, Rising-high f (f k) ks a b h r.1)

Rising-remove :
    (f : String → ℕ) (low : ℕ) (k : String) (ks : List String) (high : ℕ)
    → Rising f low ks high
    → Rising f low (remove k ks) high
unfolding remove
Rising-remove f low k [] high r = r
Rising-remove f low k (x ∷ ks) high r = elim (Bool-cases (str_eq x k)) [
  | inl e ↦ rw e (Rising-low f low (f x) ks high r.0 r.1)
  | inr e ↦ rw e (r.0, Rising-remove f (f x) k ks high r.1)
]

Rising-append :
    (f : String → ℕ) (low : ℕ) (ks : List String) (high : ℕ) (k : String)
    → f k ≡ high
    → Rising f low ks high
    → Rising f low (ks ++ k ∷ []) high
Rising-append f low [] high k h r = (omega arith, omega arith)
Rising-append f low (x ∷ ks) high k h r = (r.0, Rising-append f (f x) ks high k h r.1)

-- Only the arrivals of the listed ids count.
Rising-ext :
    (f g : String → ℕ) (low : ℕ) (ks : List String) (high : ℕ)
    → ((k : String) → 0 < count k ks → f k ≡ g k)
    → Rising f low ks high
    → Rising g low ks high
Rising-ext f g low [] high h r = r
Rising-ext f g low (k ∷ ks) high h r =
    let e = h k (ground (arith, eq_iff k k)) in
    (
      omega arith,
      Rising-low g (g k) (f k) ks high (omega arith)
          (Rising-ext f g (f k) ks high (λ j c. h j (omega arith)) r.1),
    )

Rising-least :
    (f : String → ℕ) (low : ℕ) (ks : List String) (high : ℕ) (k : String)
    → 0 < count k ks
    → Rising f low ks high
    → low ≤ f k
Rising-least f low [] high k c r = elim c [ ]
Rising-least f low (x ∷ ks) high k c r = elim (Bool-cases (str_eq x k)) [
  | inl e ↦ omega (arith, ap f ((eq_iff x k).0 e))
  | inr e ↦ let rest = Rising-least f (f x) ks high k (ground arith) r.1 in omega arith
]

-- Well formed, with the waiting list in the order of arrival.
pub record InOrder (now : ℕ) (q : InferenceQueue) : Type 0 where
  pub inv : Inv q
  pub rising : Rising (arrival q) 0 q.waiting now

arrival-insert :
    (q : InferenceQueue) (id : String) (e e' : QueueEntry) (k : String)
    → lookup id q.entries ≡ some e
    → e'.enqueued_at ≡ e.enqueued_at
    → arrival q k ≡ arrival_of (lookup k (insert id e' q.entries))
arrival-insert q id e e' k p h = elim (Bool-cases (str_eq id k)) [
  | inl x ↦ ground (arith, lookup-insert id k e' q.entries, ap (arrival q) ((eq_iff id k).0 x))
  | inr x ↦ ground (arith, lookup-insert id k e' q.entries)
]

prune-arrival :
    (now : ℕ) (q : InferenceQueue) (k : String)
    → Inv q
    → 0 < count k q.waiting
    → arrival q k ≡ arrival (prune_history now q) k
prune-arrival now q k v c = elim (Option-cases (lookup k (prune_history now q).entries)) [
  | inl p ↦ absurd (
      ground (
        arith,
        prune_fields now q,
        (prune-Inv now v).waiting_exact k,
        ap (count k) (prune_fields now q).0,
      ))
  | inr (e, p) ↦ ground (arith, lookup-prune now q k e)
]

finish_entry-enqueued_at :
    (now : ℕ) (o : Outcome) (detail : Option String) (e : QueueEntry)
    → (finish_entry now o detail e).enqueued_at ≡ e.enqueued_at
unfolding finish_entry
finish_entry-enqueued_at now o detail e = refl

cancel_entry-enqueued_at :
    (now : ℕ) (reason : String) (detail : Option String) (e : QueueEntry)
    → (cancel_entry now reason detail e).enqueued_at ≡ e.enqueued_at
unfolding cancel_entry
cancel_entry-enqueued_at now reason detail e = ground arith

start-Rising :
    (now : ℕ) (id : String) (e : QueueEntry) (q : InferenceQueue)
    → lookup id q.entries ≡ some e
    → Rising (arrival q) 0 q.waiting now
    → Rising (arrival (start now id e q)) 0 (start now id e q).waiting now
unfolding start start_entry
start-Rising now id e q p r =
    Rising-ext (arrival q) _ 0 (pop_front q.waiting) now
      (λ k _. arrival-insert q id e (start_entry now e) k p refl) (go q.waiting r)
  where
    go : (w : List String) → Rising (arrival q) 0 w now → Rising (arrival q) 0 (pop_front w) now
    go [] h = h
    go (x ∷ w) h = Rising-low (arrival q) 0 (arrival q x) w now (omega arith) h.1

enqueue-Rising :
    (now : ℕ) (e : QueueEntry) (q : InferenceQueue)
    → Inv q
    → e.enqueued_at ≡ now
    → lookup e.request_id q.entries ≡ none
    → Rising (arrival q) 0 q.waiting now
    → Rising (arrival (enqueue e q)) 0 (enqueue e q).waiting now
unfolding enqueue
enqueue-Rising now e q v at fresh r =
    Rising-append (arrival (enqueue e q)) 0 q.waiting now e.request_id
      (ground (
        arith,
        lookup-insert e.request_id e.request_id e q.entries,
        eq_iff e.request_id e.request_id,
      ))
      (Rising-ext (arrival q) (arrival (enqueue e q)) 0 q.waiting now
        (λ k c. ground (
          arith,
          v.waiting_exact k,
          lookup-insert e.request_id k e q.entries,
          eq_iff e.request_id k,
          λ (x : e.request_id ≡ k). ap (λ (j : String). lookup j q.entries) x,
        ))
        r)

InOrder-Closed : Closed InOrder
unfolding finish_tracked cancel_tracked enqueue
InOrder-Closed = record {
  on_prune = λ now q v. record {
    inv = prune-Inv now v.inv;
    rising = rw (prune_fields now q).0 (
        Rising-ext (arrival q) (arrival (prune_history now q)) 0 q.waiting now
          (λ k c. prune-arrival now q k v.inv c) v.rising);
  };
  on_finish = λ now id o detail e q v p f. record {
    inv = Inv-Closed.on_finish now id o detail e q v.inv p f;
    rising =
        Rising-ext (arrival q) _ 0 _ now
          (λ k _.
            arrival-insert q id e (finish_entry now o detail e) k p
              (finish_entry-enqueued_at now o detail e))
          (Rising-remove (arrival q) 0 id q.waiting now v.rising);
  };
  on_cancel = λ now id reason detail e q v p. record {
    inv = Inv-Closed.on_cancel now id reason detail e q v.inv p;
    rising =
        Rising-ext (arrival q) _ 0 _ now
          (λ k _.
            arrival-insert q id e (cancel_entry now reason detail e) k p
              (cancel_entry-enqueued_at now reason detail e))
          (ground (arith, Rising-remove (arrival q) 0 id q.waiting now v.rising));
  };
  on_enqueue = λ now e q v at new fresh room. record {
    inv = Inv-Closed.on_enqueue now e q v.inv at new fresh room;
    rising = enqueue-Rising now e q v.inv at fresh v.rising;
  };
  on_start = λ now id e q v p h. record {
    inv = Inv-Closed.on_start now id e q v.inv p h;
    rising = start-Rising now id e q p v.rising;
  };
}

-- A grant is the start of the request at the head.
pub granted-start :
    (now : ℕ) (id : String) (q : InferenceQueue)
    → (wait_for_turn now id q).0 ≡ granted
    → (e : QueueEntry) × (lookup id (prune_history now q).entries ≡ some e)
      × (may_run id e (prune_history now q) ≡ true)
      × ((wait_for_turn now id q).1 ≡ start now id e (prune_history now q))
unfolding wait_for_turn wait_entry
granted-start now id q h = ground arith

-- The head of a rising list is least.
head-least :
    (f : String → ℕ) (id k : String) (ks : List String) (now : ℕ)
    → Rising f 0 (id ∷ ks) now
    → 0 < count k (id ∷ ks)
    → f id ≤ f k
head-least f id k ks now r c = elim (Bool-cases (str_eq id k)) [
  | inl e ↦ omega (arith, ap f ((eq_iff id k).0 e))
  | inr e ↦ Rising-least f (f id) ks now k (ground arith) r.1
]

-- If the clock does not go back, a slot is granted to a request that arrived no later than any
-- request that waits at that moment, after every run from a new queue.
pub grant_is_fifo :
    (max_concurrent : ℕ) (depth : Option ℕ) (timeout ttl from now : ℕ) (es : List (ℕ × Event))
    (id k : String)
    → Timely from es now
    → (wait_for_turn now id (run es (new_queue max_concurrent depth timeout ttl))).0 ≡ granted
    → contains k (run es (new_queue max_concurrent depth timeout ttl)).waiting ≡ true
    → arrival (run es (new_queue max_concurrent depth timeout ttl)) id
      ≤ arrival (run es (new_queue max_concurrent depth timeout ttl)) k
grant_is_fifo max_concurrent depth timeout ttl from now es id k t g c =
    head-least (arrival q) id k (pop_front (prune_history now q).waiting) now
      (subst (λ w. Rising (arrival q) 0 w now) shape v.rising)
      (subst (λ w. 0 < count k w) shape (contains-count k q.waiting c))
  where
    q : InferenceQueue
    q = run es (new_queue max_concurrent depth timeout ttl)

    start_state : InOrder from (new_queue max_concurrent depth timeout ttl)
    start_state = record {
      inv = new_queue-Inv max_concurrent depth timeout ttl;
      rising = omega arith;
    }

    v : InOrder now q
    v =
        run_timely InOrder-Closed
          (λ s t' q' h w. record {
            inv = w.inv;
            rising = Rising-high (arrival q') 0 q'.waiting s t' h w.rising;
          })
          from es now _ t start_state

    shape : q.waiting ≡ id ∷ pop_front (prune_history now q).waiting
    shape =
        let (e, p, m, r) = granted-start now id q g in
        sym (prune_fields now q).0 ∙ (may_run-true id e (prune_history now q) m).1

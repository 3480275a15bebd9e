-- ===== src/Queue/Privacy.antt =====
-- app/proxy/queue.py: proofs about who is shown a request, and who can cancel it.
use guardian_llmprovider_gat.Prelude.{
  ℕ, String, ◌≡◌, ◌≢◌, ◌⊎◌, refl, subst, true, Option, none, some, List, [], ◌∷◌, arith, eq_iff,
  Bool-cases, Option-cases, inl, inr, All, leb,
}
use guardian_llmprovider_gat.Dict.{Dict, lookup}
use guardian_llmprovider_gat.QueueEntry.{
  QueueEntry, is_visible, seen_by, normalize_client_id, normalize_owner_id,
}
use guardian_llmprovider_gat.Queue.{InferenceQueue, prune_history, cancel}
use guardian_llmprovider_gat.Queue.Invariant.{lookup-prune}
use guardian_llmprovider_gat.Queue.Payloads.{
  Snapshot, snapshot, position, cancel_status, get_status, owned, newest_first, insert_newest,
  matches, your_requests,
}

-- The request is the caller's: its owner is the one named, or, where no owner is named, its client.
abbrev pub IsCallers : Option String → Option String → QueueEntry → Type 0
IsCallers (some owner) client e = e.owner_id ≡ owner
IsCallers none (some client) e = e.client_id ≡ client
IsCallers none none e = Unit {0}

is_visible-IsCallers :
    (client owner : Option String) (e : QueueEntry)
    → is_visible client owner e ≡ true
    → IsCallers (normalize_owner_id owner none) (normalize_client_id client) e
unfolding is_visible
is_visible-IsCallers client owner e h =
    go (normalize_owner_id owner none) (normalize_client_id client) h
  where
    go : (o c : Option String) → seen_by o c e ≡ true → IsCallers o c e
    go (some o) c x = (eq_iff e.owner_id o).0 x
    go none (some c) x = (eq_iff e.client_id c).0 x
    go none none x = tt

-- A caller who names another owner than the request's cannot cancel it: nothing is answered, and
-- no request, list or total of the queue changes but for the pruning of the history.
pub cancel_foreign :
    (now : ℕ) (id owner reason : String) (client owner_arg detail : Option String)
    (q : InferenceQueue)
    → normalize_owner_id owner_arg none ≡ some owner
    → ((e : QueueEntry) → lookup id q.entries ≡ some e → e.owner_id ≢ owner)
    → cancel_status now id client owner_arg reason detail q ≡ (none, prune_history now q)
unfolding cancel_status cancel is_visible
cancel_foreign now id owner reason client owner_arg detail q n h =
    elim (Option-cases (lookup id (prune_history now q).entries)) [
      | inl p ↦ ground arith
      | inr (e, p) ↦ ground (arith, p, n, h e (lookup-prune now q id e p), eq_iff e.owner_id owner)
    ]

-- An entry of the dict.
abbrev pub HeldIn : QueueEntry → Dict QueueEntry → Type 0
HeldIn e [] = ⊥
HeldIn e ((k, a) ∷ d) = (a ≡ e) ⊎ HeldIn e d

-- A snapshot of a tracked request of the owner.
abbrev pub OwnedBy : ℕ → String → InferenceQueue → Dict QueueEntry → Snapshot → Type 0
OwnedBy now owner q d s =
    (e : QueueEntry) × HeldIn e d
    × (e.owner_id ≡ owner)
    × (s ≡ snapshot now (position e.request_id q) e)

All-weaken :
    (now : ℕ) (owner : String) (q : InferenceQueue) (x : String × QueueEntry) (d : Dict QueueEntry)
    (ss : List Snapshot)
    → All (OwnedBy now owner q d) ss
    → All (OwnedBy now owner q (x ∷ d)) ss
All-weaken now owner q (k, a) d [] h = tt
All-weaken now owner q (k, a) d (s ∷ ss) h =
    let (e, i, o, m) = h.0 in ((e, inr i, o, m), All-weaken now owner q (k, a) d ss h.1)

owned-All :
    (now : ℕ) (owner : String) (client : Option String) (q : InferenceQueue) (d : Dict QueueEntry)
    → All (OwnedBy now owner q d) (owned now q (matches (some owner) client) d)
unfolding owned matches
owned-All now owner client q [] = tt
owned-All now owner client q ((k, e) ∷ d) =
    let rest = All-weaken now owner q (k, e) d _ (owned-All now owner client q d) in
    elim (Bool-cases (matches (some owner) client e)) [
      | inl h ↦ rw h ((e, inl refl, (eq_iff e.owner_id owner).0 h, refl), rest)
      | inr h ↦ rw h rest
    ]

insert_newest-All :
    (P : Snapshot → Type 0) (s : Snapshot) (ss : List Snapshot)
    → P s
    → All P ss
    → All P (insert_newest s ss)
unfolding insert_newest
insert_newest-All P s [] p h = (p, tt)
insert_newest-All P s (t ∷ ss) p h = elim (Bool-cases (leb t.enqueued_at s.enqueued_at)) [
  | inl x ↦ rw x (p, h)
  | inr x ↦ rw x (h.0, insert_newest-All P s ss p h.1)
]

newest_first-All : (P : Snapshot → Type 0) (ss : List Snapshot) → All P ss → All P (newest_first ss)
unfolding newest_first
newest_first-All P [] h = tt
newest_first-All P (s ∷ ss) h = insert_newest-All P s _ h.0 (newest_first-All P ss h.1)

-- The requests that a queue status shows as the caller's own are snapshots of tracked requests of
-- the owner that the caller is.
pub your_requests-All :
    (now : ℕ) (owner : String) (client owner_arg : Option String) (q : InferenceQueue)
    (ss : List Snapshot)
    → normalize_owner_id owner_arg none ≡ some owner
    → (get_status now client owner_arg q).0.your_requests ≡ some ss
    → All (OwnedBy now owner (prune_history now q) (prune_history now q).entries) ss
unfolding get_status your_requests
your_requests-All now owner client owner_arg q ss n h =
    let r = prune_history now q in
    subst (All (OwnedBy now owner r r.entries)) (ground (arith, n)) (
      newest_first-All (OwnedBy now owner r r.entries)
        (owned now r (matches (some owner) (normalize_client_id client)) r.entries)
        (owned-All now owner (normalize_client_id client) r r.entries))

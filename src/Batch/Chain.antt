-- ===== src/Batch/Chain.antt =====
-- The journal as a chain: the numbers, hashes and times of the events that v2_reducer.py accepts.
use paperread.Prelude.{ℕ, ◌+◌, ◌≤◌, ◌≡◌, List, [], ◌∷◌, length, some, ok, >>=-eq-ok, arith}
use paperread.Contracts.Scalars.{UuidString, Sha256, timestamp}
use paperread.Contracts.Manifest.{BatchManifest}
use paperread.Contracts.State.{BatchState}
use paperread.Contracts.Events.{BatchEvent}
use paperread.Reducer.Base.{initial_state, status}
use paperread.Reducer.Apply.{apply_event, apply_all, replay}
use paperread.Batch.Refines.{apply_event-Run}
use paperread.Batch.Replayed.{Good, apply_event-Good, initial_state-Good}

-- From the number and the hash that come next and a time, each event has that number, names that
-- hash, and comes no earlier; then it is the next one's turn.
abbrev pub Chained : ℕ → Sha256 → ℕ → List BatchEvent → Type 0
Chained number hash time [] = Unit
Chained number hash time (e ∷ events) =
    (e.sequence ≡ number)
    × (e.previous_event_sha256 ≡ some hash)
    × (time ≤ timestamp e.occurred_at)
    × Chained (number + 1) e.event_sha256 (timestamp e.occurred_at) events

-- The hash and the time of the last event.
abbrev pub last_hash : Sha256 → List BatchEvent → Sha256
last_hash hash [] = hash
last_hash hash (e ∷ events) = last_hash e.event_sha256 events

-- What the snapshot says of the journal: the number to come, the last hash, and its own summary.
pub record Follows (first : BatchEvent) (events : List BatchEvent) (state : BatchState)
    : Type 0 where
  pub counted : state.next_sequence ≡ 2 + length events
  pub hashed : state.latest_event_sha256 ≡ last_hash first.event_sha256 events
  pub summed : state.batch_status ≡ status state.items

-- What the next event is held against.
record Ready (number : ℕ) (hash : Sha256) (time : ℕ) (state : BatchState) : Type 0 where
  numbered : state.next_sequence ≡ number
  hashed : state.latest_event_sha256 ≡ hash
  timed : timestamp state.updated_at ≡ time
  summed : state.batch_status ≡ status state.items

initial_state-Ready :
    (manifest : BatchManifest) (first : BatchEvent) {state : BatchState}
    → initial_state manifest first ≡ ok state
    → (first.sequence ≡ 1) × Ready 2 first.event_sha256 (timestamp first.occurred_at) state
unfolding initial_state
initial_state-Ready manifest first h = ground arith

module _ (derive : UuidString → UuidString) (manifest : BatchManifest) where
  apply_event-Ready :
      (state : BatchState) (e : BatchEvent) {state' : BatchState} {number time : ℕ} {hash : Sha256}
      → Good manifest state
      → Ready number hash time state
      → apply_event derive state manifest e ≡ ok state'
      → (e.sequence ≡ number)
        × (e.previous_event_sha256 ≡ some hash)
        × (time ≤ timestamp e.occurred_at)
        × Ready (number + 1) e.event_sha256 (timestamp e.occurred_at) state'
  apply_event-Ready state e g r h =
      let ((s, p, t), (items', _, built, _)) = apply_event-Run derive state manifest e g.same h in
      (ground arith, ground arith, ground arith, ground arith)

  apply_all-Chained :
      (events : List BatchEvent) (state : BatchState) {state' : BatchState} (number : ℕ)
      (hash : Sha256) (time : ℕ)
      → Good manifest state
      → Ready number hash time state
      → apply_all derive state manifest events ≡ ok state'
      → Chained number hash time events
        × (state'.next_sequence ≡ number + length events)
        × (state'.latest_event_sha256 ≡ last_hash hash events)
        × (state'.batch_status ≡ status state'.items)
  unfolding apply_all
  apply_all-Chained [] state number hash time g r h = (tt, ground arith, ground arith, ground arith)
  apply_all-Chained (e ∷ events) state number hash time g r h =
      let (state1, one, rest) = >>=-eq-ok (apply_event derive state manifest e) _ h in
      let (s, p, t, r1) = apply_event-Ready state e g r one in
      let (chained, counted, hashed, summed) =
        apply_all-Chained events state1 (number + 1) e.event_sha256 (timestamp e.occurred_at)
          (apply_event-Good derive manifest state e state1 one g) r1 rest in
      ((s, p, t, chained), omega arith, hashed, summed)

-- A journal that replays starts at number 1; each later event has the next number, names the hash of
-- the event before it, and comes no earlier than it. The snapshot has the number to come, the last
-- event's hash, and the status of its own items.
pub replay-Chained :
    (derive : UuidString → UuidString) (manifest : BatchManifest) (first : BatchEvent)
    (events : List BatchEvent) {state : BatchState}
    → replay derive manifest (first ∷ events) ≡ ok state
    → (first.sequence ≡ 1)
      × Chained 2 first.event_sha256 (timestamp first.occurred_at) events
      × Follows first events state
unfolding replay
replay-Chained derive manifest first events h =
    let (state1, begun, rest) = >>=-eq-ok (initial_state manifest first) _ h in
    let (one, ready) = initial_state-Ready manifest first begun in
    let (chained, counted, hashed, summed) =
      apply_all-Chained derive manifest events state1 2 first.event_sha256
        (timestamp first.occurred_at) (initial_state-Good manifest first state1 begun) ready rest in
    (one, chained, record { counted = counted; hashed = hashed; summed = summed })

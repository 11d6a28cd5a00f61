-- ===== src/Batch/Starts.antt =====
-- The count of external writes: every accepted `write.started` against the acknowledged retries.
use paperread.Prelude.{
  ℕ, ◌+◌, true, false, ◌≡◌, refl, ap, subst, List, [], ◌∷◌, map, total, is_some, to_nat, ok,
  >>=-eq-ok, arith, inl, inr, Bool-cases, eq_of_ok,
}
use paperread.Contracts.Scalars.{UuidString}
use paperread.Contracts.Manifest.{BatchManifest, ManifestItem}
use paperread.Contracts.State.{StateItem, BatchState}
use paperread.Contracts.Events.{BatchEvent, EventData, WriteStartedData, WriteRetriedData}
use paperread.Reducer.Base.{initial_items, initial_item, initial_state}
use paperread.Reducer.WriteRun.{apply_write_started, start_item}
use paperread.Reducer.WriteSettle.{apply_write_retried, retry_write_item}
use paperread.Reducer.Apply.{apply_event, apply_all, dispatch, replay}
use paperread.Batch.Frame.{total-set, update_item-eq-ok, update_at-eq-ok}
use paperread.Batch.Accepted.{apply_event-eq-ok}
use paperread.Batch.Refines.{apply_event-Run}
use paperread.Batch.History.{initial_state-eq-ok}
use paperread.Batch.WriteLane.{
  WriteMove, write_view, is_write_start, is_write_retry, stays, hands_over, claims, releases,
  starts, commits, doubts, reconciles, retries,
}
use paperread.Batch.WriteLane.Moves.{ItemStep-WriteMove}
use paperread.Batch.Replayed.{
  Good, apply_event-Good, initial_state-Good, Run-total-le, Run-total-ge,
}

-- how many items hold a write authorization
abbrev pub authorizations : List StateItem → ℕ
authorizations items = total (λ s. to_nat (is_some s.authorization_sha256)) items

-- how many events of a journal start a write, and how many acknowledge that one was not found
abbrev pub write_starts : List BatchEvent → ℕ
write_starts events = total (λ e. to_nat (is_write_start e.payload)) events

abbrev pub write_retries : List BatchEvent → ℕ
write_retries events = total (λ e. to_nat (is_write_retry e.payload)) events

-- Only a start gives an item an authorization, and only a retry takes it back.
WriteMove-authorization :
    (payload : EventData) (s s' : StateItem)
    → is_write_start payload ≡ false
    → is_write_retry payload ≡ false
    → WriteMove payload (write_view s) (write_view s')
    → is_some s'.authorization_sha256 ≡ is_some s.authorization_sha256
WriteMove-authorization payload s s' n k (stays e) = ground arith
WriteMove-authorization payload s s' n k (hands_over w h a t) = ap is_some a
WriteMove-authorization payload s s' n k (claims c q a x e) = ground arith
WriteMove-authorization payload s s' n k (releases q e) = ground arith
WriteMove-authorization payload s s' n k (starts sha c q a e) = absurd (ground arith)
WriteMove-authorization payload s s' n k (commits sha q a e) = ground arith
WriteMove-authorization payload s s' n k (doubts q e) = ground arith
WriteMove-authorization payload s s' n k (reconciles sha st q r e) = ground arith
WriteMove-authorization payload s s' n k (retries c q r e) = absurd (ground arith)

start_data :
    (payload : EventData)
    → is_write_start payload ≡ true
    → (d : WriteStartedData) × (payload ≡ EventData.write_started d)
start_data payload h = ground arith

retry_data :
    (payload : EventData)
    → is_write_retry payload ≡ true
    → (d : WriteRetriedData) × (payload ≡ EventData.write_retried d)
retry_data payload h = ground arith

start_item-authorization :
    (state : BatchState) (event : BatchEvent) (d : WriteStartedData) (s s' : StateItem)
    → start_item state event d s ≡ ok s'
    → (is_some s.authorization_sha256 ≡ false) × (is_some s'.authorization_sha256 ≡ true)
unfolding start_item
start_item-authorization state event d s s' h = ground arith

retry_write_item-authorization :
    (state : BatchState) (d : WriteRetriedData) (s s' : StateItem)
    → retry_write_item state d s ≡ ok s'
    → (is_some s.authorization_sha256 ≡ true) × (is_some s'.authorization_sha256 ≡ false)
unfolding retry_write_item
retry_write_item-authorization state d s s' h = ground arith

module _ (state : BatchState) (event : BatchEvent) (state' : BatchState) where
  started_count :
      (d : WriteStartedData)
      → apply_write_started state event d ≡ ok state'
      → authorizations state'.items ≡ authorizations state.items + 1
  unfolding apply_write_started
  started_count d h =
      let (items', changed, built, _) = update_item-eq-ok state event d.item_id _ h in
      let (j, s, s', _, es, c, e) = update_at-eq-ok state.items d.item_id _ state.items changed in
      let (before, after) = start_item-authorization state event d s s' c in
      omega (
        arith,
        total-set (λ s. to_nat (is_some s.authorization_sha256)) state.items j s' es,
        ap (λ t. authorizations t.items) built,
        ap authorizations e,
        ap to_nat before,
        ap to_nat after,
      )

  retried_count :
      (d : WriteRetriedData)
      → apply_write_retried state event d ≡ ok state'
      → authorizations state'.items + 1 ≡ authorizations state.items
  unfolding apply_write_retried
  retried_count d h =
      let (items', changed, built, _) = update_item-eq-ok state event d.item_id _ h in
      let (j, s, s', _, es, c, e) = update_at-eq-ok state.items d.item_id _ state.items changed in
      let (before, after) = retry_write_item-authorization state d s s' c in
      omega (
        arith,
        total-set (λ s. to_nat (is_some s.authorization_sha256)) state.items j s' es,
        ap (λ t. authorizations t.items) built,
        ap authorizations e,
        ap to_nat before,
        ap to_nat after,
      )

exclusive_kinds :
    (payload : EventData) → is_write_start payload ≡ true → is_write_retry payload ≡ false
exclusive_kinds payload h = ground arith

module _ (derive : UuidString → UuidString) (manifest : BatchManifest) where
  -- One event changes the count of authorizations as its kind says.
  abbrev Counts : BatchState → BatchEvent → BatchState → Type 0
  Counts state event state' =
      authorizations state'.items + to_nat (is_write_retry event.payload)
      ≡ authorizations state.items + to_nat (is_write_start event.payload)

  other_counts :
      (state : BatchState) (event : BatchEvent) (state' : BatchState)
      → Good manifest state
      → is_write_start event.payload ≡ false
      → is_write_retry event.payload ≡ false
      → apply_event derive state manifest event ≡ ok state'
      → authorizations state'.items ≡ authorizations state.items
  other_counts state event state' g n k h =
      let (_, (items', run, built, _)) = apply_event-Run derive state manifest event g.same h in
      omega (
        arith,
        Run-total-le derive manifest (λ s. to_nat (is_some s.authorization_sha256)) state event
            (λ m s s' r step. omega (
              arith,
              ap to_nat (
                  WriteMove-authorization event.payload s s' n k
                    (ItemStep-WriteMove derive manifest state event m s s' step r)),
            ))
            g.sound run,
        Run-total-ge derive manifest (λ s. to_nat (is_some s.authorization_sha256)) state event
            (λ m s s' r step. omega (
              arith,
              ap to_nat (
                  WriteMove-authorization event.payload s s' n k
                    (ItemStep-WriteMove derive manifest state event m s s' step r)),
            ))
            g.sound run,
        ap (λ t. authorizations t.items) built,
      )

  apply_event-Counts :
      (state : BatchState) (event : BatchEvent) (state' : BatchState)
      → Good manifest state
      → apply_event derive state manifest event ≡ ok state'
      → Counts state event state'
  unfolding dispatch
  apply_event-Counts state event state' g h =
      let dispatched = (apply_event-eq-ok derive state manifest event h).1 in
      elim (Bool-cases (is_write_start event.payload)) [
        | inl c ↦
            let (d, p) = start_data event.payload c in
            omega (
              arith,
              ap to_nat c,
              ap to_nat (exclusive_kinds event.payload c),
              started_count state event state' d
                  (subst (λ q. dispatch derive state manifest event q ≡ ok state') p dispatched),
            )
        | inr n ↦ elim (Bool-cases (is_write_retry event.payload)) [
          | inl c ↦
              let (d, p) = retry_data event.payload c in
              omega (
                arith,
                ap to_nat c,
                ap to_nat n,
                retried_count state event state' d
                    (subst (λ q. dispatch derive state manifest event q ≡ ok state') p dispatched),
              )
          | inr k ↦ omega (arith, ap to_nat n, ap to_nat k, other_counts state event state' g n k h)
        ]
      ]

  apply_all-Counts :
      (events : List BatchEvent) (state : BatchState) {state' : BatchState}
      → Good manifest state
      → apply_all derive state manifest events ≡ ok state'
      → authorizations state'.items + write_retries events
        ≡ authorizations state.items + write_starts events
  unfolding apply_all
  apply_all-Counts [] state g h = omega (arith, ap (λ t. authorizations t.items) (eq_of_ok h))
  apply_all-Counts (e ∷ events) state g h =
      let (state1, first, rest) = >>=-eq-ok (apply_event derive state manifest e) _ h in
      omega (
        arith,
        apply_event-Counts state e state1 g first,
        apply_all-Counts events state1 (apply_event-Good derive manifest state e state1 first g)
            rest,
      )

initial_authorizations : (ms : List ManifestItem) → authorizations (map initial_item ms) ≡ 0
unfolding initial_item
initial_authorizations [] = refl
initial_authorizations (m ∷ ms) = ground (arith, initial_authorizations ms)

-- In a journal that replays, the writes that were started are just as many as the retries that
-- acknowledged a missing note and the items that now hold an authorization, taken together.
pub write_starts-replay :
    (derive : UuidString → UuidString) (manifest : BatchManifest) (first : BatchEvent)
    (events : List BatchEvent) {state : BatchState}
    → replay derive manifest (first ∷ events) ≡ ok state
    → write_starts events ≡ write_retries events + authorizations state.items
unfolding replay initial_items
write_starts-replay derive manifest first events h =
    let (state1, begun, rest) = >>=-eq-ok (initial_state manifest first) _ h in
    omega (
      arith,
      apply_all-Counts derive manifest events state1
          (initial_state-Good manifest first state1 begun) rest,
      initial_authorizations manifest.items,
      ap authorizations (initial_state-eq-ok manifest first begun).0,
    )

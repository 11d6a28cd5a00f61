-- ===== src/Batch/Serial.antt =====
-- The serial write lane of v2_reducer.py: how many items hold it at a time.
use paperread.Prelude.{
  ℕ, ◌≤◌, Bool, true, false, ◌≡◌, refl, ap, subst, List, [], ◌∷◌, map, total, any, to_nat, ok,
  arith, inl, inr, Bool-cases,
}
use paperread.Contracts.Scalars.{UuidString}
use paperread.Contracts.Manifest.{BatchManifest, ManifestItem}
use paperread.Contracts.State.{StateItem, BatchState}
use paperread.Contracts.Events.{BatchEvent, EventData, WriteClaimedData}
use paperread.Reducer.Base.{initial_items, initial_item, initial_state}
use paperread.Reducer.WriteClaim.{holds_write_lane, apply_write_claimed}
use paperread.Reducer.Apply.{apply_event, dispatch, replay}
use paperread.Batch.Frame.{total-set, update_item-eq-ok, update_at-eq-ok}
use paperread.Batch.Steps.{is_write_claim}
use paperread.Batch.Accepted.{apply_event-eq-ok, apply_write_claimed-eq-ok}
use paperread.Batch.Refines.{apply_event-Run}
use paperread.Batch.History.{initial_state-eq-ok, replay-keeps}
use paperread.Batch.WriteLane.{
  WriteMove, write_view, stays, hands_over, claims, releases, starts, commits, doubts, reconciles,
  retries,
}
use paperread.Batch.WriteLane.Moves.{ItemStep-WriteMove}
use paperread.Batch.Replayed.{Good, apply_event-Good, initial_state-Good, Run-total-le}

-- how many items are claimed, started or uncertain in the write lane
abbrev pub write_holders : List StateItem → ℕ
write_holders items = total (λ s. to_nat (holds_write_lane s)) items

-- Every move but a claim takes no hold of the lane.
WriteMove-holds :
    (payload : EventData) (s s' : StateItem)
    → is_write_claim payload ≡ false
    → WriteMove payload (write_view s) (write_view s')
    → to_nat (holds_write_lane s') ≤ to_nat (holds_write_lane s)
WriteMove-holds payload s s' n (stays e) = ground arith
WriteMove-holds payload s s' n (hands_over w h a k) = ground arith
WriteMove-holds payload s s' n (claims c q a k e) = absurd (ground arith)
WriteMove-holds payload s s' n (releases q e) = ground arith
WriteMove-holds payload s s' n (starts sha c q a e) = ground arith
WriteMove-holds payload s s' n (commits sha q a e) = ground arith
WriteMove-holds payload s s' n (doubts q e) = ground arith
WriteMove-holds payload s s' n (reconciles sha st q r e) = ground arith
WriteMove-holds payload s s' n (retries c q r e) = ground arith

none_hold : (items : List StateItem) → any holds_write_lane items ≡ false → write_holders items ≡ 0
none_hold [] h = refl
none_hold (x ∷ items) h = ground (arith, none_hold items)

initial_holders : (ms : List ManifestItem) → write_holders (map initial_item ms) ≡ 0
unfolding initial_item
initial_holders [] = refl
initial_holders (m ∷ ms) = ground (arith, initial_holders ms)

to_nat_le : (b : Bool) → to_nat b ≤ 1
to_nat_le b = ground arith

write_claim_data :
    (payload : EventData)
    → is_write_claim payload ≡ true
    → (d : WriteClaimedData) × (payload ≡ EventData.write_claimed d)
write_claim_data payload h = ground arith

module _ (derive : UuidString → UuidString) (manifest : BatchManifest) where
  abbrev IsSerial : BatchState → Type 0
  IsSerial state = Good manifest state × (write_holders state.items ≤ 1)

  -- A write claim finds the lane free, and changes one item.
  claim_serial :
      (state : BatchState) (event : BatchEvent) (d : WriteClaimedData) (state' : BatchState)
      → apply_write_claimed state manifest event d ≡ ok state'
      → write_holders state'.items ≤ 1
  claim_serial state event d state' h =
      let (m, _, _, _, free, rest) = apply_write_claimed-eq-ok state manifest event d h in
      let (items', changed, built, _) = update_item-eq-ok state event d.item_id _ rest in
      let (j, s, s', _, es, _, e) = update_at-eq-ok state.items d.item_id _ state.items changed in
      omega (
        arith,
        none_hold state.items free,
        total-set (λ s. to_nat (holds_write_lane s)) state.items j s' es,
        to_nat_le (holds_write_lane s'),
        ap (λ t. write_holders t.items) built,
        ap write_holders e,
      )

  apply_event-IsSerial :
      (state : BatchState) (event : BatchEvent) (state' : BatchState)
      → apply_event derive state manifest event ≡ ok state'
      → IsSerial state
      → IsSerial state'
  unfolding dispatch
  apply_event-IsSerial state event state' h (g, n) =
      let g' = apply_event-Good derive manifest state event state' h g in
      elim (Bool-cases (is_write_claim event.payload)) [
        | inl c ↦
            let (d, p) = write_claim_data event.payload c in
            let dispatched = (apply_event-eq-ok derive state manifest event h).1 in
            (
              g',
              claim_serial state event d state'
                  (subst (λ q. dispatch derive state manifest event q ≡ ok state') p dispatched),
            )
        | inr c ↦
            let (_, (items', run, built, _)) =
              apply_event-Run derive state manifest event g.same h in
            (
              g',
              omega (
                arith,
                Run-total-le derive manifest (λ s. to_nat (holds_write_lane s)) state event
                    (λ m s s' r step.
                      WriteMove-holds event.payload s s' c
                        (ItemStep-WriteMove derive manifest state event m s s' step r))
                    g.sound run,
                ap (λ t. write_holders t.items) built,
              ),
            )
      ]

  initial-IsSerial :
      (event : BatchEvent) (state : BatchState)
      → initial_state manifest event ≡ ok state
      → IsSerial state
  unfolding initial_items
  initial-IsSerial event state h = (
    initial_state-Good manifest event state h,
    omega (
      arith,
      initial_holders manifest.items,
      ap write_holders (initial_state-eq-ok manifest event h).0,
    ),
  )

-- In every state that a journal replays to, at most one item of the batch is claimed, started or
-- uncertain in the write lane.
pub replay-write_holders :
    (derive : UuidString → UuidString) (manifest : BatchManifest) (events : List BatchEvent)
    {state : BatchState}
    → replay derive manifest events ≡ ok state
    → write_holders state.items ≤ 1
replay-write_holders derive manifest events h =
    (replay-keeps derive manifest (IsSerial derive manifest) (apply_event-IsSerial derive manifest)
      (initial-IsSerial derive manifest) events h).1

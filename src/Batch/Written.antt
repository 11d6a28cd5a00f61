-- ===== src/Batch/Written.antt =====
-- A note that v2_reducer.py has recorded as written: what later events can do to its item.
use paperread.Prelude.{ℕ, ◌≡◌, refl, ◌∙◌, some, List, get_elem?, ok, arith, ◌≤◌}
use paperread.Contracts.Scalars.{UuidString}
use paperread.Contracts.Manifest.{BatchManifest}
use paperread.Contracts.Status.{WriteStatus}
use paperread.Contracts.State.{StateItem, BatchState}
use paperread.Contracts.Events.{BatchEvent, EventData}
use paperread.Reducer.Apply.{apply_all, replay}
use paperread.Batch.WriteLane.{
  WriteView, WriteMove, write_view, stays, hands_over, claims, releases, starts, commits, doubts,
  reconciles, retries,
}
use paperread.Batch.WriteLane.Moves.{ItemStep-WriteMove}
use paperread.Batch.Replayed.{replay-Good, apply_all-item}

-- No move leaves a written view.
WriteMove-written :
    (payload : EventData) (v w : WriteView)
    → v.status ≡ WriteStatus.written
    → WriteMove payload v w
    → w ≡ v
WriteMove-written payload v w p (stays e) = e
WriteMove-written payload v w p (hands_over x h a k) = absurd (ground arith)
WriteMove-written payload v w p (claims c q a k e) = cc
WriteMove-written payload v w p (releases q e) = cc
WriteMove-written payload v w p (starts sha c q a e) = cc
WriteMove-written payload v w p (commits sha q a e) = cc
WriteMove-written payload v w p (doubts q e) = cc
WriteMove-written payload v w p (reconciles sha st q r e) = cc
WriteMove-written payload v w p (retries c q r e) = cc

-- Once the item at a position of a replayed state is written, no further events change its write
-- status, its attempt count, its candidate, its authorization or the result that was recorded.
pub written_is_final :
    (derive : UuidString → UuidString) (manifest : BatchManifest) (events later : List BatchEvent)
    (i : ℕ) {state state' : BatchState} {s : StateItem}
    → replay derive manifest events ≡ ok state
    → apply_all derive state manifest later ≡ ok state'
    → get_elem? state.items i ≡ some s
    → s.write_status ≡ WriteStatus.written
    → (s' : StateItem) × (get_elem? state'.items i ≡ some s') × (write_view s' ≡ write_view s)
written_is_final derive manifest events later i {state} {s = s0} h k e p =
    apply_all-item derive manifest (λ s. write_view s ≡ write_view s0)
      (λ st ev m s s' r step q.
        WriteMove-written ev.payload (write_view s) (write_view s') (ground arith)
          (ItemStep-WriteMove derive manifest st ev m s s' step r)
        ∙ q)
      i later state k (replay-Good derive manifest events h) e refl

WriteMove-attempts :
    (payload : EventData) (v w : WriteView) → WriteMove payload v w → v.attempts ≤ w.attempts
WriteMove-attempts payload v w (stays e) = ground arith
WriteMove-attempts payload v w (hands_over x h a k) = omega arith
WriteMove-attempts payload v w (claims c q a k e) = ground arith
WriteMove-attempts payload v w (releases q e) = ground arith
WriteMove-attempts payload v w (starts sha c q a e) = ground arith
WriteMove-attempts payload v w (commits sha q a e) = ground arith
WriteMove-attempts payload v w (doubts q e) = ground arith
WriteMove-attempts payload v w (reconciles sha st q r e) = ground arith
WriteMove-attempts payload v w (retries c q r e) = ground arith

-- The item at a position of a replayed state is never on an earlier write attempt than before: events
-- only raise its attempt count.
pub write_attempts_grow :
    (derive : UuidString → UuidString) (manifest : BatchManifest) (events later : List BatchEvent)
    (i : ℕ) {state state' : BatchState} {s : StateItem}
    → replay derive manifest events ≡ ok state
    → apply_all derive state manifest later ≡ ok state'
    → get_elem? state.items i ≡ some s
    → (s' : StateItem) × (get_elem? state'.items i ≡ some s')
      × (s.write_attempt_count ≤ s'.write_attempt_count)
write_attempts_grow derive manifest events later i {state} {s = s0} h k e =
    apply_all-item derive manifest (λ s. s0.write_attempt_count ≤ s.write_attempt_count)
      (λ st ev m s s' r step q. omega (
        arith,
        q,
        WriteMove-attempts ev.payload (write_view s) (write_view s')
            (ItemStep-WriteMove derive manifest st ev m s s' step r),
      ))
      i later state k (replay-Good derive manifest events h) e (omega arith)

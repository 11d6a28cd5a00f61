-- ===== src/Batch/Replayed.antt =====
-- What holds of every state that `replay` of v2_reducer.py returns.
use paperread.Prelude.{
  ℕ, ◌≡◌, refl, sym, subst, ap, ◌∙◌, inl, inr, some, get_elem?, eq_of_some, eq_of_ok, total, ◌≤◌,
  >>=-eq-ok, true, List, [], ◌∷◌, map, Paired, ok, arith,
}
use paperread.Contracts.Scalars.{UuidString}
use paperread.Contracts.Manifest.{BatchManifest, ManifestItem}
use paperread.Contracts.State.{StateItem, BatchState}
use paperread.Contracts.Snapshot.{model_validate}
use paperread.Contracts.Events.{BatchEvent}
use paperread.Reducer.Base.{initial_item, initial_items, initial_state}
use paperread.Reducer.Apply.{apply_event, apply_all, replay}
use paperread.Batch.Frame.{SameId, Paired-get_elem?, get_elem?-set, total-set}
use paperread.Batch.Steps.{ItemStep, Run, here, next, at}
use paperread.Batch.Refines.{apply_event-Run}
use paperread.Batch.History.{
  initial_state-eq-ok, apply_all-keeps, replay-keeps, Run-Paired, ItemStep-SameId,
}
use paperread.Batch.Items.{Sound, initial_item-Sound}
use paperread.Batch.Items.Keep.{ItemStep-Sound}

-- A relation that holds of the initial items holds of the first list.
pub Paired-initial :
    (R : ManifestItem → StateItem → Type 0)
    → ((m : ManifestItem) → R m (initial_item m))
    → (ms : List ManifestItem) → Paired R ms (map initial_item ms)
Paired-initial R holds [] = tt
Paired-initial R holds (m ∷ ms) = (holds m, Paired-initial R holds ms)

-- The state's items stand in the manifest's order under its ids, each sound, and the snapshot passes
-- the strict contract.
pub record Good (manifest : BatchManifest) (state : BatchState) : Type 0 where
  pub same : Paired SameId manifest.items state.items
  pub sound : Paired (Sound manifest) manifest.items state.items
  pub valid : model_validate state ≡ true

initial_item-SameId : (m : ManifestItem) → SameId m (initial_item m)
unfolding initial_item
initial_item-SameId m = refl

pub initial_state-Good :
    (manifest : BatchManifest) (event : BatchEvent) (state : BatchState)
    → initial_state manifest event ≡ ok state
    → Good manifest state
unfolding initial_items
initial_state-Good manifest event state h =
    let (e, valid) = initial_state-eq-ok manifest event h in
    record {
      same =
          subst (Paired SameId manifest.items) (sym e)
            (Paired-initial SameId initial_item-SameId manifest.items);
      sound =
          subst (Paired (Sound manifest) manifest.items) (sym e)
            (Paired-initial (Sound manifest) (initial_item-Sound manifest) manifest.items);
      valid = valid;
    }

module _ (derive : UuidString → UuidString) (manifest : BatchManifest) where
  -- Every accepted event keeps the state good.
  pub apply_event-Good :
      (state : BatchState) (event : BatchEvent) (state' : BatchState)
      → apply_event derive state manifest event ≡ ok state'
      → Good manifest state
      → Good manifest state'
  apply_event-Good state event state' h g =
      let (_, (items', run, built, valid)) = apply_event-Run derive state manifest event g.same h in
      let e : state'.items ≡ items' = ap (λ t. t.items) built in
      record {
        same = subst (Paired SameId manifest.items) (sym e) (
            Run-Paired derive manifest SameId state event
              (ItemStep-SameId derive manifest state event) run g.same);
        sound = subst (Paired (Sound manifest) manifest.items) (sym e) (
            Run-Paired derive manifest (Sound manifest) state event
              (ItemStep-Sound derive manifest state event) run g.sound);
        valid = valid;
      }

  pub apply_all-Good :
      (events : List BatchEvent) (state : BatchState) {state' : BatchState}
      → apply_all derive state manifest events ≡ ok state'
      → Good manifest state
      → Good manifest state'
  apply_all-Good = apply_all-keeps derive manifest (Good manifest) apply_event-Good

  -- Every state that a journal replays to is good: its items stand in the manifest's order under its
  -- ids, it passes the strict contract, and each item is sound. Of a sound item the active lanes are
  -- those that hold a lease, no worker is active beside a local attempt, its lanes fit its kind and
  -- the write policy, and it holds a write authorization just when its write has started.
  pub replay-Good :
      (events : List BatchEvent) {state : BatchState}
      → replay derive manifest events ≡ ok state
      → Good manifest state
  replay-Good =
      replay-keeps derive manifest (Good manifest) apply_event-Good (initial_state-Good manifest)

module _ (derive : UuidString → UuidString) (manifest : BatchManifest) where
  -- What each step of a sound item keeps, a run keeps of the item at any position.
  pub Run-item :
      (Q : StateItem → Type 0) (state : BatchState) (event : BatchEvent)
      → ((m : ManifestItem) (s s' : StateItem)
          → Sound manifest m s
          → ItemStep derive state manifest event m s s'
          → Q s
          → Q s')
      → (i : ℕ) {items items' : List StateItem} {s : StateItem}
      → Run derive state manifest event items items'
      → Paired (Sound manifest) manifest.items items
      → get_elem? items i ≡ some s
      → Q s
      → (s' : StateItem) × (get_elem? items' i ≡ some s') × Q s'
  Run-item Q state event keeps i {s} here p e q = (s, e, q)
  Run-item Q state event keeps i {s} (next {items' = mid} run (at j m t t' em es step set_at)) p e
        q =
      let (s1, e1, q1) = Run-item Q state event keeps i run p e q in
      let sound =
        Run-Paired derive manifest (Sound manifest) state event
          (ItemStep-Sound derive manifest state event) run p in
      let r = Paired-get_elem? (Sound manifest) manifest.items mid j sound em es in
      elim (get_elem?-set mid j i t' e1) [
        | inl (same, e2) ↦
            let same_item : s1 ≡ t = eq_of_some (sym e1 ∙ ap (get_elem? mid) same ∙ es) in
            (t', rw set_at e2, keeps m t t' r step (subst Q same_item q1))
        | inr e2 ↦ (s1, rw set_at e2, q1)
      ]

  -- So it holds at that position after any further events.
  pub apply_all-item :
      (Q : StateItem → Type 0)
      → ((state : BatchState) (event : BatchEvent) (m : ManifestItem) (s s' : StateItem)
          → Sound manifest m s
          → ItemStep derive state manifest event m s s'
          → Q s
          → Q s')
      → (i : ℕ) (events : List BatchEvent) (state : BatchState) {state' : BatchState}
        {s : StateItem}
      → apply_all derive state manifest events ≡ ok state'
      → Good manifest state
      → get_elem? state.items i ≡ some s
      → Q s
      → (s' : StateItem) × (get_elem? state'.items i ≡ some s') × Q s'
  unfolding apply_all
  apply_all-item Q keeps i [] state {s} h g e q = (s, rw (← eq_of_ok h) e, q)
  apply_all-item Q keeps i (event ∷ events) state h g e q =
      let (state1, first, rest) = >>=-eq-ok (apply_event derive state manifest event) _ h in
      let (_, (items1, run, built, _)) = apply_event-Run derive state manifest event g.same first in
      let (s1, e1, q1) = Run-item Q state event (keeps state event) i run g.sound e q in
      apply_all-item Q keeps i events state1 rest
        (apply_event-Good derive manifest state event state1 first g)
        (subst (λ t. get_elem? t.items i ≡ some s1) (sym built) e1) q1

module _ (derive : UuidString → UuidString) (manifest : BatchManifest) (f : StateItem → ℕ)
    (state : BatchState) (event : BatchEvent) where
  -- A sum over sound items that no step raises is not raised by a run,
  pub Run-total-le :
      ((m : ManifestItem) (s s' : StateItem)
        → Sound manifest m s
        → ItemStep derive state manifest event m s s'
        → f s' ≤ f s)
      → {items items' : List StateItem} → Paired (Sound manifest) manifest.items items
      → Run derive state manifest event items items'
      → total f items' ≤ total f items
  Run-total-le falls p here = omega arith
  Run-total-le falls p (next {items' = mid} run (at j m s s' em es step e)) =
      let sound =
        Run-Paired derive manifest (Sound manifest) state event
          (ItemStep-Sound derive manifest state event) run p in
      omega (
        arith,
        Run-total-le falls p run,
        total-set f mid j s' es,
        falls m s s' (Paired-get_elem? (Sound manifest) manifest.items mid j sound em es) step,
        ap (total f) e,
      )

  -- and one that no step lowers is not lowered.
  pub Run-total-ge :
      ((m : ManifestItem) (s s' : StateItem)
        → Sound manifest m s
        → ItemStep derive state manifest event m s s'
        → f s ≤ f s')
      → {items items' : List StateItem} → Paired (Sound manifest) manifest.items items
      → Run derive state manifest event items items'
      → total f items ≤ total f items'
  Run-total-ge rises p here = omega arith
  Run-total-ge rises p (next {items' = mid} run (at j m s s' em es step e)) =
      let sound =
        Run-Paired derive manifest (Sound manifest) state event
          (ItemStep-Sound derive manifest state event) run p in
      omega (
        arith,
        Run-total-ge rises p run,
        total-set f mid j s' es,
        rises m s s' (Paired-get_elem? (Sound manifest) manifest.items mid j sound em es) step,
        ap (total f) e,
      )

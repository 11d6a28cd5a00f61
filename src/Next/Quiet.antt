-- ===== src/Next/Quiet.antt =====
-- When v2_next_actions.py offers nothing for an item: what is then known of its lanes.
use paperread.Prelude.{
  Bool, true, false, not, ◌&&◌, ◌||◌, ◌≡◌, refl, Option, some, List, [], ◌∷◌, ◌++◌, arith, inl, inr,
  Bool-cases, ◌==◌, string_eq, ◌⊎◌, option_eq,
}
use paperread.Contracts.Scalars.{ItemId}
use paperread.Contracts.Manifest.{BatchManifest, is_zotero_write}
use paperread.Contracts.Status.{
  WorkerStatus, LocalPrepareStatus, WriteStatus, local_eq, worker_eq, write_eq,
}
use paperread.Contracts.State.{StateItem}
use paperread.Reducer.Claim.{coordination_uncertain, is_claimed}
use paperread.Reducer.WriteClaim.{holds_write_lane}
use paperread.Next.{is_pdf_input}
use paperread.Next.Lanes.{
  recover_actions, append_worker_actions, append_local_prepare_actions, append_write_actions,
  worker_actions_at, write_actions_at,
}
use paperread.Next.Derive.{FirstClaims, item_actions}

pub append_nothing {ℓ} : {A : Type ℓ} (xs ys : List A) → xs ++ ys ≡ [] → (xs ≡ []) × (ys ≡ [])
append_nothing [] ys h = (refl, h)
append_nothing (x ∷ xs) ys h = absurd (ground arith)

recoveries_quiet :
    (s : StateItem) (uncertain : Bool)
    → recover_actions s uncertain ≡ []
    → (uncertain ≡ false) × (is_claimed s ≡ false) × (holds_write_lane s ≡ false)
unfolding recover_actions
recoveries_quiet s uncertain h = ground arith

-- Without a lease and without a doubt, the worker has succeeded, or waits behind another item.
pub worker_quiet :
    (status : WorkerStatus) (s : StateItem) (claimable : Option ItemId) (uncertain : Bool)
    → worker_actions_at status s claimable uncertain ≡ []
    → (s.local_prepare_status == LocalPrepareStatus.claimed) ≡ false
    → uncertain ≡ false
    → (status ≡ WorkerStatus.succeeded)
      ⊎ ((status ≡ WorkerStatus.queued) × ((some s.item_id == claimable) ≡ false))
unfolding worker_actions_at
worker_quiet WorkerStatus.queued s claimable uncertain h l u = inr (refl, ground arith)
worker_quiet WorkerStatus.claimed s claimable uncertain h l u = absurd (ground arith)
worker_quiet WorkerStatus.succeeded s claimable uncertain h l u = inl refl
worker_quiet WorkerStatus.failed s claimable uncertain h l u = absurd (ground arith)
worker_quiet WorkerStatus.blocked s claimable uncertain h l u = absurd (ground arith)

-- The write statuses at which nothing is offered for an item.
abbrev pub is_closed : WriteStatus → Bool
is_closed WriteStatus.not_applicable = true
is_closed WriteStatus.awaiting_candidate = true
is_closed WriteStatus.prepared_only = true
is_closed WriteStatus.written = true
is_closed _ = false

pub write_quiet :
    (status : WriteStatus) (s : StateItem) (claimable : Option ItemId)
    → write_actions_at status s claimable ≡ []
    → (is_closed status ≡ true)
      ⊎ ((status ≡ WriteStatus.queued) × ((some s.item_id == claimable) ≡ false))
unfolding write_actions_at
write_quiet WriteStatus.not_applicable s claimable h = inl refl
write_quiet WriteStatus.awaiting_candidate s claimable h = inl refl
write_quiet WriteStatus.queued s claimable h = inr (refl, ground arith)
write_quiet WriteStatus.claimed s claimable h = absurd (ground arith)
write_quiet WriteStatus.started s claimable h = absurd (ground arith)
write_quiet WriteStatus.prepared_only s claimable h = inl refl
write_quiet WriteStatus.written s claimable h = inl refl
write_quiet WriteStatus.uncertain s claimable h = absurd (ground arith)
write_quiet WriteStatus.retry_confirmation_required s claimable h = absurd (ground arith)
write_quiet WriteStatus.blocked s claimable h = absurd (ground arith)

-- What is known of an item for which nothing is offered.
pub record Quiet (manifest : BatchManifest) (first : FirstClaims) (s : StateItem) : Type 0 where
  pub certain : (is_pdf_input s.input_type && coordination_uncertain s) ≡ false
  pub unclaimed : is_claimed s ≡ false
  pub holds_nothing : holds_write_lane s ≡ false
  pub worker_waits :
      (s.worker_status ≡ WorkerStatus.succeeded)
      ⊎ ((s.worker_status ≡ WorkerStatus.queued) × ((some s.item_id == first.worker_claim) ≡ false))
  pub write_waits :
      ((is_pdf_input s.input_type || not (is_zotero_write manifest.write_policy)) ≡ true)
      ⊎ (is_closed s.write_status ≡ true)
      ⊎ ((s.write_status ≡ WriteStatus.queued) × ((some s.item_id == first.write_claim) ≡ false))

write_part_quiet :
    (manifest : BatchManifest) (first : FirstClaims) (s : StateItem)
    → append_write_actions s manifest.write_policy first.write_claim ≡ []
    → ((is_pdf_input s.input_type || not (is_zotero_write manifest.write_policy)) ≡ true)
      ⊎ (is_closed s.write_status ≡ true)
      ⊎ ((s.write_status ≡ WriteStatus.queued) × ((some s.item_id == first.write_claim) ≡ false))
write_part_quiet manifest first s h =
    elim (Bool-cases (is_pdf_input s.input_type || not (is_zotero_write manifest.write_policy))) [
      | inl none_here ↦ inl none_here
      | inr here ↦ inr (write_quiet s.write_status s first.write_claim (rw here at h))
    ]

pub item_actions-Quiet :
    (manifest : BatchManifest) (first : FirstClaims) (s : StateItem)
    → item_actions manifest first s ≡ []
    → Quiet manifest first s
unfolding item_actions
item_actions-Quiet manifest first s h =
    let u = is_pdf_input s.input_type && coordination_uncertain s in
    let r = recover_actions s u in
    let w = append_worker_actions s first.worker_claim u in
    let l = append_local_prepare_actions s first.local_claim u in
    let v = append_write_actions s manifest.write_policy first.write_claim in
    let (h1, d) = append_nothing (r ++ w ++ l) v h in
    let (h2, c) = append_nothing (r ++ w) l h1 in
    let (a, b) = append_nothing r w h2 in
    let (certain, unclaimed, free) = recoveries_quiet s u a in
    let no_local : (s.local_prepare_status == LocalPrepareStatus.claimed) ≡ false =
      ground (arith, unclaimed) in
    record {
      certain = certain;
      unclaimed = unclaimed;
      holds_nothing = free;
      worker_waits = worker_quiet s.worker_status s first.worker_claim u b no_local certain;
      write_waits = write_part_quiet manifest first s d;
    }

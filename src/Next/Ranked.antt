-- ===== src/Next/Ranked.antt =====
-- Every action that v2_next_actions.py can offer for an item has a rank, and the item's own id.
use paperread.Prelude.{
  ℕ, Bool, true, false, ◌&&◌, ◌≡◌, refl, Option, some, List, [], ◌∷◌, ◌++◌, ok, if◌then◌else◌,
  string_eq, option_eq,
}
use paperread.Contracts.Scalars.{ItemId}
use paperread.Contracts.Manifest.{BatchManifest}
use paperread.Contracts.Status.{
  WorkerStatus, LocalPrepareStatus, WriteStatus, worker_eq, local_eq, write_eq,
}
use paperread.Contracts.State.{StateItem}
use paperread.Reducer.Claim.{coordination_uncertain}
use paperread.Next.{is_pdf_input}
use paperread.Next.Action.{NextAction, action_priority, position}
use paperread.Next.Lanes.{recover_actions, worker_actions_at, local_actions_at, write_actions_at}
use paperread.Next.Derive.{RunView, FirstClaims, item_actions, storage_actions}

abbrev pub HasRank : NextAction → Type 0
HasRank a = (rank : ℕ) × (position action_priority a.action ≡ ok rank)

-- An action for the item, whose name is in the list of priorities.
abbrev pub IsFor : StateItem → NextAction → Type 0
IsFor s a = HasRank a × (a.item_id ≡ some s.item_id)

pub data Every {A : Type 0} (P : A → Type 0) : List A → Type 0 where
  nil : Every P []
  cons : {x : A} {xs : List A} → P x → Every P xs → Every P (x ∷ xs)

pub Every-append :
    {A : Type 0} {P : A → Type 0} {xs ys : List A} → Every P xs → Every P ys → Every P (xs ++ ys)
Every-append Every.nil q = q
Every-append (Every.cons p ps) q = Every.cons p (Every-append ps q)

pub Every-if :
    {A : Type 0} {P : A → Type 0} (test : Bool) {xs ys : List A}
    → Every P xs
    → Every P ys
    → Every P (if test then xs else ys)
Every-if true p q = p
Every-if false p q = q

recover_actions-IsFor :
    (s : StateItem) (uncertain : Bool) → Every (IsFor s) (recover_actions s uncertain)
unfolding recover_actions position
recover_actions-IsFor s uncertain =
    Every-append
      (Every-append
        (Every-append
          (Every-append
            (Every-append (Every-if uncertain (Every.cons ((0, refl), refl) Every.nil) Every.nil)
              (Every-if _ (Every.cons ((0, refl), refl) Every.nil) Every.nil))
            (Every-if _ (Every.cons ((0, refl), refl) Every.nil) Every.nil))
          (Every-if _ (Every.cons ((0, refl), refl) Every.nil) Every.nil))
        (Every-if _ (Every.cons ((0, refl), refl) Every.nil) Every.nil))
      (Every-if _ (Every.cons ((0, refl), refl) Every.nil) Every.nil)

worker_actions_at-IsFor :
    (status : WorkerStatus) (s : StateItem) (claimable : Option ItemId) (uncertain : Bool)
    → Every (IsFor s) (worker_actions_at status s claimable uncertain)
unfolding worker_actions_at position
worker_actions_at-IsFor WorkerStatus.queued s claimable uncertain =
    Every-if _ (Every.cons ((1, refl), refl) Every.nil) Every.nil
worker_actions_at-IsFor WorkerStatus.claimed s claimable uncertain =
    (Every.cons ((2, refl), refl)
      (Every.cons ((3, refl), refl)
        (Every.cons ((4, refl), refl) (Every.cons ((5, refl), refl) Every.nil))))
worker_actions_at-IsFor WorkerStatus.succeeded s claimable uncertain = Every.nil
worker_actions_at-IsFor WorkerStatus.failed s claimable uncertain =
    (Every.cons ((6, refl), refl) Every.nil)
worker_actions_at-IsFor WorkerStatus.blocked s claimable uncertain =
    (Every.cons ((6, refl), refl) Every.nil)

local_actions_at-IsFor :
    (status : LocalPrepareStatus) (s : StateItem) (claimable : Option ItemId) (uncertain : Bool)
    → Every (IsFor s) (local_actions_at status s claimable uncertain)
unfolding local_actions_at position
local_actions_at-IsFor LocalPrepareStatus.claimed s claimable uncertain =
    (Every.cons ((8, refl), refl)
      (Every.cons ((9, refl), refl)
        (Every.cons ((10, refl), refl) (Every.cons ((11, refl), refl) Every.nil))))
local_actions_at-IsFor LocalPrepareStatus.queued s claimable uncertain =
    Every-if _ (Every.cons ((7, refl), refl) Every.nil) Every.nil
local_actions_at-IsFor LocalPrepareStatus.failed s claimable uncertain =
    Every-if _ (Every.cons ((7, refl), refl) Every.nil) Every.nil
local_actions_at-IsFor LocalPrepareStatus.blocked s claimable uncertain =
    Every-if _ (Every.cons ((7, refl), refl) Every.nil) Every.nil
local_actions_at-IsFor LocalPrepareStatus.prepared s claimable uncertain = Every.nil
local_actions_at-IsFor LocalPrepareStatus.not_applicable s claimable uncertain = Every.nil

write_actions_at-IsFor :
    (status : WriteStatus) (s : StateItem) (claimable : Option ItemId)
    → Every (IsFor s) (write_actions_at status s claimable)
unfolding write_actions_at position
write_actions_at-IsFor WriteStatus.queued s claimable =
    Every-if _ (Every.cons ((12, refl), refl) Every.nil) Every.nil
write_actions_at-IsFor WriteStatus.claimed s claimable =
    (Every.cons ((13, refl), refl)
      (Every.cons ((14, refl), refl)
        (Every.cons ((15, refl), refl) (Every.cons ((20, refl), refl) Every.nil))))
write_actions_at-IsFor WriteStatus.started s claimable =
    (Every.cons ((14, refl), refl)
      (Every.cons ((16, refl), refl)
        (Every.cons ((17, refl), refl) (Every.cons ((21, refl), refl) Every.nil))))
write_actions_at-IsFor WriteStatus.uncertain s claimable = (Every.cons ((18, refl), refl) Every.nil)
write_actions_at-IsFor WriteStatus.retry_confirmation_required s claimable =
    (Every.cons ((19, refl), refl) Every.nil)
write_actions_at-IsFor WriteStatus.blocked s claimable = (Every.cons ((22, refl), refl) Every.nil)
write_actions_at-IsFor WriteStatus.not_applicable s claimable = Every.nil
write_actions_at-IsFor WriteStatus.awaiting_candidate s claimable = Every.nil
write_actions_at-IsFor WriteStatus.prepared_only s claimable = Every.nil
write_actions_at-IsFor WriteStatus.written s claimable = Every.nil

pub item_actions-IsFor :
    (manifest : BatchManifest) (first : FirstClaims) (s : StateItem)
    → Every (IsFor s) (item_actions manifest first s)
unfolding item_actions
item_actions-IsFor manifest first s =
    let u = is_pdf_input s.input_type && coordination_uncertain s in
    Every-append
      (Every-append
        (Every-append (recover_actions-IsFor s u)
          (worker_actions_at-IsFor s.worker_status s first.worker_claim u))
        (Every-if (is_pdf_input s.input_type)
          (local_actions_at-IsFor s.local_prepare_status s first.local_claim u) Every.nil))
      (Every-if _ Every.nil (write_actions_at-IsFor s.write_status s first.write_claim))

-- The actions on the run's storage have a rank, and no item.
pub storage_actions-HasRank :
    (view : RunView) → Every (λ a. HasRank a × (a.item_id ≡ Option.none)) (storage_actions view)
unfolding storage_actions position
storage_actions-HasRank view =
    Every-append
      (Every-append
        (Every-append (Every-if _ Every.nil (Every.cons ((0, refl), refl) Every.nil))
          (Every-if _ (Every.cons ((23, refl), refl) Every.nil) Every.nil))
        (Every-if _ (Every.cons ((23, refl), refl) Every.nil) Every.nil))
      (Every-if _ (Every.cons ((23, refl), refl) Every.nil) Every.nil)

-- ===== src/Next/Action.antt =====
-- The action candidates of v2_next_actions.py, and the one authority on their order.
use paperread.Prelude.{
  ℕ, suc, String, Bool, Option, List, [], ◌∷◌, Result, RuntimeError, ok, err, ◌>>=◌, ◌==◌,
  string_eq, if◌then◌else◌,
}
use paperread.Contracts.Scalars.{ItemId}

-- The lanes of an action, two more than those of a task.
pub data ActionLane : Type 0 where
  run_lane worker_lane local_prepare_lane write_lane user_lane : ActionLane

pub record NextAction : Type 0 where
  pub item_id : Option ItemId
  pub lane : ActionLane
  pub action : String
  pub reason_code : String
  pub requires_user_intent : Bool
  pub required_inputs : List String

abbrev pub action_priority : List String
action_priority =
    "run.recover" ∷ "worker.claim" ∷ "worker.prompt" ∷ "worker.renew" ∷ "worker.finish"
    ∷ "worker.release" ∷ "worker.retry" ∷ "local-prepare.claim" ∷ "local-prepare.run"
    ∷ "local-prepare.renew" ∷ "local-prepare.finish" ∷ "local-prepare.release" ∷ "write.claim"
    ∷ "write.preview" ∷ "write.renew" ∷ "write.release" ∷ "write.commit" ∷ "write.mark-uncertain"
    ∷ "write.reconcile" ∷ "write.retry" ∷ "user.confirm-zotero-write-intent"
    ∷ "user.verify-zotero-write-read-only" ∷ "user.resolve-write-blocker"
    ∷ "user.resolve-run-storage-attention" ∷ []

-- a failed lookup in a dict
abbrev pub key_error : String → RuntimeError
key_error key = record { code = "KeyError"; message = key }

-- The position of a text in a list, as the dicts built by `enumerate` give it.
unfoldable pub position : List String → String → Result ℕ
position [] key = err (key_error key)
position (x ∷ xs) key = if x == key then ok 0 else position xs key >>= λ i. ok (suc i)

-- `_LANE_RANK`, which begins at -1; here every rank is one more.
abbrev pub lane_rank : ActionLane → ℕ
lane_rank run_lane = 0
lane_rank worker_lane = 1
lane_rank local_prepare_lane = 2
lane_rank write_lane = 3
lane_rank user_lane = 4

abbrev pub worker_identity_inputs : List String
worker_identity_inputs = "worker_id" ∷ "claim_id" ∷ "lease_token" ∷ "attempt_id" ∷ []

abbrev pub write_identity_inputs : List String
write_identity_inputs = "writer_id" ∷ "claim_id" ∷ "lease_token" ∷ "write_attempt_id" ∷ []

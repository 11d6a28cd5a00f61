-- ===== src/Next/Derive.antt =====
-- `derive_next_actions` of v2_next_actions.py for a view with no pending request: the candidates of
-- the run's storage and of every item, in the order of their keys.
use paperread.Prelude.{
  ℕ, suc, String, Bool, true, false, ◌&&◌, ◌||◌, Option, none, some, List, [], ◌∷◌, ◌++◌, map,
  Result, ok, ◌>>=◌, or_raise, ltb, nat_beq, is_some, ◌==◌, string_eq, if◌then◌else◌,
}
use paperread.Contracts.Scalars.{ItemId}
use paperread.Contracts.Manifest.{BatchManifest, ManifestItem, item_id_of}
use paperread.Contracts.State.{StateItem, BatchState}
use paperread.Contracts.Events.{BatchEvent}
use paperread.Reducer.Claim.{coordination_uncertain}
use paperread.Next.{
  state_by_id, is_pdf_input, first_runtime_worker_claim_id, first_local_prepare_claim_id,
  first_claimable_write_id,
}
use paperread.Next.Action.{
  NextAction, ActionLane, run_lane, user_lane, action_priority, position, lane_rank, key_error,
}
use paperread.Next.Lanes.{
  recover_actions, append_worker_actions, append_local_prepare_actions, append_write_actions,
}

-- The fields of the view of a run that are read here (`RunView` of v2_journal.py). The pending event
-- is the one that `pending_event` holds.
pub record RunView : Type 0 where
  pub manifest : BatchManifest
  pub events : List BatchEvent
  pub state : BatchState
  pub snapshot_status : String
  pub pending_event : Option BatchEvent
  pub incomplete_event_writes : List String
  pub state_pending_write : Option String
  pub incomplete_state_writes : List String

abbrev pub is_current : RunView → Bool
is_current view = view.snapshot_status == "current"

abbrev has_any : List String → Bool
has_any [] = false
has_any (x ∷ xs) = true

abbrev attention_action : String → NextAction
attention_action reason = record {
  item_id = none;
  lane = user_lane;
  action = "user.resolve-run-storage-attention";
  reason_code = reason;
  requires_user_intent = true;
  required_inputs = "maintainer_decision" ∷ [];
}

-- The candidates that concern the storage of the run.
unfoldable pub storage_actions : RunView → List NextAction
storage_actions view =
    (if is_current view
      then []
      else record {
        item_id = none;
        lane = run_lane;
        action = "run.recover";
        reason_code = "snapshot_repair_required";
        requires_user_intent = false;
        required_inputs = "request_id" ∷ [];
      }
        ∷ [])
    ++ (if has_any view.incomplete_event_writes
        then attention_action "incomplete_event_write_attention" ∷ []
        else [])
    ++ (if is_some view.state_pending_write && is_current view
        then attention_action "pending_state_write_attention" ∷ []
        else [])
    ++ (if has_any view.incomplete_state_writes
        then attention_action "incomplete_state_write_attention" ∷ []
        else [])

-- The three items that are first in line.
pub record FirstClaims : Type 0 where
  pub worker_claim : Option ItemId
  pub local_claim : Option ItemId
  pub write_claim : Option ItemId

abbrev pub first_claims : BatchManifest → BatchState → Result FirstClaims
first_claims manifest state = do
  worker ← first_runtime_worker_claim_id manifest state
  local ← first_local_prepare_claim_id manifest state
  write ← first_claimable_write_id manifest state
  ok (record { worker_claim = worker; local_claim = local; write_claim = write })

-- One round of the loop over the manifest's items.
unfoldable pub item_actions : BatchManifest → FirstClaims → StateItem → List NextAction
item_actions manifest first item =
    let uncertain = is_pdf_input item.input_type && coordination_uncertain item in
    recover_actions item uncertain
    ++ append_worker_actions item first.worker_claim uncertain
    ++ append_local_prepare_actions item first.local_claim uncertain
    ++ append_write_actions item manifest.write_policy first.write_claim

unfoldable pub all_item_actions :
    BatchManifest → FirstClaims → List StateItem → List ManifestItem → Result (List NextAction)
all_item_actions manifest first items [] = ok []
all_item_actions manifest first items (m ∷ ms) = do
  item ← or_raise (state_by_id items (item_id_of m)) (key_error (item_id_of m))
  rest ← all_item_actions manifest first items ms
  ok (item_actions manifest first item ++ rest)

-- `manifest_index`, a dict in which a later item of one id replaces an earlier one
unfoldable pub manifest_index : List ManifestItem → ItemId → Option ℕ
manifest_index [] id = none
manifest_index (m ∷ ms) id = elim (manifest_index ms id) [
  | some i ↦ some (suc i)
  | none ↦ if item_id_of m == id then some 0 else none
]

-- The key of the sort, each part one more than in the source where that may be -1.
pub record Key : Type 0 where
  pub group : ℕ
  pub index : ℕ
  pub lane : ℕ
  pub rank : ℕ

unfoldable pub index_key : List ManifestItem → Option ItemId → Result ℕ
index_key ms none = ok 0
index_key ms (some id) = or_raise (manifest_index ms id) (key_error id) >>= λ i. ok (suc i)

abbrev pub group_key : ActionLane → ℕ
group_key run_lane = 0
group_key _ = 1

unfoldable pub sort_key : List ManifestItem → NextAction → Result Key
unfolding index_key
sort_key ms a = do
  index ← index_key ms a.item_id
  rank ← position action_priority a.action
  ok (record { group = group_key a.lane; index = index; lane = lane_rank a.lane; rank = rank })

-- `<` on tuples
abbrev pub key_lt : Key → Key → Bool
key_lt j k =
    ltb j.group k.group
    || nat_beq j.group k.group
      && (ltb j.index k.index
          || nat_beq j.index k.index
            && (ltb j.lane k.lane || nat_beq j.lane k.lane && ltb j.rank k.rank))

-- `sort` computes all keys first, and is stable.
unfoldable pub keyed : List ManifestItem → List NextAction → Result (List (Key × NextAction))
keyed ms [] = ok []
keyed ms (a ∷ actions) = do k ← sort_key ms a; rest ← keyed ms actions; ok ((k, a) ∷ rest)

unfoldable pub insert_keyed : Key × NextAction → List (Key × NextAction) → List (Key × NextAction)
insert_keyed x [] = x ∷ []
insert_keyed x (y ∷ ys) =
    let rest = insert_keyed x ys in if key_lt y.0 x.0 then y ∷ rest else x ∷ y ∷ ys

unfoldable pub sort_keyed : List (Key × NextAction) → List (Key × NextAction)
sort_keyed [] = []
sort_keyed (x ∷ xs) = insert_keyed x (sort_keyed xs)

-- The candidates before they are sorted,
unfoldable pub candidates : RunView → Result (List NextAction)
candidates view = do
  first ← first_claims view.manifest view.state
  actions ← all_item_actions view.manifest first view.state.items view.manifest.items
  ok (storage_actions view ++ actions)

-- and after it.
unfoldable pub sorted_actions : RunView → Result (List NextAction)
sorted_actions view = do
  actions ← candidates view
  pairs ← keyed view.manifest.items actions
  ok (map (λ p. p.1) (sort_keyed pairs))

-- ===== src/Next/Waiting.antt =====
-- What v2_next_actions.py offers while a request is pending.
use mathlib.Core.List.{Mem}
use paperread.Prelude.{Bool, true, false, ◌≡◌, Option, List, ◌⊎◌, contains, string_eq, String}
use paperread.Contracts.Scalars.{ItemId}
use paperread.Contracts.Events.{BatchEvent, EventData}
use paperread.Next.Action.{NextAction, user_lane}
use paperread.Next.Pending.{safe_while_pending, pending_invalidated_safe_candidates}
use paperread.Next.Ended.{IsEnded}

-- The action only reads.
abbrev pub ReadsOnly : NextAction → Type 0
ReadsOnly a =
    (a.action ≡ "worker.prompt")
    ⊎ (a.action ≡ "write.preview")
    ⊎ (a.action ≡ "user.verify-zotero-write-read-only")

-- Of the candidates, one that only reads, and that the pending request does not make pointless.
abbrev pub StillSafe : List NextAction → EventData → NextAction → NextAction → Type 0
StillSafe sorted payload pending a = Mem a sorted × ReadsOnly a × ¬ IsEnded payload pending a

-- A candidate is offered unless it does more than read or is made pointless.
abbrev pub IsKept : List NextAction → EventData → NextAction → NextAction → Type 0
IsKept rest payload pending a =
    Mem a rest ⊎ (contains safe_while_pending a.action ≡ false) ⊎ IsEnded payload pending a

-- The request that waits is repeated by its own command, or by the command of the local run that it is
-- a part of,
abbrev pub Repeats : BatchEvent → NextAction → Type 0
Repeats event a =
    (a.reason_code ≡ "pending_event_originating_request_replay_required")
    × ((a.action ≡ event.command)
        ⊎ ((a.action ≡ "local-prepare.run")
            × ((event.command ≡ "local-prepare.run.reserve")
                ⊎ (event.command ≡ "local-prepare.finish"))))

-- or else a person has to see to it.
abbrev pub NeedsAttention : String → NextAction → Type 0
NeedsAttention reason a =
    (a.lane ≡ user_lane)
    × (a.action ≡ "user.resolve-run-storage-attention")
    × (a.reason_code ≡ reason)

-- The first action, which depends on whether the request reconciles a write for a recovery.
abbrev pub AnswersRequest : Bool → BatchEvent → NextAction → Type 0
AnswersRequest derived event a =
    ((derived ≡ true) × NeedsAttention "pending_run_recovery_reconciliation_manual_attention" a)
    ⊎ ((derived ≡ false) × NeedsAttention "pending_internal_request_manual_attention" a)
    ⊎ ((derived ≡ false) × Repeats event a)

module _ (payload : EventData) (pending : NextAction) where
  abbrev ends : List (String × Option ItemId)
  ends = pending_invalidated_safe_candidates payload pending

-- The command that repeats the request.
abbrev IsCommand : BatchEvent → String → Type 0
IsCommand event action =
    (action ≡ event.command)
    ⊎ ((action ≡ "local-prepare.run")
        × ((event.command ≡ "local-prepare.run.reserve")
            ⊎ (event.command ≡ "local-prepare.finish")))

-- ===== src/Next/Ended.antt =====
-- Which candidates a pending event makes pointless, in v2_next_actions.py.
use paperread.Prelude.{
  ℕ, zero, suc, Bool, true, false, ◌&&◌, ◌||◌, ◌≡◌, refl, sym, ◌∙◌, ap, Option, none, some, List,
  [], ◌∷◌, ◌++◌, get_elem?, arith, inl, inr, ◌⊎◌, Bool-cases, any, contains, is_some, eq_of_some,
  ◌==◌, string_eq, option_eq, String, if◌then◌else◌,
}
use paperread.Prelude.Equality.{option_beq_iff}
use text.Mathlib.TextEquality.{eq_iff}
use paperread.Contracts.Scalars.{ItemId}
use paperread.Contracts.Status.{Lane, worker, local_prepare}
use paperread.Contracts.Events.{
  EventData, RecoveredLease, MutationKind, renewed, released, lease_expired,
}
use paperread.Next.Action.{NextAction}
use paperread.Next.Pending.{
  ends_claim, ended_prompt, lease_pairs, expired_pair, worker_only, invalidated_by_data,
  is_invalidated, pending_invalidated_safe_candidates,
}

-- The action is one on an item, by its name.
abbrev pub IsOn : String → ItemId → NextAction → Type 0
IsOn name id a = (a.action ≡ name) × (a.item_id ≡ some id)

-- The event takes the lease away that the action reads by.
abbrev pub EndedByEvent : EventData → NextAction → Type 0
EndedByEvent (EventData.run_recovered d) a =
    (i : ℕ) × (r : RecoveredLease) × (get_elem? d.expired_worker_leases i ≡ some r)
    × IsOn "worker.prompt" r.item_id a
EndedByEvent (EventData.lease_mutation d) a =
    (d.lane ≡ worker) × (d.kind ≡ lease_expired) × IsOn "worker.prompt" d.item_id a
EndedByEvent (EventData.write_lease_mutation d) a =
    (d.kind ≡ lease_expired) × IsOn "write.preview" d.item_id a
EndedByEvent _ a = ⊥

-- The command that waits ends the claim of the action's item.
abbrev pub EndedByCommand : NextAction → NextAction → Type 0
EndedByCommand pending a =
    ((pending.action ≡ "worker.finish") ⊎ (pending.action ≡ "worker.release"))
    × (id : ItemId) × (pending.item_id ≡ some id)
    × IsOn "worker.prompt" id a

abbrev pub IsEnded : EventData → NextAction → NextAction → Type 0
IsEnded payload pending a = EndedByCommand pending a ⊎ EndedByEvent payload a

is_on :
    (name : String) (id : ItemId) (a : NextAction)
    → (name == a.action && some id == a.item_id) ≡ true
    → IsOn name id a
is_on name id a h = (
  sym ((eq_iff name a.action).0 (ground (arith, h))),
  sym ((option_beq_iff (some id) a.item_id).0 (ground (arith, h))),
)

on_is :
    (name : String) (id : ItemId) (a : NextAction)
    → IsOn name id a
    → (name == a.action && some id == a.item_id) ≡ true
on_is name id a (p, q) =
    let same_name = (eq_iff name a.action).1 (sym p) in
    let same_id = (option_beq_iff (some id) a.item_id).1 (sym q) in
    ground (arith, same_name, same_id)

any_append :
    {A : Type 0} (f : A → Bool) (xs ys : List A) → any f (xs ++ ys) ≡ (any f xs || any f ys)
any_append f [] ys = refl
any_append f (x ∷ xs) ys = ground (arith, any_append f xs ys)

leases-IsOn :
    (rs : List RecoveredLease) (a : NextAction)
    → is_invalidated (lease_pairs rs) a ≡ true
    → (i : ℕ) × (r : RecoveredLease) × (get_elem? rs i ≡ some r) × IsOn "worker.prompt" r.item_id a
unfolding lease_pairs
leases-IsOn [] a h = cc
leases-IsOn (r ∷ rs) a h =
    elim (Bool-cases ("worker.prompt" == a.action && some r.item_id == a.item_id)) [
      | inl here ↦ (zero, r, refl, is_on "worker.prompt" r.item_id a here)
      | inr other ↦
          let (i, t, at_i, on) = leases-IsOn rs a (ground (arith, h, other)) in (suc i, t, at_i, on)
    ]

on_leases :
    (rs : List RecoveredLease) (a : NextAction) (i : ℕ) {r : RecoveredLease}
    → get_elem? rs i ≡ some r
    → IsOn "worker.prompt" r.item_id a
    → is_invalidated (lease_pairs rs) a ≡ true
unfolding lease_pairs
on_leases [] a i at_i on = cc
on_leases (t ∷ rs) a zero {r} at_i on =
    let same : t ≡ r = eq_of_some at_i in
    let here =
      on_is "worker.prompt" t.item_id a (on.0, on.1 ∙ ap (λ u. some u.item_id) (sym same)) in
    ground (arith, here)
on_leases (t ∷ rs) a (suc i) at_i on = let later = on_leases rs a i at_i on in ground (arith, later)

expired-IsOn :
    (k : MutationKind) (name : String) (id : ItemId) (a : NextAction)
    → is_invalidated (expired_pair k name id) a ≡ true
    → (k ≡ lease_expired) × IsOn name id a
unfolding expired_pair
expired-IsOn renewed name id a h = cc
expired-IsOn released name id a h = cc
expired-IsOn lease_expired name id a h = (refl, is_on name id a (ground (arith, h)))

on_expired :
    (k : MutationKind) (name : String) (id : ItemId) (a : NextAction)
    → k ≡ lease_expired
    → IsOn name id a
    → is_invalidated (expired_pair k name id) a ≡ true
unfolding expired_pair
on_expired k name id a expired on =
    let here = on_is name id a on in rw expired (ground (arith, here))

worker-IsOn :
    (l : Lane) (k : MutationKind) (id : ItemId) (a : NextAction)
    → is_invalidated (worker_only l (expired_pair k "worker.prompt" id)) a ≡ true
    → (l ≡ worker) × (k ≡ lease_expired) × IsOn "worker.prompt" id a
unfolding worker_only
worker-IsOn worker k id a h =
    let (expired, on) = expired-IsOn k "worker.prompt" id a h in (refl, expired, on)
worker-IsOn local_prepare k id a h = cc

on_worker :
    (l : Lane) (k : MutationKind) (id : ItemId) (a : NextAction)
    → l ≡ worker
    → k ≡ lease_expired
    → IsOn "worker.prompt" id a
    → is_invalidated (worker_only l (expired_pair k "worker.prompt" id)) a ≡ true
unfolding worker_only
on_worker l k id a lane expired on = rw lane (on_expired k "worker.prompt" id a expired on)

event_ended :
    (payload : EventData) (a : NextAction)
    → is_invalidated (invalidated_by_data payload) a ≡ true
    → EndedByEvent payload a
unfolding invalidated_by_data
event_ended (EventData.run_recovered d) a h = leases-IsOn d.expired_worker_leases a h
event_ended (EventData.lease_mutation d) a h = worker-IsOn d.lane d.kind d.item_id a h
event_ended (EventData.write_lease_mutation d) a h =
    expired-IsOn d.kind "write.preview" d.item_id a h
event_ended (EventData.run_initialized d) a h = cc
event_ended (EventData.claimed d) a h = cc
event_ended (EventData.coordination_reserved d) a h = cc
event_ended (EventData.finished d) a h = cc
event_ended (EventData.retried d) a h = cc
event_ended (EventData.request_aborted d) a h = cc
event_ended (EventData.write_claimed d) a h = cc
event_ended (EventData.write_started d) a h = cc
event_ended (EventData.write_written d) a h = cc
event_ended (EventData.write_uncertain d) a h = cc
event_ended (EventData.write_reconciled d) a h = cc
event_ended (EventData.write_retried d) a h = cc

ended_event :
    (payload : EventData) (a : NextAction)
    → EndedByEvent payload a
    → is_invalidated (invalidated_by_data payload) a ≡ true
unfolding invalidated_by_data
ended_event (EventData.run_recovered d) a (i, _, at_i, on) =
    on_leases d.expired_worker_leases a i at_i on
ended_event (EventData.lease_mutation d) a (lane, expired, on) =
    on_worker d.lane d.kind d.item_id a lane expired on
ended_event (EventData.write_lease_mutation d) a (expired, on) =
    on_expired d.kind "write.preview" d.item_id a expired on
ended_event (EventData.run_initialized d) a h = absurd h
ended_event (EventData.claimed d) a h = absurd h
ended_event (EventData.coordination_reserved d) a h = absurd h
ended_event (EventData.finished d) a h = absurd h
ended_event (EventData.retried d) a h = absurd h
ended_event (EventData.request_aborted d) a h = absurd h
ended_event (EventData.write_claimed d) a h = absurd h
ended_event (EventData.write_started d) a h = absurd h
ended_event (EventData.write_written d) a h = absurd h
ended_event (EventData.write_uncertain d) a h = absurd h
ended_event (EventData.write_reconciled d) a h = absurd h
ended_event (EventData.write_retried d) a h = absurd h

ends_a_claim :
    (name : String)
    → contains ends_claim name ≡ true
    → (name ≡ "worker.finish") ⊎ (name ≡ "worker.release")
ends_a_claim name h = elim (Bool-cases (name == "worker.finish")) [
  | inl finish ↦ inl ((eq_iff name "worker.finish").0 finish)
  | inr other ↦ inr ((eq_iff name "worker.release").0 (ground (arith, h, other)))
]

claim_ends :
    (name : String)
    → (name ≡ "worker.finish") ⊎ (name ≡ "worker.release")
    → contains ends_claim name ≡ true
claim_ends name (inl h) = let same = (eq_iff name "worker.finish").1 h in ground (arith, same)
claim_ends name (inr h) = let same = (eq_iff name "worker.release").1 h in ground (arith, same)

abbrev prompt_of : Option ItemId → Bool → List (String × Option ItemId)
prompt_of o ends = if is_some o && ends then ("worker.prompt", o) ∷ [] else []

prompt-IsOn :
    (o : Option ItemId) (ends : Bool) (a : NextAction)
    → is_invalidated (prompt_of o ends) a ≡ true
    → (ends ≡ true) × (id : ItemId) × (o ≡ some id) × IsOn "worker.prompt" id a
prompt-IsOn none ends a h = cc
prompt-IsOn (some id) false a h = cc
prompt-IsOn (some id) true a h = (refl, id, refl, is_on "worker.prompt" id a (ground (arith, h)))

on_prompt :
    (o : Option ItemId) (ends : Bool) (id : ItemId) (a : NextAction)
    → o ≡ some id
    → ends ≡ true
    → IsOn "worker.prompt" id a
    → is_invalidated (prompt_of o ends) a ≡ true
on_prompt o ends id a has end on =
    let here = on_is "worker.prompt" id a on in rw has (rw end (ground (arith, here)))

command_ended :
    (pending a : NextAction)
    → is_invalidated (ended_prompt pending) a ≡ true
    → EndedByCommand pending a
command_ended pending a h =
    let (ends, id, has, on) =
      prompt-IsOn pending.item_id (contains ends_claim pending.action) a h in
    (ends_a_claim pending.action ends, id, has, on)

ended_command :
    (pending a : NextAction)
    → EndedByCommand pending a
    → is_invalidated (ended_prompt pending) a ≡ true
ended_command pending a (ends, id, has, on) =
    on_prompt pending.item_id (contains ends_claim pending.action) id a has
      (claim_ends pending.action ends) on

or_right : (x y : Bool) → x ≡ false → (x || y) ≡ true → y ≡ true
or_right x y p h = ground arith

or_either : (x y : Bool) → (x ≡ true) ⊎ (y ≡ true) → (x || y) ≡ true
or_either x y (inl p) = ground arith
or_either x y (inr p) = ground arith

pub invalidated-IsEnded :
    (payload : EventData) (pending a : NextAction)
    → is_invalidated (pending_invalidated_safe_candidates payload pending) a ≡ true
    → IsEnded payload pending a
unfolding pending_invalidated_safe_candidates
invalidated-IsEnded payload pending a h =
    elim (Bool-cases (is_invalidated (ended_prompt pending) a)) [
      | inl hit ↦ inl (command_ended pending a hit)
      | inr miss ↦ inr (
          event_ended payload a (
            or_right _ _ miss
              (sym (any_append _ (ended_prompt pending) (invalidated_by_data payload)) ∙ h)))
    ]

pub IsEnded-invalidated :
    (payload : EventData) (pending a : NextAction)
    → IsEnded payload pending a
    → is_invalidated (pending_invalidated_safe_candidates payload pending) a ≡ true
unfolding pending_invalidated_safe_candidates
IsEnded-invalidated payload pending a h =
    any_append _ (ended_prompt pending) (invalidated_by_data payload)
    ∙ or_either _ _ (elim h [
      | inl by_command ↦ inl (ended_command pending a by_command)
      | inr by_event ↦ inr (ended_event payload a by_event)
    ])

-- ===== src/Recovery/Quiet.antt =====
-- When `recover_run` of v2_run.py says that there is nothing to recover.
use paperread.Prelude.{
  Bool, true, false, not, ◌&&◌, ◌≡◌, refl, sym, ◌∙◌, ap, Option, none, some, List, [], ◌∷◌, Result,
  ok, err, ◌>>=◌, >>=-eq-ok, is_empty, all, arith, inl, inr, Bool-cases, Option-cases, eq_of_ok,
  if◌then◌else◌, RuntimeError, ◌==◌, string_eq, String,
}
use paperread.Contracts.Scalars.{ItemId, UuidString, Rfc3339Utc}
use paperread.Contracts.Status.{WriteStatus}
use paperread.Contracts.State.{LeaseState, WriteLeaseState, StateItem, BatchState}
use paperread.Contracts.Events.{LeaseIdentity, BatchEvent, RecoveredUncertainWrite}
use paperread.Recovery.Attempts.{identity_of, blocked_uncertain_identity}
use paperread.Recovery.Propose.{
  has_ended, first_expired_write, expired_workers, recovered, LocalRecovery, recover_leased,
  recover_unleased, may_have_effects, resume, resumed, give_up, recover_local, local_recovery,
  recover_leases, propose_recovery, write_expiry, write_expiry_at,
}

abbrev pub lease_runs : Rfc3339Utc → Option LeaseState → Bool
lease_runs now none = true
lease_runs now (some lease) = not (has_ended now lease.expires_at)

abbrev pub write_lease_runs : Rfc3339Utc → Option WriteLeaseState → Bool
write_lease_runs now none = true
write_lease_runs now (some lease) = not (has_ended now lease.expires_at)

-- None of the three leases of an item has ended.
abbrev pub leases_run : Rfc3339Utc → StateItem → Bool
leases_run now s =
    lease_runs now s.worker_lease
    && lease_runs now s.local_prepare_lease
    && write_lease_runs now s.write_lease

abbrev pub nothing_found : LocalRecovery → Bool
nothing_found found = is_empty found.local && is_empty found.resumed_local

abbrev pub nothing_to_recover : RuntimeError
nothing_to_recover = record {
  code = "nothing_to_recover";
  message = "run has no expired lease or stale snapshot";
}

first_expired_write-eq-none :
    (now : Rfc3339Utc) (s : StateItem) (rest : List StateItem)
    → first_expired_write now (s ∷ rest) ≡ none
    → (write_lease_runs now s.write_lease ≡ true) × (first_expired_write now rest ≡ none)
unfolding first_expired_write
first_expired_write-eq-none now s rest h = elim (Option-cases s.write_lease) [
  | inl free ↦ (ground (arith, free), ground (arith, free))
  | inr (lease, leased) ↦ elim (Bool-cases (has_ended now lease.expires_at)) [
    | inl over ↦ ground (arith, leased, over)
    | inr runs ↦ (ground (arith, leased, runs), ground (arith, leased, runs))
  ]
]

expired_workers-empty :
    (now : Rfc3339Utc) (s : StateItem) (rest : List StateItem)
    → is_empty (expired_workers now (s ∷ rest)) ≡ true
    → (lease_runs now s.worker_lease ≡ true) × (is_empty (expired_workers now rest) ≡ true)
unfolding expired_workers
expired_workers-empty now s rest h = elim (Option-cases s.worker_lease) [
  | inl free ↦ (ground (arith, free), ground (arith, free))
  | inr (lease, leased) ↦ elim (Bool-cases (has_ended now lease.expires_at)) [
    | inl over ↦ ground (arith, leased, over)
    | inr runs ↦ (ground (arith, leased, runs), ground (arith, leased, runs))
  ]
]

eq_of_err : {A : Type 0} {a b : RuntimeError} {r : Result A} → r ≡ err a → r ≡ err b → a ≡ b
eq_of_err h g = cc

write_expiry_at-Corrupt :
    (status : WriteStatus) (s : StateItem) (lease : WriteLeaseState) {e : RuntimeError}
    → write_expiry_at status s lease ≡ err e
    → e.code ≡ "journal_corrupt"
unfolding write_expiry_at
write_expiry_at-Corrupt WriteStatus.claimed s lease h = cc
write_expiry_at-Corrupt WriteStatus.started s lease h = elim (Option-cases s.authorization_sha256) [
  | inl unauthorized ↦ ground (arith, unauthorized)
  | inr (authorization, has) ↦ ground (arith, has)
]
write_expiry_at-Corrupt WriteStatus.not_applicable s lease h = ap (λ e. e.code) (eq_of_err h refl)
write_expiry_at-Corrupt WriteStatus.awaiting_candidate s lease h =
    ap (λ e. e.code) (eq_of_err h refl)
write_expiry_at-Corrupt WriteStatus.queued s lease h = ap (λ e. e.code) (eq_of_err h refl)
write_expiry_at-Corrupt WriteStatus.prepared_only s lease h = ap (λ e. e.code) (eq_of_err h refl)
write_expiry_at-Corrupt WriteStatus.written s lease h = ap (λ e. e.code) (eq_of_err h refl)
write_expiry_at-Corrupt WriteStatus.uncertain s lease h = ap (λ e. e.code) (eq_of_err h refl)
write_expiry_at-Corrupt WriteStatus.retry_confirmation_required s lease h =
    ap (λ e. e.code) (eq_of_err h refl)
write_expiry_at-Corrupt WriteStatus.blocked s lease h = ap (λ e. e.code) (eq_of_err h refl)

codes_apart :
    (code : String) → nothing_to_recover.code ≡ code → code ≡ "journal_corrupt" → true ≡ false
codes_apart code here there = sym (ap (λ c. c == "journal_corrupt") (here ∙ there))

module _ (has_side_effects : ItemId → UuidString → UuidString → Result Bool) where
  recover_unleased-quiet :
      (now : Rfc3339Utc) (item_id : ItemId) (uncertain : Option (LeaseIdentity × Rfc3339Utc))
      (rest : LocalRecovery)
      → nothing_found (recover_unleased has_side_effects now item_id uncertain rest) ≡ true
      → nothing_found rest ≡ true
  unfolding recover_unleased
  recover_unleased-quiet now item_id none rest h = h
  recover_unleased-quiet now item_id (some u) rest h = elim (Bool-cases (has_ended now u.1)) [
    | inl over ↦ ground (arith, over)
    | inr runs ↦ ground (arith, runs)
  ]

  -- A lease that has ended is given up or resumed.
  found_ended :
      (effects : Result Bool) (keep drop : LocalRecovery → LocalRecovery)
      {add : LocalRecovery → LocalRecovery} (rest : LocalRecovery)
      → nothing_found (keep rest) ≡ false
      → nothing_found (drop rest) ≡ false
      → (effects >>= λ e. if e then ok keep else ok drop) ≡ ok add
      → nothing_found (add rest) ≡ false
  found_ended (err e) keep drop rest is_kept is_dropped h = cc
  found_ended (ok true) keep drop {add} rest is_kept is_dropped h =
      ap (λ f. nothing_found (f rest)) (sym (eq_of_ok {a = keep} {b = add} h)) ∙ is_kept
  found_ended (ok false) keep drop {add} rest is_kept is_dropped h =
      ap (λ f. nothing_found (f rest)) (sym (eq_of_ok {a = drop} {b = add} h)) ∙ is_dropped

  recover_leased-quiet :
      (events : List BatchEvent) (now : Rfc3339Utc) (item_id : ItemId) (lease : LeaseState)
      {add : LocalRecovery → LocalRecovery} (rest : LocalRecovery)
      → recover_leased has_side_effects events now item_id lease ≡ ok add
      → nothing_found (add rest) ≡ true
      → (lease_runs now (some lease) ≡ true) × (nothing_found rest ≡ true)
  unfolding recover_leased
  recover_leased-quiet events now item_id lease {add} rest h quiet =
      elim (Bool-cases (has_ended now lease.expires_at)) [
        | inl over ↦
            let h' : (may_have_effects has_side_effects events item_id lease >>= λ effects.
            if effects
            then ok (resume (resumed item_id (identity_of lease) lease.expires_at now))
            else ok (give_up (recovered lease item_id)))
                ≡ ok add =
              ground (arith, over) in
            let full : nothing_found (add rest) ≡ false =
              found_ended (may_have_effects has_side_effects events item_id lease) _ _ rest
                (ground arith) refl h' in
            ground (arith, quiet, full)
        | inr runs ↦
            let same : (λ found. found) ≡ add = eq_of_ok (ground (arith, runs)) in
            (ap not runs, ap (λ f. nothing_found (f rest)) same ∙ quiet)
      ]

  recover_local-quiet :
      (events : List BatchEvent) (now : Rfc3339Utc) (s : StateItem)
      {add : LocalRecovery → LocalRecovery} (rest : LocalRecovery)
      → recover_local has_side_effects events now s ≡ ok add
      → nothing_found (add rest) ≡ true
      → (lease_runs now s.local_prepare_lease ≡ true) × (nothing_found rest ≡ true)
  unfolding recover_local
  recover_local-quiet events now s {add} rest h quiet = elim (Option-cases s.local_prepare_lease) [
    | inl free ↦
        let found : (blocked_uncertain_identity has_side_effects events s >>= λ u.
        ok (recover_unleased has_side_effects now s.item_id u))
            ≡ ok add =
          ground (arith, free) in
        let (uncertain, _, h1) =
          >>=-eq-ok (blocked_uncertain_identity has_side_effects events s)
            (λ u. ok (recover_unleased has_side_effects now s.item_id u)) found in
        (
          ap (lease_runs now) free,
          recover_unleased-quiet now s.item_id uncertain rest
              (ap (λ f. nothing_found (f rest)) (eq_of_ok h1) ∙ quiet),
        )
    | inr (lease, leased) ↦
        let (runs, still) =
          recover_leased-quiet events now s.item_id lease {add = add} rest (ground (arith, leased))
            quiet in
        (ap (lease_runs now) leased ∙ runs, still)
  ]

  local_recovery-quiet :
      (events : List BatchEvent) (now : Rfc3339Utc) (s : StateItem) (items : List StateItem)
      {found : LocalRecovery}
      → local_recovery has_side_effects events now (s ∷ items) ≡ ok found
      → nothing_found found ≡ true
      → (lease_runs now s.local_prepare_lease ≡ true)
        × (rest : LocalRecovery) × (local_recovery has_side_effects events now items ≡ ok rest)
        × (nothing_found rest ≡ true)
  unfolding local_recovery
  local_recovery-quiet events now s items {found} h quiet =
      let (add, adds, h1) = >>=-eq-ok (recover_local has_side_effects events now s) _ h in
      let (rest, after, h2) = >>=-eq-ok (local_recovery has_side_effects events now items) _ h1 in
      let (runs, still) =
        recover_local-quiet events now s rest adds (ap nothing_found (eq_of_ok h2) ∙ quiet) in
      (runs, rest, after, still)

  quiet_items :
      (events : List BatchEvent) (now : Rfc3339Utc) (items : List StateItem) {found : LocalRecovery}
      → first_expired_write now items ≡ none
      → is_empty (expired_workers now items) ≡ true
      → local_recovery has_side_effects events now items ≡ ok found
      → nothing_found found ≡ true
      → all (leases_run now) items ≡ true
  quiet_items events now [] writes workers locals quiet = refl
  quiet_items events now (s ∷ items) writes workers locals quiet =
      let (write_runs, writes') = first_expired_write-eq-none now s items writes in
      let (worker_runs, workers') = expired_workers-empty now s items workers in
      let (local_runs, rest, locals', quiet') =
        local_recovery-quiet events now s items locals quiet in
      let others = quiet_items events now items writes' workers' locals' quiet' in
      ground (arith, write_runs, worker_runs, local_runs, others)

  -- Where the local attempts of a run can be read, a recovery without a paper-reader root says that
  -- there is nothing to recover only if no lease of the run has ended, in any lane of any item, and the
  -- snapshot is current.
  pub nothing_to_recover-LeasesRun :
      (uncertain : Result (Option RecoveredUncertainWrite)) (is_current : Bool)
      (events : List BatchEvent) (state : BatchState) (now : Rfc3339Utc) {found : LocalRecovery}
      → local_recovery has_side_effects events now state.items ≡ ok found
      → propose_recovery has_side_effects false none uncertain is_current events state now
        ≡ err nothing_to_recover
      → (all (leases_run now) state.items ≡ true) × (is_current ≡ true)
  unfolding propose_recovery recover_leases write_expiry
  nothing_to_recover-LeasesRun uncertain is_current events state now {found} locals h =
      elim (Option-cases (first_expired_write now state.items)) [
        | inr (over, ended) ↦
            let clash = codes_apart _ refl (
              write_expiry_at-Corrupt (over.0).write_status over.0 over.1 {e = nothing_to_recover}
                (ground (arith, ended))) in
            ground (arith, clash)
        | inl none_ended ↦
            let found_nothing : (is_empty (expired_workers now state.items)
                  && is_empty found.local
                  && is_empty found.resumed_local
                  && is_current
                  && true)
                ≡ true =
              elim (Bool-cases (
                is_empty (expired_workers now state.items)
                && is_empty found.local
                && is_empty found.resumed_local
                && is_current
                && true)) [
                  | inl nothing ↦ nothing
                  | inr some_found ↦ ground (arith, none_ended, locals, some_found)
                ] in
            (
              quiet_items events now state.items none_ended (ground (arith, found_nothing)) locals
                  (ground (arith, found_nothing)),
              ground (arith, found_nothing),
            )
      ]

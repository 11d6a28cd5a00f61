-- ===== src/Worker/Reconciled.antt =====
-- What a reconciliation result that the validator of v2_contracts.py accepts means for the reducer.
use paperread.Prelude.{
  ◌≤◌, true, ◌≡◌, refl, ◌⊎◌, inl, inr, Option, some, List, [], ◌∷◌, length, is_some, arith,
  string_eq, option_eq, ◌==◌, ap, ◌∙◌, option_beq_iff,
}
use paperread.Contracts.Scalars.{NonEmptyString}
use paperread.Contracts.Status.{WriteStatus}
use paperread.Contracts.Events.{ReconciliationOutcome, verified, not_found, ambiguous, blocked}
use paperread.Contracts.Results.{
  ReconciliationResult, validate_match_outcome, distinct_count, first_key,
}
use paperread.Reducer.WriteSettle.{reconciled_status}

-- What was found, and the status that the reducer gives the item for it.
pub data Findings (r : ReconciliationResult) : Type 0 where
  no_note :
      r.matched_note_keys ≡ []
      → reconciled_status r.outcome ≡ WriteStatus.retry_confirmation_required
      → Findings r
  several_notes :
      2 ≤ length r.matched_note_keys
      → distinct_count r.matched_note_keys ≡ length r.matched_note_keys
      → reconciled_status r.outcome ≡ WriteStatus.blocked
      → Findings r
  one_note :
      (key : NonEmptyString)
      → r.matched_note_keys ≡ key ∷ []
      → r.matched_note_key ≡ some key
      → is_some r.verification ≡ true
      → (reconciled_status r.outcome ≡ WriteStatus.written)
        ⊎ (reconciled_status r.outcome ≡ WriteStatus.blocked)
      → Findings r

no_keys : (keys : List NonEmptyString) → length keys ≡ 0 → keys ≡ []
no_keys [] e = refl
no_keys (k ∷ keys) e = absurd (ground arith)

one_key : (keys : List NonEmptyString) → length keys ≡ 1 → (k : NonEmptyString) × (keys ≡ k ∷ [])
one_key [] e = absurd (ground arith)
one_key (k ∷ []) e = (k, refl)
one_key (k ∷ j ∷ keys) e = absurd (ground arith)

-- A selected note that is the first of one is that one.
selects_only :
    (selected : Option NonEmptyString) (keys : List NonEmptyString) (k : NonEmptyString)
    → keys ≡ k ∷ []
    → (selected == first_key keys) ≡ true
    → selected ≡ some k
selects_only selected keys k e h = (option_beq_iff selected (first_key keys)).0 h ∙ ap first_key e

found_at :
    (r : ReconciliationResult) (outcome : ReconciliationOutcome)
    → r.outcome ≡ outcome
    → validate_match_outcome r ≡ true
    → Findings r
unfolding validate_match_outcome
found_at r not_found e v = no_note (no_keys r.matched_note_keys (ground arith)) (rw e refl)
found_at r ambiguous e v = several_notes (ground arith) (ground arith) (rw e refl)
found_at r verified e v =
    let (k, one) = one_key r.matched_note_keys (ground arith) in
    one_note k one (selects_only r.matched_note_key r.matched_note_keys k one (ground arith))
      (ground arith) (inl (rw e refl))
found_at r blocked e v =
    let (k, one) = one_key r.matched_note_keys (ground arith) in
    one_note k one (selects_only r.matched_note_key r.matched_note_keys k one (ground arith))
      (ground arith) (inr (rw e refl))

-- An accepted reconciliation result either found no note, and only then the reducer offers a retry,
-- or several different ones, and the item is blocked, or exactly the one note that it names and
-- verified, and only then the item may become written.
pub accepted-Findings : (r : ReconciliationResult) → validate_match_outcome r ≡ true → Findings r
accepted-Findings r v = found_at r r.outcome refl v

-- ===== src/Worker/Inputs.antt =====
-- The tests that `worker.claim` of v2_worker.py makes of its input.
use paperread.Prelude.{
  ℕ, ◌≤◌, Bool, true, false, ◌||◌, ◌≡◌, refl, Option, ◌<◌, zero, suc, Result, String, RuntimeError,
  ok, err, arith, inl, inr, ◌⊎◌, Bool-cases, ltb, string_eq, if◌then◌else◌,
}
use paperread.Contracts.Manifest.{BatchManifest}
use paperread.Worker.Mutations.{check_lease_seconds, max_lease_seconds, invalid_lease, input_error}
use paperread.Worker.Claims.{is_blank, limit_or, invalid_worker, invalid_limit, check_claim_input}

-- What is asked for fails: with the code of what is wrong for a new request, and always with that of
-- a conflict for a request that is bound already.
abbrev pub Fails : Bool → String → Result ℕ → Type 0
Fails bound code result =
    (e : RuntimeError) × (result ≡ err e)
    × (e.code ≡ (if bound then "idempotency_conflict" else code))

input_error-code :
    (bound : Bool) (code message : String)
    → (input_error bound code message).code ≡ (if bound then "idempotency_conflict" else code)
input_error-code true code message = refl
input_error-code false code message = refl

-- A number that is not from 1 to a bound.
abbrev pub IsOutside : ℕ → ℕ → Type 0
IsOutside n most = (n ≡ 0) ⊎ (most < n)

is_outside : (n most : ℕ) → (ltb n 1 || ltb most n) ≡ true → IsOutside n most
is_outside zero most h = inl refl
is_outside (suc n) most h = inr (ground arith)

-- The input fails as a bad worker where the worker's id is blank; else as a bad limit where the limit,
-- which is the manifest's concurrency if none is given, is 0 or above that concurrency; else as a bad
-- lease where the lease lasts 0 or more than 3600 seconds; and else it is accepted with its limit. A
-- request that is bound already fails with the code of a conflict in place of the three.
pub check_claim_input_lem :
    (bound : Bool) (manifest : BatchManifest) (worker_id : String) (limit : Option ℕ) (seconds : ℕ)
    → ((is_blank worker_id ≡ true)
        × Fails bound "invalid_worker" (check_claim_input bound manifest worker_id limit seconds))
      ⊎ ((is_blank worker_id ≡ false)
          × IsOutside (limit_or limit manifest.default_concurrency) manifest.default_concurrency
          × Fails bound "invalid_limit" (check_claim_input bound manifest worker_id limit seconds))
      ⊎ ((is_blank worker_id ≡ false)
          × (1 ≤ limit_or limit manifest.default_concurrency)
          × (limit_or limit manifest.default_concurrency ≤ manifest.default_concurrency)
          × IsOutside seconds 3600
          × Fails bound "invalid_lease" (check_claim_input bound manifest worker_id limit seconds))
      ⊎ ((is_blank worker_id ≡ false)
          × (1 ≤ limit_or limit manifest.default_concurrency)
          × (limit_or limit manifest.default_concurrency ≤ manifest.default_concurrency)
          × (1 ≤ seconds)
          × (seconds ≤ 3600)
          × (check_claim_input bound manifest worker_id limit seconds
              ≡ ok (limit_or limit manifest.default_concurrency)))
unfolding check_claim_input check_lease_seconds
check_claim_input_lem bound manifest worker_id limit seconds =
    let wanted = limit_or limit manifest.default_concurrency in
    elim (Bool-cases (is_blank worker_id)) [
      | inl blank ↦ inl (blank, (invalid_worker bound, rw blank refl, input_error-code bound _ _))
      | inr named ↦ elim (Bool-cases (ltb wanted 1 || ltb manifest.default_concurrency wanted)) [
        | inl out ↦ inr (
            inl (
              named,
              is_outside wanted manifest.default_concurrency out,
              (invalid_limit bound, rw named (rw out refl), input_error-code bound _ _),
            ))
        | inr within ↦ elim (Bool-cases (ltb seconds 1 || ltb max_lease_seconds seconds)) [
          | inl long ↦ inr (
              inr (
                inl (
                  named,
                  ground arith,
                  ground arith,
                  is_outside seconds max_lease_seconds long,
                  (
                    invalid_lease bound,
                    rw named (rw within (rw long refl)),
                    input_error-code bound _ _,
                  ),
                )))
          | inr fits ↦ inr (
              inr (
                inr (
                  named,
                  ground arith,
                  ground arith,
                  ground arith,
                  ground arith,
                  rw named (rw within (rw fits refl)),
                )))
        ]
      ]
    ]

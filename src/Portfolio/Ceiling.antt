-- ===== src/Portfolio/Ceiling.antt =====
-- The gate keeps the aggregate under the ceiling (`Orchestrator.run` in cio/core/orchestrator.py
-- asks the tracker and records the admission only if it does not breach).
use petrosa_cio.Prelude.{
  ℕ, zero, suc, sym, ◌∙◌, false_ne_true, ◌+◌, ◌*◌, ◌≤◌, ◌<◌, Str, ◌≡◌, refl, ◌⊎◌, inl, inr, ◌↔◌,
  true, false, Bool-cases, if◌then◌else◌, Option, List, [], ◌∷◌, arith,
}
use petrosa_cio.Prelude.Int.{ℤ, pos, negsuc, pos_part, ◌≤ℤ◌}
use petrosa_cio.Portfolio.{
  Ratio, EnvFloat, Positions, contribution, position_of, record_admit, record_exit, total,
  effective_ceiling, would_breach_ceiling,
}
use petrosa_cio.Portfolio.Exposure.{total-record_admit, total-record_exit}

-- A call of the process on the ledger: an admission through the gate, or an exit.
pub data Op : Type 0 where
  admit : Str → ℤ → ℤ → Op
  exit : Str → Op

-- `if ceiling_check.would_breach: return …` before `record_admit`.
unfoldable pub gate : Positions → EnvFloat → ℤ → Option Ratio → Op → Positions
gate m env equity ceiling (admit id size leverage) =
    if (would_breach_ceiling m env size leverage equity ceiling).would_breach
    then m
    else record_admit m id size leverage
gate m env equity ceiling (exit id) = record_exit m id

unfoldable pub run : Positions → EnvFloat → ℤ → Option Ratio → List Op → Positions
run m env equity ceiling [] = m
run m env equity ceiling (op ∷ ops) = run (gate m env equity ceiling op) env equity ceiling ops

-- The check answers exactly by the arithmetic: it breaches if the equity is not positive, or if the
-- present exposure plus that of the new position is more than the ceiling times the equity.
pub would_breach_iff :
    (m : Positions) (env : EnvFloat) (size leverage equity : ℤ) (ceiling : Option Ratio)
    → let limit = effective_ceiling env ceiling in
      ((would_breach_ceiling m env size leverage equity ceiling).would_breach ≡ true) ↔ (
        (equity ≤ℤ pos 0)
        ⊎ (limit.num * pos_part equity
            < (total m + contribution (position_of size leverage)) * limit.den))
unfolding would_breach_ceiling
would_breach_iff m env size leverage (pos zero) ceiling = (λ h. inl (omega arith), λ h. refl)
would_breach_iff m env size leverage (pos (suc n)) ceiling =
    (λ h. inr (ground arith), λ h. ground arith)
would_breach_iff m env size leverage (negsuc n) ceiling =
    (λ h. inl (omega arith), λ h. ground arith)

-- The exposure is within the ceiling.
abbrev pub IsCovered : Positions → ℕ → Ratio → Type 0
IsCovered m equity limit = total m * limit.den ≤ limit.num * equity

mul_le : (a b d : ℕ) → a ≤ b → a * d ≤ b * d
mul_le a b zero h = omega arith
mul_le a b (suc d) h = omega (arith, h, mul_le a b d h)

covered_admit : (t t' c d limit : ℕ) → t' ≤ t + c → ¬ (limit < (t + c) * d) → t' * d ≤ limit
covered_admit t t' c d limit h small = omega (arith, small, mul_le t' (t + c) d h)

covered_exit : (t t' d limit : ℕ) → t' ≤ t → t * d ≤ limit → t' * d ≤ limit
covered_exit t t' d limit h covered = omega (arith, covered, mul_le t' t d h)

-- An admission that the check lets through has a positive equity, and leaves the exposure within
-- the ceiling.
pub admitted-IsCovered :
    (m : Positions) (env : EnvFloat) (id : Str) (size leverage equity : ℤ) (ceiling : Option Ratio)
    → (would_breach_ceiling m env size leverage equity ceiling).would_breach ≡ false
    → (¬ (equity ≤ℤ pos 0))
      × IsCovered
          (record_admit m id size leverage)
          (pos_part equity)
          (effective_ceiling env ceiling)
admitted-IsCovered m env id size leverage equity ceiling fits =
    let limit = effective_ceiling env ceiling in
    let added = contribution (position_of size leverage) in
    let check = would_breach_iff m env size leverage equity ceiling in
    (
      λ low. false_ne_true (sym fits ∙ check.1 (inl low)),
      covered_admit (total m) (total (record_admit m id size leverage)) added limit.den
          (limit.num * pos_part equity) (total-record_admit m id size leverage)
          (λ over. false_ne_true (sym fits ∙ check.1 (inr over))),
    )

gate-IsCovered :
    (m : Positions) (env : EnvFloat) (n : ℕ) (ceiling : Option Ratio) (op : Op)
    → IsCovered m (suc n) (effective_ceiling env ceiling)
    → IsCovered (gate m env (pos (suc n)) ceiling op) (suc n) (effective_ceiling env ceiling)
unfolding gate
gate-IsCovered m env n ceiling (admit id size leverage) h =
    elim (Bool-cases
      (would_breach_ceiling m env size leverage (pos (suc n)) ceiling).would_breach) [
        | inl breach ↦ rw breach h
        | inr fits ↦
            rw fits (admitted-IsCovered m env id size leverage (pos (suc n)) ceiling fits).1
      ]
gate-IsCovered m env n ceiling (exit id) h =
    covered_exit (total m) (total (record_exit m id)) _ _ (total-record_exit m id) h

-- With a positive equity and a fixed ceiling, an exposure that is within the ceiling stays so
-- through every sequence of gated admissions and exits.
pub run-IsCovered :
    (m : Positions) (env : EnvFloat) (n : ℕ) (ceiling : Option Ratio) (ops : List Op)
    → IsCovered m (suc n) (effective_ceiling env ceiling)
    → IsCovered (run m env (pos (suc n)) ceiling ops) (suc n) (effective_ceiling env ceiling)
unfolding run
run-IsCovered m env n ceiling [] h = h
run-IsCovered m env n ceiling (op ∷ ops) h =
    run-IsCovered (gate m env (pos (suc n)) ceiling op) env n ceiling ops
      (gate-IsCovered m env n ceiling op h)

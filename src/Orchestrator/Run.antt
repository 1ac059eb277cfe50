-- ===== src/Orchestrator/Run.antt =====
-- Sequences of calls of the loop.
use petrosa_cio.Prelude.{List, [], ◌∷◌}
use petrosa_cio.Orchestrator
use petrosa_cio.Orchestrator.{Environment, Context, Answers, Decision}

module _ {ℓ κ} {X : Type ℓ} {D : Type κ} where
  unfoldable pub run_all :
      Environment
      → Orchestrator.Orchestrator
      → List (Context × Answers X D)
      → Orchestrator.Orchestrator
  run_all env o [] = o
  run_all env o ((c, a) ∷ calls) = run_all env (Orchestrator.run env o c a).0 calls

-- ===== src/Lib.antt =====
-- Verification of petrosa-cio, the process that decides which trading strategies may act.
--
-- The program. Strategies send intents and signals over NATS; the reasoning loop decides on each
-- (cio/core/orchestrator.py), after gates that protect the portfolio; the router publishes the
-- decision as far as the operators' authority settings allow; and background tasks watch the
-- process. The state is in memory, in stores that requests, messages and timers share.
--
-- Parts, and where they are modelled:
--   Lifecycle     cio/core/lifecycle.py: `StrategyLifecycleStore`, its methods by their names
--   Authority     cio/core/authority.py: `AuthorityStore` and `apply_authority`
--   Leverage      cio/core/leverage_arbiter.py: `arbitrate_leverage`
--   Portfolio     cio/core/portfolio_tracker.py: `PortfolioTracker`
--   Evaluators    cio/core/evaluator_subscriber.py: `EvaluatorSubscriber`, `PauseAuditStore`
--   Health        cio/core/health_evaluator.py: `CIOHealthEvaluator`
--   Spend         cio/core/spend_tracker.py: `LlmSpendTracker` and `PeriodSpend`
--   Orchestrator  cio/core/orchestrator.py: `Orchestrator.run` and `_check_spend_ceiling`, which use
--                 Leverage, Portfolio and Spend
--   Review        cio/core/position_review_loop.py: `PositionReviewLoop`
--   Arbiter       cio/core/arbiter.py: `SignalArbiter.check`, over cio/core/cache.py; it asks
--                 Evaluators. Redis is a parameter with its documented behaviour
--   Drawdown      cio/core/alerting/drawdown_breach_emitter.py: `DrawdownBreachEmitter`
--   Drift         cio/core/alerting/envelope_drift_emitter.py: `EnvelopeDriftEmitter`
--   DecisionStore cio/core/decision_store.py: `DecisionStore`, of the records that Router leaves
--   Engine        cio/core/engine.py: `CodeEngine.run`
--   Assembler     cio/core/assembler.py and cio/personas/action_classifier.py; with the engine in the
--                 loop of Orchestrator in Assembler/Blocked
--   Llm           cio/clients/llm_client.py: `LiteLLMClient` and `complete_with_schema`
--   Router        cio/core/router.py: `OutputRouter.route`, with cio/output/translator.py and
--                 cio/core/service_resolver.py; it asks Authority
--   Nurse         cio/apps/nurse/enforcer.py, and the failure results of cio/models/decision.py
--   Listener      cio/core/listener.py: `NATSListener._handle_message`, over Arbiter and Nurse
--   Models        the enums of cio/models/enums.py
--   Prelude       shared types, dictionaries, texts, integers and lists
-- Each part's folder holds what is proved of it, in modules named for it, and its Tests.
--
-- Conventions. A method is a function that returns the state it leaves beside its result; an
-- exception is a value of the part's `Error` type. A store that a lock protects, or that one task
-- owns, is used by sequences of calls; the review loop, whose calls wait in between, is a step
-- relation. A dictionary is the list of its items, a text the list of its code points. The clock,
-- `uuid4` and the environment variables are inputs of the call that reads them. Quantities that the
-- code keeps in floats are exact numbers in the stores: whole multiples of a unit, and ratios
-- compared by multiplying out, so rounding, `nan` and `inf` are left out; the engine, the assembler,
-- the router and the drift emitter take the floats as a parameter, with the laws of their order
-- where one is used. All recursion is structural, so no model has fuel.
--
-- Not modelled: logging, metrics and the wording of messages; what language models, HTTP services
-- and the vector store answer; the alert payloads, the context builder and the small gates;
-- the retries of the `tenacity` library; prompts, dashboards and start-up. Orchestrator takes the
-- answers of the engine, of the personas and of the stale gate as they come, exceptions included;
-- Assembler/Blocked puts the engine, the classifier and its client in.
pub mod Prelude
pub mod Models
pub mod Lifecycle
pub mod Authority
pub mod Leverage
pub mod Portfolio
pub mod Evaluators
pub mod Health
pub mod Spend
pub mod Orchestrator
pub mod Review
pub mod Arbiter
pub mod Drawdown
pub mod Engine
pub mod Assembler
pub mod Llm
pub mod Router
pub mod Nurse
pub mod Listener
pub mod Drift
pub mod DecisionStore

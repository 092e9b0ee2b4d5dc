-- ===== src/Lib.antt =====
-- The Council: agents forecast a market, a council weighs their signals, a deterministic governor
-- vetoes or sizes an order, and a paper adapter fills it. Experiments replay history and judge the
-- forecasts. Every time is a number of microseconds; every object is a record; what a call changes is
-- an argument and a result.
--
-- Parts, and the code that each models:
--   Prelude, Prelude/*         shared names, tests, lists, sorting by text and by number
--   Floats, Floats/*           Python's float as the interface `Float`; its laws (Laws) and an executable
--                              decimal type (Fixed)
--   Result, Stateful           what a function raises or returns, without and with a state
--   Datetime, Datetime/Iso, Dict
--                              naive and aware times and their text; dictionaries in the order of
--                              insertion
--   Trading                    tolerances and small functions that governor and adapter share
--   Schemas, Schemas/*         src/botnet_council/schemas.py: the enumerations (Enums), bars, snapshots
--                              and observations (Market), signals and decisions (Signal), portfolios,
--                              orders and reports (Order). A `validate_x` is the model's validators
--   Council/Aggregator         src/botnet_council/council/aggregator.py: `aggregate` is
--                              DeterministicCouncil.aggregate; proofs in Decision and Unordered
--   Risk/Policy, Causal, Restrictions, Evaluate, Reconcile
--                              src/botnet_council/risk/governor.py: RiskPolicy, `_causal_reasons`,
--                              `_restriction_reasons`, `evaluate` and `reconcile`, and the realized
--                              volatility of agents/_math.py; proofs in Approval, Timely, Total,
--                              Reconciled
--   Execution/Paper, Marking, Filling
--                              src/botnet_council/execution/paper.py: the account of
--                              PaperExecutionAdapter, `mark_to_market`, `execute`; proofs in State,
--                              Atomic, Marked and, for any sequence of calls, Trace
--   MarketData/Models, Quality, InMemory
--                              src/botnet_council/market_data/: models.py, quality.py, in_memory.py;
--                              proofs in Normal, Coverage and Causal
--   Agents                     src/botnet_council/agents/base.py, `timeframe_delta` of _math.py, and `duration`
--                              of experiments/models.py
--   Agents/Signals, Trend, Reversion, Regime, Volatility, Prices
--                              src/botnet_council/agents/: _math.py, trend.py, mean_reversion.py,
--                              regime.py, volatility.py and, for these four of the six
--                              kinds of agents, the registry in factory.py; proofs in
--                              Accepted, Forecasts and Returned
--   Experiments/Models, Context, Forecasting, Oracle, Lifecycle, Repository, Attempt, Service, Composed,
--   Experiments/Selection, Batch
--                              src/botnet_council/experiments/: the models, the blind context, the
--                              forecaster, oracle and evaluation, the transitions, the in-memory
--                              repository, the service, the selection
--                              of a batch and its results; proofs in Selected, Counted, Moves, Blind,
--                              Lookahead, Ordered, Lawful, Reached and Histories
--   Pipeline/World, Desk, Run  src/botnet_council/pipeline.py; proofs in Stays, Keeps, Gives and
--                              Authorized
--   Pipeline/Contextual        the request for context and the context that the pipeline makes of it;
--                              proofs in Requested
--   Context/Capabilities, Models, Providers, Service, Dispatch
--                              src/botnet_council/context/: capabilities, contexts and their validators,
--                              the service with its cache, `analyze_with_context`; proofs in Sequenced,
--                              Kept, Cached, Causal and Consulted
--   Experience/Models, Episode, Names, Store, Queries
--                              src/botnet_council/experience/: episodes, and the store of an index and of
--                              payload files; proofs in Kept, Saved and Split
--   Learning/Scopes, Models, Trials, Librarian, Applied, Metrics, Teacher, Names, Profiles,
--   Learning/Reviews
--                              src/botnet_council/learning/: models.py, trials.py, librarian.py,
--                              teacher.py and profiles.py; proofs in Independent, Verdicts, Steps, Conservative,
--                              Fair, Chained, Listed, Nexts and Histories
--   Telemetry/Bus              src/botnet_council/telemetry/publisher.py: InMemoryEventBus; proofs in History
--   Tests, Tests/*             runs on small data, and each theorem at concrete inputs
--
-- How they interact: `Pipeline.Run.run` asks the market data for a snapshot, the agents for signals,
-- `aggregate` for a decision, the adapter for marks, `evaluate` for an approval, and the adapter for a
-- fill, which `reconcile` then judges. `Experiments.Service.run` asks the historical provider for the
-- blind context, makes the forecast with the same `aggregate`, locks it in the repository, and only
-- then asks the oracle. `Context.Service.enrich` gathers the evidence that `analyze_with_context`
-- hands to an agent, on the request that `Pipeline.Contextual` makes of the agents' declarations. An
-- experiment becomes an episode of the experience store; the librarian proposes new weights from
-- episodes, the teacher judges the proposal on later ones with the same `aggregate`, and the profile
-- store promotes what the teacher accepts.
--
-- Recursion is on the structure of lists, with two exceptions: the digits of a number, and the loop of
-- `rollback` over the ancestors, whose fuel is the generation of the active profile. Numbers of the
-- program that are whole are natural numbers; where a difference may be negative, the comparison is
-- written as a sum or the case is written out. Durations are divided as whole numbers, as Python does
-- for spans of up to 285 years. A time after the year 9999 and a span of 10^9 days or more raise, as
-- Python's OverflowError (`add_time`, `span_of`, `duration_of`); only the age limits of the governor's
-- policy are compared as numbers, without the error of a limit that no timedelta holds.
--
-- Parameters, for code that is not the repository's: the operations of floats, `sum`, `log`, `pstdev`,
-- `mean` and `fmean`; SHA-256 of a canonical text (snapshot, decision, authorization, cache key, content,
-- request, forecast, context, episode, proposal, profile), and JSON as a text that is written and read
-- back; the match of a regular expression, except for durations, which are parsed; Pydantic's `==` on
-- whole models. Hypotheses on them are named: `IsIeee`, `IsEquality`, `IsFaithful` and
-- `RespectsIdentity`. The specialists are the interface `SpecialistAgent`, or in the pipeline a
-- function from the context to a signal.
--
-- Not modelled: rationales and metadata, which no code reads; locks, since each method is atomic under
-- its lock; the payloads of telemetry events, whose failures the pipeline swallows; the specialists
-- for seasonality and historical recurrence; the providers of context other than as parameters; how
-- SQLite and the file system keep what they are given; the replay engine, HTTP, the command line, and
-- the bridges to Kraken and Freqtrade.
pub mod Prelude
pub mod Floats
pub mod Result
pub mod Datetime
pub mod Schemas
pub mod Dict
pub mod Trading
pub mod Execution
pub mod Experience
pub mod Context
pub mod Council
pub mod Risk
pub mod MarketData
pub mod Agents
pub mod Experiments
pub mod Stateful
pub mod Learning
pub mod Pipeline
pub mod Telemetry
mod Tests

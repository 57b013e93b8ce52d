-- ===== src/Lib.antt =====
-- market-trader: a point-in-time trading system. Observations of the world come in with two times,
-- when a fact was true and when it became knowable; every decision reads them `as_of` a knowledge
-- time; targets pass risk limits and halts; an engine sends the orders to a broker and records what
-- it did in the same store.
--
-- Core models src/market_trader/core: `Core.Time` the coercions to UTC, with an instant as its
-- microseconds; `Core.Schema` the `Observation` and its logical key; `Core.Identity` the content
-- hash that ids are made from, over `uuid5` as a parameter.
-- Storage models src/market_trader/storage/bitemporal.py: `InMemoryBitemporalStore` is an
-- association list from id to observation in insertion order, as a Python dict is, and `as_of` its
-- query. `Collapse` and `PointInTime` hold the proofs. `Storage.Sql` models
-- src/market_trader/storage/sqlalchemy_store.py over a database that is a parameter, with what SQL
-- promises of merging rows, which it may refuse, and of `select` as the laws `IsDatabase`; `Sql.Refinement` and `Sql.Upsert` relate
-- it to the in-memory store by the relation `Refines`.
-- Portfolio models the limits, `check_order` and the drawdown breaker of src/market_trader/portfolio/risk.py.
-- Execution models src/market_trader/execution: `Broker` is the protocol as a record of functions
-- over a broker's state, `PaperBroker` one implementation; `Guardrails`, `Audit` and `Engine` follow
-- the files of those names (src/market_trader/execution/engine.py and so on). The proofs on the paper
-- broker are in `Moved`, `Submission` and `OrderBook` below it. The state of `ExecutionEngine` is the
-- record `Engine`; `rebalance` is `Engine.Rebalance.rebalance`, built from the gates, the plan and the submission loop, which are the
-- stretches of its body in order. Exceptions are values of `TradingError`, with the state at the
-- raise beside them.
-- Backtest models src/market_trader/backtest/splitters.py. Its `while` loop runs on fuel of one more
-- than the number of samples, which is enough since each round advances by one or more.
-- Collectors models the ingestion gateway and its checks (src/market_trader/collectors/gateway.py and
-- quality.py), Feedback the prediction log (feedback/prediction_log.py), Reasoning the call budget
-- (reasoning/budget.py), Orchestration the job registry (orchestration/scheduler.py), and Runtime the
-- daily polling loop and the intraday gate (runtime/schedule.py and intraday_confirm.py). The polling
-- loop runs on fuel, since it may never stop; one more than `max_iterations` is enough. Universe
-- models point-in-time membership (universe/pit_universe.py) and the liquidity screen
-- (universe/screen.py), Observability the metrics registry and the freshness report (observability/metrics.py and freshness.py), `Execution.Reconciliation`,
-- `Portfolio.Risk.Limits`, `Backtest.Costs` and `Backtest.Holdout` the code of those names, the latter
-- its ledger. Memory models event detection and surprises (memory/taxonomy.py and surprise.py),
-- `Runtime.InsiderEvents` and `Alerts` what is decided on them. The order in which Python goes through
-- a set is an argument where a sum depends on it; elsewhere a set is a list.
-- `Runtime.Cycle` models the daily cycle `run_paper_cycle` of src/market_trader/runtime/cycle.py: `Exits`
-- the stops, with features/llm.py; `Weighting` the selection and the weights; `Target` the book, which
-- may come from `Portfolio.Sizing` (portfolio/sizing.py) over the panel of `Backtest.Pit`
-- (backtest/pit.py); `Predictions` what is logged (runtime/learning.py); `Pass` the whole, on the engine
-- of `Execution`. `Runtime.NewsSleeve` and `Runtime.InsiderSleeve` model a pass of the sleeves of
-- runtime/news_sleeve.py and insider_sleeve.py, and `Runtime.Sleeve` what they have in common: a sleeve
-- keeps its positions as rows of the store, and trades through an engine of its own on the broker that
-- the daily cycle uses. `Runtime.Preflight` models runtime/preflight.py. `Cycle.Live` puts them
-- together as `run_live_paper_cycle` does after it has ingested its data. `Keys`, `Weighed`, `Book`,
-- `Flatten`, `Own`, `Loops`, `Opening`, `Routed`, `Cancelled`, `Traded` and `Spares` hold the proofs.
-- Config models the fields of src/market_trader/config/settings.py that this code reads.
--
-- Floats are a parameter (`Float.Interface`): an operation is a function whose value is left open,
-- and a theorem that needs laws of order names them. `Float.Fixed` is an instance for examples, and
-- shows that the laws can hold. The clock, `strftime` and `uuid5` are arguments. A broker other than
-- the paper broker is any value of the interface. The calls of pandas, NumPy and scikit-learn in the
-- sizing of books are the record `Numerics`; the feature matrix, the scorer and the model of the daily
-- cycle are its arguments, as in the code.
-- Not modelled: logging, the collectors of remote data, the features, forecasts, studies and metrics
-- over panels, the language-model calls, the Alpaca adapter, an exception of a broker that is not a
-- `BrokerError` (which the engine does not catch), the dashboards, the ingestion and
-- the wiring of clients in the live and dry entry points, and the command line.
pub mod Prelude
pub mod Float
pub mod Config
pub mod Core
pub mod Storage
pub mod Portfolio
pub mod Execution
pub mod Backtest
pub mod Reasoning
pub mod Orchestration
pub mod Runtime
pub mod Feedback
pub mod Collectors
pub mod Observability
pub mod Universe
pub mod Memory
pub mod Alerts

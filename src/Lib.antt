-- ===== src/Lib.antt =====
-- A crypto momentum hunter: market events of Binance and Bybit pass a bounded priority buffer into a
-- store of features; every cycle the candidates among the symbols are scored, and one that breaks out
-- and passes the friction gate and the risk engine may become a paper position, after an outside
-- auditor has approved it.
--
-- The parts, by the file that models them:
--   Prelude           names of the libraries, Boolean tests, lists, results, integers, dictionaries, sets,
--                     and lists cut into pieces.
--   Float             Python's `float` as an interface; its laws; decimals that meet them.
--   Domain            app/domain/enums.py, app/domain/events.py; Priority is
--                     app/ingestion/priority.py and Backoff is app/core/backoff.py.
--   Buffer            app/buffer/ring_buffer.py: `PriorityRingBuffer`, a method for each function of
--                     the same name. Sink is app/buffer/sink.py. Bounds, Accounting, Order and States
--                     hold the proofs.
--   Config            app/config/settings.py: the strategy records and their defaults. Sections has the
--                     other records; Overrides has the nested tables and what the environment does to
--                     them, with the proofs in Laws, Paths and Variables.
--   Features          Store is app/features/store.py, Engine is app/features/feature_engine.py, Btc is
--                     app/features/btc_filter.py, and OiPoller is app/features/oi_poller.py, with
--                     the tasks that still run in Tasks.
--   Signals           Friction, ExitLevels, Quant (quant_score.py), Breakout, Candidates
--                     (candidate_manager.py) and Engine (signal_engine.py), of app/signals.
--   Risk              Sizing is app/risk/position_sizing.py, Engine is app/risk/risk_engine.py.
--   Execution         Paper is app/execution/paper_engine.py.
--   Ai                Auditor is app/ai/claude_auditor.py; Answers reads what the request returned.
--   Backtest          app/backtest/engine.py: `run` as a fold over the bars. Report has the figures of
--                     the report; Spans and Data hold the proofs.
--   Exchanges         Base is app/exchanges/base.py. Shard is the class of app/exchanges/binance/shard.py
--                     and of app/exchanges/bybit/shard.py, over the protocol that Binance and Bybit
--                     fill; Offline, Frames and Life hold the proofs. Adapter is adapter.py beside them,
--                     with the proofs in Buckets and Routing. Payload is decoded JSON, and
--                     Binance/Normalize and Bybit/Normalize are normalize.py of the two. Listening is
--                     the handling of the messages of a connection, from the shards. Bybit/Pinging is
--                     the ping task of app/exchanges/bybit/shard.py. OpenInterest is
--                     app/exchanges/binance/oi.py and app/exchanges/bybit/oi.py.
--   Storage           app/storage/db.py: the queue, the batches and the worker; Worker and Queueing hold
--                     the proofs.
--   Experiments       app/experiments/tracker.py.
--   Ingestion         app/ingestion/ingestion_manager.py; Recovery holds the proofs.
--   Pipeline          app/signals/pipeline.py: the bodies of its loops as steps. Keys, Lockstep, Books
--                     and Reach hold the proofs. Stage is a turn of stage 1 with the adapters and the
--                     poller.
--   Notifications     app/notifications/bus.py.
--   Api               app/api/server.py: the answer to a request.
--   Tests             sample data, and the theorems applied to it.
--
-- How they interact: the sink pushes events into the buffer, whose batches the store ingests. The
-- feature functions read a symbol's state; Quant and Breakout read the features; `evaluate_signal`
-- chains Quant, Breakout, ExitLevels, Sizing, Friction and the check of the risk engine, and returns
-- the risk engine beside its result, since the check may start a new day. Pipeline owns the engines:
-- it closes positions on a ticker, updates the candidates, evaluates them, and opens a position when
-- the auditor has approved. The adapters' shards own the symbols;
-- Listening hands a connection's messages to the normaliser and the events to the sink; a stage 1
-- cycle hands the change of the candidates to the shards and to the poller, whose tasks put the open
-- interest into the store. The API shows what the pipeline and the ingestion hold. The storage takes what the
-- pipeline sends to it. The backtest drives the store, `evaluate_signal` and the risk engine by itself.
--
-- Conventions:
--   - A `float` is a value of any type with the operations of `Float`; no operation is taken to be
--     exact. A theorem that needs more takes `IsOrdered`, laws that IEEE 754 doubles meet, NaN
--     included. `1e-9` and the other decimal literals are `lit`.
--   - `sum` of floats is an operation of `Float`, since Python 3.12 and later round it in another way
--     than repeated additions; `statistics.median` and `sorted` are written out.
--   - A Python exception is a `Result`: ValueError of `math.sqrt` below zero, ZeroDivisionError,
--     OverflowError of a power, and those of reading a reply or a table. What reading a number may
--     raise is a hypothesis where a theorem needs it. A division that the code guards is the plain operation.
--   - What the program reads of the outside is an argument: the clock, the day, random numbers, fresh
--     identifiers, the power of floats, the parser of a request's target, and what came of the
--     auditor's request. In the life of a shard the delay of an attempt is an argument too.
--   - A method with a lock is one step, so what happens under concurrency is a sequence of calls.
--   - A dictionary is an association list in insertion order, a set a list without repetitions, a
--     deque of bounded length a list that drops its oldest items. The sort of the ranking is the
--     stable insertion, which gives what Python's sort gives where every rank is a number.
--   - Loops run over lists and are structural, but for three on fuel: the pieces of a list, where
--     its length is enough, and the storage's worker and the ingestion manager's consumer, where one
--     more than the items that wait is.
--   - A method with `await`s is cut where another task may come in, and the steps are a relation. A
--     send on a socket that has closed raises in the source; here it is as any other.
--   - What SQLite does is an argument of the storage, and reading a number an argument of the
--     normaliser. `math.ceil` of a quotient of integers is exact.
--
-- Not modelled: the WebSocket client, the decoder of JSON, the sleeping of the loops, the HTTP requests
-- themselves, the YAML reader and the validation by pydantic, the schema of the database, the sockets
-- and threads of the API, the web page, logging and the macro client. Log lines are left out
-- everywhere.
pub mod Prelude
pub mod Float
pub mod Domain
pub mod Buffer
pub mod Config
pub mod Features
pub mod Risk
pub mod Signals
pub mod Execution
pub mod Ai
pub mod Api
pub mod Backtest
pub mod Exchanges
pub mod Storage
pub mod Experiments
pub mod Ingestion
pub mod Pipeline
pub mod Notifications
pub mod Tests

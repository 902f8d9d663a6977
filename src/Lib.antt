-- ===== src/Lib.antt =====
-- Verification of the agent company factory: companies of software agents that hire, ask for
-- approval and spend money under a budget. Eight parts of its core are modelled, and of a ninth, the
-- connector, two gates.
--
-- * modules/approvals is the queue of requests that need a decision. Approvals/Model.antt has its
--   kinds, statuses, routes and default policy (models.py, routing.py); Approvals/Service.antt the
--   table and `request`; Approvals/Decide.antt `decide`, `cancel` and the queries;
--   Approvals/Timeouts.antt `process_timeouts` (all service.py). Invariant, Preserve, Expiry,
--   Lifecycle, Protocol and Lists hold the proofs.
-- * modules/cost is the budget. Cost/Model.antt has the tables (models.py), Cost/Budget.antt the sums
--   and the threshold evaluation, Cost/Spending.antt `charge`, `reserve`, `release` and `commit`
--   (budget.py), Cost/Subscriptions.antt the recurring charges of `on_day_tick` (subscriptions.py).
--   Thresholds, Bounds, Ledger, Exhausted, Renewals, Turnover and DayTick hold the proofs.
-- * modules/identity is the org chart. Identity/Model.antt has the table and its queries,
--   Identity/Reason.antt `_validate_fire_reason`, Identity/Hire.antt `add_agent` and
--   `update_role_details`, Identity/Reassign.antt `reassign`, Identity/Fire.antt `fire`, `_do_fire`,
--   `complete_fire` and `_enqueue_pending_fire`, Identity/Queries.antt `chain_up` and
--   `all_descendants` (org.py). Chart, Invariant, Growing, Hiring, Moving, Reassigning,
--   Firing and Offboarding hold the proofs.
-- * modules/clock is the clock that turns real time into company time. Clock/Model.antt has its state,
--   its reading and its loading from the table (state.py, clock.py), Clock/Pause.antt `pause`, `resume`
--   and `pump_once` (clock.py). Time, Freeze, Days and Restart hold the proofs.
-- * modules/orchestrator carries the messages between agents. Orchestrator/Model.antt has the messages
--   (models.py, exceptions.py), Orchestrator/Queue.antt the queues (streams.py),
--   Orchestrator/RateLimit.antt the token bucket (rate_limit.py), Orchestrator/LoopDetector.antt the
--   loop detector (loop_detector.py), Orchestrator/State.antt the registry and the suspensions,
--   Orchestrator/Send.antt `send`, `system_send` and `_send`, Orchestrator/Dispatch.antt `_dispatch` and
--   `drain`, Orchestrator/Health.antt the scores (health_monitor.py) and `health_sweep`,
--   Orchestrator/IdleSweep.antt `idle_sweep` (orchestrator.py). Burst, Turns, Draining, Sending, Scores,
--   Notices and Nudges hold the proofs.
--
-- * modules/tools is the layer through which an agent acts. Tools/Model.antt has the tools, their results
--   and errors (models.py, exceptions.py), Tools/Registry.antt the registry, Tools/Pipeline.antt the
--   stages of `invoke` from the execution on, Tools/Invoke.antt those before it (service.py). Reach,
--   Guards, Freeing, Settling and Repeats hold the proofs.
--
-- * modules/inter_company carries messages between companies over the links of modules/board_api/links.py.
--   InterCompany/Model.antt has their data, InterCompany/Links.antt the status machine of the links
--   (links.py), InterCompany/Sanitize.antt, Rate.antt, Service.antt and Pending.antt `_sanitize`,
--   `_enforce_rate`, `send_cross` and `deliver_pending` (service.py). Stuck, Attempts, Flushing, Handing
--   and Routing hold the proofs.
-- * modules/event_store is the event log. EventStore/Store.antt has `append`, `read` and the subscribers,
--   EventStore/Streams.antt `stream` as a machine (store.py). Order and Tailing hold the proofs. The other
--   parts keep the events that they append in their own state.
-- * modules/connector has the gates to external services: Connector/Allowlist.antt and
--   Connector/RateLimit.antt (allowlist.py, rate_limit.py), with tests.
--
-- The subscriptions charge the budget. A message between companies is a system message of the
-- orchestrator at the other end. A call of a tool reserves and commits its cost in the budget and
-- asks the queue for its approval. The orchestrator asks the chart who is active, the clock whether
-- messages are taken and the limiter whether the sender has a token.
--
-- How a table is modelled: Prelude/Tables.antt, Prelude/Keyed.antt and Prelude/Sorted.antt read a
-- table as the list of its rows and give each SQL statement that the program uses a function on
-- that list. A method is an action of Prelude/Action.antt: from the state to a result or an
-- exception, and the state after it. A transaction that raises leaves the state as it was. Event
-- log and broadcasts are part of the state; a subscriber's own code is not run.
--
-- What stands for what: identifiers are numbers, since the program only stores and compares them,
-- and a fresh uuid is an argument, whose clash with a row is an integrity error. A reading of the
-- clock is an argument too, in microseconds; ISO texts in UTC sort as the times do. The floats of
-- the clock are exact, rounded to the nearest microsecond at the end; the program rounds before,
-- so that its readings may be some microseconds off; those of the limiter are billionths of a
-- token; those of a health score are units of 2^-54 with the rounding of a double. What an agent
-- does with a message is a parameter, `Deliver`: whether it raises for an envelope, and with what
-- text; the agents leave the orchestrator itself alone meanwhile. The texts of identifiers are a
-- parameter, `shown`. A `Moment` has the readings of the clocks and the identifier that one
-- message draws. What a tool does is part of its definition: its schema, its checks, its
-- estimator, which can raise, and its executor, which can change the table of agents, the budget,
-- the queue of approvals and the state `world` of the other services, but not the registry, the
-- cache or the events of the layer. Money is a number of units of 0.0001 USD. The percentages of
-- the thresholds are compared as exact fractions, with which the 28-digit decimals of the program
-- agree on the integers of the database. The text of a payload is a string that nothing looks
-- into; the reason of a firing is the list of its code points, in ASCII.
--
-- Fuel: the loops over the chart (`depth`, `chain_up`, `all_descendants`, the cycle check of
-- `reassign`) take fuel, and answer `out_of_fuel` or `diverges` without it. For `depth` and the
-- cycle check, fuel of more than one above the height of the chain is enough, and in an orderly
-- chart every chain has a height. The rounds of `drain` are its `max_iters`; three for each message
-- are enough, since a message is given up after its third attempt.
--
-- Not modelled: schema migrations, logging, threads and locks (each method is one step), the
-- asyncio loops, and the modules that are named in the list of components as not modelled.
pub mod Prelude
pub mod Approvals
pub mod Cost
pub mod Identity
pub mod Clock
pub mod Orchestrator
pub mod Tools
pub mod InterCompany
pub mod EventStore
pub mod Connector

-- ===== src/Lib.antt =====
-- worldsimulator: the rules of a deterministic town economy, modelled and verified.
--
-- The program simulates a town in ticks. An engine of pure rules (packages/engine/src) decides;
-- stores over SQLite (apps/server/src/persistence) keep the state; every movement of money goes
-- through one double-entry ledger. This library models the rules that move, divide or price
-- money, the statuses that gate them, and the log, the bus and the tick that the rules run in.
--
-- Parts, and how they meet:
--   Prelude        shared tests, lists, integers, results, decimal text, code-unit order, sorting,
--                  BigInt of a text
--   Money          packages/shared/src/money.ts: parsing, mulDiv with three rounding modes,
--                  applyRateBp, allocate by largest remainder, formatMoney
--   Ledger         packages/engine/src/ledger.ts over the tables of
--                  apps/server/src/persistence/finance-store.ts: Types (packages/shared/src/finance.ts),
--                  Tables (the LedgerRepository), Channels (who may move what), Posting (post and
--                  reconcileLedgerBalance)
--   Amortization   packages/engine/src/amortization.ts: equal-principal 30/360 schedules; interest is
--                  a mulDiv of Money
--   Credit         Collections (loan-collections.ts), Policy (credit-policy.ts), Scoring
--                  (credit-scoring.ts), Circuit (bank-circuit-breakers.ts); a schedule of
--                  Amortization is what Collections pays off
--   Market         packages/engine/src/market-rules.ts: production, stock, posted prices
--   Finance        packages/engine/src/finance-rules.ts: payroll by allocate, household spending
--   Insolvency     packages/engine/src/insolvency-rules.ts: solvency, salvage, the waterfall
--   Energy         packages/engine/src/energy-rules.ts: billing cycles, tariffs, fuel
--   Venture        packages/engine/src/venture-rules.ts: priced rounds, fund deployment
--   RunLifecycle   packages/engine/src/run-lifecycle.ts: the statuses of a run
--   Ids            packages/shared/src/codec.ts, IdFactory: one counter for each prefix, numbers to the
--                  base 36
--   Events         packages/shared/src/envelope.ts and packages/engine/src/event-log.ts: envelopes and
--                  the append-only log; packages/engine/src/bus.ts: the bus, in Bus
--   SimLoop        packages/engine/src/sim-loop.ts: the calendar, the phases, a tick and its rollback.
--                  A tick draws its event ids from Ids and appends one batch to the log of Events
--   Legal          packages/engine/src/legal-contracts.ts with the schemas of
--                  packages/shared/src/legal.ts
--   Distributions  packages/engine/src/investment-distributions.ts: paid by allocate of Money
--   Labor          packages/engine/src/labor-market.ts: eligibility, scores, ranking
--   Triggers       packages/engine/src/trigger-evaluator.ts: which agents a tick wakes
--   Budget         packages/engine/src/llm-budget.ts: costs of model calls, and who may call
--   Tests          the program run on concrete inputs
--
-- How the source is read. Function and field names are the source's, in snake case. A bigint is an
-- integer of Prelude.Int; a JavaScript number is such an integer too, which the guards
-- assertSafeInteger and its kin bound, and values that are no integers are not represented. Where a
-- number may pass 2^53 without a guard the rounding of the sum is written out (add_numbers of
-- Prelude.Results, which is the JavaScript sum up to 2^54). BigInt of a text that no guard has let
-- through is big_int of Prelude.BigInts. A string is the list of its UTF-16 code units. A thrown error is a constructor of Prelude.Results
-- Error: the codes of EngineError, and one each for MoneyError, RangeError, ZodError and a failure of
-- SQLite; messages and details are not modelled. Array.prototype.sort is a stable insertion sort,
-- which agrees with it for every consistent comparator. Object.freeze has no counterpart, since
-- values do not change.
--
-- The ledger's state is a record of two tables: the accounts, and the posted transactions with
-- their request hashes. `post` takes the digest of a request as a parameter, which stands for
-- sha256Hex over the canonical text; nothing is assumed of it. saveTransaction runs inside one SQL
-- transaction, so a failure in it leaves the tables as they were: a failed `post` returns no store.
-- It refuses a broken primary or unique key of ledger_transactions; foreign keys and CHECK clauses
-- are not modelled.
--
-- In the log a payload is of any type, and its canonical copy, canonicalParse of canonicalStringify,
-- is a parameter of which nothing is assumed. The weak set of validated events is a flag of the event.
-- The bus calls handlers by name; what a handler does is a parameter, and so is what a handler of a
-- phase does in a tick, as a tree of its calls on the TickContext. Such a tree draws ids and emits
-- events; that a handler catches an error of one of these calls and goes on, or restores the ids in
-- the middle of a tick, has no counterpart. No module of the repository
-- subscribes to the bus, so in a tick publishing an event calls the sink only. The stores that the
-- handlers write to are outside of the loop's state; the loop modelled has no tick committer.
--
-- Most loops of the source run over a list or count to a known bound, so recursion is structural.
-- The loop of the bus may run for ever, since handlers publish; it has fuel, and publish_delivers of
-- Events.Delivery shows enough fuel for handlers that publish only events of a lower rank. The printing
-- of numbers has the number itself as its fuel.
--
-- Not modelled: HTTP and the other stores, the web client, LLM providers and prompts, the canonical
-- text and SHA-256, the random streams, and the rule modules listed in no part above.
pub mod Prelude
pub mod Ids
pub mod Events
pub mod SimLoop
pub mod Legal
pub mod Labor
pub mod Triggers
pub mod Budget
pub mod Distributions
pub mod Money
pub mod Ledger
pub mod Tests
pub mod Amortization
pub mod Credit
pub mod RunLifecycle
pub mod Market
pub mod Insolvency
pub mod Finance
pub mod Energy
pub mod Venture

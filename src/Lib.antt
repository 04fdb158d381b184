-- ===== src/Lib.antt =====
-- ai-credits: prepaid credits for calls of language models, as a Go library over SQLite.
--
-- The program's core is the package credits/: an append-only ledger (credit_transactions) with a
-- materialized balance per user (credit_accounts). Grants and refunds write the ledger under an
-- idempotency key. A call of a model reserves an estimate (Reserve), and later charges its actual
-- cost (Settle) or gives the estimate back (Release); Reconcile expires reservations that were
-- forgotten and compares balances with the ledger. Monthly grants are made on demand, gated by a
-- subscription. Pricing turns token counts into micro-units and credits. Users with keys of their own
-- are relayed to their providers under a sealed credential, and only their usage is recorded.
--
-- The package payments/ stands on that: it sells packs of credits. Events of a payment provider are
-- stored (Receive) and processed (ProcessPending, processOne): a paid event grants the credits of its
-- purchase, a reversal takes back their share, in one transaction with the purchase and the event when
-- the ledger is credits.Service. A worker runs the passes with a backoff.
--
-- Which file models what:
--   Prelude            shared names; Prelude/Int the integers, Prelude/Int64 the type int64, Prelude/Text
--                      Go strings as lists of bytes
--   Credits/Errors     the error values of credits/types.go and of the functions
--   Credits/Db         the tables of credits/schema.sql as records, and the transactions of database/sql
--   Credits/Accounts   the SQL statements on credit_accounts and credit_transactions
--   Credits/Validate   credits/validate.go
--   Credits/Ledger     credits/ledger.go: user_balance, grant, refund, grant_tx, refund_tx, adjust
--   Credits/Reservation  credits/reservation.go: reserve; Rows the statements on credit_reservations,
--                      Finalize settle and release
--   Credits/Reconcile  credits/reconcile.go: expire_stale, expire_one, detect_drift
--   Credits/Subscription, Credits/Monthly  credits/subscription.go, credits/monthly.go
--   Credits/Pricing    credits/pricing.go
--   Credits/Usage      credits/usage.go and validateUsage of credits/validate.go
--   Credits/Settlement  credits/settlement.go: the outbox of settlements; Pass the worker pass
--   Credits/Sound      what it is for the tables to be sound, and that every call keeps it
--   Credits/Charge     what a reservation costs its user
--   Credits/Byok       users' own keys: Store credits/byokstore.go, Path credits/byoksplit.go and
--                      credits/byokoutpath.go, Relay credits/byokrelay.go, Capture
--                      credits/byokcapture.go
--   Credits/System     all calls as steps on one database, in any order; what holds of what is reached
--   Payments           payments/payments.go: the catalog, the tables of payments/schema.sql, purchases
--   Payments/Postings  what processOne asks of the ledger: amounts, keys, and the interface Ledger
--   Payments/Process   processOne, on any Ledger and with credits.Service; Queue the rest of Receive and
--                      ProcessPending; Posting, Calls, Outcome, Waiting, Atomic, Stale, TwoPhase,
--                      Keys, Explained, Once, Drain, Reversal, Reversed, LostUpdate and
--                      Blocked what holds of them
--   Payments/Plans     subscriptions of a provider and the grants of their periods; Latest their order
--   Payments/Report    Reconcile and ReconcileWithStripe
--   Payments/Worker    payments/worker.go; Backoff how long it waits
--   Payments/Tests     runs on small tables, and examples of the theorems
--   Credits/Tests      runs on small tables, and examples of the theorems
--
-- How state is modelled: a table is a list of rows, the newest first; a call takes the database and
-- returns its result with the database after it. Inside a transaction a piece of code is a function
-- Tx of Credits/Db, whose error leaves no state, since the deferred rollback undoes all writes; in_tx
-- is the begin, the body and the commit. The driver is a parameter: the record Env of a call holds
-- the clock, the next random id, and for the begin, the commit and each statement the error that it
-- reports, if any, so a theorem for every Env covers every combination of faults. `calm` is the Env
-- without faults; a begin, a statement or a commit that reports an error is taken to have done
-- nothing, as SQLite documents it. SQLite runs write transactions one after the other (BEGIN
-- IMMEDIATE), so concurrent calls are sequences of steps; the pass of Reconcile is not one
-- transaction, and other calls come between its read and its expiries. The tables of payments/ and
-- the ledger are the record Books, over any type of ledger; a call of it takes one Env for its own
-- statements and one for the ledger's. Workers that share a queue are interleavings of the steps of
-- Payments/Process/Once, in which an event is processed as it was read at some earlier time;
-- `process_event` is processOne with nothing in between, and its claim and its post with a purchase
-- that was read earlier are steps as well. Of the fallback path only the whole is a step.
--
-- Bounds: amounts and balances are unbounded integers in the ledger, where SQL adds them; prices and
-- costs are int64 with wrap-around, as Go adds them. Times are in whole seconds; one call reads the
-- clock once, except Reconcile. Go leaves the order open in which a map is walked; require_identifiers
-- takes one order. All loops are structural; `decimal` of Payments/Plans writes a number with the 19
-- digits that a positive int64 can have. Rows of payment_events with one received_at keep the order of
-- their insertion in a pass, which SQL leaves open.
--
-- Not modelled: the JSON decoder of prices and the source of randomness (parameters), the set-up and
-- the migrations of the schema, and the package stripe/. Of the relay for users' own keys the cipher,
-- the parsers of URLs, addresses and JSON are parameters; the reverse proxy, its timeouts, and the
-- headers that it adds or removes by itself are left out. Of payments/ the logger, the ticker,
-- and the texts of errors in last_error are left out. The text of the month in a monthly grant
-- is a parameter.
pub mod Prelude
pub mod Credits
pub mod Payments

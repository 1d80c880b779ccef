-- ===== src/Lib.antt =====
-- Verification of the services of the charging platform: the NestJS API of apps/api and the
-- charger engine of apps/csms-engine.
--
-- A request runs through guards, then a controller hands it to one service, which reads and writes
-- the tables of prisma/schema.prisma. Each service method is a function here. Its result is an
-- `Action S A` of Effects.antt: from the tables before the call to a result or an exception, and
-- the tables after it. `this.prisma.$transaction` is `transaction`, which rolls back; outside
-- one, what was written before a throw stays. A table is a list of rows (Table.antt), `findFirst`
-- takes the first row that fits, and `orderBy` is a stable sort.
--
-- Which file models what:
--   Prelude, Effects, Table   numbers, texts, exceptions, requests and queries. Table/Bag has tables up
--                to the order of their rows, Table/Keys rows that are found by a key
--   Ledger       the table WalletTransaction and the sums of its entries, which both kinds of
--                wallet write
--   Wallet       apps/api/src/wallet/wallet.service.ts. Accounts is its specification, a map from
--                users to accounts; Rows and Commits have the lemmas on the tables, and Refinement,
--                Reconciliation, Conservation, Races and Abuse the theorems
--   Payments     apps/api/src/payments/payments.service.ts with adyen.service.ts, over the wallets, with
--                refunds and lists in Desk. Letters has the case of letters, Confirming the theorems
--   GroupWallet  apps/api/src/wallet/group-wallet.service.ts, with the methods that move money in
--                Funds. Owners and Ownership have the invariant of owners, Access who may do what,
--                and Spending and Limits the money
--   Exclusion    tables of which no two rows clash, and changes of rows, for the tables below
--   Rentals      apps/api/src/rentals/rentals.service.ts, with the calls on existing bookings in Desk.
--                Writes has what each writes, Exclusive the slots and Offers the prices
--   Reimbursements  apps/api/src/fleets/reimbursement.service.ts, with its figures in Stats;
--                Approval has the theorems
--   Subscriptions  apps/api/src/pricing/subscription.service.ts, with the calls on existing ones in
--                Terms and the lists in Queries; Calendar has the dates. Exclusive, Renewal and
--                Pauses have the theorems
--   Guards       apps/api/src/common/guards: roles.guard.ts (Laws), org-context.guard.ts
--                (Organizations) and api-key.guard.ts (Keys)
--   Ocpp         apps/csms-engine/src/ocpp/ocpp-command.service.ts, with ocpp.gateway.ts in Gateway and
--                the named commands and kafka/command-consumer.service.ts in Commands. Sending and
--                Accounting have lemmas, Runs the steps of the engine in any order, and Timers,
--                Answers, Consumer and Connections the theorems of the parts
--   Auth         apps/api/src/auth/auth.service.ts, with the codes in Otp, with
--                apps/api/src/communications/otp.service.ts, and the other ways to sign in in SignIn.
--                Accounts, Credentials, Reuse (with Rotation) and Codes have the theorems
--   ApiKeys      apps/api/src/api-management/api-key.service.ts. Validity has when a key is taken, Owners
--                whose keys are changed
--   Sessions     apps/api/src/sessions/session-manager.service.ts. Activity has the invariant of the
--                set of active sessions, Listing the lists, and Ending the rows that are kept
--   SmartCharging  apps/api/src/smart-charging/smart-charging.service.ts over the sessions, with
--                the queues in Waiting. Shares has the shares of the power, Load what is ever sent,
--                and Queue whom the queues serve
--   Income       the tables that apps/api/src/settlements earns from
--   Invoices     apps/api/src/invoices/invoices.service.ts, with generated invoices in Billing.
--                Amounts has the sums, Sweep the invoices that are past their date
--   Settlements  apps/api/src/settlements/settlements.service.ts, with what it generates in Payouts and
--                the lists and figures in Lists. Finality and Totals have the theorems
--   Reconciliation  apps/api/src/settlements/reconciliation.service.ts, with theorems in Matching and
--                Reports
--   FleetSchedule  apps/api/src/fleets/fleet-scheduling.service.ts, with theorems in Slots and
--                Overrides
--   RateLimit    apps/api/src/common/middleware/rate-limit.middleware.ts over a cache, which is a record
--                of operations and laws. Store is one such cache, Window and Expiry have the theorems
--   Bookings     apps/api/src/bookings/bookings.service.ts. Slots has the slots that are given
--                out, Lifecycle who may change a booking and when
--
-- What stands for what:
--   * ids (`cuid()`, user, station and organisation ids) are natural numbers. The id that a call
--     draws is an argument, and so is the current time, in milliseconds.
--   * money is whole cents, an unbounded integer, where the source has a Prisma Decimal or a
--     JavaScript number. The products are those of a daily rate and a number of days, and of an
--     energy and a rate, which are exact here.
--   * a call runs to its end before the next one starts, but for Wallet/Races, where the reads of
--     two calls come before the writes of both.
--   * dates are milliseconds, but for the periods of subscriptions, which are calendar dates in UTC.
--   * the WebSocket library is a test of which sockets take a frame, Kafka and the promises of
--     commands are logs, and Redis is a record of counters with the laws that it documents.
--   * energies and rates of reimbursements and of sessions are whole units where the source has
--     floating point. What the columns of a settlement keep of its fees and its net amount, which are
--     products in floating point, is a parameter (Settlements.Payouts.Cents) with the law that it
--     is a nearest amount of cents. The fees of a report are in hundredths of a cent.
--   * what Stripe and Adyen answer at a call is a record of functions (Payments.Gateways), which may
--     differ from call to call.
--   * passwords and signed tokens are a record of operations (Auth.Crypto) with the laws that their
--     libraries document: a hash fits its password, a signed token verifies for a week, and tokens
--     of different users or seconds differ.
--   * the sessions in Redis are kept with the time at which they expire. Power is whole kilowatts;
--     a limit that is sent to a charger is kept as the expression that the source evaluates in floating
--     point (SmartCharging.Share); priorities are in tenths of a minute.
--   * columns that no modelled code reads or writes (timestamps of rows, joined names) are left out.
--   * every function is structural recursion over lists, or over a number of requests, but for the
--     loop over the half hours of a day in FleetSchedule, which is on fuel; 48 rounds are enough on
--     every day.
--
-- Not modelled: the controllers and DTO validation, the Prisma client itself, Kafka, Redis and the
-- ML client, formulas in floating point (dynamic pricing, ESG and analytics reports), battery
-- swaps, and services that only read and write one table with no rule of their own.
pub mod Prelude
pub mod Effects
pub mod Table
pub mod Exclusion
pub mod Ledger
pub mod Wallet
pub mod Payments
pub mod GroupWallet
pub mod Guards
pub mod Auth
pub mod ApiKeys
pub mod Income
pub mod Invoices
pub mod Sessions
pub mod SmartCharging
pub mod Settlements
pub mod Reconciliation
pub mod RateLimit
pub mod Bookings
pub mod FleetSchedule
pub mod Ocpp
pub mod Rentals
pub mod Reimbursements
pub mod Calendar
pub mod Subscriptions

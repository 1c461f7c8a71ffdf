-- ===== src/Lib.antt =====
-- This library models the server side of a merchandising system: services that keep their own
-- database, answer requests over REST or gRPC, and tell each other what happened by events on a bus.
--
-- The files, and the code they model (paths from the root of the repository):
--   Events: the events, libs/shared/src/events.
--   Inventory/State, Stock, Reservations: StockService, services/inventory/src/stock/stock.service.ts.
--     A method is a function of the same name (applyStockTransfer is apply_stock_transfer); its parts
--     after a lookup are functions that end in _found, _product or _active. Levels, Lifecycle,
--     Checkout, Redelivery and Consistency hold the proofs.
--   Inventory/StockCounts: StockCountsService, services/inventory/src/stock-counts: creation here,
--     counting, submission and cancellation in Counting, the view of a count in Viewing, and the
--     posting in Posting. Booked,
--     Settling, Rules and Blindness hold the proofs.
--   Financials/Accounts, Journal, Plans, Postings: the chart of accounts, `balanced`, the posting plan
--     and the five posting rules, services/financials/src (accounts, ledger, postings).
--   Financials/Ledger, Ledger/Inbox, Ledger/Payables: LedgerRepository.commit, the inbox and its
--     processor, and the payment of bills (ledger, inbox, payables). Effects, Ledger/Reconciliation,
--     Payment, Runs, Delivery and Backoff hold the proofs.
--   Procurement/State, Creation, Ordering: PurchaseOrdersService,
--     services/procurement/src/purchase-orders/purchase-orders.service.ts, with proofs in Approval,
--     Receipts, Prices and Runs.
--   Receiving/State, Scans, Finalizing: discrepancyFor, the scans and the completion of a goods
--     received note, services/receiving/src/goods-received-notes, with proofs in Discrepancies,
--     Classified, Outcomes and Completion.
--   SalesAudit/State, Sales, Days: the day's running totals and its close, services/sales-audit/src
--     (item-sold-ledger, daily-close), with proofs in Takings and Closing.
--   Retail: services/retail-sales/src. State is the database (prisma/schema.prisma), Pricing and
--     Products the prices (products), Stock the calls to Inventory (inventory-grpc-client), Checkout
--     and Returns the services of these names. Fulfilment is Inventory's side of the calls
--     (services/inventory/src/grpc). Checkout/Reserving, Lines and Settlement, Returnable and Refunds
--     hold the proofs.
--   Warehouse: services/warehouse-operations/src. State is the database (prisma/schema.prisma), Bins is
--     putaway/bin-selection.ts, Putaway and Shelving are PutawayService, Transfers and Picking are
--     TransfersService. Allocation, Offers, Promises, Rounds, Directions, Runs, Completion and Rooms
--     hold the proofs.
--   Roles: the roles of users, libs/shared/src/auth/roles.ts.
--   Flows: theorems about what passes from one service to another: Shrinkage from a posted stock count
--     to the books, Sales from a paid checkout to the books, Deliveries from a completed note to the
--     purchase order.
--   Common and Tally: tests, integers, doubles, lists, sorting, tables, requests, and sums
--     by key.
--   The Tests modules run the services on concrete inputs.
--
-- How they interact: a checkout of Retail Sales asks Inventory for its stock by a record of two
-- operations, whose laws are what it relies on and what Inventory is shown to keep. Inventory
-- publishes adjustments, which Financials books; Procurement publishes approvals; Receiving
-- publishes goods received, which Inventory puts on hand, Procurement adds to the order, Financials
-- books and bills at the order's costs, and Warehouse puts away; Warehouse publishes completed
-- transfers, which Inventory moves between locations; Sales audit adds up sales and publishes
-- closed days, which Financials books. An event is a value here: what one service does with it is a
-- function of the event and the service's tables.
--
-- Conventions and bounds:
--   Identifiers, codes and texts are natural numbers, since they are only stored and compared.
--   Quantities are integers. Amounts of money are integers in cents, as the columns of the
--   databases keep them: sums of amounts and products with whole numbers stay far below 2 ^ 53
--   cents, so that rounding them to cents restores the exact value. Where the rounding of a
--   quotient or of a percentage can decide the result (prices, refunds, the tax in a refund, the
--   reorder threshold), it is computed in doubles, as JavaScript does (Common/Double). Percentages
--   are whole hundredths. Volumes and weights are whole numbers of a unit fine enough for the
--   products of an item's measures, which the columns would round. Times are milliseconds.
--   Messages of errors and logs, memos and descriptions are left out.
--   A table with a unique key is a list of rows under their keys; find, create, update and upsert are
--   the calls that the services make on it.
--   A request is a function from the tables to a result and the tables after it. What was written
--   before an exception stays written, except in a database transaction, which takes it back.
--   Requests run one after the other; the one exception is the theorem on two interleaved checkouts.
--   The clock, new identifiers, whether the bus takes an event, and the answers of other services are
--   arguments. Every loop is over a list; only the count of a number's binary digits in Common/Double
--   has fuel, the number itself, which is enough for as many halvings.
--
-- Not modelled: the queries and reports of the services, the creation of bins, vendor management
-- and the directory, authentication, the event bus itself, the databases' isolation levels, and the
-- user interfaces.
pub mod Common
pub mod Events
pub mod Flows
pub mod Inventory
pub mod Financials
pub mod Procurement
pub mod Receiving
pub mod Retail
pub mod Roles
pub mod SalesAudit
pub mod Tally
pub mod Warehouse

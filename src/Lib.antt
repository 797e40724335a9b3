-- ===== src/Lib.antt =====
-- A model of the money paths of InfraCo OS, a NestJS backend over PostgreSQL, and their theorems.
--
-- The program takes payments for stands, rents and utilities. The Payments Platform calls back with a
-- payment (src/modules/payments/payments.service.ts); the callback is recorded and, in the same
-- database transaction, posted to the unified ledger (src/modules/financial/ledger.service.ts), which
-- updates the invoice and posts a double-entry journal to the accounting layer
-- (src/modules/financial/accounting.service.ts). Manual adjustments need an approval of the
-- delegation-of-authority workflow (src/modules/approvals/approval.service.ts). Schedules and arrears
-- buckets come from src/modules/financial/instalment.util.ts.
--
-- Common holds what every module shares: Boolean tests, lists, signed integers (Int), results
-- (Result) and tables with increasing keys (Keys). Database holds the enumerations (Enums) of
-- src/common/enums.ts and db/infraco_os_schema.sql, and the transactions of src/prisma.service.ts
-- (Transaction): stateful code that may throw, where a statement that violates a constraint leaves the
-- transaction failed, as PostgreSQL does.
--
-- Instalment models computeInstalmentAmounts and arrearsBucket. Accounting models postJournalTx
-- (post_journal_tx, with check_entry, open_period, check_codes and line_rows for its steps),
-- postJournal, reverseJournal and closePeriod over the tables of Books, and trialBalance and
-- balanceSheet (Accounting.Reports). Arrears models the ladder of
-- src/modules/financial/arrears.util.ts. Approvals models
-- requiresApproval, initiate, approve and reject (decide) and execute. Ledger models postPaymentTx,
-- parkSuspenseTx, resolveSuspense, postManualAdjustment (Ledger.Adjustment), recomputeAccount
-- (Ledger.Position) and the reports (Ledger.Report) over the tables of Fin, which contain Books and
-- Approvals; Ledger.CoaMap is src/modules/financial/coa-map.ts. Payments models handleCallback over
-- the tables of Pay, which contain Fin; the utility service that some callbacks drive is the
-- interface Utility, on a state of its own. The component Utility (Utility.Tables, Utility.Lte) models
-- vend, purchaseLte and retryProvision of src/modules/utility/utility.service.ts with their callback
-- forms, and Utility.Callbacks fills the interface; the token digest and the provisioning call are
-- arguments (Backends).
--
-- Office holds the tables that the services share beside the ledger's, with createAccount
-- (Office.Accounts, src/modules/account/account.service.ts) and createBill (Office.Bills); what the
-- Payments Platform answers to a bill is a parameter. Rent models src/modules/lease/rent.util.ts on
-- texts of character codes, with percentages as exact fractions where the code has floating-point
-- numbers. Lease models src/modules/lease/lease.service.ts over the tables of Estate, which contain
-- Office: createPremises, createLease and transitionLease (Lease.Lifecycle, with Lease.Rows),
-- runRentBilling (Lease.Billing), addUtilityCharge (Lease.Charges), getRentRoll (Lease.Roll) and
-- renewalAlerts (Lease.Alerts). How PostgreSQL and JavaScript read and print dates is the parameter
-- Calendar, and the number that stands for a text that the code makes up as a reference is the
-- parameter `code`.
--
-- Schedule models src/modules/financial/financial.service.ts: generateInstalmentSchedule
-- (Schedule.Generate) over the tables of Desk, which contain Office, and raiseDueInstalments
-- (Schedule.Raise) over Office; due dates are days since the year 0 (due_day), with what
-- setMonth does at the end of a month. Sales models src/modules/sales/sales.service.ts over the tables
-- of Market, which contain Desk: reservePlot with the stored procedure sales.reserve_plot, approveSale
-- (Sales), convertReservationToSale (Sales.Convert, whose transaction runs insert_account and the
-- schedule inside its own) and cancelSale (Sales.Cancel).
--
-- Each operation is a function of the tables that gives its result, or the error that it throws, with
-- the tables afterwards. A table is a list, newest row first; an UPDATE or a query by key is
-- update_where or find?. Columns that no modelled code reads are left out. Money is an integer number
-- of cents, so that the rounding of `money` to cents is the identity; texts and UUIDs that the code
-- only compares are numbers, and an id or transaction that is the empty text, which the code in
-- places takes for none, is left out; a day is its date with a day number. Every function recurs on its
-- arguments, so no fuel is needed. Transactions run one after another: the row locks of the code
-- (SELECT ... FOR UPDATE) are what makes concurrent ones do so.
--
-- Not modelled: of the files above, createAccount of the accounting layer, profitAndLoss and the CSV
-- export, the setup of meters and tariffs, grid exchanges and the SMS after a vend, the lease
-- statement and the lists that only read; the arrears sweep
-- (src/modules/financial/arrears.service.ts), the list of plots; the HTTP controllers and the web
-- client, the Payments Platform and SMS clients, the signature and password hashes, and the modules
-- for customers, onboarding, notifications, authentication and reporting.
pub mod Common
pub mod Database
pub mod Instalment
pub mod Accounting
pub mod Arrears
pub mod Approvals
pub mod Lease
pub mod Ledger
pub mod Payments
pub mod Office
pub mod Rent
pub mod Sales
pub mod Schedule
pub mod Utility

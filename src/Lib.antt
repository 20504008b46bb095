-- ===== src/Lib.antt =====
-- Verification library for Treckrr, a billing application for farm work between neighbors (Go,
-- PostgreSQL). Paths are from the repository's root.
--
-- The program keeps an account for each neighbor in each billing year: issued invoices and credit
-- notes, bookings that no invoice has claimed yet, signed ledger postings, and payments. The store
-- derives everything else from these rows. The parts modelled here, and how they interact:
--
-- * Allocation (internal/store/invoice_allocation_plan.go): from the documents, the ledger sum and the
--   payments of one account, `planInvoiceAllocation` derives what remains open on each invoice:
--   offsets first, then payments in order, each to its preferred invoice and then oldest first.
--   `plan_invoice_allocation` in Allocation/Plan; the reversals in Allocation/Reversal; the order in
--   Allocation/Order. The children Sums to Exhaustion are its proofs.
-- * Settlement (internal/store/invoice_allocations.go, internal/store/account_settlement.go,
--   internal/models/settlement.go, internal/models/money.go): from the selected rows to the input and
--   the summary of each account (`invoice_allocations` for `invoiceAllocationsTx`, `summarize` for the
--   body of its loop), and the lines that explain each invoice's reduction
--   (`explain_account_settlement`, `settlement_lines`). Uses follows the loop over the invoices; Worth,
--   Rows, Targets, Documents and Posted follow the rows into the inputs, Accounts into the summaries.
-- * Account (internal/store/account_lock.go): the payable balance (`remaining` for `remainingSQL`),
--   the checks that the account locks make (Account/Locks), and the operations that compute what they
--   post from the balance: `settle_remaining` (SettleRemainingWithMethod), `payout_credit`
--   (PayoutCredit), `carry_forward_confirmed` (CarryForwardConfirmed).
-- * Ledger (internal/store/ledger.go): adding, changing, voiding and deleting postings, one by one and
--   as the pair of a carry-forward, on the tables of Account. Ledger/Steps puts the operations of
--   both files together as the steps of one transition relation, Ledger/Invariant proves what they keep.
-- * Invoices (internal/store/invoice_documents.go, invoice_partial.go, invoice_assignments.go): the
--   frozen contents (Invoices/Contents), the rows of `invoices` (Invoices/Documents) and the
--   operations `storno_invoice_by_id`, `gutschrift_invoice_by_id` and `storno_document` with both caps
--   on credit notes (Invoices/Operations), on the tables of Account. Invoices/Orderly is the abstract
--   view: a register of documents whose only steps are reversals and credit notes within the caps.
--   Refinement and Runs take each operation along these steps, Preserved and Invariant are what the
--   steps keep, Release is what a reversal leaves and Released, with Freed and Reversals, is about its
--   effect on the balances.
-- * Payments (internal/store/payments.go, internal/store/payment_plans.go): `record_payment`
--   (RecordPayment, with `prepare_skonto` and the credit note of Invoices), `update_payment`
--   (UpdatePayment) and `set_payment_deleted` (DeletePayment, RestorePayment), on the same tables; the
--   installments (Payments/Plans) have a table of their own.
-- * BankImport (internal/bankimport/bankimport.go): amounts, dates and hashes (BankImport/Amount) and
--   the three formats, `parse_csv`, `parse_camt` and `parse_mt940`, between which `parse` chooses.
-- * AuditChain (internal/store/audit_chain.go): the hash chains over the audit log; sealing in batches
--   (AuditChain/Seal), the rounds of SealAuditLog (AuditChain/Rounds), verification
--   (AuditChain/Verify), and what a checked chain commits to (AuditChain/Tamper).
-- * Login (internal/auth/auth.go, internal/totp/totp.go): the password policy, and the steps around
--   now whose one-time code is accepted.
-- * Prelude, Decimal, Calendar and Text hold what these share: integers with the value equality `≈`,
--   lists and maps, Go's error results, decimals, dates and texts.
--
-- How the code is modelled. A transaction is one function from the tables (`Books`) to a result: an
-- error, which rolls everything back, or the tables afterwards. The locks make the transactions on an
-- account run one after another, so a sequence of calls is a sequence of steps, and of the locks only
-- their checks remain. SQL statements are functions on lists of rows, and ids are primary keys. Errors
-- of the database, a canceled context except in SealAuditLog, and the texts of messages are left out; the audit lines keep
-- what their texts state. The decimals of github.com/shopspring/decimal are a parameter
-- (Decimal/Laws): an interface with the operations the code calls and their documented laws, over any
-- unit that a cent is a whole number of; Decimal/Cents is an instance that the examples run on.
-- SHA-256, hexadecimal and decimal digits, the printed time, the HMAC of a one-time code and
-- `strings.ToLower` are parameters too, as are the products and quotients of decimals and the hash of a
-- document's JSON (Invoices/Contents), and the decoders of CSV and XML, the pattern of an MT940 line
-- and the parsers of numbers and times (BankImport/Amount). A theorem that needs more of them than that
-- they are functions names it: `IsPrinting` in AuditChain/Tamper, `IsExact` in BankImport/Bounds. int64 ids and positions are integers; the
-- step of a one-time code wraps at 2^64 as the code's uint64 does.
--
-- Bounds. A batch of the audit log has 2000 rows, as in the code. The rounds of SealAuditLog run on fuel,
-- one unit for each batch: every round but the last seals 2000 rows, so one batch more than the unsealed
-- rows fill is enough. All other loops are structural. The table of documents stands in the order of its
-- ids, and the constraint that a number occurs once in a year refuses an insertion as the database does.
--
-- Not modelled: the read-only wrappers and snapshots, free credit notes, requests for a part payment and
-- the issuing of invoices (internal/store/invoice_partial.go, company.go), bookings and pricing,
-- recurring bookings, dunning, the matching and booking of imported bank credits
-- (internal/store/payment_import_batches.go), the retention purges of the audit log and of deleted
-- payments, and everything around the store: HTTP handlers, templates, PDF, spreadsheets, e-invoices,
-- mail, backups, metrics, configuration.
pub mod Prelude
pub mod Decimal
pub mod Calendar
pub mod Text
pub mod Allocation
pub mod Account
pub mod Ledger
pub mod AuditChain
pub mod Settlement
pub mod Invoices
pub mod BankImport
pub mod Login
pub mod Payments

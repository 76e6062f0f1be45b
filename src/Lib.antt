-- ===== src/Lib.antt =====
-- A verification library of the finance dashboard (financial_dashboard/, a FastAPI service over
-- SQLite that reads bank messages and statements and keeps a ledger of transactions).
--
-- The program's parts and the modules that model them:
--
-- - Sync, of services/paisa/sync_state.py and the triggers of db/init_db.py. The service publishes its
--   ledger to an external program. One row per extension (`SyncStateSnapshot`) says how far that has
--   come: core writes raise `desired_revision` (`bump`), a coordinator takes the lease
--   (`claim_lease`), captures a target (`capture_target`), publishes, and completes by an UPDATE
--   guarded by its token (`record_accepted_post` and the others of Sync/Complete). Sync/Eligibility
--   decides when the row is due, Sync/Admin holds the operator's calls. Sync/World composes them into a
--   step relation of coordinators, writers and operators that interleave. A table is an optional row, of
--   one extension id; an UPDATE ... RETURNING is a function of the row that its WHERE clause admits.
-- - Receivables, of services/receivables.py and the tables of db/models.py. The tables are lists in a
--   `Store`; a commit that would break a unique index is rolled back (`commit_links`). Merges and
--   deletes of transactions call `move_receivable_links` (Receivables/Move). Receivables/Valid has the
--   invariant over every sequence of calls.
-- - Masks, of core/masks.py: card and account masks as lists of character codes.
-- - Linker, of services/linker.py: the account and card that a transaction is linked to by its masks.
--   The lookup tables are built from the account and card rows as the code builds them.
-- - Outbox, of services/assistant/delivery.py: the messages that wait to be sent, as tables of rows that
--   each call updates where a condition holds. Outbox/Cancels has the writes of a message's status in
--   services/assistant/audit.py, telegram.py and receivables.py, and Outbox/Steps all of them, with
--   the superseded reviews of Decisions, as a step relation.
-- - Cycles, of services/cc_cycle.py: the billing cycle of a card statement, over the anchors that the
--   query returns.
-- - Categories, of services/categorization/polarity.py and slugs.py, and services/cashflow/buckets.py
--   and scope.py: which categories a direction admits and which line of the report a category is on.
--
-- - Coordinator, of services/paisa/coordinator.py, with audit.py and orchestrator.py beside it.
--   Coordinator/Stages has `_run_attempt_stages`, with the stages themselves as arguments;
--   Coordinator/Attempt is the claimed attempt around it, which ends in one of the calls of Sync and
--   tries to release the lease (the release may fail, which is only logged); Coordinator/Audit has its audit row and notification; Coordinator/Tick is
--   `_tick`, and Coordinator/Manual the wait for the lease of an operator's call. Coordinator/Refines
--   relates an attempt to the step relation of Sync/World. The clock's readings, the new token, the
--   digest, the notifier and what other writers commit meanwhile are arguments.
--   One reading of the clock serves the claim and the completions of an attempt.
-- - Reconcile, of services/reconcile.py: the balance chain of the statements, the transfer legs without
--   a partner, the alerts that may be a statement's row again, and the months without a statement, as
--   `build_report` assembles them from rows. The parsers of amounts and dates and the month of a date
--   are arguments.
-- - Merge, of services/txn_merge.py: when an incoming message is a transaction that is stored already,
--   and what it then adds to the row. Merge/Find has `find_match` with its query by the reference, and
--   Merge/Decide `_decide`. What `_gather_fuzzy_candidates` and `_find_am_pm_alias_match` return, and
--   what `qualifies_as_explicit_match` answers, are arguments.
-- - Bridge, of services/cashflow/bridge.py: the balance of an account at the end of a day, from its
--   statements and its other known balances, and the bridge from the opening to the closing cash. The
--   known balances and the figures of the summary are arguments.
-- - Settle, of services/statement_settlement.py: the answer that folds a held statement row into a
--   stored transaction. The parsers, the digest and the lookup of the cardholder are arguments; the
--   calls of other parts are recorded in their order.
-- - Callbacks, of services/telegram.py (`_handle_callback` and the parsers below it), with the prompts
--   there, in services/receivable_matches.py and in services/reminders.py: the data of the buttons, and
--   what a tap on one is read as. Texts are lists of character codes, as in Masks and Linker.
-- - Decisions, of services/categorization/decision_lifecycle.py and review_decisions.py: the decisions
--   of the category review, with the messages of Outbox that show them. The hash of a transaction's
--   input and what the vocabulary finds of a slug are arguments.
--
-- Prelude has the shared names: tests on the native numbers, lists, and integers over them.
--
-- Instants are natural numbers of microseconds and days are numbers of days; an amount is a number
-- of paise, whose sign is the direction of its transaction. Functions recurse on a list or a
-- number. Two are on fuel. The wait of `claim_manual_lease` (Coordinator/Manual) has n + 1 polls,
-- of which n last at least the wait, so that one poll is at the deadline or past it. The digits of
-- a number n (Callbacks/Numbers) have n + 1 rounds, and a round divides by ten. Revisions are
-- unbounded, as SQLite's 64-bit integers are far from full.
--
-- The step of Sync/World that records an eligibility guard names the target of a capture, where the
-- tick of Coordinator/Tick passes the revision that it read; so the refinement is of an attempt, and
-- Coordinator/Guard is about the guard.
--
-- Not modelled: the routes and pages, the mail, message and parser integrations, the language models,
-- and the text that is rendered for the external program. They are I/O or code outside the repository.
-- The payments of statements, the merge of two stored duplicates, the accounting projection, the
-- categorization engine, the cashflow report and the net worth report use the parts above, and are
-- outside this library. Upper case, alphanumeric characters and the digits of `int` are those of ASCII.
-- Created and updated timestamps that nothing compares are left out of the rows, the write lock is
-- the sequence of the calls, and a token is fresh at each claim of a `Reach` (a random UUID).
pub mod Bridge
pub mod Callbacks
pub mod Categories
pub mod Coordinator
pub mod Cycles
pub mod Decisions
pub mod Linker
pub mod Masks
pub mod Merge
pub mod Outbox
pub mod Prelude
pub mod Receivables
pub mod Reconcile
pub mod Settle
pub mod Sync

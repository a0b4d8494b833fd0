-- ===== src/Lib.antt =====
-- Werefa: appointment booking for small businesses. A customer claims a slot of a business's
-- schedule and uploads a proof of the deposit; the owner accepts or rejects the proof, cancels,
-- reschedules or releases; a subscription decides whether the business takes bookings. Accounts log
-- in with lockout and recovery, and an outbox tells customers, owners and admins by mail and Telegram.
--
-- The parts, their sources (below backend/src/domain) and their files:
--   * Prelude: Boolean tests on ℕ, lists, and tables as lists of rows (`updateMany`, `count`).
--   * Availability models services/availability.ts: `computeAvailableSlotStarts` with
--     `buildWorkingWindows` and `subtractBlocked`. Windows, Blocks, Grid and Offers hold the proofs,
--     one stage of the computation each.
--   * DaySlots models services/availability.service.ts and time/global-clock.ts around Availability.
--   * Lifecycle models lib/subscription-lifecycle.ts, Prepayment lib/prepayment.ts, and ProofFile
--     lib/proof-file.ts.
--   * Errors models errors/domain-errors.ts and common/errors/error-codes.ts, without messages.
--   * Store models the booking and payment tables: the rows, Store.Bookings for
--     repositories/prisma-booking.repository.ts, and Store.Payments for
--     repositories/prisma-payment.repository.ts and repositories/prisma-file.repository.ts. The unique
--     indexes of backend/prisma that the code relies on (the submission key and the held slot) are in
--     the insertions.
--   * Tenant models authorization/actor-context.ts and authorization/tenant-guard.ts.
--   * Catalog models `validateCombinations` of services/catalog.service.ts.
--   * Versions models `promoteLatestPending` of services/subscription.service.ts with the updates of
--     repositories/prisma-schedule.repository.ts.
--   * Texts has `String.prototype.trim`, decimal numerals and the code points of a string literal.
--   * Subscriptions models repositories/prisma-subscription.repository.ts on the tables Ledger;
--     Subscriptions.Service models services/subscription.service.ts, and Subscriptions.Billing
--     services/subscription-billing.service.ts. Gating is about the booking gate, Resuming about the end
--     of a pause, Renewing about what an approval gives, Replays about submission keys; Asides, Changes
--     and Reach show every call as changes of the tables, along which Balance and Settled, with Once,
--     carry their invariants.
--   * Schedules models the validation of templates and the conflicts of services/schedule.service.ts;
--     Schedules.Saving has `saveTemplate` and Schedules.Exceptions `recordScheduleException` and
--     `listOpenConflicts`, with their part of repositories/prisma-schedule.repository.ts. Templates is
--     about the validation, Promotion and Resumed about the version in force, Agreement about offered
--     slots and conflicts, Keeping and Excused about exceptions.
--     The CHECK constraints of backend/prisma/migrations on a template's rows are in the insertion.
--   * Worker models the sweep of scheduled pauses of services/business-lifecycle.worker.ts, with
--     `listDueForResume` of repositories/prisma-business.repository.ts. Worker.Sweeping is about a sweep,
--     Worker.Stuck about a pause during which a schedule was saved.
--   * Booking models services/booking.service.ts. Booking.Transactions has the body of each transaction,
--     that of services/resubmission.service.ts too, and Booking.Claiming that of `createBooking`;
--     Booking.Owner, Booking.Create and Booking.Completion have the service methods around them;
--     Booking.Idempotency the replay of a submission key; Booking.World the state outside the database.
--     Slots, Changes, Invariant, Claims, Moves, Reopened, Reach and History are about the slot
--     discipline, Serving and Refinement about the service's calls as histories, Isolation and Tenancy
--     about the rows of other businesses and the tenant guard, Releasing about `releaseSlot`.
--   * Resubmission models the codes and the methods of services/resubmission.service.ts with
--     repositories/prisma-resubmission.repository.ts; Resubmission.Reopening has `resubmit`;
--     Guard and Effects are about when it changes the tables and how.
--   * Accounts models the tables of users, sessions, security events and recovery codes (the record
--     Directory) with repositories/prisma-user-auth.repository.ts, prisma-session.repository.ts and
--     prisma-security-event-auth.repository.ts. Accounts.Login and
--     Accounts.Access model services/auth.service.ts, the logins and what a session allows, and
--     Accounts.Emergency services/recovery.service.ts with prisma-emergency-recovery.repository.ts.
--     Apart shows that a login leaves the other accounts alone; Lockout, Revoking, Sessions and
--     Spending are about failed logins, revoked sessions, tokens and recovery codes; Parallel is about
--     logins at once.
--   * Notices models the outbox rows and their insertion, Notices.Keys the keys of
--     notifications/notification-catalog.ts, Notices.Writes writes that may throw, and Notices.Events
--     the rest of notification-outbox-event-bus.ts. Notices.Reminders, Notices.Providers and
--     Notices.Delivery model notification-delivery.service.ts, Notices.Buttons the data of Telegram
--     buttons, and Notices.Taps telegram-callback.service.ts, which calls the service of Booking.Owner.
--     Writing, Staying, Once, Rounds, Later and Dropped are about keys, Attempts, Retries and Limits about the calls of
--     providers, Settling about claimed rows, Repeats about the width of a key, and Tapping about used
--     tokens.
--   * Tests runs the models on concrete inputs and applies the theorems there.
--
-- How the code corresponds. A transaction under `withBusinessAdvisoryLock` is a function from a
-- database to a result: the lock serialises the transactions of a business and a thrown error rolls
-- back, so a failed one leaves the database as it was. Between a service's reads and its transaction
-- others may run: the step relation of Booking.History takes the arguments of every transaction as
-- arbitrary. Instants are milliseconds in ℕ, texts that are only compared are ℕ, and amounts are ℕ.
-- The service methods of Booking.Create and Booking.Owner run one after another and carry the
-- database, the staged proof objects and the published events.
--
-- Bounds. The loop over slot starts runs on fuel, one more than the end of the window, which is enough
-- since the interval is positive; Availability.Offers proves the answer for every start. Decimal
-- numerals run on fuel one more than the number, and a division by ten makes it smaller each time.
--
-- A value that a column's type refuses, a violated CHECK constraint and a missing row are errors of
-- their own: 'system' is no uuid, so `attemptAutoResume` throws where it would promote a version. The
-- methods of Accounts are run one after another, except in Accounts.Parallel.
--
-- The booking service takes the catalog, the subscription gate and the day's slots as parameters (the
-- records Desk and Calendar), so that it does not depend on what they answer.
--
-- The subscription and schedule services share the tables Ledger: saving a template during a pause and
-- ending the pause meet there. An actor id that the code writes as 'system' is absent. The clock may
-- be read twice in one call, so approveProof takes two instants. Prisma's `update` of a missing row is
-- an error of its own.
--
-- Accounts takes the password hash, the digest of tokens and `toLowerCase` from the record AuthEnv and
-- the tokens and codes drawn as arguments. Notices takes the texts of ids from NoticeConfig, and
-- from Surroundings what a provider answers and which rows a text is rendered from; the calls of
-- providers are logged in the outbox. Users, businesses and connections are ids in ℕ, as elsewhere.
--
-- Not modelled: the wall clock of the time zone, the hash of a code and its delivery, password hashing,
-- the providers of mail and Telegram, which are parameters since they are not the program's; the
-- management of the catalog, of businesses and of admins, the Telegram webhook and the connection codes,
-- the texts of messages, cookies, the background timer and its sweep of completions, reports, the HTTP
-- layer and the user interface; reads for display alone; checksums and what a file holds beyond its
-- first bytes.
pub mod Prelude
pub mod Lifecycle
pub mod Prepayment
pub mod ProofFile
pub mod Availability
pub mod DaySlots
pub mod Errors
pub mod Store
pub mod Tenant
pub mod Texts
pub mod Subscriptions
pub mod Schedules
pub mod Worker
pub mod Accounts
pub mod Notices
pub mod Catalog
pub mod Versions
pub mod Booking
pub mod Resubmission
mod Tests

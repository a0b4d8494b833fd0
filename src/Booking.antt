-- ===== src/Booking.antt =====
-- backend/src/domain/services/booking.service.ts
pub mod Transactions
pub mod Slots
pub mod Changes
pub mod Invariant
pub mod Claims
pub mod Moves
pub mod Reopened
pub mod Idempotency
pub mod World
pub mod Owner
pub mod Completion
pub mod Claiming
pub mod Create
pub mod Reach
pub mod History
pub mod Serving
pub mod Refinement
pub mod Isolation
pub mod Tenancy
pub mod Releasing

-- ===== src/Tests.antt =====
-- Runs of the modelled code on concrete inputs, and the theorems applied there.
mod Days
mod Plans
mod Bookings
mod Calls
mod Service
mod Codes
mod Choices
mod Pauses
mod Releases
mod Subscribers
mod Schedules
mod Accounts
mod Notices
mod Taps

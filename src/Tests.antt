-- ===== src/Tests.antt =====
-- Concrete worlds and runs, on which the properties are applied.
pub mod Venue
mod Spending
mod Routes
mod Caps
mod Sizing
mod Schedule
mod Adapter
pub mod Placement
mod Guards
mod Jobs
mod Accounts
mod Saving
mod Payouts
mod Export
mod Controls
mod Prices

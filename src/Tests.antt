-- ===== src/Tests.antt =====
-- The tests: a small state over tables in memory, and the service's handlers run on it.
mod Fixture
mod Sessions
mod Onboarding
mod Accounts
mod Api
mod Sanctions
mod Operations
mod Listings

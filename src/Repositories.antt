-- ===== src/Repositories.antt =====
-- src/ride_service/repositories/: one module for each repository, and what the services rely on.
pub mod User
pub mod Driver
pub mod Ride
pub mod Rating
pub mod Laws
pub mod Queries
pub mod Accounts

-- ===== src/Routers.antt =====
-- src/ride_service/routers/: the endpoints. A handler runs behind its dependencies, in the order in
-- which FastAPI resolves them, on a body that Pydantic has parsed.
pub mod Auth
pub mod Driver
pub mod Guards
pub mod Tokens
pub mod Limits
pub mod Accounts
pub mod Rides

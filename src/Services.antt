-- ===== src/Services.antt =====
-- src/ride_service/services/: the domain logic, one module for each service. Each method is an
-- action of `Exec (World env)` and runs from its first step to its last; Interleaving has the
-- methods of rides once more with other calls between their awaits.
pub mod Driver
pub mod Ride
pub mod Rating

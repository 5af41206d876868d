-- ===== src/Client.antt =====
-- clients/python/settings_client: what a consuming service reads its settings with.
pub mod Models
pub mod Reply
pub mod Cache
pub mod Flights
